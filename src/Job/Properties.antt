-- ===== src/Job/Properties.antt =====
-- The values of a job's properties, as encoding/json decodes them (job/job.go: JobProperties).
use minijob.Prelude.{Bool, String, ◌≡◌, refl, ap}
use mathlib.Core.Path.{ap₂}
use minijob.Prelude.Int64.{ℤ}

mutual
  pub data Value : Type 0 where
    null : Value
    bool : Bool → Value
    -- an int64 or a uint64
    integer : ℤ → Value
    -- a float64, by its text
    float : String → Value
    text : String → Value
    slice : Values → Value
    object : Members → Value

  pub data Values : Type 0 where
    nil : Values
    cons : Value → Values → Values

  pub data Members : Type 0 where
    end : Members
    member : String → Value → Members → Members

-- deepCopyValue
unfoldable mutual
  pub deep_copy_value : Value → Value
  deep_copy_value (object m) = object (copy_members m)
  deep_copy_value (slice s) = slice (copy_values s)
  deep_copy_value null = null
  deep_copy_value (bool b) = bool b
  deep_copy_value (integer i) = integer i
  deep_copy_value (float f) = float f
  deep_copy_value (text t) = text t

  pub copy_values : Values → Values
  copy_values nil = nil
  copy_values (cons e s) = cons (deep_copy_value e) (copy_values s)

  pub copy_members : Members → Members
  copy_members end = end
  copy_members (member k e m) = member k (deep_copy_value e) (copy_members m)

mutual
  unfolding deep_copy_value copy_values copy_members

  copy-value : (v : Value) → deep_copy_value v ≡ v
  copy-value null = refl
  copy-value (bool b) = refl
  copy-value (integer i) = refl
  copy-value (float f) = refl
  copy-value (text t) = refl
  copy-value (slice s) = ap slice (copy-values s)
  copy-value (object m) = ap object (copy-members m)

  copy-values : (s : Values) → copy_values s ≡ s
  copy-values nil = refl
  copy-values (cons e s) = ap₂ cons (copy-value e) (copy-values s)

  copy-members : (m : Members) → copy_members m ≡ m
  copy-members end = refl
  copy-members (member k e m) = ap₂ (member k) (copy-value e) (copy-members m)

pub deep_copy_value_lem : (v : Value) → deep_copy_value v ≡ v
deep_copy_value_lem v = copy-value v
