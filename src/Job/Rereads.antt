-- ===== src/Job/Rereads.antt =====
-- The properties that encoding/json writes, and UnmarshalJSON of job/job.go reads again.
use minijob.Prelude.{
  ℕ, ◌<◌, ◌≤◌, String, true, false, ◌≡◌, refl, ap, none, some, [], ◌∷◌, Map, map_values, ltb, inl,
  inr, Bool-cases, string_Eq, nat_Eq, arith,
}
use minijob.Prelude.Int64.{ℤ, pos, negsuc}
use minijob.Job.{Job, JobState}
use minijob.Job.Properties.{
  Value, Values, Members, null, bool, integer, float, text, slice, object, nil, cons, end, member,
}
use minijob.Job.Json.{
  Raw, RawValues, RawMembers, raw_null, raw_bool, number, raw_text, raw_slice, raw_object, raw_nil,
  raw_cons, raw_end, raw_member, Numbers, is_integer_text, float_value, uint_value, int_value,
  number_value, exact_numbers, exact_values, exact_members, unmarshal_json, RawJob, unmarshal_job,
  unmarshal_jobs,
}

-- What the packages promise: the text of an integer has no point, no exponent and no minus zero, and
-- the parsers read it where it is in their range; the text of a float64 is read as that float64.
pub record AreNumbers (n : Numbers) : Type 0 where
  pub integer_text : (i : ℤ) → is_integer_text n (n.print_integer i) ≡ true
  pub small :
      (m : ℕ) → m < 9223372036854775808 → n.parse_int (n.print_integer (pos m)) ≡ some (pos m)
  pub below :
      (m : ℕ) → m < 9223372036854775808 → n.parse_int (n.print_integer (negsuc m)) ≡ some (negsuc m)
  pub large :
      (m : ℕ)
      → 9223372036854775808 ≤ m
      → m < 18446744073709551616
      → (n.parse_int (n.print_integer (pos m)) ≡ none)
        × (n.parse_uint (n.print_integer (pos m)) ≡ some m)
  pub float_text : (f : String) → n.parse_float (n.print_float f) ≡ some f

-- What encoding/json writes of a value, read with UseNumber.
unfoldable mutual
  pub raw_of : Numbers → Value → Raw
  raw_of n null = raw_null
  raw_of n (bool b) = raw_bool b
  raw_of n (integer i) = number (n.print_integer i)
  raw_of n (float f) = number (n.print_float f)
  raw_of n (text t) = raw_text t
  raw_of n (slice s) = raw_slice (raw_values n s)
  raw_of n (object m) = raw_object (raw_members n m)

  raw_values : Numbers → Values → RawValues
  raw_values n nil = raw_nil
  raw_values n (cons v s) = raw_cons (raw_of n v) (raw_values n s)

  raw_members : Numbers → Members → RawMembers
  raw_members n end = raw_end
  raw_members n (member k v m) = raw_member k (raw_of n v) (raw_members n m)

-- An int64 or a uint64.
abbrev pub IsMachine : ℤ → Type 0
IsMachine (pos m) = m < 18446744073709551616
IsMachine (negsuc m) = m < 9223372036854775808

-- The integers are those of the machine, and no float64 is written as an integer is, as 1.0 is.
unfoldable mutual
  pub IsExact : Numbers → Value → Type 0
  IsExact n null = Unit {0}
  IsExact n (bool b) = Unit {0}
  IsExact n (integer i) = IsMachine i
  IsExact n (float f) = is_integer_text n (n.print_float f) ≡ false
  IsExact n (text t) = Unit {0}
  IsExact n (slice s) = AreExact n s
  IsExact n (object m) = MembersExact n m

  pub AreExact : Numbers → Values → Type 0
  AreExact n nil = Unit {0}
  AreExact n (cons v s) = IsExact n v × AreExact n s

  pub MembersExact : Numbers → Members → Type 0
  MembersExact n end = Unit {0}
  MembersExact n (member k v m) = IsExact n v × MembersExact n m

module _ (n : Numbers) (g : AreNumbers n) where
  integer_lem : (i : ℤ) → IsMachine i → number_value n (n.print_integer i) ≡ some (integer i)
  unfolding number_value int_value uint_value
  integer_lem (pos m) h = elim (Bool-cases (ltb m 9223372036854775808)) [
    | inl l ↦ rw (g.integer_text (pos m), g.small m (ground (arith, l))) refl
    | inr l ↦
        let (no_int, uint) = g.large m (ground (arith, l)) h in
        rw (g.integer_text (pos m), no_int) (ap (uint_value n (n.print_integer (pos m))) uint)
  ]
  integer_lem (negsuc m) h = rw (g.integer_text (negsuc m), g.below m h) refl

  float_lem :
      (f : String)
      → is_integer_text n (n.print_float f) ≡ false
      → number_value n (n.print_float f) ≡ some (float f)
  unfolding number_value float_value
  float_lem f h = rw (h, g.float_text f) refl

  mutual
    unfolding exact_numbers exact_values exact_members raw_of raw_values raw_members IsExact
        AreExact MembersExact

    exact_numbers-raw_of : (v : Value) → IsExact n v → exact_numbers n (raw_of n v) ≡ some v
    exact_numbers-raw_of null h = refl
    exact_numbers-raw_of (bool b) h = refl
    exact_numbers-raw_of (integer i) h = integer_lem i h
    exact_numbers-raw_of (float f) h = float_lem f h
    exact_numbers-raw_of (text t) h = refl
    exact_numbers-raw_of (slice s) h = rw (exact_values-raw_values s h) refl
    exact_numbers-raw_of (object m) h = rw (exact_members-raw_members m h) refl

    exact_values-raw_values : (s : Values) → AreExact n s → exact_values n (raw_values n s) ≡ some s
    exact_values-raw_values nil h = refl
    exact_values-raw_values (cons v s) (h, hs) =
        rw (exact_numbers-raw_of v h, exact_values-raw_values s hs) refl

    exact_members-raw_members :
        (m : Members) → MembersExact n m → exact_members n (raw_members n m) ≡ some m
    exact_members-raw_members end h = refl
    exact_members-raw_members (member k v m) (h, hs) =
        rw (exact_numbers-raw_of v h, exact_members-raw_members m hs) refl

-- The properties are a map that can be read again.
abbrev pub HasProperties : Numbers → Value → Type 0
HasProperties n null = Unit {0}
HasProperties n (object m) = IsExact n (object m)
HasProperties n _ = ⊥

abbrev pub HaveProperties : Numbers → Map ℕ Job → Type 0
HaveProperties n [] = Unit {0}
HaveProperties n ((k, j) ∷ m) = HasProperties n j.properties × HaveProperties n m

-- What encoding/json writes of a job, as it decodes it.
abbrev pub raw_job : Numbers → Job → RawJob
raw_job n j = record {
  bare = record j {
    properties = null;
    state = JobState.no_state;
    previous_state = JobState.no_state;
  };
  properties = raw_of n j.properties;
}

-- A job without its states.
abbrev pub stateless : Job → Job
stateless j = record j { state = JobState.no_state; previous_state = JobState.no_state }

module _ (n : Numbers) (g : AreNumbers n) where
  unmarshal_json-raw_of : (v : Value) → HasProperties n v → unmarshal_json n (raw_of n v) ≡ some v
  unfolding unmarshal_json raw_of
  unmarshal_json-raw_of null h = refl
  unmarshal_json-raw_of (object m) h = exact_numbers-raw_of n g (object m) h
  unmarshal_json-raw_of (bool b) h = absurd h
  unmarshal_json-raw_of (integer i) h = absurd h
  unmarshal_json-raw_of (float f) h = absurd h
  unmarshal_json-raw_of (text t) h = absurd h
  unmarshal_json-raw_of (slice s) h = absurd h

  -- A job whose properties are null or a map, with integers that are int64 or uint64 values and float64
  -- values that are not written as integers, is read again by the UnmarshalJSON of the program from
  -- what encoding/json writes of it: only the states are zero.
  pub unmarshal_job-raw_job :
      (j : Job) → HasProperties n j.properties → unmarshal_job n (raw_job n j) ≡ some (stateless j)
  unfolding unmarshal_job
  unmarshal_job-raw_job j h = rw (unmarshal_json-raw_of j.properties h) refl

  pub unmarshal_jobs-raw_job :
      (m : Map ℕ Job)
      → HaveProperties n m
      → unmarshal_jobs n (map_values (raw_job n) m) ≡ some (map_values stateless m)
  unfolding unmarshal_jobs
  unmarshal_jobs-raw_job [] h = refl
  unmarshal_jobs-raw_job ((k, j) ∷ m) (h, hs) =
      rw (unmarshal_job-raw_job j h, unmarshal_jobs-raw_job m hs) refl
