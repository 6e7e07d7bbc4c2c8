-- ===== src/Job/Json.antt =====
-- The numbers of a job's properties (job/job.go: JobProperties.UnmarshalJSON, exactNumbers and
-- numberValue), and the jobs of a JSON text.
use minijob.Prelude.{
  ℕ, String, Bool, not, ◌&&◌, ◌==◌, Option, none, some, [], ◌∷◌, Map, if◌then◌else◌, string_Eq,
}
use minijob.Prelude.Int64.{ℤ, pos}
use minijob.Job.{Job}
use minijob.Job.Properties.{
  Value, Values, Members, null, bool, integer, float, text, slice, object, nil, cons, end, member,
}

-- What encoding/json decodes with UseNumber: a number is its text (json.Number).
mutual
  pub data Raw : Type 0 where
    raw_null : Raw
    raw_bool : Bool → Raw
    number : String → Raw
    raw_text : String → Raw
    raw_slice : RawValues → Raw
    raw_object : RawMembers → Raw

  pub data RawValues : Type 0 where
    raw_nil : RawValues
    raw_cons : Raw → RawValues → RawValues

  pub data RawMembers : Type 0 where
    raw_end : RawMembers
    raw_member : String → Raw → RawMembers → RawMembers

-- The package strconv, strings.ContainsAny for ".eE", and the texts in which encoding/json writes an
-- integer and a float64. A float64 is given by one text.
pub record Numbers : Type 0 where
  pub has_point_or_exponent : String → Bool
  pub parse_int : String → Option ℤ
  pub parse_uint : String → Option ℕ
  pub parse_float : String → Option String
  pub print_integer : ℤ → String
  pub print_float : String → String

-- The test of numberValue: the number is written as an integer.
abbrev pub is_integer_text : Numbers → String → Bool
is_integer_text n s = not (s == "-0") && not (n.has_point_or_exponent s)

-- numberValue; `none` is its error.
unfoldable pub float_value : Option String → Option Value
float_value none = none
float_value (some f) = some (float f)

unfoldable pub uint_value : Numbers → String → Option ℕ → Option Value
unfolding float_value
uint_value n s none = float_value (n.parse_float s)
uint_value n s (some u) = some (integer (pos u))

unfoldable pub int_value : Numbers → String → Option ℤ → Option Value
unfolding uint_value
int_value n s none = uint_value n s (n.parse_uint s)
int_value n s (some i) = some (integer i)

unfoldable pub number_value : Numbers → String → Option Value
unfolding int_value float_value
number_value n s =
    if is_integer_text n s then int_value n s (n.parse_int s) else float_value (n.parse_float s)

abbrev and_values : Option Value → Option Values → Option Values
and_values (some v) (some s) = some (cons v s)
and_values _ _ = none

abbrev and_members : String → Option Value → Option Members → Option Members
and_members k (some v) (some m) = some (member k v m)
and_members k _ _ = none

abbrev as_slice : Option Values → Option Value
as_slice none = none
as_slice (some s) = some (slice s)

abbrev as_object : Option Members → Option Value
as_object none = none
as_object (some m) = some (object m)

-- exactNumbers, and its two loops
unfoldable mutual
  unfolding number_value

  pub exact_numbers : Numbers → Raw → Option Value
  exact_numbers n raw_null = some null
  exact_numbers n (raw_bool b) = some (bool b)
  exact_numbers n (number s) = number_value n s
  exact_numbers n (raw_text t) = some (text t)
  exact_numbers n (raw_slice s) = as_slice (exact_values n s)
  exact_numbers n (raw_object m) = as_object (exact_members n m)

  pub exact_values : Numbers → RawValues → Option Values
  exact_values n raw_nil = some nil
  exact_values n (raw_cons r s) = and_values (exact_numbers n r) (exact_values n s)

  pub exact_members : Numbers → RawMembers → Option Members
  exact_members n raw_end = some end
  exact_members n (raw_member k r m) = and_members k (exact_numbers n r) (exact_members n m)

-- JobProperties.UnmarshalJSON on properties that were nil: only null and an object are a map.
unfoldable pub unmarshal_json : Numbers → Raw → Option Value
unfolding exact_numbers
unmarshal_json n raw_null = some null
unmarshal_json n (raw_object m) = exact_numbers n (raw_object m)
unmarshal_json n _ = none

-- A job as encoding/json decodes it, up to UnmarshalJSON: the properties are null in `bare`, and the
-- states, which are not exported, are zero.
pub record RawJob : Type 0 where
  pub bare : Job
  pub properties : Raw

abbrev pub with_properties : Job → Option Value → Option Job
with_properties j none = none
with_properties j (some v) = some (record j { properties = v })

-- json.Unmarshal of a job: UnmarshalJSON is called for the properties.
unfoldable pub unmarshal_job : Numbers → RawJob → Option Job
unfolding unmarshal_json
unmarshal_job n r = with_properties r.bare (unmarshal_json n r.properties)

abbrev and_job : ℕ → Option Job → Option (Map ℕ Job) → Option (Map ℕ Job)
and_job k (some j) (some m) = some ((k, j) ∷ m)
and_job k _ _ = none

-- The same for a map of jobs.
unfoldable pub unmarshal_jobs : Numbers → Map ℕ RawJob → Option (Map ℕ Job)
unfolding unmarshal_job
unmarshal_jobs n [] = some []
unmarshal_jobs n ((k, r) ∷ m) = and_job k (unmarshal_job n r) (unmarshal_jobs n m)
