-- ===== src/Examples/Numbers.antt =====
-- The texts of numbers, as strings of letters.
use Prim.Native.String.{count}
use minijob.Prelude.{
  ℕ, ◌+◌, ◌-◌, ◌*◌, ◌/◌, ◌%◌, ◌<◌, String, true, false, ◌==◌, ◌≡◌, refl, sym, ap, ◌∙◌, Option, none,
  some, inl, inr, Bool-cases, if◌then◌else◌, ltb, nat_eq, string_Eq, arith,
}
use minijob.Prelude.Int64.{ℤ, pos, negsuc}
use minijob.Job.{Job}
use minijob.Job.Properties.{Members, object, member, integer, float}
use minijob.Examples.{job_a}
use minijob.Job.Json.{Numbers, is_integer_text, unmarshal_job}
use minijob.Job.Rereads.{
  AreNumbers, IsExact, AreExact, MembersExact, raw_job, stateless, unmarshal_job-raw_job,
}
use minijob.Examples.Shutdown.{letters, count-letters}

-- A number from 0 on has an even number of letters, and a negative one an odd number.
abbrev size : ℤ → ℕ
size (pos m) = 4 + 2 * m
size (negsuc m) = 5 + 2 * m

abbrev parse_letters : ℕ → Option ℤ
parse_letters c =
    if nat_eq (c % 2) 0
    then (if ltb (c / 2) 9223372036854775810 then some (pos (c / 2 - 2)) else none)
    else some (negsuc (c / 2 - 2))

abbrev pub numbers_a : Numbers
numbers_a = record {
  has_point_or_exponent = λ s. s == "1.5";
  parse_int = λ s. parse_letters (count s);
  parse_uint = λ s. some (count s / 2 - 2);
  parse_float = λ s. some s;
  print_integer = λ i. letters (size i);
  print_float = λ f. f;
}

long : (n : ℕ) (s : String) → count s < n → (letters n == s) ≡ false
long n s l = elim (Bool-cases (letters n == s)) [
  | inl e ↦
      let same = sym (count-letters n) ∙ ap count ((string_Eq.equal_iff (letters n) s).0 e) in
      absurd (omega (arith, same, l))
  | inr e ↦ e
]

above : (i : ℤ) → 3 < size i
above (pos m) = omega arith
above (negsuc m) = omega arith

integer_text : (i : ℤ) → is_integer_text numbers_a (letters (size i)) ≡ true
integer_text i =
    rw (long (size i) "-0" (omega (arith, above i)), long (size i) "1.5" (above i)) refl

pub numbers_a-AreNumbers : AreNumbers numbers_a
numbers_a-AreNumbers = record {
  integer_text = integer_text;
  small = λ m l. rw (count-letters (4 + 2 * m)) (ground (arith, l));
  below = λ m l. rw (count-letters (5 + 2 * m)) (ground (arith, l));
  large = λ m h l. (
    rw (count-letters (4 + 2 * m)) (ground (arith, h)),
    rw (count-letters (4 + 2 * m)) (ground (arith, h)),
  );
  float_text = λ f. refl;
}

-- A job with an integer and a float64 among its properties.
abbrev job_n : Job
job_n = record job_a {
  properties =
      object (member "copies" (integer (pos 3)) (member "scale" (float "1.5") Members.end));
}

unmarshal_job-raw_job_example :
    unmarshal_job numbers_a (raw_job numbers_a job_n) ≡ some (stateless job_n)
unfolding IsExact AreExact MembersExact
unmarshal_job-raw_job_example =
    unmarshal_job-raw_job numbers_a numbers_a-AreNumbers job_n (omega arith, (refl, tt))
