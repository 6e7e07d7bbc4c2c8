-- ===== src/Metrics/Counting.antt =====
-- How many of the scheduler's jobs have a topic and a state, and how a message changes that
-- (job/job.go, metrics/servicemetrics.go).
use minijob.Prelude.{
  ℕ, ◌+◌, ◌≤◌, Bool, ◌≡◌, refl, Option, none, some, [], ◌∷◌, Map, keys, lookup, lookup-delete,
  insert, delete, count, one_if, nat_eq_iff, nat_Eq, string_Eq, arith,
}
use minijob.Job.{Job}
use minijob.Service.Restored.Once.{Once, delete-Once}
use minijob.Service.Restored.Starts.{lookup_absent}

-- The jobs of a map that pass a test.
abbrev pub count_jobs : (Job → Bool) → Map ℕ Job → ℕ
count_jobs p [] = 0
count_jobs p ((k, j) ∷ m) = one_if (p j) + count_jobs p m

abbrev pub passes : (Job → Bool) → Option Job → ℕ
passes p none = 0
passes p (some j) = one_if (p j)

pub count_jobs-insert :
    (p : Job → Bool) (k : ℕ) (j : Job) (m : Map ℕ Job)
    → count_jobs p (insert k j m) + passes p (lookup k m) ≡ one_if (p j) + count_jobs p m
unfolding insert lookup
count_jobs-insert p k j [] = omega arith
count_jobs-insert p k j ((i, w) ∷ m) = ground (arith, count_jobs-insert p k j m)

delete-absent : (k : ℕ) (m : Map ℕ Job) → count k (keys m) ≡ 0 → delete k m ≡ m
unfolding delete
delete-absent k [] e = refl
delete-absent k ((i, w) ∷ m) e = ground (arith, e, delete-absent k m)

pub count_jobs-delete :
    (p : Job → Bool) (k : ℕ) (m : Map ℕ Job)
    → Once m
    → count_jobs p (delete k m) + passes p (lookup k m) ≡ count_jobs p m
unfolding delete lookup
count_jobs-delete p k [] h = omega arith
count_jobs-delete p k ((i, w) ∷ m) h = ground (
  arith,
  nat_eq_iff i k,
  h k,
  h i,
  delete-absent k m,
  count_jobs-delete p k m (λ l. omega (arith, h l)),
)

pub count_jobs-some :
    (p : Job → Bool) (k : ℕ) (j : Job) (m : Map ℕ Job)
    → lookup k m ≡ some j
    → one_if (p j) ≤ count_jobs p m
unfolding lookup
count_jobs-some p k j [] e = cc
count_jobs-some p k j ((i, w) ∷ m) e = ground (arith, e, count_jobs-some p k j m)

-- The number does not depend on the order of the entries.
pub count_jobs-lookup :
    (p : Job → Bool) (m n : Map ℕ Job)
    → Once m
    → Once n
    → ((k : ℕ) → lookup k m ≡ lookup k n)
    → count_jobs p m ≡ count_jobs p n
unfolding lookup delete
count_jobs-lookup p [] [] h g e = refl
count_jobs-lookup p [] ((i, j) ∷ n) h g e = absurd (ground (arith, e i, nat_eq_iff i i))
count_jobs-lookup p ((i, j) ∷ m) n h g e =
    let rest : Once m = λ k. omega (arith, h k) in
    let gone : lookup i m ≡ none = lookup_absent i m (ground (arith, h i, nat_eq_iff i i)) in
    let same =
      count_jobs-lookup p m (delete i n) rest (delete-Once i n g)
        (λ k. ground (arith, e k, lookup-delete i k n, gone, nat_eq_iff i k)) in
    ground (arith, same, e i, nat_eq_iff i i, count_jobs-delete p i n g)
