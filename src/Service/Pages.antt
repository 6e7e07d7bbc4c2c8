-- ===== src/Service/Pages.antt =====
-- The pages of jobs hold every job that is asked for, once and in order (GetJobs in
-- service/service.go).
use minijob.Prelude.{
  ℕ, zero, suc, ◌+◌, ◌-◌, ◌*◌, ◌/◌, ◌≤◌, ◌<◌, min, Bool, false, ◌≡◌, refl, sym, ap, ◌∙◌, inl, inr,
  Bool-cases, Option, none, some, List, [], ◌∷◌, ◌++◌, map, length, take, drop, length-drop,
  if◌then◌else◌, ltb, ltb→lt, nat_eq, arith,
}
use minijob.Job.{Job, JobState, state_string}
use minijob.Service.State.{Service}
use minijob.Service.Listing.{
  Strings, GetJobsRequest, GetJobsResponse, string_to_job_state, is_wanted, filter_jobs, sort_jobs,
  get_jobs,
}
use native.Mathlib.Nat.{lt-div-mul-add}

-- A state that is printed is read as the same state.
pub string_to_job_state-state_string : (st : JobState) → string_to_job_state (state_string st) ≡ st
unfolding string_to_job_state state_string
string_to_job_state-state_string JobState.no_state = refl
string_to_job_state-state_string JobState.created = refl
string_to_job_state-state_string JobState.delayed = refl
string_to_job_state-state_string JobState.pending = refl
string_to_job_state-state_string JobState.queued = refl
string_to_job_state-state_string JobState.running = refl
string_to_job_state-state_string JobState.succeeded = refl
string_to_job_state-state_string JobState.canceled = refl
string_to_job_state-state_string JobState.failed = refl
string_to_job_state-state_string JobState.deleted = refl
string_to_job_state-state_string JobState.hidden = refl

take-nil : (n : ℕ) → take {A = Job} n [] ≡ []
take-nil zero = refl
take-nil (suc n) = refl

take-all : (n : ℕ) (xs : List Job) → length xs ≤ n → take n xs ≡ xs
take-all zero [] h = refl
take-all zero (x ∷ xs) h = absurd (omega (arith, h))
take-all (suc n) [] h = refl
take-all (suc n) (x ∷ xs) h = ap (x ∷◌) (take-all n xs (omega (arith, h)))

take-add : (a b : ℕ) (xs : List Job) → take (a + b) xs ≡ take a xs ++ take b (drop a xs)
take-add zero b xs = ap (λ n. take n xs) (omega arith)
take-add (suc a) b [] = take-nil (suc a + b) ∙ sym (take-nil b)
take-add (suc a) b (x ∷ xs) =
    let same : suc a + b ≡ suc (a + b) = omega arith in
    ap (λ n. take n (x ∷ xs)) same ∙ ap (x ∷◌) (take-add a b xs)

take-min : (n : ℕ) (xs : List Job) → take (min n (length xs)) xs ≡ take n xs
take-min zero xs = let same : min zero (length xs) ≡ zero = omega arith in ap (λ n. take n xs) same
take-min (suc n) [] = take-nil (min (suc n) 0)
take-min (suc n) (x ∷ xs) =
    let same : min (suc n) (suc (length xs)) ≡ suc (min n (length xs)) = omega arith in
    ap (λ m. take m (x ∷ xs)) same ∙ ap (x ∷◌) (take-min n xs)

length-nil : (xs : List Job) → length xs ≡ 0 → xs ≡ []
length-nil [] e = refl
length-nil (x ∷ xs) e = absurd (omega (arith, e))

-- The part of a list that a page shows.
abbrev part : ℕ → ℕ → List Job → List Job
part limit page xs =
    let start = (page - 1) * limit in
    if ltb start (length xs)
    then take (min (page * limit) (length xs) - start) (drop start xs)
    else []

between_lem :
    (limit start stop : ℕ) (xs : List Job)
    → stop ≡ start + limit
    → (if ltb start (length xs) then take (min stop (length xs) - start) (drop start xs) else [])
      ≡ take limit (drop start xs)
between_lem limit start stop xs h = elim (Bool-cases (ltb start (length xs))) [
  | inl e ↦
      let same : min stop (length xs) - start ≡ min limit (length (drop start xs)) =
        omega (arith, h, ltb→lt start (length xs) e, length-drop start xs) in
      simp (e) (ap (λ n. take n (drop start xs)) same ∙ take-min limit (drop start xs))
  | inr e ↦
      let small : length (drop start xs) ≡ 0 = ground (arith, e, length-drop start xs) in
      simp (e) (sym (ap (take limit) (length-nil (drop start xs) small) ∙ take-nil limit))
]

part_lem : (limit n : ℕ) (xs : List Job) → part limit (suc n) xs ≡ take limit (drop (n * limit) xs)
part_lem limit n xs =
    let before : (suc n - 1) * limit ≡ n * limit = ap (λ m. m * limit) (omega arith) in
    let next : suc n * limit ≡ n * limit + limit = omega arith in
    between_lem limit ((suc n - 1) * limit) (suc n * limit) xs
      (next ∙ ap (λ m. m + limit) (sym before))
    ∙ ap (λ m. take limit (drop m xs)) before

-- The jobs of the pages from the first one.
abbrev parts : ℕ → ℕ → List Job → List Job
parts limit zero xs = []
parts limit (suc n) xs = parts limit n xs ++ part limit (suc n) xs

parts_lem : (limit n : ℕ) (xs : List Job) → parts limit n xs ≡ take (n * limit) xs
parts_lem limit zero xs =
    let none_yet : 0 ≡ zero * limit = omega arith in ap (λ n. take n xs) none_yet
parts_lem limit (suc n) xs =
    let next : suc n * limit ≡ n * limit + limit = omega arith in
    ap (λ ys. ys ++ part limit (suc n) xs) (parts_lem limit n xs)
    ∙ ap (take (n * limit) xs ++◌) (part_lem limit n xs)
    ∙ sym (take-add (n * limit) limit xs)
    ∙ ap (λ m. take m xs) (sym next)

enough_pages : (limit total : ℕ) → 0 < limit → total ≤ (total + limit - 1) / limit * limit
enough_pages limit total h = omega (arith, lt-div-mul-add {a = total + limit - 1} {b = limit} h, h)

abbrev jobs_of : Option GetJobsResponse → List Job
jobs_of none = []
jobs_of (some response) = response.jobs

abbrev pub total_pages_of : Option GetJobsResponse → ℕ
total_pages_of none = 0
total_pages_of (some response) = response.total_pages

-- The jobs of the responses to the requests for the first pages.
abbrev pub pages : Strings → GetJobsRequest → Service → ℕ → List Job
pages f req s zero = []
pages f req s (suc n) = pages f req s n ++ jobs_of (get_jobs f (record req { page = suc n }) s)

if_some :
    {b : Bool} {response : GetJobsResponse}
    → b ≡ false
    → (if b then none else some response) ≡ some response
if_some e = ground (arith, e)

pages-parts :
    (f : Strings) (req : GetJobsRequest) (s : Service)
    → 0 < req.limit
    → (n : ℕ)
    → pages f req s n
      ≡ parts req.limit n
          (sort_jobs f req.sort (filter_jobs f req (map (λ (e : ℕ × Job). e.1) s.jobs)))
unfolding get_jobs filter_jobs is_wanted
pages-parts f req s h zero = refl
pages-parts f req s h (suc n) =
    let xs = sort_jobs f req.sort (filter_jobs f req (map (λ (e : ℕ × Job). e.1) s.jobs)) in
    let some_limit : nat_eq req.limit 0 ≡ false = ground (arith, h) in
    ap (λ ys. ys ++ jobs_of (get_jobs f (record req { page = suc n }) s)) (pages-parts f req s h n)
    ∙ ap (λ o. parts req.limit n xs ++ jobs_of o) (if_some some_limit)

-- With a positive limit, the pages up to the last one, which every response names, are together
-- the jobs that pass the filter, in the order asked for.
pub pages_lem :
    (f : Strings) (req : GetJobsRequest) (s : Service)
    → 0 < req.limit
    → pages f req s (total_pages_of (get_jobs f req s))
      ≡ sort_jobs f req.sort (filter_jobs f req (map (λ (e : ℕ × Job). e.1) s.jobs))
unfolding get_jobs
pages_lem f req s h =
    let xs = sort_jobs f req.sort (filter_jobs f req (map (λ (e : ℕ × Job). e.1) s.jobs)) in
    let some_limit : nat_eq req.limit 0 ≡ false = ground (arith, h) in
    ap (pages f req s) (ap total_pages_of (if_some some_limit))
    ∙ pages-parts f req s h ((length xs + req.limit - 1) / req.limit)
    ∙ parts_lem req.limit ((length xs + req.limit - 1) / req.limit) xs
    ∙ take-all ((length xs + req.limit - 1) / req.limit * req.limit) xs
        (enough_pages req.limit (length xs) h)
