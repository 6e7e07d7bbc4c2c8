-- ===== src/Service/Loops.antt =====
-- tryEnqueuePendingJobsLocked keeps the invariant of the scheduler (service/service.go).
use minijob.Prelude.{
  ℕ, ◌+◌, ◌≤◌, Bool, false, not, ◌≡◌, refl, ◌∙◌, inl, inr, ◌⊎◌, Option-cases, some, List, [], ◌∷◌,
  map, lookup, count, keep_if, sort_by, insert_by, one_if, nat_eq, nat_eq_iff, nat_Eq, arith,
}
use minijob.Job.{Job, JobState}
use minijob.Resources.{requires_locked_resources}
use minijob.Service.State.{Service, Scheduler, Env, is_pending}
use minijob.Service.Scheduling.{
  enqueue_job_locked, enqueue_each, try_enqueue_pending_jobs_locked, jobs_at, candidates,
  queue_order,
}
use minijob.Service.Invariant.{Inv, Change-Inv, HasId, here_of, state_of}
use minijob.Service.Steps.{enqueue-Change}
use minijob.Service.Preserve.{enqueue_job_locked_cases}

pub List-cases {ℓ} :
    {A : Type ℓ} → (xs : List A) → (xs ≡ []) ⊎ ((y : A) × (ys : List A) × (xs ≡ y ∷ ys))
List-cases [] = inl refl
List-cases (x ∷ xs) = inr (x, xs, refl)

abbrev pub ids_of : List Job → List ℕ
ids_of js = map (λ (j : Job). j.id) js

ids_of-insert_by :
    (f : Job → Job → Bool) (k : ℕ) (j : Job) (js : List Job)
    → count k (ids_of (insert_by f j js)) ≡ one_if (nat_eq j.id k) + count k (ids_of js)
unfolding insert_by
ids_of-insert_by f k j [] = refl
ids_of-insert_by f k j (x ∷ xs) = ground (arith, ids_of-insert_by f k j xs)

ids_of-sort_by :
    (f : Job → Job → Bool) (k : ℕ) (js : List Job)
    → count k (ids_of (sort_by f js)) ≡ count k (ids_of js)
unfolding sort_by
ids_of-sort_by f k [] = refl
ids_of-sort_by f k (x ∷ xs) =
    ground (arith, ids_of-sort_by f k xs, ids_of-insert_by f k x (sort_by f xs))

ids_of-keep_if :
    (p : Job → Bool) (k : ℕ) (js : List Job) → count k (ids_of (keep_if p js)) ≤ count k (ids_of js)
ids_of-keep_if p k [] = omega arith
ids_of-keep_if p k (x ∷ xs) = ground (arith, ids_of-keep_if p k xs)

ids_of-jobs_at :
    (c : Scheduler)
    → ((k : ℕ) → HasId k (lookup k c.jobs))
    → (k : ℕ) (ids : List ℕ) → count k (ids_of (jobs_at ids c)) ≤ count k ids
unfolding jobs_at
ids_of-jobs_at c h k [] = omega arith
ids_of-jobs_at c h k (id ∷ ids) = elim (Option-cases (lookup id c.jobs)) [
  | inl e ↦ rw (e, jobs_at) (omega (arith, ids_of-jobs_at c h k ids))
  | inr (j, e) ↦
      let same : j.id ≡ id = rw e at (h id) in
      rw (e, jobs_at) (rw same (omega (arith, ids_of-jobs_at c h k ids)))
]

-- Each id of the list belongs to a pending job, and stands there once.
abbrev pub ArePending : List ℕ → Scheduler → Type 0
ArePending ids c = (k : ℕ) → count k ids ≤ one_if (is_pending (state_of (lookup k c.jobs)))

pub candidates-ArePending : (c : Scheduler) → Inv c → ArePending (ids_of (candidates c)) c
unfolding candidates
candidates-ArePending c v k =
    let free : Job → Bool = λ j. not (requires_locked_resources c.locks j.id j.lock_resources) in
    omega (
      arith,
      ids_of-sort_by queue_order k (keep_if free (jobs_at c.pending c)),
      ids_of-keep_if free k (jobs_at c.pending c),
      ids_of-jobs_at c v.ids k c.pending,
      v.pending_jobs k,
    )

-- The invariant holds, and only the job `i` differs from before.
abbrev pub Kept : ℕ → Scheduler → Scheduler → Type 0
Kept i c d = Inv d × ((k : ℕ) → nat_eq i k ≡ false → lookup k d.jobs ≡ lookup k c.jobs)

pub enqueue_job_locked-Kept :
    (env : Env) (j : Job) (s : Service)
    → Inv s.sched
    → lookup j.id s.jobs ≡ some j
    → j.state ≡ JobState.pending
    → Kept j.id s.sched (enqueue_job_locked env j s).1.sched
enqueue_job_locked-Kept env j s v here e =
    enqueue_job_locked_cases (Kept j.id s.sched) env j s (v, λ k n. refl)
      (λ n t g.
        let h = enqueue-Change t s.sched v j here n e g in
        (Change-Inv j.id _ s.sched _ h v, λ k n. rw (h.jobs_at k, n)))

enqueue_each-Inv :
    (env : Env) (ids : List ℕ) (s : Service)
    → Inv s.sched
    → ArePending ids s.sched
    → Inv (enqueue_each env ids s).sched
unfolding enqueue_each
enqueue_each-Inv env [] s v a = v
enqueue_each-Inv env (id ∷ ids) s v a = elim (Option-cases (lookup id s.jobs)) [
  | inl e ↦ rw (e, enqueue_each) (enqueue_each-Inv env ids s v (λ k. omega (arith, a k)))
  | inr (j, e) ↦
      let (same, here) = here_of s.sched id j v e in
      let p : j.state ≡ JobState.pending = ground (arith, a id, nat_eq_iff id id) in
      let h = enqueue_job_locked-Kept env j s v here p in
      rw (e, enqueue_each)
        (enqueue_each-Inv env ids (enqueue_job_locked env j s).1 h.0
          (λ k. ground (arith, a k, h.1 k, nat_eq_iff j.id k, nat_eq_iff id k)))
]

-- tryEnqueuePendingJobsLocked keeps the invariant.
pub try_enqueue-Inv :
    (env : Env) (s : Service) → Inv s.sched → Inv (try_enqueue_pending_jobs_locked env s).sched
unfolding try_enqueue_pending_jobs_locked
try_enqueue-Inv env s v = elim (List-cases s.pending) [
  | inl e ↦ rw (e, try_enqueue_pending_jobs_locked) v
  | inr (x, xs, e) ↦
      rw (e, try_enqueue_pending_jobs_locked)
        (enqueue_each-Inv env (ids_of (candidates s.sched)) s v (candidates-ArePending s.sched v))
]

pub enqueue_each-others :
    (env : Env) (ids : List ℕ) (s : Service) (i : ℕ)
    → Inv s.sched
    → ArePending ids s.sched
    → count i ids ≡ 0
    → lookup i (enqueue_each env ids s).jobs ≡ lookup i s.jobs
unfolding enqueue_each
enqueue_each-others env [] s i v a n = refl
enqueue_each-others env (id ∷ ids) s i v a n = elim (Option-cases (lookup id s.jobs)) [
  | inl e ↦
      rw (e, enqueue_each)
        (enqueue_each-others env ids s i v (λ k. omega (arith, a k)) (omega (arith, n)))
  | inr (j, e) ↦
      let (same, here) = here_of s.sched id j v e in
      let p : j.state ≡ JobState.pending = ground (arith, a id, nat_eq_iff id id) in
      let h = enqueue_job_locked-Kept env j s v here p in
      let other : nat_eq j.id i ≡ false =
        ground (arith, n, nat_eq_iff j.id i, nat_eq_iff id i, same) in
      let s' : Service = (enqueue_job_locked env j s).1 in
      let rest : ArePending ids s'.sched =
        λ k. ground (arith, a k, h.1 k, nat_eq_iff j.id k, nat_eq_iff id k) in
      rw (e, enqueue_each)
        (enqueue_each-others env ids s' i h.0 rest (omega (arith, n)) ∙ h.1 i other)
]

-- Where the invariant holds, tryEnqueuePendingJobsLocked leaves a job that is not pending as it was.
pub try_enqueue-others :
    (env : Env) (s : Service) (i : ℕ)
    → Inv s.sched
    → is_pending (state_of (lookup i s.jobs)) ≡ false
    → lookup i (try_enqueue_pending_jobs_locked env s).jobs ≡ lookup i s.jobs
unfolding try_enqueue_pending_jobs_locked
try_enqueue-others env s i v n = elim (List-cases s.pending) [
  | inl e ↦ rw (e, try_enqueue_pending_jobs_locked)
  | inr (x, xs, e) ↦
      let a = candidates-ArePending s.sched v in
      rw (e, try_enqueue_pending_jobs_locked)
        (enqueue_each-others env (ids_of (candidates s.sched)) s i v a (ground (arith, a i, n)))
]
