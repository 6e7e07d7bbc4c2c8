-- ===== src/Service/Restored/Jobs.antt =====
-- What LoadJobs makes of each loaded job (service/service.go).
use minijob.Prelude.{
  ℕ, Bool, true, false, ◌≡◌, ◌≢◌, refl, ap, ◌∙◌, Option, none, some, List, [], ◌∷◌, Map, keys,
  lookup, count, if◌then◌else◌, ltb, nat_Eq, arith,
}
use minijob.Job.{Job, JobState}
use minijob.Resources.{sorted_job_ids}
use minijob.Resources.Restoring.{count-sort_by, keys-count}
use minijob.Service.State.{Service, Env, new_service, is_pending}
use minijob.Service.Scheduling.{starts_later, try_enqueue_pending_jobs_locked}
use minijob.Service.Restore.{
  is_created, created_ids, schedule_each, start_created, restore_jobs, load_jobs,
}
use minijob.Service.Invariant.{Inv, state_of}
use minijob.Service.Loops.{try_enqueue-others}
use minijob.Service.Restored.{IsLoadable}
use minijob.Service.Restored.Starts.{
  AreCreated, count-created_ids, sorted-once, schedule_each-Inv, restore_jobs-Inv,
  restore_jobs-jobs,
}
use minijob.Service.Restored.Scheduled.{
  waits_for_pull, waits, try_enqueue-waits, schedule_each-others, schedule_each-created,
}

-- What becomes of a loaded job: a created one is scheduled, by a time that LoadJobs reads; a pending
-- one may be queued; any other one is as it was loaded.
abbrev pub Started : Env → JobState → Job → Option Job → Type 0
Started env JobState.created j o =
    (n : ℕ) × (if starts_later (env.clock n) j
      then state_of o ≡ JobState.delayed
      else waits_for_pull (state_of o) ≡ true)
Started env JobState.pending j o = waits_for_pull (state_of o) ≡ true
Started env _ j o = o ≡ some j

-- What becomes of the job of an id.
abbrev pub Restarted : Env → Option Job → Option Job → Type 0
Restarted env none o = o ≡ none
Restarted env (some j) o = Started env j.state j o

Started-by :
    (env : Env) (st : JobState) (j : Job) (o : Option Job)
    → (is_created st ≡ true → Started env JobState.created j o)
    → (is_pending st ≡ true → waits_for_pull (state_of o) ≡ true)
    → (is_created st ≡ false → is_pending st ≡ false → o ≡ some j)
    → Started env st j o
Started-by env JobState.created j o a b c = a refl
Started-by env JobState.pending j o a b c = b refl
Started-by env JobState.no_state j o a b c = c refl refl
Started-by env JobState.delayed j o a b c = c refl refl
Started-by env JobState.queued j o a b c = c refl refl
Started-by env JobState.running j o a b c = c refl refl
Started-by env JobState.succeeded j o a b c = c refl refl
Started-by env JobState.canceled j o a b c = c refl refl
Started-by env JobState.failed j o a b c = c refl refl
Started-by env JobState.deleted j o a b c = c refl refl
Started-by env JobState.hidden j o a b c = c refl refl

module _ (env : Env) (s : Service) (v : Inv s.sched) (k : ℕ) where
  try_enqueue-delayed :
      (t : Bool)
      → state_of (lookup k s.jobs) ≡ (if t then JobState.delayed else JobState.pending)
      → (if t
          then state_of (lookup k (try_enqueue_pending_jobs_locked env s).jobs) ≡ JobState.delayed
          else waits k (try_enqueue_pending_jobs_locked env s) ≡ true)
  try_enqueue-delayed true e = ap state_of (try_enqueue-others env s k v (ap is_pending e)) ∙ e
  try_enqueue-delayed false e = try_enqueue-waits env s k v (ap waits_for_pull e)

start_created-Restarted :
    (env : Env) (ids : List ℕ) (s : Service) (k : ℕ) (o : Option Job)
    → Inv s.sched
    → AreCreated ids s.jobs
    → (is_created (state_of o) ≡ true → count k ids ≢ 0)
    → lookup k s.jobs ≡ o
    → Restarted env o (lookup k (start_created env ids s).jobs)
unfolding start_created
start_created-Restarted env [] s k none v a c e = e
start_created-Restarted env [] s k (some j) v a c e =
    Started-by env j.state j (lookup k s.jobs) (λ p. absurd (c p refl)) (λ p. rw (e, p)) (λ p q. e)
start_created-Restarted env (id ∷ ids) s k none v a c e =
    let s1 = schedule_each env (id ∷ ids) s in
    let same = schedule_each-others env (id ∷ ids) s k v a (ground (arith, a k, e)) ∙ e in
    try_enqueue-others env s1 k (schedule_each-Inv env (id ∷ ids) s v a)
      (ap (λ i. is_pending (state_of i)) same)
    ∙ same
start_created-Restarted env (id ∷ ids) s k (some j) v a c e =
    let s1 = schedule_each env (id ∷ ids) s in
    let v1 = schedule_each-Inv env (id ∷ ids) s v a in
    let same : is_created j.state ≡ false → lookup k s1.jobs ≡ some j =
      λ p. schedule_each-others env (id ∷ ids) s k v a (ground (arith, a k, e, p)) ∙ e in
    Started-by env j.state j (lookup k (try_enqueue_pending_jobs_locked env s1).jobs)
      (λ p.
        let (n, st) = schedule_each-created env (id ∷ ids) s k j v a e (c p) in
        (n, try_enqueue-delayed env s1 v1 k (starts_later (env.clock n) j) st))
      (λ p. try_enqueue-waits env s1 k v1 (ground (arith, same, p)))
      (λ p q.
        try_enqueue-others env s1 k v1 (ap (λ i. is_pending (state_of i)) (same p) ∙ q) ∙ same p)

created_there : (o : Option Job) → is_created (state_of o) ≡ true → (j : Job) × (o ≡ some j)
created_there none p = cc
created_there (some j) p = (j, refl)

-- If the backend loads each job under its own id, once, and in the state of its history: behind
-- LoadJobs every created job is delayed or waits for a pull, by its time to start and a reading of the
-- clock, a pending job waits for a pull, every other job is as it was loaded, and there is no other job.
pub load_jobs_lem :
    (env : Env) (m : Map ℕ Job)
    → IsLoadable m
    → (k : ℕ) → Restarted env (lookup k m) (lookup k (load_jobs env (some m) new_service).1.jobs)
unfolding load_jobs sorted_job_ids
load_jobs_lem env m h k =
    let jobs = restore_jobs-jobs m h env in
    let ids = created_ids m (sorted_job_ids m) in
    let number = count-created_ids m (sorted_job_ids m) in
    start_created-Restarted env ids (restore_jobs env m new_service) k (lookup k m)
      (restore_jobs-Inv m h env) (λ l. rw (jobs) (ground (arith, number l, sorted-once m h l)))
      (λ p z.
        let (j, there) = created_there (lookup k m) p in
        keys-count m k j there (ground (arith, number k, p, z, count-sort_by ltb k (keys m))))
      (ap (lookup k) jobs)
