-- ===== src/Service/Preserve.antt =====
-- Each step of a job keeps the invariant of the scheduler (service/service.go).
use minijob.Prelude.{ℕ, String, ◌≡◌, ◌⊎◌, refl, inl, inr, Bool-cases, Option, none, some, nat_Eq}
use minijob.Prelude.Int64.{ℤ, pos}
use minijob.Job.{Job, EventType}
use minijob.Resources.{LockResult, locked, not_available, lock_resources}
use minijob.Service.State.{
  Service, Scheduler, Env, ApiError, now, emit, add_history, drop_pending, add_history_event_locked,
  locked_count,
}
use minijob.Service.Scheduling.{
  cannot_enqueue, lock_error, lock_resources_locked, retry_job_locked, retry_behind,
  enqueue_job_locked, enqueue_behind, to_queue, to_queue_from_pending, starts_later, read_for,
}

pub LockResult-cases :
    (r : LockResult) → ((n : ℕ) × (r ≡ locked n)) ⊎ ((q : String) × (r ≡ not_available q))
LockResult-cases (locked n) = inl (n, refl)
LockResult-cases (not_available q) = inr (q, refl)

module _ (j : Job) (s : Service) where
  abbrev pub with_locks : ℕ → Service
  with_locks n =
      emit (locked_count j.topic (pos n))
        (record s { sched = record s.sched { locks = (lock_resources j s.locks).1 } })

  pub lock_ok :
      (n : ℕ)
      → (lock_resources j s.locks).0 ≡ locked n
      → lock_resources_locked j s ≡ (none, with_locks n)
  unfolding lock_resources_locked
  lock_ok n g = rw (g, lock_resources_locked)

  pub lock_refused :
      (q : String)
      → (lock_resources j s.locks).0 ≡ not_available q
      → lock_resources_locked j s ≡ (some (cannot_enqueue j), s)
  unfolding lock_resources_locked lock_error
  lock_refused q g = rw (g, lock_resources_locked)

-- enqueueJobLocked queues the job with its locks, or it leaves the scheduler as it was.
pub enqueue_job_locked_cases {ℓ} :
    (P : Scheduler → Type ℓ) (env : Env) (j : Job) (s : Service)
    → P s.sched
    → ((n : ℕ) (t : ℤ)
        → (lock_resources j s.locks).0 ≡ locked n
        → P (
            drop_pending j.id (
              add_history EventType.enqueue t j
                (record s.sched { locks = (lock_resources j s.locks).1 }))))
    → P (enqueue_job_locked env j s).1.sched
unfolding enqueue_job_locked enqueue_behind to_queue_from_pending add_history_event_locked
enqueue_job_locked_cases P env j s refused queued = elim (Bool-cases (starts_later (now env s) j)) [
  | inl e ↦ rw e refused
  | inr e ↦ elim (LockResult-cases (lock_resources j s.locks).0) [
    | inl (n, g) ↦
        rw (e, lock_ok j (read_for j s) n g) (queued n (now env (with_locks j (read_for j s) n)) g)
    | inr (q, g) ↦ rw (e, lock_refused j (read_for j s) q g) refused
  ]
]

-- retryJobLocked puts the job in the queue with its locks, or it changes nothing.
pub retry_job_locked_cases {ℓ} :
    (P : Option ApiError × Service → Type ℓ) (env : Env) (j : Job) (s : Service)
    → P (some (cannot_enqueue j), s)
    → ((n : ℕ)
        → (lock_resources j s.locks).0 ≡ locked n
        → P (none, to_queue env j (with_locks j s n)))
    → P (retry_job_locked env j s)
unfolding retry_job_locked retry_behind
retry_job_locked_cases P env j s refused queued =
    elim (LockResult-cases (lock_resources j s.locks).0) [
      | inl (n, g) ↦ rw (lock_ok j s n g) (queued n g)
      | inr (q, g) ↦ rw (lock_refused j s q g) refused
    ]
