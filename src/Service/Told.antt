-- ===== src/Service/Told.antt =====
-- Each step and method of the scheduler tells its observers of exactly the jobs that it stores
-- (service/service.go): from the way into the queue to the end of a run.
pub mod Runs
pub mod Deletes
pub mod Pulls
pub mod Creates
pub mod Ticks
use minijob.Prelude.{
  ℕ, suc, ◌<◌, String, Bool, true, false, ◌≡◌, refl, ap, sym, ◌∙◌, inl, inr, Bool-cases,
  Option-cases, Option, none, some, List, [], ◌∷◌, map, Map, lookup, insert, delete, insert-insert,
  delete-insert, lookup-insert, if◌then◌else◌, if_keeps, leb, length, nat_eq, nat_eq_iff, nat_Eq,
  arith,
}
use mathlib.Core.Path.{subst}
use minijob.Prelude.Int64.{ℤ, pos, eq_ℤ, add64}
use minijob.Constants.{error_cant_set_job_as_successful, error_cant_cancel_job, error_cant_fail_job}
use minijob.Job.{Job, JobState, EventType, add_history_event, get_count_failures}
use minijob.Retry.{compute_delay, milliseconds}
use minijob.Resources.{locked, not_available, lock_resources}
use minijob.Service.State.{
  Effect, job_event, job_delayed, job_pending, job_enqueued, job_succeeded, job_canceled,
  job_failed, job_hidden, job_terminated, locked_count, wake_long_polls, resource_unlocked,
  ApiError, Env, Service, Outcome, ok, err, now, tick, emit, add_history_event_locked, add_history,
  unlock_effects, released_effects, unlock_job_resources_locked,
}
use minijob.Service.Scheduling.{
  set_job_state_to_delayed_locked, set_job_state_to_pending_locked, lock_resources_locked, to_queue,
  to_queue_from_pending, retry_behind, retry_job_locked, starts_later, read_for, enqueue_behind,
  enqueue_job_locked, candidates, enqueue_each, try_enqueue_pending_jobs_locked,
}
use minijob.Service.Finish.{
  running_job, succeed, set_job_as_successful, back_to_queue, cancel_job, terminate_job,
  on_job_failed_too_many_times_locked, hide_job, retry_job_later_locked, retry_or_wait, plan_retry,
  fail_run, fail_job_locked,
}
use minijob.Service.Preserve.{
  with_locks, LockResult-cases, lock_ok, lock_refused, retry_job_locked_cases,
}
use minijob.Service.Loops.{ids_of, List-cases}
use minijob.Service.Runs.{Outcome-cases, running_job-ok}
use minijob.Service.Logged.{IsLogged, quiet-IsLogged, event-IsLogged, found}

module _ (max : ℕ) (start : Map ℕ Job) where
  -- The messages of the service tell of its jobs.
  abbrev pub Told : Service → Type 0
  Told s = IsLogged max start s.effects s.jobs

  released-Told :
      (j : Job) (rs : List String) (es : List Effect) (jobs : Map ℕ Job)
      → IsLogged max start es jobs
      → IsLogged max start (unlock_effects j rs es) jobs
  unfolding unlock_effects
  released-Told j [] es jobs h = h
  released-Told j (r ∷ rs) es jobs h =
      released-Told j rs (resource_unlocked j r ∷ es) jobs (quiet-IsLogged _ refl h)

  pub released_effects-Told :
      (j : Job) (rs : List String) (es : List Effect) (jobs : Map ℕ Job)
      → IsLogged max start es jobs
      → IsLogged max start (released_effects j rs es) jobs
  unfolding released_effects
  released_effects-Told j [] es jobs h = h
  released_effects-Told j (r ∷ rs) es jobs h =
      released-Told j (r ∷ rs) _ jobs (quiet-IsLogged _ refl h)

  pub unlock-Told : (j : Job) (s : Service) → Told s → Told (unlock_job_resources_locked j s)
  unfolding unlock_job_resources_locked
  unlock-Told j s h = released_effects-Told j _ s.effects s.jobs h

  module _ (env : Env) (j : Job) (s : Service) (h : Told s)
      (here : lookup j.id s.jobs ≡ some j) where
    pub set_delayed-Told : Told (set_job_state_to_delayed_locked env j s).1
    unfolding set_job_state_to_delayed_locked add_history_event_locked add_history
    set_delayed-Told = event-IsLogged job_delayed EventType.delay (now env s) j refl refl h here

    pub set_pending-Told : Told (set_job_state_to_pending_locked env j s).1
    unfolding set_job_state_to_pending_locked add_history_event_locked add_history
    set_pending-Told = event-IsLogged job_pending EventType.pending (now env s) j refl refl h here

    pub to_queue-Told : Told (to_queue env j s)
    unfolding to_queue add_history_event_locked add_history
    to_queue-Told =
        quiet-IsLogged wake_long_polls refl
          (event-IsLogged job_enqueued EventType.enqueue (now env s) j refl refl h here)

    to_queue_from_pending-Told : Told (to_queue_from_pending env j s)
    unfolding to_queue_from_pending add_history_event_locked add_history
    to_queue_from_pending-Told =
        quiet-IsLogged wake_long_polls refl
          (event-IsLogged job_enqueued EventType.enqueue (now env s) j refl refl h here)

  pub lock-Told : (j : Job) (s : Service) (n : ℕ) → Told s → Told (with_locks j s n)
  lock-Told j s n h = quiet-IsLogged _ refl h

  enqueue_job_locked-Told :
      (env : Env) (j : Job) (s : Service)
      → Told s
      → lookup j.id s.jobs ≡ some j
      → Told (enqueue_job_locked env j s).1
  unfolding enqueue_job_locked enqueue_behind
  enqueue_job_locked-Told env j s h here = elim (Bool-cases (starts_later (now env s) j)) [
    | inl e ↦ rw e h
    | inr e ↦ elim (LockResult-cases (lock_resources j s.locks).0) [
      | inl (n, g) ↦
          rw (e, lock_ok j (read_for j s) n g)
            (to_queue_from_pending-Told env j (with_locks j (read_for j s) n)
              (lock-Told j (read_for j s) n h) here)
      | inr (q, g) ↦ rw (e, lock_refused j (read_for j s) q g) h
    ]
  ]

  enqueue_each-Told :
      (env : Env) (ids : List ℕ) (s : Service) → Told s → Told (enqueue_each env ids s)
  unfolding enqueue_each
  enqueue_each-Told env [] s h = h
  enqueue_each-Told env (id ∷ ids) s h = elim (Option-cases (lookup id s.jobs)) [
    | inl e ↦ rw (e, enqueue_each) (enqueue_each-Told env ids s h)
    | inr (j, e) ↦
        rw (e, enqueue_each)
          (enqueue_each-Told env ids (enqueue_job_locked env j s).1
            (enqueue_job_locked-Told env j s h (found id j h e).1))
  ]

  pub try_enqueue-Told :
      (env : Env) (s : Service) → Told s → Told (try_enqueue_pending_jobs_locked env s)
  unfolding try_enqueue_pending_jobs_locked
  try_enqueue-Told env s h = elim (List-cases s.pending) [
    | inl e ↦ rw (e, try_enqueue_pending_jobs_locked) h
    | inr (x, xs, e) ↦
        rw (e, try_enqueue_pending_jobs_locked)
          (enqueue_each-Told env (ids_of (candidates s.sched)) s h)
  ]
