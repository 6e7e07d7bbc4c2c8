-- ===== src/Service/Outcomes.antt =====
-- What the calls that end a run do to the job, on every branch (service/service.go).
use minijob.Prelude.{
  ℕ, false, ◌≡◌, ◌⊎◌, refl, sym, ap, ◌∙◌, inl, inr, Option-cases, Option, none, some, lookup,
  nat_eq_iff, nat_Eq,
}
use minijob.Constants.{
  error_cant_set_job_as_successful, error_cant_cancel_job, error_cant_delete_job,
}
use minijob.Job.{Job, JobState, EventType, add_history_event, get_state_from_event}
use minijob.Service.State.{
  Service, Scheduler, Env, now, tick, is_pending, add_history_event_locked,
  unlock_job_resources_locked,
}
use minijob.Service.Scheduling.{to_queue, try_enqueue_pending_jobs_locked}
use minijob.Service.Finish.{
  refuse, running_job, succeed, set_job_as_successful, back_to_queue, cancel_job,
}
use minijob.Service.Remove.{drop_job, delete_job_locked}
use minijob.Service.Invariant.{Inv, Change, Change-Inv, here_of, state_of}
use minijob.Service.Steps.{success-Change}
use minijob.Service.Ends.{cancel-Change, delete-Change}
use minijob.Service.Loops.{try_enqueue-others}
use minijob.Service.Runs.{Outcome-cases, running_job-ok, NotRunning, refusal, running_job-err}

-- A job that changed, and is not pending, is as it was left when the pending jobs were tried.
pub kept_by_try :
    (env : Env) (i : ℕ) (new : Option Job) (c : Scheduler) (s : Service)
    → Inv c
    → Change i new c s.sched
    → is_pending (state_of new) ≡ false
    → lookup i (try_enqueue_pending_jobs_locked env s).jobs ≡ new
kept_by_try env i new c s v h n =
    let after : lookup i s.jobs ≡ new = rw (h.jobs_at i, (nat_eq_iff i i).1 refl) in
    try_enqueue-others env s i (Change-Inv i new c s.sched h v)
      (ap (λ o. is_pending (state_of o)) after ∙ n)
    ∙ after

module _ (env : Env) (j : Job) (s : Service) (v : Inv s.sched) (here : lookup j.id s.jobs ≡ some j)
    (run : j.state ≡ JobState.running) where
  succeed-after :
      lookup j.id (succeed env j s).jobs ≡ some (add_history_event EventType.success (now env s) j)
  unfolding succeed add_history_event_locked unlock_job_resources_locked add_history_event
      get_state_from_event
  succeed-after =
      kept_by_try env j.id _ s.sched _ v (success-Change (now env s) s.sched v j here run) refl

  back_to_queue-after :
      lookup j.id (try_enqueue_pending_jobs_locked env (back_to_queue env j s)).jobs
      ≡ some (
          add_history_event EventType.enqueue
            (now env (tick s))
            (add_history_event EventType.cancel (now env s) j))
  unfolding back_to_queue to_queue add_history_event_locked add_history_event get_state_from_event
  back_to_queue-after =
      kept_by_try env j.id _ s.sched _ v
        (cancel-Change (now env s) s.sched v j here (now env (tick s)) run) refl

drop_job-after :
    (env : Env) (j : Job) (s : Service)
    → Inv s.sched
    → lookup j.id s.jobs ≡ some j
    → lookup j.id (try_enqueue_pending_jobs_locked env (drop_job env j s)).jobs ≡ none
unfolding drop_job unlock_job_resources_locked add_history_event_locked
drop_job-after env j s v here =
    kept_by_try env j.id none s.sched _ v (delete-Change (now env s) s.sched v j here) refl

-- Where the invariant holds, SetJobAsSuccessful refuses exactly a job that
-- is unknown or not running, with the error that says which, and changes nothing; a running job has exactly one more
-- event, its success, and is in the state of that event.
pub set_job_as_successful_lem :
    (env : Env) (id : ℕ) (s : Service)
    → Inv s.sched
    → (NotRunning (lookup id s.jobs)
        × (set_job_as_successful env id s
            ≡ (some (refusal error_cant_set_job_as_successful id (lookup id s.jobs)), s)))
      ⊎ ((j : Job) × (lookup id s.jobs ≡ some j)
          × (j.state ≡ JobState.running)
          × ((set_job_as_successful env id s).0 ≡ none)
          × (lookup id (set_job_as_successful env id s).1.jobs
              ≡ some (add_history_event EventType.success (now env s) j)))
unfolding set_job_as_successful
set_job_as_successful_lem env id s v =
    elim (Outcome-cases (running_job error_cant_set_job_as_successful id s)) [
      | inl (x, q) ↦
          let (idle, is) = running_job-err error_cant_set_job_as_successful id s x q in
          inl (idle, rw (sym is, q, set_job_as_successful) refl)
      | inr (j, q) ↦
          let (e, run) = running_job-ok error_cant_set_job_as_successful id s j q in
          let (same, here) = here_of s.sched id j v e in
          let done : set_job_as_successful env id s ≡ (none, succeed env j s) =
            rw (q, set_job_as_successful) refl in
          inr (
            j,
            e,
            run,
            ap (λ r. r.0) done,
            ap (λ r. lookup id r.1.jobs) done
                ∙ ap (λ k. lookup k (succeed env j s).jobs) (sym same)
                ∙ succeed-after env j s v here run,
          )
    ]

-- Where the invariant holds, CancelJob refuses exactly a job that is unknown or not
-- running, with the error that says which, and changes nothing; a running job is back in the queue with the
-- events of the cancellation and of the enqueue.
pub cancel_job_lem :
    (env : Env) (id : ℕ) (s : Service)
    → Inv s.sched
    → (NotRunning (lookup id s.jobs)
        × (cancel_job env id s ≡ (some (refusal error_cant_cancel_job id (lookup id s.jobs)), s)))
      ⊎ ((j : Job) × (lookup id s.jobs ≡ some j)
          × (j.state ≡ JobState.running)
          × ((cancel_job env id s).0 ≡ none)
          × (lookup id (cancel_job env id s).1.jobs
              ≡ some (
                  add_history_event EventType.enqueue
                    (now env (tick s))
                    (add_history_event EventType.cancel (now env s) j))))
unfolding cancel_job
cancel_job_lem env id s v = elim (Outcome-cases (running_job error_cant_cancel_job id s)) [
  | inl (x, q) ↦
      let (idle, is) = running_job-err error_cant_cancel_job id s x q in
      inl (idle, rw (sym is, q, cancel_job) refl)
  | inr (j, q) ↦
      let (e, run) = running_job-ok error_cant_cancel_job id s j q in
      let (same, here) = here_of s.sched id j v e in
      let s' : Service = try_enqueue_pending_jobs_locked env (back_to_queue env j s) in
      let done : cancel_job env id s ≡ (none, s') = rw (q, cancel_job) refl in
      inr (
        j,
        e,
        run,
        ap (λ r. r.0) done,
        ap (λ r. lookup id r.1.jobs) done
            ∙ ap (λ k. lookup k s'.jobs) (sym same)
            ∙ back_to_queue-after env j s v here run,
      )
]

-- Where the invariant holds, DeleteJob refuses exactly an unknown job, with the error
-- that says so, and changes nothing; a job of the map is deleted without an error, and is gone.
pub delete_job_locked_lem :
    (env : Env) (id : ℕ) (s : Service)
    → Inv s.sched
    → ((lookup id s.jobs ≡ none)
        × (delete_job_locked env id s
            ≡ (some (refuse "job not found" error_cant_delete_job id), s)))
      ⊎ ((j : Job) × (lookup id s.jobs ≡ some j)
          × ((delete_job_locked env id s).0 ≡ none)
          × (lookup id (delete_job_locked env id s).1.jobs ≡ none))
unfolding delete_job_locked
delete_job_locked_lem env id s v = elim (Option-cases (lookup id s.jobs)) [
  | inl e ↦ inl (e, rw (e, delete_job_locked) refl)
  | inr (j, e) ↦
      let (same, here) = here_of s.sched id j v e in
      let s' : Service = try_enqueue_pending_jobs_locked env (drop_job env j s) in
      let done : delete_job_locked env id s ≡ (none, s') = rw (e, delete_job_locked) refl in
      inr (
        j,
        e,
        ap (λ r. r.0) done,
        ap (λ r. lookup id r.1.jobs) done
            ∙ ap (λ k. lookup k s'.jobs) (sym same)
            ∙ drop_job-after env j s v here,
      )
]
