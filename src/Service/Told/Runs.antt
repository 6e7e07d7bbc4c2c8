-- ===== src/Service/Told/Runs.antt =====
-- The methods that end a run tell the observers of exactly the stored jobs (service/service.go).
use minijob.Prelude.{
  ℕ, ◌≡◌, refl, inl, inr, Bool-cases, some, Map, lookup, insert, lookup-insert, if_keeps, leb,
  nat_eq_iff, nat_Eq,
}
use minijob.Prelude.Int64.{ℤ, pos, eq_ℤ, add64}
use minijob.Constants.{error_cant_set_job_as_successful, error_cant_cancel_job, error_cant_fail_job}
use minijob.Job.{Job, EventType, add_history_event, get_count_failures}
use minijob.Retry.{compute_delay, milliseconds}
use minijob.Service.State.{
  job_event, job_succeeded, job_canceled, job_failed, job_hidden, job_terminated, Env, Service, now,
  tick, emit, add_history_event_locked, add_history, unlock_job_resources_locked,
}
use minijob.Service.Scheduling.{retry_job_locked}
use minijob.Service.Finish.{
  running_job, succeed, set_job_as_successful, back_to_queue, cancel_job, terminate_job,
  on_job_failed_too_many_times_locked, hide_job, retry_job_later_locked, retry_or_wait, plan_retry,
  fail_run, fail_job_locked,
}
use minijob.Service.Preserve.{with_locks, retry_job_locked_cases}
use minijob.Service.Runs.{Outcome-cases, running_job-ok}
use minijob.Service.Logged.{event-IsLogged, found}
use minijob.Service.Told.{
  Told, released_effects-Told, unlock-Told, to_queue-Told, try_enqueue-Told, lock-Told,
}

lookup-insert_same : (i : ℕ) (j : Job) (jobs : Map ℕ Job) → lookup i (insert i j jobs) ≡ some j
lookup-insert_same i j jobs = rw (lookup-insert i i j jobs, (nat_eq_iff i i).1 refl)

module _ (max : ℕ) (start : Map ℕ Job) where
  module _ (env : Env) (j : Job) (s : Service) (h : Told max start s)
      (here : lookup j.id s.jobs ≡ some j) where
    succeed-Told : Told max start (succeed env j s)
    unfolding succeed add_history_event_locked add_history unlock_job_resources_locked
    succeed-Told = try_enqueue-Told max start env _ (
        event-IsLogged job_succeeded EventType.success (now env s) j refl refl
          (unlock-Told max start j s h) here)

    terminate_job-Told : Told max start (terminate_job env j s)
    unfolding terminate_job add_history_event_locked add_history unlock_job_resources_locked
    terminate_job-Told =
        event-IsLogged job_terminated EventType.terminate (now env s) j refl refl
          (released_effects-Told max start _ _ s.effects s.jobs h) here

    hide_job-Told : (next : ℤ) → Told max start (hide_job env next j s)
    unfolding hide_job add_history_event_locked add_history unlock_job_resources_locked
    hide_job-Told next =
        event-IsLogged job_hidden EventType.hide (now env s) j refl refl
          (released_effects-Told max start _ _ s.effects s.jobs h) here

    later-Told : (next : ℤ) → Told max start (retry_job_later_locked env next j s)
    unfolding retry_job_later_locked
    later-Told next = try_enqueue-Told max start env (hide_job env next j s) (hide_job-Told next)

    retry_or_wait-Told : (t : ℤ) → Told max start (retry_or_wait env t j (retry_job_locked env j s))
    unfolding retry_or_wait
    retry_or_wait-Told t =
        retry_job_locked_cases (λ r. Told max start (retry_or_wait env t j r)) env j s
          (later-Told t)
          (λ n g.
            to_queue-Told max start env j (with_locks j s n) (lock-Told max start j s n h) here)

  module _ (env : Env) (j : Job) (s : Service) (h : Told max start s)
      (here : lookup j.id s.jobs ≡ some j) where
    back_to_queue-Told : Told max start (back_to_queue env j s)
    unfolding back_to_queue add_history_event_locked add_history add_history_event
    back_to_queue-Told =
        let j' : Job = add_history_event EventType.cancel (now env s) j in
        let s' : Service =
          emit (job_event job_canceled j') (add_history_event_locked env EventType.cancel j s).1 in
        to_queue-Told max start env j' s'
          (event-IsLogged job_canceled EventType.cancel (now env s) j refl refl h here)
          (lookup-insert_same j.id j' s.jobs)

    plan_retry-Told : Told max start (plan_retry env j s)
    unfolding plan_retry
    plan_retry-Told =
        let delay =
          compute_delay env.float64 env.config.retry_policy.backoff (get_count_failures j) in
        let t = now env s in
        if_keeps (Told max start) (eq_ℤ delay (pos 0))
          (retry_or_wait env t j (retry_job_locked env j (tick s)))
          (retry_job_later_locked env (add64 t (milliseconds delay)) j (tick s))
          (retry_or_wait-Told env j (tick s) h here t)
          (later-Told env j (tick s) h here (add64 t (milliseconds delay)))

  fail_run-Told :
      (env : Env) (j : Job) (s : Service)
      → Told max start s
      → lookup j.id s.jobs ≡ some j
      → Told max start (fail_run env j s).1
  unfolding fail_run add_history_event_locked add_history on_job_failed_too_many_times_locked
      add_history_event
  fail_run-Told env j s h here =
      let failed : Job = add_history_event EventType.fail (now env s) j in
      let told : Service =
        emit (job_event job_failed failed) (add_history_event_locked env EventType.fail j s).1 in
      let h' : Told max start told =
        event-IsLogged job_failed EventType.fail (now env s) j refl refl h here in
      let here' : lookup failed.id told.jobs ≡ some failed =
        lookup-insert_same j.id failed s.jobs in
      elim (Bool-cases (leb env.config.retry_policy.max_retry (get_count_failures failed))) [
        | inl e ↦ rw e (
            try_enqueue-Told max start env (terminate_job env failed told)
              (terminate_job-Told env failed told h' here'))
        | inr e ↦ rw e (plan_retry-Told env failed told h' here')
      ]

  module _ (env : Env) (id : ℕ) (s : Service) (h : Told max start s) where
    pub set_job_as_successful-Told : Told max start (set_job_as_successful env id s).1
    unfolding set_job_as_successful
    set_job_as_successful-Told =
        elim (Outcome-cases (running_job error_cant_set_job_as_successful id s)) [
          | inl (e, q) ↦ rw (q, set_job_as_successful) h
          | inr (j, q) ↦
              let e = (running_job-ok error_cant_set_job_as_successful id s j q).0 in
              rw (q, set_job_as_successful) (succeed-Told env j s h (found id j h e).1)
        ]

    pub cancel_job-Told : Told max start (cancel_job env id s).1
    unfolding cancel_job
    cancel_job-Told = elim (Outcome-cases (running_job error_cant_cancel_job id s)) [
      | inl (e, q) ↦ rw (q, cancel_job) h
      | inr (j, q) ↦
          let e = (running_job-ok error_cant_cancel_job id s j q).0 in
          rw (q, cancel_job)
            (try_enqueue-Told max start env (back_to_queue env j s)
              (back_to_queue-Told env j s h (found id j h e).1))
    ]

    pub fail_job_locked-Told : Told max start (fail_job_locked env id s).1
    unfolding fail_job_locked
    fail_job_locked-Told = elim (Outcome-cases (running_job error_cant_fail_job id s)) [
      | inl (e, q) ↦ rw (q, fail_job_locked) h
      | inr (j, q) ↦
          let e = (running_job-ok error_cant_fail_job id s j q).0 in
          rw (q, fail_job_locked) (fail_run-Told env j s h (found id j h e).1)
    ]
