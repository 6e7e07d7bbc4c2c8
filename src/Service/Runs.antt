-- ===== src/Service/Runs.antt =====
-- The end of a run keeps the invariant of the scheduler (service/service.go).
use minijob.Prelude.{
  ℕ, Option, none, ◌≢◌, Option-cases, ◌≡◌, ◌⊎◌, refl, inl, inr, Bool-cases, some, lookup, leb,
  nat_eq_iff, nat_Eq, arith,
}
use minijob.Prelude.Int64.{ℤ, pos, eq_ℤ, neg64, add64}
use minijob.Job.{
  Job, JobState, EventType, add_history_event, get_state_from_event, get_count_failures,
}
use minijob.Constants.{error_cant_set_job_as_successful, error_cant_cancel_job, error_cant_fail_job}
use minijob.Retry.{compute_delay, milliseconds}
use minijob.Service.State.{
  ApiError, Service, Env, Outcome, ok, err, now, tick, emit, job_event, job_failed,
  add_history_event_locked, unlock_job_resources_locked,
}
use minijob.Service.Scheduling.{retry_job_locked, to_queue}
use minijob.Service.Finish.{
  refuse, running_job, succeed, set_job_as_successful, back_to_queue, cancel_job, terminate_job,
  on_job_failed_too_many_times_locked, hide_job, retry_job_later_locked, retry_or_wait, plan_retry,
  fail_run, fail_job_locked,
}
use minijob.Service.Invariant.{Inv, Change-Inv, here_of}
use minijob.Service.Changes.{hidden_kept}
use minijob.Service.Steps.{success-Change, fail-Change, terminate-Change, hide-Change, retry-Change}
use minijob.Service.Ends.{cancel-Change}
use minijob.Service.Preserve.{retry_job_locked_cases, with_locks}
use minijob.Service.Loops.{try_enqueue-Inv}

pub Outcome-cases {ℓ} :
    {A : Type ℓ} (o : Outcome A) → ((e : ApiError) × (o ≡ err e)) ⊎ ((a : A) × (o ≡ ok a))
Outcome-cases (ok a) = inr (a, refl)
Outcome-cases (err e) = inl (e, refl)

-- What the checks of the three methods say about the job.
pub running_job-ok :
    (code id : ℕ) (s : Service) (j : Job)
    → running_job code id s ≡ ok j
    → (lookup id s.jobs ≡ some j) × (j.state ≡ JobState.running)
unfolding running_job
running_job-ok code id s j e = ground (arith, e)

-- The job of the map is not a running one.
abbrev pub NotRunning : Option Job → Type 0
NotRunning none = Unit {0}
NotRunning (some j) = j.state ≢ JobState.running

-- The error that tells why a job cannot end: it is unknown, or not running.
abbrev pub refusal : ℕ → ℕ → Option Job → ApiError
refusal code id none = refuse "job not found" code id
refusal code id (some j) = refuse "job is not running" code id

pub running_job-err :
    (code id : ℕ) (s : Service) (x : ApiError)
    → running_job code id s ≡ err x
    → NotRunning (lookup id s.jobs) × (x ≡ refusal code id (lookup id s.jobs))
unfolding running_job
running_job-err code id s x e = elim (Option-cases (lookup id s.jobs)) [
  | inl q ↦ rw (q) (tt, ground (arith, e, q))
  | inr (j, q) ↦ rw (q) ((λ r. ground (arith, e, q, r)), ground (arith, e, q))
]

-- A job in the map that runs.
module _ (env : Env) (j : Job) (s : Service) (v : Inv s.sched) (here : lookup j.id s.jobs ≡ some j)
    (run : j.state ≡ JobState.running) where
  succeed-Inv : Inv (succeed env j s).sched
  unfolding succeed unlock_job_resources_locked add_history_event_locked
  succeed-Inv =
      try_enqueue-Inv env _
        (Change-Inv j.id _ s.sched _ (success-Change (now env s) s.sched v j here run) v)

  back_to_queue-Inv : Inv (back_to_queue env j s).sched
  unfolding back_to_queue to_queue add_history_event_locked
  back_to_queue-Inv =
      Change-Inv j.id _ s.sched _
        (cancel-Change (now env s) s.sched v j here (now env (tick s)) run) v

  terminate_job-Inv : Inv (terminate_job env j s).sched
  unfolding terminate_job add_history_event_locked unlock_job_resources_locked
  terminate_job-Inv =
      Change-Inv j.id _ s.sched _ (terminate-Change (now env s) s.sched v j here run) v

  pub hide_job-Inv : (next : ℤ) → Inv (hide_job env next j s).sched
  unfolding hide_job add_history_event_locked unlock_job_resources_locked
  hide_job-Inv next =
      Change-Inv j.id _ s.sched _ (hide-Change (now env s) s.sched v j here run (neg64 next)) v

  later-Inv : (next : ℤ) → Inv (retry_job_later_locked env next j s).sched
  unfolding retry_job_later_locked
  later-Inv next = try_enqueue-Inv env (hide_job env next j s) (hide_job-Inv next)

  retry_or_wait-Inv : (t : ℤ) → Inv (retry_or_wait env t j (retry_job_locked env j s)).sched
  unfolding retry_or_wait to_queue add_history_event_locked
  retry_or_wait-Inv t =
      retry_job_locked_cases (λ r. Inv (retry_or_wait env t j r).sched) env j s (later-Inv t)
        (λ n g.
          Change-Inv j.id _ s.sched _
            (retry-Change (now env (with_locks j s n)) s.sched v j here n s.retry (ground arith)
              (ground arith) (hidden_kept s.sched v j here JobState.running (ground arith))
              v.retry_queue g)
            v)

module _ (env : Env) (j : Job) (s : Service) (v : Inv s.sched) (here : lookup j.id s.jobs ≡ some j)
    (run : j.state ≡ JobState.running) where
  plan_retry-Inv : Inv (plan_retry env j s).sched
  unfolding plan_retry
  plan_retry-Inv =
      let delay =
        compute_delay env.float64 env.config.retry_policy.backoff (get_count_failures j) in
      elim (Bool-cases (eq_ℤ delay (pos 0))) [
        | inl e ↦ rw e (retry_or_wait-Inv env j (tick s) v here run (now env s))
        | inr e ↦
            rw e (later-Inv env j (tick s) v here run (add64 (now env s) (milliseconds delay)))
      ]

module _ (env : Env) (j : Job) (s : Service) (v : Inv s.sched) (here : lookup j.id s.jobs ≡ some j)
    (run : j.state ≡ JobState.running) where
  abbrev failed : Job
  failed = add_history_event EventType.fail (now env s) j

  fail_run-Inv : Inv (fail_run env j s).1.sched
  unfolding fail_run add_history_event_locked on_job_failed_too_many_times_locked add_history_event
      get_state_from_event
  fail_run-Inv =
      let (e, s') = add_history_event_locked env EventType.fail j s in
      let told : Service = emit (job_event job_failed failed) s' in
      let h = fail-Change (now env s) s.sched v j here run in
      let v' : Inv told.sched = Change-Inv j.id _ s.sched _ h v in
      let here' : lookup failed.id told.jobs ≡ some failed =
        rw (h.jobs_at j.id, (nat_eq_iff j.id j.id).1 refl) in
      elim (Bool-cases (leb env.config.retry_policy.max_retry (get_count_failures failed))) [
        | inl e ↦ rw e (
            try_enqueue-Inv env (terminate_job env failed told)
              (terminate_job-Inv env failed told v' here' refl))
        | inr e ↦ rw e (plan_retry-Inv env failed told v' here' refl)
      ]

-- SetJobAsSuccessful keeps the invariant.
pub set_job_as_successful-Inv :
    (env : Env) (id : ℕ) (s : Service) → Inv s.sched → Inv (set_job_as_successful env id s).1.sched
unfolding set_job_as_successful
set_job_as_successful-Inv env id s v =
    elim (Outcome-cases (running_job error_cant_set_job_as_successful id s)) [
      | inl (e, q) ↦ rw (q, set_job_as_successful) v
      | inr (j, q) ↦
          let (e, run) = running_job-ok error_cant_set_job_as_successful id s j q in
          rw (q, set_job_as_successful) (succeed-Inv env j s v (here_of s.sched id j v e).1 run)
    ]

-- CancelJob keeps the invariant.
pub cancel_job-Inv :
    (env : Env) (id : ℕ) (s : Service) → Inv s.sched → Inv (cancel_job env id s).1.sched
unfolding cancel_job
cancel_job-Inv env id s v = elim (Outcome-cases (running_job error_cant_cancel_job id s)) [
  | inl (e, q) ↦ rw (q, cancel_job) v
  | inr (j, q) ↦
      let (e, run) = running_job-ok error_cant_cancel_job id s j q in
      rw (q, cancel_job)
        (try_enqueue-Inv env (back_to_queue env j s)
          (back_to_queue-Inv env j s v (here_of s.sched id j v e).1 run))
]

-- FailJob keeps the invariant.
pub fail_job_locked-Inv :
    (env : Env) (id : ℕ) (s : Service) → Inv s.sched → Inv (fail_job_locked env id s).1.sched
unfolding fail_job_locked
fail_job_locked-Inv env id s v = elim (Outcome-cases (running_job error_cant_fail_job id s)) [
  | inl (e, q) ↦ rw (q, fail_job_locked) v
  | inr (j, q) ↦
      let (e, run) = running_job-ok error_cant_fail_job id s j q in
      rw (q, fail_job_locked) (fail_run-Inv env j s v (here_of s.sched id j v e).1 run)
]
