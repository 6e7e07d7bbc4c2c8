-- ===== src/Service/Finish.antt =====
-- The end of a run (service/service.go): SetJobAsSuccessful, CancelJob and FailJob.
use minijob.Prelude.{
  ℕ, String, Bool, true, false, Option, none, some, lookup, if◌then◌else◌, leb, nat_Eq,
}
use minijob.Prelude.Int64.{ℤ, pos, eq_ℤ, neg64, add64}
use minijob.Constants.{
  error_cant_set_job_as_successful, error_cant_cancel_job, error_cant_fail_job, status_bad_request,
}
use minijob.Job.{Job, EventType, get_count_failures}
use minijob.Pq.{enqueue}
use minijob.Retry.{compute_delay, milliseconds}
use minijob.Service.State.{
  job_succeeded, job_canceled, job_failed, job_hidden, job_terminated, job_event, ApiError, Env,
  Service, Outcome, ok, err, now, tick, emit, is_running, add_history_event_locked,
  unlock_job_resources_locked,
}
use minijob.Service.Scheduling.{to_queue, retry_job_locked, try_enqueue_pending_jobs_locked}

unfoldable pub refuse : String → ℕ → ℕ → ApiError
refuse message code id = record {
  message = message;
  code = code;
  http_code = status_bad_request;
  job_uuid = id;
}

-- The checks that the three methods begin with: the job exists, and is running.
unfoldable pub running_job : ℕ → ℕ → Service → Outcome Job
unfolding refuse
running_job code id s = elim (lookup id s.jobs) [
  | none ↦ err (refuse "job not found" code id)
  | some j ↦ if is_running j.state then ok j else err (refuse "job is not running" code id)
]

-- SetJobAsSuccessful behind its checks.
unfoldable pub succeed : Env → Job → Service → Service
unfolding unlock_job_resources_locked add_history_event_locked
succeed env j s =
    let (j', s') =
      add_history_event_locked env EventType.success j (unlock_job_resources_locked j s) in
    try_enqueue_pending_jobs_locked env (emit (job_event job_succeeded j') s')

-- SetJobAsSuccessful
unfoldable pub set_job_as_successful : Env → ℕ → Service → Option ApiError × Service
unfolding running_job succeed
set_job_as_successful env id s = elim (running_job error_cant_set_job_as_successful id s) [
  | err e ↦ (some e, s)
  | ok j ↦ (none, succeed env j s)
]

-- CancelJob behind its checks: the job goes back to the queue, with its locks.
unfoldable pub back_to_queue : Env → Job → Service → Service
unfolding add_history_event_locked to_queue
back_to_queue env j s =
    let (j', s') = add_history_event_locked env EventType.cancel j s in
    to_queue env j' (emit (job_event job_canceled j') s')

-- CancelJob
unfoldable pub cancel_job : Env → ℕ → Service → Option ApiError × Service
unfolding running_job back_to_queue
cancel_job env id s = elim (running_job error_cant_cancel_job id s) [
  | err e ↦ (some e, s)
  | ok j ↦ (none, try_enqueue_pending_jobs_locked env (back_to_queue env j s))
]

-- onJobFailedTooManyTimesLocked, before the pending jobs are tried
unfoldable pub terminate_job : Env → Job → Service → Service
unfolding add_history_event_locked unlock_job_resources_locked
terminate_job env j s =
    let (j', s') = add_history_event_locked env EventType.terminate j s in
    emit (job_event job_terminated j') (unlock_job_resources_locked j' s')

-- onJobFailedTooManyTimesLocked
unfoldable pub on_job_failed_too_many_times_locked : Env → Job → Service → Service
unfolding terminate_job
on_job_failed_too_many_times_locked env j s =
    try_enqueue_pending_jobs_locked env (terminate_job env j s)

-- retryJobLaterLocked, before the pending jobs are tried
unfoldable pub hide_job : Env → ℤ → Job → Service → Service
unfolding add_history_event_locked unlock_job_resources_locked
hide_job env next j s =
    let (j', s') = add_history_event_locked env EventType.hide j s in
    let s'' = emit (job_event job_hidden j') (unlock_job_resources_locked j' s') in
    record s'' { sched = record s''.sched { retry = enqueue j.id (neg64 next) s''.retry } }

-- retryJobLaterLocked
unfoldable pub retry_job_later_locked : Env → ℤ → Job → Service → Service
unfolding hide_job
retry_job_later_locked env next j s = try_enqueue_pending_jobs_locked env (hide_job env next j s)

-- The retry without a delay, at the time `t`, behind retryJobLocked: a job that is refused waits in
-- the retry queue.
unfoldable pub retry_or_wait : Env → ℤ → Job → Option ApiError × Service → Service
unfolding retry_job_later_locked
retry_or_wait env t j (none, s) = s
retry_or_wait env t j (some x, s) = retry_job_later_locked env t j s

-- The tail of failJobLocked for a job that may be tried again.
unfoldable pub plan_retry : Env → Job → Service → Service
unfolding retry_or_wait retry_job_later_locked
plan_retry env j s =
    let delay = compute_delay env.float64 env.config.retry_policy.backoff (get_count_failures j) in
    let t = now env s in
    if eq_ℤ delay (pos 0)
    then retry_or_wait env t j (retry_job_locked env j (tick s))
    else retry_job_later_locked env (add64 t (milliseconds delay)) j (tick s)

-- failJobLocked behind its checks; the flag says that the job has reached the last retry.
unfoldable pub fail_run : Env → Job → Service → Bool × Service
unfolding add_history_event_locked plan_retry on_job_failed_too_many_times_locked
fail_run env j s =
    let (j', s') = add_history_event_locked env EventType.fail j s in
    let s'' = emit (job_event job_failed j') s' in
    if leb env.config.retry_policy.max_retry (get_count_failures j')
    then (true, on_job_failed_too_many_times_locked env j' s'')
    else (false, plan_retry env j' s'')

-- failJobLocked, and FailJob
unfoldable pub fail_job_locked : Env → ℕ → Service → Outcome Bool × Service
unfolding running_job fail_run
fail_job_locked env id s = elim (running_job error_cant_fail_job id s) [
  | err e ↦ (err e, s)
  | ok j ↦ let (reached, s') = fail_run env j s in (ok reached, s')
]
