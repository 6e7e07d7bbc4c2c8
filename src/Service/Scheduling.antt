-- ===== src/Service/Scheduling.antt =====
-- From pending, delayed or hidden to queued (service/service.go).
use minijob.Prelude.{
  ℕ, suc, Bool, false, not, Option, none, some, List, [], ◌∷◌, map, lookup, keep_if, sort_by,
  if◌then◌else◌, ltb, nat_Eq,
}
use minijob.Prelude.Int64.{ℤ, pos, ltb_ℤ, eq_ℤ, neg64}
use minijob.Constants.{error_cant_enqueue_job, status_precondition_failed}
use minijob.Job.{Job, EventType, get_creation_timestamp}
use minijob.Pq.{enqueue}
use minijob.Resources.{LockResult, locked, not_available, lock_resources, requires_locked_resources}
use minijob.Queue.{or_zero}
use minijob.Service.State.{
  job_delayed, job_pending, job_enqueued, job_event, locked_count, wake_long_polls, ApiError, Env,
  Scheduler, Service, now, emit, add_history_event_locked, put_pending, drop_pending,
}

-- setJobStateToDelayedLocked
unfoldable pub set_job_state_to_delayed_locked : Env → Job → Service → Job × Service
unfolding add_history_event_locked
set_job_state_to_delayed_locked env j s =
    let (j', s') = add_history_event_locked env EventType.delay j s in
    (
      j',
      emit (job_event job_delayed j') (record s' {
        sched = record s'.sched { delayed = enqueue j.id (neg64 j.start_after) s'.delayed };
      }),
    )

-- setJobStateToPendingLocked
unfoldable pub set_job_state_to_pending_locked : Env → Job → Service → Job × Service
unfolding add_history_event_locked
set_job_state_to_pending_locked env j s =
    let (j', s') = add_history_event_locked env EventType.pending j s in
    (j', emit (job_event job_pending j') (record s' { sched = put_pending j.id s'.sched }))

unfoldable pub cannot_enqueue : Job → ApiError
cannot_enqueue j = record {
  message = "cannot enqueue job";
  code = error_cant_enqueue_job;
  http_code = status_precondition_failed;
  job_uuid = j.id;
}

-- The error of lockResourcesLocked, if LockResources fails.
unfoldable pub lock_error : Job → LockResult → Option ApiError
unfolding cannot_enqueue
lock_error j (locked n) = none
lock_error j (not_available r) = some (cannot_enqueue j)

-- lockResourcesLocked; the metric is sent only when the locks were taken
unfoldable pub lock_resources_locked : Job → Service → Option ApiError × Service
unfolding lock_error
lock_resources_locked j s = elim (lock_resources j s.locks).0 [
  | locked n ↦ (
    none,
    emit (locked_count j.topic (pos n))
        (record s { sched = record s.sched { locks = (lock_resources j s.locks).1 } }),
  )
  | not_available r ↦ (lock_error j (not_available r), s)
]

-- The part of retryJobLocked behind the locks: the event, the notification and the wake-up.
unfoldable pub to_queue : Env → Job → Service → Service
unfolding add_history_event_locked
to_queue env j s =
    let (j', s') = add_history_event_locked env EventType.enqueue j s in
    emit wake_long_polls (emit (job_event job_enqueued j') s')

-- The same in enqueueJobLocked, which also takes the job out of the pending ones.
unfoldable pub to_queue_from_pending : Env → Job → Service → Service
unfolding add_history_event_locked
to_queue_from_pending env j s =
    let (j', s') = add_history_event_locked env EventType.enqueue j s in
    emit wake_long_polls
      (emit (job_event job_enqueued j') (record s' { sched = drop_pending j.id s'.sched }))

-- retryJobLocked behind lockResourcesLocked.
unfoldable pub retry_behind : Env → Job → Option ApiError × Service → Option ApiError × Service
unfolding to_queue
retry_behind env j (some x, s) = (some x, s)
retry_behind env j (none, s) = (none, to_queue env j s)

-- retryJobLocked
unfoldable pub retry_job_locked : Env → Job → Service → Option ApiError × Service
unfolding retry_behind
retry_job_locked env j s = retry_behind env j (lock_resources_locked j s)

-- `j.StartAfter != 0 && j.StartAfter > now`
abbrev pub starts_later : ℤ → Job → Bool
starts_later t j = if eq_ℤ j.start_after (pos 0) then false else ltb_ℤ t j.start_after

-- The clock is read only where the first half of the test holds.
abbrev pub read_for : Job → Service → Service
read_for j s = record s { reads = if eq_ℤ j.start_after (pos 0) then s.reads else suc s.reads }

-- enqueueJobLocked behind lockResourcesLocked.
unfoldable pub enqueue_behind : Env → Job → Option ApiError × Service → Option ApiError × Service
unfolding to_queue_from_pending
enqueue_behind env j (some x, s) = (some x, s)
enqueue_behind env j (none, s) = (none, to_queue_from_pending env j s)

-- enqueueJobLocked
unfoldable pub enqueue_job_locked : Env → Job → Service → Option ApiError × Service
unfolding enqueue_behind cannot_enqueue
enqueue_job_locked env j s =
    if starts_later (now env s) j
    then (some (cannot_enqueue j), read_for j s)
    else enqueue_behind env j (lock_resources_locked j (read_for j s))

-- The jobs behind stored pointers.
unfoldable pub jobs_at : List ℕ → Scheduler → List Job
jobs_at [] c = []
jobs_at (id ∷ ids) c = elim (lookup id c.jobs) [ none ↦ jobs_at ids c | some j ↦ j ∷ jobs_at ids c ]

-- compareQueueOrder(a, b) < 0
unfoldable pub queue_order : Job → Job → Bool
unfolding get_creation_timestamp
queue_order a b =
    let ca = or_zero (get_creation_timestamp a) in
    let cb = or_zero (get_creation_timestamp b) in
    if eq_ℤ a.priority b.priority
    then (if eq_ℤ ca cb then ltb a.id b.id else ltb_ℤ ca cb)
    else ltb_ℤ b.priority a.priority

-- The pending jobs whose resources no other job holds, in pull order.
unfoldable pub candidates : Scheduler → List Job
unfolding jobs_at
candidates c = sort_by queue_order (
    keep_if (λ j. not (requires_locked_resources c.locks j.id j.lock_resources))
      (jobs_at c.pending c))

-- The last loop of tryEnqueuePendingJobsLocked.
unfoldable pub enqueue_each : Env → List ℕ → Service → Service
enqueue_each env [] s = s
enqueue_each env (id ∷ ids) s = elim (lookup id s.jobs) [
  | none ↦ enqueue_each env ids s
  | some j ↦ enqueue_each env ids (enqueue_job_locked env j s).1
]

-- tryEnqueuePendingJobsLocked, and TryEnqueuePendingJobs
unfoldable pub try_enqueue_pending_jobs_locked : Env → Service → Service
try_enqueue_pending_jobs_locked env s = elim s.pending [
  | [] ↦ s
  | _ ∷ _ ↦ enqueue_each env (map (λ j. j.id) (candidates s.sched)) s
]
