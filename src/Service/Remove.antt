-- ===== src/Service/Remove.antt =====
-- Deletion, the retention policy and the administration of the locks (service/service.go).
use Prim.Native.String.{◌++◌ as ◌++ˢ◌}
use minijob.Prelude.{
  ℕ, ◌-◌, ◌*◌, String, Bool, true, false, ◌||◌, Option, none, some, List, [], ◌∷◌, lookup, delete,
  without, keep_if, sort_by, map, if◌then◌else◌, ltb, length, nat_eq, nat_Eq, string_Eq,
}
use minijob.Prelude.Int64.{ℤ, pos, negsuc, ltb_ℤ, leb_ℤ, sub64, wrap64}
use minijob.Constants.{error_cant_delete_job, error_resource_not_found, status_not_found}
use minijob.Job.{Job, JobState, EventType, is_completed, get_last_update_date}
use minijob.Pq
use minijob.Pq.{clear}
use minijob.Queue.{new_queued_jobs}
use minijob.Resources.{unlock_all_resources, unlock_resource, sorted_job_ids}
use minijob.Service.State.{
  job_deleted, job_deleted_all, job_event, service_event, resource_metric, all_resources_metric,
  all_resources_unlocked, ApiError, Env, Scheduler, Service, now, tick, emit,
  add_history_event_locked, unlock_job_resources_locked,
}
use minijob.Service.Scheduling.{try_enqueue_pending_jobs_locked, jobs_at}
use minijob.Service.Finish.{refuse}

-- The writes of deleteJobLocked behind the event: the queues, svc.jobs and svc.pendingJobs.
unfoldable pub forget : ℕ → Scheduler → Scheduler
forget id c = record c {
  retry = (Pq.remove nat_eq id c.retry).0;
  delayed = (Pq.remove nat_eq id c.delayed).0;
  jobs = delete id c.jobs;
  pending = without id c.pending;
}

-- deleteJobLocked on an existing job, before the pending jobs are tried.
unfoldable pub drop_job : Env → Job → Service → Service
unfolding unlock_job_resources_locked add_history_event_locked forget
drop_job env j s =
    let (j', s') =
      add_history_event_locked env EventType.remove j (unlock_job_resources_locked j s) in
    emit (job_event job_deleted j') (record s' { sched = forget j.id s'.sched })

-- deleteJobLocked, and DeleteJob
unfoldable pub delete_job_locked : Env → ℕ → Service → Option ApiError × Service
unfolding drop_job
delete_job_locked env id s = elim (lookup id s.jobs) [
  | none ↦ (some (refuse "job not found" error_cant_delete_job id), s)
  | some j ↦ (none, try_enqueue_pending_jobs_locked env (drop_job env j s))
]

-- The writes of unlockAllResourcesLocked.
unfoldable pub unlock_all_resources_locked : Service → Service
unfolding unlock_all_resources
unlock_all_resources_locked s = emit all_resources_unlocked (
    emit all_resources_metric
      (record s { sched = record s.sched { locks = unlock_all_resources s.locks } }))

-- UnlockAllResources
unfoldable pub unlock_all : Env → Service → Service
unfolding unlock_all_resources_locked
unlock_all env s = try_enqueue_pending_jobs_locked env (unlock_all_resources_locked s)

-- DeleteAllJobs
unfoldable pub delete_all_jobs : Service → Service
unfolding unlock_all_resources_locked new_queued_jobs
delete_all_jobs s = emit (service_event job_deleted_all) (
    unlock_all_resources_locked (record s {
      sched = record {
        jobs = [];
        pending = [];
        queued = new_queued_jobs;
        retry = clear s.retry;
        delayed = clear s.delayed;
        locks = s.locks;
      };
    }))

-- The states that DeleteQueuedJobs selects.
unfoldable pub is_waiting : JobState → Bool
is_waiting JobState.created = true
is_waiting JobState.delayed = true
is_waiting JobState.pending = true
is_waiting JobState.queued = true
is_waiting _ = false

-- The last loop of DeleteQueuedJobs: it stops at the first error.
unfoldable pub delete_each : Env → List ℕ → Service → Option ApiError × Service
delete_each env [] s = (none, s)
delete_each env (id ∷ ids) s =
    let (e, s') = delete_job_locked env id s in
    elim e [ some x ↦ (some x, s') | none ↦ delete_each env ids s' ]

abbrev pub waiting_ids : Scheduler → List ℕ
waiting_ids c =
    map (λ (j : Job). j.id) (keep_if (λ j. is_waiting j.state) (jobs_at (sorted_job_ids c.jobs) c))

-- DeleteQueuedJobs
unfoldable pub delete_queued_jobs : Env → Service → Option ApiError × Service
unfolding delete_each
delete_queued_jobs env s = delete_each env (waiting_ids s.sched) s

-- The topic of the holder of a resource, for the metrics.
abbrev pub topic_of : Option Job → String
topic_of none = ""
topic_of (some j) = j.topic

abbrev pub owner_topic : Option ℕ → Scheduler → String
owner_topic none c = ""
owner_topic (some owner) c = topic_of (lookup owner c.jobs)

unfoldable pub no_resource : String → ApiError
no_resource r = record {
  message = "resource not found: " ++ˢ r;
  code = error_resource_not_found;
  http_code = status_not_found;
  job_uuid = 0;
}

-- UnlockResource of the service
unfoldable pub unlock_one : Env → String → Service → Option ApiError × Service
unfolding unlock_resource no_resource
unlock_one env r s = elim (unlock_resource r s.locks).0 [
  | false ↦ (some (no_resource r), s)
  | true ↦ (
    none,
    try_enqueue_pending_jobs_locked env (
        emit (resource_metric r (owner_topic (lookup r s.locks) s.sched))
          (record s { sched = record s.sched { locks = (unlock_resource r s.locks).1 } })),
  )
]

abbrev pub max_int64 : ℤ
max_int64 = pos 9223372036854775807

-- maxJobAge in milliseconds
abbrev pub max_age : ℤ → ℤ
max_age (pos n) = wrap64 (pos (n * 1000))
max_age (negsuc n) = max_int64

-- How many of the completed jobs are too many.
abbrev pub surplus : ℤ → ℕ → ℕ
surplus (pos n) completed = completed - n
surplus (negsuc n) completed = 0

-- The last loop of deleteOldCompletedJobsLocked, at the time `t`; `left` is how many jobs are still
-- to be deleted whatever their age. It stops at the first error.
unfoldable pub delete_old : Env → ℤ → ℤ → ℕ → List Job → Service → Service
delete_old env t age left [] s = s
delete_old env t age left (j ∷ js) s =
    let kept = delete_old env t age left js s in
    let (e, s') = delete_job_locked env j.id s in
    let deleted : Service = elim e [ some _ ↦ s' | none ↦ delete_old env t age (left - 1) js s' ] in
    if ltb 0 left || leb_ℤ age (sub64 t (get_last_update_date j)) then deleted else kept

-- The completed jobs, the oldest update first. sort.Slice and the order of the map leave open how
-- equal dates are ordered; here it is by id.
abbrev pub completed_jobs : Scheduler → List Job
completed_jobs c =
    sort_by (λ a b. ltb_ℤ (get_last_update_date a) (get_last_update_date b))
      (keep_if (λ (j : Job). is_completed j.state) (jobs_at (sorted_job_ids c.jobs) c))

-- deleteOldCompletedJobsLocked, and CheckJobsRetention
unfoldable pub delete_old_completed_jobs_locked : Env → Service → Service
unfolding delete_old
delete_old_completed_jobs_locked env s =
    let done = completed_jobs s.sched in
    let left = surplus env.config.retention_max_jobs (length done) in
    let age = max_age env.config.retention_max_job_age in
    if env.config.retention_enable then delete_old env (now env s) age left done (tick s) else s
