-- ===== src/Redis/Provider.antt =====
-- The events of the Redis backend, as writes (jobbackendprovider/redisprovider/redisprovider.go).
use Prim.Native.String.{◌++◌ as ◌++ˢ◌}
use minijob.Prelude.{
  ℕ, String, Bool, true, false, Option, none, some, List, [], ◌∷◌, ◌++◌, if◌then◌else◌,
}
use minijob.Job.{Job, is_completed}
use minijob.Service.State.{
  ServiceEvent, job_succeeded, job_deleted, job_loaded, job_deleted_all, empty_poll_received,
  Effect, job_event, service_event, job_updated, restore_flag,
}
use minijob.Redis.Ops.{WriteOp}

-- The settings, and what the provider calls: the printed uuid, and Job.ToJSON (`none` is its error).
pub record Settings : Type 0 where
  pub max_jobs : ℕ
  pub finished_job_ttl : ℕ
  pub uuid_string : ℕ → String
  pub to_json : Job → Option String

-- The calls of writer.push are listed in order.
pub record RedisProvider : Type 0 where
  pub pushes : List WriteOp
  pub restoring : Bool

-- JobUUID2RedisKey
abbrev pub job_uuid2redis_key : Settings → ℕ → String
job_uuid2redis_key c id = "job:" ++ˢ c.uuid_string id

abbrev pub push_op : WriteOp → RedisProvider → RedisProvider
push_op op p = record p { pushes = p.pushes ++ op ∷ [] }

-- saveJob; its error is not looked at.
unfoldable pub save_job : Settings → Job → ℕ → RedisProvider → RedisProvider
save_job c j ttl p = elim (c.to_json j) [
  | none ↦ p
  | some text ↦
      push_op
        (record {
          key = job_uuid2redis_key c j.id;
          value = text;
          ttl = ttl;
          del = false;
          del_all = false;
        })
        p
]

-- OnJobDeleted
unfoldable pub on_job_deleted : Settings → ℕ → RedisProvider → RedisProvider
on_job_deleted c id p =
    push_op
      (record { key = job_uuid2redis_key c id; value = ""; ttl = 0; del = true; del_all = false }) p

-- OnJobsDeleted
unfoldable pub on_jobs_deleted : RedisProvider → RedisProvider
on_jobs_deleted p =
    push_op (record { key = ""; value = ""; ttl = 0; del = false; del_all = true }) p

-- OnJobUpdated
unfoldable pub on_job_updated : Settings → Job → RedisProvider → RedisProvider
unfolding save_job
on_job_updated c j p = if is_completed j.state then p else save_job c j 0 p

-- The switch of NotifyJobEvent: OnJobSucceeded passes on the seconds, and its like pass none.
unfoldable pub on_event : Settings → ServiceEvent → Job → RedisProvider → RedisProvider
unfolding save_job on_job_deleted
on_event c job_succeeded j p = save_job c j c.finished_job_ttl p
on_event c job_deleted j p = on_job_deleted c j.id p
on_event c job_loaded j p = p
on_event c job_deleted_all j p = p
on_event c empty_poll_received j p = p
on_event c _ j p = save_job c j 0 p

-- NotifyJobEvent
unfoldable pub notify_job_event : Settings → ServiceEvent → Job → RedisProvider → RedisProvider
unfolding on_event
notify_job_event c ev j p = if p.restoring then p else on_event c ev j p

-- NotifyEvent
unfoldable pub notify_event : ServiceEvent → RedisProvider → RedisProvider
unfolding on_jobs_deleted
notify_event job_deleted_all p = if p.restoring then p else on_jobs_deleted p
notify_event _ p = p

-- What the provider does with the messages of the scheduler; those about resources write nothing.
unfoldable pub observe : Settings → Effect → RedisProvider → RedisProvider
unfolding notify_job_event notify_event on_job_updated
observe c (job_event ev j) p = notify_job_event c ev j p
observe c (service_event ev) p = notify_event ev p
observe c (job_updated j) p = on_job_updated c j p
observe c (restore_flag b) p = record p { restoring = b }
observe c _ p = p
