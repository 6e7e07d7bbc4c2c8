-- ===== src/Service/State.antt =====
-- The state of the scheduler, and its basic steps (service/service.go).
-- Every method runs under the service's mutex, and is a function on the state. A `*Job` of
-- svc.jobs is given by its id wherever the source stores the pointer, and read from the map where
-- the source follows it.
use minijob.Prelude.{
  ℕ, zero, suc, length, String, Bool, true, false, Option, List, [], ◌∷◌, Map, insert, without,
  if◌then◌else◌, nat_Eq, string_Eq,
}
use minijob.Prelude.Int64.{ℤ, pos, negsuc}
use minijob.Job.{Job, JobState, EventType, add_history_event}
use minijob.Pq.{PriorityQueue, new_priority_queue}
use minijob.Resources.{LockedResources, unlock_resources}
use minijob.Retry.{RetryPolicy, Float64}
use minijob.Queue.{QueuedJobs, new_queued_jobs}
use minijob.Queue

-- event/serviceevents.go, the events that the scheduler sends
pub data ServiceEvent : Type 0 where
  job_created job_delayed job_pending job_enqueued job_started job_succeeded job_canceled job_failed
        job_hidden job_deleted job_terminated job_loaded job_deleted_all empty_poll_received :
      ServiceEvent

-- What the observers (backend, metrics, event log, callbacks) and the long polls are told. The job
-- is the value that it has at that moment.
pub data Effect : Type 0 where
  -- eventNotifier.NotifyJobEvent, NotifyEvent, NotifyTopicEvent
  job_event : ServiceEvent → Job → Effect
  service_event : ServiceEvent → Effect
  topic_event : ServiceEvent → String → Effect
  -- metrics.UpdateResourcesLockedCountMetric, OnResourceUnlocked, OnUnlockAllResources
  locked_count : String → ℤ → Effect
  resource_metric : String → String → Effect
  all_resources_metric : Effect
  -- bp.OnResourceUnlocked, OnAllResourcesUnlocked, OnJobUpdated, SetRestoreFlag
  resource_unlocked : Job → String → Effect
  all_resources_unlocked : Effect
  job_updated : Job → Effect
  restore_flag : Bool → Effect
  -- notifyQueuedLocked
  wake_long_polls : Effect

-- web/apierror/apierror.go: the fields that the scheduler sets
pub record ApiError : Type 0 where
  pub message : String
  pub code : ℕ
  pub http_code : ℕ
  pub job_uuid : ℕ

-- The part of the configuration that the scheduler reads, and bp.GetMaxJobs.
pub record Config : Type 0 where
  pub max_allowed_jobs : ℕ
  pub backend_max_jobs : ℕ
  pub retry_policy : RetryPolicy
  pub retention_enable : Bool
  pub retention_max_jobs : ℤ
  pub retention_max_job_age : ℤ

-- What the scheduler reads from outside: the n-th reading of time.Now().UnixMilli(), the n-th
-- result of uuid.NewV7 (`none` is its error), and the float formula of the backoff.
pub record Env : Type 0 where
  pub config : Config
  pub clock : ℕ → ℤ
  pub uuids : ℕ → Option ℕ
  pub float64 : Float64

-- The job containers and the locks.
pub record Scheduler : Type 0 where
  pub jobs : Map ℕ Job
  pub pending : List ℕ
  pub queued : QueuedJobs
  pub retry : PriorityQueue ℕ
  pub delayed : PriorityQueue ℕ
  pub locks : LockedResources

pub record Service : Type 0 where
  pub sched : Scheduler
  pub open sched use *
  -- how many times the clock and the generator of ids were read
  pub reads : ℕ
  pub draws : ℕ
  -- the latest first
  pub effects : List Effect

-- NewService
unfoldable pub new_service : Service
unfolding new_queued_jobs new_priority_queue
new_service = record {
  sched = record {
    jobs = [];
    pending = [];
    queued = new_queued_jobs;
    retry = new_priority_queue ℕ;
    delayed = new_priority_queue ℕ;
    locks = [];
  };
  reads = 0;
  draws = 0;
  effects = [];
}

abbrev pub now : Env → Service → ℤ
now env s = env.clock s.reads

abbrev pub tick : Service → Service
tick s = record s { reads = suc s.reads }

abbrev pub emit : Effect → Service → Service
emit e s = record s { effects = e ∷ s.effects }

abbrev pub is_queued : JobState → Bool
is_queued JobState.queued = true
is_queued _ = false

abbrev pub is_running : JobState → Bool
is_running JobState.running = true
is_running _ = false

abbrev pub is_pending : JobState → Bool
is_pending JobState.pending = true
is_pending _ = false

abbrev pub is_hidden : JobState → Bool
is_hidden JobState.hidden = true
is_hidden _ = false

abbrev pub is_delayed : JobState → Bool
is_delayed JobState.delayed = true
is_delayed _ = false

-- `if j.GetState() == job.JobQueued { svc.queuedJobs.remove(j) }`, and the same with `add`.
unfoldable pub leave : Job → QueuedJobs → QueuedJobs
leave j q = if is_queued j.state then Queue.remove j q else q

unfoldable pub enter : Job → QueuedJobs → QueuedJobs
enter j q = if is_queued j.state then Queue.add j q else q

-- addHistoryEventLocked, on a job of the map
unfoldable pub add_history : EventType → ℤ → Job → Scheduler → Scheduler
add_history ev t j c = record c {
  jobs = insert j.id (add_history_event ev t j) c.jobs;
  queued = enter (add_history_event ev t j) (leave j c.queued);
}

-- addHistoryEventLocked at the current time: the job as it is then, and the state.
unfoldable pub add_history_event_locked : Env → EventType → Job → Service → Job × Service
unfolding add_history
add_history_event_locked env ev j s = (
  add_history_event ev (now env s) j,
  record s { sched = add_history ev (now env s) j s.sched; reads = suc s.reads },
)

-- svc.pendingJobs[id] = j, and delete(svc.pendingJobs, id)
abbrev pub put_pending : ℕ → Scheduler → Scheduler
put_pending id c = record c { pending = id ∷ without id c.pending }

abbrev pub drop_pending : ℕ → Scheduler → Scheduler
drop_pending id c = record c { pending = without id c.pending }

pub data Outcome {ℓ} (A : Type ℓ) : Type ℓ where
  ok : A → Outcome A
  err : ApiError → Outcome A

-- The events that unlockJobResourcesLocked sends for the released resources, in order; the latest
-- comes first.
unfoldable pub unlock_effects : Job → List String → List Effect → List Effect
unlock_effects j [] es = es
unlock_effects j (r ∷ rs) es = unlock_effects j rs (resource_unlocked j r ∷ es)

abbrev pub minus : ℕ → ℤ
minus zero = pos 0
minus (suc n) = negsuc n

unfoldable pub released_effects : Job → List String → List Effect → List Effect
unfolding unlock_effects
released_effects j [] es = es
released_effects j (r ∷ rs) es =
    unlock_effects j (r ∷ rs) (locked_count j.topic (minus (length (r ∷ rs))) ∷ es)

-- unlockJobResourcesLocked
unfoldable pub unlock_job_resources_locked : Job → Service → Service
unlock_job_resources_locked j s = record s {
  sched = record s.sched { locks = (unlock_resources j s.locks).1 };
  effects = released_effects j (unlock_resources j s.locks).0 s.effects;
}
