-- ===== src/Metrics.antt =====
-- metrics/servicemetrics.go: the counters by topic, the statistics of the topics, and the locked
-- resources. ServiceMetrics is an observer of the scheduler. Every handler runs under its mutex, and is
-- one step. The Prometheus metrics (Metrics), which the handlers also feed, are left out.
pub mod Topics
pub mod Observer
pub mod Counting
pub mod Counters
pub mod Agree
pub mod Replay
pub mod Unchanged
pub mod Observed
use minijob.Prelude.{
  ℕ, suc, ◌+◌, ◌-◌, String, Bool, true, false, not, ◌&&◌, Option, none, some, List, [], ◌∷◌, ◌++◌,
  Map, lookup, insert, delete, map_values, ◌==◌, if◌then◌else◌, nat_eq, ltb, leb, nat_Eq, string_Eq,
}
use minijob.Prelude.Int64.{ℤ, pos, negsuc, add64, ltb_ℤ}
use minijob.Job.{
  Job, JobState, get_history_states, get_queued_or_running_timestamp,
  get_duration_ms_since_last_and_first_event, same_state,
}
use minijob.Service.State.{
  ServiceEvent, job_deleted, job_loaded, job_deleted_all, Effect, job_event, service_event,
  topic_event, locked_count, resource_metric, all_resources_metric,
}

-- The counters of a topic: uint, which the number of jobs in memory does not fill.
pub record JobMetrics : Type 0 where
  pub resources_locked_count : ℕ
  pub jobs_counter_deleted : ℕ
  pub jobs_existing : ℕ
  pub jobs_status_created : ℕ
  pub jobs_status_delayed : ℕ
  pub jobs_status_pending : ℕ
  pub jobs_status_queued : ℕ
  pub jobs_status_running : ℕ
  pub jobs_status_succeeded : ℕ
  pub jobs_status_failed : ℕ
  pub jobs_status_hidden : ℕ
  pub jobs_status_canceled : ℕ

-- &JobMetrics{}
abbrev pub no_metrics : JobMetrics
no_metrics = record {
  resources_locked_count = 0;
  jobs_counter_deleted = 0;
  jobs_existing = 0;
  jobs_status_created = 0;
  jobs_status_delayed = 0;
  jobs_status_pending = 0;
  jobs_status_queued = 0;
  jobs_status_running = 0;
  jobs_status_succeeded = 0;
  jobs_status_failed = 0;
  jobs_status_hidden = 0;
  jobs_status_canceled = 0;
}

-- JobMetrics.Clear
abbrev pub clear : JobMetrics → JobMetrics
clear m = no_metrics

-- decrement
abbrev pub decrement : ℕ → ℕ
decrement n = n - 1

-- The first switch of OnJobStateChange, on the previous state.
unfoldable pub leave_state : JobState → JobMetrics → JobMetrics
leave_state JobState.created m = record m { jobs_status_created = decrement m.jobs_status_created }
leave_state JobState.delayed m = record m { jobs_status_delayed = decrement m.jobs_status_delayed }
leave_state JobState.pending m = record m { jobs_status_pending = decrement m.jobs_status_pending }
leave_state JobState.queued m = record m { jobs_status_queued = decrement m.jobs_status_queued }
leave_state JobState.running m = record m { jobs_status_running = decrement m.jobs_status_running }
leave_state JobState.succeeded m = record m {
  jobs_status_succeeded = decrement m.jobs_status_succeeded;
}
leave_state JobState.failed m = record m { jobs_status_failed = decrement m.jobs_status_failed }
leave_state JobState.hidden m = record m { jobs_status_hidden = decrement m.jobs_status_hidden }
leave_state JobState.deleted m = record m {
  jobs_counter_deleted = decrement m.jobs_counter_deleted;
}
leave_state JobState.canceled m = record m {
  jobs_status_canceled = decrement m.jobs_status_canceled;
}
leave_state _ m = m

-- Its second switch, on the new state.
unfoldable pub enter_state : JobState → JobMetrics → JobMetrics
enter_state JobState.created m = record m {
  jobs_existing = suc m.jobs_existing;
  jobs_status_created = suc m.jobs_status_created;
}
enter_state JobState.delayed m = record m { jobs_status_delayed = suc m.jobs_status_delayed }
enter_state JobState.pending m = record m { jobs_status_pending = suc m.jobs_status_pending }
enter_state JobState.queued m = record m { jobs_status_queued = suc m.jobs_status_queued }
enter_state JobState.running m = record m { jobs_status_running = suc m.jobs_status_running }
enter_state JobState.succeeded m = record m { jobs_status_succeeded = suc m.jobs_status_succeeded }
enter_state JobState.failed m = record m { jobs_status_failed = suc m.jobs_status_failed }
enter_state JobState.hidden m = record m { jobs_status_hidden = suc m.jobs_status_hidden }
enter_state JobState.canceled m = record m { jobs_status_canceled = suc m.jobs_status_canceled }
enter_state JobState.deleted m = record m {
  jobs_existing = decrement m.jobs_existing;
  jobs_counter_deleted = suc m.jobs_counter_deleted;
}
enter_state _ m = m

-- OnJobStateChange
unfoldable pub on_job_state_change : JobState → JobState → JobMetrics → JobMetrics
unfolding leave_state enter_state
on_job_state_change previous new m =
    if same_state previous new then m else enter_state new (leave_state previous m)

-- float64: the two quotients that the handlers compute.
pub record Floats (F : Type 0) : Type 0 where
  pub zero_float : F
  -- float64(a) / float64(b)
  pub ratio : ℕ → ℕ → F
  -- float64(sum / int64(n)) / 1000.0
  pub mean_seconds : ℤ → ℕ → F

-- PercentJobs is computed where it is read, and is left out.
pub record TopicMetrics (F : Type 0) : Type 0 where
  pub topic_name : String
  pub total_jobs : ℕ
  pub active_jobs : ℕ
  pub success_rate : F
  pub average_duration : F

pub record TopicCompletedJobStats : Type 0 where
  pub completed_jobs_count : ℕ
  pub cumulative_duration_ms : ℤ

-- LockDuration is computed where it is read, and is left out.
pub record ResourceMetrics : Type 0 where
  pub resource_name : String
  pub job_uuid : ℕ
  pub topic : String
  pub start_time : ℤ

pub record ServiceMetrics (F : Type 0) : Type 0 where
  pub job_metrics : Map String JobMetrics
  pub topic_metrics : Map String (TopicMetrics F)
  pub completed_stats : Map String TopicCompletedJobStats
  pub resource_metrics : Map String ResourceMetrics
  pub topics : List String

-- NewServiceMetrics
abbrev pub new_service_metrics : {F : Type 0} → ServiceMetrics F
new_service_metrics = record {
  job_metrics = [];
  topic_metrics = [];
  completed_stats = [];
  resource_metrics = [];
  topics = [];
}
