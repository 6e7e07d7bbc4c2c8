-- ===== src/Metrics/Observer.antt =====
-- The handlers of ServiceMetrics (metrics/servicemetrics.go).
use minijob.Prelude.{
  ℕ, suc, ◌+◌, String, Bool, true, false, Option, none, some, List, [], ◌∷◌, Map, lookup, insert,
  delete, map_values, ◌==◌, if◌then◌else◌, nat_eq, nat_Eq, string_Eq,
}
use minijob.Prelude.Int64.{negsuc}
use minijob.Job.{
  Job, JobState, get_history_states, get_queued_or_running_timestamp,
  get_duration_ms_since_last_and_first_event,
}
use minijob.Service.State.{
  ServiceEvent, job_deleted, job_loaded, job_deleted_all, Effect, job_event, service_event,
  topic_event, locked_count, resource_metric, all_resources_metric,
}
use minijob.Metrics.{
  JobMetrics, clear, on_job_state_change, Floats, TopicMetrics, ResourceMetrics, ServiceMetrics,
}
use minijob.Metrics.Topics.{
  counters, is_active_state, add_topic, change_counters, change_topic_metrics, update_topic_metrics,
  update_resources_locked_count,
}

-- The states in which NotifyJobEvent stores the resources of the job, and those in which it removes
-- them.
abbrev pub stores_resources : JobState → Bool
stores_resources JobState.queued = true
stores_resources JobState.running = true
stores_resources _ = false

abbrev pub removes_resources : JobState → Bool
removes_resources JobState.succeeded = true
removes_resources JobState.failed = true
removes_resources JobState.canceled = true
removes_resources JobState.deleted = true
removes_resources JobState.hidden = true
removes_resources _ = false

-- s.ResourceMetricsMap.Store for each resource of a job
unfoldable pub store_resources :
    Job → List String → Map String ResourceMetrics → Map String ResourceMetrics
store_resources j [] m = m
store_resources j (r ∷ rs) m = store_resources j rs (
    insert r
      (record {
        resource_name = r;
        job_uuid = j.id;
        topic = j.topic;
        start_time = get_queued_or_running_timestamp j;
      })
      m)

abbrev pub is_of : ℕ → Option ResourceMetrics → Bool
is_of id none = false
is_of id (some r) = nat_eq r.job_uuid id

-- The loop that removes the resources of a job.
unfoldable pub remove_resources :
    Job → List String → Map String ResourceMetrics → Map String ResourceMetrics
remove_resources j [] m = m
remove_resources j (r ∷ rs) m =
    remove_resources j rs (if is_of j.id (lookup r m) then delete r m else m)

-- UpdateMetricsFromJobHistory: its first loop
unfoldable pub replay : JobState → List JobState → JobMetrics → JobMetrics
unfolding on_job_state_change
replay previous [] m = m
replay previous (new ∷ states) m = replay new states (on_job_state_change previous new m)

-- The loop of OnDeleteAllJobs over the counters.
abbrev pub delete_all_of : JobMetrics → JobMetrics
delete_all_of m = record (clear m) {
  jobs_counter_deleted = m.jobs_counter_deleted + m.jobs_existing;
}

module _ {F : Type 0} (floats : Floats F) where
  -- UpdateMetricsFromJobHistory
  unfoldable pub update_metrics_from_job_history : Job → ServiceMetrics F → ServiceMetrics F
  unfolding change_counters replay change_topic_metrics store_resources
  update_metrics_from_job_history j s =
      let s1 =
        change_counters floats j.topic (replay JobState.no_state (get_history_states j.history))
          s in
      let s2 =
        change_topic_metrics floats j.topic
          (λ m. record m {
            total_jobs = suc m.total_jobs;
            active_jobs = if is_active_state j.state then suc m.active_jobs else m.active_jobs;
          })
          s1 in
      record s2 {
        resource_metrics =
            if stores_resources j.state
            then store_resources j j.lock_resources s2.resource_metrics
            else s2.resource_metrics;
      }

  -- The state that NotifyJobEvent counts: a deleted job leaves the counters.
  abbrev pub counted_state : ServiceEvent → Job → JobState
  counted_state job_deleted j = JobState.deleted
  counted_state ev j = j.state

  -- The switch of NotifyJobEvent for the resources of the job.
  unfoldable pub change_resources :
      JobState → Job → Map String ResourceMetrics → Map String ResourceMetrics
  unfolding store_resources remove_resources
  change_resources new j m =
      if stores_resources new
      then store_resources j j.lock_resources m
      else if removes_resources new
      then remove_resources j j.lock_resources m
      else m

  -- NotifyJobEvent for an event that is not job_loaded.
  unfoldable pub count_event : ServiceEvent → Job → ServiceMetrics F → ServiceMetrics F
  unfolding change_counters update_topic_metrics change_resources on_job_state_change
  count_event ev j s =
      let new = counted_state ev j in
      let s1 = change_counters floats j.topic (on_job_state_change j.previous_state new) s in
      let s2 =
        update_topic_metrics floats j.topic j.previous_state new
          (get_duration_ms_since_last_and_first_event j) s1 in
      record s2 { resource_metrics = change_resources new j s2.resource_metrics }

  abbrev pub is_loaded : ServiceEvent → Bool
  is_loaded job_loaded = true
  is_loaded _ = false

  -- NotifyJobEvent; the flag is enabledCollect.
  unfoldable pub notify_job_event : Bool → ServiceEvent → Job → ServiceMetrics F → ServiceMetrics F
  unfolding update_metrics_from_job_history count_event
  notify_job_event enabled ev j s =
      if enabled
      then (if is_loaded ev then update_metrics_from_job_history j s else count_event ev j s)
      else s

  -- NotifyTopicEvent
  unfoldable pub notify_topic_event : Bool → String → ServiceMetrics F → ServiceMetrics F
  unfolding add_topic
  notify_topic_event enabled t s =
      if enabled then (if t == "*" then s else add_topic floats t s) else s

  -- OnDeleteAllJobs
  unfoldable pub on_delete_all_jobs : ServiceMetrics F → ServiceMetrics F
  on_delete_all_jobs s = record s {
    job_metrics = map_values delete_all_of s.job_metrics;
    topic_metrics =
        map_values
          (λ (m : TopicMetrics F). record m {
            total_jobs = 0;
            active_jobs = 0;
            success_rate = floats.zero_float;
          })
          s.topic_metrics;
    resource_metrics = [];
  }

  -- NotifyEvent
  unfoldable pub notify_event : ServiceEvent → ServiceMetrics F → ServiceMetrics F
  unfolding on_delete_all_jobs
  notify_event job_deleted_all s = on_delete_all_jobs s
  notify_event _ s = s

  -- OnUnlockAllResources
  unfoldable pub on_unlock_all_resources : Bool → ServiceMetrics F → ServiceMetrics F
  on_unlock_all_resources enabled s =
      if enabled
      then record s {
        job_metrics =
            map_values (λ (m : JobMetrics). record m { resources_locked_count = 0 }) s.job_metrics;
        resource_metrics = [];
      }
      else s

  -- OnResourceUnlocked
  unfoldable pub on_resource_unlocked : Bool → String → String → ServiceMetrics F → ServiceMetrics F
  unfolding update_resources_locked_count
  on_resource_unlocked enabled r t s =
      if enabled
      then update_resources_locked_count floats t (negsuc 0)
          (record s { resource_metrics = delete r s.resource_metrics })
      else s

  -- What the metrics make of the messages of the scheduler.
  unfoldable pub observe : Bool → Effect → ServiceMetrics F → ServiceMetrics F
  unfolding notify_job_event notify_topic_event notify_event on_unlock_all_resources
      on_resource_unlocked update_resources_locked_count
  observe enabled (job_event ev j) s = notify_job_event enabled ev j s
  observe enabled (service_event ev) s = notify_event ev s
  observe enabled (topic_event ev t) s = notify_topic_event enabled t s
  observe enabled (locked_count t n) s = update_resources_locked_count floats t n s
  observe enabled (resource_metric r t) s = on_resource_unlocked enabled r t s
  observe enabled all_resources_metric s = on_unlock_all_resources enabled s
  observe enabled _ s = s

  -- The metrics after the messages, the last of which comes first.
  abbrev pub observed : Bool → ServiceMetrics F → List Effect → ServiceMetrics F
  observed enabled s [] = s
  observed enabled s (e ∷ es) = observe enabled e (observed enabled s es)

  abbrev pub jobs_metrics_of : String → ServiceMetrics F → JobMetrics
  jobs_metrics_of t s = counters (lookup t s.job_metrics)
