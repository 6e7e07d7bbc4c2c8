-- ===== src/Metrics/Topics.antt =====
-- The counters and the statistics of a topic, and how they change (metrics/servicemetrics.go).
use minijob.Prelude.{
  ℕ, suc, ◌+◌, ◌-◌, String, Bool, true, false, not, ◌&&◌, Option, none, some, [], ◌∷◌, ◌++◌, lookup,
  insert, if◌then◌else◌, ltb, nat_Eq, string_Eq,
}
use minijob.Prelude.Int64.{ℤ, pos, negsuc, add64, ltb_ℤ}
use minijob.Job.{JobState, is_completed}
use minijob.Metrics.{
  JobMetrics, no_metrics, decrement, Floats, TopicMetrics, TopicCompletedJobStats, ServiceMetrics,
}

-- The counters behind the pointer that the map holds; a topic that is not there has none.
abbrev pub counters : Option JobMetrics → JobMetrics
counters none = no_metrics
counters (some m) = m

abbrev pub is_active_state : JobState → Bool
is_active_state JobState.pending = true
is_active_state JobState.queued = true
is_active_state JobState.running = true
is_active_state _ = false

-- `inc` added to the count, not below 0
abbrev pub add_count : ℤ → ℕ → ℕ
add_count (pos n) count = count + n
add_count (negsuc n) count = count - suc n

module _ {F : Type 0} (floats : Floats F) where
  -- AddTopicMetrics
  unfoldable pub add_topic_metrics : String → ServiceMetrics F → ServiceMetrics F
  add_topic_metrics t s = record s {
    topic_metrics =
        insert t
          (record {
            topic_name = t;
            total_jobs = 0;
            active_jobs = 0;
            success_rate = floats.zero_float;
            average_duration = floats.zero_float;
          })
          s.topic_metrics;
  }

  -- AddCompletedJobStats
  unfoldable pub add_completed_job_stats : String → ServiceMetrics F → ServiceMetrics F
  add_completed_job_stats t s = record s {
    completed_stats =
        insert t (record { completed_jobs_count = 0; cumulative_duration_ms = pos 0 })
          s.completed_stats;
  }

  -- AddTopic, and EnsureTopicExists
  unfoldable pub add_topic : String → ServiceMetrics F → ServiceMetrics F
  unfolding add_topic_metrics add_completed_job_stats
  add_topic t s = elim (lookup t s.job_metrics) [
    | some _ ↦ s
    | none ↦ add_completed_job_stats t (
        add_topic_metrics t (record s {
          job_metrics = insert t no_metrics s.job_metrics;
          topics = s.topics ++ t ∷ [];
        }))
  ]

  -- A change of the counters behind GetMetricByTopic.
  unfoldable pub change_counters :
      String → (JobMetrics → JobMetrics) → ServiceMetrics F → ServiceMetrics F
  unfolding add_topic
  change_counters t f s =
      let s' = add_topic t s in
      record s' { job_metrics = insert t (f (counters (lookup t s'.job_metrics))) s'.job_metrics }

  -- A change of the statistics behind GetTopicMetrics.
  unfoldable pub change_topic_metrics :
      String → (TopicMetrics F → TopicMetrics F) → ServiceMetrics F → ServiceMetrics F
  unfolding add_topic_metrics
  change_topic_metrics t f s =
      let s' : ServiceMetrics F = elim (lookup t s.topic_metrics) [
        | none ↦ add_topic_metrics t s
        | some _ ↦ s
      ] in
      elim (lookup t s'.topic_metrics) [
        | none ↦ s'
        | some m ↦ record s' { topic_metrics = insert t (f m) s'.topic_metrics }
      ]

  -- The two switches of UpdateTopicMetrics.
  unfoldable pub count_topic : JobState → JobState → TopicMetrics F → TopicMetrics F
  count_topic previous new m =
      let active = if is_active_state previous then decrement m.active_jobs else m.active_jobs in
      record m {
        active_jobs = if is_active_state new then suc active else active;
        total_jobs = elim new [
          | JobState.created ↦ suc m.total_jobs
          | JobState.deleted ↦ decrement m.total_jobs
          | _ ↦ m.total_jobs
        ];
      }

  abbrev pub with_duration : ℤ → Option TopicCompletedJobStats → TopicCompletedJobStats
  with_duration ms none = record { completed_jobs_count = 1; cumulative_duration_ms = ms }
  with_duration ms (some c) = record {
    completed_jobs_count = suc c.completed_jobs_count;
    cumulative_duration_ms = add64 c.cumulative_duration_ms ms;
  }

  -- UpdateCompletedJobStats, and the average that follows it.
  unfoldable pub complete_job : String → ℤ → ServiceMetrics F → ServiceMetrics F
  unfolding change_topic_metrics
  complete_job t ms s =
      let stats = with_duration ms (lookup t s.completed_stats) in
      change_topic_metrics t
        (λ m. record m {
          average_duration =
              floats.mean_seconds stats.cumulative_duration_ms stats.completed_jobs_count;
        })
        (record s { completed_stats = insert t stats s.completed_stats })

  -- The success rate at the end of UpdateTopicMetrics.
  unfoldable pub success_rate_of : JobMetrics → F
  success_rate_of m =
      let completed = m.jobs_status_succeeded + m.jobs_status_failed + m.jobs_status_canceled in
      if ltb 0 completed then floats.ratio m.jobs_status_succeeded completed else floats.zero_float

  -- UpdateTopicMetrics; its caller has registered the topic.
  unfoldable pub update_topic_metrics :
      String → JobState → JobState → ℤ → ServiceMetrics F → ServiceMetrics F
  unfolding change_topic_metrics count_topic complete_job success_rate_of
  update_topic_metrics t previous new ms s =
      let s1 = change_topic_metrics t (count_topic previous new) s in
      let s2 =
        if is_completed new && not (is_completed previous) && ltb_ℤ (pos 0) ms
        then complete_job t ms s1
        else s1 in
      change_topic_metrics t
        (λ m. record m { success_rate = success_rate_of (counters (lookup t s2.job_metrics)) }) s2

  -- UpdateResourcesLockedCountMetric
  unfoldable pub update_resources_locked_count : String → ℤ → ServiceMetrics F → ServiceMetrics F
  unfolding change_counters
  update_resources_locked_count t inc s =
      change_counters t
        (λ m. record m { resources_locked_count = add_count inc m.resources_locked_count }) s
