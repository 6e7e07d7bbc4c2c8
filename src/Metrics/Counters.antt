-- ===== src/Metrics/Counters.antt =====
-- The counters of the metrics are the numbers of the scheduler's jobs (metrics/servicemetrics.go and
-- service/service.go).
use text.Mathlib.TextEquality.{eq_iff}
use minijob.Prelude.{
  ℕ, suc, ◌+◌, ◌-◌, ◌≤◌, String, Bool, true, false, ◌&&◌, ◌≡◌, ap, ◌∙◌, inl, inr, Bool-cases,
  Option-cases, lookup, lookup-insert, insert, one_if, ◌==◌, if_keeps, not, if◌then◌else◌, nat_Eq,
  string_Eq, arith,
}
use minijob.Prelude.Int64.{ℤ, pos, ltb_ℤ}
use minijob.Job.{Job, JobState, is_completed, same_state}
use minijob.Service.State.{ServiceEvent}
use minijob.Metrics.{
  JobMetrics, no_metrics, decrement, leave_state, enter_state, on_job_state_change, Floats,
  ServiceMetrics, TopicMetrics,
}
use minijob.Metrics.Topics.{
  counters, add_topic, count_topic, change_counters, change_topic_metrics, complete_job,
  update_topic_metrics,
}
use minijob.Metrics.Observer.{counted_state, count_event, jobs_metrics_of}

-- The states with a counter of their own.
abbrev pub is_status : JobState → Bool
is_status JobState.no_state = false
is_status JobState.deleted = false
is_status _ = true

-- The counter of a state.
abbrev pub counter_of : JobState → JobMetrics → ℕ
counter_of JobState.created m = m.jobs_status_created
counter_of JobState.delayed m = m.jobs_status_delayed
counter_of JobState.pending m = m.jobs_status_pending
counter_of JobState.queued m = m.jobs_status_queued
counter_of JobState.running m = m.jobs_status_running
counter_of JobState.succeeded m = m.jobs_status_succeeded
counter_of JobState.failed m = m.jobs_status_failed
counter_of JobState.hidden m = m.jobs_status_hidden
counter_of JobState.canceled m = m.jobs_status_canceled
counter_of _ m = 0

counter_of-leave_state :
    (st p : JobState) (m : JobMetrics)
    → is_status st ≡ true
    → counter_of st (leave_state p m) ≡ counter_of st m - one_if (same_state p st)
unfolding leave_state
counter_of-leave_state st p m h = ground (arith, h)

counter_of-enter_state :
    (st p : JobState) (m : JobMetrics)
    → is_status st ≡ true
    → counter_of st (enter_state p m) ≡ counter_of st m + one_if (same_state p st)
unfolding enter_state
counter_of-enter_state st p m h = ground (arith, h)

same_state_trans : (a b c : JobState) → same_state a b ≡ true → same_state a c ≡ same_state b c
same_state_trans a b c h = ground (arith, h)

pub counter_of-on_job_state_change :
    (st p n : JobState) (m : JobMetrics)
    → is_status st ≡ true
    → one_if (same_state p st) ≤ counter_of st m
    → counter_of st (on_job_state_change p n m) + one_if (same_state p st)
      ≡ counter_of st m + one_if (same_state n st)
unfolding on_job_state_change
counter_of-on_job_state_change st p n m h l = elim (Bool-cases (same_state p n)) [
  | inl e ↦ rw (e, same_state_trans p n st e)
  | inr e ↦
      rw (e, counter_of-enter_state st n (leave_state p m) h, counter_of-leave_state st p m h)
        (omega (arith, l))
]

-- The number of jobs that exist, behind a change of a state.
abbrev pub existing_after : JobState → JobState → ℕ → ℕ
existing_after p JobState.created n = if same_state p JobState.created then n else suc n
existing_after p JobState.deleted n = if same_state p JobState.deleted then n else n - 1
existing_after p _ n = n

pub existing-on_job_state_change :
    (p n : JobState) (m : JobMetrics)
    → (on_job_state_change p n m).jobs_existing ≡ existing_after p n m.jobs_existing
unfolding on_job_state_change leave_state enter_state
existing-on_job_state_change p n m = ground arith

module _ {F : Type 0} (floats : Floats F) where
  pub metrics-change_topic_metrics :
      (t : String) (f : TopicMetrics F → TopicMetrics F) (s : ServiceMetrics F)
      → (change_topic_metrics floats t f s).job_metrics ≡ s.job_metrics
  unfolding change_topic_metrics minijob.Metrics.Topics.add_topic_metrics
  metrics-change_topic_metrics t f s = ground arith

  metrics-complete_job :
      (t : String) (ms : ℤ) (s : ServiceMetrics F)
      → (complete_job floats t ms s).job_metrics ≡ s.job_metrics
  unfolding complete_job
  metrics-complete_job t ms s = metrics-change_topic_metrics t _ _

  metrics-update_topic_metrics :
      (t : String) (p n : JobState) (ms : ℤ) (s : ServiceMetrics F)
      → (update_topic_metrics floats t p n ms s).job_metrics ≡ s.job_metrics
  unfolding update_topic_metrics
  metrics-update_topic_metrics t p n ms s =
      let first = metrics-change_topic_metrics t (count_topic floats p n) s in
      metrics-change_topic_metrics t _ _
      ∙ if_keeps (λ (x : ServiceMetrics F). x.job_metrics ≡ s.job_metrics)
          (is_completed n && not (is_completed p) && ltb_ℤ (pos 0) ms)
          (complete_job floats t ms (change_topic_metrics floats t (count_topic floats p n) s))
          (change_topic_metrics floats t (count_topic floats p n) s)
          (metrics-complete_job t ms (change_topic_metrics floats t (count_topic floats p n) s)
            ∙ first)
          first

  pub counters-change_counters :
      (t u : String) (f : JobMetrics → JobMetrics) (s : ServiceMetrics F)
      → jobs_metrics_of floats u (change_counters floats t f s)
        ≡ (if t == u then f (jobs_metrics_of floats u s) else jobs_metrics_of floats u s)
  unfolding change_counters add_topic minijob.Metrics.Topics.add_topic_metrics
      minijob.Metrics.Topics.add_completed_job_stats
  counters-change_counters t u f s = elim (Option-cases (lookup t s.job_metrics)) [
    | inl e ↦
        rw (e, add_topic)
          (ground (
            arith,
            e,
            eq_iff t u,
            lookup-insert t u (f no_metrics) (insert t no_metrics s.job_metrics),
            lookup-insert t t no_metrics s.job_metrics,
            lookup-insert t u no_metrics s.job_metrics,
            eq_iff t t,
          ))
    | inr (m, e) ↦
        rw (e, add_topic) (ground (arith, e, eq_iff t u, lookup-insert t u (f m) s.job_metrics))
  ]

  -- What a counted event does to the counters of a topic.
  pub counters-count_event :
      (ev : ServiceEvent) (j : Job) (u : String) (s : ServiceMetrics F)
      → jobs_metrics_of floats u (count_event floats ev j s) ≡ (
          if j.topic == u
          then on_job_state_change j.previous_state
              (counted_state floats ev j)
              (jobs_metrics_of floats u s)
          else jobs_metrics_of floats u s)
  unfolding count_event
  counters-count_event ev j u s =
      let f = on_job_state_change j.previous_state (counted_state floats ev j) in
      let s1 = change_counters floats j.topic f s in
      ap (λ m. counters (lookup u m))
        (metrics-update_topic_metrics j.topic j.previous_state (counted_state floats ev j) _ s1)
      ∙ counters-change_counters j.topic u f s

  pub counters-add_topic :
      (t u : String) (s : ServiceMetrics F)
      → jobs_metrics_of floats u (add_topic floats t s) ≡ jobs_metrics_of floats u s
  unfolding add_topic minijob.Metrics.Topics.add_topic_metrics
      minijob.Metrics.Topics.add_completed_job_stats
  counters-add_topic t u s = elim (Option-cases (lookup t s.job_metrics)) [
    | inl e ↦
        rw (e, add_topic)
          (ground (arith, e, eq_iff t u, lookup-insert t u no_metrics s.job_metrics))
    | inr (m, e) ↦ rw (e, add_topic)
  ]
