-- ===== src/Metrics/Agree.antt =====
-- After any sequence of calls the counters of the metrics are the numbers of the scheduler's jobs
-- (metrics/servicemetrics.go and service/service.go).
use minijob.Prelude.{
  ℕ, String, Bool, true, false, ◌&&◌, ◌≡◌, some, Map, lookup, insert, delete, ◌==◌, nat_Eq,
  string_Eq, arith,
}
use minijob.Job.{Job, JobState, same_state}
use minijob.Service.State.{ServiceEvent, job_created, job_deleted}
use minijob.Service.Log.{Follows, IsNew}
use minijob.Service.Restored.Once.{Once}
use minijob.Metrics.{Floats, ServiceMetrics}
use minijob.Metrics.Observer.{counted_state, count_event, jobs_metrics_of}
use minijob.Metrics.Counting.{count_jobs, count_jobs-insert, count_jobs-delete, count_jobs-some}
use minijob.Metrics.Counters.{
  is_status, counter_of, existing_after, counter_of-on_job_state_change,
  existing-on_job_state_change, counters-count_event,
}

abbrev pub of_topic : String → Job → Bool
of_topic t j = j.topic == t

abbrev pub in_state : String → JobState → Job → Bool
in_state t st j = j.topic == t && same_state j.state st

module _ {F : Type 0} (floats : Floats F) where
  -- For each topic: the jobs that exist, and those in each state.
  abbrev pub IsCounted : Map ℕ Job → ServiceMetrics F → Type 0
  IsCounted m s =
      (t : String)
      → ((jobs_metrics_of floats t s).jobs_existing ≡ count_jobs (of_topic t) m)
        × ((st : JobState)
            → is_status st ≡ true
            → counter_of st (jobs_metrics_of floats t s) ≡ count_jobs (in_state t st) m)

  pub update-IsCounted :
      (ev : ServiceEvent) (j : Job) (m : Map ℕ Job) (s : ServiceMetrics F)
      → counted_state floats ev j ≡ j.state
      → ((n : ℕ) → existing_after j.previous_state j.state n ≡ n)
      → Follows j m
      → IsCounted m s
      → IsCounted (insert j.id j m) (count_event floats ev j s)
  update-IsCounted ev j m s c stays (old, here, p, q, _, _) h t = (
    ground (
      arith,
      counters-count_event floats ev j t s,
      c,
      q,
      here,
      (h t).0,
      stays (jobs_metrics_of floats t s).jobs_existing,
      existing-on_job_state_change j.previous_state j.state (jobs_metrics_of floats t s),
      count_jobs-insert (of_topic t) j.id j m,
      count_jobs-some (of_topic t) j.id old m here,
    ),
    λ st g. ground (
      arith,
      counters-count_event floats ev j t s,
      c,
      p,
      q,
      here,
      (h t).1 st g,
      counter_of-on_job_state_change st j.previous_state j.state (jobs_metrics_of floats t s) g,
      count_jobs-insert (in_state t st) j.id j m,
      count_jobs-some (in_state t st) j.id old m here,
    ),
  )

  pub created-IsCounted :
      (j : Job) (m : Map ℕ Job) (s : ServiceMetrics F)
      → IsNew j m
      → IsCounted m s
      → IsCounted (insert j.id j m) (count_event floats job_created j s)
  created-IsCounted j m s (gone, p, q, _) h t = (
    ground (
      arith,
      counters-count_event floats job_created j t s,
      p,
      q,
      gone,
      (h t).0,
      existing-on_job_state_change JobState.no_state JobState.created (jobs_metrics_of floats t s),
      count_jobs-insert (of_topic t) j.id j m,
    ),
    λ st g. ground (
      arith,
      counters-count_event floats job_created j t s,
      p,
      q,
      gone,
      (h t).1 st g,
      g,
      counter_of-on_job_state_change st JobState.no_state JobState.created
          (jobs_metrics_of floats t s) g,
      count_jobs-insert (in_state t st) j.id j m,
    ),
  )

  pub deleted-IsCounted :
      (j : Job) (m : Map ℕ Job) (s : ServiceMetrics F)
      → Once m
      → Follows j m
      → ((k : ℕ) (o : Job) → lookup k m ≡ some o → same_state o.state JobState.deleted ≡ false)
      → IsCounted m s
      → IsCounted (delete j.id m) (count_event floats job_deleted j s)
  deleted-IsCounted j m s once (old, here, p, q, _, _) live h t = (
    ground (
      arith,
      counters-count_event floats job_deleted j t s,
      p,
      q,
      here,
      (h t).0,
      live j.id old here,
      existing-on_job_state_change j.previous_state JobState.deleted (jobs_metrics_of floats t s),
      count_jobs-delete (of_topic t) j.id m once,
      count_jobs-some (of_topic t) j.id old m here,
    ),
    λ st g. ground (
      arith,
      counters-count_event floats job_deleted j t s,
      p,
      q,
      here,
      (h t).1 st g,
      g,
      counter_of-on_job_state_change st j.previous_state JobState.deleted
          (jobs_metrics_of floats t s) g,
      count_jobs-delete (in_state t st) j.id m once,
      count_jobs-some (in_state t st) j.id old m here,
    ),
  )
