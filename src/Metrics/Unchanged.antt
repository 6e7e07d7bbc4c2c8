-- ===== src/Metrics/Unchanged.antt =====
-- The messages that leave the numbers of the jobs as they are, or set them to 0
-- (metrics/servicemetrics.go).
use minijob.Prelude.{
  ℕ, String, true, ◌≡◌, refl, ap, sym, ◌∙◌, inl, inr, Bool-cases, Option-cases, [], Map, lookup,
  insert, map_values, lookup-map_values, lookup-map_values-none, ◌==◌, nat_Eq, string_Eq, arith,
}
use minijob.Prelude.Int64.{ℤ}
use minijob.Job.{Job, JobState}
use minijob.Service.Log.{Revised}
use minijob.Metrics.{JobMetrics, no_metrics, Floats, ServiceMetrics}
use minijob.Metrics.Topics.{
  counters, add_topic, add_count, change_counters, update_resources_locked_count,
}
use minijob.Metrics.Observer.{
  on_delete_all_jobs, on_unlock_all_resources, jobs_metrics_of, delete_all_of,
}
use minijob.Metrics.Counting.{count_jobs-insert}
use minijob.Metrics.Counters.{counter_of, counters-change_counters, counters-add_topic}
use minijob.Metrics.Agree.{of_topic, in_state, IsCounted}

-- Two states of the counters that agree on the numbers of jobs.
abbrev SameJobs : JobMetrics → JobMetrics → Type 0
SameJobs a b =
    (a.jobs_existing ≡ b.jobs_existing) × ((st : JobState) → counter_of st a ≡ counter_of st b)

locked-SameJobs : (n : ℕ) (m : JobMetrics) → SameJobs (record m { resources_locked_count = n }) m
locked-SameJobs n m = (refl, λ st. ground arith)

module _ {F : Type 0} (floats : Floats F) where
  kept-IsCounted :
      (m : Map ℕ Job) (s s' : ServiceMetrics F)
      → ((t : String) → SameJobs (jobs_metrics_of floats t s') (jobs_metrics_of floats t s))
      → IsCounted floats m s
      → IsCounted floats m s'
  kept-IsCounted m s s' same h t = ((same t).0 ∙ (h t).0, λ st g. (same t).1 st ∙ (h t).1 st g)

  pub locked_count-IsCounted :
      (t : String) (n : ℤ) (m : Map ℕ Job) (s : ServiceMetrics F)
      → IsCounted floats m s
      → IsCounted floats m (update_resources_locked_count floats t n s)
  unfolding update_resources_locked_count
  locked_count-IsCounted t n m s h =
      let f : JobMetrics → JobMetrics =
        λ x. record x { resources_locked_count = add_count n x.resources_locked_count } in
      kept-IsCounted m s (change_counters floats t f s)
        (λ u. elim (Bool-cases (t == u)) [
          | inl e ↦
              rw (counters-change_counters floats t u f s, e)
                (locked-SameJobs _ (jobs_metrics_of floats u s))
          | inr e ↦ rw (counters-change_counters floats t u f s, e) (refl, λ st. refl)
        ])
        h

  pub topic-IsCounted :
      (t : String) (m : Map ℕ Job) (s : ServiceMetrics F)
      → IsCounted floats m s
      → IsCounted floats m (add_topic floats t s)
  topic-IsCounted t m s h =
      kept-IsCounted m s (add_topic floats t s)
        (λ u. rw (counters-add_topic floats t u s) (refl, λ st. refl)) h

  pub Revised-IsCounted :
      (j : Job) (m : Map ℕ Job) (s : ServiceMetrics F)
      → Revised j m
      → IsCounted floats m s
      → IsCounted floats (insert j.id j m) s
  Revised-IsCounted j m s (old, here, p, _, q) h t = (
    ground (arith, (h t).0, p, q, here, count_jobs-insert (of_topic t) j.id j m),
    λ st g. ground (arith, (h t).1 st g, p, q, here, count_jobs-insert (in_state t st) j.id j m),
  )

  map-counters :
      (f : JobMetrics → JobMetrics) (t : String) (m : Map String JobMetrics)
      → f no_metrics ≡ no_metrics
      → counters (lookup t (map_values f m)) ≡ f (counters (lookup t m))
  map-counters f t m z = elim (Option-cases (lookup t m)) [
    | inl e ↦ rw (e, lookup-map_values-none f t m e) (sym z)
    | inr (x, e) ↦ rw (e, lookup-map_values f t x m e)
  ]

  pub all_unlocked-IsCounted :
      (m : Map ℕ Job) (s : ServiceMetrics F)
      → IsCounted floats m s
      → IsCounted floats m (on_unlock_all_resources floats true s)
  unfolding on_unlock_all_resources
  all_unlocked-IsCounted m s h =
      let f : JobMetrics → JobMetrics = λ x. record x { resources_locked_count = 0 } in
      kept-IsCounted m s (on_unlock_all_resources floats true s)
        (λ u.
          rw (map-counters f u s.job_metrics refl) (locked-SameJobs 0 (jobs_metrics_of floats u s)))
        h

  pub none-IsCounted :
      (m : Map ℕ Job) (s : ServiceMetrics F) → IsCounted floats [] (on_delete_all_jobs floats s)
  unfolding on_delete_all_jobs
  none-IsCounted m s t = (
    ap (λ (x : JobMetrics). x.jobs_existing) (map-counters delete_all_of t s.job_metrics refl),
    λ st g. ap (counter_of st) (map-counters delete_all_of t s.job_metrics refl) ∙ ground arith,
  )
