-- ===== src/Metrics/Replay.antt =====
-- UpdateMetricsFromJobHistory counts a loaded job like one that was created and changed
-- (metrics/servicemetrics.go).
use minijob.Prelude.{
  ℕ, suc, ◌+◌, ◌≤◌, String, true, false, ◌≡◌, refl, ap, sym, ◌∙◌, none, List, [], ◌∷◌, Map, lookup,
  insert, one_if, ◌==◌, if◌then◌else◌, nat_Eq, string_Eq, arith,
}
use minijob.Job.{Job, JobState, get_history_states, last_state, same_state}
use minijob.Job.History.{IsConsistent, last_state-IsConsistent}
use minijob.Service.Begun.{is_later, AreLater, Begins, IsBegun}
use minijob.Metrics.{JobMetrics, on_job_state_change, Floats, ServiceMetrics}
use minijob.Metrics.Topics.{counters, change_counters}
use minijob.Metrics.Observer.{replay, update_metrics_from_job_history, jobs_metrics_of}
use minijob.Metrics.Counting.{count_jobs-insert}
use minijob.Metrics.Counters.{
  is_status, counter_of, existing_after, counter_of-on_job_state_change,
  existing-on_job_state_change, counters-change_counters, metrics-change_topic_metrics,
}
use minijob.Metrics.Agree.{of_topic, in_state, IsCounted}

-- The state at the end.
abbrev last_from : JobState → List JobState → JobState
last_from p [] = p
last_from p (n ∷ ns) = last_from n ns

counter_of-replay :
    (st p : JobState) (ns : List JobState) (m : JobMetrics)
    → is_status st ≡ true
    → one_if (same_state p st) ≤ counter_of st m
    → counter_of st (replay p ns m) + one_if (same_state p st)
      ≡ counter_of st m + one_if (same_state (last_from p ns) st)
unfolding replay
counter_of-replay st p [] m h l = refl
counter_of-replay st p (n ∷ ns) m h l =
    let e = counter_of-on_job_state_change st p n m h l in
    omega (arith, e, counter_of-replay st n ns (on_job_state_change p n m) h (omega (arith, e, l)))

existing_after_later : (p n : JobState) (k : ℕ) → is_later n ≡ true → existing_after p n k ≡ k
existing_after_later p n k h = ground (arith, h)

existing-replay :
    (p : JobState) (ns : List JobState) (m : JobMetrics)
    → AreLater ns
    → (replay p ns m).jobs_existing ≡ m.jobs_existing
unfolding replay
existing-replay p [] m h = refl
existing-replay p (n ∷ ns) m (here, h) =
    existing-replay n ns (on_job_state_change p n m) h
    ∙ existing-on_job_state_change p n m
    ∙ existing_after_later p n m.jobs_existing here

existing-replay_begun :
    (ns : List JobState) (m : JobMetrics)
    → Begins ns
    → (replay JobState.no_state ns m).jobs_existing ≡ suc m.jobs_existing
unfolding replay
existing-replay_begun [] m b = elim b [ ]
existing-replay_begun (n ∷ ns) m (first, h) =
    existing-replay n ns (on_job_state_change JobState.no_state n m) h
    ∙ existing-on_job_state_change JobState.no_state n m
    ∙ ap (λ x. existing_after JobState.no_state x m.jobs_existing) first

last_from-last_state :
    (p : JobState) (ns : List JobState) → Begins ns → last_from p ns ≡ last_state ns
unfolding last_state
last_from-last_state p [] b = elim b [ ]
last_from-last_state p (n ∷ ns) (first, h) = tail n ns
  where
    tail : (n : JobState) (ns : List JobState) → last_from n ns ≡ last_state (n ∷ ns)
    tail n [] = refl
    tail n (k ∷ ns) = tail k ns

begun-live : (ns : List JobState) → Begins ns → same_state (last_state ns) JobState.deleted ≡ false
unfolding last_state
begun-live [] b = elim b [ ]
begun-live (n ∷ []) (first, h) = ap (λ x. same_state x JobState.deleted) first
begun-live (n ∷ k ∷ ns) (first, h) = later k ns h
  where
    later :
        (k : JobState) (ns : List JobState)
        → AreLater (k ∷ ns)
        → same_state (last_state (k ∷ ns)) JobState.deleted ≡ false
    later k [] (h, _) = ground (arith, h)
    later k (l ∷ ns) (_, h) = later l ns h

-- A job that begins with its creation is not deleted.
pub IsBegun-live :
    (j : Job) → IsConsistent j → IsBegun j → same_state j.state JobState.deleted ≡ false
IsBegun-live j c b =
    ap (λ x. same_state x JobState.deleted) (sym (last_state-IsConsistent j c))
    ∙ begun-live (get_history_states j.history) b

module _ {F : Type 0} (floats : Floats F) where
  counters-loaded :
      (j : Job) (u : String) (s : ServiceMetrics F)
      → jobs_metrics_of floats u (update_metrics_from_job_history floats j s) ≡ (
          if j.topic == u
          then replay JobState.no_state (get_history_states j.history) (jobs_metrics_of floats u s)
          else jobs_metrics_of floats u s)
  unfolding update_metrics_from_job_history
  counters-loaded j u s =
      let f = replay JobState.no_state (get_history_states j.history) in
      let s1 = change_counters floats j.topic f s in
      ap (λ m. counters (lookup u m)) (metrics-change_topic_metrics floats j.topic _ s1)
      ∙ counters-change_counters floats j.topic u f s

  -- A loaded job that was not counted before.
  pub loaded-IsCounted :
      (j : Job) (m : Map ℕ Job) (s : ServiceMetrics F)
      → lookup j.id m ≡ none
      → IsConsistent j
      → IsBegun j
      → IsCounted floats m s
      → IsCounted floats (insert j.id j m) (update_metrics_from_job_history floats j s)
  loaded-IsCounted j m s gone c b h t =
      let states = get_history_states j.history in
      let last : last_from JobState.no_state states ≡ j.state =
        last_from-last_state JobState.no_state states b ∙ last_state-IsConsistent j c in
      (
        ground (
          arith,
          counters-loaded j t s,
          gone,
          (h t).0,
          existing-replay_begun states (jobs_metrics_of floats t s) b,
          count_jobs-insert (of_topic t) j.id j m,
        ),
        λ st g. ground (
          arith,
          counters-loaded j t s,
          gone,
          last,
          g,
          (h t).1 st g,
          counter_of-replay st JobState.no_state states (jobs_metrics_of floats t s) g,
          count_jobs-insert (in_state t st) j.id j m,
        ),
      )
