-- ===== src/Service/Failures.antt =====
-- What FailJob does to the job, on every branch (service/service.go).
use minijob.Prelude.{Bool, true, false, ◌||◌, ◌≡◌, ◌⊎◌, Option, some, lookup, leb, nat_Eq}
use minijob.Prelude.Int64.{ℤ}
use minijob.Job.{Job, JobState, EventType, add_history_event, get_count_failures}
use minijob.Service.State.{Service, Env, now, is_hidden, is_queued}
use minijob.Service.Invariant.{Inv, state_of}

-- The job waits for its next try: in the retry queue, or already in the queue.
abbrev pub WillRetry : Option Job → Type 0
WillRetry o = (is_hidden (state_of o) || is_queued (state_of o)) ≡ true

-- The two ends of a failure: the last try has failed, or the job waits for the next one. The result
-- of the call says which.
abbrev pub FailureEnd : Env → Job → ℤ → Bool → Option Job → Type 0
FailureEnd env failed t reached after =
    ((leb env.config.retry_policy.max_retry (get_count_failures failed) ≡ true)
      × (reached ≡ true)
      × (after ≡ some (add_history_event EventType.terminate t failed)))
    ⊎ ((leb env.config.retry_policy.max_retry (get_count_failures failed) ≡ false)
        × (reached ≡ false)
        × WillRetry after)

module _ (env : Env) (j : Job) (s : Service) (v : Inv s.sched) (here : lookup j.id s.jobs ≡ some j)
    (run : j.state ≡ JobState.running) where
  abbrev failed : Job
  failed = add_history_event EventType.fail (now env s) j
