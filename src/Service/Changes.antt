-- ===== src/Service/Changes.antt =====
-- The steps of one job, as changes of the scheduler (service/service.go).
use minijob.Prelude.{
  ℕ, false, ◌≡◌, refl, some, List, lookup, count, one_if, if◌then◌else◌, nat_eq, nat_eq_iff, nat_Eq,
  string_Eq, arith,
}
use minijob.Prelude.Int64.{ℤ}
use minijob.Job.{Job, JobState, EventType, add_history_event, get_state_from_event}
use minijob.Pq.{PriorityQueue}
use minijob.Pq.Order.{IsValid}
use minijob.Pq.Count.{count_value}
use minijob.Resources.{is_active, LockedResources}
use minijob.Service.State.{Scheduler, is_pending, is_hidden, is_delayed, add_history}
use minijob.Service.Invariant.{Inv, Change, entry_for}
use minijob.Service.History.{
  add_history-HasLastState, add_history-jobs, add_history-entries, add_history-IsIndex,
}
use minijob.Service.Locks.{LocksAt}

-- The state of a job that stands in no container and holds no lock.
abbrev pub IsIdle : JobState → Type 0
IsIdle s =
    (is_pending s ≡ false) × (is_hidden s ≡ false) × (is_delayed s ≡ false) × (is_active s ≡ false)

module _ (c : Scheduler) (v : Inv c) (j : Job) (here : lookup j.id c.jobs ≡ some j) where
  pub pending_kept :
      (s : JobState)
      → is_pending j.state ≡ is_pending s
      → (k : ℕ)
      → count k c.pending ≡ (if nat_eq j.id k then one_if (is_pending s) else count k c.pending)
  pending_kept s e k = ground (arith, nat_eq_iff j.id k, v.pending_jobs k)

  pub hidden_kept :
      (s : JobState)
      → is_hidden j.state ≡ is_hidden s
      → (k : ℕ)
      → count_value k c.retry
        ≡ (if nat_eq j.id k then one_if (is_hidden s) else count_value k c.retry)
  hidden_kept s e k = ground (arith, nat_eq_iff j.id k, v.hidden_jobs k)

  pub delayed_kept :
      (s : JobState)
      → is_delayed j.state ≡ is_delayed s
      → (k : ℕ)
      → count_value k c.delayed
        ≡ (if nat_eq j.id k then one_if (is_delayed s) else count_value k c.delayed)
  delayed_kept s e k = ground (arith, nat_eq_iff j.id k, v.delayed_jobs k)

  pub entry_of_here : lookup j.id c.queued.entries ≡ entry_for (some j)
  entry_of_here = rw here at (v.queued_jobs j.id)

-- An event of the job `j`, with the containers and locks that the step leaves.
module _ (ev : EventType) (t : ℤ) (c : Scheduler) (v : Inv c) (j : Job)
    (here : lookup j.id c.jobs ≡ some j) where
  abbrev s' : JobState
  s' = get_state_from_event ev

  pub event-Change :
      (pending : List ℕ) (retry delayed : PriorityQueue ℕ) (locks : LockedResources)
      → ((k : ℕ)
          → count k pending ≡ (if nat_eq j.id k then one_if (is_pending s') else count k c.pending))
      → ((k : ℕ)
          → count_value k retry
            ≡ (if nat_eq j.id k then one_if (is_hidden s') else count_value k c.retry))
      → ((k : ℕ)
          → count_value k delayed
            ≡ (if nat_eq j.id k then one_if (is_delayed s') else count_value k c.delayed))
      → IsValid retry
      → IsValid delayed
      → LocksAt j.id (some (add_history_event ev t j)) c.locks locks
      → Change j.id (some (add_history_event ev t j)) c (record (add_history ev t j c) {
        pending = pending;
        retry = retry;
        delayed = delayed;
        locks = locks;
      })
  unfolding add_history_event
  event-Change pending retry delayed locks p h d rv dv l = record {
    new_id = refl;
    new_history = add_history-HasLastState ev t j c (entry_of_here c v j here) v.index;
    jobs_at = add_history-jobs ev t j c (entry_of_here c v j here) v.index;
    pending_at = p;
    queued_at = add_history-entries ev t j c (entry_of_here c v j here) v.index;
    hidden_at = h;
    delayed_at = d;
    index = add_history-IsIndex ev t j c (entry_of_here c v j here) v.index;
    retry_queue = rv;
    delayed_queue = dv;
    locks_at = l;
  }
