-- ===== src/Service/History.antt =====
-- addHistoryEventLocked keeps the index of the queued jobs in step with the states
-- (service/service.go).
use minijob.Prelude.{
  ℕ, ◌≡◌, inl, inr, Bool-cases, Option, none, some, lookup, lookup-insert, if◌then◌else◌, nat_eq,
  nat_eq_iff, nat_Eq, arith,
}
use minijob.Prelude.Int64.{ℤ}
use minijob.Job.{Job, EventType, add_history_event}
use minijob.Job.History.{last_state-append}
use minijob.Queue.{QueuedJobs, QueueEntry, entry_of}
use minijob.Queue.Index.{IsIndex, SameTopic, lookup-add, lookup-remove, add-IsIndex, remove-IsIndex}
use minijob.Service.State.{Scheduler, is_queued, leave, enter, add_history}
use minijob.Service.Invariant.{HasLastState, entry_for}

module _ (j : Job) (q : QueuedJobs) (old : lookup j.id q.entries ≡ entry_for (some j)) where
  leave-entries :
      (k : ℕ) → lookup k (leave j q).entries ≡ (if nat_eq j.id k then none else lookup k q.entries)
  unfolding leave
  leave-entries k = ground (arith, nat_eq_iff j.id k, lookup-remove j q k)

  same_topic : (e : Option QueueEntry) → e ≡ entry_for (some j) → SameTopic j e
  unfolding entry_of
  same_topic none p = tt
  same_topic (some e) p = ground arith

  leave-IsIndex : IsIndex q → IsIndex (leave j q)
  unfolding leave
  leave-IsIndex v = elim (Bool-cases (is_queued j.state)) [
    | inl p ↦ rw p (remove-IsIndex j q (same_topic (lookup j.id q.entries) old) v)
    | inr p ↦ rw p v
  ]

module _ (j : Job) (q : QueuedJobs) where
  enter-entries :
      (k : ℕ)
      → lookup j.id q.entries ≡ none
      → lookup k (enter j q).entries
        ≡ (if nat_eq j.id k then entry_for (some j) else lookup k q.entries)
  unfolding enter
  enter-entries k gone = ground (arith, nat_eq_iff j.id k, lookup-add j q k)

  enter-IsIndex : IsIndex q → IsIndex (enter j q)
  unfolding enter
  enter-IsIndex v = elim (Bool-cases (is_queued j.state)) [
    | inl p ↦ rw p (add-IsIndex j q v)
    | inr p ↦ rw p v
  ]

module _ (ev : EventType) (t : ℤ) (j : Job) (c : Scheduler)
    (old : lookup j.id c.queued.entries ≡ entry_for (some j)) (index : IsIndex c.queued) where
  abbrev j' : Job
  j' = add_history_event ev t j

  -- The state of the job is that of its last event again.
  pub add_history-HasLastState : HasLastState (some j')
  unfolding add_history_event
  add_history-HasLastState = last_state-append j.history ev t

  pub add_history-jobs :
      (k : ℕ)
      → lookup k (add_history ev t j c).jobs ≡ (if nat_eq j.id k then some j' else lookup k c.jobs)
  unfolding add_history
  add_history-jobs k = lookup-insert j.id k j' c.jobs

  pub add_history-entries :
      (k : ℕ)
      → lookup k (add_history ev t j c).queued.entries
        ≡ (if nat_eq j.id k then entry_for (some j') else lookup k c.queued.entries)
  unfolding add_history add_history_event
  add_history-entries k = ground (
    arith,
    nat_eq_iff j.id k,
    leave-entries j c.queued old k,
    leave-entries j c.queued old j.id,
    enter-entries j' (leave j c.queued) k,
  )

  pub add_history-IsIndex : IsIndex (add_history ev t j c).queued
  unfolding add_history
  add_history-IsIndex = enter-IsIndex j' (leave j c.queued) (leave-IsIndex j c.queued old index)
