-- ===== src/Service/Restored.antt =====
-- The containers behind LoadJobs agree with the loaded jobs (service/service.go).
pub mod Order
pub mod Told
pub mod Starts
pub mod Once
pub mod Scheduled
pub mod Jobs
use minijob.Prelude.{
  ℕ, ◌≤◌, String, Bool, true, false, ◌≡◌, ◌≢◌, refl, ap, sym, ◌∙◌, inl, inr, Bool-cases,
  Option-cases, Option, none, some, List, [], ◌∷◌, Map, keys, lookup, count, count-without,
  contains, one_if, if◌then◌else◌, if_keeps, ltb, nat_eq, nat_eq_iff, sort_by, nat_Eq, string_Eq,
  arith,
}
use mathlib.Core.Path.{subst}
use minijob.Prelude.Int64.{ℤ, neg64}
use minijob.Job.{Job, JobState}
use minijob.Job.History.{last_state-IsConsistent}
use minijob.Pq.{enqueue}
use minijob.Pq.Order.{IsValid, enqueue-IsValid, new-IsValid}
use minijob.Pq.Count.{count_value, count_value-enqueue, count_value-new}
use minijob.Queue
use minijob.Queue.{QueueEntry, entry_of}
use minijob.Queue.Index.{IsIndex, add-IsIndex, lookup-add, new_queued_jobs-IsIndex}
use minijob.Resources.{lock_resources_for_jobs, sorted_job_ids}
use minijob.Resources.Restoring.{count-sort_by, lock_resources_for_jobs_latest}
use minijob.Service.State.{
  Scheduler, Service, Env, new_service, is_pending, is_queued, is_hidden, is_delayed, put_pending,
}
use minijob.Service.Restore.{place, restore_one, restore_each}
use minijob.Service.Invariant.{Inv, HasId, HasLastState, Owned, entry_for, state_of}
use minijob.Service.Logged.{IsSound}

-- What the backend loads: a map, each job under its id and in the state of its history.
pub record IsLoadable (m : Map ℕ Job) : Type 0 where
  pub once : (k : ℕ) → count k (keys m) ≤ 1
  pub sound : (k : ℕ) → IsSound k (lookup k m)

-- The job is among those that the loop has yet to visit.
abbrev pub waits : ℕ → List ℕ → Bool
waits k rest = ltb 0 (count k rest)

-- The containers hold the jobs that the loop has visited.
pub record Placed (rest : List ℕ) (c : Scheduler) : Type 0 where
  pub ids : (k : ℕ) → HasId k (lookup k c.jobs)
  pub pending_jobs :
      (k : ℕ)
      → count k c.pending
        ≡ (if waits k rest then 0 else one_if (is_pending (state_of (lookup k c.jobs))))
  pub queued_jobs :
      (k : ℕ)
      → lookup k c.queued.entries ≡ (if waits k rest then none else entry_for (lookup k c.jobs))
  pub hidden_jobs :
      (k : ℕ)
      → count_value k c.retry
        ≡ (if waits k rest then 0 else one_if (is_hidden (state_of (lookup k c.jobs))))
  pub delayed_jobs :
      (k : ℕ)
      → count_value k c.delayed
        ≡ (if waits k rest then 0 else one_if (is_delayed (state_of (lookup k c.jobs))))
  pub index : IsIndex c.queued
  pub retry_queue : IsValid c.retry
  pub delayed_queue : IsValid c.delayed

pub place-jobs : (t : ℤ) (j : Job) (c : Scheduler) → (place t j c).jobs ≡ c.jobs
unfolding place
place-jobs t j c = ground arith

place-locks : (t : ℤ) (j : Job) (c : Scheduler) → (place t j c).locks ≡ c.locks
unfolding place
place-locks t j c = ground arith

module _ (t : ℤ) (id : ℕ) (rest : List ℕ) (c : Scheduler) (j : Job)
    (here : lookup id c.jobs ≡ some j) (same : j.id ≡ id) (last : count id rest ≡ 0)
    (h : Placed (id ∷ rest) c) where
  pending-place :
      (k : ℕ)
      → count k (place t j c).pending
        ≡ (if waits k rest then 0 else one_if (is_pending (state_of (lookup k c.jobs))))
  unfolding place
  pending-place k = ground (
    arith,
    h.pending_jobs k,
    h.pending_jobs id,
    here,
    same,
    last,
    nat_eq_iff id k,
    count-without j.id k c.pending,
  )

  queued-place :
      (k : ℕ)
      → lookup k (place t j c).queued.entries
        ≡ (if waits k rest then none else entry_for (lookup k c.jobs))
  unfolding place
  queued-place k = ground (
    arith,
    h.queued_jobs k,
    h.queued_jobs id,
    here,
    same,
    last,
    nat_eq_iff id k,
    lookup-add j c.queued k,
  )

  hidden-place :
      (k : ℕ)
      → count_value k (place t j c).retry
        ≡ (if waits k rest then 0 else one_if (is_hidden (state_of (lookup k c.jobs))))
  unfolding place
  hidden-place k = ground (
    arith,
    h.hidden_jobs k,
    h.hidden_jobs id,
    here,
    same,
    last,
    nat_eq_iff id k,
    count_value-enqueue k j.id (neg64 t) c.retry,
  )

  delayed-place :
      (k : ℕ)
      → count_value k (place t j c).delayed
        ≡ (if waits k rest then 0 else one_if (is_delayed (state_of (lookup k c.jobs))))
  unfolding place
  delayed-place k = ground (
    arith,
    h.delayed_jobs k,
    h.delayed_jobs id,
    here,
    same,
    last,
    nat_eq_iff id k,
    count_value-enqueue k j.id (neg64 j.start_after) c.delayed,
  )

  place-IsIndex : IsIndex (place t j c).queued
  unfolding place
  place-IsIndex = ground (arith, h.index, add-IsIndex j c.queued h.index)

  place-IsValid : IsValid (place t j c).retry × IsValid (place t j c).delayed
  unfolding place
  place-IsValid = ground (
    arith,
    h.retry_queue,
    h.delayed_queue,
    enqueue-IsValid j.id (neg64 t) c.retry h.retry_queue,
    enqueue-IsValid j.id (neg64 j.start_after) c.delayed h.delayed_queue,
  )

  place-Placed : Placed rest (place t j c)
  place-Placed = record {
    ids = λ k. rw (place-jobs t j c) (h.ids k);
    pending_jobs = λ k. rw (place-jobs t j c) (pending-place k);
    queued_jobs = λ k. rw (place-jobs t j c) (queued-place k);
    hidden_jobs = λ k. rw (place-jobs t j c) (hidden-place k);
    delayed_jobs = λ k. rw (place-jobs t j c) (delayed-place k);
    index = place-IsIndex;
    retry_queue = place-IsValid.0;
    delayed_queue = place-IsValid.1;
  }

-- A job that does not exist is in no container.
skip-Placed :
    (id : ℕ) (rest : List ℕ) (c : Scheduler)
    → lookup id c.jobs ≡ none
    → Placed (id ∷ rest) c
    → Placed rest c
skip-Placed id rest c gone h = record {
  ids = h.ids;
  pending_jobs = λ k. ground (arith, h.pending_jobs k, h.pending_jobs id, gone, nat_eq_iff id k);
  queued_jobs = λ k. ground (arith, h.queued_jobs k, h.queued_jobs id, gone, nat_eq_iff id k);
  hidden_jobs = λ k. ground (arith, h.hidden_jobs k, h.hidden_jobs id, gone, nat_eq_iff id k);
  delayed_jobs = λ k. ground (arith, h.delayed_jobs k, h.delayed_jobs id, gone, nat_eq_iff id k);
  index = h.index;
  retry_queue = h.retry_queue;
  delayed_queue = h.delayed_queue;
}

pub restore_each-jobs : (t : ℤ) (ids : List ℕ) (s : Service) → (restore_each t ids s).jobs ≡ s.jobs
unfolding restore_each restore_one
restore_each-jobs t [] s = refl
restore_each-jobs t (id ∷ ids) s = elim (Option-cases (lookup id s.jobs)) [
  | inl e ↦ rw (e, restore_each) (restore_each-jobs t ids s)
  | inr (j, e) ↦
      rw (e, restore_each) (restore_each-jobs t ids (restore_one t j s) ∙ place-jobs t j s.sched)
]

restore_each-locks : (t : ℤ) (ids : List ℕ) (s : Service) → (restore_each t ids s).locks ≡ s.locks
unfolding restore_each restore_one
restore_each-locks t [] s = refl
restore_each-locks t (id ∷ ids) s = elim (Option-cases (lookup id s.jobs)) [
  | inl e ↦ rw (e, restore_each) (restore_each-locks t ids s)
  | inr (j, e) ↦
      rw (e, restore_each) (restore_each-locks t ids (restore_one t j s) ∙ place-locks t j s.sched)
]

restore_each-Placed :
    (t : ℤ) (ids : List ℕ) (s : Service)
    → ((k : ℕ) → count k ids ≤ 1)
    → Placed ids s.sched
    → Placed [] (restore_each t ids s).sched
unfolding restore_each restore_one
restore_each-Placed t [] s once h = h
restore_each-Placed t (id ∷ ids) s once h =
    let fewer : (k : ℕ) → count k ids ≤ 1 = λ k. omega (arith, once k) in
    elim (Option-cases (lookup id s.jobs)) [
      | inl e ↦
          rw (e, restore_each) (restore_each-Placed t ids s fewer (skip-Placed id ids s.sched e h))
      | inr (j, e) ↦
          let same : j.id ≡ id = subst (HasId id) e (h.ids id) in
          let last : count id ids ≡ 0 = ground (arith, once id, nat_eq_iff id id) in
          rw (e, restore_each)
            (restore_each-Placed t ids (restore_one t j s) fewer
              (place-Placed t id ids s.sched j e same last h))
    ]
