-- ===== src/Service/Invariant.antt =====
-- What holds of the scheduler between two calls (service/service.go): every container agrees with
-- the states of the jobs, and every lock has an owner that may hold it.
use minijob.Prelude.{
  ℕ, String, true, ◌≡◌, refl, ap, ◌∙◌, inl, inr, Bool-cases, nat_eq_iff, Option, none, some, Map,
  lookup, contains, count, one_if, if◌then◌else◌, nat_eq, nat_Eq, string_Eq, arith,
}
use minijob.Job.{Job, JobState, get_history_states, last_state}
use minijob.Pq.Order.{IsValid}
use minijob.Pq.Count.{count_value}
use minijob.Resources.{is_active}
use minijob.Queue.{QueueEntry, entry_of}
use minijob.Queue.Index.{IsIndex}
use minijob.Service.State.{Scheduler, is_queued, is_pending, is_hidden, is_delayed}

abbrev pub state_of : Option Job → JobState
state_of none = JobState.no_state
state_of (some j) = j.state

abbrev pub HasId : ℕ → Option Job → Type 0
HasId k none = Unit {0}
HasId k (some j) = j.id ≡ k

-- The state is that of the last event.
abbrev pub HasLastState : Option Job → Type 0
HasLastState none = Unit {0}
HasLastState (some j) = last_state (get_history_states j.history) ≡ j.state

-- The entry of the index that belongs to the job, if it is queued.
abbrev pub entry_for : Option Job → Option QueueEntry
entry_for none = none
entry_for (some j) = if is_queued j.state then some (entry_of j) else none

-- The job may hold the resource.
abbrev pub MayHold : String → Option Job → Type 0
MayHold r none = ⊥
MayHold r (some j) = (is_active j.state ≡ true) × (contains r j.lock_resources ≡ true)

abbrev pub Owned : String → Option ℕ → Map ℕ Job → Type 0
Owned r none jobs = Unit {0}
Owned r (some owner) jobs = MayHold r (lookup owner jobs)

pub record Inv (c : Scheduler) : Type 0 where
  pub ids : (k : ℕ) → HasId k (lookup k c.jobs)
  pub histories : (k : ℕ) → HasLastState (lookup k c.jobs)
  pub pending_jobs : (k : ℕ) → count k c.pending ≡ one_if (is_pending (state_of (lookup k c.jobs)))
  pub queued_jobs : (k : ℕ) → lookup k c.queued.entries ≡ entry_for (lookup k c.jobs)
  pub hidden_jobs :
      (k : ℕ) → count_value k c.retry ≡ one_if (is_hidden (state_of (lookup k c.jobs)))
  pub delayed_jobs :
      (k : ℕ) → count_value k c.delayed ≡ one_if (is_delayed (state_of (lookup k c.jobs)))
  pub index : IsIndex c.queued
  pub retry_queue : IsValid c.retry
  pub delayed_queue : IsValid c.delayed
  pub locks_owned : (r : String) → Owned r (lookup r c.locks) c.jobs

-- One job changes: `new` is its value afterwards, or `none` if it is deleted.
pub record Change (i : ℕ) (new : Option Job) (c d : Scheduler) : Type 0 where
  pub new_id : HasId i new
  pub new_history : HasLastState new
  pub jobs_at : (k : ℕ) → lookup k d.jobs ≡ (if nat_eq i k then new else lookup k c.jobs)
  pub pending_at :
      (k : ℕ)
      → count k d.pending
        ≡ (if nat_eq i k then one_if (is_pending (state_of new)) else count k c.pending)
  pub queued_at :
      (k : ℕ)
      → lookup k d.queued.entries
        ≡ (if nat_eq i k then entry_for new else lookup k c.queued.entries)
  pub hidden_at :
      (k : ℕ)
      → count_value k d.retry
        ≡ (if nat_eq i k then one_if (is_hidden (state_of new)) else count_value k c.retry)
  pub delayed_at :
      (k : ℕ)
      → count_value k d.delayed
        ≡ (if nat_eq i k then one_if (is_delayed (state_of new)) else count_value k c.delayed)
  pub index : IsIndex d.queued
  pub retry_queue : IsValid d.retry
  pub delayed_queue : IsValid d.delayed
  -- a lock afterwards is one that the job may hold, or an old one of another job
  pub locks_at :
      (r : String) (o : ℕ)
      → lookup r d.locks ≡ some o
      → (if nat_eq i o then MayHold r new else lookup r c.locks ≡ some o)

Owned-Change :
    (i : ℕ) (new : Option Job) (c d : Scheduler)
    → Change i new c d
    → Inv c
    → (r : String) (l : Option ℕ) → lookup r d.locks ≡ l
    → Owned r l d.jobs
Owned-Change i new c d h v r none e = tt
Owned-Change i new c d h v r (some o) e = elim (Bool-cases (nat_eq i o)) [
  | inl p ↦ rw (h.jobs_at o, p) (rw p at (h.locks_at r o e))
  | inr p ↦
      let old : lookup r c.locks ≡ some o = rw p at (h.locks_at r o e) in
      rw (h.jobs_at o, p) (rw old at (v.locks_owned r))
]

module _ (i : ℕ) (new : Option Job) (c d : Scheduler) (h : Change i new c d) (v : Inv c) where
  ids-Change : (k : ℕ) → HasId k (lookup k d.jobs)
  ids-Change k = elim (Bool-cases (nat_eq i k)) [
    | inl p ↦ rw (h.jobs_at k, p) (rw (← (nat_eq_iff i k).0 p) h.new_id)
    | inr p ↦ rw (h.jobs_at k, p) (v.ids k)
  ]

  histories-Change : (k : ℕ) → HasLastState (lookup k d.jobs)
  histories-Change k = elim (Bool-cases (nat_eq i k)) [
    | inl p ↦ rw (h.jobs_at k, p) h.new_history
    | inr p ↦ rw (h.jobs_at k, p) (v.histories k)
  ]

  queued-Change : (k : ℕ) → lookup k d.queued.entries ≡ entry_for (lookup k d.jobs)
  queued-Change k = elim (Bool-cases (nat_eq i k)) [
    | inl p ↦ rw (h.jobs_at k, h.queued_at k, p)
    | inr p ↦ rw (h.jobs_at k, h.queued_at k, p) (v.queued_jobs k)
  ]

  pub Change-Inv : Inv d
  Change-Inv = record {
    ids = ids-Change;
    histories = histories-Change;
    pending_jobs = λ k. ground (arith, h.pending_at k, h.jobs_at k, v.pending_jobs k);
    queued_jobs = queued-Change;
    hidden_jobs = λ k. ground (arith, h.hidden_at k, h.jobs_at k, v.hidden_jobs k);
    delayed_jobs = λ k. ground (arith, h.delayed_at k, h.jobs_at k, v.delayed_jobs k);
    index = h.index;
    retry_queue = h.retry_queue;
    delayed_queue = h.delayed_queue;
    locks_owned = λ r. Owned-Change i new c d h v r (lookup r d.locks) refl;
  }

-- A stored job is found under its own id.
pub here_of :
    (c : Scheduler) (id : ℕ) (j : Job)
    → Inv c
    → lookup id c.jobs ≡ some j
    → (j.id ≡ id) × (lookup j.id c.jobs ≡ some j)
here_of c id j v e =
    let same : j.id ≡ id = rw e at (v.ids id) in (same, ap (λ k. lookup k c.jobs) same ∙ e)
