-- ===== src/Service/Ends.antt =====
-- The creation, the deletion and the cancellation of a job, and a change of its visibility timeout,
-- each as one change of the scheduler (service/service.go).
use minijob.Prelude.{
  ℕ, String, ◌≡◌, refl, inl, inr, Bool-cases, none, some, lookup, insert, lookup-insert,
  lookup-delete, count-without, nat_eq, nat_eq_iff, nat_Eq, string_Eq, arith,
}
use minijob.Prelude.Int64.{ℤ}
use minijob.Job.{
  Job, JobState, EventType, init, add_history_event, get_state_from_event, get_creation_timestamp,
}
use minijob.Job.History.{init-IsConsistent, last_state-IsConsistent}
use minijob.Pq.Order.{remove-IsValid}
use minijob.Pq.Count.{count_value-remove}
use minijob.Resources.{is_active, unlock_resources}
use minijob.Queue.{entry_of}
use minijob.Queue.Index.{IsIndex}
use minijob.Service.State.{Scheduler, add_history}
use minijob.Service.Invariant.{Inv, Change, entry_for}
use minijob.Service.History.{
  add_history-HasLastState, add_history-jobs, add_history-entries, add_history-IsIndex,
}
use minijob.Service.Locks.{LocksAt, kept-LocksAt, unlocked-LocksAt}
use minijob.Service.Changes.{pending_kept, hidden_kept, delayed_kept, entry_of_here}
use minijob.Service.Remove.{forget}
use minijob.Service.Pull.{set_visibility}

entry_of-set_visibility : (n : ℕ) (j : Job) → entry_of (set_visibility n j) ≡ entry_of j
unfolding entry_of get_creation_timestamp
entry_of-set_visibility n j = refl

module _ (t : ℤ) (c : Scheduler) (v : Inv c) (j : Job) (here : lookup j.id c.jobs ≡ some j) where
  abbrev canceled : Job
  canceled = add_history_event EventType.cancel t j

  abbrev again : ℤ → Job
  again u = add_history_event EventType.enqueue u canceled

  abbrev between : Scheduler
  between = add_history EventType.cancel t j c

  between_entry : lookup j.id between.queued.entries ≡ entry_for (some canceled)
  between_entry = rw (
    add_history-entries EventType.cancel t j c (entry_of_here c v j here) v.index j.id,
    (nat_eq_iff j.id j.id).1 refl,
  )

  between-IsIndex : IsIndex between.queued
  between-IsIndex = add_history-IsIndex EventType.cancel t j c (entry_of_here c v j here) v.index

  -- CancelJob: the two events together. In between the job holds locks in a final state.
  pub cancel-Change :
      (u : ℤ)
      → j.state ≡ JobState.running
      → Change j.id (some (again u)) c (add_history EventType.enqueue u canceled between)
  unfolding add_history_event add_history get_state_from_event is_active
  cancel-Change u run = record {
    new_id = refl;
    new_history =
        add_history-HasLastState EventType.enqueue u canceled between between_entry between-IsIndex;
    jobs_at = λ k. ground (
      arith,
      nat_eq_iff j.id k,
      add_history-jobs EventType.cancel t j c (entry_of_here c v j here) v.index k,
      add_history-jobs EventType.enqueue u canceled between between_entry between-IsIndex k,
    );
    pending_at = pending_kept c v j here JobState.queued (ground arith);
    queued_at = λ k. ground (
      arith,
      nat_eq_iff j.id k,
      add_history-entries EventType.cancel t j c (entry_of_here c v j here) v.index k,
      add_history-entries EventType.enqueue u canceled between between_entry between-IsIndex k,
    );
    hidden_at = hidden_kept c v j here JobState.queued (ground arith);
    delayed_at = delayed_kept c v j here JobState.queued (ground arith);
    index = add_history-IsIndex EventType.enqueue u canceled between between_entry between-IsIndex;
    retry_queue = v.retry_queue;
    delayed_queue = v.delayed_queue;
    locks_at = kept-LocksAt c v j.id j here (some (again u)) (λ r m. (refl, m.1));
  }

  abbrev unlocked : Scheduler
  unlocked = record c { locks = (unlock_resources j c.locks).1 }

  -- deleteJobLocked
  pub delete-Change : Change j.id none c (forget j.id (add_history EventType.remove t j unlocked))
  unfolding forget add_history add_history_event get_state_from_event
  delete-Change = record {
    new_id = tt;
    new_history = tt;
    jobs_at = λ k. ground (
      arith,
      nat_eq_iff j.id k,
      lookup-delete j.id k (insert j.id (add_history_event EventType.remove t j) c.jobs),
      lookup-insert j.id k (add_history_event EventType.remove t j) c.jobs,
    );
    pending_at = λ k. ground (arith, nat_eq_iff j.id k, count-without j.id k c.pending);
    queued_at =
        add_history-entries EventType.remove t j unlocked (entry_of_here c v j here) v.index;
    hidden_at =
        λ k. ground (arith, nat_eq_iff j.id k, v.hidden_jobs k, count_value-remove k j.id c.retry);
    delayed_at = λ k.
        ground (arith, nat_eq_iff j.id k, v.delayed_jobs k, count_value-remove k j.id c.delayed);
    index = add_history-IsIndex EventType.remove t j unlocked (entry_of_here c v j here) v.index;
    retry_queue = remove-IsValid nat_eq j.id c.retry v.retry_queue;
    delayed_queue = remove-IsValid nat_eq j.id c.delayed v.delayed_queue;
    locks_at = unlocked-LocksAt c v j.id j here none j refl refl;
  }

  -- j.VisibilityTimeout = n
  pub visibility-Change :
      (n : ℕ)
      → Change j.id
          (some (set_visibility n j))
          c
          (record c { jobs = insert j.id (set_visibility n j) c.jobs })
  visibility-Change n = record {
    new_id = refl;
    new_history = rw here at (v.histories j.id);
    jobs_at = λ k. lookup-insert j.id k (set_visibility n j) c.jobs;
    pending_at = pending_kept c v j here j.state refl;
    queued_at =
        λ k. ground (arith, nat_eq_iff j.id k, v.queued_jobs k, entry_of-set_visibility n j);
    hidden_at = hidden_kept c v j here j.state refl;
    delayed_at = delayed_kept c v j here j.state refl;
    index = v.index;
    retry_queue = v.retry_queue;
    delayed_queue = v.delayed_queue;
    locks_at = kept-LocksAt c v j.id j here (some (set_visibility n j)) (λ r m. m);
  }

module _ (t : ℤ) (c : Scheduler) (v : Inv c) (id : ℕ) (j : Job)
    (new : lookup id c.jobs ≡ none) where
  not_owner : (r : String) → lookup r c.locks ≡ some id → ⊥
  not_owner r e = rw new at (rw e at (v.locks_owned r))

  new-LocksAt : LocksAt id (some (init id t j)) c.locks c.locks
  new-LocksAt r o e = elim (Bool-cases (nat_eq id o)) [
    | inl p ↦ absurd (not_owner r (rw (← (nat_eq_iff id o).0 p) at e))
    | inr p ↦ rw p e
  ]

  -- The new job is stored under an id that no job has.
  pub create-Change :
      Change id (some (init id t j)) c (record c { jobs = insert id (init id t j) c.jobs })
  unfolding init
  create-Change = record {
    new_id = refl;
    new_history = last_state-IsConsistent (init id t j) (init-IsConsistent id t j);
    jobs_at = λ k. lookup-insert id k (init id t j) c.jobs;
    pending_at = λ k. ground (arith, nat_eq_iff id k, v.pending_jobs k);
    queued_at = λ k. ground (arith, nat_eq_iff id k, v.queued_jobs k);
    hidden_at = λ k. ground (arith, nat_eq_iff id k, v.hidden_jobs k);
    delayed_at = λ k. ground (arith, nat_eq_iff id k, v.delayed_jobs k);
    index = v.index;
    retry_queue = v.retry_queue;
    delayed_queue = v.delayed_queue;
    locks_at = new-LocksAt;
  }
