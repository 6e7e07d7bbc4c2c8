-- ===== src/Service/Steps.antt =====
-- The steps of a job, each as one change of the scheduler (service/service.go).
use minijob.Prelude.{
  ℕ, false, ◌≡◌, refl, some, List, ◌∷◌, lookup, without, count-without, if◌then◌else◌, nat_eq,
  nat_eq_iff, nat_Eq, arith,
}
use minijob.Prelude.Int64.{ℤ, neg64}
use minijob.Job.{Job, JobState, EventType, add_history_event, get_state_from_event}
use minijob.Pq.{PriorityQueue, enqueue}
use minijob.Pq.Order.{IsValid, enqueue-IsValid}
use minijob.Pq.Count.{count_value, count_value-enqueue}
use minijob.Resources.{is_active, unlock_resources, lock_resources, locked}
use minijob.Service.State.{
  Scheduler, is_pending, is_hidden, is_delayed, add_history, put_pending, drop_pending,
}
use minijob.Service.Invariant.{Inv, Change}
use minijob.Service.Locks.{kept-LocksAt, unlocked-LocksAt, locked-LocksAt}
use minijob.Service.Changes.{IsIdle, pending_kept, hidden_kept, delayed_kept, event-Change}

module _ (t : ℤ) (c : Scheduler) (v : Inv c) (j : Job) (here : lookup j.id c.jobs ≡ some j) where
  abbrev after : EventType → Job
  after ev = add_history_event ev t j

  pub delay-Change :
      IsIdle j.state
      → Change j.id (some (after EventType.delay)) c (
          let d = add_history EventType.delay t j c in
          record d { delayed = enqueue j.id (neg64 j.start_after) d.delayed })
  unfolding add_history get_state_from_event
  delay-Change idle =
      event-Change EventType.delay t c v j here c.pending c.retry
        (enqueue j.id (neg64 j.start_after) c.delayed) c.locks
        (pending_kept c v j here JobState.delayed idle.0)
        (hidden_kept c v j here JobState.delayed idle.1)
        (λ k. ground (
          arith,
          nat_eq_iff j.id k,
          v.delayed_jobs k,
          count_value-enqueue k j.id (neg64 j.start_after) c.delayed,
        ))
        v.retry_queue (enqueue-IsValid j.id (neg64 j.start_after) c.delayed v.delayed_queue)
        (kept-LocksAt c v j.id j here (some (after EventType.delay)) (λ r m. cc))

  abbrev fresh_pending : List ℕ
  fresh_pending = j.id ∷ without j.id c.pending

  pub pending-Change :
      (delayed : PriorityQueue ℕ)
      → is_pending j.state ≡ false
      → is_hidden j.state ≡ false
      → is_active j.state ≡ false
      → ((k : ℕ) → count_value k delayed ≡ (if nat_eq j.id k then 0 else count_value k c.delayed))
      → IsValid delayed
      → Change j.id
          (some (after EventType.pending))
          c
          (put_pending j.id (add_history EventType.pending t j (record c { delayed = delayed })))
  unfolding add_history get_state_from_event
  pending-Change delayed np nh na gone dv =
      event-Change EventType.pending t c v j here fresh_pending c.retry delayed c.locks
        (λ k. ground (arith, nat_eq_iff j.id k, count-without j.id k c.pending))
        (hidden_kept c v j here JobState.pending nh) gone v.retry_queue dv
        (kept-LocksAt c v j.id j here (some (after EventType.pending)) (λ r m. cc))

  -- enqueueJobLocked with the locks taken
  pub enqueue-Change :
      (n : ℕ)
      → j.state ≡ JobState.pending
      → (lock_resources j c.locks).0 ≡ locked n
      → Change j.id (some (after EventType.enqueue)) c (
          drop_pending j.id
            (add_history EventType.enqueue t j (record c { locks = (lock_resources j c.locks).1 })))
  unfolding add_history get_state_from_event add_history_event
  enqueue-Change n e taken =
      event-Change EventType.enqueue t c v j here (without j.id c.pending) c.retry c.delayed
        (lock_resources j c.locks).1
        (λ k. ground (arith, nat_eq_iff j.id k, count-without j.id k c.pending))
        (hidden_kept c v j here JobState.queued (ground arith))
        (delayed_kept c v j here JobState.queued (ground arith)) v.retry_queue v.delayed_queue
        (locked-LocksAt c v j.id j here (after EventType.enqueue) j n refl refl refl
          (unfold is_active in refl) taken)

  -- retryJobLocked with the locks taken, from the retry queue or at once
  pub retry-Change :
      (n : ℕ) (retry : PriorityQueue ℕ)
      → is_pending j.state ≡ false
      → is_delayed j.state ≡ false
      → ((k : ℕ) → count_value k retry ≡ (if nat_eq j.id k then 0 else count_value k c.retry))
      → IsValid retry
      → (lock_resources j c.locks).0 ≡ locked n
      → Change j.id (some (after EventType.enqueue)) c (
          add_history EventType.enqueue t j
            (record c { retry = retry; locks = (lock_resources j c.locks).1 }))
  unfolding add_history get_state_from_event add_history_event
  retry-Change n retry np nd gone rv taken =
      event-Change EventType.enqueue t c v j here c.pending retry c.delayed
        (lock_resources j c.locks).1 (pending_kept c v j here JobState.queued np) gone
        (delayed_kept c v j here JobState.queued nd) rv v.delayed_queue
        (locked-LocksAt c v j.id j here (after EventType.enqueue) j n refl refl refl
          (unfold is_active in refl) taken)

  -- The event of startJobLocked.
  pub start-Change :
      j.state ≡ JobState.queued
      → Change j.id
          (some (after EventType.start))
          c
          (add_history EventType.start t j (drop_pending j.id c))
  unfolding add_history get_state_from_event add_history_event is_active
  start-Change e =
      event-Change EventType.start t c v j here (without j.id c.pending) c.retry c.delayed c.locks
        (λ k. ground (arith, nat_eq_iff j.id k, count-without j.id k c.pending))
        (hidden_kept c v j here JobState.running (ground arith))
        (delayed_kept c v j here JobState.running (ground arith)) v.retry_queue v.delayed_queue
        (kept-LocksAt c v j.id j here (some (after EventType.start)) (λ r m. (refl, m.1)))

  -- A running job: its containers.
  module _ (run : j.state ≡ JobState.running) where
    pub fail-Change : Change j.id (some (after EventType.fail)) c (add_history EventType.fail t j c)
    unfolding add_history get_state_from_event add_history_event is_active
    fail-Change =
        event-Change EventType.fail t c v j here c.pending c.retry c.delayed c.locks
          (pending_kept c v j here JobState.running (ground arith))
          (hidden_kept c v j here JobState.running (ground arith))
          (delayed_kept c v j here JobState.running (ground arith)) v.retry_queue v.delayed_queue
          (kept-LocksAt c v j.id j here (some (after EventType.fail)) (λ r m. (refl, m.1)))

    pub success-Change :
        Change j.id
          (some (after EventType.success))
          c
          (add_history EventType.success t j (record c { locks = (unlock_resources j c.locks).1 }))
    unfolding add_history get_state_from_event
    success-Change =
        event-Change EventType.success t c v j here c.pending c.retry c.delayed
          (unlock_resources j c.locks).1 (pending_kept c v j here JobState.succeeded (ground arith))
          (hidden_kept c v j here JobState.succeeded (ground arith))
          (delayed_kept c v j here JobState.succeeded (ground arith)) v.retry_queue v.delayed_queue
          (unlocked-LocksAt c v j.id j here (some (after EventType.success)) j refl refl)

    pub terminate-Change : Change j.id (some (after EventType.terminate)) c (
        let d = add_history EventType.terminate t j c in
        record d { locks = (unlock_resources (after EventType.terminate) d.locks).1 })
    unfolding add_history get_state_from_event add_history_event
    terminate-Change =
        event-Change EventType.terminate t c v j here c.pending c.retry c.delayed
          (unlock_resources (after EventType.terminate) c.locks).1
          (pending_kept c v j here JobState.failed (ground arith))
          (hidden_kept c v j here JobState.failed (ground arith))
          (delayed_kept c v j here JobState.failed (ground arith)) v.retry_queue v.delayed_queue
          (unlocked-LocksAt c v j.id j here (some (after EventType.terminate))
            (after EventType.terminate) refl refl)

    pub hide-Change :
        (p : ℤ)
        → Change j.id (some (after EventType.hide)) c (
            let d = add_history EventType.hide t j c in
            record d {
              locks = (unlock_resources (after EventType.hide) d.locks).1;
              retry = enqueue j.id p d.retry;
            })
    unfolding add_history get_state_from_event add_history_event
    hide-Change p =
        event-Change EventType.hide t c v j here c.pending (enqueue j.id p c.retry) c.delayed
          (unlock_resources (after EventType.hide) c.locks).1
          (pending_kept c v j here JobState.hidden (ground arith))
          (λ k.
            ground
              (arith, nat_eq_iff j.id k, v.hidden_jobs k, count_value-enqueue k j.id p c.retry))
          (delayed_kept c v j here JobState.hidden (ground arith))
          (enqueue-IsValid j.id p c.retry v.retry_queue) v.delayed_queue
          (unlocked-LocksAt c v j.id j here (some (after EventType.hide)) (after EventType.hide)
            refl refl)
