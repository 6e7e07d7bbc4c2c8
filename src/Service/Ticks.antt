-- ===== src/Service/Ticks.antt =====
-- The periodic tasks keep the invariant of the scheduler (service/service.go).
use minijob.Prelude.{
  ℕ, zero, suc, true, ◌≡◌, inl, inr, Option-cases, some, List, [], ◌∷◌, lookup, length, if_keeps,
  nat_eq_iff, nat_Eq, arith,
}
use minijob.Prelude.Int64.{ℤ, neg64}
use minijob.Pq.{PriorityQueue, dequeue_with_priority}
use minijob.Pq.Order.{dequeue_with_priority-IsValid}
use minijob.Pq.Count.{count_value-dequeue_with_priority}
use minijob.Resources.{is_active}
use minijob.Service.State.{Service, Env, now, tick, is_delayed, add_history_event_locked}
use minijob.Service.Scheduling.{set_job_state_to_pending_locked, try_enqueue_pending_jobs_locked}
use minijob.Service.Finish.{fail_job_locked}
use minijob.Service.Periodic.{
  timed_out_ids, fail_each, check_jobs_visibility_timeout, pending_one, release_ready,
  check_delayed_jobs,
}
use minijob.Service.Invariant.{Inv, Change-Inv, here_of}
use minijob.Service.Steps.{pending-Change}
use minijob.Service.Loops.{try_enqueue-Inv, List-cases}
use minijob.Service.Runs.{fail_job_locked-Inv}

-- CheckDelayedJobs: one job whose time has come.
released-Inv :
    (env : Env) (m p : ℤ) (id : ℕ) (rest : PriorityQueue ℕ) (s : Service)
    → Inv s.sched
    → dequeue_with_priority m s.delayed ≡ some (id, p, rest)
    → Inv (pending_one env id (record s { sched = record s.sched { delayed = rest } })).sched
unfolding pending_one set_job_state_to_pending_locked add_history_event_locked is_active
released-Inv env m p id rest s v e =
    let counts = λ (k : ℕ). count_value-dequeue_with_priority k m s.delayed e in
    elim (Option-cases (lookup id s.jobs)) [
      | inl f ↦ absurd (ground (arith, counts id, v.delayed_jobs id, f, nat_eq_iff id id))
      | inr (j, f) ↦
          let (same, here) = here_of s.sched id j v f in
          let waiting : is_delayed j.state ≡ true =
            ground (arith, counts id, v.delayed_jobs id, nat_eq_iff id id) in
          rw (f, pending_one)
            (Change-Inv j.id _ s.sched _
              (pending-Change (now env s) s.sched v j here rest (ground arith) (ground arith)
                (ground arith)
                (λ k.
                  ground (arith, counts k, v.delayed_jobs k, nat_eq_iff j.id k, nat_eq_iff id k))
                (dequeue_with_priority-IsValid m s.delayed v.delayed_queue e))
              v)
    ]

release_ready-Inv :
    (fuel : ℕ) (env : Env) (m : ℤ) (s : Service)
    → Inv s.sched
    → Inv (release_ready fuel env m s).1.sched
unfolding release_ready
release_ready-Inv zero env m s v = v
release_ready-Inv (suc fuel) env m s v = elim (Option-cases (dequeue_with_priority m s.delayed)) [
  | inl e ↦ rw (e, release_ready) v
  | inr ((id, p, rest), e) ↦
      rw (e, release_ready)
        (release_ready-Inv fuel env m
          (pending_one env id (record s { sched = record s.sched { delayed = rest } }))
          (released-Inv env m p id rest s v e))
]

-- CheckDelayedJobs keeps the invariant.
pub check_delayed_jobs-Inv :
    (env : Env) (s : Service) → Inv s.sched → Inv (check_delayed_jobs env s).sched
unfolding check_delayed_jobs
check_delayed_jobs-Inv env s v =
    let (found, s') =
      release_ready (suc (length s.delayed.nodes)) env (neg64 (now env s)) (tick s) in
    let v' : Inv s'.sched =
      release_ready-Inv (suc (length s.delayed.nodes)) env (neg64 (now env s)) (tick s) v in
    if_keeps (λ (d : Service). Inv d.sched) found (try_enqueue_pending_jobs_locked env s') s'
      (try_enqueue-Inv env s' v') v'

fail_each-Inv :
    (env : Env) (ids : List ℕ) (s : Service) → Inv s.sched → Inv (fail_each env ids s).sched
unfolding fail_each
fail_each-Inv env [] s v = v
fail_each-Inv env (id ∷ ids) s v =
    fail_each-Inv env ids (fail_job_locked env id s).1 (fail_job_locked-Inv env id s v)

-- CheckJobsVisibilityTimeout keeps the invariant.
pub check_jobs_visibility_timeout-Inv :
    (env : Env) (s : Service) → Inv s.sched → Inv (check_jobs_visibility_timeout env s).sched
unfolding check_jobs_visibility_timeout
check_jobs_visibility_timeout-Inv env s v = elim (List-cases (timed_out_ids (now env s) s.sched)) [
  | inl e ↦ rw (e, check_jobs_visibility_timeout) v
  | inr (id, ids, e) ↦
      rw (e, check_jobs_visibility_timeout)
        (try_enqueue-Inv env (fail_each env (id ∷ ids) (tick s))
          (fail_each-Inv env (id ∷ ids) (tick s) v))
]
