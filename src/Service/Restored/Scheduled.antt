-- ===== src/Service/Restored/Scheduled.antt =====
-- What the first scheduling and the pending jobs make of each job behind LoadJobs
-- (service/service.go).
use minijob.Prelude.{
  ℕ, Bool, true, ◌||◌, ◌≡◌, ◌≢◌, refl, ap, sym, ◌∙◌, inl, inr, Bool-cases, Option-cases, some, List,
  [], ◌∷◌, lookup, lookup-insert, count, if◌then◌else◌, nat_eq, nat_eq_iff, nat_Eq, arith,
}
use mathlib.Core.Path.{subst}
use minijob.Prelude.Int64.{ℤ}
use minijob.Job.{Job, JobState, EventType, add_history_event, get_state_from_event}
use minijob.Service.State.{
  Service, Env, is_pending, is_queued, now, add_history_event_locked, add_history,
}
use minijob.Service.Scheduling.{
  read_for, starts_later, enqueue_job_locked, enqueue_each, try_enqueue_pending_jobs_locked,
  candidates, set_job_state_to_delayed_locked, set_job_state_to_pending_locked,
}
use minijob.Service.Create.{schedule}
use minijob.Service.Creates.{schedule-Inv}
use minijob.Service.Restore.{schedule_each}
use minijob.Service.Invariant.{Inv, here_of, state_of}
use minijob.Service.Steps.{enqueue-Change}
use minijob.Service.Preserve.{enqueue_job_locked_cases}
use minijob.Service.Loops.{
  ArePending, List-cases, ids_of, candidates-ArePending, enqueue_job_locked-Kept,
}
use minijob.Service.Restored.Starts.{AreCreated, schedule-others}

-- The job waits for a pull: it is pending or queued.
abbrev pub waits_for_pull : JobState → Bool
waits_for_pull st = is_pending st || is_queued st

abbrev pub waits : ℕ → Service → Bool
waits i s = waits_for_pull (state_of (lookup i s.jobs))

-- The job itself is pending or queued after enqueueJobLocked.
enqueue_job_locked-waits :
    (env : Env) (j : Job) (s : Service)
    → Inv s.sched
    → lookup j.id s.jobs ≡ some j
    → j.state ≡ JobState.pending
    → waits j.id (enqueue_job_locked env j s).1 ≡ true
unfolding add_history_event get_state_from_event
enqueue_job_locked-waits env j s v here e =
    enqueue_job_locked_cases (λ d. waits_for_pull (state_of (lookup j.id d.jobs)) ≡ true) env j s
      (ground (arith, here, e))
      (λ n t g.
        let h = enqueue-Change t s.sched v j here n e g in
        ground (arith, h.jobs_at j.id, nat_eq_iff j.id j.id))

enqueue_each-waits :
    (env : Env) (ids : List ℕ) (s : Service) (i : ℕ)
    → Inv s.sched
    → ArePending ids s.sched
    → waits i s ≡ true
    → waits i (enqueue_each env ids s) ≡ true
unfolding enqueue_each
enqueue_each-waits env [] s i v a w = w
enqueue_each-waits env (id ∷ ids) s i v a w = elim (Option-cases (lookup id s.jobs)) [
  | inl e ↦ rw (e, enqueue_each) (enqueue_each-waits env ids s i v (λ k. omega (arith, a k)) w)
  | inr (j, e) ↦
      let (same, here) = here_of s.sched id j v e in
      let p : j.state ≡ JobState.pending = ground (arith, a id, nat_eq_iff id id) in
      let h = enqueue_job_locked-Kept env j s v here p in
      let s' : Service = (enqueue_job_locked env j s).1 in
      let rest : ArePending ids s'.sched =
        λ k. ground (arith, a k, h.1 k, nat_eq_iff j.id k, nat_eq_iff id k) in
      let w' : waits i s' ≡ true = elim (Bool-cases (nat_eq j.id i)) [
        | inl q ↦
            subst (λ k. waits k s' ≡ true) ((nat_eq_iff j.id i).0 q)
              (enqueue_job_locked-waits env j s v here p)
        | inr q ↦ rw (h.1 i q) w
      ] in
      rw (e, enqueue_each) (enqueue_each-waits env ids s' i h.0 rest w')
]

-- tryEnqueuePendingJobsLocked leaves a pending job pending, or queues it.
pub try_enqueue-waits :
    (env : Env) (s : Service) (i : ℕ)
    → Inv s.sched
    → waits i s ≡ true
    → waits i (try_enqueue_pending_jobs_locked env s) ≡ true
unfolding try_enqueue_pending_jobs_locked
try_enqueue-waits env s i v w = elim (List-cases s.pending) [
  | inl e ↦ rw (e, try_enqueue_pending_jobs_locked) w
  | inr (x, xs, e) ↦
      rw (e, try_enqueue_pending_jobs_locked)
        (enqueue_each-waits env (ids_of (candidates s.sched)) s i v
          (candidates-ArePending s.sched v) w)
]

-- What the first scheduling makes of a created job.
schedule-state :
    (env : Env) (t : ℤ) (j : Job) (s : Service)
    → state_of (lookup j.id (schedule env t j s).1.jobs)
      ≡ (if starts_later t j then JobState.delayed else JobState.pending)
unfolding schedule set_job_state_to_delayed_locked set_job_state_to_pending_locked
    add_history_event_locked add_history add_history_event get_state_from_event
schedule-state env t j s = ground (
  arith,
  nat_eq_iff j.id j.id,
  lookup-insert j.id j.id (add_history_event EventType.delay (now env s) j) s.jobs,
  lookup-insert j.id j.id (add_history_event EventType.pending (now env s) j) s.jobs,
)

pub schedule_each-others :
    (env : Env) (ids : List ℕ) (s : Service) (k : ℕ)
    → Inv s.sched
    → AreCreated ids s.jobs
    → count k ids ≡ 0
    → lookup k (schedule_each env ids s).jobs ≡ lookup k s.jobs
unfolding schedule_each
schedule_each-others env [] s k v a n = refl
schedule_each-others env (id ∷ ids) s k v a n = elim (Option-cases (lookup id s.jobs)) [
  | inl e ↦
      rw (e, schedule_each)
        (schedule_each-others env ids s k v (λ l. omega (arith, a l)) (omega (arith, n)))
  | inr (j, e) ↦
      let (same, here) = here_of s.sched id j v e in
      let new : j.state ≡ JobState.created = ground (arith, a id, nat_eq_iff id id) in
      let s' = (schedule env (now env s) j (read_for j s)).1 in
      let v' = schedule-Inv env (now env s) j (read_for j s) v here new in
      let rest : AreCreated ids s'.jobs = λ l. ground (
        arith,
        a l,
        schedule-others env (now env s) j (read_for j s) l,
        nat_eq_iff j.id l,
        nat_eq_iff id l,
      ) in
      rw (e, schedule_each)
        (schedule_each-others env ids s' k v' rest (omega (arith, n))
          ∙ schedule-others env (now env s) j (read_for j s) k
              (ground (arith, n, nat_eq_iff j.id k, nat_eq_iff id k, same)))
]

pub schedule_each-created :
    (env : Env) (ids : List ℕ) (s : Service) (k : ℕ) (o : Job)
    → Inv s.sched
    → AreCreated ids s.jobs
    → lookup k s.jobs ≡ some o
    → count k ids ≢ 0
    → (n : ℕ) × (state_of (lookup k (schedule_each env ids s).jobs)
        ≡ (if starts_later (env.clock n) o then JobState.delayed else JobState.pending))
unfolding schedule_each
schedule_each-created env [] s k o v a there n = absurd (n refl)
schedule_each-created env (id ∷ ids) s k o v a there n = elim (Option-cases (lookup id s.jobs)) [
  | inl e ↦
      rw (e, schedule_each)
        (schedule_each-created env ids s k o v (λ l. omega (arith, a l)) there
          (λ z. n (ground (arith, z, e, there, nat_eq_iff id k))))
  | inr (j, e) ↦
      let (same, here) = here_of s.sched id j v e in
      let new : j.state ≡ JobState.created = ground (arith, a id, nat_eq_iff id id) in
      let s' = (schedule env (now env s) j (read_for j s)).1 in
      let v' = schedule-Inv env (now env s) j (read_for j s) v here new in
      let rest : AreCreated ids s'.jobs = λ l. ground (
        arith,
        a l,
        schedule-others env (now env s) j (read_for j s) l,
        nat_eq_iff j.id l,
        nat_eq_iff id l,
      ) in
      rw (e, schedule_each)
        (elim (Bool-cases (nat_eq id k)) [
          | inl q ↦
              let at : id ≡ k = (nat_eq_iff id k).0 q in
              let this : j ≡ o = ground (arith, e, there, at) in
              let gone : count k ids ≡ 0 = ground (arith, a id, at, nat_eq_iff id id) in
              (
                s.reads,
                ap state_of (schedule_each-others env ids s' k v' rest gone)
                    ∙ ap (λ l. state_of (lookup l s'.jobs)) (sym at ∙ sym same)
                    ∙ schedule-state env (now env s) j (read_for j s)
                    ∙ ap
                        (λ i.
                          if starts_later (env.clock s.reads) i
                          then JobState.delayed
                          else JobState.pending)
                        this,
              )
          | inr q ↦
              schedule_each-created env ids s' k o v' rest
                (schedule-others env (now env s) j (read_for j s) k
                    (ground (arith, q, nat_eq_iff id k, nat_eq_iff j.id k, same))
                  ∙ there)
                (λ z. n (ground (arith, z, q)))
        ])
]
