-- ===== src/Service/Starts.antt =====
-- Starting queued jobs, one and several, keeps the invariant (service/service.go).
use minijob.Prelude.{
  ℕ, ◌≤◌, false, ◌≡◌, refl, sym, ap, ◌∙◌, inl, inr, Bool-cases, Option-cases, some, List, [], ◌∷◌,
  lookup, lookup-insert, count, one_if, nat_eq, nat_eq_iff, nat_Eq, string_Eq, arith,
}
use mathlib.Core.Path.{subst}
use minijob.Prelude.Int64.{ℤ}
use minijob.Job.{Job, JobState, EventType, add_history_event, get_state_from_event}
use minijob.Service.State.{
  Service, Scheduler, Env, ok, now, is_queued, add_history, drop_pending, add_history_event_locked,
}
use minijob.Service.Pull.{set_visibility, start_run, start_job_locked, start_each}
use minijob.Service.Invariant.{Inv, Change-Inv, here_of, state_of}
use minijob.Service.Steps.{start-Change}
use minijob.Service.Ends.{visibility-Change}
use minijob.Service.Loops.{ids_of}

-- The job `j` runs in `d`, and every other job is as in `c`.
abbrev Started : Job → Scheduler → Scheduler → Type 0
Started j c d = Inv d × ((k : ℕ) → nat_eq j.id k ≡ false → lookup k d.jobs ≡ lookup k c.jobs)

start_run-Started :
    (env : Env) (timeout : ℕ) (j : Job) (s : Service)
    → Inv s.sched
    → lookup j.id s.jobs ≡ some j
    → j.state ≡ JobState.queued
    → Started j s.sched (start_run env timeout j s).1.sched
unfolding start_run add_history_event_locked add_history_event get_state_from_event
start_run-Started env timeout j s v here q =
    let t = now env s in
    let c' : Scheduler = add_history EventType.start t j (drop_pending j.id s.sched) in
    let j' : Job = add_history_event EventType.start t j in
    let h = start-Change t s.sched v j here q in
    let v' : Inv c' = Change-Inv j.id _ s.sched c' h v in
    let here' : lookup j'.id c'.jobs ≡ some j' =
      rw (h.jobs_at j.id, (nat_eq_iff j.id j.id).1 refl) in
    let h' = visibility-Change t c' v' j' here' timeout in
    (Change-Inv j.id _ c' _ h' v', λ k n. rw (h'.jobs_at k, h.jobs_at k, n))

-- StartJob keeps the invariant.
pub start_job_locked-Inv :
    (env : Env) (timeout id : ℕ) (s : Service)
    → Inv s.sched
    → Inv (start_job_locked env timeout id s).1.sched
unfolding start_job_locked
start_job_locked-Inv env timeout id s v = elim (Option-cases (lookup id s.jobs)) [
  | inl e ↦ rw (e, start_job_locked) v
  | inr (j, e) ↦ elim (Bool-cases (is_queued j.state)) [
    | inl q ↦
        rw (e, start_job_locked, q)
          (start_run-Started env timeout j s v (here_of s.sched id j v e).1 (ground (arith, q))).0
    | inr q ↦ rw (e, start_job_locked, q) v
  ]
]

-- Each id of the list belongs to a queued job, and stands there once.
abbrev pub AreQueued : List ℕ → Scheduler → Type 0
AreQueued ids c = (k : ℕ) → count k ids ≤ one_if (is_queued (state_of (lookup k c.jobs)))

start_job_locked-queued :
    (env : Env) (timeout id : ℕ) (s : Service) (j : Job)
    → lookup id s.jobs ≡ some j
    → j.state ≡ JobState.queued
    → start_job_locked env timeout id s
      ≡ (ok (start_run env timeout j s).0, (start_run env timeout j s).1)
unfolding start_job_locked
start_job_locked-queued env timeout id s j e q = rw (e, start_job_locked, q)

start_run-id :
    (env : Env) (timeout : ℕ) (j : Job) (s : Service) → (start_run env timeout j s).0.id ≡ j.id
unfolding start_run add_history_event_locked add_history_event
start_run-id env timeout j s = refl

-- The queued job of `c` under the id was started, and the answer `j` is the job that runs in `d`.
abbrev pub IsStarted : ℕ → Job → ℕ → Scheduler → Scheduler → Type 0
IsStarted timeout j id c d =
    (old : Job) × (t : ℤ) × (lookup id c.jobs ≡ some old)
    × (old.state ≡ JobState.queued)
    × (j ≡ set_visibility timeout (add_history_event EventType.start t old))
    × (j.state ≡ JobState.running)
    × (lookup id d.jobs ≡ some j)

-- The same for each of the answers, in the order of the ids.
abbrev pub AreStarted : ℕ → List Job → List ℕ → Scheduler → Scheduler → Type 0
AreStarted timeout [] [] c d = Unit {0}
AreStarted timeout (j ∷ js) (id ∷ ids) c d =
    IsStarted timeout j id c d × AreStarted timeout js ids c d
AreStarted timeout _ _ c d = ⊥

AreStarted-same :
    (timeout : ℕ) (js : List Job) (ids : List ℕ) (b c d : Scheduler)
    → ((k : ℕ) → 1 ≤ count k ids → lookup k c.jobs ≡ lookup k b.jobs)
    → AreStarted timeout js ids c d
    → AreStarted timeout js ids b d
AreStarted-same timeout [] [] b c d same h = tt
AreStarted-same timeout (j ∷ js) [] b c d same h = h
AreStarted-same timeout [] (id ∷ ids) b c d same h = h
AreStarted-same timeout (j ∷ js) (id ∷ ids) b c d same ((old, t, e, q, is, run, there), hs) = (
  (old, t, sym (same id (ground (arith, nat_eq_iff id id))) ∙ e, q, is, run, there),
  AreStarted-same timeout js ids b c d (λ k n. same k (omega (arith, n))) hs,
)

start_run-IsStarted :
    (env : Env) (timeout : ℕ) (j : Job) (s : Service)
    → lookup j.id s.jobs ≡ some j
    → j.state ≡ JobState.queued
    → IsStarted timeout
        (start_run env timeout j s).0
        j.id
        s.sched
        (start_run env timeout j s).1.sched
unfolding start_run add_history_event_locked add_history_event get_state_from_event
start_run-IsStarted env timeout j s here q = (
  j,
  now env s,
  here,
  q,
  refl,
  refl,
  lookup-insert j.id j.id (start_run env timeout j s).0 _ ∙ rw ((nat_eq_iff j.id j.id).1 refl) refl,
)

-- The loop over queued candidates starts each of them.
pub start_each_lem :
    (env : Env) (timeout : ℕ) (ids : List ℕ) (s : Service)
    → Inv s.sched
    → AreQueued ids s.sched
    → (ids_of (start_each env timeout ids s).0 ≡ ids)
      × Inv (start_each env timeout ids s).1.sched
      × AreStarted timeout
          (start_each env timeout ids s).0
          ids
          s.sched
          (start_each env timeout ids s).1.sched
      × ((k : ℕ)
          → count k ids ≡ 0
          → lookup k (start_each env timeout ids s).1.jobs ≡ lookup k s.jobs)
unfolding start_each
start_each_lem env timeout [] s v a = (refl, v, tt, λ k n. refl)
start_each_lem env timeout (id ∷ ids) s v a = elim (Option-cases (lookup id s.jobs)) [
  | inl e ↦ absurd (ground (arith, a id, nat_eq_iff id id, e))
  | inr (j, e) ↦
      let q : j.state ≡ JobState.queued = ground (arith, a id, nat_eq_iff id id) in
      let (same, here) = here_of s.sched id j v e in
      let h = start_run-Started env timeout j s v here q in
      let s' : Service = (start_run env timeout j s).1 in
      let s'' : Service = (start_each env timeout ids s').1 in
      let rest : AreQueued ids s'.sched =
        λ k. ground (arith, a k, h.1 k, nat_eq_iff j.id k, nat_eq_iff id k) in
      let (started, v', all, others) = start_each_lem env timeout ids s' h.0 rest in
      let (old, t, e', q', is, run, there) = start_run-IsStarted env timeout j s here q in
      let new : (k : ℕ) → 1 ≤ count k ids → lookup k s'.jobs ≡ lookup k s.jobs =
        λ k n. h.1 k (ground (arith, n, a k, nat_eq_iff j.id k, nat_eq_iff id k)) in
      let alone : count id ids ≡ 0 = ground (arith, a id, nat_eq_iff id id) in
      rw (start_job_locked-queued env timeout id s j e q) (
        ap (λ i. i ∷ ids_of (start_each env timeout ids s').0) (start_run-id env timeout j s ∙ same)
            ∙ ap (◌∷◌ id) started,
        v',
        (
          subst (λ i. IsStarted timeout (start_run env timeout j s).0 i s.sched s''.sched) same
              (
                old,
                t,
                e',
                q',
                is,
                run,
                subst (λ i. lookup i s''.jobs ≡ lookup i s'.jobs) (sym same) (others id alone)
                    ∙ there,
              ),
          AreStarted-same timeout (start_each env timeout ids s').0 ids s.sched s'.sched s''.sched
              new all,
        ),
        λ k n.
            others k (ground (arith, n))
            ∙ h.1 k (ground (arith, n, nat_eq_iff j.id k, nat_eq_iff id k)),
      )
]
