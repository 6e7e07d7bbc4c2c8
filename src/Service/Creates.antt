-- ===== src/Service/Creates.antt =====
-- The creation of a job keeps the invariant, and always finds a new id (service/service.go).
use minijob.Prelude.{
  ℕ, zero, suc, ◌≤◌, false, ◌≡◌, ap, refl, inl, inr, Bool-cases, Option-cases, Option, none, some,
  [], ◌∷◌, Map, lookup, lookup-delete, delete, ◌∙◌, ◌<◌, if_keeps, length, nat_eq, nat_eq_iff,
  nat_Eq, arith,
}
use minijob.Prelude.Int64.{ℤ}
use minijob.Job.{Job, JobRequest, JobState, init, new_job_from_request, clone}
use minijob.Resources.{is_active}
use minijob.Service.State.{
  Service, Scheduler, Env, Outcome, ok, err, now, tick, add_history_event_locked,
}
use minijob.Service.Scheduling.{
  set_job_state_to_delayed_locked, set_job_state_to_pending_locked, starts_later,
}
use minijob.Service.Create.{
  decode_reads, check_max_allowed_jobs_locked, generate_new_job_uuid_locked, schedule,
  store_new_job, finalize_with, is_full, finalize_job_creation_locked, create_job, clone_job,
}
use minijob.Service.Invariant.{Inv, Change-Inv}
use minijob.Service.Changes.{IsIdle, delayed_kept}
use minijob.Service.Steps.{delay-Change, pending-Change}
use minijob.Service.Ends.{create-Change}
use minijob.Service.Loops.{try_enqueue-Inv}

-- The first scheduling of a job in the state `created`.
module _ (env : Env) (t : ℤ) (j : Job) (s : Service) (v : Inv s.sched)
    (here : lookup j.id s.jobs ≡ some j) (new : j.state ≡ JobState.created) where
  created-IsIdle : IsIdle j.state
  unfolding is_active
  created-IsIdle = rw new (refl, refl, refl, refl)

  delayed-Inv : Inv (set_job_state_to_delayed_locked env j s).1.sched
  unfolding set_job_state_to_delayed_locked add_history_event_locked
  delayed-Inv =
      Change-Inv j.id _ s.sched _ (delay-Change (now env s) s.sched v j here created-IsIdle) v

  pending-Inv : Inv (set_job_state_to_pending_locked env j s).1.sched
  unfolding set_job_state_to_pending_locked add_history_event_locked
  pending-Inv =
      Change-Inv j.id _ s.sched _
        (pending-Change (now env s) s.sched v j here s.delayed (ground arith) (ground arith)
          created-IsIdle.3 (delayed_kept s.sched v j here JobState.pending (ground arith))
          v.delayed_queue)
        v

  pub schedule-Inv : Inv (schedule env t j s).1.sched
  unfolding schedule
  schedule-Inv =
      if_keeps (λ (r : Job × Service). Inv r.1.sched) (starts_later t j)
        (set_job_state_to_delayed_locked env j s) (set_job_state_to_pending_locked env j s)
        delayed-Inv pending-Inv

-- An id that the search returns is new.
pub generate_new_job_uuid_locked-new :
    (fuel : ℕ) (env : Env) (n : ℕ) (c : Scheduler) (id m : ℕ)
    → generate_new_job_uuid_locked fuel env n c ≡ some (ok id, m)
    → lookup id c.jobs ≡ none
unfolding generate_new_job_uuid_locked
generate_new_job_uuid_locked-new zero env n c id m e = ground arith
generate_new_job_uuid_locked-new (suc fuel) env n c id m e =
    ground (arith, generate_new_job_uuid_locked-new fuel env (suc n) c id m)

length-delete_le : {V : Type 0} (k : ℕ) (m : Map ℕ V) → length (delete k m) ≤ length m
unfolding delete
length-delete_le k [] = omega arith
length-delete_le k ((i, w) ∷ m) = ground (arith, length-delete_le k m)

length-delete :
    {V : Type 0} (k : ℕ) (v : V) (m : Map ℕ V)
    → lookup k m ≡ some v
    → suc (length (delete k m)) ≤ length m
unfolding lookup delete
length-delete k v [] e = ground arith
length-delete k v ((i, w) ∷ m) e = ground (arith, length-delete_le k m, length-delete k v m)

-- No two draws give the same id.
abbrev pub AreDistinct : (ℕ → Option ℕ) → Type 0
AreDistinct uuids = (m n id : ℕ) → uuids m ≡ some id → uuids n ≡ some id → m ≡ n

-- The search with more fuel than the stored jobs that a later draw can hit.
search_ends :
    (fuel : ℕ) (env : Env) (n : ℕ) (c : Scheduler) (left : Map ℕ Job)
    → AreDistinct env.uuids
    → length left < fuel
    → ((m id : ℕ) → n ≤ m → env.uuids m ≡ some id → lookup id left ≡ lookup id c.jobs)
    → (r : Outcome ℕ × ℕ) × (generate_new_job_uuid_locked fuel env n c ≡ some r)
unfolding generate_new_job_uuid_locked
search_ends zero env n c left d enough same = absurd (omega (arith, enough))
search_ends (suc fuel) env n c left d enough same = elim (Option-cases (env.uuids n)) [
  | inl e ↦ rw (e, generate_new_job_uuid_locked) (_, refl)
  | inr (id, e) ↦ elim (Option-cases (lookup id c.jobs)) [
    | inl f ↦ rw (e, generate_new_job_uuid_locked, f) (_, refl)
    | inr (j, f) ↦
        rw (e, generate_new_job_uuid_locked, f)
          (search_ends fuel env (suc n) c (delete id left) d
            (omega (arith, enough, length-delete id j left (same n id (omega arith) e ∙ f)))
            (λ m i later drawn.
              let other : nat_eq id i ≡ false =
                ground (arith, nat_eq_iff id i, d n m id e, drawn, later) in
              rw (lookup-delete id i left, other) (same m i (omega (arith, later)) drawn)))
  ]
]

-- If the generator never repeats an id, the search for a new id ends: the fuel of
-- finalizeJobCreationLocked, one more than the number of jobs, is enough.
pub generate_new_job_uuid_locked-ends :
    (env : Env) (n : ℕ) (c : Scheduler)
    → AreDistinct env.uuids
    → (r : Outcome ℕ × ℕ) × (generate_new_job_uuid_locked (suc (length c.jobs)) env n c ≡ some r)
generate_new_job_uuid_locked-ends env n c d =
    search_ends (suc (length c.jobs)) env n c c.jobs d (omega arith) (λ m id l e. refl)

module _ (env : Env) (j : Job) (s : Service) (v : Inv s.sched) where
  finalize_with-Inv :
      (o : Outcome ℕ) (n : ℕ)
      → ((id : ℕ) → o ≡ ok id → lookup id s.jobs ≡ none)
      → Inv (finalize_with env j s (o, n)).1.sched
  unfolding finalize_with store_new_job init
  finalize_with-Inv (err e) n new = v
  finalize_with-Inv (ok id) n new =
      let t = now env s in
      let j' = init id t j in
      let s' = store_new_job env id j (record s { draws = n }) in
      let h = create-Change t s.sched v id j (new id refl) in
      let v' : Inv s'.sched = Change-Inv id (some j') s.sched _ h v in
      let here : lookup id s'.jobs ≡ some j' = rw (h.jobs_at id, (nat_eq_iff id id).1 refl) in
      try_enqueue-Inv env (schedule env (now env s') j' (tick s')).1
        (schedule-Inv env (now env s') j' (tick s') v' here refl)

  -- finalizeJobCreationLocked always answers, and keeps the invariant.
  finalize_lem :
      AreDistinct env.uuids
      → (r : Outcome Job × Service) × (finalize_job_creation_locked env j s ≡ some r)
        × Inv r.1.sched
  unfolding finalize_job_creation_locked
  finalize_lem d = elim (Bool-cases (is_full env s)) [
    | inl e ↦ rw e (_, refl, v)
    | inr e ↦
        let (r, found) = generate_new_job_uuid_locked-ends env s.draws s.sched d in
        rw (e, found)
          (
            finalize_with env j s r,
            refl,
            finalize_with-Inv r.0 r.1 (λ id o.
                generate_new_job_uuid_locked-new (suc (length s.jobs)) env s.draws s.sched id r.1
                  (found ∙ ap (λ q. some (q, r.1)) o)),
          )
  ]

-- If the generator of ids never repeats one and the invariant holds, CreateJob answers every
-- request, and keeps the invariant.
pub create_job_ends :
    (env : Env) (req : Option JobRequest) (s : Service)
    → AreDistinct env.uuids
    → Inv s.sched
    → (r : Outcome Job × Service) × (create_job env req s ≡ some r) × Inv r.1.sched
unfolding create_job
create_job_ends env none s d v = elim (Option-cases (check_max_allowed_jobs_locked env s)) [
  | inl e ↦ rw (e, create_job) (_, refl, v)
  | inr (x, e) ↦ rw (e, create_job) (_, refl, v)
]
create_job_ends env (some req) s d v =
    let s' : Service = record s { reads = decode_reads (some req) s.reads } in
    elim (Option-cases (check_max_allowed_jobs_locked env s')) [
      | inl e ↦ rw (e, create_job) (finalize_lem env (new_job_from_request (now env s) req) s' v d)
      | inr (x, e) ↦ rw (e, create_job) (_, refl, v)
    ]

-- If the generator of ids never repeats one, CloneJob answers every request, and keeps the
-- invariant.
pub clone_job_ends :
    (env : Env) (id : ℕ) (s : Service)
    → AreDistinct env.uuids
    → Inv s.sched
    → (r : Outcome Job × Service) × (clone_job env id s ≡ some r) × Inv r.1.sched
unfolding clone_job
clone_job_ends env id s d v = elim (Option-cases (lookup id s.jobs)) [
  | inl e ↦ rw (e, clone_job) (_, refl, v)
  | inr (j, e) ↦ elim (Option-cases (check_max_allowed_jobs_locked env s)) [
    | inl f ↦ rw (e, clone_job, f) (finalize_lem env (clone j) s v d)
    | inr (x, f) ↦ rw (e, clone_job, f) (_, refl, v)
  ]
]
