-- ===== src/Service/Told/Creates.antt =====
-- New jobs: the observers are told of exactly the stored jobs, and there is room for each new one
-- (service/service.go).
use minijob.Prelude.{
  ℕ, suc, ◌<◌, false, ◌≡◌, ap, ◌∙◌, refl, inl, inr, Bool-cases, Option-cases, Option, none, some,
  Map, lookup, lookup-insert, if_keeps, length, nat_eq_iff, nat_Eq, arith,
}
use minijob.Prelude.Int64.{ℤ}
use minijob.Job.{Job, JobRequest, init, clone, new_job_from_request, get_history_states}
use minijob.Job.History.{init-IsConsistent}
use minijob.Service.State.{Service, Env, Outcome, ok, err, now, tick}
use minijob.Service.Scheduling.{
  starts_later, set_job_state_to_delayed_locked, set_job_state_to_pending_locked,
}
use minijob.Service.Create.{
  decode_reads, check_max_allowed_jobs_locked, generate_new_job_uuid_locked, schedule,
  store_new_job, finalize_with, is_full, finalize_job_creation_locked, create_job, clone_job,
}
use minijob.Service.Creates.{generate_new_job_uuid_locked-new}
use minijob.Service.Calls.{behind}
use minijob.Service.Logged.{created-IsLogged}
use minijob.Service.Told.{Told, set_delayed-Told, set_pending-Told, try_enqueue-Told}

module _ (max : ℕ) (start : Map ℕ Job) where
  pub schedule-Told :
      (env : Env) (t : ℤ) (j : Job) (s : Service)
      → Told max start s
      → lookup j.id s.jobs ≡ some j
      → Told max start (schedule env t j s).1
  unfolding schedule
  schedule-Told env t j s h here =
      if_keeps (λ (r : Job × Service). Told max start r.1) (starts_later t j)
        (set_job_state_to_delayed_locked env j s) (set_job_state_to_pending_locked env j s)
        (set_delayed-Told max start env j s h here) (set_pending-Told max start env j s h here)

  finalize_with-Told :
      (env : Env) (j : Job) (s : Service) (o : Outcome ℕ) (n : ℕ)
      → (0 < max → length s.jobs < max)
      → ((id : ℕ) → o ≡ ok id → lookup id s.jobs ≡ none)
      → Told max start s
      → Told max start (finalize_with env j s (o, n)).1
  unfolding finalize_with store_new_job init get_history_states
  finalize_with-Told env j s (err e) n room new h = h
  finalize_with-Told env j s (ok id) n room new h =
      let j' = init id (now env s) j in
      let s' = store_new_job env id j (record s { draws = n }) in
      let h' : Told max start s' =
        created-IsLogged j' h (init-IsConsistent id (now env s) j) room
          (new id refl, refl, refl, refl) in
      let here : lookup id s'.jobs ≡ some j' =
        rw (lookup-insert id id j' s.jobs, (nat_eq_iff id id).1 refl) in
      try_enqueue-Told max start env (schedule env (now env s') j' (tick s')).1
        (schedule-Told env (now env s') j' (tick s') h' here)

  module _ (env : Env) (same : env.config.backend_max_jobs ≡ max) where
    room_of : (s : Service) → is_full env s ≡ false → 0 < max → length s.jobs < max
    room_of s e p = ground (arith, e, same)

    finalize-Told :
        (j : Job) (s before : Service)
        → Told max start s
        → Told max start before
        → Told max start (behind (finalize_job_creation_locked env j s) before)
    unfolding finalize_job_creation_locked
    finalize-Told j s before h b = elim (Bool-cases (is_full env s)) [
      | inl e ↦ rw e h
      | inr e ↦
          elim (Option-cases
            (generate_new_job_uuid_locked (suc (length s.jobs)) env s.draws s.sched)) [
              | inl f ↦ rw (e, f) b
              | inr ((o, n), f) ↦
                  rw (e, f)
                    (finalize_with-Told env j s o n (room_of s e)
                      (λ id q.
                        generate_new_job_uuid_locked-new (suc (length s.jobs)) env s.draws s.sched
                          id n (f ∙ ap (λ x. some (x, n)) q))
                      h)
            ]
    ]

    pub create_job-Told :
        (req : Option JobRequest) (s : Service)
        → Told max start s
        → Told max start (behind (create_job env req s) s)
    unfolding create_job
    create_job-Told none s h = elim (Option-cases (check_max_allowed_jobs_locked env s)) [
      | inl e ↦ rw (e, create_job) h
      | inr (x, e) ↦ rw (e, create_job) h
    ]
    create_job-Told (some req) s h =
        let s' : Service = record s { reads = decode_reads (some req) s.reads } in
        elim (Option-cases (check_max_allowed_jobs_locked env s')) [
          | inl e ↦
              rw (e, create_job) (finalize-Told (new_job_from_request (now env s) req) s' s h h)
          | inr (x, e) ↦ rw (e, create_job) h
        ]

    pub clone_job-Told :
        (id : ℕ) (s : Service) → Told max start s → Told max start (behind (clone_job env id s) s)
    unfolding clone_job
    clone_job-Told id s h = elim (Option-cases (lookup id s.jobs)) [
      | inl e ↦ rw (e, clone_job) h
      | inr (j, e) ↦ elim (Option-cases (check_max_allowed_jobs_locked env s)) [
        | inl f ↦ rw (e, clone_job, f) (finalize-Told (clone j) s s h h)
        | inr (x, f) ↦ rw (e, clone_job, f) h
      ]
    ]
