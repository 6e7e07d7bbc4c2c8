-- ===== src/Service/Told/Deletes.antt =====
-- Deletion and the administration of the locks: the observers are told of exactly the stored jobs
-- (service/service.go).
use minijob.Prelude.{
  ℕ, ◌≡◌, some, ◌-◌, String, ◌||◌, refl, sym, inl, inr, Bool-cases, Option-cases, List, [], ◌∷◌,
  Map, lookup, delete-insert, if_keeps, ltb, length, nat_Eq, string_Eq,
}
use mathlib.Core.Path.{subst}
use minijob.Prelude.Int64.{ℤ, leb_ℤ, sub64}
use minijob.Job.{Job, EventType, add_history_event, get_last_update_date}
use minijob.Job.History.{event}
use minijob.Resources.{unlock_resource}
use minijob.Service.State.{
  Service, Env, job_event, job_deleted, all_resources_metric, all_resources_unlocked,
  resource_metric, now, tick, emit, add_history_event_locked, add_history,
  unlock_job_resources_locked,
}
use minijob.Service.Remove.{
  forget, drop_job, delete_job_locked, unlock_all_resources_locked, unlock_all, delete_all_jobs,
  delete_each, waiting_ids, delete_queued_jobs, owner_topic, unlock_one, delete_old, completed_jobs,
  delete_old_completed_jobs_locked, surplus, max_age,
}
use minijob.Service.Logged.{IsLogged, quiet-IsLogged, deleted-IsLogged, deleted_all-IsLogged, found}
use minijob.Service.Told.{Told, unlock-Told, try_enqueue-Told}

module _ (max : ℕ) (start : Map ℕ Job) where
  drop_job-Told :
      (env : Env) (j : Job) (s : Service)
      → Told max start s
      → lookup j.id s.jobs ≡ some j
      → Told max start (drop_job env j s)
  unfolding drop_job unlock_job_resources_locked add_history_event_locked add_history forget
      add_history_event
  drop_job-Told env j s h here =
      let removed : Job = add_history_event EventType.remove (now env s) j in
      let s' : Service = unlock_job_resources_locked j s in
      subst (IsLogged max start (job_event job_deleted removed ∷ s'.effects))
        (sym (delete-insert j.id removed s.jobs))
        (deleted-IsLogged removed (unlock-Told max start j s h)
          (j, here, refl, refl, event EventType.remove (now env s), refl))

  pub delete_job_locked-Told :
      (env : Env) (id : ℕ) (s : Service)
      → Told max start s
      → Told max start (delete_job_locked env id s).1
  unfolding delete_job_locked
  delete_job_locked-Told env id s h = elim (Option-cases (lookup id s.jobs)) [
    | inl e ↦ rw (e, delete_job_locked) h
    | inr (j, e) ↦
        rw (e, delete_job_locked)
          (try_enqueue-Told max start env (drop_job env j s)
            (drop_job-Told env j s h (found id j h e).1))
  ]

  delete_each-Told :
      (env : Env) (ids : List ℕ) (s : Service)
      → Told max start s
      → Told max start (delete_each env ids s).1
  unfolding delete_each
  delete_each-Told env [] s h = h
  delete_each-Told env (id ∷ ids) s h =
      let h' = delete_job_locked-Told env id s h in
      elim (Option-cases (delete_job_locked env id s).0) [
        | inl e ↦ rw (e, delete_each) (delete_each-Told env ids (delete_job_locked env id s).1 h')
        | inr (x, e) ↦ rw (e, delete_each) h'
      ]

  pub delete_queued_jobs-Told :
      (env : Env) (s : Service) → Told max start s → Told max start (delete_queued_jobs env s).1
  unfolding delete_queued_jobs
  delete_queued_jobs-Told env s h = delete_each-Told env (waiting_ids s.sched) s h

  delete_old-Told :
      (env : Env) (t age : ℤ) (left : ℕ) (js : List Job) (s : Service)
      → Told max start s
      → Told max start (delete_old env t age left js s)
  unfolding delete_old
  delete_old-Told env t age left [] s h = h
  delete_old-Told env t age left (j ∷ js) s h =
      let h' = delete_job_locked-Told env j.id s h in
      elim (Bool-cases (ltb 0 left || leb_ℤ age (sub64 t (get_last_update_date j)))) [
        | inr p ↦ rw p (delete_old-Told env t age left js s h)
        | inl p ↦ elim (Option-cases (delete_job_locked env j.id s).0) [
          | inl e ↦
              rw (p, e, delete_old)
                (delete_old-Told env t age (left - 1) js (delete_job_locked env j.id s).1 h')
          | inr (x, e) ↦ rw (p, e, delete_old) h'
        ]
      ]

  pub delete_old_completed_jobs_locked-Told :
      (env : Env) (s : Service)
      → Told max start s
      → Told max start (delete_old_completed_jobs_locked env s)
  unfolding delete_old_completed_jobs_locked
  delete_old_completed_jobs_locked-Told env s h =
      let left = surplus env.config.retention_max_jobs (length (completed_jobs s.sched)) in
      let age = max_age env.config.retention_max_job_age in
      if_keeps (Told max start) env.config.retention_enable
        (delete_old env (now env s) age left (completed_jobs s.sched) (tick s)) s
        (delete_old-Told env (now env s) age left (completed_jobs s.sched) (tick s) h) h

  unlock_all_resources_locked-Told :
      (s : Service) → Told max start s → Told max start (unlock_all_resources_locked s)
  unfolding unlock_all_resources_locked
  unlock_all_resources_locked-Told s h =
      quiet-IsLogged all_resources_unlocked refl (quiet-IsLogged all_resources_metric refl h)

  pub unlock_all-Told :
      (env : Env) (s : Service) → Told max start s → Told max start (unlock_all env s)
  unfolding unlock_all
  unlock_all-Told env s h =
      try_enqueue-Told max start env (unlock_all_resources_locked s)
        (unlock_all_resources_locked-Told s h)

  pub delete_all_jobs-Told : (s : Service) → Told max start s → Told max start (delete_all_jobs s)
  unfolding delete_all_jobs unlock_all_resources_locked
  delete_all_jobs-Told s h =
      deleted_all-IsLogged
        (quiet-IsLogged all_resources_unlocked refl (quiet-IsLogged all_resources_metric refl h))

  pub unlock_one-Told :
      (env : Env) (r : String) (s : Service)
      → Told max start s
      → Told max start (unlock_one env r s).1
  unfolding unlock_one
  unlock_one-Told env r s h =
      let s' : Service =
        emit (resource_metric r (owner_topic (lookup r s.locks) s.sched))
          (record s { sched = record s.sched { locks = (unlock_resource r s.locks).1 } }) in
      elim (Bool-cases (unlock_resource r s.locks).0) [
        | inl e ↦ rw (e, unlock_one) (try_enqueue-Told max start env s' (quiet-IsLogged _ refl h))
        | inr e ↦ rw (e, unlock_one) h
      ]
