-- ===== src/Service/Restored/Told.antt =====
-- LoadJobs tells the observers of exactly the jobs that it restores (service/service.go).
use minijob.Prelude.{
  ℕ, String, true, ◌≡◌, refl, ap, sym, ◌∙◌, inl, inr, Option-cases, some, List, [], ◌∷◌, Map,
  lookup, nat_Eq,
}
use minijob.Prelude.Int64.{ℤ}
use minijob.Job.{Job}
use minijob.Resources.{sorted_job_ids}
use minijob.Service.State.{Effect, Service, Env, new_service, now, tick}
use minijob.Service.Log.{followed, restoring, IsLog}
use minijob.Service.Logged.{found}
use minijob.Service.Told.{Told, try_enqueue-Told}
use minijob.Service.Told.Creates.{schedule-Told}
use minijob.Service.Scheduling.{read_for}
use minijob.Service.Create.{schedule}
use minijob.Service.Restore.{
  restore_one, restore_each, created_ids, locked_counts, count_locks, schedule_each, start_created,
  take_jobs, restore_jobs, load_jobs,
}
use minijob.Service.Restored.{IsLoadable, place-jobs}
use minijob.Service.Restored.Order.{restore_jobs-IsOrdered}
use minijob.Service.Restored.Starts.{sound_id, restore_jobs-jobs}

module _ (max : ℕ) (m : Map ℕ Job) (h : IsLoadable m) where
  -- What was told so far says that the jobs are those of the start.
  abbrev Untouched : List Effect → Type 0
  Untouched es = (followed m es ≡ m) × IsLog max m es × (restoring es ≡ true)

  restore_each-Untouched :
      (t : ℤ) (ids : List ℕ) (s : Service)
      → s.jobs ≡ m
      → Untouched s.effects
      → Untouched (restore_each t ids s).effects
  unfolding restore_each restore_one
  restore_each-Untouched t [] s e u = u
  restore_each-Untouched t (id ∷ ids) s e u = elim (Option-cases (lookup id s.jobs)) [
    | inl f ↦ rw (f, restore_each) (restore_each-Untouched t ids s e u)
    | inr (j, f) ↦
        let g : lookup id m ≡ some j = ap (lookup id) (sym e) ∙ f in
        let here : lookup j.id (followed m s.effects) ≡ some j =
          ap (lookup j.id) u.0 ∙ ap (λ k. lookup k m) (sound_id m h.sound id j g) ∙ g in
        rw (f, restore_each)
          (restore_each-Untouched t ids (restore_one t j s) (place-jobs t j s.sched ∙ e)
            (u.0, (tt, ((u.2, here), u.1)), u.2))
  ]

  count_locks-Untouched :
      (counts : Map String ℕ) (s : Service)
      → Untouched s.effects
      → Untouched (count_locks counts s).effects
  unfolding count_locks
  count_locks-Untouched [] s u = u
  count_locks-Untouched ((t, n) ∷ counts) s u = count_locks-Untouched counts _ (u.0, (tt, u.1), u.2)

  restore_jobs-Told : (env : Env) → Told max m (restore_jobs env m new_service)
  unfolding restore_jobs take_jobs new_service
  restore_jobs-Told env =
      let s1 =
        restore_each (now env new_service) (sorted_job_ids m) (tick (take_jobs m new_service)) in
      let u = count_locks-Untouched (locked_counts m s1.locks []) s1 (
        restore_each-Untouched (now env new_service) (sorted_job_ids m)
          (tick (take_jobs m new_service)) refl (refl, (refl, tt), refl)) in
      let jobs = restore_jobs-jobs m h env in
      record {
        told = u.0 ∙ sym jobs;
        log = (tt, u.1);
        ordered = restore_jobs-IsOrdered m h env;
        open_flag = refl;
        sound = λ k. rw jobs (h.sound k);
      }

  schedule_each-Told :
      (env : Env) (ids : List ℕ) (s : Service) → Told max m s → Told max m (schedule_each env ids s)
  unfolding schedule_each
  schedule_each-Told env [] s l = l
  schedule_each-Told env (id ∷ ids) s l = elim (Option-cases (lookup id s.jobs)) [
    | inl e ↦ rw (e, schedule_each) (schedule_each-Told env ids s l)
    | inr (j, e) ↦
        rw (e, schedule_each)
          (schedule_each-Told env ids (schedule env (now env s) j (read_for j s)).1
            (schedule-Told max m env (now env s) j (read_for j s) l (found id j l e).1))
  ]

  start_created-Told :
      (env : Env) (ids : List ℕ) (s : Service) → Told max m s → Told max m (start_created env ids s)
  unfolding start_created
  start_created-Told env [] s l = l
  start_created-Told env (id ∷ ids) s l =
      try_enqueue-Told max m env (schedule_each env (id ∷ ids) s)
        (schedule_each-Told env (id ∷ ids) s l)

  -- An observer that starts with the loaded jobs knows the jobs of the scheduler behind LoadJobs.
  pub load_jobs-Told : (env : Env) → Told max m (load_jobs env (some m) new_service).1
  unfolding load_jobs
  load_jobs-Told env =
      start_created-Told env (created_ids m (sorted_job_ids m)) (restore_jobs env m new_service)
        (restore_jobs-Told env)
