-- ===== src/Service/Restored/Order.antt =====
-- LoadJobs tells the observers of each loaded job once, before anything else (service/service.go).
use minijob.Prelude.{
  ℕ, ◌≤◌, String, ◌≡◌, refl, ap, sym, ◌∙◌, inl, inr, Option-cases, none, some, List, [], ◌∷◌, Map,
  keys, lookup, lookup-insert, count, ltb, if◌then◌else◌, nat_eq_iff, nat_Eq, arith,
}
use minijob.Prelude.Int64.{ℤ}
use minijob.Job.{Job}
use minijob.Resources.{sorted_job_ids}
use minijob.Resources.Restoring.{count-sort_by}
use minijob.Service.State.{Effect, Service, Env, new_service, now, tick}
use minijob.Service.Shown.{shown, AreInOrder, IsOrdered}
use minijob.Service.Restore.{
  restore_one, restore_each, locked_counts, count_locks, take_jobs, restore_jobs,
}
use minijob.Service.Restored.{IsLoadable, waits, place-jobs}
use minijob.Service.Restored.Starts.{lookup_absent, sound_id, sorted-once}

module _ (m : Map ℕ Job) (h : IsLoadable m) where
  -- All jobs but those of the ids that are left have been told.
  abbrev IsLoading : List ℕ → List Effect → Type 0
  IsLoading rest es =
      AreInOrder m es
      × ((k : ℕ) → lookup k (shown es) ≡ (if waits k rest then none else lookup k m))
      × (es ≡ [] → m ≡ [])

  skip-IsLoading :
      (id : ℕ) (rest : List ℕ) (es : List Effect)
      → lookup id m ≡ none
      → IsLoading (id ∷ rest) es
      → IsLoading rest es
  skip-IsLoading id rest es gone (order, known, begun) =
      (order, λ k. ground (arith, known k, gone, nat_eq_iff id k), begun)

  restore_one-IsLoading :
      (t : ℤ) (id : ℕ) (j : Job) (rest : List ℕ) (s : Service)
      → lookup id m ≡ some j
      → j.id ≡ id
      → count id rest ≡ 0
      → IsLoading (id ∷ rest) s.effects
      → IsLoading rest (restore_one t j s).effects
  unfolding restore_one
  restore_one-IsLoading t id j rest s here same last (order, known, begun) = (
    (
      λ e. cc,
      (
        ap (λ k. lookup k (shown s.effects)) same ∙ ground (arith, known id, nat_eq_iff id id),
        order,
      ),
    ),
    λ k. ground (
      arith,
      known k,
      here,
      same,
      last,
      nat_eq_iff id k,
      lookup-insert j.id k j (shown s.effects),
    ),
    λ e. cc,
  )

  restore_one-jobs : (t : ℤ) (j : Job) (s : Service) → s.jobs ≡ m → (restore_one t j s).jobs ≡ m
  unfolding restore_one
  restore_one-jobs t j s e = place-jobs t j s.sched ∙ e

  restore_each-IsLoading :
      (t : ℤ) (ids : List ℕ) (s : Service)
      → ((k : ℕ) → count k ids ≤ 1)
      → s.jobs ≡ m
      → IsLoading ids s.effects
      → IsLoading [] (restore_each t ids s).effects
  unfolding restore_each
  restore_each-IsLoading t [] s once e l = l
  restore_each-IsLoading t (id ∷ ids) s once e l =
      let fewer : (k : ℕ) → count k ids ≤ 1 = λ k. omega (arith, once k) in
      elim (Option-cases (lookup id s.jobs)) [
        | inl f ↦
            rw (f, restore_each)
              (restore_each-IsLoading t ids s fewer e
                (skip-IsLoading id ids s.effects (ap (lookup id) (sym e) ∙ f) l))
        | inr (j, f) ↦
            let here : lookup id m ≡ some j = ap (lookup id) (sym e) ∙ f in
            let last : count id ids ≡ 0 = ground (arith, once id, nat_eq_iff id id) in
            rw (f, restore_each)
              (restore_each-IsLoading t ids (restore_one t j s) fewer (restore_one-jobs t j s e)
                (restore_one-IsLoading t id j ids s here (sound_id m h.sound id j here) last l))
      ]

  count_locks-IsLoading :
      (counts : Map String ℕ) (s : Service)
      → IsLoading [] s.effects
      → IsLoading [] (count_locks counts s).effects
  unfolding count_locks
  count_locks-IsLoading [] s l = l
  count_locks-IsLoading ((t, n) ∷ counts) s (order, known, begun) =
      count_locks-IsLoading counts _ ((begun, order), known, λ e. cc)

  pub restore_jobs-IsOrdered : (env : Env) → IsOrdered m (restore_jobs env m new_service).effects
  unfolding restore_jobs take_jobs new_service sorted_job_ids lookup
  restore_jobs-IsOrdered env =
      let s0 = tick (take_jobs m new_service) in
      let s1 = restore_each (now env new_service) (sorted_job_ids m) s0 in
      let l = count_locks-IsLoading (locked_counts m s1.locks []) s1 (
        restore_each-IsLoading (now env new_service) (sorted_job_ids m) s0 (sorted-once m h) refl (
          (refl, tt),
          λ k. ground (arith, count-sort_by ltb k (keys m), lookup_absent k m),
          λ e. cc,
        )) in
      ((l.1, l.0), λ e. cc)
