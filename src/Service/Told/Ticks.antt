-- ===== src/Service/Told/Ticks.antt =====
-- The periodic tasks: the observers are told of exactly the stored jobs (service/service.go).
use minijob.Prelude.{
  ℕ, zero, suc, inl, inr, Option-cases, List, [], ◌∷◌, Map, lookup, length, if_keeps, nat_Eq,
}
use minijob.Prelude.Int64.{ℤ, neg64}
use minijob.Job.{Job}
use minijob.Pq.{dequeue_with_priority}
use minijob.Service.State.{Service, Env, now, tick}
use minijob.Service.Scheduling.{try_enqueue_pending_jobs_locked}
use minijob.Service.Finish.{fail_job_locked}
use minijob.Service.Periodic.{
  blocked_if, retry_one, retry_ready, attempt_job_retries, timed_out_ids, fail_each,
  check_jobs_visibility_timeout, pending_one, release_ready, check_delayed_jobs,
}
use minijob.Service.Preserve.{retry_job_locked_cases, with_locks}
use minijob.Service.Loops.{List-cases}
use minijob.Service.Logged.{found}
use minijob.Service.Told.{Told, set_pending-Told, to_queue-Told, lock-Told, try_enqueue-Told}
use minijob.Service.Told.Runs.{fail_job_locked-Told}

module _ (max : ℕ) (start : Map ℕ Job) (env : Env) where
  pending_one-Told :
      (id : ℕ) (s : Service) → Told max start s → Told max start (pending_one env id s)
  unfolding pending_one
  pending_one-Told id s h = elim (Option-cases (lookup id s.jobs)) [
    | inl e ↦ rw (e, pending_one) h
    | inr (j, e) ↦ rw (e, pending_one) (set_pending-Told max start env j s h (found id j h e).1)
  ]

  release_ready-Told :
      (fuel : ℕ) (m : ℤ) (s : Service)
      → Told max start s
      → Told max start (release_ready fuel env m s).1
  unfolding release_ready
  release_ready-Told zero m s h = h
  release_ready-Told (suc fuel) m s h = elim (Option-cases (dequeue_with_priority m s.delayed)) [
    | inl e ↦ rw (e, release_ready) h
    | inr ((id, p, rest), e) ↦
        let s' : Service = record s { sched = record s.sched { delayed = rest } } in
        rw (e, release_ready)
          (release_ready-Told fuel m (pending_one env id s') (pending_one-Told id s' h))
  ]

  pub check_delayed_jobs-Told :
      (s : Service) → Told max start s → Told max start (check_delayed_jobs env s)
  unfolding check_delayed_jobs
  check_delayed_jobs-Told s h =
      let fuel : ℕ = suc (length s.delayed.nodes) in
      let (found, s') = release_ready fuel env (neg64 (now env s)) (tick s) in
      let h' : Told max start s' = release_ready-Told fuel (neg64 (now env s)) (tick s) h in
      if_keeps (Told max start) found (try_enqueue_pending_jobs_locked env s') s'
        (try_enqueue-Told max start env s' h') h'

  fail_each-Told :
      (ids : List ℕ) (s : Service) → Told max start s → Told max start (fail_each env ids s)
  unfolding fail_each
  fail_each-Told [] s h = h
  fail_each-Told (id ∷ ids) s h =
      fail_each-Told ids (fail_job_locked env id s).1 (fail_job_locked-Told max start env id s h)

  pub check_jobs_visibility_timeout-Told :
      (s : Service) → Told max start s → Told max start (check_jobs_visibility_timeout env s)
  unfolding check_jobs_visibility_timeout
  check_jobs_visibility_timeout-Told s h = elim (List-cases (timed_out_ids (now env s) s.sched)) [
    | inl e ↦ rw (e, check_jobs_visibility_timeout) h
    | inr (id, ids, e) ↦
        rw (e, check_jobs_visibility_timeout)
          (try_enqueue-Told max start env (fail_each env (id ∷ ids) (tick s))
            (fail_each-Told (id ∷ ids) (tick s) h))
  ]

  retry_one-Told :
      (id : ℕ) (p : ℤ) (s : Service) → Told max start s → Told max start (retry_one env id p s).1
  unfolding retry_one blocked_if
  retry_one-Told id p s h = elim (Option-cases (lookup id s.jobs)) [
    | inl f ↦ rw (f, retry_one) h
    | inr (j, f) ↦
        rw (f, retry_one)
          (retry_job_locked_cases (λ r. Told max start (blocked_if id p r).1) env j s h
            (λ n g.
              to_queue-Told max start env j (with_locks j s n) (lock-Told max start j s n h)
                (found id j h f).1))
  ]

  retry_ready-Told :
      (fuel : ℕ) (m : ℤ) (s : Service)
      → Told max start s
      → Told max start (retry_ready fuel env m s).1
  unfolding retry_ready
  retry_ready-Told zero m s h = h
  retry_ready-Told (suc fuel) m s h = elim (Option-cases (dequeue_with_priority m s.retry)) [
    | inl e ↦ rw (e, retry_ready) h
    | inr ((id, p, rest), e) ↦
        let s' : Service = record s { sched = record s.sched { retry = rest } } in
        rw (e, retry_ready)
          (retry_ready-Told fuel m (retry_one env id p s').1 (retry_one-Told id p s' h))
  ]

  pub attempt_job_retries-Told :
      (s : Service) → Told max start s → Told max start (attempt_job_retries env s)
  unfolding attempt_job_retries
  attempt_job_retries-Told s h =
      retry_ready-Told (suc (length s.retry.nodes)) (neg64 (now env s)) (tick s) h
