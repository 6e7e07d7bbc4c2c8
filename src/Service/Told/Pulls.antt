-- ===== src/Service/Told/Pulls.antt =====
-- Workers that take jobs: the observers are told of exactly the stored jobs (service/service.go).
use minijob.Prelude.{
  ℕ, Bool, ◌≡◌, refl, ap, sym, inl, inr, Bool-cases, Option-cases, some, List, [], ◌∷◌, Map, lookup,
  insert, insert-insert, if_keeps, nat_Eq,
}
use mathlib.Core.Path.{subst}
use minijob.Job.{Job, EventType, add_history_event, get_state_from_event, set_state_from_history}
use minijob.Job.History.{
  IsConsistent, event, add_history_event-set_state_from_history, last_state-IsConsistent,
}
use minijob.Service.State.{
  Service, Scheduler, Env, Outcome, ok, err, job_event, job_started, topic_event,
  empty_poll_received, job_updated, is_queued, now, emit, add_history_event_locked, add_history,
}
use minijob.Service.Pull.{
  RequestPullJobs, set_visibility, start_run, start_job_locked, find_in,
  find_best_job_candidates_locked, start_each, answer, serve, pull_jobs_once, pull_specific_job,
  change_visibility_timeout_job,
}
use minijob.Service.Logged.{IsLogged, quiet-IsLogged, update-IsLogged, updated-IsLogged, found}
use minijob.Service.Told.{Told}

set_visibility-IsConsistent : (n : ℕ) (j : Job) → IsConsistent j → IsConsistent (set_visibility n j)
unfolding set_state_from_history
set_visibility-IsConsistent n j c = ap (set_visibility n) c

module _ (max : ℕ) (start : Map ℕ Job) where
  start_run-Told :
      (env : Env) (timeout : ℕ) (j : Job) (s : Service)
      → Told max start s
      → lookup j.id s.jobs ≡ some j
      → Told max start (start_run env timeout j s).1
  unfolding start_run add_history_event_locked add_history add_history_event get_state_from_event
  start_run-Told env timeout j s h here =
      let j' : Job = add_history_event EventType.start (now env s) j in
      let j'' : Job = set_visibility timeout j' in
      let c : IsConsistent j' =
        add_history_event-set_state_from_history EventType.start (now env s) j
          (last_state-IsConsistent j (found j.id j h here).2) in
      subst (IsLogged max start (job_event job_started j'' ∷ s.effects))
        (sym (insert-insert j.id j' j'' s.jobs))
        (update-IsLogged job_started j'' refl h (set_visibility-IsConsistent timeout j' c)
          (j, here, refl, refl, event EventType.start (now env s), refl) refl)

  pub start_job_locked-Told :
      (env : Env) (timeout id : ℕ) (s : Service)
      → Told max start s
      → Told max start (start_job_locked env timeout id s).1
  unfolding start_job_locked
  start_job_locked-Told env timeout id s h = elim (Option-cases (lookup id s.jobs)) [
    | inl e ↦ rw (e, start_job_locked) h
    | inr (j, e) ↦ elim (Bool-cases (is_queued j.state)) [
      | inl q ↦ rw (e, start_job_locked, q) (start_run-Told env timeout j s h (found id j h e).1)
      | inr q ↦ rw (e, start_job_locked, q) h
    ]
  ]

  start_each-Told :
      (env : Env) (timeout : ℕ) (ids : List ℕ) (s : Service)
      → Told max start s
      → Told max start (start_each env timeout ids s).1
  unfolding start_each
  start_each-Told env timeout [] s h = h
  start_each-Told env timeout (id ∷ ids) s h =
      start_each-Told env timeout ids (start_job_locked env timeout id s).1
        (start_job_locked-Told env timeout id s h)

  answer-Told :
      (req : RequestPullJobs) (js : List Job) (s : Service)
      → Told max start s
      → Told max start (answer req js s).2
  unfolding answer
  answer-Told req [] s h = quiet-IsLogged _ refl h
  answer-Told req (j ∷ js) s h = h

  serve-Told :
      (env : Env) (req : RequestPullJobs) (last : Bool) (o : Outcome (List ℕ)) (s : Service)
      → Told max start s
      → Told max start (serve env req last o s).2
  unfolding serve
  serve-Told env req last (err e) s h =
      if_keeps (Told max start) last (emit (topic_event empty_poll_received req.topic) s) s
        (quiet-IsLogged _ refl h) h
  serve-Told env req last (ok ids) s h =
      let (js, s') = start_each env req.visibility_timeout ids s in
      answer-Told req js s' (start_each-Told env req.visibility_timeout ids s h)

  -- Looking for candidates moves no job.
  find_in-jobs :
      (jobs : Map ℕ Job) (req : RequestPullJobs) (c : Scheduler)
      → (find_in jobs req c).1.jobs ≡ c.jobs
  unfolding find_in
  find_in-jobs [] req c = refl
  find_in-jobs (x ∷ jobs) req c = refl

  pub pull_jobs_once-Told :
      (env : Env) (req : RequestPullJobs) (last : Bool) (s : Service)
      → Told max start s
      → Told max start (pull_jobs_once env req last s).2
  unfolding pull_jobs_once find_best_job_candidates_locked
  pull_jobs_once-Told env req last s h =
      let (o, c) = find_best_job_candidates_locked req s.sched in
      serve-Told env req last o (record s { sched = c })
        (subst (IsLogged max start s.effects) (sym (find_in-jobs s.jobs req s.sched)) h)

  pub pull_specific_job-Told :
      (env : Env) (req : RequestPullJobs) (s : Service)
      → Told max start s
      → Told max start (pull_specific_job env req s).1
  unfolding pull_specific_job
  pull_specific_job-Told env req s h = elim (Option-cases req.job_uuid) [
    | inl e ↦ rw (e, pull_specific_job) h
    | inr (id, e) ↦ elim (Option-cases (lookup id s.jobs)) [
      | inl f ↦ rw (e, pull_specific_job, f) h
      | inr (j, f) ↦
          rw (e, pull_specific_job, f) (start_job_locked-Told env req.visibility_timeout id s h)
    ]
  ]

  pub change_visibility_timeout_job-Told :
      (id timeout : ℕ) (s : Service)
      → Told max start s
      → Told max start (change_visibility_timeout_job id timeout s).1
  unfolding change_visibility_timeout_job
  change_visibility_timeout_job-Told id timeout s h = elim (Option-cases (lookup id s.jobs)) [
    | inl e ↦ rw (e, change_visibility_timeout_job) h
    | inr (j, e) ↦
        let (same, here, c) = found id j h e in
        let j' = set_visibility timeout j in
        rw (e, change_visibility_timeout_job)
          (subst (λ k. IsLogged max start (job_updated j' ∷ s.effects) (insert k j' s.jobs)) same
            (updated-IsLogged j' h (set_visibility-IsConsistent timeout j c)
              (j, here, refl, refl, refl)))
  ]
