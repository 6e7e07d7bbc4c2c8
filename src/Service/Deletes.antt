-- ===== src/Service/Deletes.antt =====
-- Deletion and the administration of the locks keep the invariant of the scheduler
-- (service/service.go).
use minijob.Prelude.{
  ℕ, ◌-◌, String, ◌||◌, ◌≡◌, refl, inl, inr, Bool-cases, Option-cases, none, some, List, [], ◌∷◌,
  lookup, lookup-delete, if_keeps, ltb, ◌==◌, ◌==◌, length, nat_Eq, string_Eq,
}
use minijob.Prelude.Int64.{ℤ, leb_ℤ, sub64}
use minijob.Job.{Job, get_last_update_date}
use minijob.Resources.{LockedResources, unlock_resource, unlock_all_resources}
use minijob.Queue.Index.{new_queued_jobs-IsIndex}
use minijob.Pq.{clear, new_priority_queue}
use minijob.Pq.Count.{count_value-new}
use minijob.Pq.Order.{new-IsValid}
use minijob.Service.State.{
  Service, Scheduler, Env, now, tick, emit, resource_metric, new_service, add_history_event_locked,
  unlock_job_resources_locked,
}
use minijob.Service.Remove.{
  drop_job, delete_job_locked, unlock_all_resources_locked, unlock_all, delete_all_jobs,
  delete_each, waiting_ids, delete_queued_jobs, owner_topic, owner_topic, unlock_one, delete_old,
  completed_jobs, delete_old_completed_jobs_locked, surplus, max_age,
}
use minijob.Service.Invariant.{Inv, Change-Inv, Owned, here_of}
use minijob.Service.Ends.{delete-Change}
use minijob.Service.Loops.{try_enqueue-Inv}

drop_job-Inv :
    (env : Env) (j : Job) (s : Service)
    → Inv s.sched
    → lookup j.id s.jobs ≡ some j
    → Inv (drop_job env j s).sched
unfolding drop_job unlock_job_resources_locked add_history_event_locked
drop_job-Inv env j s v here =
    Change-Inv j.id none s.sched _ (delete-Change (now env s) s.sched v j here) v

-- DeleteJob keeps the invariant.
pub delete_job_locked-Inv :
    (env : Env) (id : ℕ) (s : Service) → Inv s.sched → Inv (delete_job_locked env id s).1.sched
unfolding delete_job_locked
delete_job_locked-Inv env id s v = elim (Option-cases (lookup id s.jobs)) [
  | inl e ↦ rw (e, delete_job_locked) v
  | inr (j, e) ↦
      rw (e, delete_job_locked)
        (try_enqueue-Inv env (drop_job env j s)
          (drop_job-Inv env j s v (here_of s.sched id j v e).1))
]

delete_each-Inv :
    (env : Env) (ids : List ℕ) (s : Service) → Inv s.sched → Inv (delete_each env ids s).1.sched
unfolding delete_each
delete_each-Inv env [] s v = v
delete_each-Inv env (id ∷ ids) s v =
    let v' = delete_job_locked-Inv env id s v in
    elim (Option-cases (delete_job_locked env id s).0) [
      | inl e ↦ rw (e, delete_each) (delete_each-Inv env ids (delete_job_locked env id s).1 v')
      | inr (x, e) ↦ rw (e, delete_each) v'
    ]

-- DeleteQueuedJobs keeps the invariant.
pub delete_queued_jobs-Inv :
    (env : Env) (s : Service) → Inv s.sched → Inv (delete_queued_jobs env s).1.sched
unfolding delete_queued_jobs
delete_queued_jobs-Inv env s v = delete_each-Inv env (waiting_ids s.sched) s v

delete_old-Inv :
    (env : Env) (t age : ℤ) (left : ℕ) (js : List Job) (s : Service)
    → Inv s.sched
    → Inv (delete_old env t age left js s).sched
unfolding delete_old
delete_old-Inv env t age left [] s v = v
delete_old-Inv env t age left (j ∷ js) s v =
    let v' = delete_job_locked-Inv env j.id s v in
    elim (Bool-cases (ltb 0 left || leb_ℤ age (sub64 t (get_last_update_date j)))) [
      | inr p ↦ rw p (delete_old-Inv env t age left js s v)
      | inl p ↦ elim (Option-cases (delete_job_locked env j.id s).0) [
        | inl e ↦
            rw (p, e, delete_old)
              (delete_old-Inv env t age (left - 1) js (delete_job_locked env j.id s).1 v')
        | inr (x, e) ↦ rw (p, e, delete_old) v'
      ]
    ]

-- CheckJobsRetention keeps the invariant.
pub delete_old_completed_jobs_locked-Inv :
    (env : Env) (s : Service) → Inv s.sched → Inv (delete_old_completed_jobs_locked env s).sched
unfolding delete_old_completed_jobs_locked
delete_old_completed_jobs_locked-Inv env s v =
    let left = surplus env.config.retention_max_jobs (length (completed_jobs s.sched)) in
    let age = max_age env.config.retention_max_job_age in
    if_keeps (λ (d : Service). Inv d.sched) env.config.retention_enable
      (delete_old env (now env s) age left (completed_jobs s.sched) (tick s)) s
      (delete_old-Inv env (now env s) age left (completed_jobs s.sched) (tick s) v) v

-- Locks may be dropped at any time.
fewer_locks-Inv :
    (c : Scheduler) (locks : LockedResources)
    → ((r : String) → Owned r (lookup r locks) c.jobs)
    → Inv c
    → Inv (record c { locks = locks })
fewer_locks-Inv c locks l v = record {
  ids = v.ids;
  histories = v.histories;
  pending_jobs = v.pending_jobs;
  queued_jobs = v.queued_jobs;
  hidden_jobs = v.hidden_jobs;
  delayed_jobs = v.delayed_jobs;
  index = v.index;
  retry_queue = v.retry_queue;
  delayed_queue = v.delayed_queue;
  locks_owned = l;
}

-- UnlockAllResources keeps the invariant.
pub unlock_all-Inv : (env : Env) (s : Service) → Inv s.sched → Inv (unlock_all env s).sched
unfolding unlock_all unlock_all_resources_locked unlock_all_resources lookup
unlock_all-Inv env s v = try_enqueue-Inv env _ (fewer_locks-Inv s.sched [] (λ r. tt) v)

-- NewService satisfies the invariant.
pub new_service-Inv : Inv new_service.sched
unfolding new_service new_priority_queue lookup
new_service-Inv = record {
  ids = λ k. tt;
  histories = λ k. tt;
  pending_jobs = λ k. refl;
  queued_jobs = λ k. refl;
  hidden_jobs = λ k. count_value-new k;
  delayed_jobs = λ k. count_value-new k;
  index = new_queued_jobs-IsIndex;
  retry_queue = new-IsValid;
  delayed_queue = new-IsValid;
  locks_owned = λ r. tt;
}

-- DeleteAllJobs keeps the invariant.
pub delete_all_jobs-Inv : (s : Service) → Inv (delete_all_jobs s).sched
unfolding delete_all_jobs unlock_all_resources_locked unlock_all_resources clear new_service
    new_priority_queue
delete_all_jobs-Inv s = new_service-Inv

unlock_resource-Owned :
    (c : Scheduler) (r : String)
    → Inv c
    → (q : String) → Owned q (lookup q (unlock_resource r c.locks).1) c.jobs
unfolding unlock_resource
unlock_resource-Owned c r v q = elim (Option-cases (lookup r c.locks)) [
  | inl e ↦ rw (e, unlock_resource) (v.locks_owned q)
  | inr (owner, e) ↦ elim (Bool-cases (r == q)) [
    | inl same ↦ rw (e, unlock_resource) (rw (lookup-delete r q c.locks) (rw same tt))
    | inr other ↦
        rw (e, unlock_resource) (rw (lookup-delete r q c.locks) (rw other (v.locks_owned q)))
  ]
]

-- UnlockResource keeps the invariant.
pub unlock_one-Inv :
    (env : Env) (r : String) (s : Service) → Inv s.sched → Inv (unlock_one env r s).1.sched
unfolding unlock_one
unlock_one-Inv env r s v =
    let s' : Service =
      emit (resource_metric r (owner_topic (lookup r s.locks) s.sched))
        (record s { sched = record s.sched { locks = (unlock_resource r s.locks).1 } }) in
    let v' : Inv s'.sched =
      fewer_locks-Inv s.sched (unlock_resource r s.locks).1 (unlock_resource-Owned s.sched r v) v in
    elim (Bool-cases (unlock_resource r s.locks).0) [
      | inl e ↦ rw (e, unlock_one) (try_enqueue-Inv env s' v')
      | inr e ↦ rw (e, unlock_one) v
    ]
