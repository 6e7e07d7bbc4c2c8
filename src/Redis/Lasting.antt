-- ===== src/Redis/Lasting.antt =====
-- Where finished jobs are kept for ever, no key gets a time to live
-- (jobbackendprovider/redisprovider/redisprovider.go).
use minijob.Prelude.{
  ℕ, String, ◌==◌, ◌≡◌, refl, Option, none, some, List, [], ◌∷◌, ◌++◌, if_keeps, inl, inr,
  Bool-cases, Option-cases, string_Eq,
}
use minijob.Job.{Job, is_completed}
use minijob.Service.State.{
  ServiceEvent, Effect, job_event, service_event, job_updated, restore_flag, topic_event,
  locked_count, resource_metric, resource_unlocked,
}
use minijob.Redis.Ops.{StoredValue, WriteOp, written, after}
use minijob.Redis.Provider.{
  Settings, RedisProvider, save_job, on_job_deleted, on_jobs_deleted, on_job_updated, on_event,
  notify_job_event, notify_event, observe,
}
use minijob.Redis.Saves.{observed}

-- The key, if it is there, is kept for ever.
abbrev pub Lasts : Option StoredValue → Type 0
Lasts none = Unit {0}
Lasts (some (text, ttl)) = ttl ≡ 0

-- No write sets a time to live.
abbrev pub AllLast : List WriteOp → Type 0
AllLast [] = Unit {0}
AllLast (op ∷ ops) = (op.ttl ≡ 0) × AllLast ops

written-Lasts :
    (k : String) (op : WriteOp) (v : Option StoredValue)
    → op.ttl ≡ 0
    → Lasts v
    → Lasts (written k op v)
written-Lasts k op v z h = elim (Bool-cases op.del_all) [
  | inl e ↦ rw e tt
  | inr e ↦ elim (Bool-cases (op.key == k)) [
    | inr f ↦ rw (e, f) h
    | inl f ↦ elim (Bool-cases op.del) [ inl g ↦ rw (e, f, g) tt | inr g ↦ rw (e, f, g) z ]
  ]
]

pub after-Lasts :
    (k : String) (ops : List WriteOp) (v : Option StoredValue)
    → AllLast ops
    → Lasts v
    → Lasts (after k ops v)
after-Lasts k [] v all h = h
after-Lasts k (op ∷ ops) v (z, all) h =
    after-Lasts k ops (written k op v) all (written-Lasts k op v z h)

append-AllLast :
    (ops : List WriteOp) (op : WriteOp) → AllLast ops → op.ttl ≡ 0 → AllLast (ops ++ op ∷ [])
append-AllLast [] op all z = (z, tt)
append-AllLast (x ∷ ops) op (y, all) z = (y, append-AllLast ops op all z)

module _ (c : Settings) (keep : c.finished_job_ttl ≡ 0) where
  save_job-AllLast :
      (j : Job) (ttl : ℕ) (p : RedisProvider)
      → ttl ≡ 0
      → AllLast p.pushes
      → AllLast (save_job c j ttl p).pushes
  unfolding save_job
  save_job-AllLast j ttl p z h = elim (Option-cases (c.to_json j)) [
    | inl e ↦ rw (e, save_job) h
    | inr (text, e) ↦ rw (e, save_job) (append-AllLast p.pushes _ h z)
  ]

  on_event-AllLast :
      (ev : ServiceEvent) (j : Job) (p : RedisProvider)
      → AllLast p.pushes
      → AllLast (on_event c ev j p).pushes
  unfolding on_event on_job_deleted
  on_event-AllLast ServiceEvent.job_succeeded j p h = save_job-AllLast j c.finished_job_ttl p keep h
  on_event-AllLast ServiceEvent.job_deleted j p h = append-AllLast p.pushes _ h refl
  on_event-AllLast ServiceEvent.job_loaded j p h = h
  on_event-AllLast ServiceEvent.job_deleted_all j p h = h
  on_event-AllLast ServiceEvent.empty_poll_received j p h = h
  on_event-AllLast ServiceEvent.job_created j p h = save_job-AllLast j 0 p refl h
  on_event-AllLast ServiceEvent.job_delayed j p h = save_job-AllLast j 0 p refl h
  on_event-AllLast ServiceEvent.job_pending j p h = save_job-AllLast j 0 p refl h
  on_event-AllLast ServiceEvent.job_enqueued j p h = save_job-AllLast j 0 p refl h
  on_event-AllLast ServiceEvent.job_started j p h = save_job-AllLast j 0 p refl h
  on_event-AllLast ServiceEvent.job_canceled j p h = save_job-AllLast j 0 p refl h
  on_event-AllLast ServiceEvent.job_failed j p h = save_job-AllLast j 0 p refl h
  on_event-AllLast ServiceEvent.job_hidden j p h = save_job-AllLast j 0 p refl h
  on_event-AllLast ServiceEvent.job_terminated j p h = save_job-AllLast j 0 p refl h

  notify_event-AllLast :
      (ev : ServiceEvent) (p : RedisProvider)
      → AllLast p.pushes
      → AllLast (notify_event ev p).pushes
  unfolding notify_event on_jobs_deleted
  notify_event-AllLast ServiceEvent.job_deleted_all p h = elim (Bool-cases p.restoring) [
    | inl e ↦ rw e h
    | inr e ↦ rw e (append-AllLast p.pushes _ h refl)
  ]
  notify_event-AllLast ServiceEvent.job_created p h = h
  notify_event-AllLast ServiceEvent.job_delayed p h = h
  notify_event-AllLast ServiceEvent.job_pending p h = h
  notify_event-AllLast ServiceEvent.job_enqueued p h = h
  notify_event-AllLast ServiceEvent.job_started p h = h
  notify_event-AllLast ServiceEvent.job_succeeded p h = h
  notify_event-AllLast ServiceEvent.job_canceled p h = h
  notify_event-AllLast ServiceEvent.job_failed p h = h
  notify_event-AllLast ServiceEvent.job_hidden p h = h
  notify_event-AllLast ServiceEvent.job_deleted p h = h
  notify_event-AllLast ServiceEvent.job_terminated p h = h
  notify_event-AllLast ServiceEvent.job_loaded p h = h
  notify_event-AllLast ServiceEvent.empty_poll_received p h = h

  observe-AllLast :
      (e : Effect) (p : RedisProvider) → AllLast p.pushes → AllLast (observe c e p).pushes
  unfolding observe notify_job_event on_job_updated
  observe-AllLast (job_event ev j) p h =
      if_keeps (λ (q : RedisProvider). AllLast q.pushes) p.restoring p (on_event c ev j p) h
        (on_event-AllLast ev j p h)
  observe-AllLast (service_event ev) p h = notify_event-AllLast ev p h
  observe-AllLast (job_updated j) p h = elim (Bool-cases (is_completed j.state)) [
    | inl e ↦ rw e h
    | inr e ↦ rw e (save_job-AllLast j 0 p refl h)
  ]
  observe-AllLast (restore_flag b) p h = h
  observe-AllLast (topic_event ev x) p h = h
  observe-AllLast (locked_count x n) p h = h
  observe-AllLast (resource_metric x y) p h = h
  observe-AllLast Effect.all_resources_metric p h = h
  observe-AllLast (resource_unlocked j x) p h = h
  observe-AllLast Effect.all_resources_unlocked p h = h
  observe-AllLast Effect.wake_long_polls p h = h

  pub observed-AllLast :
      (p : RedisProvider) (es : List Effect) → AllLast p.pushes → AllLast (observed c p es).pushes
  observed-AllLast p [] h = h
  observed-AllLast p (e ∷ es) h = observe-AllLast e (observed c p es) (observed-AllLast p es h)
