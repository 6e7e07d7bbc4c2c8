-- ===== src/Backend/Mirror.antt =====
-- The jobs of the in-memory backend (jobbackendprovider/inmemoryprovider/inmemoryprovider.go) are
-- those of the scheduler: the provider is an observer of service/service.go.
use minijob.Prelude.{
  ℕ, ◌<◌, Bool, true, false, ◌≡◌, refl, ap, sym, ◌∙◌, some, List, [], ◌∷◌, Map, lookup, insert,
  delete, length, map_values-insert, map_values-delete, insert-same, nat_Eq, if◌then◌else◌, arith,
}
use mathlib.Core.Path.{subst}
use minijob.Job.{Job}
use minijob.Service.State.{
  Service, Env, ServiceEvent, job_created, job_delayed, job_pending, job_enqueued, job_started,
  job_succeeded, job_canceled, job_failed, job_hidden, job_deleted, job_terminated, job_loaded,
  job_deleted_all, empty_poll_received, Effect, job_event, service_event, topic_event, locked_count,
  resource_metric, all_resources_metric, resource_unlocked, all_resources_unlocked, job_updated,
  restore_flag, wake_long_polls,
}
use minijob.Service.Log.{
  is_update, follow_event, follow, followed, restoring, flag_after, flag_after-restoring, is_known,
  Known, Follows-Known, AllowedEvent, Allowed, IsLog,
}
use minijob.Service.Reach.{Reach}
use minijob.Service.Messages.{reachable-IsLogged}
use minijob.Backend.InMemory.{
  Settings, Provider, kept, keep_locked, keep_known, on_job_created, on_job_deleted,
  on_jobs_deleted, on_job_updated, on_event, notify_job_event, notify_event, observe,
}
use minijob.Backend.Stored.{
  stored, observed, IsMirror, length-stored, stored-Known, keep_known-restoring, update-is_kept,
  update-on_event, kept-IsMirror,
}

notify_update :
    (c : Settings) (ev : ServiceEvent) (j : Job) (p : Provider)
    → is_update ev ≡ true
    → p.restoring ≡ false
    → notify_job_event c ev j p ≡ on_event c ev j (if c.persistent then keep_known c j p else p)
unfolding notify_job_event
notify_update c ev j p u h = ground (arith, update-is_kept ev u, h)

update-IsMirror :
    (c : Settings) (ev : ServiceEvent) (j : Job) (m : Map ℕ Job) (p : Provider)
    → is_update ev ≡ true
    → Known j m
    → IsMirror c m false p
    → IsMirror c (insert j.id j m) false (notify_job_event c ev j p)
update-IsMirror c ev j m p u k h = rw (notify_update c ev j p u h.1) (
    update-on_event c ev j (insert j.id j m) (if c.persistent then keep_known c j p else p) u
      (kept-IsMirror c j m p k h))

created-IsMirror :
    (c : Settings) (j : Job) (m : Map ℕ Job) (p : Provider)
    → length m < c.max_jobs
    → IsMirror c m false p
    → IsMirror c (insert j.id j m) false (notify_job_event c job_created j p)
unfolding notify_job_event on_event on_job_created keep_locked
created-IsMirror c j m p r h =
    ground (arith, length-stored c m, h, r, map_values-insert (kept c) j.id j m)

deleted-IsMirror :
    (c : Settings) (j : Job) (m : Map ℕ Job) (p : Provider)
    → IsMirror c m false p
    → IsMirror c (delete j.id m) false (notify_job_event c job_deleted j p)
unfolding notify_job_event on_event on_job_deleted
deleted-IsMirror c j m p h = ground (arith, h, map_values-delete (kept c) j.id m)

loaded-IsMirror :
    (c : Settings) (j : Job) (m : Map ℕ Job) (flag : Bool) (p : Provider)
    → lookup j.id m ≡ some j
    → IsMirror c m flag p
    → IsMirror c m flag (notify_job_event c job_loaded j p)
unfolding notify_job_event on_event
loaded-IsMirror c j m flag p e h = ground (
  arith,
  h,
  keep_known-restoring c j p,
  insert-same j.id j m e,
  stored-Known c j m p h.0 (ap is_known e),
)

all-IsMirror :
    (c : Settings) (ev : ServiceEvent) (m : Map ℕ Job) (p : Provider)
    → IsMirror c m false p
    → IsMirror c (follow (service_event ev) m) false (notify_event ev p)
unfolding notify_event on_jobs_deleted
all-IsMirror c job_deleted_all m p h = rw (h.1) (refl, refl)
all-IsMirror c ev m p h = h

while_open :
    (c : Settings) (m n : Map ℕ Job) (flag : Bool) (p q : Provider)
    → flag ≡ false
    → IsMirror c m flag p
    → (IsMirror c m false p → IsMirror c n false q)
    → IsMirror c n flag q
while_open c m n flag p q f h step = let next = step (h.0, h.1 ∙ f) in (next.0, next.1 ∙ sym f)

event-IsMirror :
    (c : Settings) (ev : ServiceEvent) (j : Job) (m : Map ℕ Job) (flag : Bool) (p : Provider)
    → 0 < c.max_jobs
    → AllowedEvent c.max_jobs ev j flag m
    → IsMirror c m flag p
    → IsMirror c (follow_event ev j m) flag (notify_job_event c ev j p)
event-IsMirror c job_loaded j m flag p r a h = loaded-IsMirror c j m flag p a.1 h
event-IsMirror c job_created j m flag p r (f, _, room, _) h =
    while_open c m _ flag p (notify_job_event c job_created j p) f h
      (created-IsMirror c j m p (room r))
event-IsMirror c job_deleted j m flag p r (f, _) h =
    while_open c m _ flag p (notify_job_event c job_deleted j p) f h (deleted-IsMirror c j m p)
event-IsMirror c job_deleted_all j m flag p r a h = absurd a
event-IsMirror c empty_poll_received j m flag p r a h = absurd a
event-IsMirror c job_delayed j m flag p r (f, _, k, _) h =
    while_open c m _ flag p (notify_job_event c job_delayed j p) f h
      (update-IsMirror c job_delayed j m p refl (Follows-Known j m k))
event-IsMirror c job_pending j m flag p r (f, _, k, _) h =
    while_open c m _ flag p (notify_job_event c job_pending j p) f h
      (update-IsMirror c job_pending j m p refl (Follows-Known j m k))
event-IsMirror c job_enqueued j m flag p r (f, _, k, _) h =
    while_open c m _ flag p (notify_job_event c job_enqueued j p) f h
      (update-IsMirror c job_enqueued j m p refl (Follows-Known j m k))
event-IsMirror c job_started j m flag p r (f, _, k, _) h =
    while_open c m _ flag p (notify_job_event c job_started j p) f h
      (update-IsMirror c job_started j m p refl (Follows-Known j m k))
event-IsMirror c job_succeeded j m flag p r (f, _, k, _) h =
    while_open c m _ flag p (notify_job_event c job_succeeded j p) f h
      (update-IsMirror c job_succeeded j m p refl (Follows-Known j m k))
event-IsMirror c job_canceled j m flag p r (f, _, k, _) h =
    while_open c m _ flag p (notify_job_event c job_canceled j p) f h
      (update-IsMirror c job_canceled j m p refl (Follows-Known j m k))
event-IsMirror c job_failed j m flag p r (f, _, k, _) h =
    while_open c m _ flag p (notify_job_event c job_failed j p) f h
      (update-IsMirror c job_failed j m p refl (Follows-Known j m k))
event-IsMirror c job_hidden j m flag p r (f, _, k, _) h =
    while_open c m _ flag p (notify_job_event c job_hidden j p) f h
      (update-IsMirror c job_hidden j m p refl (Follows-Known j m k))
event-IsMirror c job_terminated j m flag p r (f, _, k, _) h =
    while_open c m _ flag p (notify_job_event c job_terminated j p) f h
      (update-IsMirror c job_terminated j m p refl (Follows-Known j m k))

pub observe-IsMirror :
    (c : Settings) (start : Map ℕ Job) (e : Effect) (m : Map ℕ Job) (flag : Bool) (p : Provider)
    → 0 < c.max_jobs
    → Allowed c.max_jobs start e flag m
    → IsMirror c m flag p
    → IsMirror c (follow e m) (flag_after e flag) (observe c e p)
unfolding observe on_job_updated
observe-IsMirror c start (job_event ev j) m flag p r a h = event-IsMirror c ev j m flag p r a h
observe-IsMirror c start (service_event ev) m flag p r a h =
    while_open c m _ flag p (notify_event ev p) a h (all-IsMirror c ev m p)
observe-IsMirror c start (topic_event ev t) m flag p r a h = h
observe-IsMirror c start (locked_count t n) m flag p r a h = h
observe-IsMirror c start (resource_metric r' t) m flag p r a h = h
observe-IsMirror c start all_resources_metric m flag p r a h = h
observe-IsMirror c start (resource_unlocked j r') m flag p r a h = h
observe-IsMirror c start all_resources_unlocked m flag p r a h = h
observe-IsMirror c start (job_updated j) m flag p r a h =
    (stored-Known c j m p h.0 (ap is_known a.2.1), keep_known-restoring c j p ∙ h.1)
observe-IsMirror c start (restore_flag b) m flag p r a h = (h.0, refl)
observe-IsMirror c start wake_long_polls m flag p r a h = h

-- A provider that starts with the jobs of the scheduler keeps them through every log of messages.
pub observed-IsMirror :
    (c : Settings) (start : Map ℕ Job) (es : List Effect) (p : Provider)
    → 0 < c.max_jobs
    → IsLog c.max_jobs start es
    → p.jobs ≡ stored c start
    → p.restoring ≡ false
    → ((observed c p es).jobs ≡ stored c (followed start es))
      × ((observed c p es).restoring ≡ restoring es)
observed-IsMirror c start [] p r log same flag = (same, flag)
observed-IsMirror c start (e ∷ es) p r (a, log) same flag =
    subst (λ b. IsMirror c (followed start (e ∷ es)) b (observed c p (e ∷ es)))
      (flag_after-restoring e es)
      (observe-IsMirror c start e (followed start es) (restoring es) (observed c p es) r a
        (observed-IsMirror c start es p r log same flag))

-- A provider that is empty at first and is only told of the changes stores, after any sequence of
-- calls, every job of the scheduler with its present value (with nothing in its place when no file
-- is written), and no other job. The service and the provider have the same limit, and it is
-- positive.
pub reachable-observed :
    (env : Env) (c : Settings) (p : Provider) {s : Service}
    → Reach env s
    → env.config.backend_max_jobs ≡ c.max_jobs
    → 0 < c.max_jobs
    → p.jobs ≡ []
    → p.restoring ≡ false
    → (observed c p s.effects).jobs ≡ stored c s.jobs
reachable-observed env c p {s} reach limit r e flag =
    let logged = reachable-IsLogged env reach in
    (observed-IsMirror c [] s.effects p r (subst (λ max. IsLog max [] s.effects) limit logged.log) e
      flag).0
    ∙ ap (stored c) logged.told
