-- ===== src/Redis/Mirror.antt =====
-- The writes of the Redis backend tell of the jobs of the scheduler
-- (jobbackendprovider/redisprovider/redisprovider.go and service/service.go).
use minijob.Prelude.{
  ℕ, String, Bool, Option, false, ◌≡◌, refl, sym, ◌∙◌, none, List, [], ◌∷◌, Map, lookup, insert,
  nat_Eq, string_Eq, if◌then◌else◌, arith,
}
use mathlib.Core.Path.{subst}
use minijob.Job.{Job}
use minijob.Job.History.{IsConsistent}
use minijob.Service.State.{
  Service, Env, ServiceEvent, job_created, job_delayed, job_pending, job_enqueued, job_started,
  job_succeeded, job_canceled, job_failed, job_hidden, job_deleted, job_terminated, job_loaded,
  job_deleted_all, empty_poll_received, Effect, job_event, service_event, topic_event, locked_count,
  resource_metric, all_resources_metric, resource_unlocked, all_resources_unlocked, job_updated,
  restore_flag, wake_long_polls,
}
use minijob.Service.Log.{
  follow_event, follow, followed, restoring, flag_after, flag_after-restoring, AllowedEvent,
  Allowed, IsLog,
}
use minijob.Service.Logged.{IsLogged}
use minijob.Service.Reach.{Reach}
use minijob.Service.Messages.{reachable-IsLogged}
use minijob.Redis.Ops.{StoredValue, after}
use minijob.Redis.Provider.{
  Settings, RedisProvider, job_uuid2redis_key, save_job, on_job_deleted, on_jobs_deleted,
  on_job_updated, on_event, notify_job_event, notify_event, observe,
}
use minijob.Redis.Saves.{
  IsSaved, observed, Prints, Mirrors, save_job-Mirrors, on_job_deleted-Mirrors,
  on_jobs_deleted-Mirrors, on_job_updated-Mirrors,
}

module _ (c : Settings) (h : Prints c) (base : String → Option StoredValue) where
  -- The writes so far, and the flag.
  abbrev IsMirror : Map ℕ Job → Bool → RedisProvider → Type 0
  IsMirror m flag p = Mirrors c h base m p × (p.restoring ≡ flag)

  save_job-restoring :
      (j : Job) (ttl : ℕ) (p : RedisProvider) → (save_job c j ttl p).restoring ≡ p.restoring
  unfolding save_job
  save_job-restoring j ttl p = let (text, e) = h.json j in rw (e, save_job) refl

  saved-IsMirror :
      (j : Job) (ttl : ℕ) (m : Map ℕ Job) (flag : Bool) (p : RedisProvider)
      → flag ≡ false
      → IsConsistent j
      → IsMirror m flag p
      → IsMirror (insert j.id j m) flag (if p.restoring then p else save_job c j ttl p)
  saved-IsMirror j ttl m flag p f cons (v, b) =
      simp (b ∙ f) (save_job-Mirrors c h base j ttl m p cons v, save_job-restoring j ttl p ∙ b)

  if_same : (b : Bool) (p : RedisProvider) → (if b then p else p) ≡ p
  if_same b p = ground arith

  event-IsMirror :
      (max : ℕ) (ev : ServiceEvent) (j : Job) (m : Map ℕ Job) (flag : Bool) (p : RedisProvider)
      → AllowedEvent max ev j flag m
      → IsMirror m flag p
      → IsMirror (follow_event ev j m) flag (notify_job_event c ev j p)
  unfolding notify_job_event on_event on_job_deleted
  event-IsMirror max job_succeeded j m flag p a v =
      saved-IsMirror j c.finished_job_ttl m flag p a.0 a.1 v
  event-IsMirror max job_deleted j m flag p (f, _) (v, b) =
      simp (b ∙ f) (on_job_deleted-Mirrors c h base j.id m p v, sym f)
  event-IsMirror max job_loaded j m flag p a v = rw (if_same p.restoring p) v
  event-IsMirror max job_deleted_all j m flag p a v = absurd a
  event-IsMirror max empty_poll_received j m flag p a v = absurd a
  event-IsMirror max job_created j m flag p a v = saved-IsMirror j 0 m flag p a.0 a.1 v
  event-IsMirror max job_delayed j m flag p a v = saved-IsMirror j 0 m flag p a.0 a.1 v
  event-IsMirror max job_pending j m flag p a v = saved-IsMirror j 0 m flag p a.0 a.1 v
  event-IsMirror max job_enqueued j m flag p a v = saved-IsMirror j 0 m flag p a.0 a.1 v
  event-IsMirror max job_started j m flag p a v = saved-IsMirror j 0 m flag p a.0 a.1 v
  event-IsMirror max job_canceled j m flag p a v = saved-IsMirror j 0 m flag p a.0 a.1 v
  event-IsMirror max job_failed j m flag p a v = saved-IsMirror j 0 m flag p a.0 a.1 v
  event-IsMirror max job_hidden j m flag p a v = saved-IsMirror j 0 m flag p a.0 a.1 v
  event-IsMirror max job_terminated j m flag p a v = saved-IsMirror j 0 m flag p a.0 a.1 v

  all-IsMirror :
      (ev : ServiceEvent) (m : Map ℕ Job) (flag : Bool) (p : RedisProvider)
      → flag ≡ false
      → IsMirror m flag p
      → IsMirror (follow (service_event ev) m) flag (notify_event ev p)
  unfolding notify_event on_jobs_deleted
  all-IsMirror job_deleted_all m flag p f (v, b) =
      simp (b ∙ f) (on_jobs_deleted-Mirrors c h base m p v, sym f)
  all-IsMirror ev m flag p f v = v

  on_job_updated-restoring :
      (j : Job) (p : RedisProvider) → (on_job_updated c j p).restoring ≡ p.restoring
  unfolding on_job_updated
  on_job_updated-restoring j p = ground (arith, save_job-restoring j 0 p)

  observe-IsMirror :
      (max : ℕ) (start : Map ℕ Job) (e : Effect) (m : Map ℕ Job) (flag : Bool) (p : RedisProvider)
      → Allowed max start e flag m
      → IsMirror m flag p
      → IsMirror (follow e m) (flag_after e flag) (observe c e p)
  unfolding observe
  observe-IsMirror max start (job_event ev j) m flag p a v = event-IsMirror max ev j m flag p a v
  observe-IsMirror max start (service_event ev) m flag p a v = all-IsMirror ev m flag p a v
  observe-IsMirror max start (topic_event ev t) m flag p a v = v
  observe-IsMirror max start (locked_count t n) m flag p a v = v
  observe-IsMirror max start (resource_metric r t) m flag p a v = v
  observe-IsMirror max start all_resources_metric m flag p a v = v
  observe-IsMirror max start (resource_unlocked j r) m flag p a v = v
  observe-IsMirror max start all_resources_unlocked m flag p a v = v
  observe-IsMirror max start (job_updated j) m flag p (_, cons, a) (v, b) =
      (on_job_updated-Mirrors c h base j m p cons a v, on_job_updated-restoring j p ∙ b)
  observe-IsMirror max start (restore_flag b) m flag p a (v, _) = (v, refl)
  observe-IsMirror max start wake_long_polls m flag p a v = v

  observed-IsMirror :
      (max : ℕ) (start : Map ℕ Job) (es : List Effect) (p : RedisProvider)
      → IsLog max start es
      → ((id : ℕ) → IsSaved c id (lookup id start) (base (job_uuid2redis_key c id)))
      → p.pushes ≡ []
      → p.restoring ≡ false
      → IsMirror (followed start es) (restoring es) (observed c p es)
  observed-IsMirror max start [] p log saved empty flag = (λ id. rw empty (saved id), flag)
  observed-IsMirror max start (e ∷ es) p (a, log) saved empty flag =
      subst (λ b. IsMirror (followed start (e ∷ es)) b (observed c p (e ∷ es)))
        (flag_after-restoring e es)
        (observe-IsMirror max start e (followed start es) (restoring es) (observed c p es) a
          (observed-IsMirror max start es p log saved empty flag))

  logged-IsSaved :
      (max : ℕ) (start : Map ℕ Job) (p : RedisProvider) (s : Service) (id : ℕ)
      → IsLogged max start s.effects s.jobs
      → ((k : ℕ) → IsSaved c k (lookup k start) (base (job_uuid2redis_key c k)))
      → p.pushes ≡ []
      → p.restoring ≡ false
      → IsSaved c id (lookup id s.jobs) (
          after
            (job_uuid2redis_key c id)
            (observed c p s.effects).pushes
            (base (job_uuid2redis_key c id)))
  logged-IsSaved max start p s id logged saved empty flag =
      subst
        (λ m. IsSaved c id (lookup id m) (
          after (job_uuid2redis_key c id) (observed c p s.effects).pushes
            (base (job_uuid2redis_key c id))))
        logged.told ((observed-IsMirror max start s.effects p logged.log saved empty flag).0 id)

module _ (c : Settings) (h : Prints c) where
  -- Distinct uuids are printed in different ways, and every job can be marshalled. After any
  -- sequence of calls the writes that a Redis provider has asked for, made in order on an empty
  -- database, leave under the key of every job that the scheduler has the id, the state and the
  -- history of the job, and the present job where it is not completed; under the key of any other job
  -- they leave nothing.
  pub reachable-IsSaved :
      (env : Env) (p : RedisProvider) {s : Service} (id : ℕ)
      → Reach env s
      → p.pushes ≡ []
      → p.restoring ≡ false
      → IsSaved c id
          (lookup id s.jobs)
          (after (job_uuid2redis_key c id) (observed c p s.effects).pushes none)
  unfolding lookup
  reachable-IsSaved env p {s} id reach empty flag =
      logged-IsSaved c h (λ k. none) env.config.backend_max_jobs [] p s id
        (reachable-IsLogged env reach) (λ k. refl) empty flag
