-- ===== src/Backend/Restarted.antt =====
-- A start on what an earlier run has saved (service/service.go: LoadJobs, and the in-memory backend,
-- jobbackendprovider/inmemoryprovider).
use minijob.Prelude.{
  ℕ, ◌<◌, false, ◌≡◌, refl, ap, ◌∙◌, List, [], ◌∷◌, Map, keys, map_values, nat_Eq,
}
use mathlib.Core.Path.{subst}
use minijob.Job.{Job, set_state_from_history}
use minijob.Service.State.{Service, Env, Effect}
use minijob.Service.Log.{IsLog}
use minijob.Service.Logged.{IsLogged}
use minijob.Service.Restored.{IsLoadable}
use minijob.Service.Restored.Once.{Once, nil-Once, followed-Once}
use minijob.Service.Reach.{Reach, ReachLoaded}
use minijob.Service.Messages.{reachable-IsLogged, restarted-IsLogged}
use minijob.Backend.InMemory.{Settings, Provider, with_states}
use minijob.Backend.Stored.{stored, observed}
use minijob.Backend.Mirror.{observed-IsMirror}
use minijob.Backend.Saved.{lookup-with_states}

-- The jobs that the messages tell of can be loaded again.
logged-IsLoadable :
    (max : ℕ) (m : Map ℕ Job) (es : List Effect) (jobs : Map ℕ Job)
    → Once m
    → IsLogged max m es jobs
    → IsLoadable jobs
logged-IsLoadable max m es jobs h l = record {
  once = subst Once l.told (followed-Once es m h);
  sound = l.sound;
}

-- After any sequence of calls the jobs of the scheduler can be loaded again: each stands under its own
-- id, once, and in the state of its history.
pub reachable-IsLoadable : (env : Env) {s : Service} → Reach env s → IsLoadable s.jobs
reachable-IsLoadable env {s} r =
    logged-IsLoadable env.config.backend_max_jobs [] s.effects s.jobs nil-Once
      (reachable-IsLogged env r)

-- The same after a start on loaded jobs.
pub restarted-IsLoadable :
    (env : Env) (m : Map ℕ Job) {s : Service}
    → IsLoadable m
    → ReachLoaded env m s
    → IsLoadable s.jobs
restarted-IsLoadable env m {s} h r =
    logged-IsLoadable env.config.backend_max_jobs m s.effects s.jobs h.once
      (restarted-IsLogged env m h r)

-- A provider that holds the loaded jobs at first, and is told of LoadJobs and of any sequence of calls
-- behind it, stores every job of the scheduler with its present value (with nothing in its place when
-- no file is written), and no other job. The service and the provider have the same limit, and it is
-- positive.
pub restarted-observed :
    (env : Env) (c : Settings) (m : Map ℕ Job) (p : Provider) {s : Service}
    → IsLoadable m
    → ReachLoaded env m s
    → env.config.backend_max_jobs ≡ c.max_jobs
    → 0 < c.max_jobs
    → p.jobs ≡ stored c m
    → p.restoring ≡ false
    → (observed c p s.effects).jobs ≡ stored c s.jobs
restarted-observed env c m p {s} h reach limit r e flag =
    let logged = restarted-IsLogged env m h reach in
    (observed-IsMirror c m s.effects p r (subst (λ max. IsLog max m s.effects) limit logged.log) e
      flag).0
    ∙ ap (stored c) logged.told

keys-map_values : (f : Job → Job) (m : Map ℕ Job) → keys (map_values f m) ≡ keys m
keys-map_values f [] = refl
keys-map_values f ((k, j) ∷ m) = ap (k ∷◌) (keys-map_values f m)

-- The jobs with the states of their histories, if these are those of jobs that can be loaded.
pub with_states-IsLoadable :
    (m n : Map ℕ Job) → IsLoadable m → with_states n ≡ with_states m → IsLoadable (with_states n)
with_states-IsLoadable m n h e = record {
  once = λ k. rw (e, keys-map_values set_state_from_history m) (h.once k);
  sound = λ k. rw (e, lookup-with_states m k (h.sound k)) (h.sound k);
}
