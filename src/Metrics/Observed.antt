-- ===== src/Metrics/Observed.antt =====
-- Each message and the counters (metrics/servicemetrics.go).
use minijob.Prelude.{
  ℕ, Bool, true, false, ◌≡◌, refl, ap, sym, ◌∙◌, none, some, List, [], ◌∷◌, Map, lookup,
  lookup-insert, lookup-delete, insert, delete, ◌==◌, if_keeps, nat_Eq, string_Eq, arith,
}
use mathlib.Core.Path.{subst}
use minijob.Prelude.Int64.{negsuc}
use minijob.Job.{Job, JobState, same_state}
use minijob.Job.History.{IsConsistent}
use minijob.Service.State.{
  Service, Env, ServiceEvent, job_created, job_deleted, job_loaded, job_deleted_all,
  empty_poll_received, Effect, job_event, service_event, topic_event, locked_count, resource_metric,
  all_resources_metric, job_updated,
}
use minijob.Service.Log.{
  followed, restoring, AllowedEvent, update-AllowedEvent, Allowed, Follows, Revised, IsLog,
}
use minijob.Service.Logged.{IsSound, IsLogged}
use minijob.Service.Shown.{
  show, shown, Agrees, is_plain, InOrder, AreInOrder, InOrder-plain, log-restoring, shown-Agrees,
}
use minijob.Service.Reach.{Reach, ReachLoaded}
use minijob.Service.Messages.{reachable-IsLogged, restarted-IsLogged}
use minijob.Service.Restored.{IsLoadable}
use minijob.Service.Restored.Once.{Once, nil-Once, insert-Once, follow-Once, followed-Once}
use minijob.Metrics.{Floats, ServiceMetrics, new_service_metrics}
use minijob.Metrics.Topics.{add_topic}
use minijob.Metrics.Observer.{
  notify_job_event, notify_topic_event, notify_event, on_resource_unlocked, observe, observed,
}
use minijob.Metrics.Counting.{count_jobs-lookup}
use minijob.Metrics.Counters.{existing_after}
use minijob.Metrics.Agree.{
  of_topic, in_state, IsCounted, update-IsCounted, created-IsCounted, deleted-IsCounted,
}
use minijob.Service.Begun.{AreBegun, IsBegun}
use minijob.Metrics.Replay.{IsBegun-live, loaded-IsCounted}
use minijob.Metrics.Unchanged.{
  locked_count-IsCounted, topic-IsCounted, Revised-IsCounted, all_unlocked-IsCounted,
  none-IsCounted,
}

nil-IsLoadable : IsLoadable []
unfolding lookup
nil-IsLoadable = record { once = nil-Once; sound = λ k. tt }

-- No stored job is in the state `deleted`.
abbrev pub IsLive : Map ℕ Job → Type 0
IsLive m = (k : ℕ) (o : Job) → lookup k m ≡ some o → same_state o.state JobState.deleted ≡ false

insert-IsLive :
    (j : Job) (m : Map ℕ Job)
    → same_state j.state JobState.deleted ≡ false
    → IsLive m
    → IsLive (insert j.id j m)
insert-IsLive j m l h k o e = ground (arith, lookup-insert j.id k j m, h k o, l, e)

delete-IsLive : (i : ℕ) (m : Map ℕ Job) → IsLive m → IsLive (delete i m)
delete-IsLive i m h k o e = ground (arith, lookup-delete i k m, h k o, e)

show-IsOnce : (e : Effect) (m : Map ℕ Job) → Once m → Once (show e m)
show-IsOnce (job_event job_loaded j) m h = insert-Once j.id j m h
show-IsOnce (job_event ev j) m h = follow-Once (job_event ev j) m h
show-IsOnce e m h = follow-Once e m h

shown-Once : (es : List Effect) → Once (shown es)
shown-Once [] = nil-Once
shown-Once (e ∷ es) = show-IsOnce e (shown es) (shown-Once es)

Follows-Agrees : (j : Job) (m n : Map ℕ Job) → Agrees n m → Follows j m → Follows j n
Follows-Agrees j m n g (old, here, p, q, e, x) = (old, g j.id ∙ here, p, q, e, x)

Revised-Agrees : (j : Job) (m n : Map ℕ Job) → Agrees n m → Revised j m → Revised j n
Revised-Agrees j m n g (old, here, p, q, r) = (old, g j.id ∙ here, p, q, r)

-- What is known of a loaded job when it is told.
abbrev IsReady : Effect → Map ℕ Job → Type 0
IsReady (job_event job_loaded j) n = (lookup j.id n ≡ none) × IsConsistent j × IsBegun j
IsReady e n = Unit {0}

-- One message: `m` are the jobs of an observer who began with those of the start, and `n` those of one
-- who began with none.
module _ (max : ℕ) (start : Map ℕ Job) (flag : Bool) (m n : Map ℕ Job) where
  event-IsLive :
      (ev : ServiceEvent) (j : Job)
      → AllowedEvent max ev j flag m
      → IsReady (job_event ev j) n
      → IsLive n
      → IsLive (show (job_event ev j) n)
  event-IsLive job_created j (_, _, _, (_, _, st, _)) r l =
      insert-IsLive j n (ap (λ x. same_state x JobState.deleted) st) l
  event-IsLive job_deleted j a r l = delete-IsLive j.id n l
  event-IsLive job_loaded j a (_, c, b) l = insert-IsLive j n (IsBegun-live j c b) l
  event-IsLive job_deleted_all j a r l = l
  event-IsLive empty_poll_received j a r l = l
  event-IsLive ev j (_, _, _, st) r l =
      insert-IsLive j n (ap (λ x. same_state x JobState.deleted) st) l

  effect-IsLive :
      (e : Effect)
      → (is_plain e ≡ true → flag ≡ false → Agrees n m)
      → Allowed max start e flag m
      → IsReady e n
      → IsLive n
      → IsLive (show e n)
  unfolding lookup
  effect-IsLive (job_event ev j) g a r l = event-IsLive ev j a r l
  effect-IsLive (service_event job_deleted_all) g a r l = λ k o e. cc
  effect-IsLive (job_updated j) g (f, _, (old, here, st, _, _)) r l =
      insert-IsLive j n
        (ap (λ x. same_state x JobState.deleted) (sym st) ∙ l j.id old (g refl f j.id ∙ here)) l
  effect-IsLive e g a r l = l

  module _ {F : Type 0} (floats : Floats F) (s : ServiceMetrics F) (once : Once n) (live : IsLive n)
      (h : IsCounted floats n s) where
    event-IsCounted :
        (ev : ServiceEvent) (j : Job)
        → (is_plain (job_event ev j) ≡ true → flag ≡ false → Agrees n m)
        → AllowedEvent max ev j flag m
        → IsReady (job_event ev j) n
        → IsCounted floats (show (job_event ev j) n) (notify_job_event floats true ev j s)
    unfolding notify_job_event
    event-IsCounted job_created j g (f, _, _, (new, p, q, x)) r =
        created-IsCounted floats j n s (g refl f j.id ∙ new, p, q, x) h
    event-IsCounted job_deleted j g (f, k) r =
        deleted-IsCounted floats j n s once (Follows-Agrees j m n (g refl f) k) live h
    event-IsCounted job_loaded j g a (gone, c, b) = loaded-IsCounted floats j n s gone c b h
    event-IsCounted job_deleted_all j g a r = absurd a
    event-IsCounted empty_poll_received j g a r = absurd a
    event-IsCounted ev j g a r =
        let (f, _, k, st) = update-AllowedEvent max ev j flag m refl a in
        update-IsCounted floats ev j n s refl
          (λ i. ap (λ x. existing_after j.previous_state x i) st)
          (Follows-Agrees j m n (g refl f) k) h

    effect-IsCounted :
        (e : Effect)
        → (is_plain e ≡ true → flag ≡ false → Agrees n m)
        → Allowed max start e flag m
        → IsReady e n
        → IsCounted floats (show e n) (observe floats true e s)
    unfolding observe notify_topic_event notify_event on_resource_unlocked
    effect-IsCounted (job_event ev j) g a r = event-IsCounted ev j g a r
    effect-IsCounted (service_event job_deleted_all) g a r = none-IsCounted floats n s
    effect-IsCounted (service_event ev) g a r = h
    effect-IsCounted (topic_event ev t) g a r =
        if_keeps (IsCounted floats n) (t == "*") s (add_topic floats t s) h
          (topic-IsCounted floats t n s h)
    effect-IsCounted (locked_count t i) g a r = locked_count-IsCounted floats t i n s h
    effect-IsCounted (resource_metric x t) g a r =
        locked_count-IsCounted floats t (negsuc 0) n
          (record s { resource_metrics = delete x s.resource_metrics }) h
    effect-IsCounted all_resources_metric g a r = all_unlocked-IsCounted floats n s h
    effect-IsCounted (job_updated j) g (f, _, v) r =
        Revised-IsCounted floats j n s (Revised-Agrees j m n (g refl f) v) h
    effect-IsCounted e g a r = h

-- All messages of a scheduler that starts on jobs which begin with their creation.
module _ {F : Type 0} (floats : Floats F) (max : ℕ) (start : Map ℕ Job)
    (loadable : IsLoadable start) (begun : AreBegun start) where
  effect-IsReady :
      (e : Effect) (es : List Effect)
      → IsLog max start es
      → Allowed max start e (restoring es) (followed start es)
      → InOrder start e es
      → IsReady e (shown es)
  effect-IsReady (job_event job_loaded j) es l (f, here) i =
      let there : lookup j.id start ≡ some j =
        ap (lookup j.id) (sym (log-restoring max start es l f)) ∙ here in
      (i, (subst (IsSound j.id) there (loadable.sound j.id)).1, begun j.id j there)
  effect-IsReady (job_event ev j) es l a i = tt
  effect-IsReady e es l a i = tt

  logged-IsCounted :
      (es : List Effect)
      → IsLog max start es
      → AreInOrder start es
      → IsCounted floats (shown es) (observed floats true new_service_metrics es)
        × IsLive (shown es)
  unfolding lookup
  logged-IsCounted [] l o = (λ t. (refl, λ st g. ground arith), λ k o e. cc)
  logged-IsCounted (e ∷ es) (a, l) (i, o) =
      let (h, live) = logged-IsCounted es l o in
      let m = followed start es in
      let n = shown es in
      let r = effect-IsReady e es l a i in
      let g = λ (p : is_plain e ≡ true) (f : restoring es ≡ false).
        shown-Agrees max start es l o f (InOrder-plain start e es p i) in
      (
        effect-IsCounted max start (restoring es) m n floats
            (observed floats true new_service_metrics es) (shown-Once es) live h e g a r,
        effect-IsLive max start (restoring es) m n e g a r live,
      )

  -- The counters of a logged run are the numbers of its jobs.
  pub run-IsCounted :
      (es : List Effect) (jobs : Map ℕ Job)
      → IsLogged max start es jobs
      → IsCounted floats jobs (observed floats true new_service_metrics es)
  run-IsCounted es jobs l t =
      let same = λ (p : Job → Bool).
        count_jobs-lookup p (shown es) (followed start es) (shown-Once es)
          (followed-Once es start loadable.once)
          (shown-Agrees max start es l.log l.ordered.0 l.open_flag l.ordered.1) in
      let h = (logged-IsCounted es l.log l.ordered.0).0 t in
      rw (← l.told) (h.0 ∙ same (of_topic t), λ st g. h.1 st g ∙ same (in_state t st))

module _ {F : Type 0} (floats : Floats F) (env : Env) where
  -- After any sequence of calls of a new scheduler, the metrics, if they are collected, have for each
  -- topic the number of its jobs that the scheduler stores, and for each state the number of its jobs
  -- in that state.
  pub reachable-IsCounted :
      {s : Service}
      → Reach env s
      → IsCounted floats s.jobs (observed floats true new_service_metrics s.effects)
  unfolding lookup
  reachable-IsCounted {s} r =
      run-IsCounted floats env.config.backend_max_jobs [] nil-IsLoadable (λ k j e. cc) s.effects
        s.jobs (reachable-IsLogged env r)

  -- The metrics, if they are collected, of a scheduler that starts on the jobs of the backend and then
  -- serves any sequence of calls have for each topic the number of its jobs that the scheduler stores,
  -- and for each state the number of its jobs in that state. The backend loads each job under its own
  -- id, once, in the state of its history, and with a history that begins with the creation of the job
  -- and has no other one.
  pub restarted-IsCounted :
      (m : Map ℕ Job) {s : Service}
      → IsLoadable m
      → AreBegun m
      → ReachLoaded env m s
      → IsCounted floats s.jobs (observed floats true new_service_metrics s.effects)
  restarted-IsCounted m {s} h b r =
      run-IsCounted floats env.config.backend_max_jobs m h b s.effects s.jobs
        (restarted-IsLogged env m h r)
