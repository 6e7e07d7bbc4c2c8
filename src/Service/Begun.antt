-- ===== src/Service/Begun.antt =====
-- Every history begins with the creation of the job (service/service.go, job/job.go).
use minijob.Prelude.{
  ℕ, Bool, true, false, ◌≡◌, refl, ap, sym, ◌∙◌, inl, inr, Bool-cases, some, List, [], ◌∷◌, ◌++◌,
  Map, lookup, lookup-insert, lookup-delete, insert, delete, nat_eq, nat_Eq, arith,
}
use mathlib.Core.Path.{subst}
use minijob.Job.{
  Job, JobState, JobHistoryEvent, get_history_states, get_state_from_event, last_state,
}
use minijob.Job.History.{last_state-IsConsistent}
use minijob.Service.State.{
  Service, Env, ServiceEvent, job_created, job_deleted, job_loaded, job_deleted_all,
  empty_poll_received, Effect, job_event, service_event, job_updated,
}
use minijob.Service.Log.{
  follow_event, follow, followed, restoring, event_state, is_update, AllowedEvent,
  update-AllowedEvent, Allowed, IsLog,
}
use minijob.Service.Reach.{Reach, ReachLoaded}
use minijob.Service.Restored.{IsLoadable}
use minijob.Service.Messages.{reachable-IsLogged, restarted-IsLogged}

-- A job is created once, first, and is never in the state `deleted`.
abbrev pub is_later : JobState → Bool
is_later JobState.created = false
is_later JobState.deleted = false
is_later _ = true

abbrev pub AreLater : List JobState → Type 0
AreLater [] = Unit {0}
AreLater (n ∷ ns) = (is_later n ≡ true) × AreLater ns

abbrev pub Begins : List JobState → Type 0
Begins [] = ⊥
Begins (n ∷ ns) = (n ≡ JobState.created) × AreLater ns

-- The history of the job begins with its creation.
abbrev pub IsBegun : Job → Type 0
IsBegun j = Begins (get_history_states j.history)

-- Every stored job begins with its creation.
abbrev pub AreBegun : Map ℕ Job → Type 0
AreBegun m = (k : ℕ) (j : Job) → lookup k m ≡ some j → IsBegun j

later-append :
    (ns : List JobState) (n : JobState) → AreLater ns → is_later n ≡ true → AreLater (ns ++ n ∷ [])
later-append [] n h l = (l, tt)
later-append (k ∷ ns) n (here, h) l = (here, later-append ns n h l)

Begins-append :
    (ns : List JobState) (n : JobState) → Begins ns → is_later n ≡ true → Begins (ns ++ n ∷ [])
Begins-append [] n h l = elim h [ ]
Begins-append (k ∷ ns) n (here, h) l = (here, later-append ns n h l)

states-append :
    (h : List JobHistoryEvent) (e : JobHistoryEvent)
    → get_history_states (h ++ e ∷ [])
      ≡ get_history_states h ++ get_state_from_event e.event_type ∷ []
unfolding get_history_states
states-append [] e = refl
states-append (d ∷ h) e = ap (get_state_from_event d.event_type ∷◌) (states-append h e)

last-append : (ns : List JobState) (n : JobState) → last_state (ns ++ n ∷ []) ≡ n
unfolding last_state
last-append [] n = refl
last-append (k ∷ []) n = refl
last-append (k ∷ l ∷ ns) n = last-append (l ∷ ns) n

update-is_later : (ev : ServiceEvent) → is_update ev ≡ true → is_later (event_state ev) ≡ true
update-is_later ev u = ground arith

insert-AreBegun : (j : Job) (m : Map ℕ Job) → IsBegun j → AreBegun m → AreBegun (insert j.id j m)
insert-AreBegun j m b h k o e = elim (Bool-cases (nat_eq j.id k)) [
  | inl q ↦
      let same : j ≡ o = ground (arith, e, q, lookup-insert j.id k j m) in subst IsBegun same b
  | inr q ↦ h k o (ground (arith, e, q, lookup-insert j.id k j m))
]

delete-AreBegun : (i : ℕ) (m : Map ℕ Job) → AreBegun m → AreBegun (delete i m)
delete-AreBegun i m h k o e = h k o (ground (arith, lookup-delete i k m, e))

module _ (max : ℕ) (start : Map ℕ Job) (flag : Bool) (m : Map ℕ Job) (h : AreBegun m) where
  -- One event more, which tells of a later state.
  update-IsBegun :
      (ev : ServiceEvent) (j : Job) → is_update ev ≡ true → AllowedEvent max ev j flag m → IsBegun j
  update-IsBegun ev j u a =
      let (f, c, (old, here, p, q, e, x), st) = update-AllowedEvent max ev j flag m u a in
      let states = ap get_history_states x ∙ states-append old.history e in
      let last =
        sym (last-append (get_history_states old.history) (get_state_from_event e.event_type))
        ∙ ap last_state (sym states)
        ∙ last_state-IsConsistent j c
        ∙ st in
      subst Begins (sym states) (
        Begins-append (get_history_states old.history) (get_state_from_event e.event_type)
          (h j.id old here) (ap is_later last ∙ update-is_later ev u))

  event-AreBegun :
      (ev : ServiceEvent) (j : Job) → AllowedEvent max ev j flag m → AreBegun (follow_event ev j m)
  event-AreBegun job_created j (_, _, _, (_, _, _, states)) =
      insert-AreBegun j m (subst Begins (sym states) (refl, tt)) h
  event-AreBegun job_deleted j a = delete-AreBegun j.id m h
  event-AreBegun job_loaded j a = h
  event-AreBegun job_deleted_all j a = h
  event-AreBegun empty_poll_received j a = h
  event-AreBegun ev j a = insert-AreBegun j m (update-IsBegun ev j refl a) h

  effect-AreBegun : (e : Effect) → Allowed max start e flag m → AreBegun (follow e m)
  unfolding lookup
  effect-AreBegun (job_event ev j) a = event-AreBegun ev j a
  effect-AreBegun (service_event job_deleted_all) a = λ k o e. cc
  effect-AreBegun (job_updated j) (_, _, (old, here, _, same, _)) =
      insert-AreBegun j m (subst Begins (ap get_history_states same) (h j.id old here)) h
  effect-AreBegun e a = h

logged-AreBegun :
    (max : ℕ) (start : Map ℕ Job) (es : List Effect)
    → AreBegun start
    → IsLog max start es
    → AreBegun (followed start es)
logged-AreBegun max start [] b l = b
logged-AreBegun max start (e ∷ es) b (a, l) =
    effect-AreBegun max start (restoring es) (followed start es) (logged-AreBegun max start es b l)
      e a

-- After any sequence of calls, every history begins with the creation of its job, and has no other one.
pub reachable-AreBegun : (env : Env) {s : Service} → Reach env s → AreBegun s.jobs
unfolding lookup
reachable-AreBegun env {s} r =
    let l = reachable-IsLogged env r in
    subst AreBegun l.told
      (logged-AreBegun env.config.backend_max_jobs [] s.effects (λ k j e. cc) l.log)

-- The same holds after a start on such jobs and any sequence of calls.
pub restarted-AreBegun :
    (env : Env) (m : Map ℕ Job) {s : Service}
    → IsLoadable m
    → AreBegun m
    → ReachLoaded env m s
    → AreBegun s.jobs
restarted-AreBegun env m {s} h b r =
    let l = restarted-IsLogged env m h r in
    subst AreBegun l.told (logged-AreBegun env.config.backend_max_jobs m s.effects b l.log)
