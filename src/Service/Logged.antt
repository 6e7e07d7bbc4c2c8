-- ===== src/Service/Logged.antt =====
-- The steps that send messages keep the agreement between the messages and the jobs
-- (service/service.go).
use minijob.Prelude.{
  ℕ, ◌<◌, Bool, true, false, ◌≡◌, refl, ap, sym, ◌∙◌, Option, none, some, List, [], ◌∷◌, Map,
  lookup, insert, delete, lookup-insert, lookup-delete, length, nat_eq, nat_eq_iff, nat_Eq, inl,
  inr, Bool-cases, arith,
}
use mathlib.Core.Path.{subst}
use minijob.Prelude.Int64.{ℤ}
use minijob.Job.{Job, EventType, add_history_event, get_state_from_event}
use minijob.Job.History.{
  IsConsistent, event, add_history_event-set_state_from_history, last_state-IsConsistent,
}
use minijob.Service.State.{
  ServiceEvent, job_created, job_delayed, job_pending, job_enqueued, job_started, job_succeeded,
  job_canceled, job_failed, job_hidden, job_deleted, job_terminated, job_loaded, job_deleted_all,
  empty_poll_received, Effect, job_event, service_event, topic_event, locked_count, resource_metric,
  all_resources_metric, resource_unlocked, all_resources_unlocked, job_updated, wake_long_polls,
}
use minijob.Service.Log.{
  is_update, follow_event, follow, followed, restoring, Follows, IsNew, Revised, event_of,
  event_state, event_of-event_state, AllowedEvent, Allowed, IsLog,
}
use minijob.Service.Shown.{is_plain, IsOrdered, plain-IsOrdered}

-- The job stands under its id, and a reload leaves it as it is.
abbrev pub IsSound : ℕ → Option Job → Type 0
IsSound k none = Unit {0}
IsSound k (some j) = (j.id ≡ k) × IsConsistent j

-- The messages tell of exactly these jobs.
pub record IsLogged (max : ℕ) (start : Map ℕ Job) (es : List Effect) (jobs : Map ℕ Job)
    : Type 0 where
  pub told : followed start es ≡ jobs
  pub log : IsLog max start es
  pub ordered : IsOrdered start es
  pub open_flag : restoring es ≡ false
  pub sound : (k : ℕ) → IsSound k (lookup k jobs)

-- Messages that do not speak of jobs.
abbrev pub is_quiet : Effect → Bool
is_quiet (topic_event ev t) = true
is_quiet (locked_count t n) = true
is_quiet (resource_metric r t) = true
is_quiet all_resources_metric = true
is_quiet (resource_unlocked j r) = true
is_quiet all_resources_unlocked = true
is_quiet wake_long_polls = true
is_quiet _ = false

IsSound-insert :
    (jobs : Map ℕ Job) (j : Job)
    → ((k : ℕ) → IsSound k (lookup k jobs))
    → IsConsistent j
    → (k : ℕ) → IsSound k (lookup k (insert j.id j jobs))
IsSound-insert jobs j h c k = elim (Bool-cases (nat_eq j.id k)) [
  | inl e ↦ rw (lookup-insert j.id k j jobs, e) ((nat_eq_iff j.id k).0 e, c)
  | inr e ↦ rw (lookup-insert j.id k j jobs, e) (h k)
]

IsSound-delete :
    (jobs : Map ℕ Job) (i : ℕ)
    → ((k : ℕ) → IsSound k (lookup k jobs))
    → (k : ℕ) → IsSound k (lookup k (delete i jobs))
IsSound-delete jobs i h k = elim (Bool-cases (nat_eq i k)) [
  | inl e ↦ rw (lookup-delete i k jobs, e) tt
  | inr e ↦ rw (lookup-delete i k jobs, e) (h k)
]

quiet-follow : (e : Effect) (m : Map ℕ Job) → is_quiet e ≡ true → follow e m ≡ m
quiet-follow e m q = ground arith

quiet-Allowed :
    (max : ℕ) (start : Map ℕ Job) (e : Effect) (flag : Bool) (m : Map ℕ Job)
    → is_quiet e ≡ true
    → Allowed max start e flag m
quiet-Allowed max start e flag m q = ground arith

quiet-is_plain : (e : Effect) → is_quiet e ≡ true → is_plain e ≡ true
quiet-is_plain e q = ground arith

update-is_plain :
    (ev : ServiceEvent) (j : Job) → is_update ev ≡ true → is_plain (job_event ev j) ≡ true
update-is_plain ev j u = ground arith

quiet-restoring :
    (e : Effect) (es : List Effect) → is_quiet e ≡ true → restoring (e ∷ es) ≡ restoring es
quiet-restoring e es q = ground arith

update-follow :
    (ev : ServiceEvent) (j : Job) (m : Map ℕ Job)
    → is_update ev ≡ true
    → follow_event ev j m ≡ insert j.id j m
update-follow ev j m u = ground arith

update-Allowed :
    (max : ℕ) (ev : ServiceEvent) (j : Job) (flag : Bool) (m : Map ℕ Job)
    → is_update ev ≡ true
    → flag ≡ false
    → IsConsistent j
    → Follows j m
    → j.state ≡ event_state ev
    → AllowedEvent max ev j flag m
update-Allowed max job_delayed j flag m u f c k st = (f, c, k, st)
update-Allowed max job_pending j flag m u f c k st = (f, c, k, st)
update-Allowed max job_enqueued j flag m u f c k st = (f, c, k, st)
update-Allowed max job_started j flag m u f c k st = (f, c, k, st)
update-Allowed max job_succeeded j flag m u f c k st = (f, c, k, st)
update-Allowed max job_canceled j flag m u f c k st = (f, c, k, st)
update-Allowed max job_failed j flag m u f c k st = (f, c, k, st)
update-Allowed max job_hidden j flag m u f c k st = (f, c, k, st)
update-Allowed max job_terminated j flag m u f c k st = (f, c, k, st)
update-Allowed max job_created j flag m u f c k st = cc
update-Allowed max job_deleted j flag m u f c k st = cc
update-Allowed max job_loaded j flag m u f c k st = cc
update-Allowed max job_deleted_all j flag m u f c k st = cc
update-Allowed max empty_poll_received j flag m u f c k st = cc

module _ {max : ℕ} {start : Map ℕ Job} {es : List Effect} {jobs : Map ℕ Job} where
  pub quiet-IsLogged :
      (e : Effect)
      → is_quiet e ≡ true
      → IsLogged max start es jobs
      → IsLogged max start (e ∷ es) jobs
  quiet-IsLogged e q h = record {
    told = quiet-follow e (followed start es) q ∙ h.told;
    log = (quiet-Allowed max start e (restoring es) (followed start es) q, h.log);
    ordered = plain-IsOrdered e (quiet-is_plain e q) h.ordered;
    open_flag = quiet-restoring e es q ∙ h.open_flag;
    sound = h.sound;
  }

  pub update-IsLogged :
      (ev : ServiceEvent) (j : Job)
      → is_update ev ≡ true
      → IsLogged max start es jobs
      → IsConsistent j
      → Follows j jobs
      → j.state ≡ event_state ev
      → IsLogged max start (job_event ev j ∷ es) (insert j.id j jobs)
  update-IsLogged ev j u h c k st = record {
    told = update-follow ev j (followed start es) u ∙ ap (insert j.id j) h.told;
    log = (
      update-Allowed max ev j (restoring es) (followed start es) u h.open_flag c
          (subst (Follows j) (sym h.told) k) st,
      h.log,
    );
    ordered = plain-IsOrdered (job_event ev j) (update-is_plain ev j u) h.ordered;
    open_flag = h.open_flag;
    sound = IsSound-insert jobs j h.sound c;
  }

  pub created-IsLogged :
      (j : Job)
      → IsLogged max start es jobs
      → IsConsistent j
      → (0 < max → length jobs < max)
      → IsNew j jobs
      → IsLogged max start (job_event job_created j ∷ es) (insert j.id j jobs)
  created-IsLogged j h c room new = record {
    told = ap (insert j.id j) h.told;
    log = (
      (
        h.open_flag,
        c,
        subst (λ m. 0 < max → length m < max) (sym h.told) room,
        subst (IsNew j) (sym h.told) new,
      ),
      h.log,
    );
    ordered = plain-IsOrdered (job_event job_created j) refl h.ordered;
    open_flag = h.open_flag;
    sound = IsSound-insert jobs j h.sound c;
  }

  pub deleted-IsLogged :
      (j : Job)
      → IsLogged max start es jobs
      → Follows j jobs
      → IsLogged max start (job_event job_deleted j ∷ es) (delete j.id jobs)
  deleted-IsLogged j h k = record {
    told = ap (delete j.id) h.told;
    log = ((h.open_flag, subst (Follows j) (sym h.told) k), h.log);
    ordered = plain-IsOrdered (job_event job_deleted j) refl h.ordered;
    open_flag = h.open_flag;
    sound = IsSound-delete jobs j.id h.sound;
  }

  pub deleted_all-IsLogged :
      IsLogged max start es jobs → IsLogged max start (service_event job_deleted_all ∷ es) []
  unfolding lookup
  deleted_all-IsLogged h = record {
    told = refl;
    log = (h.open_flag, h.log);
    ordered = plain-IsOrdered (service_event job_deleted_all) refl h.ordered;
    open_flag = h.open_flag;
    sound = λ k. tt;
  }

  pub updated-IsLogged :
      (j : Job)
      → IsLogged max start es jobs
      → IsConsistent j
      → Revised j jobs
      → IsLogged max start (job_updated j ∷ es) (insert j.id j jobs)
  updated-IsLogged j h c k = record {
    told = ap (insert j.id j) h.told;
    log = ((h.open_flag, c, subst (Revised j) (sym h.told) k), h.log);
    ordered = plain-IsOrdered (job_updated j) refl h.ordered;
    open_flag = h.open_flag;
    sound = IsSound-insert jobs j h.sound c;
  }

  -- A job that is found, and the job behind one more event.
  pub found :
      (i : ℕ) (j : Job)
      → IsLogged max start es jobs
      → lookup i jobs ≡ some j
      → (j.id ≡ i) × (lookup j.id jobs ≡ some j) × IsConsistent j
  found i j h e =
      let (same, c) : IsSound i (some j) = subst (IsSound i) e (h.sound i) in
      (same, ap (λ k. lookup k jobs) same ∙ e, c)

  pub event-IsLogged :
      (sev : ServiceEvent) (ev : EventType) (t : ℤ) (j : Job)
      → is_update sev ≡ true
      → event_of sev ≡ ev
      → IsLogged max start es jobs
      → lookup j.id jobs ≡ some j
      → IsLogged max start
          (job_event sev (add_history_event ev t j) ∷ es)
          (insert j.id (add_history_event ev t j) jobs)
  unfolding add_history_event
  event-IsLogged sev ev t j u w h here =
      update-IsLogged sev (add_history_event ev t j) u h
        (add_history_event-set_state_from_history ev t j
          (last_state-IsConsistent j (found j.id j h here).2))
        (j, here, refl, refl, event ev t, refl)
        (ap get_state_from_event (sym w) ∙ event_of-event_state sev u)
