-- ===== src/Service/Shown.antt =====
-- The jobs that an observer of the scheduler knows who begins with none: it is told of the loaded jobs,
-- one by one (service/service.go).
use minijob.Prelude.{
  ℕ, Bool, true, false, ◌≡◌, refl, ap, ◌∙◌, sym, inl, inr, Bool-cases, none, List, [], ◌∷◌, Map,
  lookup, lookup-insert, lookup-delete, insert, nat_Eq, arith,
}
use minijob.Job.{Job}
use minijob.Service.State.{
  ServiceEvent, job_loaded, job_deleted_all, empty_poll_received, Effect, job_event, service_event,
  job_updated, restore_flag,
}
use minijob.Service.Log.{
  follow_event, follow, followed, restoring, flag_after, flag_after-restoring, AllowedEvent,
  Allowed, IsLog,
}

abbrev pub show : Effect → Map ℕ Job → Map ℕ Job
show (job_event job_loaded j) m = insert j.id j m
show e m = follow e m

abbrev pub shown : List Effect → Map ℕ Job
shown [] = []
shown (e ∷ es) = show e (shown es)

-- The loaded jobs are told first, each once; when the flag of the backend is reset all have been told.
abbrev pub InOrder : Map ℕ Job → Effect → List Effect → Type 0
InOrder start (restore_flag true) es = es ≡ []
InOrder start (restore_flag false) es = (k : ℕ) → lookup k (shown es) ≡ lookup k start
InOrder start (job_event job_loaded j) es = lookup j.id (shown es) ≡ none
InOrder start e es = es ≡ [] → start ≡ []

abbrev pub AreInOrder : Map ℕ Job → List Effect → Type 0
AreInOrder start [] = Unit {0}
AreInOrder start (e ∷ es) = InOrder start e es × AreInOrder start es

-- A message that can come at any time.
abbrev pub is_plain : Effect → Bool
is_plain (restore_flag b) = false
is_plain (job_event job_loaded j) = false
is_plain e = true

-- The messages up to now: where the jobs of the start are some, they were told first.
abbrev pub IsOrdered : Map ℕ Job → List Effect → Type 0
IsOrdered start es = AreInOrder start es × (es ≡ [] → start ≡ [])

plain-InOrder :
    (start : Map ℕ Job) (e : Effect) (es : List Effect)
    → is_plain e ≡ true
    → (es ≡ [] → start ≡ [])
    → InOrder start e es
plain-InOrder start (job_event job_loaded j) es p h = cc
plain-InOrder start (job_event ev j) es p h = h
plain-InOrder start (restore_flag b) es p h = cc
plain-InOrder start e es p h = h

pub InOrder-plain :
    (start : Map ℕ Job) (e : Effect) (es : List Effect)
    → is_plain e ≡ true
    → InOrder start e es
    → es ≡ []
    → start ≡ []
InOrder-plain start (job_event job_loaded j) es p h = cc
InOrder-plain start (job_event ev j) es p h = h
InOrder-plain start (restore_flag b) es p h = cc
InOrder-plain start e es p h = h

pub plain-IsOrdered :
    {start : Map ℕ Job} {es : List Effect} (e : Effect)
    → is_plain e ≡ true
    → IsOrdered start es
    → IsOrdered start (e ∷ es)
plain-IsOrdered {start} {es} e p (h, b) = ((plain-InOrder start e es p b, h), λ q. cc)

-- Two maps with the same entries.
abbrev pub Agrees : Map ℕ Job → Map ℕ Job → Type 0
Agrees m n = (k : ℕ) → lookup k m ≡ lookup k n

follow-Agrees : (e : Effect) (m n : Map ℕ Job) → Agrees m n → Agrees (follow e m) (follow e n)
follow-Agrees (job_event ev j) m n h k = ground (
  arith,
  h k,
  lookup-insert j.id k j m,
  lookup-insert j.id k j n,
  lookup-delete j.id k m,
  lookup-delete j.id k n,
)
follow-Agrees (job_updated j) m n h k =
    ground (arith, h k, lookup-insert j.id k j m, lookup-insert j.id k j n)
follow-Agrees (service_event ev) m n h k = ground (arith, h k)
follow-Agrees e m n h k = h k

module _ (max : ℕ) (start : Map ℕ Job) where
  event-restoring :
      (ev : ServiceEvent) (j : Job) (flag : Bool) (m : Map ℕ Job)
      → (flag ≡ true → m ≡ start)
      → AllowedEvent max ev j flag m
      → flag ≡ true
      → follow_event ev j m ≡ start
  event-restoring job_loaded j flag m z a f = z f
  event-restoring job_deleted_all j flag m z a f = z f
  event-restoring empty_poll_received j flag m z a f = z f
  event-restoring ev j flag m z a f = absurd (ground (arith, a.0, f))

  -- Nothing changes while the backend is told to ignore the notifications.
  effect-restoring :
      (e : Effect) (flag : Bool) (m : Map ℕ Job)
      → (flag ≡ true → m ≡ start)
      → Allowed max start e flag m
      → flag_after e flag ≡ true
      → follow e m ≡ start
  effect-restoring (job_event ev j) flag m z a f = event-restoring ev j flag m z a f
  effect-restoring (service_event job_deleted_all) flag m z a f = absurd (ground (arith, a, f))
  effect-restoring (job_updated j) flag m z a f = absurd (ground (arith, a.0, f))
  effect-restoring (restore_flag true) flag m z a f = a
  effect-restoring (restore_flag false) flag m z a f = cc
  effect-restoring _ flag m z a f = z f

  pub log-restoring :
      (es : List Effect) → IsLog max start es → restoring es ≡ true → followed start es ≡ start
  log-restoring [] l f = refl
  log-restoring (e ∷ es) (a, l) f =
      effect-restoring e (restoring es) (followed start es) (log-restoring es l) a
        (flag_after-restoring e es ∙ f)

  -- Outside the restore the observer knows the same jobs as one who began with those of the start.
  pub shown-Agrees :
      (es : List Effect)
      → IsLog max start es
      → AreInOrder start es
      → restoring es ≡ false
      → (es ≡ [] → start ≡ [])
      → Agrees (shown es) (followed start es)
  shown-Agrees [] l o f b k = rw (b refl) refl
  shown-Agrees (restore_flag true ∷ es) (a, l) (i, o) f b k = cc
  shown-Agrees (restore_flag false ∷ []) (a, l) (i, o) f b k = i k
  shown-Agrees (restore_flag false ∷ e ∷ es) (a, l) (i, o) f b k =
      elim (Bool-cases (restoring (e ∷ es))) [
        | inl r ↦ i k ∙ ap (lookup k) (sym (log-restoring (e ∷ es) l r))
        | inr r ↦ shown-Agrees (e ∷ es) l o r (λ q. cc) k
      ]
  shown-Agrees (job_event job_loaded j ∷ es) (a, l) (i, o) f b k = absurd (ground (arith, a.0, f))
  shown-Agrees (e ∷ es) (a, l) (i, o) f b k =
      follow-Agrees e (shown es) (followed start es) (shown-Agrees es l o f i) k
