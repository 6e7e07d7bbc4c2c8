-- ===== src/Service/Log.antt =====
-- The jobs that an observer of the scheduler knows from what it is told (service/service.go), and the
-- order in which it is told.
use minijob.Prelude.{
  ℕ, ◌<◌, Bool, true, false, ◌≡◌, ap, arith, Option, none, some, List, [], ◌∷◌, ◌++◌, Map, lookup,
  insert, delete, length, nat_Eq,
}
use minijob.Job.{
  Job, JobState, JobHistoryEvent, EventType, get_state_from_event, get_history_states,
}
use minijob.Job.History.{IsConsistent}
use minijob.Service.State.{
  ServiceEvent, job_created, job_delayed, job_pending, job_enqueued, job_started, job_succeeded,
  job_canceled, job_failed, job_hidden, job_deleted, job_terminated, job_loaded, job_deleted_all,
  empty_poll_received, Effect, job_event, service_event, job_updated, restore_flag,
}

-- A notification with the new value of a job that exists.
abbrev pub is_update : ServiceEvent → Bool
is_update job_delayed = true
is_update job_pending = true
is_update job_enqueued = true
is_update job_started = true
is_update job_succeeded = true
is_update job_canceled = true
is_update job_failed = true
is_update job_hidden = true
is_update job_terminated = true
is_update _ = false

abbrev pub follow_event : ServiceEvent → Job → Map ℕ Job → Map ℕ Job
follow_event job_deleted j m = delete j.id m
follow_event job_loaded j m = m
follow_event job_deleted_all j m = m
follow_event empty_poll_received j m = m
follow_event _ j m = insert j.id j m

-- What one message says about the jobs.
abbrev pub follow : Effect → Map ℕ Job → Map ℕ Job
follow (job_event ev j) m = follow_event ev j m
follow (service_event job_deleted_all) m = []
follow (job_updated j) m = insert j.id j m
follow _ m = m

-- The jobs after all messages, from those of the start.
abbrev pub followed : Map ℕ Job → List Effect → Map ℕ Job
followed m [] = m
followed m (e ∷ es) = follow e (followed m es)

-- The backend is told to ignore the notifications.
abbrev pub restoring : List Effect → Bool
restoring [] = false
restoring (restore_flag b ∷ es) = b
restoring (_ ∷ es) = restoring es

-- What one message makes of the flag.
abbrev pub flag_after : Effect → Bool → Bool
flag_after (restore_flag b) flag = b
flag_after _ flag = flag

pub flag_after-restoring :
    (e : Effect) (es : List Effect) → flag_after e (restoring es) ≡ restoring (e ∷ es)
flag_after-restoring e es = ground arith

abbrev pub is_known : Option Job → Bool
is_known none = false
is_known (some j) = true

abbrev pub Known : Job → Map ℕ Job → Type 0
Known j m = is_known (lookup j.id m) ≡ true

-- The next value of a known job: it names the state that the job had, and its history goes on.
abbrev pub Follows : Job → Map ℕ Job → Type 0
Follows j m =
    (old : Job) × (lookup j.id m ≡ some old)
    × (j.previous_state ≡ old.state)
    × (j.topic ≡ old.topic)
    × (e : JobHistoryEvent) × (j.history ≡ old.history ++ e ∷ [])

pub Follows-Known : (j : Job) (m : Map ℕ Job) → Follows j m → Known j m
Follows-Known j m (old, here, _, _, _, _) = ap is_known here

-- A job that is created: it is new, and so is its history.
abbrev pub IsNew : Job → Map ℕ Job → Type 0
IsNew j m =
    (lookup j.id m ≡ none)
    × (j.previous_state ≡ JobState.no_state)
    × (j.state ≡ JobState.created)
    × (get_history_states j.history ≡ JobState.created ∷ [])

-- The event that each notification of a change tells of, and the state behind it.
abbrev pub event_of : ServiceEvent → EventType
event_of job_delayed = EventType.delay
event_of job_pending = EventType.pending
event_of job_enqueued = EventType.enqueue
event_of job_started = EventType.start
event_of job_succeeded = EventType.success
event_of job_canceled = EventType.cancel
event_of job_failed = EventType.fail
event_of job_hidden = EventType.hide
event_of job_terminated = EventType.terminate
event_of _ = EventType.create

abbrev pub event_state : ServiceEvent → JobState
event_state job_delayed = JobState.delayed
event_state job_pending = JobState.pending
event_state job_enqueued = JobState.queued
event_state job_started = JobState.running
event_state job_succeeded = JobState.succeeded
event_state job_canceled = JobState.canceled
event_state job_failed = JobState.running
event_state job_hidden = JobState.hidden
event_state job_terminated = JobState.failed
event_state _ = JobState.created

pub event_of-event_state :
    (ev : ServiceEvent) → is_update ev ≡ true → get_state_from_event (event_of ev) ≡ event_state ev
unfolding get_state_from_event
event_of-event_state ev u = ground arith

-- What holds when a message is sent: a job is created while there is room (0 stands for no limit),
-- an update is about a known job, in the state of its history and behind the state it had, and the
-- jobs are restored before anything changes.
abbrev pub AllowedEvent : ℕ → ServiceEvent → Job → Bool → Map ℕ Job → Type 0
AllowedEvent max job_created j flag m =
    (flag ≡ false) × IsConsistent j × (0 < max → length m < max) × IsNew j m
AllowedEvent max job_deleted j flag m = (flag ≡ false) × Follows j m
AllowedEvent max job_loaded j flag m = (flag ≡ true) × (lookup j.id m ≡ some j)
AllowedEvent max job_deleted_all j flag m = ⊥
AllowedEvent max empty_poll_received j flag m = ⊥
AllowedEvent max ev j flag m =
    (flag ≡ false) × IsConsistent j × Follows j m × (j.state ≡ event_state ev)

-- A change outside the history of a known job.
abbrev pub Revised : Job → Map ℕ Job → Type 0
Revised j m =
    (old : Job) × (lookup j.id m ≡ some old)
    × (old.state ≡ j.state)
    × (old.history ≡ j.history)
    × (old.topic ≡ j.topic)

abbrev pub Allowed : ℕ → Map ℕ Job → Effect → Bool → Map ℕ Job → Type 0
Allowed max start (job_event ev j) flag m = AllowedEvent max ev j flag m
Allowed max start (service_event ev) flag m = flag ≡ false
Allowed max start (job_updated j) flag m = (flag ≡ false) × IsConsistent j × Revised j m
Allowed max start (restore_flag true) flag m = m ≡ start
Allowed max start _ flag m = Unit {0}

abbrev pub IsLog : ℕ → Map ℕ Job → List Effect → Type 0
IsLog max m [] = Unit {0}
IsLog max m (e ∷ es) = Allowed max m e (restoring es) (followed m es) × IsLog max m es

-- What an update says.
pub update-AllowedEvent :
    (max : ℕ) (ev : ServiceEvent) (j : Job) (flag : Bool) (m : Map ℕ Job)
    → is_update ev ≡ true
    → AllowedEvent max ev j flag m
    → (flag ≡ false) × IsConsistent j × Follows j m × (j.state ≡ event_state ev)
update-AllowedEvent max job_created j flag m u a = cc
update-AllowedEvent max job_deleted j flag m u a = cc
update-AllowedEvent max job_loaded j flag m u a = cc
update-AllowedEvent max job_deleted_all j flag m u a = cc
update-AllowedEvent max empty_poll_received j flag m u a = cc
update-AllowedEvent max ev j flag m u a = a
