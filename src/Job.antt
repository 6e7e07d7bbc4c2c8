-- ===== src/Job.antt =====
-- job/job.go: a job, its history and the state that the history determines.
-- A method that changes `*Job` returns the new record. A JobUUID is the number with its 16 bytes,
-- so that bytes.Compare is the order of the numbers. An int64 is a ℤ, a uint an ℕ below 2^64.
pub mod Properties
pub mod Json
pub mod Rereads
pub mod History
use Properties.{Value, deep_copy_value, deep_copy_value_lem}
use minijob.Prelude.{
  ℕ, zero, suc, ◌+◌, ◌*◌, ◌/◌, ◌%◌, String, Bool, true, false, not, ◌&&◌, ◌||◌, Option, none, some,
  List, [], ◌∷◌, ◌++◌, length, get_last?, nat_eq, if◌then◌else◌,
}
use minijob.Prelude.Int64.{ℤ, pos, negsuc, ltb_ℤ, eq_ℤ, add64, sub64, wrap64}

pub data EventType : Type 0 where
  create delay pending enqueue start success cancel fail retry hide terminate remove : EventType
  -- any other text that a stored history holds
  other : String → EventType

pub data JobState : Type 0 where
  no_state created delayed pending queued running succeeded failed canceled deleted hidden :
      JobState

pub record JobHistoryEvent : Type 0 where
  pub event_type : EventType
  pub timestamp : ℤ

pub record Job : Type 0 where
  pub id : ℕ
  pub topic : String
  pub priority : ℤ
  pub properties : Value
  pub history : List JobHistoryEvent
  pub lock_resources : List String
  pub user_agent : String
  pub requester : String
  pub name : String
  pub session_id : String
  pub trace_id : String
  pub visibility_timeout : ℕ
  pub start_after : ℤ
  pub callback_url : String
  pub state : JobState
  pub previous_state : JobState

pub record JobRequest : Type 0 where
  pub topic : String
  pub priority : ℤ
  pub properties : Value
  pub lock_resources : List String
  pub user_agent : String
  pub requester : String
  pub name : String
  pub session_id : String
  pub trace_id : String
  pub start_after : ℤ
  pub delay : ℤ
  pub callback_url : String

-- GetCreationTimestamp; `none` is its panic
unfoldable pub get_creation_timestamp : Job → Option ℤ
get_creation_timestamp j = elim j.history [ [] ↦ none | e ∷ _ ↦ some e.timestamp ]

-- GetLastUpdateDate
unfoldable pub get_last_update_date : Job → ℤ
get_last_update_date j = elim (get_last? j.history) [ none ↦ pos 0 | some e ↦ e.timestamp ]

unfoldable pub state_string : JobState → String
state_string JobState.created = "created"
state_string JobState.delayed = "delayed"
state_string JobState.pending = "pending"
state_string JobState.queued = "queued"
state_string JobState.running = "running"
state_string JobState.succeeded = "succeeded"
state_string JobState.failed = "failed"
state_string JobState.canceled = "canceled"
state_string JobState.deleted = "deleted"
state_string JobState.hidden = "hidden"
state_string _ = "unknown"

-- GetStateString
unfoldable pub get_state_string : Job → String
unfolding state_string
get_state_string j = state_string j.state

-- GetStateFromEvent
unfoldable pub get_state_from_event : EventType → JobState
get_state_from_event EventType.create = JobState.created
get_state_from_event EventType.delay = JobState.delayed
get_state_from_event EventType.pending = JobState.pending
get_state_from_event EventType.enqueue = JobState.queued
get_state_from_event EventType.start = JobState.running
get_state_from_event EventType.fail = JobState.running
get_state_from_event EventType.retry = JobState.running
get_state_from_event EventType.success = JobState.succeeded
get_state_from_event EventType.hide = JobState.hidden
get_state_from_event EventType.cancel = JobState.canceled
get_state_from_event EventType.terminate = JobState.failed
get_state_from_event _ = JobState.no_state

-- GetHistoryStates
unfoldable pub get_history_states : List JobHistoryEvent → List JobState
unfolding get_state_from_event
get_history_states [] = []
get_history_states (e ∷ es) = get_state_from_event e.event_type ∷ get_history_states es

-- The last state of a list, and the one before it.
unfoldable pub last_state : List JobState → JobState
last_state [] = JobState.no_state
last_state (s ∷ []) = s
last_state (s ∷ t ∷ ts) = last_state (t ∷ ts)

unfoldable pub last_but_one : List JobState → JobState
last_but_one [] = JobState.no_state
last_but_one (s ∷ []) = JobState.no_state
last_but_one (s ∷ t ∷ []) = s
last_but_one (s ∷ t ∷ u ∷ us) = last_but_one (t ∷ u ∷ us)

-- SetStateFromHistory
unfoldable pub set_state_from_history : Job → Job
unfolding get_history_states last_state last_but_one
set_state_from_history j = record j {
  state = last_state (get_history_states j.history);
  previous_state = last_but_one (get_history_states j.history);
}

-- `==` on the states
abbrev pub state_number : JobState → ℕ
state_number JobState.no_state = 0
state_number JobState.created = 1
state_number JobState.delayed = 2
state_number JobState.pending = 3
state_number JobState.queued = 4
state_number JobState.running = 5
state_number JobState.succeeded = 6
state_number JobState.failed = 7
state_number JobState.canceled = 8
state_number JobState.deleted = 9
state_number JobState.hidden = 10

abbrev pub same_state : JobState → JobState → Bool
same_state a b = nat_eq (state_number a) (state_number b)

-- IsCompleted
unfoldable pub is_completed : JobState → Bool
is_completed JobState.succeeded = true
is_completed JobState.canceled = true
is_completed JobState.failed = true
is_completed _ = false

abbrev is_fail : EventType → Bool
is_fail EventType.fail = true
is_fail _ = false

-- GetCountFaillures: the loop over the history
unfoldable pub count_failures : List JobHistoryEvent → ℕ
count_failures [] = 0
count_failures (e ∷ es) =
    if is_fail e.event_type then suc (count_failures es) else count_failures es

unfoldable pub get_count_failures : Job → ℕ
unfolding count_failures
get_count_failures j = count_failures j.history

-- Clone
unfoldable pub clone : Job → Job
clone j = record j { id = 0; history = []; properties = deep_copy_value j.properties }

-- AddHistoryEvent
unfoldable pub add_history_event : EventType → ℤ → Job → Job
unfolding get_state_from_event
add_history_event ev now j = record j {
  history = j.history ++ (record { event_type = ev; timestamp = now } ∷ []);
  previous_state = j.state;
  state = get_state_from_event ev;
}

-- Init
unfoldable pub init : ℕ → ℤ → Job → Job
unfolding add_history_event
init id now j = add_history_event EventType.create now (record j {
  id = id;
  state = JobState.no_state;
  previous_state = JobState.no_state;
  history = [];
})

-- GetCountLockResources
unfoldable pub get_count_lock_resources : Job → ℕ
get_count_lock_resources j = elim j.state [
  | JobState.queued ↦ length j.lock_resources
  | JobState.running ↦ length j.lock_resources
  | _ ↦ 0
]

abbrev is_enqueue_or_start : EventType → Bool
is_enqueue_or_start EventType.enqueue = true
is_enqueue_or_start EventType.start = true
is_enqueue_or_start _ = false

-- Division by 1000 of an int64, towards zero.
abbrev seconds : ℤ → ℤ
seconds (pos n) = pos (n / 1000)
seconds (negsuc n) = elim (suc n / 1000) [ zero ↦ pos 0 | suc k ↦ negsuc k ]

-- The backwards loop of GetQueuedOrRunningTimestamp: the last event of the two kinds, if any.
unfoldable pub last_queued_or_started : List JobHistoryEvent → Option ℤ
last_queued_or_started [] = none
last_queued_or_started (e ∷ es) = elim (last_queued_or_started es) [
  | some t ↦ some t
  | none ↦ if is_enqueue_or_start e.event_type then some e.timestamp else none
]

unfoldable pub get_queued_or_running_timestamp : Job → ℤ
unfolding last_queued_or_started
get_queued_or_running_timestamp j =
    let found : ℤ = elim (last_queued_or_started j.history) [ none ↦ pos 0 | some t ↦ seconds t ] in
    elim j.state [ JobState.queued ↦ found | JobState.running ↦ found | _ ↦ pos 0 ]

-- GetDurationMsSinceLastAndFirstEvent
unfoldable pub get_duration_ms_since_last_and_first_event : Job → ℤ
unfolding get_last_update_date
get_duration_ms_since_last_and_first_event j = elim j.history [
  | [] ↦ pos 0
  | e ∷ [] ↦ pos 0
  | e ∷ f ∷ fs ↦ sub64 (get_last_update_date j) e.timestamp
]

-- req.Delay * 1000
abbrev pub delay_ms : ℤ → ℤ
delay_ms (pos n) = wrap64 (pos (n * 1000))
delay_ms (negsuc n) = wrap64 (negsuc (n * 1000 + 999))

-- The start time in NewJobFromRequest, at the time `now`.
unfoldable pub compute_start_after : ℤ → JobRequest → ℤ
compute_start_after now req =
    if ltb_ℤ (pos 0) req.delay
    then add64 (if eq_ℤ req.start_after (pos 0) then now else req.start_after) (delay_ms req.delay)
    else req.start_after

-- NewJobFromRequest, behind the decoding of the payload
unfoldable pub new_job_from_request : ℤ → JobRequest → Job
unfolding compute_start_after
new_job_from_request now req = record {
  id = 0;
  topic = req.topic;
  priority = req.priority;
  properties = req.properties;
  history = [];
  lock_resources = req.lock_resources;
  user_agent = req.user_agent;
  requester = req.requester;
  name = req.name;
  session_id = req.session_id;
  trace_id = req.trace_id;
  visibility_timeout = 0;
  start_after = compute_start_after now req;
  callback_url = req.callback_url;
  state = JobState.no_state;
  previous_state = JobState.no_state;
}

pub record JobResponse : Type 0 where
  pub id : ℕ
  pub topic : String
  pub priority : ℤ
  pub properties : Value
  pub history : List JobHistoryEvent
  pub lock_resources : List String
  pub user_agent : String
  pub requester : String
  pub name : String
  pub session_id : String
  pub trace_id : String
  pub visibility_timeout : ℕ
  pub start_after : ℤ
  pub callback_url : String
  pub state : String

-- ToResponse
unfoldable pub to_response : Job → JobResponse
unfolding get_state_string
to_response j = record {
  id = j.id;
  topic = j.topic;
  priority = j.priority;
  properties = j.properties;
  history = j.history;
  lock_resources = j.lock_resources;
  user_agent = j.user_agent;
  requester = j.requester;
  name = j.name;
  session_id = j.session_id;
  trace_id = j.trace_id;
  visibility_timeout = j.visibility_timeout;
  start_after = j.start_after;
  callback_url = j.callback_url;
  state = get_state_string j;
}
