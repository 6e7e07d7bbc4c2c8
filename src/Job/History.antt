-- ===== src/Job/History.antt =====
-- The state of a job is what its history determines (job/job.go).
use minijob.Prelude.{◌≡◌, refl, List, [], ◌∷◌, ◌++◌, arith, ap}
use minijob.Job.{
  Job, JobHistoryEvent, EventType, get_history_states, last_state, last_but_one,
  get_state_from_event, set_state_from_history, add_history_event, init,
}
use minijob.Prelude.Int64.{ℤ}

abbrev pub event : EventType → ℤ → JobHistoryEvent
event ev now = record { event_type = ev; timestamp = now }

pub last_state-append :
    (h : List JobHistoryEvent) (ev : EventType) (now : ℤ)
    → last_state (get_history_states (h ++ (event ev now ∷ []))) ≡ get_state_from_event ev
unfolding get_history_states last_state
last_state-append [] ev now = refl
last_state-append (e ∷ []) ev now = refl
last_state-append (e ∷ f ∷ fs) ev now = last_state-append (f ∷ fs) ev now

last_but_one-append :
    (h : List JobHistoryEvent) (ev : EventType) (now : ℤ)
    → last_but_one (get_history_states (h ++ (event ev now ∷ [])))
      ≡ last_state (get_history_states h)
unfolding get_history_states last_state last_but_one
last_but_one-append [] ev now = refl
last_but_one-append (e ∷ []) ev now = refl
last_but_one-append (e ∷ f ∷ []) ev now = refl
last_but_one-append (e ∷ f ∷ g ∷ gs) ev now = last_but_one-append (f ∷ g ∷ gs) ev now

-- The job carries the state of its last event, and that of the event before it.
abbrev pub IsConsistent : Job → Type 0
IsConsistent j = set_state_from_history j ≡ j

-- An event added to a job whose state is that of its last event gives a job that a reload from its
-- history leaves as it is: the state and the previous state are those of the last two events.
pub add_history_event-set_state_from_history :
    (ev : EventType) (now : ℤ) (j : Job)
    → last_state (get_history_states j.history) ≡ j.state
    → set_state_from_history (add_history_event ev now j) ≡ add_history_event ev now j
unfolding set_state_from_history add_history_event
add_history_event-set_state_from_history ev now j h =
    ground (arith, last_state-append j.history ev now, last_but_one-append j.history ev now)

-- A new job is consistent with its history.
pub init-IsConsistent : (id : _) (now : ℤ) (j : Job) → IsConsistent (init id now j)
unfolding init set_state_from_history
init-IsConsistent id now j = refl

pub last_state-IsConsistent :
    (j : Job) → IsConsistent j → last_state (get_history_states j.history) ≡ j.state
unfolding set_state_from_history
last_state-IsConsistent j h = ap (λ (k : Job). k.state) h
