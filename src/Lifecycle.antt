-- ===== src/Lifecycle.antt =====
-- A background loop that starts and stops once (lifecycle/lifecycle.go). Each part of a method that
-- runs under the mutex, or closes a channel, is one step.
pub mod Once
use minijob.Prelude.{ℕ, suc, ◌-◌, Bool, true, false, ◌||◌, not, Option, none, some, if◌then◌else◌}

-- A channel is given by whether it is closed.
pub record Lifecycle : Type 0 where
  pub started : Bool
  pub stopped : Bool
  pub stop : Bool
  pub done : Bool

-- New
abbrev pub new_lifecycle : Lifecycle
new_lifecycle = record { started = false; stopped = false; stop = false; done = false }

-- Begin
unfoldable pub begin : Lifecycle → Bool × Lifecycle
begin l = if l.started || l.stopped then (false, l) else (true, record l { started = true })

-- End; `none` is the panic of closing a closed channel.
unfoldable pub end : Lifecycle → Option Lifecycle
end l = if l.done then none else some (record l { done = true })

-- Stop up to its wait: whether the loop had started. The channel is closed once.
unfoldable pub ask_stop : Lifecycle → Bool × Lifecycle
ask_stop l = (l.started, record l { stopped = true; stop = true })

-- The wait of Stop is over.
unfoldable pub may_return : Bool → Lifecycle → Bool
may_return started l = not started || l.done
