-- ===== src/Lifecycle/Once.antt =====
-- The loop runs at most once, and a stop waits for it (lifecycle/lifecycle.go).
use minijob.Prelude.{
  ℕ, zero, suc, ◌+◌, Bool, true, false, ◌≡◌, ◌≢◌, refl, none, some, List, [], ◌∷◌, one_if, arith,
}
use minijob.Prelude.Arrays.{get_elem?}
use minijob.Lifecycle.{Lifecycle, new_lifecycle, begin, end, ask_stop, may_return}

-- The goroutines: the loops that got true from Begin, by whether they have called End; and the
-- Stops, by the value of `started` that each has read under the mutex, the latest first.
pub data Steps : Lifecycle → ℕ → ℕ → List Bool → Type 0 where
  fresh : Steps new_lifecycle 0 0 []
  begins :
      {l : Lifecycle} {running ended : ℕ} {asked : List Bool}
      → Steps l running ended asked
      → Steps (begin l).1 (one_if (begin l).0 + running) ended asked
  ends :
      {l next : Lifecycle} {running ended : ℕ} {asked : List Bool}
      → Steps l (suc running) ended asked
      → end l ≡ some next
      → Steps next running (suc ended) asked
  stops :
      {l : Lifecycle} {running ended : ℕ} {asked : List Bool}
      → Steps l running ended asked
      → Steps (ask_stop l).1 running ended ((ask_stop l).0 ∷ asked)

-- Whatever the order of the calls: the loops that run and those that have returned are one in all
-- if Begin was ever successful, and none otherwise; and done is closed when a loop has returned.
pub Steps-once :
    {l : Lifecycle} {running ended : ℕ} {asked : List Bool}
    → Steps l running ended asked
    → (running + ended ≡ one_if l.started) × (ended ≡ one_if l.done)
unfolding begin end ask_stop
Steps-once fresh = (refl, refl)
Steps-once (begins {l} {running} {ended} s) = ground (arith, Steps-once s)
Steps-once (stops s) = Steps-once s
Steps-once (ends {l} {next} {running} {ended} s e) = ground (arith, Steps-once s, e)

-- The loop that runs can end: the channel is not closed twice.
pub end_lem :
    {l : Lifecycle} {running ended : ℕ} {asked : List Bool}
    → Steps l (suc running) ended asked
    → end l ≢ none
unfolding end
end_lem {l} {running} {ended} s e = ground (arith, Steps-once s, e)

-- What a Stop has read stays so: no loop begins after it.
asked_lem :
    {l : Lifecycle} {running ended : ℕ} {asked : List Bool}
    → Steps l running ended asked
    → (i : ℕ) (b : Bool) → get_elem? asked i ≡ some b
    → (b ≡ l.started) × (l.stopped ≡ true)
unfolding begin end ask_stop
asked_lem fresh i b e = cc
asked_lem (begins {l} s) i b e = ground (arith, asked_lem s i b e)
asked_lem (ends {l} {next} s q) i b e = ground (arith, asked_lem s i b e, q)
asked_lem (stops {l} s) zero b e = ground (arith, e)
asked_lem (stops {l} s) (suc i) b e = ((asked_lem s i b e).0, refl)

-- When a Stop returns, its wait for the value of `started` that it has read being over, no loop runs,
-- Begin refuses, and it reports whether a loop was ever begun.
pub stop_lem :
    {l : Lifecycle} {running ended : ℕ} {asked : List Bool}
    → Steps l running ended asked
    → (i : ℕ) (b : Bool) → get_elem? asked i ≡ some b
    → may_return b l ≡ true
    → (running ≡ 0) × ((begin l).0 ≡ false) × (b ≡ l.started)
unfolding may_return begin
stop_lem {l} s i b e over = ground (arith, Steps-once s, asked_lem s i b e, over)
