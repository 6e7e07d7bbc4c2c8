-- ===== src/Redis/Writer.antt =====
-- The writer of the Redis backend (jobbackendprovider/redisprovider/writer.go): its queue and its
-- loop, as steps that the other goroutines may come between.
use minijob.Prelude.{
  ℕ, suc, ◌+◌, ◌*◌, ◌%◌, min, Bool, true, false, not, ◌&&◌, ◌||◌, List, [], ◌∷◌, ◌++◌, length, take,
  drop, ltb, nat_eq, if◌then◌else◌,
}
use minijob.Redis.Ops.{WriteOp, coalesce}
use minijob.Redis.Client.{Client, execute}

abbrev pub max_batch : ℕ
max_batch = 1024

-- In milliseconds.
abbrev pub min_backoff : ℕ
min_backoff = 100

abbrev pub max_backoff : ℕ
max_backoff = 5000

-- Where the loop is: at its head; in execute, with the writes and the count that is stored after
-- them; in its select, after an error; or gone.
pub data Phase : Type 0 where
  at_head : Phase
  executing : List WriteOp → ℕ → Phase
  backing_off : Phase
  ended : Phase

-- The writer, the local variables of its loop, and the server.
pub record Writer (R : Type 0) : Type 0 where
  pub queue : List WriteOp
  pub pushed : ℕ
  pub done : ℕ
  pub running : Bool
  pub closed : Bool
  pub exited : Bool
  pub abandon : Bool
  pub ok : Bool
  pub retry : List WriteOp
  pub backoff : ℕ
  pub phase : Phase
  pub server : R

-- What the goroutines do.
pub data Action : Type 0 where
  do_start : Action
  do_push : WriteOp → Action
  do_close : Action
  do_close_abandon : Action
  do_take : Action
  -- with a bound for the calls of SCAN
  do_attempt : ℕ → Action
  do_after_backoff : Action
  do_on_abandon : Action

-- The write that a push adds to the queue, unless the writer is closed.
abbrev pub accepts : Action → Bool → List WriteOp
accepts (do_push op) false = op ∷ []
accepts _ closed = []

abbrev pub word : ℕ
word = 18446744073709551616

module _ {R : Type 0} where
  -- newWriter
  unfoldable pub new_writer : R → Writer R
  new_writer r = record {
    queue = [];
    pushed = 0;
    done = 0;
    running = false;
    closed = false;
    exited = false;
    abandon = false;
    ok = true;
    retry = [];
    backoff = min_backoff;
    phase = ended;
    server = r;
  }

  -- start; the loop begins at its head.
  unfoldable pub start : Writer R → Writer R
  start w = if w.running || w.closed then w else record w { running = true; phase = at_head }

  unfoldable pub push : WriteOp → Writer R → Writer R
  push op w =
      if w.closed then w else record w { queue = w.queue ++ op ∷ []; pushed = suc w.pushed % word }

  -- The condition on which wait waits.
  unfoldable pub must_wait : ℕ → Writer R → Bool
  must_wait target w = w.running && ltb w.done target && not w.exited

  -- stop, up to its select
  unfoldable pub close : Writer R → Writer R
  close w = record w { closed = true }

  -- The time-out of stop.
  unfoldable pub close_abandon : Writer R → Writer R
  close_abandon w = if w.closed && w.running then record w { abandon = true } else w

  abbrev pub leave_loop : Writer R → Writer R
  leave_loop w = record w { exited = true; phase = ended }

  -- The head of the loop, once its wait is over: the loop ends, or takes a batch from the queue.
  unfoldable pub take_at : Phase → Writer R → Writer R
  take_at at_head w =
      let n = min (length w.queue) max_batch in
      if nat_eq (length w.queue) 0 && nat_eq (length w.retry) 0
      then (if w.closed then leave_loop w else w)
      else record w {
        queue = drop n w.queue;
        phase = executing (w.retry ++ take n w.queue) ((w.done + n) % word);
      }
  take_at _ w = w

  abbrev pub take_batch : Writer R → Writer R
  take_batch w = take_at w.phase w

  -- execute, and what follows it up to the select.
  unfoldable pub attempt_at : Client R → ℕ → Phase → Writer R → Writer R
  attempt_at client calls (executing ops attempted) w =
      let (ok, r) = execute client calls ops w.server in
      if ok
      then record w {
        server = r;
        done = attempted;
        retry = [];
        backoff = min_backoff;
        ok = true;
        phase = at_head;
      }
      else record w {
        server = r;
        done = attempted;
        retry = coalesce ops;
        ok = false;
        phase = backing_off;
      }
  attempt_at client calls _ w = w

  abbrev pub attempt : Client R → ℕ → Writer R → Writer R
  attempt client calls w = attempt_at client calls w.phase w

  -- The two cases of the select: the time has passed, and the stop does not wait any longer.
  unfoldable pub after_backoff_at : Phase → Writer R → Writer R
  after_backoff_at backing_off w = record w {
    backoff = min (w.backoff * 2) max_backoff;
    phase = at_head;
  }
  after_backoff_at _ w = w

  unfoldable pub on_abandon_at : Phase → Writer R → Writer R
  on_abandon_at backing_off w = if w.abandon then leave_loop w else w
  on_abandon_at _ w = w

  unfoldable pub act : Client R → Action → Writer R → Writer R
  unfolding start push close close_abandon take_at attempt_at after_backoff_at on_abandon_at
  act client do_start w = start w
  act client (do_push op) w = push op w
  act client do_close w = close w
  act client do_close_abandon w = close_abandon w
  act client do_take w = take_batch w
  act client (do_attempt calls) w = attempt client calls w
  act client do_after_backoff w = after_backoff_at w.phase w
  act client do_on_abandon w = on_abandon_at w.phase w
