-- ===== src/Redis/Runs.antt =====
-- The writer loses no write, whatever its goroutines do
-- (jobbackendprovider/redisprovider/writer.go).
use minijob.Prelude.{String, ◌&&◌, refl, inl, inr, Option, List, [], Bool-cases, arith}
use minijob.Redis.Ops.{StoredValue, WriteOp}
use minijob.Redis.Client.{Client, IsRedis}
use minijob.Redis.Writer.{
  Writer, new_writer, close, close_abandon, do_start, do_push, do_close, do_close_abandon, do_take,
  do_attempt, do_after_backoff, do_on_abandon, act,
}
use minijob.Redis.Kept.{Running, begin, acting, append-nil, Kept, start-IsKept, push-IsKept}
use minijob.Redis.Turns.{
  take_at-IsKept, attempt_at-IsKept, after_backoff_at-IsKept, on_abandon_at-IsKept,
}

module _ {R : Type 0} (client : Client R) (r : R) (read : String → R → Option StoredValue)
    (k : String) where
  close-IsKept :
      (accepted : List WriteOp) (w : Writer R)
      → Kept client r read k accepted w
      → Kept client r read k accepted (close w)
  unfolding close
  close-IsKept accepted w v = record {
    front = v.front;
    order = v.order;
    counted = v.counted;
    stored = v.stored;
    healthy = v.healthy;
    idle = v.idle;
    asked = λ z. refl;
    flushed = λ x. (refl, (v.flushed x).1, (v.flushed x).2);
  }

  close_abandon-IsKept :
      (accepted : List WriteOp) (w : Writer R)
      → Kept client r read k accepted w
      → Kept client r read k accepted (close_abandon w)
  unfolding close_abandon
  close_abandon-IsKept accepted w v = elim (Bool-cases (w.closed && w.running)) [
    | inr e ↦ simp (e) v
    | inl e ↦ simp (e) (record {
      front = v.front;
      order = v.order;
      counted = v.counted;
      stored = v.stored;
      healthy = v.healthy;
      idle = v.idle;
      asked = λ z. ground (arith, e);
      flushed = λ x. ((v.flushed x).0, (v.flushed x).1, λ z. cc);
    })
  ]

  new_writer-IsKept : Kept client r read k [] (new_writer r)
  unfolding new_writer
  new_writer-IsKept = record {
    front = [];
    order = refl;
    counted = refl;
    stored = refl;
    healthy = λ z. refl;
    idle = λ z. (refl, refl);
    asked = λ z. cc;
    flushed = λ x. cc;
  }

  pub running-IsKept :
      {accepted : List WriteOp} {w : Writer R}
      → IsRedis client read k
      → Running client r accepted w
      → Kept client r read k accepted w
  unfolding act
  running-IsKept h begin = new_writer-IsKept
  running-IsKept h (acting (do_push op) {accepted} {w} run) =
      push-IsKept client r read k op accepted w (running-IsKept h run)
  running-IsKept h (acting do_start {accepted} {w} run) =
      simp (append-nil accepted) (start-IsKept client r read k accepted w (running-IsKept h run))
  running-IsKept h (acting do_close {accepted} {w} run) =
      simp (append-nil accepted) (close-IsKept accepted w (running-IsKept h run))
  running-IsKept h (acting do_close_abandon {accepted} {w} run) =
      simp (append-nil accepted) (close_abandon-IsKept accepted w (running-IsKept h run))
  running-IsKept h (acting do_take {accepted} {w} run) =
      simp (append-nil accepted)
        (take_at-IsKept client r read k w.phase accepted w refl (running-IsKept h run))
  running-IsKept h (acting (do_attempt calls) {accepted} {w} run) =
      simp (append-nil accepted)
        (attempt_at-IsKept client r read k calls w.phase accepted w h refl (running-IsKept h run))
  running-IsKept h (acting do_after_backoff {accepted} {w} run) =
      simp (append-nil accepted)
        (after_backoff_at-IsKept client r read k w.phase accepted w refl (running-IsKept h run))
  running-IsKept h (acting do_on_abandon {accepted} {w} run) =
      simp (append-nil accepted)
        (on_abandon_at-IsKept client r read k w.phase accepted w refl (running-IsKept h run))
