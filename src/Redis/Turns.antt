-- ===== src/Redis/Turns.antt =====
-- The steps of the loop of the writer lose no write (jobbackendprovider/redisprovider/writer.go).
use minijob.Prelude.{
  ℕ, ◌*◌, min, String, ◌&&◌, ◌≡◌, refl, sym, ap, ◌∙◌, inl, inr, Option, List, ◌++◌, length,
  length-append, take, drop, take-drop, length-take, nat_eq, Bool-cases, arith,
}
use minijob.Redis.Ops.{StoredValue, WriteOp, after, after-append, coalesce-Partly}
use minijob.Redis.Client.{Client, execute, IsRedis}
use minijob.Redis.Execute.{execute-Outcome}
use minijob.Redis.Writer.{
  Phase, at_head, executing, backing_off, ended, Writer, max_batch, max_backoff, take_at,
  attempt_at, after_backoff_at, on_abandon_at,
}
use minijob.Redis.Kept.{unsent, attempted_of, append_assoc, length-nil, Kept, alive, moved}

module _ {R : Type 0} (client : Client R) (r : R) (read : String → R → Option StoredValue)
    (k : String) where
  pub take_at-IsKept :
      (p : Phase) (accepted : List WriteOp) (w : Writer R)
      → w.phase ≡ p
      → Kept client r read k accepted w
      → Kept client r read k accepted (take_at p w)
  unfolding take_at
  take_at-IsKept at_head accepted w e v =
      elim (Bool-cases (nat_eq (length w.queue) 0 && nat_eq (length w.retry) 0)) [
        | inl none ↦ elim (Bool-cases w.closed) [
          | inl c ↦
              simp (none, c)
                (record {
                  front = v.front;
                  order = v.order;
                  counted = ap (λ p. attempted_of p w.done) (sym e) ∙ v.counted;
                  stored =
                      ap (λ p. after k (unsent p w.retry) (read k w.server)) (sym e) ∙ v.stored;
                  healthy = v.healthy;
                  idle = λ off. ground (arith, off, (alive client r read k accepted w v e refl).0);
                  asked = λ z. refl;
                  flushed = λ x. (
                    refl,
                    refl,
                    λ a. (
                      length-nil w.retry (ground (arith, none)),
                      length-nil w.queue (ground (arith, none)),
                    ),
                  );
                })
          | inr c ↦ simp (none, c) v
        ]
        | inr some ↦
            let n = min (length w.queue) max_batch in
            let batch = take n w.queue in
            simp (some) (record {
              front = v.front ++ batch;
              order =
                  append_assoc v.front batch (drop n w.queue)
                  ∙ ap (v.front ++◌) (take-drop n w.queue)
                  ∙ v.order;
              counted = omega (
                arith,
                ap (λ p. attempted_of p w.done) e,
                v.counted,
                length-append v.front batch,
                length-take n w.queue,
              );
              stored =
                  after-append k w.retry batch (read k w.server)
                  ∙ ap (after k batch)
                      (ap (λ p. after k (unsent p w.retry) (read k w.server)) (sym e) ∙ v.stored)
                  ∙ sym (after-append k v.front batch (read k r));
              healthy = v.healthy;
              idle = λ off. ground (arith, off, (alive client r read k accepted w v e refl).0);
              asked = v.asked;
              flushed = λ x. ground (arith, x, (alive client r read k accepted w v e refl).1);
            })
      ]
  take_at-IsKept (executing _ _) accepted w e v = v
  take_at-IsKept backing_off accepted w e v = v
  take_at-IsKept ended accepted w e v = v

  pub attempt_at-IsKept :
      (calls : ℕ) (p : Phase) (accepted : List WriteOp) (w : Writer R)
      → IsRedis client read k
      → w.phase ≡ p
      → Kept client r read k accepted w
      → Kept client r read k accepted (attempt_at client calls p w)
  unfolding attempt_at
  attempt_at-IsKept calls (executing ops attempted) accepted w h e v =
      let waiting = ap (λ p. after k (unsent p w.retry) (read k w.server)) (sym e) ∙ v.stored in
      let outcome = execute-Outcome client read k h calls ops w.server in
      elim (Bool-cases (execute client calls ops w.server).0) [
        | inl ok ↦ simp (ok) (record {
          front = v.front;
          order = v.order;
          counted = ap (λ p. attempted_of p w.done) (sym e) ∙ v.counted;
          stored = outcome.0 ok ∙ waiting;
          healthy = λ z. refl;
          idle = λ off. ground (arith, off, (alive client r read k accepted w v e refl).0);
          asked = v.asked;
          flushed = λ x. ground (arith, x, (alive client r read k accepted w v e refl).1);
        })
        | inr error ↦ simp (error) (record {
          front = v.front;
          order = v.order;
          counted = ap (λ p. attempted_of p w.done) (sym e) ∙ v.counted;
          stored =
              coalesce-Partly k ops (read k w.server) (read k (execute client calls ops w.server).1)
                (outcome.1 error)
              ∙ waiting;
          healthy = λ z. cc;
          idle = λ off. ground (arith, off, (alive client r read k accepted w v e refl).0);
          asked = v.asked;
          flushed = λ x. ground (arith, x, (alive client r read k accepted w v e refl).1);
        })
      ]
  attempt_at-IsKept calls at_head accepted w h e v = v
  attempt_at-IsKept calls backing_off accepted w h e v = v
  attempt_at-IsKept calls ended accepted w h e v = v

  pub after_backoff_at-IsKept :
      (p : Phase) (accepted : List WriteOp) (w : Writer R)
      → w.phase ≡ p
      → Kept client r read k accepted w
      → Kept client r read k accepted (after_backoff_at p w)
  unfolding after_backoff_at
  after_backoff_at-IsKept backing_off accepted w e v =
      moved client r read k accepted w backing_off at_head (min (w.backoff * 2) max_backoff) e refl
        refl (λ retry. refl) refl v
  after_backoff_at-IsKept (executing _ _) accepted w e v = v
  after_backoff_at-IsKept at_head accepted w e v = v
  after_backoff_at-IsKept ended accepted w e v = v

  pub on_abandon_at-IsKept :
      (p : Phase) (accepted : List WriteOp) (w : Writer R)
      → w.phase ≡ p
      → Kept client r read k accepted w
      → Kept client r read k accepted (on_abandon_at p w)
  unfolding on_abandon_at
  on_abandon_at-IsKept backing_off accepted w e v = elim (Bool-cases w.abandon) [
    | inr a ↦ simp (a) v
    | inl a ↦ simp (a) (record {
      front = v.front;
      order = v.order;
      counted = ap (λ p. attempted_of p w.done) (sym e) ∙ v.counted;
      stored = ap (λ p. after k (unsent p w.retry) (read k w.server)) (sym e) ∙ v.stored;
      healthy = v.healthy;
      idle = λ off. ground (arith, off, (alive client r read k accepted w v e refl).0);
      asked = λ z. v.asked a;
      flushed = λ x. (v.asked a, refl, λ z. cc);
    })
  ]
  on_abandon_at-IsKept (executing _ _) accepted w e v = v
  on_abandon_at-IsKept at_head accepted w e v = v
  on_abandon_at-IsKept ended accepted w e v = v
