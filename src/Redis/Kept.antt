-- ===== src/Redis/Kept.antt =====
-- No write is lost, whatever fails, and their order is kept
-- (jobbackendprovider/redisprovider/writer.go).
use minijob.Prelude.{
  ℕ, ◌%◌, String, Bool, true, false, ◌||◌, ◌≡◌, refl, sym, ap, ◌∙◌, inl, inr, Option, List, [], ◌∷◌,
  ◌++◌, length, Bool-cases, arith,
}
use mathlib.Core.Path.{subst}
use minijob.Redis.Ops.{StoredValue, WriteOp, after}
use minijob.Redis.Client.{Client}
use minijob.Redis.Writer.{
  Phase, executing, ended, Writer, word, new_writer, start, push, Action, do_push, accepts, act,
}

-- The writes that left the queue and may not have reached the server.
abbrev pub unsent : Phase → List WriteOp → List WriteOp
unsent (executing ops attempted) retry = ops
unsent _ retry = retry

-- How many writes have left the queue.
abbrev pub attempted_of : Phase → ℕ → ℕ
attempted_of (executing ops attempted) done = attempted
attempted_of _ done = done

module _ {R : Type 0} (client : Client R) (r : R) where
  -- The states that the actions lead to from the start, with the writes that were accepted.
  pub data Running : List WriteOp → Writer R → Type 0 where
    begin : Running [] (new_writer r)
    acting :
        (a : Action) {accepted : List WriteOp} {w : Writer R}
        → Running accepted w
        → Running (accepted ++ accepts a w.closed) (act client a w)

pub append_assoc : (xs ys zs : List WriteOp) → (xs ++ ys) ++ zs ≡ xs ++ (ys ++ zs)
append_assoc [] ys zs = refl
append_assoc (x ∷ xs) ys zs = ap (x ∷◌) (append_assoc xs ys zs)

pub append-nil : (xs : List WriteOp) → xs ++ [] ≡ xs
append-nil [] = refl
append-nil (x ∷ xs) = ap (x ∷◌) (append-nil xs)

pub length-nil : (xs : List WriteOp) → length xs ≡ 0 → xs ≡ []
length-nil [] e = refl
length-nil (x ∷ xs) e = absurd (omega (arith, e))

abbrev pub is_ended : Phase → Bool
is_ended ended = true
is_ended _ = false

-- The first of the accepted writes have left the queue, in order, and the rest is the queue. On the
-- server the key is as the writes that left the queue make it, once the unsent ones are made.
pub record IsKept {R : Type 0} (r : R) (read : String → R → Option StoredValue) (k : String)
    (accepted : List WriteOp) (w : Writer R) : Type 0 where
  pub front : List WriteOp
  pub order : front ++ w.queue ≡ accepted
  pub counted : attempted_of w.phase w.done ≡ length front % word
  pub stored : after k (unsent w.phase w.retry) (read k w.server) ≡ after k front (read k r)
  pub healthy : w.ok ≡ true → w.retry ≡ []
  pub idle : w.running ≡ false → (w.phase ≡ ended) × (w.exited ≡ false)
  pub asked : w.abandon ≡ true → w.closed ≡ true
  pub flushed :
      w.exited ≡ true
      → (w.closed ≡ true)
        × (w.phase ≡ ended)
        × (w.abandon ≡ false → (w.retry ≡ []) × (w.queue ≡ []))

module _ {R : Type 0} (client : Client R) (r : R) (read : String → R → Option StoredValue)
    (k : String) where
  abbrev pub Kept : List WriteOp → Writer R → Type 0
  Kept accepted w = IsKept r read k accepted w

  pub start-IsKept :
      (accepted : List WriteOp) (w : Writer R) → Kept accepted w → Kept accepted (start w)
  unfolding start
  start-IsKept accepted w v = elim (Bool-cases (w.running || w.closed)) [
    | inl e ↦ simp (e) v
    | inr e ↦ simp (e) (
        let off : w.running ≡ false = ground (arith, e) in
        record {
          front = v.front;
          order = v.order;
          counted =
              subst (λ p. attempted_of p w.done ≡ length v.front % word) (v.idle off).0 v.counted;
          stored =
              subst (λ p. after k (unsent p w.retry) (read k w.server) ≡ after k v.front (read k r))
                (v.idle off).0 v.stored;
          healthy = v.healthy;
          idle = λ z. cc;
          asked = v.asked;
          flushed = λ x. ground (arith, x, (v.idle off).1);
        })
  ]

  pub push-IsKept :
      (op : WriteOp) (accepted : List WriteOp) (w : Writer R)
      → Kept accepted w
      → Kept (accepted ++ accepts (do_push op) w.closed) (push op w)
  unfolding push
  push-IsKept op accepted w v = elim (Bool-cases w.closed) [
    | inl e ↦ simp (e, append-nil accepted) v
    | inr e ↦ simp (e) (record {
      front = v.front;
      order = sym (append_assoc v.front w.queue (op ∷ [])) ∙ ap (λ ops. ops ++ op ∷ []) v.order;
      counted = v.counted;
      stored = v.stored;
      healthy = v.healthy;
      idle = v.idle;
      asked = λ z. ground (arith, e, v.asked z);
      flushed = λ x. ground (arith, e, (v.flushed x).0);
    })
  ]

  -- Inside its loop the writer is running.
  pub alive :
      (accepted : List WriteOp) (w : Writer R) {p : Phase}
      → Kept accepted w
      → w.phase ≡ p
      → is_ended p ≡ false
      → (w.running ≡ true) × (w.exited ≡ false)
  alive accepted w v e inside =
      let other : is_ended w.phase ≡ false = ap is_ended e ∙ inside in
      (
        elim (Bool-cases w.running) [
          | inl on ↦ on
          | inr off ↦ ground (arith, other, ap is_ended (v.idle off).0)
        ],
        elim (Bool-cases w.exited) [
          | inr there ↦ there
          | inl gone ↦ ground (arith, other, ap is_ended (v.flushed gone).1)
        ],
      )

  -- Where the writes, the counts and the server stay, and the loop moves inside itself.
  pub moved :
      (accepted : List WriteOp) (w : Writer R) (p q : Phase) (pause : ℕ)
      → w.phase ≡ p
      → is_ended p ≡ false
      → is_ended q ≡ false
      → ((retry : List WriteOp) → unsent q retry ≡ unsent p retry)
      → attempted_of q w.done ≡ attempted_of p w.done
      → Kept accepted w
      → Kept accepted (record w { backoff = pause; phase = q })
  moved accepted w p q pause e inside inside' same count v = record {
    front = v.front;
    order = v.order;
    counted = count ∙ ap (λ i. attempted_of i w.done) (sym e) ∙ v.counted;
    stored =
        ap (λ ops. after k ops (read k w.server)) (same w.retry)
        ∙ ap (λ i. after k (unsent i w.retry) (read k w.server)) (sym e)
        ∙ v.stored;
    healthy = v.healthy;
    idle = λ off. ground (arith, off, (alive accepted w v e inside).0);
    asked = v.asked;
    flushed = λ x. ground (arith, x, (alive accepted w v e inside).1);
  }
