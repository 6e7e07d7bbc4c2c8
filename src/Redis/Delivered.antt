-- ===== src/Redis/Delivered.antt =====
-- When the writes of the Redis backend are on the server
-- (jobbackendprovider/redisprovider/writer.go).
use minijob.Prelude.{
  ℕ, zero, suc, ◌*◌, ◌≤◌, ◌<◌, min, String, true, false, ◌&&◌, ◌≡◌, ◌⊎◌, refl, sym, ap, ◌∙◌, inl,
  inr, Option, List, [], ◌∷◌, ◌++◌, length, length-append, length-drop, take, drop, nat_eq,
  Bool-cases, arith,
}
use minijob.Redis.Ops.{StoredValue, WriteOp, after, after-append}
use minijob.Redis.Client.{Client, execute, IsRedis}
use minijob.Redis.Writer.{
  at_head, ended, Writer, word, max_batch, take_at, take_batch, attempt_at, attempt,
}
use minijob.Redis.Kept.{unsent, attempted_of, Running, Kept, length-nil, append-nil}
use minijob.Redis.Turns.{take_at-IsKept, attempt_at-IsKept}
use minijob.Redis.Runs.{running-IsKept}

-- One turn of the loop without the wait.
abbrev pub turn : {R : Type 0} → Client R → ℕ → Writer R → Writer R
turn client calls w = attempt client calls (take_batch w)

abbrev pub turns : {R : Type 0} → Client R → ℕ → ℕ → Writer R → Writer R
turns client calls zero w = w
turns client calls (suc n) w = turns client calls n (turn client calls w)

module _ {R : Type 0} (client : Client R) (r : R) (read : String → R → Option StoredValue)
    (k : String) (h : IsRedis client read k) where
  take-front : (xs ys : List WriteOp) → take (length xs) (xs ++ ys) ≡ xs
  take-front [] ys = refl
  take-front (x ∷ xs) ys = ap (x ∷◌) (take-front xs ys)

  -- Whatever has failed so far: if the unsent writes and then the queue were made now, the key
  -- would be as all the accepted writes make it, in the order in which they were accepted.
  pub running-after :
      {accepted : List WriteOp} {w : Writer R}
      → Running client r accepted w
      → after k (unsent w.phase w.retry ++ w.queue) (read k w.server) ≡ after k accepted (read k r)
  running-after {accepted} {w} run =
      let v = running-IsKept client r read k h run in
      after-append k (unsent w.phase w.retry) w.queue (read k w.server)
      ∙ ap (after k w.queue) v.stored
      ∙ sym (after-append k v.front w.queue (read k r))
      ∙ ap (λ ops. after k ops (read k r)) v.order

  -- While the writer is healthy and at the head of its loop, and fewer than 2^64 writes were
  -- accepted, the key on the server is as exactly the first `done` accepted writes make it.
  pub healthy-after :
      {accepted : List WriteOp} {w : Writer R}
      → Running client r accepted w
      → w.ok ≡ true
      → w.phase ≡ at_head
      → length accepted < word
      → read k w.server ≡ after k (take w.done accepted) (read k r)
  healthy-after {accepted} {w} run fine here small =
      let v = running-IsKept client r read k h run in
      let same : w.done ≡ length v.front = omega (
        arith,
        ap (λ p. attempted_of p w.done) here,
        v.counted,
        length-append v.front w.queue,
        ap length v.order,
        small,
      ) in
      ap (λ ops. after k ops (read k w.server))
        (sym (ap (λ p. unsent p w.retry) here ∙ v.healthy fine))
      ∙ v.stored
      ∙ ap (λ ops. after k ops (read k r))
          (sym (
            ap (λ n. take n accepted) same
            ∙ ap (take (length v.front)) (sym v.order)
            ∙ take-front v.front w.queue))

  -- When the loop has ended, and the stop has not given up, the key on the server is as all the
  -- accepted writes make it.
  pub ended-after :
      {accepted : List WriteOp} {w : Writer R}
      → Running client r accepted w
      → w.exited ≡ true
      → w.abandon ≡ false
      → read k w.server ≡ after k accepted (read k r)
  ended-after {accepted} {w} run gone waited =
      let v = running-IsKept client r read k h run in
      let (_, out, empty) = v.flushed gone in
      let (no_retry, no_queue) = empty waited in
      ap (λ ops. after k ops (read k w.server))
        (sym (
          ap (λ ops. unsent w.phase w.retry ++ ops) no_queue
          ∙ append-nil (unsent w.phase w.retry)
          ∙ ap (λ p. unsent p w.retry) out
          ∙ no_retry))
      ∙ running-after run

  -- Nothing waits to be written.
  abbrev IsDrained : Writer R → Type 0
  IsDrained w =
      (unsent w.phase w.retry ≡ []) × (w.queue ≡ []) × ((w.phase ≡ at_head) ⊎ (w.phase ≡ ended))

  module _ (calls : ℕ)
      (answers : (ops : List WriteOp) (s : R) → (execute client calls ops s).0 ≡ true) where
    turn-at_head :
        (w : Writer R)
        → w.phase ≡ at_head
        → IsDrained (turn client calls w)
          ⊎ (((turn client calls w).phase ≡ at_head)
              × ((turn client calls w).retry ≡ [])
              × ((turn client calls w).queue ≡ drop (min (length w.queue) max_batch) w.queue))
    unfolding take_at attempt_at
    turn-at_head w here =
        elim (Bool-cases (nat_eq (length w.queue) 0 && nat_eq (length w.retry) 0)) [
          | inl none ↦
              let no_retry = length-nil w.retry (ground (arith, none)) in
              let no_queue = length-nil w.queue (ground (arith, none)) in
              elim (Bool-cases w.closed) [
                | inl c ↦ simp (here, none, c) (inl (no_retry, no_queue, inr refl))
                | inr c ↦ simp (here, none, c) (inl (no_retry, no_queue, inl refl))
              ]
          | inr some ↦
              simp
                (
                  here,
                  some,
                  answers (w.retry ++ take (min (length w.queue) max_batch) w.queue) w.server,
                )
                (inr (refl, refl, refl))
        ]

    turn-IsDrained : (w : Writer R) → IsDrained w → IsDrained (turn client calls w)
    unfolding take_at attempt_at
    turn-IsDrained w (no_retry, no_queue, at) = elim at [
      | inl here ↦ elim (turn-at_head w here) [
        | inl d ↦ d
        | inr (here', none, rest) ↦ (
          ap (λ p. unsent p (turn client calls w).retry) here' ∙ none,
          length-nil (turn client calls w).queue (
              omega (
                arith,
                ap length rest,
                length-drop (min (length w.queue) max_batch) w.queue,
                ap length no_queue,
              )),
          inl here',
        )
      ]
      | inr gone ↦
          simp (gone) (ap (λ p. unsent p w.retry) (sym gone) ∙ no_retry, no_queue, inr refl)
    ]

    turns-IsDrained : (n : ℕ) (w : Writer R) → IsDrained w → IsDrained (turns client calls n w)
    turns-IsDrained zero w d = d
    turns-IsDrained (suc n) w d = turns-IsDrained n (turn client calls w) (turn-IsDrained w d)

    turns-at_head :
        (n : ℕ) (w : Writer R)
        → w.phase ≡ at_head
        → w.retry ≡ []
        → length w.queue ≤ n * max_batch
        → IsDrained (turns client calls n w)
    turns-at_head zero w here none small = (
      ap (λ p. unsent p w.retry) here ∙ none,
      length-nil w.queue (omega (arith, small)),
      inl here,
    )
    turns-at_head (suc n) w here none small = elim (turn-at_head w here) [
      | inl d ↦ turns-IsDrained n (turn client calls w) d
      | inr (here', none', rest) ↦ turns-at_head n (turn client calls w) here' none' (
          omega
            (arith, ap length rest, length-drop (min (length w.queue) max_batch) w.queue, small))
    ]

    turn-Kept :
        (accepted : List WriteOp) (w : Writer R)
        → Kept client r read k accepted w
        → Kept client r read k accepted (turn client calls w)
    turn-Kept accepted w v =
        attempt_at-IsKept client r read k calls (take_batch w).phase accepted (take_batch w) h refl
          (take_at-IsKept client r read k w.phase accepted w refl v)

    turns-Kept :
        (n : ℕ) (accepted : List WriteOp) (w : Writer R)
        → Kept client r read k accepted w
        → Kept client r read k accepted (turns client calls n w)
    turns-Kept zero accepted w v = v
    turns-Kept (suc n) accepted w v =
        turns-Kept n accepted (turn client calls w) (turn-Kept accepted w v)

    drained-after :
        (accepted : List WriteOp) (w : Writer R)
        → Kept client r read k accepted w
        → IsDrained w
        → read k w.server ≡ after k accepted (read k r)
    drained-after accepted w v (no_unsent, no_queue, _) =
        ap (λ ops. after k ops (read k w.server)) (sym no_unsent)
        ∙ v.stored
        ∙ ap (λ ops. after k ops (read k r))
            (sym (append-nil v.front) ∙ ap (v.front ++◌) (sym no_queue) ∙ v.order)

    -- From a state of the writer at the head of its loop, if the server answers from then on
    -- without errors: after one turn per batch of the queue and one more, the key on the server is
    -- as all the accepted writes make it.
    pub turns-after :
        (n : ℕ) {accepted : List WriteOp} {w : Writer R}
        → Running client r accepted w
        → w.phase ≡ at_head
        → length w.queue ≤ n * max_batch
        → read k (turns client calls (suc n) w).server ≡ after k accepted (read k r)
    turns-after n {accepted} {w} run here small =
        drained-after accepted (turns client calls (suc n) w)
          (turns-Kept (suc n) accepted w (running-IsKept client r read k h run))
          (elim (turn-at_head w here) [
            | inl d ↦ turns-IsDrained n (turn client calls w) d
            | inr (here', none, rest) ↦ turns-at_head n (turn client calls w) here' none (
                omega (
                  arith,
                  ap length rest,
                  length-drop (min (length w.queue) max_batch) w.queue,
                  small,
                ))
          ])
