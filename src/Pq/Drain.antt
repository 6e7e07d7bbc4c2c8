-- ===== src/Pq/Drain.antt =====
-- The loop `for { v, _, ok := DequeueWithPriority(min); if !ok { break } … }` hands out the ready
-- entries (pq/pq.go).
use minijob.Prelude.{
  ℕ, zero, suc, ◌<◌, true, ◌≡◌, refl, Option, none, some, List, [], ◌∷◌, keep_if, length, arith,
  inl, inr, Option-cases,
}
use minijob.Prelude.Int64.{ℤ, leb_ℤ, ltb_ℤ}
use minijob.Pq.{Node, PriorityQueue, dequeue_with_priority}
use minijob.Pq.Order.{IsValid, AtMost, IsSorted, dequeue_with_priority-IsValid}

module _ {ℓ} {A : Type ℓ} where
  abbrev pub ready : ℤ → List (Node A) → List (Node A)
  ready m ns = keep_if (λ n. leb_ℤ m n.priority) ns

  abbrev pub later : ℤ → List (Node A) → List (Node A)
  later m ns = keep_if (λ n. ltb_ℤ n.priority m) ns

  -- The loop, on fuel: what it hands out, and the queue that is left.
  unfoldable pub drain : ℕ → ℤ → PriorityQueue A → List (Node A) × PriorityQueue A
  drain zero m q = ([], q)
  drain (suc fuel) m q = elim (dequeue_with_priority m q) [
    | none ↦ ([], q)
    | some (v, p, r) ↦
        let (out, rest) = drain fuel m r in (record { value = v; priority = p } ∷ out, rest)
  ]

  ready_below :
      (m r : ℤ) (ns : List (Node A))
      → ltb_ℤ r m ≡ true
      → AtMost r ns
      → (ready m ns ≡ []) × (later m ns ≡ ns)
  ready_below m r [] h a = (refl, refl)
  ready_below m r (n ∷ ns) h a = ground (arith, ready_below m r ns h a.1)

  abbrev pub Step : ℤ → PriorityQueue A → Option (A × ℤ × PriorityQueue A) → Type ℓ
  Step m q none = (ready m q.nodes ≡ []) × (later m q.nodes ≡ q.nodes)
  Step m q (some (v, p, r)) =
      (ready m q.nodes ≡ record { value = v; priority = p } ∷ ready m r.nodes)
      × (later m q.nodes ≡ later m r.nodes)
      × (length q.nodes ≡ suc (length r.nodes))

  nodes-Step :
      (m : ℤ) (ns : List (Node A)) (len : ℕ)
      → IsSorted ns
      → let q : PriorityQueue A = record { nodes = ns; len = len } in
        Step m q (dequeue_with_priority m q)
  unfolding dequeue_with_priority
  nodes-Step m [] len s = (refl, refl)
  nodes-Step m (n ∷ ns) len s = ground (arith, ready_below m n.priority ns)

  -- One call takes the first ready entry, and fails only if none is ready.
  pub dequeue_with_priority-Step :
      (m : ℤ) (q : PriorityQueue A) → IsValid q → Step m q (dequeue_with_priority m q)
  dequeue_with_priority-Step m q h = nodes-Step m q.nodes q.len h.sorted

  -- On a valid queue, with more fuel than entries, the loop hands out, in order, exactly the entries whose priority
  -- is at least the bound, and leaves the others in their order.
  pub drain_lem :
      (fuel : ℕ) (m : ℤ) (q : PriorityQueue A)
      → IsValid q
      → length q.nodes < fuel
      → ((drain fuel m q).0 ≡ ready m q.nodes) × ((drain fuel m q).1.nodes ≡ later m q.nodes)
  unfolding drain
  drain_lem zero m q v h = absurd (omega arith)
  drain_lem (suc fuel) m q v h = elim (Option-cases (dequeue_with_priority m q)) [
    | inl e ↦ ground (arith, dequeue_with_priority-Step m q v)
    | inr ((x, p, r), e) ↦ ground (
      arith,
      dequeue_with_priority-Step m q v,
      drain_lem fuel m r (dequeue_with_priority-IsValid m q v e),
    )
  ]
