-- ===== src/Pq/Order.antt =====
-- The nodes stay in falling priority, and the length field counts them (pq/pq.go).
use minijob.Prelude.{
  ◌+◌, Bool, true, ◌≡◌, refl, ap, inl, inr, Bool-cases, ◌∙◌, Option, none, some, List, [], ◌∷◌,
  ◌++◌, length, keep_if, arith,
}
use minijob.Prelude.Int64.{ℤ, ◌≤ℤ◌, leb_ℤ, ltb_ℤ}
use minijob.Pq.{
  Node, PriorityQueue, new_priority_queue, insert_behind, enqueue_nodes, enqueue,
  dequeue_with_priority, remove_nodes, remove,
}

module _ {ℓ} {A : Type ℓ} where
  -- No node has a priority above `p`.
  abbrev pub AtMost : ℤ → List (Node A) → Type 0
  AtMost p [] = Unit {0}
  AtMost p (n ∷ ns) = (n.priority ≤ℤ p) × AtMost p ns

  -- Falling priorities: each node bounds all behind it.
  abbrev pub IsSorted : List (Node A) → Type 0
  IsSorted [] = Unit {0}
  IsSorted (n ∷ ns) = AtMost n.priority ns × IsSorted ns

  pub record IsValid (q : PriorityQueue A) : Type ℓ where
    pub sorted : IsSorted q.nodes
    pub counted : q.len ≡ length q.nodes

  AtMost-mono : (p r : ℤ) (ns : List (Node A)) → p ≤ℤ r → AtMost p ns → AtMost r ns
  AtMost-mono p r [] h a = tt
  AtMost-mono p r (n ∷ ns) h a = (omega arith, AtMost-mono p r ns h a.1)

  insert_behind-AtMost :
      (p : ℤ) (new : Node A) (ns : List (Node A))
      → new.priority ≤ℤ p
      → AtMost p ns
      → AtMost p (insert_behind new ns)
  unfolding insert_behind
  insert_behind-AtMost p new [] h a = (h, tt)
  insert_behind-AtMost p new (n ∷ ns) h a = elim (Bool-cases (leb_ℤ new.priority n.priority)) [
    | inl e ↦ rw e (a.0, insert_behind-AtMost p new ns h a.1)
    | inr e ↦ rw e (h, a)
  ]

  insert_behind-IsSorted :
      (new : Node A) (ns : List (Node A)) → IsSorted ns → IsSorted (insert_behind new ns)
  unfolding insert_behind
  insert_behind-IsSorted new [] s = (tt, tt)
  insert_behind-IsSorted new (n ∷ ns) s = elim (Bool-cases (leb_ℤ new.priority n.priority)) [
    | inl e ↦ rw e (
      insert_behind-AtMost n.priority new ns (ground arith) s.0,
      insert_behind-IsSorted new ns s.1,
    )
    | inr e ↦
        let below : n.priority ≤ℤ new.priority = ground arith in
        rw e ((below, AtMost-mono n.priority new.priority ns below s.0), s)
  ]

  -- Enqueue is one walk over all nodes, the head included.
  pub enqueue_nodes-eq-insert_behind :
      (new : Node A) (ns : List (Node A)) → enqueue_nodes new ns ≡ insert_behind new ns
  unfolding enqueue_nodes insert_behind
  enqueue_nodes-eq-insert_behind new [] = refl
  enqueue_nodes-eq-insert_behind new (n ∷ ns) = ground arith

  length-insert_behind :
      (new : Node A) (ns : List (Node A)) → length (insert_behind new ns) ≡ length ns + 1
  unfolding insert_behind
  length-insert_behind new [] = refl
  length-insert_behind new (n ∷ ns) = ground (arith, length-insert_behind new ns)

  pub new-IsValid : IsValid (new_priority_queue A)
  unfolding new_priority_queue
  new-IsValid = record { sorted = tt; counted = refl }

  pub enqueue-IsValid : (v : A) (p : ℤ) (q : PriorityQueue A) → IsValid q → IsValid (enqueue v p q)
  unfolding enqueue
  enqueue-IsValid v p q h =
      let new : Node A = record { value = v; priority = p } in
      let e : enqueue_nodes new q.nodes ≡ insert_behind new q.nodes =
        enqueue_nodes-eq-insert_behind new q.nodes in
      record {
        sorted = rw e (insert_behind-IsSorted new q.nodes h.sorted);
        counted = omega (arith, ap length e, length-insert_behind new q.nodes, h.counted);
      }

  keep_if_below :
      (p r : ℤ) (ns : List (Node A))
      → ltb_ℤ r p ≡ true
      → AtMost r ns
      → (keep_if (λ n. leb_ℤ p n.priority) ns ≡ []) × (keep_if (λ n. ltb_ℤ n.priority p) ns ≡ ns)
  keep_if_below p r [] h a = (refl, refl)
  keep_if_below p r (n ∷ ns) h a = ground (arith, keep_if_below p r ns h a.1)

  insert_behind_stable :
      (new : Node A) (ns : List (Node A))
      → IsSorted ns
      → insert_behind new ns
        ≡ keep_if (λ n. leb_ℤ new.priority n.priority) ns
          ++ (new ∷ keep_if (λ n. ltb_ℤ n.priority new.priority) ns)
  unfolding insert_behind
  insert_behind_stable new [] s = refl
  insert_behind_stable new (n ∷ ns) s = elim (Bool-cases (leb_ℤ new.priority n.priority)) [
    | inl e ↦ ground (arith, insert_behind_stable new ns s.1)
    | inr e ↦ ground (arith, keep_if_below new.priority n.priority ns (ground arith) s.0)
  ]

  -- In a valid queue a new entry goes behind all entries of its priority or a higher one, and
  -- before the others: the order of arrival decides between equal priorities. The queue stays
  -- valid.
  pub enqueue_stable :
      (v : A) (p : ℤ) (q : PriorityQueue A)
      → IsValid q
      → ((enqueue v p q).nodes
          ≡ keep_if (λ n. leb_ℤ p n.priority) q.nodes
            ++ (record { value = v; priority = p } ∷ keep_if (λ n. ltb_ℤ n.priority p) q.nodes))
        × IsValid (enqueue v p q)
  unfolding enqueue
  enqueue_stable v p q h = (
    enqueue_nodes-eq-insert_behind _ q.nodes
        ∙ insert_behind_stable (record { value = v; priority = p }) q.nodes h.sorted,
    enqueue-IsValid v p q h,
  )

  abbrev OnSome {κ} : (List (Node A) → Type κ) → Option (List (Node A)) → Type κ
  OnSome P none = Unit
  OnSome P (some rest) = P rest

  remove_nodes-AtMost :
      (equal : A → A → Bool) (v : A) (p : ℤ) (ns : List (Node A))
      → AtMost p ns
      → OnSome (AtMost p) (remove_nodes equal v ns)
  unfolding remove_nodes
  remove_nodes-AtMost equal v p [] a = tt
  remove_nodes-AtMost equal v p (n ∷ ns) a = ground (arith, remove_nodes-AtMost equal v p ns a.1)

  remove_nodes-IsSorted :
      (equal : A → A → Bool) (v : A) (ns : List (Node A))
      → IsSorted ns
      → OnSome (λ rest. IsSorted rest × (length rest + 1 ≡ length ns)) (remove_nodes equal v ns)
  unfolding remove_nodes
  remove_nodes-IsSorted equal v [] s = tt
  remove_nodes-IsSorted equal v (n ∷ ns) s =
      ground
        (arith, remove_nodes-AtMost equal v n.priority ns s.0, remove_nodes-IsSorted equal v ns s.1)

  -- Remove keeps the queue valid, whether or not the value is found.
  pub remove-IsValid :
      (equal : A → A → Bool) (v : A) (q : PriorityQueue A)
      → IsValid q
      → IsValid (remove equal v q).0
  unfolding remove
  remove-IsValid equal v q h = ground (arith, remove_nodes-IsSorted equal v q.nodes h.sorted)

  pub dequeue_with_priority-IsValid :
      (m : ℤ) (q : PriorityQueue A) {v : A} {p : ℤ} {r : PriorityQueue A}
      → IsValid q
      → dequeue_with_priority m q ≡ some (v, p, r)
      → IsValid r
  unfolding dequeue_with_priority
  dequeue_with_priority-IsValid m q {v} {p} {r} h e = ground arith
