-- ===== src/Pq/Count.antt =====
-- How often a value stands in the queue, and how each operation changes that (pq/pq.go).
use minijob.Prelude.{
  ℕ, ◌+◌, ◌-◌, ◌≡◌, refl, Option, none, some, List, [], ◌∷◌, one_if, Eq, ◌==◌, if◌then◌else◌, arith,
}
use minijob.Prelude.Int64.{ℤ}
use minijob.Pq.{
  Node, PriorityQueue, new_priority_queue, insert_behind, enqueue, dequeue_with_priority,
  remove_nodes, remove,
}
use minijob.Pq.Order.{enqueue_nodes-eq-insert_behind}

module _ {ℓ} {A : Type ℓ} ⦃e : Eq A⦄ where
  abbrev pub count_nodes : A → List (Node A) → ℕ
  count_nodes k [] = 0
  count_nodes k (n ∷ ns) = one_if (n.value == k) + count_nodes k ns

  pub count_value : A → PriorityQueue A → ℕ
  count_value k q = count_nodes k q.nodes

  count_nodes-insert_behind :
      (k : A) (new : Node A) (ns : List (Node A))
      → count_nodes k (insert_behind new ns) ≡ one_if (new.value == k) + count_nodes k ns
  unfolding insert_behind
  count_nodes-insert_behind k new [] = refl
  count_nodes-insert_behind k new (n ∷ ns) = ground (arith, count_nodes-insert_behind k new ns)

  -- Enqueue adds one occurrence of its value.
  pub count_value-enqueue :
      (k v : A) (p : ℤ) (q : PriorityQueue A)
      → count_value k (enqueue v p q) ≡ one_if (v == k) + count_value k q
  unfolding count_value enqueue
  count_value-enqueue k v p q =
      rw (enqueue_nodes-eq-insert_behind (record { value = v; priority = p }) q.nodes)
        (count_nodes-insert_behind k (record { value = v; priority = p }) q.nodes)

  pub count_value-dequeue_with_priority :
      (k : A) (m : ℤ) (q : PriorityQueue A) {v : A} {p : ℤ} {r : PriorityQueue A}
      → dequeue_with_priority m q ≡ some (v, p, r)
      → count_value k q ≡ one_if (v == k) + count_value k r
  unfolding count_value dequeue_with_priority
  count_value-dequeue_with_priority k m q {v} {p} {r} h = ground arith

  abbrev CountRemoved : A → A → List (Node A) → Option (List (Node A)) → Type 0
  CountRemoved k v ns none = count_nodes v ns ≡ 0
  CountRemoved k v ns (some rest) = count_nodes k ns ≡ one_if (v == k) + count_nodes k rest

  count_nodes-remove_nodes :
      (k v : A) (ns : List (Node A)) → CountRemoved k v ns (remove_nodes e.equal v ns)
  unfolding remove_nodes
  count_nodes-remove_nodes k v [] = refl
  count_nodes-remove_nodes k v (n ∷ ns) = ground (
    arith,
    e.equal_iff n.value v,
    e.equal_iff n.value k,
    e.equal_iff v k,
    count_nodes-remove_nodes k v ns,
  )

  -- Remove takes one occurrence of the value away, if there is one, and none of another value.
  pub count_value-remove :
      (k v : A) (q : PriorityQueue A)
      → count_value k (remove e.equal v q).0
        ≡ (if v == k then count_value k q - 1 else count_value k q)
  unfolding count_value remove
  count_value-remove k v q = ground (arith, e.equal_iff v k, count_nodes-remove_nodes k v q.nodes)

  pub count_value-new : (k : A) → count_value k (new_priority_queue A) ≡ 0
  unfolding count_value new_priority_queue
  count_value-new k = refl
