-- ===== src/Pq.antt =====
-- pq/pq.go: the priority queue of the retries and of the delayed jobs, a singly linked list whose
-- nodes stand in falling priority. The list of nodes is the chain from `head`.
pub mod Order
pub mod Drain
pub mod Count
use minijob.Prelude.{
  ℕ, suc, ◌+◌, ◌-◌, Bool, true, false, ◌≡◌, Option, none, some, List, [], ◌∷◌, if◌then◌else◌,
}
use minijob.Prelude.Int64.{ℤ, ltb_ℤ, leb_ℤ}

pub record Node {ℓ} (A : Type ℓ) : Type ℓ where
  pub value : A
  pub priority : ℤ

pub record PriorityQueue {ℓ} (A : Type ℓ) : Type ℓ where
  pub nodes : List (Node A)
  pub len : ℕ

-- NewPriorityQueue
unfoldable pub new_priority_queue {ℓ} : (A : Type ℓ) → PriorityQueue A
new_priority_queue A = record { nodes = []; len = 0 }

-- IsEmpty
unfoldable pub is_empty {ℓ} : {A : Type ℓ} → PriorityQueue A → Bool
is_empty q = elim q.nodes [ [] ↦ true | _ ∷ _ ↦ false ]

module _ {ℓ} {A : Type ℓ} where
  -- The loop of Enqueue, over the nodes behind `current`: the new node stands before the first one
  -- of a lower priority.
  unfoldable pub insert_behind : Node A → List (Node A) → List (Node A)
  insert_behind new [] = new ∷ []
  insert_behind new (next ∷ rest) =
      if leb_ℤ new.priority next.priority then next ∷ insert_behind new rest else new ∷ next ∷ rest

  unfoldable pub enqueue_nodes : Node A → List (Node A) → List (Node A)
  unfolding insert_behind
  enqueue_nodes new [] = new ∷ []
  enqueue_nodes new (head ∷ rest) =
      if ltb_ℤ head.priority new.priority then new ∷ head ∷ rest else head ∷ insert_behind new rest

  -- Enqueue
  unfoldable pub enqueue : A → ℤ → PriorityQueue A → PriorityQueue A
  unfolding enqueue_nodes
  enqueue v p q = record {
    nodes = enqueue_nodes (record { value = v; priority = p }) q.nodes;
    len = q.len + 1;
  }

  -- Peek; `none` is the error "queue is empty"
  unfoldable pub peek : PriorityQueue A → Option (A × ℤ)
  peek q = elim q.nodes [ [] ↦ none | head ∷ _ ↦ some (head.value, head.priority) ]

  -- Dequeue
  unfoldable pub dequeue : PriorityQueue A → Option (A × ℤ × PriorityQueue A)
  dequeue q = elim q.nodes [
    | [] ↦ none
    | head ∷ rest ↦ some (head.value, head.priority, record { nodes = rest; len = q.len - 1 })
  ]

  -- DequeueWithPriority; `none` is its `false`
  unfoldable pub dequeue_with_priority : ℤ → PriorityQueue A → Option (A × ℤ × PriorityQueue A)
  dequeue_with_priority min_priority q = elim q.nodes [
    | [] ↦ none
    | head ∷ rest ↦
        if ltb_ℤ head.priority min_priority
        then none
        else some (head.value, head.priority, record { nodes = rest; len = q.len - 1 })
  ]

  -- The search of Remove: the nodes without the first one whose value is equal; `none` if no
  -- value is.
  unfoldable pub remove_nodes : (A → A → Bool) → A → List (Node A) → Option (List (Node A))
  remove_nodes equal v [] = none
  remove_nodes equal v (n ∷ ns) = elim (equal n.value v) [
    | true ↦ some ns
    | false ↦ elim (remove_nodes equal v ns) [ none ↦ none | some rest ↦ some (n ∷ rest) ]
  ]

  -- Remove; the flag is false for its two errors
  unfoldable pub remove : (A → A → Bool) → A → PriorityQueue A → PriorityQueue A × Bool
  unfolding remove_nodes
  remove equal v q = elim (remove_nodes equal v q.nodes) [
    | none ↦ (q, false)
    | some rest ↦ (record { nodes = rest; len = q.len - 1 }, true)
  ]

  -- Clear
  unfoldable pub clear : PriorityQueue A → PriorityQueue A
  clear q = record { nodes = []; len = 0 }
