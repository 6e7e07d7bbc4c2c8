-- ===== src/Queue/Array.antt =====
-- jobHeap of service/queue.go as it is stored: a slice, and the position of each entry in it. The
-- functions of container/heap are a parameter: they reach the heap only by its methods.
use minijob.Prelude.{
  ℕ, zero, suc, Bool, false, ◌≡◌, Option, none, some, List, [], ◌∷◌, ◌++◌, map, length, get_last?,
  if◌then◌else◌, nat_eq,
}
use minijob.Prelude.Arrays.{get_elem?, set, drop_last, count_by}
use minijob.Queue.{QueueEntry, less}

-- `pos` is pos[which] of the entry of a job: the heap of all topics and those of the topics write
-- different ones.
pub record ArrayHeap : Type 0 where
  pub entries : List QueueEntry
  pub pos : ℕ → ℕ

abbrev pub empty_heap : ArrayHeap
empty_heap = record { entries = []; pos = λ id. 0 }

-- e.pos[h.which] = i
abbrev pub set_pos : ℕ → ℕ → (ℕ → ℕ) → ℕ → ℕ
set_pos id i f k = if nat_eq id k then i else f k

-- Less
unfoldable pub less_at : ℕ → ℕ → ArrayHeap → Bool
less_at a b h = elim (get_elem? h.entries a) [
  | none ↦ false
  | some x ↦ elim (get_elem? h.entries b) [ none ↦ false | some y ↦ less x y ]
]

-- Swap. container/heap gives indices in the slice; others, at which Go panics, change nothing.
unfoldable pub swap : ℕ → ℕ → ArrayHeap → ArrayHeap
swap a b h = elim (get_elem? h.entries a) [
  | none ↦ h
  | some x ↦ elim (get_elem? h.entries b) [
    | none ↦ h
    | some y ↦ record {
      entries = set (set h.entries a y) b x;
      pos = set_pos x.job b (set_pos y.job a h.pos);
    }
  ]
]

-- Push
unfoldable pub push : QueueEntry → ArrayHeap → ArrayHeap
push e h = record { entries = h.entries ++ e ∷ []; pos = set_pos e.job (length h.entries) h.pos }

-- Pop; `none` is the panic at an empty slice.
unfoldable pub pop : ArrayHeap → Option (QueueEntry × ArrayHeap)
pop h = elim (get_last? h.entries) [
  | none ↦ none
  | some e ↦ some (e, record h { entries = drop_last h.entries })
]

unfoldable pub swaps : List (ℕ × ℕ) → ArrayHeap → ArrayHeap
unfolding swap
swaps [] h = h
swaps ((a, b) ∷ rest) h = swaps rest (swap a b h)

-- container/heap: the swaps that Push makes behind the method Push, and those that Pop and Remove
-- make before the method Pop. They hang on the answers of Less, and so on the entries.
pub record Container : Type 0 where
  pub push_swaps : List QueueEntry → List (ℕ × ℕ)
  pub pop_swaps : List QueueEntry → List (ℕ × ℕ)
  pub remove_swaps : ℕ → List QueueEntry → List (ℕ × ℕ)

-- Its documentation, on the slices that it keeps (`Valid`): Pop returns a least entry by Less, and
-- Remove the entry at the index.
pub record IsContainer (c : Container) (Valid : List QueueEntry → Type 0) : Type 0 where
  pub empty_valid : Valid []
  pub push_valid :
      (e : QueueEntry) (h : ArrayHeap)
      → Valid h.entries
      → Valid (swaps (c.push_swaps (push e h).entries) (push e h)).entries
  pub pop_valid :
      (h : ArrayHeap)
      → Valid h.entries
      → Valid (drop_last (swaps (c.pop_swaps h.entries) h).entries)
  pub remove_valid :
      (i : ℕ) (h : ArrayHeap)
      → Valid h.entries
      → Valid (drop_last (swaps (c.remove_swaps i h.entries) h).entries)
  pub pop_least :
      (h : ArrayHeap) (e : QueueEntry)
      → Valid h.entries
      → get_last? (swaps (c.pop_swaps h.entries) h).entries ≡ some e
      → count_by (λ x. less x e) h.entries ≡ 0
  pub remove_found :
      (i : ℕ) (h : ArrayHeap) (e : QueueEntry)
      → Valid h.entries
      → get_elem? h.entries i ≡ some e
      → get_last? (swaps (c.remove_swaps i h.entries) h).entries ≡ some e

module _ (c : Container) where
  -- heap.Push
  unfoldable pub push_entry : QueueEntry → ArrayHeap → ArrayHeap
  unfolding push swaps
  push_entry e h = swaps (c.push_swaps (push e h).entries) (push e h)

  -- heap.Pop
  unfoldable pub pop_entry : ArrayHeap → Option (QueueEntry × ArrayHeap)
  unfolding pop swaps
  pop_entry h = pop (swaps (c.pop_swaps h.entries) h)

  -- heap.Remove(h, e.pos[h.which]) for the entry of a job
  unfoldable pub remove_entry : ℕ → ArrayHeap → Option (QueueEntry × ArrayHeap)
  unfolding pop swaps
  remove_entry id h = pop (swaps (c.remove_swaps (h.pos id) h.entries) h)

  -- The first loop of `first`.
  unfoldable pub pop_entries : ℕ → ArrayHeap → Option (List QueueEntry × ArrayHeap)
  unfolding pop_entry
  pop_entries zero h = some ([], h)
  pop_entries (suc n) h =
      let rest : Option (List QueueEntry × ArrayHeap) = elim (pop_entry h) [
        | none ↦ none
        | some (e, h') ↦ elim (pop_entries n h') [
          | none ↦ none
          | some (es, h'') ↦ some (e ∷ es, h'')
        ]
      ] in
      elim h.entries [ [] ↦ some ([], h) | _ ∷ _ ↦ rest ]

  -- Its second loop.
  unfoldable pub push_entries : List QueueEntry → ArrayHeap → ArrayHeap
  unfolding push_entry
  push_entries [] h = h
  push_entries (e ∷ es) h = push_entries es (push_entry e h)

  -- `first` on the heap of the topic.
  unfoldable pub first_entries : ℕ → ArrayHeap → Option (List ℕ × ArrayHeap)
  unfolding pop_entries push_entries
  first_entries n h = elim (pop_entries n h) [
    | none ↦ none
    | some (es, h') ↦ some (map (λ e. e.job) es, push_entries es h')
  ]
