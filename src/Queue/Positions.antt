-- ===== src/Queue/Positions.antt =====
-- The slices of jobHeap hold the entries of the heaps of the model, each at its position
-- (service/queue.go).
use minijob.Prelude.{
  ℕ, Bool, ◌≡◌, refl, ◌∙◌, inl, inr, Option-cases, some, List, [], ◌∷◌, length, nat_eq, nat_eq_iff,
  arith,
}
use minijob.Prelude.Arrays.{
  get_elem?, set, drop_last, count_by, get_elem?-set, count_by-set, get_elem?-append,
  get_elem?-drop_last, count_by-get_elem?,
}
use minijob.Queue.{QueueEntry, JobHeap}
use minijob.Queue.Order.{count_job}
use minijob.Queue.Array.{ArrayHeap, set_pos, swap, push, swaps}

-- Each entry stands at the position that it keeps.
abbrev pub HasPositions : ArrayHeap → Type 0
HasPositions h = (i : ℕ) (e : QueueEntry) → get_elem? h.entries i ≡ some e → h.pos e.job ≡ i

-- The same entries, as often.
abbrev pub SameEntries : List QueueEntry → List QueueEntry → Type 0
SameEntries xs ys = (p : QueueEntry → Bool) → count_by p xs ≡ count_by p ys

abbrev pub of_job : ℕ → QueueEntry → Bool
of_job k e = nat_eq e.job k

pub count_by-count_job : (k : ℕ) (h : JobHeap) → count_by (of_job k) h ≡ count_job k h
count_by-count_job k [] = refl
count_by-count_job k (e ∷ h) = omega (arith, count_by-count_job k h)

module _ (a b : ℕ) (x y : QueueEntry) (h : ArrayHeap) (at_a : get_elem? h.entries a ≡ some x)
    (at_b : get_elem? h.entries b ≡ some y) where
  still_there : get_elem? (set h.entries a y) b ≡ some y
  still_there = ground (arith, get_elem?-set h.entries a b y x at_a, at_b)

  swapped-HasPositions :
      HasPositions h
      → (i : ℕ) (e : QueueEntry) → get_elem? (set (set h.entries a y) b x) i ≡ some e
      → set_pos x.job b (set_pos y.job a h.pos) e.job ≡ i
  swapped-HasPositions p i e q = ground (
    arith,
    q,
    get_elem?-set (set h.entries a y) b i x y still_there,
    get_elem?-set h.entries a i y x at_a,
    at_a,
    at_b,
    p i e,
    p a x at_a,
    p b y at_b,
    nat_eq_iff b i,
    nat_eq_iff a i,
    nat_eq_iff x.job e.job,
    nat_eq_iff y.job e.job,
  )

  swapped-SameEntries : SameEntries (set (set h.entries a y) b x) h.entries
  swapped-SameEntries p = omega (
    arith,
    count_by-set p h.entries a y x at_a,
    count_by-set p (set h.entries a y) b x y still_there,
  )

swap-HasPositions : (a b : ℕ) (h : ArrayHeap) → HasPositions h → HasPositions (swap a b h)
unfolding swap
swap-HasPositions a b h p = elim (Option-cases (get_elem? h.entries a)) [
  | inl q ↦ rw (q, swap) p
  | inr (x, q) ↦ elim (Option-cases (get_elem? h.entries b)) [
    | inl r ↦ rw (q, r, swap) p
    | inr (y, r) ↦ rw (q, r, swap) (swapped-HasPositions a b x y h q r p)
  ]
]

swap-SameEntries : (a b : ℕ) (h : ArrayHeap) → SameEntries (swap a b h).entries h.entries
unfolding swap
swap-SameEntries a b h p = elim (Option-cases (get_elem? h.entries a)) [
  | inl q ↦ rw (q, swap) refl
  | inr (x, q) ↦ elim (Option-cases (get_elem? h.entries b)) [
    | inl r ↦ rw (q, r, swap) refl
    | inr (y, r) ↦ rw (q, r, swap) (swapped-SameEntries a b x y h q r p)
  ]
]

-- Whatever swaps container/heap makes, the positions stay right and the entries the same.
pub swaps-HasPositions :
    (s : List (ℕ × ℕ)) (h : ArrayHeap) → HasPositions h → HasPositions (swaps s h)
unfolding swaps
swaps-HasPositions [] h p = p
swaps-HasPositions ((a, b) ∷ s) h p = swaps-HasPositions s (swap a b h) (swap-HasPositions a b h p)

pub swaps-SameEntries :
    (s : List (ℕ × ℕ)) (h : ArrayHeap) → SameEntries (swaps s h).entries h.entries
unfolding swaps
swaps-SameEntries [] h p = refl
swaps-SameEntries ((a, b) ∷ s) h p = swaps-SameEntries s (swap a b h) p ∙ swap-SameEntries a b h p

-- A new entry is not among those that stand in the heap.
pub push-HasPositions :
    (e : QueueEntry) (h : ArrayHeap)
    → count_by (of_job e.job) h.entries ≡ 0
    → HasPositions h
    → HasPositions (push e h)
unfolding push
push-HasPositions e h n p i d q = ground (
  arith,
  q,
  get_elem?-append h.entries e i,
  p i d,
  nat_eq_iff e.job d.job,
  nat_eq_iff (length h.entries) i,
  count_by-get_elem? (of_job e.job) h.entries i d,
)

pub drop_last-HasPositions :
    (h : ArrayHeap) → HasPositions h → HasPositions (record h { entries = drop_last h.entries })
drop_last-HasPositions h p i e q = p i e (get_elem?-drop_last h.entries i e q)
