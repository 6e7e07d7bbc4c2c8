-- ===== src/Examples/Heaps.antt =====
-- A container/heap that looks for the least entry, and a run of the stored index.
use minijob.Prelude.{
  ℕ, suc, ◌-◌, true, false, zero, ◌≡◌, refl, ap, inl, inr, Bool-cases, Option, none, some, List, [],
  ◌∷◌, length, get_last?, one_if, if◌then◌else◌, arith,
}
use minijob.Prelude.Arrays.{get_elem?, set, count_by}
use mathlib.Core.Path.{subst}
use minijob.Job.{Job}
use minijob.Queue.{QueueEntry, less, new_queued_jobs}
use minijob.Queue.Order.{less_trans}
use minijob.Queue.Array.{swap, swaps, Container, IsContainer}
use minijob.Queue.Stored.{
  QueueCall, added, removed, asked, new_stored_queue, StoredQueue, run_stored, run_model,
}
use minijob.Queue.Answers.{run_stored_lem}
use minijob.Examples.{job_a}

pick : QueueEntry → ℕ → Option QueueEntry → ℕ
pick x i none = 0
pick x i (some y) = if less x y then 0 else suc i

-- The index of a least entry.
least_index : List QueueEntry → ℕ
unfolding pick
least_index [] = 0
least_index (x ∷ xs) = let i = least_index xs in pick x i (get_elem? xs i)

less_self : (x : QueueEntry) → less x x ≡ false
unfolding less
less_self x = ground arith

less-count :
    (x y : QueueEntry) (zs : List QueueEntry)
    → less x y ≡ true
    → count_by (λ z. less z y) zs ≡ 0
    → count_by (λ z. less z x) zs ≡ 0
less-count x y [] l e = refl
less-count x y (z ∷ zs) l e = elim (Bool-cases (less z x)) [
  | inl q ↦ absurd (ground (arith, less_trans z x y q l, e))
  | inr q ↦ ground (arith, q, less-count x y zs l, e)
]

least_index-found :
    (x : QueueEntry) (xs : List QueueEntry)
    → (w : QueueEntry) × (get_elem? (x ∷ xs) (least_index (x ∷ xs)) ≡ some w)
unfolding least_index pick
least_index-found x [] = (x, refl)
least_index-found x (y ∷ ys) =
    let (w, f) = least_index-found y ys in
    elim (Bool-cases (less x w)) [
      | inl l ↦ (x, ground (arith, f, l))
      | inr l ↦ (w, ground (arith, f, l))
    ]

least_index-least :
    (xs : List QueueEntry) (y : QueueEntry)
    → get_elem? xs (least_index xs) ≡ some y
    → count_by (λ z. less z y) xs ≡ 0
unfolding least_index pick
least_index-least [] y e = cc
least_index-least (x ∷ []) y e = ground (arith, e, less_self x)
least_index-least (x ∷ v ∷ vs) y e =
    let (w, f) = least_index-found v vs in
    let rest = least_index-least (v ∷ vs) w f in
    elim (Bool-cases (less x w)) [
      | inl l ↦
          let here : x ≡ y = ground (arith, e, f, l) in
          subst (λ y. count_by (λ z. less z y) (x ∷ v ∷ vs) ≡ 0) here
            (omega (arith, ap one_if (less_self x), less-count x w (v ∷ vs) l rest))
      | inr l ↦
          let there : w ≡ y = ground (arith, e, f, l) in
          subst (λ y. count_by (λ z. less z y) (x ∷ v ∷ vs) ≡ 0) there
            (omega (arith, ap one_if l, rest))
    ]

get_last?-set :
    (x : QueueEntry) (xs : List QueueEntry) (v : QueueEntry)
    → get_last? (set (x ∷ xs) (length xs) v) ≡ some v
get_last?-set x [] v = refl
get_last?-set x (y ∷ []) v = refl
get_last?-set x (y ∷ z ∷ zs) v = get_last?-set y (z ∷ zs) v

get_elem?-last :
    (x : QueueEntry) (xs : List QueueEntry)
    → (y : QueueEntry) × (get_elem? (x ∷ xs) (length xs) ≡ some y)
get_elem?-last x [] = (x, refl)
get_elem?-last x (y ∷ ys) = get_elem?-last y ys

length-set : (xs : List QueueEntry) (i : ℕ) (v : QueueEntry) → length (set xs i v) ≡ length xs
length-set [] i v = refl
length-set (x ∷ xs) zero v = refl
length-set (x ∷ xs) (suc i) v = ap suc (length-set xs i v)

pred_suc : (n : ℕ) → suc n - 1 ≡ n
pred_suc n = omega arith

-- The entry that is written last stands last.
last-set :
    (x : QueueEntry) (xs : List QueueEntry) (i : ℕ) (y v : QueueEntry)
    → get_last? (set (set (x ∷ xs) i y) (length (x ∷ xs) - 1) v) ≡ some v
last-set x xs zero y v = rw (pred_suc (length xs)) (get_last?-set y xs v)
last-set x xs (suc i) y v =
    rw (pred_suc (length xs), ← length-set xs i y) (get_last?-set x (set xs i y) v)

-- To bring an entry to the end.
abbrev to_end : ℕ → List QueueEntry → List (ℕ × ℕ)
to_end i xs = (i, length xs - 1) ∷ []

moved-last :
    (i : ℕ) (x : QueueEntry) (xs : List QueueEntry) (pos : ℕ → ℕ) (e : QueueEntry)
    → get_elem? (x ∷ xs) i ≡ some e
    → get_last? (swap i (length (x ∷ xs) - 1) (record { entries = x ∷ xs; pos = pos })).entries
      ≡ some e
unfolding swap
moved-last i x xs pos e q =
    let (y, r) = get_elem?-last x xs in
    let r' : get_elem? (x ∷ xs) (length (x ∷ xs) - 1) ≡ some y = rw (pred_suc (length xs)) r in
    ground (arith, q, r', last-set x xs i y e)

to_end-last :
    (i : ℕ) (xs : List QueueEntry) (pos : ℕ → ℕ) (e : QueueEntry)
    → get_elem? xs i ≡ some e
    → get_last? (swaps (to_end i xs) (record { entries = xs; pos = pos })).entries ≡ some e
unfolding swaps
to_end-last i [] pos e q = cc
to_end-last i (x ∷ xs) pos e q = moved-last i x xs pos e q

popped-least :
    (xs : List QueueEntry) (pos : ℕ → ℕ) (e : QueueEntry)
    → get_last? (swaps (to_end (least_index xs) xs) (record { entries = xs; pos = pos })).entries
      ≡ some e
    → count_by (λ x. less x e) xs ≡ 0
unfolding swaps swap
popped-least [] pos e q = cc
popped-least (x ∷ xs) pos e q =
    let (w, f) = least_index-found x xs in
    let same : w ≡ e = ground (arith, q, moved-last (least_index (x ∷ xs)) x xs pos w f) in
    subst (λ y. count_by (λ z. less z y) (x ∷ xs) ≡ 0) same (least_index-least (x ∷ xs) w f)

abbrev container_a : Container
container_a = record {
  push_swaps = λ es. [];
  pop_swaps = λ es. to_end (least_index es) es;
  remove_swaps = to_end;
}

container_a-IsContainer : IsContainer container_a (λ es. Unit {0})
container_a-IsContainer = record {
  empty_valid = tt;
  push_valid = λ e h v. tt;
  pop_valid = λ h v. tt;
  remove_valid = λ i h v. tt;
  pop_least = λ h e v q. popped-least h.entries h.pos e q;
  remove_found = λ i h e v q. to_end-last i h.entries h.pos e q;
}

abbrev numbered : ℕ → Job
numbered id = record job_a { id = id }

abbrev calls_a : List QueueCall
calls_a =
    added (numbered 2)
    ∷ added (numbered 1)
    ∷ asked "*" 2
    ∷ removed (numbered 1)
    ∷ asked job_a.topic 1
    ∷ []

run_stored_lem_example :
    (s : StoredQueue) × (run_stored container_a calls_a new_stored_queue
      ≡ some (run_model calls_a new_queued_jobs, s))
run_stored_lem_example =
    run_stored_lem container_a (λ es. Unit {0}) container_a-IsContainer (λ id. job_a.topic) calls_a
      (refl, (refl, (refl, tt)))
