-- ===== src/Queue/Entries.antt =====
-- Counts of the entries of a heap of service/queue.go, and its first entry.
use minijob.Prelude.{
  ℕ, zero, suc, ◌+◌, ◌≤◌, Bool, true, ◌&&◌, not, ◌≡◌, ◌≢◌, refl, none, some, List, [], ◌∷◌, ◌++◌,
  get_last?, one_if, nat_eq, ◌==◌, string_Eq, arith,
}
use text.Mathlib.TextEquality.{eq_iff}
use minijob.Prelude.Int64.{eq_ℤ}
use minijob.Prelude.Arrays.{get_elem?, count_by, count_by-found}
use minijob.Queue.{QueueEntry, less, JobHeap, heap_push, heap_remove}
use minijob.Queue.Order.{IsFirst, IsOrdered, count_job}
use minijob.Queue.Positions.{of_job}

pub same_entry : QueueEntry → QueueEntry → Bool
same_entry a b =
    nat_eq a.job b.job
    && a.topic == b.topic
    && eq_ℤ a.priority b.priority
    && eq_ℤ a.created b.created

pub same_entry_self : (a : QueueEntry) → same_entry a a ≡ true
unfolding same_entry
same_entry_self a = ground (arith, eq_iff a.topic a.topic)

same_entry-eq : (a b : QueueEntry) → same_entry a b ≡ true → a ≡ b
unfolding same_entry
same_entry-eq a b h = ground (arith, eq_iff a.topic b.topic, h)

pub count_by-heap_push :
    (p : QueueEntry → Bool) (e : QueueEntry) (a : JobHeap)
    → count_by p (heap_push e a) ≡ one_if (p e) + count_by p a
unfolding heap_push
count_by-heap_push p e [] = refl
count_by-heap_push p e (x ∷ a) = ground (arith, count_by-heap_push p e a)

pub empty : (xs : List QueueEntry) → count_by (λ y. true) xs ≡ 0 → xs ≡ []
empty [] e = refl
empty (x ∷ xs) e = absurd (omega (arith, e))

pub count_job-append :
    (k : ℕ) (xs ys : JobHeap) → count_job k (xs ++ ys) ≡ count_job k xs + count_job k ys
count_job-append k [] ys = omega arith
count_job-append k (x ∷ xs) ys = omega (arith, count_job-append k xs ys)

get_last?-cons : (x : QueueEntry) (xs : List QueueEntry) → get_last? (x ∷ xs) ≢ none
get_last?-cons x [] e = cc
get_last?-cons x (y ∷ xs) e = get_last?-cons y xs e

pub count_by-empty :
    (p : QueueEntry → Bool) (xs : List QueueEntry) → get_last? xs ≡ none → count_by p xs ≡ 0
count_by-empty p [] e = refl
count_by-empty p (x ∷ xs) e = absurd (get_last?-cons x xs e)

abbrev pub besides : (QueueEntry → Bool) → ℕ → QueueEntry → Bool
besides p k e = p e && not (of_job k e)

pub count_by-heap_remove :
    (p : QueueEntry → Bool) (k : ℕ) (a : JobHeap)
    → count_by p (heap_remove k a) ≡ count_by (besides p k) a
unfolding heap_remove
count_by-heap_remove p k [] = refl
count_by-heap_remove p k (x ∷ a) = ground (arith, count_by-heap_remove p k a)

pub count_by-besides :
    (p : QueueEntry → Bool) (k : ℕ) (xs : List QueueEntry)
    → count_by (of_job k) xs ≡ 0
    → count_by (besides p k) xs ≡ count_by p xs
count_by-besides p k [] h = refl
count_by-besides p k (x ∷ xs) h = ground (arith, h, count_by-besides p k xs)

IsFirst-get_elem? :
    (x y : QueueEntry) (a : JobHeap) (i : ℕ)
    → IsFirst x a
    → get_elem? a i ≡ some y
    → less x y ≡ true
IsFirst-get_elem? x y [] i f e = cc
IsFirst-get_elem? x y (z ∷ a) zero (f, _) e = ground (arith, f, e)
IsFirst-get_elem? x y (z ∷ a) (suc i) (_, f) e = IsFirst-get_elem? x y a i f e

-- The entry of an ordered heap that none is served before is its first one.
pub least-first :
    (x e : QueueEntry) (a : JobHeap)
    → IsOrdered (x ∷ a)
    → 1 ≤ count_by (same_entry e) (x ∷ a)
    → count_by (λ y. less y e) (x ∷ a) ≡ 0
    → x ≡ e
least-first x e a (first, _) there least =
    let (i, y, at, same) = count_by-found (same_entry e) (x ∷ a) there in
    let is : e ≡ y = same_entry-eq e y same in first_at i y at is
  where
    first_at : (i : ℕ) (y : QueueEntry) → get_elem? (x ∷ a) i ≡ some y → e ≡ y → x ≡ e
    first_at zero y at is = ground (arith, at, is)
    first_at (suc i) y at is =
        absurd (ground (arith, IsFirst-get_elem? x y a i first at, is, least))
