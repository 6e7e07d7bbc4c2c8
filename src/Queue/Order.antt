-- ===== src/Queue/Order.antt =====
-- The pull order is a strict total order on the entries of different jobs, and the operations keep
-- the heaps listed in it (service/queue.go).
use minijob.Prelude.{
  ℕ, ◌+◌, ◌<◌, ◌⊎◌, ◌≢◌, true, false, ◌≡◌, refl, inl, inr, Bool-cases, [], ◌∷◌, nat_eq,
  if◌then◌else◌, arith, one_if,
}
use minijob.Prelude.Int64.{pos_part, neg_part}
use minijob.Queue.{QueueEntry, less, JobHeap, heap_push, heap_remove}

-- `a` is served before `b`: in numbers, for `omega`.
abbrev pub Before : QueueEntry → QueueEntry → Type 0
Before a b =
    (pos_part b.priority + neg_part a.priority < pos_part a.priority + neg_part b.priority)
    ⊎ ((pos_part b.priority + neg_part a.priority ≡ pos_part a.priority + neg_part b.priority)
        × ((pos_part a.created + neg_part b.created < pos_part b.created + neg_part a.created)
            ⊎ ((pos_part a.created + neg_part b.created ≡ pos_part b.created + neg_part a.created)
                × (a.job < b.job))))

pub less-Before : (a b : QueueEntry) → less a b ≡ true → Before a b
unfolding less
less-Before a b h = ground arith

pub less_of_Before : (a b : QueueEntry) → Before a b → less a b ≡ true
unfolding less
less_of_Before a b h = ground arith

Before-trans : (a b c : QueueEntry) → Before a b → Before b c → Before a c
Before-trans a b c h k = omega arith

pub less_trans : (a b c : QueueEntry) → less a b ≡ true → less b c ≡ true → less a c ≡ true
less_trans a b c h k =
    less_of_Before a c (Before-trans a b c (less-Before a b h) (less-Before b c k))

-- Of two entries of different jobs, one is served before the other.
pub less_total : (a b : QueueEntry) → a.job ≢ b.job → less b a ≡ false → less a b ≡ true
unfolding less
less_total a b h k = ground arith

-- `e` is served before all that stand in the heap.
abbrev pub IsFirst : QueueEntry → JobHeap → Type 0
IsFirst e [] = Unit {0}
IsFirst e (x ∷ h) = (less e x ≡ true) × IsFirst e h

abbrev pub IsOrdered : JobHeap → Type 0
IsOrdered [] = Unit {0}
IsOrdered (e ∷ h) = IsFirst e h × IsOrdered h

-- How many entries of the heap belong to the job.
abbrev pub count_job : ℕ → JobHeap → ℕ
count_job k [] = 0
count_job k (e ∷ h) = one_if (nat_eq e.job k) + count_job k h

IsFirst-trans : (a b : QueueEntry) (h : JobHeap) → less a b ≡ true → IsFirst b h → IsFirst a h
IsFirst-trans a b [] l f = tt
IsFirst-trans a b (x ∷ h) l f = (less_trans a b x l f.0, IsFirst-trans a b h l f.1)

IsFirst-heap_push :
    (e a : QueueEntry) (h : JobHeap) → less e a ≡ true → IsFirst e h → IsFirst e (heap_push a h)
unfolding heap_push
IsFirst-heap_push e a [] l f = (l, tt)
IsFirst-heap_push e a (x ∷ h) l f = elim (Bool-cases (less x a)) [
  | inl p ↦ rw p (f.0, IsFirst-heap_push e a h l f.1)
  | inr p ↦ rw p (l, f)
]

pub heap_push-IsOrdered :
    (a : QueueEntry) (h : JobHeap) → count_job a.job h ≡ 0 → IsOrdered h → IsOrdered (heap_push a h)
unfolding heap_push
heap_push-IsOrdered a [] c o = (tt, tt)
heap_push-IsOrdered a (x ∷ h) c o = elim (Bool-cases (less x a)) [
  | inl p ↦ rw p (IsFirst-heap_push x a h p o.0, heap_push-IsOrdered a h (omega arith) o.1)
  | inr p ↦
      let l : less a x ≡ true = less_total a x (ground arith) p in
      rw p ((l, IsFirst-trans a x h l o.0), o)
]

IsFirst-heap_remove :
    (e : QueueEntry) (k : ℕ) (h : JobHeap) → IsFirst e h → IsFirst e (heap_remove k h)
unfolding heap_remove
IsFirst-heap_remove e k [] f = tt
IsFirst-heap_remove e k (x ∷ h) f = elim (Bool-cases (nat_eq x.job k)) [
  | inl p ↦ rw p (IsFirst-heap_remove e k h f.1)
  | inr p ↦ rw p (f.0, IsFirst-heap_remove e k h f.1)
]

pub heap_remove-IsOrdered : (k : ℕ) (h : JobHeap) → IsOrdered h → IsOrdered (heap_remove k h)
unfolding heap_remove
heap_remove-IsOrdered k [] o = tt
heap_remove-IsOrdered k (x ∷ h) o = elim (Bool-cases (nat_eq x.job k)) [
  | inl p ↦ rw p (heap_remove-IsOrdered k h o.1)
  | inr p ↦ rw p (IsFirst-heap_remove x k h o.0, heap_remove-IsOrdered k h o.1)
]

pub count_job-heap_push :
    (k : ℕ) (a : QueueEntry) (h : JobHeap)
    → count_job k (heap_push a h) ≡ one_if (nat_eq a.job k) + count_job k h
unfolding heap_push
count_job-heap_push k a [] = refl
count_job-heap_push k a (x ∷ h) = ground (arith, count_job-heap_push k a h)

pub count_job-heap_remove :
    (k id : ℕ) (h : JobHeap)
    → count_job k (heap_remove id h) ≡ (if nat_eq id k then 0 else count_job k h)
unfolding heap_remove
count_job-heap_remove k id [] = ground arith
count_job-heap_remove k id (x ∷ h) = ground (arith, count_job-heap_remove k id h)

less_asymm : (a b : QueueEntry) → less a b ≡ true → less b a ≡ false
unfolding less
less_asymm a b h = ground arith

-- An entry that is before all of a heap goes to its head.
pub heap_push_first : (a : QueueEntry) (h : JobHeap) → IsFirst a h → heap_push a h ≡ a ∷ h
unfolding heap_push
heap_push_first a [] f = refl
heap_push_first a (x ∷ h) f = rw (less_asymm a x f.0)
