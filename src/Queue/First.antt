-- ===== src/Queue/First.antt =====
-- `first` serves the best jobs of a topic and leaves the index as it was (service/queue.go).
use minijob.Prelude.{
  ℕ, zero, suc, String, true, ◌≡◌, refl, sym, ap, ◌∙◌, inl, inr, Bool-cases, Option-cases, some, [],
  ◌∷◌, ◌++◌, map, Map, lookup, insert, ◌==◌, if◌then◌else◌, arith, string_Eq,
}
use text.Mathlib.TextEquality.{eq_iff}
use mathlib.Core.List.{append_assoc}
use minijob.Queue.{
  QueueEntry, less, JobHeap, QueuedJobs, heap_push, pop_up_to, push_all, first_of_heap, first,
  or_empty,
}
use minijob.Queue.Order.{IsFirst, IsOrdered, heap_push_first}

-- The first n entries.
abbrev pub take : ℕ → JobHeap → JobHeap
take zero h = []
take (suc n) [] = []
take (suc n) (e ∷ h) = e ∷ take n h

take-nil : (n : ℕ) → take n [] ≡ []
take-nil zero = refl
take-nil (suc n) = refl

popped-take : (n : ℕ) (h : JobHeap) → (pop_up_to n h).0 ≡ take n h
unfolding pop_up_to
popped-take zero h = refl
popped-take (suc n) [] = refl
popped-take (suc n) (e ∷ h) = ap (◌∷◌ e) (popped-take n h)

IsFirst-middle :
    (x e : QueueEntry) (front rest : JobHeap) → IsFirst x (front ++ (e ∷ rest)) → less x e ≡ true
IsFirst-middle x e [] rest f = f.0
IsFirst-middle x e (y ∷ front) rest f = IsFirst-middle x e front rest f.1

-- A push behind entries that are all served before it.
heap_push-behind :
    (e : QueueEntry) (front rest : JobHeap)
    → IsOrdered (front ++ (e ∷ rest))
    → heap_push e (front ++ rest) ≡ front ++ (e ∷ rest)
unfolding heap_push
heap_push-behind e [] rest o = heap_push_first e rest o.0
heap_push-behind e (x ∷ front) rest o =
    rw (IsFirst-middle x e front rest o.0) (ap (◌∷◌ x) (heap_push-behind e front rest o.1))

IsFirst-without :
    (x : QueueEntry) (front es rest : JobHeap)
    → IsFirst x (front ++ (es ++ rest))
    → IsFirst x (front ++ rest)
IsFirst-without x [] [] rest f = f
IsFirst-without x [] (e ∷ es) rest f = IsFirst-without x [] es rest f.1
IsFirst-without x (y ∷ front) es rest f = (f.0, IsFirst-without x front es rest f.1)

IsOrdered-without :
    (front es rest : JobHeap) → IsOrdered (front ++ (es ++ rest)) → IsOrdered (front ++ rest)
IsOrdered-without [] [] rest o = o
IsOrdered-without [] (e ∷ es) rest o = IsOrdered-without [] es rest o.1
IsOrdered-without (x ∷ front) es rest o =
    (IsFirst-without x front es rest o.0, IsOrdered-without front es rest o.1)

push_all-behind :
    (es front rest : JobHeap)
    → IsOrdered (front ++ (es ++ rest))
    → push_all es (front ++ rest) ≡ front ++ (es ++ rest)
unfolding push_all
push_all-behind [] front rest o = refl
push_all-behind (e ∷ es) front rest o =
    let regroup = λ (tail : JobHeap). append_assoc front (e ∷ []) tail in
    let step : (front ++ (e ∷ [])) ++ (es ++ rest) ≡ front ++ (e ∷ (es ++ rest)) =
      regroup (es ++ rest) in
    let all : IsOrdered ((front ++ (e ∷ [])) ++ (es ++ rest)) = rw step o in
    let placed : heap_push e (front ++ rest) ≡ front ++ (e ∷ rest) =
      heap_push-behind e front rest
        (rw (← regroup rest) (IsOrdered-without (front ++ (e ∷ [])) es rest all)) in
    ap (push_all es) (placed ∙ sym (regroup rest))
    ∙ push_all-behind es (front ++ (e ∷ [])) rest all
    ∙ step

pub pop_up_to-append : (n : ℕ) (h : JobHeap) → (pop_up_to n h).0 ++ (pop_up_to n h).1 ≡ h
unfolding pop_up_to
pop_up_to-append zero h = refl
pop_up_to-append (suc n) [] = refl
pop_up_to-append (suc n) (e ∷ h) = ap (◌∷◌ e) (pop_up_to-append n h)

pub first_of_heap_lem :
    (n : ℕ) (h : JobHeap) → IsOrdered h → first_of_heap n h ≡ (map (λ e. e.job) (take n h), h)
unfolding first_of_heap
first_of_heap_lem n h o =
    let whole : IsOrdered ((pop_up_to n h).0 ++ (pop_up_to n h).1) = rw (pop_up_to-append n h) o in
    ground (
      arith,
      popped-take n h,
      push_all-behind (pop_up_to n h).0 [] (pop_up_to n h).1 whole,
      pop_up_to-append n h,
    )

insert-lookup :
    (t : String) (h : JobHeap) (m : Map String JobHeap) → lookup t m ≡ some h → insert t h m ≡ m
unfolding lookup insert
insert-lookup t h [] e = cc
insert-lookup t h ((s, g) ∷ m) e = ground (arith, eq_iff s t, insert-lookup t h m)

-- The heap that a pull of the topic reads: "*" stands for all topics.
abbrev pub heap_for : String → QueuedJobs → JobHeap
heap_for topic q = if topic == "*" then q.all else or_empty (lookup topic q.by_topic)

-- In an index whose heaps are in pull order, `first` returns the first n jobs of the topic's heap,
-- and puts the index back exactly as it was: a job stays queued until it is started.
pub first_lem :
    (topic : String) (n : ℕ) (q : QueuedJobs)
    → IsOrdered (heap_for topic q)
    → first topic n q ≡ (map (λ e. e.job) (take n (heap_for topic q)), q)
unfolding first
first_lem topic n q o = elim (Bool-cases (topic == "*")) [
  | inl e ↦ let ordered : IsOrdered q.all = rw e at o in rw (e, first_of_heap_lem n q.all ordered)
  | inr e ↦ elim (Option-cases (lookup topic q.by_topic)) [
    | inl f ↦ rw (e, f, take-nil n)
    | inr (h, f) ↦
        let ordered : IsOrdered h = rw (e, f) at o in
        rw (e, f, first_of_heap_lem n h ordered, insert-lookup topic h q.by_topic f)
  ]
]
