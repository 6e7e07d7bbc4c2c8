-- ===== src/Queue/Answers.antt =====
-- Any calls of the index of service/queue.go: the stored index answers as the model does.
use minijob.Prelude.{
  ℕ, String, ◌≡◌, ◌⊎◌, refl, sym, ap, ◌∙◌, inl, inr, Bool-cases, Option-cases, Option, none, some,
  List, [], ◌∷◌, Map, lookup, insert, lookup-insert, ◌==◌, if_keeps, nat_eq, nat_eq_iff, nat_Eq,
  string_Eq, arith,
}
use text.Mathlib.TextEquality.{eq_iff}
use minijob.Job.{Job}
use minijob.Queue.{
  QueueEntry, JobHeap, QueuedJobs, new_queued_jobs, entry_of, add, remove, first, or_empty,
}
use minijob.Queue.Order.{IsOrdered}
use minijob.Queue.First.{heap_for, first_lem}
use minijob.Queue.Index.{
  IsIndex, SameTopic, heap_of, new_queued_jobs-IsIndex, add-IsIndex, remove-IsIndex, lookup-add,
  lookup-remove,
}
use minijob.Queue.Array.{ArrayHeap, Container, IsContainer}
use minijob.Queue.Refines.{Represents, empty-Represents, first_entries-Represents}
use minijob.Queue.Stands.{SameHeap, Stands, add-Stands, remove-Stands}
use minijob.Queue.Stored.{
  StoredQueue, new_stored_queue, QueueCall, added, removed, asked, add_stored, first_stored,
  run_stored, run_model,
}

module _ (c : Container) (Valid : List QueueEntry → Type 0) (g : IsContainer c Valid) where
  -- The heap that `first` reads in the stored index.
  asked-SameHeap :
      (u : String) (a : JobHeap) (h : ArrayHeap) (m : Map String JobHeap) (n : Map String ArrayHeap)
      → lookup u m ≡ some a
      → Represents c Valid g a h
      → ((t : String) → SameHeap c Valid g (lookup t m) (lookup t n))
      → (t : String) → SameHeap c Valid g (lookup t m) (lookup t (insert u h n))
  asked-SameHeap u a h m n e r k t = elim (Bool-cases (u == t)) [
    | inl q ↦ rw (lookup-insert u t h n, q, ← (eq_iff u t).0 q, e) r
    | inr q ↦ rw (lookup-insert u t h n, q) (k t)
  ]

  pair :
      (o : Option JobHeap) (p : Option ArrayHeap)
      → SameHeap c Valid g o p
      → ((o ≡ none) × (p ≡ none))
        ⊎ ((a : JobHeap) × (h : ArrayHeap) × (o ≡ some a) × (p ≡ some h) × Represents c Valid g a h)
  pair none none r = inl (refl, refl)
  pair (some a) (some h) r = inr (a, h, refl, refl, r)
  pair none (some h) r = absurd r
  pair (some a) none r = absurd r

  first-Stands :
      (t : String) (n : ℕ) (q : QueuedJobs) (s : StoredQueue)
      → Stands c Valid g q s
      → (s' : StoredQueue) × (first_stored c t n s ≡ some ((first t n q).0, s'))
        × Stands c Valid g q s'
  unfolding first first_stored
  first-Stands t n q s r = elim (Bool-cases (t == "*")) [
    | inl e ↦
        let (h, found, r') = first_entries-Represents c Valid g n q.all s.all r.all_heap in
        (
          record s { all = h },
          rw e (ground (arith, found)),
          record { known = r.known; all_heap = r'; heaps = r.heaps },
        )
    | inr e ↦ elim (pair (lookup t q.by_topic) (lookup t s.by_topic) (r.heaps t)) [
      | inl (gone, gone') ↦ (s, rw (e, gone, gone') refl, r)
      | inr (a, h, at, bt, k) ↦
          let (h', found, k') = first_entries-Represents c Valid g n a h k in
          (
            record s { by_topic = insert t h' s.by_topic },
            rw (e, at, bt) (ground (arith, found)),
            record {
              known = r.known;
              all_heap = r.all_heap;
              heaps = asked-SameHeap t a h' q.by_topic s.by_topic at k' r.heaps;
            },
          )
    ]
  ]

-- The jobs of the calls keep their topics.
abbrev pub AreOf : (ℕ → String) → List QueueCall → Type 0
AreOf topic_of [] = Unit {0}
AreOf topic_of (added j ∷ calls) = (j.topic ≡ topic_of j.id) × AreOf topic_of calls
AreOf topic_of (removed j ∷ calls) = (j.topic ≡ topic_of j.id) × AreOf topic_of calls
AreOf topic_of (asked t n ∷ calls) = AreOf topic_of calls

abbrev HaveTopics : (ℕ → String) → QueuedJobs → Type 0
HaveTopics topic_of q =
    (k : ℕ) (e : QueueEntry) → lookup k q.entries ≡ some e → e.topic ≡ topic_of k

add-HaveTopics :
    (topic_of : ℕ → String) (j : Job) (q : QueuedJobs)
    → j.topic ≡ topic_of j.id
    → HaveTopics topic_of q
    → HaveTopics topic_of (add j q)
unfolding entry_of
add-HaveTopics topic_of j q same h k e at = elim (Bool-cases (nat_eq j.id k)) [
  | inl y ↦ elim (Option-cases (lookup j.id q.entries)) [
    | inl f ↦
        ground (arith, at, lookup-add j q k, y, f, same, ap topic_of ((nat_eq_iff j.id k).0 y))
    | inr (x, f) ↦
        ground
          (arith, h j.id x f, at, lookup-add j q k, y, f, ap topic_of ((nat_eq_iff j.id k).0 y))
  ]
  | inr y ↦ h k e (ground (arith, at, lookup-add j q k, y))
]

remove-HaveTopics :
    (topic_of : ℕ → String) (j : Job) (q : QueuedJobs)
    → HaveTopics topic_of q
    → HaveTopics topic_of (remove j q)
remove-HaveTopics topic_of j q h k e at = h k e (ground (arith, at, lookup-remove j q k))

same_topic :
    (topic_of : ℕ → String) (j : Job) (q : QueuedJobs) (o : Option QueueEntry)
    → lookup j.id q.entries ≡ o
    → j.topic ≡ topic_of j.id
    → HaveTopics topic_of q
    → SameTopic j o
same_topic topic_of j q none e same h = tt
same_topic topic_of j q (some x) e same h = h j.id x e ∙ sym same

heap_for-IsOrdered : (t : String) (q : QueuedJobs) → IsIndex q → IsOrdered (heap_for t q)
unfolding heap_of
heap_for-IsOrdered t q v =
    if_keeps IsOrdered (t == "*") q.all (or_empty (lookup t q.by_topic)) v.all_ordered
      (v.topic_ordered t)

module _ (c : Container) (Valid : List QueueEntry → Type 0) (g : IsContainer c Valid) where
  run_stored-Stands :
      (topic_of : ℕ → String) (calls : List QueueCall) (q : QueuedJobs) (s : StoredQueue)
      → AreOf topic_of calls
      → HaveTopics topic_of q
      → IsIndex q
      → Stands c Valid g q s
      → (s' : StoredQueue) × (run_stored c calls s ≡ some (run_model calls q, s'))
  unfolding run_stored run_model
  run_stored-Stands topic_of [] q s a h v r = (s, refl)
  run_stored-Stands topic_of (added j ∷ calls) q s (same, a) h v r =
      run_stored-Stands topic_of calls (add j q) (add_stored c j s) a
        (add-HaveTopics topic_of j q same h) (add-IsIndex j q v) (add-Stands c Valid g j q s v r)
  run_stored-Stands topic_of (removed j ∷ calls) q s (same, a) h v r =
      let t = same_topic topic_of j q (lookup j.id q.entries) refl same h in
      let (s', e, r') = remove-Stands c Valid g j q s t v r in
      let (s'', f) =
        run_stored-Stands topic_of calls (remove j q) s' a (remove-HaveTopics topic_of j q h)
          (remove-IsIndex j q t v) r' in
      (s'', ground (arith, e, f))
  run_stored-Stands topic_of (asked t n ∷ calls) q s a h v r =
      let (s', e, r') = first-Stands c Valid g t n q s r in
      let (s'', f) = run_stored-Stands topic_of calls q s' a h v r' in
      let back : (first t n q).1 ≡ q =
        ap (λ (x : List ℕ × QueuedJobs). x.1) (first_lem t n q (heap_for-IsOrdered t q v)) in
      (s'', ground (arith, e, f, back))

  -- For every sequence of calls of a new index in which each job keeps its topic: if container/heap does
  -- what its documentation says, then the index with its slices and positions makes no call that panics,
  -- and `first` answers each time as in the model, where a heap is the list of its entries in pull
  -- order.
  pub run_stored_lem :
      (topic_of : ℕ → String) (calls : List QueueCall)
      → AreOf topic_of calls
      → (s : StoredQueue) × (run_stored c calls new_stored_queue
          ≡ some (run_model calls new_queued_jobs, s))
  unfolding new_queued_jobs lookup
  run_stored_lem topic_of calls a =
      run_stored-Stands topic_of calls new_queued_jobs new_stored_queue a (λ k e p. cc)
        new_queued_jobs-IsIndex
        (record { known = refl; all_heap = empty-Represents c Valid g; heaps = λ t. tt })
