-- ===== src/Queue/Stands.antt =====
-- The index of service/queue.go as it is stored gives the answers of the model.
use minijob.Prelude.{
  ℕ, ◌≤◌, String, true, ◌≡◌, refl, ap, ◌∙◌, inl, inr, Bool-cases, Option-cases, Option, none, some,
  List, [], ◌∷◌, Map, lookup, insert, delete, lookup-insert, lookup-delete, ◌==◌, one_if, nat_Eq,
  string_Eq, arith,
}
use text.Mathlib.TextEquality.{eq_iff}
use minijob.Prelude.Arrays.{count_by}
use minijob.Job.{Job}
use minijob.Queue.{
  QueueEntry, JobHeap, QueuedJobs, heap_remove, entry_of, put_entry, add, put_heap,
  remove_from_topic, take_entry, remove, or_empty,
}
use minijob.Queue.Order.{count_job}
use minijob.Queue.Index.{IsIndex, SameTopic, heap_of, indexed, indexed_under}
use minijob.Queue.Array.{ArrayHeap, Container, IsContainer}
use minijob.Queue.Refines.{
  Represents, empty-Represents, push_entry-Represents, remove_entry-Represents,
}
use minijob.Queue.Entries.{empty}
use minijob.Queue.Stored.{
  StoredQueue, or_new_heap, keep_heap, add_stored, remove_from_stored, remove_stored,
}

module _ (c : Container) (Valid : List QueueEntry → Type 0) (g : IsContainer c Valid) where
  -- The heaps of a topic.
  abbrev pub SameHeap : Option JobHeap → Option ArrayHeap → Type 0
  SameHeap none none = Unit {0}
  SameHeap (some a) (some h) = Represents c Valid g a h
  SameHeap _ _ = ⊥

  pub record Stands (q : QueuedJobs) (s : StoredQueue) : Type 0 where
    pub known : s.entries ≡ q.entries
    pub all_heap : Represents c Valid g q.all s.all
    pub heaps : (t : String) → SameHeap (lookup t q.by_topic) (lookup t s.by_topic)

  or_empty-Represents :
      (o : Option JobHeap) (p : Option ArrayHeap)
      → SameHeap o p
      → Represents c Valid g (or_empty o) (or_new_heap p)
  or_empty-Represents none none r = empty-Represents c Valid g
  or_empty-Represents (some a) (some h) r = r
  or_empty-Represents none (some h) r = absurd r
  or_empty-Represents (some a) none r = absurd r

  insert-SameHeap :
      (u : String) (a : JobHeap) (h : ArrayHeap) (m : Map String JobHeap) (n : Map String ArrayHeap)
      → Represents c Valid g a h
      → ((t : String) → SameHeap (lookup t m) (lookup t n))
      → (t : String) → SameHeap (lookup t (insert u a m)) (lookup t (insert u h n))
  insert-SameHeap u a h m n r k t = elim (Bool-cases (u == t)) [
    | inl e ↦ rw (lookup-insert u t a m, lookup-insert u t h n, e) r
    | inr e ↦ rw (lookup-insert u t a m, lookup-insert u t h n, e) (k t)
  ]

  delete-SameHeap :
      (u : String) (m : Map String JobHeap) (n : Map String ArrayHeap)
      → ((t : String) → SameHeap (lookup t m) (lookup t n))
      → (t : String) → SameHeap (lookup t (delete u m)) (lookup t (delete u n))
  delete-SameHeap u m n k t = elim (Bool-cases (u == t)) [
    | inl e ↦ rw (lookup-delete u t m, lookup-delete u t n, e) tt
    | inr e ↦ rw (lookup-delete u t m, lookup-delete u t n, e) (k t)
  ]

  pub add-Stands :
      (j : Job) (q : QueuedJobs) (s : StoredQueue)
      → IsIndex q
      → Stands q s
      → Stands (add j q) (add_stored c j s)
  unfolding add add_stored put_entry heap_of
  add-Stands j q s v r = elim (Option-cases (lookup j.id q.entries)) [
    | inr (x, e) ↦
        let f : lookup j.id s.entries ≡ some x = ap (lookup j.id) r.known ∙ e in
        rw (e, f, add, add_stored) r
    | inl e ↦
        let f : lookup j.id s.entries ≡ none = ap (lookup j.id) r.known ∙ e in
        rw (e, f, add, add_stored)
          (record {
            known = ap (insert j.id (entry_of j)) r.known;
            all_heap =
                push_entry-Represents c Valid g (entry_of j) q.all s.all
                  (v.all_count j.id ∙ ap (λ o. one_if (indexed o)) e) r.all_heap;
            heaps =
                insert-SameHeap j.topic _ _ q.by_topic s.by_topic
                  (push_entry-Represents c Valid g (entry_of j)
                    (or_empty (lookup j.topic q.by_topic)) (or_new_heap (lookup j.topic s.by_topic))
                    (v.topic_count j.topic j.id ∙ ap (λ o. one_if (indexed_under j.topic o)) e)
                    (or_empty-Represents (lookup j.topic q.by_topic) (lookup j.topic s.by_topic)
                      (r.heaps j.topic)))
                  r.heaps;
          })
  ]

  keep_heap-nil :
      (t : String) (h : ArrayHeap) (m : Map String ArrayHeap)
      → h.entries ≡ []
      → keep_heap t h m ≡ delete t m
  unfolding keep_heap
  keep_heap-nil t h m e = ground (arith, e)

  keep_heap-cons :
      (t : String) (h : ArrayHeap) (m : Map String ArrayHeap) (xs : List QueueEntry)
      → h.entries ≡ xs
      → 1 ≤ count_by (λ y. true) xs
      → keep_heap t h m ≡ insert t h m
  unfolding keep_heap
  keep_heap-cons t h m [] e l = absurd (omega (arith, l))
  keep_heap-cons t h m (x ∷ xs) e l = ground (arith, e)

  keep_heap-SameHeap :
      (u : String) (a : JobHeap) (h : ArrayHeap) (m : Map String JobHeap) (n : Map String ArrayHeap)
      → Represents c Valid g a h
      → ((t : String) → SameHeap (lookup t m) (lookup t n))
      → (t : String) → SameHeap (lookup t (put_heap u a m)) (lookup t (keep_heap u h n))
  unfolding put_heap
  keep_heap-SameHeap u [] h m n r k t =
      rw (keep_heap-nil u h n (empty h.entries (r.same (λ y. true)))) (delete-SameHeap u m n k t)
  keep_heap-SameHeap u (x ∷ a) h m n r k t =
      rw (keep_heap-cons u h n h.entries refl (omega (arith, r.same (λ y. true))))
        (insert-SameHeap u (x ∷ a) h m n r k t)

  -- The heap of a topic that holds the job, in both.
  heaps_of :
      (id : ℕ) (o : Option JobHeap) (p : Option ArrayHeap)
      → SameHeap o p
      → count_job id (or_empty o) ≡ 1
      → (a : JobHeap) × (h : ArrayHeap) × (o ≡ some a)
        × (p ≡ some h)
        × Represents c Valid g a h
        × (count_job id a ≡ 1)
  heaps_of id none p r one = absurd (omega (arith, one))
  heaps_of id (some a) none r one = absurd r
  heaps_of id (some a) (some h) r one = (a, h, refl, refl, r, one)

  remove_from-SameHeap :
      (u : String) (id : ℕ) (m : Map String JobHeap) (n : Map String ArrayHeap)
      → count_job id (or_empty (lookup u m)) ≡ 1
      → ((t : String) → SameHeap (lookup t m) (lookup t n))
      → (n' : Map String ArrayHeap) × (remove_from_stored c u id n ≡ some n')
        × ((t : String) → SameHeap (lookup t (remove_from_topic u id (lookup u m) m)) (lookup t n'))
  unfolding remove_from_stored remove_from_topic
  remove_from-SameHeap u id m n one k =
      let (a, h, at, bt, r, here) = heaps_of id (lookup u m) (lookup u n) (k u) one in
      let (e, h', taken, _, r') = remove_entry-Represents c Valid g id a h here r in
      (
        keep_heap u h' n,
        ground (arith, bt, taken),
        λ t. rw (at, remove_from_topic) (keep_heap-SameHeap u (heap_remove id a) h' m n r' k t),
      )

  pub remove-Stands :
      (j : Job) (q : QueuedJobs) (s : StoredQueue)
      → SameTopic j (lookup j.id q.entries)
      → IsIndex q
      → Stands q s
      → (s' : StoredQueue) × (remove_stored c j s ≡ some s') × Stands (remove j q) s'
  unfolding remove remove_stored take_entry heap_of
  remove-Stands j q s same v r = elim (Option-cases (lookup j.id q.entries)) [
    | inl e ↦
        let f : lookup j.id s.entries ≡ none = ap (lookup j.id) r.known ∙ e in
        (s, ground (arith, f), rw (e, remove) r)
    | inr (x, e) ↦
        let f : lookup j.id s.entries ≡ some x = ap (lookup j.id) r.known ∙ e in
        let topic : x.topic ≡ j.topic = rw e at same in
        let one = v.all_count j.id ∙ ap (λ o. one_if (indexed o)) e in
        let here =
          v.topic_count j.topic j.id
          ∙ ap (λ o. one_if (indexed_under j.topic o)) e
          ∙ ground (arith, topic, eq_iff x.topic j.topic) in
        let (_, all, taken, _, r') =
          remove_entry-Represents c Valid g j.id q.all s.all one r.all_heap in
        let (n, left, k) = remove_from-SameHeap j.topic j.id q.by_topic s.by_topic here r.heaps in
        (
          record { entries = delete j.id s.entries; all = all; by_topic = n },
          ground (arith, f, taken, left),
          rw (e, remove) (record { known = ap (delete j.id) r.known; all_heap = r'; heaps = k }),
        )
  ]
