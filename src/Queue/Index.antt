-- ===== src/Queue/Index.antt =====
-- The index of the queued jobs: its heaps hold exactly its entries (service/queue.go).
use text.Mathlib.TextEquality.{eq_iff}
use minijob.Prelude.{
  ℕ, String, Bool, true, false, ◌≡◌, ◌≢◌, refl, inl, inr, Bool-cases, Option-cases, Option, none,
  some, [], ◌∷◌, Map, lookup, lookup-insert, lookup-delete, ◌==◌, if◌then◌else◌, arith, one_if,
  nat_eq, nat_eq_iff, nat_Eq, string_Eq,
}
use minijob.Job.{Job}
use minijob.Queue.{
  QueueEntry, JobHeap, QueuedJobs, new_queued_jobs, heap_push, heap_remove, entry_of, put_entry,
  take_entry, add, remove, or_empty, put_heap, remove_from_topic,
}
use minijob.Queue.Order.{
  IsOrdered, count_job, heap_push-IsOrdered, heap_remove-IsOrdered, count_job-heap_push,
  count_job-heap_remove,
}

-- The job is in the index.
abbrev pub indexed : Option QueueEntry → Bool
indexed none = false
indexed (some e) = true

-- The job is in the index under the topic.
abbrev pub indexed_under : String → Option QueueEntry → Bool
indexed_under t none = false
indexed_under t (some e) = e.topic == t

abbrev pub HasKey : ℕ → Option QueueEntry → Type 0
HasKey k none = Unit {0}
HasKey k (some e) = e.job ≡ k

unfoldable pub heap_of : String → QueuedJobs → JobHeap
heap_of t q = or_empty (lookup t q.by_topic)

pub record IsIndex (q : QueuedJobs) : Type 0 where
  pub keyed : (k : ℕ) → HasKey k (lookup k q.entries)
  pub all_count : (k : ℕ) → count_job k q.all ≡ one_if (indexed (lookup k q.entries))
  pub topic_count :
      (t : String) (k : ℕ)
      → count_job k (heap_of t q) ≡ one_if (indexed_under t (lookup k q.entries))
  pub all_ordered : IsOrdered q.all
  pub topic_ordered : (t : String) → IsOrdered (heap_of t q)
  pub no_empty : (t : String) → lookup t q.by_topic ≢ some []

pub new_queued_jobs-IsIndex : IsIndex new_queued_jobs
unfolding new_queued_jobs heap_of lookup
new_queued_jobs-IsIndex = record {
  keyed = λ k. tt;
  all_count = λ k. refl;
  topic_count = λ t k. refl;
  all_ordered = tt;
  topic_ordered = λ t. tt;
  no_empty = λ t e. cc;
}

abbrev pub or_new : Option QueueEntry → QueueEntry → QueueEntry
or_new none e = e
or_new (some old) e = old

pub lookup-add :
    (j : Job) (q : QueuedJobs) (k : ℕ)
    → lookup k (add j q).entries ≡ (
        if nat_eq j.id k
        then some (or_new (lookup j.id q.entries) (entry_of j))
        else lookup k q.entries)
unfolding add
lookup-add j q k = ground (arith, nat_eq_iff j.id k, lookup-insert j.id k (entry_of j) q.entries)

pub lookup-remove :
    (j : Job) (q : QueuedJobs) (k : ℕ)
    → lookup k (remove j q).entries ≡ (if nat_eq j.id k then none else lookup k q.entries)
unfolding remove
lookup-remove j q k = ground (arith, nat_eq_iff j.id k, lookup-delete j.id k q.entries)

heap_push-ne-nil : (e : QueueEntry) (h : JobHeap) → heap_push e h ≢ []
unfolding heap_push
heap_push-ne-nil e [] p = cc
heap_push-ne-nil e (x ∷ h) p = ground arith

module _ (e : QueueEntry) (q : QueuedJobs) (v : IsIndex q)
    (fresh : lookup e.job q.entries ≡ none) where
  heap_of-put_entry :
      (t : String)
      → heap_of t (put_entry e q)
        ≡ (if e.topic == t then heap_push e (heap_of t q) else heap_of t q)
  unfolding heap_of put_entry
  heap_of-put_entry t = ground (
    arith,
    eq_iff e.topic t,
    lookup-insert e.topic t (heap_push e (or_empty (lookup e.topic q.by_topic))) q.by_topic,
  )

  none_before : count_job e.job q.all ≡ 0
  none_before = ground (arith, v.all_count e.job)

  none_in_topic : (t : String) → count_job e.job (heap_of t q) ≡ 0
  none_in_topic t = ground (arith, v.topic_count t e.job)

  put_entry-IsOrdered : (t : String) → IsOrdered (heap_of t (put_entry e q))
  put_entry-IsOrdered t = elim (Bool-cases (e.topic == t)) [
    | inl p ↦
        rw (heap_of-put_entry t, p)
          (heap_push-IsOrdered e (heap_of t q) (none_in_topic t) (v.topic_ordered t))
    | inr p ↦ rw (heap_of-put_entry t, p) (v.topic_ordered t)
  ]

  put_entry-IsIndex : IsIndex (put_entry e q)
  unfolding put_entry
  put_entry-IsIndex = record {
    keyed = λ k. ground (arith, nat_eq_iff e.job k, lookup-insert e.job k e q.entries, v.keyed k);
    all_count = λ k. ground (
      arith,
      nat_eq_iff e.job k,
      lookup-insert e.job k e q.entries,
      count_job-heap_push k e q.all,
      v.all_count k,
    );
    topic_count = λ t k. ground (
      arith,
      nat_eq_iff e.job k,
      eq_iff e.topic t,
      heap_of-put_entry t,
      lookup-insert e.job k e q.entries,
      count_job-heap_push k e (heap_of t q),
      v.topic_count t k,
    );
    all_ordered = heap_push-IsOrdered e q.all none_before v.all_ordered;
    topic_ordered = put_entry-IsOrdered;
    no_empty = λ t h. ground (
      arith,
      eq_iff e.topic t,
      lookup-insert e.topic t (heap_push e (or_empty (lookup e.topic q.by_topic))) q.by_topic,
      heap_push-ne-nil e (or_empty (lookup e.topic q.by_topic)),
      v.no_empty t,
    );
  }

heap_remove-nil : (id : ℕ) → heap_remove id [] ≡ []
unfolding heap_remove
heap_remove-nil id = refl

lookup-put_heap :
    (s t : String) (h : JobHeap) (m : Map String JobHeap)
    → or_empty (lookup t (put_heap s h m)) ≡ (if s == t then h else or_empty (lookup t m))
unfolding put_heap
lookup-put_heap s t [] m = ground (arith, eq_iff s t, lookup-delete s t m)
lookup-put_heap s t (x ∷ h) m = ground (arith, eq_iff s t, lookup-insert s t (x ∷ h) m)

put_heap_no_empty :
    (s t : String) (h : JobHeap) (m : Map String JobHeap)
    → lookup t m ≢ some []
    → lookup t (put_heap s h m) ≢ some []
unfolding put_heap
put_heap_no_empty s t [] m n p = ground (arith, eq_iff s t, lookup-delete s t m)
put_heap_no_empty s t (x ∷ h) m n p = ground (arith, eq_iff s t, lookup-insert s t (x ∷ h) m)

module _ (id : ℕ) (e : QueueEntry) (q : QueuedJobs) (v : IsIndex q)
    (there : lookup id q.entries ≡ some e) where
  heap_of-take_entry :
      (t : String)
      → heap_of t (take_entry id e.topic q)
        ≡ (if e.topic == t then heap_remove id (heap_of t q) else heap_of t q)
  unfolding heap_of take_entry remove_from_topic
  heap_of-take_entry t = elim (Option-cases (lookup e.topic q.by_topic)) [
    | inl p ↦ rw (p, remove_from_topic) (ground (arith, eq_iff e.topic t, heap_remove-nil id))
    | inr (h, p) ↦
        rw (p, remove_from_topic)
          (ground
            (arith, eq_iff e.topic t, lookup-put_heap e.topic t (heap_remove id h) q.by_topic))
  ]

  take_entry_no_empty : (t : String) → lookup t (take_entry id e.topic q).by_topic ≢ some []
  unfolding take_entry remove_from_topic
  take_entry_no_empty t = elim (Option-cases (lookup e.topic q.by_topic)) [
    | inl p ↦ rw (p, remove_from_topic) (v.no_empty t)
    | inr (h, p) ↦
        rw (p, remove_from_topic)
          (put_heap_no_empty e.topic t (heap_remove id h) q.by_topic (v.no_empty t))
  ]

  take_entry-IsOrdered : (t : String) → IsOrdered (heap_of t (take_entry id e.topic q))
  take_entry-IsOrdered t = elim (Bool-cases (e.topic == t)) [
    | inl p ↦
        rw (heap_of-take_entry t, p) (heap_remove-IsOrdered id (heap_of t q) (v.topic_ordered t))
    | inr p ↦ rw (heap_of-take_entry t, p) (v.topic_ordered t)
  ]

  take_entry-IsIndex : IsIndex (take_entry id e.topic q)
  unfolding take_entry
  take_entry-IsIndex = record {
    keyed = λ k. ground (arith, nat_eq_iff id k, lookup-delete id k q.entries, v.keyed k);
    all_count = λ k. ground (
      arith,
      nat_eq_iff id k,
      lookup-delete id k q.entries,
      count_job-heap_remove k id q.all,
      v.all_count k,
    );
    topic_count = λ t k. ground (
      arith,
      nat_eq_iff id k,
      eq_iff e.topic t,
      there,
      heap_of-take_entry t,
      lookup-delete id k q.entries,
      count_job-heap_remove k id (heap_of t q),
      v.topic_count t k,
      v.topic_count t id,
    );
    all_ordered = heap_remove-IsOrdered id q.all v.all_ordered;
    topic_ordered = take_entry-IsOrdered;
    no_empty = take_entry_no_empty;
  }

-- An index stays an index when a job is added: each job that has an entry stands once in the heap of
-- all jobs and once in that of its topic, and the heaps are in pull order.
pub add-IsIndex : (j : Job) (q : QueuedJobs) → IsIndex q → IsIndex (add j q)
unfolding add
add-IsIndex j q v = elim (Option-cases (lookup j.id q.entries)) [
  | inl e ↦ rw (e, add) (put_entry-IsIndex (entry_of j) q v e)
  | inr (x, e) ↦ rw (e, add) v
]

-- The entry of the job, if any, was made under the job's topic.
abbrev pub SameTopic : Job → Option QueueEntry → Type 0
SameTopic j none = Unit {0}
SameTopic j (some e) = e.topic ≡ j.topic

-- An index stays an index when a job is removed, if the entry of the job, where there is one, was
-- made under the job's topic.
pub remove-IsIndex :
    (j : Job) (q : QueuedJobs)
    → SameTopic j (lookup j.id q.entries)
    → IsIndex q
    → IsIndex (remove j q)
unfolding remove
remove-IsIndex j q s v = elim (Option-cases (lookup j.id q.entries)) [
  | inl e ↦ rw (e, remove) v
  | inr (x, e) ↦
      let same : x.topic ≡ j.topic = rw e at s in
      rw (e, remove) (rw (← same) (take_entry-IsIndex j.id x q v e))
]
