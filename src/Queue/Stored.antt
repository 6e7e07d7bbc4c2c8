-- ===== src/Queue/Stored.antt =====
-- queuedJobs of service/queue.go with its heaps as they are stored.
use minijob.Prelude.{
  ℕ, String, Option, none, some, List, [], ◌∷◌, Map, lookup, insert, delete, ◌==◌, if◌then◌else◌,
  nat_Eq, string_Eq,
}
use minijob.Job.{Job}
use minijob.Queue.{QueueEntry, QueuedJobs, entry_of, add, remove, first}
use minijob.Queue.Array.{ArrayHeap, empty_heap, Container, push_entry, remove_entry, first_entries}

pub record StoredQueue : Type 0 where
  pub entries : Map ℕ QueueEntry
  pub all : ArrayHeap
  pub by_topic : Map String ArrayHeap

-- newQueuedJobs
abbrev pub new_stored_queue : StoredQueue
new_stored_queue = record { entries = []; all = empty_heap; by_topic = [] }

-- q.byTopic[j.Topic], or a new heap
abbrev pub or_new_heap : Option ArrayHeap → ArrayHeap
or_new_heap none = empty_heap
or_new_heap (some h) = h

-- The heap of a topic behind a removal; an empty one is deleted.
unfoldable pub keep_heap : String → ArrayHeap → Map String ArrayHeap → Map String ArrayHeap
keep_heap t h m = elim h.entries [ [] ↦ delete t m | _ ∷ _ ↦ insert t h m ]

-- The calls of the index.
pub data QueueCall : Type 0 where
  added : Job → QueueCall
  removed : Job → QueueCall
  asked : String → ℕ → QueueCall

module _ (c : Container) where
  -- add
  unfoldable pub add_stored : Job → StoredQueue → StoredQueue
  unfolding push_entry entry_of
  add_stored j q = elim (lookup j.id q.entries) [
    | some _ ↦ q
    | none ↦
        let e = entry_of j in
        record {
          entries = insert j.id e q.entries;
          all = push_entry c e q.all;
          by_topic =
              insert j.topic (push_entry c e (or_new_heap (lookup j.topic q.by_topic))) q.by_topic;
        }
  ]

  -- What `remove` does with the heap of the topic.
  unfoldable pub remove_from_stored :
      String → ℕ → Map String ArrayHeap → Option (Map String ArrayHeap)
  unfolding remove_entry keep_heap
  remove_from_stored t id m = elim (lookup t m) [
    | none ↦ some m
    | some h ↦ elim (remove_entry c id h) [ none ↦ none | some (_, h') ↦ some (keep_heap t h' m) ]
  ]

  -- remove; `none` is a panic.
  unfoldable pub remove_stored : Job → StoredQueue → Option StoredQueue
  unfolding remove_entry remove_from_stored
  remove_stored j q = elim (lookup j.id q.entries) [
    | none ↦ some q
    | some _ ↦ elim (remove_entry c j.id q.all) [
      | none ↦ none
      | some (_, all) ↦ elim (remove_from_stored j.topic j.id q.by_topic) [
        | none ↦ none
        | some by_topic ↦
            some (record { entries = delete j.id q.entries; all = all; by_topic = by_topic })
      ]
    ]
  ]

  -- first
  unfoldable pub first_stored : String → ℕ → StoredQueue → Option (List ℕ × StoredQueue)
  unfolding first_entries
  first_stored topic n q =
      if topic == "*"
      then elim (first_entries c n q.all) [
        | none ↦ none
        | some (jobs, h) ↦ some (jobs, record q { all = h })
      ]
      else elim (lookup topic q.by_topic) [
        | none ↦ some ([], q)
        | some h ↦ elim (first_entries c n h) [
          | none ↦ none
          | some (jobs, h') ↦ some (jobs, record q { by_topic = insert topic h' q.by_topic })
        ]
      ]

  -- The answers of `first` in a sequence of calls, and the index behind them.
  unfoldable pub run_stored : List QueueCall → StoredQueue → Option (List (List ℕ) × StoredQueue)
  unfolding add_stored remove_stored first_stored
  run_stored [] q = some ([], q)
  run_stored (added j ∷ calls) q = run_stored calls (add_stored j q)
  run_stored (removed j ∷ calls) q = elim (remove_stored j q) [
    | none ↦ none
    | some q' ↦ run_stored calls q'
  ]
  run_stored (asked t n ∷ calls) q = elim (first_stored t n q) [
    | none ↦ none
    | some (jobs, q') ↦ elim (run_stored calls q') [
      | none ↦ none
      | some (answers, q'') ↦ some (jobs ∷ answers, q'')
    ]
  ]

-- The same calls of the model.
unfoldable pub run_model : List QueueCall → QueuedJobs → List (List ℕ)
unfolding add remove first
run_model [] q = []
run_model (added j ∷ calls) q = run_model calls (add j q)
run_model (removed j ∷ calls) q = run_model calls (remove j q)
run_model (asked t n ∷ calls) q = let (jobs, q') = first t n q in jobs ∷ run_model calls q'
