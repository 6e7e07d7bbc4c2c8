-- ===== src/Queue.antt =====
-- service/queue.go: the index of the queued jobs, a heap of all of them and one for each topic.
-- container/heap belongs to the standard library, and a heap is modelled by what it promises: its
-- entries, listed in the order in which Pop hands them out (Less). Push puts an entry in its place,
-- Pop takes the first one, and Remove at the position of an entry takes that entry. So the
-- positions `pos` that the entries keep, and Swap, which maintains them, do not appear here, but in
-- Array.
pub mod Order
pub mod First
pub mod Index
pub mod Array
pub mod Positions
pub mod Entries
pub mod Refines
pub mod Stored
pub mod Stands
pub mod Answers
use minijob.Prelude.{
  ℕ, zero, suc, ◌+◌, ◌-◌, String, Bool, true, false, not, Option, none, some, List, [], ◌∷◌, ◌++◌,
  map, Map, lookup, insert, delete, ◌==◌, if◌then◌else◌, nat_eq, ltb, insert_by, keep_if, nat_Eq,
  string_Eq,
}
use minijob.Prelude.Int64.{ℤ, pos, ltb_ℤ, eq_ℤ}
use minijob.Job.{Job, get_creation_timestamp}

-- `job` is the pointer, given by the id of the job, and `topic` the topic of that job.
pub record QueueEntry : Type 0 where
  pub job : ℕ
  pub topic : String
  pub priority : ℤ
  pub created : ℤ

-- compareQueueEntries(a, b) < 0
unfoldable pub less : QueueEntry → QueueEntry → Bool
less a b =
    if eq_ℤ a.priority b.priority
    then (if eq_ℤ a.created b.created then ltb a.job b.job else ltb_ℤ a.created b.created)
    else ltb_ℤ b.priority a.priority

-- jobHeap
abbrev pub JobHeap : Type 0
JobHeap = List QueueEntry

-- heap.Push
unfoldable pub heap_push : QueueEntry → JobHeap → JobHeap
unfolding less insert_by
heap_push e h = insert_by less e h

-- heap.Remove at the position of the entry of a job
unfoldable pub heap_remove : ℕ → JobHeap → JobHeap
heap_remove id h = keep_if (λ e. not (nat_eq e.job id)) h

pub record QueuedJobs : Type 0 where
  pub entries : Map ℕ QueueEntry
  pub all : JobHeap
  pub by_topic : Map String JobHeap

-- newQueuedJobs
unfoldable pub new_queued_jobs : QueuedJobs
new_queued_jobs = record { entries = []; all = []; by_topic = [] }

-- A missing heap stands for an empty one.
abbrev pub or_empty : Option JobHeap → JobHeap
or_empty none = []
or_empty (some h) = h

abbrev pub or_zero : Option ℤ → ℤ
or_zero none = pos 0
or_zero (some t) = t

-- The entry of a job. GetCreationTimestamp panics on an empty history, which a queued job has not.
unfoldable pub entry_of : Job → QueueEntry
unfolding get_creation_timestamp
entry_of j = record {
  job = j.id;
  topic = j.topic;
  priority = j.priority;
  created = or_zero (get_creation_timestamp j);
}

-- The writes of `add`.
unfoldable pub put_entry : QueueEntry → QueuedJobs → QueuedJobs
put_entry e q = record {
  entries = insert e.job e q.entries;
  all = heap_push e q.all;
  by_topic = insert e.topic (heap_push e (or_empty (lookup e.topic q.by_topic))) q.by_topic;
}

-- add
unfoldable pub add : Job → QueuedJobs → QueuedJobs
unfolding entry_of put_entry
add j q = elim (lookup j.id q.entries) [ some _ ↦ q | none ↦ put_entry (entry_of j) q ]

-- The heap of the topic, written back; an empty one is deleted.
unfoldable pub put_heap : String → JobHeap → Map String JobHeap → Map String JobHeap
put_heap t [] m = delete t m
put_heap t (e ∷ h) m = insert t (e ∷ h) m

unfoldable pub remove_from_topic :
    String → ℕ → Option JobHeap → Map String JobHeap → Map String JobHeap
remove_from_topic t id none m = m
remove_from_topic t id (some h) m = put_heap t (heap_remove id h) m

-- The writes of `remove`.
unfoldable pub take_entry : ℕ → String → QueuedJobs → QueuedJobs
take_entry id topic q = record {
  entries = delete id q.entries;
  all = heap_remove id q.all;
  by_topic = remove_from_topic topic id (lookup topic q.by_topic) q.by_topic;
}

-- remove
unfoldable pub remove : Job → QueuedJobs → QueuedJobs
unfolding take_entry
remove j q = elim (lookup j.id q.entries) [ none ↦ q | some _ ↦ take_entry j.id j.topic q ]

-- The loop of heap.Pop in `first`: up to n entries, and the rest of the heap.
unfoldable pub pop_up_to : ℕ → JobHeap → List QueueEntry × JobHeap
pop_up_to zero h = ([], h)
pop_up_to (suc n) [] = ([], [])
pop_up_to (suc n) (e ∷ h) = let (popped, rest) = pop_up_to n h in (e ∷ popped, rest)

-- The loop of heap.Push in `first`.
unfoldable pub push_all : List QueueEntry → JobHeap → JobHeap
unfolding heap_push
push_all [] h = h
push_all (e ∷ es) h = push_all es (heap_push e h)

-- The jobs that `first` finds in a heap, and the heap that it leaves.
unfoldable pub first_of_heap : ℕ → JobHeap → List ℕ × JobHeap
unfolding pop_up_to push_all
first_of_heap n h =
    let (popped, rest) = pop_up_to n h in (map (λ e. e.job) popped, push_all popped rest)

-- first
unfoldable pub first : String → ℕ → QueuedJobs → List ℕ × QueuedJobs
first topic n q =
    if topic == "*"
    then (let (jobs, h) = first_of_heap n q.all in (jobs, record q { all = h }))
    else elim (lookup topic q.by_topic) [
      | none ↦ ([], q)
      | some h ↦
          let (jobs, h') = first_of_heap n h in
          (jobs, record q { by_topic = insert topic h' q.by_topic })
    ]
