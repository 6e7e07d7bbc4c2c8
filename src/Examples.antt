-- ===== src/Examples.antt =====
-- Runs of the model at concrete inputs.
pub mod Backends
pub mod Redis
pub mod Shutdown
pub mod Restarts
pub mod Heaps
pub mod RedisStore
pub mod RedisLoad
pub mod Numbers
use minijob.Prelude.{
  ℕ, ◌*◌, min, count, suc, ◌+◌, ◌-◌, map, true, false, ◌≡◌, ◌⊎◌, refl, none, some, List, [], ◌∷◌,
  ◌++◌, lookup, insert, sort_by, insert_by, length, keep_if, if◌then◌else◌, nat_eq, nat_Eq,
  string_Eq, contains, ◌&&◌, arith,
}
use minijob.Prelude.Int64.{pos, leb_ℤ, ltb_ℤ}
use minijob.Job.Properties.{Value}
use minijob.Job.{
  Job, JobState, JobRequest, EventType, add_history_event, set_state_from_history,
  get_history_states, last_state, init, new_job_from_request, compute_start_after,
  get_state_from_event, get_creation_timestamp,
}
use minijob.Retry.{Float64, BackoffStrategy, linear, exponential, compute_delay, milliseconds}
use minijob.Service.State.{
  Service, Env, Config, ApiError, Outcome, ok, new_service, now, tick, add_history_event_locked,
  add_history, enter, leave, is_pending,
}
use minijob.Service.Pull.{
  RequestPullJobs, pull_jobs_once, find_best_job_candidates_locked, find_in, picked, serve,
  start_each, start_job_locked, start_run, answer,
}
use minijob.Service.Create.{
  create_job, check_max_allowed_jobs_locked, finalize_job_creation_locked,
  generate_new_job_uuid_locked, finalize_with, store_new_job, schedule,
}
use minijob.Service.Scheduling.{
  set_job_state_to_pending_locked, try_enqueue_pending_jobs_locked, candidates, jobs_at,
  enqueue_each, enqueue_job_locked, lock_resources_locked, enqueue_behind, to_queue_from_pending,
}
use minijob.Queue.{
  QueueEntry, QueuedJobs, first, first_of_heap, pop_up_to, push_all, add, put_entry, entry_of,
  put_heap, heap_push, less, new_queued_jobs,
}
use minijob.Queue
use minijob.Queue.First.{take, heap_for, first_lem}
use minijob.Queue.Index.{IsIndex, SameTopic, new_queued_jobs-IsIndex, add-IsIndex, remove-IsIndex}
use minijob.Pq.{PriorityQueue, Node, new_priority_queue, enqueue}
use minijob.Pq
use minijob.Pq.Order.{IsValid, enqueue_stable}
use minijob.Pq.Drain.{drain, ready, later, drain_lem}
use minijob.Pq.Count.{count_value, count_value-remove}
use minijob.Resources.{
  requires_locked_resources, lock_resources, unavailable, acquire, LockedResources,
  unlock_resources, held_by,
}
use minijob.Resources.Locking.{
  LockOutcome, refused, lock_resources_all_or_none, unlock_resources_own,
  requires_locked_resources-lock_resources,
}
use minijob.Retry.Bounds.{grown, IsFloat64, intended_delay, compute_delay_exact}
use minijob.Job.History.{add_history_event-set_state_from_history}
use minijob.Constants.{
  error_cant_set_job_as_successful, error_cant_cancel_job, error_cant_delete_job,
}
use minijob.Service.Finish.{refuse, set_job_as_successful, cancel_job}
use minijob.Service.Remove.{delete_job_locked}
use minijob.Service.Outcomes.{set_job_as_successful_lem, cancel_job_lem, delete_job_locked_lem}
use minijob.Service.Invariant.{Inv, state_of}
use minijob.Service.Loops.{ids_of, try_enqueue-others}
use minijob.Service.Pulls.{best, pull_jobs_once_takes_best}
use minijob.Service.Runs.{NotRunning, refusal}
use minijob.Service.Starts.{AreStarted}
use minijob.Service.Creates.{AreDistinct, create_job_ends, generate_new_job_uuid_locked-ends}
use minijob.Service.Calls.{create, pull, perform}
use minijob.Service.Reach.{Reach, fresh, call, reachable-Inv}

-- The float64 arithmetic on integers, each of which stands for its bits.
abbrev integers : Float64
integers = record {
  of_uint = λ n. n;
  times = λ m n. m * n;
  pow = λ a k. grown 1 a k;
  least = λ m n. min m n;
  to_int64 = λ n. pos n;
}

integers-IsFloat64 : IsFloat64 integers
integers-IsFloat64 = record {
  times_exact = λ m n h. refl;
  pow_exact = λ a k h. refl;
  least_exact = λ m n h h'. refl;
  back = λ n h. refl;
}

abbrev pub config_a : Config
config_a = record {
  max_allowed_jobs = 10;
  backend_max_jobs = 0;
  retry_policy = record {
    max_retry = 3;
    backoff = record { strategy = linear; base = 100; factor = 0; max_duration = 60000 };
  };
  retention_enable = true;
  retention_max_jobs = pos 5;
  retention_max_job_age = pos 60;
}

-- A clock that runs a millisecond from reading to reading, and ids in a row.
abbrev pub env_a : Env
env_a = record {
  config = config_a;
  clock = λ n. pos (1000 + n);
  uuids = λ n. some n;
  float64 = integers;
}

distinct_a : AreDistinct env_a.uuids
distinct_a m n id p q = ground (arith, p, q)

abbrev pub request_a : JobRequest
request_a = record {
  topic = "mail";
  priority = pos 1;
  properties = Value.null;
  lock_resources = "printer" ∷ [];
  user_agent = "";
  requester = "";
  name = "a";
  session_id = "";
  trace_id = "";
  start_after = pos 0;
  delay = pos 0;
  callback_url = "";
}

abbrev pub state_a : Service
state_a = perform env_a (create (some request_a)) new_service

state_a-Reach : Reach env_a state_a
state_a-Reach = call (create (some request_a)) fresh

reachable-Inv_example : Inv state_a.sched
reachable-Inv_example = reachable-Inv env_a distinct_a (call (create (some request_a)) fresh)

abbrev pull_a : RequestPullJobs
pull_a = record {
  job_uuid = none;
  topic = "mail";
  num_jobs = 1;
  visibility_timeout = 30;
  wait_time_seconds = 0;
}

-- The created job is queued.
best_a : best pull_a state_a.sched ≡ 0 ∷ []
unfolding perform create_job check_max_allowed_jobs_locked new_job_from_request compute_start_after
    finalize_job_creation_locked generate_new_job_uuid_locked finalize_with store_new_job init
    schedule set_job_state_to_pending_locked add_history_event_locked add_history add_history_event
    get_state_from_event enter leave try_enqueue_pending_jobs_locked candidates sort_by insert_by
    jobs_at requires_locked_resources lookup insert enqueue_each enqueue_job_locked
    lock_resources_locked lock_resources unavailable acquire enqueue_behind to_queue_from_pending
    add put_entry entry_of put_heap heap_push get_creation_timestamp new_service new_queued_jobs
    new_priority_queue
best_a = refl

pull_jobs_once_takes_best_example :
    (js : List Job) × (ids_of js ≡ 0 ∷ [])
    × ((pull_jobs_once env_a pull_a true state_a).0 ≡ ok js)
    × ((pull_jobs_once env_a pull_a true state_a).1 ≡ true)
    × AreStarted pull_a.visibility_timeout js
        (0 ∷ [])
        state_a.sched
        (pull_jobs_once env_a pull_a true state_a).2.sched
    × ((k : ℕ)
        → count k (0 ∷ []) ≡ 0
        → lookup k (pull_jobs_once env_a pull_a true state_a).2.jobs ≡ lookup k state_a.jobs)
pull_jobs_once_takes_best_example =
    pull_jobs_once_takes_best env_a pull_a true state_a 0 []
      (reachable-Inv env_a distinct_a state_a-Reach) best_a

-- The job runs.
abbrev state_b : Service
state_b = perform env_a (pull pull_a true) state_a

state_b-Inv : Inv state_b.sched
state_b-Inv = reachable-Inv env_a distinct_a (call (pull pull_a true) state_a-Reach)

set_job_as_successful_lem_example :
    (NotRunning (lookup 0 state_b.jobs)
      × (set_job_as_successful env_a 0 state_b
          ≡ (some (refusal error_cant_set_job_as_successful 0 (lookup 0 state_b.jobs)), state_b)))
    ⊎ ((j : Job) × (lookup 0 state_b.jobs ≡ some j)
        × (j.state ≡ JobState.running)
        × ((set_job_as_successful env_a 0 state_b).0 ≡ none)
        × (lookup 0 (set_job_as_successful env_a 0 state_b).1.jobs
            ≡ some (add_history_event EventType.success (now env_a state_b) j)))
set_job_as_successful_lem_example = set_job_as_successful_lem env_a 0 state_b state_b-Inv

cancel_job_lem_example :
    (NotRunning (lookup 0 state_b.jobs)
      × (cancel_job env_a 0 state_b
          ≡ (some (refusal error_cant_cancel_job 0 (lookup 0 state_b.jobs)), state_b)))
    ⊎ ((j : Job) × (lookup 0 state_b.jobs ≡ some j)
        × (j.state ≡ JobState.running)
        × ((cancel_job env_a 0 state_b).0 ≡ none)
        × (lookup 0 (cancel_job env_a 0 state_b).1.jobs
            ≡ some (
                add_history_event EventType.enqueue
                  (now env_a (tick state_b))
                  (add_history_event EventType.cancel (now env_a state_b) j))))
cancel_job_lem_example = cancel_job_lem env_a 0 state_b state_b-Inv

delete_job_locked_lem_example :
    ((lookup 0 state_b.jobs ≡ none)
      × (delete_job_locked env_a 0 state_b
          ≡ (some (refuse "job not found" error_cant_delete_job 0), state_b)))
    ⊎ ((j : Job) × (lookup 0 state_b.jobs ≡ some j)
        × ((delete_job_locked env_a 0 state_b).0 ≡ none)
        × (lookup 0 (delete_job_locked env_a 0 state_b).1.jobs ≡ none))
delete_job_locked_lem_example = delete_job_locked_lem env_a 0 state_b state_b-Inv

create_job_ends_example :
    (r : Outcome Job × Service) × (create_job env_a (some request_a) state_b ≡ some r)
    × Inv r.1.sched
create_job_ends_example = create_job_ends env_a (some request_a) state_b distinct_a state_b-Inv

running_b : is_pending (state_of (lookup 0 state_b.jobs)) ≡ false
unfolding perform create_job check_max_allowed_jobs_locked new_job_from_request compute_start_after
    finalize_job_creation_locked generate_new_job_uuid_locked finalize_with store_new_job init
    schedule set_job_state_to_pending_locked add_history_event_locked add_history add_history_event
    get_state_from_event enter leave try_enqueue_pending_jobs_locked candidates sort_by insert_by
    jobs_at requires_locked_resources lookup insert enqueue_each enqueue_job_locked
    lock_resources_locked lock_resources unavailable acquire enqueue_behind to_queue_from_pending
    add put_entry entry_of put_heap heap_push get_creation_timestamp new_service new_queued_jobs
    new_priority_queue pull_jobs_once find_best_job_candidates_locked find_in picked first
    first_of_heap pop_up_to push_all serve start_each start_job_locked start_run answer
running_b = refl

try_enqueue-others_example :
    lookup 0 (try_enqueue_pending_jobs_locked env_a state_b).jobs ≡ lookup 0 state_b.jobs
try_enqueue-others_example = try_enqueue-others env_a state_b 0 state_b-Inv running_b

-- The index of the queued jobs.
abbrev pub job_a : Job
job_a = init 7 (pos 5) (new_job_from_request (pos 1) request_a)

-- Two queued jobs, the second of which is served first.
abbrev queued_a : QueuedJobs
queued_a = add (record job_a { id = 8; priority = pos 9 }) (add job_a new_queued_jobs)

queued_a-IsIndex : IsIndex queued_a
queued_a-IsIndex =
    add-IsIndex (record job_a { id = 8; priority = pos 9 }) (add job_a new_queued_jobs)
      (add-IsIndex job_a new_queued_jobs new_queued_jobs-IsIndex)

first_lem_example :
    first "*" 1 queued_a
    ≡ (map (λ (e : QueueEntry). e.job) (take 1 (heap_for "*" queued_a)), queued_a)
first_lem_example = first_lem "*" 1 queued_a queued_a-IsIndex.all_ordered

best_of_two : map (λ (e : QueueEntry). e.job) (take 1 (heap_for "*" queued_a)) ≡ 8 ∷ []
unfolding add put_entry entry_of put_heap heap_push less get_creation_timestamp new_queued_jobs
    lookup insert init new_job_from_request
best_of_two = refl

-- The locks: one resource of the job is free, another is held by job 3.
abbrev locks_a : LockedResources
locks_a = ("scanner", 3) ∷ []

abbrev job_b : Job
job_b = record job_a { lock_resources = "printer" ∷ "scanner" ∷ [] }

lock_resources_all_or_none_example :
    LockOutcome job_b locks_a "printer" (lock_resources job_b locks_a)
lock_resources_all_or_none_example = lock_resources_all_or_none job_b locks_a "printer"

unlock_resources_own_example : lookup "scanner" (unlock_resources job_b locks_a).1 ≡ (
    if contains "scanner" job_b.lock_resources && held_by job_b.id (lookup "scanner" locks_a)
    then none
    else lookup "scanner" locks_a)
unlock_resources_own_example = unlock_resources_own job_b locks_a "scanner"

requires_locked_resources-lock_resources_example :
    requires_locked_resources locks_a job_b.id job_b.lock_resources
    ≡ refused (lock_resources job_b locks_a).0
requires_locked_resources-lock_resources_example =
    requires_locked_resources-lock_resources job_b locks_a

-- A priority queue with two entries of one priority.
abbrev nodes_a : List (Node ℕ)
nodes_a = record { value = 1; priority = pos 5 } ∷ record { value = 2; priority = pos 5 } ∷ []

abbrev pq_a : PriorityQueue ℕ
pq_a = record { nodes = nodes_a; len = 2 }

pq_a-IsValid : IsValid pq_a
pq_a-IsValid = record { sorted = ((omega arith, tt), (tt, tt)); counted = refl }

enqueue_stable_example :
    ((enqueue 3 (pos 5) pq_a).nodes
      ≡ keep_if (λ n. leb_ℤ (pos 5) n.priority) nodes_a
        ++ (record { value = 3; priority = pos 5 }
            ∷ keep_if (λ n. ltb_ℤ n.priority (pos 5)) nodes_a))
    × IsValid (enqueue 3 (pos 5) pq_a)
enqueue_stable_example = enqueue_stable 3 (pos 5) pq_a pq_a-IsValid

drain_lem_example :
    ((drain 3 (pos 4) pq_a).0 ≡ ready (pos 4) nodes_a)
    × ((drain 3 (pos 4) pq_a).1.nodes ≡ later (pos 4) nodes_a)
drain_lem_example = drain_lem 3 (pos 4) pq_a pq_a-IsValid (omega arith)

abbrev backoff_a : BackoffStrategy
backoff_a = record { strategy = exponential; base = 100; factor = 2; max_duration = 60000 }

compute_delay_exact_example :
    milliseconds (compute_delay integers backoff_a 3)
    ≡ pos (intended_delay exponential backoff_a 2 3)
compute_delay_exact_example =
    compute_delay_exact integers backoff_a 2 3 integers-IsFloat64 (omega arith) (omega arith)
      (omega arith) refl (omega arith) (omega arith)

add_history_event-set_state_from_history_example :
    set_state_from_history (add_history_event EventType.pending (pos 6) job_a)
    ≡ add_history_event EventType.pending (pos 6) job_a
unfolding init last_state get_history_states
add_history_event-set_state_from_history_example =
    add_history_event-set_state_from_history EventType.pending (pos 6) job_a refl
