-- ===== src/Lib.antt =====
-- Verification of minijob, a job scheduler with delayed jobs, retries and resource locks.
--
-- The scheduler keeps each job in a map under its id, with its history of events. A job is created
-- (service/service.go: CreateJob, CloneJob), waits for its time (delayed) or its resources
-- (pending), is queued with its resources locked, is pulled by a worker (running), and ends:
-- succeeded, failed, or back in the queue when it is cancelled or when a failure is retried.
-- Between two tries it may wait in the retry queue (hidden). Every method holds one mutex, so that
-- each is one step of the model, and any sequence of calls is a sequence of steps (Service/Reach).
-- What the observers are told is a list of effects in the state, the latest first.
--
-- The parts, and the files that model them:
--   Job: job/job.go. The job, its events and states, its history, and its creation from a request.
--     Job/Properties: the decoded properties and their deep copy. Job/Json: the exact numbers of the
--     properties. Job/Rereads: what is written is read again. Job/History: laws of the history.
--   Pq: pq/pq.go. The linked list is the list of its nodes with its length field. Pq/Order,
--     Pq/Count, Pq/Drain: the order, the contents, the loop that takes all ready entries.
--   Queue: service/queue.go. The index of the queued jobs. A heap is given by its entries in the
--     order in which Pop hands them out. Queue/Order, Queue/First, Queue/Index: the pull order,
--     `first`, and the agreement of the heaps with the entries. Queue/Array and Queue/Stored: the
--     heaps and the index as they are stored, with slices and positions. Queue/Positions,
--     Queue/Entries, Queue/Refines, Queue/Stands and Queue/Answers: the stored index answers as
--     the other.
--   Resources: service/resourcesmanager.go, with requiresLockedResources and sortedJobIDs of
--     service/service.go. Resources/Locking: what is locked;
--     Resources/Restoring: the locks that a start takes for the stored jobs.
--   Retry: retrypolicy/backoff.go and retrypolicy/retrypolicy.go. Retry/Bounds: the ranges.
--   Constants: constants/constants.go.
--   Service: service/service.go. Service/State is the state and its basic writes; Scheduling is the
--     way into the queue; Create, Finish, Remove, Pull, Periodic and Restore (LoadJobs) hold the
--     methods, named as in the source. A `*Job` of the source is the id under which the job is
--     stored, and is read from the map where the source follows the pointer.
--     Proofs: Invariant says what holds between two calls; History, Locks, Changes, Steps and Ends
--     show that each step of a job is a change that keeps it; Preserve and Loops treat locking and
--     the pending jobs; Runs, Deletes, Starts, Pulls, Creates, Retries and Ticks treat the methods;
--     Outcomes and Failures say what the calls do to the job; Calls and Reach treat sequences of
--     calls. Restored and its children treat LoadJobs: Starts its invariant, Scheduled and Jobs the
--     jobs behind it, Once, Order and Told what it tells the observers. Log says what an observer knows
--     from the effects, Logged and Told that each step tells it, and Messages that it knows the
--     jobs after any calls. Shown and Begun treat an observer that begins with no jobs, and the
--     histories. Listing and Pages: GetJobs.
--   Backend: jobbackendprovider/inmemoryprovider. Backend/InMemory: inmemoryprovider.go, and Load
--     and Save of dbstorage.go; Backend/Files: writeFileAtomic of dbstorage.go, with every state of
--     the disk on the way. Stored and Mirror treat the stored jobs, Saved the round trip, Synced
--     the periodic sync, Restarted and Cycle a run that starts
--     on stored jobs.
--   Redis: jobbackendprovider/redisprovider. Redis/Ops, Redis/Client and Redis/Writer: writer.go,
--     the writes, the commands, and the queue with its loop, as steps between which other
--     goroutines may come; Redis/Provider: the events of redisprovider.go; Redis/Load: LoadJobs,
--     JobExists and Healthcheck, in the same file. Partly, Deleting and Execute treat commands that
--     fail; Kept, Turns, Runs and Delivered the queue; Saves and Mirror the events; Redis/Service
--     the whole way, with Lasting for the time to live; Loaded, Restart and Found LoadJobs; Exists treats JobExists and Healthcheck.
--   Metrics: metrics/servicemetrics.go. The counters of a topic are in Metrics, its statistics in
--     Metrics/Topics, the handlers in Metrics/Observer. Counting, Counters, Agree, Replay, Unchanged
--     and Observed compare the counters with the jobs of the scheduler.
--   Lifecycle: lifecycle/lifecycle.go. Lifecycle/Once: the loop runs once.
--   Prelude: the shared helpers. Prelude/Int64 is the int64 arithmetic with its wrap-around,
--     Prelude/Maps the maps, as association lists. Examples: runs at concrete inputs.
--
-- Fuel. The search for a new id has one unit more than there are jobs; the loops over the retry and
-- the delayed queue have one unit more than there are entries, and each round takes one entry away.
-- The calls of SCAN in one deletion of every job are bounded by a number that the theorems leave
-- open; when it is used up, the deletion counts as failed. Where the iteration of SCAN ends, a
-- bound above the number of its calls is enough (Redis/Deleting). The loop of getJobs takes a key
-- in each turn, and its fuel is the number of keys.
--
-- What comes from outside is a parameter (Service/State, Env): the readings of the clock in order,
-- the ids that uuid.NewV7 gives in order (an id is a number, and the order of the numbers is that
-- of the bytes), the configuration, and the arithmetic on float64 values of the exponential backoff
-- (Retry, Float64). container/heap is modelled by what it promises, in Queue by the result and
-- in Queue/Array as a parameter that makes swaps (Container, IsContainer). json.Unmarshal is
-- modelled by what it decodes with UseNumber (Json), and the UnmarshalJSON of the properties is a
-- definition; in NewJob of the Redis backend the whole of it is a parameter.
--
-- Redis and its client are parameters of Redis/Client and, for the reading commands, of Redis/Load,
-- with what they promise in IsRedis and IsReader: time stands still there: no key reaches the end of its
-- time to live. What is said of the keys after a run is said of a finished_job_ttl of 0, where no key
-- has one (Redis/Lasting). The iterator of SCAN is one call, with the keys that it gives.
-- The two float64 quotients of the metrics are a parameter (Floats). encoding/json, the printed
-- uuid, the package strings and the answers of the operating system are parameters too; os.Remove
-- of the temporary file is taken to succeed.
--
-- Not modelled: the HTTP API (web), the Prometheus export and the percentiles (metrics), logs,
-- callbacks, the event notifier and the configuration files; the numbers of GetJobs beyond the limits
-- that the HTTP API sets; in service/service.go the waiting of
-- long polls in PullJobs, and the statistics; in metrics/servicemetrics.go the functions that only
-- read the metrics; in the in-memory backend the loop of Run, the notification
-- channel, and a save that runs beside a notification; in the
-- Redis backend the opening and the shutdown of the client. In Run of the service the periodic
-- tasks follow one another, so the flags that keep a task from running twice at once are left out.
pub mod Prelude
pub mod Job
pub mod Pq
pub mod Resources
pub mod Retry
pub mod Queue
pub mod Constants
pub mod Service
pub mod Backend
pub mod Redis
pub mod Lifecycle
pub mod Metrics
pub mod Examples
