-- ===== src/Service/Restore.antt =====
-- The start of the scheduler on the jobs of the backend (service/service.go): LoadJobs, and Init as
-- far as it concerns the jobs.
use minijob.Prelude.{
  ℕ, suc, String, Bool, true, false, Option, none, some, List, [], ◌∷◌, Map, lookup, insert,
  if◌then◌else◌, nat_Eq, string_Eq,
}
use minijob.Prelude.Int64.{ℤ, pos, neg64}
use minijob.Job.{Job, JobState}
use minijob.Pq.{enqueue}
use minijob.Queue
use minijob.Resources.{LockedResources, lock_resources_for_jobs, sorted_job_ids}
use minijob.Service.State.{
  job_loaded, job_event, locked_count, restore_flag, Env, Scheduler, Service, now, tick, emit,
  put_pending,
}
use minijob.Service.Scheduling.{read_for, try_enqueue_pending_jobs_locked}
use minijob.Service.Create.{schedule}

-- The switch of LoadJobs on the state of a job; `t` is the time that it has read. A created job is
-- scheduled later, and a running one or one at its end stands in no container.
unfoldable pub place : ℤ → Job → Scheduler → Scheduler
place t j c = elim j.state [
  | JobState.pending ↦ put_pending j.id c
  | JobState.queued ↦ record c { queued = Queue.add j c.queued }
  | JobState.hidden ↦ record c { retry = enqueue j.id (neg64 t) c.retry }
  | JobState.delayed ↦ record c { delayed = enqueue j.id (neg64 j.start_after) c.delayed }
  | _ ↦ c
]

-- One turn of the loop of LoadJobs.
unfoldable pub restore_one : ℤ → Job → Service → Service
unfolding place
restore_one t j s =
    emit (locked_count j.topic (pos 0))
      (emit (job_event job_loaded j) (record s { sched = place t j s.sched }))

-- The loop of LoadJobs, over the sorted ids.
unfoldable pub restore_each : ℤ → List ℕ → Service → Service
unfolding restore_one
restore_each t [] s = s
restore_each t (id ∷ ids) s = elim (lookup id s.jobs) [
  | none ↦ restore_each t ids s
  | some j ↦ restore_each t ids (restore_one t j s)
]

abbrev pub is_created : JobState → Bool
is_created JobState.created = true
is_created _ = false

-- The created jobs that the loop collects, in its order.
unfoldable pub created_ids : Map ℕ Job → List ℕ → List ℕ
created_ids jobs [] = []
created_ids jobs (id ∷ ids) = elim (lookup id jobs) [
  | none ↦ created_ids jobs ids
  | some j ↦ if is_created j.state then id ∷ created_ids jobs ids else created_ids jobs ids
]

-- lockedCounts[topic]++
abbrev pub one_more : Option ℕ → ℕ
one_more none = 1
one_more (some n) = suc n

-- The loop over GetLockedResources: how many resources are locked, by topic of their owner. Go visits
-- a map in any order; here it is the order of the list.
unfoldable pub locked_counts : Map ℕ Job → LockedResources → Map String ℕ → Map String ℕ
locked_counts jobs [] counts = counts
locked_counts jobs ((r, owner) ∷ locks) counts = elim (lookup owner jobs) [
  | none ↦ locked_counts jobs locks counts
  | some j ↦ locked_counts jobs locks (insert j.topic (one_more (lookup j.topic counts)) counts)
]

-- The loop over lockedCounts.
unfoldable pub count_locks : Map String ℕ → Service → Service
count_locks [] s = s
count_locks ((topic, n) ∷ counts) s = count_locks counts (emit (locked_count topic (pos n)) s)

-- The loop over the created jobs, each of which is scheduled like a new job.
unfoldable pub schedule_each : Env → List ℕ → Service → Service
unfolding schedule
schedule_each env [] s = s
schedule_each env (id ∷ ids) s = elim (lookup id s.jobs) [
  | none ↦ schedule_each env ids s
  | some j ↦ schedule_each env ids (schedule env (now env s) j (read_for j s)).1
]

-- `if len(created) > 0 { svc.tryEnqueuePendingJobsLocked() }`
unfoldable pub start_created : Env → List ℕ → Service → Service
unfolding schedule_each
start_created env [] s = s
start_created env (id ∷ ids) s =
    try_enqueue_pending_jobs_locked env (schedule_each env (id ∷ ids) s)

-- LoadJobs up to the loop: the jobs, their locks, and the flag of the backend.
unfoldable pub take_jobs : Map ℕ Job → Service → Service
take_jobs jobs s = emit (restore_flag true) (record s {
  sched = record s.sched { jobs = jobs; locks = lock_resources_for_jobs jobs; pending = [] };
})

-- LoadJobs between the two changes of the flag.
unfoldable pub restore_jobs : Env → Map ℕ Job → Service → Service
unfolding take_jobs restore_each locked_counts count_locks
restore_jobs env jobs s =
    let s' = restore_each (now env s) (sorted_job_ids jobs) (tick (take_jobs jobs s)) in
    emit (restore_flag false) (count_locks (locked_counts jobs s'.locks []) s')

-- LoadJobs, on what the backend loads; `none` is its error, which comes with no jobs. The flag is
-- false for the error.
unfoldable pub load_jobs : Env → Option (Map ℕ Job) → Service → Bool × Service
unfolding restore_jobs created_ids start_created
load_jobs env none s = (false, record s { sched = record s.sched { jobs = [] } })
load_jobs env (some jobs) s =
    (true, start_created env (created_ids jobs (sorted_job_ids jobs)) (restore_jobs env jobs s))
