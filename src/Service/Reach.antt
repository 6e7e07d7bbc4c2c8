-- ===== src/Service/Reach.antt =====
-- The invariant after the calls of the scheduler, in any order (service/service.go).
use minijob.Prelude.{ℕ, some, Map}
use minijob.Job.{Job}
use minijob.Service.State.{Service, Env, new_service}
use minijob.Service.Restore.{load_jobs}
use minijob.Service.Restored.{IsLoadable}
use minijob.Service.Restored.Starts.{load_jobs-Inv}
use minijob.Service.Calls.{
  Call, create, clone_of, pull, pull_one, start, success, cancel, fail, delete, change_visibility,
  delete_all, delete_queued, unlock_all_locks, try_enqueue, retention, timeouts, retries, delayed,
  unlock, perform,
}
use minijob.Service.Invariant.{Inv}
use minijob.Service.Loops.{try_enqueue-Inv}
use minijob.Service.Runs.{set_job_as_successful-Inv, cancel_job-Inv, fail_job_locked-Inv}
use minijob.Service.Deletes.{
  delete_job_locked-Inv, delete_queued_jobs-Inv, delete_old_completed_jobs_locked-Inv,
  unlock_all-Inv, new_service-Inv, delete_all_jobs-Inv, unlock_one-Inv,
}
use minijob.Service.Starts.{start_job_locked-Inv}
use minijob.Service.Pulls.{
  pull_jobs_once-Inv, pull_specific_job-Inv, change_visibility_timeout_job-Inv,
}
use minijob.Service.Creates.{AreDistinct, create_job_ends, clone_job_ends}
use minijob.Service.Retries.{attempt_job_retries-Inv}
use minijob.Service.Ticks.{check_delayed_jobs-Inv, check_jobs_visibility_timeout-Inv}

-- The states that calls lead to.
pub data ReachFrom (env : Env) (start : Service) : Service → Type 0 where
  fresh : ReachFrom env start start
  call : (c : Call) {s : Service} → ReachFrom env start s → ReachFrom env start (perform env c s)

-- From the state of NewService.
abbrev pub Reach : Env → Service → Type 0
Reach env s = ReachFrom env new_service s

-- From a start on the jobs that the backend loads.
abbrev pub ReachLoaded : Env → Map ℕ Job → Service → Type 0
ReachLoaded env m s = ReachFrom env (load_jobs env (some m) new_service).1 s

-- Every call keeps the invariant, if the generator of ids never repeats one.
perform-Inv :
    (env : Env) (c : Call) (s : Service)
    → AreDistinct env.uuids
    → Inv s.sched
    → Inv (perform env c s).sched
unfolding perform
perform-Inv env (create req) s d v = let (r, e, v') = create_job_ends env req s d v in rw e v'
perform-Inv env (clone_of id) s d v = let (r, e, v') = clone_job_ends env id s d v in rw e v'
perform-Inv env (pull req last) s d v = pull_jobs_once-Inv env req last s v
perform-Inv env (pull_one req) s d v = pull_specific_job-Inv env req s v
perform-Inv env (start timeout id) s d v = start_job_locked-Inv env timeout id s v
perform-Inv env (success id) s d v = set_job_as_successful-Inv env id s v
perform-Inv env (cancel id) s d v = cancel_job-Inv env id s v
perform-Inv env (fail id) s d v = fail_job_locked-Inv env id s v
perform-Inv env (delete id) s d v = delete_job_locked-Inv env id s v
perform-Inv env (change_visibility id timeout) s d v =
    change_visibility_timeout_job-Inv id timeout s v
perform-Inv env delete_all s d v = delete_all_jobs-Inv s
perform-Inv env delete_queued s d v = delete_queued_jobs-Inv env s v
perform-Inv env unlock_all_locks s d v = unlock_all-Inv env s v
perform-Inv env try_enqueue s d v = try_enqueue-Inv env s v
perform-Inv env retention s d v = delete_old_completed_jobs_locked-Inv env s v
perform-Inv env timeouts s d v = check_jobs_visibility_timeout-Inv env s v
perform-Inv env retries s d v = attempt_job_retries-Inv env s v
perform-Inv env delayed s d v = check_delayed_jobs-Inv env s v
perform-Inv env (unlock r) s d v = unlock_one-Inv env r s v

-- If the generator of ids never repeats one, calls keep the invariant.
pub reach-Inv :
    (env : Env) {start s : Service}
    → AreDistinct env.uuids
    → Inv start.sched
    → ReachFrom env start s
    → Inv s.sched
reach-Inv env d v fresh = v
reach-Inv env d v (call c {s} r) = perform-Inv env c s d (reach-Inv env d v r)

-- If the generator of ids never repeats one, the invariant holds after any sequence of calls: each
-- job is stored under its own id, in the state of its last event; a pending, queued, hidden or delayed
-- job stands once in the container of its state and no other job does; the heaps and the priority
-- queues are in order; the holder of a lock is a queued or running job that lists the resource.
pub reachable-Inv : (env : Env) {s : Service} → AreDistinct env.uuids → Reach env s → Inv s.sched
reachable-Inv env d r = reach-Inv env d new_service-Inv r

-- The invariant of the scheduler holds after LoadJobs and any sequence of calls, if the generator of ids never
-- repeats one and the backend loads each job under its own id, once, and in the state of its history.
pub restarted-Inv :
    (env : Env) (m : Map ℕ Job) {s : Service}
    → AreDistinct env.uuids
    → IsLoadable m
    → ReachLoaded env m s
    → Inv s.sched
restarted-Inv env m d h r = reach-Inv env d (load_jobs-Inv env m h) r
