-- ===== src/Service/Messages.antt =====
-- What the observers are told after any sequence of calls (service/service.go).
use minijob.Prelude.{ℕ, refl, [], Map, lookup}
use minijob.Job.{Job}
use minijob.Service.State.{Service, Env, new_service}
use minijob.Service.Calls.{
  Call, create, clone_of, pull, pull_one, start, success, cancel, fail, delete, change_visibility,
  delete_all, delete_queued, unlock_all_locks, try_enqueue, retention, timeouts, retries, delayed,
  unlock, perform,
}
use minijob.Service.Logged.{IsLogged}
use minijob.Service.Told.{Told, try_enqueue-Told}
use minijob.Service.Told.Runs.{set_job_as_successful-Told, cancel_job-Told, fail_job_locked-Told}
use minijob.Service.Told.Deletes.{
  delete_job_locked-Told, delete_queued_jobs-Told, delete_old_completed_jobs_locked-Told,
  unlock_all-Told, delete_all_jobs-Told, unlock_one-Told,
}
use minijob.Service.Told.Pulls.{
  start_job_locked-Told, pull_jobs_once-Told, pull_specific_job-Told,
  change_visibility_timeout_job-Told,
}
use minijob.Service.Told.Creates.{create_job-Told, clone_job-Told}
use minijob.Service.Told.Ticks.{
  check_delayed_jobs-Told, check_jobs_visibility_timeout-Told, attempt_job_retries-Told,
}
use minijob.Service.Reach.{Reach, ReachFrom, ReachLoaded, fresh, call}
use minijob.Service.Restored.{IsLoadable}
use minijob.Service.Restored.Told.{load_jobs-Told}

module _ (env : Env) (from : Map ℕ Job) where
  abbrev limit : ℕ
  limit = env.config.backend_max_jobs

  perform-Told : (c : Call) (s : Service) → Told limit from s → Told limit from (perform env c s)
  unfolding perform
  perform-Told (create req) s h = create_job-Told limit from env refl req s h
  perform-Told (clone_of id) s h = clone_job-Told limit from env refl id s h
  perform-Told (pull req last) s h = pull_jobs_once-Told limit from env req last s h
  perform-Told (pull_one req) s h = pull_specific_job-Told limit from env req s h
  perform-Told (start timeout id) s h = start_job_locked-Told limit from env timeout id s h
  perform-Told (success id) s h = set_job_as_successful-Told limit from env id s h
  perform-Told (cancel id) s h = cancel_job-Told limit from env id s h
  perform-Told (fail id) s h = fail_job_locked-Told limit from env id s h
  perform-Told (delete id) s h = delete_job_locked-Told limit from env id s h
  perform-Told (change_visibility id timeout) s h =
      change_visibility_timeout_job-Told limit from id timeout s h
  perform-Told delete_all s h = delete_all_jobs-Told limit from s h
  perform-Told delete_queued s h = delete_queued_jobs-Told limit from env s h
  perform-Told unlock_all_locks s h = unlock_all-Told limit from env s h
  perform-Told try_enqueue s h = try_enqueue-Told limit from env s h
  perform-Told retention s h = delete_old_completed_jobs_locked-Told limit from env s h
  perform-Told timeouts s h = check_jobs_visibility_timeout-Told limit from env s h
  perform-Told retries s h = attempt_job_retries-Told limit from env s h
  perform-Told delayed s h = check_delayed_jobs-Told limit from env s h
  perform-Told (unlock r) s h = unlock_one-Told limit from env r s h

new_service-Told : (max : ℕ) → Told max [] new_service
unfolding new_service lookup
new_service-Told max = record {
  told = refl;
  log = tt;
  ordered = (tt, λ e. refl);
  open_flag = refl;
  sound = λ k. tt;
}

-- Calls keep the agreement.
reach-Told :
    (env : Env) (from : Map ℕ Job) {start s : Service}
    → Told env.config.backend_max_jobs from start
    → ReachFrom env start s
    → Told env.config.backend_max_jobs from s
reach-Told env from h fresh = h
reach-Told env from h (call c {s} r) = perform-Told env from c s (reach-Told env from h r)

-- After any sequence of calls an observer that follows the messages knows exactly the jobs that the
-- scheduler stores, each with its present value. In the order of the messages every new job found
-- room in the backend, every update was about a job that the observer knew, and every job carried the
-- state of its history.
pub reachable-IsLogged :
    (env : Env) {s : Service}
    → Reach env s
    → IsLogged env.config.backend_max_jobs [] s.effects s.jobs
reachable-IsLogged env r = reach-Told env [] (new_service-Told env.config.backend_max_jobs) r

-- The same holds after a start on the jobs of the backend and any sequence of calls, for an observer
-- that begins with those jobs, if the backend loads each job under its own id, once, and in the state
-- of its history.
pub restarted-IsLogged :
    (env : Env) (m : Map ℕ Job) {s : Service}
    → IsLoadable m
    → ReachLoaded env m s
    → IsLogged env.config.backend_max_jobs m s.effects s.jobs
restarted-IsLogged env m h r =
    reach-Told env m (load_jobs-Told env.config.backend_max_jobs m h env) r
