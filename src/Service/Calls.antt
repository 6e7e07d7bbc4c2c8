-- ===== src/Service/Calls.antt =====
-- The calls of the scheduler (service/service.go). The mutex makes each call one step.
use minijob.Prelude.{ℕ, String, Bool, Option, none, some}
use minijob.Job.{JobRequest}
use minijob.Service.State.{Service, Env}
use minijob.Service.Scheduling.{try_enqueue_pending_jobs_locked}
use minijob.Service.Create.{create_job, clone_job}
use minijob.Service.Finish.{set_job_as_successful, cancel_job, fail_job_locked}
use minijob.Service.Remove.{
  delete_job_locked, unlock_all, delete_all_jobs, delete_queued_jobs, unlock_one,
  delete_old_completed_jobs_locked,
}
use minijob.Service.Pull.{
  RequestPullJobs, start_job_locked, pull_jobs_once, pull_specific_job,
  change_visibility_timeout_job,
}
use minijob.Service.Periodic.{
  attempt_job_retries, check_jobs_visibility_timeout, check_delayed_jobs,
}

-- The methods of the service that change its state.
pub data Call : Type 0 where
  create : Option JobRequest → Call
  clone_of : ℕ → Call
  pull : RequestPullJobs → Bool → Call
  pull_one : RequestPullJobs → Call
  start : ℕ → ℕ → Call
  success cancel fail delete : ℕ → Call
  change_visibility : ℕ → ℕ → Call
  delete_all delete_queued unlock_all_locks try_enqueue retention timeouts retries delayed : Call
  unlock : String → Call

-- The state behind a call whose loop may run out of fuel.
abbrev pub behind {ℓ} : {A : Type ℓ} → Option (A × Service) → Service → Service
behind none s = s
behind (some r) s = r.1

unfoldable pub perform : Env → Call → Service → Service
perform env (create req) s = behind (create_job env req s) s
perform env (clone_of id) s = behind (clone_job env id s) s
perform env (pull req last) s = (pull_jobs_once env req last s).2
perform env (pull_one req) s = (pull_specific_job env req s).1
perform env (start timeout id) s = (start_job_locked env timeout id s).1
perform env (success id) s = (set_job_as_successful env id s).1
perform env (cancel id) s = (cancel_job env id s).1
perform env (fail id) s = (fail_job_locked env id s).1
perform env (delete id) s = (delete_job_locked env id s).1
perform env (change_visibility id timeout) s = (change_visibility_timeout_job id timeout s).1
perform env delete_all s = delete_all_jobs s
perform env delete_queued s = (delete_queued_jobs env s).1
perform env unlock_all_locks s = unlock_all env s
perform env try_enqueue s = try_enqueue_pending_jobs_locked env s
perform env retention s = delete_old_completed_jobs_locked env s
perform env timeouts s = check_jobs_visibility_timeout env s
perform env retries s = attempt_job_retries env s
perform env delayed s = check_delayed_jobs env s
perform env (unlock r) s = (unlock_one env r s).1
