-- ===== src/Service/Pull.antt =====
-- Workers take jobs (service/service.go): StartJob, pullJobsOnce, PullSpecificJob,
-- ChangeVisibilityTimeoutJob.
use minijob.Prelude.{
  ℕ, String, Bool, true, false, Option, none, some, List, [], ◌∷◌, Map, lookup, insert,
  if◌then◌else◌, nat_Eq,
}
use minijob.Constants.{
  error_cant_start_job, error_cant_pull_any_job, error_cant_pull_specific_job, error_cant_clone_job,
  status_not_found,
}
use minijob.Job.{Job, EventType}
use minijob.Queue.{first}
use minijob.Service.State.{
  job_started, empty_poll_received, job_event, topic_event, job_updated, ApiError, Env, Scheduler,
  Service, Outcome, ok, err, emit, is_queued, drop_pending, add_history_event_locked,
}
use minijob.Service.Finish.{refuse}

-- service/iservice.go
pub record RequestPullJobs : Type 0 where
  pub job_uuid : Option ℕ
  pub topic : String
  pub num_jobs : ℕ
  pub visibility_timeout : ℕ
  pub wait_time_seconds : ℕ

-- j.VisibilityTimeout = t, on a job of the map
abbrev pub set_visibility : ℕ → Job → Job
set_visibility t j = record j { visibility_timeout = t }

-- startJobLocked behind its checks: the job as it was started, and the state.
unfoldable pub start_run : Env → ℕ → Job → Service → Job × Service
unfolding add_history_event_locked
start_run env timeout j s =
    let (j', s') =
      add_history_event_locked env EventType.start j
        (record s { sched = drop_pending j.id s.sched }) in
    let j'' = set_visibility timeout j' in
    (
      j'',
      emit (job_event job_started j'')
          (record s' { sched = record s'.sched { jobs = insert j.id j'' s'.jobs } }),
    )

-- startJobLocked, and StartJob; the result is the job as it was started
unfoldable pub start_job_locked : Env → ℕ → ℕ → Service → Outcome Job × Service
unfolding start_run refuse
start_job_locked env timeout id s = elim (lookup id s.jobs) [
  | none ↦ (err (refuse "job not found" error_cant_start_job id), s)
  | some j ↦
      if is_queued j.state
      then (let (j', s') = start_run env timeout j s in (ok j', s'))
      else (err (refuse "job already started" error_cant_start_job id), s)
]

abbrev pub no_job : String → ApiError
no_job message = record {
  message = message;
  code = error_cant_pull_any_job;
  http_code = status_not_found;
  job_uuid = 0;
}

-- findBestJobCandidatesLocked, on what `first` found
unfoldable pub picked : List ℕ → Outcome (List ℕ)
picked [] = err (no_job "no job found that is ready or matches the criteria")
picked (id ∷ ids) = ok (id ∷ ids)

-- findBestJobCandidatesLocked: the ids of the candidates. The heaps are put back as `first` leaves
-- them. The first argument is svc.jobs, whose length is tested.
unfoldable pub find_in : Map ℕ Job → RequestPullJobs → Scheduler → Outcome (List ℕ) × Scheduler
unfolding picked
find_in [] req c = (err (no_job "no jobs found in the queue"), c)
find_in (_ ∷ _) req c =
    let (ids, q) = first req.topic req.num_jobs c.queued in (picked ids, record c { queued = q })

unfoldable pub find_best_job_candidates_locked :
    RequestPullJobs → Scheduler → Outcome (List ℕ) × Scheduler
unfolding find_in
find_best_job_candidates_locked req c = find_in c.jobs req c

-- One more started job.
abbrev pub with_started : Outcome Job → List Job → List Job
with_started (err e) js = js
with_started (ok j) js = j ∷ js

-- The loop over the candidates: a job that cannot be started is skipped.
unfoldable pub start_each : Env → ℕ → List ℕ → Service → List Job × Service
start_each env timeout [] s = ([], s)
start_each env timeout (id ∷ ids) s =
    let (o, s') = start_job_locked env timeout id s in
    let (js, s'') = start_each env timeout ids s' in (with_started o js, s'')

-- The answer of pullJobsOnce to the jobs that were started.
unfoldable pub answer : RequestPullJobs → List Job → Service → Outcome (List Job) × Bool × Service
answer req [] s = (
  err (no_job "no job found that is ready or matches the criteria"),
  true,
  emit (topic_event empty_poll_received req.topic) s,
)
answer req (j ∷ js) s = (ok (j ∷ js), true, s)

-- pullJobsOnce behind findBestJobCandidatesLocked
unfoldable pub serve :
    Env → RequestPullJobs → Bool → Outcome (List ℕ) → Service → Outcome (List Job) × Bool × Service
unfolding start_each answer
serve env req last (err e) s =
    (err e, false, if last then emit (topic_event empty_poll_received req.topic) s else s)
serve env req last (ok ids) s =
    let (js, s') = start_each env req.visibility_timeout ids s in answer req js s'

-- pullJobsOnce. The flag is `found`; the empty poll is notified when `last` is true.
unfoldable pub pull_jobs_once :
    Env → RequestPullJobs → Bool → Service → Outcome (List Job) × Bool × Service
unfolding find_best_job_candidates_locked serve
pull_jobs_once env req last s =
    let (o, c) = find_best_job_candidates_locked req s.sched in
    serve env req last o (record s { sched = c })

abbrev pub pull_refuse : String → ℕ → ApiError
pull_refuse message id = refuse message error_cant_pull_specific_job id

-- The answer of PullSpecificJob to startJobLocked.
unfoldable pub one_job : Outcome Job → Outcome (List Job)
one_job (err e) = err e
one_job (ok j) = ok (j ∷ [])

-- PullSpecificJob
unfoldable pub pull_specific_job : Env → RequestPullJobs → Service → Outcome (List Job) × Service
unfolding one_job
pull_specific_job env req s = elim req.job_uuid [
  | none ↦ (err (pull_refuse "job uuid is missing" 0), s)
  | some id ↦ elim (lookup id s.jobs) [
    | none ↦ (err (pull_refuse "job not found in the queue" id), s)
    | some _ ↦ let (o, s') = start_job_locked env req.visibility_timeout id s in (one_job o, s')
  ]
]

-- ChangeVisibilityTimeoutJob
unfoldable pub change_visibility_timeout_job : ℕ → ℕ → Service → Option ApiError × Service
unfolding refuse
change_visibility_timeout_job id timeout s = elim (lookup id s.jobs) [
  | none ↦ (some (refuse "job not found" error_cant_clone_job id), s)
  | some j ↦
      let j' = set_visibility timeout j in
      (
        none,
        emit (job_updated j') (record s { sched = record s.sched { jobs = insert id j' s.jobs } }),
      )
]
