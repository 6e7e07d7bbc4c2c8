-- ===== src/Service/Create.antt =====
-- New jobs (service/service.go): CreateJob, CloneJob, and the choice of a new id.
use minijob.Prelude.{
  ℕ, zero, suc, Bool, ◌&&◌, Option, none, some, lookup, insert, if◌then◌else◌, ltb, leb, nat_eq,
  length, nat_Eq,
}
use minijob.Prelude.Int64.{ℤ, pos, ltb_ℤ, eq_ℤ}
use minijob.Constants.{
  error_cant_create_job, error_cant_clone_job, status_bad_request, status_service_unavailable,
  status_internal_server_error,
}
use minijob.Job.{Job, JobRequest, new_job_from_request, clone, init}
use minijob.Service.State.{
  job_created, job_event, ApiError, Env, Scheduler, Service, Outcome, ok, err, now, tick, emit,
}
use minijob.Service.Scheduling.{
  set_job_state_to_delayed_locked, set_job_state_to_pending_locked, starts_later,
  try_enqueue_pending_jobs_locked,
}

unfoldable pub cannot_create : ℕ → ApiError
cannot_create http = record {
  message = "cannot create job";
  code = error_cant_create_job;
  http_code = http;
  job_uuid = 0;
}

-- The error of NewJobFromRequest for a payload that cannot be decoded.
abbrev pub undecodable : ApiError
undecodable = record {
  message = "cannot create job from request";
  code = error_cant_create_job;
  http_code = status_bad_request;
  job_uuid = 0;
}

-- NewJobFromRequest reads the clock if there is a delay and no start time.
abbrev pub decode_reads : Option JobRequest → ℕ → ℕ
decode_reads none n = n
decode_reads (some r) n =
    if ltb_ℤ (pos 0) r.delay then (if eq_ℤ r.start_after (pos 0) then suc n else n) else n

-- checkMaxAllowedJobsLocked
unfoldable pub check_max_allowed_jobs_locked : Env → Service → Option ApiError
unfolding cannot_create
check_max_allowed_jobs_locked env s =
    if nat_eq env.config.max_allowed_jobs 0
    then none
    else if ltb (length s.jobs) env.config.max_allowed_jobs
    then none
    else some (cannot_create status_service_unavailable)

-- The loop of generateNewJobUuidLocked, on fuel: the candidates from the n-th draw on. The outer
-- `none` means that the fuel ran out; `err` is the error of the generator.
unfoldable pub generate_new_job_uuid_locked : ℕ → Env → ℕ → Scheduler → Option (Outcome ℕ × ℕ)
unfolding cannot_create
generate_new_job_uuid_locked zero env n c = none
generate_new_job_uuid_locked (suc fuel) env n c = elim (env.uuids n) [
  | none ↦ some (err (cannot_create status_internal_server_error), suc n)
  | some id ↦ elim (lookup id c.jobs) [
    | none ↦ some (ok id, suc n)
    | some _ ↦ generate_new_job_uuid_locked fuel env (suc n) c
  ]
]

-- `if j.StartAfter != 0 && j.StartAfter > now`: the first scheduling of a job, at a time that was
-- read just before.
unfoldable pub schedule : Env → ℤ → Job → Service → Job × Service
schedule env t j s =
    if starts_later t j
    then set_job_state_to_delayed_locked env j s
    else set_job_state_to_pending_locked env j s

-- j.Init and svc.jobs[j.JobUUID] = j, at the first reading of the clock, and the notification.
unfoldable pub store_new_job : Env → ℕ → Job → Service → Service
unfolding init
store_new_job env id j s =
    let j' = init id (now env s) j in
    emit (job_event job_created j')
      (record s { sched = record s.sched { jobs = insert id j' s.jobs }; reads = suc s.reads })

-- finalizeJobCreationLocked behind the search for an id, whose result and number of draws are given.
-- The result is the job as it was created, before it is queued.
unfoldable pub finalize_with : Env → Job → Service → Outcome ℕ × ℕ → Outcome Job × Service
unfolding store_new_job schedule
finalize_with env j s (err e, n) = (err e, record s { draws = n; reads = suc s.reads })
finalize_with env j s (ok id, n) =
    let s' = store_new_job env id j (record s { draws = n }) in
    let (created, s'') = schedule env (now env s') (init id (now env s) j) (tick s') in
    (ok created, try_enqueue_pending_jobs_locked env s'')

-- `maxJobs > 0 && len(svc.jobs) >= maxJobs`
abbrev pub is_full : Env → Service → Bool
is_full env s = ltb 0 env.config.backend_max_jobs && leb env.config.backend_max_jobs (length s.jobs)

-- finalizeJobCreationLocked. The fuel of the search for an id is one more than the number of jobs.
unfoldable pub finalize_job_creation_locked : Env → Job → Service → Option (Outcome Job × Service)
unfolding cannot_create finalize_with
finalize_job_creation_locked env j s =
    if is_full env s
    then some (err (cannot_create status_service_unavailable), s)
    else elim (generate_new_job_uuid_locked (suc (length s.jobs)) env s.draws s.sched) [
      | none ↦ none
      | some r ↦ some (finalize_with env j s r)
    ]

-- CreateJob. The payload is given by its decoding: `none` is an error of json.Unmarshal.
-- NewJobFromRequest reads the clock, where it does, before the lock is taken.
unfoldable pub create_job : Env → Option JobRequest → Service → Option (Outcome Job × Service)
unfolding check_max_allowed_jobs_locked
create_job env req s =
    let s' = record s { reads = decode_reads req s.reads } in
    elim (check_max_allowed_jobs_locked env s') [
      | some e ↦ some (err e, s')
      | none ↦ elim req [
        | none ↦ some (err undecodable, s')
        | some r ↦ finalize_job_creation_locked env (new_job_from_request (now env s) r) s'
      ]
    ]

unfoldable pub cannot_clone : ℕ → ApiError
cannot_clone id = record {
  message = "job not found";
  code = error_cant_clone_job;
  http_code = status_bad_request;
  job_uuid = id;
}

-- CloneJob
unfoldable pub clone_job : Env → ℕ → Service → Option (Outcome Job × Service)
unfolding check_max_allowed_jobs_locked cannot_clone
clone_job env id s = elim (lookup id s.jobs) [
  | none ↦ some (err (cannot_clone id), s)
  | some j ↦ elim (check_max_allowed_jobs_locked env s) [
    | some e ↦ some (err e, s)
    | none ↦ finalize_job_creation_locked env (clone j) s
  ]
]
