-- ===== src/Service/Periodic.antt =====
-- The periodic tasks (service/service.go). Run calls them one at a time, so that the flags which
-- keep a task from running twice at once are never set when a task begins.
use minijob.Prelude.{
  ℕ, zero, suc, ◌*◌, Bool, true, false, ◌&&◌, Option, none, some, List, [], ◌∷◌, ◌++◌, map, lookup,
  keep_if, length, if◌then◌else◌, nat_Eq,
}
use minijob.Prelude.Int64.{ℤ, leb_ℤ, neg64, sub64, signed64}
use minijob.Job.{Job, get_last_update_date}
use minijob.Pq.{PriorityQueue, enqueue, dequeue_with_priority}
use minijob.Resources.{sorted_job_ids}
use minijob.Service.State.{ApiError, Env, Scheduler, Service, now, tick, is_running}
use minijob.Service.Scheduling.{
  set_job_state_to_pending_locked, retry_job_locked, jobs_at, try_enqueue_pending_jobs_locked,
}
use minijob.Service.Finish.{fail_job_locked}

-- A job that cannot be retried yet is blocked.
unfoldable pub blocked_if : ℕ → ℤ → Option ApiError × Service → List (ℕ × ℤ) × Service
blocked_if id p (none, s) = ([], s)
blocked_if id p (some x, s) = ((id, p) ∷ [], s)

-- One round of the loop of AttemptJobRetries, behind the dequeue.
unfoldable pub retry_one : Env → ℕ → ℤ → Service → List (ℕ × ℤ) × Service
unfolding blocked_if
retry_one env id p s = elim (lookup id s.jobs) [
  | none ↦ ([], s)
  | some j ↦ blocked_if id p (retry_job_locked env j s)
]

-- The loop of AttemptJobRetries, on fuel: the blocked jobs, in order, and the state.
unfoldable pub retry_ready : ℕ → Env → ℤ → Service → List (ℕ × ℤ) × Service
retry_ready zero env m s = ([], s)
retry_ready (suc fuel) env m s = elim (dequeue_with_priority m s.retry) [
  | none ↦ ([], s)
  | some (id, p, rest) ↦
      let (one, s') = retry_one env id p (record s { sched = record s.sched { retry = rest } }) in
      let (more, s'') = retry_ready fuel env m s' in (one ++ more, s'')
]

unfoldable pub enqueue_blocked : List (ℕ × ℤ) → PriorityQueue ℕ → PriorityQueue ℕ
enqueue_blocked [] q = q
enqueue_blocked ((id, p) ∷ bs) q = enqueue_blocked bs (enqueue id p q)

-- AttemptJobRetries. A round takes one entry away, so the fuel is one more than their number.
unfoldable pub attempt_job_retries : Env → Service → Service
attempt_job_retries env s =
    let m = neg64 (now env s) in
    let (blocked, s') = retry_ready (suc (length s.retry.nodes)) env m (tick s) in
    record s' { sched = record s'.sched { retry = enqueue_blocked blocked s'.retry } }

-- `now - j.GetLastUpdateDate() >= int64(j.VisibilityTimeout * 1000)`
unfoldable pub timed_out : ℤ → Job → Bool
unfolding sub64 signed64
timed_out t j = leb_ℤ (signed64 (j.visibility_timeout * 1000)) (sub64 t (get_last_update_date j))

abbrev pub timed_out_ids : ℤ → Scheduler → List ℕ
timed_out_ids t c =
    map (λ (j : Job). j.id)
      (keep_if (λ j. is_running j.state && timed_out t j) (jobs_at (sorted_job_ids c.jobs) c))

unfoldable pub fail_each : Env → List ℕ → Service → Service
fail_each env [] s = s
fail_each env (id ∷ ids) s = fail_each env ids (fail_job_locked env id s).1

-- CheckJobsVisibilityTimeout
unfoldable pub check_jobs_visibility_timeout : Env → Service → Service
check_jobs_visibility_timeout env s =
    let ids = timed_out_ids (now env s) s.sched in
    elim ids [
      | [] ↦ tick s
      | id ∷ more ↦ try_enqueue_pending_jobs_locked env (fail_each env (id ∷ more) (tick s))
    ]

unfoldable pub pending_one : Env → ℕ → Service → Service
pending_one env id s = elim (lookup id s.jobs) [
  | none ↦ s
  | some j ↦ (set_job_state_to_pending_locked env j s).1
]

-- The loop of CheckDelayedJobs, on fuel; the flag is `found`.
unfoldable pub release_ready : ℕ → Env → ℤ → Service → Bool × Service
release_ready zero env m s = (false, s)
release_ready (suc fuel) env m s = elim (dequeue_with_priority m s.delayed) [
  | none ↦ (false, s)
  | some (id, p, rest) ↦ (
    true,
    (release_ready fuel env m
        (pending_one env id (record s { sched = record s.sched { delayed = rest } }))).1,
  )
]

-- CheckDelayedJobs. A round takes one entry away, so the fuel is one more than their number.
unfoldable pub check_delayed_jobs : Env → Service → Service
check_delayed_jobs env s =
    let (found, s') =
      release_ready (suc (length s.delayed.nodes)) env (neg64 (now env s)) (tick s) in
    if found then try_enqueue_pending_jobs_locked env s' else s'
