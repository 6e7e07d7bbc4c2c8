-- ===== src/Service/Restored/Starts.antt =====
-- The scheduler behind LoadJobs satisfies its invariant (service/service.go).
use minijob.Prelude.{
  ℕ, ◌≤◌, String, false, ◌≡◌, refl, ap, sym, ◌∙◌, inl, inr, Option-cases, Option, none, some, List,
  [], ◌∷◌, Map, keys, lookup, lookup-insert, count, one_if, if◌then◌else◌, ltb, nat_eq, nat_eq_iff,
  nat_Eq, string_Eq, arith,
}
use mathlib.Core.Path.{subst}
use minijob.Prelude.Int64.{ℤ}
use minijob.Job.{Job, JobState, EventType, add_history_event}
use minijob.Job.History.{last_state-IsConsistent}
use minijob.Pq.Order.{new-IsValid}
use minijob.Pq.Count.{count_value-new}
use minijob.Queue.Index.{new_queued_jobs-IsIndex}
use minijob.Resources.{lock_resources_for_jobs, sorted_job_ids}
use minijob.Resources.Restoring.{count-sort_by, lock_resources_for_jobs_latest}
use minijob.Service.State.{
  Scheduler, Service, Env, new_service, now, tick, add_history_event_locked, add_history,
}
use minijob.Service.Scheduling.{
  read_for, set_job_state_to_delayed_locked, set_job_state_to_pending_locked,
}
use minijob.Service.Create.{schedule}
use minijob.Service.Creates.{schedule-Inv}
use minijob.Service.Loops.{try_enqueue-Inv}
use minijob.Service.Restore.{
  restore_each, is_created, created_ids, locked_counts, count_locks, schedule_each, start_created,
  take_jobs, restore_jobs, load_jobs,
}
use minijob.Service.Invariant.{Inv, HasId, HasLastState, Owned, state_of, here_of}
use minijob.Service.Logged.{IsSound}
use minijob.Service.Restored.{
  IsLoadable, Placed, restore_each-jobs, restore_each-locks, restore_each-Placed,
}

pub lookup_absent : (k : ℕ) (m : Map ℕ Job) → count k (keys m) ≡ 0 → lookup k m ≡ none
unfolding lookup
lookup_absent k [] e = refl
lookup_absent k ((i, j) ∷ m) e = ground (arith, lookup_absent k m, e)

sound-HasId : (k : ℕ) (o : Option Job) → IsSound k o → HasId k o
sound-HasId k none h = tt
sound-HasId k (some j) h = h.0

sound-HasLastState : (k : ℕ) (o : Option Job) → IsSound k o → HasLastState o
sound-HasLastState k none h = tt
sound-HasLastState k (some j) h = last_state-IsConsistent j h.1

pub sound_id :
    (m : Map ℕ Job)
    → ((k : ℕ) → IsSound k (lookup k m))
    → (k : ℕ) (j : Job) → lookup k m ≡ some j
    → j.id ≡ k
sound_id m h k j e = (subst (IsSound k) e (h k)).0

pub count_locks-sched :
    (counts : Map String ℕ) (s : Service) → (count_locks counts s).sched ≡ s.sched
unfolding count_locks
count_locks-sched [] s = refl
count_locks-sched ((t, n) ∷ counts) s = count_locks-sched counts _

module _ (m : Map ℕ Job) (h : IsLoadable m) where
  start-Placed : Placed (sorted_job_ids m) (take_jobs m new_service).sched
  unfolding take_jobs new_service sorted_job_ids lookup
  start-Placed = record {
    ids = λ k. sound-HasId k (lookup k m) (h.sound k);
    pending_jobs = λ k. ground (arith, count-sort_by ltb k (keys m), lookup_absent k m);
    queued_jobs = λ k. ground (arith, count-sort_by ltb k (keys m), lookup_absent k m);
    hidden_jobs =
        λ k. ground (arith, count_value-new k, count-sort_by ltb k (keys m), lookup_absent k m);
    delayed_jobs =
        λ k. ground (arith, count_value-new k, count-sort_by ltb k (keys m), lookup_absent k m);
    index = new_queued_jobs-IsIndex;
    retry_queue = new-IsValid;
    delayed_queue = new-IsValid;
  }

  pub sorted-once : (k : ℕ) → count k (sorted_job_ids m) ≤ 1
  unfolding sorted_job_ids
  sorted-once k = rw (count-sort_by ltb k (keys m)) (h.once k)

  Owned-start :
      (r : String) (held : Option ℕ) → lookup r (lock_resources_for_jobs m) ≡ held → Owned r held m
  Owned-start r none e = tt
  Owned-start r (some o) e =
      let c = (lock_resources_for_jobs_latest m r (sound_id m h.sound) (some o) e).0 in
      elim (Option-cases (lookup o m)) [
        | inl f ↦ absurd (ground (arith, c, f))
        | inr (j, f) ↦ rw f (ground (arith, c, f))
      ]

  -- Before the created jobs are scheduled.
  pub restore_jobs-Inv : (env : Env) → Inv (restore_jobs env m new_service).sched
  unfolding restore_jobs take_jobs
  restore_jobs-Inv env =
      let ids = sorted_job_ids m in
      let s0 = tick (take_jobs m new_service) in
      let s1 = restore_each (now env new_service) ids s0 in
      let p = restore_each-Placed (now env new_service) ids s0 sorted-once start-Placed in
      let jobs : s1.jobs ≡ m = restore_each-jobs (now env new_service) ids s0 in
      let locks : s1.locks ≡ lock_resources_for_jobs m =
        restore_each-locks (now env new_service) ids s0 in
      let v : Inv s1.sched = record {
        ids = p.ids;
        histories = λ k. rw jobs (sound-HasLastState k (lookup k m) (h.sound k));
        pending_jobs = p.pending_jobs;
        queued_jobs = p.queued_jobs;
        hidden_jobs = p.hidden_jobs;
        delayed_jobs = p.delayed_jobs;
        index = p.index;
        retry_queue = p.retry_queue;
        delayed_queue = p.delayed_queue;
        locks_owned =
            λ r. rw (jobs, locks) (Owned-start r (lookup r (lock_resources_for_jobs m)) refl);
      } in
      subst Inv (sym (count_locks-sched (locked_counts m s1.locks []) s1)) v

  pub restore_jobs-jobs : (env : Env) → (restore_jobs env m new_service).jobs ≡ m
  unfolding restore_jobs take_jobs
  restore_jobs-jobs env =
      let s1 =
        restore_each (now env new_service) (sorted_job_ids m) (tick (take_jobs m new_service)) in
      ap (λ (c : Scheduler). c.jobs) (count_locks-sched (locked_counts m s1.locks []) s1)
      ∙ restore_each-jobs (now env new_service) (sorted_job_ids m) (tick (take_jobs m new_service))

-- Each id of the list belongs to a created job, and stands there once.
abbrev pub AreCreated : List ℕ → Map ℕ Job → Type 0
AreCreated ids jobs = (k : ℕ) → count k ids ≤ one_if (is_created (state_of (lookup k jobs)))

pub count-created_ids :
    (jobs : Map ℕ Job) (ids : List ℕ) (k : ℕ)
    → count k (created_ids jobs ids)
      ≡ (if is_created (state_of (lookup k jobs)) then count k ids else 0)
unfolding created_ids
count-created_ids jobs [] k = ground arith
count-created_ids jobs (id ∷ ids) k = ground (arith, nat_eq_iff id k, count-created_ids jobs ids k)

pub schedule-others :
    (env : Env) (t : ℤ) (j : Job) (s : Service) (k : ℕ)
    → nat_eq j.id k ≡ false
    → lookup k (schedule env t j s).1.jobs ≡ lookup k s.jobs
unfolding schedule set_job_state_to_delayed_locked set_job_state_to_pending_locked
    add_history_event_locked add_history
schedule-others env t j s k n = ground (
  arith,
  n,
  nat_eq_iff j.id k,
  lookup-insert j.id k (add_history_event EventType.delay (now env s) j) s.jobs,
  lookup-insert j.id k (add_history_event EventType.pending (now env s) j) s.jobs,
)

pub schedule_each-Inv :
    (env : Env) (ids : List ℕ) (s : Service)
    → Inv s.sched
    → AreCreated ids s.jobs
    → Inv (schedule_each env ids s).sched
unfolding schedule_each
schedule_each-Inv env [] s v a = v
schedule_each-Inv env (id ∷ ids) s v a = elim (Option-cases (lookup id s.jobs)) [
  | inl e ↦ rw (e, schedule_each) (schedule_each-Inv env ids s v (λ k. omega (arith, a k)))
  | inr (j, e) ↦
      let (same, here) = here_of s.sched id j v e in
      let new : j.state ≡ JobState.created = ground (arith, a id, nat_eq_iff id id) in
      let s' = (schedule env (now env s) j (read_for j s)).1 in
      rw (e, schedule_each)
        (schedule_each-Inv env ids s' (schedule-Inv env (now env s) j (read_for j s) v here new)
          (λ k. ground (
            arith,
            a k,
            schedule-others env (now env s) j (read_for j s) k,
            nat_eq_iff j.id k,
            nat_eq_iff id k,
          )))
]

start_created-Inv :
    (env : Env) (ids : List ℕ) (s : Service)
    → Inv s.sched
    → AreCreated ids s.jobs
    → Inv (start_created env ids s).sched
unfolding start_created
start_created-Inv env [] s v a = v
start_created-Inv env (id ∷ ids) s v a =
    try_enqueue-Inv env (schedule_each env (id ∷ ids) s) (schedule_each-Inv env (id ∷ ids) s v a)

-- If the backend loads each job under its own id, once, and in the state of its history, the
-- scheduler satisfies its invariant behind LoadJobs.
pub load_jobs-Inv :
    (env : Env) (m : Map ℕ Job) → IsLoadable m → Inv (load_jobs env (some m) new_service).1.sched
unfolding load_jobs
load_jobs-Inv env m h =
    let ids = sorted_job_ids m in
    start_created-Inv env (created_ids m ids) (restore_jobs env m new_service)
      (restore_jobs-Inv m h env)
      (λ k.
        rw (restore_jobs-jobs m h env)
          (ground (arith, count-created_ids m ids k, sorted-once m h k)))
