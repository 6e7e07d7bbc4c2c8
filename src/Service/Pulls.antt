-- ===== src/Service/Pulls.antt =====
-- A pull starts the best queued jobs, each once, and keeps the invariant (service/service.go).
use minijob.Prelude.{
  ℕ, zero, suc, ◌≤◌, String, Bool, true, ◌==◌, ◌≡◌, refl, sym, ap, ◌∙◌, inl, inr, Bool-cases,
  Option-cases, Option, none, some, List, [], ◌∷◌, map, Map, lookup, insert, count, one_if,
  if_keeps, nat_eq_iff, nat_Eq, string_Eq, arith,
}
use mathlib.Core.Path.{subst}
use minijob.Prelude.Int64.{pos}
use minijob.Job.{Job}
use minijob.Queue.{QueueEntry, JobHeap, QueuedJobs}
use minijob.Queue.Order.{IsOrdered, count_job}
use minijob.Queue.First.{take, heap_for, first_lem}
use minijob.Queue.Index.{IsIndex, heap_of, indexed, indexed_under}
use minijob.Service.State.{
  Service, Scheduler, Env, Outcome, ok, err, emit, topic_event, empty_poll_received, is_queued,
}
use minijob.Service.Pull.{
  RequestPullJobs, set_visibility, start_each, no_job, find_in, picked,
  find_best_job_candidates_locked, answer, serve, pull_jobs_once, pull_specific_job,
  change_visibility_timeout_job,
}
use minijob.Service.Invariant.{Inv, Change-Inv, here_of, state_of, entry_for}
use minijob.Service.Ends.{visibility-Change}
use minijob.Service.Loops.{ids_of}
use minijob.Service.Starts.{start_job_locked-Inv, AreQueued, AreStarted, start_each_lem}

take-count : (k n : ℕ) (h : JobHeap) → count k (map (λ e. e.job) (take n h)) ≤ count_job k h
take-count k zero h = omega arith
take-count k (suc n) [] = omega arith
take-count k (suc n) (e ∷ h) = omega (arith, take-count k n h)

indexed-entry_for : (o : Option Job) → indexed (entry_for o) ≡ is_queued (state_of o)
indexed-entry_for none = refl
indexed-entry_for (some j) = ground arith

indexed_under-indexed :
    (t : String) (o : Option QueueEntry) → one_if (indexed_under t o) ≤ one_if (indexed o)
indexed_under-indexed t none = omega arith
indexed_under-indexed t (some e) = ground arith

count_job-heap_for :
    (c : Scheduler) (topic : String) (k : ℕ)
    → Inv c
    → count_job k (heap_for topic c.queued) ≤ one_if (is_queued (state_of (lookup k c.jobs)))
unfolding heap_of
count_job-heap_for c topic k v =
    let same : one_if (indexed (lookup k c.queued.entries))
        ≡ one_if (is_queued (state_of (lookup k c.jobs))) =
      ap one_if (ap indexed (v.queued_jobs k) ∙ indexed-entry_for (lookup k c.jobs)) in
    elim (Bool-cases (topic == "*")) [
      | inl e ↦ rw e (omega (arith, v.index.all_count k, same))
      | inr e ↦ rw e (
          omega (
            arith,
            v.index.topic_count topic k,
            same,
            indexed_under-indexed topic (lookup k c.queued.entries),
          ))
    ]

-- The ids of the jobs that a pull of the topic takes: the first of the heap.
abbrev pub best : RequestPullJobs → Scheduler → List ℕ
best req c = map (λ (e : QueueEntry). e.job) (take req.num_jobs (heap_for req.topic c.queued))

best-AreQueued : (req : RequestPullJobs) (c : Scheduler) → Inv c → AreQueued (best req c) c
best-AreQueued req c v k = omega (
  arith,
  take-count k req.num_jobs (heap_for req.topic c.queued),
  count_job-heap_for c req.topic k v,
)

heap_for-IsOrdered : (topic : String) (q : QueuedJobs) → IsIndex q → IsOrdered (heap_for topic q)
unfolding heap_of
heap_for-IsOrdered topic q h = elim (Bool-cases (topic == "*")) [
  | inl e ↦ rw e h.all_ordered
  | inr e ↦ rw e (h.topic_ordered topic)
]

-- What a pull answers to the ids that it finds.
abbrev search : Map ℕ Job → List ℕ → Outcome (List ℕ)
search [] ids = err (no_job "no jobs found in the queue")
search (_ ∷ _) ids = picked ids

find_in_lem :
    (jobs : Map ℕ Job) (req : RequestPullJobs) (c : Scheduler)
    → Inv c
    → find_in jobs req c ≡ (search jobs (best req c), c)
unfolding find_in
find_in_lem [] req c v = refl
find_in_lem (x ∷ jobs) req c v =
    ap (λ (r : List ℕ × QueuedJobs). (picked r.0, record c { queued = r.1 }))
      (first_lem req.topic req.num_jobs c.queued (heap_for-IsOrdered req.topic c.queued v.index))

-- The search of the candidates changes nothing, and finds the best of the topic.
pull_jobs_once-serve :
    (env : Env) (req : RequestPullJobs) (last : Bool) (s : Service)
    → Inv s.sched
    → pull_jobs_once env req last s ≡ serve env req last (search s.jobs (best req s.sched)) s
unfolding pull_jobs_once find_best_job_candidates_locked
pull_jobs_once-serve env req last s v =
    ap (λ (r : Outcome (List ℕ) × Scheduler). serve env req last r.0 (record s { sched = r.1 }))
      (find_in_lem s.jobs req s.sched v)

answer-Inv :
    (req : RequestPullJobs) (js : List Job) (s : Service)
    → Inv s.sched
    → Inv (answer req js s).2.sched
unfolding answer
answer-Inv req [] s v = v
answer-Inv req (j ∷ js) s v = v

serve-Inv :
    (env : Env) (req : RequestPullJobs) (last : Bool) (ids : List ℕ) (jobs : Map ℕ Job)
    (s : Service)
    → Inv s.sched
    → AreQueued ids s.sched
    → Inv (serve env req last (search jobs ids) s).2.sched
unfolding serve picked
serve-Inv env req last ids [] s v a =
    if_keeps (λ (d : Service). Inv d.sched) last
      (emit (topic_event empty_poll_received req.topic) s) s v v
serve-Inv env req last [] (x ∷ jobs) s v a =
    if_keeps (λ (d : Service). Inv d.sched) last
      (emit (topic_event empty_poll_received req.topic) s) s v v
serve-Inv env req last (id ∷ ids) (x ∷ jobs) s v a =
    let (js, s') = start_each env req.visibility_timeout (id ∷ ids) s in
    answer-Inv req js s' (start_each_lem env req.visibility_timeout (id ∷ ids) s v a).1

-- A pull keeps the invariant.
pub pull_jobs_once-Inv :
    (env : Env) (req : RequestPullJobs) (last : Bool) (s : Service)
    → Inv s.sched
    → Inv (pull_jobs_once env req last s).2.sched
pull_jobs_once-Inv env req last s v =
    rw (pull_jobs_once-serve env req last s v)
      (serve-Inv env req last (best req s.sched) s.jobs s v (best-AreQueued req s.sched v))

search-ok :
    (jobs : Map ℕ Job) (id : ℕ) (ids : List ℕ)
    → count id (id ∷ ids) ≤ one_if (is_queued (state_of (lookup id jobs)))
    → search jobs (id ∷ ids) ≡ ok (id ∷ ids)
unfolding picked lookup
search-ok [] id ids a = absurd (ground (arith, a, nat_eq_iff id id))
search-ok (x ∷ jobs) id ids a = refl

answer-ok :
    (req : RequestPullJobs) (js : List Job) (s : Service) (id : ℕ) (ids : List ℕ)
    → ids_of js ≡ id ∷ ids
    → answer req js s ≡ (ok js, true, s)
unfolding answer
answer-ok req [] s id ids e = absurd (ground arith)
answer-ok req (j ∷ js) s id ids e = refl

-- Where the invariant holds, and at least one job is asked for and stands in the heap of the topic, a
-- pull of n jobs answers with exactly the first n jobs of the heap, in the order of the heap. Each of
-- them was queued, and now runs under its id with one more event, its start, and the asked visibility
-- timeout; the answer is that job. Every other job is as it was.
pub pull_jobs_once_takes_best :
    (env : Env) (req : RequestPullJobs) (last : Bool) (s : Service) (id : ℕ) (ids : List ℕ)
    → Inv s.sched
    → best req s.sched ≡ id ∷ ids
    → (js : List Job) × (ids_of js ≡ id ∷ ids)
      × ((pull_jobs_once env req last s).0 ≡ ok js)
      × ((pull_jobs_once env req last s).1 ≡ true)
      × AreStarted req.visibility_timeout js
          (id ∷ ids)
          s.sched
          (pull_jobs_once env req last s).2.sched
      × ((k : ℕ)
          → count k (id ∷ ids) ≡ 0
          → lookup k (pull_jobs_once env req last s).2.jobs ≡ lookup k s.jobs)
unfolding serve
pull_jobs_once_takes_best env req last s id ids v e =
    let found : search s.jobs (best req s.sched) ≡ ok (id ∷ ids) =
      rw e (search-ok s.jobs id ids (rw e at (best-AreQueued req s.sched v id))) in
    let queued : AreQueued (id ∷ ids) s.sched = rw e at (best-AreQueued req s.sched v) in
    let (js, s') = start_each env req.visibility_timeout (id ∷ ids) s in
    let (started, v', all, others) =
      start_each_lem env req.visibility_timeout (id ∷ ids) s v queued in
    let answered : pull_jobs_once env req last s ≡ (ok js, true, s') =
      pull_jobs_once-serve env req last s v
      ∙ ap (λ o. serve env req last o s) found
      ∙ answer-ok req js s' id ids started in
    (
      js,
      started,
      ap (λ r. r.0) answered,
      ap (λ r. r.1) answered,
      subst (AreStarted req.visibility_timeout js (id ∷ ids) s.sched)
          (ap (λ r. r.2.sched) (sym answered)) all,
      λ k n. ap (λ r. lookup k r.2.jobs) answered ∙ others k n,
    )

-- PullSpecificJob keeps the invariant.
pub pull_specific_job-Inv :
    (env : Env) (req : RequestPullJobs) (s : Service)
    → Inv s.sched
    → Inv (pull_specific_job env req s).1.sched
unfolding pull_specific_job
pull_specific_job-Inv env req s v = elim (Option-cases req.job_uuid) [
  | inl e ↦ rw (e, pull_specific_job) v
  | inr (id, e) ↦ elim (Option-cases (lookup id s.jobs)) [
    | inl f ↦ rw (e, pull_specific_job, f) v
    | inr (j, f) ↦
        rw (e, pull_specific_job, f) (start_job_locked-Inv env req.visibility_timeout id s v)
  ]
]

-- ChangeVisibilityTimeoutJob keeps the invariant.
pub change_visibility_timeout_job-Inv :
    (id timeout : ℕ) (s : Service)
    → Inv s.sched
    → Inv (change_visibility_timeout_job id timeout s).1.sched
unfolding change_visibility_timeout_job
change_visibility_timeout_job-Inv id timeout s v = elim (Option-cases (lookup id s.jobs)) [
  | inl e ↦ rw (e, change_visibility_timeout_job) v
  | inr (j, e) ↦
      let (same, here) = here_of s.sched id j v e in
      let j' = set_visibility timeout j in
      let h = visibility-Change (pos 0) s.sched v j here timeout in
      rw (e, change_visibility_timeout_job)
        (subst (λ k. Inv (record s.sched { jobs = insert k j' s.jobs })) same
          (Change-Inv j.id (some j') s.sched _ h v))
]
