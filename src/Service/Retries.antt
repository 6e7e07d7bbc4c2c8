-- ===== src/Service/Retries.antt =====
-- AttemptJobRetries keeps the invariant of the scheduler (service/service.go). In its loop the
-- blocked jobs stand in no container.
use minijob.Prelude.{
  ℕ, zero, suc, ◌+◌, true, ◌≡◌, refl, ap, ◌∙◌, inl, inr, Option-cases, none, some, List, [], ◌∷◌,
  ◌++◌, map, lookup, count, length, if◌then◌else◌, nat_eq, nat_eq_iff, nat_Eq, arith,
}
use minijob.Prelude.Int64.{ℤ, pos, neg64}
use minijob.Job.{Job, EventType}
use minijob.Pq.{PriorityQueue, enqueue, dequeue_with_priority}
use minijob.Pq.Order.{IsValid, enqueue-IsValid, dequeue_with_priority-IsValid}
use minijob.Pq.Count.{count_value, count_value-enqueue, count_value-dequeue_with_priority}
use minijob.Resources.{locked, lock_resources}
use minijob.Service.State.{
  Service, Scheduler, Env, now, tick, add_history, is_hidden, add_history_event_locked,
}
use minijob.Service.Scheduling.{to_queue}
use minijob.Service.Periodic.{
  blocked_if, retry_one, retry_ready, enqueue_blocked, attempt_job_retries,
}
use minijob.Service.Invariant.{Inv, Change-Inv, here_of, state_of}
use minijob.Service.Steps.{retry-Change}
use minijob.Service.Preserve.{retry_job_locked_cases, with_locks}

-- The invariant holds once the jobs `held` are back in the retry queue, wherever they stand there.
record InvWith (held : List ℕ) (c : Scheduler) : Type 0 where
  valid : IsValid c.retry
  inv :
      (q : PriorityQueue ℕ)
      → IsValid q
      → ((k : ℕ) → count_value k q ≡ count k held + count_value k c.retry)
      → Inv (record c { retry = q })

-- What a round finds about the job that it takes out.
module _ (c : Scheduler) (id : ℕ) (held : List ℕ) (w : InvWith (id ∷ held) c) (q : PriorityQueue ℕ)
    (valid : IsValid q)
    (counted : (k : ℕ) → count_value k q ≡ count k held + count_value k c.retry) where
  abbrev back : PriorityQueue ℕ
  back = enqueue id (pos 0) q

  back-Inv : Inv (record c { retry = back })
  back-Inv =
      w.inv back (enqueue-IsValid id (pos 0) q valid)
        (λ k. ground (arith, counted k, count_value-enqueue k id (pos 0) q))

  taken_hidden : is_hidden (state_of (lookup id c.jobs)) ≡ true
  taken_hidden =
      ground (arith, back-Inv.hidden_jobs id, count_value-enqueue id id (pos 0) q, nat_eq_iff id id)

  taken_gone : (k : ℕ) → count_value k q ≡ (if nat_eq id k then 0 else count_value k back)
  taken_gone k =
      ground (arith, back-Inv.hidden_jobs k, count_value-enqueue k id (pos 0) q, nat_eq_iff id k)

  taken-Inv :
      (t : ℤ) (n : ℕ) (j : Job)
      → lookup id c.jobs ≡ some j
      → (lock_resources j c.locks).0 ≡ locked n
      → Inv
          (record (add_history EventType.enqueue t j
            (record c { locks = (lock_resources j c.locks).1 })) { retry = q })
  unfolding add_history
  taken-Inv t n j f g =
      let c0 : Scheduler = record c { retry = back } in
      let (same, here) = here_of c0 id j back-Inv f in
      let hidden : is_hidden j.state ≡ true = rw f at taken_hidden in
      Change-Inv j.id _ c0 _
        (retry-Change t c0 back-Inv j here n q (ground arith) (ground arith)
          (λ k. ground (arith, taken_gone k, same)) valid g)
        back-Inv

abbrev ids_of_blocked : List (ℕ × ℤ) → List ℕ
ids_of_blocked bs = map (λ (b : ℕ × ℤ). b.0) bs

enqueue_blocked-IsValid :
    (bs : List (ℕ × ℤ)) (q : PriorityQueue ℕ) → IsValid q → IsValid (enqueue_blocked bs q)
unfolding enqueue_blocked
enqueue_blocked-IsValid [] q h = h
enqueue_blocked-IsValid ((id, p) ∷ bs) q h =
    enqueue_blocked-IsValid bs (enqueue id p q) (enqueue-IsValid id p q h)

count_value-enqueue_blocked :
    (k : ℕ) (bs : List (ℕ × ℤ)) (q : PriorityQueue ℕ)
    → count_value k (enqueue_blocked bs q) ≡ count k (ids_of_blocked bs) + count_value k q
unfolding enqueue_blocked
count_value-enqueue_blocked k [] q = omega arith
count_value-enqueue_blocked k ((id, p) ∷ bs) q =
    ground (arith, count_value-enqueue_blocked k bs (enqueue id p q), count_value-enqueue k id p q)

-- The held jobs, as a list of blocked ones.
as_blocked : List ℕ → List (ℕ × ℤ)
as_blocked [] = []
as_blocked (id ∷ ids) = (id, pos 0) ∷ as_blocked ids

ids_of-as_blocked : (ids : List ℕ) → ids_of_blocked (as_blocked ids) ≡ ids
unfolding as_blocked
ids_of-as_blocked [] = refl
ids_of-as_blocked (id ∷ ids) = ap (◌∷◌ id) (ids_of-as_blocked ids)

-- The job that is taken out exists.
taken_exists :
    (c : Scheduler) (id : ℕ) (held : List ℕ) → InvWith (id ∷ held) c → lookup id c.jobs ≡ none → ⊥
taken_exists c id held w f =
    let q : PriorityQueue ℕ = enqueue_blocked (as_blocked held) c.retry in
    let hidden =
      taken_hidden c id held w q (enqueue_blocked-IsValid (as_blocked held) c.retry w.valid) (λ k.
        count_value-enqueue_blocked k (as_blocked held) c.retry
        ∙ ap (λ ids. count k ids + count_value k c.retry) (ids_of-as_blocked held)) in
    ground (arith, f, hidden)

retry_one-InvWith :
    (env : Env) (id : ℕ) (p : ℤ) (held : List ℕ) (s : Service)
    → InvWith (id ∷ held) s.sched
    → InvWith (ids_of_blocked (retry_one env id p s).0 ++ held) (retry_one env id p s).1.sched
unfolding retry_one blocked_if to_queue add_history_event_locked add_history
retry_one-InvWith env id p held s w = elim (Option-cases (lookup id s.jobs)) [
  | inl f ↦ absurd (taken_exists s.sched id held w f)
  | inr (j, f) ↦
      rw (f, retry_one)
        (retry_job_locked_cases
          (λ r. InvWith (ids_of_blocked (blocked_if id p r).0 ++ held) (blocked_if id p r).1.sched)
          env j s w
          (λ n g. record {
            valid = w.valid;
            inv = λ q h counted.
                taken-Inv s.sched id held w q h counted (now env (with_locks j s n)) n j f g;
          }))
]

-- Only the number of times that a job is held matters.
InvWith-same :
    (c : Scheduler) (h1 h2 : List ℕ)
    → ((k : ℕ) → count k h1 ≡ count k h2)
    → InvWith h1 c
    → InvWith h2 c
InvWith-same c h1 h2 same w = record {
  valid = w.valid;
  inv = λ q h counted. w.inv q h (λ k. omega (arith, counted k, same k));
}

count-append : (k : ℕ) (xs ys : List ℕ) → count k (xs ++ ys) ≡ count k xs + count k ys
count-append k [] ys = omega arith
count-append k (x ∷ xs) ys = omega (arith, count-append k xs ys)

count-ids_of_blocked :
    (k : ℕ) (xs ys : List (ℕ × ℤ))
    → count k (ids_of_blocked (xs ++ ys))
      ≡ count k (ids_of_blocked xs) + count k (ids_of_blocked ys)
count-ids_of_blocked k [] ys = omega arith
count-ids_of_blocked k (x ∷ xs) ys = omega (arith, count-ids_of_blocked k xs ys)

count_held :
    (k : ℕ) (one more : List (ℕ × ℤ)) (held : List ℕ)
    → count k (ids_of_blocked more ++ (ids_of_blocked one ++ held))
      ≡ count k (ids_of_blocked (one ++ more) ++ held)
count_held k one more held = omega (
  arith,
  count-append k (ids_of_blocked more) (ids_of_blocked one ++ held),
  count-append k (ids_of_blocked one) held,
  count-append k (ids_of_blocked (one ++ more)) held,
  count-ids_of_blocked k one more,
)

none_held : (c : Scheduler) → Inv c → InvWith [] c
none_held c v = record {
  valid = v.retry_queue;
  inv = λ q h counted. record {
    ids = v.ids;
    histories = v.histories;
    pending_jobs = v.pending_jobs;
    queued_jobs = v.queued_jobs;
    hidden_jobs = λ k. omega (arith, counted k, v.hidden_jobs k);
    delayed_jobs = v.delayed_jobs;
    index = v.index;
    retry_queue = h;
    delayed_queue = v.delayed_queue;
    locks_owned = v.locks_owned;
  };
}

dequeued-InvWith :
    (m p : ℤ) (id : ℕ) (rest : PriorityQueue ℕ) (held : List ℕ) (c : Scheduler)
    → dequeue_with_priority m c.retry ≡ some (id, p, rest)
    → InvWith held c
    → InvWith (id ∷ held) (record c { retry = rest })
dequeued-InvWith m p id rest held c e w = record {
  valid = dequeue_with_priority-IsValid m c.retry w.valid e;
  inv = λ q h counted.
      w.inv q h (λ k. ground (arith, counted k, count_value-dequeue_with_priority k m c.retry e));
}

retry_ready-InvWith :
    (fuel : ℕ) (env : Env) (m : ℤ) (held : List ℕ) (s : Service)
    → InvWith held s.sched
    → InvWith
        (ids_of_blocked (retry_ready fuel env m s).0 ++ held)
        (retry_ready fuel env m s).1.sched
unfolding retry_ready
retry_ready-InvWith zero env m held s w = w
retry_ready-InvWith (suc fuel) env m held s w =
    elim (Option-cases (dequeue_with_priority m s.retry)) [
      | inl e ↦ rw (e, retry_ready) w
      | inr ((id, p, rest), e) ↦
          let s1 : Service = record s { sched = record s.sched { retry = rest } } in
          let (one, s2) = retry_one env id p s1 in
          let w2 : InvWith (ids_of_blocked one ++ held) s2.sched =
            retry_one-InvWith env id p held s1 (dequeued-InvWith m p id rest held s.sched e w) in
          let (more, s3) = retry_ready fuel env m s2 in
          rw (e, retry_ready)
            (InvWith-same s3.sched (ids_of_blocked more ++ (ids_of_blocked one ++ held))
              (ids_of_blocked (one ++ more) ++ held) (λ k. count_held k one more held)
              (retry_ready-InvWith fuel env m (ids_of_blocked one ++ held) s2 w2))
    ]

-- AttemptJobRetries keeps the invariant, by which each hidden job is in the retry queue once.
pub attempt_job_retries-Inv :
    (env : Env) (s : Service) → Inv s.sched → Inv (attempt_job_retries env s).sched
unfolding attempt_job_retries
attempt_job_retries-Inv env s v =
    let m = neg64 (now env s) in
    let (blocked, s') = retry_ready (suc (length s.retry.nodes)) env m (tick s) in
    let w : InvWith (ids_of_blocked blocked ++ []) s'.sched =
      retry_ready-InvWith (suc (length s.retry.nodes)) env m [] (tick s) (none_held s.sched v) in
    w.inv (enqueue_blocked blocked s'.retry) (enqueue_blocked-IsValid blocked s'.retry w.valid)
      (λ k. omega (
        arith,
        count_value-enqueue_blocked k blocked s'.retry,
        count-append k (ids_of_blocked blocked) [],
      ))
