-- ===== src/Redis/Saves.antt =====
-- Each write of the Redis backend and the job that it tells of
-- (jobbackendprovider/redisprovider/redisprovider.go).
use text.Mathlib.TextLemmas.{append_cancel_left}
use minijob.Prelude.{
  ℕ, String, true, false, ◌==◌, ◌≡◌, refl, ap, sym, ◌∙◌, Option, none, some, List, [], ◌∷◌, Map,
  lookup, insert, delete, lookup-insert, lookup-delete, nat_eq, nat_eq_iff, nat_Eq, string_Eq, inl,
  inr, Bool-cases, arith,
}
use mathlib.Core.Path.{subst}
use minijob.Job.{Job, is_completed}
use minijob.Job.History.{IsConsistent}
use minijob.Service.State.{Effect}
use minijob.Service.Log.{Revised}
use minijob.Redis.Ops.{StoredValue, WriteOp, written, after, after-append}
use minijob.Redis.Provider.{
  Settings, RedisProvider, job_uuid2redis_key, push_op, save_job, on_job_deleted, on_jobs_deleted,
  on_job_updated, observe,
}

-- The value of the key of an id holds the job: its id, its state and its history, and all of it unless
-- the job is completed.
abbrev pub IsSaved : Settings → ℕ → Option Job → Option StoredValue → Type 0
IsSaved c id none v = v ≡ none
IsSaved c id (some j) v =
    (saved : Job) × (text : String) × (ttl : ℕ) × (v ≡ some (text, ttl))
    × (c.to_json saved ≡ some text)
    × (saved.id ≡ id)
    × IsConsistent saved
    × (saved.state ≡ j.state)
    × (saved.history ≡ j.history)
    × (is_completed j.state ≡ false → saved ≡ j)

abbrev pub observed : Settings → RedisProvider → List Effect → RedisProvider
observed c p [] = p
observed c p (e ∷ es) = observe c e (observed c p es)

-- Distinct uuids are printed in different ways, and every job can be marshalled.
pub record Prints (c : Settings) : Type 0 where
  pub distinct : (a b : ℕ) → c.uuid_string a ≡ c.uuid_string b → a ≡ b
  pub json : (j : Job) → (text : String) × (c.to_json j ≡ some text)

module _ (c : Settings) (h : Prints c) where
  pub key_eq : (a b : ℕ) → (job_uuid2redis_key c a == job_uuid2redis_key c b) ≡ nat_eq a b
  key_eq a b = elim (Bool-cases (nat_eq a b)) [
    | inl e ↦
        (string_Eq.equal_iff (job_uuid2redis_key c a) (job_uuid2redis_key c b)).1
          (ap (job_uuid2redis_key c) ((nat_eq_iff a b).0 e))
        ∙ sym e
    | inr e ↦ elim (Bool-cases (job_uuid2redis_key c a == job_uuid2redis_key c b)) [
      | inr o ↦ o ∙ sym e
      | inl o ↦ absurd (
          ground (
            arith,
            e,
            (nat_eq_iff a b).1 (
                h.distinct a b (
                  append_cancel_left "job:" (c.uuid_string a) (c.uuid_string b)
                    ((string_Eq.equal_iff (job_uuid2redis_key c a) (job_uuid2redis_key c b)).0 o))),
          ))
    ]
  ]

module _ (c : Settings) (h : Prints c) (base : String → Option StoredValue) where
  -- The writes so far, made on a database, tell of the jobs.
  abbrev pub Mirrors : Map ℕ Job → RedisProvider → Type 0
  Mirrors m p =
      (id : ℕ)
      → IsSaved c id (lookup id m)
          (after (job_uuid2redis_key c id) p.pushes (base (job_uuid2redis_key c id)))

  push-Mirrors :
      (op : WriteOp) (m n : Map ℕ Job) (p : RedisProvider)
      → ((id : ℕ) (v : Option StoredValue)
          → IsSaved c id (lookup id m) v
          → IsSaved c id (lookup id n) (written (job_uuid2redis_key c id) op v))
      → Mirrors m p
      → Mirrors n (push_op op p)
  push-Mirrors op m n p step v id =
      subst (IsSaved c id (lookup id n))
        (sym (
          after-append (job_uuid2redis_key c id) p.pushes (op ∷ [])
            (base (job_uuid2redis_key c id))))
        (step id (after (job_uuid2redis_key c id) p.pushes (base (job_uuid2redis_key c id))) (v id))

  pub save_job-Mirrors :
      (j : Job) (ttl : ℕ) (m : Map ℕ Job) (p : RedisProvider)
      → IsConsistent j
      → Mirrors m p
      → Mirrors (insert j.id j m) (save_job c j ttl p)
  unfolding save_job
  save_job-Mirrors j ttl m p cons v =
      let (text, e) = h.json j in
      rw (e, save_job)
        (push-Mirrors _ m (insert j.id j m) p
          (λ id w x. elim (Bool-cases (nat_eq j.id id)) [
            | inl s ↦
                rw (lookup-insert j.id id j m, key_eq c h j.id id, s)
                  (j, text, ttl, refl, e, (nat_eq_iff j.id id).0 s, cons, refl, refl, λ z. refl)
            | inr s ↦ rw (lookup-insert j.id id j m, key_eq c h j.id id, s) x
          ])
          v)

  pub on_job_deleted-Mirrors :
      (id : ℕ) (m : Map ℕ Job) (p : RedisProvider)
      → Mirrors m p
      → Mirrors (delete id m) (on_job_deleted c id p)
  unfolding on_job_deleted
  on_job_deleted-Mirrors id m p v =
      push-Mirrors _ m (delete id m) p
        (λ k w x. elim (Bool-cases (nat_eq id k)) [
          | inl s ↦ rw (lookup-delete id k m, key_eq c h id k, s) refl
          | inr s ↦ rw (lookup-delete id k m, key_eq c h id k, s) x
        ])
        v

  pub on_jobs_deleted-Mirrors :
      (m : Map ℕ Job) (p : RedisProvider) → Mirrors m p → Mirrors [] (on_jobs_deleted p)
  unfolding on_jobs_deleted lookup
  on_jobs_deleted-Mirrors m p v = push-Mirrors _ m [] p (λ id v x. refl) v

  revised-IsSaved :
      (id : ℕ) (old j : Job) (w : Option StoredValue)
      → old.state ≡ j.state
      → old.history ≡ j.history
      → is_completed j.state ≡ true
      → IsSaved c id (some old) w
      → IsSaved c id (some j) w
  revised-IsSaved id old j w same hist e (saved, text, ttl, there, json, k, cons, s, t, _) =
      (saved, text, ttl, there, json, k, cons, s ∙ same, t ∙ hist, λ z. ground (arith, e, z))

  pub on_job_updated-Mirrors :
      (j : Job) (m : Map ℕ Job) (p : RedisProvider)
      → IsConsistent j
      → Revised j m
      → Mirrors m p
      → Mirrors (insert j.id j m) (on_job_updated c j p)
  unfolding on_job_updated
  on_job_updated-Mirrors j m p cons (old, here, same, hist, _) v =
      elim (Bool-cases (is_completed j.state)) [
        | inr e ↦ simp (e) (save_job-Mirrors j 0 m p cons v)
        | inl e ↦ simp (e) (λ id. elim (Bool-cases (nat_eq j.id id)) [
          | inl s ↦
              let there = ap (λ k. lookup k m) (sym ((nat_eq_iff j.id id).0 s)) ∙ here in
              rw (lookup-insert j.id id j m, s)
                (revised-IsSaved id old j
                  (after (job_uuid2redis_key c id) p.pushes (base (job_uuid2redis_key c id))) same
                  hist e
                  (subst
                    (λ o.
                      IsSaved c id o
                        (after (job_uuid2redis_key c id) p.pushes (base (job_uuid2redis_key c id))))
                    there (v id)))
          | inr s ↦ rw (lookup-insert j.id id j m, s) (v id)
        ])
      ]
