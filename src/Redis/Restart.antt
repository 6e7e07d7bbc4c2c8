-- ===== src/Redis/Restart.antt =====
-- LoadJobs of the Redis backend (jobbackendprovider/redisprovider/redisprovider.go): it gives
-- the jobs of the database.
use minijob.Prelude.{
  ℕ, zero, suc, String, true, ◌≡◌, sym, ◌∙◌, inl, inr, Option-cases, Option, none, some, List, [],
  ◌∷◌, Map, lookup, insert, contains, drop, take, length, sort_by, nat_Eq, string_Eq, arith,
}
use minijob.Job.{Job}
use minijob.Service.State.{Outcome, ok}
use minijob.Service.Runs.{Outcome-cases}
use minijob.Service.Restored.Once.{Once, nil-Once, insert-Once}
use minijob.Redis.Ops.{StoredValue}
use minijob.Redis.Provider.{Settings, job_uuid2redis_key}
use minijob.Redis.Writer.{Writer}
use minijob.Redis.Saves.{Prints}
use minijob.Redis.Load.{
  Reader, mget_count, string_less, compact, new_job, read_values, scan_job_keys, get_jobs_from,
  finish_load, load_jobs,
}
use minijob.Redis.Loaded.{
  IsReader, AreKeys, Filed, job_of, contains-sort_by, contains-compact, get_jobs_from-ReadOf,
}

read_values-Once :
    (decode : String → Option Job) (values : List (Option String)) (m n : Map ℕ Job)
    → Once m
    → read_values decode values m ≡ ok n
    → Once n
unfolding read_values
read_values-Once decode [] m n h e = λ k. ground (arith, h k, e)
read_values-Once decode (none ∷ values) m n h e = read_values-Once decode values m n h e
read_values-Once decode (some text ∷ values) m n h e = elim (Option-cases (new_job decode text)) [
  | inl f ↦ absurd (ground (arith, e, f))
  | inr (j, f) ↦
      read_values-Once decode values (insert j.id j m) n (insert-Once j.id j m h)
        (ground (arith, e, f))
]

module _ {R : Type 0} (reader : Reader R) (decode : String → Option Job) where
  get_jobs_from-Once :
      (fuel : ℕ) (ks : List String) (m n : Map ℕ Job) (r : R)
      → Once m
      → (get_jobs_from reader decode fuel ks m r).0 ≡ some (ok n)
      → Once n
  unfolding get_jobs_from
  get_jobs_from-Once fuel [] m n r h e = λ k. ground (arith, h k, e)
  get_jobs_from-Once zero (key ∷ ks) m n r h e = absurd (ground (arith, e))
  get_jobs_from-Once (suc fuel) (key ∷ ks) m n r h e =
      let page = take mget_count (key ∷ ks) in
      elim (Option-cases (reader.mget page r).0) [
        | inl f ↦ absurd (ground (arith, e, f))
        | inr (values, f) ↦ elim (Outcome-cases (read_values decode values m)) [
          | inl (x, o) ↦ absurd (ground (arith, e, f, o))
          | inr (m', o) ↦
              get_jobs_from-Once fuel (drop mget_count (key ∷ ks)) m' n (reader.mget page r).1
                (read_values-Once decode values m m' h o) (ground (arith, e, f, o))
        ]
      ]

  finish_load-ok :
      (o : Option (Outcome (Map ℕ Job))) (w : Writer R) (n : Map ℕ Job)
      → (finish_load reader o w).0 ≡ some (ok n)
      → o ≡ some (ok n)
  finish_load-ok o w n e = ground (arith, e)

  -- The keys that LoadJobs has read, and what getJobs made of them.
  load_jobs-keys :
      (w : Writer R) (n : Map ℕ Job)
      → (load_jobs reader decode w).0 ≡ some (ok n)
      → (found : List String) × ((reader.scan_all w.server).0 ≡ some found)
        × ((get_jobs_from reader decode
              (length (compact (sort_by string_less found)))
              (compact (sort_by string_less found))
              []
              (reader.scan_all w.server).1).0
            ≡ some (ok n))
  unfolding load_jobs scan_job_keys
  load_jobs-keys w n e = elim (Option-cases (reader.scan_all w.server).0) [
    | inl f ↦ absurd (ground (arith, f, e))
    | inr (found, f) ↦ (found, f, finish_load-ok _ _ n (rw (f, load_jobs) at e))
  ]

  pub load_jobs-Once :
      (w : Writer R) (n : Map ℕ Job) → (load_jobs reader decode w).0 ≡ some (ok n) → Once n
  load_jobs-Once w n e =
      let (found, f, g) = load_jobs-keys w n e in
      get_jobs_from-Once _ (compact (sort_by string_less found)) [] n _ nil-Once g

found-AreKeys :
    (c : Settings) (ks : List String)
    → ((k : String) → contains k ks ≡ true → (id : ℕ) × (job_uuid2redis_key c id ≡ k))
    → AreKeys c ks
found-AreKeys c [] h = tt
found-AreKeys c (k ∷ ks) h = (
  h k (ground (arith, string_Eq.equal_iff k k)),
  found-AreKeys c ks (λ l e. h l (ground (arith, e))),
)

module _ (c : Settings) (h : Prints c) (decode : String → Option Job) {R : Type 0}
    (read : String → R → Option StoredValue) (reader : Reader R) (g : IsReader c read reader) where
  -- What LoadJobs gives when no call fails: for each id the job that NewJob makes of the value of its
  -- key, if every value is that of the job of its key.
  pub lookup-load_jobs :
      (w : Writer R) (n : Map ℕ Job)
      → Filed c decode (λ k. read k w.server)
      → (load_jobs reader decode w).0 ≡ some (ok n)
      → (id : ℕ) → lookup id n ≡ job_of decode (read (job_uuid2redis_key c id) w.server)
  unfolding lookup
  lookup-load_jobs w n filed e id =
      let (found, f, got) = load_jobs-keys reader decode w n e in
      let ks = compact (sort_by string_less found) in
      let same : (k : String) → contains k ks ≡ contains k found = λ k.
        contains-compact k (sort_by string_less found) ∙ contains-sort_by string_less k found in
      let a = found-AreKeys c ks (λ k q. g.scan_ids k w.server found f (sym (same k) ∙ q)) in
      let r =
        get_jobs_from-ReadOf c h decode (λ k. read k w.server) filed read reader g (length ks) ks []
          n (reader.scan_all w.server).1 a (λ k. g.scan_reads k w.server) got id in
      elim (Option-cases (read (job_uuid2redis_key c id) w.server)) [
        | inl gone ↦ ground (arith, gone, r)
        | inr (v, there) ↦
            let listed =
              same (job_uuid2redis_key c id)
              ∙ g.scan_found id w.server found f (λ q. ground (arith, q, there)) in
            ground (arith, r, there, listed)
      ]
