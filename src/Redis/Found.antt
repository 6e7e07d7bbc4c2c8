-- ===== src/Redis/Found.antt =====
-- LoadJobs of the Redis backend finds the jobs of the database
-- (jobbackendprovider/redisprovider/redisprovider.go).
use minijob.Prelude.{
  ℕ, zero, suc, ◌≤◌, String, ◌≡◌, ◌≢◌, refl, ◌∙◌, inl, inr, Option-cases, Option, none, some, List,
  [], ◌∷◌, Map, lookup, insert, take, drop, map, length, length-drop, sort_by, nat_Eq, string_Eq,
  arith,
}
use minijob.Job.{Job}
use minijob.Service.State.{ok}
use minijob.Service.Restored.Once.{Once}
use minijob.Redis.Ops.{StoredValue}
use minijob.Redis.Writer.{Writer}
use minijob.Redis.Provider.{Settings, job_uuid2redis_key}
use minijob.Redis.Saves.{Prints}
use minijob.Redis.Load.{
  Reader, mget_count, string_less, compact, new_job, read_values, scan_job_keys, get_jobs_from,
  load_jobs,
}
use minijob.Redis.Loaded.{IsReader, Filed, text_of, job_of, values-db}
use minijob.Redis.Restart.{load_jobs-Once, lookup-load_jobs}

-- NewJob makes a job of every value.
abbrev pub AllReadable : (String → Option Job) → (String → Option StoredValue) → Type 0
AllReadable decode db = (k : String) → db k ≢ none → job_of decode (db k) ≢ none

read_values-ok :
    (decode : String → Option Job) (db : String → Option StoredValue) (ks : List String)
    (m : Map ℕ Job)
    → AllReadable decode db
    → (n : Map ℕ Job) × (read_values decode (map (λ k. text_of (db k)) ks) m ≡ ok n)
unfolding read_values
read_values-ok decode db [] m all = (m, refl)
read_values-ok decode db (k ∷ ks) m all = elim (Option-cases (db k)) [
  | inl e ↦ rw e (read_values-ok decode db ks m all)
  | inr ((text, ttl), e) ↦ elim (Option-cases (new_job decode text)) [
    | inl f ↦ absurd (all k (λ q. ground (arith, e, q)) (rw e f))
    | inr (j, f) ↦ rw (e, read_values, f) (read_values-ok decode db ks (insert j.id j m) all)
  ]
]

module _ (c : Settings) (h : Prints c) (decode : String → Option Job) {R : Type 0}
    (read : String → R → Option StoredValue) (reader : Reader R) (g : IsReader c read reader)
    (answers : (ks : List String) (r : R) → (reader.mget ks r).0 ≢ none) where
  get_jobs_from-ok :
      (db : String → Option StoredValue) (fuel : ℕ) (ks : List String) (m : Map ℕ Job) (r : R)
      → AllReadable decode db
      → ((k : String) → read k r ≡ db k)
      → length ks ≤ fuel
      → (n : Map ℕ Job) × ((get_jobs_from reader decode fuel ks m r).0 ≡ some (ok n))
  unfolding get_jobs_from
  get_jobs_from-ok db fuel [] m r all same l = (m, refl)
  get_jobs_from-ok db zero (key ∷ ks) m r all same l = absurd (omega (arith, l))
  get_jobs_from-ok db (suc fuel) (key ∷ ks) m r all same l =
      let page = take mget_count (key ∷ ks) in
      let r' = (reader.mget page r).1 in
      elim (Option-cases (reader.mget page r).0) [
        | inl f ↦ absurd (answers page r f)
        | inr (values, f) ↦
            let right = g.mget_values page r values f ∙ values-db read db page r same in
            let (m', o) = read_values-ok decode db page m all in
            rw (f, get_jobs_from, right, o)
              (get_jobs_from-ok db fuel (drop mget_count (key ∷ ks)) m' r' all
                (λ k. g.mget_reads page k r ∙ same k)
                (omega (arith, l, length-drop mget_count (key ∷ ks))))
      ]

  load_jobs-ok :
      (w : Writer R)
      → (reader.scan_all w.server).0 ≢ none
      → AllReadable decode (λ k. read k w.server)
      → (n : Map ℕ Job) × ((load_jobs reader decode w).0 ≡ some (ok n))
  unfolding load_jobs scan_job_keys
  load_jobs-ok w scans all = elim (Option-cases (reader.scan_all w.server).0) [
    | inl f ↦ absurd (scans f)
    | inr (found, f) ↦
        let ks = compact (sort_by string_less found) in
        let (n, e) =
          get_jobs_from-ok (λ k. read k w.server) (length ks) ks [] (reader.scan_all w.server).1 all
            (λ k. g.scan_reads k w.server) (omega arith) in
        (n, rw (f, load_jobs, e) refl)
  ]

  -- If Redis answers SCAN and MGET, and NewJob makes of each value a job of the id of its key, LoadJobs
  -- answers with jobs, each id once, and under each id it has the job of the value of its key, and none
  -- where the key is absent.
  pub load_jobs-finds :
      (w : Writer R)
      → (reader.scan_all w.server).0 ≢ none
      → AllReadable decode (λ k. read k w.server)
      → Filed c decode (λ k. read k w.server)
      → (n : Map ℕ Job) × ((load_jobs reader decode w).0 ≡ some (ok n))
        × Once n
        × ((id : ℕ) → lookup id n ≡ job_of decode (read (job_uuid2redis_key c id) w.server))
  load_jobs-finds w scans all filed =
      let (n, e) = load_jobs-ok w scans all in
      (
        n,
        e,
        load_jobs-Once reader decode w n e,
        lookup-load_jobs c h decode read reader g w n filed e,
      )
