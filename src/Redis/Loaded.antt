-- ===== src/Redis/Loaded.antt =====
-- The Redis backend loads the jobs that its database tells of
-- (jobbackendprovider/redisprovider/redisprovider.go).
use minijob.Prelude.{
  ℕ, zero, suc, String, Bool, true, false, ◌||◌, ◌≡◌, ◌≢◌, refl, ap, sym, ◌∙◌, inl, inr,
  Option-cases, Option, none, some, List, [], ◌∷◌, ◌++◌, map, Map, lookup, insert, lookup-insert,
  contains, drop, take, take-drop, ◌==◌, sort_by, insert_by, nat_eq, nat_Eq, string_Eq, arith,
}
use mathlib.Core.Path.{subst}
use minijob.Job.{Job}
use minijob.Service.State.{ok}
use minijob.Service.Runs.{Outcome-cases}
use minijob.Redis.Ops.{StoredValue}
use minijob.Redis.Provider.{Settings, job_uuid2redis_key}
use minijob.Redis.Saves.{Prints, key_eq}
use minijob.Redis.Load.{
  Reader, mget_count, compact_behind, compact, new_job, read_values, get_jobs_from,
}

contains-insert_by :
    (f : String → String → Bool) (k a : String) (xs : List String)
    → contains k (insert_by f a xs) ≡ ((a == k) || contains k xs)
unfolding insert_by
contains-insert_by f k a [] = refl
contains-insert_by f k a (x ∷ xs) = ground (arith, contains-insert_by f k a xs)

pub contains-sort_by :
    (f : String → String → Bool) (k : String) (xs : List String)
    → contains k (sort_by f xs) ≡ contains k xs
unfolding sort_by
contains-sort_by f k [] = refl
contains-sort_by f k (x ∷ xs) =
    ground (arith, contains-sort_by f k xs, contains-insert_by f k x (sort_by f xs))

contains-compact_behind :
    (k x : String) (xs : List String)
    → ((x == k) || contains k (compact_behind x xs)) ≡ ((x == k) || contains k xs)
unfolding compact_behind
contains-compact_behind k x [] = refl
contains-compact_behind k x (y ∷ ys) = ground (
  arith,
  string_Eq.equal_iff x y,
  string_Eq.equal_iff x k,
  contains-compact_behind k x ys,
  contains-compact_behind k y ys,
)

pub contains-compact : (k : String) (xs : List String) → contains k (compact xs) ≡ contains k xs
unfolding compact
contains-compact k [] = refl
contains-compact k (x ∷ xs) = contains-compact_behind k x xs

-- The text of a stored value.
abbrev pub text_of : Option StoredValue → Option String
text_of none = none
text_of (some (text, ttl)) = some text

-- What Redis promises of the reads, on a database that does not change meanwhile: they change
-- nothing, the iterator of SCAN returns every key that is there, and MGET the values of its keys.
-- The keys of the pattern are those of jobs.
pub record IsReader {R : Type 0} (c : Settings) (read : String → R → Option StoredValue)
    (reader : Reader R) : Type 0 where
  pub scan_reads : (k : String) (r : R) → read k (reader.scan_all r).1 ≡ read k r
  pub scan_found :
      (id : ℕ) (r : R) (found : List String)
      → (reader.scan_all r).0 ≡ some found
      → read (job_uuid2redis_key c id) r ≢ none
      → contains (job_uuid2redis_key c id) found ≡ true
  pub scan_ids :
      (k : String) (r : R) (found : List String)
      → (reader.scan_all r).0 ≡ some found
      → contains k found ≡ true
      → (id : ℕ) × (job_uuid2redis_key c id ≡ k)
  pub mget_reads : (ks : List String) (k : String) (r : R) → read k (reader.mget ks r).1 ≡ read k r
  pub mget_values :
      (ks : List String) (r : R) (values : List (Option String))
      → (reader.mget ks r).0 ≡ some values
      → values ≡ map (λ k. text_of (read k r)) ks

-- The job that NewJob makes of a value, if there is one and it can be decoded.
abbrev pub job_of : (String → Option Job) → Option StoredValue → Option Job
job_of decode none = none
job_of decode (some (text, ttl)) = new_job decode text

-- The texts of a database that tells of the same values.
pub values-db :
    {R : Type 0} (read : String → R → Option StoredValue) (db : String → Option StoredValue)
    (ks : List String) (r : R)
    → ((k : String) → read k r ≡ db k)
    → map (λ k. text_of (read k r)) ks ≡ map (λ k. text_of (db k)) ks
values-db read db [] r same = refl
values-db read db (k ∷ ks) r same = rw (same k, values-db read db ks r same)

-- Every value that can be decoded is that of the job of its key.
abbrev pub Filed : Settings → (String → Option Job) → (String → Option StoredValue) → Type 0
Filed c decode db =
    (id : ℕ) (j : Job) → job_of decode (db (job_uuid2redis_key c id)) ≡ some j → j.id ≡ id

-- Each element is the key of an id.
abbrev pub AreKeys : Settings → List String → Type 0
AreKeys c [] = Unit {0}
AreKeys c (k ∷ ks) = ((id : ℕ) × (job_uuid2redis_key c id ≡ k)) × AreKeys c ks

take-AreKeys : (c : Settings) (n : ℕ) (ks : List String) → AreKeys c ks → AreKeys c (take n ks)
take-AreKeys c zero ks a = tt
take-AreKeys c (suc n) [] a = tt
take-AreKeys c (suc n) (k ∷ ks) (x, a) = (x, take-AreKeys c n ks a)

drop-AreKeys : (c : Settings) (n : ℕ) (ks : List String) → AreKeys c ks → AreKeys c (drop n ks)
drop-AreKeys c zero ks a = a
drop-AreKeys c (suc n) [] a = tt
drop-AreKeys c (suc n) (k ∷ ks) (x, a) = drop-AreKeys c n ks a

contains-append :
    (k : String) (xs ys : List String) → contains k (xs ++ ys) ≡ (contains k xs || contains k ys)
contains-append k [] ys = refl
contains-append k (x ∷ xs) ys = ground (arith, contains-append k xs ys)

module _ (c : Settings) (h : Prints c) (decode : String → Option Job)
    (db : String → Option StoredValue) (filed : Filed c decode db) where
  -- What the jobs are when the values of some keys were read.
  abbrev ReadOf : List String → Map ℕ Job → Map ℕ Job → Type 0
  ReadOf ks m n =
      (id : ℕ)
      → lookup id n ≡ elim (contains (job_uuid2redis_key c id) ks) [
        | true ↦ elim (db (job_uuid2redis_key c id)) [
          | none ↦ lookup id m
          | some v ↦ job_of decode (some v)
        ]
        | false ↦ lookup id m
      ]

  read_values-ReadOf :
      (ks : List String) (m n : Map ℕ Job)
      → AreKeys c ks
      → read_values decode (map (λ k. text_of (db k)) ks) m ≡ ok n
      → ReadOf ks m n
  unfolding read_values
  read_values-ReadOf [] m n a e id = ground (arith, e)
  read_values-ReadOf (k ∷ ks) m n ((i, this), a) e id =
      let key : (k == job_uuid2redis_key c id) ≡ nat_eq i id =
        ap (λ x. x == job_uuid2redis_key c id) (sym this) ∙ key_eq c h i id in
      let same : nat_eq i id ≡ true → k ≡ job_uuid2redis_key c id =
        λ p. (string_Eq.equal_iff k (job_uuid2redis_key c id)).0 (key ∙ p) in
      elim (Option-cases (db k)) [
        | inl absent ↦
            let rest =
              read_values-ReadOf ks m n a
                (subst (λ v. read_values decode (text_of v ∷ map (λ k. text_of (db k)) ks) m ≡ ok n)
                  absent e)
                id in
            ground (arith, key, same, absent, rest)
        | inr ((text, ttl), there) ↦
            let e' =
              subst (λ v. read_values decode (text_of v ∷ map (λ k. text_of (db k)) ks) m ≡ ok n)
                there e in
            elim (Option-cases (new_job decode text)) [
              | inl f ↦ absurd (ground (arith, f, e'))
              | inr (j, f) ↦
                  let own : j.id ≡ i =
                    filed i j
                      (ap (λ x. job_of decode (db x)) this ∙ ap (job_of decode) there ∙ f) in
                  let rest =
                    read_values-ReadOf ks (insert j.id j m) n a (ground (arith, f, e')) id in
                  ground (arith, key, same, there, own, f, rest, lookup-insert j.id id j m)
            ]
      ]

  ReadOf-append :
      (xs ys : List String) (m n o : Map ℕ Job)
      → ReadOf xs m n
      → ReadOf ys n o
      → ReadOf (xs ++ ys) m o
  ReadOf-append xs ys m n o p q id =
      ground (arith, p id, q id, contains-append (job_uuid2redis_key c id) xs ys)

  module _ {R : Type 0} (read : String → R → Option StoredValue) (reader : Reader R)
      (g : IsReader c read reader) where
    pub get_jobs_from-ReadOf :
        (fuel : ℕ) (ks : List String) (m n : Map ℕ Job) (r : R)
        → AreKeys c ks
        → ((k : String) → read k r ≡ db k)
        → (get_jobs_from reader decode fuel ks m r).0 ≡ some (ok n)
        → ReadOf ks m n
    unfolding get_jobs_from
    get_jobs_from-ReadOf fuel [] m n r a same e = λ id. ground (arith, e)
    get_jobs_from-ReadOf zero (k ∷ ks) m n r a same e = absurd (ground (arith, e))
    get_jobs_from-ReadOf (suc fuel) (k ∷ ks) m n r a same e =
        let page = take mget_count (k ∷ ks) in
        let behind = drop mget_count (k ∷ ks) in
        let r' = (reader.mget page r).1 in
        elim (Option-cases (reader.mget page r).0) [
          | inl f ↦ absurd (ground (arith, e, f))
          | inr (values, f) ↦
              let right = g.mget_values page r values f ∙ values-db read db page r same in
              elim (Outcome-cases (read_values decode values m)) [
                | inl (x, o) ↦ absurd (ground (arith, e, f, o))
                | inr (m', o) ↦
                    let first =
                      read_values-ReadOf page m m' (take-AreKeys c mget_count (k ∷ ks) a)
                        (ap (λ vs. read_values decode vs m) (sym right) ∙ o) in
                    let rest =
                      get_jobs_from-ReadOf fuel behind m' n r'
                        (drop-AreKeys c mget_count (k ∷ ks) a) (λ l. g.mget_reads page l r ∙ same l)
                        (ground (arith, e, f, o)) in
                    subst (λ l. ReadOf l m n) (take-drop mget_count (k ∷ ks))
                      (ReadOf-append page behind m m' n first rest)
              ]
        ]
