-- ===== src/Resources/Restoring.antt =====
-- Who holds which resource after a start (service/resourcesmanager.go: LockResourcesForJobs).
use minijob.Prelude.{
  ℕ, ◌≤◌, ◌+◌, String, Bool, true, false, ◌&&◌, ◌≡◌, ◌≢◌, refl, inl, inr, Bool-cases, Option-cases,
  Option, none, some, List, [], ◌∷◌, Map, keys, lookup, insert, lookup-insert, contains, count,
  one_if, if◌then◌else◌, ltb, nat_eq, nat_eq_iff, sort_by, insert_by, nat_Eq, string_Eq, arith,
}
use text.Mathlib.TextEquality.{eq_iff}
use minijob.Job.{Job}
use minijob.Resources.{
  LockedResources, is_active, assign, lock_for_job, lock_for_ids, lock_resources_for_jobs,
  sorted_job_ids,
}

-- Sorting leaves the elements as they are.
count-insert_by :
    (f : ℕ → ℕ → Bool) (k a : ℕ) (xs : List ℕ)
    → count k (insert_by f a xs) ≡ one_if (nat_eq a k) + count k xs
unfolding insert_by
count-insert_by f k a [] = refl
count-insert_by f k a (x ∷ xs) = ground (arith, count-insert_by f k a xs)

pub count-sort_by : (f : ℕ → ℕ → Bool) (k : ℕ) (xs : List ℕ) → count k (sort_by f xs) ≡ count k xs
unfolding sort_by
count-sort_by f k [] = refl
count-sort_by f k (x ∷ xs) =
    ground (arith, count-sort_by f k xs, count-insert_by f k x (sort_by f xs))

-- No element is smaller than `a`, and the list ascends.
abbrev AtLeast : ℕ → List ℕ → Type 0
AtLeast a [] = Unit {0}
AtLeast a (x ∷ xs) = (a ≤ x) × AtLeast a xs

abbrev IsAscending : List ℕ → Type 0
IsAscending [] = Unit {0}
IsAscending (x ∷ xs) = AtLeast x xs × IsAscending xs

weaken-AtLeast : (a b : ℕ) (xs : List ℕ) → a ≤ b → AtLeast b xs → AtLeast a xs
weaken-AtLeast a b [] l h = tt
weaken-AtLeast a b (x ∷ xs) l h = (omega (arith, l, h.0), weaken-AtLeast a b xs l h.1)

insert_by-AtLeast : (a b : ℕ) (xs : List ℕ) → a ≤ b → AtLeast a xs → AtLeast a (insert_by ltb b xs)
unfolding insert_by
insert_by-AtLeast a b [] l h = (l, tt)
insert_by-AtLeast a b (x ∷ xs) l h = elim (Bool-cases (ltb x b)) [
  | inl e ↦ rw e (h.0, insert_by-AtLeast a b xs l h.1)
  | inr e ↦ rw e (l, h)
]

insert_by-IsAscending : (b : ℕ) (xs : List ℕ) → IsAscending xs → IsAscending (insert_by ltb b xs)
unfolding insert_by
insert_by-IsAscending b [] h = (tt, tt)
insert_by-IsAscending b (x ∷ xs) h = elim (Bool-cases (ltb x b)) [
  | inl e ↦ rw e (insert_by-AtLeast x b xs (ground (arith, e)) h.0, insert_by-IsAscending b xs h.1)
  | inr e ↦ let l : b ≤ x = ground (arith, e) in rw e ((l, weaken-AtLeast b x xs l h.0), h)
]

sort_by-IsAscending : (xs : List ℕ) → IsAscending (sort_by ltb xs)
unfolding sort_by
sort_by-IsAscending [] = tt
sort_by-IsAscending (x ∷ xs) = insert_by-IsAscending x (sort_by ltb xs) (sort_by-IsAscending xs)

lookup-assign :
    (id : ℕ) (rs : List String) (m : LockedResources) (q : String)
    → lookup q (assign id rs m) ≡ (if contains q rs then some id else lookup q m)
unfolding assign
lookup-assign id [] m q = refl
lookup-assign id (r ∷ rs) m q =
    ground (arith, eq_iff r q, lookup-insert r q id m, lookup-assign id rs (insert r id m) q)

-- The job is queued or running, and lists the resource.
abbrev pub claims : String → Option Job → Bool
claims q none = false
claims q (some j) = is_active j.state && contains q j.lock_resources

module _ (jobs : Map ℕ Job) (ids : (k : ℕ) (j : Job) → lookup k jobs ≡ some j → j.id ≡ k)
    (q : String) where
  lookup-lock_for_job :
      (k : ℕ) (m : LockedResources)
      → lookup q (lock_for_job (lookup k jobs) m)
        ≡ (if claims q (lookup k jobs) then some k else lookup q m)
  unfolding lock_for_job
  lookup-lock_for_job k m = elim (Option-cases (lookup k jobs)) [
    | inl e ↦ rw (e, lock_for_job)
    | inr (j, e) ↦
        rw (e, lock_for_job) (ground (arith, ids k j e, lookup-assign j.id j.lock_resources m q))
  ]

  -- A holder at the end was one at the start, or claims the resource.
  lock_for_ids_owner :
      (xs : List ℕ) (m : LockedResources) (o : ℕ)
      → lookup q (lock_for_ids jobs xs m) ≡ some o
      → lookup q m ≢ some o
      → claims q (lookup o jobs) ≡ true
  unfolding lock_for_ids
  lock_for_ids_owner [] m o h n = absurd (n h)
  lock_for_ids_owner (x ∷ xs) m o h n = elim (Bool-cases (claims q (lookup o jobs))) [
    | inl e ↦ e
    | inr e ↦
        lock_for_ids_owner xs (lock_for_job (lookup x jobs) m) o h
          (λ p. ground (arith, p, n, e, lookup-lock_for_job x m))
  ]

  -- A held resource stays held, by the same job or a later one.
  lock_for_ids_stays :
      (xs : List ℕ) (m : LockedResources) (p : ℕ)
      → lookup q m ≡ some p
      → AtLeast p xs
      → IsAscending xs
      → (o : ℕ) × (lookup q (lock_for_ids jobs xs m) ≡ some o) × (p ≤ o)
  unfolding lock_for_ids
  lock_for_ids_stays [] m p e l s = (p, e, omega arith)
  lock_for_ids_stays (x ∷ xs) m p e l s = elim (Bool-cases (claims q (lookup x jobs))) [
    | inl c ↦
        let (o, f, g) =
          lock_for_ids_stays xs (lock_for_job (lookup x jobs) m) x (rw (lookup-lock_for_job x m, c))
            s.0 s.1 in
        (o, f, omega (arith, g, l.0))
    | inr c ↦
        lock_for_ids_stays xs (lock_for_job (lookup x jobs) m) p (rw (lookup-lock_for_job x m, c) e)
          l.1 s.1
  ]

  lock_for_ids_latest :
      (xs : List ℕ) (m : LockedResources) (k : ℕ)
      → IsAscending xs
      → count k xs ≢ 0
      → claims q (lookup k jobs) ≡ true
      → (o : ℕ) × (lookup q (lock_for_ids jobs xs m) ≡ some o) × (k ≤ o)
  unfolding lock_for_ids
  lock_for_ids_latest [] m k s n c = absurd (n refl)
  lock_for_ids_latest (x ∷ xs) m k s n c = elim (Bool-cases (nat_eq x k)) [
    | inl e ↦
        let same : x ≡ k = (nat_eq_iff x k).0 e in
        lock_for_ids_stays xs (lock_for_job (lookup x jobs) m) k
          (rw (lookup-lock_for_job x m, same, c)) (rw (← same) s.0) s.1
    | inr e ↦
        lock_for_ids_latest xs (lock_for_job (lookup x jobs) m) k s.1
          (λ z. n (ground (arith, z, e))) c
  ]

pub keys-count : (m : Map ℕ Job) (k : ℕ) (j : Job) → lookup k m ≡ some j → count k (keys m) ≢ 0
unfolding lookup
keys-count [] k j e n = cc
keys-count ((i, w) ∷ m) k j e n = ground (arith, keys-count m k j, e, n)

-- The job that holds a resource is the latest one that claims it; it is free if no job does.
abbrev pub LatestClaim : Map ℕ Job → String → Option ℕ → Type 0
LatestClaim jobs q none = (k : ℕ) → claims q (lookup k jobs) ≡ false
LatestClaim jobs q (some o) =
    (claims q (lookup o jobs) ≡ true) × ((k : ℕ) → claims q (lookup k jobs) ≡ true → k ≤ o)

claimed : (q : String) (o : Option Job) → claims q o ≡ true → (j : Job) × (o ≡ some j)
claimed q none h = cc
claimed q (some j) h = (j, refl)

module _ (jobs : Map ℕ Job) (q : String)
    (ids : (k : ℕ) (j : Job) → lookup k jobs ≡ some j → j.id ≡ k) where
  held_if_claimed :
      (k : ℕ)
      → claims q (lookup k jobs) ≡ true
      → (o : ℕ) × (lookup q (lock_resources_for_jobs jobs) ≡ some o) × (k ≤ o)
  unfolding lock_resources_for_jobs sorted_job_ids
  held_if_claimed k c =
      let (j, there) = claimed q (lookup k jobs) c in
      lock_for_ids_latest jobs ids q (sort_by ltb (keys jobs)) [] k
        (sort_by-IsAscending (keys jobs))
        (λ z. keys-count jobs k j there (ground (arith, count-sort_by ltb k (keys jobs), z))) c

  owner_claims :
      (o : ℕ) → lookup q (lock_resources_for_jobs jobs) ≡ some o → claims q (lookup o jobs) ≡ true
  unfolding lock_resources_for_jobs lookup
  owner_claims o e = lock_for_ids_owner jobs ids q (sorted_job_ids jobs) [] o e (λ p. cc)

  -- If every job stands under its own id: at a start, a resource is held by the queued or running
  -- job that lists it, by the last one in creation order where several do, and by none if there is
  -- none.
  pub lock_resources_for_jobs_latest :
      (held : Option ℕ) → lookup q (lock_resources_for_jobs jobs) ≡ held → LatestClaim jobs q held
  lock_resources_for_jobs_latest none e = λ k. elim (Bool-cases (claims q (lookup k jobs))) [
    | inl c ↦ let (o, f, _) = held_if_claimed k c in absurd (ground (arith, e, f))
    | inr c ↦ c
  ]
  lock_resources_for_jobs_latest (some o) e =
      (owner_claims o e, λ k c. let (p, f, l) = held_if_claimed k c in ground (arith, e, f, l))
