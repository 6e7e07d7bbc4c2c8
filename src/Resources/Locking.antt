-- ===== src/Resources/Locking.antt =====
-- What locking and unlocking do to each resource (service/resourcesmanager.go).
use minijob.Prelude.{
  ℕ, ◌+◌, String, Bool, true, false, ◌&&◌, ◌≡◌, refl, Option, none, some, List, [], ◌∷◌, lookup,
  insert, delete, lookup-insert, lookup-delete, contains, if◌then◌else◌, arith, string_Eq,
}
use text.Mathlib.TextEquality.{eq_iff}
use minijob.Job.{Job}
use minijob.Resources.{
  LockedResources, held_by, held_by_other, unavailable, acquire, LockResult, locked, not_available,
  lock_resources, release, unlock_resources, requires_locked_resources,
}

-- A resource of the list is free or held by the job, for all of the list.
abbrev AllFree : ℕ → List String → LockedResources → Type 0
AllFree id [] m = Unit {0}
AllFree id (r ∷ rs) m = (held_by_other id (lookup r m) ≡ false) × AllFree id rs m

abbrev Unavailable : ℕ → List String → LockedResources → Option String → Type 0
Unavailable id rs m none = AllFree id rs m
Unavailable id rs m (some r) = (contains r rs ≡ true) × (held_by_other id (lookup r m) ≡ true)

unavailable-Unavailable :
    (id : ℕ) (rs : List String) (m : LockedResources) → Unavailable id rs m (unavailable id rs m)
unfolding unavailable
unavailable-Unavailable id [] m = tt
unavailable-Unavailable id (r ∷ rs) m = ground (arith, eq_iff r r, unavailable-Unavailable id rs m)

AllFree-insert :
    (id : ℕ) (r : String) (rs : List String) (m : LockedResources)
    → AllFree id rs m
    → AllFree id rs (insert r id m)
AllFree-insert id r [] m h = tt
AllFree-insert id r (q ∷ rs) m h =
    ground (arith, lookup-insert r q id m, AllFree-insert id r rs m h.1)

pub lookup-acquire :
    (id : ℕ) (rs : List String) (n : ℕ) (m : LockedResources) (q : String)
    → AllFree id rs m
    → lookup q (acquire id rs n m).1 ≡ (if contains q rs then some id else lookup q m)
unfolding acquire
lookup-acquire id [] n m q h = refl
lookup-acquire id (r ∷ rs) n m q h = ground (
  arith,
  eq_iff r q,
  lookup-insert r q id m,
  AllFree-insert id r rs m h.1,
  lookup-acquire id rs n m q h.1,
  lookup-acquire id rs (n + 1) (insert r id m) q,
)

abbrev pub LockOutcome : Job → LockedResources → String → LockResult × LockedResources → Type 0
LockOutcome j m q (locked n, m') =
    lookup q m' ≡ (if contains q j.lock_resources then some j.id else lookup q m)
LockOutcome j m q (not_available r, m') =
    (m' ≡ m) × (contains r j.lock_resources ≡ true) × (held_by_other j.id (lookup r m) ≡ true)

-- LockResources takes all the resources of the job or none. If it succeeds, the job holds each
-- resource of its list and every other entry is as before; if it fails, nothing has changed, and
-- the resource that it names is in the list of the job and held by another job.
pub lock_resources_all_or_none :
    (j : Job) (m : LockedResources) (q : String) → LockOutcome j m q (lock_resources j m)
unfolding lock_resources
lock_resources_all_or_none j m q = ground (
  arith,
  unavailable-Unavailable j.id j.lock_resources m,
  lookup-acquire j.id j.lock_resources 0 m q,
)

pub lookup-release :
    (id : ℕ) (rs : List String) (m : LockedResources) (q : String)
    → lookup q (release id rs m).1
      ≡ (if contains q rs && held_by id (lookup q m) then none else lookup q m)
unfolding release
lookup-release id [] m q = refl
lookup-release id (r ∷ rs) m q = ground (
  arith,
  eq_iff r q,
  lookup-delete r q m,
  lookup-release id rs (if held_by id (lookup r m) then delete r m else m) q,
)

-- UnlockResources frees exactly the resources of the job's list that the job holds; a resource
-- that another job holds, and any resource outside the list, is left as it was.
pub unlock_resources_own :
    (j : Job) (m : LockedResources) (q : String)
    → lookup q (unlock_resources j m).1
      ≡ (if contains q j.lock_resources && held_by j.id (lookup q m) then none else lookup q m)
unfolding unlock_resources
unlock_resources_own j m q = lookup-release j.id j.lock_resources m q

abbrev pub refused : LockResult → Bool
refused (locked n) = false
refused (not_available r) = true

abbrev is_some : Option String → Bool
is_some none = false
is_some (some r) = true

requires-unavailable :
    (id : ℕ) (rs : List String) (m : LockedResources)
    → requires_locked_resources m id rs ≡ is_some (unavailable id rs m)
unfolding requires_locked_resources unavailable
requires-unavailable id [] m = refl
requires-unavailable id (r ∷ rs) m = ground (arith, requires-unavailable id rs m)

-- The scheduler's filter and the resource manager agree: requiresLockedResources is true for
-- exactly the jobs that LockResources refuses.
pub requires_locked_resources-lock_resources :
    (j : Job) (m : LockedResources)
    → requires_locked_resources m j.id j.lock_resources ≡ refused (lock_resources j m).0
unfolding lock_resources
requires_locked_resources-lock_resources j m =
    ground (arith, requires-unavailable j.id j.lock_resources m)
