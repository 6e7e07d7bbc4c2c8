-- ===== src/Resources.antt =====
-- service/resourcesmanager.go: the map of the locked resources, each with the id of the job that
-- holds it. Each method runs under the manager's mutex, and is one step here; the log is left out.
pub mod Locking
pub mod Restoring
use minijob.Prelude.{
  ℕ, suc, ◌+◌, String, Bool, true, false, not, ◌&&◌, ◌||◌, Option, none, some, List, [], ◌∷◌, Map,
  lookup, insert, delete, keys, if◌then◌else◌, nat_eq, ltb, sort_by, nat_Eq, string_Eq,
}
use minijob.Job.{Job, JobState}

abbrev pub LockedResources : Type 0
LockedResources = Map String ℕ

-- NewResourcesManager
abbrev pub new_locked_resources : LockedResources
new_locked_resources = []

-- The test `found && owner != id` on an entry of the map.
abbrev pub held_by_other : ℕ → Option ℕ → Bool
held_by_other id none = false
held_by_other id (some owner) = not (nat_eq owner id)

-- The test `found && owner == id`.
abbrev pub held_by : ℕ → Option ℕ → Bool
held_by id none = false
held_by id (some owner) = nat_eq owner id

-- The first loop of LockResources: the first resource that another job holds.
unfoldable pub unavailable : ℕ → List String → LockedResources → Option String
unavailable id [] m = none
unavailable id (r ∷ rs) m = if held_by_other id (lookup r m) then some r else unavailable id rs m

-- The second loop: each free resource is locked, and counted.
unfoldable pub acquire : ℕ → List String → ℕ → LockedResources → ℕ × LockedResources
acquire id [] acquired m = (acquired, m)
acquire id (r ∷ rs) acquired m = elim (lookup r m) [
  | some _ ↦ acquire id rs acquired m
  | none ↦ acquire id rs (acquired + 1) (insert r id m)
]

pub data LockResult : Type 0 where
  locked : ℕ → LockResult
  not_available : String → LockResult

-- LockResources
unfoldable pub lock_resources : Job → LockedResources → LockResult × LockedResources
unfolding unavailable acquire
lock_resources j m = elim (unavailable j.id j.lock_resources m) [
  | some r ↦ (not_available r, m)
  | none ↦ let (acquired, m') = acquire j.id j.lock_resources 0 m in (locked acquired, m')
]

-- The loop of UnlockResources: the released resources, in order.
unfoldable pub release : ℕ → List String → LockedResources → List String × LockedResources
release id [] m = ([], m)
release id (r ∷ rs) m =
    let (released, m') = release id rs (if held_by id (lookup r m) then delete r m else m) in
    (if held_by id (lookup r m) then r ∷ released else released, m')

-- UnlockResources
unfoldable pub unlock_resources : Job → LockedResources → List String × LockedResources
unfolding release
unlock_resources j m = release j.id j.lock_resources m

-- UnlockResource; the flag is false for the error "resource not found"
unfoldable pub unlock_resource : String → LockedResources → Bool × LockedResources
unlock_resource r m = elim (lookup r m) [ none ↦ (false, m) | some _ ↦ (true, delete r m) ]

-- UnlockAllResources
unfoldable pub unlock_all_resources : LockedResources → LockedResources
unlock_all_resources m = []

-- sortedJobIDs (service/service.go)
unfoldable pub sorted_job_ids : Map ℕ Job → List ℕ
sorted_job_ids jobs = sort_by ltb (keys jobs)

-- The state is queued or running: the job holds its resources.
unfoldable pub is_active : JobState → Bool
is_active JobState.queued = true
is_active JobState.running = true
is_active _ = false

-- m[r] = id for each resource of a list
unfoldable pub assign : ℕ → List String → LockedResources → LockedResources
assign id [] m = m
assign id (r ∷ rs) m = assign id rs (insert r id m)

unfoldable pub lock_for_job : Option Job → LockedResources → LockedResources
unfolding is_active assign
lock_for_job none m = m
lock_for_job (some j) m = if is_active j.state then assign j.id j.lock_resources m else m

-- The loop of LockResourcesForJobs, over the sorted ids.
unfoldable pub lock_for_ids : Map ℕ Job → List ℕ → LockedResources → LockedResources
unfolding lock_for_job
lock_for_ids jobs [] m = m
lock_for_ids jobs (id ∷ ids) m = lock_for_ids jobs ids (lock_for_job (lookup id jobs) m)

-- LockResourcesForJobs
unfoldable pub lock_resources_for_jobs : Map ℕ Job → LockedResources
unfolding lock_for_ids sorted_job_ids
lock_resources_for_jobs jobs = lock_for_ids jobs (sorted_job_ids jobs) []

-- requiresLockedResources (service/service.go)
unfoldable pub requires_locked_resources : LockedResources → ℕ → List String → Bool
requires_locked_resources m id [] = false
requires_locked_resources m id (r ∷ rs) =
    if held_by_other id (lookup r m) then true else requires_locked_resources m id rs
