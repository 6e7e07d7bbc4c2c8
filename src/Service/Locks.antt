-- ===== src/Service/Locks.antt =====
-- Who may hold which lock when a job changes (service/service.go, service/resourcesmanager.go).
use minijob.Prelude.{
  ℕ, String, true, false, ◌&&◌, ◌≡◌, inl, inr, Bool-cases, Option, some, lookup, contains,
  if◌then◌else◌, nat_eq, nat_eq_iff, nat_Eq, string_Eq, arith,
}
use minijob.Job.{Job}
use minijob.Resources.{LockedResources, locked, lock_resources, unlock_resources, is_active}
use minijob.Resources.Locking.{unlock_resources_own, lock_resources_all_or_none}
use minijob.Service.State.{Scheduler}
use minijob.Service.Invariant.{Inv, MayHold}

-- The lock condition of `Change`.
abbrev pub LocksAt : ℕ → Option Job → LockedResources → LockedResources → Type 0
LocksAt i new old locks =
    (r : String) (o : ℕ)
    → lookup r locks ≡ some o
    → (if nat_eq i o then MayHold r new else lookup r old ≡ some o)

-- A lock that UnlockResources leaves was there, and is not one of the job's own.
left_over :
    (k : Job) (m : LockedResources) (r : String) (o : ℕ)
    → lookup r (unlock_resources k m).1 ≡ some o
    → (lookup r m ≡ some o) × (contains r k.lock_resources && nat_eq o k.id ≡ false)
left_over k m r o h = ground (arith, unlock_resources_own k m r)

lookup-lock_resources :
    (k : Job) (m : LockedResources) (n : ℕ) (r : String)
    → (lock_resources k m).0 ≡ locked n
    → lookup r (lock_resources k m).1
      ≡ (if contains r k.lock_resources then some k.id else lookup r m)
lookup-lock_resources k m n r g = ground (arith, lock_resources_all_or_none k m r)

module _ (c : Scheduler) (v : Inv c) (i : ℕ) (j : Job) (here : lookup i c.jobs ≡ some j) where
  pub own : (r : String) → lookup r c.locks ≡ some i → MayHold r (some j)
  own r e = rw here at (rw e at (v.locks_owned r))

  -- The locks stay, and the job may still hold its own.
  pub kept-LocksAt :
      (new : Option Job)
      → ((r : String) → MayHold r (some j) → MayHold r new)
      → LocksAt i new c.locks c.locks
  kept-LocksAt new still r o e = elim (Bool-cases (nat_eq i o)) [
    | inl p ↦ rw p (still r (own r (rw (← (nat_eq_iff i o).0 p) at e)))
    | inr p ↦ rw p e
  ]

  -- The job gave its locks back.
  pub unlocked-LocksAt :
      (new : Option Job) (k : Job)
      → k.id ≡ i
      → k.lock_resources ≡ j.lock_resources
      → LocksAt i new c.locks (unlock_resources k c.locks).1
  unlocked-LocksAt new k e l r o h =
      let (before, other) = left_over k c.locks r o h in
      elim (Bool-cases (nat_eq i o)) [
        | inl p ↦
            let mine : MayHold r (some j) = own r (rw (← (nat_eq_iff i o).0 p) at before) in
            absurd (ground (arith, nat_eq_iff i o, l, mine))
        | inr p ↦ rw p before
      ]

  -- The job took the locks that it wants.
  pub locked-LocksAt :
      (new : Job) (k : Job) (n : ℕ)
      → k.id ≡ i
      → k.lock_resources ≡ j.lock_resources
      → new.lock_resources ≡ j.lock_resources
      → is_active new.state ≡ true
      → (lock_resources k c.locks).0 ≡ locked n
      → LocksAt i (some new) c.locks (lock_resources k c.locks).1
  locked-LocksAt new k n e l m a g r o h =
      let e' = lookup-lock_resources k c.locks n r g in
      elim (Bool-cases (contains r k.lock_resources)) [
        | inl wanted ↦ let it : i ≡ o = ground arith in rw ((nat_eq_iff i o).1 it) (a, ground arith)
        | inr unwanted ↦
            let before : lookup r c.locks ≡ some o = ground arith in
            elim (Bool-cases (nat_eq i o)) [
              | inl p ↦
                  let mine : MayHold r (some j) = own r (rw (← (nat_eq_iff i o).0 p) at before) in
                  absurd (ground (arith, l, mine))
              | inr p ↦ rw p before
            ]
      ]
