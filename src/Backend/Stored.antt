-- ===== src/Backend/Stored.antt =====
-- What the in-memory backend keeps of the jobs (jobbackendprovider/inmemoryprovider/inmemoryprovider.go).
use minijob.Prelude.{
  ℕ, suc, Bool, true, false, ◌≡◌, refl, ap, sym, ◌∙◌, Option, none, some, List, [], ◌∷◌, Map,
  lookup, insert, length, map_values, map_values-insert, lookup-map_values, insert-same, nat_Eq,
  if◌then◌else◌, arith,
}
use minijob.Job.{Job}
use minijob.Service.State.{ServiceEvent, Effect}
use minijob.Service.Log.{is_update, is_known, Known}
use minijob.Backend.InMemory.{
  Settings, Provider, kept, is_kept_event, keep_locked, keep_known, on_event, observe,
}

-- What the provider keeps of the jobs.
abbrev pub stored : Settings → Map ℕ Job → Map ℕ (Option Job)
stored c m = map_values (kept c) m

-- The provider after the messages, the last of which comes first.
abbrev pub observed : Settings → Provider → List Effect → Provider
observed c p [] = p
observed c p (e ∷ es) = observe c e (observed c p es)

-- The provider holds these jobs, and ignores the events or not.
abbrev pub IsMirror : Settings → Map ℕ Job → Bool → Provider → Type 0
IsMirror c m flag p = (p.jobs ≡ stored c m) × (p.restoring ≡ flag)

pub length-stored : (c : Settings) (m : Map ℕ Job) → length (stored c m) ≡ length m
length-stored c [] = refl
length-stored c ((k, j) ∷ m) = ap suc (length-stored c m)

pub known : (o : Option Job) → is_known o ≡ true → (j : Job) × (o ≡ some j)
known none h = cc
known (some j) h = (j, refl)

-- An update of a job that is known.
pub stored-Known :
    (c : Settings) (j : Job) (m : Map ℕ Job) (p : Provider)
    → p.jobs ≡ stored c m
    → Known j m
    → (keep_known c j p).jobs ≡ stored c (insert j.id j m)
unfolding keep_known keep_locked
stored-Known c j m p h k =
    let (old, e) = known (lookup j.id m) k in
    rw (ap (lookup j.id) h ∙ lookup-map_values (kept c) j.id old m e, keep_known)
      (ap (insert j.id (kept c j)) h ∙ sym (map_values-insert (kept c) j.id j m))

pub kept-none : (c : Settings) (j : Job) → c.persistent ≡ false → kept c j ≡ none
kept-none c j h = ground arith

-- Where nothing is written, an update changes nothing.
pub stored-unwritten :
    (c : Settings) (j : Job) (m : Map ℕ Job)
    → c.persistent ≡ false
    → Known j m
    → stored c (insert j.id j m) ≡ stored c m
stored-unwritten c j m h k =
    let (old, e) = known (lookup j.id m) k in
    map_values-insert (kept c) j.id j m
    ∙ insert-same j.id (kept c j) (stored c m) (
        lookup-map_values (kept c) j.id old m e
        ∙ ap some (kept-none c old h ∙ sym (kept-none c j h)))

pub keep_known-restoring :
    (c : Settings) (j : Job) (p : Provider) → (keep_known c j p).restoring ≡ p.restoring
unfolding keep_known keep_locked
keep_known-restoring c j p = ground arith

pub update-is_kept : (ev : ServiceEvent) → is_update ev ≡ true → is_kept_event ev ≡ true
update-is_kept ev u = ground arith

pub update-on_event :
    (c : Settings) (ev : ServiceEvent) (j : Job) (m : Map ℕ Job) (p : Provider)
    → is_update ev ≡ true
    → IsMirror c m false p
    → IsMirror c m false (on_event c ev j p)
unfolding on_event
update-on_event c ev j m p u h = ground (arith, h, u)

-- One update, with or without a file.
pub kept-IsMirror :
    (c : Settings) (j : Job) (m : Map ℕ Job) (p : Provider)
    → Known j m
    → IsMirror c m false p
    → IsMirror c (insert j.id j m) false (if c.persistent then keep_known c j p else p)
kept-IsMirror c j m p k h =
    ground
      (arith, stored-Known c j m p h.0 k, keep_known-restoring c j p, h, stored-unwritten c j m)
