-- ===== src/Backend/Synced.antt =====
-- The periodic sync writes the file when something has changed
-- (jobbackendprovider/inmemoryprovider/inmemoryprovider.go).
use minijob.Prelude.{
  ℕ, suc, ◌+◌, ◌%◌, ◌≤◌, ◌<◌, String, Bool, true, false, ◌≡◌, ◌⊎◌, refl, ap, ◌∙◌, some, List, [],
  ◌∷◌, Map, lookup, insert-same, length, nat_eq, nat_eq_iff, nat_Eq, inl, inr, Bool-cases, arith,
}
use minijob.Job.{Job}
use minijob.Service.State.{
  ServiceEvent, job_created, job_deleted, job_loaded, job_deleted_all, empty_poll_received, Effect,
  job_event, service_event, job_updated,
}
use minijob.Service.Log.{is_known, followed, restoring, AllowedEvent, Allowed, IsLog}
use minijob.Backend.Files.{Files, Answers}
use minijob.Backend.InMemory.{
  Settings, Provider, kept, keep_locked, keep_known, on_job_created, on_job_deleted,
  on_jobs_deleted, on_job_updated, on_event, save, save_locked, sync, Codec, notify_job_event,
  notify_event, observe,
}
use minijob.Backend.Saved.{save-file}
use minijob.Backend.Stored.{stored, observed, stored-Known}
use minijob.Backend.Mirror.{observed-IsMirror}

-- One message counts as one change, or changes no job.
abbrev pub Moves : Provider → Provider → Type 0
Moves p q =
    ((q.generation ≡ suc p.generation % 18446744073709551616)
      ⊎ ((q.generation ≡ p.generation) × (q.jobs ≡ p.jobs)))
    × (q.saved_generation ≡ p.saved_generation)
    × (q.files ≡ p.files)

keep_known-counts :
    (c : Settings) (j : Job) (p : Provider)
    → ((keep_known c j p).generation ≡ p.generation)
      × ((keep_known c j p).saved_generation ≡ p.saved_generation)
      × ((keep_known c j p).files ≡ p.files)
unfolding keep_known keep_locked
keep_known-counts c j p = ground arith

loaded-Moves :
    (c : Settings) (j : Job) (m : Map ℕ Job) (p : Provider)
    → p.jobs ≡ stored c m
    → lookup j.id m ≡ some j
    → Moves p (notify_job_event c job_loaded j p)
unfolding notify_job_event on_event
loaded-Moves c j m p h e = ground (
  arith,
  keep_known-counts c j p,
  h,
  stored-Known c j m p h (ap is_known e),
  insert-same j.id j m e,
)

event-Moves :
    (c : Settings) (max : ℕ) (ev : ServiceEvent) (j : Job) (flag : Bool) (m : Map ℕ Job)
    (p : Provider)
    → p.jobs ≡ stored c m
    → AllowedEvent max ev j flag m
    → Moves p (notify_job_event c ev j p)
unfolding notify_job_event on_event on_job_created on_job_deleted keep_locked
event-Moves c max job_loaded j flag m p h a = loaded-Moves c j m p h a.1
event-Moves c max job_deleted_all j flag m p h a = absurd a
event-Moves c max empty_poll_received j flag m p h a = absurd a
event-Moves c max job_created j flag m p h a = ground arith
event-Moves c max job_deleted j flag m p h a = ground arith
event-Moves c max ev j flag m p h a = ground (arith, keep_known-counts c j p)

pub observe-Moves :
    (c : Settings) (max : ℕ) (start : Map ℕ Job) (e : Effect) (flag : Bool) (m : Map ℕ Job)
    (p : Provider)
    → p.jobs ≡ stored c m
    → Allowed max start e flag m
    → Moves p (observe c e p)
unfolding observe notify_event on_jobs_deleted on_job_updated
observe-Moves c max start (job_event ev j) flag m p h a = event-Moves c max ev j flag m p h a
observe-Moves c max start (service_event ev) flag m p h a = ground arith
observe-Moves c max start (job_updated j) flag m p h a = ground (arith, keep_known-counts c j p)
observe-Moves c max start e flag m p h a = ground arith

-- How far the counter is after the messages.
abbrev pub IsCounted : Provider → Provider → ℕ → Type 0
IsCounted p q most =
    ((d : ℕ) × (d ≤ most)
      × (q.generation ≡ (p.generation + d) % 18446744073709551616)
      × (d ≡ 0 → q.jobs ≡ p.jobs))
    × (q.saved_generation ≡ p.saved_generation)
    × (q.files ≡ p.files)

pub IsCounted-Moves :
    (p q r : Provider) (most : ℕ) → IsCounted p q most → Moves q r → IsCounted p r (suc most)
IsCounted-Moves p q r most ((d, small, count, same), saved, files) (inl next, saved', files') = (
  (suc d, omega (arith, small), omega (arith, next, count), λ z. absurd (omega (arith, z))),
  saved' ∙ saved,
  files' ∙ files,
)
IsCounted-Moves p q r most ((d, small, count, same), saved, files)
      (inr (kept, jobs), saved', files') =
    ((d, omega (arith, small), kept ∙ count, λ z. jobs ∙ same z), saved' ∙ saved, files' ∙ files)

pub observed-IsCounted :
    (c : Settings) (start : Map ℕ Job) (es : List Effect) (p : Provider)
    → 0 < c.max_jobs
    → IsLog c.max_jobs start es
    → p.jobs ≡ stored c start
    → p.restoring ≡ false
    → p.generation < 18446744073709551616
    → IsCounted p (observed c p es) (length es)
observed-IsCounted c start [] p room log same flag small =
    ((0, omega arith, omega (arith, small), λ z. refl), refl, refl)
observed-IsCounted c start (e ∷ es) p room (a, log) same flag small =
    IsCounted-Moves p (observed c p es) (observed c p (e ∷ es)) (length es)
      (observed-IsCounted c start es p room log same flag small)
      (observe-Moves c c.max_jobs start e (restoring es) (followed start es) (observed c p es)
        (observed-IsMirror c start es p room log same flag).0 a)

-- The file holds the jobs.
abbrev pub IsCurrent : Codec → Provider → Type 0
IsCurrent codec p = (text : String) × (codec.encode p.jobs ≡ some text) × (p.files.file ≡ some text)

-- A provider with persistent storage starts with a current file and a saved counter, and gets
-- fewer than 2^64 messages of the scheduler. If the sync that follows reports no error, the file
-- holds the present jobs, whether the sync has written it or has seen that nothing changed.
pub sync_lem :
    (c : Settings) (codec : Codec) (a : Answers) (start : Map ℕ Job) (es : List Effect)
    (p : Provider)
    → 0 < c.max_jobs
    → c.persistent ≡ true
    → IsLog c.max_jobs start es
    → p.jobs ≡ stored c start
    → p.restoring ≡ false
    → p.generation < 18446744073709551616
    → p.saved_generation ≡ p.generation
    → IsCurrent codec p
    → length es < 18446744073709551616
    → (sync c codec a (observed c p es)).0 ≡ true
    → IsCurrent codec (sync c codec a (observed c p es)).1
unfolding sync save_locked
sync_lem c codec a start es p room lasting log same flag small saved now few ok =
    let q = observed c p es in
    let ((d, most, count, jobs), kept, files) =
      observed-IsCounted c start es p room log same flag small in
    elim (Bool-cases (nat_eq q.generation q.saved_generation)) [
      | inl e ↦
          let none : d ≡ 0 = omega (
            arith,
            (nat_eq_iff q.generation q.saved_generation).0 e,
            count,
            kept,
            saved,
            small,
            most,
            few,
          ) in
          let (text, encoded, there) = now in
          simp (lasting, e)
            (text, ap codec.encode (jobs none) ∙ encoded, ap (λ (f : Files). f.file) files ∙ there)
      | inr e ↦
          let done : (save codec a q.jobs q.files).0 ≡ true = ground (arith, ok, lasting, e) in
          simp (lasting, e) (save-file codec a q.jobs q.files done)
    ]
