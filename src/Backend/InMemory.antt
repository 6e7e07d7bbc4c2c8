-- ===== src/Backend/InMemory.antt =====
-- The in-memory backend (jobbackendprovider/inmemoryprovider). The provider is an observer of the
-- scheduler; a notification is one step, and no save runs beside it.
use minijob.Prelude.{
  ℕ, suc, ◌%◌, String, Bool, true, false, Option, none, some, [], Map, map_values, lookup, insert,
  delete, length, if◌then◌else◌, nat_eq, nat_Eq,
}
use minijob.Prelude.Int64.{ℤ, pos, ltb_ℤ, eq_ℤ}
use minijob.Job.{Job, set_state_from_history}
use minijob.Job.Json.{Numbers, RawJob, unmarshal_jobs}
use minijob.Service.State.{
  ServiceEvent, job_created, job_deleted, job_loaded, job_deleted_all, empty_poll_received, Effect,
  job_event, service_event, job_updated, restore_flag, resource_unlocked, all_resources_unlocked,
}
use minijob.Backend.Files.{Files, Answers, write_file_atomic, after_all}

pub record Settings : Type 0 where
  pub max_jobs : ℕ
  pub write_frequency : ℤ
  pub persistent : Bool

-- A stored job is nil when nothing is written. The messages of notifChan are informational, and are
-- left out.
pub record Provider : Type 0 where
  pub jobs : Map ℕ (Option Job)
  pub generation : ℕ
  pub saved_generation : ℕ
  pub restoring : Bool
  pub files : Files

-- encoding/json, on the map of the jobs.
pub record Codec : Type 0 where
  pub encode : Map ℕ (Option Job) → Option String
  pub decode : String → Option (Map ℕ Job)

-- The package encoding/json, and strconv: how the map of the jobs is written, and what is decoded up to
-- the properties (Job/Json).
pub record Json : Type 0 where
  pub numbers : Numbers
  pub marshal : Map ℕ (Option Job) → Option String
  pub decode_raw : String → Option (Map ℕ RawJob)

-- json.Marshal, and json.Unmarshal with the UnmarshalJSON of the properties.
unfoldable pub codec_of : Json → Codec
unfolding unmarshal_jobs
codec_of j = record {
  encode = j.marshal;
  decode = λ text. elim (j.decode_raw text) [ none ↦ none | some m ↦ unmarshal_jobs j.numbers m ];
}

-- NewInMemoryJobBackendProvider; `none` is its error. The jobs are a nil map until LoadJobs.
unfoldable pub new_provider : ℕ → ℤ → Bool → Files → Option (Settings × Provider)
new_provider max_jobs write_frequency persistent files =
    if nat_eq max_jobs 0
    then none
    else if ltb_ℤ write_frequency (pos 0)
    then none
    else some (
      record {
        max_jobs = max_jobs;
        write_frequency = if eq_ℤ write_frequency (pos 0) then pos 300 else write_frequency;
        persistent = persistent;
      },
      record { jobs = []; generation = 0; saved_generation = 0; restoring = false; files = files },
    )

-- NotifyChange
abbrev pub notify_change : Provider → Provider
notify_change p = record p { generation = suc p.generation % 18446744073709551616 }

-- keepLocked
abbrev pub kept : Settings → Job → Option Job
kept c j = if c.persistent then some j else none

unfoldable pub keep_locked : Settings → Job → Provider → Provider
keep_locked c j p = record p { jobs = insert j.id (kept c j) p.jobs }

-- `if _, known := p.jobs[j.JobUUID]; known { p.keepLocked(j) }`
unfoldable pub keep_known : Settings → Job → Provider → Provider
unfolding keep_locked
keep_known c j p = elim (lookup j.id p.jobs) [ none ↦ p | some _ ↦ keep_locked c j p ]

-- OnJobCreated; its error is logged by the caller.
unfoldable pub on_job_created : Settings → Job → Provider → Provider
unfolding keep_locked
on_job_created c j p =
    if nat_eq (length p.jobs) c.max_jobs then p else notify_change (keep_locked c j p)

-- OnJobDeleted
unfoldable pub on_job_deleted : ℕ → Provider → Provider
on_job_deleted id p = notify_change (record p { jobs = delete id p.jobs })

-- OnJobsDeleted
unfoldable pub on_jobs_deleted : Provider → Provider
on_jobs_deleted p = notify_change (record p { jobs = [] })

-- OnJobUpdated
unfoldable pub on_job_updated : Settings → Job → Provider → Provider
unfolding keep_known
on_job_updated c j p = notify_change (keep_known c j p)

-- The switch of NotifyJobEvent: OnJobDelayed and its like only count the change.
unfoldable pub on_event : Settings → ServiceEvent → Job → Provider → Provider
unfolding on_job_created on_job_deleted
on_event c job_created j p = on_job_created c j p
on_event c job_deleted j p = on_job_deleted j.id p
on_event c job_loaded j p = p
on_event c job_deleted_all j p = p
on_event c empty_poll_received j p = p
on_event c _ j p = notify_change p

abbrev pub is_kept_event : ServiceEvent → Bool
is_kept_event job_created = false
is_kept_event job_deleted = false
is_kept_event _ = true

-- NotifyJobEvent
unfoldable pub notify_job_event : Settings → ServiceEvent → Job → Provider → Provider
unfolding keep_known on_event
notify_job_event c ev j p =
    if p.restoring
    then p
    else if c.persistent
    then on_event c ev j (if is_kept_event ev then keep_known c j p else p)
    else on_event c ev j p

-- NotifyEvent
unfoldable pub notify_event : ServiceEvent → Provider → Provider
unfolding on_jobs_deleted
notify_event job_deleted_all p = if p.restoring then p else on_jobs_deleted p
notify_event _ p = p

-- What the provider does with the messages of the scheduler: as an observer, and as the backend that
-- the scheduler calls.
unfoldable pub observe : Settings → Effect → Provider → Provider
unfolding notify_job_event notify_event on_job_updated
observe c (job_event ev j) p = notify_job_event c ev j p
observe c (service_event ev) p = notify_event ev p
observe c (job_updated j) p = on_job_updated c j p
observe c (restore_flag b) p = record p { restoring = b }
observe c (resource_unlocked j r) p = notify_change p
observe c all_resources_unlocked p = notify_change p
observe c _ p = p

-- DBFileStorage.Save; the flag is false for an error
unfoldable pub save : Codec → Answers → Map ℕ (Option Job) → Files → Bool × Files
unfolding write_file_atomic after_all
save k a jobs f = elim (k.encode jobs) [
  | none ↦ (false, f)
  | some text ↦ let (ok, states) = write_file_atomic a text f in (ok, after_all f states)
]

-- saveLocked
unfoldable pub save_locked : Codec → Answers → Provider → Bool × Provider
unfolding save
save_locked k a p =
    let (ok, f) = save k a p.jobs p.files in
    (ok, record p { files = f; saved_generation = if ok then p.generation else p.saved_generation })

-- SaveToFile
unfoldable pub save_to_file : Settings → Codec → Answers → Provider → Bool × Provider
unfolding save_locked
save_to_file c k a p = if c.persistent then save_locked k a p else (true, p)

-- sync
unfoldable pub sync : Settings → Codec → Answers → Provider → Bool × Provider
unfolding save_locked
sync c k a p =
    if c.persistent
    then (if nat_eq p.generation p.saved_generation then (true, p) else save_locked k a p)
    else (true, p)

abbrev pub with_states : Map ℕ Job → Map ℕ Job
with_states jobs = map_values set_state_from_history jobs

-- DBFileStorage.Load: without a file, an empty one is written. `none` is its error. The flag says that
-- the directory is there or is made, and that the file can be opened.
unfoldable pub load : Codec → Bool → Answers → Files → Option (Map ℕ Job) × Files
unfolding save
load k false a f = (none, f)
load k true a f = elim f.file [
  | none ↦ let (ok, g) = save k a [] f in (if ok then some [] else none, g)
  | some text ↦ elim (k.decode text) [ none ↦ (none, f) | some jobs ↦ (some (with_states jobs), f) ]
]

-- LoadJobs: the jobs that the caller gets, and the provider, which keeps its own copies.
unfoldable pub load_jobs :
    Settings → Codec → Bool → Answers → Provider → Option (Map ℕ Job) × Provider
unfolding load
load_jobs c k readable a p =
    let (found, f) = load k readable a p.files in
    if c.persistent
    then elim found [
      | none ↦ (none, record p { jobs = []; files = f })
      | some jobs ↦ (
        some jobs,
        record p { jobs = map_values some jobs; files = f; saved_generation = p.generation },
      )
    ]
    else (some [], record p { jobs = []; saved_generation = p.generation })
