-- ===== src/Examples/RedisLoad.antt =====
-- LoadJobs of the Redis backend on a database with one job.
use minijob.Prelude.{
  ℕ, String, ◌==◌, ◌≡◌, ◌≢◌, inl, inr, Bool-cases, Option, none, some, [], ◌∷◌, Map, lookup,
  if◌then◌else◌, nat_eq, nat_eq_iff, nat_Eq, string_Eq, arith,
}
use minijob.Prelude.Int64.{pos}
use minijob.Job.{
  Job, EventType, init, add_history_event, new_job_from_request, set_state_from_history,
}
use minijob.Service.State.{ok}
use minijob.Service.Restored.Once.{Once}
use minijob.Redis.Ops.{StoredValue}
use minijob.Redis.Writer.{Writer, new_writer}
use minijob.Redis.Provider.{job_uuid2redis_key}
use minijob.Redis.Saves.{key_eq}
use minijob.Redis.Load.{new_job, load_jobs}
use minijob.Redis.Loaded.{Filed, job_of}
use minijob.Redis.Found.{AllReadable, load_jobs-finds}
use minijob.Examples.{request_a}
use minijob.Examples.Shutdown.{settings_a, settings_a-Prints}
use minijob.Examples.RedisStore.{read_m, reader_m, reader_m-IsReader}

abbrev job_p : Job
job_p =
    add_history_event EventType.pending (pos 6)
      (init 0 (pos 5) (new_job_from_request (pos 1) request_a))

abbrev store_p : Map String StoredValue
store_p = ("job:", ("pending", 0)) ∷ []

abbrev decode_p : String → Option Job
decode_p text = if text == "pending" then some job_p else none

abbrev stored_p : Writer (Map String StoredValue)
stored_p = new_writer store_p

store_p-AllReadable : AllReadable decode_p (λ k. read_m k stored_p.server)
unfolding lookup new_job new_writer
store_p-AllReadable k there gone = elim (Bool-cases ("job:" == k)) [
  | inl e ↦ ground (arith, gone, e)
  | inr e ↦ there (ground (arith, e))
]

store_p-Filed : Filed settings_a decode_p (λ k. read_m k stored_p.server)
unfolding lookup new_job new_writer add_history_event init set_state_from_history
store_p-Filed id j e = elim (Bool-cases (nat_eq 0 id)) [
  | inl q ↦ ground (arith, e, key_eq settings_a settings_a-Prints 0 id, q, nat_eq_iff 0 id)
  | inr q ↦ ground (arith, e, key_eq settings_a settings_a-Prints 0 id, q)
]

scans_p : (reader_m.scan_all stored_p.server).0 ≢ none
unfolding new_writer
scans_p e = cc

load_jobs-finds_example :
    (n : Map ℕ Job) × ((load_jobs reader_m decode_p stored_p).0 ≡ some (ok n))
    × Once n
    × ((id : ℕ)
        → lookup id n ≡ job_of decode_p (read_m (job_uuid2redis_key settings_a id) stored_p.server))
load_jobs-finds_example =
    load_jobs-finds settings_a settings_a-Prints decode_p read_m reader_m reader_m-IsReader
      (λ ks r e. cc) stored_p scans_p store_p-AllReadable store_p-Filed
