-- ===== src/Redis/Exists.antt =====
-- JobExists and Healthcheck of jobbackendprovider/redisprovider/redisprovider.go.
use minijob.Prelude.{ℕ, String, true, ◌≡◌, Option, none, some, nat_Eq, ltb, arith}
use minijob.Job.{Job}
use minijob.Service.State.{ok}
use minijob.Service.Log.{is_known}
use minijob.Redis.Ops.{StoredValue}
use minijob.Redis.Writer.{Writer}
use minijob.Redis.Provider.{Settings, job_uuid2redis_key}
use minijob.Redis.Saves.{IsSaved}
use minijob.Redis.Load.{Reader, job_exists, healthcheck}

abbrev number_of : Option StoredValue → ℕ
number_of none = 0
number_of (some v) = 1

IsSaved-number_of :
    (c : Settings) (id : ℕ) (o : Option Job) (v : Option StoredValue)
    → IsSaved c id o v
    → ltb 0 (number_of v) ≡ is_known o
IsSaved-number_of c id none v e = rw (e) (ground arith)
IsSaved-number_of c id (some j) v s = rw (s.3) (ground arith)

module _ {R : Type 0} (c : Settings) (read : String → R → Option StoredValue)
    (reader : Reader R) where
  -- If EXISTS without an error counts the value of its key, and the database tells of the jobs of a
  -- map: JobExists, when it answers, says whether the map has a job of this id.
  pub job_exists-IsSaved :
      (id : ℕ) (o : Option Job) (r : R) (n : ℕ)
      → (reader.exists (job_uuid2redis_key c id) r).0 ≡ some n
      → n ≡ number_of (read (job_uuid2redis_key c id) r)
      → IsSaved c id o (read (job_uuid2redis_key c id) r)
      → (job_exists reader c id r).0 ≡ ok (is_known o)
  unfolding job_exists
  job_exists-IsSaved id o r n e counted s =
      ground (arith, e, counted, IsSaved-number_of c id o (read (job_uuid2redis_key c id) r) s)

  -- A healthy answer of an opened client means that Redis answered and the last write did not fail.
  pub healthcheck_lem :
      (w : Writer R)
      → (healthcheck reader true w).0 ≡ true
      → ((reader.ping w.server).0 ≡ true) × (w.ok ≡ true)
  unfolding healthcheck
  healthcheck_lem w h = ground (arith, h)
