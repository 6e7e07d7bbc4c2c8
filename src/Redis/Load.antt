-- ===== src/Redis/Load.antt =====
-- How the Redis backend loads the jobs at a start (jobbackendprovider/redisprovider/redisprovider.go).
use Prim.Native.String.{compare}
use Prim.Native.Nat.{Ordering}
use minijob.Prelude.{
  ℕ, zero, suc, String, Bool, true, false, Option, none, some, List, [], ◌∷◌, Map, insert, drop,
  take, length, ◌==◌, if◌then◌else◌, sort_by, ltb, nat_Eq, string_Eq,
}
use minijob.Constants.{
  error_cant_create_job, error_database_unavailable, status_bad_request, status_service_unavailable,
}
use minijob.Job.{Job, set_state_from_history}
use minijob.Service.State.{ApiError, Outcome, ok, err}
use minijob.Redis.Provider.{Settings, job_uuid2redis_key}
use minijob.Redis.Writer.{Writer, start}

-- The reading commands of the client (github.com/redis/go-redis/v9): the iterator of SCAN over the
-- keys of the pattern `job:*`, MGET (an absent key is nil), EXISTS and PING. `none` is an error.
pub record Reader (R : Type 0) : Type 0 where
  pub scan_all : R → Option (List String) × R
  pub mget : List String → R → Option (List (Option String)) × R
  pub exists : String → R → Option ℕ × R
  pub ping : R → Bool × R

abbrev pub mget_count : ℕ
mget_count = 500

unfoldable pub unavailable : String → ℕ → ApiError
unavailable message id = record {
  message = message;
  code = error_database_unavailable;
  http_code = status_service_unavailable;
  job_uuid = id;
}

-- The error of getJobs for a value that cannot be decoded.
abbrev pub undecodable : ApiError
undecodable = record {
  message = "cannot load job";
  code = error_cant_create_job;
  http_code = status_bad_request;
  job_uuid = 0;
}

-- The byte order of strings, in which slices.Sort sorts.
abbrev pub string_less : String → String → Bool
string_less a b = elim (compare a b) [ Ordering.lt ↦ true | _ ↦ false ]

-- slices.Compact: of equal elements side by side the first one stays.
unfoldable pub compact_behind : String → List String → List String
compact_behind x [] = []
compact_behind x (y ∷ ys) = if x == y then compact_behind x ys else y ∷ compact_behind y ys

unfoldable pub compact : List String → List String
unfolding compact_behind
compact [] = []
compact (x ∷ xs) = x ∷ compact_behind x xs

-- NewJob (job/job.go), with json.Unmarshal given.
unfoldable pub new_job : (String → Option Job) → String → Option Job
new_job decode text = elim (decode text) [ none ↦ none | some j ↦ some (set_state_from_history j) ]

-- The inner loop of getJobs, over the values of one MGET.
unfoldable pub read_values :
    (String → Option Job) → List (Option String) → Map ℕ Job → Outcome (Map ℕ Job)
unfolding new_job
read_values decode [] m = ok m
read_values decode (none ∷ values) m = read_values decode values m
read_values decode (some text ∷ values) m = elim (new_job decode text) [
  | none ↦ err undecodable
  | some j ↦ read_values decode values (insert j.id j m)
]

module _ {R : Type 0} (reader : Reader R) where
  -- scanJobKeys
  unfoldable pub scan_job_keys : R → Option (List String) × R
  unfolding compact
  scan_job_keys r =
      let (found, r') = reader.scan_all r in
      (elim found [ none ↦ none | some keys ↦ some (compact (sort_by string_less keys)) ], r')

  -- The outer loop of getJobs, on fuel: the keys that are left. The outer `none` means that the fuel
  -- ran out.
  unfoldable pub get_jobs_from :
      (String → Option Job) → ℕ → List String → Map ℕ Job → R → Option (Outcome (Map ℕ Job)) × R
  unfolding unavailable read_values
  get_jobs_from decode fuel [] m r = (some (ok m), r)
  get_jobs_from decode zero (key ∷ keys) m r = (none, r)
  get_jobs_from decode (suc fuel) (key ∷ keys) m r =
      let (found, r') = reader.mget (take mget_count (key ∷ keys)) r in
      elim found [
        | none ↦ (some (err (unavailable "cannot load job" 0)), r')
        | some values ↦ elim (read_values decode values m) [
          | err e ↦ (some (err e), r')
          | ok m' ↦ get_jobs_from decode fuel (drop mget_count (key ∷ keys)) m' r'
        ]
      ]

  -- getJobs. Every turn takes a key, so their number is fuel enough.
  abbrev pub get_jobs : (String → Option Job) → List String → R → Option (Outcome (Map ℕ Job)) × R
  get_jobs decode keys r = get_jobs_from decode (length keys) keys [] r

  -- LoadJobs behind getJobs: the writer starts.
  abbrev pub finish_load :
      Option (Outcome (Map ℕ Job)) → Writer R → Option (Outcome (Map ℕ Job)) × Writer R
  finish_load none w = (none, w)
  finish_load (some (err e)) w = (some (err e), w)
  finish_load (some (ok m)) w = (some (ok m), start w)

  -- LoadJobs
  unfoldable pub load_jobs :
      (String → Option Job) → Writer R → Option (Outcome (Map ℕ Job)) × Writer R
  unfolding scan_job_keys get_jobs_from unavailable
  load_jobs decode w =
      let (found, r1) = scan_job_keys w.server in
      elim found [
        | none ↦ (some (err (unavailable "cannot load jobs" 0)), record w { server = r1 })
        | some keys ↦
            let (result, r2) = get_jobs decode keys r1 in
            finish_load result (record w { server = r2 })
      ]

  -- JobExists
  unfoldable pub job_exists : Settings → ℕ → R → Outcome Bool × R
  unfolding unavailable
  job_exists c id r =
      let (found, r') = reader.exists (job_uuid2redis_key c id) r in
      (elim found [ none ↦ err (unavailable "cannot create job" id) | some n ↦ ok (ltb 0 n) ], r')

  -- Healthcheck. The client is not set before Init.
  unfoldable pub healthcheck : Bool → Writer R → Bool × Writer R
  healthcheck false w = (true, w)
  healthcheck true w =
      let (answered, r) = reader.ping w.server in
      (if answered then w.ok else false, record w { server = r })
