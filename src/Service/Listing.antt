-- ===== src/Service/Listing.antt =====
-- The pages of jobs: GetJobs, filterJobs, stringToJobState and sortJobs (service/service.go).
use Prim.Native.Nat.{Ordering, compare as compare_ℕ}
use Prim.Native.Nat.Ordering.{lt, eq, gt}
use Prim.Native.String.{compare as compare_text}
use minijob.Prelude.{
  ℕ, ◌+◌, ◌-◌, ◌*◌, ◌/◌, min, String, Bool, true, false, not, ◌&&◌, ◌||◌, ◌==◌, Option, none, some,
  List, [], ◌∷◌, map, length, take, drop, keep_if, sort_by, if◌then◌else◌, ltb, nat_eq, string_Eq,
}
use minijob.Prelude.Int64.{ℤ, pos, ltb_ℤ}
use minijob.Job.{Job, JobState, get_creation_timestamp, get_last_update_date, same_state}
use minijob.Service.State.{Service}

-- The package strings, and the printed uuid.
pub record Strings : Type 0 where
  pub to_lower : String → String
  pub contains_text : String → String → Bool
  pub split : String → String → List String
  pub trim_space : String → String
  pub uuid_string : ℕ → String

-- The web server gives a page and a limit that are not negative.
pub record GetJobsRequest : Type 0 where
  pub page : ℕ
  pub limit : ℕ
  pub status : String
  pub topic : String
  pub sort : String
  pub search : String

pub record GetJobsResponse : Type 0 where
  pub jobs : List Job
  pub total : ℕ
  pub page : ℕ
  pub limit : ℕ
  pub total_pages : ℕ

-- stringToJobState, after its ToLower
unfoldable pub string_to_job_state : String → JobState
string_to_job_state s =
    if s == "created"
    then JobState.created
    else if s == "delayed"
    then JobState.delayed
    else if s == "pending"
    then JobState.pending
    else if s == "queued"
    then JobState.queued
    else if s == "running"
    then JobState.running
    else if s == "succeeded"
    then JobState.succeeded
    else if s == "failed"
    then JobState.failed
    else if s == "canceled"
    then JobState.canceled
    else if s == "deleted"
    then JobState.deleted
    else if s == "hidden"
    then JobState.hidden
    else JobState.no_state

-- The tests of filterJobs; one that fails leaves the job out.
unfoldable pub is_wanted : Strings → GetJobsRequest → Job → Bool
unfolding string_to_job_state
is_wanted f req j =
    let target = string_to_job_state (f.to_lower req.status) in
    (req.status == "" || (not (same_state target JobState.no_state) && same_state j.state target))
    && (req.topic == "" || j.topic == req.topic)
    && (req.search == ""
        || f.contains_text (f.to_lower (f.uuid_string j.id)) (f.to_lower req.search))

-- filterJobs
unfoldable pub filter_jobs : Strings → GetJobsRequest → List Job → List Job
unfolding is_wanted
filter_jobs f req jobs = keep_if (is_wanted f req) jobs

pub data Field : Type 0 where
  by_created by_updated by_priority by_topic : Field

-- One word of the sort parameter, trimmed; the flag is desc. Unknown words are ignored.
unfoldable pub criterion : String → Option (Field × Bool)
criterion s =
    if s == "created_asc"
    then some (by_created, false)
    else if s == "created_desc"
    then some (by_created, true)
    else if s == "priority_asc"
    then some (by_priority, false)
    else if s == "priority_desc"
    then some (by_priority, true)
    else if s == "updated_asc"
    then some (by_updated, false)
    else if s == "updated_desc"
    then some (by_updated, true)
    else if s == "topic_asc"
    then some (by_topic, false)
    else if s == "topic_desc"
    then some (by_topic, true)
    else none

unfoldable pub criteria : Strings → List String → List (Field × Bool)
unfolding criterion
criteria f [] = []
criteria f (word ∷ words) =
    let rest = criteria f words in
    elim (criterion (f.trim_space word)) [ none ↦ rest | some c ↦ c ∷ rest ]

-- cmp.Compare
abbrev pub compare_ℤ : ℤ → ℤ → Ordering
compare_ℤ a b = if ltb_ℤ a b then lt else if ltb_ℤ b a then gt else eq

-- A job that the scheduler stores has a history, so that GetCreationTimestamp does not panic.
abbrev pub created_at : Job → ℤ
created_at j = elim (get_creation_timestamp j) [ none ↦ pos 0 | some t ↦ t ]

unfoldable pub compare_by : Field → Job → Job → Ordering
compare_by by_created a b = compare_ℤ (created_at a) (created_at b)
compare_by by_updated a b = compare_ℤ (get_last_update_date a) (get_last_update_date b)
compare_by by_priority a b = compare_ℤ a.priority b.priority
compare_by by_topic a b = compare_text a.topic b.topic

-- `-r`
abbrev pub reversed : Ordering → Ordering
reversed lt = gt
reversed eq = eq
reversed gt = lt

-- `if r != 0 { return r }`
abbrev pub or_else : Ordering → Ordering → Ordering
or_else eq next = next
or_else r next = r

unfoldable pub compare_jobs : List (Field × Bool) → Job → Job → Ordering
unfolding compare_by
compare_jobs [] a b = or_else (compare_ℤ (created_at a) (created_at b)) (compare_ℕ a.id b.id)
compare_jobs ((field, desc) ∷ cs) a b =
    let r = compare_by field a b in or_else (if desc then reversed r else r) (compare_jobs cs a b)

abbrev pub is_before : Ordering → Bool
is_before lt = true
is_before _ = false

-- sortJobs
unfoldable pub sort_jobs : Strings → String → List Job → List Job
unfolding criteria compare_jobs
sort_jobs f param jobs =
    let param' = if param == "" then "created_desc" else param in
    sort_by (λ a b. is_before (compare_jobs (criteria f (f.split param' ",")) a b)) jobs

-- GetJobs; `none` is the panic of the division by a limit of zero. Snapshots have the values of the
-- jobs.
unfoldable pub get_jobs : Strings → GetJobsRequest → Service → Option GetJobsResponse
unfolding filter_jobs sort_jobs
get_jobs f req s =
    let filtered = sort_jobs f req.sort (filter_jobs f req (map (λ (e : ℕ × Job). e.1) s.jobs)) in
    let total = length filtered in
    let start = (req.page - 1) * req.limit in
    let end = min (req.page * req.limit) total in
    if nat_eq req.limit 0
    then none
    else some (record {
      jobs = if ltb start total then take (end - start) (drop start filtered) else [];
      total = total;
      page = req.page;
      limit = req.limit;
      total_pages = (total + req.limit - 1) / req.limit;
    })
