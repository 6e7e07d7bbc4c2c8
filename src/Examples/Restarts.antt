-- ===== src/Examples/Restarts.antt =====
-- The start on loaded jobs, and the metrics, at concrete inputs.
use minijob.Prelude.{
  ℕ, true, ◌≡◌, refl, some, [], ◌∷◌, Map, lookup, insert, sort_by, insert_by, nat_Eq, string_Eq,
  arith,
}
use minijob.Prelude.{map_values}
use minijob.Prelude.Int64.{pos}
use minijob.Job.Properties.{Members, object, member, integer, float}
use minijob.Job.Rereads.{
  HaveProperties, IsExact, AreExact, MembersExact, raw_job, stateless, unmarshal_jobs-raw_job,
}
use minijob.Backend.Saved.{IsJson}
use minijob.Examples.Numbers.{numbers_a, numbers_a-AreNumbers}
use minijob.Job.{
  Job, JobRequest, JobState, add_history_event, init, new_job_from_request, compute_start_after,
  get_state_from_event,
}
use minijob.Service.State.{add_history_event_locked, add_history, enter, leave}
use minijob.Service.Create.{
  create_job, check_max_allowed_jobs_locked, finalize_job_creation_locked,
  generate_new_job_uuid_locked, finalize_with, store_new_job, schedule,
}
use minijob.Service.Scheduling.{
  set_job_state_to_pending_locked, try_enqueue_pending_jobs_locked, candidates, jobs_at,
  enqueue_each, enqueue_job_locked, lock_resources_locked, enqueue_behind, to_queue_from_pending,
}
use minijob.Resources.{requires_locked_resources, lock_resources, unavailable, acquire}
use minijob.Service.Restore.{
  restore_jobs, restore_each, schedule_each, take_jobs, created_ids, start_created,
}
use minijob.Resources.{
  lock_resources_for_jobs, sorted_job_ids, lock_for_ids, lock_for_job, assign, is_active,
}
use minijob.Resources.Restoring.{LatestClaim, lock_resources_for_jobs_latest}
use minijob.Service.State.{Service, new_service}
use minijob.Service.Calls.{create, perform}
use minijob.Service.Invariant.{Inv}
use minijob.Service.Restore.{load_jobs}
use minijob.Service.Restored.{IsLoadable}
use minijob.Service.Restored.Jobs.{Restarted, load_jobs_lem}
use minijob.Service.Reach.{ReachLoaded, fresh, call, restarted-Inv}
use minijob.Metrics.{Floats, new_service_metrics}
use minijob.Metrics.Observer.{observed}
use minijob.Metrics.Agree.{IsCounted}
use minijob.Service.Begun.{reachable-AreBegun}
use minijob.Metrics.Observed.{restarted-IsCounted}
use minijob.Backend.Files.{write_file_atomic, write_calls, after_all}
use minijob.Backend.InMemory.{
  Provider, Codec, Json, codec_of, save, save_locked, save_to_file, load,
  load_jobs as load_provider, with_states,
}
use minijob.Backend.Stored.{stored, observed as observed_jobs}
use minijob.Backend.Cycle.{save_to_file-restarted}
use minijob.Examples.Backends.{env_c, settings_c, provider_c, fine}
use minijob.Backend.Restarted.{reachable-IsLoadable}
use minijob.Examples.{env_a, request_a, job_a, state_a, state_a-Reach, distinct_a}

state_a-IsLoadable : IsLoadable state_a.jobs
state_a-IsLoadable = reachable-IsLoadable env_a state_a-Reach

abbrev loaded_a : Service
loaded_a = (load_jobs env_a (some state_a.jobs) new_service).1

restarted-Inv_example : Inv (perform env_a (create (some request_a)) loaded_a).sched
restarted-Inv_example =
    restarted-Inv env_a state_a.jobs distinct_a state_a-IsLoadable
      (call (create (some request_a)) fresh)

load_jobs_lem_example : Restarted env_a (lookup 0 state_a.jobs) (lookup 0 loaded_a.jobs)
load_jobs_lem_example = load_jobs_lem env_a state_a.jobs state_a-IsLoadable 0

-- Two jobs list the same resource.
abbrev claiming : ℕ → Job
claiming id = record job_a { id = id; state = JobState.running; lock_resources = "disk" ∷ [] }

abbrev claims_a : Map ℕ Job
claims_a = (2, claiming 2) ∷ (1, claiming 1) ∷ []

claims_a-ids : (k : ℕ) (j : Job) → lookup k claims_a ≡ some j → j.id ≡ k
unfolding lookup
claims_a-ids k j e = ground (arith, e)

claims_a-held : lookup "disk" (lock_resources_for_jobs claims_a) ≡ some 2
unfolding lock_resources_for_jobs sorted_job_ids lock_for_ids lock_for_job assign is_active sort_by
    insert_by lookup insert
claims_a-held = refl

lock_resources_for_jobs_latest_example : LatestClaim claims_a "disk" (some 2)
lock_resources_for_jobs_latest_example =
    lock_resources_for_jobs_latest claims_a "disk" claims_a-ids (some 2) claims_a-held

abbrev floats_a : Floats ℕ
floats_a = record { zero_float = 0; ratio = λ a b. a; mean_seconds = λ s n. n }

restarted-IsCounted_example :
    IsCounted floats_a (perform env_a (create (some request_a)) loaded_a).jobs (
      observed floats_a true new_service_metrics
        (perform env_a (create (some request_a)) loaded_a).effects)
restarted-IsCounted_example =
    restarted-IsCounted floats_a env_a state_a.jobs state_a-IsLoadable
      (reachable-AreBegun env_a state_a-Reach) (call (create (some request_a)) fresh)

-- A run from an empty file, and the next one.
abbrev empty-IsLoadable : IsLoadable []
unfolding lookup
empty-IsLoadable = record { once = λ k. omega arith; sound = λ k. tt }

-- A job with an integer and a float64 among its properties.
abbrev request_d : JobRequest
request_d = record request_a {
  properties =
      object (member "copies" (integer (pos 3)) (member "scale" (float "1.5") Members.end));
}

abbrev first_d : Service
first_d = perform env_c (create (some request_d)) (load_jobs env_c (some []) new_service).1

first_d-Reach : ReachLoaded env_c [] first_d
first_d-Reach = call (create (some request_d)) fresh

abbrev json_d : Json
json_d = record {
  numbers = numbers_a;
  marshal = λ jobs. some "jobs";
  decode_raw = λ text. some (map_values (raw_job numbers_a) first_d.jobs);
}

abbrev codec_d : Codec
codec_d = codec_of json_d

json_d-IsJson : IsJson json_d first_d.jobs
json_d-IsJson = record { numbers = numbers_a-AreNumbers; reads = λ text e. refl }

first_d-HaveProperties : HaveProperties numbers_a first_d.jobs
unfolding IsExact AreExact MembersExact perform create_job check_max_allowed_jobs_locked
    new_job_from_request compute_start_after finalize_job_creation_locked
    generate_new_job_uuid_locked finalize_with store_new_job init schedule
    set_job_state_to_pending_locked add_history_event_locked add_history add_history_event
    get_state_from_event enter leave try_enqueue_pending_jobs_locked candidates sort_by insert_by
    jobs_at requires_locked_resources lookup insert enqueue_each enqueue_job_locked
    lock_resources_locked lock_resources unavailable acquire enqueue_behind to_queue_from_pending
    new_service load_jobs restore_jobs restore_each sorted_job_ids lock_resources_for_jobs
    lock_for_ids schedule_each take_jobs created_ids start_created
first_d-HaveProperties = ((omega arith, (refl, tt)), tt)

abbrev saved_d : Provider
saved_d =
    (save_to_file settings_c codec_d fine (observed_jobs settings_c provider_c first_d.effects)).1

abbrev next_d : Provider
next_d = record provider_c { files = saved_d.files }

abbrev jobs_d : Map ℕ Job
jobs_d = with_states (map_values stateless first_d.jobs)

abbrev second_d : Service
second_d = (load_jobs env_c (some jobs_d) new_service).1

saved_d-ok :
    (save_to_file settings_c codec_d fine (observed_jobs settings_c provider_c first_d.effects)).0
    ≡ true
unfolding save_to_file save_locked save write_file_atomic write_calls codec_of
saved_d-ok = refl

loads_d : (load_provider settings_c codec_d true fine next_d).0 ≡ some jobs_d
unfolding load_provider load save_to_file save_locked save write_file_atomic write_calls after_all
    codec_of
loads_d =
    rw (unmarshal_jobs-raw_job numbers_a numbers_a-AreNumbers first_d.jobs first_d-HaveProperties)
      refl

save_to_file-restarted_example :
    ((k : ℕ) → lookup k jobs_d ≡ lookup k first_d.jobs)
    × Inv second_d.sched
    × ((observed_jobs settings_c
          (load_provider settings_c codec_d true fine next_d).1
          second_d.effects).jobs
        ≡ stored settings_c second_d.jobs)
save_to_file-restarted_example =
    save_to_file-restarted env_c env_c settings_c json_d [] jobs_d provider_c next_d fine fine
      empty-IsLoadable first_d-Reach refl refl (omega arith) refl refl refl json_d-IsJson
      first_d-HaveProperties saved_d-ok refl refl loads_d distinct_a fresh
