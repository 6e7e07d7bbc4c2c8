-- ===== src/Examples/Backends.antt =====
-- The in-memory backend, the pages of jobs and the life cycle at concrete inputs.
use minijob.Prelude.{
  ℕ, Bool, ◌+◌, true, false, ◌≡◌, ◌⊎◌, refl, none, some, [], ◌∷◌, lookup, insert, map,
  if◌then◌else◌, one_if, arith, nat_Eq, string_Eq,
}
use minijob.Prelude.Int64.{pos}
use minijob.Job.{Job, init, new_job_from_request, get_history_states}
use minijob.Job.History.{init-IsConsistent}
use minijob.Service.State.{Service, Env, job_event, job_created, new_service}
use minijob.Service.Calls.{create, perform}
use minijob.Service.Reach.{Reach, fresh, call}
use minijob.Service.Logged.{IsLogged}
use minijob.Service.Messages.{reachable-IsLogged}
use minijob.Service.Listing.{Strings, GetJobsRequest, filter_jobs, sort_jobs, get_jobs}
use minijob.Service.Pages.{pages, total_pages_of, pages_lem}
use minijob.Backend.Files.{
  Files, Answers, AllOf, write_calls, write_file_atomic, after_all, write_file_atomic_lem,
}
use minijob.Backend.InMemory.{
  Settings, Provider, Codec, save, save_locked, sync, observe, notify_job_event, on_event,
  on_job_created, keep_locked,
}
use minijob.Backend.Stored.{stored, observed}
use minijob.Backend.Mirror.{reachable-observed}
use minijob.Backend.Synced.{IsCurrent, sync_lem}
use minijob.Lifecycle.{Lifecycle, begin, end, ask_stop, may_return}
use minijob.Lifecycle.Once.{Steps, fresh as fresh_steps, begins, ends, stops, Steps-once, stop_lem}
use minijob.Examples.{env_a, request_a, job_a}

abbrev pub env_c : Env
env_c = record env_a { config = record env_a.config { backend_max_jobs = 5 } }

abbrev pub state_c : Service
state_c = perform env_c (create (some request_a)) new_service

abbrev pub state_c-Reach : Reach env_c state_c
state_c-Reach = call (create (some request_a)) fresh

reachable-IsLogged_example : IsLogged 5 [] state_c.effects state_c.jobs
reachable-IsLogged_example = reachable-IsLogged env_c state_c-Reach

abbrev pub settings_c : Settings
settings_c = record { max_jobs = 5; write_frequency = pos 300; persistent = true }

abbrev pub files_c : Files
files_c = record { file = none; tmp = none }

abbrev pub provider_c : Provider
provider_c = record {
  jobs = [];
  generation = 0;
  saved_generation = 0;
  restoring = false;
  files = files_c;
}

reachable-observed_example :
    (observed settings_c provider_c state_c.effects).jobs ≡ stored settings_c state_c.jobs
reachable-observed_example =
    reachable-observed env_c settings_c provider_c state_c-Reach refl (omega arith) refl refl

abbrev pub fine : Answers
fine = record {
  opened = true;
  written = true;
  synced = true;
  closed = true;
  renamed = true;
  partial = "";
}

-- The disk is full.
abbrev full : Answers
full = record fine { written = false; partial = "ne" }

write_file_atomic_lem_example :
    AllOf (λ g. (g.file ≡ none) ⊎ (g.file ≡ some "new")) (write_file_atomic full "new" files_c).1
    × ((after_all files_c (write_file_atomic full "new" files_c).1).file
        ≡ (if (write_file_atomic full "new" files_c).0 then some "new" else none))
write_file_atomic_lem_example = write_file_atomic_lem full "new" files_c

-- Encodes the jobs of one state.
abbrev codec_c : Codec
codec_c = record { encode = λ jobs. some "jobs"; decode = λ text. some state_c.jobs }

-- A job is created after the last sync.
abbrev synced_c : Provider
synced_c = record provider_c { files = record { file = some "jobs"; tmp = none } }

new_c :
    (sync settings_c codec_c fine
      (observed settings_c synced_c (job_event job_created job_a ∷ []))).0
    ≡ true
unfolding sync save_locked save write_file_atomic write_calls observe notify_job_event on_event
    on_job_created keep_locked insert
new_c = refl

sync_lem_example :
    IsCurrent codec_c
      (sync settings_c codec_c fine
        (observed settings_c synced_c (job_event job_created job_a ∷ []))).1
unfolding lookup init get_history_states
sync_lem_example =
    sync_lem settings_c codec_c fine [] (job_event job_created job_a ∷ []) synced_c (omega arith)
      refl
      (
        (
          refl,
          init-IsConsistent 7 (pos 5) (new_job_from_request (pos 1) request_a),
          λ room. omega arith,
          (refl, refl, refl, refl),
        ),
        tt,
      )
      refl refl (omega arith) refl ("jobs", refl, refl) (omega arith) new_c

abbrev strings_c : Strings
strings_c = record {
  to_lower = λ s. s;
  contains_text = λ s t. true;
  split = λ s t. s ∷ [];
  trim_space = λ s. s;
  uuid_string = λ n. "";
}

-- The queued jobs, by pages of one.
abbrev request_c : GetJobsRequest
request_c = record {
  page = 1;
  limit = 1;
  status = "queued";
  topic = "";
  sort = "priority_desc";
  search = "";
}

pages_lem_example :
    pages strings_c request_c state_c (total_pages_of (get_jobs strings_c request_c state_c))
    ≡ sort_jobs strings_c "priority_desc"
        (filter_jobs strings_c request_c (map (λ (e : ℕ × Job). e.1) state_c.jobs))
pages_lem_example = pages_lem strings_c request_c state_c (omega arith)

-- The loop begins, is asked to stop, and ends.
abbrev stopped_c : Lifecycle
stopped_c = record { started = true; stopped = true; stop = true; done = true }

stopped_c-Steps : Steps stopped_c 0 1 (true ∷ [])
unfolding begin end ask_stop
stopped_c-Steps = ends (stops (begins fresh_steps)) refl

Steps-once_example : (0 + 1 ≡ one_if stopped_c.started) × (1 ≡ one_if stopped_c.done)
Steps-once_example = Steps-once stopped_c-Steps

over_c : may_return true stopped_c ≡ true
unfolding may_return
over_c = refl

stop_lem_example :
    (◌≡◌ {A = ℕ} 0 0) × ((begin stopped_c).0 ≡ false) × (◌≡◌ {A = Bool} true stopped_c.started)
stop_lem_example = stop_lem stopped_c-Steps 0 true refl over_c
