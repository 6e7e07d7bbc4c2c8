-- ===== src/Examples/Shutdown.antt =====
-- The jobs of the scheduler on the Redis server after a stop, at a concrete input.
use Prim.Native.String.{count, ◌++◌ as ◌++ˢ◌}
use text.Mathlib.TextLemmas.{length-append}
use minijob.Prelude.{
  ℕ, zero, suc, String, true, false, ◌≡◌, refl, sym, ap, ◌∙◌, Option, none, some, List, [], ◌∷◌,
  ◌++◌, lookup, insert, sort_by, insert_by, arith, nat_Eq, string_Eq,
}
use mathlib.Core.Path.{subst}
use minijob.Job.{
  add_history_event, init, new_job_from_request, compute_start_after, get_state_from_event,
  get_creation_timestamp,
}
use minijob.Service.State.{new_service, add_history_event_locked, add_history, enter, leave}
use minijob.Service.Calls.{perform}
use minijob.Service.Create.{
  create_job, check_max_allowed_jobs_locked, finalize_job_creation_locked,
  generate_new_job_uuid_locked, finalize_with, store_new_job, schedule,
}
use minijob.Service.Scheduling.{
  set_job_state_to_pending_locked, try_enqueue_pending_jobs_locked, candidates, jobs_at,
  enqueue_each, enqueue_job_locked, lock_resources_locked, enqueue_behind, to_queue_from_pending,
}
use minijob.Queue.{add, put_entry, entry_of, put_heap, heap_push, new_queued_jobs}
use minijob.Pq.{new_priority_queue}
use minijob.Resources.{requires_locked_resources, lock_resources, unavailable, acquire}
use minijob.Redis.Kept.{append-nil}
use minijob.Redis.Partly.{append_one}
use minijob.Job.{state_string}
use minijob.Redis.Ops.{StoredValue, WriteOp}
use minijob.Redis.Client.{run, flush, execute_from, IsRedis}
use minijob.Redis.Writer.{
  Writer, do_start, do_push, do_close, do_take, do_attempt, accepts, push, start, close, take_at,
  attempt_at, act, new_writer,
}
use minijob.Redis.Kept.{Running, begin, acting}
use minijob.Redis.Provider.{
  Settings, RedisProvider, job_uuid2redis_key, save_job, on_event, notify_job_event, observe,
}
use minijob.Redis.Lasting.{Lasts}
use minijob.Redis.Saves.{IsSaved, Prints, observed}
use minijob.Redis.Service.{ended-IsSaved}
use minijob.Examples.Backends.{env_c, state_c, state_c-Reach}
use minijob.Examples.Redis.{client_a, read_a, client_a-IsRedis}

-- Job n is printed as n letters.
abbrev pub letters : ℕ → String
letters zero = ""
letters (suc n) = "x" ++ˢ letters n

pub count-letters : (n : ℕ) → count (letters n) ≡ n
count-letters zero = refl
count-letters (suc n) = omega (arith, length-append "x" (letters n), count-letters n)

abbrev pub settings_a : Settings
settings_a = record {
  max_jobs = 5;
  finished_job_ttl = 0;
  uuid_string = λ n. letters n;
  to_json = λ j. some (state_string j.state);
}

pub settings_a-Prints : Prints settings_a
settings_a-Prints = record {
  distinct = λ a b e. sym (count-letters a) ∙ ap count e ∙ count-letters b;
  json = λ j. (state_string j.state, refl);
}

abbrev pub provider_a : RedisProvider
provider_a = record { pushes = []; restoring = false }

-- The loop starts, writes a batch, is closed and ends.
abbrev finished : Writer (Option StoredValue) → Writer (Option StoredValue)
finished w = act client_a do_take (
    act client_a do_close
      (act client_a (do_attempt 1) (act client_a do_take (act client_a do_start w))))

-- The writes of the created job are pushed one after the other.
abbrev push_each : List WriteOp → Writer (Option StoredValue) → Writer (Option StoredValue)
push_each [] w = w
push_each (op ∷ ops) w = push_each ops (act client_a (do_push op) w)

push-closed :
    (op : WriteOp) (w : Writer (Option StoredValue))
    → (act client_a (do_push op) w).closed ≡ w.closed
unfolding act push
push-closed op w = ground arith

push_each-Running :
    (ops accepted : List WriteOp) (w : Writer (Option StoredValue))
    → w.closed ≡ false
    → Running client_a none accepted w
    → Running client_a none (accepted ++ ops) (push_each ops w)
push_each-Running [] accepted w opened run =
    subst (λ zs. Running client_a none zs w) (sym (append-nil accepted)) run
push_each-Running (op ∷ ops) accepted w opened run =
    subst (λ zs. Running client_a none zs (push_each ops (act client_a (do_push op) w)))
      (append_one accepted ops op)
      (push_each-Running ops (accepted ++ op ∷ []) (act client_a (do_push op) w)
        (push-closed op w ∙ opened)
        (subst
          (λ b.
            Running client_a none (accepted ++ accepts (do_push op) b)
              (act client_a (do_push op) w))
          opened (acting (do_push op) run)))

abbrev pushes_c : List WriteOp
pushes_c = (observed settings_a provider_a state_c.effects).pushes

abbrev queued_c : Writer (Option StoredValue)
queued_c = push_each pushes_c (new_writer none)

new_writer_is_open : (new_writer {R = Option StoredValue} none).closed ≡ false
unfolding new_writer
new_writer_is_open = refl

queued_c-Running : Running client_a none pushes_c queued_c
queued_c-Running = push_each-Running pushes_c [] (new_writer none) new_writer_is_open begin

abbrev ended_c : Writer (Option StoredValue)
ended_c = finished queued_c

to_end :
    {accepted : List WriteOp} {w : Writer (Option StoredValue)}
    → Running client_a none accepted w
    → Running client_a none accepted (finished w)
to_end {accepted} {w} run =
    subst (λ zs. Running client_a none zs (finished w))
      (append-nil ((((accepted ++ []) ++ []) ++ []) ++ [])
        ∙ append-nil (((accepted ++ []) ++ []) ++ [])
        ∙ append-nil ((accepted ++ []) ++ [])
        ∙ append-nil (accepted ++ [])
        ∙ append-nil accepted)
      (acting do_take
        (acting do_close (acting (do_attempt 1) (acting do_take (acting do_start run)))))

ended_c-ended : (ended_c.exited ≡ true) × (ended_c.abandon ≡ false)
unfolding act push start new_writer take_at attempt_at execute_from flush close perform create_job
    check_max_allowed_jobs_locked new_job_from_request compute_start_after
    finalize_job_creation_locked generate_new_job_uuid_locked finalize_with store_new_job init
    schedule set_job_state_to_pending_locked add_history_event_locked add_history add_history_event
    get_state_from_event enter leave try_enqueue_pending_jobs_locked candidates sort_by insert_by
    jobs_at requires_locked_resources lookup insert enqueue_each enqueue_job_locked
    lock_resources_locked lock_resources unavailable acquire enqueue_behind to_queue_from_pending
    add put_entry entry_of put_heap heap_push get_creation_timestamp new_service new_queued_jobs
    new_priority_queue observe notify_job_event on_event save_job state_string
ended_c-ended = (refl, refl)

key_a : job_uuid2redis_key settings_a 0 ≡ "job:"
key_a = refl

ended-IsSaved_example :
    IsSaved settings_a 0 (lookup 0 state_c.jobs) ended_c.server × Lasts ended_c.server
ended-IsSaved_example =
    ended-IsSaved client_a read_a none settings_a env_c provider_a 0 settings_a-Prints
      (subst (IsRedis client_a read_a) (sym key_a) client_a-IsRedis) refl state_c-Reach refl refl
      (to_end queued_c-Running) ended_c-ended.0 ended_c-ended.1 refl
