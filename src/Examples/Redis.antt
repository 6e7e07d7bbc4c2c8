-- ===== src/Examples/Redis.antt =====
-- The Redis backend at concrete inputs, with a server that keeps one key.
use minijob.Prelude.{
  ℕ, suc, String, Bool, true, false, ◌≡◌, refl, sym, ap, ◌∙◌, Option, none, some, List, [], ◌∷◌,
  ◌++◌, take, length, contains, if◌then◌else◌, arith, nat_Eq, string_Eq,
}
use minijob.Redis.Ops.{StoredValue, WriteOp, after, coalesce, Partly, coalesce-Partly}
use minijob.Redis.Client.{
  Command, Client, command, run, delete_page, delete_all_from, flush, execute_from, execute, Missed,
  last, next, IsRedis,
}
use minijob.Redis.Deleting.{IsFinite, delete_all_from-ends}
use minijob.Redis.Execute.{execute-Outcome}
use minijob.Redis.Writer.{
  Writer, do_start, do_push, do_take, do_attempt, push, start, take_at, attempt_at, act, new_writer,
  at_head,
}
use minijob.Redis.Kept.{unsent, Running, begin, acting}
use minijob.Redis.Delivered.{turns, running-after, healthy-after, turns-after}

abbrev set_a : WriteOp
set_a = record { key = "job:"; value = "a"; ttl = 0; del = false; del_all = false }

abbrev set_b : WriteOp
set_b = record set_a { value = "b" }

abbrev drop_all : WriteOp
drop_all = record set_a { del_all = true }

coalesce-Partly_example :
    after "job:" (coalesce (set_a ∷ drop_all ∷ set_b ∷ [])) (some ("a", 0)) ≡ some ("b", 0)
coalesce-Partly_example =
    coalesce-Partly "job:" (set_a ∷ drop_all ∷ set_b ∷ []) none (some ("a", 0)) (1, refl)

-- The value of the key of job 0.
abbrev pub client_a : Client (Option StoredValue)
client_a = record {
  exec = λ cmds v. (true, run "job:" cmds v);
  scan = λ cursor v. (some (elim v [ none ↦ [] | some _ ↦ "job:" ∷ [] ], 0), v);
  del_keys = λ keys v. (true, if contains "job:" keys then none else v);
}

abbrev pub read_a : String → Option StoredValue → Option StoredValue
read_a k v = v

abbrev cursor_of : Option (List String × ℕ) → ℕ
cursor_of none = 0
cursor_of (some (keys, cursor)) = cursor

abbrev named : Option (List String × ℕ) → Bool
named none = false
named (some (keys, cursor)) = contains "job:" keys

impossible : true ≡ false → ⊥
impossible e = cc

never-Missed : (cursor : ℕ) (v : Option StoredValue) → ¬ (Missed client_a read_a "job:" cursor v)
never-Missed cursor none (last keys e there out) = there refl
never-Missed cursor (some v) (last keys e there out) = impossible (ap named e ∙ out)
never-Missed cursor none (next keys following later e there out m) = there refl
never-Missed cursor (some v) (next keys following later e there out m) =
    impossible (ap named e ∙ out)

pub client_a-IsRedis : IsRedis client_a read_a "job:"
client_a-IsRedis = record {
  exec_ok = λ cmds r e. refl;
  exec_failed = λ cmds r e. cc;
  scan_reads = λ cursor r. refl;
  scan_complete = λ r. never-Missed 0 r;
  del_ok = λ keys r e. refl;
  del_failed = λ keys r e. cc;
}

execute-Outcome_example :
    ((execute client_a 1 (set_a ∷ drop_all ∷ set_b ∷ []) none).0 ≡ true
      → (execute client_a 1 (set_a ∷ drop_all ∷ set_b ∷ []) none).1
        ≡ after "job:" (set_a ∷ drop_all ∷ set_b ∷ []) none)
    × ((execute client_a 1 (set_a ∷ drop_all ∷ set_b ∷ []) none).0 ≡ false
        → Partly "job:"
            (set_a ∷ drop_all ∷ set_b ∷ [])
            none
            (execute client_a 1 (set_a ∷ drop_all ∷ set_b ∷ []) none).1)
execute-Outcome_example =
    execute-Outcome client_a read_a "job:" client_a-IsRedis 1 (set_a ∷ drop_all ∷ set_b ∷ []) none

flushed : (pipe : List Command) (v : Option StoredValue) → (flush client_a pipe v).0 ≡ true
unfolding flush
flushed [] v = refl
flushed (cmd ∷ pipe) v = refl

deleted : (calls : ℕ) (v : Option StoredValue) → (delete_all_from client_a (suc calls) 0 v).0 ≡ true
unfolding delete_all_from delete_page
deleted calls none = refl
deleted calls (some v) = refl

-- The server makes no errors.
answered :
    (calls : ℕ) (pipe : List Command) (ops : List WriteOp) (v : Option StoredValue)
    → (execute_from client_a (suc calls) pipe ops v).0 ≡ true
unfolding execute_from
answered calls pipe [] v = flushed pipe v
answered calls pipe (op ∷ ops) v =
    let v1 = (flush client_a pipe v).1 in
    ground (
      arith,
      flushed pipe v,
      deleted calls v1,
      answered calls [] ops (delete_all_from client_a (suc calls) 0 v1).1,
      answered calls (pipe ++ command op ∷ []) ops v,
    )

-- One call of SCAN returns all keys.
abbrev client_a-IsFinite : IsFinite client_a
client_a-IsFinite = record {
  left = λ cursor v. 0;
  fewer = λ cursor following v keys e more. absurd (more (sym (ap cursor_of e)));
}

delete_all_from-ends_example :
    delete_all_from client_a 1 0 (some ("a", 0)) ≡ delete_all_from client_a 5 0 (some ("a", 0))
delete_all_from-ends_example =
    delete_all_from-ends client_a client_a-IsFinite 1 5 0 (some ("a", 0)) (omega arith)
      (omega arith)

-- One write is pushed, and the loop starts.
abbrev pushed_a : Writer (Option StoredValue)
pushed_a = act client_a do_start (act client_a (do_push set_a) (new_writer none))

pushed_a-Running : Running client_a none (set_a ∷ []) pushed_a
unfolding act push start new_writer
pushed_a-Running = acting do_start (acting (do_push set_a) begin)

running-after_example :
    after "job:" (unsent pushed_a.phase pushed_a.retry ++ pushed_a.queue) pushed_a.server
    ≡ after "job:" (set_a ∷ []) none
running-after_example = running-after client_a none read_a "job:" client_a-IsRedis pushed_a-Running

-- The batch is taken, and written.
abbrev written_a : Writer (Option StoredValue)
written_a = act client_a (do_attempt 1) (act client_a do_take pushed_a)

written_a-Running : Running client_a none (set_a ∷ []) written_a
written_a-Running = acting (do_attempt 1) (acting do_take pushed_a-Running)

written_a-at_head : written_a.phase ≡ at_head
unfolding act push start new_writer take_at attempt_at execute_from flush
written_a-at_head = refl

written_a-ok : written_a.ok ≡ true
unfolding act push start new_writer take_at attempt_at execute_from flush
written_a-ok = refl

healthy-after_example : written_a.server ≡ after "job:" (take written_a.done (set_a ∷ [])) none
healthy-after_example =
    healthy-after client_a none read_a "job:" client_a-IsRedis written_a-Running written_a-ok
      written_a-at_head (omega arith)

pushed_a-at_head : (pushed_a.phase ≡ at_head) × (length pushed_a.queue ≡ 1)
unfolding act push start new_writer
pushed_a-at_head = (refl, refl)

turns-after_example : (turns client_a 1 2 pushed_a).server ≡ after "job:" (set_a ∷ []) none
turns-after_example =
    turns-after client_a none read_a "job:" client_a-IsRedis 1 (λ ops v. answered 0 [] ops v) 1
      pushed_a-Running pushed_a-at_head.0 (omega (arith, pushed_a-at_head.1))
