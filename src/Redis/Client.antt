-- ===== src/Redis/Client.antt =====
-- What the writer of the Redis backend asks of the client (github.com/redis/go-redis/v9), and the
-- routines that ask it (jobbackendprovider/redisprovider/writer.go): execute and deleteAllJobs.
use minijob.Prelude.{
  ℕ, zero, suc, String, Bool, true, false, ◌==◌, ◌≡◌, ◌≢◌, ◌⊎◌, Option, none, some, List, [], ◌∷◌,
  ◌++◌, if◌then◌else◌, nat_eq, contains, take, string_Eq,
}
use minijob.Redis.Ops.{StoredValue, WriteOp}

-- The commands of a pipeline: SET with the seconds the key is kept, and DEL.
pub data Command : Type 0 where
  set : String → String → ℕ → Command
  del : String → Command

-- The commands in use. The state stands for the server, the network and what they will answer; the
-- flag is false for an error. SCAN answers with keys of the pattern `job:*` and the next cursor.
pub record Client (R : Type 0) : Type 0 where
  pub exec : List Command → R → Bool × R
  pub scan : ℕ → R → Option (List String × ℕ) × R
  pub del_keys : List String → R → Bool × R

-- `pipe.Del(ctx, op.key)` and `pipe.Set(ctx, op.key, op.value, op.ttl)`
abbrev pub command : WriteOp → Command
command op = if op.del then del op.key else set op.key op.value op.ttl

module _ {R : Type 0} (client : Client R) where
  -- One page of deleteAllJobs; the flag is false for an error.
  unfoldable pub delete_page : List String → R → Bool × R
  delete_page [] r = (true, r)
  delete_page (key ∷ keys) r = client.del_keys (key ∷ keys) r

  -- deleteAllJobs, from a cursor; the number bounds the calls of SCAN.
  unfoldable pub delete_all_from : ℕ → ℕ → R → Bool × R
  unfolding delete_page
  delete_all_from zero cursor r = (false, r)
  delete_all_from (suc n) cursor r =
      let (found, r1) = client.scan cursor r in
      elim found [
        | none ↦ (false, r1)
        | some (keys, next) ↦
            let (ok, r2) = delete_page keys r1 in
            elim ok [
              | false ↦ (false, r2)
              | true ↦ elim (nat_eq next 0) [
                | true ↦ (true, r2)
                | false ↦ delete_all_from n next r2
              ]
            ]
      ]

  -- The local function of execute.
  unfoldable pub flush : List Command → R → Bool × R
  flush [] r = (true, r)
  flush (cmd ∷ pipe) r = client.exec (cmd ∷ pipe) r

  -- The loop of execute, with the commands that the pipeline holds.
  unfoldable pub execute_from : ℕ → List Command → List WriteOp → R → Bool × R
  unfolding flush delete_all_from
  execute_from calls pipe [] r = flush pipe r
  execute_from calls pipe (op ∷ ops) r = elim op.del_all [
    | false ↦ execute_from calls (pipe ++ command op ∷ []) ops r
    | true ↦
        let (flushed, r1) = flush pipe r in
        elim flushed [
          | false ↦ (false, r1)
          | true ↦
              let (deleted, r2) = delete_all_from calls 0 r1 in
              elim deleted [ false ↦ (false, r2) | true ↦ execute_from calls [] ops r2 ]
        ]
  ]

  -- execute
  abbrev pub execute : ℕ → List WriteOp → R → Bool × R
  execute calls ops r = execute_from calls [] ops r

-- What the commands make of the value of one key.
abbrev pub set_by : String → Command → Option StoredValue → Option StoredValue
set_by k (set key value ttl) v = if key == k then some (value, ttl) else v
set_by k (del key) v = if key == k then none else v

abbrev pub run : String → List Command → Option StoredValue → Option StoredValue
run k [] v = v
run k (cmd ∷ cmds) v = run k cmds (set_by k cmd v)

module _ {R : Type 0} (client : Client R) (read : String → R → Option StoredValue) where
  -- A full iteration of SCAN that never returns the key, though the key is there at every call.
  pub data Missed (k : String) : ℕ → R → Type 0 where
    last :
        {cursor : ℕ} {r : R} (keys : List String)
        → (client.scan cursor r).0 ≡ some (keys, 0)
        → read k r ≢ none
        → contains k keys ≡ false
        → Missed k cursor r
    next :
        {cursor : ℕ} {r : R} (keys : List String) (following : ℕ) (later : R)
        → (client.scan cursor r).0 ≡ some (keys, following)
        → read k r ≢ none
        → contains k keys ≡ false
        → Missed k following later
        → Missed k cursor r

  -- What Redis promises for a key of the pattern: a pipeline without an error has run all its
  -- commands in order, one with an error some of the first; DEL deletes its keys, some of them if it
  -- fails; SCAN changes nothing and its full iteration returns every key that stays. Time stands
  -- still: no key reaches the end of its time to live, as where no key has one (Redis/Lasting).
  pub record IsRedis (k : String) : Type 0 where
    pub exec_ok :
        (cmds : List Command) (r : R)
        → (client.exec cmds r).0 ≡ true
        → read k (client.exec cmds r).1 ≡ run k cmds (read k r)
    pub exec_failed :
        (cmds : List Command) (r : R)
        → (client.exec cmds r).0 ≡ false
        → (n : ℕ) × (read k (client.exec cmds r).1 ≡ run k (take n cmds) (read k r))
    pub scan_reads : (cursor : ℕ) (r : R) → read k (client.scan cursor r).1 ≡ read k r
    pub scan_complete : (r : R) → ¬ (Missed k 0 r)
    pub del_ok :
        (keys : List String) (r : R)
        → (client.del_keys keys r).0 ≡ true
        → read k (client.del_keys keys r).1 ≡ (if contains k keys then none else read k r)
    pub del_failed :
        (keys : List String) (r : R)
        → (client.del_keys keys r).0 ≡ false
        → (read k (client.del_keys keys r).1 ≡ read k r)
          ⊎ (read k (client.del_keys keys r).1 ≡ none)
