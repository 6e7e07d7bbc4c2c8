-- ===== src/Examples/RedisStore.antt =====
-- A Redis server that keeps all keys, and a run of the program on what it keeps.
use Prim.Native.String.{count as size}
use text.Mathlib.TextLemmas.{length-append}
use minijob.Prelude.{
  ℕ, ◌+◌, ◌-◌, String, Bool, true, false, ◌&&◌, ◌≡◌, ◌≢◌, refl, sym, ap, ◌∙◌, inl, inr, Bool-cases,
  Option, none, some, List, [], ◌∷◌, map, Map, keys, lookup, lookup-insert, lookup-delete, insert,
  delete, contains, keep_if, ◌==◌, if◌then◌else◌, arith, nat_Eq, string_Eq,
}
use minijob.Redis.Ops.{StoredValue}
use minijob.Redis.Client.{Command, set, del, Client, run, Missed, last, next, IsRedis}
use minijob.Redis.Provider.{job_uuid2redis_key}
use minijob.Redis.Load.{Reader}
use minijob.Redis.Loaded.{IsReader, text_of}
use minijob.Examples.Shutdown.{settings_a, letters, count-letters}

abbrev Store : Type 0
Store = Map String StoredValue

abbrev run_one : Command → Store → Store
run_one (set k v ttl) r = insert k (v, ttl) r
run_one (del k) r = delete k r

abbrev run_all : List Command → Store → Store
run_all [] r = r
run_all (cmd ∷ cmds) r = run_all cmds (run_one cmd r)

abbrev del_all : List String → Store → Store
del_all [] r = r
del_all (k ∷ ks) r = del_all ks (delete k r)

abbrev pub client_m : Client Store
client_m = record {
  exec = λ cmds r. (true, run_all cmds r);
  scan = λ cursor r. (some (keys r, 0), r);
  del_keys = λ ks r. (true, del_all ks r);
}

abbrev pub read_m : String → Store → Option StoredValue
read_m k r = lookup k r

lookup-run_all :
    (k : String) (cmds : List Command) (r : Store)
    → lookup k (run_all cmds r) ≡ run k cmds (lookup k r)
lookup-run_all k [] r = refl
lookup-run_all k (set key v ttl ∷ cmds) r =
    lookup-run_all k cmds (insert key (v, ttl) r) ∙ ap (run k cmds) (lookup-insert key k (v, ttl) r)
lookup-run_all k (del key ∷ cmds) r =
    lookup-run_all k cmds (delete key r) ∙ ap (run k cmds) (lookup-delete key k r)

lookup-del_all :
    (k : String) (ks : List String) (r : Store)
    → lookup k (del_all ks r) ≡ (if contains k ks then none else lookup k r)
lookup-del_all k [] r = refl
lookup-del_all k (x ∷ ks) r = ground (arith, lookup-del_all k ks (delete x r), lookup-delete x k r)

contains-keys : (k : String) (r : Store) → lookup k r ≢ none → contains k (keys r) ≡ true
unfolding lookup
contains-keys k [] n = absurd (n refl)
contains-keys k ((i, v) ∷ r) n = elim (Bool-cases (i == k)) [
  | inl e ↦ rw e refl
  | inr e ↦ rw e (contains-keys k r (λ z. n (rw e z)))
]

abbrev some_keys : Option (List String × ℕ) → List String
some_keys none = []
some_keys (some (ks, c)) = ks

abbrev has : String → Option (List String × ℕ) → Bool
has k o = contains k (some_keys o)

impossible : true ≡ false → ⊥
impossible e = cc

never-Missed : (k : String) (cursor : ℕ) (r : Store) → ¬ (Missed client_m read_m k cursor r)
never-Missed k cursor r (last found e there out) =
    impossible (sym (contains-keys k r there) ∙ ap (has k) e ∙ out)
never-Missed k cursor r (next found following later e there out m) =
    impossible (sym (contains-keys k r there) ∙ ap (has k) e ∙ out)

pub client_m-IsRedis : (k : String) → IsRedis client_m read_m k
client_m-IsRedis k = record {
  exec_ok = λ cmds r e. lookup-run_all k cmds r;
  exec_failed = λ cmds r e. cc;
  scan_reads = λ cursor r. refl;
  scan_complete = λ r. never-Missed k 0 r;
  del_ok = λ ks r e. lookup-del_all k ks r;
  del_failed = λ ks r e. cc;
}

-- The key is that of a job.
abbrev is_key : String → Bool
is_key k = job_uuid2redis_key settings_a (size k - 4) == k

size-key : (id : ℕ) → size (job_uuid2redis_key settings_a id) ≡ 4 + id
size-key id = length-append "job:" (letters id) ∙ ap (λ n. 4 + n) (count-letters id)

is_key-key : (id : ℕ) → is_key (job_uuid2redis_key settings_a id) ≡ true
is_key-key id =
    let same : size (job_uuid2redis_key settings_a id) - 4 ≡ id = omega (arith, size-key id) in
    (string_Eq.equal_iff _ _).1 (ap (job_uuid2redis_key settings_a) same)

contains-keep_if :
    (p : String → Bool) (k : String) (ks : List String)
    → contains k (keep_if p ks) ≡ (contains k ks && p k)
contains-keep_if p k [] = refl
contains-keep_if p k (x ∷ ks) = ground (arith, string_Eq.equal_iff x k, contains-keep_if p k ks)

abbrev pub reader_m : Reader Store
reader_m = record {
  scan_all = λ r. (some (keep_if is_key (keys r)), r);
  mget = λ ks r. (some (map (λ k. text_of (lookup k r)) ks), r);
  exists = λ k r. (some 0, r);
  ping = λ r. (true, r);
}

abbrev all_of : Option (List String) → List String
all_of none = []
all_of (some ks) = ks

abbrev values_of : Option (List (Option String)) → List (Option String)
values_of none = []
values_of (some vs) = vs

pub reader_m-IsReader : IsReader settings_a read_m reader_m
reader_m-IsReader = record {
  scan_reads = λ k r. refl;
  scan_found = λ id r found e there.
      let k = job_uuid2redis_key settings_a id in
      ap (λ o. contains k (all_of o)) (sym e)
      ∙ contains-keep_if is_key k (keys r)
      ∙ ground (arith, contains-keys k r there, is_key-key id);
  scan_ids = λ k r found e c.
      let both = sym (contains-keep_if is_key k (keys r)) ∙ ap (λ o. contains k (all_of o)) e ∙ c in
      (size k - 4, (string_Eq.equal_iff _ _).0 (ground (arith, both)));
  mget_reads = λ ks k r. refl;
  mget_values = λ ks r values e. sym (ap values_of e);
}
