-- ===== src/Backend/Cycle.antt =====
-- From one run of the program to the next (service/service.go: LoadJobs, and the in-memory backend,
-- jobbackendprovider/inmemoryprovider): save, load, start.
use minijob.Prelude.{
  ℕ, ◌<◌, String, true, false, ◌≡◌, ap, sym, ◌∙◌, some, Map, lookup, map_values, nat_Eq, arith,
}
use minijob.Job.{Job}
use minijob.Job.Rereads.{HaveProperties}
use minijob.Service.State.{Service, Env}
use minijob.Service.Invariant.{Inv}
use minijob.Service.Creates.{AreDistinct}
use minijob.Service.Restored.{IsLoadable}
use minijob.Service.Reach.{ReachLoaded, restarted-Inv}
use minijob.Backend.Files.{Files, Answers}
use minijob.Backend.InMemory.{
  Settings, Provider, Codec, Json, codec_of, with_states, load_jobs, load, save_to_file,
}
use minijob.Backend.Stored.{stored, observed}
use minijob.Backend.Saved.{
  IsCodec, IsJson, codec_of-IsCodec, save_to_file-file, stored-persistent, lookup-with_states,
}
use minijob.Backend.Restarted.{restarted-observed, restarted-IsLoadable, with_states-IsLoadable}

module _ (c : Settings) (codec : Codec) (b : Answers) (q : Provider)
    (lasting : c.persistent ≡ true) where
  -- LoadJobs of the provider, on a file that can be decoded.
  load_jobs-decoded :
      (text : String) (n loaded : Map ℕ Job)
      → q.files.file ≡ some text
      → codec.decode text ≡ some n
      → (load_jobs c codec true b q).0 ≡ some loaded
      → loaded ≡ with_states n
  unfolding load_jobs load
  load_jobs-decoded text n loaded there decoded e = ground (arith, lasting, there, decoded, e)

  -- The provider keeps what it gives.
  load_jobs-stored :
      (loaded : Map ℕ Job)
      → (load_jobs c codec true b q).0 ≡ some loaded
      → ((load_jobs c codec true b q).1.jobs ≡ stored c loaded)
        × ((load_jobs c codec true b q).1.restoring ≡ q.restoring)
  unfolding load_jobs load
  load_jobs-stored loaded e = ground (arith, lasting, e, stored-persistent c loaded lasting)

-- The same for a codec that is given as a whole.
codec-restarted :
    (env later : Env) (c : Settings) (codec : Codec) (m n : Map ℕ Job) (p q : Provider)
    (a b : Answers) {s s' : Service}
    → IsLoadable m
    → ReachLoaded env m s
    → env.config.backend_max_jobs ≡ c.max_jobs
    → later.config.backend_max_jobs ≡ c.max_jobs
    → 0 < c.max_jobs
    → p.jobs ≡ stored c m
    → p.restoring ≡ false
    → c.persistent ≡ true
    → IsCodec codec s.jobs
    → (save_to_file c codec a (observed c p s.effects)).0 ≡ true
    → q.files ≡ (save_to_file c codec a (observed c p s.effects)).1.files
    → q.restoring ≡ false
    → (load_jobs c codec true b q).0 ≡ some n
    → AreDistinct later.uuids
    → ReachLoaded later n s'
    → ((k : ℕ) → lookup k n ≡ lookup k s.jobs)
      × Inv s'.sched
      × ((observed c (load_jobs c codec true b q).1 s'.effects).jobs ≡ stored c s'.jobs)
codec-restarted env later c codec m n p q a b {s} {s'} ok reach limit limit' room same flag lasting
      h saved file flag' loads d reach' =
    let jobs : (observed c p s.effects).jobs ≡ map_values some s.jobs =
      restarted-observed env c m p ok reach limit room same flag
      ∙ stored-persistent c s.jobs lasting in
    let (text, encoded, there) =
      save_to_file-file c codec a (observed c p s.effects) lasting saved in
    let (n0, decoded, states) = h.round text (ap codec.encode (sym jobs) ∙ encoded) in
    let found : n ≡ with_states n0 =
      load_jobs-decoded c codec b q lasting text n0 n (ap (λ (f : Files). f.file) file ∙ there)
        decoded loads in
    let sound = restarted-IsLoadable env m ok reach in
    let ok' : IsLoadable n = rw found (with_states-IsLoadable s.jobs n0 sound states) in
    let (held, flag'') = load_jobs-stored c codec b q lasting n loads in
    (
      λ k. ap (lookup k) (found ∙ states) ∙ lookup-with_states s.jobs k (sound.sound k),
      restarted-Inv later n d ok' reach',
      restarted-observed later c n (load_jobs c codec true b q).1 ok' reach' limit' room held
          (flag'' ∙ flag'),
    )

-- A run of the program follows an earlier one: the earlier run starts on jobs that its provider holds,
-- makes any sequence of calls, and ends with a SaveToFile with persistent storage that reports no
-- error; a new provider with the same file loads jobs `n`, and the scheduler starts on them and makes
-- any sequence of calls. If encoding/json and strconv read again what encoding/json has written, and
-- the properties of the jobs are maps whose integers are int64 or uint64 values and whose float64
-- values are not written as integers (as 1.0 is, which UnmarshalJSON makes an int64), then `n` are the
-- jobs that the earlier scheduler stored last, the new scheduler satisfies its invariant (if the
-- generator of ids never repeats one), and the new provider stores its jobs. The limits of the
-- services and of the provider are the same, and positive.
pub save_to_file-restarted :
    (env later : Env) (c : Settings) (json : Json) (m n : Map ℕ Job) (p q : Provider)
    (a b : Answers) {s s' : Service}
    → IsLoadable m
    → ReachLoaded env m s
    → env.config.backend_max_jobs ≡ c.max_jobs
    → later.config.backend_max_jobs ≡ c.max_jobs
    → 0 < c.max_jobs
    → p.jobs ≡ stored c m
    → p.restoring ≡ false
    → c.persistent ≡ true
    → IsJson json s.jobs
    → HaveProperties json.numbers s.jobs
    → (save_to_file c (codec_of json) a (observed c p s.effects)).0 ≡ true
    → q.files ≡ (save_to_file c (codec_of json) a (observed c p s.effects)).1.files
    → q.restoring ≡ false
    → (load_jobs c (codec_of json) true b q).0 ≡ some n
    → AreDistinct later.uuids
    → ReachLoaded later n s'
    → ((k : ℕ) → lookup k n ≡ lookup k s.jobs)
      × Inv s'.sched
      × ((observed c (load_jobs c (codec_of json) true b q).1 s'.effects).jobs ≡ stored c s'.jobs)
save_to_file-restarted env later c json m n p q a b ok reach limit limit' room same flag lasting h
      exact saved file flag' loads d reach' =
    codec-restarted env later c (codec_of json) m n p q a b ok reach limit limit' room same flag
      lasting (codec_of-IsCodec json _ h exact) saved file flag' loads d reach'
