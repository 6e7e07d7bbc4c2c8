-- ===== src/Backend/Saved.antt =====
-- What is saved is loaded again (jobbackendprovider/inmemoryprovider: inmemoryprovider.go and
-- dbstorage.go).
use minijob.Prelude.{
  ℕ, String, true, ◌≡◌, refl, ap, sym, ◌∙◌, Option, some, [], ◌∷◌, Map, lookup, map_values,
  lookup-map_values, lookup-map_values-none, nat_Eq, inl, inr, Option-cases, if◌then◌else◌, arith,
}
use mathlib.Core.Path.{subst}
use minijob.Job.{Job, set_state_from_history}
use minijob.Job.Rereads.{AreNumbers, HaveProperties, raw_job, stateless, unmarshal_jobs-raw_job}
use minijob.Service.Logged.{IsSound}
use minijob.Backend.Files.{Files, Answers, write_file_atomic, write_file_atomic_lem}
use minijob.Backend.InMemory.{
  Settings, Provider, Codec, Json, codec_of, kept, save, save_locked, save_to_file, with_states,
}
use minijob.Backend.Stored.{stored}

-- The JSON of these jobs can be read again. It does not have the states.
pub record IsCodec (k : Codec) (m : Map ℕ Job) : Type 0 where
  pub round :
      (text : String)
      → k.encode (map_values some m) ≡ some text
      → (n : Map ℕ Job) × (k.decode text ≡ some n) × (with_states n ≡ with_states m)

-- encoding/json reads of these jobs what it has written: their fields but the states, and the numbers
-- of the properties as their texts.
pub record IsJson (j : Json) (m : Map ℕ Job) : Type 0 where
  pub numbers : AreNumbers j.numbers
  pub reads :
      (text : String)
      → j.marshal (map_values some m) ≡ some text
      → j.decode_raw text ≡ some (map_values (raw_job j.numbers) m)

with_states-stateless : (m : Map ℕ Job) → with_states (map_values stateless m) ≡ with_states m
unfolding set_state_from_history
with_states-stateless [] = refl
with_states-stateless ((k, j) ∷ m) =
    ap (λ (rest : Map ℕ Job). (k, set_state_from_history j) ∷ rest) (with_states-stateless m)

-- With the UnmarshalJSON of the program, the jobs are read again.
pub codec_of-IsCodec :
    (j : Json) (m : Map ℕ Job) → IsJson j m → HaveProperties j.numbers m → IsCodec (codec_of j) m
unfolding codec_of
codec_of-IsCodec j m g h = record {
  round = λ text e. (
    map_values stateless m,
    rw (g.reads text e) (unmarshal_jobs-raw_job j.numbers g.numbers m h),
    with_states-stateless m,
  );
}

pub save-file :
    (k : Codec) (a : Answers) (jobs : Map ℕ (Option Job)) (f : Files)
    → (save k a jobs f).0 ≡ true
    → (text : String) × (k.encode jobs ≡ some text) × ((save k a jobs f).1.file ≡ some text)
unfolding save
save-file k a jobs f ok = elim (Option-cases (k.encode jobs)) [
  | inl e ↦ absurd (ground (arith, e, ok))
  | inr (text, e) ↦
      let done : (write_file_atomic a text f).0 ≡ true = ground (arith, e, ok) in
      (
        text,
        e,
        rw (e, save)
            ((write_file_atomic_lem a text f).1 ∙ ap (λ b. if b then some text else f.file) done),
      )
]

pub stored-persistent :
    (c : Settings) (m : Map ℕ Job) → c.persistent ≡ true → stored c m ≡ map_values some m
stored-persistent c [] h = refl
stored-persistent c ((k, j) ∷ m) h =
    ap (λ (rest : Map ℕ (Option Job)). (k, kept c j) ∷ rest) (stored-persistent c m h)
    ∙ ap (λ (o : Option Job). (k, o) ∷ map_values some m) (ground (arith, h))

-- The states of sound jobs are those of their histories.
pub lookup-with_states :
    (m : Map ℕ Job) (k : ℕ) → IsSound k (lookup k m) → lookup k (with_states m) ≡ lookup k m
lookup-with_states m k h = elim (Option-cases (lookup k m)) [
  | inl e ↦ lookup-map_values-none set_state_from_history k m e ∙ sym e
  | inr (j, e) ↦
      lookup-map_values set_state_from_history k j m e ∙ ap some (subst (IsSound k) e h).1 ∙ sym e
]

pub save_to_file-file :
    (c : Settings) (codec : Codec) (a : Answers) (p : Provider)
    → c.persistent ≡ true
    → (save_to_file c codec a p).0 ≡ true
    → (text : String) × (codec.encode p.jobs ≡ some text)
      × ((save_to_file c codec a p).1.files.file ≡ some text)
unfolding save_to_file save_locked
save_to_file-file c codec a p lasting = rw (lasting) (λ ok. save-file codec a p.jobs p.files ok)
