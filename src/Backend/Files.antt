-- ===== src/Backend/Files.antt =====
-- writeFileAtomic (jobbackendprovider/inmemoryprovider/dbstorage.go): the file and the temporary file
-- beside it. What the operating system answers is a parameter.
use minijob.Prelude.{
  String, Bool, true, false, ◌&&◌, ◌≡◌, ◌⊎◌, refl, ap, inl, inr, Option, none, some, List, [], ◌∷◌,
  if◌then◌else◌, arith,
}

-- The two files: their contents, if they exist.
pub record Files : Type 0 where
  pub file : Option String
  pub tmp : Option String

-- Which of the calls succeed: OpenFile, Write, Sync, Close, Rename; and what the temporary file holds
-- after a write that failed.
pub record Answers : Type 0 where
  pub opened : Bool
  pub written : Bool
  pub synced : Bool
  pub closed : Bool
  pub renamed : Bool
  pub partial : String

-- os.Rename and os.Remove
abbrev pub rename : Files → Files
rename f = record { file = f.tmp; tmp = none }

abbrev pub remove_tmp : Files → Files
remove_tmp f = record f { tmp = none }

-- The temporary file holds the text.
abbrev pub with_tmp : String → Files → Files
with_tmp text f = record f { tmp = some text }

-- The calls in order, by the tests on err: OpenFile succeeds; Write, Sync and Close succeed; Rename
-- succeeds. The text is what the write leaves in the temporary file.
unfoldable pub write_calls : Bool → Bool → Bool → String → Files → Bool × List Files
write_calls false complete renamed text f = (false, f ∷ [])
write_calls true false renamed text f =
    (false, f ∷ with_tmp "" f ∷ with_tmp text f ∷ remove_tmp f ∷ [])
write_calls true true false text f =
    (false, f ∷ with_tmp "" f ∷ with_tmp text f ∷ remove_tmp f ∷ [])
write_calls true true true text f =
    (true, f ∷ with_tmp "" f ∷ with_tmp text f ∷ rename (with_tmp text f) ∷ [])

-- writeFileAtomic: the result, and the states of the disk in order. A crash leaves one of them.
unfoldable pub write_file_atomic : Answers → String → Files → Bool × List Files
unfolding write_calls
write_file_atomic a text f =
    write_calls a.opened (a.written && a.synced && a.closed) a.renamed
      (if a.written then text else a.partial) f

-- The disk after the last state.
unfoldable pub after_all : Files → List Files → Files
after_all f [] = f
after_all f (g ∷ gs) = after_all g gs

abbrev pub AllOf {ℓ} : (Files → Type ℓ) → List Files → Type ℓ
AllOf P [] = Unit
AllOf P (f ∷ fs) = P f × AllOf P fs

write_calls_lem :
    (opened complete renamed : Bool) (left text : String) (f : Files)
    → (complete ≡ true → left ≡ text)
    → AllOf
        (λ g. (g.file ≡ f.file) ⊎ (g.file ≡ some text))
        (write_calls opened complete renamed left f).1
      × ((after_all f (write_calls opened complete renamed left f).1).file
          ≡ (if (write_calls opened complete renamed left f).0 then some text else f.file))
unfolding write_calls after_all
write_calls_lem false complete renamed left text f e = ((inl refl, tt), refl)
write_calls_lem true false renamed left text f e =
    ((inl refl, (inl refl, (inl refl, (inl refl, tt)))), refl)
write_calls_lem true true false left text f e =
    ((inl refl, (inl refl, (inl refl, (inl refl, tt)))), refl)
write_calls_lem true true true left text f e =
    ((inl refl, (inl refl, (inl refl, (inr (ap some (e refl)), tt)))), ap some (e refl))

-- At every moment the file is complete: it holds the old contents or the new ones. At the end it holds
-- the new ones if the call reports success, and the old ones if it reports an error.
pub write_file_atomic_lem :
    (a : Answers) (text : String) (f : Files)
    → AllOf (λ g. (g.file ≡ f.file) ⊎ (g.file ≡ some text)) (write_file_atomic a text f).1
      × ((after_all f (write_file_atomic a text f).1).file
          ≡ (if (write_file_atomic a text f).0 then some text else f.file))
unfolding write_file_atomic
write_file_atomic_lem a text f =
    write_calls_lem a.opened (a.written && a.synced && a.closed) a.renamed
      (if a.written then text else a.partial) text f (λ c. ground (arith, c))
