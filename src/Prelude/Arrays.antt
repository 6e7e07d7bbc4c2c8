-- ===== src/Prelude/Arrays.antt =====
-- Slices of Go as lists under native indices.
use minijob.Prelude.{
  ℕ, zero, suc, ◌+◌, ◌≤◌, ◌≡◌, refl, inl, inr, Bool, true, Bool-cases, Option, none, some, List, [],
  ◌∷◌, ◌++◌, nat_eq, if◌then◌else◌, one_if, length, get_last?, arith,
}

module _ {ℓ} {A : Type ℓ} where
  abbrev pub get_elem? : List A → ℕ → Option A
  get_elem? [] i = none
  get_elem? (x ∷ xs) zero = some x
  get_elem? (x ∷ xs) (suc i) = get_elem? xs i

  abbrev pub set : List A → ℕ → A → List A
  set [] i v = []
  set (x ∷ xs) zero v = v ∷ xs
  set (x ∷ xs) (suc i) v = x ∷ set xs i v

  -- Without the last element.
  abbrev pub drop_last : List A → List A
  drop_last [] = []
  drop_last (x ∷ []) = []
  drop_last (x ∷ y ∷ xs) = x ∷ drop_last (y ∷ xs)

  -- How many elements pass a test.
  abbrev pub count_by : (A → Bool) → List A → ℕ
  count_by p [] = 0
  count_by p (x ∷ xs) = one_if (p x) + count_by p xs

  pub get_elem?-set :
      (xs : List A) (i k : ℕ) (v x : A)
      → get_elem? xs i ≡ some x
      → get_elem? (set xs i v) k ≡ (if nat_eq i k then some v else get_elem? xs k)
  get_elem?-set [] i k v x e = cc
  get_elem?-set (y ∷ xs) zero zero v x e = refl
  get_elem?-set (y ∷ xs) zero (suc k) v x e = ground arith
  get_elem?-set (y ∷ xs) (suc i) zero v x e = ground arith
  get_elem?-set (y ∷ xs) (suc i) (suc k) v x e = ground (arith, get_elem?-set xs i k v x e)

  pub count_by-set :
      (p : A → Bool) (xs : List A) (i : ℕ) (v x : A)
      → get_elem? xs i ≡ some x
      → count_by p (set xs i v) + one_if (p x) ≡ count_by p xs + one_if (p v)
  count_by-set p [] i v x e = cc
  count_by-set p (y ∷ xs) zero v x e = ground (arith, e)
  count_by-set p (y ∷ xs) (suc i) v x e = omega (arith, count_by-set p xs i v x e)

  pub count_by-append :
      (p : A → Bool) (xs : List A) (e : A)
      → count_by p (xs ++ e ∷ []) ≡ count_by p xs + one_if (p e)
  count_by-append p [] e = omega arith
  count_by-append p (x ∷ xs) e = omega (arith, count_by-append p xs e)

  pub get_elem?-append :
      (xs : List A) (e : A) (k : ℕ)
      → get_elem? (xs ++ e ∷ []) k ≡ (if nat_eq (length xs) k then some e else get_elem? xs k)
  get_elem?-append [] e zero = refl
  get_elem?-append [] e (suc k) = ground arith
  get_elem?-append (x ∷ xs) e zero = ground arith
  get_elem?-append (x ∷ xs) e (suc k) = ground (arith, get_elem?-append xs e k)

  pub get_elem?-drop_last :
      (xs : List A) (k : ℕ) (x : A) → get_elem? (drop_last xs) k ≡ some x → get_elem? xs k ≡ some x
  get_elem?-drop_last [] k x e = e
  get_elem?-drop_last (y ∷ []) k x e = cc
  get_elem?-drop_last (y ∷ z ∷ xs) zero x e = e
  get_elem?-drop_last (y ∷ z ∷ xs) (suc k) x e = get_elem?-drop_last (z ∷ xs) k x e

  pub count_by-drop_last :
      (p : A → Bool) (xs : List A) (x : A)
      → get_last? xs ≡ some x
      → count_by p (drop_last xs) + one_if (p x) ≡ count_by p xs
  count_by-drop_last p [] x e = cc
  count_by-drop_last p (y ∷ []) x e = ground (arith, e)
  count_by-drop_last p (y ∷ z ∷ xs) x e = omega (arith, count_by-drop_last p (z ∷ xs) x e)

  pub get_last?-get_elem? :
      (xs : List A) (x : A) → get_last? xs ≡ some x → (i : ℕ) × (get_elem? xs i ≡ some x)
  get_last?-get_elem? [] x e = cc
  get_last?-get_elem? (y ∷ []) x e = (0, e)
  get_last?-get_elem? (y ∷ z ∷ xs) x e = let (i, q) = get_last?-get_elem? (z ∷ xs) x e in (suc i, q)

  pub count_by-get_elem? :
      (p : A → Bool) (xs : List A) (i : ℕ) (x : A)
      → get_elem? xs i ≡ some x
      → one_if (p x) ≤ count_by p xs
  count_by-get_elem? p [] i x e = cc
  count_by-get_elem? p (y ∷ xs) zero x e = ground (arith, e)
  count_by-get_elem? p (y ∷ xs) (suc i) x e = omega (arith, count_by-get_elem? p xs i x e)

  -- An element that passes a test, where there is one.
  pub count_by-found :
      (p : A → Bool) (xs : List A)
      → 1 ≤ count_by p xs
      → (i : ℕ) × (x : A) × (get_elem? xs i ≡ some x) × (p x ≡ true)
  count_by-found p [] h = absurd (omega arith)
  count_by-found p (y ∷ xs) h = elim (Bool-cases (p y)) [
    | inl e ↦ (0, y, refl, e)
    | inr e ↦ let (i, x, q, t) = count_by-found p xs (ground (arith, e)) in (suc i, x, q, t)
  ]
