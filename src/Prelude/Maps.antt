-- ===== src/Prelude/Maps.antt =====
-- Go's maps as association lists: a key stands at most once.
use mathlib.Core.Path.{◌≡◌, refl}
use mathlib.Core.List.{List, [], ◌∷◌, map}
use mathlib.Core.Option.{Option, none, some}
use native.Mathlib.Omega.{arith}
use minijob.Prelude.Tests.{Eq, ◌==◌, if◌then◌else◌}

abbrev pub Map {ℓ κ} : Type ℓ → Type κ → Type (ℓ ⊔ κ)
Map K V = List (K × V)

abbrev pub keys {ℓ κ} : {K : Type ℓ} {V : Type κ} → Map K V → List K
keys m = map (λ e. e.0) m

module _ {ℓ κ} {K : Type ℓ} {V : Type κ} ⦃e : Eq K⦄ where
  unfoldable pub lookup : K → Map K V → Option V
  lookup k [] = none
  lookup k ((j, v) ∷ m) = if j == k then some v else lookup k m

  -- m[k] = v
  unfoldable pub insert : K → V → Map K V → Map K V
  insert k v [] = (k, v) ∷ []
  insert k v ((i, old) ∷ m) = if i == k then (k, v) ∷ m else (i, old) ∷ insert k v m

  -- delete(m, k)
  unfoldable pub delete : K → Map K V → Map K V
  delete k [] = []
  delete k ((j, w) ∷ m) = if j == k then delete k m else (j, w) ∷ delete k m

  pub lookup-insert :
      (k l : K) (new : V) (m : Map K V)
      → lookup l (insert k new m) ≡ (if k == l then some new else lookup l m)
  unfolding insert lookup
  lookup-insert k l new [] = refl
  lookup-insert k l new ((i, old) ∷ rest) =
      ground (arith, e.equal_iff k l, e.equal_iff i k, e.equal_iff i l, lookup-insert k l new rest)

  pub lookup-delete :
      (k j : K) (m : Map K V) → lookup j (delete k m) ≡ (if k == j then none else lookup j m)
  unfolding lookup delete
  lookup-delete k j [] = ground arith
  lookup-delete k j ((i, w) ∷ m) =
      ground (arith, e.equal_iff k j, e.equal_iff i k, e.equal_iff i j, lookup-delete k j m)

  pub insert-insert :
      (k : K) (old new : V) (m : Map K V) → insert k new (insert k old m) ≡ insert k new m
  unfolding insert
  insert-insert k old new [] = ground (arith, e.equal_iff k k)
  insert-insert k old new ((i, w) ∷ m) =
      ground (arith, e.equal_iff k k, e.equal_iff i k, insert-insert k old new m)

  pub delete-insert : (k : K) (v : V) (m : Map K V) → delete k (insert k v m) ≡ delete k m
  unfolding insert delete
  delete-insert k v [] = ground (arith, e.equal_iff k k)
  delete-insert k v ((i, w) ∷ m) =
      ground (arith, e.equal_iff k k, e.equal_iff i k, delete-insert k v m)

  pub insert-same : (k : K) (v : V) (m : Map K V) → lookup k m ≡ some v → insert k v m ≡ m
  unfolding insert lookup
  insert-same k v [] h = cc
  insert-same k v ((i, w) ∷ m) h = ground (arith, e.equal_iff i k, insert-same k v m, h)

abbrev pub map_values {ℓ κ ρ} : {K : Type ℓ} {V : Type κ} {W : Type ρ} → (V → W) → Map K V → Map K W
map_values f [] = []
map_values f ((k, v) ∷ m) = (k, f v) ∷ map_values f m

module _ {ℓ κ ρ} {K : Type ℓ} {V : Type κ} {W : Type ρ} ⦃e : Eq K⦄ (f : V → W) where
  pub map_values-insert :
      (k : K) (v : V) (m : Map K V) → map_values f (insert k v m) ≡ insert k (f v) (map_values f m)
  unfolding insert
  map_values-insert k v [] = refl
  map_values-insert k v ((i, w) ∷ m) = ground (arith, e.equal_iff i k, map_values-insert k v m)

  pub map_values-delete :
      (k : K) (m : Map K V) → map_values f (delete k m) ≡ delete k (map_values f m)
  unfolding delete
  map_values-delete k [] = refl
  map_values-delete k ((i, w) ∷ m) = ground (arith, e.equal_iff i k, map_values-delete k m)

  pub lookup-map_values :
      (k : K) (v : V) (m : Map K V) → lookup k m ≡ some v → lookup k (map_values f m) ≡ some (f v)
  unfolding lookup
  lookup-map_values k v [] h = cc
  lookup-map_values k v ((i, w) ∷ m) h = ground (arith, e.equal_iff i k, lookup-map_values k v m, h)

  pub lookup-map_values-none :
      (k : K) (m : Map K V) → lookup k m ≡ none → lookup k (map_values f m) ≡ none
  unfolding lookup
  lookup-map_values-none k [] h = refl
  lookup-map_values-none k ((i, w) ∷ m) h = ground (arith, lookup-map_values-none k m, h)
