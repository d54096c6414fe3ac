-- ===== src/Prelude/Map.antt =====
-- Go maps as association lists: at most one entry of a key is ever read. The order of the entries
-- stands for the order of a `range` only where a definition says so.
use mathlib.Core.Path.{◌≡◌, refl}
use mathlib.Core.Option.{Option, none, some}
use mathlib.Core.List.{List, [], ◌∷◌}
use native.Mathlib.Omega.{arith}
use telemetry_punitha.Prelude.Tests.{Eq, ◌==◌, if◌then◌else◌}

abbrev pub Map {ℓ κ} : Type ℓ → Type κ → Type (ℓ ⊔ κ)
Map K V = List (K × V)

module _ {ℓ κ} {K : Type ℓ} {V : Type κ} ⦃e : Eq K⦄ where
  -- v, ok := m[key]
  unfoldable pub lookup : K → Map K V → Option V
  lookup key [] = none
  lookup key ((k, v) ∷ rest) = if k == key then some v else lookup key rest

  -- m[key] = v
  unfoldable pub insert : K → V → Map K V → Map K V
  insert key v [] = (key, v) ∷ []
  insert key v ((k, old) ∷ rest) =
      if k == key then (key, v) ∷ rest else (k, old) ∷ insert key v rest

  -- delete(m, key)
  unfoldable pub delete : K → Map K V → Map K V
  delete key [] = []
  delete key ((k, v) ∷ rest) = if k == key then delete key rest else (k, v) ∷ delete key rest

  pub lookup-nil : (key : K) → lookup key [] ≡ none
  unfolding lookup
  lookup-nil key = refl

  pub lookup-insert :
      (key k : K) (v : V) (m : Map K V)
      → lookup k (insert key v m) ≡ (if key == k then some v else lookup k m)
  unfolding lookup insert
  lookup-insert key k v [] = refl
  lookup-insert key k v ((h, old) ∷ rest) =
      ground (arith, e.same_iff key k, e.same_iff h key, e.same_iff h k, lookup-insert key k v rest)

  pub lookup-delete :
      (key k : K) (m : Map K V) → lookup k (delete key m) ≡ (if key == k then none else lookup k m)
  unfolding lookup delete
  lookup-delete key k [] = ground arith
  lookup-delete key k ((h, v) ∷ rest) =
      ground (arith, e.same_iff key k, e.same_iff h key, e.same_iff h k, lookup-delete key k rest)
