-- ===== src/Base/Maps.antt =====
-- Go maps as association lists: `m[k]`, `m[k] = v` and `delete(m, k)`.
use mathlib.Core.Path.{◌≡◌, refl}
use mathlib.Core.Option.{Option, none, some}
use mathlib.Core.List.{List, [], ◌∷◌}
use native.Mathlib.Omega.{arith}
use udplb.Base.Tests.{if◌then◌else◌}
use udplb.Base.Eqs.{Comparable, ◌==◌}

abbrev pub Map {ℓ κ} : Type ℓ → Type κ → Type (ℓ ⊔ κ)
Map K V = List (K × V)

module _ {ℓ κ} {K : Type ℓ} {V : Type κ} ⦃c : Comparable K⦄ where
  -- `delete(m, key)`.
  abbrev pub delete : K → Map K V → Map K V
  delete key [] = []
  delete key ((k, w) ∷ rest) = if k == key then delete key rest else (k, w) ∷ delete key rest

  -- `m[key] = v`: an entry of that key is replaced in place.
  abbrev pub insert : K → V → Map K V → Map K V
  insert key v [] = (key, v) ∷ []
  insert key v ((k, w) ∷ rest) = if k == key then (key, v) ∷ rest else (k, w) ∷ insert key v rest

  -- `v, ok := m[key]`.
  abbrev pub lookup : K → Map K V → Option V
  lookup key [] = none
  lookup key ((k, w) ∷ rest) = if k == key then some w else lookup key rest

  -- Each key stands once, as in a Go map.
  abbrev pub IsMap : Map K V → Type κ
  IsMap [] = Unit
  IsMap ((k, w) ∷ rest) = (lookup k rest ≡ none) × IsMap rest

module _ {ℓ κ} {K : Type ℓ} {V : Type κ} ⦃c : Comparable K⦄ where
  pub lookup-delete :
      (key k : K) (m : Map K V) → lookup k (delete key m) ≡ (if key == k then none else lookup k m)
  lookup-delete key k [] = ground arith
  lookup-delete key k ((i, w) ∷ rest) =
      ground
        (arith, lookup-delete key k rest, c.equal_iff key k, c.equal_iff i key, c.equal_iff i k)

  pub lookup-insert :
      (key k : K) (v : V) (m : Map K V)
      → lookup k (insert key v m) ≡ (if key == k then some v else lookup k m)
  lookup-insert key k v [] = refl
  lookup-insert key k v ((i, w) ∷ rest) =
      ground
        (arith, lookup-insert key k v rest, c.equal_iff key k, c.equal_iff i key, c.equal_iff i k)

  pub insert-IsMap : (key : K) (v : V) (m : Map K V) → IsMap m → IsMap (insert key v m)
  insert-IsMap key v [] h = (refl, tt)
  insert-IsMap key v ((i, w) ∷ rest) h = ground (
    arith,
    c.equal_iff i key,
    c.equal_iff key i,
    lookup-insert key i v rest,
    insert-IsMap key v rest h.1,
  )

  pub delete-IsMap : (key : K) (m : Map K V) → IsMap m → IsMap (delete key m)
  delete-IsMap key [] h = tt
  delete-IsMap key ((i, w) ∷ rest) h = ground (
    arith,
    c.equal_iff i key,
    c.equal_iff key i,
    lookup-delete key i rest,
    delete-IsMap key rest h.1,
  )
