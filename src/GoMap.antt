-- ===== src/GoMap.antt =====
-- Go's maps with string keys, as association lists. A `range` over a map visits the entries in an
-- order that Go leaves open; here it is the order of the list.
pub mod Laws
use red_go.Base.{
  ◌≡◌, ℕ, Bool, true, false, List, [], ◌∷◌, Option, none, some, Bytes, eq_bytes, if◌then◌else◌, map,
}

abbrev pub GoMap {ℓ} : Type ℓ → Type ℓ
GoMap V = List (Bytes × V)

module _ {ℓ} {V : Type ℓ} where
  -- `v, ok := m[k]`
  unfoldable pub lookup : Bytes → GoMap V → Option V
  lookup k [] = none
  lookup k ((j, v) ∷ m) = if eq_bytes j k then some v else lookup k m

  -- `m[k] = v`
  unfoldable pub assign : Bytes → V → GoMap V → GoMap V
  assign k v [] = (k, v) ∷ []
  assign k v ((j, w) ∷ m) = if eq_bytes j k then (j, v) ∷ m else (j, w) ∷ assign k v m

  -- `delete(m, k)`
  unfoldable pub delete : Bytes → GoMap V → GoMap V
  delete k [] = []
  delete k ((j, w) ∷ m) = let rest = delete k m in if eq_bytes j k then rest else (j, w) ∷ rest

  -- The keys, and the values, that a `range` visits.
  abbrev pub keys : GoMap V → List Bytes
  keys = map (λ e. e.0)

  abbrev pub values : GoMap V → List V
  values = map (λ e. e.1)

abbrev pub has {ℓ} : {V : Type ℓ} → Option V → Bool
has none = false
has (some v) = true

-- No key stands twice.
abbrev pub Distinct {ℓ} : {V : Type ℓ} → GoMap V → Type ℓ
Distinct [] = Unit
Distinct ((k, v) ∷ m) = (lookup k m ≡ none) × Distinct m
