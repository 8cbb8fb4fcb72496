-- ===== src/GoMap/Laws.antt =====
-- The laws of maps: what can be read after a write, and the number of entries.
use red_go.Base.{
  ◌≡◌, ◌+◌, [], ◌∷◌, none, some, Bytes, eq_bytes, eq_bytes_iff, if◌then◌else◌, length, arith, refl,
}
use red_go.GoMap.{GoMap, lookup, assign, delete, has, Distinct}

module _ {ℓ} {V : Type ℓ} where
  -- A write is read back under its key and hides nothing else.
  pub lookup-assign :
      (k j : Bytes) (v : V) (m : GoMap V)
      → lookup j (assign k v m) ≡ (if eq_bytes k j then some v else lookup j m)
  unfolding lookup assign
  lookup-assign k j v [] = refl
  lookup-assign k j v ((i, w) ∷ m) =
      ground (arith, eq_bytes_iff k j, eq_bytes_iff i k, eq_bytes_iff i j, lookup-assign k j v m)

  -- A deleted key is gone, and nothing else.
  pub lookup-delete :
      (k j : Bytes) (m : GoMap V)
      → lookup j (delete k m) ≡ (if eq_bytes k j then none else lookup j m)
  unfolding lookup delete
  lookup-delete k j [] = ground arith
  lookup-delete k j ((i, w) ∷ m) =
      ground (arith, eq_bytes_iff k j, eq_bytes_iff i k, eq_bytes_iff i j, lookup-delete k j m)

  pub length-assign :
      (k : Bytes) (v : V) (m : GoMap V)
      → length (assign k v m) ≡ (if has (lookup k m) then length m else length m + 1)
  unfolding lookup assign
  length-assign k v [] = refl
  length-assign k v ((i, w) ∷ m) = ground (arith, length-assign k v m)

  pub delete_absent : (k : Bytes) (m : GoMap V) → lookup k m ≡ none → delete k m ≡ m
  unfolding lookup delete
  delete_absent k [] h = refl
  delete_absent k ((i, w) ∷ m) h = ground (arith, delete_absent k m)

  pub length-delete :
      (k : Bytes) (m : GoMap V)
      → Distinct m
      → length m ≡ (if has (lookup k m) then length (delete k m) + 1 else length (delete k m))
  unfolding lookup delete
  length-delete k [] h = refl
  length-delete k ((i, w) ∷ m) (absent, h) =
      ground (arith, eq_bytes_iff i k, delete_absent i m absent, length-delete k m h)

  pub assign-Distinct : (k : Bytes) (v : V) (m : GoMap V) → Distinct m → Distinct (assign k v m)
  unfolding lookup assign
  assign-Distinct k v [] h = ground arith
  assign-Distinct k v ((i, w) ∷ m) (absent, h) =
      ground
        (arith, eq_bytes_iff i k, eq_bytes_iff k i, lookup-assign k i v m, assign-Distinct k v m h)

  pub delete-Distinct : (k : Bytes) (m : GoMap V) → Distinct m → Distinct (delete k m)
  unfolding lookup delete
  delete-Distinct k [] h = h
  delete-Distinct k ((i, w) ∷ m) (absent, h) =
      ground (arith, eq_bytes_iff i k, eq_bytes_iff k i, lookup-delete k i m, delete-Distinct k m h)
