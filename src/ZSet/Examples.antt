-- ===== src/ZSet/Examples.antt =====
-- The theorems on sorted sets at concrete sets.
use red_go.Base.{
  ℕ, false, not, [], ◌∷◌, none, some, Bytes, eq_bytes, if◌then◌else◌, ◌≡◌, refl, arith,
}
use red_go.GoMap.{lookup, assign, has}
use red_go.ZSet.{ZSet, listpack, score, add, remove}
use red_go.ZSet.Valid.{IsValid, AllParse-assign, stored}
use red_go.ZSet.Laws.{add_score_lem, remove_score_lem}
use red_go.ZSet.Whole.{whole_score, whole_floats, whole-Parses}

abbrev two_pairs : ZSet ℕ
two_pairs = listpack ((b'b' ∷ [], 3 ∷ []) ∷ (b'a' ∷ [], 7 ∷ []) ∷ [])

two_pairs-IsValid : IsValid whole_floats two_pairs
unfolding lookup assign eq_bytes
two_pairs-IsValid = (
  (refl, (refl, tt)),
  omega arith,
  AllParse-assign whole_floats (b'a' ∷ []) 7 ((b'b' ∷ [], 3 ∷ []) ∷ []) whole-Parses (
      AllParse-assign whole_floats (b'b' ∷ []) 3 [] whole-Parses
        (λ k text e. absurd (ground (arith, e)))),
)

add_score_lem_example :
    (z' : ZSet ℕ) × (add whole_floats (λ i j. false) (b'a' ∷ []) 5 two_pairs
      ≡ some (z', not (has (score whole_floats (b'a' ∷ []) two_pairs))))
    × IsValid whole_floats z'
    × ((k : Bytes)
        → score whole_floats k z' ≡ (
            if eq_bytes (b'a' ∷ []) k
            then some (stored whole_floats (b'a' ∷ []) 5 two_pairs)
            else score whole_floats k two_pairs))
add_score_lem_example =
    add_score_lem whole_floats (λ i j. false) (b'a' ∷ []) 5 two_pairs whole-Parses two_pairs-IsValid

remove_score_lem_example :
    (z' : ZSet ℕ) × (remove (b'a' ∷ []) two_pairs
      ≡ some (z', has (score whole_floats (b'a' ∷ []) two_pairs)))
    × IsValid whole_floats z'
    × ((k : Bytes)
        → score whole_floats k z'
          ≡ (if eq_bytes (b'a' ∷ []) k then none else score whole_floats k two_pairs))
remove_score_lem_example = remove_score_lem whole_floats (b'a' ∷ []) two_pairs two_pairs-IsValid
