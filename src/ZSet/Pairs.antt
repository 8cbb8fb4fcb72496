-- ===== src/ZSet/Pairs.antt =====
-- The pairs of a small sorted set, as a map from members to printed scores.
use red_go.Base.{
  [], ◌∷◌, ◌++◌, Option, none, some, Bytes, eq_bytes_iff, if◌then◌else◌, ◌≡◌, refl, arith,
}
use red_go.GoMap
use red_go.GoMap.{GoMap, lookup, assign, has, Distinct}
use red_go.GoMap.Laws.{delete_absent}
use red_go.ZSet.{Floats, replace, find_score, remove_pair}

-- `Add` replaces the score of a member that is there.
pub replace-assign :
    (m text : Bytes) (pairs : GoMap Bytes)
    → replace m text pairs ≡ (if has (lookup m pairs) then some (assign m text pairs) else none)
unfolding replace lookup assign
replace-assign m text [] = refl
replace-assign m text ((j, old) ∷ pairs) = ground (arith, replace-assign m text pairs)

pub assign_new :
    (m text : Bytes) (pairs : GoMap Bytes)
    → lookup m pairs ≡ none
    → pairs ++ (m, text) ∷ [] ≡ assign m text pairs
unfolding lookup assign
assign_new m text [] h = refl
assign_new m text ((j, old) ∷ pairs) h = ground (arith, assign_new m text pairs)

-- `Remove` takes a member out.
pub remove_pair-delete :
    (m : Bytes) (pairs : GoMap Bytes)
    → Distinct pairs
    → remove_pair m pairs ≡ (GoMap.delete m pairs, has (lookup m pairs))
unfolding remove_pair lookup GoMap.delete
remove_pair-delete m [] d = refl
remove_pair-delete m ((j, text) ∷ pairs) (absent, d) =
    ground (arith, remove_pair-delete m pairs d, eq_bytes_iff j m, delete_absent j pairs absent)

module _ {F : Type 0} (lib : Floats F) where
  -- The score of a text, unless it is refused
  abbrev pub read : Option Bytes → Option F
  read none = none
  read (some text) = if (lib.parse text).1 then none else some (lib.parse text).0

  pub find_score-lookup :
      (m : Bytes) (pairs : GoMap Bytes) → find_score lib m pairs ≡ read (lookup m pairs)
  unfolding find_score lookup
  find_score-lookup m [] = refl
  find_score-lookup m ((j, text) ∷ pairs) = ground (arith, find_score-lookup m pairs)
