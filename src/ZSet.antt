-- ===== src/ZSet.antt =====
-- datastruct/zset/zset.go: a sorted set, as a list of members with printed scores, or as a map and a
-- skip list. Printing, reading and sorting scores are parameters. `none` is a panic.
pub mod Items
pub mod Nodes
pub mod Pairs
pub mod Valid
pub mod Grow
pub mod Laws
pub mod Whole
mod Examples
use red_go.Base.{
  ℕ, zero, suc, ◌+◌, ◌-◌, Bool, true, false, not, ◌&&◌, List, [], ◌∷◌, ◌++◌, Option, none, some,
  Bytes, length, take, drop, ltb, leb, eq_bytes, if◌then◌else◌, ◌>>=◌, map, ℤ, pos, negsuc,
}
use red_go.GoMap
use red_go.GoMap.{GoMap, lookup, assign}
use red_go.Score.{Score, Item, at_most}
use red_go.SkipList
use red_go.SkipList.{SkipList, new_skip_list}
use red_go.SkipList.Reads
use red_go.SkipList.Reads.{rank_range}

-- What the source uses of the libraries: `Sprintf("%f", score)`, the value of `ParseFloat` and whether
-- there was an error, `FormatFloat(score, 'f', -1, 64)`, and, for `sort.Slice` by score, an order of the pairs in which no score is less than an earlier one.
pub record Floats (F : Type 0) : Type 0 where
  pub format : F → Bytes
  pub parse : Bytes → F × Bool
  pub format_float : F → Bytes
  pub sort_slice : List (Bytes × Bytes) → List (Bytes × Bytes)

-- `zset`, by its encoding
pub data ZSet (F : Type 0) : Type 0 where
  listpack : List (Bytes × Bytes) → ZSet F
  skiplist : GoMap F → SkipList F → ZSet F

-- `listpackMaxSize`
abbrev pub listpack_max_size : ℕ
listpack_max_size = 128

-- The loop of `Add` over the pairs: the pairs with the score of the member replaced, if it is there
unfoldable pub replace : Bytes → Bytes → List (Bytes × Bytes) → Option (List (Bytes × Bytes))
replace m text [] = none
replace m text ((j, old) ∷ pairs) =
    let rest = replace m text pairs in
    if eq_bytes j m then some ((j, text) ∷ pairs) else (do pairs' ← rest; some ((j, old) ∷ pairs'))

-- The result of `RangeByRank` from sorted pairs
unfoldable pub ranked_members : List (Bytes × Bytes) → Option (ℕ × ℕ) → List Bytes
ranked_members pairs none = []
ranked_members pairs (some (first, count)) = take count (drop first (map (λ p. p.0) pairs))

-- The loop of `Remove` over the pairs
unfoldable pub remove_pair : Bytes → List (Bytes × Bytes) → List (Bytes × Bytes) × Bool
remove_pair m [] = ([], false)
remove_pair m ((j, text) ∷ pairs) =
    let (rest, removed) = remove_pair m pairs in
    if eq_bytes j m then (pairs, true) else ((j, text) ∷ rest, removed)

module _ {F : Type 0} where
  -- `NewZSet`
  abbrev pub new_zset : ZSet F
  new_zset = listpack []

  -- `Len`
  unfoldable pub len : ZSet F → ℕ
  len (listpack pairs) = length pairs
  len (skiplist dict sl) = length dict

module _ {F : Type 0} (lib : Floats F) where
  -- The loop of `Score`: the score of a pair whose text does not parse is not found.
  unfoldable pub find_score : Bytes → List (Bytes × Bytes) → Option F
  find_score m [] = none
  find_score m ((j, text) ∷ pairs) =
      if eq_bytes j m
      then (let (score, bad) = lib.parse text in if bad then none else some score)
      else find_score m pairs

  -- `Score`
  unfoldable pub score : Bytes → ZSet F → Option F
  unfolding find_score
  score m (listpack pairs) = find_score m pairs
  score m (skiplist dict sl) = lookup m dict

module _ {F : Type 0} ⦃f : Score F⦄ where
  -- `Remove` on a skip list, given the score that the map holds
  unfoldable pub remove_scored : Bytes → GoMap F → SkipList F → Option F → Option (ZSet F × Bool)
  remove_scored m dict sl none = some (skiplist dict sl, false)
  remove_scored m dict sl (some old) = do
    (sl', _) ← SkipList.delete (record { member = m; score = old }) sl
    some (skiplist (GoMap.delete m dict) sl', true)

  -- `Remove`
  unfoldable pub remove : Bytes → ZSet F → Option (ZSet F × Bool)
  unfolding remove_pair remove_scored
  remove m (listpack pairs) =
      let (pairs', removed) = remove_pair m pairs in some (listpack pairs', removed)
  remove m (skiplist dict sl) = remove_scored m dict sl (lookup m dict)

  -- `Add` on a skip list, given the score that the map holds
  unfoldable pub add_scored :
      (ℕ → Bool) → Bytes → F → GoMap F → SkipList F → Option F → Option (ZSet F × Bool)
  add_scored draws m score dict sl none = do
    sl' ← SkipList.insert (record { member = m; score = score }) draws sl
    some (skiplist (assign m score dict) sl', true)
  add_scored draws m score dict sl (some old) =
      if f.same old score then some (skiplist dict sl, false) else (do
        (sl₁, _) ← SkipList.delete (record { member = m; score = old }) sl
        sl₂ ← SkipList.insert (record { member = m; score = score }) draws sl₁
        some (skiplist (assign m score dict) sl₂, false))

module _ {F : Type 0} ⦃f : Score F⦄ (lib : Floats F) where
  -- The loop of `convertToSkiplist`; each insertion draws a level.
  unfoldable pub convert_pairs :
      (ℕ → ℕ → Bool) → List (Bytes × Bytes) → GoMap F → SkipList F → Option (ZSet F)
  convert_pairs draws [] dict sl = some (skiplist dict sl)
  convert_pairs draws ((m, text) ∷ pairs) dict sl = do
    sl' ←
        SkipList.insert (record { member = m; score = (lib.parse text).0 }) (draws (length pairs))
          sl
    convert_pairs draws pairs (assign m (lib.parse text).0 dict) sl'

  -- `convertToSkiplist`
  unfoldable pub convert_to_skiplist : (ℕ → ℕ → Bool) → ZSet F → Option (ZSet F)
  unfolding convert_pairs
  convert_to_skiplist draws (listpack pairs) = convert_pairs draws pairs [] new_skip_list
  convert_to_skiplist draws (skiplist dict sl) = some (skiplist dict sl)

  -- `Add` on pairs, given the pairs with the score replaced
  unfoldable pub add_paired :
      (ℕ → ℕ → Bool)
      → Bytes
      → F
      → List (Bytes × Bytes)
      → Option (List (Bytes × Bytes))
      → Option (ZSet F × Bool)
  unfolding convert_to_skiplist
  add_paired draws m score pairs (some pairs') = some (listpack pairs', false)
  add_paired draws m score pairs none =
      let pairs' = pairs ++ (m, lib.format score) ∷ [] in
      if ltb listpack_max_size (length pairs')
      then (do z ← convert_to_skiplist draws (listpack pairs'); some (z, true))
      else some (listpack pairs', true)

  -- `Add`; `draws` are the draws of the levels of the nodes that it makes.
  unfoldable pub add : (ℕ → ℕ → Bool) → Bytes → F → ZSet F → Option (ZSet F × Bool)
  unfolding add_paired add_scored replace
  add draws m score (listpack pairs) =
      add_paired draws m score pairs (replace m (lib.format score) pairs)
  add draws m score (skiplist dict sl) = add_scored (draws 0) m score dict sl (lookup m dict)

  -- `RangeByRank`
  unfoldable pub range_by_rank : ℤ → ℤ → ZSet F → Option (List Bytes)
  unfolding rank_range ranked_members
  range_by_rank start stop (listpack pairs) =
      let sorted = lib.sort_slice pairs in
      some (ranked_members sorted (rank_range (length sorted) start stop))
  range_by_rank start stop (skiplist dict sl) = Reads.range_by_rank start stop sl

  -- The loop of `Count` over the pairs
  unfoldable pub count_pairs : F → F → List (Bytes × Bytes) → ℕ
  count_pairs min max [] = 0
  count_pairs min max ((j, text) ∷ pairs) =
      let score = (lib.parse text).0 in
      let n = count_pairs min max pairs in
      if at_most min score && at_most score max then n + 1 else n

  -- `Count`
  unfoldable pub count : F → F → ZSet F → Option ℕ
  unfolding count_pairs
  count min max (listpack pairs) = some (count_pairs min max pairs)
  count min max (skiplist dict sl) = Reads.count_in_range min max sl
