-- ===== src/SkipList/Reads.antt =====
-- The reads of datastruct/skiplist/skiplist.go: `CountInRange`, `RangeByScore`, `RangeByRank` and
-- `GetRank`.
use red_go.Base.{
  ℕ, zero, suc, ◌+◌, ◌-◌, true, false, ◌&&◌, ◌||◌, List, [], ◌∷◌, ◌++◌, Option, none, some, Bytes,
  length, eq_bytes, if◌then◌else◌, ◌>>=◌, ℤ, pos, ltb_ℤ, leb_ℤ, ◌+ℤ◌, ◌-ℤ◌, pos_part,
}
use red_go.Score.{Score, Item, before, at_most}
use red_go.SkipList.{SkipList, next, reached, descend}

-- The indices of `RangeByRank` behind its adjustments: a negative number counts from the end, `start`
-- is at least 0, and `stop` below the size.
unfoldable pub from_end : ℕ → ℤ → ℤ
from_end size index = if ltb_ℤ index (pos 0) then pos size +ℤ index else index

-- The first index and the number of the elements to return, or `none` for an empty range
unfoldable pub rank_range : ℕ → ℤ → ℤ → Option (ℕ × ℕ)
unfolding from_end
rank_range size start stop =
    let start' = from_end size start in
    let stop' = from_end size stop in
    let first = if ltb_ℤ start' (pos 0) then pos 0 else start' in
    let last = if leb_ℤ (pos size) stop' then pos size -ℤ pos 1 else stop' in
    if ltb_ℤ last first || leb_ℤ (pos size) first
    then none
    else some (pos_part first, pos_part last + 1 - pos_part first)

module _ {ℓ} {F : Type ℓ} where
  -- The first loop of `RangeByRank`: `n` nodes on
  unfoldable pub hop : SkipList F → ℕ → Option ℕ → Option (Option ℕ)
  hop s zero x = some x
  hop s (suc n) none = some none
  hop s (suc n) (some x) = do p ← next s x 0; hop s n p

  -- The second loop of `RangeByRank`: the members of at most `n` nodes
  unfoldable pub gather : SkipList F → ℕ → Option ℕ → Option (List Bytes)
  gather s zero x = some []
  gather s (suc n) none = some []
  gather s (suc n) (some x) = do
    p ← next s x 0
    members ← gather s n p
    some ((s.nodes x).item.member ∷ members)

  -- The loops of `RangeByRank` over a range
  unfoldable pub read_range : SkipList F → Option (ℕ × ℕ) → Option (List Bytes)
  unfolding hop gather
  read_range s none = some []
  read_range s (some (first, count)) = do p ← next s 0 0; x ← hop s first p; gather s count x

  -- `RangeByRank`
  unfoldable pub range_by_rank : ℤ → ℤ → SkipList F → Option (List Bytes)
  unfolding rank_range read_range
  range_by_rank start stop s = read_range s (rank_range s.length start stop)

module _ {ℓ} {F : Type ℓ} ⦃f : Score F⦄ where
  -- The node behind the last one whose score is below `min`
  unfoldable pub first_from : F → SkipList F → Option (Option ℕ)
  unfolding descend
  first_from min s = do
    update ← descend s (λ y. f.less y.score min) s.level 0
    next s (reached update) 0

  -- The second loop of `CountInRange`, with fuel for its rounds
  unfoldable pub count_loop : ℕ → SkipList F → F → Option ℕ → Option ℕ
  count_loop fuel s max none = some 0
  count_loop zero s max (some x) = none
  count_loop (suc fuel) s max (some x) = elim (at_most (s.nodes x).item.score max) [
    | false ↦ some 0
    | true ↦ do p ← next s x 0; count ← count_loop fuel s max p; some (count + 1)
  ]

  -- `CountInRange`
  unfoldable pub count_in_range : F → F → SkipList F → Option ℕ
  unfolding first_from count_loop
  count_in_range min max s = do x ← first_from min s; count_loop s.length s max x

  -- The second loop of `RangeByScore`, with fuel for its rounds
  unfoldable pub range_loop :
      ℕ → SkipList F → F → ℤ → ℤ → Option ℕ → ℕ → List Bytes → Option (List Bytes)
  range_loop fuel s max offset count none skipped result = some result
  range_loop zero s max offset count (some x) skipped result = none
  range_loop (suc fuel) s max offset count (some x) skipped result =
      elim (at_most (s.nodes x).item.score max) [
        | false ↦ some result
        | true ↦ elim (ltb_ℤ offset (pos 0) || leb_ℤ offset (pos skipped)) [
          | true ↦
              let result' = result ++ (s.nodes x).item.member ∷ [] in
              elim (ltb_ℤ (pos 0) count && leb_ℤ count (pos (length result'))) [
                | true ↦ some result'
                | false ↦ do p ← next s x 0; range_loop fuel s max offset count p skipped result'
              ]
          | false ↦ do p ← next s x 0; range_loop fuel s max offset count p (skipped + 1) result
        ]
      ]

  -- `RangeByScore`
  unfoldable pub range_by_score : F → F → ℤ → ℤ → SkipList F → Option (List Bytes)
  unfolding first_from range_loop
  range_by_score min max offset count s = do
    x ← first_from min s
    range_loop s.length s max offset count x 0 []

  -- The loop of one level of `GetRank`: the node reached, and the rank, which each hop raises by one
  unfoldable pub rank_walk : ℕ → Item F → SkipList F → ℕ → ℕ → ℕ → Option (ℕ × ℕ)
  rank_walk zero x s i y rank = none
  rank_walk (suc fuel) x s i y rank = elim (next s y i) [
    | none ↦ none
    | some none ↦ some (y, rank)
    | some (some z) ↦
        let rest = rank_walk fuel x s i z (rank + 1) in
        if before (s.nodes z).item x then rest else some (y, rank)
  ]

  -- The loop over the levels below `i`
  unfoldable pub rank_descend : Item F → SkipList F → ℕ → ℕ → ℕ → Option (ℕ × ℕ)
  unfolding rank_walk
  rank_descend x s zero y rank = some (y, rank)
  rank_descend x s (suc i) y rank = do
    (z, rank') ← rank_walk (s.length + 1) x s i y rank
    rank_descend x s i z rank'

  -- `GetRank`, `none` inside for -1
  unfoldable pub get_rank : Item F → SkipList F → Option (Option ℕ)
  unfolding rank_descend
  get_rank x s = do
    (y, rank) ← rank_descend x s s.level 0 0
    p ← next s y 0
    some (elim p [
      | none ↦ none
      | some z ↦ if eq_bytes (s.nodes z).item.member x.member then some rank else none
    ])
