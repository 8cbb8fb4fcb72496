-- ===== src/Database/ZSets.antt =====
-- database/zset.go: the commands on a sorted set. A sorted set that a key holds is mutated in place:
-- the write of the key stands for it. A panic leaves the database as it was before the call.
pub mod Register
pub mod Laws
use red_go.Base.{
  ℕ, zero, suc, ◌+◌, ◌%◌, List, [], ◌∷◌, ◌++◌, Option, none, some, Bytes, Bool, true, false, ◌||◌,
  ◌&&◌, codes, length, get_elem?, ℤ, pos, negsuc, ltb, ◌==◌, eq_bytes, if◌then◌else◌, ◌>>=◌, map,
}
use red_go.Strconv.{parse_int}
use red_go.Score.{Score, Float64}
use red_go.SkipList.Reads.{get_rank}
use red_go.ZSet
use red_go.ZSet.{ZSet, Floats, new_zset, listpack, skiplist}
use red_go.Reply.{
  Reply, null_bulk_reply, bulk_reply, int_reply, multi_bulk_reply, empty_multi_bulk_reply,
  wrong_type_err_reply, standard_error_reply,
}
use red_go.Database.{
  Db, Entity, zset_data, Outcome, replied, panic, ExecFunc, CmdLine, get_entity, put_entity,
  add_aof, to_cmd_line_with_name,
}

-- The results of `getAsZSet`: a new set for a missing key, nil for another type, or the set.
pub data ZSetAt : Type 0 where
  no_zset : ZSetAt
  other_type : ZSetAt
  found_zset : ZSet Float64 → ZSetAt

zset_of : Option Entity → ZSetAt
zset_of none = no_zset
zset_of (some (zset_data z)) = found_zset z
zset_of (some _) = other_type

-- `getAsZSet`
unfoldable pub get_as_zset : Db → Bytes → ZSetAt
unfolding zset_of
get_as_zset db key = zset_of (get_entity db key)

not_a_float : Reply
not_a_float = standard_error_reply (codes "value is not a valid float")

wrong_number : Bytes → Reply
wrong_number name =
    standard_error_reply (codes "wrong number of arguments for '" ++ (name ++ codes "' command"))

update_zset : Db → Bytes → ZSet Float64 → Db
update_zset db key z = (put_entity db key (zset_data z)).0

-- A read of a sorted set: the reply for a missing key, and the one from a set, which may panic.
read_zset : Reply → (ZSet Float64 → Option Reply) → ZSetAt → Outcome
read_zset absent f no_zset = replied absent
read_zset absent f other_type = replied wrong_type_err_reply
read_zset absent f (found_zset z) = elim (f z) [ none ↦ panic | some reply ↦ replied reply ]

-- `execZCard`
unfoldable pub exec_z_card : ExecFunc
unfolding read_zset wrong_number
exec_z_card db (key ∷ []) = (
  read_zset (int_reply (pos 0)) (λ z. some (int_reply (pos (ZSet.len z)))) (get_as_zset db key),
  db,
)
exec_z_card db args = (replied (wrong_number (codes "zcard")), db)

module _ (lib : Floats Float64) where
  -- `parseFloat`
  unfoldable pub parse_float : Bytes → Option Float64
  parse_float text = let (x, bad) = lib.parse text in if bad then none else some x

  score_reply : Option Float64 → Reply
  score_reply none = null_bulk_reply
  score_reply (some x) = bulk_reply (some (lib.format_float x))

  -- `execZScore`
  unfoldable pub exec_z_score : ExecFunc
  unfolding read_zset wrong_number score_reply
  exec_z_score db (key ∷ member ∷ []) = (
    read_zset null_bulk_reply (λ z. some (score_reply (ZSet.score lib member z)))
        (get_as_zset db key),
    db,
  )
  exec_z_score db args = (replied (wrong_number (codes "zscore")), db)

module _ ⦃f : Score Float64⦄ (lib : Floats Float64) (draws : ℕ → ℕ → ℕ → Bool) where
  -- The loop of `execZAdd`: the set behind it, the count, and whether every score was a number. The
  -- pairs before a score that is none are added.
  unfoldable pub add_scores : ZSet Float64 → ℕ → List Bytes → Option (ZSet Float64 × ℕ × Bool)
  unfolding parse_float
  add_scores z added (text ∷ member ∷ args) = elim (parse_float lib text) [
    | none ↦ some (z, added, false)
    | some x ↦ do
      (z', is_new) ← ZSet.add lib (draws (length args)) member x z
      add_scores z' (if is_new then added + 1 else added) args
  ]
  add_scores z added args = some (z, added, true)

  -- The end of `execZAdd`, given whether the key held the set
  z_added : Db → Bytes → CmdLine → Bool → ZSet Float64 × ℕ × Bool → Outcome × Db
  unfolding update_zset not_a_float
  z_added db key cmd exists (z, added, ok) =
      if ok
      then (replied (int_reply (pos added)), add_aof (update_zset db key z) cmd)
      else (replied not_a_float, if exists then update_zset db key z else db)

  add_to_zset : Db → Bytes → List Bytes → ZSet Float64 → Bool → Outcome × Db
  unfolding z_added add_scores
  add_to_zset db key args z exists = elim (add_scores z 0 args) [
    | none ↦ (panic, db)
    | some result ↦ z_added db key (to_cmd_line_with_name (codes "ZADD") (key ∷ args)) exists result
  ]

  add_at_key : Db → Bytes → List Bytes → ZSetAt → Outcome × Db
  unfolding add_to_zset
  add_at_key db key args no_zset = add_to_zset db key args new_zset false
  add_at_key db key args other_type = (replied wrong_type_err_reply, db)
  add_at_key db key args (found_zset z) = add_to_zset db key args z true

  -- `execZAdd`
  unfoldable pub exec_z_add : ExecFunc
  unfolding add_at_key wrong_number
  exec_z_add db [] = (replied (wrong_number (codes "zadd")), db)
  exec_z_add db (key ∷ args) =
      if ltb (length (key ∷ args)) 3 || length (key ∷ args) % 2 == 0
      then (replied (wrong_number (codes "zadd")), db)
      else add_at_key db key args (get_as_zset db key)

module _ ⦃f : Score Float64⦄ (lib : Floats Float64) where
  -- A member with its score, 0 when it has none
  with_score : ZSet Float64 → Bytes → List (Option Bytes)
  with_score z member =
      some member
      ∷ some (lib.format_float (elim (ZSet.score lib member z) [ none ↦ f.nought | some x ↦ x ]))
      ∷ []

  with_scores : ZSet Float64 → List Bytes → List (Option Bytes)
  unfolding with_score
  with_scores z [] = []
  with_scores z (m ∷ ms) = with_score z m ++ with_scores z ms

  z_range_reply : Bool → ℤ → ℤ → ZSet Float64 → Option Reply
  unfolding with_scores
  z_range_reply scores start stop z = do
    members ← ZSet.range_by_rank lib start stop z
    some (multi_bulk_reply (if scores then with_scores z members else map some members))

  z_range_args : Db → Bytes → Bool → Option ℤ → Option ℤ → Outcome
  unfolding z_range_reply read_zset
  z_range_args db key scores none stop =
      replied (standard_error_reply (codes "value is not an integer or out of range"))
  z_range_args db key scores (some start) none =
      replied (standard_error_reply (codes "value is not an integer or out of range"))
  z_range_args db key scores (some start) (some stop) =
      read_zset empty_multi_bulk_reply (z_range_reply scores start stop) (get_as_zset db key)

  -- `len(args) > 3 && string(args[3]) == "WITHSCORES"`
  has_with_scores : List Bytes → Bool
  has_with_scores [] = false
  has_with_scores (option ∷ args) = eq_bytes option (codes "WITHSCORES")

  -- `execZRange`
  unfoldable pub exec_z_range : ExecFunc
  unfolding z_range_args has_with_scores wrong_number
  exec_z_range db (key ∷ start ∷ stop ∷ args) =
      (z_range_args db key (has_with_scores args) (parse_int start) (parse_int stop), db)
  exec_z_range db args = (replied (wrong_number (codes "zrange")), db)

  z_count_args : Db → Bytes → Option Float64 → Option Float64 → Outcome
  unfolding read_zset not_a_float
  z_count_args db key none max = replied not_a_float
  z_count_args db key (some min) none = replied not_a_float
  z_count_args db key (some min) (some max) =
      read_zset (int_reply (pos 0)) (λ z. do n ← ZSet.count lib min max z; some (int_reply (pos n)))
        (get_as_zset db key)

  -- `execZCount`
  unfoldable pub exec_z_count : ExecFunc
  unfolding z_count_args parse_float wrong_number
  exec_z_count db (key ∷ min ∷ max ∷ []) =
      (z_count_args db key (parse_float lib min) (parse_float lib max), db)
  exec_z_count db args = (replied (wrong_number (codes "zcount")), db)

  -- The index of a member
  unfoldable pub index_of : Bytes → List Bytes → Option ℕ
  index_of m [] = none
  index_of m (x ∷ xs) = if eq_bytes x m then some 0 else (do i ← index_of m xs; some (i + 1))

  rank_of : Bytes → Float64 → ZSet Float64 → Option (Option ℕ)
  unfolding index_of
  rank_of member x (skiplist dict sl) = get_rank (record { member = member; score = x }) sl
  rank_of member x (listpack pairs) = do
    members ← ZSet.range_by_rank lib (pos 0) (negsuc 0) (listpack pairs)
    some (index_of member members)

  z_rank_reply : Bytes → ZSet Float64 → Option Float64 → Option Reply
  unfolding rank_of
  z_rank_reply member z none = some null_bulk_reply
  z_rank_reply member z (some x) = do
    rank ← rank_of member x z
    some (elim rank [ none ↦ null_bulk_reply | some i ↦ int_reply (pos i) ])

  -- `execZRank`
  unfoldable pub exec_z_rank : ExecFunc
  unfolding read_zset z_rank_reply wrong_number
  exec_z_rank db (key ∷ member ∷ []) = (
    read_zset null_bulk_reply (λ z. z_rank_reply member z (ZSet.score lib member z))
        (get_as_zset db key),
    db,
  )
  exec_z_rank db args = (replied (wrong_number (codes "zrank")), db)

module _ ⦃f : Score Float64⦄ where
  -- The loop of `execZRem`: the set behind it, and the count
  unfoldable pub remove_members : ZSet Float64 → ℕ → List Bytes → Option (ZSet Float64 × ℕ)
  remove_members z removed [] = some (z, removed)
  remove_members z removed (m ∷ ms) = do
    (z', gone) ← ZSet.remove m z
    remove_members z' (if gone then removed + 1 else removed) ms

  -- The end of `execZRem`
  z_removed : Db → Bytes → CmdLine → ZSet Float64 × ℕ → Outcome × Db
  unfolding update_zset
  z_removed db key cmd (z, removed) = (
    replied (int_reply (pos removed)),
    if ltb 0 removed then add_aof (update_zset db key z) cmd else db,
  )

  remove_at_key : Db → Bytes → List Bytes → ZSetAt → Outcome × Db
  unfolding z_removed remove_members
  remove_at_key db key members no_zset = (replied (int_reply (pos 0)), db)
  remove_at_key db key members other_type = (replied wrong_type_err_reply, db)
  remove_at_key db key members (found_zset z) = elim (remove_members z 0 members) [
    | none ↦ (panic, db)
    | some result ↦ z_removed db key (to_cmd_line_with_name (codes "ZREM") (key ∷ members)) result
  ]

  -- `execZRem`
  unfoldable pub exec_z_rem : ExecFunc
  unfolding remove_at_key wrong_number
  exec_z_rem db (key ∷ member ∷ members) =
      remove_at_key db key (member ∷ members) (get_as_zset db key)
  exec_z_rem db args = (replied (wrong_number (codes "zrem")), db)
