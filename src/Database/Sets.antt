-- ===== src/Database/Sets.antt =====
-- database/set.go: the commands on one set. A set that a key holds is mutated in place: the write of
-- the key stands for it. A panic of the integer set leaves the database as it was before the call.
pub mod Draws
pub mod Calculate
pub mod Register
pub mod Laws
pub mod Under
pub mod Commands
pub mod Algebra
pub mod Meets
pub mod Stores
pub mod Pops
use red_go.Base.{
  ℕ, zero, suc, ◌+◌, List, [], ◌∷◌, ◌++◌, Option, none, some, Bytes, Bool, true, false, ◌||◌, ◌&&◌,
  codes, length, ℤ, pos, negsuc, ltb, ◌==◌, if◌then◌else◌, ◌>>=◌, map,
}
use red_go.Strconv.{parse_int, format_int}
use red_go.HashSet
use red_go.HashSet.{HashSet, new_hash_set, Random, random_distinct_members, random_members}
use red_go.Reply.{
  Reply, null_bulk_reply, bulk_reply, int_reply, multi_bulk_reply, wrong_type_err_reply,
  standard_error_reply,
}
use red_go.Database.{
  Db, Entity, set_data, Outcome, replied, panic, ExecFunc, CmdLine, get_entity, put_entity, remove,
  add_aof, to_cmd_line_with_name,
}

-- The results of `getAsSet`: a nil set, the error reply, or the set.
pub data SetAt : Type 0 where
  no_set : SetAt
  other_type : SetAt
  found_set : HashSet → SetAt

set_of : Option Entity → SetAt
set_of none = no_set
set_of (some (set_data s)) = found_set s
set_of (some _) = other_type

-- `getAsSet`
unfoldable pub get_as_set : Db → Bytes → SetAt
unfolding set_of
get_as_set db key = set_of (get_entity db key)

-- `getOrInitSet`: the set and whether it is new, or the error reply
or_init : SetAt → Option (HashSet × Bool)
or_init no_set = some (new_hash_set, true)
or_init other_type = none
or_init (found_set s) = some (s, false)

unfoldable pub get_or_init_set : Db → Bytes → Option (HashSet × Bool)
unfolding or_init
get_or_init_set db key = or_init (get_as_set db key)

update_set : Db → Bytes → HashSet → Db
update_set db key s = (put_entity db key (set_data s)).0

pub bulks : List Bytes → Reply
bulks members = multi_bulk_reply (map some members)

-- The loop of `execSAdd`: the set behind it, and the count
unfoldable pub add_members : HashSet → List Bytes → Option (HashSet × ℕ)
add_members s [] = some (s, 0)
add_members s (m ∷ ms) = do
  (s', n) ← HashSet.add s m
  (s'', count) ← add_members s' ms
  some (s'', n + count)

-- The end of `execSAdd`
added_to : Db → Bytes → CmdLine → Bool → HashSet × ℕ → Outcome × Db
unfolding update_set
added_to db key cmd is_new (s, count) =
    let db' = if is_new then db else update_set db key s in
    (
      replied (int_reply (pos count)),
      if is_new || ltb 0 count then add_aof (put_entity db' key (set_data s)).0 cmd else db',
    )

add_to_set : Db → Bytes → List Bytes → Option (HashSet × Bool) → Outcome × Db
unfolding added_to
add_to_set db key members none = (replied wrong_type_err_reply, db)
add_to_set db key members (some (s, is_new)) = elim (add_members s members) [
  | none ↦ (panic, db)
  | some result ↦
      added_to db key (to_cmd_line_with_name (codes "SADD") (key ∷ members)) is_new result
]

-- `execSAdd`
unfoldable pub exec_s_add : ExecFunc
unfolding add_to_set
exec_s_add db (key ∷ members) = add_to_set db key members (get_or_init_set db key)
exec_s_add db [] = (panic, db)

-- A read of a set: the reply for a nil set, and the one from a set, which may panic.
outcome_of : Option Reply → Outcome
outcome_of none = panic
outcome_of (some reply) = replied reply

read_set : Reply → (HashSet → Option Reply) → SetAt → Outcome
unfolding outcome_of
read_set absent f no_set = replied absent
read_set absent f other_type = replied wrong_type_err_reply
read_set absent f (found_set s) = outcome_of (f s)

-- `execSCard`
unfoldable pub exec_s_card : ExecFunc
unfolding read_set
exec_s_card db (key ∷ args) = (
  read_set (int_reply (pos 0)) (λ s. some (int_reply (pos (HashSet.len s)))) (get_as_set db key),
  db,
)
exec_s_card db [] = (panic, db)

abbrev pub flag : Bool → Reply
flag b = if b then int_reply (pos 1) else int_reply (pos 0)

contains_reply : Bytes → HashSet → Option Reply
contains_reply member s = do b ← HashSet.contains s member; some (flag b)

-- `execSIsMember`
unfoldable pub exec_s_is_member : ExecFunc
unfolding read_set contains_reply
exec_s_is_member db (key ∷ member ∷ args) =
    (read_set (int_reply (pos 0)) (contains_reply member) (get_as_set db key), db)
exec_s_is_member db args = (panic, db)

members_reply : HashSet → Option Reply
unfolding bulks
members_reply s = do ms ← HashSet.members s; some (bulks ms)

-- `execSMembers`
unfoldable pub exec_s_members : ExecFunc
unfolding read_set members_reply
exec_s_members db (key ∷ args) = (read_set (bulks []) members_reply (get_as_set db key), db)
exec_s_members db [] = (panic, db)

-- The loop of `execSRem`
unfoldable pub remove_members : HashSet → List Bytes → Option (HashSet × ℕ)
remove_members s [] = some (s, 0)
remove_members s (m ∷ ms) = do
  (s', n) ← HashSet.remove s m
  (s'', count) ← remove_members s' ms
  some (s'', n + count)

-- The write of a set that lost members: an empty one takes its key with it.
pub put_or_remove_set : Db → Bytes → HashSet → Db
unfolding update_set
put_or_remove_set db key s = if HashSet.len s == 0 then (remove db key).0 else update_set db key s

-- The end of `execSRem`
removed_from : Db → Bytes → CmdLine → HashSet × ℕ → Outcome × Db
unfolding update_set put_or_remove_set
removed_from db key cmd (s, count) =
    let db' = update_set db key s in
    (
      replied (int_reply (pos count)),
      if ltb 0 count then add_aof (put_or_remove_set db' key s) cmd else db',
    )

remove_in : Db → Bytes → List Bytes → SetAt → Outcome × Db
unfolding removed_from
remove_in db key members no_set = (replied (int_reply (pos 0)), db)
remove_in db key members other_type = (replied wrong_type_err_reply, db)
remove_in db key members (found_set s) = elim (remove_members s members) [
  | none ↦ (panic, db)
  | some result ↦ removed_from db key (to_cmd_line_with_name (codes "SREM") (key ∷ members)) result
]

-- `execSRem`
unfoldable pub exec_s_rem : ExecFunc
unfolding remove_in
exec_s_rem db (key ∷ members) = remove_in db key members (get_as_set db key)
exec_s_rem db [] = (panic, db)
