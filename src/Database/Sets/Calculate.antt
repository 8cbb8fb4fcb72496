-- ===== src/Database/Sets/Calculate.antt =====
-- database/set.go: the union, the intersection and the difference of sets.
use red_go.Base.{
  List, [], ◌∷◌, Option, none, some, Bytes, Bool, true, false, codes, pos, ◌==◌, if◌then◌else◌,
  ◌>>=◌, map,
}
use red_go.HashSet
use red_go.HashSet.{HashSet, new_hash_set}
use red_go.Reply.{
  Reply, unknown_reply, syntax_err_reply, arg_num_err_reply, protocol_err_reply,
  standard_error_reply, null_bulk_reply, int_reply, multi_bulk_reply, empty_multi_bulk_reply,
  status_reply, wrong_type_err_reply,
}
use red_go.Database.{
  Db, set_data, Outcome, replied, panic, ExecFunc, put_entity, add_aof, to_cmd_line_with_name,
}
use red_go.Database.Sets.{
  SetAt, no_set, other_type, found_set, get_as_set, bulks, add_members, remove_members,
}

-- A calculation panics, replies at once, or leaves a set.
pub data Calculation : Type 0 where
  failed : Calculation
  returned : Reply → Calculation
  result_set : HashSet → Calculation

-- The members of a set, added to another by `ForEach`
unfoldable pub add_set : HashSet → HashSet → Option HashSet
add_set result s = do ms ← HashSet.members s; (result', _) ← add_members result ms; some result'

-- The loop of `execSUnion`
unfoldable pub union_sets : Db → HashSet → List Bytes → Calculation
unfolding add_set
union_sets db result [] = result_set result
union_sets db result (key ∷ keys) = elim (get_as_set db key) [
  | other_type ↦ returned wrong_type_err_reply
  | no_set ↦ union_sets db result keys
  | found_set s ↦ elim (add_set result s) [
    | none ↦ failed
    | some result' ↦ union_sets db result' keys
  ]
]

-- The members of the result as a reply
unfoldable pub calculated : Calculation → Outcome
unfolding bulks
calculated failed = panic
calculated (returned reply) = replied reply
calculated (result_set s) = elim (HashSet.members s) [ none ↦ panic | some ms ↦ replied (bulks ms) ]

-- `execSUnion`
unfoldable pub exec_s_union : ExecFunc
unfolding calculated
exec_s_union db args = (calculated (union_sets db new_hash_set args), db)

-- The members that another set lacks: `toRemove`
unfoldable pub missing_in : HashSet → List Bytes → Option (List Bytes)
missing_in s [] = some []
missing_in s (m ∷ ms) = do
  b ← HashSet.contains s m
  rest ← missing_in s ms
  some (if b then rest else m ∷ rest)

-- A round of the loop of `execSInter`
unfoldable pub keep_common : HashSet → HashSet → Option HashSet
unfolding missing_in
keep_common result s = do
  ms ← HashSet.members result
  to_remove ← missing_in s ms
  (result', _) ← remove_members result to_remove
  some result'

-- The loop of `execSInter`
unfoldable pub inter_sets : Db → HashSet → List Bytes → Calculation
unfolding keep_common
inter_sets db result [] = result_set result
inter_sets db result (key ∷ keys) = elim (get_as_set db key) [
  | other_type ↦ returned wrong_type_err_reply
  | no_set ↦ returned empty_multi_bulk_reply
  | found_set s ↦ elim (keep_common result s) [
    | none ↦ failed
    | some result' ↦
        let rest = inter_sets db result' keys in
        if HashSet.len result' == 0 then returned empty_multi_bulk_reply else rest
  ]
]

-- A round of the loop of `execSDiff`
unfoldable pub remove_set : HashSet → HashSet → Option HashSet
remove_set result s = do
  ms ← HashSet.members s
  (result', _) ← remove_members result ms
  some result'

-- The loop of `execSDiff`
unfoldable pub diff_sets : Db → HashSet → List Bytes → Calculation
unfolding remove_set
diff_sets db result [] = result_set result
diff_sets db result (key ∷ keys) = elim (get_as_set db key) [
  | other_type ↦ returned wrong_type_err_reply
  | no_set ↦ diff_sets db result keys
  | found_set s ↦ elim (remove_set result s) [
    | none ↦ failed
    | some result' ↦
        let rest = diff_sets db result' keys in
        if HashSet.len result' == 0 then returned empty_multi_bulk_reply else rest
  ]
]

-- The start of `execSInter` and `execSDiff`: a copy of the first set, and the rounds for the others
unfoldable pub from_first : (HashSet → Calculation) → SetAt → Calculation
unfolding add_set
from_first rounds no_set = returned empty_multi_bulk_reply
from_first rounds other_type = returned wrong_type_err_reply
from_first rounds (found_set s) = elim (add_set new_hash_set s) [
  | none ↦ failed
  | some result ↦ rounds result
]

-- `execSInter`
unfoldable pub exec_s_inter : ExecFunc
unfolding calculated from_first
exec_s_inter db [] = (replied empty_multi_bulk_reply, db)
exec_s_inter db (key ∷ keys) =
    (calculated (from_first (λ result. inter_sets db result keys) (get_as_set db key)), db)

-- `execSDiff`
unfoldable pub exec_s_diff : ExecFunc
unfolding calculated from_first
exec_s_diff db [] = (panic, db)
exec_s_diff db (key ∷ keys) =
    (calculated (from_first (λ result. diff_sets db result keys) (get_as_set db key)), db)

-- The replies with a method `Error`
unfoldable pub is_error_reply : Reply → Bool
is_error_reply unknown_reply = true
is_error_reply syntax_err_reply = true
is_error_reply wrong_type_err_reply = true
is_error_reply (arg_num_err_reply _) = true
is_error_reply (protocol_err_reply _) = true
is_error_reply (standard_error_reply _) = true
is_error_reply _ = false

-- `string(member)`: a nil slice is the empty string.
abbrev pub string_of : Option Bytes → Bytes
string_of none = []
string_of (some b) = b

-- The reply of a calculation stored under a key; `other` is the outcome for a reply that is neither an
-- error nor a `MultiBulkReply`.
unfoldable pub store_reply : Db → Bytes → Bytes → List Bytes → Outcome → Reply → Outcome × Db
unfolding is_error_reply
store_reply db name dest keys other (multi_bulk_reply args) =
    elim (add_members new_hash_set (map string_of args)) [
      | none ↦ (panic, db)
      | some (s, _) ↦ (
        replied (int_reply (pos (HashSet.len s))),
        add_aof (put_entity db dest (set_data s)).0 (to_cmd_line_with_name name (dest ∷ keys)),
      )
    ]
store_reply db name dest keys other reply =
    (if is_error_reply reply then replied reply else other, db)

unfoldable pub store_outcome : Db → Bytes → Bytes → List Bytes → Outcome → Outcome → Outcome × Db
unfolding store_reply
store_outcome db name dest keys other panic = (panic, db)
store_outcome db name dest keys other (replied reply) = store_reply db name dest keys other reply

-- `execSUnionStore`
unfoldable pub exec_s_union_store : ExecFunc
unfolding store_outcome
exec_s_union_store db (dest ∷ keys) =
    store_outcome db (codes "SUNIONSTORE") dest keys panic (exec_s_union db keys).0
exec_s_union_store db [] = (panic, db)

-- `execSInterStore`
unfoldable pub exec_s_inter_store : ExecFunc
unfolding store_outcome
exec_s_inter_store db (dest ∷ keys) =
    store_outcome db (codes "SINTERSTORE") dest keys (replied empty_multi_bulk_reply)
      (exec_s_inter db keys).0
exec_s_inter_store db [] = (panic, db)

-- `execSDiffStore`
unfoldable pub exec_s_diff_store : ExecFunc
unfolding store_outcome
exec_s_diff_store db (dest ∷ keys) =
    store_outcome db (codes "SDIFFSTORE") dest keys (replied (int_reply (pos 0)))
      (exec_s_diff db keys).0
exec_s_diff_store db [] = (panic, db)

set_type : SetAt → Reply
set_type no_set = null_bulk_reply
set_type other_type = wrong_type_err_reply
set_type (found_set s) =
    if HashSet.is_int_set s then status_reply (codes "intset") else status_reply (codes "hashset")

-- `execSetType`
unfoldable pub exec_set_type : ExecFunc
unfolding set_type
exec_set_type db (key ∷ args) = (replied (set_type (get_as_set db key)), db)
exec_set_type db [] = (panic, db)
