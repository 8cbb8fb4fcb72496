-- ===== src/Database/Lists.antt =====
-- database/list.go. A `container/list` is the list of its values, from front to back.
pub mod Index
pub mod Range
pub mod Commands
pub mod Elements
use red_go.Base.{
  ℕ, zero, suc, ◌+◌, ◌-◌, ◌/◌, List, [], ◌∷◌, ◌++◌, Option, none, some, Bytes, Bool, true, false,
  ◌&&◌, ◌||◌, codes, length, ℤ, pos, negsuc, pos_part, neg_part, ltb, leb, sub_ℕ, ◌+ℤ◌, ◌-ℤ◌, ltb_ℤ,
  leb_ℤ, if◌then◌else◌, reverse, get_elem?, set, map,
}
use red_go.Strconv.{parse_int}
use red_go.Reply.{
  Reply, ok_reply, null_bulk_reply, bulk_reply, int_reply, multi_bulk_reply, empty_multi_bulk_reply,
  standard_error_reply, wrong_type_err_reply,
}
use red_go.Database.{
  Db, Entity, CmdLine, list_data, Outcome, replied, panic, ExecFunc, CmdTable, get_entity,
  put_entity, remove, add_aof, to_cmd_line_with_name, read_first_key, write_first_key,
  register_command,
}

-- The results of `getAsList`: no key and a new list, a key of another type, or the list of the key.
pub data ListAt : Type 0 where
  new_list : ListAt
  wrong_type : ListAt
  found_list : List Bytes → ListAt

list_of : Option Entity → ListAt
list_of none = new_list
list_of (some (list_data l)) = found_list l
list_of (some _) = wrong_type

-- `getAsList`
unfoldable pub get_as_list : Db → Bytes → ListAt
unfolding list_of
get_as_list db key = list_of (get_entity db key)

-- The loops of `PushFront` and of `PushBack`
unfoldable pub push_front : List Bytes → List Bytes → List Bytes
push_front l [] = l
push_front l (value ∷ values) = push_front (value ∷ l) values

unfoldable pub push_back : List Bytes → List Bytes → List Bytes
push_back l [] = l
push_back l (value ∷ values) = push_back (l ++ value ∷ []) values

-- The part of LPUSH and RPUSH behind `getAsList`
pushed :
    Bytes → (List Bytes → List Bytes → List Bytes) → Db → Bytes → List Bytes → ListAt → Outcome × Db
pushed name push db key values wrong_type = (replied wrong_type_err_reply, db)
pushed name push db key values new_list =
    let l = push [] values in
    let (db', _) = put_entity db key (list_data l) in
    (replied (int_reply (pos (length l))), add_aof db' (to_cmd_line_with_name name (key ∷ values)))
pushed name push db key values (found_list old) =
    let l = push old values in
    let (db', _) = put_entity db key (list_data l) in
    (replied (int_reply (pos (length l))), add_aof db' (to_cmd_line_with_name name (key ∷ values)))

-- `execLPush`
unfoldable pub exec_l_push : ExecFunc
unfolding pushed
exec_l_push db (key ∷ values) = pushed (codes "LPUSH") push_front db key values (get_as_list db key)
exec_l_push db [] = (panic, db)

-- `execRPush`
unfoldable pub exec_r_push : ExecFunc
unfolding pushed
exec_r_push db (key ∷ values) = pushed (codes "RPUSH") push_back db key values (get_as_list db key)
exec_r_push db [] = (panic, db)

-- An empty list is removed with its key, another one is put back.
put_or_remove : Db → Bytes → List Bytes → Db
put_or_remove db key [] = (remove db key).0
put_or_remove db key (x ∷ l) = (put_entity db key (list_data (x ∷ l))).0

-- The part of LPOP and RPOP behind `getAsList`. The function gives the list from the end that the
-- element is taken from, and it is its own inverse.
popped : Bytes → (List Bytes → List Bytes) → Db → Bytes → List Bytes → ListAt → Outcome × Db
popped name view db key args new_list = (replied null_bulk_reply, db)
popped name view db key args wrong_type = (replied wrong_type_err_reply, db)
popped name view db key args (found_list l) = elim (view l) [
  | [] ↦ (replied null_bulk_reply, db)
  | value ∷ rest ↦ (
    replied (bulk_reply (some value)),
    add_aof (put_or_remove db key (view rest)) (to_cmd_line_with_name name (key ∷ args)),
  )
]

-- `execLPop`
unfoldable pub exec_l_pop : ExecFunc
unfolding popped put_or_remove
exec_l_pop db (key ∷ args) = popped (codes "LPOP") (λ l. l) db key args (get_as_list db key)
exec_l_pop db [] = (panic, db)

-- `execRPop`
unfoldable pub exec_r_pop : ExecFunc
unfolding popped put_or_remove
exec_r_pop db (key ∷ args) = popped (codes "RPOP") reverse db key args (get_as_list db key)
exec_r_pop db [] = (panic, db)

not_an_integer : Reply
not_an_integer = standard_error_reply (codes "value is not an integer or out of range")

-- `if index < 0 { index = size + index }`
unfoldable pub from_end : ℕ → ℤ → ℤ
from_end size index = if ltb_ℤ index (pos 0) then pos size +ℤ index else index

-- The range of LRANGE behind the negative indices: `start` is at least 0, `stop` below the size.
clamp_start : ℕ → ℤ → ℤ
clamp_start size start =
    let start' = from_end size start in if ltb_ℤ start' (pos 0) then pos 0 else start'

clamp_stop : ℕ → ℤ → ℤ
clamp_stop size stop =
    let stop' = from_end size stop in if leb_ℤ (pos size) stop' then pos size -ℤ pos 1 else stop'

-- The loop of LRANGE
range_loop : ℤ → ℤ → ℕ → List Bytes → List Bytes
range_loop start stop index [] = []
range_loop start stop index (e ∷ l) =
    let rest = range_loop start stop (index + 1) l in
    if leb_ℤ start (pos index) && leb_ℤ (pos index) stop
    then e ∷ rest
    else if ltb_ℤ stop (pos index)
    then []
    else rest

unfoldable pub range_reply : ℤ → ℤ → List Bytes → Reply
unfolding range_loop clamp_start clamp_stop from_end
range_reply start stop l =
    let start' = clamp_start (length l) start in
    let stop' = clamp_stop (length l) stop in
    if ltb_ℤ stop' start'
    then empty_multi_bulk_reply
    else multi_bulk_reply (map some (range_loop start' stop' 0 l))

ranged : ℤ → ℤ → ListAt → Reply
unfolding range_reply
ranged start stop new_list = empty_multi_bulk_reply
ranged start stop wrong_type = wrong_type_err_reply
ranged start stop (found_list l) = range_reply start stop l

range_args : Db → Bytes → Option ℤ → Option ℤ → Reply
unfolding ranged not_an_integer
range_args db key none stop = not_an_integer
range_args db key (some start) none = not_an_integer
range_args db key (some start) (some stop) = ranged start stop (get_as_list db key)

-- `execLRange`
unfoldable pub exec_l_range : ExecFunc
unfolding range_args
exec_l_range db (key ∷ start ∷ stop ∷ args) =
    (replied (range_args db key (parse_int start) (parse_int stop)), db)
exec_l_range db args = (panic, db)

length_reply : ListAt → Reply
length_reply new_list = int_reply (pos 0)
length_reply wrong_type = wrong_type_err_reply
length_reply (found_list l) = int_reply (pos (length l))

-- `execLLen`
unfoldable pub exec_l_len : ExecFunc
unfolding length_reply
exec_l_len db (key ∷ args) = (replied (length_reply (get_as_list db key)), db)
exec_l_len db [] = (panic, db)

-- The element of LINDEX: from the front for an index in the first half, else from the back.
unfoldable pub element_at : List Bytes → ℕ → Option Bytes
element_at l index =
    if ltb index (length l / 2)
    then get_elem? l index
    else get_elem? (reverse l) (length l - 1 - index)

-- `element.Value = value` on the element that LSET finds in the same way
unfoldable pub replace_at : List Bytes → ℕ → Bytes → List Bytes
replace_at l index value =
    if ltb index (length l / 2)
    then set l index value
    else reverse (set (reverse l) (length l - 1 - index) value)

-- `index < 0 || index >= size`, behind the negative indices; the index in range
unfoldable pub index_in : ℕ → ℤ → Option ℕ
unfolding from_end
index_in size index = elim (from_end size index) [
  | negsuc n ↦ none
  | pos n ↦ if ltb n size then some n else none
]

-- The walk ends at an element, as `index_in` is in range.
element_reply : Option Bytes → Outcome
element_reply none = panic
element_reply (some value) = replied (bulk_reply (some value))

unfoldable pub index_outcome : List Bytes → ℤ → Outcome
unfolding element_reply
index_outcome l index = elim (index_in (length l) index) [
  | none ↦ replied null_bulk_reply
  | some n ↦ element_reply (element_at l n)
]

indexed : ℤ → ListAt → Outcome
indexed index new_list = replied null_bulk_reply
indexed index wrong_type = replied wrong_type_err_reply
indexed index (found_list l) = index_outcome l index

index_arg : Db → Bytes → Option ℤ → Outcome
unfolding indexed not_an_integer
index_arg db key none = replied not_an_integer
index_arg db key (some index) = indexed index (get_as_list db key)

-- `execLIndex`
unfoldable pub exec_l_index : ExecFunc
unfolding index_arg
exec_l_index db (key ∷ index ∷ args) = (index_arg db key (parse_int index), db)
exec_l_index db args = (panic, db)

set_found : Db → Bytes → ℤ → Bytes → CmdLine → ListAt → Outcome × Db
set_found db key index value cmd new_list =
    (replied (standard_error_reply (codes "no such key")), db)
set_found db key index value cmd wrong_type = (replied wrong_type_err_reply, db)
set_found db key index value cmd (found_list l) = elim (index_in (length l) index) [
  | none ↦ (replied (standard_error_reply (codes "index out of range")), db)
  | some n ↦
      let (db', _) = put_entity db key (list_data (replace_at l n value)) in
      (replied ok_reply, add_aof db' cmd)
]

set_arg : Db → Bytes → Option ℤ → Bytes → CmdLine → Outcome × Db
unfolding set_found not_an_integer
set_arg db key none value cmd = (replied not_an_integer, db)
set_arg db key (some index) value cmd = set_found db key index value cmd (get_as_list db key)

-- `execLSet`
unfoldable pub exec_l_set : ExecFunc
unfolding set_arg
exec_l_set db (key ∷ index ∷ value ∷ args) =
    set_arg db key (parse_int index) value
      (to_cmd_line_with_name (codes "LSET") (key ∷ index ∷ value ∷ args))
exec_l_set db args = (panic, db)

-- `init`
unfoldable pub register_lists : CmdTable → CmdTable
register_lists table = register_command (codes "LSET") exec_l_set write_first_key (pos 4) (
    register_command (codes "LINDEX") exec_l_index read_first_key (pos 3) (
      register_command (codes "LLEN") exec_l_len read_first_key (pos 2) (
        register_command (codes "LRANGE") exec_l_range read_first_key (pos 4) (
          register_command (codes "RPOP") exec_r_pop write_first_key (pos 2) (
            register_command (codes "LPOP") exec_l_pop write_first_key (pos 2) (
              register_command (codes "RPUSH") exec_r_push write_first_key (negsuc 2) (
                register_command (codes "LPUSH") exec_l_push write_first_key (negsuc 2) table)))))))
