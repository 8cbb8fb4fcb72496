-- ===== src/Database/Sets/Draws.antt =====
-- database/set.go: SPOP and SRANDMEMBER, over the generator that the call makes.
use red_go.Base.{
  ℕ, ◌+◌, ◌-◌, ◌^◌, List, [], ◌∷◌, Option, none, some, Bytes, Bool, ◌||◌, codes, length, ℤ, pos,
  negsuc, ltb, ◌==◌, if◌then◌else◌,
}
use red_go.Strconv.{parse_int, itoa}
use red_go.HashSet
use red_go.HashSet.{HashSet, Random, random_distinct_members, random_members}
use red_go.Reply.{Reply, null_bulk_reply, bulk_reply, wrong_type_err_reply, standard_error_reply}
use red_go.Database.{Db, Outcome, replied, panic, ExecFunc, add_aof, to_cmd_line_with_name}
use red_go.Database.Sets.{
  SetAt, no_set, other_type, found_set, get_as_set, bulks, remove_members, put_or_remove_set,
}

unfoldable pub out_of_range : Reply
out_of_range = standard_error_reply (codes "ERR value is out of range, must be positive")

-- The count of SPOP: one without an argument; `none` is the error reply.
unfoldable pub pop_count : List Bytes → Option ℕ
pop_count [] = some 1
pop_count (arg ∷ args) = elim (parse_int arg) [
  | some (pos n) ↦ some n
  | some (negsuc _) ↦ none
  | none ↦ none
]

-- The reply of SPOP: one member is a bulk.
unfoldable pub pop_reply : ℕ → List Bytes → Outcome
unfolding bulks
pop_reply count [] = if count == 1 then panic else replied (bulks [])
pop_reply count (m ∷ ms) =
    if count == 1 then replied (bulk_reply (some m)) else replied (bulks (m ∷ ms))

-- The removal and the reply of SPOP
unfoldable pub popped : Db → Bytes → HashSet → ℕ → List Bytes → Outcome × Db
unfolding put_or_remove_set pop_reply
popped db key s count ms = elim (remove_members s ms) [
  | none ↦ (panic, db)
  | some (s', _) ↦ (
    pop_reply count ms,
    add_aof (put_or_remove_set db key s')
        (to_cmd_line_with_name (codes "SPOP") (key ∷ itoa count ∷ [])),
  )
]

-- SPOP on a set that is not empty, of at least one member
unfoldable pub pop_some : Random → Db → Bytes → HashSet → ℕ → Outcome × Db
unfolding popped
pop_some r db key s count =
    let size = HashSet.len s in
    let count' = if ltb size count then size else count in
    elim (random_distinct_members r s (pos count')) [
      | none ↦ (panic, db)
      | some ms ↦ popped db key s count' ms
    ]

unfoldable pub pop_in : Random → Db → Bytes → ℕ → SetAt → Outcome × Db
unfolding bulks pop_some
pop_in r db key count no_set = (replied null_bulk_reply, db)
pop_in r db key count other_type = (replied wrong_type_err_reply, db)
pop_in r db key count (found_set s) =
    if HashSet.len s == 0
    then (replied null_bulk_reply, db)
    else if count == 0
    then (replied (bulks []), db)
    else pop_some r db key s count

-- `execSPop`
unfoldable pub exec_s_pop : Random → ExecFunc
unfolding pop_count out_of_range pop_in
exec_s_pop r db (key ∷ args) = elim (pop_count args) [
  | none ↦ (replied out_of_range, db)
  | some count ↦ pop_in r db key count (get_as_set db key)
]
exec_s_pop r db [] = (panic, db)

-- The count of SRANDMEMBER
random_count : List Bytes → Option ℤ
random_count [] = some (pos 1)
random_count (arg ∷ args) = parse_int arg

-- `count = -count` of a negative count, on 64 bits: the least one stays negative.
abbrev opposite : ℕ → ℤ
opposite n = if n == 2 ^ 63 - 1 then negsuc n else pos (n + 1)

pick : Random → HashSet → ℤ → Option (List Bytes)
pick r s (pos n) = random_distinct_members r s (pos n)
pick r s (negsuc n) = random_members r s (opposite n)

abbrev magnitude_is_one : ℤ → Bool
magnitude_is_one (pos n) = n == 1
magnitude_is_one (negsuc n) = n == 0

-- The reply of SRANDMEMBER: `alone` without a count
random_reply : Bool → ℤ → List Bytes → Outcome
unfolding bulks
random_reply alone count [] = if alone then panic else replied (bulks [])
random_reply alone count (m ∷ ms) =
    if alone || magnitude_is_one count
    then replied (bulk_reply (some m))
    else replied (bulks (m ∷ ms))

random_in : Random → List Bytes → HashSet → Outcome
unfolding random_count pick random_reply
random_in r args s = elim (random_count args) [
  | none ↦ replied (standard_error_reply (codes "ERR value is not an integer"))
  | some count ↦ elim (pick r s count) [
    | none ↦ panic
    | some ms ↦ random_reply (length args == 0) count ms
  ]
]

random_at : Random → List Bytes → SetAt → Outcome
unfolding random_in
random_at r args no_set = replied null_bulk_reply
random_at r args other_type = replied wrong_type_err_reply
random_at r args (found_set s) =
    if HashSet.len s == 0 then replied null_bulk_reply else random_in r args s

-- `execSRandMember`
unfoldable pub exec_s_rand_member : Random → ExecFunc
unfolding random_at
exec_s_rand_member r db (key ∷ args) = (random_at r args (get_as_set db key), db)
exec_s_rand_member r db [] = (panic, db)
