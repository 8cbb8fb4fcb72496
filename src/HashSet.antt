-- ===== src/HashSet.antt =====
-- datastruct/set/hash_set.go and set.go: a set of strings, kept as an integer set while every member
-- is an integer and as a map after that. `none` is a panic of the integer set.
pub mod Numbers
pub mod Keys
pub mod Refine
pub mod Edits
pub mod Members
mod Examples
use red_go.Base.{
  ℕ, zero, suc, ◌+◌, List, [], ◌∷◌, Option, none, some, Bytes, length, get_elem?, take, Bool, true,
  false, ltb, leb, ◌==◌, ◌||◌, if◌then◌else◌, ◌>>=◌, map, ℤ, pos, negsuc,
}
use red_go.GoMap
use red_go.GoMap.{GoMap, has}
use red_go.IntSet
use red_go.IntSet.{IntSet, new_int_set}
use red_go.Strconv.{parse_int, format_int}

abbrev pub set_max_intset_entries : ℕ
set_max_intset_entries = 512

-- `struct{}`
abbrev pub EmptyStruct : Type 0
EmptyStruct = Unit

pub record HashSet : Type 0 where
  pub dict : GoMap EmptyStruct
  pub intset : IntSet
  pub is_intset : Bool

-- `NewHashSet`
abbrev pub new_hash_set : HashSet
new_hash_set = record { dict = []; intset = new_int_set; is_intset = true }

-- The writes of `convertToHashTable`
fill : GoMap EmptyStruct → List ℤ → GoMap EmptyStruct
fill m [] = m
fill m (v ∷ vs) = fill (GoMap.assign (format_int v) tt m) vs

-- `convertToHashTable`
unfoldable pub convert_to_hash_table : HashSet → Option HashSet
unfolding fill
convert_to_hash_table s = elim s.is_intset [
  | false ↦ some s
  | true ↦ do
    vs ← IntSet.to_slice s.intset
    some (record s { dict = fill s.dict vs; is_intset = false })
]

-- The end of `Add`, on the map
unfoldable pub add_to_dict : HashSet → Bytes → HashSet × ℕ
add_to_dict s member =
    if has (GoMap.lookup member s.dict)
    then (s, 0)
    else (record s { dict = GoMap.assign member tt s.dict }, 1)

-- The branch of `Add` on an integer, behind the addition to the integer set
add_counted : HashSet → Bool → Option (HashSet × ℕ)
unfolding convert_to_hash_table
add_counted s false = some (s, 0)
add_counted s true =
    if ltb set_max_intset_entries (IntSet.len s.intset)
    then (do s' ← convert_to_hash_table s; some (s', 1))
    else some (s, 1)

-- `Add`
unfoldable pub add : HashSet → Bytes → Option (HashSet × ℕ)
unfolding add_to_dict add_counted convert_to_hash_table
add s member = elim s.is_intset [
  | false ↦ some (add_to_dict s member)
  | true ↦ elim (parse_int member) [
    | some val ↦ do (is, ok) ← IntSet.add s.intset val; add_counted (record s { intset = is }) ok
    | none ↦ do s' ← convert_to_hash_table s; some (add_to_dict s' member)
  ]
]

-- `Contains`
unfoldable pub contains : HashSet → Bytes → Option Bool
contains s member = elim s.is_intset [
  | false ↦ some (has (GoMap.lookup member s.dict))
  | true ↦ elim (parse_int member) [ some val ↦ IntSet.contains s.intset val | none ↦ some false ]
]

-- `Len`
unfoldable pub len : HashSet → ℕ
len s = if s.is_intset then IntSet.len s.intset else length s.dict

-- `Members`, and what `ForEach` hands to a consumer that never stops it
unfoldable pub members : HashSet → Option (List Bytes)
members s = elim s.is_intset [
  | false ↦ some (GoMap.keys s.dict)
  | true ↦ do vs ← IntSet.to_slice s.intset; some (map format_int vs)
]

-- The end of `Remove`, on the map
unfoldable pub remove_from_dict : HashSet → Bytes → HashSet × ℕ
remove_from_dict s member =
    if has (GoMap.lookup member s.dict)
    then (record s { dict = GoMap.delete member s.dict }, 1)
    else (s, 0)

-- `Remove`
unfoldable pub remove : HashSet → Bytes → Option (HashSet × ℕ)
unfolding remove_from_dict
remove s member = elim s.is_intset [
  | false ↦ some (remove_from_dict s member)
  | true ↦ elim (parse_int member) [
    | some val ↦ do
      (is, ok) ← IntSet.remove s.intset val
      some (record s { intset = is }, if ok then 1 else 0)
    | none ↦ some (remove_from_dict s member)
  ]
]

-- `IsIntSet`
abbrev pub is_int_set : HashSet → Bool
is_int_set s = s.is_intset

-- The generator of `math/rand` that a call makes from the time: the order that `Shuffle` leaves, and
-- the numbers that `Intn` draws, by the round.
pub record Random : Type 0 where
  pub shuffle : List Bytes → List Bytes
  pub intn : ℕ → ℕ → ℕ

-- `RandomDistinctMembers`
unfoldable pub random_distinct_members : Random → HashSet → ℤ → Option (List Bytes)
unfolding len members
random_distinct_members r s (negsuc n) = some []
random_distinct_members r s (pos count) =
    if count == 0 || len s == 0
    then some []
    else if leb (len s) count
    then members s
    else (do ms ← members s; some (take count (r.shuffle ms)))

-- The loop of `RandomMembers`, `n` rounds from round `i` on
draw : Random → List Bytes → ℕ → ℕ → ℕ → Option (List Bytes)
draw r ms size zero i = some []
draw r ms size (suc n) i = do
  m ← get_elem? ms (r.intn i size)
  rest ← draw r ms size n (i + 1)
  some (m ∷ rest)

-- `RandomMembers`
unfoldable pub random_members : Random → HashSet → ℤ → Option (List Bytes)
unfolding len members draw
random_members r s (negsuc n) = some []
random_members r s (pos count) =
    if count == 0 || len s == 0 then some [] else (do ms ← members s; draw r ms (len s) count 0)
