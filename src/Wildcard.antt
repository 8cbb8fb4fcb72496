-- ===== src/Wildcard.antt =====
-- lib/wildcard/wildcard.go: the patterns of KEYS, compiled to items, and the table of `IsMatch`.
pub mod Matches
mod Examples
use red_go.Base.{
  ℕ, zero, suc, ◌+◌, ◌-◌, ◌*◌, ◌%◌, List, [], ◌∷◌, ◌++◌, Bytes, Bool, true, false, not, ◌&&◌, ◌||◌,
  ◌==◌, leb, ltb, if◌then◌else◌, codes, ◌≡◌, refl,
}

-- The constants of `typeCode`
pub data TypeCode : Type 0 where
  normal all any set_symbol rang_symbol neg_symbol : TypeCode

-- `item`; the set lists its bytes.
pub record Item : Type 0 where
  pub character : ℕ
  pub set : Bytes
  pub type_code : TypeCode

-- `_, ok := set[c]`, `set[c] = true` and `delete(set, c)`
unfoldable pub has_byte : ℕ → Bytes → Bool
has_byte c [] = false
has_byte c (b ∷ s) = b == c || has_byte c s

add_byte : ℕ → Bytes → Bytes
unfolding has_byte
add_byte c s = if has_byte c s then s else c ∷ s

delete_byte : ℕ → Bytes → Bytes
delete_byte c [] = []
delete_byte c (b ∷ s) = let rest = delete_byte c s in if b == c then rest else b ∷ rest

-- The loop over the set in `contains`, for the least and the greatest byte
min_byte : ℕ → Bytes → ℕ
min_byte m [] = m
min_byte m (k ∷ s) = min_byte (if ltb k m then k else m) s

max_byte : ℕ → Bytes → ℕ
max_byte m [] = m
max_byte m (k ∷ s) = max_byte (if ltb m k then k else m) s

unfoldable pub contains : Item → ℕ → Bool
unfolding has_byte min_byte max_byte
contains i c = elim i.type_code [
  | set_symbol ↦ has_byte c i.set
  | rang_symbol ↦ leb (min_byte 255 i.set) c && leb c (max_byte 0 i.set)
  | neg_symbol ↦ not (has_byte c i.set)
  | _ ↦ not (has_byte c i.set)
]

-- The variables of the loop of `CompilePattern`
pub record Compiler : Type 0 where
  pub items : List Item
  pub escape : Bool
  pub in_set : Bool
  pub set : Bytes

plain_item : TypeCode → Item
plain_item code = record { character = 0; set = []; type_code = code }

push : Compiler → Item → Compiler
push s i = record s { items = s.items ++ i ∷ [] }

literal : ℕ → Item
literal c = record { character = c; set = []; type_code = normal }

-- The end `]` of a set: `-` makes it a range, and `^` a negation.
close_set : Bytes → Item
unfolding has_byte delete_byte
close_set set =
    let ranged = has_byte b'-' set in
    let set' = if ranged then delete_byte b'-' set else set in
    let code = if ranged then rang_symbol else set_symbol in
    if has_byte b'^' set'
    then record { character = 0; set = delete_byte b'^' set'; type_code = neg_symbol }
    else record { character = 0; set = set'; type_code = code }

compile_byte : Compiler → ℕ → Compiler
unfolding plain_item push literal close_set add_byte
compile_byte s c =
    if s.escape
    then record (push s (literal c)) { escape = false }
    else if c == b'*'
    then push s (plain_item all)
    else if c == b'?'
    then push s (plain_item any)
    else if c == b'\\'
    then record s { escape = true }
    else if c == b'['
    then (if s.in_set
        then record s { set = add_byte c s.set }
        else record s { in_set = true; set = [] })
    else if c == b']'
    then (if s.in_set
        then record (push s (close_set s.set)) { in_set = false }
        else push s (literal c))
    else if s.in_set
    then record s { set = add_byte c s.set }
    else push s (literal c)

compile_loop : Compiler → List ℕ → Compiler
compile_loop s [] = s
compile_loop s (c ∷ src) = compile_loop (compile_byte s c) src

-- `for _, v := range src` visits the code points of a text in UTF-8: the code point at its head,
-- and its width. A byte that begins no code point is the code point 0xFFFD, of width 1.
is_continuation : ℕ → ℕ → ℕ → Bool
is_continuation lo hi c = leb lo c && leb c hi

rune_error : ℕ × ℕ
rune_error = (0xFFFD, 1)

-- A lead byte's least and greatest second byte
second_lo : ℕ → ℕ
second_lo c = if c == 0xE0 then 0xA0 else if c == 0xF0 then 0x90 else 0x80

second_hi : ℕ → ℕ
second_hi c = if c == 0xED then 0x9F else if c == 0xF4 then 0x8F else 0xBF

decode_2 : ℕ → Bytes → ℕ × ℕ
unfolding rune_error is_continuation
decode_2 c (d ∷ s) =
    if is_continuation 0x80 0xBF d then ((c - 0xC0) * 64 + (d - 0x80), 2) else rune_error
decode_2 c s = rune_error

decode_3 : ℕ → Bytes → ℕ × ℕ
unfolding rune_error is_continuation second_lo second_hi
decode_3 c (d ∷ e ∷ s) =
    if is_continuation (second_lo c) (second_hi c) d && is_continuation 0x80 0xBF e
    then ((c - 0xE0) * 4096 + (d - 0x80) * 64 + (e - 0x80), 3)
    else rune_error
decode_3 c s = rune_error

decode_4 : ℕ → Bytes → ℕ × ℕ
unfolding rune_error is_continuation second_lo second_hi
decode_4 c (d ∷ e ∷ f ∷ s) =
    if is_continuation (second_lo c) (second_hi c) d
      && is_continuation 0x80 0xBF e
      && is_continuation 0x80 0xBF f
    then ((c - 0xF0) * 262144 + (d - 0x80) * 4096 + (e - 0x80) * 64 + (f - 0x80), 4)
    else rune_error
decode_4 c s = rune_error

decode_rune : ℕ → Bytes → ℕ × ℕ
unfolding rune_error decode_2 decode_3 decode_4
decode_rune c s =
    if ltb c 0x80
    then (c, 1)
    else if ltb c 0xC2
    then rune_error
    else if ltb c 0xE0
    then decode_2 c s
    else if ltb c 0xF0
    then decode_3 c s
    else if ltb c 0xF5
    then decode_4 c s
    else rune_error

-- The code points behind `skip` bytes
runes_from : ℕ → Bytes → List ℕ
runes_from skip [] = []
runes_from (suc skip) (c ∷ s) = runes_from skip s
runes_from zero (c ∷ s) = let (v, width) = decode_rune c s in v ∷ runes_from (width - 1) s

-- `byte(v)` of each code point
truncate : List ℕ → List ℕ
truncate [] = []
truncate (v ∷ vs) = (v % 256) ∷ truncate vs

-- `CompilePattern`
unfoldable pub compile_pattern : Bytes → List Item
unfolding compile_loop compile_byte runes_from decode_rune truncate
compile_pattern src =
    (compile_loop (record { items = []; escape = false; in_set = false; set = [] })
      (truncate (runes_from zero src))).items

unfoldable pub is_all : Item → Bool
is_all i = elim i.type_code [ all ↦ true | _ ↦ false ]

-- The `switch` of `IsMatch`: does the item, which is not `*`, take the byte?
unfoldable pub takes : Item → ℕ → Bool
unfolding contains
takes i c = elim i.type_code [
  | any ↦ true
  | normal ↦ i.character == c
  | all ↦ false
  | _ ↦ contains i c
]

-- `table[i][j]`, from `table[i][j-1]`, `table[i-1][j]` and `table[i-1][j-1]`
unfoldable pub cell : Item → ℕ → Bool → Bool → Bool → Bool
unfolding is_all takes
cell i c left up diagonal = if is_all i then left || up else if diagonal then takes i c else false

-- `table[0]`, from `table[0][j]` on
unfoldable pub first_row : Bool → List Item → List Bool
unfolding is_all
first_row b [] = b ∷ []
first_row b (i ∷ items) = b ∷ first_row (b && is_all i) items

-- `table[i]`, from `table[i][j]` on, given `table[i-1]` from there on
unfoldable pub next_row : ℕ → Bool → List Item → List Bool → List Bool
unfolding cell
next_row c left (i ∷ items) (diagonal ∷ up ∷ row) =
    left ∷ next_row c (cell i c left up diagonal) items (up ∷ row)
next_row c left items row = left ∷ []

unfoldable pub rows : List Item → List Bool → Bytes → List Bool
rows items row [] = row
rows items row (c ∷ key) = rows items (next_row c false items row) key

-- `table[m][n]`
unfoldable pub last_cell : List Bool → Bool
last_cell [] = false
last_cell (b ∷ []) = b
last_cell (b ∷ c ∷ row) = last_cell (c ∷ row)

-- `IsMatch`
unfoldable pub is_match : List Item → Bytes → Bool
unfolding rows first_row next_row last_cell
is_match [] [] = true
is_match [] (c ∷ key) = false
is_match (i ∷ items) key = last_cell (rows (i ∷ items) (first_row true (i ∷ items)) key)
