-- ===== src/IntSet.antt =====
-- datastruct/set/int_set.go: a set of 64-bit integers as an ascending array of little-endian words,
-- whose width grows with the largest value. `none` is a panic: an index or a slice out of range.
pub mod Order
pub mod Edits
pub mod Words
pub mod Search
pub mod Slices
pub mod Update
pub mod Upgrade
mod Examples
use red_go.Base.{
  ℕ, zero, suc, ◌+◌, ◌-◌, ◌*◌, ◌/◌, ◌%◌, ◌^◌, Bool, true, false, List, [], ◌∷◌, ◌++◌, Option, none,
  some, Bytes, length, take, drop, replicate, ltb, leb, ◌||◌, if◌then◌else◌, ◌>>=◌, ℤ, pos, negsuc,
  ltb_ℤ,
}

-- The constants of `encoding`
pub data Encoding : Type 0 where
  enc_int16 enc_int32 enc_int64 : Encoding

-- The bytes of a word: the value of the constant
abbrev pub width : Encoding → ℕ
width enc_int16 = 2
width enc_int32 = 4
width enc_int64 = 8

-- A byte slice: its array from its first byte to the end of its capacity, and its length.
pub record Slice : Type 0 where
  pub array : Bytes
  pub len : ℕ

abbrev pub bytes_of : Slice → Bytes
bytes_of s = take s.len s.array

pub record IntSet : Type 0 where
  pub encoding : Encoding
  pub length : ℕ
  pub contents : Slice

-- `NewIntSet`
abbrev pub new_int_set : IntSet
new_int_set = record { encoding = enc_int16; length = 0; contents = record { array = []; len = 0 } }

-- The low `w` bytes of a number, the least first
unfoldable pub le_bytes : ℕ → ℕ → Bytes
le_bytes zero n = []
le_bytes (suc w) n = (n % 256) ∷ le_bytes w (n / 256)

unfoldable pub le_value : Bytes → ℕ
le_value [] = 0
le_value (b ∷ bs) = b + 256 * le_value bs

-- `2 ^ (8 * w)`
abbrev pub modulus : ℕ → ℕ
modulus zero = 1
modulus (suc w) = 256 * modulus w

-- `uint16(value)`, `uint32(value)` and `uint64(value)`: the low bits of an integer
unfoldable pub to_bits : ℕ → ℤ → ℕ
to_bits w (pos n) = n % modulus w
to_bits w (negsuc n) = modulus w - 1 - n % modulus w

-- `int64(int16(bits))`, and so on: the integer of a word
unfoldable pub from_bits : ℕ → ℕ → ℤ
from_bits w b = if ltb b (modulus w / 2) then pos b else negsuc (modulus w - 1 - b)

-- `PutUint16`, `PutUint32` and `PutUint64`: the bytes that they write
unfoldable pub put_uint : Encoding → ℤ → Bytes
unfolding le_bytes to_bits
put_uint e value = le_bytes (width e) (to_bits (width e) value)

-- `Uint16`, `Uint32` and `Uint64` at the head of some bytes
unfoldable pub read_uint : Encoding → Bytes → Option ℤ
unfolding le_value from_bits
read_uint e bs =
    if leb (width e) (length bs)
    then some (from_bits (width e) (le_value (take (width e) bs)))
    else none

-- `Len`
abbrev pub len : IntSet → ℕ
len s = s.length

-- `getValueAt`, with its offset on 32 bits
unfoldable pub get_value_at : IntSet → ℕ → Option ℤ
unfolding read_uint
get_value_at s index =
    if ltb index s.length
    then read_uint s.encoding (drop ((index * width s.encoding) % 2 ^ 32) (bytes_of s.contents))
    else none

-- `ToSlice`, and the values that `ForEach` hands to a consumer that never stops it: `n` of them,
-- from `index` on
unfoldable pub values_from : IntSet → ℕ → ℕ → Option (List ℤ)
values_from s zero index = some []
values_from s (suc n) index = do
  v ← get_value_at s index
  vs ← values_from s n (index + 1)
  some (v ∷ vs)

unfoldable pub to_slice : IntSet → Option (List ℤ)
unfolding values_from
to_slice s = values_from s s.length 0

-- The loop of `findPosition`, over the indices from `low` to `end - 1`, with fuel for its rounds
unfoldable pub find_loop : ℕ → IntSet → ℤ → ℕ → ℕ → Option ℤ
find_loop zero s value low end = none
find_loop (suc fuel) s value low end = elim (ltb low end) [
  | false ↦ some (negsuc low)
  | true ↦ elim (get_value_at s ((low + end - 1) / 2)) [
    | none ↦ none
    | some mid_value ↦
        let mid = (low + end - 1) / 2 in
        let above = find_loop fuel s value (mid + 1) end in
        let before = find_loop fuel s value low mid in
        if ltb_ℤ mid_value value
        then above
        else if ltb_ℤ value mid_value
        then before
        else some (pos mid)
  ]
]

-- `findPosition`
unfoldable pub find_position : IntSet → ℤ → Option ℤ
unfolding find_loop
find_position s value = find_loop (s.length + 1) s value 0 s.length

-- `copy(a[to:], a[from:end])` where the bytes fit
unfoldable pub copy_within : Bytes → ℕ → ℕ → ℕ → Bytes
copy_within a to from end =
    take to a ++ (take (end - from) (drop from a) ++ drop (to + (end - from)) a)

-- Bytes written at an offset
unfoldable pub write_at : Bytes → ℕ → Bytes → Bytes
write_at a offset bs = take offset a ++ (bs ++ drop (offset + length bs) a)

-- The slice of `insertAt` that is `w` bytes longer: resliced within its capacity, or copied to an
-- array of twice the length
unfoldable pub grow : Slice → ℕ → Slice
grow s w =
    let new_len = s.len + w in
    if ltb (length s.array) new_len
    then record { array = bytes_of s ++ replicate (new_len * 2 - s.len) 0; len = new_len }
    else record s { len = new_len }

-- `insertAt`, where the index is at most the length and the contents have the bytes of the words: its
-- slices are then in range, and `PutUint` has the room that it asks for, so that it does not panic
unfoldable pub insert_at : IntSet → ℕ → ℤ → IntSet
unfolding copy_within write_at grow put_uint
insert_at s index value =
    let w = width s.encoding in
    let old_len = s.contents.len in
    let grown = grow s.contents w in
    let offset = index * w in
    let shifted =
      if ltb index s.length
      then copy_within grown.array (offset + w) offset old_len
      else grown.array in
    record s {
      length = s.length + 1;
      contents = record {
        array = write_at shifted offset (put_uint s.encoding value);
        len = grown.len;
      };
    }

-- `removeAt`, of an index of a word: it is not negative, and the slices are in range
unfoldable pub remove_at : IntSet → ℕ → IntSet
unfolding copy_within
remove_at s index =
    let w = width s.encoding in
    let offset = index * w in
    let end_offset = s.length * w in
    if ltb index s.length
    then record s {
      length = s.length - 1;
      contents = record {
        array = copy_within s.contents.array offset (offset + w) end_offset;
        len = end_offset - w;
      };
    }
    else s

-- `requiredEncoding`
unfoldable pub required_encoding : ℤ → Encoding
required_encoding value =
    if ltb_ℤ value (negsuc (2 ^ 15 - 1)) || ltb_ℤ (pos (2 ^ 15 - 1)) value
    then (if ltb_ℤ value (negsuc (2 ^ 31 - 1)) || ltb_ℤ (pos (2 ^ 31 - 1)) value
        then enc_int64
        else enc_int32)
    else enc_int16

-- The end of `Add`, behind the search
unfoldable pub add_at : IntSet → ℤ → ℤ → IntSet × Bool
unfolding insert_at
add_at s value (pos _) = (s, false)
add_at s value (negsuc n) = (insert_at s n value, true)

-- `Add`, which calls `upgradeEncoding`, which calls `Add`: each is given the other.
unfoldable pub add_with : (IntSet → Encoding → Option IntSet) → IntSet → ℤ → Option (IntSet × Bool)
unfolding required_encoding add_at
add_with upgrade s value = do
  s' ←
      if ltb (width s.encoding) (width (required_encoding value))
      then upgrade s (required_encoding value)
      else some s
  found ← find_position s' value
  some (add_at s' value found)

-- The loop of `upgradeEncoding`
unfoldable pub add_all : (IntSet → ℤ → Option (IntSet × Bool)) → IntSet → List ℤ → Option IntSet
add_all add s [] = some s
add_all add s (v ∷ vs) = do (s', _) ← add s v; add_all add s' vs

-- `upgradeEncoding`, called with a larger encoding
unfoldable pub upgrade_with :
    (IntSet → ℤ → Option (IntSet × Bool)) → IntSet → Encoding → Option IntSet
unfolding add_all
upgrade_with add s new_encoding = do
  old_values ← to_slice s
  add_all add
      (record {
        encoding = new_encoding;
        length = 0;
        contents = record {
          array = replicate (width new_encoding * length old_values) 0;
          len = width new_encoding * length old_values;
        };
      })
      old_values

-- `Add`. The calls of `Add` in `upgradeEncoding` find a wide encoding: they upgrade no further.
unfoldable pub add : IntSet → ℤ → Option (IntSet × Bool)
unfolding add_with upgrade_with
add = add_with (upgrade_with (add_with (λ s e. none)))

-- The end of `Remove`, behind the search
unfoldable pub remove_found : IntSet → ℤ → IntSet × Bool
unfolding remove_at
remove_found s (pos n) = (remove_at s n, true)
remove_found s (negsuc _) = (s, false)

-- `Remove`
unfoldable pub remove : IntSet → ℤ → Option (IntSet × Bool)
unfolding remove_found
remove s value = do found ← find_position s value; some (remove_found s found)

-- `Contains`
unfoldable pub contains : IntSet → ℤ → Option Bool
contains s value = do
  found ← find_position s value
  some (elim found [ pos _ ↦ true | negsuc _ ↦ false ])
