-- ===== src/Hash.antt =====
-- datastruct/hash/hash.go: a hash of fields, kept as a list of pairs while it is small and as a map
-- after that.
pub mod Refine
mod SwapOut
mod Examples
use red_go.Base.{
  ℕ, zero, suc, ◌+◌, ◌-◌, List, [], ◌∷◌, ◌++◌, Option, none, some, Bytes, length, get_elem?, set,
  take, Bool, true, false, ◌||◌, ◌==◌, leb, ltb, if◌then◌else◌, eq_bytes, map,
}
use red_go.GoMap
use red_go.GoMap.{GoMap, has}

abbrev pub hash_max_listpack_entries : ℕ
hash_max_listpack_entries = 512

abbrev pub hash_max_listpack_value : ℕ
hash_max_listpack_value = 64

pub data Encoding : Type 0 where
  encoding_listpack encoding_hash_table : Encoding

pub record Hash : Type 0 where
  pub encoding : Encoding
  pub listpack : List (Bytes × Bytes)
  pub dict : GoMap Bytes

-- `MakeHash`
abbrev pub make_hash : Hash
make_hash = record { encoding = encoding_listpack; listpack = []; dict = [] }

-- The loop of `Get` over the listpack
find_entry : Bytes → List (Bytes × Bytes) → Option Bytes
find_entry field [] = none
find_entry field ((f, v) ∷ l) = if eq_bytes f field then some v else find_entry field l

-- `Get`
unfoldable pub get : Hash → Bytes → Option Bytes
unfolding find_entry
get h field = elim h.encoding [
  | encoding_listpack ↦ find_entry field h.listpack
  | encoding_hash_table ↦ GoMap.lookup field h.dict
]

-- The loop of `convertToHashTable`
fill : GoMap Bytes → List (Bytes × Bytes) → GoMap Bytes
fill m [] = m
fill m ((f, v) ∷ l) = fill (GoMap.assign f v m) l

-- `convertToHashTable`
unfoldable pub convert_to_hash_table : Hash → Hash
unfolding fill
convert_to_hash_table h = elim h.encoding [
  | encoding_hash_table ↦ h
  | encoding_listpack ↦ record {
    encoding = encoding_hash_table;
    listpack = [];
    dict = fill [] h.listpack;
  }
]

-- The loop of `Set` over the listpack, and the `append` behind it: the new list and the result
set_entry : Bytes → Bytes → List (Bytes × Bytes) → List (Bytes × Bytes) × ℕ
set_entry field value [] = ((field, value) ∷ [], 1)
set_entry field value ((f, v) ∷ l) =
    let (rest, n) = set_entry field value l in
    if eq_bytes f field then ((f, value) ∷ l, 0) else ((f, v) ∷ rest, n)

-- The first test of `Set`
outgrows : Hash → Bytes → Bytes → Bool
outgrows h field value =
    leb hash_max_listpack_entries (length h.listpack)
    || ltb hash_max_listpack_value (length field)
    || ltb hash_max_listpack_value (length value)

-- `Set`, behind the conversion
set_in : Hash → Bytes → Bytes → Hash × ℕ
unfolding set_entry
set_in h field value = elim h.encoding [
  | encoding_listpack ↦
      let (l, n) = set_entry field value h.listpack in (record h { listpack = l }, n)
  | encoding_hash_table ↦ (
    record h { dict = GoMap.assign field value h.dict },
    if has (GoMap.lookup field h.dict) then 0 else 1,
  )
]

grow : Hash → Bytes → Bytes → Hash
unfolding outgrows convert_to_hash_table
grow h field value = elim h.encoding [
  | encoding_listpack ↦ if outgrows h field value then convert_to_hash_table h else h
  | encoding_hash_table ↦ h
]

-- `Set`
unfoldable pub set_field : Hash → Bytes → Bytes → Hash × ℕ
unfolding grow set_in
set_field h field value = set_in (grow h field value) field value

-- The index of the loop of `Delete` at its `break`
pub index_of : Bytes → List (Bytes × Bytes) → Option ℕ
index_of field [] = none
index_of field ((f, v) ∷ l) = elim (eq_bytes f field) [
  | true ↦ some 0
  | false ↦ elim (index_of field l) [ none ↦ none | some i ↦ some (suc i) ]
]

-- `listpack[i] = listpack[lastIndex]; listpack = listpack[:lastIndex]`
pub swap_out : {A : Type 0} → ℕ → List A → List A
swap_out i l = elim (get_elem? l (length l - 1)) [
  | none ↦ l
  | some e ↦ take (length l - 1) (set l i e)
]

-- `Delete`
unfoldable pub delete_field : Hash → Bytes → Hash × ℕ
unfolding index_of swap_out
delete_field h field = elim h.encoding [
  | encoding_listpack ↦ elim (index_of field h.listpack) [
    | none ↦ (h, 0)
    | some i ↦ (record h { listpack = swap_out i h.listpack }, 1)
  ]
  | encoding_hash_table ↦
      if has (GoMap.lookup field h.dict)
      then (record h { dict = GoMap.delete field h.dict }, 1)
      else (h, 0)
]

-- `Len`
unfoldable pub len : Hash → ℕ
len h = elim h.encoding [
  | encoding_listpack ↦ length h.listpack
  | encoding_hash_table ↦ length h.dict
]

-- `GetAll`
unfoldable pub get_all : Hash → GoMap Bytes
unfolding fill
get_all h = elim h.encoding [
  | encoding_listpack ↦ fill [] h.listpack
  | encoding_hash_table ↦ fill [] h.dict
]

-- `Fields`
unfoldable pub fields : Hash → List Bytes
fields h = elim h.encoding [
  | encoding_listpack ↦ map (λ e. e.0) h.listpack
  | encoding_hash_table ↦ GoMap.keys h.dict
]

-- `Values`
unfoldable pub values : Hash → List Bytes
values h = elim h.encoding [
  | encoding_listpack ↦ map (λ e. e.1) h.listpack
  | encoding_hash_table ↦ GoMap.values h.dict
]

-- `Exists`
unfoldable pub exists_field : Hash → Bytes → Bool
unfolding get
exists_field h field = has (get h field)

-- `Encoding`
unfoldable pub encoding_code : Hash → ℕ
encoding_code h = elim h.encoding [ encoding_listpack ↦ 0 | encoding_hash_table ↦ 1 ]

-- `Clear`
unfoldable pub clear : Hash → Hash
clear h = record { encoding = encoding_listpack; listpack = []; dict = [] }
