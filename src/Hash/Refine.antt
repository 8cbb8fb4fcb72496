-- ===== src/Hash/Refine.antt =====
-- A hash is a map from fields to values, in either encoding and across the conversion.
use red_go.Base.{
  ℕ, ◌+◌, List, [], ◌∷◌, ◌++◌, Option, none, some, Bytes, length, true, false, if◌then◌else◌,
  eq_bytes, eq_bytes_iff, ◌≡◌, refl, arith, append-nil, ap, sym, ◌∙◌, Option-cases, inl, inr,
}
use red_go.Hash.SwapOut.{index_of_absent, index_of_present, swap_out_lem}
use red_go.GoMap.{GoMap, has, Distinct, lookup, assign, delete}
use red_go.GoMap.Laws.{
  lookup-assign, lookup-delete, length-assign, length-delete, assign-Distinct, delete-Distinct,
}
use red_go.Hash.{
  Hash, Encoding, encoding_listpack, encoding_hash_table, find_entry, get, fill, set_entry, set_in,
  grow, set_field, index_of, swap_out, delete_field, len, exists_field,
}

-- The loops over the listpack are the operations of a map.
find_entry-lookup : (f : Bytes) (l : List (Bytes × Bytes)) → find_entry f l ≡ lookup f l
unfolding find_entry lookup
find_entry-lookup f [] = refl
find_entry-lookup f ((g, v) ∷ l) = ground (arith, find_entry-lookup f l)

set_entry-assign :
    (f v : Bytes) (l : List (Bytes × Bytes))
    → set_entry f v l ≡ (assign f v l, if has (lookup f l) then 0 else 1)
unfolding set_entry assign lookup
set_entry-assign f v [] = refl
set_entry-assign f v ((g, w) ∷ l) = ground (arith, set_entry-assign f v l)

lookup_middle :
    (k f v : Bytes) (m l : List (Bytes × Bytes))
    → lookup k (m ++ (f, v) ∷ l) ≡ none
    → eq_bytes f k ≡ false
unfolding lookup
lookup_middle k f v [] l h = ground arith
lookup_middle k f v ((g, w) ∷ m) l h = lookup_middle k f v m l (ground arith)

assign_fresh :
    (f v : Bytes) (m l : List (Bytes × Bytes))
    → Distinct (m ++ (f, v) ∷ l)
    → assign f v m ++ l ≡ m ++ (f, v) ∷ l
unfolding assign
assign_fresh f v [] l h = refl
assign_fresh f v ((g, w) ∷ m) l (absent, h) = ground (
  arith,
  lookup_middle g f v m l absent,
  eq_bytes_iff f g,
  eq_bytes_iff g f,
  assign_fresh f v m l h,
)

-- Without double keys the loop of the conversion copies the list.
fill-append : (m l : List (Bytes × Bytes)) → Distinct (m ++ l) → fill m l ≡ m ++ l
unfolding fill
fill-append m [] h = sym (append-nil m)
fill-append m ((f, v) ∷ l) h =
    let e = assign_fresh f v m l h in fill-append (assign f v m) l (rw e h) ∙ e

-- The entries of a hash.
abbrev pub view : Hash → GoMap Bytes
view h = elim h.encoding [ encoding_listpack ↦ h.listpack | encoding_hash_table ↦ h.dict ]

-- No field stands twice.
abbrev pub IsValid : Hash → Type 0
IsValid h = Distinct (view h)

get-lookup : (h : Hash) (f : Bytes) → get h f ≡ lookup f (view h)
unfolding get
get-lookup h f = go h.encoding refl
  where
    go : (e : Encoding) → h.encoding ≡ e → get h f ≡ lookup f (view h)
    go encoding_listpack e = rw (e, get, view) (find_entry-lookup f h.listpack)
    go encoding_hash_table e = rw (e, get, view) refl

view-grow : (h : Hash) (f v : Bytes) → IsValid h → view (grow h f v) ≡ view h
unfolding grow
view-grow h f v valid = ground (arith, fill-append [] h.listpack)

view-set_in : (h : Hash) (f v : Bytes) → view (set_in h f v).0 ≡ assign f v (view h)
unfolding set_in
view-set_in h f v = ground (arith, set_entry-assign f v h.listpack)

set_in_result :
    (h : Hash) (f v : Bytes) → (set_in h f v).1 ≡ (if has (lookup f (view h)) then 0 else 1)
unfolding set_in
set_in_result h f v = ground (arith, set_entry-assign f v h.listpack)

-- `Set` assigns in the view, whether it converts the hash first or not.
pub view-set_field :
    (h : Hash) (f v : Bytes) → IsValid h → view (set_field h f v).0 ≡ assign f v (view h)
unfolding set_field
view-set_field h f v valid = view-set_in (grow h f v) f v ∙ ap (assign f v) (view-grow h f v valid)

-- `Set` keeps the fields of the hash distinct, whatever its encoding.
pub set_field-IsValid : (h : Hash) (f v : Bytes) → IsValid h → IsValid (set_field h f v).0
set_field-IsValid h f v valid = rw (view-set_field h f v valid) (assign-Distinct f v (view h) valid)

exists_field-lookup : (h : Hash) (f : Bytes) → exists_field h f ≡ has (lookup f (view h))
unfolding exists_field
exists_field-lookup h f = rw (get-lookup h f)

len-view : (h : Hash) → len h ≡ length (view h)
unfolding len
len-view h = ground arith

set_field_result :
    (h : Hash) (f v : Bytes)
    → IsValid h
    → (set_field h f v).1 ≡ (if has (lookup f (view h)) then 0 else 1)
unfolding set_field
set_field_result h f v valid =
    set_in_result (grow h f v) f v
    ∙ ap (λ m. if has (lookup f m) then 0 else 1) (view-grow h f v valid)

-- After `Set` the field has the value and every other field keeps its own, also when the call
-- converts the listpack to a map; the result is 0 for a field that was there and 1 for a new one,
-- and the length grows by the result.
pub set_field_lem :
    (h : Hash) (f v g : Bytes)
    → IsValid h
    → (get (set_field h f v).0 g ≡ (if eq_bytes f g then some v else get h g))
      × ((set_field h f v).1 ≡ (if exists_field h f then 0 else 1))
      × (len (set_field h f v).0 ≡ len h + (set_field h f v).1)
set_field_lem h f v g valid = (reads, result, size)
  where
    reads : get (set_field h f v).0 g ≡ (if eq_bytes f g then some v else get h g)
    reads =
        rw (get-lookup (set_field h f v).0 g, get-lookup h g, view-set_field h f v valid)
          (lookup-assign f g v (view h))

    result : (set_field h f v).1 ≡ (if exists_field h f then 0 else 1)
    result = rw (exists_field-lookup h f) (set_field_result h f v valid)

    size : len (set_field h f v).0 ≡ len h + (set_field h f v).1
    size =
        rw
          (
            len-view (set_field h f v).0,
            len-view h,
            view-set_field h f v valid,
            result,
            exists_field-lookup h f,
          )
          (ground (arith, length-assign f v (view h)))

-- What is in the map `m'` after a deletion of `f` in `m` with result `n`, read at `g`.
abbrev Deleted : Bytes → Bytes → GoMap Bytes → GoMap Bytes → ℕ → Type 0
Deleted f g m m' n =
    (lookup g m' ≡ (if eq_bytes f g then none else lookup g m))
    × Distinct m'
    × (n ≡ (if has (lookup f m) then 1 else 0))
    × (length m ≡ length m' + n)

Deleted-listpack :
    (f g : Bytes) (l : GoMap Bytes) (o : Option ℕ)
    → Distinct l
    → index_of f l ≡ o
    → Deleted f g l (elim o [ none ↦ l | some i ↦ swap_out i l ]) (elim o [ none ↦ 0 | some _ ↦ 1 ])
Deleted-listpack f g l none h e = ground (arith, eq_bytes_iff f g, index_of_absent f l e)
Deleted-listpack f g l (some i) h e =
    ground (arith, swap_out_lem f g l i h e, index_of_present f l i e)

Deleted-dict :
    (f g : Bytes) (m : GoMap Bytes)
    → Distinct m
    → has (lookup f m) ≡ true
    → Deleted f g m (delete f m) 1
Deleted-dict f g m h e =
    ground (arith, lookup-delete f g m, delete-Distinct f m h, length-delete f m h)

Deleted-view :
    (h : Hash) (f g : Bytes)
    → IsValid h
    → Deleted f g (view h) (view (delete_field h f).0) (delete_field h f).1
unfolding delete_field
Deleted-view h f g valid = go h.encoding refl
  where
    go :
        (e : Encoding)
        → h.encoding ≡ e
        → Deleted f g (view h) (view (delete_field h f).0) (delete_field h f).1
    go encoding_listpack e =
        let l : Distinct h.listpack = rw (e, view) at valid in
        elim (Option-cases (index_of f h.listpack)) [
          | inl absent ↦ ground (arith, Deleted-listpack f g h.listpack none l absent)
          | inr (i, found) ↦ ground (arith, Deleted-listpack f g h.listpack (some i) l found)
        ]
    go encoding_hash_table e =
        let m : Distinct h.dict = rw (e, view) at valid in
        ground (arith, Deleted-dict f g h.dict m, eq_bytes_iff f g)

-- `Delete` keeps the fields of the hash distinct, whatever its encoding.
pub delete_field-IsValid : (h : Hash) (f : Bytes) → IsValid h → IsValid (delete_field h f).0
delete_field-IsValid h f valid = (Deleted-view h f f valid).1

-- After `Delete` the field is gone and every other field keeps its value, though the last entry of
-- a listpack moves; the result is 1 for a field that was there and 0 for another one, and the
-- length falls by the result.
pub delete_field_lem :
    (h : Hash) (f g : Bytes)
    → IsValid h
    → (get (delete_field h f).0 g ≡ (if eq_bytes f g then none else get h g))
      × ((delete_field h f).1 ≡ (if exists_field h f then 1 else 0))
      × (len h ≡ len (delete_field h f).0 + (delete_field h f).1)
delete_field_lem h f g valid =
    let (reads, _, result, size) = Deleted-view h f g valid in
    (
      rw (get-lookup (delete_field h f).0 g, get-lookup h g) reads,
      rw (exists_field-lookup h f) result,
      rw (len-view (delete_field h f).0, len-view h) size,
    )
