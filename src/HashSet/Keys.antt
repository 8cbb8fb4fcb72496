-- ===== src/HashSet/Keys.antt =====
-- The map of a set as the list of its keys, and `convertToHashTable`.
use red_go.Base.{
  suc, ◌+◌, ◌||◌, true, false, ◌≡◌, refl, arith, ap, ◌∙◌, sym, subst, List, [], ◌∷◌, ◌++◌, some,
  Bytes, ℤ, All, eq_bytes, eq_bytes_iff, if◌then◌else◌, length, append_assoc, append-nil,
}
use red_go.GoMap.{GoMap, has, keys, lookup, assign, delete}
use red_go.IntSet.{enc_int64}
use red_go.IntSet.Words.{Fits}
use red_go.IntSet.Order.{IsAscending}
use red_go.IntSet.Search.{Holds, to_slice_lem}
use red_go.IntSet.Upgrade.{IsAscending-before, has_int_before}
use red_go.Strconv.{format_int}
use red_go.HashSet.{EmptyStruct, HashSet, fill, convert_to_hash_table}
use red_go.HashSet.Numbers.{elem, IsUnique, prints, elem-prints}

pub has-lookup : (m : Bytes) (d : GoMap EmptyStruct) → has (lookup m d) ≡ elem m (keys d)
unfolding lookup
has-lookup m [] = refl
has-lookup m ((k, v) ∷ d) = ground (arith, has-lookup m d)

pub keys-assign :
    (m : Bytes) (d : GoMap EmptyStruct)
    → elem m (keys d) ≡ false
    → keys (assign m tt d) ≡ keys d ++ m ∷ []
unfolding assign
keys-assign m [] e = refl
keys-assign m ((k, v) ∷ d) e = ground (arith, keys-assign m d)

pub elem-append : (m : Bytes) (ms ns : List Bytes) → elem m (ms ++ ns) ≡ (elem m ms || elem m ns)
elem-append m [] ns = refl
elem-append m (k ∷ ms) ns = ground (arith, elem-append m ms ns)

pub append-IsUnique :
    (m : Bytes) (ms : List Bytes) → IsUnique ms → elem m ms ≡ false → IsUnique (ms ++ m ∷ [])
append-IsUnique m [] u e = (refl, tt)
append-IsUnique m (k ∷ ms) (fresh, u) e =
    ground
      (arith, append-IsUnique m ms u, elem-append k ms (m ∷ []), eq_bytes_iff m k, eq_bytes_iff k m)

pub elem-delete :
    (k m : Bytes) (d : GoMap EmptyStruct)
    → elem m (keys (delete k d)) ≡ (if eq_bytes k m then false else elem m (keys d))
unfolding delete
elem-delete k m [] = ground arith
elem-delete k m ((j, v) ∷ d) =
    ground (arith, eq_bytes_iff k m, eq_bytes_iff j k, eq_bytes_iff j m, elem-delete k m d)

pub delete-IsUnique :
    (k : Bytes) (d : GoMap EmptyStruct) → IsUnique (keys d) → IsUnique (keys (delete k d))
unfolding delete
delete-IsUnique k [] u = tt
delete-IsUnique k ((j, v) ∷ d) (fresh, u) =
    ground (arith, delete-IsUnique k d u, elem-delete k j d, eq_bytes_iff k j, eq_bytes_iff j k)

delete_fresh : (k : Bytes) (d : GoMap EmptyStruct) → elem k (keys d) ≡ false → delete k d ≡ d
unfolding delete
delete_fresh k [] e = refl
delete_fresh k ((j, v) ∷ d) e = ground (arith, delete_fresh k d)

pub length-keys-delete :
    (k : Bytes) (d : GoMap EmptyStruct)
    → IsUnique (keys d)
    → elem k (keys d) ≡ true
    → length (keys d) ≡ length (keys (delete k d)) + 1
unfolding delete
length-keys-delete k [] u e = absurd (cc)
length-keys-delete k ((j, v) ∷ d) (fresh, u) e =
    ground (arith, length-keys-delete k d u, delete_fresh j d fresh, eq_bytes_iff j k)

pub length-keys : (d : GoMap EmptyStruct) → length (keys d) ≡ length d
length-keys [] = refl
length-keys (e ∷ d) = ap suc (length-keys d)

pub All-keys-delete :
    (P : Bytes → Type 0) (k : Bytes) (d : GoMap EmptyStruct)
    → All P (keys d)
    → All P (keys (delete k d))
unfolding delete
All-keys-delete P k [] h = h
All-keys-delete P k ((j, v) ∷ d) (hj, h) =
    elim (eq_bytes j k) as (λ b. All P (keys (if b then delete k d else (j, v) ∷ delete k d))) [
      | true ↦ All-keys-delete P k d h
      | false ↦ (hj, All-keys-delete P k d h)
    ]

pub All-append_last :
    {A : Type 0} (P : A → Type 0) (x : A) (xs : List A) → All P xs → P x → All P (xs ++ x ∷ [])
All-append_last P x [] hs h = (h, tt)
All-append_last P x (y ∷ xs) (hy, hs) h = (hy, All-append_last P x xs hs h)

prints-append : (vs ws : List ℤ) → prints (vs ++ ws) ≡ prints vs ++ prints ws
prints-append [] ws = refl
prints-append (v ∷ vs) ws = ap (◌∷◌ (format_int v)) (prints-append vs ws)

-- The writes of the conversion put each integer behind the others.
keys-fill :
    (d : GoMap EmptyStruct) (done vs : List ℤ)
    → keys d ≡ prints done
    → IsAscending (done ++ vs)
    → All (Fits enc_int64) done
    → All (Fits enc_int64) vs
    → keys (fill d vs) ≡ prints (done ++ vs)
unfolding fill
keys-fill d done [] e ascending hd hv = e ∙ ap prints (sym (append-nil done))
keys-fill d done (v ∷ vs) e ascending hd (h, hv) =
    let grouped = append_assoc done (v ∷ []) vs in
    let fresh : elem (format_int v) (keys d) ≡ false =
      ap (elem (format_int v)) e
      ∙ elem-prints v done h hd
      ∙ has_int_before v done (IsAscending-before done vs v ascending) in
    keys-fill (assign (format_int v) tt d) (done ++ v ∷ []) vs
      (keys-assign (format_int v) d fresh
        ∙ ap (λ ms. ms ++ format_int v ∷ []) e
        ∙ sym (prints-append done (v ∷ [])))
      (subst IsAscending (sym grouped) ascending) (All-append_last (Fits enc_int64) v done hd h) hv
    ∙ ap prints grouped

-- The conversion of an integer set keeps its members, in their order.
pub convert_lem :
    (s : HashSet) (vs : List ℤ)
    → s.is_intset ≡ true
    → s.dict ≡ []
    → Holds s.intset vs
    → All (Fits enc_int64) vs
    → (s' : HashSet) × (convert_to_hash_table s ≡ some s')
      × (s'.is_intset ≡ false)
      × (keys s'.dict ≡ prints vs)
unfolding convert_to_hash_table
convert_lem s vs small empty holds hs =
    let (_, ascending, _) = holds in
    (
      record s { dict = fill s.dict vs; is_intset = false },
      rw (small, to_slice_lem s.intset vs holds) refl,
      refl,
      keys-fill s.dict [] vs (ap keys empty) ascending tt hs,
    )
