-- ===== src/HashSet/Edits.antt =====
-- `Add` and `Remove` as an addition to the members and a removal from them.
use red_go.Base.{
  ℕ, ◌+◌, ◌||◌, true, false, ◌≡◌, refl, arith, ap, ◌∙◌, sym, subst, List, [], ◌∷◌, ◌++◌, Bytes, ℤ,
  All, eq_bytes, eq_bytes_iff, if◌then◌else◌, Bool-cases, inl, inr, length, length-append,
}
use red_go.GoMap.{has, keys, lookup, assign, delete}
use red_go.IntSet.{enc_int64}
use red_go.IntSet.Words.{Fits}
use red_go.IntSet.Order.{IsAscending, has_int, insert_int, remove_int}
use red_go.IntSet.Edits.{length-insert_int, length-remove_int}
use red_go.Strconv.{format_int}
use red_go.HashSet.{HashSet, add_to_dict, remove_from_dict}
use red_go.HashSet.Numbers.{
  IsCanonical, elem, IsUnique, prints, elem-prints-insert_int, elem-prints-remove_int,
  length-prints, prints-IsUnique, prints-IsCanonical,
}
use red_go.HashSet.Keys.{
  has-lookup, keys-assign, elem-append, append-IsUnique, elem-delete, delete-IsUnique,
  length-keys-delete, All-append_last, All-keys-delete,
}
use red_go.HashSet.Refine.{IsSmall, Represents}

-- How many members an addition adds, and a removal removes
abbrev pub news : Bytes → List Bytes → ℕ
news m ms = if elem m ms then 0 else 1

abbrev pub olds : Bytes → List Bytes → ℕ
olds m ms = if elem m ms then 1 else 0

-- The members with `m`
abbrev pub IsWith : Bytes → List Bytes → List Bytes → Type 0
IsWith m ms ms' =
    (length ms' ≡ length ms + news m ms) × ((j : Bytes) → elem j ms' ≡ (eq_bytes m j || elem j ms))

-- The members without `m`
abbrev pub IsWithout : Bytes → List Bytes → List Bytes → Type 0
IsWithout m ms ms' =
    (length ms ≡ length ms' + olds m ms)
    × ((j : Bytes) → elem j ms' ≡ (if eq_bytes m j then false else elem j ms))

pub present_IsWith : (m : Bytes) (ms : List Bytes) → elem m ms ≡ true → IsWith m ms ms
present_IsWith m ms e = (rw e (omega arith), λ j. ground (arith, eq_bytes_iff m j))

pub absent_IsWithout : (m : Bytes) (ms : List Bytes) → elem m ms ≡ false → IsWithout m ms ms
absent_IsWithout m ms e = (rw e (omega arith), λ j. ground (arith, eq_bytes_iff m j))

pub add_to_dict_lem :
    (s : HashSet) (ms : List Bytes) (m : Bytes)
    → s.is_intset ≡ false
    → ms ≡ keys s.dict
    → All IsCanonical ms
    → IsUnique ms
    → IsCanonical m
    → (s' : HashSet) × (ms' : List Bytes) × (add_to_dict s m ≡ (s', news m ms))
      × Represents s' ms'
      × IsWith m ms ms'
unfolding add_to_dict
add_to_dict_lem s ms m large e all unique canonical =
    let found : has (lookup m s.dict) ≡ elem m ms = has-lookup m s.dict ∙ ap (elem m) (sym e) in
    elim (Bool-cases (elem m ms)) [
      | inl old ↦
          (s, ms, rw (found, old) refl, (all, unique, inr (large, e)), present_IsWith m ms old)
      | inr new ↦
          let s' = record s { dict = assign m tt s.dict } in
          let keys' : ms ++ m ∷ [] ≡ keys s'.dict =
            ap (λ ns. ns ++ m ∷ []) e ∙ sym (keys-assign m s.dict (ap (elem m) (sym e) ∙ new)) in
          (
            s',
            ms ++ m ∷ [],
            rw (found, new) refl,
            (
              All-append_last IsCanonical m ms all canonical,
              append-IsUnique m ms unique new,
              inr (large, keys'),
            ),
            (rw new (length-append ms (m ∷ [])), λ j. ground (arith, elem-append j ms (m ∷ []))),
          )
    ]

pub remove_from_dict_lem :
    (s : HashSet) (ms : List Bytes) (m : Bytes)
    → s.is_intset ≡ false
    → ms ≡ keys s.dict
    → All IsCanonical ms
    → IsUnique ms
    → (s' : HashSet) × (ms' : List Bytes) × (remove_from_dict s m ≡ (s', olds m ms))
      × Represents s' ms'
      × IsWithout m ms ms'
unfolding remove_from_dict
remove_from_dict_lem s ms m large e all unique =
    let found : has (lookup m s.dict) ≡ elem m ms = has-lookup m s.dict ∙ ap (elem m) (sym e) in
    elim (Bool-cases (elem m ms)) [
      | inr new ↦
          (s, ms, rw (found, new) refl, (all, unique, inr (large, e)), absent_IsWithout m ms new)
      | inl old ↦
          let s' = record s { dict = delete m s.dict } in
          let unique' = subst IsUnique e unique in
          (
            s',
            keys s'.dict,
            rw (found, old) refl,
            (
              All-keys-delete IsCanonical m s.dict (subst (All IsCanonical) e all),
              delete-IsUnique m s.dict unique',
              inr (large, refl),
            ),
            (
              rw old
                  (ap length e ∙ length-keys-delete m s.dict unique' (ap (elem m) (sym e) ∙ old)),
              λ j.
                  elem-delete m j s.dict
                  ∙ ap (λ b. if eq_bytes m j then false else b) (ap (elem j) (sym e)),
            ),
          )
    ]

-- The members of an integer set that holds these values
pub small_Represents : (s : HashSet) (vs : List ℤ) → IsSmall s vs → Represents s (prints vs)
small_Represents s vs small =
    let (_, _, (_, ascending, _), hs, _) = small in
    (prints-IsCanonical vs hs, prints-IsUnique vs ascending hs, inl (vs, small, refl))

pub insert_IsWith :
    (m : Bytes) (v : ℤ) (vs : List ℤ)
    → format_int v ≡ m
    → elem m (prints vs) ≡ false
    → IsWith m (prints vs) (prints (insert_int v vs))
insert_IsWith m v vs print new = (
  rw new (
      length-prints (insert_int v vs)
      ∙ length-insert_int v vs
      ∙ ap (λ n. n + 1) (sym (length-prints vs))),
  λ j. elem-prints-insert_int v vs j ∙ ap (λ k. eq_bytes k j || elem j (prints vs)) print,
)

pub remove_IsWithout :
    (m : Bytes) (v : ℤ) (vs : List ℤ)
    → format_int v ≡ m
    → Fits enc_int64 v
    → IsAscending vs
    → All (Fits enc_int64) vs
    → has_int v vs ≡ true
    → elem m (prints vs) ≡ true
    → IsWithout m (prints vs) (prints (remove_int v vs))
remove_IsWithout m v vs print fit ascending hs old found = (
  rw found (
      length-prints vs
      ∙ length-remove_int v vs old
      ∙ ap (λ n. n + 1) (sym (length-prints (remove_int v vs)))),
  λ j.
      elem-prints-remove_int v vs j fit ascending hs
      ∙ ap (λ k. if eq_bytes k j then false else elem j (prints vs)) print,
)
