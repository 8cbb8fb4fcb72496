-- ===== src/HashSet/Refine.antt =====
-- The set behaves as a set of its members, in both of its representations.
use red_go.Base.{
  ◌≤◌, ◌⊎◌, true, false, ◌≡◌, refl, arith, ap, ◌∙◌, sym, List, [], some, Bytes, ℤ, All,
  Option-cases, inl, inr, length,
}
use red_go.GoMap.{keys}
use red_go.IntSet.{enc_int64}
use red_go.IntSet.Words.{Fits}
use red_go.IntSet.Order.{has_int}
use red_go.IntSet.Search.{Holds, contains-has_int, to_slice_lem}
use red_go.IntSet.Upgrade.{new_int_set-Holds}
use red_go.Strconv.{parse_int}
use red_go.HashSet.{HashSet, new_hash_set, contains, len, members, set_max_intset_entries}
use red_go.HashSet.Numbers.{
  IsCanonical, elem, IsUnique, prints, elem-prints, elem-prints-none, length-prints, parse_int-Fits,
}
use red_go.HashSet.Keys.{has-lookup, length-keys}

-- An integer set of these values, at most 512 of them, with an empty map.
abbrev pub IsSmall : HashSet → List ℤ → Type 0
IsSmall s vs =
    (s.is_intset ≡ true)
    × (s.dict ≡ [])
    × Holds s.intset vs
    × All (Fits enc_int64) vs
    × (length vs ≤ set_max_intset_entries)

-- The members of the set, each once and canonical: the prints of the integer set, or the keys of the
-- map.
abbrev pub Represents : HashSet → List Bytes → Type 0
Represents s ms =
    All IsCanonical ms
    × IsUnique ms
    × (((vs : List ℤ) × IsSmall s vs × (ms ≡ prints vs))
        ⊎ ((s.is_intset ≡ false) × (ms ≡ keys s.dict)))

pub new_hash_set-Represents : Represents new_hash_set []
new_hash_set-Represents = (tt, tt, inl ([], (refl, refl, new_int_set-Holds, tt, omega arith), refl))

pub members_lem : (s : HashSet) (ms : List Bytes) → Represents s ms → members s ≡ some ms
unfolding members
members_lem s ms (_, _, inl (vs, (small, empty, holds, hs, few), e)) =
    rw (small, to_slice_lem s.intset vs holds) (ap some (sym e))
members_lem s ms (_, _, inr (large, e)) = rw large (ap some (sym e))

pub len_lem : (s : HashSet) (ms : List Bytes) → Represents s ms → len s ≡ length ms
unfolding len
len_lem s ms (_, _, inl (vs, (small, empty, ((_, _, _, size, _), _, _), hs, few), e)) =
    rw small (size ∙ sym (length-prints vs) ∙ ap length (sym e))
len_lem s ms (_, _, inr (large, e)) = rw large (sym (length-keys s.dict) ∙ ap length (sym e))

-- A canonical member that reads as an integer is its print.
pub elem_canonical :
    (m : Bytes) (v : ℤ) (vs : List ℤ)
    → IsCanonical m
    → parse_int m ≡ some v
    → All (Fits enc_int64) vs
    → elem m (prints vs) ≡ has_int v vs
elem_canonical m v vs canonical read hs =
    ap (λ n. elem n (prints vs)) (sym (canonical v read))
    ∙ elem-prints v vs (parse_int-Fits m v read) hs

pub contains_lem :
    (s : HashSet) (ms : List Bytes) (m : Bytes)
    → Represents s ms
    → IsCanonical m
    → contains s m ≡ some (elem m ms)
unfolding contains
contains_lem s ms m (_, _, inl (vs, (small, empty, holds, hs, few), e)) canonical =
    elim (Option-cases (parse_int m)) [
      | inl none_read ↦
          rw (contains, small, none_read)
            (ap some (sym (ap (elem m) e ∙ elem-prints-none m vs none_read hs)))
      | inr (v, read) ↦
          rw (contains, small, read)
            (contains-has_int s.intset vs v holds
              ∙ ap some (sym (ap (elem m) e ∙ elem_canonical m v vs canonical read hs)))
    ]
contains_lem s ms m (_, _, inr (large, e)) canonical =
    rw (large, has-lookup m s.dict) (ap (λ ns. some (elem m ns)) (sym e))
