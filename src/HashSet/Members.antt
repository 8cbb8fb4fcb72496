-- ===== src/HashSet/Members.antt =====
-- `Add` and `Remove` in both representations, the change of the representation included.
use red_go.Base.{
  not, Bool, true, false, ◌≡◌, refl, arith, ap, ◌∙◌, sym, subst, List, [], none, some, Bytes, ℤ,
  All, if◌then◌else◌, Bool-cases, Option-cases, inl, inr, ltb,
}
use red_go.GoMap.{has, lookup}
use red_go.IntSet
use red_go.IntSet.{IntSet, enc_int64}
use red_go.IntSet.Words.{Fits}
use red_go.IntSet.Order.{has_int, insert_int, remove_int}
use red_go.IntSet.Edits.{All-insert_int, All-remove_int, length-remove_int}
use red_go.IntSet.Search.{Holds}
use red_go.IntSet.Upgrade
use red_go.IntSet.Upgrade.{added, removed}
use red_go.Strconv.{parse_int}
use red_go.HashSet.{HashSet, add_counted, add, remove_from_dict, remove, set_max_intset_entries}
use red_go.HashSet.Numbers.{
  IsCanonical, elem, prints, elem-prints-none, parse_int-Fits, prints-IsUnique, prints-IsCanonical,
}
use red_go.HashSet.Keys.{convert_lem}
use red_go.HashSet.Refine.{IsSmall, Represents, elem_canonical}
use red_go.HashSet.Edits.{
  news, olds, IsWith, IsWithout, add_to_dict_lem, remove_from_dict_lem, small_Represents,
  insert_IsWith, remove_IsWithout, present_IsWith, absent_IsWithout,
}

-- The representation behind the addition of an integer: past 512 of them a map
add_counted_lem :
    (s : HashSet) (vs : List ℤ)
    → s.is_intset ≡ true
    → s.dict ≡ []
    → Holds s.intset vs
    → All (Fits enc_int64) vs
    → (s' : HashSet) × (add_counted s true ≡ some (s', 1)) × Represents s' (prints vs)
unfolding add_counted
add_counted_lem s vs small empty holds hs =
    let ((_, _, _, size, _), ascending, _) = holds in
    elim (Bool-cases (ltb set_max_intset_entries s.intset.length)) [
      | inl many ↦
          let (s', e, large, keys') = convert_lem s vs small empty holds hs in
          (
            s',
            rw (many, e) refl,
            (prints-IsCanonical vs hs, prints-IsUnique vs ascending hs, inr (large, sym keys')),
          )
      | inr few ↦ (
        s,
        rw few refl,
        small_Represents s vs (small, empty, holds, hs, ground (arith, few, size)),
      )
    ]

-- What an addition of `m` does: its result, and the members behind it
abbrev pub Adds : HashSet → Bytes → List Bytes → Type 0
Adds s m ms =
    (s' : HashSet) × (ms' : List Bytes) × (add s m ≡ some (s', news m ms))
    × Represents s' ms'
    × IsWith m ms ms'

-- What a removal of `m` does
abbrev pub Removes : HashSet → Bytes → List Bytes → Type 0
Removes s m ms =
    (s' : HashSet) × (ms' : List Bytes) × (remove s m ≡ some (s', olds m ms))
    × Represents s' ms'
    × IsWithout m ms ms'

add_reads :
    (s : HashSet) (m : Bytes) (v : ℤ) (is : IntSet) (ok : Bool)
    → s.is_intset ≡ true
    → parse_int m ≡ some v
    → IntSet.add s.intset v ≡ some (is, ok)
    → add s m ≡ add_counted (record s { intset = is }) ok
unfolding add
add_reads s m v is ok small read e = simp (add, small, read, e) refl

add_int_lem :
    (s : HashSet) (vs : List ℤ) (m : Bytes) (v : ℤ)
    → IsSmall s vs
    → IsCanonical m
    → parse_int m ≡ some v
    → Adds s m (prints vs)
unfolding add_counted
add_int_lem s vs m v (small, empty, holds, hs, few) canonical read =
    let fit = parse_int-Fits m v read in
    let (is, e, holds') = Upgrade.add_lem s.intset vs v holds fit (omega (arith, few)) in
    let s₁ = record s { intset = is } in
    let among = elem_canonical m v vs canonical read hs in
    let step = add_reads s m v is (not (has_int v vs)) small read e in
    elim (Bool-cases (has_int v vs)) [
      | inl old ↦ (
        s₁,
        prints vs,
        step ∙ rw (among, old) refl,
        small_Represents s₁ vs (
          small,
          empty,
          subst (λ b. Holds is (if b then vs else insert_int v vs)) old holds',
          hs,
          few,
        ),
        present_IsWith m (prints vs) (among ∙ old),
      )
      | inr new ↦
          let (s₂, e₂, rep) =
            add_counted_lem s₁ (insert_int v vs) small empty
              (subst (λ b. Holds is (if b then vs else insert_int v vs)) new holds')
              (All-insert_int (Fits enc_int64) v vs fit hs) in
          (
            s₂,
            prints (insert_int v vs),
            step
                ∙ ap (λ b. add_counted s₁ (not b)) new
                ∙ e₂
                ∙ ap (λ b. some (s₂, if b then 0 else 1)) (sym (among ∙ new)),
            rep,
            insert_IsWith m v vs (canonical v read) (among ∙ new),
          )
    ]

-- On a set with canonical members, `Add` of a canonical one (no integer, or the print of its integer)
-- adds it to them, whatever it does to the representation, and counts it if it was not among them.
pub add-Represents :
    (s : HashSet) (ms : List Bytes) (m : Bytes) → Represents s ms → IsCanonical m → Adds s m ms
unfolding add
add-Represents s ms m (all, unique, inr (large, e)) canonical =
    let (s', ms', e', rep, change) = add_to_dict_lem s ms m large e all unique canonical in
    (s', ms', rw (add, large) (ap some e'), rep, change)
add-Represents s ms m (all, unique, inl (vs, is_small, e)) canonical =
    elim (Option-cases (parse_int m)) [
      | inr (v, read) ↦ subst (Adds s m) (sym e) (add_int_lem s vs m v is_small canonical read)
      | inl none_read ↦
          let (small, empty, holds, hs, _) = is_small in
          let (s₁, e₁, large, keys') = convert_lem s vs small empty holds hs in
          let (s', ms', e', rep, change) =
            add_to_dict_lem s₁ ms m large (e ∙ sym keys') all unique canonical in
          (s', ms', simp (add, small, none_read, e₁) (ap some e'), rep, change)
    ]

remove_int_lem :
    (s : HashSet) (vs : List ℤ) (m : Bytes) (v : ℤ)
    → IsSmall s vs
    → IsCanonical m
    → parse_int m ≡ some v
    → Removes s m (prints vs)
unfolding remove
remove_int_lem s vs m v (small, empty, holds, hs, few) canonical read =
    let fit = parse_int-Fits m v read in
    let (is, e, holds') = Upgrade.remove_lem s.intset vs v holds in
    let (_, ascending, _) = holds in
    let s₁ = record s { intset = is } in
    let among = elem_canonical m v vs canonical read hs in
    let step : remove s m ≡ some (s₁, if has_int v vs then 1 else 0) =
      simp (remove, small, read, e) refl in
    let counted = step ∙ ap (λ b. some (s₁, if b then 1 else 0)) (sym among) in
    elim (Bool-cases (has_int v vs)) [
      | inl old ↦ (
        s₁,
        prints (remove_int v vs),
        counted,
        small_Represents s₁ (remove_int v vs) (
          small,
          empty,
          subst (λ b. Holds is (if b then remove_int v vs else vs)) old holds',
          All-remove_int (Fits enc_int64) v vs hs,
          omega (arith, few, length-remove_int v vs old),
        ),
        remove_IsWithout m v vs (canonical v read) fit ascending hs old (among ∙ old),
      )
      | inr new ↦ (
        s₁,
        prints vs,
        counted,
        small_Represents s₁ vs (
          small,
          empty,
          subst (λ b. Holds is (if b then remove_int v vs else vs)) new holds',
          hs,
          few,
        ),
        absent_IsWithout m (prints vs) (among ∙ new),
      )
    ]

remove-none :
    (s : HashSet) (m : Bytes)
    → s.is_intset ≡ true
    → s.dict ≡ []
    → parse_int m ≡ none
    → remove s m ≡ some (s, 0)
unfolding remove remove_from_dict lookup
remove-none s m small empty none_read =
    let missing : has (lookup m s.dict) ≡ false = ap (λ d. has (lookup m d)) empty in
    simp (remove, small, none_read, remove_from_dict, missing) refl

-- On a set with canonical members, `Remove` of a canonical one takes it from them and counts it if it
-- was among them.
pub remove-Represents :
    (s : HashSet) (ms : List Bytes) (m : Bytes) → Represents s ms → IsCanonical m → Removes s m ms
unfolding remove remove_from_dict
remove-Represents s ms m (all, unique, inr (large, e)) canonical =
    let (s', ms', e', rep, change) = remove_from_dict_lem s ms m large e all unique in
    (s', ms', rw (remove, large) (ap some e'), rep, change)
remove-Represents s ms m (all, unique, inl (vs, is_small, e)) canonical =
    elim (Option-cases (parse_int m)) [
      | inr (v, read) ↦
          subst (Removes s m) (sym e) (remove_int_lem s vs m v is_small canonical read)
      | inl none_read ↦
          let (small, empty, holds, hs, _) = is_small in
          let absent : elem m ms ≡ false = ap (elem m) e ∙ elem-prints-none m vs none_read hs in
          (
            s,
            ms,
            remove-none s m small empty none_read
                ∙ ap (λ b. some (s, if b then 1 else 0)) (sym absent),
            (all, unique, inl (vs, is_small, e)),
            absent_IsWithout m ms absent,
          )
    ]
