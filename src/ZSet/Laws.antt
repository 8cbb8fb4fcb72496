-- ===== src/ZSet/Laws.antt =====
-- The operations of a sorted set, on the scores of its members.
use red_go.Base.{
  ℕ, ◌+◌, ◌≤◌, Bool, true, false, Option, none, some, Bytes, length, ltb, eq_bytes, eq_bytes_iff,
  eq_bytes_refl, if◌then◌else◌, ◌≡◌, inl, inr, refl, ap, sym, ◌∙◌, arith, Bool-cases, Option-cases,
}
use red_go.GoMap
use red_go.GoMap.{GoMap, lookup, assign, has, Distinct}
use red_go.GoMap.Laws.{
  lookup-assign, lookup-delete, length-assign, length-delete, assign-Distinct, delete-Distinct,
}
use red_go.Score.{Score}
use red_go.SkipList.{SkipList}
use red_go.ZSet.{
  Floats, ZSet, listpack, skiplist, listpack_max_size, score, add, add_scored, remove,
  remove_scored,
}
use red_go.ZSet.Nodes.{Agree, insert-Agree, delete-Agree}
use red_go.ZSet.Pairs.{remove_pair-delete, read}
use red_go.ZSet.Valid.{Parses, IsValid, AllParse-delete, stored, Added, score_pairs, has-read}
use red_go.ZSet.Grow.{add_old, add_small, add_large}

module _ {F : Type 0} ⦃f : Score F⦄ (lib : Floats F) where
  module _ (draws : ℕ → ℕ → Bool) (m : Bytes) (x : F) (dict : GoMap F) (sl : SkipList F)
      (a : Agree dict sl) where
    abbrev now : Option F
    now = some (stored lib m x (skiplist dict sl))

    -- The scores behind a write of the one that is stored
    assigned :
        (k : Bytes)
        → x ≡ stored lib m x (skiplist dict sl)
        → lookup k (assign m x dict) ≡ (if eq_bytes m k then now else lookup k dict)
    assigned k e =
        lookup-assign m k x dict ∙ ap (λ v. if eq_bytes m k then some v else lookup k dict) e

    stored_new : lookup m dict ≡ none → stored lib m x (skiplist dict sl) ≡ x
    unfolding stored
    stored_new e = rw (stored, e) refl

    stored_old :
        (old : F)
        → lookup m dict ≡ some old
        → stored lib m x (skiplist dict sl) ≡ (if f.same old x then old else x)
    unfolding stored
    stored_old old e = rw (stored, e) refl

    add_member :
        lookup m dict ≡ none
        → Added lib m x (skiplist dict sl) (add lib draws m x (skiplist dict sl))
    unfolding add add_scored score
    add_member absent =
        let (sl', e, a') = insert-Agree dict sl m x a (draws 0) absent in
        (
          skiplist (assign m x dict) sl',
          rw (absent, e) refl,
          a',
          λ k. assigned k (sym (stored_new absent)),
        )

    add_same :
        (old : F)
        → lookup m dict ≡ some old
        → f.same old x ≡ true
        → Added lib m x (skiplist dict sl) (add lib draws m x (skiplist dict sl))
    unfolding add add_scored score
    add_same old present t = (
      skiplist dict sl,
      rw (present, t) refl,
      a,
      λ k. elim (Bool-cases (eq_bytes m k)) [
        | inl q ↦ rw q (
            ap (λ j. lookup j dict) (sym ((eq_bytes_iff m k).0 q))
            ∙ present
            ∙ ap some (sym (stored_old old present ∙ rw t refl)))
        | inr q ↦ rw q refl
      ],
    )

    moved :
        (sl₂ : SkipList F) (old : F)
        → lookup m dict ≡ some old
        → Agree (assign m x (GoMap.delete m dict)) sl₂
        → Agree (assign m x dict) sl₂
    moved sl₂ old present b = record {
      items = b.items;
      represents = b.represents;
      same = λ k.
          b.same k
          ∙ lookup-assign m k x (GoMap.delete m dict)
          ∙ ap (λ o. if eq_bytes m k then some x else o) (lookup-delete m k dict)
          ∙ twice k
          ∙ sym (lookup-assign m k x dict);
      distinct_items = b.distinct_items;
      distinct = assign-Distinct m x dict a.distinct;
      size = b.size ∙ same_size;
    }
      where
        twice :
            (k : Bytes)
            → (if eq_bytes m k then some x else if eq_bytes m k then none else lookup k dict)
              ≡ (if eq_bytes m k then some x else lookup k dict)
        twice k = ground arith

        gone : lookup m (GoMap.delete m dict) ≡ none
        gone = lookup-delete m m dict ∙ rw (eq_bytes_refl m) refl

        same_size : length (assign m x (GoMap.delete m dict)) ≡ length (assign m x dict)
        same_size =
            let fewer : length dict ≡ length (GoMap.delete m dict) + 1 =
              length-delete m dict a.distinct ∙ rw present refl in
            let again : length (assign m x (GoMap.delete m dict))
                ≡ length (GoMap.delete m dict) + 1 =
              length-assign m x (GoMap.delete m dict) ∙ rw gone refl in
            let kept : length (assign m x dict) ≡ length dict =
              length-assign m x dict ∙ rw present refl in
            omega (arith, fewer, again, kept)

    add_moved :
        (old : F)
        → lookup m dict ≡ some old
        → f.same old x ≡ false
        → Added lib m x (skiplist dict sl) (add lib draws m x (skiplist dict sl))
    unfolding add add_scored score
    add_moved old present t =
        let (sl₁, removed, e₁, a₁) = delete-Agree dict sl m old a present in
        let gone : lookup m (GoMap.delete m dict) ≡ none =
          lookup-delete m m dict ∙ rw (eq_bytes_refl m) refl in
        let (sl₂, e₂, a₂) = insert-Agree (GoMap.delete m dict) sl₁ m x a₁ (draws 0) gone in
        (
          skiplist (assign m x dict) sl₂,
          rw (present, t, e₁, e₂) refl,
          moved sl₂ old present a₂,
          λ k. assigned k (sym (stored_old old present ∙ rw t refl)),
        )

  -- On a valid set, where every printed score parses, `Add` stores the score of the member, leaves the
  -- scores of the others, says whether the member is new, and does not panic, also where the set
  -- becomes a skip list. A small set stores the number that the printed score parses to; a skip list
  -- keeps a score that is the same.
  pub add_score_lem :
      (draws : ℕ → ℕ → Bool) (m : Bytes) (x : F) (z : ZSet F)
      → Parses lib
      → IsValid lib z
      → Added lib m x z (add lib draws m x z)
  add_score_lem draws m x (listpack pairs) parses valid = elim (Bool-cases (has (lookup m pairs))) [
    | inl e ↦ add_old lib draws m x pairs parses valid e
    | inr e ↦ elim (Bool-cases (ltb listpack_max_size (length (assign m (lib.format x) pairs)))) [
      | inl large ↦ add_large lib draws m x pairs parses valid e large
      | inr small ↦ add_small lib draws m x pairs parses valid e small
    ]
  ]
  add_score_lem draws m x (skiplist dict sl) parses a = elim (Option-cases (lookup m dict)) [
    | inl e ↦ add_member draws m x dict sl a e
    | inr (old, e) ↦ elim (Bool-cases (f.same old x)) [
      | inl t ↦ add_same draws m x dict sl a old e t
      | inr t ↦ add_moved draws m x dict sl a old e t
    ]
  ]

  -- On a valid set, `Remove` takes the member out, leaves the scores of the others, says whether it was
  -- there, and does not panic.
  pub remove_score_lem :
      (m : Bytes) (z : ZSet F)
      → IsValid lib z
      → (z' : ZSet F) × (remove m z ≡ some (z', has (score lib m z)))
        × IsValid lib z'
        × ((k : Bytes) → score lib k z' ≡ (if eq_bytes m k then none else score lib k z))
  unfolding remove remove_scored score
  remove_score_lem m (listpack pairs) (d, small, parse) = (
    listpack (GoMap.delete m pairs),
    rw (score_pairs lib m pairs, has-read lib pairs m parse, remove_pair-delete m pairs d) refl,
    (delete-Distinct m pairs d, fewer, AllParse-delete lib m pairs parse),
    λ k.
        score_pairs lib k (GoMap.delete m pairs)
        ∙ ap (read lib) (lookup-delete m k pairs)
        ∙ elim (Bool-cases (eq_bytes m k)) [
          | inl t ↦ rw t refl
          | inr t ↦ rw t (sym (score_pairs lib k pairs))
        ],
  )
    where
      fewer : length (GoMap.delete m pairs) ≤ listpack_max_size
      fewer = ground (arith, length-delete m pairs d, small)
  remove_score_lem m (skiplist dict sl) a = elim (Option-cases (lookup m dict)) [
    | inl e ↦ (
      skiplist dict sl,
      rw e refl,
      a,
      λ k. elim (Bool-cases (eq_bytes m k)) [
        | inl t ↦ rw t (ap (λ j. lookup j dict) (sym ((eq_bytes_iff m k).0 t)) ∙ e)
        | inr t ↦ rw t refl
      ],
    )
    | inr (old, e) ↦
        let (sl', removed, e', a') = delete-Agree dict sl m old a e in
        (skiplist (GoMap.delete m dict) sl', rw (e, e') refl, a', λ k. lookup-delete m k dict)
  ]
