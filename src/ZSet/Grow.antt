-- ===== src/ZSet/Grow.antt =====
-- `Add` on the pairs of a small sorted set, across the move to a skip list.
use red_go.Base.{
  ℕ, ◌≤◌, Bool, true, false, not, [], ◌∷◌, ◌++◌, some, Bytes, length, ltb, eq_bytes, if◌then◌else◌,
  ◌≡◌, refl, ap, sym, ◌∙◌, subst, arith,
}
use red_go.GoMap.{GoMap, lookup, assign, has}
use red_go.GoMap.Laws.{length-assign, assign-Distinct}
use red_go.Score.{Score}
use red_go.SkipList.{new_skip_list}
use red_go.ZSet.{
  Floats, listpack, skiplist, listpack_max_size, score, convert_to_skiplist, add, add_paired,
}
use red_go.ZSet.Nodes.{Agree-empty}
use red_go.ZSet.Pairs.{replace-assign, assign_new, read}
use red_go.ZSet.Valid.{
  Parses, AllParse, IsValid, convert_pairs_lem, AllParse-assign, read-assign, stored, Added,
  score_pairs, has-read, converted-read,
}

module _ {F : Type 0} ⦃f : Score F⦄ (lib : Floats F) where
  module _ (draws : ℕ → ℕ → Bool) (m : Bytes) (x : F) (pairs : GoMap Bytes) (parses : Parses lib)
      (valid : IsValid lib (listpack pairs)) where
    abbrev pub pairs' : GoMap Bytes
    pairs' = assign m (lib.format x) pairs

    pub parse' : AllParse lib pairs'
    parse' = AllParse-assign lib m x pairs parses (valid.2)

    pub reads' :
        (k : Bytes)
        → read lib (lookup k pairs') ≡ (
            if eq_bytes m k
            then some (stored lib m x (listpack pairs))
            else score lib k (listpack pairs))
    unfolding stored
    reads' k =
        read-assign lib m k x pairs parses
        ∙ ap (λ o. if eq_bytes m k then some (lib.parse (lib.format x)).0 else o)
            (sym (score_pairs lib k pairs))

    pub is_new : not (has (score lib m (listpack pairs))) ≡ not (has (lookup m pairs))
    is_new = ap not (ap has (score_pairs lib m pairs) ∙ has-read lib pairs m (valid.2))

    pub add_old :
        has (lookup m pairs) ≡ true
        → Added lib m x (listpack pairs) (add lib draws m x (listpack pairs))
    unfolding add add_paired
    add_old e = (
      listpack pairs',
      rw (is_new, e, replace-assign m (lib.format x) pairs, e) refl,
      (assign-Distinct m (lib.format x) pairs (valid.0), omega (arith, fits), parse'),
      λ k. score_pairs lib k pairs' ∙ reads' k,
    )
      where
        fits : length pairs' ≤ listpack_max_size
        fits =
            subst (λ n. n ≤ listpack_max_size)
              (sym (length-assign m (lib.format x) pairs ∙ rw e refl)) (valid.1)

    pub add_small :
        has (lookup m pairs) ≡ false
        → ltb listpack_max_size (length pairs') ≡ false
        → Added lib m x (listpack pairs) (add lib draws m x (listpack pairs))
    unfolding add add_paired
    add_small e small = (
      listpack pairs',
      rw (is_new, e, replace-assign m (lib.format x) pairs, e, appended, small) refl,
      (assign-Distinct m (lib.format x) pairs (valid.0), ground (arith, small), parse'),
      λ k. score_pairs lib k pairs' ∙ reads' k,
    )
      where
        appended : pairs ++ (m, lib.format x) ∷ [] ≡ pairs'
        appended = assign_new m (lib.format x) pairs (ground (arith, e))

    pub add_large :
        has (lookup m pairs) ≡ false
        → ltb listpack_max_size (length pairs') ≡ true
        → Added lib m x (listpack pairs) (add lib draws m x (listpack pairs))
    unfolding add add_paired convert_to_skiplist score lookup
    add_large e large =
        let (dict, sl, made, a, reads) =
          convert_pairs_lem lib draws pairs' [] new_skip_list
            (assign-Distinct m (lib.format x) pairs (valid.0)) (λ k h. refl) Agree-empty in
        (
          skiplist dict sl,
          rw (is_new, e, replace-assign m (lib.format x) pairs, e, appended, large, made) refl,
          a,
          λ k. reads k ∙ converted-read lib pairs' k parse' ∙ reads' k,
        )
      where
        appended : pairs ++ (m, lib.format x) ∷ [] ≡ pairs'
        appended = assign_new m (lib.format x) pairs (ground (arith, e))
