-- ===== src/ZSet/Nodes.antt =====
-- The map and the skip list of a sorted set hold the same scores.
use red_go.Base.{
  ℕ, ◌+◌, Bool, List, [], none, some, Bytes, length, eq_bytes, if◌then◌else◌, ◌≡◌, refl, ap, sym,
  ◌∙◌, arith,
}
use red_go.GoMap
use red_go.GoMap.{GoMap, lookup, assign, has, Distinct}
use red_go.GoMap.Laws.{
  lookup-assign, lookup-delete, length-assign, length-delete, assign-Distinct, delete-Distinct,
}
use red_go.Score.{Score, Item}
use red_go.SkipList
use red_go.SkipList.{SkipList, new_skip_list}
use red_go.SkipList.Order.{insert_item, remove_item, has_item}
use red_go.SkipList.Valid.{Represents, new_skip_list-Represents}
use red_go.SkipList.Insert.{insert-Represents}
use red_go.SkipList.Delete.{delete-Represents}
use red_go.ZSet.Items.{
  as_map, lookup-insert_item, insert_item-Distinct, length-insert_item, lookup-remove_item,
  remove_item-Distinct, length-remove_item,
}

module _ {F : Type 0} ⦃f : Score F⦄ where
  pub record Agree (dict : GoMap F) (sl : SkipList F) : Type 0 where
    pub items : List (Item F)
    pub represents : Represents sl items
    pub same : (k : Bytes) → lookup k (as_map items) ≡ lookup k dict
    pub distinct_items : Distinct (as_map items)
    pub distinct : Distinct dict
    pub size : length items ≡ length dict

  pub Agree-empty : Agree [] new_skip_list
  unfolding lookup
  Agree-empty = record {
    items = [];
    represents = new_skip_list-Represents;
    same = λ k. refl;
    distinct_items = tt;
    distinct = tt;
    size = refl;
  }

  module _ (dict : GoMap F) (sl : SkipList F) (m : Bytes) (score : F) (a : Agree dict sl) where
    abbrev item : Item F
    item = record { member = m; score = score }

    -- A new member joins both.
    pub insert-Agree :
        (draws : ℕ → Bool)
        → lookup m dict ≡ none
        → (sl' : SkipList F) × (SkipList.insert item draws sl ≡ some sl')
          × Agree (assign m score dict) sl'
    insert-Agree draws absent =
        let (sl', e, r) = insert-Represents sl a.items item draws a.represents in
        let gone : lookup m (as_map a.items) ≡ none = a.same m ∙ absent in
        (
          sl',
          e,
          record {
            items = insert_item item a.items;
            represents = r;
            same = λ k.
                lookup-insert_item k item a.items gone
                ∙ ap (λ o. if eq_bytes m k then some score else o) (a.same k)
                ∙ sym (lookup-assign m k score dict);
            distinct_items = insert_item-Distinct item a.items gone a.distinct_items;
            distinct = assign-Distinct m score dict a.distinct;
            size =
                length-insert_item item a.items
                ∙ ap (λ n. n + 1) a.size
                ∙ sym (length-assign m score dict ∙ rw absent refl);
          },
        )

    -- A member leaves both.
    pub delete-Agree :
        lookup m dict ≡ some score
        → (sl' : SkipList F) × (removed : Bool) × (SkipList.delete item sl ≡ some (sl', removed))
          × Agree (GoMap.delete m dict) sl'
    delete-Agree present =
        let (sl', e, r) = delete-Represents sl a.items item a.represents in
        let here : lookup m (as_map a.items) ≡ some score = a.same m ∙ present in
        let fewer : length dict ≡ length (GoMap.delete m dict) + 1 =
          length-delete m dict a.distinct ∙ rw present refl in
        (
          sl',
          has_item item a.items,
          e,
          record {
            items = remove_item item a.items;
            represents = r;
            same = λ k.
                lookup-remove_item k item a.items a.distinct_items here
                ∙ ap (λ o. if eq_bytes m k then none else o) (a.same k)
                ∙ sym (lookup-delete m k dict);
            distinct_items = remove_item-Distinct item a.items a.distinct_items here;
            distinct = delete-Distinct m dict a.distinct;
            size = omega (arith, length-remove_item item a.items here, a.size, fewer);
          },
        )
