-- ===== src/SkipList/Delete.antt =====
-- `Delete` and the removal from an ordered list.
use red_go.Base.{
  ℕ, ◌<◌, ◌≤◌, Bool, true, false, List, [], ◌∷◌, ◌++◌, none, some, ltb, ◌==◌, if◌then◌else◌, ◌≡◌,
  ◌≢◌, ◌⊎◌, inl, inr, refl, ap, sym, ◌∙◌, subst, arith, All, Bool-cases, length-append,
}
use red_go.Score.{Score, Item, before, equals}
use red_go.SkipList.{
  SkipList, max_level, next, is_node, reached, descend, unlink, lower, deleted, delete_target,
  delete,
}
use red_go.SkipList.Order.{
  IsAscending, All-take_while, remove_item, has_item, remove_item-IsAscending, before-IsCut,
  remove_item_absent, absent_lem, has_item-append, has_item-nil, has_item_first, IsAscending-append,
}
use red_go.SkipList.Levels.{Entry, first_at, last_at, Matches}
use red_go.SkipList.Search.{From, lasts, lasts_below}
use red_go.SkipList.Splice.{Apart, IsUnique, From-without}
use red_go.SkipList.Unlink.{From-last}
use red_go.SkipList.Unlink.{unlink_lem}
use red_go.SkipList.Pointers.{Frame, From-same, Matches-Frame}
use red_go.SkipList.NewNode.{map-append}
use red_go.SkipList.Valid.{
  Holds, Represents, items, lesser, others, All-append, parts, search_lem, others_fail,
}
use red_go.SkipList.Removal.{
  reached_get, lower_lem, tail_lem, All-remove, IsUnique-remove, after_delete, first_lem,
}

module _ {ℓ} {F : Type ℓ} ⦃f : Score F⦄ where
  items-All :
      (P : Item F → Type 0) (es : List (Entry F)) → All (λ e. P e.item) es → All P (items es)
  items-All P [] h = tt
  items-All P (e ∷ es) (he, h) = (he, items-All P es h)

  -- The removal of the node `t`, behind the nodes `xs`
  module _ (s : SkipList F) (xs ys : List (Entry F)) (t : Entry F) (x : Item F)
      (h : Holds s (xs ++ t ∷ ys)) (found : equals t.item x ≡ true)
      (lesser_xs : All (λ e. before e.item x ≡ true) xs) where
    abbrev update : List ℕ
    update = lasts s.level 0 xs

    target_height : (0 < t.height) × (t.height ≤ s.level)
    target_height =
        (All-append (λ e. (0 < e.height) × (e.height ≤ s.level)) xs (t ∷ ys) h.heights).1.0

    without_target : IsUnique (xs ++ ys) × Apart t.ptr ys
    without_target = IsUnique-remove t xs ys h.unique

    unlinked :
        (s' : SkipList F) × (unlink s.level 0 t.ptr update s ≡ some s')
        × ((j : ℕ) → 0 ≤ j → j < t.height → From s' j 0 (xs ++ ys))
        × ((j y : ℕ) → (j < 0) ⊎ (t.height ≤ j) → next s' y j ≡ next s y j)
        × Frame s s'
    unlinked =
        let (l₁, l₂) = h.level_range in
        unlink_lem s.level 0 update s t xs ys (λ j le lt. lasts_below s.level 0 j xs (omega arith))
          (λ j le lt. h.linked j (omega arith)) (omega arith) (omega (arith, target_height))
          (omega (arith, h.header_height)) ((All-append (Matches s) xs (t ∷ ys) h.matches).0)
          (without_target.1) h.not_header h.unique

    rest_items : items (xs ++ ys) ≡ remove_item x (items (xs ++ t ∷ ys))
    unfolding remove_item
    rest_items =
        map-append xs ys
        ∙ sym (
            ap (remove_item x) (map-append xs (t ∷ ys))
            ∙ (has_item-append x (items xs) (items (t ∷ ys))
                (items-All (λ y. before y x ≡ true) xs lesser_xs)).1
            ∙ rw found refl)

    module _ (s' : SkipList F) (done : (j : ℕ) → 0 ≤ j → j < t.height → From s' j 0 (xs ++ ys))
        (same : (j y : ℕ) → (j < 0) ⊎ (t.height ≤ j) → next s' y j ≡ next s y j)
        (g : Frame s s') where
      linked' : (j : ℕ) → j < max_level → From s' j 0 (xs ++ ys)
      linked' j lt = elim (Bool-cases (ltb j t.height)) [
        | inl c ↦ done j (omega arith) (ground arith)
        | inr c ↦
            From-without s' j 0 t xs ys c (
              From-same s s' j 0 (xs ++ t ∷ ys) (λ y. same j y (inr (ground arith)))
                (h.linked j lt))
      ]

      rest_heights : All (λ e. (0 < e.height) × (e.height ≤ s.level)) (xs ++ ys)
      rest_heights = All-remove (λ e. (0 < e.height) × (e.height ≤ s.level)) t xs ys h.heights

      lowered :
          (l : ℕ) × (lower s' s'.level ≡ some l)
          × (1 ≤ l)
          × (l ≤ s.level)
          × All (λ e. (0 < e.height) × (e.height ≤ l)) (xs ++ ys)
      lowered =
          let (l₁, l₂) = h.level_range in
          let (l, e, lo, hi, a) = lower_lem s' s.level (xs ++ ys) l₁ l₂ linked' rest_heights in
          (l, ap (lower s') g.same_level ∙ e, lo, hi, a)

      after_delete-Holds :
          (l : ℕ)
          → 1 ≤ l
          → l ≤ s.level
          → All (λ e. (0 < e.height) × (e.height ≤ l)) (xs ++ ys)
          → Holds (after_delete t.ptr (last_at 0 0 xs) l s') (xs ++ ys)
      after_delete-Holds l lo hi a =
          let (l₁, l₂) = h.level_range in
          record {
            linked = linked';
            matches = Matches-Frame s s' (xs ++ ys) g (All-remove (Matches s) t xs ys h.matches);
            heights = a;
            header_height = g.heights 0 ∙ h.header_height;
            level_range = (lo, omega arith);
            not_header = All-remove (λ e. 0 ≢ e.ptr) t xs ys h.not_header;
            unique = without_target.0;
            made =
                subst (λ n. All (λ (e : Entry F). e.ptr < n) (xs ++ ys)) (sym g.same_allocated)
                  (All-remove (λ e. e.ptr < s.allocated) t xs ys h.made);
            header_made = omega (arith, g.same_allocated, h.header_made);
            ascending =
                subst IsAscending (sym rest_items)
                  (remove_item-IsAscending x (items (xs ++ t ∷ ys)) h.ascending);
            count =
                omega
                  (arith, g.same_length, h.count, length-append xs ys, length-append xs (t ∷ ys));
            at_tail =
                ap
                  (λ o.
                    if is_node t.ptr o
                    then (if last_at 0 0 xs == 0 then none else some (last_at 0 0 xs))
                    else o)
                  (g.same_tail ∙ h.at_tail)
                ∙ tail_lem t s.level xs ys
                    ((All-append (λ e. (0 < e.height) × (e.height ≤ s.level)) xs (t ∷ ys)
                      h.heights).0)
                    ((All-append (λ e. 0 ≢ e.ptr) xs (t ∷ ys) h.not_header).0) (without_target.1);
          }

  module _ (s : SkipList F) (xs : List (Entry F)) (x : Item F)
      (search : descend s (λ y. before y x) s.level 0 ≡ some (lasts s.level 0 xs))
      (lesser_xs : All (λ e. before e.item x ≡ true) xs) where
    reached_lem : 1 ≤ s.level → reached (lasts s.level 0 xs) ≡ last_at 0 0 xs
    reached_lem lo =
        reached_get (lasts s.level 0 xs) (last_at 0 0 xs) (lasts_below s.level 0 0 xs (omega arith))

    at_reached :
        (ys : List (Entry F))
        → Holds s (xs ++ ys)
        → next s (reached (lasts s.level 0 xs)) 0 ≡ some (first_at 0 ys)
    at_reached ys h =
        ap (λ u. next s u 0) (reached_lem (h.level_range.0))
        ∙ From-last s 0 0 xs ys (h.linked 0 (omega arith))

    delete_found :
        (t : Entry F) (ys : List (Entry F))
        → Holds s (xs ++ t ∷ ys)
        → equals t.item x ≡ true
        → (s' : SkipList F) × (delete x s ≡ some (s', true)) × Holds s' (xs ++ ys)
    unfolding delete delete_target deleted
    delete_found t ys h found =
        let (s₁, e, done, same, g) = unlinked s xs ys t x h found lesser_xs in
        let (l, el, lo, hi, a) = lowered s xs ys t x h found lesser_xs s₁ done same g in
        let target : next s (reached (lasts s.level 0 xs)) 0 ≡ some (some t.ptr) =
          at_reached (t ∷ ys) h
          ∙ ap some (first_lem s.level t ys (target_height s xs ys t x h found lesser_xs)) in
        let same_item : equals (s.nodes t.ptr).item x ≡ true =
          ap (λ y. equals y x) ((All-append (Matches s) xs (t ∷ ys) h.matches).1.0.0) ∙ found in
        (
          after_delete t.ptr (last_at 0 0 xs) l s₁,
          rw (search, target, same_item, e, el, reached_lem (h.level_range.0)) refl,
          after_delete-Holds s xs ys t x h found lesser_xs s₁ done same g l lo hi a,
        )

    delete_other :
        (t : Entry F) (ys : List (Entry F))
        → Holds s (xs ++ t ∷ ys)
        → equals t.item x ≡ false
        → delete x s ≡ some (s, false)
    unfolding delete delete_target
    delete_other t ys h other =
        let heights =
          (All-append (λ e. (0 < e.height) × (e.height ≤ s.level)) xs (t ∷ ys) h.heights).1.0 in
        let target : next s (reached (lasts s.level 0 xs)) 0 ≡ some (some t.ptr) =
          at_reached (t ∷ ys) h ∙ ap some (first_lem s.level t ys heights) in
        let differs : equals (s.nodes t.ptr).item x ≡ false =
          ap (λ y. equals y x) ((All-append (Matches s) xs (t ∷ ys) h.matches).1.0.0) ∙ other in
        rw (search, target, differs) refl

    delete_none : Holds s (xs ++ []) → delete x s ≡ some (s, false)
    unfolding delete delete_target
    delete_none h =
        let target : next s (reached (lasts s.level 0 xs)) 0 ≡ some none = at_reached [] h in
        rw (search, target) refl

    -- The three ends of `Delete`, as one
    delete_split :
        (ys : List (Entry F))
        → Holds s (xs ++ ys)
        → All (λ e. before e.item x ≡ false) ys
        → (s' : SkipList F) × (es : List (Entry F)) × (delete x s
            ≡ some (s', has_item x (items (xs ++ ys))))
          × Holds s' es
          × (items es ≡ remove_item x (items (xs ++ ys)))
    delete_split [] h n =
        let absent : has_item x (items (xs ++ [])) ≡ false =
          ap (has_item x) (map-append xs [])
          ∙ (has_item-append x (items xs) [] (items-All (λ y. before y x ≡ true) xs lesser_xs)).0
          ∙ has_item-nil x in
        (
          s,
          xs ++ [],
          rw absent (delete_none h),
          h,
          sym (remove_item_absent x (items (xs ++ [])) absent),
        )
    delete_split (t ∷ ys) h (tn, n) =
        let lessers = items-All (λ y. before y x ≡ true) xs lesser_xs in
        let here : has_item x (items (xs ++ t ∷ ys)) ≡ has_item x (items (t ∷ ys)) =
          ap (has_item x) (map-append xs (t ∷ ys))
          ∙ (has_item-append x (items xs) (items (t ∷ ys)) lessers).0 in
        elim (Bool-cases (equals t.item x)) [
          | inl found ↦
              let (s', e, h') = delete_found t ys h found in
              (
                s',
                xs ++ ys,
                rw (here, has_item_first x t.item (items ys) found) e,
                h',
                rest_items s xs ys t x h found lesser_xs,
              )
          | inr other ↦
              let absent : has_item x (items (xs ++ t ∷ ys)) ≡ false =
                here
                ∙ absent_lem x t.item (items ys)
                    (IsAscending-append (items xs) (items (t ∷ ys))
                      (subst IsAscending (map-append xs (t ∷ ys)) h.ascending))
                    tn other in
              (
                s,
                xs ++ t ∷ ys,
                rw absent (delete_other t ys h other),
                h,
                sym (remove_item_absent x (items (xs ++ t ∷ ys)) absent),
              )
        ]

  -- On a list that represents some items, `Delete` does not panic, says whether an item equals its
  -- arguments, and the new list represents the items without the first such one.
  pub delete-Represents :
      (s : SkipList F) (xs : List (Item F)) (x : Item F)
      → Represents s xs
      → (s' : SkipList F) × (delete x s ≡ some (s', has_item x xs))
        × Represents s' (remove_item x xs)
  delete-Represents s xs x r =
      let test : Item F → Bool = λ y. before y x in
      let es = r.entries in
      let both = parts s es test r.holds in
      let (s', es', e, h, i) =
        delete_split s (lesser test es) x (search_lem s es test r.holds (before-IsCut x))
          (All-take_while (λ e. test e.item) es) (others test es)
          (subst (Holds s) (sym both) r.holds) (others_fail s es test r.holds (before-IsCut x)) in
      let same : items (lesser test es ++ others test es) ≡ xs = ap items both ∙ r.same_items in
      (
        s',
        e ∙ ap (λ ys. some (s', has_item x ys)) same,
        record { entries = es'; holds = h; same_items = i ∙ ap (remove_item x) same },
      )
