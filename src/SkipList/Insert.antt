-- ===== src/SkipList/Insert.antt =====
-- `Insert` and the ordered insertion.
use red_go.Base.{
  ℕ, ◌+◌, ◌-◌, ◌<◌, ◌≤◌, Bool, List, ◌∷◌, ◌++◌, none, some, ◌⊎◌, length, replicate, get_elem?, ltb,
  if◌then◌else◌, ◌≡◌, ◌≢◌, inl, inr, refl, ap, sym, ◌∙◌, subst, arith, All, Bool-cases,
  length-append,
}
use red_go.Score.{Score, Item, before}
use red_go.SkipList.{
  Node, SkipList, max_level, next, random_level, descend, link, with_node, inserted, insert,
}
use red_go.SkipList.Order.{
  IsAscending, insert_item, insert_item-while, insert_item-IsAscending, before-IsCut,
}
use red_go.SkipList.Levels.{Entry, first_at, Matches}
use red_go.SkipList.Search.{From, lasts, get_elem?-lasts}
use red_go.SkipList.Splice.{Apart, IsUnique, Level-same, From-over}
use red_go.SkipList.Unlink.{tall_next}
use red_go.SkipList.Pointers.{Frame, From-same, Matches-Frame, link_lem}
use red_go.SkipList.Valid.{
  Holds, Represents, items, last_ptr, lesser, others, items-lesser, items-others, All-append,
  append-All, parts, search_lem,
}
use red_go.SkipList.NewNode.{
  random_level-range, last_at_above, All-lt-Apart, IsUnique-insert, map-append, node_self,
  node_height, node_other, next-with_node, Matches-with_node, heights_mono, made_mono, tail_lem,
}

module _ {ℓ} {F : Type ℓ} ⦃f : Score F⦄ where
  module _ (s : SkipList F) (es : List (Entry F)) (x : Item F) (draws : ℕ → Bool)
      (h : Holds s es) where
    abbrev height : ℕ
    height = random_level draws

    abbrev new_entry : Entry F
    new_entry = record { ptr = s.allocated; height = random_level draws; item = x }

    abbrev lower_part : List (Entry F)
    lower_part = lesser (λ y. before y x) es

    abbrev upper_part : List (Entry F)
    upper_part = others (λ y. before y x) es

    both : lower_part ++ upper_part ≡ es
    both = parts s es (λ y. before y x) h

    abbrev s₁ : SkipList F
    s₁ = with_node x (random_level draws) s

    Apart-new : Apart s.allocated (lower_part ++ upper_part)
    Apart-new = subst (Apart s.allocated) (sym both) (All-lt-Apart s.allocated es h.made)

    new_ne : s.allocated ≢ 0
    new_ne e = absurd (omega (arith, h.header_made))

    linked₁ : (j : ℕ) → j < max_level → From s₁ j 0 (lower_part ++ upper_part)
    linked₁ j lt =
        let (link, l) = subst (From s j 0) (sym both) (h.linked j lt) in
        (
          ap (λ (n : Node F). get_elem? n.forward j) (node_other s x height 0 new_ne) ∙ link,
          Level-same s s₁ j (lower_part ++ upper_part)
              (next-with_node s x height j (lower_part ++ upper_part) Apart-new) l,
        )

    matches₁ : All (Matches s₁) lower_part × All (Matches s₁) upper_part
    matches₁ = All-append (Matches s₁) lower_part upper_part (
        Matches-with_node s x height (lower_part ++ upper_part) Apart-new
          (subst (All (Matches s)) (sym both) h.matches))

    part_heights :
        All (λ e. (0 < e.height) × (e.height ≤ s.level)) lower_part
        × All (λ e. (0 < e.height) × (e.height ≤ s.level)) upper_part
    part_heights =
        All-append (λ e. (0 < e.height) × (e.height ≤ s.level)) lower_part upper_part
          (subst (All (λ e. (0 < e.height) × (e.height ≤ s.level))) (sym both) h.heights)

    header_height₁ : length (s₁.nodes 0).forward ≡ max_level
    header_height₁ =
        ap (λ (n : Node F). length n.forward) (node_other s x height 0 new_ne) ∙ h.header_height

    abbrev update : List ℕ
    update = lasts s.level 0 lower_part ++ replicate (random_level draws - s.level) 0

    linked_in :
        (s' : SkipList F) × (link (random_level draws) 0 s.allocated update s₁ ≡ some s')
        × ((j : ℕ)
            → 0 ≤ j
            → j < 0 + random_level draws
            → From s' j 0 (lower_part ++ new_entry ∷ upper_part))
        × ((j y : ℕ) → (j < 0) ⊎ (0 + random_level draws ≤ j) → next s' y j ≡ next s₁ y j)
        × Frame s₁ s'
    linked_in =
        let (lo, hi) = random_level-range draws in
        link_lem height 0 update s₁ new_entry lower_part upper_part
          (λ j le lt.
            get_elem?-lasts s.level 0 j (height - s.level) lower_part
              (last_at_above s.level j 0 lower_part (part_heights.0)) (omega arith))
          (λ j le lt. linked₁ j (omega arith)) (omega arith) (omega (arith, header_height₁))
          (sym (node_height s x height)) (matches₁.0) new_ne Apart-new
          (subst (Apart 0) (sym both) h.not_header) (subst IsUnique (sym both) h.unique)

    new_items : items (lower_part ++ new_entry ∷ upper_part) ≡ insert_item x (items es)
    new_items =
        map-append lower_part (new_entry ∷ upper_part)
        ∙ rw (items-lesser (λ y. before y x) es, items-others (λ y. before y x) es)
            (sym (insert_item-while x (items es)))

    abbrev after_insert : SkipList F → SkipList F
    after_insert s' = record s' {
      tail = elim (first_at 0 upper_part) [ none ↦ some s.allocated | some y ↦ s'.tail ];
      length = s'.length + 1;
    }

    module _ (s' : SkipList F)
        (done : (j : ℕ)
          → 0 ≤ j
          → j < 0 + random_level draws
          → From s' j 0 (lower_part ++ new_entry ∷ upper_part))
        (same : (j y : ℕ) → (j < 0) ⊎ (0 + random_level draws ≤ j) → next s' y j ≡ next s₁ y j)
        (g : Frame s₁ s') where
      linked' : (j : ℕ) → j < max_level → From s' j 0 (lower_part ++ new_entry ∷ upper_part)
      linked' j lt = elim (Bool-cases (ltb j (random_level draws))) [
        | inl t ↦ done j (omega arith) (ground arith)
        | inr t ↦ From-over s' j 0 new_entry lower_part upper_part t (
            From-same s₁ s' j 0 (lower_part ++ upper_part) (λ y. same j y (inr (ground arith)))
              (linked₁ j lt))
      ]

      new_level : s'.level ≡ (if ltb s.level height then height else s.level)
      new_level = g.same_level

      after_insert-Holds : Holds (after_insert s') (lower_part ++ new_entry ∷ upper_part)
      after_insert-Holds =
          let (lo, hi) = random_level-range draws in
          let (l₁, l₂) = h.level_range in
          let le : s.level ≤ s'.level = ground (arith, new_level) in
          let (hl, hu) = part_heights in
          let made : All (λ e. e.ptr < s'.allocated) (lower_part ++ upper_part) =
            made_mono s.allocated s'.allocated (lower_part ++ upper_part)
              (omega (arith, g.same_allocated))
              (subst (All (λ e. e.ptr < s.allocated)) (sym both) h.made) in
          let (made_l, made_u) =
            All-append (λ e. e.ptr < s'.allocated) lower_part upper_part made in
          let (zl, zu) =
            All-append (λ e. 0 ≢ e.ptr) lower_part upper_part
              (subst (Apart 0) (sym both) h.not_header) in
          record {
            linked = linked';
            matches =
                append-All (Matches s') lower_part (new_entry ∷ upper_part)
                  (Matches-Frame s₁ s' lower_part g (matches₁.0))
                  (
                    (
                      g.items s.allocated ∙ node_self s x height,
                      g.heights s.allocated ∙ node_height s x height,
                    ),
                    Matches-Frame s₁ s' upper_part g (matches₁.1),
                  );
            heights =
                append-All (λ e. (0 < e.height) × (e.height ≤ s'.level)) lower_part
                  (new_entry ∷ upper_part) (heights_mono s.level s'.level lower_part le hl)
                  (
                    (omega arith, ground (arith, new_level)),
                    heights_mono s.level s'.level upper_part le hu,
                  );
            header_height = g.heights 0 ∙ header_height₁;
            level_range = (omega arith, ground (arith, new_level));
            not_header =
                append-All (λ e. 0 ≢ e.ptr) lower_part (new_entry ∷ upper_part) zl
                  ((λ q. new_ne (sym q)), zu);
            unique =
                IsUnique-insert new_entry lower_part upper_part Apart-new
                  (subst IsUnique (sym both) h.unique);
            made =
                append-All (λ e. e.ptr < s'.allocated) lower_part (new_entry ∷ upper_part) made_l
                  (omega (arith, g.same_allocated), made_u);
            header_made = omega (arith, g.same_allocated);
            ascending =
                subst IsAscending (sym new_items)
                  (insert_item-IsAscending x (items es) h.ascending);
            count = omega (
              arith,
              g.same_length,
              h.count,
              length-append lower_part upper_part,
              length-append lower_part (new_entry ∷ upper_part),
              ap length both,
            );
            at_tail =
                tail_lem new_entry s'.tail s.level lower_part upper_part hu
                  (g.same_tail ∙ h.at_tail ∙ ap (last_ptr none) (sym both));
          }

      at_new : next s' s.allocated 0 ≡ some (first_at 0 upper_part)
      at_new =
          tall_next s' 0 0 new_entry lower_part upper_part (linked' 0 (omega arith))
            (ground (arith, random_level-range draws))

    insert-Holds :
        (s' : SkipList F) × (insert x draws s ≡ some s')
        × Holds s' (lower_part ++ new_entry ∷ upper_part)
    unfolding insert inserted
    insert-Holds =
        let (s', e, done, same, g) = linked_in in
        let found : descend s (λ y. before y x) s.level 0 ≡ some (lasts s.level 0 lower_part) =
          search_lem s es (λ y. before y x) h (before-IsCut x) in
        (
          after_insert s',
          rw (found, e, at_new s' done same g) refl,
          after_insert-Holds s' done same g,
        )

  -- On a list that represents some items, `Insert` does not panic, and the new list represents them
  -- with the item put before the first that is not less, whatever level is drawn for its node.
  pub insert-Represents :
      (s : SkipList F) (xs : List (Item F)) (x : Item F) (draws : ℕ → Bool)
      → Represents s xs
      → (s' : SkipList F) × (insert x draws s ≡ some s') × Represents s' (insert_item x xs)
  insert-Represents s xs x draws r =
      let (s', e, h) = insert-Holds s r.entries x draws r.holds in
      (
        s',
        e,
        record {
          entries =
              lower_part s r.entries x draws r.holds
              ++ new_entry s r.entries x draws r.holds ∷ upper_part s r.entries x draws r.holds;
          holds = h;
          same_items = new_items s r.entries x draws r.holds ∙ ap (insert_item x) r.same_items;
        },
      )
