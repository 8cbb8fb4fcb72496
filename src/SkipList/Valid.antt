-- ===== src/SkipList/Valid.antt =====
-- What holds of a skip list between its operations, and its search.
use red_go.Base.{
  ℕ, zero, suc, ◌<◌, ◌≤◌, Bool, false, List, [], ◌∷◌, ◌++◌, map, Option, none, some, length,
  replicate, get_elem?, ◌≡◌, inl, inr, refl, sym, subst, arith, All, Bool-cases,
}
use red_go.Score.{Score, Item}
use red_go.SkipList.{SkipList, max_level, descend, new_skip_list}
use red_go.SkipList.Order.{
  IsAscending, IsCut, take_while, drop_while, take_while-drop_while, length-take_while,
  All-take_while, All-drop_while,
}
use red_go.SkipList.Levels.{Entry, Matches}
use red_go.SkipList.Search.{From, lasts, descend_lem}
use red_go.SkipList.Splice.{Apart, IsUnique}

module _ {ℓ} {F : Type ℓ} where
  abbrev pub items : List (Entry F) → List (Item F)
  items = map Entry.item

  -- The last of some nodes, or `p`
  abbrev pub last_ptr : Option ℕ → List (Entry F) → Option ℕ
  last_ptr p [] = p
  last_ptr p (e ∷ es) = last_ptr (some e.ptr) es

module _ {ℓ} {F : Type ℓ} ⦃f : Score F⦄ where
  -- The list has these nodes, in ascending order; on each level a node points to the next one that
  -- stands there.
  pub record Holds (s : SkipList F) (es : List (Entry F)) : Type ℓ where
    pub linked : (j : ℕ) → j < max_level → From s j 0 es
    pub matches : All (Matches s) es
    pub heights : All (λ e. (0 < e.height) × (e.height ≤ s.level)) es
    pub header_height : length (s.nodes 0).forward ≡ max_level
    pub level_range : (1 ≤ s.level) × (s.level ≤ max_level)
    pub not_header : Apart 0 es
    pub unique : IsUnique es
    pub made : All (λ e. e.ptr < s.allocated) es
    pub header_made : 0 < s.allocated
    pub ascending : IsAscending (items es)
    pub count : s.length ≡ length es
    pub at_tail : s.tail ≡ last_ptr none es

  -- The list has these items, in this order.
  pub record Represents (s : SkipList F) (xs : List (Item F)) : Type ℓ where
    pub entries : List (Entry F)
    pub holds : Holds s entries
    pub same_items : items entries ≡ xs

  pub new_skip_list-Represents : Represents new_skip_list []
  new_skip_list-Represents = record {
    entries = [];
    holds = record {
      linked = λ j lt. (all_nil max_level j lt, tt);
      matches = tt;
      heights = tt;
      header_height = refl;
      level_range = (omega arith, omega arith);
      not_header = tt;
      unique = tt;
      made = tt;
      header_made = omega arith;
      ascending = tt;
      count = refl;
      at_tail = refl;
    };
    same_items = refl;
  }
    where
      all_nil : (n j : ℕ) → j < n → get_elem? (replicate {A = Option ℕ} n none) j ≡ some none
      all_nil zero j lt = absurd (omega arith)
      all_nil (suc n) zero lt = refl
      all_nil (suc n) (suc j) lt = all_nil n j (omega arith)

  All-items :
      (P : Item F → Type 0) (es : List (Entry F)) → All P (items es) → All (λ e. P e.item) es
  All-items P [] h = tt
  All-items P (e ∷ es) (he, h) = (he, All-items P es h)

  -- The nodes before the first that fails a test, and the others
  abbrev pub lesser : (Item F → Bool) → List (Entry F) → List (Entry F)
  lesser test = take_while (λ e. test e.item)

  abbrev pub others : (Item F → Bool) → List (Entry F) → List (Entry F)
  others test = drop_while (λ e. test e.item)

  pub items-lesser :
      (test : Item F → Bool) (es : List (Entry F))
      → items (lesser test es) ≡ take_while test (items es)
  items-lesser test [] = refl
  items-lesser test (e ∷ es) = elim (Bool-cases (test e.item)) [
    | inl t ↦ rw (t, sym (items-lesser test es)) refl
    | inr t ↦ rw t refl
  ]

  pub items-others :
      (test : Item F → Bool) (es : List (Entry F))
      → items (others test es) ≡ drop_while test (items es)
  items-others test [] = refl
  items-others test (e ∷ es) = elim (Bool-cases (test e.item)) [
    | inl t ↦ rw t (items-others test es)
    | inr t ↦ rw t refl
  ]

  pub All-append {κ} :
      (P : Entry F → Type κ) (xs ys : List (Entry F)) → All P (xs ++ ys) → All P xs × All P ys
  All-append P [] ys h = (tt, h)
  All-append P (x ∷ xs) ys (hx, h) = let (a, b) = All-append P xs ys h in ((hx, a), b)

  pub append-All {κ} :
      (P : Entry F → Type κ) (xs ys : List (Entry F)) → All P xs → All P ys → All P (xs ++ ys)
  append-All P [] ys a b = b
  append-All P (x ∷ xs) ys (hx, a) b = (hx, append-All P xs ys a b)

  module _ (s : SkipList F) (es : List (Entry F)) (test : Item F → Bool) (h : Holds s es) where
    -- The nodes, in two parts
    pub parts : lesser test es ++ others test es ≡ es
    parts = take_while-drop_while (λ e. test e.item) es

    pub others_fail : IsCut test → All (λ e. test e.item ≡ false) (others test es)
    others_fail cut =
        All-items (λ y. test y ≡ false) (others test es)
          (subst (All (λ y. test y ≡ false)) (sym (items-others test es))
            (All-drop_while test (items es) cut h.ascending))

    -- The search finds the last lesser node of each level.
    pub search_lem : IsCut test → descend s test s.level 0 ≡ some (lasts s.level 0 (lesser test es))
    search_lem cut =
        let m : All (Matches s) (lesser test es ++ others test es) =
          subst (All (Matches s)) (sym parts) h.matches in
        let (ml, mo) = All-append (Matches s) (lesser test es) (others test es) m in
        descend_lem s test s.level 0 (lesser test es) (others test es)
          (omega (arith, h.count, length-take_while (λ (e : Entry F). test e.item) es))
          (λ j lt. subst (From s j 0) (sym parts) (h.linked j (omega (arith, h.level_range)))) ml mo
          (All-take_while (λ e. test e.item) es) (others_fail cut)
