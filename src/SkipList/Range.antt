-- ===== src/SkipList/Range.antt =====
-- The reads of a skip list by score: `CountInRange` and `RangeByScore`.
use red_go.Base.{
  ℕ, zero, suc, ◌+◌, ◌<◌, ◌≤◌, Bool, true, false, not, ◌&&◌, List, [], ◌∷◌, ◌++◌, map, Option, some,
  Bytes, length, ltb, if◌then◌else◌, ◌≡◌, inl, inr, refl, ap, sym, ◌∙◌, subst, arith, All,
  Bool-cases, length-append,
}
use red_go.Score.{Score, Item, before, at_most}
use red_go.SkipList.{SkipList, next, reached}
use red_go.SkipList.Reads.{first_from, count_loop, count_in_range}
use red_go.SkipList.Order.{IsAscending, take_while, drop_while, less-IsCut}
use red_go.SkipList.Levels.{Entry, first_at, last_at, Level, Matches}
use red_go.SkipList.Search.{lasts, lasts_below}
use red_go.SkipList.Unlink.{From-last}
use red_go.SkipList.Valid.{
  Holds, Represents, items, lesser, others, items-others, All-append, parts, search_lem,
}
use red_go.SkipList.Removal.{reached_get}

abbrev pub members {ℓ} : {F : Type ℓ} → List (Item F) → List Bytes
members = map Item.member

module _ {ℓ} {F : Type ℓ} where
  -- The nodes from some place on, as level 0 leads through them
  pub record Rest (s : SkipList F) (es : List (Entry F)) : Type ℓ where
    pub level : Level s 0 es
    pub matches : All (Matches s) es
    pub tall : All (λ e. ltb 0 e.height ≡ true) es

  pub Rest-next :
      (s : SkipList F) (e : Entry F) (es : List (Entry F))
      → Rest s (e ∷ es)
      → (first_at 0 (e ∷ es) ≡ some e.ptr)
        × (next s e.ptr 0 ≡ some (first_at 0 es))
        × ((s.nodes e.ptr).item ≡ e.item)
        × Rest s es
  Rest-next s e es r =
      let (le, l) = r.level in
      let ((m, _), ms) = r.matches in
      let (t, ts) = r.tall in (rw t refl, le t, m, record { level = l; matches = ms; tall = ts })

  Level-append : (s : SkipList F) (xs ys : List (Entry F)) → Level s 0 (xs ++ ys) → Level s 0 ys
  Level-append s [] ys l = l
  Level-append s (x ∷ xs) ys (_, l) = Level-append s xs ys l

  all_tall :
      (k : ℕ) (es : List (Entry F))
      → All (λ e. (0 < e.height) × (e.height ≤ k)) es
      → All (λ e. ltb 0 e.height ≡ true) es
  all_tall k [] h = tt
  all_tall k (e ∷ es) ((p, q), h) = (ground arith, all_tall k es h)

module _ {ℓ} {F : Type ℓ} ⦃f : Score F⦄ where
  pub Holds-Rest : (s : SkipList F) (xs ys : List (Entry F)) → Holds s (xs ++ ys) → Rest s ys
  Holds-Rest s xs ys h = record {
    level = Level-append s xs ys ((h.linked 0 (omega arith)).1);
    matches = (All-append (Matches s) xs ys h.matches).1;
    tall =
        all_tall s.level ys
          ((All-append (λ e. (0 < e.height) × (e.height ≤ s.level)) xs ys h.heights).1);
  }

  -- The first node whose score is at least `min`
  abbrev pub low : F → Item F → Bool
  low min y = f.less y.score min

  abbrev pub up_to : F → Item F → Bool
  up_to max y = at_most y.score max

  pub first_from_lem :
      (min : F) (s : SkipList F) (es : List (Entry F))
      → Holds s es
      → (first_from min s ≡ some (first_at 0 (others (low min) es)))
        × Rest s (others (low min) es)
        × (length (others (low min) es) ≤ s.length)
  unfolding first_from
  first_from_lem min s es h =
      let test : Item F → Bool = low min in
      let both = parts s es test h in
      let h' : Holds s (lesser test es ++ others test es) = subst (Holds s) (sym both) h in
      let (lo, hi) = h.level_range in
      let at : reached (lasts s.level 0 (lesser test es)) ≡ last_at 0 0 (lesser test es) =
        reached_get (lasts s.level 0 (lesser test es)) (last_at 0 0 (lesser test es))
          (lasts_below s.level 0 0 (lesser test es) (omega arith)) in
      (
        rw (search_lem s es test h (less-IsCut min), at)
            (From-last s 0 0 (lesser test es) (others test es) (h'.linked 0 (omega arith))),
        Holds-Rest s (lesser test es) (others test es) h',
        omega (arith, h'.count, length-append (lesser test es) (others test es)),
      )

  count_stop :
      (fuel : ℕ) (s : SkipList F) (max : F) (x : ℕ)
      → up_to max (s.nodes x).item ≡ false
      → count_loop (suc fuel) s max (some x) ≡ some 0
  unfolding count_loop
  count_stop fuel s max x t = rw (count_loop, t) refl

  count_on :
      (fuel : ℕ) (s : SkipList F) (max : F) (x : ℕ) (p : Option ℕ) (n : ℕ)
      → up_to max (s.nodes x).item ≡ true
      → next s x 0 ≡ some p
      → count_loop fuel s max p ≡ some n
      → count_loop (suc fuel) s max (some x) ≡ some (n + 1)
  unfolding count_loop
  count_on fuel s max x p n t link e = rw (count_loop, t, link, e) refl

  count_loop_lem :
      (fuel : ℕ) (s : SkipList F) (max : F) (es : List (Entry F))
      → length es ≤ fuel
      → Rest s es
      → count_loop fuel s max (first_at 0 es) ≡ some (length (take_while (up_to max) (items es)))
  unfolding count_loop
  count_loop_lem zero s max [] enough r = refl
  count_loop_lem (suc fuel) s max [] enough r = refl
  count_loop_lem zero s max (e ∷ es) enough r = absurd (omega arith)
  count_loop_lem (suc fuel) s max (e ∷ es) enough r =
      let (first, link, same, r') = Rest-next s e es r in
      elim (Bool-cases (up_to max e.item)) [
        | inl t ↦
            ap (count_loop (suc fuel) s max) first
            ∙ count_on fuel s max e.ptr (first_at 0 es) (length (take_while (up_to max) (items es)))
                (ap (up_to max) same ∙ t) link (count_loop_lem fuel s max es (omega arith) r')
            ∙ rw t (ap some (omega arith))
        | inr t ↦
            ap (count_loop (suc fuel) s max) first
            ∙ count_stop fuel s max e.ptr (ap (up_to max) same ∙ t)
            ∙ rw t refl
      ]

  -- The items whose score is in the range
  unfoldable pub in_range : F → F → List (Item F) → List (Item F)
  in_range min max [] = []
  in_range min max (y ∷ ys) =
      if not (low min y) && up_to max y then y ∷ in_range min max ys else in_range min max ys

  in_range_none :
      (min max : F) (x : Item F) (ys : List (Item F))
      → up_to max x ≡ false
      → All (λ y. before y x ≡ false) ys
      → in_range min max ys ≡ []
  unfolding in_range
  in_range_none min max x [] t a = refl
  in_range_none min max x (y ∷ ys) t (ay, a) =
      let u : up_to max y ≡ false = ground (
        arith,
        f.same_less x.score max,
        f.same_less y.score max,
        f.less_cotrans max y.score x.score,
        f.less_asym x.score y.score,
        f.less_asym x.score max,
        f.less_asym y.score max,
        f.less_cotrans max x.score y.score,
      ) in
      ground (arith, in_range_none min max x ys t a)

  in_range_high :
      (min max : F) (ys : List (Item F))
      → IsAscending ys
      → All (λ y. low min y ≡ false) ys
      → take_while (up_to max) ys ≡ in_range min max ys
  unfolding in_range
  in_range_high min max [] a l = refl
  in_range_high min max (y ∷ ys) (ay, a) (ly, l) = elim (Bool-cases (up_to max y)) [
    | inl t ↦ rw (t, ly, in_range_high min max ys a l) refl
    | inr t ↦ rw (t, ly) (sym (in_range_none min max y ys t ay))
  ]

  -- In an ascending list, the items of a range stand together.
  pub in_range-while :
      (min max : F) (ys : List (Item F))
      → IsAscending ys
      → take_while (up_to max) (drop_while (low min) ys) ≡ in_range min max ys
  unfolding in_range
  in_range-while min max [] a = refl
  in_range-while min max (y ∷ ys) (ay, a) = elim (Bool-cases (low min y)) [
    | inl t ↦ rw t (in_range-while min max ys a)
    | inr t ↦
        let here : take_while (up_to max) (y ∷ ys) ≡ in_range min max (y ∷ ys) =
          in_range_high min max (y ∷ ys) (ay, a) (high y ys a ay t) in
        ground (arith, here)
  ]
    where
      high :
          (y : Item F) (ys : List (Item F))
          → IsAscending ys
          → All (λ z. before z y ≡ false) ys
          → low min y ≡ false
          → All (λ z. low min z ≡ false) (y ∷ ys)
      high y [] a ay t = (t, tt)
      high y (z ∷ ys) (az, a) (zy, ay) t = (t, high z ys a az (less-IsCut min y z zy t))

  -- `CountInRange` counts the items whose score is in the range.
  pub count_in_range_lem :
      (s : SkipList F) (xs : List (Item F)) (min max : F)
      → Represents s xs
      → count_in_range min max s ≡ some (length (in_range min max xs))
  unfolding count_in_range
  count_in_range_lem s xs min max r =
      let es = r.entries in
      let (first, rest, enough) = first_from_lem min s es r.holds in
      let counted = count_loop_lem s.length s max (others (low min) es) enough rest in
      rw (first, counted, items-others (low min) es)
        (ap (λ ys. some (length ys))
          (in_range-while min max (items es) (r.holds.ascending)
            ∙ ap (in_range min max) r.same_items))
