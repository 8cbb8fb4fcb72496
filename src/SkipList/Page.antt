-- ===== src/SkipList/Page.antt =====
-- `RangeByScore`: a page of the members whose score is in a range.
use red_go.Base.{
  ℕ, zero, suc, ◌+◌, ◌-◌, ◌<◌, ◌≤◌, Bool, true, false, ◌&&◌, ◌||◌, List, [], ◌∷◌, ◌++◌, Option,
  some, Bytes, length, take, drop, ℤ, pos, negsuc, ltb_ℤ, leb_ℤ, ◌≡◌, inl, inr, refl, ap, sym, ◌∙◌,
  arith, Bool-cases, append_assoc, append-nil, length-append, ap₂, subst,
}
use red_go.Slice.{take-nil, drop-nil}
use red_go.Score.{Score, Item}
use red_go.SkipList.{SkipList, next}
use red_go.SkipList.Reads.{range_loop, range_by_score}
use red_go.SkipList.Order.{take_while}
use red_go.SkipList.Levels.{Entry, first_at}
use red_go.SkipList.Valid.{Represents, items, others, items-others}
use red_go.SkipList.Range.{
  Rest, Rest-next, members, low, up_to, first_from_lem, in_range, in_range-while,
}

-- At most `count` elements, less the `k` that are there; all of them when `count` is not positive
abbrev limited : ℤ → ℕ → List Bytes → List Bytes
limited (pos zero) k l = l
limited (pos (suc n)) k l = take (suc n - k) l
limited (negsuc n) k l = l

-- The elements that an offset leaves, less the `k` that are skipped; all when it is negative
abbrev beyond : ℤ → ℕ → List Bytes → List Bytes
beyond (pos n) k l = drop (n - k) l
beyond (negsuc n) k l = l

abbrev pub page : ℤ → ℤ → List Bytes → List Bytes
page offset count l = limited count 0 (beyond offset 0 l)

-- There is room for one more element.
abbrev HasRoom : ℤ → ℕ → Type 0
HasRoom (pos zero) k = Unit
HasRoom (pos (suc n)) k = k < suc n
HasRoom (negsuc n) k = Unit

abbrev is_past : ℤ → ℕ → Bool
is_past offset skipped = ltb_ℤ offset (pos 0) || leb_ℤ offset (pos skipped)

abbrev is_full : ℤ → ℕ → Bool
is_full count k = ltb_ℤ (pos 0) count && leb_ℤ count (pos k)

beyond_past :
    (offset : ℤ) (k : ℕ) (l : List Bytes) → is_past offset k ≡ true → beyond offset k l ≡ l
beyond_past (pos n) k l h = let e : n - k ≡ 0 = ground arith in rw e refl
beyond_past (negsuc n) k l h = refl

beyond_next :
    (offset : ℤ) (k : ℕ) (m : Bytes) (l : List Bytes)
    → is_past offset k ≡ false
    → beyond offset k (m ∷ l) ≡ beyond offset (k + 1) l
beyond_next (pos n) k m l h = let e : n - k ≡ suc (n - (k + 1)) = ground arith in rw e refl
beyond_next (negsuc n) k m l h = absurd (ground arith)

beyond-nil : (offset : ℤ) (k : ℕ) → beyond offset k [] ≡ []
beyond-nil (pos n) k = drop-nil (n - k)
beyond-nil (negsuc n) k = refl

limited-nil : (count : ℤ) (k : ℕ) → limited count k [] ≡ []
limited-nil (pos zero) k = refl
limited-nil (pos (suc n)) k = take-nil (suc n - k)
limited-nil (negsuc n) k = refl

limited_last :
    (count : ℤ) (k : ℕ) (m : Bytes) (l : List Bytes)
    → HasRoom count k
    → is_full count (k + 1) ≡ true
    → limited count k (m ∷ l) ≡ m ∷ []
limited_last (pos zero) k m l r h = absurd (ground arith)
limited_last (pos (suc n)) k m l r h = let e : suc n - k ≡ 1 = ground arith in rw e refl
limited_last (negsuc n) k m l r h = absurd (ground arith)

limited_next :
    (count : ℤ) (k : ℕ) (m : Bytes) (l : List Bytes)
    → HasRoom count k
    → is_full count (k + 1) ≡ false
    → (limited count k (m ∷ l) ≡ m ∷ limited count (k + 1) l) × HasRoom count (k + 1)
limited_next (pos zero) k m l r h = (refl, tt)
limited_next (pos (suc n)) k m l r h =
    let e : suc n - k ≡ suc (suc n - (k + 1)) = ground arith in (rw e refl, ground arith)
limited_next (negsuc n) k m l r h = (refl, tt)

has_room : (count : ℤ) → HasRoom count 0
has_room (pos zero) = tt
has_room (pos (suc n)) = omega arith
has_room (negsuc n) = tt

none_left :
    (offset count : ℤ) (k : ℕ) (result : List Bytes)
    → result ++ limited count (length result) (beyond offset k []) ≡ result
none_left offset count k result =
    rw (beyond-nil offset k, limited-nil count (length result)) (append-nil result)

module _ {ℓ} {F : Type ℓ} ⦃f : Score F⦄ where
  module _ (fuel : ℕ) (s : SkipList F) (max : F) (offset count : ℤ) (x skipped : ℕ)
      (result : List Bytes) where
    abbrev run : Option (List Bytes)
    run = range_loop (suc fuel) s max offset count (some x) skipped result

    abbrev result' : List Bytes
    result' = result ++ (s.nodes x).item.member ∷ []

    run_stop : up_to max (s.nodes x).item ≡ false → run ≡ some result
    unfolding range_loop
    run_stop t = rw (range_loop, t) refl

    run_full :
        up_to max (s.nodes x).item ≡ true
        → is_past offset skipped ≡ true
        → is_full count (length result') ≡ true
        → run ≡ some result'
    unfolding range_loop
    run_full t past full = rw (range_loop, t, past, full) refl

    run_take :
        (p : Option ℕ)
        → up_to max (s.nodes x).item ≡ true
        → is_past offset skipped ≡ true
        → is_full count (length result') ≡ false
        → next s x 0 ≡ some p
        → run ≡ range_loop fuel s max offset count p skipped result'
    unfolding range_loop
    run_take p t past full link = rw (range_loop, t, past, full, link) refl

    run_skip :
        (p : Option ℕ)
        → up_to max (s.nodes x).item ≡ true
        → is_past offset skipped ≡ false
        → next s x 0 ≡ some p
        → run ≡ range_loop fuel s max offset count p (skipped + 1) result
    unfolding range_loop
    run_skip p t past link = rw (range_loop, t, past, link) refl

  range_loop_lem :
      (fuel : ℕ) (s : SkipList F) (max : F) (offset count : ℤ) (es : List (Entry F)) (skipped : ℕ)
      (result : List Bytes)
      → length es ≤ fuel
      → Rest s es
      → HasRoom count (length result)
      → range_loop fuel s max offset count (first_at 0 es) skipped result
        ≡ some (
            result
            ++ limited count
                (length result)
                (beyond offset skipped (members (take_while (up_to max) (items es)))))
  unfolding range_loop
  range_loop_lem zero s max offset count [] skipped result enough r room =
      ap some (sym (none_left offset count skipped result))
  range_loop_lem (suc fuel) s max offset count [] skipped result enough r room =
      ap some (sym (none_left offset count skipped result))
  range_loop_lem zero s max offset count (e ∷ es) skipped result enough r room =
      absurd (omega arith)
  range_loop_lem (suc fuel) s max offset count (e ∷ es) skipped result enough r room =
      let (first, link, same, r') = Rest-next s e es r in
      let m : Bytes = e.item.member in
      let rest : List Bytes = members (take_while (up_to max) (items es)) in
      let start : range_loop (suc fuel) s max offset count (first_at 0 (e ∷ es)) skipped result
          ≡ run fuel s max offset count e.ptr skipped result =
        ap (λ p. range_loop (suc fuel) s max offset count p skipped result) first in
      let next_result : result' fuel s max offset count e.ptr skipped result ≡ result ++ m ∷ [] =
        ap (λ (i : Item F). result ++ i.member ∷ []) same in
      let longer : length (result ++ m ∷ []) ≡ length result + 1 = length-append result (m ∷ []) in
      elim (Bool-cases (up_to max e.item)) [
        | inr t ↦
            start
            ∙ run_stop fuel s max offset count e.ptr skipped result (ap (up_to max) same ∙ t)
            ∙ ap some (sym (none_left offset count skipped result))
            ∙ rw t refl
        | inl t ↦ rw t (elim (Bool-cases (is_past offset skipped)) [
          | inr past ↦
              start
              ∙ run_skip fuel s max offset count e.ptr skipped result (first_at 0 es)
                  (ap (up_to max) same ∙ t) past link
              ∙ range_loop_lem fuel s max offset count es (skipped + 1) result (omega arith) r' room
              ∙ ap (λ l. some (result ++ limited count (length result) l))
                  (sym (beyond_next offset skipped m rest past))
          | inl past ↦ elim (Bool-cases (is_full count (length (result ++ m ∷ [])))) [
            | inl full ↦
                let full' : is_full count (length result + 1) ≡ true =
                  ap (is_full count) (sym longer) ∙ full in
                start
                ∙ run_full fuel s max offset count e.ptr skipped result (ap (up_to max) same ∙ t)
                    past (ap (λ l. is_full count (length l)) next_result ∙ full)
                ∙ ap some next_result
                ∙ ap (λ l. some (result ++ l))
                    (sym (limited_last count (length result) m rest room full')
                      ∙ ap (limited count (length result))
                          (sym (beyond_past offset skipped (m ∷ rest) past)))
            | inr full ↦
                let full' : is_full count (length result + 1) ≡ false =
                  ap (is_full count) (sym longer) ∙ full in
                let (one, room') = limited_next count (length result) m rest room full' in
                start
                ∙ run_take fuel s max offset count e.ptr skipped result (first_at 0 es)
                    (ap (up_to max) same ∙ t) past
                    (ap (λ l. is_full count (length l)) next_result ∙ full) link
                ∙ ap (λ l. range_loop fuel s max offset count (first_at 0 es) skipped l) next_result
                ∙ range_loop_lem fuel s max offset count es skipped (result ++ m ∷ []) (omega arith)
                    r' (subst (HasRoom count) (sym longer) room')
                ∙ ap some (
                    append_assoc result (m ∷ [])
                      (limited count (length (result ++ m ∷ [])) (beyond offset skipped rest))
                    ∙ ap (λ l. result ++ m ∷ l)
                        (ap₂ (limited count) longer (beyond_past offset skipped rest past))
                    ∙ ap (λ l. result ++ l) (sym one)
                    ∙ ap (λ l. result ++ limited count (length result) l)
                        (sym (beyond_past offset skipped (m ∷ rest) past)))
          ]
        ])
      ]

  -- On a list that represents some items, `RangeByScore` does not panic and returns the members whose
  -- score is in the range, in order, without the first `offset` and, where `count` is positive, at
  -- most `count` of them; a negative `offset` counts as 0.
  pub range_by_score_lem :
      (s : SkipList F) (xs : List (Item F)) (min max : F) (offset count : ℤ)
      → Represents s xs
      → range_by_score min max offset count s
        ≡ some (page offset count (members (in_range min max xs)))
  unfolding range_by_score
  range_by_score_lem s xs min max offset count r =
      let es = r.entries in
      let (first, rest, enough) = first_from_lem min s es r.holds in
      let looped =
        range_loop_lem s.length s max offset count (others (low min) es) 0 [] enough rest
          (has_room count) in
      rw (first, looped, items-others (low min) es)
        (ap (λ ys. some (page offset count (members ys)))
          (in_range-while min max (items es) (r.holds.ascending)
            ∙ ap (in_range min max) r.same_items))
