-- ===== src/SkipList/Unlink.antt =====
-- The loop that takes a node out of its levels.
use red_go.Base.{
  ℕ, zero, suc, ◌+◌, ◌<◌, ◌≤◌, true, false, List, [], ◌∷◌, ◌++◌, Option, some, length, get_elem?,
  ltb, ◌==◌, ◌≡◌, ◌⊎◌, inl, inr, refl, ap, sym, ◌∙◌, arith, All, Bool-cases, ==_iff, subst,
}
use red_go.SkipList.{SkipList, next, link, unlink, is_node}
use red_go.SkipList.Levels.{Entry, first_at, last_at, Matches}
use red_go.SkipList.Search.{From}
use red_go.SkipList.Splice.{Apart, IsUnique, splice_out}
use red_go.SkipList.Pointers.{
  written, set_next_lem, Frame, Frame-refl, Frame-trans, written-Frame, next-written_self,
  next-written_other, last_at-lt, Matches-Frame, From-same,
}

module _ {ℓ} {F : Type ℓ} where
  -- The predecessor on a level points to the first node behind it.
  pub From-last :
      (s : SkipList F) (i x : ℕ) (before after : List (Entry F))
      → From s i x (before ++ after)
      → next s (last_at i x before) i ≡ some (first_at i after)
  From-last s i x [] after (link, l) = link
  From-last s i x (e ∷ before) after (link, (le, l)) = elim (Bool-cases (ltb i e.height)) [
    | inl t ↦ rw t (From-last s i e.ptr before after (le t, l))
    | inr t ↦ rw t (From-last s i x before after (link ∙ ap some (rw t refl), l))
  ]

  -- A node points to the first node behind it.
  pub tall_next :
      (s : SkipList F) (i x : ℕ) (t : Entry F) (before after : List (Entry F))
      → From s i x (before ++ t ∷ after)
      → ltb i t.height ≡ true
      → next s t.ptr i ≡ some (first_at i after)
  tall_next s i x t [] after (link, (lt, l)) tall = lt tall
  tall_next s i x t (e ∷ before) after (link, (le, l)) tall = elim (Bool-cases (ltb i e.height)) [
    | inl te ↦ tall_next s i e.ptr t before after (le te, l) tall
    | inr te ↦ tall_next s i x t before after (link ∙ ap some (rw te refl), l) tall
  ]

  is_node-first_at :
      (i t : ℕ) (es : List (Entry F)) → Apart t es → is_node t (first_at i es) ≡ false
  is_node-first_at i t [] h = refl
  is_node-first_at i t (e ∷ es) (he, h) = ground (arith, is_node-first_at i t es h)

  module _ (s : SkipList F) (u i t count : ℕ) (update : List ℕ) where
    unlink_end :
        (p : Option ℕ)
        → get_elem? update i ≡ some u
        → next s u i ≡ some p
        → is_node t p ≡ false
        → unlink (suc count) i t update s ≡ some s
    unfolding unlink
    unlink_end p hu hp no_t = rw (hu, hp, no_t) refl

    unlink_step :
        (q : Option ℕ)
        → get_elem? update i ≡ some u
        → next s u i ≡ some (some t)
        → next s t i ≡ some q
        → i < length (s.nodes u).forward
        → unlink (suc count) i t update s ≡ unlink count (suc i) t update (written s u i q)
    unfolding unlink
    unlink_step q hu hp hq lu =
        let e : (t == t) ≡ true = ground arith in rw (hu, hp, e, hq, set_next_lem s u i q lu) refl

  -- The entry `t` leaves the levels from `i` on; nothing else changes.
  pub unlink_lem :
      (count i : ℕ) (update : List ℕ) (s : SkipList F) (t : Entry F) (before after : List (Entry F))
      → ((j : ℕ) → i ≤ j → j < i + count → get_elem? update j ≡ some (last_at j 0 before))
      → ((j : ℕ) → i ≤ j → j < i + count → From s j 0 (before ++ t ∷ after))
      → i ≤ t.height
      → t.height ≤ i + count
      → i + count ≤ length (s.nodes 0).forward
      → All (Matches s) before
      → Apart t.ptr after
      → Apart 0 (before ++ t ∷ after)
      → IsUnique (before ++ t ∷ after)
      → (s' : SkipList F) × (unlink count i t.ptr update s ≡ some s')
        × ((j : ℕ) → i ≤ j → j < t.height → From s' j 0 (before ++ after))
        × ((j y : ℕ) → (j < i) ⊎ (t.height ≤ j) → next s' y j ≡ next s y j)
        × Frame s s'
  unfolding unlink
  unlink_lem zero i update s t before after hu from hi hh h0 m ta a0 u =
      (s, refl, (λ j le lt. absurd (omega arith)), (λ j y h. refl), Frame-refl s)
  unlink_lem (suc count) i update s t before after hu from hi hh h0 m ta a0 u =
      let v : ℕ = last_at i 0 before in
      let at_v : get_elem? update i ≡ some v = hu i (omega arith) (omega arith) in
      let at_next : next s v i ≡ some (first_at i (t ∷ after)) =
        From-last s i 0 before (t ∷ after) (from i (omega arith) (omega arith)) in
      elim (Bool-cases (ltb i t.height)) [
        | inr low ↦ (
          s,
          unlink_end s v i t.ptr count update (first_at i after) at_v
              (at_next ∙ ap some (rw low refl)) (is_node-first_at i t.ptr after ta),
          (λ j le lt. absurd (ground arith)),
          (λ j y h. refl),
          Frame-refl s,
        )
        | inl tall ↦
            let q : Option ℕ = first_at i after in
            let lv : i < length (s.nodes v).forward = last_at-lt s i 0 before m (omega arith) in
            let at_t : next s t.ptr i ≡ some q =
              tall_next s i 0 t before after (from i (omega arith) (omega arith)) tall in
            let s₂ : SkipList F = written s v i q in
            let f : Frame s s₂ = written-Frame s v i q in
            let low : From s₂ i 0 (before ++ after) =
              splice_out s s₂ i 0 t before after tall (next-written_self s v i q lv ∙ sym at_t)
                (λ y vy. next-written_other s v i q y i (inl vy)) a0 u
                (from i (omega arith) (omega arith)) in
            let (s', e, done, same, g) =
              unlink_lem count (suc i) update s₂ t before after
                (λ j le lt. hu j (omega arith) (omega arith))
                (λ j le lt.
                  From-same s s₂ j 0 (before ++ t ∷ after)
                    (λ y. next-written_other s v i q y j (inr (omega arith)))
                    (from j (omega arith) (omega arith)))
                (ground arith) (omega arith) (omega (arith, f.heights 0))
                (Matches-Frame s s₂ before f m) ta a0 u in
            (
              s',
              unlink_step s v i t.ptr count update q at_v (at_next ∙ ap some (rw tall refl)) at_t lv
                  ∙ e,
              (λ j le lt. elim (Bool-cases (i == j)) [
                | inl eq ↦
                    subst (λ k. From s' k 0 (before ++ after)) ((==_iff i j).0 eq)
                      (From-same s₂ s' i 0 (before ++ after) (λ y. same i y (inl (omega arith)))
                        low)
                | inr ne ↦ done j (ground arith) lt
              ]),
              (λ j y h.
                  same j y (ground arith) ∙ next-written_other s v i q y j (inr (ground arith))),
              Frame-trans s s₂ s' f g,
            )
      ]
