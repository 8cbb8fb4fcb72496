-- ===== src/SkipList/Splice.antt =====
-- A level of a skip list behind a change of its pointers.
use red_go.Base.{
  ℕ, true, false, List, [], ◌∷◌, ◌++◌, some, ltb, if◌then◌else◌, ◌≡◌, ◌≢◌, inl, inr, refl, ap, sym,
  ◌∙◌, All, Bool-cases,
}
use red_go.SkipList.{SkipList, next}
use red_go.SkipList.Levels.{Entry, first_at, last_at, Level}
use red_go.SkipList.Search.{From}

module _ {ℓ} {F : Type ℓ} where
  -- A node is none of some others.
  abbrev pub Apart : ℕ → List (Entry F) → Type 0
  Apart x = All (λ (e : Entry F). x ≢ e.ptr)

  abbrev pub IsUnique : List (Entry F) → Type 0
  IsUnique [] = Unit
  IsUnique (e ∷ es) = Apart e.ptr es × IsUnique es

  pub last_at-ne : (i z x : ℕ) (es : List (Entry F)) → z ≢ x → Apart z es → z ≢ last_at i x es
  last_at-ne i z x [] ne h = ne
  last_at-ne i z x (e ∷ es) ne (he, h) =
      elim (ltb i e.height) as (λ b. z ≢ (if b then last_at i e.ptr es else last_at i x es)) [
        | true ↦ last_at-ne i z e.ptr es he h
        | false ↦ last_at-ne i z x es ne h
      ]

  pub first_at_tall :
      (i : ℕ) (e : Entry F) (es : List (Entry F))
      → ltb i e.height ≡ true
      → first_at i (e ∷ es) ≡ some e.ptr
  first_at_tall i e es t = rw t refl

  pub first_at_low :
      (i : ℕ) (e : Entry F) (es : List (Entry F))
      → ltb i e.height ≡ false
      → first_at i (e ∷ es) ≡ first_at i es
  first_at_low i e es t = rw t refl

  -- The levels of two lists on which some nodes have the same pointers
  pub Level-same :
      (s s' : SkipList F) (i : ℕ) (es : List (Entry F))
      → All (λ e. next s' e.ptr i ≡ next s e.ptr i) es
      → Level s i es
      → Level s' i es
  Level-same s s' i [] h l = tt
  Level-same s s' i (e ∷ es) (he, h) (le, l) = (λ t. he ∙ le t, Level-same s s' i es h l)

  All-two :
      (P : ℕ → Type 0) (a b : ℕ) (es : List (Entry F))
      → ((y : ℕ) → a ≢ y → b ≢ y → P y)
      → Apart a es
      → Apart b es
      → All (λ e. P e.ptr) es
  All-two P a b [] h ha hb = tt
  All-two P a b (e ∷ es) h (hae, ha) (hbe, hb) = (h e.ptr hae hbe, All-two P a b es h ha hb)

  pub Apart-append :
      (z : ℕ) (before after : List (Entry F))
      → Apart z (before ++ after)
      → Apart z before × Apart z after
  Apart-append z [] after h = (tt, h)
  Apart-append z (e ∷ before) after (he, h) =
      let (hb, ha) = Apart-append z before after h in ((he, hb), ha)

  -- The new entry `n` stands on level `i`: its predecessor there points to it, and it to the next.
  pub splice_in :
      (s s' : SkipList F) (i x : ℕ) (n : Entry F) (before after : List (Entry F))
      → ltb i n.height ≡ true
      → next s' (last_at i x before) i ≡ some (some n.ptr)
      → next s' n.ptr i ≡ next s (last_at i x before) i
      → ((y : ℕ) → last_at i x before ≢ y → n.ptr ≢ y → next s' y i ≡ next s y i)
      → n.ptr ≢ x
      → Apart n.ptr (before ++ after)
      → Apart x (before ++ after)
      → IsUnique (before ++ after)
      → From s i x (before ++ after)
      → From s' i x (before ++ n ∷ after)
  splice_in s s' i x n [] after t hu hn same nx an ax u (link, l) = (
    hu ∙ ap some (sym (first_at_tall i n after t)),
    (
      (λ _. hn ∙ link),
      Level-same s s' i after (All-two (λ y. next s' y i ≡ next s y i) x n.ptr after same ax an) l,
    ),
  )
  splice_in s s' i x n (e ∷ before) after t hu hn same nx (ne, an) (xe, ax) (ue, u)
        (link, (le, l)) =
      elim (Bool-cases (ltb i e.height)) [
        | inl te ↦
            let at : last_at i x (e ∷ before) ≡ last_at i e.ptr before = rw te refl in
            let (link', l') =
              splice_in s s' i e.ptr n before after t (ap (λ u. next s' u i) (sym at) ∙ hu)
                (hn ∙ ap (λ u. next s u i) at) (λ y ny. same y (λ q. ny (sym at ∙ q))) ne an ue u
                (le te, l) in
            (
              same x
                    (λ q.
                      last_at-ne i x e.ptr before xe ((Apart-append x before after ax).0)
                        (sym q ∙ at))
                    nx
                  ∙ link
                  ∙ ap some (first_at_tall i e (before ++ after) te)
                  ∙ ap some (sym (first_at_tall i e (before ++ n ∷ after) te)),
              ((λ _. link'), l'),
            )
        | inr te ↦
            let at : last_at i x (e ∷ before) ≡ last_at i x before = rw te refl in
            let (link', l') =
              splice_in s s' i x n before after t (ap (λ u. next s' u i) (sym at) ∙ hu)
                (hn ∙ ap (λ u. next s u i) at) (λ y ny. same y (λ q. ny (sym at ∙ q))) nx an ax u
                (link ∙ ap some (first_at_low i e (before ++ after) te), l) in
            (
              link' ∙ ap some (sym (first_at_low i e (before ++ n ∷ after) te)),
              ((λ t'. absurd (cc)), l'),
            )
      ]

  -- The entry `t` leaves level `i`: its predecessor there points to the node behind it.
  pub splice_out :
      (s s' : SkipList F) (i x : ℕ) (t : Entry F) (before after : List (Entry F))
      → ltb i t.height ≡ true
      → next s' (last_at i x before) i ≡ next s t.ptr i
      → ((y : ℕ) → last_at i x before ≢ y → next s' y i ≡ next s y i)
      → Apart x (before ++ t ∷ after)
      → IsUnique (before ++ t ∷ after)
      → From s i x (before ++ t ∷ after)
      → From s' i x (before ++ after)
  splice_out s s' i x t [] after tall hu same (xt, ax) (ta, u) (link, (lt, l)) = (
    hu ∙ lt tall,
    Level-same s s' i after
        (All-two (λ y. next s' y i ≡ next s y i) x x after (λ y p q. same y p) ax ax) l,
  )
  splice_out s s' i x t (e ∷ before) after tall hu same (xe, ax) (ue, u) (link, (le, l)) =
      elim (Bool-cases (ltb i e.height)) [
        | inl te ↦
            let at : last_at i x (e ∷ before) ≡ last_at i e.ptr before = rw te refl in
            let (link', l') =
              splice_out s s' i e.ptr t before after tall (ap (λ u. next s' u i) (sym at) ∙ hu)
                (λ y ny. same y (λ q. ny (sym at ∙ q))) ue u (le te, l) in
            (
              same x (λ q.
                    last_at-ne i x e.ptr before xe ((Apart-append x before (t ∷ after) ax).0)
                      (sym q ∙ at))
                  ∙ link
                  ∙ ap some (first_at_tall i e (before ++ t ∷ after) te)
                  ∙ ap some (sym (first_at_tall i e (before ++ after) te)),
              ((λ _. link'), l'),
            )
        | inr te ↦
            let at : last_at i x (e ∷ before) ≡ last_at i x before = rw te refl in
            let (link', l') =
              splice_out s s' i x t before after tall (ap (λ u. next s' u i) (sym at) ∙ hu)
                (λ y ny. same y (λ q. ny (sym at ∙ q))) ax u
                (link ∙ ap some (first_at_low i e (before ++ t ∷ after) te), l) in
            (
              link' ∙ ap some (sym (first_at_low i e (before ++ after) te)),
              ((λ t'. absurd (cc)), l'),
            )
      ]

  first_at_over :
      (i : ℕ) (n : Entry F) (before after : List (Entry F))
      → ltb i n.height ≡ false
      → first_at i (before ++ n ∷ after) ≡ first_at i (before ++ after)
  first_at_over i n [] after low = first_at_low i n after low
  first_at_over i n (e ∷ before) after low = rw (first_at_over i n before after low) refl

  Level-over :
      (s : SkipList F) (i : ℕ) (n : Entry F) (before after : List (Entry F))
      → ltb i n.height ≡ false
      → Level s i (before ++ after)
      → Level s i (before ++ n ∷ after)
  Level-over s i n [] after low l = ((λ t. absurd (cc)), l)
  Level-over s i n (e ∷ before) after low (le, l) = (
    (λ t. le t ∙ ap some (sym (first_at_over i n before after low))),
    Level-over s i n before after low l,
  )

  -- A level on which the entry `n` does not stand, with and without it
  pub From-over :
      (s : SkipList F) (i x : ℕ) (n : Entry F) (before after : List (Entry F))
      → ltb i n.height ≡ false
      → From s i x (before ++ after)
      → From s i x (before ++ n ∷ after)
  From-over s i x n before after low (link, l) = (
    link ∙ ap some (sym (first_at_over i n before after low)),
    Level-over s i n before after low l,
  )

  Level-without :
      (s : SkipList F) (i : ℕ) (n : Entry F) (before after : List (Entry F))
      → ltb i n.height ≡ false
      → Level s i (before ++ n ∷ after)
      → Level s i (before ++ after)
  Level-without s i n [] after low (ln, l) = l
  Level-without s i n (e ∷ before) after low (le, l) = (
    (λ t. le t ∙ ap some (first_at_over i n before after low)),
    Level-without s i n before after low l,
  )

  pub From-without :
      (s : SkipList F) (i x : ℕ) (n : Entry F) (before after : List (Entry F))
      → ltb i n.height ≡ false
      → From s i x (before ++ n ∷ after)
      → From s i x (before ++ after)
  From-without s i x n before after low (link, l) =
      (link ∙ ap some (first_at_over i n before after low), Level-without s i n before after low l)
