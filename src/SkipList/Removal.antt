-- ===== src/SkipList/Removal.antt =====
-- The fields of a skip list behind the removal of a node.
use red_go.Base.{
  ℕ, zero, suc, ◌-◌, ◌<◌, ◌≤◌, true, false, List, [], ◌∷◌, ◌++◌, Option, none, some, get_elem?, ltb,
  ◌==◌, if◌then◌else◌, ◌≡◌, ◌≢◌, inl, inr, refl, ap, sym, ◌∙◌, arith, All, Bool-cases, Option-cases,
  append-nil,
}
use red_go.SkipList.{SkipList, max_level, next, is_node, reached, lower}
use red_go.SkipList.Levels.{Entry, first_at, last_at}
use red_go.SkipList.Search.{From}
use red_go.SkipList.Splice.{Apart, IsUnique}
use red_go.SkipList.NewNode.{last_ptr-append}
use red_go.SkipList.Valid.{last_ptr}

pub reached_get : (xs : List ℕ) (x : ℕ) → get_elem? xs 0 ≡ some x → reached xs ≡ x
reached_get [] x h = absurd (cc)
reached_get (y ∷ xs) x h = cc

module _ {ℓ} {F : Type ℓ} where
  pub first_at-none :
      (k : ℕ) (es : List (Entry F))
      → first_at k es ≡ none
      → All (λ e. (0 < e.height) × (e.height ≤ suc k)) es
      → All (λ e. (0 < e.height) × (e.height ≤ k)) es
  first_at-none k [] h a = tt
  first_at-none k (e ∷ es) h ((p, q), a) = elim (Bool-cases (ltb k e.height)) [
    | inl t ↦ absurd (ground arith)
    | inr t ↦ ((p, ground arith), first_at-none k es (ground arith) a)
  ]

  -- The level that is left is enough for all nodes.
  pub lower_lem :
      (s : SkipList F) (k : ℕ) (es : List (Entry F))
      → 1 ≤ k
      → k ≤ max_level
      → ((j : ℕ) → j < max_level → From s j 0 es)
      → All (λ e. (0 < e.height) × (e.height ≤ k)) es
      → (l : ℕ) × (lower s k ≡ some l)
        × (1 ≤ l)
        × (l ≤ k)
        × All (λ e. (0 < e.height) × (e.height ≤ l)) es
  unfolding lower
  lower_lem s zero es pos le from a = absurd (omega arith)
  lower_lem s (suc zero) es pos le from a = (1, refl, pos, omega arith, a)
  lower_lem s (suc (suc n)) es pos le from a =
      let link : next s 0 (suc n) ≡ some (first_at (suc n) es) = (from (suc n) (omega arith)).0 in
      elim (Option-cases (first_at (suc n) es)) [
        | inl e ↦
            let (l, el, l₁, l₂, al) =
              lower_lem s (suc n) es (omega arith) (omega arith) from
                (first_at-none (suc n) es e a) in
            (l, rw (link, e) el, l₁, omega arith, al)
        | inr (y, e) ↦ (suc (suc n), rw (link, e) refl, pos, omega arith, a)
      ]

  pub is_node-last_ptr :
      (t : ℕ) (p : Option ℕ) (es : List (Entry F))
      → is_node t p ≡ false
      → Apart t es
      → is_node t (last_ptr p es) ≡ false
  is_node-last_ptr t p [] h a = h
  is_node-last_ptr t p (e ∷ es) h (ae, a) = is_node-last_ptr t (some e.ptr) es (ground arith) a

  -- The last node, from the last node of level 0
  pub last_ptr-last_at :
      (x : ℕ) (k : ℕ) (es : List (Entry F))
      → All (λ e. (0 < e.height) × (e.height ≤ k)) es
      → Apart 0 es
      → (if last_at 0 x es == 0 then none else some (last_at 0 x es))
        ≡ last_ptr (if x == 0 then none else some x) es
  last_ptr-last_at x k [] h a = refl
  last_ptr-last_at x k (e ∷ es) ((p, q), h) (ae, a) =
      let tall : ltb 0 e.height ≡ true = ground arith in
      let ne : (e.ptr == 0) ≡ false = ground arith in
      rw tall (
        last_ptr-last_at e.ptr k es h a ∙ ap (λ b. last_ptr (if b then none else some e.ptr) es) ne)

  -- The tail behind a removal
  pub tail_lem :
      (t : Entry F) (k : ℕ) (xs ys : List (Entry F))
      → All (λ e. (0 < e.height) × (e.height ≤ k)) xs
      → Apart 0 xs
      → Apart t.ptr ys
      → (if is_node t.ptr (last_ptr none (xs ++ t ∷ ys))
          then (if last_at 0 0 xs == 0 then none else some (last_at 0 0 xs))
          else last_ptr none (xs ++ t ∷ ys))
        ≡ last_ptr none (xs ++ ys)
  tail_lem t k xs [] h a tys =
      let e : is_node t.ptr (last_ptr none (xs ++ t ∷ [])) ≡ true =
        ap (is_node t.ptr) (last_ptr-append none xs (t ∷ [])) ∙ ground arith in
      rw e (last_ptr-last_at 0 k xs h a ∙ ap (last_ptr none) (sym (append-nil xs)))
  tail_lem t k xs (y ∷ ys) h a (ty, tys) =
      let e : last_ptr none (xs ++ t ∷ y ∷ ys) ≡ last_ptr (some y.ptr) ys =
        last_ptr-append none xs (t ∷ y ∷ ys) in
      rw (e, is_node-last_ptr t.ptr (some y.ptr) ys (ground arith) tys)
        (sym (last_ptr-append none xs (y ∷ ys)))

  pub All-remove {κ} :
      (P : Entry F → Type κ) (t : Entry F) (xs ys : List (Entry F))
      → All P (xs ++ t ∷ ys)
      → All P (xs ++ ys)
  All-remove P t [] ys (_, h) = h
  All-remove P t (x ∷ xs) ys (hx, h) = (hx, All-remove P t xs ys h)

  pub IsUnique-remove :
      (t : Entry F) (xs ys : List (Entry F))
      → IsUnique (xs ++ t ∷ ys)
      → IsUnique (xs ++ ys) × Apart t.ptr ys
  IsUnique-remove t [] ys (a, u) = (u, a)
  IsUnique-remove t (x ∷ xs) ys (ux, u) =
      let (v, a) = IsUnique-remove t xs ys u in ((All-remove (λ e. x.ptr ≢ e.ptr) t xs ys ux, v), a)

  -- The fields behind the loops of `Delete`
  abbrev pub after_delete : ℕ → ℕ → ℕ → SkipList F → SkipList F
  after_delete t u l s = record s {
    tail = if is_node t s.tail then (if u == 0 then none else some u) else s.tail;
    level = l;
    length = s.length - 1;
  }

  -- Whether the node behind the search is the one to delete
  pub first_lem :
      (k : ℕ) (e : Entry F) (es : List (Entry F))
      → (0 < e.height) × (e.height ≤ k)
      → first_at 0 (e ∷ es) ≡ some e.ptr
  first_lem k e es (p, q) = let t : ltb 0 e.height ≡ true = ground arith in rw t refl
