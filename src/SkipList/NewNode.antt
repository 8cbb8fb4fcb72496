-- ===== src/SkipList/NewNode.antt =====
-- The new node of `Insert`: its level, and the list around it.
use red_go.Base.{
  ℕ, zero, suc, ◌+◌, ◌-◌, ◌<◌, ◌≤◌, Bool, true, false, List, [], ◌∷◌, ◌++◌, Option, none, some,
  length, get_elem?, ltb, ◌==◌, ◌≡◌, ◌≢◌, refl, ap, sym, ◌∙◌, arith, All, length-replicate,
}
use red_go.Score.{Item}
use red_go.SkipList.{Node, SkipList, max_level, next, climb, random_level, with_node}
use red_go.SkipList.Levels.{Entry, first_at, last_at, Matches}
use red_go.SkipList.Splice.{Apart, IsUnique}
use red_go.SkipList.Valid.{items, last_ptr}

pub climb-le :
    (n level : ℕ) (draws : ℕ → Bool)
    → (level ≤ climb n draws level) × (climb n draws level ≤ level + n)
unfolding climb
climb-le zero level draws = (omega arith, omega arith)
climb-le (suc n) level draws = ground (arith, climb-le n (suc level) draws)

-- Whatever the draws are, `randomLevel` gives a level from 1 to 16.
pub random_level-range :
    (draws : ℕ → Bool) → (1 ≤ random_level draws) × (random_level draws ≤ max_level)
unfolding random_level
random_level-range draws = climb-le (max_level - 1) 1 draws

module _ {ℓ} {F : Type ℓ} where
  -- No node of a list of `k` levels stands on a higher one.
  pub last_at_above :
      (k i x : ℕ) (es : List (Entry F))
      → All (λ e. (0 < e.height) × (e.height ≤ k)) es
      → k ≤ i
      → last_at i x es ≡ x
  last_at_above k i x [] h le = refl
  last_at_above k i x (e ∷ es) (he, h) le =
      let t : ltb i e.height ≡ false = ground arith in rw t (last_at_above k i x es h le)

  pub last_ptr-append :
      (p : Option ℕ) (xs ys : List (Entry F)) → last_ptr p (xs ++ ys) ≡ last_ptr (last_ptr p xs) ys
  last_ptr-append p [] ys = refl
  last_ptr-append p (x ∷ xs) ys = last_ptr-append (some x.ptr) xs ys

  pub All-lt-Apart : (n : ℕ) (es : List (Entry F)) → All (λ e. e.ptr < n) es → Apart n es
  All-lt-Apart n [] h = tt
  All-lt-Apart n (e ∷ es) (he, h) = ((λ q. absurd (omega arith)), All-lt-Apart n es h)

  pub IsUnique-insert :
      (n : Entry F) (xs ys : List (Entry F))
      → Apart n.ptr (xs ++ ys)
      → IsUnique (xs ++ ys)
      → IsUnique (xs ++ n ∷ ys)
  IsUnique-insert n [] ys a u = (a, u)
  IsUnique-insert n (x ∷ xs) ys (nx, a) (ux, u) = (apart xs ux, IsUnique-insert n xs ys a u)
    where
      apart : (xs : List (Entry F)) → Apart x.ptr (xs ++ ys) → Apart x.ptr (xs ++ n ∷ ys)
      apart [] h = ((λ q. nx (sym q)), h)
      apart (e ∷ xs) (he, h) = (he, apart xs h)

  pub map-append : (xs ys : List (Entry F)) → items (xs ++ ys) ≡ items xs ++ items ys
  map-append [] ys = refl
  map-append (x ∷ xs) ys = ap (◌∷◌ x.item) (map-append xs ys)

  -- The list with its new node, to which nothing points yet
  module _ (s : SkipList F) (x : Item F) (height : ℕ) where
    pub node_self : ((with_node x height s).nodes s.allocated).item ≡ x
    node_self = let e : (s.allocated == s.allocated) ≡ true = ground arith in rw e refl

    pub node_height : length ((with_node x height s).nodes s.allocated).forward ≡ height
    node_height =
        let e : (s.allocated == s.allocated) ≡ true = ground arith in
        rw e (length-replicate height none)

    pub node_other : (y : ℕ) → s.allocated ≢ y → (with_node x height s).nodes y ≡ s.nodes y
    node_other y ne = let e : (s.allocated == y) ≡ false = ground arith in rw e refl

    pub next-with_node :
        (j : ℕ) (es : List (Entry F))
        → Apart s.allocated es
        → All (λ e. next (with_node x height s) e.ptr j ≡ next s e.ptr j) es
    next-with_node j [] h = tt
    next-with_node j (e ∷ es) (he, h) =
        (ap (λ (n : Node F). get_elem? n.forward j) (node_other e.ptr he), next-with_node j es h)

    pub Matches-with_node :
        (es : List (Entry F))
        → Apart s.allocated es
        → All (Matches s) es
        → All (Matches (with_node x height s)) es
    Matches-with_node [] h m = tt
    Matches-with_node (e ∷ es) (he, h) ((mi, mh), m) = (
      (
        ap (λ (n : Node F). n.item) (node_other e.ptr he) ∙ mi,
        ap (λ (n : Node F). length n.forward) (node_other e.ptr he) ∙ mh,
      ),
      Matches-with_node es h m,
    )

  pub heights_mono :
      (k l : ℕ) (es : List (Entry F))
      → k ≤ l
      → All (λ e. (0 < e.height) × (e.height ≤ k)) es
      → All (λ e. (0 < e.height) × (e.height ≤ l)) es
  heights_mono k l [] le h = tt
  heights_mono k l (e ∷ es) le ((p, q), h) = ((p, omega arith), heights_mono k l es le h)

  pub made_mono :
      (k l : ℕ) (es : List (Entry F)) → k ≤ l → All (λ e. e.ptr < k) es → All (λ e. e.ptr < l) es
  made_mono k l [] le h = tt
  made_mono k l (e ∷ es) le (p, h) = (omega arith, made_mono k l es le h)

  -- The tail behind an insertion
  pub tail_lem :
      (n : Entry F) (t : Option ℕ) (k : ℕ) (xs ys : List (Entry F))
      → All (λ e. (0 < e.height) × (e.height ≤ k)) ys
      → t ≡ last_ptr none (xs ++ ys)
      → (elim (first_at 0 ys) as (λ o. Option ℕ) [ none ↦ some n.ptr | some y ↦ t ])
        ≡ last_ptr none (xs ++ n ∷ ys)
  tail_lem n t k xs [] h e = sym (last_ptr-append none xs (n ∷ []))
  tail_lem n t k xs (y ∷ ys) ((hy, _), h) e =
      let tall : ltb 0 y.height ≡ true = ground arith in
      rw (tall, e, last_ptr-append none xs (y ∷ ys), last_ptr-append none xs (n ∷ y ∷ ys)) refl
