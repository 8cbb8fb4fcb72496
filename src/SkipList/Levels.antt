-- ===== src/SkipList/Levels.antt =====
-- The levels of a skip list as lists of entries, and the loop of one level.
use red_go.Base.{
  ℕ, zero, suc, ◌<◌, Bool, true, false, List, [], ◌∷◌, ◌++◌, Option, none, some, length, ltb,
  if◌then◌else◌, ◌≡◌, ◌⊎◌, inl, inr, refl, ap, ◌∙◌, arith, All, Bool-cases,
}
use red_go.Score.{Item}
use red_go.SkipList.{SkipList, next, walk}

-- A node of the list: its number, the number of its levels, its member and its score
pub record Entry {ℓ} (F : Type ℓ) : Type ℓ where
  pub ptr : ℕ
  pub height : ℕ
  pub item : Item F

module _ {ℓ} {F : Type ℓ} where
  -- The first of some nodes that stands on level `i`
  abbrev pub first_at : ℕ → List (Entry F) → Option ℕ
  first_at i [] = none
  first_at i (e ∷ es) = if ltb i e.height then some e.ptr else first_at i es

  -- The last of them that does, or `x`
  abbrev pub last_at : ℕ → ℕ → List (Entry F) → ℕ
  last_at i x [] = x
  last_at i x (e ∷ es) = if ltb i e.height then last_at i e.ptr es else last_at i x es

  abbrev pub Linked : SkipList F → ℕ → ℕ → List (Entry F) → Type 0
  Linked s i x es = next s x i ≡ some (first_at i es)

  -- Level `i` of each node points to the next node on that level.
  abbrev pub Level : SkipList F → ℕ → List (Entry F) → Type 0
  Level s i [] = Unit
  Level s i (e ∷ es) = (ltb i e.height ≡ true → Linked s i e.ptr es) × Level s i es

  -- The node holds what the entry says.
  abbrev pub Matches : SkipList F → Entry F → Type ℓ
  Matches s e = ((s.nodes e.ptr).item ≡ e.item) × (length (s.nodes e.ptr).forward ≡ e.height)

  first_at_cases :
      (s : SkipList F) (test : Item F → Bool) (i : ℕ) (es : List (Entry F))
      → All (Matches s) es
      → All (λ e. test e.item ≡ false) es
      → (first_at i es ≡ none)
        ⊎ ((p : ℕ) × (first_at i es ≡ some p) × (test (s.nodes p).item ≡ false))
  first_at_cases s test i [] m h = inl refl
  first_at_cases s test i (e ∷ es) ((same_item, n), m) (he, h) =
      elim (Bool-cases (ltb i e.height)) [
        | inl t ↦ inr (e.ptr, rw t refl, ap test same_item ∙ he)
        | inr t ↦ rw t (first_at_cases s test i es m h)
      ]

  module _ (s : SkipList F) (test : Item F → Bool) (i fuel x : ℕ) where
    walk_end : next s x i ≡ some none → walk (suc fuel) s test i x ≡ some x
    unfolding walk
    walk_end e = rw (walk, e) refl

    walk_stop :
        (y : ℕ)
        → next s x i ≡ some (some y)
        → test (s.nodes y).item ≡ false
        → walk (suc fuel) s test i x ≡ some x
    unfolding walk
    walk_stop y e t = rw (walk, e, t) refl

    walk_on :
        (y : ℕ)
        → next s x i ≡ some (some y)
        → test (s.nodes y).item ≡ true
        → walk (suc fuel) s test i x ≡ walk fuel s test i y
    unfolding walk
    walk_on y e t = rw (walk, e, t) refl

  -- The loop of one level stops at the last node of the level that passes the test.
  pub walk_lem :
      (s : SkipList F) (test : Item F → Bool) (i : ℕ) (fuel : ℕ) (x : ℕ)
      (before after : List (Entry F))
      → length before < fuel
      → Linked s i x (before ++ after)
      → Level s i (before ++ after)
      → All (Matches s) before
      → All (Matches s) after
      → All (λ e. test e.item ≡ true) before
      → All (λ e. test e.item ≡ false) after
      → walk fuel s test i x ≡ some (last_at i x before)
  unfolding walk
  walk_lem s test i zero x before after enough link l m n h k = absurd (omega arith)
  walk_lem s test i (suc fuel) x [] after enough link l m n h k =
      elim (first_at_cases s test i after n k) [
        | inl e ↦ walk_end s test i fuel x (link ∙ ap some e)
        | inr (p, e, t) ↦ walk_stop s test i fuel x p (link ∙ ap some e) t
      ]
  walk_lem s test i (suc fuel) x (e ∷ before) after enough link (le, l) (me, m) n (he, h) k =
      elim (Bool-cases (ltb i e.height)) [
        | inl t ↦
            walk_on s test i fuel x e.ptr (link ∙ ap some (rw t refl)) (ap test (me.0) ∙ he)
            ∙ walk_lem s test i fuel e.ptr before after (omega arith) (le t) l m n h k
            ∙ rw t refl
        | inr t ↦ rw t (
            walk_lem s test i (suc fuel) x before after (omega arith) (link ∙ ap some (rw t refl)) l
              m n h k)
      ]
