-- ===== src/Score.antt =====
-- The scores of datastruct/skiplist/skiplist.go and datastruct/zset/zset.go: `float64`, with the
-- tests that the source makes, and the order of the entries of a skip list.
use red_go.Base.{
  ℕ, Bool, true, false, not, ◌&&◌, ◌||◌, [], ◌∷◌, Bytes, ltb, ◌==◌, eq_bytes, eq_bytes_iff, ◌≡◌,
  refl, arith,
}

-- The numbers of `float64` without NaN: 0, `<` and `==`, with what IEEE 754 says of them. Two numbers
-- that are `same` need not be one: 0 and -0.
pub record Score {ℓ} (F : Type ℓ) : Type ℓ where
  pub nought : F
  pub less : F → F → Bool
  pub same : F → F → Bool
  pub less_asym : (a b : F) → less a b ≡ true → less b a ≡ false
  pub less_cotrans : (a b c : F) → less a c ≡ true → (less a b || less b c) ≡ true
  pub same_less : (a b : F) → same a b ≡ not (less a b || less b a)

-- `float64` as the 64 bits of a number, where the scores stand in a database
abbrev pub Float64 : Type 0
Float64 = ℕ

-- `a < b` on strings
unfoldable pub ltb_bytes : Bytes → Bytes → Bool
ltb_bytes s [] = false
ltb_bytes [] (b ∷ t) = true
ltb_bytes (a ∷ s) (b ∷ t) = ltb a b || (a == b && ltb_bytes s t)

pub ltb_bytes_asym : (s t : Bytes) → ltb_bytes s t ≡ true → ltb_bytes t s ≡ false
unfolding ltb_bytes
ltb_bytes_asym [] [] h = refl
ltb_bytes_asym (a ∷ s) [] h = absurd (cc)
ltb_bytes_asym [] (b ∷ t) h = refl
ltb_bytes_asym (a ∷ s) (b ∷ t) h = ground (arith, ltb_bytes_asym s t)

pub ltb_bytes_cotrans :
    (s t u : Bytes) → ltb_bytes s u ≡ true → (ltb_bytes s t || ltb_bytes t u) ≡ true
unfolding ltb_bytes
ltb_bytes_cotrans s t [] h = ground arith
ltb_bytes_cotrans [] [] (c ∷ u) h = refl
ltb_bytes_cotrans [] (b ∷ t) (c ∷ u) h = refl
ltb_bytes_cotrans (a ∷ s) [] (c ∷ u) h = refl
ltb_bytes_cotrans (a ∷ s) (b ∷ t) (c ∷ u) h = ground (arith, ltb_bytes_cotrans s t u)

pub ltb_bytes_tri :
    (s t : Bytes) → ltb_bytes s t ≡ false → ltb_bytes t s ≡ false → eq_bytes s t ≡ true
unfolding ltb_bytes eq_bytes
ltb_bytes_tri [] [] h k = refl
ltb_bytes_tri (a ∷ s) [] h k = absurd (cc)
ltb_bytes_tri [] (b ∷ t) h k = absurd (cc)
ltb_bytes_tri (a ∷ s) (b ∷ t) h k = ground (arith, ltb_bytes_tri s t)

-- A member with its score
pub record Item {ℓ} (F : Type ℓ) : Type ℓ where
  pub member : Bytes
  pub score : F

module _ {ℓ} {F : Type ℓ} ⦃f : Score F⦄ where
  -- `a.Score < b.Score || (a.Score == b.Score && a.Member < b.Member)`
  abbrev pub before : Item F → Item F → Bool
  before a b = f.less a.score b.score || (f.same a.score b.score && ltb_bytes a.member b.member)

  -- `a.Score == b.Score && a.Member == b.Member`
  abbrev pub equals : Item F → Item F → Bool
  equals a b = f.same a.score b.score && eq_bytes a.member b.member

  -- `a <= b`
  abbrev pub at_most : F → F → Bool
  at_most a b = f.less a b || f.same a b

  pub before_asym : (a b : Item F) → before a b ≡ true → before b a ≡ false
  before_asym a b = ground (
    arith,
    f.less_asym a.score b.score,
    f.same_less a.score b.score,
    f.same_less b.score a.score,
    ltb_bytes_asym a.member b.member,
  )

  pub before_cotrans : (a b c : Item F) → before a c ≡ true → (before a b || before b c) ≡ true
  before_cotrans a b c = ground (
    arith,
    f.less_cotrans a.score b.score c.score,
    f.less_cotrans a.score c.score b.score,
    f.less_cotrans b.score a.score c.score,
    f.less_cotrans c.score a.score b.score,
    f.less_cotrans b.score c.score a.score,
    f.same_less a.score b.score,
    f.same_less b.score c.score,
    f.same_less a.score c.score,
    ltb_bytes_cotrans a.member b.member c.member,
  )

  pub before_tri : (a b : Item F) → before a b ≡ false → before b a ≡ false → equals a b ≡ true
  before_tri a b = ground (
    arith,
    f.same_less a.score b.score,
    f.same_less b.score a.score,
    ltb_bytes_tri a.member b.member,
  )

  pub equals_not_before : (a b : Item F) → equals a b ≡ true → before a b ≡ false
  equals_not_before a b = ground (
    arith,
    f.same_less a.score b.score,
    f.less_asym a.score b.score,
    ltb_bytes_asym a.member b.member,
    eq_bytes_iff a.member b.member,
  )

  pub equals_not_after : (a b : Item F) → equals a b ≡ true → before b a ≡ false
  equals_not_after a b = ground (
    arith,
    f.same_less a.score b.score,
    f.same_less b.score a.score,
    ltb_bytes_asym b.member a.member,
    eq_bytes_iff a.member b.member,
  )
