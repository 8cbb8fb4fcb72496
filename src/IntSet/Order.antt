-- ===== src/IntSet/Order.antt =====
-- Ascending lists of integers: membership, the place of a value, insertion and removal.
use red_go.Base.{
  ℕ, zero, suc, ◌<◌, ◌≤◌, Bool, true, false, ◌||◌, List, [], ◌∷◌, some, length, get_elem?, ◌==◌,
  if◌then◌else◌, ℤ, pos, negsuc, ltb_ℤ, ◌≡◌, ◌↔◌, refl, arith, All,
}

abbrev pub eq_ℤ : ℤ → ℤ → Bool
eq_ℤ (pos a) (pos b) = a == b
eq_ℤ (negsuc a) (negsuc b) = a == b
eq_ℤ (pos a) (negsuc b) = false
eq_ℤ (negsuc a) (pos b) = false

pub eq_ℤ_iff : (a b : ℤ) → (eq_ℤ a b ≡ true) ↔ (a ≡ b)
eq_ℤ_iff (pos a) (pos b) = ground arith
eq_ℤ_iff (pos a) (negsuc b) = ground arith
eq_ℤ_iff (negsuc a) (pos b) = ground arith
eq_ℤ_iff (negsuc a) (negsuc b) = ground arith

-- The order of the integers is a strict linear order.
pub ltb_ℤ_trans : (a b c : ℤ) → ltb_ℤ a b ≡ true → ltb_ℤ b c ≡ true → ltb_ℤ a c ≡ true
ltb_ℤ_trans a b c h k = ground arith

pub ltb_ℤ_irrefl : (a : ℤ) → ltb_ℤ a a ≡ false
ltb_ℤ_irrefl a = ground arith

pub ltb_ℤ_asym : (a b : ℤ) → ltb_ℤ a b ≡ true → ltb_ℤ b a ≡ false
ltb_ℤ_asym a b h = ground arith

pub ltb_ℤ_tri : (a b : ℤ) → ltb_ℤ a b ≡ false → ltb_ℤ b a ≡ false → a ≡ b
ltb_ℤ_tri (pos a) (pos b) h k = ground arith
ltb_ℤ_tri (pos a) (negsuc b) h k = ground arith
ltb_ℤ_tri (negsuc a) (pos b) h k = ground arith
ltb_ℤ_tri (negsuc a) (negsuc b) h k = ground arith

abbrev pub Above : ℤ → List ℤ → Type 0
Above x = All (λ y. ltb_ℤ x y ≡ true)

abbrev pub IsAscending : List ℤ → Type 0
IsAscending [] = Unit
IsAscending (x ∷ xs) = Above x xs × IsAscending xs

abbrev pub has_int : ℤ → List ℤ → Bool
has_int v [] = false
has_int v (x ∷ xs) = eq_ℤ x v || has_int v xs

-- The number of values before `v`
abbrev pub below : ℤ → List ℤ → ℕ
below v [] = 0
below v (x ∷ xs) = if ltb_ℤ x v then suc (below v xs) else 0

abbrev pub insert_int : ℤ → List ℤ → List ℤ
insert_int v [] = v ∷ []
insert_int v (x ∷ xs) = if ltb_ℤ x v then x ∷ insert_int v xs else v ∷ x ∷ xs

abbrev pub remove_int : ℤ → List ℤ → List ℤ
remove_int v [] = []
remove_int v (x ∷ xs) = if eq_ℤ x v then xs else x ∷ remove_int v xs

pub below-le : (v : ℤ) (xs : List ℤ) → below v xs ≤ length xs
below-le v [] = omega arith
below-le v (x ∷ xs) = ground (arith, below-le v xs)

pub Above-trans : (x y : ℤ) (xs : List ℤ) → ltb_ℤ x y ≡ true → Above y xs → Above x xs
Above-trans x y [] h a = tt
Above-trans x y (z ∷ xs) h (yz, a) = (ltb_ℤ_trans x y z h yz, Above-trans x y xs h a)

pub Above-has_int : (x v : ℤ) (xs : List ℤ) → Above x xs → ltb_ℤ x v ≡ false → has_int v xs ≡ false
Above-has_int x v [] a h = refl
Above-has_int x v (y ∷ xs) (xy, a) h = ground (arith, Above-has_int x v xs a h, eq_ℤ_iff y v)

-- What the value at an index says about the place of `v`.
abbrev pub AtIndex : ℤ → List ℤ → ℕ → ℤ → Type 0
AtIndex v xs i x =
    (ltb_ℤ x v ≡ true → i < below v xs)
    × (ltb_ℤ v x ≡ true → below v xs ≤ i)
    × (ltb_ℤ v x ≡ true → has_int v xs ≡ true → below v xs < i)
    × (ltb_ℤ x v ≡ false → ltb_ℤ v x ≡ false → (i ≡ below v xs) × (has_int v xs ≡ true))

Above-get_elem? :
    (y : ℤ) (xs : List ℤ) (i : ℕ) (x : ℤ) → Above y xs → get_elem? xs i ≡ some x → ltb_ℤ y x ≡ true
Above-get_elem? y [] i x a e = absurd (cc)
Above-get_elem? y (z ∷ xs) zero x (yz, a) e = let same : z ≡ x = cc in rw (← same) yz
Above-get_elem? y (z ∷ xs) (suc i) x (yz, a) e = Above-get_elem? y xs i x a e

pub get_elem?-AtIndex :
    (v : ℤ) (xs : List ℤ) (i : ℕ) (x : ℤ)
    → IsAscending xs
    → get_elem? xs i ≡ some x
    → AtIndex v xs i x
get_elem?-AtIndex v [] i x h e = absurd (cc)
get_elem?-AtIndex v (y ∷ xs) zero x (a, h) e =
    let same : y ≡ x = cc in
    ground (
      arith,
      same,
      eq_ℤ_iff y v,
      ltb_ℤ_tri y v,
      Above-trans v y xs,
      Above-has_int v v xs,
      ltb_ℤ_irrefl v,
      ltb_ℤ_asym y v,
    )
get_elem?-AtIndex v (y ∷ xs) (suc i) x (a, h) e =
    let (lower, upper, strict, same) = get_elem?-AtIndex v xs i x h e in
    let yx = Above-get_elem? y xs i x a e in
    ground (arith, lower, upper, strict, same, yx, ltb_ℤ_trans y x v, eq_ℤ_iff y v, ltb_ℤ_tri x v)
