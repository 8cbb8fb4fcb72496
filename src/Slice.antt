-- ===== src/Slice.antt =====
-- The slice of a list that two indices name, as LRANGE and the ranges by rank of a sorted set read
-- them.
use Prim.Native.Nat.{min}
use red_go.Base.{
  leb, ℕ, zero, suc, ◌+◌, ◌-◌, ◌<◌, ◌≤◌, List, [], ◌∷◌, Bytes, length, take, drop, ◌≡◌, refl, arith,
  ap, ◌∙◌, sym, length-drop, ℤ, pos, negsuc, Bool-cases, inl, inr,
}

-- The first index of a slice of a list of `size` elements, and the first index behind it.
abbrev pub slice_from : ℕ → ℤ → ℕ
slice_from size (pos n) = n
slice_from size (negsuc n) = size - (n + 1)

abbrev pub slice_to : ℕ → ℤ → ℕ
slice_to size (pos n) = n + 1
slice_to size (negsuc n) = size - n

-- The elements from `start` to `stop`, both included; negative indices count from the end.
abbrev pub slice : ℤ → ℤ → List Bytes → List Bytes
slice start stop l =
    let i = slice_from (length l) start in take (slice_to (length l) stop - i) (drop i l)

pub take-nil : (n : ℕ) → take {A = Bytes} n [] ≡ []
take-nil zero = refl
take-nil (suc n) = refl

pub drop-nil : (n : ℕ) → drop {A = Bytes} n [] ≡ []
drop-nil zero = refl
drop-nil (suc n) = refl

pub take_all : (n : ℕ) (l : List Bytes) → length l ≤ n → take n l ≡ l
take_all zero [] h = refl
take_all zero (x ∷ l) h = absurd (omega arith)
take_all (suc n) [] h = refl
take_all (suc n) (x ∷ l) h = ap (◌∷◌ x) (take_all n l (omega arith))

pub drop_all : (n : ℕ) (l : List Bytes) → length l ≤ n → drop n l ≡ []
drop_all zero [] h = refl
drop_all zero (x ∷ l) h = absurd (omega arith)
drop_all (suc n) [] h = refl
drop_all (suc n) (x ∷ l) h = drop_all n l (omega arith)

-- A slice ends with the list.
pub slice-end :
    (i k : ℕ) (l : List Bytes) → take (k - i) (drop i l) ≡ take (min k (length l) - i) (drop i l)
slice-end i k l = elim (Bool-cases (leb k (length l))) [
  | inl h ↦ let e : min k (length l) ≡ k = ground arith in rw e refl
  | inr h ↦
      let e : min k (length l) ≡ length l = ground arith in
      let long : length l < k = ground arith in
      rw e (
        take_all (k - i) (drop i l) (omega (arith, length-drop i l))
        ∙ sym (take_all (length l - i) (drop i l) (omega (arith, length-drop i l))))
]
