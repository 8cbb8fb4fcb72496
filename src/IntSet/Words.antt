-- ===== src/IntSet/Words.antt =====
-- An integer that fits a word is read back from its bytes; the bytes of a list of integers.
use red_go.Base.{
  ℕ, zero, suc, ◌+◌, ◌*◌, ◌/◌, ◌<◌, List, [], ◌∷◌, ◌++◌, some, Bytes, length, get_elem?, take, drop,
  ℤ, pos, negsuc, ◌≡◌, refl, arith, ap, All, ◌∙◌, sym, length-append, take-append, append_assoc,
}
use red_go.IntSet.{
  Encoding, enc_int16, enc_int32, enc_int64, width, modulus, le_bytes, le_value, to_bits, from_bits,
  put_uint, read_uint,
}

le_value-le_bytes : (w n : ℕ) → n < modulus w → le_value (le_bytes w n) ≡ n
unfolding le_value le_bytes
le_value-le_bytes zero n h = omega arith
le_value-le_bytes (suc w) n h = omega (arith, le_value-le_bytes w (n / 256) (omega arith))

length-le_bytes : (w n : ℕ) → length (le_bytes w n) ≡ w
unfolding le_bytes
length-le_bytes zero n = refl
length-le_bytes (suc w) n = ap suc (length-le_bytes w (n / 256))

-- The integer is in the range of the words.
abbrev pub Fits : Encoding → ℤ → Type 0
Fits e (pos n) = n < modulus (width e) / 2
Fits e (negsuc n) = n < modulus (width e) / 2

to_bits-lt : (e : Encoding) (v : ℤ) → to_bits (width e) v < modulus (width e)
unfolding to_bits
to_bits-lt enc_int16 (pos n) = omega arith
to_bits-lt enc_int32 (pos n) = omega arith
to_bits-lt enc_int64 (pos n) = omega arith
to_bits-lt enc_int16 (negsuc n) = omega arith
to_bits-lt enc_int32 (negsuc n) = omega arith
to_bits-lt enc_int64 (negsuc n) = omega arith

from_bits-to_bits :
    (e : Encoding) (v : ℤ) → Fits e v → from_bits (width e) (to_bits (width e) v) ≡ v
unfolding to_bits from_bits
from_bits-to_bits enc_int16 (pos n) h = ground arith
from_bits-to_bits enc_int32 (pos n) h = ground arith
from_bits-to_bits enc_int64 (pos n) h = ground arith
from_bits-to_bits enc_int16 (negsuc n) h = ground arith
from_bits-to_bits enc_int32 (negsuc n) h = ground arith
from_bits-to_bits enc_int64 (negsuc n) h = ground arith

pub length-put_uint : (e : Encoding) (v : ℤ) → length (put_uint e v) ≡ width e
unfolding put_uint
length-put_uint e v = length-le_bytes (width e) (to_bits (width e) v)

le_value-put_uint : (e : Encoding) (v : ℤ) → le_value (put_uint e v) ≡ to_bits (width e) v
unfolding put_uint
le_value-put_uint e v = le_value-le_bytes (width e) (to_bits (width e) v) (to_bits-lt e v)

take-prefix : (n : ℕ) (xs ys : Bytes) → length xs ≡ n → take n (xs ++ ys) ≡ xs
take-prefix n xs ys e = rw (← e) (take-append xs ys)

-- What `PutUint` writes is read back by `Uint`, for an integer in range.
pub read_uint-put_uint :
    (e : Encoding) (v : ℤ) (rest : Bytes) → Fits e v → read_uint e (put_uint e v ++ rest) ≡ some v
unfolding read_uint
read_uint-put_uint e v rest fits = ground (
  arith,
  length-append (put_uint e v) rest,
  length-put_uint e v,
  take-prefix (width e) (put_uint e v) rest (length-put_uint e v),
  value,
)
  where
    value : from_bits (width e) (le_value (put_uint e v)) ≡ v
    value = ap (from_bits (width e)) (le_value-put_uint e v) ∙ from_bits-to_bits e v fits

-- The words of a list
abbrev pub encode : Encoding → List ℤ → Bytes
encode e [] = []
encode e (v ∷ vs) = put_uint e v ++ encode e vs

pub encode-append :
    (e : Encoding) (xs ys : List ℤ) → encode e (xs ++ ys) ≡ encode e xs ++ encode e ys
encode-append e [] ys = refl
encode-append e (x ∷ xs) ys =
    ap (λ b. put_uint e x ++ b) (encode-append e xs ys)
    ∙ sym (append_assoc (put_uint e x) (encode e xs) (encode e ys))

pub length-encode : (e : Encoding) (vs : List ℤ) → length (encode e vs) ≡ length vs * width e
length-encode e [] = omega arith
length-encode e (v ∷ vs) =
    grind
      (arith, length-append (put_uint e v) (encode e vs), length-put_uint e v, length-encode e vs)

-- Prefixes of a concatenation, by lengths
pub drop_past : (xs ys : Bytes) (n k : ℕ) → n ≡ length xs + k → drop n (xs ++ ys) ≡ drop k ys
drop_past [] ys n k e = ap (λ m. drop m ys) (omega arith)
drop_past (x ∷ xs) ys zero k e = absurd (omega arith)
drop_past (x ∷ xs) ys (suc n) k e = drop_past xs ys n k (omega arith)

pub take_past : (xs ys : Bytes) (n k : ℕ) → n ≡ length xs + k → take n (xs ++ ys) ≡ xs ++ take k ys
take_past [] ys n k e = ap (λ m. take m ys) (omega arith)
take_past (x ∷ xs) ys zero k e = absurd (omega arith)
take_past (x ∷ xs) ys (suc n) k e = ap (◌∷◌ x) (take_past xs ys n k (omega arith))

-- The word with an index
pub read_uint-drop :
    (e : Encoding) (vs : List ℤ) (i : ℕ) (v : ℤ) (rest : Bytes)
    → All (Fits e) vs
    → get_elem? vs i ≡ some v
    → read_uint e (drop (i * width e) (encode e vs ++ rest)) ≡ some v
read_uint-drop e [] i v rest fits at = absurd (cc)
read_uint-drop e (x ∷ vs) zero v rest (fx, fits) at =
    let same : x ≡ v = cc in
    let start : 0 * width e ≡ 0 = omega arith in
    ap (read_uint e) (
      ap (λ n. drop n (encode e (x ∷ vs) ++ rest)) start
      ∙ append_assoc (put_uint e x) (encode e vs) rest)
    ∙ read_uint-put_uint e x (encode e vs ++ rest) fx
    ∙ ap some same
read_uint-drop e (x ∷ vs) (suc i) v rest (fx, fits) at =
    ap (read_uint e) (
      ap (drop (suc i * width e)) (append_assoc (put_uint e x) (encode e vs) rest)
      ∙ drop_past (put_uint e x) (encode e vs ++ rest) (suc i * width e) (i * width e)
          (grind (arith, length-put_uint e x)))
    ∙ read_uint-drop e vs i v rest fits at
