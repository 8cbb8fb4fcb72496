-- ===== src/Strconv/RoundTrip.antt =====
-- Numbers in decimal: what `itoa` and `format_int` print is read back, and is made of digits.
use red_go.Base.{
  ℕ, zero, suc, ◌+◌, ◌/◌, ◌%◌, ◌^◌, ◌≤◌, ◌<◌, ◌≡◌, ◌≢◌, refl, [], ◌∷◌, some, Bytes, arith, pos,
  negsuc, All, length,
}
use red_go.Strconv.{is_digit, digits, itoa, format_int, scan, parse_uint, parse_int}

abbrev pub IsDigit : ℕ → Type 0
IsDigit c = (b'0' ≤ c) × (c ≤ b'9')

-- Reading the digits that `digits` writes yields the number.
scan-digits : (f n : ℕ) (out : Bytes) → n ≤ f → scan 0 (digits f n out) ≡ scan n out
unfolding scan digits is_digit
scan-digits zero zero out h = refl
scan-digits zero (suc n) out h = absurd (let e : suc n ≤ 0 = h in omega arith)
scan-digits (suc f) n out h = ground (arith, scan-digits f (n / 10) ((b'0' + n % 10) ∷ out))

digits-IsDigit : (f n : ℕ) (out : Bytes) → All IsDigit out → All IsDigit (digits f n out)
unfolding digits
digits-IsDigit zero n out h = h
digits-IsDigit (suc f) n out h = ground (arith, digits-IsDigit f (n / 10) ((b'0' + n % 10) ∷ out))

digits-ne-nil : (f n : ℕ) (out : Bytes) → out ≢ [] → digits f n out ≢ []
unfolding digits
digits-ne-nil zero n out h = h
digits-ne-nil (suc f) n out h = ground (arith, digits-ne-nil f (n / 10) ((b'0' + n % 10) ∷ out))

-- A printed number is not empty.
pub itoa-ne-nil : (n : ℕ) → itoa n ≢ []
unfolding itoa
itoa-ne-nil zero = ground arith
itoa-ne-nil (suc n) = ground (arith, digits-ne-nil n (suc n / 10) ((b'0' + suc n % 10) ∷ []))

pub itoa-IsDigit : (n : ℕ) → All IsDigit (itoa n)
unfolding itoa
itoa-IsDigit n = ground (arith, digits-IsDigit n n [])

scan-itoa : (n : ℕ) → scan 0 (itoa n) ≡ some n
unfolding itoa scan is_digit
scan-itoa n = ground (arith, scan-digits n n [])

pub itoa-cons : (n : ℕ) → (c : ℕ) × (s : Bytes) × (itoa n ≡ c ∷ s) × IsDigit c
itoa-cons n = go (itoa n) refl
  where
    go : (t : Bytes) → itoa n ≡ t → (c : ℕ) × (s : Bytes) × (itoa n ≡ c ∷ s) × IsDigit c
    go [] e = absurd (itoa-ne-nil n e)
    go (c ∷ s) e = (c, s, e, (rw e at (itoa-IsDigit n)).0)

parse_uint-scan :
    (bits : ℕ) (s : Bytes) (n : ℕ)
    → s ≢ []
    → scan 0 s ≡ some n
    → n < 2 ^ bits
    → parse_uint bits s ≡ some n
unfolding parse_uint
parse_uint-scan bits [] n h e b = absurd (h refl)
parse_uint-scan bits (c ∷ s) n h e b = rw e (ground arith)

-- `ParseUint` reads back what `Itoa` prints, if the number has the bits.
pub parse_uint-itoa : (bits n : ℕ) → n < 2 ^ bits → parse_uint bits (itoa n) ≡ some n
parse_uint-itoa bits n h = parse_uint-scan bits (itoa n) n (itoa-ne-nil n) (scan-itoa n) h

parse_int_of_digits :
    (s : Bytes) (n : ℕ)
    → All IsDigit s
    → s ≢ []
    → scan 0 s ≡ some n
    → n < 2 ^ 63
    → parse_int s ≡ some (pos n)
unfolding parse_int
parse_int_of_digits [] n d h e b = absurd (h refl)
parse_int_of_digits (c ∷ s) n d h e b =
    let r : parse_uint 64 (c ∷ s) ≡ some n = parse_uint-scan 64 (c ∷ s) n h e (omega arith) in
    ground arith

-- `ParseInt` reads back what `Itoa` prints.
pub parse_int-itoa : (n : ℕ) → n < 2 ^ 63 → parse_int (itoa n) ≡ some (pos n)
parse_int-itoa n h = parse_int_of_digits (itoa n) n (itoa-IsDigit n) (itoa-ne-nil n) (scan-itoa n) h

-- Every int64 is read back from its print.
pub parse_int-format_int_neg :
    (n : ℕ) → n < 2 ^ 63 → parse_int (format_int (negsuc n)) ≡ some (negsuc n)
unfolding parse_int format_int
parse_int-format_int_neg n h =
    let r : parse_uint 64 (itoa (n + 1)) ≡ some (n + 1) =
      parse_uint-itoa 64 (n + 1) (omega arith) in
    ground arith

length-digits : (f n : ℕ) (out : Bytes) → length (digits f n out) ≤ f + length out
unfolding digits
length-digits zero n out = omega arith
length-digits (suc f) n out = ground (arith, length-digits f (n / 10) ((b'0' + n % 10) ∷ out))

-- A print has at most one digit more than its number.
pub length-itoa : (n : ℕ) → length (itoa n) ≤ n + 1
unfolding itoa
length-itoa n = ground (arith, length-digits n n [])
