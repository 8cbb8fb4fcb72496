-- ===== src/Strconv.antt =====
-- The functions of Go's `strconv` that the source calls, base 10. A conversion that returns an
-- error, of syntax or of range, is `none`: the source never uses the value beside an error.
pub mod RoundTrip
pub mod Range
use red_go.Base.{
  ℕ, zero, suc, ◌+◌, ◌-◌, ◌*◌, ◌/◌, ◌%◌, ◌^◌, ◌&&◌, Bool, [], ◌∷◌, Option, none, some, Bytes, leb,
  ltb, ◌==◌, if◌then◌else◌, ◌>>=◌, ℤ, pos, negsuc,
}

is_digit : ℕ → Bool
is_digit c = leb b'0' c && leb c b'9'

-- The digits of `n`, put before `out`: a round for each digit, with fuel `f`.
digits : ℕ → ℕ → Bytes → Bytes
digits zero n out = out
digits (suc f) n out =
    let rest = digits f (n / 10) ((b'0' + n % 10) ∷ out) in if n == 0 then out else rest

-- `strconv.Itoa` of a number that is not negative. Fuel `n` is enough, since a round divides by ten.
unfoldable pub itoa : ℕ → Bytes
unfolding digits
itoa n = if n == 0 then b'0' ∷ [] else digits n n []

-- `strconv.FormatInt(i, 10)`, and `strconv.Itoa`
unfoldable pub format_int : ℤ → Bytes
unfolding itoa
format_int (pos n) = itoa n
format_int (negsuc n) = b'-' ∷ itoa (n + 1)

-- The number that digits spell behind `n`.
scan : ℕ → Bytes → Option ℕ
scan n [] = some n
scan n (c ∷ s) = if is_digit c then scan (n * 10 + (c - b'0')) s else none

-- `strconv.ParseUint(s, 10, bits)`
unfoldable pub parse_uint : ℕ → Bytes → Option ℕ
unfolding scan is_digit
parse_uint bits [] = none
parse_uint bits (c ∷ s) = do n ← scan 0 (c ∷ s); if ltb n (2 ^ bits) then some n else none

-- The sign and the range of `ParseInt`: a negative number may reach -2^63.
negate : ℕ → Option ℤ
negate zero = some (pos 0)
negate (suc n) = if leb (suc n) (2 ^ 63) then some (negsuc n) else none

unsigned : Bytes → Option ℤ
unsigned s = do n ← parse_uint 64 s; if ltb n (2 ^ 63) then some (pos n) else none

-- `strconv.ParseInt(s, 10, 64)`, and `strconv.Atoi` where `int` has 64 bits
unfoldable pub parse_int : Bytes → Option ℤ
unfolding parse_uint negate unsigned
parse_int [] = none
parse_int (c ∷ s) =
    if c == b'-'
    then (do n ← parse_uint 64 s; negate n)
    else if c == b'+'
    then unsigned s
    else unsigned (c ∷ s)
