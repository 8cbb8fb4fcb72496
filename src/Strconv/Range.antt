-- ===== src/Strconv/Range.antt =====
-- What `parse_int` reads is an integer of 64 bits.
use red_go.Base.{
  ℕ, zero, suc, ◌^◌, ◌<◌, [], ◌∷◌, Option, none, some, Bytes, ◌>>=◌, ℤ, pos, negsuc, ◌≡◌, arith,
}
use red_go.Strconv.{parse_uint, parse_int, negate, unsigned}

-- The range of `int64`
abbrev pub IsInt64 : ℤ → Type 0
IsInt64 (pos n) = n < 2 ^ 63
IsInt64 (negsuc n) = n < 2 ^ 63

negate-IsInt64 : (n : ℕ) (v : ℤ) → negate n ≡ some v → IsInt64 v
unfolding negate
negate-IsInt64 zero v e = ground arith
negate-IsInt64 (suc n) v e = ground arith

unsigned-IsInt64 : (s : Bytes) (v : ℤ) → unsigned s ≡ some v → IsInt64 v
unfolding unsigned
unsigned-IsInt64 s v e = ground arith

bind_negate-IsInt64 : (o : Option ℕ) (v : ℤ) → (o >>= negate) ≡ some v → IsInt64 v
bind_negate-IsInt64 none v e = absurd (cc)
bind_negate-IsInt64 (some n) v e = negate-IsInt64 n v e

pub parse_int-IsInt64 : (m : Bytes) (v : ℤ) → parse_int m ≡ some v → IsInt64 v
unfolding parse_int
parse_int-IsInt64 [] v e = absurd (cc)
parse_int-IsInt64 (c ∷ s) v e = ground (
  arith,
  unsigned-IsInt64 s v,
  unsigned-IsInt64 (c ∷ s) v,
  bind_negate-IsInt64 (parse_uint 64 s) v,
)
