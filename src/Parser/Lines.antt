-- ===== src/Parser/Lines.antt =====
-- What `readLine` makes of a line, and of a bulk, that ends as RESP asks.
use red_go.Base.{
  ℕ, suc, ◌+◌, ◌-◌, ◌≤◌, ◌≡◌, ◌≢◌, refl, [], ◌∷◌, ◌++◌, some, Bytes, length, take, drop, pos, arith,
  All, append_assoc, take-append, drop-append, length-append,
}
use red_go.Reply.{crlf}
use red_go.Strconv.RoundTrip.{IsDigit}
use red_go.Parser.{
  ReadState, line, at, read_bytes, check_line, check_bulk, read_full, read_line, header, max_alloc,
}

abbrev pub Lacks : ℕ → Bytes → Type 0
Lacks c = All (λ b. b ≢ c)

pub digits-Lacks : (s : Bytes) → All IsDigit s → Lacks b'\n' s
digits-Lacks [] h = h
digits-Lacks (c ∷ s) (d, h) = (omega arith, digits-Lacks s h)

read_bytes_line :
    (x rest : Bytes) → Lacks b'\n' x → read_bytes (x ++ (crlf ++ rest)) ≡ some (x ++ crlf, rest)
unfolding read_bytes
read_bytes_line [] rest h = refl
read_bytes_line (c ∷ x) rest (d, h) = ground (arith, read_bytes_line x rest h)

at-crlf : (x : Bytes) → at (x ++ crlf) (length x) ≡ some b'\r'
at-crlf [] = refl
at-crlf (c ∷ x) = at-crlf x

at-crlf_last : (x : Bytes) → at (x ++ crlf) (length x + 1) ≡ some b'\n'
at-crlf_last [] = refl
at-crlf_last (c ∷ x) =
    let e : suc (length x) + 1 ≡ suc (length x + 1) = omega arith in rw e (at-crlf_last x)

check_line_crlf :
    (l rest : Bytes) (n : ℕ)
    → length l ≡ n + 2
    → at l n ≡ some b'\r'
    → check_line l rest ≡ line l rest
unfolding check_line
check_line_crlf [] rest n e h = absurd (omega arith)
check_line_crlf (c ∷ []) rest n e h = absurd (omega arith)
check_line_crlf (c ∷ d ∷ s) rest n e h = let same : length s ≡ n = omega arith in ground arith

length-crlf : (x : Bytes) → length (x ++ crlf) ≡ length x + 2
length-crlf x = length-append x crlf

-- A line without a newline inside is read whole.
pub read_line_plain :
    (x rest : Bytes) (st : ReadState)
    → st.bulk_len ≡ pos 0
    → Lacks b'\n' x
    → read_line (x ++ (crlf ++ rest)) st ≡ line (x ++ crlf) rest
unfolding read_line
read_line_plain x rest st e h =
    rw (e, read_line, read_bytes_line x rest h)
      (check_line_crlf (x ++ crlf) rest (length x) (length-crlf x) (at-crlf x))

check_bulk-crlf : (x rest : Bytes) → check_bulk (length x) (x ++ crlf) rest ≡ line (x ++ crlf) rest
unfolding check_bulk
check_bulk-crlf x rest = ground (arith, at-crlf x, at-crlf_last x)

take_line : (x rest : Bytes) → take (length x + 2) (x ++ (crlf ++ rest)) ≡ x ++ crlf
take_line x rest = rw (← length-crlf x, ← append_assoc x crlf rest) (take-append (x ++ crlf) rest)

drop_line : (x rest : Bytes) → drop (length x + 2) (x ++ (crlf ++ rest)) ≡ rest
drop_line x rest = rw (← length-crlf x, ← append_assoc x crlf rest) (drop-append (x ++ crlf) rest)

read_full-crlf :
    (x rest : Bytes) → x ≢ [] → read_full (length x) (x ++ (crlf ++ rest)) ≡ line (x ++ crlf) rest
unfolding read_full
read_full-crlf [] rest h = absurd (h refl)
read_full-crlf (c ∷ x) rest h = ground (
  arith,
  length-append x (crlf ++ rest),
  take_line (c ∷ x) rest,
  drop_line (c ∷ x) rest,
  check_bulk-crlf (c ∷ x) rest,
)

-- A bulk of the length announced is read whole, whatever bytes it holds.
pub read_line_bulk :
    (x rest : Bytes) (st : ReadState)
    → st.bulk_len ≡ pos (length x)
    → x ≢ []
    → length x + 2 ≤ max_alloc
    → read_line (x ++ (crlf ++ rest)) st ≡ line (x ++ crlf) rest
unfolding read_line
read_line_bulk [] rest st e h b = absurd (h refl)
read_line_bulk (c ∷ x) rest st e h b =
    rw (e, read_line) (ground (arith, read_full-crlf (c ∷ x) rest h))

-- The line without its terminator.
pub take-crlf : (x : Bytes) → take (length (x ++ crlf) - 2) (x ++ crlf) ≡ x
take-crlf x =
    let e : length (x ++ crlf) - 2 ≡ length x = omega (arith, length-crlf x) in
    rw e (take-append x crlf)

pub header-crlf : (c : ℕ) (x : Bytes) → header (c ∷ (x ++ crlf)) ≡ x
header-crlf c x = rw (take-crlf (c ∷ x))
