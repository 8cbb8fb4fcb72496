-- ===== src/Parser/Steps.antt =====
-- The loop of the parser ends: each round takes bytes from the stream, so the fuel is enough.
use red_go.Base.{
  ℕ, zero, suc, ◌+◌, ◌-◌, ◌<◌, ◌≡◌, ◌≢◌, refl, [], ◌∷◌, Option, none, some, Bytes, length, take,
  drop, ℤ, pos, negsuc, arith, length-drop, ap, Option-cases, inl, inr,
}
use red_go.Parser.{
  ReadState, Line, line, io_error, bad_line, line_panic, read_bytes, check_line, check_bulk,
  read_full, read_plain, read_line, Round, continue, stop, Body, body, body_error, body_panic,
  after_body, after_line, after_bulk, after_multi_bulk, first_line, protocol, round, Run, send,
  after_round, out_of_fuel, send, parse_loop, parse_from, parse_it, initial,
  parse_multi_bulk_header, parse_bulk_header, read_body,
}

read_bytes-lt :
    (s : Bytes) {l rest : Bytes} → read_bytes s ≡ some (l, rest) → length rest < length s
unfolding read_bytes
read_bytes-lt [] h = ground arith
read_bytes-lt (c ∷ s) {l} {rest} h = elim (Option-cases (read_bytes s)) [
  | inl none' ↦ ground arith
  | inr ((l', rest'), found) ↦
      let shorter : length rest' < length s = read_bytes-lt s found in ground arith
]

-- What a line leaves of the stream is shorter than `n`.
abbrev Leaves : ℕ → Line → Type 0
Leaves n (line l rest) = length rest < n
Leaves n (bad_line e rest) = length rest < n
Leaves n (io_error e) = Unit
Leaves n line_panic = Unit

check_line-Leaves : (n : ℕ) (l rest : Bytes) → length rest < n → Leaves n (check_line l rest)
unfolding check_line
check_line-Leaves n [] rest h = h
check_line-Leaves n (c ∷ []) rest h = tt
check_line-Leaves n (c ∷ d ∷ s) rest h = ground arith

read_plain-Leaves :
    (s : Bytes) (o : Option (Bytes × Bytes)) → read_bytes s ≡ o → Leaves (length s) (read_plain o)
unfolding read_plain
read_plain-Leaves s none e = tt
read_plain-Leaves s (some (l, rest)) e = check_line-Leaves (length s) l rest (read_bytes-lt s e)

check_bulk-Leaves : (n k : ℕ) (b rest : Bytes) → length rest < n → Leaves n (check_bulk k b rest)
unfolding check_bulk
check_bulk-Leaves n k b rest h = ground arith

read_full-Leaves : (k : ℕ) (s : Bytes) → Leaves (length s) (read_full k s)
unfolding read_full
read_full-Leaves k [] = tt
read_full-Leaves k (c ∷ s) =
    let shorter : length (drop (k + 2) (c ∷ s)) < length (c ∷ s) =
      omega (arith, length-drop (k + 2) (c ∷ s)) in
    ground (
      arith,
      check_bulk-Leaves (length (c ∷ s)) k (take (k + 2) (c ∷ s)) (drop (k + 2) (c ∷ s)) shorter,
    )

read_line-Leaves : (s : Bytes) (st : ReadState) → Leaves (length s) (read_line s st)
unfolding read_line
read_line-Leaves s st = go st.bulk_len refl
  where
    go : (b : ℤ) → st.bulk_len ≡ b → Leaves (length s) (read_line s st)
    go (pos zero) e = rw (e, read_line) (read_plain-Leaves s (read_bytes s) refl)
    go (pos (suc n)) e = rw (e, read_line) (ground (arith, read_full-Leaves (suc n) s))
    go (negsuc n) e = rw (e, read_line) tt

-- A round goes on with fewer than `n` bytes, or ends for a reason that is not the fuel.
abbrev Shortens : ℕ → Round → Type 0
Shortens n (continue ps st rest) = length rest < n
Shortens n (stop ps e) = e ≢ out_of_fuel

module _ (n : ℕ) (msg rest : Bytes) (h : length rest < n) where
  after_body-Shortens : (b : Body) → Shortens n (after_body msg rest b)
  unfolding after_body protocol
  after_body-Shortens (body st) = ground arith
  after_body-Shortens body_error = h
  after_body-Shortens body_panic = cc

  after_multi_bulk-Shortens : (o : Option ReadState) → Shortens n (after_multi_bulk msg rest o)
  unfolding after_multi_bulk protocol
  after_multi_bulk-Shortens none = h
  after_multi_bulk-Shortens (some st) = ground arith

  after_bulk-Shortens : (o : Option ReadState) → Shortens n (after_bulk msg rest o)
  unfolding after_bulk protocol
  after_bulk-Shortens none = h
  after_bulk-Shortens (some st) = ground arith

first_line-Shortens :
    (n : ℕ) (msg rest : Bytes) (st : ReadState)
    → length rest < n
    → Shortens n (first_line msg rest st)
unfolding first_line
first_line-Shortens n [] rest st h = cc
first_line-Shortens n (c ∷ l) rest st h = ground (
  arith,
  after_multi_bulk-Shortens n (c ∷ l) rest h (parse_multi_bulk_header (c ∷ l) st),
  after_bulk-Shortens n (c ∷ l) rest h (parse_bulk_header (c ∷ l) st),
)

after_line-Shortens :
    (n : ℕ) (st : ReadState) (l : Line) → Leaves n l → Shortens n (after_line st l)
unfolding after_line
after_line-Shortens n st (line msg rest) h = ground (
  arith,
  first_line-Shortens n msg rest st h,
  after_body-Shortens n msg rest h (read_body (take (length msg - 2) msg) st),
)
after_line-Shortens n st (io_error e) h = cc
after_line-Shortens n st (bad_line e rest) h = h
after_line-Shortens n st line_panic h = cc

round-Shortens : (s : Bytes) (st : ReadState) → Shortens (length s) (round s st)
unfolding round
round-Shortens s st =
    after_line-Shortens (length s) (record st { bulk_len = pos 0 }) (read_line s st)
      (read_line-Leaves s st)

after_round-cong :
    (n : ℕ) (go go' : Bytes → ReadState → Run) (r : Round)
    → ((s : Bytes) (st : ReadState) → length s < n → go s st ≡ go' s st)
    → Shortens n r
    → after_round go r ≡ after_round go' r
after_round-cong n go go' (continue ps st rest) h short = ap (send ps) (h rest st short)
after_round-cong n go go' (stop ps e) h short = refl

-- Any two fuels above the number of bytes give one run.
parse_loop-fuel :
    (f g : ℕ) (s : Bytes) (st : ReadState)
    → length s < f
    → length s < g
    → parse_loop f s st ≡ parse_loop g s st
unfolding parse_loop
parse_loop-fuel zero g s st h k = absurd (omega arith)
parse_loop-fuel (suc f) zero s st h k = absurd (omega arith)
parse_loop-fuel (suc f) (suc g) s st h k =
    after_round-cong (length s) (parse_loop f) (parse_loop g) (round s st)
      (λ s' st' lt. parse_loop-fuel f g s' st' (omega arith) (omega arith)) (round-Shortens s st)

-- A run is its first round and the run from there: no fuel is in sight.
pub parse_from_step :
    (s : Bytes) (st : ReadState) → parse_from s st ≡ after_round parse_from (round s st)
unfolding parse_from
parse_from_step s st =
    let e : length s + 1 ≡ suc (length s) = omega arith in
    rw e (
      after_round-cong (length s) (parse_loop (length s)) parse_from (round s st)
        (λ s' st' lt. parse_loop-fuel (length s) (length s' + 1) s' st' lt (omega arith))
        (round-Shortens s st))

ends_of_round :
    (n : ℕ) (go : Bytes → ReadState → Run) (r : Round)
    → ((s : Bytes) (st : ReadState) → length s < n → (go s st).ending ≢ out_of_fuel)
    → Shortens n r
    → (after_round go r).ending ≢ out_of_fuel
ends_of_round n go (continue ps st rest) h short = h rest st short
ends_of_round n go (stop ps e) h short = short

parse_loop_ends :
    (f : ℕ) (s : Bytes) (st : ReadState) → length s < f → (parse_loop f s st).ending ≢ out_of_fuel
unfolding parse_loop
parse_loop_ends zero s st h = absurd (omega arith)
parse_loop_ends (suc f) s st h =
    ends_of_round (length s) (parse_loop f) (round s st)
      (λ s' st' lt. parse_loop_ends f s' st' (omega arith)) (round-Shortens s st)

-- On every stream the parser ends, by an IO error or by a panic, within its fuel: each round of its
-- loop takes at least one byte.
pub parse_it_ends : (s : Bytes) → (parse_it s).ending ≢ out_of_fuel
unfolding parse_it
parse_it_ends s = parse_loop_ends (length s + 1) s initial (omega arith)
