-- ===== src/Parser/Faults.antt =====
-- Commands that RESP allows and that the parser does not read: an empty argument, and one that
-- begins with `$`.
use red_go.Base.{
  ℕ, ◌+◌, ◌^◌, ◌<◌, ◌≡◌, ◌≢◌, refl, List, [], ◌∷◌, ◌++◌, some, Bytes, length, arith, ap, All,
  append_assoc, append-nil, length-append, sym, map, ◌∙◌,
}
use red_go.Reply.{multi_bulk_reply, crlf, bulk_bytes, args_bytes, to_bytes}
use red_go.Strconv.{itoa, parse_int}
use red_go.Parser.{
  ReadState, line, initial, stop, panicked, after_round, round, after_body, read_body, body,
  body_panic, parse_from, parse_it,
}
use red_go.Parser.Steps.{parse_from_step}
use red_go.Parser.Lines.{Lacks, read_line_plain}
use red_go.Parser.RoundTrip.{
  IsPlain, reading, round_of_line, after_line_body, after_body_more, parse_arg, round_header,
  to_bytes-append,
}

-- Plain arguments before the last are read one by one.
parse_prefix :
    (n : ℕ) (done pre : List Bytes) (s : Bytes)
    → All IsPlain pre
    → length done + length pre < n
    → parse_from (args_bytes (map some pre) ++ s) (reading n done 0)
      ≡ parse_from s (reading n (done ++ pre) 0)
parse_prefix n done [] s h more = ap (λ d. parse_from s (reading n d 0)) (sym (append-nil done))
parse_prefix n done (arg ∷ pre) s (h, hs) more =
    ap (λ t. parse_from t (reading n done 0))
      (append_assoc (bulk_bytes arg) (args_bytes (map some pre)) s)
    ∙ parse_arg n done arg (args_bytes (map some pre) ++ s) h (omega arith)
    ∙ ap (after_round parse_from) (
        after_body_more n 0 (done ++ arg ∷ []) (arg ++ crlf) (args_bytes (map some pre) ++ s)
          (omega (arith, length-append done (arg ∷ []))))
    ∙ parse_prefix n (done ++ arg ∷ []) pre s hs (omega (arith, length-append done (arg ∷ [])))
    ∙ ap (λ d. parse_from s (reading n d 0)) (append_assoc done (arg ∷ []) pre)

-- A line of an argument whose length line has been read.
round_body :
    (n : ℕ) (done : List Bytes) (x rest : Bytes)
    → Lacks b'\n' x
    → round (x ++ (crlf ++ rest)) (reading n done 0)
      ≡ after_body (x ++ crlf) rest (read_body x (reading n done 0))
round_body n done x rest h =
    round_of_line _ (reading n done 0) (line (x ++ crlf) rest)
      (read_line_plain x rest (reading n done 0) refl h)
    ∙ after_line_body n done x rest

read_body_empty :
    (n : ℕ) (done : List Bytes)
    → read_body (b'$' ∷ b'0' ∷ []) (reading n done 0) ≡ body (reading n (done ++ [] ∷ []) 0)
unfolding read_body parse_int
read_body_empty n done = refl

after_body_panic : (msg rest : Bytes) → after_body msg rest body_panic ≡ stop [] panicked
unfolding after_body
after_body_panic msg rest = refl

read_body_blank : (st : ReadState) → read_body [] st ≡ body_panic
unfolding read_body
read_body_blank st = refl

-- After the length line `$0` the parser takes the blank line behind it for the next argument line.
parse_blank :
    (n : ℕ) (done : List Bytes) (s : Bytes)
    → length done + 1 < n
    → parse_from (b'$' ∷ b'0' ∷ (crlf ++ (crlf ++ s))) (reading n done 0)
      ≡ record { sent = []; ending = panicked }
parse_blank n done s more =
    parse_from_step _ (reading n done 0)
    ∙ ap (after_round parse_from) (
        round_body n done (b'$' ∷ b'0' ∷ []) (crlf ++ s) (omega arith)
        ∙ ap (after_body _ (crlf ++ s)) (read_body_empty n done)
        ∙ after_body_more n 0 (done ++ [] ∷ []) _ (crlf ++ s)
            (omega (arith, length-append done ([] ∷ []))))
    ∙ parse_from_step (crlf ++ s) (reading n (done ++ [] ∷ []) 0)
    ∙ ap (after_round parse_from) (
        round_body n (done ++ [] ∷ []) [] s tt
        ∙ ap (after_body crlf s) (read_body_blank _)
        ∙ after_body_panic crlf s)

args_bytes-append :
    (xs ys : List Bytes)
    → args_bytes (map some (xs ++ ys)) ≡ args_bytes (map some xs) ++ args_bytes (map some ys)
args_bytes-append [] ys = refl
args_bytes-append (x ∷ xs) ys = rw (args_bytes-append xs ys) (simp append_assoc)

itoa-zero : itoa 0 ≡ b'0' ∷ []
unfolding itoa
itoa-zero = refl

-- The header and the plain arguments of a command, up to the first argument that is not plain.
parse_up_to :
    (pre : List Bytes) (arg : Bytes) (post : List Bytes) (rest : Bytes)
    → All IsPlain pre
    → length (pre ++ arg ∷ post) < 2 ^ 32
    → parse_from (to_bytes (multi_bulk_reply (map some (pre ++ arg ∷ post))) ++ rest) initial
      ≡ parse_from
          (bulk_bytes arg ++ (args_bytes (map some post) ++ rest))
          (reading (length (pre ++ arg ∷ post)) pre 0)
parse_up_to pre arg post rest h fits =
    let n = length (pre ++ arg ∷ post) in
    ap (λ s. parse_from s initial) (to_bytes-append (pre ++ arg ∷ post) rest)
    ∙ parse_from_step _ initial
    ∙ ap (after_round parse_from) (
        round_header n (args_bytes (map some (pre ++ arg ∷ post)) ++ rest)
          (omega (arith, length-append pre (arg ∷ post))) fits)
    ∙ ap (λ s. parse_from (s ++ rest) (reading n [] 0)) (args_bytes-append pre (arg ∷ post))
    ∙ ap (λ s. parse_from s (reading n [] 0))
        (append_assoc (args_bytes (map some pre)) (args_bytes (map some (arg ∷ post))) rest)
    ∙ parse_prefix n [] pre _ h (omega (arith, length-append pre (arg ∷ post)))
    ∙ ap (λ s. parse_from s (reading n pre 0))
        (append_assoc (bulk_bytes arg) (args_bytes (map some post)) rest)

-- A command with an empty argument that is not its last, behind plain arguments, makes the parser
-- panic: nothing is sent, neither this command nor what follows, and the channel is not closed.
pub parse_it_empty_arg :
    (pre post : List Bytes) (rest : Bytes)
    → All IsPlain pre
    → post ≢ []
    → length (pre ++ [] ∷ post) < 2 ^ 32
    → parse_it (to_bytes (multi_bulk_reply (map some (pre ++ [] ∷ post))) ++ rest)
      ≡ record { sent = []; ending = panicked }
unfolding parse_it
parse_it_empty_arg pre [] rest h ne fits = absurd (ne refl)
parse_it_empty_arg pre (b ∷ post) rest h ne fits =
    parse_up_to pre [] (b ∷ post) rest h fits
    ∙ rw itoa-zero (
        parse_blank (length (pre ++ [] ∷ b ∷ post)) pre (args_bytes (map some (b ∷ post)) ++ rest)
          (omega (arith, length-append pre ([] ∷ b ∷ post))))
