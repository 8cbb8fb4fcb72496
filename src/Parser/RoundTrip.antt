-- ===== src/Parser/RoundTrip.antt =====
-- What the parser makes of a command that `MultiBulkReply.ToBytes` has encoded.
use red_go.Base.{
  ℕ, zero, suc, ◌+◌, ◌^◌, ◌<◌, ◌≤◌, ◌≡◌, ◌≢◌, refl, true, List, [], ◌∷◌, ◌++◌, some, Bytes, length,
  pos, arith, ap, All, append_assoc, append-nil, length-append, map, ◌∙◌,
}
use red_go.Reply.{multi_bulk_reply, crlf, bulk_bytes, args_bytes, to_bytes}
use red_go.Strconv.{itoa}
use red_go.Strconv.RoundTrip.{itoa-IsDigit, parse_int-itoa, parse_uint-itoa}
use red_go.Parser.{
  ReadState, Line, line, read_line, max_alloc, Payload, payload, err_payload, initial, continue,
  closed, eof, send, after_round, round, after_line, after_body, read_body, body,
  parse_multi_bulk_header, is_done, parse_from, parse_it,
}
use red_go.Parser.Steps.{parse_from_step}
use red_go.Parser.Lines.{digits-Lacks, read_line_plain, read_line_bulk, take-crlf, header-crlf}

-- An argument that the parser reads back: it is not empty, does not begin with `$`, and can be
-- allocated.
abbrev pub IsPlain : Bytes → Type 0
IsPlain [] = ⊥
IsPlain (c ∷ s) = (c ≢ b'$') × (length (c ∷ s) + 2 ≤ max_alloc)

-- The state after `*n` and the arguments `done`, before a line or a bulk of `k` bytes.
abbrev pub reading : ℕ → List Bytes → ℕ → ReadState
reading n done k = record {
  reading_multi_line = true;
  expected_args_count = n;
  msg_type = b'*';
  args = done;
  bulk_len = pos k;
}

pub round_of_line :
    (s : Bytes) (st : ReadState) (l : Line)
    → read_line s st ≡ l
    → round s st ≡ after_line (record st { bulk_len = pos 0 }) l
unfolding round
round_of_line s st l e = rw e

pub after_line_body :
    (n : ℕ) (done : List Bytes) (x rest : Bytes)
    → after_line (reading n done 0) (line (x ++ crlf) rest)
      ≡ after_body (x ++ crlf) rest (read_body x (reading n done 0))
unfolding after_line
after_line_body n done x rest = rw (take-crlf x)

read_body_length :
    (n k : ℕ) (done : List Bytes)
    → k < 2 ^ 63
    → 0 < k
    → read_body (b'$' ∷ itoa k) (reading n done 0) ≡ body (reading n done k)
unfolding read_body
read_body_length n zero done fits h = absurd (omega arith)
read_body_length n (suc k) done fits h = rw (parse_int-itoa (suc k) fits)

pub after_body_more :
    (n k : ℕ) (done : List Bytes) (msg rest : Bytes)
    → length done < n
    → after_body msg rest (body (reading n done k)) ≡ continue [] (reading n done k) rest
unfolding after_body is_done
after_body_more n k done msg rest more = ground arith

after_body_done :
    (n : ℕ) (done : List Bytes) (msg rest : Bytes)
    → length done ≡ n
    → 0 < n
    → after_body msg rest (body (reading n done 0))
      ≡ continue (payload (some (multi_bulk_reply (map some done))) ∷ []) initial rest
unfolding after_body is_done
after_body_done n done msg rest e h = ground arith

-- The line `$k` announces a bulk.
pub round-length :
    (n k : ℕ) (done : List Bytes) (rest : Bytes)
    → length done < n
    → k < 2 ^ 63
    → 0 < k
    → round (b'$' ∷ (itoa k ++ (crlf ++ rest))) (reading n done 0)
      ≡ continue [] (reading n done k) rest
round-length n k done rest more fits h =
    round_of_line _ (reading n done 0) (line ((b'$' ∷ itoa k) ++ crlf) rest) (
      read_line_plain (b'$' ∷ itoa k) rest (reading n done 0) refl
        (omega arith, digits-Lacks (itoa k) (itoa-IsDigit k)))
    ∙ after_line_body n done (b'$' ∷ itoa k) rest
    ∙ rw (read_body_length n k done fits h) (after_body_more n k done _ rest more)

read_body_arg :
    (n : ℕ) (done : List Bytes) (arg : Bytes)
    → IsPlain arg
    → read_body arg (reading n done 0) ≡ body (reading n (done ++ arg ∷ []) 0)
unfolding read_body
read_body_arg n done [] h = absurd h
read_body_arg n done (c ∷ s) (h, b) = ground arith

-- The bulk itself is one more argument.
round_arg :
    (n : ℕ) (done : List Bytes) (arg rest : Bytes)
    → IsPlain arg
    → round (arg ++ (crlf ++ rest)) (reading n done (length arg))
      ≡ after_body (arg ++ crlf) rest (body (reading n (done ++ arg ∷ []) 0))
round_arg n done [] rest h = absurd h
round_arg n done (c ∷ s) rest (h, b) =
    round_of_line _ (reading n done (length (c ∷ s))) (line ((c ∷ s) ++ crlf) rest)
      (read_line_bulk (c ∷ s) rest (reading n done (length (c ∷ s))) refl (ground arith) b)
    ∙ after_line_body n done (c ∷ s) rest
    ∙ rw (read_body_arg n done (c ∷ s) (h, b)) refl

length_plain : (arg : Bytes) → IsPlain arg → (0 < length arg) × (length arg < 2 ^ 63)
length_plain [] h = absurd h
length_plain (c ∷ s) (h, b) = (omega arith, omega arith)

pub bulk_bytes-append :
    (arg rest : Bytes)
    → bulk_bytes arg ++ rest ≡ b'$' ∷ (itoa (length arg) ++ (crlf ++ (arg ++ (crlf ++ rest))))
bulk_bytes-append arg rest = simp append_assoc

-- An encoded argument, up to the state behind it.
pub parse_arg :
    (n : ℕ) (done : List Bytes) (arg rest : Bytes)
    → IsPlain arg
    → length done < n
    → parse_from (bulk_bytes arg ++ rest) (reading n done 0)
      ≡ after_round parse_from
          (after_body (arg ++ crlf) rest (body (reading n (done ++ arg ∷ []) 0)))
parse_arg n done arg rest h more =
    ap (λ s. parse_from s (reading n done 0)) (bulk_bytes-append arg rest)
    ∙ parse_from_step _ (reading n done 0)
    ∙ ap (after_round parse_from) (
        round-length n (length arg) done (arg ++ (crlf ++ rest)) more (length_plain arg h).1
          (length_plain arg h).0)
    ∙ parse_from_step (arg ++ (crlf ++ rest)) (reading n done (length arg))
    ∙ ap (after_round parse_from) (round_arg n done arg rest h)

-- The payload of a command.
abbrev pub command : List Bytes → Payload
command args = payload (some (multi_bulk_reply (map some args)))

-- The arguments that are left are read one by one, and the last one completes the command.
parse_args :
    (n : ℕ) (done args : List Bytes) (rest : Bytes)
    → args ≢ []
    → All IsPlain args
    → length done + length args ≡ n
    → parse_from (args_bytes (map some args) ++ rest) (reading n done 0)
      ≡ send (command (done ++ args) ∷ []) (parse_from rest initial)
parse_args n done [] rest ne h e = absurd (ne refl)
parse_args n done (arg ∷ []) rest ne (h, _) e =
    ap (λ s. parse_from (s ++ rest) (reading n done 0)) (append-nil (bulk_bytes arg))
    ∙ parse_arg n done arg rest h (omega arith)
    ∙ ap (after_round parse_from) (
        after_body_done n (done ++ arg ∷ []) (arg ++ crlf) rest
          (omega (arith, length-append done (arg ∷ []))) (omega arith))
parse_args n done (arg ∷ b ∷ args) rest ne (h, hs) e =
    ap (λ s. parse_from s (reading n done 0))
      (append_assoc (bulk_bytes arg) (args_bytes (map some (b ∷ args))) rest)
    ∙ parse_arg n done arg (args_bytes (map some (b ∷ args)) ++ rest) h (omega arith)
    ∙ ap (after_round parse_from) (
        after_body_more n 0 (done ++ arg ∷ []) (arg ++ crlf)
          (args_bytes (map some (b ∷ args)) ++ rest) (omega (arith, length-append done (arg ∷ []))))
    ∙ parse_args n (done ++ arg ∷ []) (b ∷ args) rest (ground arith) hs
        (omega (arith, length-append done (arg ∷ [])))
    ∙ ap (λ as'. send (command as' ∷ []) (parse_from rest initial))
        (append_assoc done (arg ∷ []) (b ∷ args))

length-map-some : (args : List Bytes) → length (map some args) ≡ length args
length-map-some [] = refl
length-map-some (a ∷ args) = ap suc (length-map-some args)

header_of_command :
    (n : ℕ)
    → 0 < n
    → n < 2 ^ 32
    → parse_multi_bulk_header (b'*' ∷ (itoa n ++ crlf)) initial ≡ some (reading n [] 0)
unfolding parse_multi_bulk_header
header_of_command n h fits = ground (arith, header-crlf b'*' (itoa n), parse_uint-itoa 32 n fits)

first_line_header :
    (n : ℕ) (l rest : Bytes)
    → 0 < n
    → parse_multi_bulk_header (b'*' ∷ l) initial ≡ some (reading n [] 0)
    → after_line initial (line (b'*' ∷ l) rest) ≡ continue [] (reading n [] 0) rest
unfolding after_line
first_line_header n l rest h e = ground arith

-- The line `*n` begins a command of `n` arguments.
pub round_header :
    (n : ℕ) (rest : Bytes)
    → 0 < n
    → n < 2 ^ 32
    → round (b'*' ∷ (itoa n ++ (crlf ++ rest))) initial ≡ continue [] (reading n [] 0) rest
round_header n rest h fits =
    round_of_line _ initial (line ((b'*' ∷ itoa n) ++ crlf) rest) (
      read_line_plain (b'*' ∷ itoa n) rest initial refl
        (omega arith, digits-Lacks (itoa n) (itoa-IsDigit n)))
    ∙ first_line_header n (itoa n ++ crlf) rest h (header_of_command n h fits)

pub to_bytes-append :
    (args : List Bytes) (rest : Bytes)
    → to_bytes (multi_bulk_reply (map some args)) ++ rest
      ≡ b'*' ∷ (itoa (length args) ++ (crlf ++ (args_bytes (map some args) ++ rest)))
unfolding to_bytes
to_bytes-append args rest = rw (length-map-some args) (simp append_assoc)

-- An encoded command is parsed to itself, and the parser goes on behind it as at its start.
pub parse_command :
    (args : List Bytes) (rest : Bytes)
    → args ≢ []
    → length args < 2 ^ 32
    → All IsPlain args
    → parse_from (to_bytes (multi_bulk_reply (map some args)) ++ rest) initial
      ≡ send (command args ∷ []) (parse_from rest initial)
parse_command [] rest ne fits h = absurd (ne refl)
parse_command (a ∷ args) rest ne fits h =
    ap (λ s. parse_from s initial) (to_bytes-append (a ∷ args) rest)
    ∙ parse_from_step _ initial
    ∙ ap (after_round parse_from) (
        round_header (length (a ∷ args)) (args_bytes (map some (a ∷ args)) ++ rest) (omega arith)
          fits)
    ∙ parse_args (length (a ∷ args)) [] (a ∷ args) rest ne h (omega arith)

-- A command that survives the wire.
abbrev pub IsCommand : List Bytes → Type 0
IsCommand args = (args ≢ []) × (length args < 2 ^ 32) × All IsPlain args

abbrev pub encode : List (List Bytes) → Bytes
encode [] = []
encode (args ∷ cmds) = to_bytes (multi_bulk_reply (map some args)) ++ encode cmds

parse_end : parse_from [] initial ≡ record { sent = err_payload eof ∷ []; ending = closed }
unfolding parse_from
parse_end = refl

-- A stream of encoded commands, each with at least one and fewer than 2^32 arguments that are
-- plain (not empty, not beginning with `$`, and small enough to be allocated), is parsed to exactly
-- these commands in order, and then to the end of the stream, at which the channel is closed.
pub parse_it-encode :
    (cmds : List (List Bytes))
    → All IsCommand cmds
    → parse_it (encode cmds)
      ≡ record { sent = map command cmds ++ err_payload eof ∷ []; ending = closed }
unfolding parse_it
parse_it-encode [] h = parse_end
parse_it-encode (args ∷ cmds) ((ne, fits, plain), h) =
    parse_command args (encode cmds) ne fits plain
    ∙ ap (send (command args ∷ [])) (parse_it-encode cmds h)
