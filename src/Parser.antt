-- ===== src/Parser.antt =====
-- resp/parser/parser.go: the loop that reads RESP messages from a stream. The stream is the list of
-- the bytes that come before its end, and a run gives the payloads sent on the channel.
pub mod Steps
pub mod Lines
pub mod RoundTrip
pub mod Faults
mod Examples
use red_go.Base.{
  ℕ, zero, suc, ◌+◌, ◌-◌, ◌^◌, ◌<◌, Bool, true, false, ◌&&◌, ◌||◌, List, [], ◌∷◌, ◌++◌, Option,
  none, some, Bytes, length, take, drop, codes, ◌==◌, ltb, leb, if◌then◌else◌, ℤ, pos, negsuc,
  get_elem?, ◌>>=◌, map,
}
use red_go.Reply.{
  Reply, bulk_reply, multi_bulk_reply, status_reply, standard_error_reply, int_reply,
  null_bulk_reply, empty_multi_bulk_reply,
}
use red_go.Strconv.{parse_uint, parse_int}

-- `io.EOF`, `io.ErrUnexpectedEOF`, and the errors that the parser makes.
pub data ParseError : Type 0 where
  eof unexpected_eof invalid_line_terminator invalid_bulk_line_terminator : ParseError
  protocol_error : Bytes → ParseError

-- `Payload`. `Data` may be a nil interface.
pub data Payload : Type 0 where
  payload : Option Reply → Payload
  err_payload : ParseError → Payload

-- `readState`
pub record ReadState : Type 0 where
  pub reading_multi_line : Bool
  pub expected_args_count : ℕ
  pub msg_type : ℕ
  pub args : List Bytes
  pub bulk_len : ℤ

-- `readState{}`
abbrev pub initial : ReadState
initial = record {
  reading_multi_line = false;
  expected_args_count = 0;
  msg_type = 0;
  args = [];
  bulk_len = pos 0;
}

unfoldable pub is_done : ReadState → Bool
is_done r = ltb 0 r.expected_args_count && (length r.args == r.expected_args_count)

-- What `readLine` does: a line and the rest of the stream, an IO error, another error with the rest
-- of the stream, or a panic.
pub data Line : Type 0 where
  line : Bytes → Bytes → Line
  io_error : ParseError → Line
  bad_line : ParseError → Bytes → Line
  line_panic : Line

-- `bufReader.ReadBytes('\n')`: the bytes up to the delimiter and with it, and the bytes behind.
unfoldable pub read_bytes : Bytes → Option (Bytes × Bytes)
read_bytes [] = none
read_bytes (c ∷ s) =
    if c == b'\n' then some (c ∷ [], s) else (do (l, rest) ← read_bytes s; some (c ∷ l, rest))

-- `line[i]`
abbrev pub at : Bytes → ℕ → Option ℕ
at = get_elem?

-- The test of a line that `ReadBytes` returns: the byte before the last is `\r`. A line of one byte
-- makes the index negative.
check_line : Bytes → Bytes → Line
check_line [] rest = bad_line invalid_line_terminator rest
check_line (c ∷ []) rest = line_panic
check_line (c ∷ d ∷ s) rest = elim (at (c ∷ d ∷ s) (length s)) [
  | none ↦ line_panic
  | some b ↦ if b == b'\r' then line (c ∷ d ∷ s) rest else bad_line invalid_line_terminator rest
]

-- `make` panics above the largest allocation of the runtime (2^48 bytes on 64-bit Linux).
abbrev pub max_alloc : ℕ
max_alloc = 2 ^ 48

-- The test of a bulk of `n + 2` bytes.
check_bulk : ℕ → Bytes → Bytes → Line
check_bulk n bulk rest = elim (at bulk n) [
  | none ↦ line_panic
  | some a ↦ elim (at bulk (n + 1)) [
    | none ↦ line_panic
    | some b ↦
        if (a == b'\r') && (b == b'\n')
        then line bulk rest
        else bad_line invalid_bulk_line_terminator rest
  ]
]

-- `io.ReadFull` of `n + 2` bytes
read_full : ℕ → Bytes → Line
unfolding check_bulk
read_full n [] = io_error eof
read_full n (c ∷ s) =
    if ltb (length (c ∷ s)) (n + 2)
    then io_error unexpected_eof
    else check_bulk n (take (n + 2) (c ∷ s)) (drop (n + 2) (c ∷ s))

read_plain : Option (Bytes × Bytes) → Line
unfolding check_line
read_plain none = io_error eof
read_plain (some (l, rest)) = check_line l rest

-- `readLine`. A negative `bulkLen` never reaches it: the callers reset the state.
unfoldable pub read_line : Bytes → ReadState → Line
unfolding read_bytes read_plain read_full
read_line s state = elim state.bulk_len [
  | pos zero ↦ read_plain (read_bytes s)
  | pos (suc n) ↦ if ltb max_alloc (suc n + 2) then line_panic else read_full (suc n) s
  | negsuc n ↦ line_panic
]

-- `msg[1:len(msg)-2]`
abbrev pub header : Bytes → Bytes
header msg = drop 1 (take (length msg - 2) msg)

-- `parseMultiBulkHeader`; `none` is its error.
unfoldable pub parse_multi_bulk_header : Bytes → ReadState → Option ReadState
parse_multi_bulk_header msg state = do
  expected_line ← parse_uint 32 (header msg)
  if expected_line == 0
      then some (record state { expected_args_count = 0 })
      else some (record state {
        msg_type = b'*';
        reading_multi_line = true;
        expected_args_count = expected_line;
        args = [];
      })

-- `parseBulkHeader`, behind the parsed length
bulk_header : ℤ → ReadState → Option ReadState
bulk_header (negsuc zero) state = some (record state { bulk_len = negsuc zero })
bulk_header (pos (suc n)) state = some (record state {
  bulk_len = pos (suc n);
  msg_type = b'$';
  reading_multi_line = true;
  expected_args_count = 1;
  args = [];
})
bulk_header _ state = none

-- `parseBulkHeader`; `none` is its error.
unfoldable pub parse_bulk_header : Bytes → ReadState → Option ReadState
unfolding bulk_header
parse_bulk_header msg state = do n ← parse_int (header msg); bulk_header n state

-- `parseSingleLineReply`, with the line without its `\r\n`
unfoldable pub parse_single_line_reply : Bytes → Bytes → Payload
parse_single_line_reply msg [] = payload none
parse_single_line_reply msg (c ∷ str) =
    if c == b'+'
    then payload (some (status_reply str))
    else if c == b'-'
    then payload (some (standard_error_reply str))
    else if c == b':'
    then elim (parse_int str) [
      | none ↦ err_payload (protocol_error (codes "protocol error: " ++ msg))
      | some val ↦ payload (some (int_reply val))
    ]
    else payload none

-- What `readBody` does to the state, with the line without its `\r\n`.
pub data Body : Type 0 where
  body : ReadState → Body
  body_error body_panic : Body

-- The branch of a line `$n`: a length for the next line, or an empty bulk.
body_length : ReadState → Option ℤ → Body
body_length state none = body_error
body_length state (some (pos (suc n))) = body (record state { bulk_len = pos (suc n) })
body_length state (some _) =
    body (record state { args = state.args ++ ([] ∷ []); bulk_len = pos 0 })

unfoldable pub read_body : Bytes → ReadState → Body
unfolding body_length
read_body [] state = body_panic
read_body (c ∷ l) state =
    if c == b'$'
    then body_length state (parse_int l)
    else body (record state { args = state.args ++ ((c ∷ l) ∷ []) })

-- One round of the loop of `parseIt`: the payloads that it sends, and the state and the stream
-- after it; or the end of the goroutine.
pub data Ending : Type 0 where
  closed panicked out_of_fuel : Ending

pub data Round : Type 0 where
  continue : List Payload → ReadState → Bytes → Round
  stop : List Payload → Ending → Round

protocol : Bytes → Bytes → Round
protocol msg rest =
    continue (err_payload (protocol_error (codes "Protocol error" ++ msg)) ∷ []) initial rest

after_multi_bulk : Bytes → Bytes → Option ReadState → Round
unfolding protocol
after_multi_bulk msg rest none = protocol msg rest
after_multi_bulk msg rest (some state) =
    if state.expected_args_count == 0
    then continue (payload (some empty_multi_bulk_reply) ∷ []) initial rest
    else continue [] state rest

after_bulk : Bytes → Bytes → Option ReadState → Round
unfolding protocol
after_bulk msg rest none = protocol msg rest
after_bulk msg rest (some state) = elim state.bulk_len [
  | negsuc zero ↦ continue (payload (some null_bulk_reply) ∷ []) initial rest
  | _ ↦ continue [] state rest
]

-- `!state.readingMultiLine`: the first line of a message
unfoldable pub first_line : Bytes → Bytes → ReadState → Round
unfolding after_multi_bulk after_bulk parse_multi_bulk_header parse_bulk_header
    parse_single_line_reply
first_line [] rest state = stop [] panicked
first_line (c ∷ l) rest state =
    if c == b'*'
    then after_multi_bulk (c ∷ l) rest (parse_multi_bulk_header (c ∷ l) state)
    else if c == b'$'
    then after_bulk (c ∷ l) rest (parse_bulk_header (c ∷ l) state)
    else continue (parse_single_line_reply (c ∷ l) (take (length (c ∷ l) - 2) (c ∷ l)) ∷ []) initial
        rest

-- The reply of a complete body.
result : ReadState → Option Reply
result state =
    if state.msg_type == b'*'
    then some (multi_bulk_reply (map some state.args))
    else if state.msg_type == b'$'
    then (do arg ← get_elem? state.args 0; some (bulk_reply (some arg)))
    else none

pub after_body : Bytes → Bytes → Body → Round
unfolding protocol result is_done
after_body msg rest body_panic = stop [] panicked
after_body msg rest body_error = protocol msg rest
after_body msg rest (body state) =
    if is_done state
    then continue (payload (result state) ∷ []) initial rest
    else continue [] state rest

pub after_line : ReadState → Line → Round
unfolding first_line read_body after_body
after_line state (io_error e) = stop (err_payload e ∷ []) closed
after_line state line_panic = stop [] panicked
after_line state (bad_line e rest) = continue (err_payload e ∷ []) initial rest
after_line state (line msg rest) =
    if state.reading_multi_line
    then after_body msg rest (read_body (take (length msg - 2) msg) state)
    else first_line msg rest state

-- `readLine` leaves a zero `bulkLen` behind: it resets the one of a bulk that it has read.
unfoldable pub round : Bytes → ReadState → Round
unfolding read_line after_line
round s state = after_line (record state { bulk_len = pos 0 }) (read_line s state)

-- The payloads sent until the goroutine ends, and how it ends: it closes the channel, or a panic is
-- recovered and the channel stays open.
pub record Run : Type 0 where
  pub sent : List Payload
  pub ending : Ending

abbrev pub send : List Payload → Run → Run
send ps r = record r { sent = ps ++ r.sent }

-- What a round means for the run: `go` is the run from the next round on.
abbrev pub after_round : (Bytes → ReadState → Run) → Round → Run
after_round go (continue ps state rest) = send ps (go rest state)
after_round go (stop ps e) = record { sent = ps; ending = e }

-- `parseIt`, with fuel for its rounds
unfoldable pub parse_loop : ℕ → Bytes → ReadState → Run
parse_loop zero s state = record { sent = []; ending = out_of_fuel }
parse_loop (suc f) s state = after_round (parse_loop f) (round s state)

-- Every round takes a byte or ends the loop, so this fuel is enough.
unfoldable pub parse_from : Bytes → ReadState → Run
unfolding parse_loop round
parse_from s state = parse_loop (length s + 1) s state

unfoldable pub parse_it : Bytes → Run
unfolding parse_from
parse_it s = parse_from s initial
