-- ===== src/Reply.antt =====
-- The replies of resp/reply (consts.go, error.go, reply.go) and their bytes on the wire.
-- A `[]byte` that may be nil is an `Option Bytes`.
use red_go.Base.{ℕ, Bool, List, [], ◌∷◌, ◌++◌, Option, none, some, Bytes, codes, length, ◌==◌, ℤ}
use red_go.Strconv.{itoa, format_int}

pub data Reply : Type 0 where
  pong_reply ok_reply null_bulk_reply empty_bulk_reply empty_multi_bulk_reply no_reply : Reply
  unknown_reply syntax_err_reply wrong_type_err_reply : Reply
  arg_num_err_reply protocol_err_reply status_reply standard_error_reply : Bytes → Reply
  bulk_reply : Option Bytes → Reply
  multi_bulk_reply : List (Option Bytes) → Reply
  int_reply : ℤ → Reply

-- `CRLF`
abbrev pub crlf : Bytes
crlf = codes "\r\n"

abbrev pub null_bulk_reply_bytes : Bytes
null_bulk_reply_bytes = codes "$-1"

-- `"$" + strconv.Itoa(len(arg)) + CRLF + string(arg) + CRLF`
abbrev pub bulk_bytes : Bytes → Bytes
bulk_bytes arg = b'$' ∷ (itoa (length arg) ++ (crlf ++ (arg ++ crlf)))

-- The body of the loop of `MultiBulkReply.ToBytes`.
abbrev pub arg_bytes : Option Bytes → Bytes
arg_bytes none = null_bulk_reply_bytes ++ crlf
arg_bytes (some arg) = bulk_bytes arg

abbrev pub args_bytes : List (Option Bytes) → Bytes
args_bytes [] = []
args_bytes (arg ∷ args) = arg_bytes arg ++ args_bytes args

-- The bytes of the replies of consts.go, and of error.go
abbrev pong_reply_bytes : Bytes
pong_reply_bytes = codes "+PONG\r\n"

abbrev ok_reply_bytes : Bytes
ok_reply_bytes = codes "+OK\r\n"

abbrev null_bulk_bytes : Bytes
null_bulk_bytes = codes "$-1\r\n"

abbrev empty_bulk_bytes : Bytes
empty_bulk_bytes = codes "$0\r\n\r\n"

abbrev empty_multi_bulk_bytes : Bytes
empty_multi_bulk_bytes = codes "*0\r\n"

abbrev no_reply_bytes : Bytes
no_reply_bytes = []

abbrev unknown_reply_bytes : Bytes
unknown_reply_bytes = codes "-ERR unknown\r\n"

abbrev syntax_err_bytes : Bytes
syntax_err_bytes = codes "-ERR syntax error\r\n"

abbrev wrong_type_err_bytes : Bytes
wrong_type_err_bytes =
    codes "-WRONG TYPE Operation against a key holding the wrong kind of value\r\n"

abbrev arg_num_err_bytes : Bytes → Bytes
arg_num_err_bytes cmd =
    codes "-ERR wrong number of arguments for '" ++ (cmd ++ codes "' command\r\n")

abbrev protocol_err_bytes : Bytes → Bytes
protocol_err_bytes msg = codes "-PROTOCOL ERROR: " ++ (msg ++ crlf)

-- `ToBytes`
unfoldable pub to_bytes : Reply → Bytes
to_bytes pong_reply = pong_reply_bytes
to_bytes ok_reply = ok_reply_bytes
to_bytes null_bulk_reply = null_bulk_bytes
to_bytes empty_bulk_reply = empty_bulk_bytes
to_bytes empty_multi_bulk_reply = empty_multi_bulk_bytes
to_bytes no_reply = no_reply_bytes
to_bytes unknown_reply = unknown_reply_bytes
to_bytes syntax_err_reply = syntax_err_bytes
to_bytes wrong_type_err_reply = wrong_type_err_bytes
to_bytes (arg_num_err_reply cmd) = arg_num_err_bytes cmd
to_bytes (protocol_err_reply msg) = protocol_err_bytes msg
to_bytes (status_reply status) = b'+' ∷ (status ++ crlf)
to_bytes (standard_error_reply status) = b'-' ∷ (status ++ crlf)
to_bytes (bulk_reply none) = null_bulk_reply_bytes
to_bytes (bulk_reply (some arg)) = bulk_bytes arg
to_bytes (multi_bulk_reply args) = b'*' ∷ (itoa (length args) ++ (crlf ++ args_bytes args))
to_bytes (int_reply code) = b':' ∷ (format_int code ++ crlf)

-- `reply.ToBytes()[0] == c`; `none` is the panic on a reply with no bytes.
unfoldable pub first_byte_is : ℕ → Bytes → Option Bool
first_byte_is c [] = none
first_byte_is c (b ∷ bs) = some (b == c)

unfoldable pub is_error : Reply → Option Bool
unfolding first_byte_is to_bytes
is_error reply = first_byte_is b'-' (to_bytes reply)

unfoldable pub is_multi_bulk_reply : Reply → Option Bool
unfolding first_byte_is to_bytes
is_multi_bulk_reply reply = first_byte_is b'*' (to_bytes reply)
