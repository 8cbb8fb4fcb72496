-- ===== src/Parser/Examples.antt =====
-- The theorems on the parser at concrete streams.
use red_go.Base.{List, [], ◌∷◌, ◌++◌, some, Bytes, codes, ◌≡◌, ◌≢◌, All, arith, map}
use red_go.Reply.{multi_bulk_reply, to_bytes}
use red_go.Parser.{parse_it, out_of_fuel, err_payload, eof, closed, panicked}
use red_go.Parser.Steps.{parse_it_ends}
use red_go.Parser.RoundTrip.{parse_it-encode, encode, command, IsCommand, IsPlain}
use red_go.Parser.Faults.{parse_it_empty_arg}

abbrev set_command : List Bytes
set_command = codes "SET" ∷ codes "k" ∷ codes "v1" ∷ []

abbrev get_command : List Bytes
get_command = codes "GET" ∷ codes "k" ∷ []

set_command-IsCommand : IsCommand set_command
set_command-IsCommand = (ground arith, omega arith, ground arith)

get_command-IsCommand : IsCommand get_command
get_command-IsCommand = (ground arith, omega arith, ground arith)

parse_it-encode_example : parse_it (encode (set_command ∷ get_command ∷ [])) ≡ record {
  sent = command set_command ∷ command get_command ∷ err_payload eof ∷ [];
  ending = closed;
}
parse_it-encode_example =
    parse_it-encode (set_command ∷ get_command ∷ [])
      (set_command-IsCommand, (get_command-IsCommand, tt))

parse_it_ends_example : (parse_it (codes "*2\r\n$3\r\nGET\r\n")).ending ≢ out_of_fuel
parse_it_ends_example = parse_it_ends (codes "*2\r\n$3\r\nGET\r\n")

abbrev set_name : List Bytes
set_name = codes "SET" ∷ codes "k" ∷ []

abbrev key_behind : List Bytes
key_behind = codes "v" ∷ []

set_name-IsPlain : All IsPlain set_name
set_name-IsPlain = ground arith

parse_it_empty_arg_example :
    parse_it
      (to_bytes (multi_bulk_reply (map some (set_name ++ [] ∷ key_behind))) ++ codes "PING\r\n")
    ≡ record { sent = []; ending = panicked }
parse_it_empty_arg_example =
    parse_it_empty_arg set_name key_behind (codes "PING\r\n") set_name-IsPlain (ground arith)
      (omega arith)
