-- ===== src/Aof.antt =====
-- aof/aof.go: the log of the commands that changed a database, and its replay at the start. The
-- database is a parameter, as the interface `Database` is in the source. Writes to the file succeed.
pub mod Lines
pub mod Replay
pub mod Restart
use red_go.Base.{
  ℕ, ◌==◌, Bool, true, false, List, [], ◌∷◌, ◌++◌, Option, none, some, Bytes, codes, length,
  eq_bytes, if◌then◌else◌, map, ℤ, pos, negsuc,
}
use red_go.Strconv.{itoa, parse_int}
use red_go.Reply.{Reply, multi_bulk_reply, to_bytes, is_error}
use red_go.Parser.{
  Payload, payload, err_payload, ParseError, eof, unexpected_eof, Ending, closed, panicked,
  out_of_fuel, Run, parse_it,
}
use red_go.Database.{CmdLine, to_lower}

-- `payload`
pub record AofPayload : Type 0 where
  pub cmd : CmdLine
  pub db_index : ℕ

abbrev pub select_line : ℕ → CmdLine
select_line i = codes "SELECT" ∷ itoa i ∷ []

-- `reply.MakeMultiBulkReply(...).ToBytes()`
abbrev pub line_bytes : CmdLine → Bytes
line_bytes cmd = to_bytes (multi_bulk_reply (map some cmd))

-- `handleAof`, from a current database on: what it writes for the commands of the channel
unfoldable pub handle_aof : ℕ → List AofPayload → Bytes
handle_aof current [] = []
handle_aof current (p ∷ ps) =
    let rest = handle_aof p.db_index ps in
    (if p.db_index == current then [] else line_bytes (select_line p.db_index))
    ++ (line_bytes p.cmd ++ rest)

-- `Exec` of the database, for a connection that has selected one of them: the reply, which may be
-- nil, the databases and the selection after it
abbrev pub Exec {ℓ} : Type ℓ → Type ℓ
Exec D = D → ℕ → CmdLine → Option Reply × (D × ℕ)

-- The databases, `fakeConn.selectedDB`, and `currentDB` of the handler
pub record Loading {ℓ} (D : Type ℓ) : Type ℓ where
  pub db : D
  pub selected : ℕ
  pub current_db : ℤ

-- The replay ends, panics, or waits for a channel that is never closed.
pub data Loaded {ℓ} (D : Type ℓ) : Type ℓ where
  loaded : Loading D → Loaded D
  crashed : Loaded D
  waiting : Loaded D

-- What `LoadAof` does with a `SELECT`: the new `currentDB`, or `continue`, or a panic
pub data Selection : Type 0 where
  select_db : ℤ → Selection
  skip : Selection
  nil_error : Selection

-- The second argument of a `SELECT`
selection : List Bytes → Selection
selection (name ∷ index ∷ []) = elim (parse_int index) [ some i ↦ select_db i | none ↦ skip ]
selection args = nil_error

abbrev string_of : Option Bytes → Bytes
string_of none = []
string_of (some b) = b

module _ {ℓ} {D : Type ℓ} (exec : Exec D) where
  -- `Exec` and `IsError`, with the round behind them; a nil reply is a panic.
  exec_line : (Loading D → Loaded D) → Loading D → CmdLine → Loaded D
  exec_line go st args =
      let (reply, (db', selected')) = exec st.db st.selected args in
      elim reply [
        | none ↦ crashed
        | some r ↦ elim (is_error r) [
          | none ↦ crashed
          | some _ ↦ go (record st { db = db'; selected = selected' })
        ]
      ]

  -- A command line of the file
  load_line : (Loading D → Loaded D) → Loading D → CmdLine → Loaded D
  unfolding exec_line selection
  load_line go st [] = crashed
  load_line go st (name ∷ args) =
      if eq_bytes (to_lower name) (codes "select")
      then elim (selection (name ∷ args)) [
        | nil_error ↦ crashed
        | skip ↦ go st
        | select_db i ↦ exec_line go (record st { current_db = i }) (name ∷ args)
      ]
      else exec_line go st (name ∷ args)

  -- The loop of `LoadAof`
  unfoldable pub load_loop : Ending → List Payload → Loading D → Loaded D
  unfolding load_line
  load_loop closed [] st = loaded st
  load_loop panicked [] st = waiting
  load_loop out_of_fuel [] st = waiting
  load_loop ending (err_payload eof ∷ ps) st = loaded st
  load_loop ending (err_payload unexpected_eof ∷ ps) st = loaded st
  load_loop ending (err_payload _ ∷ ps) st = load_loop ending ps st
  load_loop ending (payload (some (multi_bulk_reply args)) ∷ ps) st =
      load_line (load_loop ending ps) st (map string_of args)
  load_loop ending (payload _ ∷ ps) st = load_loop ending ps st

  -- `LoadAof` of a file that can be opened, up to the line behind the loop
  unfoldable pub load_aof : D → Bytes → Loaded D
  unfolding load_loop
  load_aof db file =
      let run = parse_it file in
      load_loop run.ending run.sent (record { db = db; selected = 0; current_db = pos 0 })

-- `AofHandler`: the bytes of `aofFile`, and `currentDB`
pub record AofHandler : Type 0 where
  pub aof_file : Bytes
  pub current_db : ℤ

-- `h.currentDB == dbIndex`
unfoldable pub is_current : ℤ → ℕ → Bool
is_current (pos k) i = i == k
is_current (negsuc k) i = false

-- `h.aofFile.Write` of a command line
unfoldable pub write_line : AofHandler → CmdLine → AofHandler
write_line h cmd = record h { aof_file = h.aof_file ++ line_bytes cmd }

-- One round of the loop of `handleAof`
unfoldable pub handle_payload : AofHandler → AofPayload → AofHandler
unfolding is_current write_line
handle_payload h p =
    let h' =
      if is_current h.current_db p.db_index
      then h
      else write_line (record h { current_db = pos p.db_index }) (select_line p.db_index) in
    write_line h' p.cmd

-- The loop of `handleAof`, over the payloads of the channel
unfoldable pub handle_payloads : AofHandler → List AofPayload → AofHandler
unfolding handle_payload
handle_payloads h [] = h
handle_payloads h (p ∷ ps) = handle_payloads (handle_payload h p) ps

-- What `LoadAof` does behind its loop
unfoldable pub finish_load : AofHandler → AofHandler
unfolding is_current write_line
finish_load h = if is_current h.current_db 0 then h else write_line h (select_line 0)

module _ {ℓ} {D : Type ℓ} (exec : Exec D) where
  -- `NewAofHandler` over a file with these bytes: the databases and the handler that go on, or nothing
  -- where `LoadAof` panics or waits
  unfoldable pub new_aof_handler : D → Bytes → Option (D × AofHandler)
  unfolding finish_load
  new_aof_handler db file = elim (load_aof exec db file) [
    | loaded st ↦ some (st.db, finish_load (record { aof_file = file; current_db = st.current_db }))
    | crashed ↦ none
    | waiting ↦ none
  ]
