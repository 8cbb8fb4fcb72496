-- ===== src/Standalone.antt =====
-- database/standalone_database.go: the numbered databases of a server and the dispatch of a command
-- line to the one that the connection has selected. A connection is the index that it has selected.
pub mod Laws
mod Examples
use red_go.Base.{
  ℕ, ◌==◌, Bool, true, false, List, [], ◌∷◌, ◌++◌, Option, none, some, Bytes, codes, length,
  eq_bytes, if◌then◌else◌, map, ℤ, pos, negsuc, ltb, get_elem?, set, replicate, not,
}
use red_go.Strconv.{parse_int}
use red_go.Reply.{Reply, ok_reply, pong_reply, standard_error_reply, arg_num_err_reply}
use red_go.Aof.{AofPayload, Exec}
use red_go.Database.{
  Db, CmdLine, CmdTable, ExecFunc, Outcome, replied, panic, make_db, to_lower, exec_normal_command,
  register_command, no_prepare,
}

-- `StandaloneDatabase`; `sent` lists what the `addAof` of the databases passed to `AddAof`, where the
-- append-only file is on.
pub record Standalone : Type 0 where
  pub db_set : List Db
  pub append_only : Bool
  pub sent : List AofPayload

-- `NewStandaloneDatabase`, over `config.Properties`, before the file is loaded
unfoldable pub new_standalone_database : ℕ → Bool → Standalone
new_standalone_database databases append_only = record {
  db_set = replicate (if databases == 0 then 16 else databases) make_db;
  append_only = append_only;
  sent = [];
}

-- `execSelect`: the reply and the selected index
unfoldable pub exec_select : Standalone → ℕ → Bytes → Reply × ℕ
exec_select d selected arg = elim (parse_int arg) [
  | none ↦ (standard_error_reply (codes "ERR invalid DB index"), selected)
  | some (negsuc _) ↦ (standard_error_reply (codes "ERR DB index out of range"), selected)
  | some (pos i) ↦
      if ltb i (length d.db_set)
      then (ok_reply, i)
      else (standard_error_reply (codes "ERR DB index out of range"), selected)
]

-- The reply of an outcome: after a panic, `recover` leaves the nil reply. It takes the value of the panic
-- for an `error`, which a run-time error is; the panics with a text of the dictionary and the integer
-- set, on a nil dictionary, a wrong encoding and an index out of range, are not modelled.
unfoldable pub recovered : Outcome → Option Reply
recovered panic = none
recovered (replied reply) = some reply

-- The closures `addAof`: the command lines of a database, with its index
unfoldable pub send_lines : ℕ → List CmdLine → List AofPayload
send_lines index [] = []
send_lines index (cmd ∷ cmds) = record { cmd = cmd; db_index = index } ∷ send_lines index cmds

-- A command line on one of the databases. Its list `aof` is that of this call: it starts empty.
unfoldable pub exec_on : CmdTable → Standalone → ℕ → Db → CmdLine → Option Reply × Standalone
unfolding recovered send_lines
exec_on table d index db args =
    let run = exec_normal_command table (record db { aof = [] }) args in
    (
      recovered run.outcome,
      record d {
        db_set = set d.db_set index run.db;
        sent = if d.append_only then d.sent ++ send_lines index run.db.aof else d.sent;
      },
    )

-- `Exec`
unfoldable pub exec : CmdTable → Exec Standalone
unfolding exec_select exec_on
exec table d selected [] = (none, (d, selected))
exec table d selected (name ∷ args) =
    if eq_bytes (to_lower name) (codes "select")
    then elim args [
      | [] ↦ (some (arg_num_err_reply (codes "select")), (d, selected))
      | arg ∷ rest ↦ elim rest [
        | [] ↦ (let (reply, selected') = exec_select d selected arg in (some reply, (d, selected')))
        | _ ∷ _ ↦ (some (arg_num_err_reply (codes "select")), (d, selected))
      ]
    ]
    else elim (get_elem? d.db_set selected) [
      | none ↦ (none, (d, selected))
      | some db ↦
          (let (reply, d') = exec_on table d selected db (name ∷ args) in (reply, (d', selected)))
    ]
