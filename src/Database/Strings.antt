-- ===== src/Database/Strings.antt =====
-- database/strings.go
pub mod Commands
use red_go.Base.{ℕ, List, [], ◌∷◌, Option, none, some, Bytes, codes, length, pos, negsuc}
use red_go.Reply.{Reply, ok_reply, null_bulk_reply, bulk_reply, int_reply}
use red_go.Database.{
  Db, Entity, bytes_data, Outcome, replied, panic, ExecFunc, CmdTable, get_entity, put_entity,
  put_if_absent, add_aof, to_cmd_line_with_name, read_first_key, write_first_key, register_command,
}

-- The bulk of an entity, where the type assertion to `[]byte` holds
bulk_of : Option Entity → Outcome
bulk_of none = replied null_bulk_reply
bulk_of (some (bytes_data b)) = replied (bulk_reply (some b))
bulk_of (some _) = panic

-- `execGet`
unfoldable pub exec_get : ExecFunc
unfolding bulk_of
exec_get db (key ∷ args) = (bulk_of (get_entity db key), db)
exec_get db [] = (panic, db)

-- `execSet`
unfoldable pub exec_set : ExecFunc
exec_set db (key ∷ value ∷ args) =
    let (db', _) = put_entity db key (bytes_data value) in
    (replied ok_reply, add_aof db' (to_cmd_line_with_name (codes "SET") (key ∷ value ∷ args)))
exec_set db args = (panic, db)

-- `execSetNX`
unfoldable pub exec_set_nx : ExecFunc
exec_set_nx db (key ∷ value ∷ args) =
    let (db', result) = put_if_absent db key (bytes_data value) in
    (
      replied (int_reply (pos result)),
      add_aof db' (to_cmd_line_with_name (codes "SETNX") (key ∷ value ∷ args)),
    )
exec_set_nx db args = (panic, db)

-- `execGetSet`: the type of the old value is asserted behind the write.
unfoldable pub exec_get_set : ExecFunc
unfolding bulk_of
exec_get_set db (key ∷ value ∷ args) =
    let (db', _) = put_entity db key (bytes_data value) in
    (
      bulk_of (get_entity db key),
      add_aof db' (to_cmd_line_with_name (codes "GETSET") (key ∷ value ∷ args)),
    )
exec_get_set db args = (panic, db)

strlen_of : Option Entity → Outcome
strlen_of none = replied null_bulk_reply
strlen_of (some (bytes_data b)) = replied (int_reply (pos (length b)))
strlen_of (some _) = panic

-- `execStrlen`
unfoldable pub exec_strlen : ExecFunc
unfolding strlen_of
exec_strlen db (key ∷ args) = (strlen_of (get_entity db key), db)
exec_strlen db [] = (panic, db)

-- `init`
unfoldable pub register_strings : CmdTable → CmdTable
register_strings table = register_command (codes "STRLEN") exec_strlen read_first_key (pos 2) (
    register_command (codes "GETSET") exec_get_set read_first_key (pos 3) (
      register_command (codes "SETNX") exec_set_nx write_first_key (pos 3) (
        register_command (codes "SET") exec_set write_first_key (pos 3)
          (register_command (codes "GET") exec_get read_first_key (pos 2) table))))
