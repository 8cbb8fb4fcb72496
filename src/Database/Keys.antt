-- ===== src/Database/Keys.antt =====
-- database/key.go
pub mod Commands
use red_go.Base.{
  ℕ, List, [], ◌∷◌, ◌++◌, Option, none, some, Bytes, codes, length, pos, negsuc, ◌+◌, map,
  if◌then◌else◌, ltb, Bool,
}
use red_go.Dict
use red_go.Reply.{
  Reply, ok_reply, null_bulk_reply, bulk_reply, int_reply, multi_bulk_reply, status_reply,
  standard_error_reply, unknown_reply,
}
use red_go.Wildcard.{Item, compile_pattern, is_match}
use red_go.Database.{
  Db, Entity, bytes_data, Outcome, replied, panic, ExecFunc, PreFunc, CmdTable, get_entity,
  put_entity, remove, removes, flush, add_aof, to_cmd_line_with_name, read_first_key,
  write_first_key, write_all_keys, read_all_keys, no_prepare, register_command,
}

-- `execDel`
unfoldable pub exec_del : ExecFunc
exec_del db args =
    let (db', deleted) = removes db args in
    (
      replied (int_reply (pos deleted)),
      if ltb 0 deleted then add_aof db' (to_cmd_line_with_name (codes "DEL") args) else db',
    )

present : Option Entity → ℕ
present none = 0
present (some _) = 1

count_present : Db → List Bytes → ℕ
unfolding present
count_present db [] = 0
count_present db (key ∷ keys) = present (get_entity db key) + count_present db keys

-- `execExist`
unfoldable pub exec_exist : ExecFunc
unfolding count_present
exec_exist db args = (replied (int_reply (pos (count_present db args))), db)

-- `execFlushDB`
unfoldable pub exec_flush_db : ExecFunc
exec_flush_db db args =
    (replied ok_reply, add_aof (flush db) (to_cmd_line_with_name (codes "FLUSHDB") args))

type_of : Option Entity → Reply
type_of none = status_reply (codes "none")
type_of (some (bytes_data b)) = bulk_reply (some (codes "string"))
type_of (some _) = unknown_reply

-- `execType`
unfoldable pub exec_type : ExecFunc
unfolding type_of
exec_type db (key ∷ args) = (replied (type_of (get_entity db key)), db)
exec_type db [] = (panic, db)

-- `prepareRename`: the source is locked for reading only.
unfoldable pub prepare_rename : PreFunc
prepare_rename (src ∷ dest ∷ args) = some (dest ∷ [], src ∷ [])
prepare_rename args = none

no_such_key : Reply
no_such_key = standard_error_reply (codes "ERR no such key")

-- The move that RENAME and RENAMENX make
move : Db → Bytes → Bytes → Entity → Db
move db src dst entity =
    let (db', _) = put_entity db dst entity in let (db'', _) = remove db' src in db''

rename_found : Db → Bytes → Bytes → List Bytes → Option Entity → Outcome × Db
unfolding no_such_key move
rename_found db src dst args none = (replied no_such_key, db)
rename_found db src dst args (some entity) = (
  replied ok_reply,
  add_aof (move db src dst entity) (to_cmd_line_with_name (codes "RENAME") (src ∷ dst ∷ args)),
)

-- `execRename`
unfoldable pub exec_rename : ExecFunc
unfolding rename_found
exec_rename db (src ∷ dst ∷ args) = rename_found db src dst args (get_entity db src)
exec_rename db args = (panic, db)

rename_nx_found : Db → Bytes → Bytes → List Bytes → Option Entity → Option Entity → Outcome × Db
unfolding no_such_key move
rename_nx_found db src dst args none old = (replied no_such_key, db)
rename_nx_found db src dst args (some entity) (some _) = (replied (int_reply (pos 0)), db)
rename_nx_found db src dst args (some entity) none = (
  replied (int_reply (pos 1)),
  add_aof (move db src dst entity) (to_cmd_line_with_name (codes "RENAMENX") (src ∷ dst ∷ args)),
)

-- `execRenameNX`
unfoldable pub exec_rename_nx : ExecFunc
unfolding rename_nx_found
exec_rename_nx db (src ∷ dst ∷ args) =
    rename_nx_found db src dst args (get_entity db src) (get_entity db dst)
exec_rename_nx db args = (panic, db)

matching : List Item → List (Bytes × Entity) → List (Option Bytes)
matching pattern_items [] = []
matching pattern_items ((key, _) ∷ rest) =
    let keys = matching pattern_items rest in
    if is_match pattern_items key then some key ∷ keys else keys

-- `execKeys`
unfoldable pub exec_keys : ExecFunc
unfolding matching
exec_keys db (arg ∷ args) =
    (replied (multi_bulk_reply (matching (compile_pattern arg) (Dict.entries db.data_dict))), db)
exec_keys db [] = (panic, db)

-- `init`
unfoldable pub register_keys : CmdTable → CmdTable
register_keys table = register_command (codes "KEYS") exec_keys no_prepare (pos 2) (
    register_command (codes "RENAMENX") exec_rename_nx prepare_rename (pos 3) (
      register_command (codes "RENAME") exec_rename prepare_rename (pos 3) (
        register_command (codes "TYPE") exec_type read_first_key (pos 2) (
          register_command (codes "FLUSHDB") exec_flush_db write_all_keys (pos 1) (
            register_command (codes "EXIST") exec_exist read_all_keys (negsuc 1)
              (register_command (codes "DEL") exec_del write_all_keys (negsuc 1) table))))))
