-- ===== src/Database.antt =====
-- database/db.go, command.go and tx_utils.go, lib/util/util.go and interface/database: one database
-- and the execution of a command. A handler returns its outcome and the database after it: what it
-- wrote before a panic stays written. Objects that a key holds are shared by pointer with the
-- dictionary in the source and by no other key, so a mutation is a write of the key here.
pub mod Laws
pub mod Strings
pub mod Keys
pub mod Lists
pub mod Hashes
pub mod Sets
pub mod ZSets
pub mod Ping
pub mod Table
mod Examples
use red_go.Base.{
  ℕ, zero, suc, ◌+◌, ◌-◌, List, [], ◌∷◌, ◌++◌, Option, none, some, Bytes, Bool, true, false, ◌&&◌,
  codes, length, leb, ltb, ◌==◌, if◌then◌else◌, ℤ, pos, negsuc,
}
use red_go.Dict
use red_go.Dict.{Dict}
use red_go.Dict.Locks.{Lock, rw_locks, rw_un_locks}
use red_go.GoMap
use red_go.GoMap.{GoMap}
use red_go.Hash.{Hash}
use red_go.HashSet.{HashSet}
use red_go.Score.{Float64}
use red_go.ZSet.{ZSet}
use red_go.Reply.{Reply, standard_error_reply, arg_num_err_reply}

-- `DataEntity.Data`
pub data Entity : Type 0 where
  bytes_data : Bytes → Entity
  list_data : List Bytes → Entity
  hash_data : Hash → Entity
  set_data : HashSet → Entity
  zset_data : ZSet Float64 → Entity

abbrev pub CmdLine : Type 0
CmdLine = List Bytes

-- `DB`; `aof` lists the command lines that were passed to `addAof`.
pub record Db : Type 0 where
  pub data_dict : Dict Entity
  pub aof : List CmdLine

-- What a handler returns, or a panic: a failed type assertion, a nil pointer, or an index out of
-- range.
pub data Outcome : Type 0 where
  replied : Reply → Outcome
  panic : Outcome

-- `ExecFunc`
abbrev pub ExecFunc : Type 0
ExecFunc = Db → List Bytes → Outcome × Db

-- `dataDictSize`
abbrev pub data_dict_size : ℕ
data_dict_size = 65536

-- `MakeDB`
unfoldable pub make_db : Db
make_db = record { data_dict = Dict.make_dict data_dict_size; aof = [] }

-- `util.ToCmdLineWithName`, on an ASCII name
abbrev pub to_cmd_line_with_name : Bytes → List Bytes → CmdLine
to_cmd_line_with_name name args = name ∷ args

-- `db.addAof(...)`
unfoldable pub add_aof : Db → CmdLine → Db
add_aof db cmd = record db { aof = db.aof ++ cmd ∷ [] }

-- `GetEntity`
unfoldable pub get_entity : Db → Bytes → Option Entity
get_entity db key = Dict.get_with_lock db.data_dict key

-- `PutEntity`
unfoldable pub put_entity : Db → Bytes → Entity → Db × ℕ
put_entity db key entity =
    let (d, n) = Dict.put_with_lock db.data_dict key entity in (record db { data_dict = d }, n)

-- `PutIfAbsent`
unfoldable pub put_if_absent : Db → Bytes → Entity → Db × ℕ
put_if_absent db key entity =
    let (d, n) = Dict.put_if_absent_with_lock db.data_dict key entity in
    (record db { data_dict = d }, n)

-- `PutIfExists`
unfoldable pub put_if_exists : Db → Bytes → Entity → Db × ℕ
put_if_exists db key entity =
    let (d, n) = Dict.put_if_exists_with_lock db.data_dict key entity in
    (record db { data_dict = d }, n)

-- `Remove`
unfoldable pub remove : Db → Bytes → Db × ℕ
remove db key =
    let (d, n) = Dict.remove_with_lock db.data_dict key in (record db { data_dict = d }, n)

-- The round of `Removes` for one key
remove_counted : Option Entity → Db → Bytes → Db × ℕ
unfolding remove
remove_counted none db key = (db, 0)
remove_counted (some _) db key = ((remove db key).0, 1)

-- `Removes`
unfoldable pub removes : Db → List Bytes → Db × ℕ
unfolding remove_counted get_entity
removes db [] = (db, 0)
removes db (key ∷ keys) =
    let (db', n) = remove_counted (get_entity db key) db key in
    let (db'', m) = removes db' keys in (db'', n + m)

-- `Flush`
unfoldable pub flush : Db → Db
flush db = record db { data_dict = Dict.clear db.data_dict }

-- `PreFunc`: the keys to lock for writing and for reading; `none` is an index out of range.
abbrev pub PreFunc : Type 0
PreFunc = List Bytes → Option (List Bytes × List Bytes)

unfoldable pub read_first_key : PreFunc
read_first_key [] = none
read_first_key (key ∷ args) = some ([], key ∷ [])

unfoldable pub write_first_key : PreFunc
write_first_key [] = none
write_first_key (key ∷ args) = some (key ∷ [], [])

unfoldable pub write_all_keys : PreFunc
write_all_keys args = some (args, [])

unfoldable pub read_all_keys : PreFunc
read_all_keys args = some ([], args)

unfoldable pub no_prepare : PreFunc
no_prepare args = some ([], [])

unfoldable pub prepare_set_calculate : PreFunc
prepare_set_calculate args = some ([], args)

unfoldable pub prepare_set_calculate_store : PreFunc
prepare_set_calculate_store [] = none
prepare_set_calculate_store (dest ∷ keys) = some (dest ∷ [], keys)

-- `command`
pub record Command : Type 0 where
  pub exec : ExecFunc
  pub prepare : PreFunc
  pub arity : ℤ

abbrev pub CmdTable : Type 0
CmdTable = GoMap Command

-- `strings.ToLower` on ASCII text
unfoldable pub lower : ℕ → ℕ
lower c = if leb b'A' c && leb c b'Z' then c + 32 else c

unfoldable pub to_lower : Bytes → Bytes
unfolding lower
to_lower [] = []
to_lower (c ∷ s) = lower c ∷ to_lower s

-- `RegisterCommand`
unfoldable pub register_command : Bytes → ExecFunc → PreFunc → ℤ → CmdTable → CmdTable
unfolding to_lower
register_command name exec prepare arity table =
    GoMap.assign (to_lower name) (record { exec = exec; prepare = prepare; arity = arity }) table

-- `ValidateArity`
unfoldable pub validate_arity : ℤ → List Bytes → Bool
validate_arity (pos n) args = n == length args
validate_arity (negsuc n) args = leb (n + 1) (length args)

-- What a command line does: its outcome, the database after it, the locks that are taken before the
-- handler runs, and those that are given back behind it, also behind a panic, each in order
pub record Executed : Type 0 where
  pub outcome : Outcome
  pub db : Db
  pub taken : List Lock
  pub given_back : List Lock

-- A command line that ends before the locks
abbrev pub unlocked : Outcome → Db → Executed
unlocked outcome db = record { outcome = outcome; db = db; taken = []; given_back = [] }

-- `execNormalCommand` on a known command, behind the test of the arity. Both loops over the locks are
-- over the shards of the dictionary that the handler finds, whose number does not change.
unfoldable pub run_command : Command → Db → List Bytes → Executed
run_command cmd db args = elim (cmd.prepare args) [
  | none ↦ unlocked panic db
  | some keys ↦
      (let run = cmd.exec db args in
        record {
          outcome = run.0;
          db = run.1;
          taken = rw_locks db.data_dict keys.0 keys.1;
          given_back = rw_un_locks db.data_dict keys.0 keys.1;
        })
]

unfoldable pub unknown_command : Bytes → Reply
unknown_command name = standard_error_reply (codes "ERR unknown command '" ++ (name ++ codes "'"))

-- `execNormalCommand`, over the command table
unfoldable pub exec_normal_command : CmdTable → Db → CmdLine → Executed
unfolding run_command unknown_command
exec_normal_command table db [] = unlocked panic db
exec_normal_command table db (name ∷ args) = elim (GoMap.lookup (to_lower name) table) [
  | none ↦ unlocked (replied (unknown_command (to_lower name))) db
  | some cmd ↦
      if validate_arity cmd.arity (name ∷ args)
      then run_command cmd db args
      else unlocked (replied (arg_num_err_reply (to_lower name))) db
]

-- `execWithLock`, over the command table: no locks, and another reply to a wrong arity
unfoldable pub exec_with_lock : CmdTable → Db → CmdLine → Outcome × Db
unfolding unknown_command
exec_with_lock table db [] = (panic, db)
exec_with_lock table db (name ∷ args) = elim (GoMap.lookup (to_lower name) table) [
  | none ↦ (replied (unknown_command (to_lower name)), db)
  | some cmd ↦
      if validate_arity cmd.arity (name ∷ args)
      then cmd.exec db args
      else (replied (standard_error_reply (to_lower name)), db)
]
