-- ===== src/Database/Hashes.antt =====
-- database/hash.go. A hash that a key holds is mutated in place: the write of the key stands for it.
pub mod Commands
pub mod Panics
use red_go.Base.{
  ℕ, zero, suc, ◌+◌, ◌-◌, ◌%◌, List, [], ◌∷◌, ◌++◌, Option, none, some, Bytes, Bool, true, false,
  codes, length, pos, negsuc, ltb, ◌==◌, if◌then◌else◌, map,
}
use red_go.GoMap.{GoMap}
use red_go.Hash
use red_go.Hash.{Hash, make_hash}
use red_go.Reply.{
  Reply, ok_reply, null_bulk_reply, bulk_reply, int_reply, multi_bulk_reply, empty_multi_bulk_reply,
  standard_error_reply,
}
use red_go.Database.{
  Db, Entity, hash_data, Outcome, replied, panic, ExecFunc, CmdTable, CmdLine, get_entity,
  put_entity, remove, add_aof, to_cmd_line_with_name, read_first_key, write_first_key,
  register_command,
}

-- The results of `getAsHash`: no key, a nil hash for a key of another type, or the hash.
pub data HashAt : Type 0 where
  no_hash : HashAt
  nil_hash : HashAt
  found_hash : Hash → HashAt

hash_of : Option Entity → HashAt
hash_of none = no_hash
hash_of (some (hash_data h)) = found_hash h
hash_of (some _) = nil_hash

-- `getAsHash`
unfoldable pub get_as_hash : Db → Bytes → HashAt
unfolding hash_of
get_as_hash db key = hash_of (get_entity db key)

-- `getOrCreateHash`: the hash, which is nil for a key of another type, and the database
or_create : Db → Bytes → HashAt → Option Hash × Db
or_create db key no_hash = (some make_hash, (put_entity db key (hash_data make_hash)).0)
or_create db key nil_hash = (none, db)
or_create db key (found_hash h) = (some h, db)

unfoldable pub get_or_create_hash : Db → Bytes → Option Hash × Db
unfolding or_create
get_or_create_hash db key = or_create db key (get_as_hash db key)

-- The hash that `key` holds, mutated in place
update_hash : Db → Bytes → Hash → Db
update_hash db key h = (put_entity db key (hash_data h)).0

set_created : Bytes → Bytes → Bytes → CmdLine → Option Hash × Db → Outcome × Db
unfolding update_hash
set_created key field value cmd (none, db) = (panic, db)
set_created key field value cmd (some h, db) =
    let (h', result) = Hash.set_field h field value in
    (replied (int_reply (pos result)), add_aof (update_hash db key h') cmd)

-- `execHSet`
unfoldable pub exec_h_set : ExecFunc
unfolding set_created
exec_h_set db (key ∷ field ∷ value ∷ args) =
    set_created key field value (to_cmd_line_with_name (codes "HSET") (key ∷ field ∷ value ∷ args))
      (get_or_create_hash db key)
exec_h_set db args = (panic, db)

pub bulk_or_null : Option Bytes → Reply
bulk_or_null none = null_bulk_reply
bulk_or_null (some value) = bulk_reply (some value)

-- A read of a hash: the reply without a key, the panic on a nil hash, and the reply from a hash.
unfoldable pub read_hash : Reply → (Hash → Reply) → HashAt → Outcome
read_hash absent f no_hash = replied absent
read_hash absent f nil_hash = panic
read_hash absent f (found_hash h) = replied (f h)

-- `execHGet`
unfoldable pub exec_h_get : ExecFunc
unfolding read_hash bulk_or_null
exec_h_get db (key ∷ field ∷ args) =
    (read_hash null_bulk_reply (λ h. bulk_or_null (Hash.get h field)) (get_as_hash db key), db)
exec_h_get db args = (panic, db)

-- `execHExists`
unfoldable pub exec_h_exists : ExecFunc
unfolding read_hash
exec_h_exists db (key ∷ field ∷ args) = (
  read_hash (int_reply (pos 0))
      (λ h. if Hash.exists_field h field then int_reply (pos 1) else int_reply (pos 0))
      (get_as_hash db key),
  db,
)
exec_h_exists db args = (panic, db)

-- The loop of HDEL
delete_fields : Hash → List Bytes → Hash × ℕ
delete_fields h [] = (h, 0)
delete_fields h (field ∷ args) =
    let (h', n) = Hash.delete_field h field in let (h'', m) = delete_fields h' args in (h'', n + m)

deleted_in : Db → Bytes → List Bytes → HashAt → Outcome × Db
unfolding delete_fields update_hash
deleted_in db key args no_hash = (replied (int_reply (pos 0)), db)
deleted_in db key args nil_hash = (panic, db)
deleted_in db key args (found_hash h) =
    let (h', deleted) = delete_fields h args in
    let db' = update_hash db key h' in
    let db'' = if Hash.len h' == 0 then (remove db' key).0 else db' in
    (
      replied (int_reply (pos deleted)),
      if ltb 0 deleted
          then add_aof db'' (to_cmd_line_with_name (codes "hdel") (key ∷ args))
          else db'',
    )

-- `execHDel`
unfoldable pub exec_h_del : ExecFunc
unfolding deleted_in
exec_h_del db (key ∷ args) = deleted_in db key args (get_as_hash db key)
exec_h_del db [] = (panic, db)

-- `execHLen`
unfoldable pub exec_h_len : ExecFunc
unfolding read_hash
exec_h_len db (key ∷ args) =
    (read_hash (int_reply (pos 0)) (λ h. int_reply (pos (Hash.len h))) (get_as_hash db key), db)
exec_h_len db [] = (panic, db)

-- The loop of HGETALL
pairs : GoMap Bytes → List (Option Bytes)
pairs [] = []
pairs ((field, value) ∷ m) = some field ∷ some value ∷ pairs m

-- `execHGetAll`
unfoldable pub exec_h_get_all : ExecFunc
unfolding read_hash pairs
exec_h_get_all db (key ∷ args) = (
  read_hash empty_multi_bulk_reply (λ h. multi_bulk_reply (pairs (Hash.get_all h)))
      (get_as_hash db key),
  db,
)
exec_h_get_all db [] = (panic, db)

-- `execHKeys`
unfoldable pub exec_h_keys : ExecFunc
unfolding read_hash
exec_h_keys db (key ∷ args) = (
  read_hash empty_multi_bulk_reply (λ h. multi_bulk_reply (map some (Hash.fields h)))
      (get_as_hash db key),
  db,
)
exec_h_keys db [] = (panic, db)

-- `execHVals`
unfoldable pub exec_h_vals : ExecFunc
unfolding read_hash
exec_h_vals db (key ∷ args) = (
  read_hash empty_multi_bulk_reply (λ h. multi_bulk_reply (map some (Hash.values h)))
      (get_as_hash db key),
  db,
)
exec_h_vals db [] = (panic, db)

-- `execHMGet`; without fields it looks into no hash, so that a nil one does no harm.
unfoldable pub exec_h_m_get : ExecFunc
unfolding read_hash
exec_h_m_get db (key ∷ []) = (replied (multi_bulk_reply []), db)
exec_h_m_get db (key ∷ args) = (
  read_hash (multi_bulk_reply (map (λ _. none) args))
      (λ h. multi_bulk_reply (map (Hash.get h) args)) (get_as_hash db key),
  db,
)
exec_h_m_get db [] = (panic, db)

-- The loop of HMSET; a field without a value would be an index out of range.
set_fields : Hash → List Bytes → Option Hash
set_fields h [] = some h
set_fields h (field ∷ []) = none
set_fields h (field ∷ value ∷ args) = set_fields (Hash.set_field h field value).0 args

set_all : Bytes → List Bytes → Option Hash × Db → Outcome × Db
unfolding set_fields update_hash
set_all key args (none, db) = (panic, db)
set_all key args (some h, db) = elim (set_fields h args) [
  | none ↦ (panic, db)
  | some h' ↦ (
    replied ok_reply,
    add_aof (update_hash db key h') (to_cmd_line_with_name (codes "hmset") (key ∷ args)),
  )
]

-- `execHMSet`
unfoldable pub exec_h_m_set : ExecFunc
unfolding set_all
exec_h_m_set db (key ∷ args) =
    if length (key ∷ args) % 2 == 0
    then (
      replied (standard_error_reply (codes "ERR wrong number of arguments for 'hmset' command")),
      db,
    )
    else set_all key args (get_or_create_hash db key)
exec_h_m_set db [] = (panic, db)

-- `execHEncoding`
unfoldable pub exec_h_encoding : ExecFunc
unfolding read_hash
exec_h_encoding db (key ∷ args) = (
  read_hash null_bulk_reply (λ h. int_reply (pos (Hash.encoding_code h))) (get_as_hash db key),
  db,
)
exec_h_encoding db [] = (panic, db)

set_new : Bytes → Bytes → Bytes → CmdLine → Option Hash × Db → Outcome × Db
unfolding update_hash
set_new key field value cmd (none, db) = (panic, db)
set_new key field value cmd (some h, db) =
    if Hash.exists_field h field then (replied (int_reply (pos 0)), db) else (
      replied (int_reply (pos 1)),
      add_aof (update_hash db key (Hash.set_field h field value).0) cmd,
    )

-- `execHSetNX`
unfoldable pub exec_h_set_nx : ExecFunc
unfolding set_new
exec_h_set_nx db (key ∷ field ∷ value ∷ args) =
    set_new key field value (to_cmd_line_with_name (codes "HSETNX") (key ∷ field ∷ value ∷ args))
      (get_or_create_hash db key)
exec_h_set_nx db args = (panic, db)

-- `init`
unfoldable pub register_hashes : CmdTable → CmdTable
register_hashes table = register_command (codes "HSETNX") exec_h_set_nx write_first_key (pos 4) (
    register_command (codes "HENCODING") exec_h_encoding read_first_key (pos 2) (
      register_command (codes "HMSET") exec_h_m_set write_first_key (negsuc 3) (
        register_command (codes "HMGET") exec_h_m_get read_first_key (negsuc 2) (
          register_command (codes "HVALS") exec_h_vals read_first_key (pos 2) (
            register_command (codes "HKEYS") exec_h_keys read_first_key (pos 2) (
              register_command (codes "HGETALL") exec_h_get_all read_first_key (pos 2) (
                register_command (codes "HLEN") exec_h_len read_first_key (pos 2) (
                  register_command (codes "HDEL") exec_h_del write_first_key (negsuc 2) (
                    register_command (codes "HEXISTS") exec_h_exists read_first_key (pos 3) (
                      register_command (codes "HGET") exec_h_get read_first_key (pos 3) (
                        register_command (codes "HSET") exec_h_set write_first_key (pos 4)
                          table)))))))))))
