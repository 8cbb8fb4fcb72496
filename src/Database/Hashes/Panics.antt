-- ===== src/Database/Hashes/Panics.antt =====
-- The hash commands on a key that holds a value of another type
use red_go.Base.{
  ℤ, ◌%◌, List, [], ◌∷◌, some, Bytes, codes, Bool, true, false, ◌&&◌, ◌==◌, ◌≡◌, refl, arith,
  length, eq_bytes, pos, negsuc,
}
use red_go.GoMap.{lookup}
use red_go.Database.{
  Db, Entity, bytes_data, list_data, hash_data, set_data, zset_data, panic, Command, ExecFunc,
  PreFunc, read_first_key, write_first_key, get_entity, to_lower, lower, validate_arity,
}
use red_go.Database.Hashes.{
  nil_hash, get_as_hash, hash_of, get_or_create_hash, exec_h_set, exec_h_get, exec_h_exists,
  exec_h_del, exec_h_len, exec_h_get_all, exec_h_keys, exec_h_vals, exec_h_m_get, exec_h_m_set,
  exec_h_encoding, exec_h_set_nx, register_hashes,
}
use red_go.Database.Table.Prepare.{Holds, register-Holds, lookup-Holds}

-- A value of another type than a hash
abbrev pub is_hash : Entity → Bool
is_hash (hash_data h) = true
is_hash (bytes_data b) = false
is_hash (list_data l) = false
is_hash (set_data s) = false
is_hash (zset_data z) = false

get_as_hash-nil :
    (db : Db) (key : Bytes) (e : Entity)
    → get_entity db key ≡ some e
    → is_hash e ≡ false
    → get_as_hash db key ≡ nil_hash
unfolding get_as_hash hash_of
get_as_hash-nil db key (hash_data h) at other = absurd (cc)
get_as_hash-nil db key (bytes_data b) at other = rw at refl
get_as_hash-nil db key (list_data l) at other = rw at refl
get_as_hash-nil db key (set_data s) at other = rw at refl
get_as_hash-nil db key (zset_data z) at other = rw at refl

-- HMSET with a field that has no value
abbrev pub is_odd_set : Bytes → List Bytes → Bool
is_odd_set name args = eq_bytes name (codes "hmset") && length args % 2 == 1

-- A handler panics on every nil hash.
abbrev Panics : Bytes → Command → Type 0
Panics cmd_name c =
    (db : Db) (name key : Bytes) (args : List Bytes)
    → validate_arity c.arity (name ∷ key ∷ args) ≡ true
    → is_odd_set cmd_name args ≡ false
    → get_as_hash db key ≡ nil_hash
    → c.exec db (key ∷ args) ≡ (panic, db)

exec_h_set_nx-nil :
    (db : Db) (key : Bytes) (field value : Bytes) (args : List Bytes)
    → get_as_hash db key ≡ nil_hash
    → exec_h_set_nx db (key ∷ field ∷ value ∷ args) ≡ (panic, db)
unfolding exec_h_set_nx get_or_create_hash
exec_h_set_nx-nil db key field value args nil = rw nil refl

exec_h_encoding-nil :
    (db : Db) (key : Bytes) (args : List Bytes)
    → get_as_hash db key ≡ nil_hash
    → exec_h_encoding db (key ∷ args) ≡ (panic, db)
unfolding exec_h_encoding
exec_h_encoding-nil db key args nil = rw nil refl

exec_h_m_set-nil :
    (db : Db) (key : Bytes) (args : List Bytes)
    → (length args % 2 == 1) ≡ false
    → get_as_hash db key ≡ nil_hash
    → exec_h_m_set db (key ∷ args) ≡ (panic, db)
unfolding exec_h_m_set get_or_create_hash
exec_h_m_set-nil db key args even nil =
    let whole : (length (key ∷ args) % 2 == 0) ≡ false = ground arith in rw (whole, nil) refl

exec_h_m_get-nil :
    (db : Db) (key : Bytes) (field : Bytes) (args : List Bytes)
    → get_as_hash db key ≡ nil_hash
    → exec_h_m_get db (key ∷ field ∷ args) ≡ (panic, db)
unfolding exec_h_m_get
exec_h_m_get-nil db key field args nil = rw nil refl

exec_h_vals-nil :
    (db : Db) (key : Bytes) (args : List Bytes)
    → get_as_hash db key ≡ nil_hash
    → exec_h_vals db (key ∷ args) ≡ (panic, db)
unfolding exec_h_vals
exec_h_vals-nil db key args nil = rw nil refl

exec_h_keys-nil :
    (db : Db) (key : Bytes) (args : List Bytes)
    → get_as_hash db key ≡ nil_hash
    → exec_h_keys db (key ∷ args) ≡ (panic, db)
unfolding exec_h_keys
exec_h_keys-nil db key args nil = rw nil refl

exec_h_get_all-nil :
    (db : Db) (key : Bytes) (args : List Bytes)
    → get_as_hash db key ≡ nil_hash
    → exec_h_get_all db (key ∷ args) ≡ (panic, db)
unfolding exec_h_get_all
exec_h_get_all-nil db key args nil = rw nil refl

exec_h_len-nil :
    (db : Db) (key : Bytes) (args : List Bytes)
    → get_as_hash db key ≡ nil_hash
    → exec_h_len db (key ∷ args) ≡ (panic, db)
unfolding exec_h_len
exec_h_len-nil db key args nil = rw nil refl

exec_h_del-nil :
    (db : Db) (key : Bytes) (args : List Bytes)
    → get_as_hash db key ≡ nil_hash
    → exec_h_del db (key ∷ args) ≡ (panic, db)
unfolding exec_h_del
exec_h_del-nil db key args nil = rw nil refl

exec_h_exists-nil :
    (db : Db) (key : Bytes) (field : Bytes) (args : List Bytes)
    → get_as_hash db key ≡ nil_hash
    → exec_h_exists db (key ∷ field ∷ args) ≡ (panic, db)
unfolding exec_h_exists
exec_h_exists-nil db key field args nil = rw nil refl

exec_h_get-nil :
    (db : Db) (key : Bytes) (field : Bytes) (args : List Bytes)
    → get_as_hash db key ≡ nil_hash
    → exec_h_get db (key ∷ field ∷ args) ≡ (panic, db)
unfolding exec_h_get
exec_h_get-nil db key field args nil = rw nil refl

exec_h_set-nil :
    (db : Db) (key : Bytes) (field value : Bytes) (args : List Bytes)
    → get_as_hash db key ≡ nil_hash
    → exec_h_set db (key ∷ field ∷ value ∷ args) ≡ (panic, db)
unfolding exec_h_set get_or_create_hash
exec_h_set-nil db key field value args nil = rw nil refl

module _ (cmd_name : Bytes) (f : ExecFunc) (prepare : PreFunc) (arity : ℤ) where
  key_alone :
      ((db : Db) (key : Bytes) (args : List Bytes)
        → get_as_hash db key ≡ nil_hash
        → f db (key ∷ args) ≡ (panic, db))
      → Panics cmd_name (record { exec = f; prepare = prepare; arity = arity })
  key_alone h db name key args valid odd nil = h db key args nil

  one_more :
      ((name key : Bytes) → validate_arity arity (name ∷ key ∷ []) ≡ false)
      → ((db : Db) (key field : Bytes) (args : List Bytes)
          → get_as_hash db key ≡ nil_hash
          → f db (key ∷ field ∷ args) ≡ (panic, db))
      → Panics cmd_name (record { exec = f; prepare = prepare; arity = arity })
  one_more few h db name key [] valid odd nil = let no = few name key in absurd (cc)
  one_more few h db name key (field ∷ args) valid odd nil = h db key field args nil

  two_more :
      ((name key : Bytes) → validate_arity arity (name ∷ key ∷ []) ≡ false)
      → ((name key field : Bytes) → validate_arity arity (name ∷ key ∷ field ∷ []) ≡ false)
      → ((db : Db) (key field value : Bytes) (args : List Bytes)
          → get_as_hash db key ≡ nil_hash
          → f db (key ∷ field ∷ value ∷ args) ≡ (panic, db))
      → Panics cmd_name (record { exec = f; prepare = prepare; arity = arity })
  two_more few fewer h db name key [] valid odd nil = let no = few name key in absurd (cc)
  two_more few fewer h db name key (field ∷ []) valid odd nil =
      let no = fewer name key field in absurd (cc)
  two_more few fewer h db name key (field ∷ value ∷ args) valid odd nil =
      h db key field value args nil

register_hashes-Panics : Holds Panics (register_hashes [])
unfolding register_hashes validate_arity to_lower lower eq_bytes
register_hashes-Panics =
    register-Holds Panics _ _ _ _ _
      (two_more (codes "hsetnx") exec_h_set_nx write_first_key (pos 4) (λ name key. refl)
        (λ name key field. refl) exec_h_set_nx-nil)
      (register-Holds Panics _ _ _ _ _
        (key_alone (codes "hencoding") exec_h_encoding read_first_key (pos 2) exec_h_encoding-nil)
        (register-Holds Panics _ _ _ _ _
          (λ db name key args arity even nil. exec_h_m_set-nil db key args even nil)
          (register-Holds Panics _ _ _ _ _
            (one_more (codes "hmget") exec_h_m_get read_first_key (negsuc 2) (λ name key. refl)
              exec_h_m_get-nil)
            (register-Holds Panics _ _ _ _ _
              (key_alone (codes "hvals") exec_h_vals read_first_key (pos 2) exec_h_vals-nil)
              (register-Holds Panics _ _ _ _ _
                (key_alone (codes "hkeys") exec_h_keys read_first_key (pos 2) exec_h_keys-nil)
                (register-Holds Panics _ _ _ _ _
                  (key_alone (codes "hgetall") exec_h_get_all read_first_key (pos 2)
                    exec_h_get_all-nil)
                  (register-Holds Panics _ _ _ _ _
                    (key_alone (codes "hlen") exec_h_len read_first_key (pos 2) exec_h_len-nil)
                    (register-Holds Panics _ _ _ _ _
                      (key_alone (codes "hdel") exec_h_del write_first_key (negsuc 2)
                        exec_h_del-nil)
                      (register-Holds Panics _ _ _ _ _
                        (one_more (codes "hexists") exec_h_exists read_first_key (pos 3)
                          (λ name key. refl) exec_h_exists-nil)
                        (register-Holds Panics _ _ _ _ _
                          (one_more (codes "hget") exec_h_get read_first_key (pos 3)
                            (λ name key. refl) exec_h_get-nil)
                          (register-Holds Panics _ _ _ _ _
                            (two_more (codes "hset") exec_h_set write_first_key (pos 4)
                              (λ name key. refl) (λ name key field. refl) exec_h_set-nil)
                            tt)))))))))))

-- Every command that database/hash.go registers, on a line of its arity over a key that holds a value of
-- another type than a hash, panics and leaves the database as it was; but for HMSET with a field that has no value, which is answered before the key is read.
pub hash_commands_panic :
    (db : Db) (name key : Bytes) (args : List Bytes) (c : Command) (e : Entity)
    → lookup (to_lower name) (register_hashes []) ≡ some c
    → validate_arity c.arity (name ∷ key ∷ args) ≡ true
    → is_odd_set (to_lower name) args ≡ false
    → get_entity db key ≡ some e
    → is_hash e ≡ false
    → c.exec db (key ∷ args) ≡ (panic, db)
hash_commands_panic db name key args c e found valid even at other =
    lookup-Holds Panics (to_lower name) c (register_hashes []) register_hashes-Panics found db name
      key args valid even (get_as_hash-nil db key e at other)
