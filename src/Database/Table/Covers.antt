-- ===== src/Database/Table/Covers.antt =====
-- The `prepare` function of each command names its first key.
use red_go.Base.{
  ℕ, List, [], ◌∷◌, ◌++◌, some, Bytes, codes, Bool, true, false, ◌||◌, ◌≡◌, refl, arith, eq_bytes,
  if◌then◌else◌, map,
}
use red_go.Dict.{spread}
use red_go.Dict.Locks.{has_index}
use red_go.Database.{
  Command, CmdTable, PreFunc, to_lower, lower, read_first_key, write_first_key, write_all_keys,
  read_all_keys, prepare_set_calculate, prepare_set_calculate_store,
}
use red_go.Database.Strings.{register_strings}
use red_go.Database.Keys.{register_keys, prepare_rename}
use red_go.Database.Lists.{register_lists}
use red_go.Database.Hashes.{register_hashes}
use red_go.Database.Ping.{register_ping}
use red_go.Database.Sets.Register.{register_sets}
use red_go.HashSet.{Random}
use red_go.Database.ZSets.Register.{Numbers, register_zsets}
use red_go.Database.Table.{cmd_table}
use red_go.Database.Table.Prepare.{Holds, register-Holds}

is_one_of : Bytes → List Bytes → Bool
is_one_of name [] = false
is_one_of name (n ∷ ns) = eq_bytes name n || is_one_of name ns

-- The commands whose handlers write their first key under a lock for writing: all that write it, but for
-- GETSET, RENAME and RENAMENX
pub is_writer : Bytes → Bool
unfolding is_one_of
is_writer name = is_one_of name (
    codes "set"
    ∷ codes "setnx"
    ∷ codes "del"
    ∷ codes "lpush"
    ∷ codes "rpush"
    ∷ codes "lpop"
    ∷ codes "rpop"
    ∷ codes "lset"
    ∷ codes "hset"
    ∷ codes "hsetnx"
    ∷ codes "hmset"
    ∷ codes "hdel"
    ∷ codes "sadd"
    ∷ codes "srem"
    ∷ codes "spop"
    ∷ codes "sunionstore"
    ∷ codes "sinterstore"
    ∷ codes "sdiffstore"
    ∷ codes "zadd"
    ∷ codes "zrem"
    ∷ [])

-- The commands whose first argument is no key
unfoldable pub is_keyless : Bytes → Bool
unfolding is_one_of
is_keyless name = is_one_of name (codes "keys" ∷ codes "ping" ∷ codes "flushdb" ∷ [])

-- The keys that `prepare` names have the first argument among them, to write it if `writes` holds.
abbrev pub Covers : PreFunc → Bool → Type 0
Covers prepare writes =
    (size : ℕ) (key : Bytes) (args : List Bytes) (ks : List Bytes × List Bytes)
    → prepare (key ∷ args) ≡ some ks
    → (has_index (spread size key) (map (spread size) (ks.0 ++ ks.1)) ≡ true)
      × ((if writes then has_index (spread size key) (map (spread size) ks.0) else true) ≡ true)

reads_first : Covers read_first_key false
unfolding read_first_key has_index
reads_first size key args ks e =
    let same : ([], key ∷ []) ≡ ks = cc in rw (← same) (ground arith, refl)

writes_first : Covers write_first_key true
unfolding write_first_key has_index
writes_first size key args ks e =
    let same : (key ∷ [], []) ≡ ks = cc in rw (← same) (ground arith, ground arith)

writes_all : Covers write_all_keys true
unfolding write_all_keys has_index
writes_all size key args ks e =
    let same : (key ∷ args, []) ≡ ks = cc in rw (← same) (ground arith, ground arith)

reads_all : Covers read_all_keys false
unfolding read_all_keys has_index
reads_all size key args ks e =
    let same : ([], key ∷ args) ≡ ks = cc in rw (← same) (ground arith, refl)

calculates : Covers prepare_set_calculate false
unfolding prepare_set_calculate has_index
calculates size key args ks e =
    let same : ([], key ∷ args) ≡ ks = cc in rw (← same) (ground arith, refl)

stores : Covers prepare_set_calculate_store true
unfolding prepare_set_calculate_store has_index
stores size key args ks e =
    let same : (key ∷ [], args) ≡ ks = cc in rw (← same) (ground arith, ground arith)

renames : Covers prepare_rename false
unfolding prepare_rename has_index
renames size key [] ks e = absurd (cc)
renames size key (dest ∷ args) ks e =
    let same : (dest ∷ [], key ∷ []) ≡ ks = cc in rw (← same) (ground arith, refl)

-- An entry of the table whose first argument is a key covers it.
abbrev pub IsCovered : Bytes → Command → Type 0
IsCovered key c = is_keyless key ≡ false → Covers c.prepare (is_writer key)

module _ (t : CmdTable) (hs : Holds IsCovered t) where
  strings-IsCovered : Holds IsCovered (register_strings t)
  unfolding register_strings is_writer is_keyless to_lower lower eq_bytes
  strings-IsCovered =
      register-Holds IsCovered _ _ _ _ _ (λ h. reads_first)
        (register-Holds IsCovered _ _ _ _ _ (λ h. reads_first)
          (register-Holds IsCovered _ _ _ _ _ (λ h. writes_first)
            (register-Holds IsCovered _ _ _ _ _ (λ h. writes_first)
              (register-Holds IsCovered _ _ _ _ _ (λ h. reads_first) hs))))

  keys-IsCovered : Holds IsCovered (register_keys t)
  unfolding register_keys is_writer is_keyless to_lower lower eq_bytes
  keys-IsCovered =
      register-Holds IsCovered _ _ _ _ _ (λ h. absurd (cc))
        (register-Holds IsCovered _ _ _ _ _ (λ h. renames)
          (register-Holds IsCovered _ _ _ _ _ (λ h. renames)
            (register-Holds IsCovered _ _ _ _ _ (λ h. reads_first)
              (register-Holds IsCovered _ _ _ _ _ (λ h. absurd (cc))
                (register-Holds IsCovered _ _ _ _ _ (λ h. reads_all)
                  (register-Holds IsCovered _ _ _ _ _ (λ h. writes_all) hs))))))

  lists-IsCovered : Holds IsCovered (register_lists t)
  unfolding register_lists is_writer is_keyless to_lower lower eq_bytes
  lists-IsCovered =
      register-Holds IsCovered _ _ _ _ _ (λ h. writes_first)
        (register-Holds IsCovered _ _ _ _ _ (λ h. reads_first)
          (register-Holds IsCovered _ _ _ _ _ (λ h. reads_first)
            (register-Holds IsCovered _ _ _ _ _ (λ h. reads_first)
              (register-Holds IsCovered _ _ _ _ _ (λ h. writes_first)
                (register-Holds IsCovered _ _ _ _ _ (λ h. writes_first)
                  (register-Holds IsCovered _ _ _ _ _ (λ h. writes_first)
                    (register-Holds IsCovered _ _ _ _ _ (λ h. writes_first) hs)))))))

  hashes-IsCovered : Holds IsCovered (register_hashes t)
  unfolding register_hashes is_writer is_keyless to_lower lower eq_bytes
  hashes-IsCovered =
      register-Holds IsCovered _ _ _ _ _ (λ h. writes_first)
        (register-Holds IsCovered _ _ _ _ _ (λ h. reads_first)
          (register-Holds IsCovered _ _ _ _ _ (λ h. writes_first)
            (register-Holds IsCovered _ _ _ _ _ (λ h. reads_first)
              (register-Holds IsCovered _ _ _ _ _ (λ h. reads_first)
                (register-Holds IsCovered _ _ _ _ _ (λ h. reads_first)
                  (register-Holds IsCovered _ _ _ _ _ (λ h. reads_first)
                    (register-Holds IsCovered _ _ _ _ _ (λ h. reads_first)
                      (register-Holds IsCovered _ _ _ _ _ (λ h. writes_first)
                        (register-Holds IsCovered _ _ _ _ _ (λ h. reads_first)
                          (register-Holds IsCovered _ _ _ _ _ (λ h. reads_first)
                            (register-Holds IsCovered _ _ _ _ _ (λ h. writes_first) hs)))))))))))

  ping-IsCovered : Holds IsCovered (register_ping t)
  unfolding register_ping is_writer is_keyless to_lower lower eq_bytes
  ping-IsCovered = register-Holds IsCovered _ _ _ _ _ (λ h. absurd (cc)) hs

sets-IsCovered :
    (r : Random) (t : CmdTable) → Holds IsCovered t → Holds IsCovered (register_sets r t)
unfolding register_sets is_writer is_keyless to_lower lower eq_bytes
sets-IsCovered r t hs =
    register-Holds IsCovered _ _ _ _ _ (λ h. stores)
      (register-Holds IsCovered _ _ _ _ _ (λ h. calculates)
        (register-Holds IsCovered _ _ _ _ _ (λ h. stores)
          (register-Holds IsCovered _ _ _ _ _ (λ h. calculates)
            (register-Holds IsCovered _ _ _ _ _ (λ h. stores)
              (register-Holds IsCovered _ _ _ _ _ (λ h. calculates)
                (register-Holds IsCovered _ _ _ _ _ (λ h. reads_first)
                  (register-Holds IsCovered _ _ _ _ _ (λ h. writes_first)
                    (register-Holds IsCovered _ _ _ _ _ (λ h. writes_first)
                      (register-Holds IsCovered _ _ _ _ _ (λ h. reads_first)
                        (register-Holds IsCovered _ _ _ _ _ (λ h. reads_first)
                          (register-Holds IsCovered _ _ _ _ _ (λ h. reads_first)
                            (register-Holds IsCovered _ _ _ _ _ (λ h. writes_first) hs))))))))))))

zsets-IsCovered :
    (n : Numbers) (t : CmdTable) → Holds IsCovered t → Holds IsCovered (register_zsets n t)
unfolding register_zsets is_writer is_keyless to_lower lower eq_bytes
zsets-IsCovered n t hs =
    register-Holds IsCovered _ _ _ _ _ (λ h. reads_first)
      (register-Holds IsCovered _ _ _ _ _ (λ h. reads_first)
        (register-Holds IsCovered _ _ _ _ _ (λ h. writes_first)
          (register-Holds IsCovered _ _ _ _ _ (λ h. reads_first)
            (register-Holds IsCovered _ _ _ _ _ (λ h. reads_first)
              (register-Holds IsCovered _ _ _ _ _ (λ h. reads_first)
                (register-Holds IsCovered _ _ _ _ _ (λ h. writes_first) hs))))))

pub cmd_table-IsCovered : (r : Random) (n : Numbers) → Holds IsCovered (cmd_table r n)
unfolding cmd_table
cmd_table-IsCovered r n = zsets-IsCovered n _ (
    strings-IsCovered _ (
      sets-IsCovered r _
        (ping-IsCovered _ (lists-IsCovered _ (keys-IsCovered _ (hashes-IsCovered [] tt))))))
