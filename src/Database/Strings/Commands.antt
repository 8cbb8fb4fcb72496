-- ===== src/Database/Strings/Commands.antt =====
-- The string commands, in sequence and on a key of another type.
use red_go.Base.{
  List, ◌∷◌, none, some, Bytes, codes, pos, ◌≡◌, refl, arith, ◌∙◌, eq_bytes, if◌then◌else◌,
  eq_bytes_refl,
}
use red_go.Reply.{ok_reply, bulk_reply, int_reply}
use red_go.Database.{Db, bytes_data, list_data, replied, panic, get_entity, put_entity}
use red_go.Database.Laws.{
  IsValid, get_entity-put, get_entity-put_if_absent, put_if_absent_result, get_entity-add_aof,
}
use red_go.Database.Strings.{exec_get, exec_set, exec_set_nx, exec_get_set}

-- SET replies OK; after it the key holds the value, whatever it held before, and no other key has
-- changed; and a GET of any key replies accordingly.
pub exec_get-set :
    (db : Db) (key value j : Bytes) (args args' : List Bytes)
    → IsValid db
    → let db' = (exec_set db (key ∷ value ∷ args)).1 in
      ((exec_set db (key ∷ value ∷ args)).0 ≡ replied ok_reply)
      × (get_entity db' j ≡ (if eq_bytes key j then some (bytes_data value) else get_entity db j))
      × ((exec_get db' (j ∷ args')).0 ≡ (
          if eq_bytes key j
          then replied (bulk_reply (some value))
          else (exec_get db (j ∷ args')).0))
unfolding exec_set exec_get
exec_get-set db key value j args args' valid =
    let read = get_entity-put db valid key (bytes_data value) j in
    (
      refl,
      get_entity-add_aof _ _ j ∙ read,
      ground (
        arith,
        get_entity-add_aof (put_entity db key (bytes_data value)).0
            (codes "SET" ∷ key ∷ value ∷ args) j,
        read,
      ),
    )

-- SETNX writes a key that is not there and replies 1; it leaves the value of a key that is there and
-- replies 0; and no other key changes.
pub exec_set_nx_lem :
    (db : Db) (key value j : Bytes) (args : List Bytes)
    → IsValid db
    → ((exec_set_nx db (key ∷ value ∷ args)).0 ≡ elim (get_entity db key) [
      | none ↦ replied (int_reply (pos 1))
      | some _ ↦ replied (int_reply (pos 0))
    ])
      × (get_entity (exec_set_nx db (key ∷ value ∷ args)).1 j ≡ (
          if eq_bytes key j
          then elim (get_entity db key) [ none ↦ some (bytes_data value) | some old ↦ some old ]
          else get_entity db j))
unfolding exec_set_nx
exec_set_nx_lem db key value j args valid = (
  ground (arith, put_if_absent_result db valid key (bytes_data value)),
  get_entity-add_aof _ _ j ∙ get_entity-put_if_absent db valid key (bytes_data value) j,
)

-- GETSET on a key that holds no string panics behind its write: the key holds the new value then.
pub exec_get_set_panic :
    (db : Db) (key value : Bytes) (args l : List Bytes)
    → IsValid db
    → get_entity db key ≡ some (list_data l)
    → ((exec_get_set db (key ∷ value ∷ args)).0 ≡ panic)
      × (get_entity (exec_get_set db (key ∷ value ∷ args)).1 key ≡ some (bytes_data value))
unfolding exec_get_set
exec_get_set_panic db key value args l valid h = (
  rw h refl,
  get_entity-add_aof _ _ key
      ∙ get_entity-put db valid key (bytes_data value) key
      ∙ rw (eq_bytes_refl key),
)
