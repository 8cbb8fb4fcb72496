-- ===== src/Database/Hashes/Commands.antt =====
-- HSET and HGET on a key that holds a hash, or none
use red_go.Base.{
  List, ◌∷◌, Option, none, some, Bytes, false, codes, pos, ◌≡◌, refl, arith, ap, ◌∙◌, sym, eq_bytes,
  if◌then◌else◌, eq_bytes_refl,
}
use red_go.Hash
use red_go.Hash.{Hash, make_hash}
use red_go.Hash.Refine.{set_field_lem, delete_field_lem}
use red_go.Hash.Refine
use red_go.Reply.{int_reply}
use red_go.Database.{Db, hash_data, replied, get_entity, CmdLine}
use red_go.Database.Laws.{IsValid, get_entity-put, put_entity-IsValid, get_entity-add_aof}
use red_go.Database.Hashes.{
  HashAt, no_hash, nil_hash, found_hash, get_as_hash, or_create, get_or_create_hash, update_hash,
  set_created, exec_h_set, exec_h_get, bulk_or_null,
}

-- The hash that a key holds; no key counts as a new one.
abbrev pub Holds : HashAt → Hash → Type 0
Holds no_hash h = h ≡ make_hash
Holds nil_hash h = ⊥
Holds (found_hash h') h = h ≡ h'

or_create_lem :
    (db : Db) (key : Bytes) (at : HashAt) (h : Hash)
    → IsValid db
    → Holds at h
    → ((or_create db key at).0 ≡ some h) × IsValid (or_create db key at).1
unfolding or_create
or_create_lem db key no_hash h valid e =
    (ap some (sym e), put_entity-IsValid db valid key (hash_data make_hash))
or_create_lem db key nil_hash h valid e = absurd e
or_create_lem db key (found_hash h') h valid e = (ap some (sym e), valid)

get_entity-or_create :
    (db : Db) (key : Bytes) (at : HashAt) (j : Bytes)
    → IsValid db
    → eq_bytes key j ≡ false
    → get_entity (or_create db key at).1 j ≡ get_entity db j
unfolding or_create
get_entity-or_create db key no_hash j valid e =
    get_entity-put db valid key (hash_data make_hash) j ∙ rw e
get_entity-or_create db key nil_hash j valid e = refl
get_entity-or_create db key (found_hash h) j valid e = refl

get_entity-update_hash :
    (db : Db) (key : Bytes) (h : Hash) (j : Bytes)
    → IsValid db
    → get_entity (update_hash db key h) j
      ≡ (if eq_bytes key j then some (hash_data h) else get_entity db j)
unfolding update_hash
get_entity-update_hash db key h j valid = get_entity-put db valid key (hash_data h) j

set_created_lem :
    (key field value : Bytes) (cmd : CmdLine) (o : Option Hash) (db : Db) (h : Hash) (j : Bytes)
    → IsValid db
    → o ≡ some h
    → ((set_created key field value cmd (o, db)).0
        ≡ replied (int_reply (pos (Hash.set_field h field value).1)))
      × (get_entity (set_created key field value cmd (o, db)).1 j ≡ (
          if eq_bytes key j
          then some (hash_data (Hash.set_field h field value).0)
          else get_entity db j))
unfolding set_created
set_created_lem key field value cmd none db h j valid e = absurd (cc)
set_created_lem key field value cmd (some h') db h j valid e =
    let same : h' ≡ h = cc in
    rw (← same) (
      refl,
      get_entity-add_aof _ cmd j
          ∙ get_entity-update_hash db key (Hash.set_field h' field value).0 j valid,
    )

exec_h_set_entity :
    (db : Db) (key field value : Bytes) (args : List Bytes) (h : Hash) (j : Bytes)
    → IsValid db
    → Holds (get_as_hash db key) h
    → ((exec_h_set db (key ∷ field ∷ value ∷ args)).0
        ≡ replied (int_reply (pos (Hash.set_field h field value).1)))
      × (get_entity (exec_h_set db (key ∷ field ∷ value ∷ args)).1 j ≡ (
          if eq_bytes key j
          then some (hash_data (Hash.set_field h field value).0)
          else get_entity db j))
unfolding exec_h_set get_or_create_hash
exec_h_set_entity db key field value args h j valid holds =
    let (made, valid') = or_create_lem db key (get_as_hash db key) h valid holds in
    let (result, entity) =
      set_created_lem key field value (codes "HSET" ∷ key ∷ field ∷ value ∷ args) _ _ h j valid'
        made in
    (result, entity ∙ ground (arith, get_entity-or_create db key (get_as_hash db key) j valid))

get_as_hash-found :
    (db : Db) (key : Bytes) (h : Hash)
    → get_entity db key ≡ some (hash_data h)
    → get_as_hash db key ≡ found_hash h
unfolding get_as_hash
get_as_hash-found db key h e = rw e

exec_h_get_found :
    (db : Db) (key field : Bytes) (args : List Bytes) (h : Hash)
    → get_entity db key ≡ some (hash_data h)
    → exec_h_get db (key ∷ field ∷ args) ≡ (replied (bulk_or_null (Hash.get h field)), db)
unfolding exec_h_get
exec_h_get_found db key field args h e = rw (get_as_hash-found db key h e) refl

-- HSET on a key that holds a valid hash, or no value and the hash is new, replies 0 for a field that
-- is there and 1 for a new one; a HGET of the key then replies the value for this field and for any
-- other what the hash held; and no other key changes.
pub exec_h_get-h_set :
    (db : Db) (key field value g j : Bytes) (args args' : List Bytes) (h : Hash)
    → IsValid db
    → Holds (get_as_hash db key) h
    → Refine.IsValid h
    → let (outcome, db') = exec_h_set db (key ∷ field ∷ value ∷ args) in
      (outcome ≡ replied (int_reply (pos (if Hash.exists_field h field then 0 else 1))))
      × ((exec_h_get db' (key ∷ g ∷ args')).0
          ≡ replied (bulk_or_null (if eq_bytes field g then some value else Hash.get h g)))
      × (get_entity db' j ≡ (
          if eq_bytes key j
          then some (hash_data (Hash.set_field h field value).0)
          else get_entity db j))
exec_h_get-h_set db key field value g j args args' h valid holds distinct =
    let (result, _) = exec_h_set_entity db key field value args h j valid holds in
    let (_, here) = exec_h_set_entity db key field value args h key valid holds in
    let (_, there) = exec_h_set_entity db key field value args h j valid holds in
    let (read, new, _) = set_field_lem h field value g distinct in
    (
      result ∙ ap (λ n. replied (int_reply (pos n))) new,
      ap (λ r. r.0)
            (exec_h_get_found _ key g args' (Hash.set_field h field value).0
              (here ∙ rw (eq_bytes_refl key)))
          ∙ ap (λ o. replied (bulk_or_null o)) read,
      there,
    )
