-- ===== src/Database/Laws.antt =====
-- What can be read of a database after a write of one key.
use red_go.Base.{none, some, Bytes, if◌then◌else◌, eq_bytes, ◌≡◌, refl}
use red_go.Dict.Laws.{
  HasShards, get-put, get-put_if_absent, get-remove, put_absent_result, put-HasShards,
  put_if_absent-HasShards, remove-HasShards,
}
use red_go.Database.{Db, Entity, CmdLine, add_aof, get_entity, put_entity, put_if_absent, remove}

-- The dictionary has shards.
abbrev pub IsValid : Db → Type 0
IsValid db = HasShards db.data_dict

module _ (db : Db) where
  -- Logging a command changes no key.
  pub get_entity-add_aof :
      (cmd : CmdLine) (j : Bytes) → get_entity (add_aof db cmd) j ≡ get_entity db j
  unfolding get_entity add_aof
  get_entity-add_aof cmd j = refl

  pub add_aof-IsValid : (cmd : CmdLine) → IsValid db → IsValid (add_aof db cmd)
  unfolding add_aof
  add_aof-IsValid cmd h = h

  module _ (h : IsValid db) where
    pub get_entity-put :
        (k : Bytes) (e : Entity) (j : Bytes)
        → get_entity (put_entity db k e).0 j ≡ (if eq_bytes k j then some e else get_entity db j)
    unfolding get_entity put_entity
    get_entity-put k e j = get-put db.data_dict k j e h

    pub put_entity-IsValid : (k : Bytes) (e : Entity) → IsValid (put_entity db k e).0
    unfolding put_entity
    put_entity-IsValid k e = put-HasShards db.data_dict k e h

    pub get_entity-put_if_absent :
        (k : Bytes) (e : Entity) (j : Bytes)
        → get_entity (put_if_absent db k e).0 j ≡ (
            if eq_bytes k j
            then elim (get_entity db k) [ none ↦ some e | some w ↦ some w ]
            else get_entity db j)
    unfolding get_entity put_if_absent
    get_entity-put_if_absent k e j = get-put_if_absent db.data_dict k j e h

    pub put_if_absent_result :
        (k : Bytes) (e : Entity)
        → (put_if_absent db k e).1 ≡ elim (get_entity db k) [ none ↦ 1 | some _ ↦ 0 ]
    unfolding get_entity put_if_absent
    put_if_absent_result k e = put_absent_result db.data_dict k e

    pub put_if_absent-IsValid : (k : Bytes) (e : Entity) → IsValid (put_if_absent db k e).0
    unfolding put_if_absent
    put_if_absent-IsValid k e = put_if_absent-HasShards db.data_dict k e h

    pub get_entity-remove :
        (k j : Bytes)
        → get_entity (remove db k).0 j ≡ (if eq_bytes k j then none else get_entity db j)
    unfolding get_entity remove
    get_entity-remove k j = get-remove db.data_dict k j h

    pub remove-IsValid : (k : Bytes) → IsValid (remove db k).0
    unfolding remove
    remove-IsValid k = remove-HasShards db.data_dict k h
