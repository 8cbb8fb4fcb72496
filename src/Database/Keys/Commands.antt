-- ===== src/Database/Keys/Commands.antt =====
-- DEL, RENAME and RENAMENX.
use red_go.Base.{
  ℕ, ◌+◌, ap, List, [], ◌∷◌, Option, none, some, Bytes, Bool, false, ◌||◌, codes, pos, ◌≡◌, refl,
  arith, ◌∙◌, eq_bytes, eq_bytes_iff, if◌then◌else◌,
}
use red_go.Reply.{ok_reply, int_reply}
use red_go.Database.{Db, Entity, replied, get_entity, put_entity, removes, remove_counted}
use red_go.Database.Laws.{
  IsValid, get_entity-put, put_entity-IsValid, get_entity-remove, remove-IsValid,
  get_entity-add_aof,
}
use red_go.Database.Keys.{move, exec_rename, exec_rename_nx, exec_del}

-- Is the key among the keys?
abbrev pub among : Bytes → List Bytes → Bool
among j [] = false
among j (k ∷ ks) = eq_bytes k j || among j ks

remove_counted_lem :
    (db : Db) (k j : Bytes) (o : Option Entity)
    → IsValid db
    → get_entity db k ≡ o
    → IsValid (remove_counted o db k).0
      × (get_entity (remove_counted o db k).0 j ≡ (if eq_bytes k j then none else get_entity db j))
unfolding remove_counted
remove_counted_lem db k j none valid e = (valid, ground (arith, eq_bytes_iff k j))
remove_counted_lem db k j (some x) valid e =
    (remove-IsValid db valid k, get_entity-remove db valid k j)

get_entity-removes :
    (db : Db) (keys : List Bytes) (j : Bytes)
    → IsValid db
    → get_entity (removes db keys).0 j ≡ (if among j keys then none else get_entity db j)
unfolding removes
get_entity-removes db [] j valid = refl
get_entity-removes db (k ∷ keys) j valid =
    let (valid', read) = remove_counted_lem db k j (get_entity db k) valid refl in
    ground (arith, read, get_entity-removes (remove_counted (get_entity db k) db k).0 keys j valid')

-- The number of the keys that the database holds, each counted once, less those in `seen`.
abbrev pub count_once : Db → List Bytes → List Bytes → ℕ
count_once db seen [] = 0
count_once db seen (k ∷ keys) =
    (if among k seen then 0 else elim (get_entity db k) [ none ↦ 0 | some _ ↦ 1 ])
    + count_once db (k ∷ seen) keys

remove_counted_result :
    (db : Db) (k : Bytes) (o : Option Entity)
    → (remove_counted o db k).1 ≡ elim o [ none ↦ 0 | some _ ↦ 1 ]
unfolding remove_counted
remove_counted_result db k none = refl
remove_counted_result db k (some x) = refl

removes-count_once :
    (db db' : Db) (seen keys : List Bytes)
    → IsValid db'
    → ((j : Bytes) → get_entity db' j ≡ (if among j seen then none else get_entity db j))
    → (removes db' keys).1 ≡ count_once db seen keys
unfolding removes
removes-count_once db db' seen [] valid e = refl
removes-count_once db db' seen (k ∷ keys) valid e =
    let rest = (remove_counted (get_entity db' k) db' k).0 in
    let (valid', _) = remove_counted_lem db' k k (get_entity db' k) valid refl in
    let ih =
      removes-count_once db rest (k ∷ seen) keys valid'
        (λ j. ground (arith, (remove_counted_lem db' k j (get_entity db' k) valid refl).1, e j)) in
    ground (arith, remove_counted_result db' k (get_entity db' k), ih, e k)

-- DEL replies how many of its keys the database held, each counted once; after it these keys are
-- gone, and every other key keeps its value.
pub exec_del_lem :
    (db : Db) (keys : List Bytes) (j : Bytes)
    → IsValid db
    → ((exec_del db keys).0 ≡ replied (int_reply (pos (count_once db [] keys))))
      × (get_entity (exec_del db keys).1 j ≡ (if among j keys then none else get_entity db j))
unfolding exec_del
exec_del_lem db keys j valid = (
  ap (λ n. replied (int_reply (pos n))) (removes-count_once db db [] keys valid (λ i. refl)),
  ground (
    arith,
    get_entity-removes db keys j valid,
    get_entity-add_aof (removes db keys).0 (codes "DEL" ∷ keys) j,
  ),
)

get_entity-move :
    (db : Db) (src dst : Bytes) (e : Entity) (j : Bytes)
    → IsValid db
    → get_entity (move db src dst e) j
      ≡ (if eq_bytes src j then none else if eq_bytes dst j then some e else get_entity db j)
unfolding move
get_entity-move db src dst e j valid = ground (
  arith,
  get_entity-remove (put_entity db dst e).0 (put_entity-IsValid db valid dst e) src j,
  get_entity-put db valid dst e j,
)

-- RENAME of a key that is there replies OK; the source is gone, also when it is the destination, the
-- destination holds the value of the source otherwise, and no other key changes.
exec_rename_lem :
    (db : Db) (src dst : Bytes) (args : List Bytes) (e : Entity) (j : Bytes)
    → IsValid db
    → get_entity db src ≡ some e
    → ((exec_rename db (src ∷ dst ∷ args)).0 ≡ replied ok_reply)
      × (get_entity (exec_rename db (src ∷ dst ∷ args)).1 j
          ≡ (if eq_bytes src j then none else if eq_bytes dst j then some e else get_entity db j))
unfolding exec_rename
exec_rename_lem db src dst args e j valid h =
    rw h (refl, get_entity-add_aof _ _ j ∙ get_entity-move db src dst e j valid)

-- RENAMENX with a source that is there moves it only if the destination is not there: it replies 1
-- and moves, or replies 0 and changes nothing.
exec_rename_nx_lem :
    (db : Db) (src dst : Bytes) (args : List Bytes) (e : Entity) (j : Bytes)
    → IsValid db
    → get_entity db src ≡ some e
    → ((exec_rename_nx db (src ∷ dst ∷ args)).0 ≡ elim (get_entity db dst) [
      | none ↦ replied (int_reply (pos 1))
      | some _ ↦ replied (int_reply (pos 0))
    ])
      × (get_entity (exec_rename_nx db (src ∷ dst ∷ args)).1 j ≡ elim (get_entity db dst) [
        | none ↦ if eq_bytes src j then none else if eq_bytes dst j then some e else get_entity db j
        | some _ ↦ get_entity db j
      ])
unfolding exec_rename_nx
exec_rename_nx_lem db src dst args e j valid h = ground (
  arith,
  h,
  get_entity-add_aof (move db src dst e) (codes "RENAMENX" ∷ src ∷ dst ∷ args) j,
  get_entity-move db src dst e j valid,
)

-- With a source that is there, RENAME replies OK: the source is gone, also when it is the destination,
-- and the destination holds its value otherwise. RENAMENX does the same and replies 1 if the
-- destination is not there, and replies 0 and changes nothing if it is. Neither changes another key.
pub exec_renames_lem :
    (db : Db) (src dst : Bytes) (args : List Bytes) (e : Entity) (j : Bytes)
    → IsValid db
    → get_entity db src ≡ some e
    → ((exec_rename db (src ∷ dst ∷ args)).0 ≡ replied ok_reply)
      × (get_entity (exec_rename db (src ∷ dst ∷ args)).1 j
          ≡ (if eq_bytes src j then none else if eq_bytes dst j then some e else get_entity db j))
      × ((exec_rename_nx db (src ∷ dst ∷ args)).0 ≡ elim (get_entity db dst) [
        | none ↦ replied (int_reply (pos 1))
        | some _ ↦ replied (int_reply (pos 0))
      ])
      × (get_entity (exec_rename_nx db (src ∷ dst ∷ args)).1 j ≡ elim (get_entity db dst) [
        | none ↦ if eq_bytes src j then none else if eq_bytes dst j then some e else get_entity db j
        | some _ ↦ get_entity db j
      ])
exec_renames_lem db src dst args e j valid h =
    let (ok, moved) = exec_rename_lem db src dst args e j valid h in
    let (replies, left) = exec_rename_nx_lem db src dst args e j valid h in
    (ok, moved, replies, left)
