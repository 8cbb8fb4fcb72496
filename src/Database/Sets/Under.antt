-- ===== src/Database/Sets/Under.antt =====
-- The set that a key holds, and what a write of it leaves.
use red_go.Base.{
  false, ◌≡◌, refl, arith, ◌∙◌, List, [], ◌∷◌, none, some, Bytes, eq_bytes, eq_bytes_refl,
  if◌then◌else◌, Bool-cases, inl, inr, length, ◌==◌,
}
use red_go.HashSet
use red_go.HashSet.{HashSet, new_hash_set}
use red_go.HashSet.Refine.{Represents, len_lem}
use red_go.Database.{Db, CmdLine, set_data, get_entity, put_entity, remove, add_aof}
use red_go.Database.Laws.{
  IsValid, get_entity-put, put_entity-IsValid, get_entity-add_aof, get_entity-remove,
  remove-IsValid, add_aof-IsValid,
}
use red_go.Database.Sets.{SetAt, no_set, other_type, found_set, get_as_set, put_or_remove_set}

-- The members of the set that a key holds; no key counts as the empty set.
abbrev pub Holds : SetAt → List Bytes → Type 0
Holds no_set ms = ms ≡ []
Holds other_type ms = ⊥
Holds (found_set s) ms = Represents s ms

-- The database with the set under the key, and no other change
abbrev pub Wrote : Db → Db → Bytes → HashSet → Type 0
Wrote db db' key s =
    IsValid db'
    × ((j : Bytes)
        → get_entity db' j ≡ (if eq_bytes key j then some (set_data s) else get_entity db j))

pub put-Wrote :
    (db : Db) (key : Bytes) (s : HashSet)
    → IsValid db
    → Wrote db (put_entity db key (set_data s)).0 key s
put-Wrote db key s valid =
    (put_entity-IsValid db valid key (set_data s), get_entity-put db valid key (set_data s))

pub Wrote-trans :
    (db db' db'' : Db) (key : Bytes) (s t : HashSet)
    → Wrote db db' key s
    → Wrote db' db'' key t
    → Wrote db db'' key t
Wrote-trans db db' db'' key s t (_, first) (valid, second) =
    (valid, λ j. ground (arith, first j, second j))

pub aof-Wrote :
    (db db' : Db) (key : Bytes) (s : HashSet) (cmd : CmdLine)
    → Wrote db db' key s
    → Wrote db (add_aof db' cmd) key s
aof-Wrote db db' key s cmd (valid, reads) =
    (add_aof-IsValid db' cmd valid, λ j. get_entity-add_aof db' cmd j ∙ reads j)

-- What the commands leave: the members under the key, and the other keys as they were
abbrev pub Leaves : Db → Db → Bytes → List Bytes → Type 0
Leaves db db' key ms =
    IsValid db'
    × Holds (get_as_set db' key) ms
    × ((j : Bytes) → eq_bytes key j ≡ false → get_entity db' j ≡ get_entity db j)

pub Wrote-Leaves :
    (db db' : Db) (key : Bytes) (s : HashSet) (ms : List Bytes)
    → Wrote db db' key s
    → Represents s ms
    → Leaves db db' key ms
unfolding get_as_set
Wrote-Leaves db db' key s ms (valid, reads) rep =
    let here : get_entity db' key ≡ some (set_data s) = reads key ∙ rw (eq_bytes_refl key) refl in
    (valid, rw here rep, λ j other. reads j ∙ rw other refl)

pub empty_members : (ms : List Bytes) → length ms ≡ 0 → ms ≡ []
empty_members [] e = refl
empty_members (m ∷ ms) e = absurd (omega arith)

pub put_or_remove_lem :
    (db : Db) (key : Bytes) (s : HashSet) (ms : List Bytes)
    → IsValid db
    → Represents s ms
    → Leaves db (put_or_remove_set db key s) key ms
unfolding put_or_remove_set get_as_set
put_or_remove_lem db key s ms valid rep =
    let size = len_lem s ms rep in
    elim (Bool-cases (HashSet.len s == 0)) [
      | inr some_left ↦ rw some_left (Wrote-Leaves db _ key s ms (put-Wrote db key s valid) rep)
      | inl none_left ↦
          let gone : get_entity (remove db key).0 key ≡ none =
            get_entity-remove db valid key key ∙ rw (eq_bytes_refl key) refl in
          rw none_left (
            remove-IsValid db valid key,
            rw gone (empty_members ms (ground (arith, none_left, size))),
            λ j other. get_entity-remove db valid key j ∙ rw other refl,
          )
    ]

pub Leaves-Wrote :
    (db db' db'' : Db) (key : Bytes) (s : HashSet) (ms : List Bytes)
    → Wrote db db' key s
    → Leaves db' db'' key ms
    → Leaves db db'' key ms
Leaves-Wrote db db' db'' key s ms (_, first) (valid, holds, rest) =
    (valid, holds, λ j other. rest j other ∙ first j ∙ rw other refl)

pub aof-Leaves :
    (db db' : Db) (key : Bytes) (ms : List Bytes) (cmd : CmdLine)
    → Leaves db db' key ms
    → Leaves db (add_aof db' cmd) key ms
unfolding get_as_set
aof-Leaves db db' key ms cmd (valid, holds, rest) = (
  add_aof-IsValid db' cmd valid,
  rw (get_entity-add_aof db' cmd key) holds,
  λ j other. get_entity-add_aof db' cmd j ∙ rest j other,
)
