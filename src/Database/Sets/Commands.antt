-- ===== src/Database/Sets/Commands.antt =====
-- SADD, SREM and the reads of one set, on the members that a key holds.
use red_go.Base.{
  ℕ, Bool, true, false, ◌≡◌, refl, arith, ap, sym, subst, List, [], ◌∷◌, some, Bytes, All, codes,
  Bool-cases, inl, inr, length, pos, ltb,
}
use red_go.HashSet
use red_go.HashSet.{HashSet, new_hash_set}
use red_go.HashSet.Numbers.{IsCanonical, elem}
use red_go.HashSet.Refine.{Represents, new_hash_set-Represents, members_lem, contains_lem, len_lem}
use red_go.Reply.{int_reply}
use red_go.Database.{Db, CmdLine, Outcome, replied}
use red_go.Database.Laws.{IsValid}
use red_go.Database.Sets.{
  SetAt, no_set, other_type, found_set, get_as_set, or_init, get_or_init_set, update_set, bulks,
  flag, added_to, add_to_set, exec_s_add, read_set, contains_reply, members_reply, exec_s_card,
  exec_s_is_member, exec_s_members, removed_from, remove_in, exec_s_rem,
}
use red_go.Database.Sets.Laws.{IsUnionWith, IsLess, add_members_lem, remove_members_lem}
use red_go.Database.Sets.Under.{
  Holds, Wrote, put-Wrote, Wrote-trans, aof-Wrote, Leaves, Wrote-Leaves, put_or_remove_lem,
  Leaves-Wrote, aof-Leaves,
}

-- The write of a new set is the one of `PutEntity`; a set that is there is also mutated in place.
added_to_lem :
    (db : Db) (key : Bytes) (cmd : CmdLine) (is_new : Bool) (s : HashSet) (count : ℕ)
    → IsValid db
    → ((added_to db key cmd is_new (s, count)).0 ≡ replied (int_reply (pos count)))
      × Wrote db (added_to db key cmd is_new (s, count)).1 key s
unfolding added_to
added_to_lem db key cmd true s count valid =
    (refl, aof-Wrote db _ key s cmd (put-Wrote db key s valid))
added_to_lem db key cmd false s count valid =
    let wrote = put-Wrote db key s valid in
    elim (Bool-cases (ltb 0 count)) [
      | inr none_new ↦ rw none_new (refl, wrote)
      | inl some_new ↦ rw some_new (
        refl,
        aof-Wrote db _ key s cmd
            (Wrote-trans db _ _ key s s wrote (put-Wrote (update_set db key s) key s (wrote.0))),
      )
    ]

-- A reply of the count, and the members that an outcome leaves
abbrev pub Added : Db → Bytes → List Bytes → List Bytes → Outcome × Db → Type 0
Added db key xs ms outcome =
    (ms' : List Bytes) × (count : ℕ) × (outcome.0 ≡ replied (int_reply (pos count)))
    × Leaves db outcome.1 key ms'
    × IsUnionWith xs ms ms' count

abbrev pub Removed : Db → Bytes → List Bytes → List Bytes → Outcome × Db → Type 0
Removed db key xs ms outcome =
    (ms' : List Bytes) × (count : ℕ) × (outcome.0 ≡ replied (int_reply (pos count)))
    × Leaves db outcome.1 key ms'
    × IsLess xs ms ms' count

add_to_set_lem :
    (db : Db) (key : Bytes) (xs ms : List Bytes) (s : HashSet) (is_new : Bool)
    → IsValid db
    → Represents s ms
    → All IsCanonical xs
    → Added db key xs ms (add_to_set db key xs (some (s, is_new)))
unfolding add_to_set
add_to_set_lem db key xs ms s is_new valid rep all =
    let (s', ms', count, e, rep', union) = add_members_lem s ms xs rep all in
    let (result, wrote) = added_to_lem db key (codes "SADD" ∷ key ∷ xs) is_new s' count valid in
    let step : add_to_set db key xs (some (s, is_new))
        ≡ added_to db key (codes "SADD" ∷ key ∷ xs) is_new (s', count) =
      rw (add_to_set, e) refl in
    subst (Added db key xs ms) (sym step)
      (ms', count, result, Wrote-Leaves db _ key s' ms' wrote rep', union)

add_at_lem :
    (db : Db) (key : Bytes) (xs ms : List Bytes) (at : SetAt)
    → IsValid db
    → Holds at ms
    → All IsCanonical xs
    → Added db key xs ms (add_to_set db key xs (or_init at))
unfolding or_init
add_at_lem db key xs ms no_set valid e all =
    add_to_set_lem db key xs ms new_hash_set true valid
      (subst (Represents new_hash_set) (sym e) new_hash_set-Represents) all
add_at_lem db key xs ms other_type valid e all = absurd e
add_at_lem db key xs ms (found_set s) valid rep all =
    add_to_set_lem db key xs ms s false valid rep all

-- SADD of canonical members to a set, or to no key, replies how many of them were new; the key then
-- holds the old and the new members, and the other keys are as they were.
pub exec_s_add_lem :
    (db : Db) (key : Bytes) (xs ms : List Bytes)
    → IsValid db
    → Holds (get_as_set db key) ms
    → All IsCanonical xs
    → Added db key xs ms (exec_s_add db (key ∷ xs))
unfolding exec_s_add get_or_init_set
exec_s_add_lem db key xs ms valid holds all =
    add_at_lem db key xs ms (get_as_set db key) valid holds all

removed_from_lem :
    (db : Db) (key : Bytes) (cmd : CmdLine) (s : HashSet) (ms : List Bytes) (count : ℕ)
    → IsValid db
    → Represents s ms
    → ((removed_from db key cmd (s, count)).0 ≡ replied (int_reply (pos count)))
      × Leaves db (removed_from db key cmd (s, count)).1 key ms
unfolding removed_from
removed_from_lem db key cmd s ms count valid rep =
    let wrote = put-Wrote db key s valid in
    elim (Bool-cases (ltb 0 count)) [
      | inr none_old ↦ rw none_old (refl, Wrote-Leaves db _ key s ms wrote rep)
      | inl some_old ↦ rw some_old (
        refl,
        aof-Leaves db _ key ms cmd (
            Leaves-Wrote db _ _ key s ms wrote
              (put_or_remove_lem (update_set db key s) key s ms (wrote.0) rep)),
      )
    ]

IsLess-nothing : (xs ms : List Bytes) → ms ≡ [] → IsLess xs ms ms 0
IsLess-nothing xs ms e = (omega arith, λ j. rw e (ground arith))

remove_in_lem :
    (db : Db) (key : Bytes) (xs ms : List Bytes) (at : SetAt)
    → IsValid db
    → get_as_set db key ≡ at
    → Holds at ms
    → All IsCanonical xs
    → Removed db key xs ms (remove_in db key xs at)
unfolding remove_in
remove_in_lem db key xs ms no_set valid found e all = (
  ms,
  0,
  refl,
  (valid, subst (λ at. Holds at ms) (sym found) e, λ j other. refl),
  IsLess-nothing xs ms e,
)
remove_in_lem db key xs ms other_type valid found e all = absurd e
remove_in_lem db key xs ms (found_set s) valid found rep all =
    let (s', ms', count, e, rep', less) = remove_members_lem s ms xs rep all in
    let (result, leaves) =
      removed_from_lem db key (codes "SREM" ∷ key ∷ xs) s' ms' count valid rep' in
    let step : remove_in db key xs (found_set s)
        ≡ removed_from db key (codes "SREM" ∷ key ∷ xs) (s', count) =
      rw (remove_in, e) refl in
    subst (Removed db key xs ms) (sym step) (ms', count, result, leaves, less)

-- SREM of canonical members from a set, or from no key, replies how many of them were there; the key
-- then holds the members without them, or is gone if none is left, and the other keys are as they
-- were.
pub exec_s_rem_lem :
    (db : Db) (key : Bytes) (xs ms : List Bytes)
    → IsValid db
    → Holds (get_as_set db key) ms
    → All IsCanonical xs
    → Removed db key xs ms (exec_s_rem db (key ∷ xs))
unfolding exec_s_rem
exec_s_rem_lem db key xs ms valid holds all =
    remove_in_lem db key xs ms (get_as_set db key) valid refl holds all

reads_at_lem :
    (m : Bytes) (ms : List Bytes) (at : SetAt)
    → Holds at ms
    → IsCanonical m
    → (read_set (int_reply (pos 0)) (λ s. some (int_reply (pos (HashSet.len s)))) at
        ≡ replied (int_reply (pos (length ms))))
      × (read_set (int_reply (pos 0)) (contains_reply m) at ≡ replied (flag (elem m ms)))
      × (read_set (bulks []) members_reply at ≡ replied (bulks ms))
unfolding read_set contains_reply members_reply bulks
reads_at_lem m ms no_set e canonical = rw e (refl, refl, refl)
reads_at_lem m ms other_type e canonical = absurd e
reads_at_lem m ms (found_set s) rep canonical = (
  rw (len_lem s ms rep) refl,
  rw (contains_lem s ms m rep canonical) refl,
  rw (members_lem s ms rep) refl,
)

-- SCARD, SISMEMBER of a canonical member and SMEMBERS reply the number of the members, whether the
-- member is among them, and the members; they change nothing.
pub set_reads_lem :
    (db : Db) (key m : Bytes) (args ms : List Bytes)
    → Holds (get_as_set db key) ms
    → IsCanonical m
    → (exec_s_card db (key ∷ args) ≡ (replied (int_reply (pos (length ms))), db))
      × (exec_s_is_member db (key ∷ m ∷ args) ≡ (replied (flag (elem m ms)), db))
      × (exec_s_members db (key ∷ args) ≡ (replied (bulks ms), db))
unfolding exec_s_card exec_s_is_member exec_s_members
set_reads_lem db key m args ms holds canonical =
    let (card, among, all) = reads_at_lem m ms (get_as_set db key) holds canonical in
    (ap (λ o. (o, db)) card, ap (λ o. (o, db)) among, ap (λ o. (o, db)) all)
