-- ===== src/Database/Lists/Commands.antt =====
-- LPUSH, RPUSH, LPOP and RPOP on a key that holds a list, or none.
use red_go.Base.{
  ◌+◌, List, [], ◌∷◌, ◌++◌, Option, none, some, Bytes, length, reverse, eq_bytes, codes, ◌≡◌, refl,
  arith, length-append, ap, ◌∙◌, sym, append_assoc, append-nil, if◌then◌else◌, pos,
}
use mathlib.Core.List.{reverse-append, reverse-reverse}
use red_go.Reply.{int_reply, bulk_reply}
use red_go.Database.{Db, Entity, list_data, replied, get_entity}
use red_go.Database.Laws.{IsValid, get_entity-put, get_entity-remove, get_entity-add_aof}
use red_go.Database.Lists.{
  ListAt, new_list, wrong_type, found_list, get_as_list, push_front, push_back, pushed, exec_l_push,
  exec_r_push, exec_l_pop, exec_r_pop, popped, put_or_remove,
}
use red_go.Database.Lists.Index.{length-reverse, reverse-cons}

pub push_front-reverse : (l vs : List Bytes) → push_front l vs ≡ reverse vs ++ l
unfolding push_front
push_front-reverse l [] = refl
push_front-reverse l (v ∷ vs) =
    push_front-reverse (v ∷ l) vs
    ∙ sym (append_assoc (reverse vs) (v ∷ []) l)
    ∙ ap (λ x. x ++ l) (sym (reverse-cons v vs))

pub push_back-append : (l vs : List Bytes) → push_back l vs ≡ l ++ vs
unfolding push_back
push_back-append l [] = sym (append-nil l)
push_back-append l (v ∷ vs) = push_back-append (l ++ v ∷ []) vs ∙ append_assoc l (v ∷ []) vs

-- The list that a key holds; no key counts as the empty list.
abbrev pub Holds : ListAt → List Bytes → Type 0
Holds new_list l = l ≡ []
Holds wrong_type l = ⊥
Holds (found_list l') l = l ≡ l'

pushed_lem :
    (name : Bytes) (push : List Bytes → List Bytes → List Bytes) (db : Db) (key : Bytes)
    (values l : List Bytes) (at : ListAt) (j : Bytes)
    → IsValid db
    → Holds at l
    → ((pushed name push db key values at).0 ≡ replied (int_reply (pos (length (push l values)))))
      × (get_entity (pushed name push db key values at).1 j
          ≡ (if eq_bytes key j then some (list_data (push l values)) else get_entity db j))
unfolding pushed
pushed_lem name push db key values l new_list j valid e =
    rw e
      (refl, get_entity-add_aof _ _ j ∙ get_entity-put db valid key (list_data (push [] values)) j)
pushed_lem name push db key values l wrong_type j valid e = absurd e
pushed_lem name push db key values l (found_list l') j valid e =
    rw e
      (refl, get_entity-add_aof _ _ j ∙ get_entity-put db valid key (list_data (push l' values)) j)

-- LPUSH on a key that holds the list `l`, or no value and `l` is empty: the values stand before `l`
-- in reverse order, the reply is the new length, and no other key changes.
exec_l_push_lem :
    (db : Db) (key : Bytes) (values l : List Bytes) (j : Bytes)
    → IsValid db
    → Holds (get_as_list db key) l
    → ((exec_l_push db (key ∷ values)).0 ≡ replied (int_reply (pos (length values + length l))))
      × (get_entity (exec_l_push db (key ∷ values)).1 j
          ≡ (if eq_bytes key j then some (list_data (reverse values ++ l)) else get_entity db j))
unfolding exec_l_push
exec_l_push_lem db key values l j valid h =
    let size : length (reverse values ++ l) ≡ length values + length l =
      omega (arith, length-append (reverse values) l, length-reverse values) in
    rw (← size, ← push_front-reverse l values)
      (pushed_lem (codes "LPUSH") push_front db key values l (get_as_list db key) j valid h)

-- RPUSH on a key that holds the list `l`, or no value and `l` is empty: the values stand behind `l`
-- in their order, the reply is the new length, and no other key changes.
exec_r_push_lem :
    (db : Db) (key : Bytes) (values l : List Bytes) (j : Bytes)
    → IsValid db
    → Holds (get_as_list db key) l
    → ((exec_r_push db (key ∷ values)).0 ≡ replied (int_reply (pos (length l + length values))))
      × (get_entity (exec_r_push db (key ∷ values)).1 j
          ≡ (if eq_bytes key j then some (list_data (l ++ values)) else get_entity db j))
unfolding exec_r_push
exec_r_push_lem db key values l j valid h =
    rw (← length-append l values, ← push_back-append l values)
      (pushed_lem (codes "RPUSH") push_back db key values l (get_as_list db key) j valid h)

-- On a key that holds the list `l`, or no value and `l` is empty, LPUSH puts its values before `l` in
-- reverse order and RPUSH puts them behind `l` in their order; both reply the new length and change no
-- other key.
pub exec_push_lem :
    (db : Db) (key : Bytes) (values l : List Bytes) (j : Bytes)
    → IsValid db
    → Holds (get_as_list db key) l
    → ((exec_l_push db (key ∷ values)).0 ≡ replied (int_reply (pos (length values + length l))))
      × (get_entity (exec_l_push db (key ∷ values)).1 j
          ≡ (if eq_bytes key j then some (list_data (reverse values ++ l)) else get_entity db j))
      × ((exec_r_push db (key ∷ values)).0 ≡ replied (int_reply (pos (length l + length values))))
      × (get_entity (exec_r_push db (key ∷ values)).1 j
          ≡ (if eq_bytes key j then some (list_data (l ++ values)) else get_entity db j))
exec_push_lem db key values l j valid h =
    let (left_reply, left) = exec_l_push_lem db key values l j valid h in
    let (right_reply, right) = exec_r_push_lem db key values l j valid h in
    (left_reply, left, right_reply, right)

-- What a key holds after its list has become `l`: nothing if it is empty.
abbrev pub list_or_none : List Bytes → Option Entity
list_or_none [] = none
list_or_none (x ∷ l) = some (list_data (x ∷ l))

get_entity-put_or_remove :
    (db : Db) (key : Bytes) (l : List Bytes) (j : Bytes)
    → IsValid db
    → get_entity (put_or_remove db key l) j
      ≡ (if eq_bytes key j then list_or_none l else get_entity db j)
unfolding put_or_remove
get_entity-put_or_remove db key [] j valid = get_entity-remove db valid key j
get_entity-put_or_remove db key (x ∷ l) j valid = get_entity-put db valid key (list_data (x ∷ l)) j

pub get_as_list-found :
    (db : Db) (key : Bytes) (l : List Bytes)
    → get_entity db key ≡ some (list_data l)
    → get_as_list db key ≡ found_list l
unfolding get_as_list
get_as_list-found db key l h = rw h

popped_lem :
    (name : Bytes) (view : List Bytes → List Bytes) (db : Db) (key : Bytes) (args l : List Bytes)
    (v : Bytes) (rest : List Bytes) (j : Bytes)
    → IsValid db
    → view l ≡ v ∷ rest
    → ((popped name view db key args (found_list l)).0 ≡ replied (bulk_reply (some v)))
      × (get_entity (popped name view db key args (found_list l)).1 j
          ≡ (if eq_bytes key j then list_or_none (view rest) else get_entity db j))
unfolding popped
popped_lem name view db key args l v rest j valid h =
    rw (h, popped)
      (refl, get_entity-add_aof _ _ j ∙ get_entity-put_or_remove db key (view rest) j valid)

-- LPOP on a key that holds a list replies its first element and leaves the others; a key whose list
-- has become empty is removed, and no other key changes.
pub exec_l_pop_lem :
    (db : Db) (key : Bytes) (args : List Bytes) (v : Bytes) (rest : List Bytes) (j : Bytes)
    → IsValid db
    → get_entity db key ≡ some (list_data (v ∷ rest))
    → ((exec_l_pop db (key ∷ args)).0 ≡ replied (bulk_reply (some v)))
      × (get_entity (exec_l_pop db (key ∷ args)).1 j
          ≡ (if eq_bytes key j then list_or_none rest else get_entity db j))
unfolding exec_l_pop
exec_l_pop_lem db key args v rest j valid h =
    rw (get_as_list-found db key (v ∷ rest) h)
      (popped_lem (codes "LPOP") (λ l. l) db key args (v ∷ rest) v rest j valid refl)

-- RPOP on a key that holds a list replies its last element and leaves the others; a key whose list
-- has become empty is removed, and no other key changes.
pub exec_r_pop_lem :
    (db : Db) (key : Bytes) (args : List Bytes) (v : Bytes) (rest : List Bytes) (j : Bytes)
    → IsValid db
    → get_entity db key ≡ some (list_data (rest ++ v ∷ []))
    → ((exec_r_pop db (key ∷ args)).0 ≡ replied (bulk_reply (some v)))
      × (get_entity (exec_r_pop db (key ∷ args)).1 j
          ≡ (if eq_bytes key j then list_or_none rest else get_entity db j))
unfolding exec_r_pop
exec_r_pop_lem db key args v rest j valid h =
    let p =
      popped_lem (codes "RPOP") reverse db key args (rest ++ v ∷ []) v (reverse rest) j valid
        (reverse-append rest (v ∷ [])) in
    rw (get_as_list-found db key (rest ++ v ∷ []) h) (rw (reverse-reverse rest) at p)
