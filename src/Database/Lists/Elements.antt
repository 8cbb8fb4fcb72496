-- ===== src/Database/Lists/Elements.antt =====
-- LINDEX and LSET on a key that holds a list.
use red_go.Base.{
  ltb, Bool-cases, inl, inr, ◌≤◌, ℕ, zero, suc, ◌-◌, ◌<◌, List, [], ◌∷◌, Option, none, some, Bytes,
  length, reverse, get_elem?, set, eq_bytes, ◌≡◌, refl, arith, ap, ◌∙◌, sym, if◌then◌else◌, ℤ, pos,
  negsuc, get_elem?_lt,
}
use red_go.Strconv.{parse_int}
use red_go.Reply.{Reply, bulk_reply, null_bulk_reply, ok_reply}
use red_go.Database.{Db, list_data, replied, get_entity, CmdLine}
use red_go.Database.Laws.{IsValid, get_entity-put, get_entity-add_aof}
use red_go.Database.Lists.{
  found_list, exec_l_index, exec_l_set, index_in, index_outcome, set_found, from_end,
}
use red_go.Database.Lists.Index.{
  element_at-get_elem?, replace_at-set, get_elem?-reverse, length-reverse,
}
use red_go.Database.Lists.Commands.{get_as_list-found}

-- The bulk of an element, or the null bulk.
abbrev pub bulk_or_null : Option Bytes → Reply
bulk_or_null none = null_bulk_reply
bulk_or_null (some v) = bulk_reply (some v)

-- The element with an index: from the front, or from the end for a negative one.
abbrev pub element : List Bytes → ℤ → Option Bytes
element l (pos n) = get_elem? l n
element l (negsuc n) = get_elem? (reverse l) n

index_outcome-some :
    (l : List Bytes) (i : ℤ) (n : ℕ)
    → index_in (length l) i ≡ some n
    → n < length l
    → index_outcome l i ≡ replied (bulk_or_null (get_elem? l n))
unfolding index_outcome
index_outcome-some l i n e h =
    let (v, found) = get_elem?_lt l n h in
    rw (e, index_outcome, element_at-get_elem? l n h, found) refl

index_outcome-none :
    (l : List Bytes) (i : ℤ)
    → index_in (length l) i ≡ none
    → index_outcome l i ≡ replied null_bulk_reply
unfolding index_outcome
index_outcome-none l i e = rw (e, index_outcome) refl

get_elem?_out : (l : List Bytes) (n : ℕ) → length l ≤ n → get_elem? l n ≡ none
get_elem?_out [] n h = refl
get_elem?_out (x ∷ l) zero h = absurd (omega arith)
get_elem?_out (x ∷ l) (suc n) h = get_elem?_out l n (omega arith)

index_in-pos : (size n : ℕ) → index_in size (pos n) ≡ (if ltb n size then some n else none)
unfolding index_in
index_in-pos size n = ground arith

index_in-negsuc :
    (size n : ℕ) → index_in size (negsuc n) ≡ (if ltb n size then some (size - 1 - n) else none)
unfolding index_in
index_in-negsuc size n = ground arith

index_in-from_end :
    (size : ℕ) (i : ℤ) (n : ℕ) → from_end size i ≡ pos n → n < size → index_in size i ≡ some n
unfolding index_in
index_in-from_end size i n e lt = rw (e, index_in) (ground arith)

-- The walk of LINDEX never leaves the list: for every index the outcome is the element with that
-- index, counted from the end for a negative one, or the null bulk.
pub index_outcome-element :
    (l : List Bytes) (i : ℤ) → index_outcome l i ≡ replied (bulk_or_null (element l i))
index_outcome-element l (pos n) = elim (Bool-cases (ltb n (length l))) [
  | inl h ↦ index_outcome-some l (pos n) n (index_in-pos (length l) n ∙ rw h) (ground arith)
  | inr h ↦
      index_outcome-none l (pos n) (index_in-pos (length l) n ∙ rw h)
      ∙ ap (λ o. replied (bulk_or_null o)) (sym (get_elem?_out l n (ground arith)))
]
index_outcome-element l (negsuc n) = elim (Bool-cases (ltb n (length l))) [
  | inl h ↦
      let k = length l - 1 - n in
      index_outcome-some l (negsuc n) k (index_in-negsuc (length l) n ∙ rw h) (ground arith)
      ∙ ap (λ o. replied (bulk_or_null o)) (sym (get_elem?-reverse l k n (ground arith)))
  | inr h ↦
      index_outcome-none l (negsuc n) (index_in-negsuc (length l) n ∙ rw h)
      ∙ ap (λ o. replied (bulk_or_null o))
          (sym (get_elem?_out (reverse l) n (ground (arith, length-reverse l))))
]

-- LINDEX on a key that holds the list `l`, with an index that `ParseInt` reads, replies the element
-- with that index, or null, and changes nothing.
pub exec_l_index_lem :
    (db : Db) (key index : Bytes) (args l : List Bytes) (i : ℤ)
    → get_entity db key ≡ some (list_data l)
    → parse_int index ≡ some i
    → exec_l_index db (key ∷ index ∷ args) ≡ (replied (bulk_or_null (element l i)), db)
unfolding exec_l_index
exec_l_index_lem db key index args l i h p =
    rw (p, get_as_list-found db key l h, index_outcome-element l i) refl

set_found_lem :
    (db : Db) (key : Bytes) (i : ℤ) (value : Bytes) (cmd : CmdLine) (l : List Bytes) (n : ℕ)
    (j : Bytes)
    → IsValid db
    → from_end (length l) i ≡ pos n
    → n < length l
    → ((set_found db key i value cmd (found_list l)).0 ≡ replied ok_reply)
      × (get_entity (set_found db key i value cmd (found_list l)).1 j
          ≡ (if eq_bytes key j then some (list_data (set l n value)) else get_entity db j))
unfolding set_found
set_found_lem db key i value cmd l n j valid e lt =
    let inside : index_in (length l) i ≡ some n = index_in-from_end (length l) i n e lt in
    rw (inside, set_found, replace_at-set l n value lt)
      (refl, get_entity-add_aof _ cmd j ∙ get_entity-put db valid key (list_data (set l n value)) j)

-- LSET on a key that holds the list `l`, with an index in range, counted from the end for a negative
-- one, replaces that element and no other, and no other key changes.
pub exec_l_set_lem :
    (db : Db) (key index value : Bytes) (args l : List Bytes) (i : ℤ) (n : ℕ) (j : Bytes)
    → IsValid db
    → get_entity db key ≡ some (list_data l)
    → parse_int index ≡ some i
    → from_end (length l) i ≡ pos n
    → n < length l
    → ((exec_l_set db (key ∷ index ∷ value ∷ args)).0 ≡ replied ok_reply)
      × (get_entity (exec_l_set db (key ∷ index ∷ value ∷ args)).1 j
          ≡ (if eq_bytes key j then some (list_data (set l n value)) else get_entity db j))
unfolding exec_l_set
exec_l_set_lem db key index value args l i n j valid h p e lt =
    rw (p, get_as_list-found db key l h) (set_found_lem db key i value _ l n j valid e lt)
