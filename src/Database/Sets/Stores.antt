-- ===== src/Database/Sets/Stores.antt =====
-- What SUNIONSTORE, SINTERSTORE and SDIFFSTORE store
use red_go.Base.{
  ◌⊎◌, false, Bool, ◌≡◌, refl, arith, ap, ◌∙◌, sym, subst, List, [], ◌∷◌, some, Bytes, codes, map,
  pos, length, All,
}
use red_go.HashSet
use red_go.HashSet.{HashSet, new_hash_set}
use red_go.HashSet.Numbers.{IsCanonical, elem}
use red_go.HashSet.Refine.{new_hash_set-Represents, len_lem}
use red_go.Reply.{Reply, int_reply}
use red_go.Database.{Db, Outcome, panic, replied, set_data, put_entity, add_aof}
use red_go.Database.Laws.{IsValid}
use red_go.Database.Sets.{bulks}
use red_go.Database.Sets.Calculate.{string_of, store_reply, store_outcome, exec_s_union_store}
use red_go.Database.Sets.Laws.{add_members_lem}
use red_go.Database.Sets.Under.{put-Wrote, aof-Wrote, Wrote-Leaves, Leaves}
use red_go.Database.Sets.Algebra.{AllHold, elem_any, exec_s_union_lem}

strings_of_bulks : (ms : List Bytes) → map string_of (map some ms) ≡ ms
strings_of_bulks [] = refl
strings_of_bulks (m ∷ ms) = ap (◌∷◌ m) (strings_of_bulks ms)

-- A reply of the number of members, which the key then holds
abbrev pub Stored : Db → Bytes → (Bytes → Bool) → Outcome × Db → Type 0
Stored db dest among outcome =
    (ms : List Bytes) × (outcome.0 ≡ replied (int_reply (pos (length ms))))
    × Leaves db outcome.1 dest ms
    × ((j : Bytes) → elem j ms ≡ among j)

store_reply_lem :
    (db : Db) (name dest : Bytes) (keys ms : List Bytes) (other : Outcome)
    → IsValid db
    → All IsCanonical ms
    → Stored db dest (λ j. elem j ms) (store_reply db name dest keys other (bulks ms))
unfolding store_reply bulks
store_reply_lem db name dest keys ms other valid all =
    let (s, ns, count, e, rep, (_, has)) =
      add_members_lem new_hash_set [] ms new_hash_set-Represents all in
    let step : store_reply db name dest keys other (bulks ms) ≡ (
      replied (int_reply (pos (HashSet.len s))),
      add_aof (put_entity db dest (set_data s)).0 (name ∷ dest ∷ keys),
    ) =
      rw (store_reply, strings_of_bulks ms, e) refl in
    subst (Stored db dest (λ j. elem j ms)) (sym step) (
      ns,
      ap (λ n. replied (int_reply (pos n))) (len_lem s ns rep),
      Wrote-Leaves db _ dest s ns
          (aof-Wrote db _ dest s (name ∷ dest ∷ keys) (put-Wrote db dest s valid)) rep,
      λ j. has j ∙ ground arith,
    )

-- SUNIONSTORE of keys that hold sets, or nothing, stores the members of all of them under the
-- destination, replies how many they are, and leaves the other keys as they were.
pub exec_s_union_store_lem :
    (db : Db) (dest : Bytes) (keys : List Bytes) (mss : List (List Bytes))
    → IsValid db
    → AllHold db keys mss
    → Stored db dest (λ j. elem_any j mss) (exec_s_union_store db (dest ∷ keys))
unfolding exec_s_union_store
exec_s_union_store_lem db dest keys mss valid hold =
    let (ms, e, all, _, has) = exec_s_union_lem db keys mss hold in
    let step : exec_s_union_store db (dest ∷ keys)
        ≡ store_reply db (codes "SUNIONSTORE") dest keys panic (bulks ms) =
      rw (exec_s_union_store, e, store_outcome) refl in
    let (ns, result, leaves, same) =
      store_reply_lem db (codes "SUNIONSTORE") dest keys ms panic valid all in
    subst (Stored db dest (λ j. elem_any j mss)) (sym step)
      (ns, result, leaves, λ j. same j ∙ has j)

-- The result is stored; or there is none, and the database is as it was behind another reply.
abbrev pub StoredOrKept : Db → Bytes → (Bytes → Bool) → Reply → Outcome × Db → Type 0
StoredOrKept db dest among kept outcome =
    Stored db dest among outcome
    ⊎ ((outcome ≡ (replied kept, db)) × ((j : Bytes) → among j ≡ false))
