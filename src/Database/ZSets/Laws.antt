-- ===== src/Database/ZSets/Laws.antt =====
-- ZADD of one member, and the scores that ZSCORE reads behind it.
use red_go.Base.{
  ℕ, Bool, true, false, not, [], ◌∷◌, Option, none, some, Bytes, codes, eq_bytes, eq_bytes_refl,
  if◌then◌else◌, pos, ◌≡◌, refl, ap, sym, ◌∙◌, arith,
}
use red_go.GoMap.{has}
use red_go.Score.{Score, Float64}
use red_go.ZSet
use red_go.ZSet.{ZSet, Floats, new_zset, listpack}
use red_go.ZSet.Valid.{Parses, IsValid, stored}
use red_go.ZSet.Laws.{add_score_lem}
use red_go.Reply.{bulk_reply, int_reply}
use red_go.Database
use red_go.Database.{Db, zset_data, replied, get_entity, put_entity, add_aof, to_cmd_line_with_name}
use red_go.Database.Laws.{get_entity-put, get_entity-add_aof}
use red_go.Database.ZSets.{
  ZSetAt, no_zset, other_type, found_zset, zset_of, get_as_zset, score_reply, read_zset,
  exec_z_score, exec_z_add, add_scores, add_at_key, add_to_zset, z_added, update_zset, parse_float,
}

-- The sorted set that a key holds: a new one for a missing key, none for another type
abbrev pub set_at : ZSetAt → Option (ZSet Float64)
set_at no_zset = some new_zset
set_at other_type = none
set_at (found_zset z) = some z

module _ (lib : Floats Float64) where
  score_new : (k : Bytes) → ZSet.score lib k new_zset ≡ none
  unfolding ZSet.score ZSet.find_score
  score_new k = refl

  read_score :
      (k : Bytes) (at : ZSetAt) (z : ZSet Float64)
      → set_at at ≡ some z
      → read_zset (score_reply lib none) (λ y. some (score_reply lib (ZSet.score lib k y))) at
        ≡ replied (score_reply lib (ZSet.score lib k z))
  unfolding read_zset
  read_score k no_zset z e =
      let same : new_zset ≡ z = cc in
      ap (λ y. replied (score_reply lib y)) (sym (score_new k) ∙ ap (ZSet.score lib k) same)
  read_score k other_type z e = absurd (ground (arith, e))
  read_score k (found_zset y) z e =
      let same : y ≡ z = cc in ap (λ y. replied (score_reply lib (ZSet.score lib k y))) same

  -- ZSCORE replies with the score that the set holds.
  exec_z_score_lem :
      (db : Db) (key k : Bytes) (z : ZSet Float64)
      → set_at (get_as_zset db key) ≡ some z
      → exec_z_score lib db (key ∷ k ∷ []) ≡ (replied (score_reply lib (ZSet.score lib k z)), db)
  unfolding exec_z_score score_reply
  exec_z_score_lem db key k z e = ap (λ o. (o, db)) (read_score k (get_as_zset db key) z e)

module _ ⦃f : Score Float64⦄ (lib : Floats Float64) (draws : ℕ → ℕ → ℕ → Bool) where
  -- The database behind ZADD
  abbrev zadd_db : Db → Bytes → Bytes → Bytes → ZSet Float64 → Db
  zadd_db db key text m z =
      add_aof (put_entity db key (zset_data z)).0
        (to_cmd_line_with_name (codes "ZADD") (key ∷ text ∷ m ∷ []))

  add_scores_one :
      (text m : Bytes) (x : Float64) (z z' : ZSet Float64) (is_new : Bool)
      → parse_float lib text ≡ some x
      → ZSet.add lib (draws 0) m x z ≡ some (z', is_new)
      → add_scores lib draws z 0 (text ∷ m ∷ []) ≡ some (z', (if is_new then 1 else 0), true)
  unfolding add_scores
  add_scores_one text m x z z' is_new p e = rw (add_scores, p, e) refl

  add_one :
      (db : Db) (key text m : Bytes) (x : Float64) (z z' : ZSet Float64) (is_new exists : Bool)
      → parse_float lib text ≡ some x
      → ZSet.add lib (draws 0) m x z ≡ some (z', is_new)
      → add_to_zset lib draws db key (text ∷ m ∷ []) z exists
        ≡ (replied (int_reply (pos (if is_new then 1 else 0))), zadd_db db key text m z')
  unfolding add_to_zset z_added update_zset
  add_one db key text m x z z' is_new exists p e =
      rw (add_to_zset, add_scores_one text m x z z' is_new p e) refl

  add_at :
      (at : ZSetAt) (db : Db) (key text m : Bytes) (x : Float64) (z z' : ZSet Float64)
      (is_new : Bool)
      → set_at at ≡ some z
      → parse_float lib text ≡ some x
      → ZSet.add lib (draws 0) m x z ≡ some (z', is_new)
      → add_at_key lib draws db key (text ∷ m ∷ []) at
        ≡ (replied (int_reply (pos (if is_new then 1 else 0))), zadd_db db key text m z')
  unfolding add_at_key
  add_at no_zset db key text m x z z' is_new h p e =
      let same : z ≡ new_zset = cc in
      add_one db key text m x new_zset z' is_new false p
        (ap (ZSet.add lib (draws 0) m x) (sym same) ∙ e)
  add_at other_type db key text m x z z' is_new h p e = absurd (ground (arith, h))
  add_at (found_zset y) db key text m x z z' is_new h p e =
      let same : z ≡ y = cc in
      add_one db key text m x y z' is_new true p (ap (ZSet.add lib (draws 0) m x) (sym same) ∙ e)

  set_behind :
      (db : Db) (key text m : Bytes) (z : ZSet Float64)
      → Database.Laws.IsValid db
      → set_at (get_as_zset (zadd_db db key text m z) key) ≡ some z
  unfolding get_as_zset zset_of
  set_behind db key text m z valid =
      let held : get_entity (zadd_db db key text m z) key ≡ some (zset_data z) =
        get_entity-add_aof (put_entity db key (zset_data z)).0
          (to_cmd_line_with_name (codes "ZADD") (key ∷ text ∷ m ∷ [])) key
        ∙ get_entity-put db valid key (zset_data z) key
        ∙ rw (eq_bytes_refl key) refl in
      ap (λ e. set_at (zset_of e)) held

  -- In a database with shards, where printed scores parse, the text of the score parses, and the key
  -- is missing or holds a valid sorted set: ZADD of one member replies 1 when it is new and 0
  -- otherwise; ZSCORE then replies with the score that the set stores; its replies for the other
  -- members of the key and what the other keys hold are unchanged.
  pub exec_z_score-z_add :
      (db : Db) (key text m : Bytes) (x : Float64) (z : ZSet Float64)
      → Database.Laws.IsValid db
      → Parses lib
      → parse_float lib text ≡ some x
      → set_at (get_as_zset db key) ≡ some z
      → IsValid lib z
      → (db' : Db) × (exec_z_add lib draws db (key ∷ text ∷ m ∷ [])
          ≡ (replied (int_reply (pos (if has (ZSet.score lib m z) then 0 else 1))), db'))
        × (exec_z_score lib db' (key ∷ m ∷ [])
            ≡ (replied (bulk_reply (some (lib.format_float (stored lib m x z)))), db'))
        × ((k : Bytes)
            → eq_bytes m k ≡ false
            → (exec_z_score lib db' (key ∷ k ∷ [])).0 ≡ (exec_z_score lib db (key ∷ k ∷ [])).0)
        × ((j : Bytes) → eq_bytes key j ≡ false → get_entity db' j ≡ get_entity db j)
  unfolding exec_z_add score_reply
  exec_z_score-z_add db key text m x z valid parses p here h =
      let (z', e, h', reads) = add_score_lem lib (draws 0) m x z parses h in
      let db' : Db = zadd_db db key text m z' in
      let there : set_at (get_as_zset db' key) ≡ some z' = set_behind db key text m z' valid in
      let now : ZSet.score lib m z' ≡ some (stored lib m x z) =
        reads m ∙ rw (eq_bytes_refl m) refl in
      (
        db',
        add_at (get_as_zset db key) db key text m x z z' (not (has (ZSet.score lib m z))) here p e
            ∙ ap (λ n. (replied (int_reply (pos n)), db')) (flipped (has (ZSet.score lib m z))),
        exec_z_score_lem lib db' key m z' there ∙ ap (λ o. (replied (score_reply lib o), db')) now,
        λ k ne.
            let same : ZSet.score lib k z' ≡ ZSet.score lib k z = reads k ∙ rw ne refl in
            ap (λ r. r.0) (exec_z_score_lem lib db' key k z' there)
            ∙ ap (λ o. replied (score_reply lib o)) same
            ∙ sym (ap (λ r. r.0) (exec_z_score_lem lib db key k z here)),
        λ j ne.
            get_entity-add_aof (put_entity db key (zset_data z')).0
              (to_cmd_line_with_name (codes "ZADD") (key ∷ text ∷ m ∷ [])) j
            ∙ get_entity-put db valid key (zset_data z') j
            ∙ rw ne refl,
      )
    where
      flipped : (b : Bool) → ◌≡◌ {A = ℕ} (if not b then 1 else 0) (if b then 0 else 1)
      flipped true = refl
      flipped false = refl
