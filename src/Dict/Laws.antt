-- ===== src/Dict/Laws.antt =====
-- The dictionary of shards behaves as one map.
use red_go.Base.{
  ℕ, ◌+◌, ◌-◌, ◌%◌, ◌^◌, ◌<◌, Option, none, some, Bytes, length, get_elem?, ◌==◌, if◌then◌else◌,
  ◌≡◌, refl, arith, eq_bytes, eq_bytes_iff, bit_and-le, length-set, get_elem?-set_self,
  get_elem?-set_ne, ap,
}
use red_go.GoMap.{GoMap, lookup, assign, delete}
use red_go.GoMap.Laws.{lookup-assign, lookup-delete}
use red_go.Dict.{
  Dict, fnv32, spread, get_shard, set_shard, add_count, decrease_count, shard_or_empty,
  get_with_lock, put_with_lock, put_if_absent_with_lock, remove_with_lock,
}

-- A table that `spread` can index.
abbrev pub HasShards : {V : Type 0} → Dict V → Type 0
HasShards d = (0 < length d.table) × (length d.table < 2 ^ 32)

-- The shard of a key is in the table.
pub spread-lt : (size : ℕ) (key : Bytes) → 0 < size → size < 2 ^ 32 → spread size key < size
unfolding spread
spread-lt size key h fits =
    ground (arith, bit_and-le ((size % 2 ^ 32 + 2 ^ 32 - 1) % 2 ^ 32) (fnv32 key))

module _ {V : Type 0} where
  -- A write of one shard, read at any key.
  get_shard-set :
      (d : Dict V) (k j : Bytes) (m : GoMap V)
      → HasShards d
      → lookup j (get_shard (set_shard d k m) j) ≡ (
          if spread (length d.table) k == spread (length d.table) j
          then lookup j m
          else lookup j (get_shard d j))
  unfolding get_shard set_shard
  get_shard-set d k j m (h, fits) =
      let n = length d.table in
      ground (
        arith,
        length-set d.table (spread n k) m,
        get_elem?-set_self d.table (spread n k) m (spread-lt n k h fits),
        get_elem?-set_ne d.table {i = spread n k} {j = spread n j} m,
      )

  get_shard_same :
      (d : Dict V) (k j : Bytes)
      → spread (length d.table) k ≡ spread (length d.table) j
      → get_shard d k ≡ get_shard d j
  unfolding get_shard
  get_shard_same d k j e = ap (λ i. shard_or_empty (get_elem? d.table i)) e

  -- A write under one key, read at any key.
  get_shard-set_key :
      (d : Dict V) (k j : Bytes) (m : GoMap V) (o : Option V)
      → HasShards d
      → lookup j m ≡ (if eq_bytes k j then o else lookup j (get_shard d k))
      → lookup j (get_shard (set_shard d k m) j)
        ≡ (if eq_bytes k j then o else lookup j (get_shard d j))
  get_shard-set_key d k j m o valid h =
      ground (arith, get_shard-set d k j m valid, get_shard_same d k j, eq_bytes_iff k j)

  get-assign :
      (d : Dict V) (k j : Bytes) (v : V)
      → HasShards d
      → lookup j (get_shard (set_shard d k (assign k v (get_shard d k))) j)
        ≡ (if eq_bytes k j then some v else lookup j (get_shard d j))
  get-assign d k j v h =
      get_shard-set_key d k j (assign k v (get_shard d k)) (some v) h
        (lookup-assign k j v (get_shard d k))

  get-delete :
      (d : Dict V) (k j : Bytes)
      → HasShards d
      → lookup j (get_shard (set_shard d k (delete k (get_shard d k))) j)
        ≡ (if eq_bytes k j then none else lookup j (get_shard d j))
  get-delete d k j h =
      get_shard-set_key d k j (delete k (get_shard d k)) none h (lookup-delete k j (get_shard d k))

  -- The count is no part of a shard.
  get_shard-add_count :
      (d : Dict V) (k j : Bytes) (m : GoMap V)
      → get_shard (set_shard (add_count d) k m) j ≡ get_shard (set_shard d k m) j
  unfolding get_shard set_shard add_count
  get_shard-add_count d k j m = refl

  get_shard-count :
      (d : Dict V) (j : Bytes)
      → (get_shard (add_count d) j ≡ get_shard d j)
        × (get_shard (decrease_count d) j ≡ get_shard d j)
  unfolding get_shard add_count decrease_count
  get_shard-count d j = (refl, refl)

  HasShards-set : (d : Dict V) (k : Bytes) (m : GoMap V) → HasShards d → HasShards (set_shard d k m)
  unfolding set_shard
  HasShards-set d k m h = omega (arith, length-set d.table (spread (length d.table) k) m)

  -- The operations keep the table.
  pub put-HasShards :
      (d : Dict V) (k : Bytes) (v : V) → HasShards d → HasShards (put_with_lock d k v).0
  unfolding put_with_lock
  put-HasShards d k v h = ground (arith, HasShards-set d k (assign k v (get_shard d k)) h)

  pub put_if_absent-HasShards :
      (d : Dict V) (k : Bytes) (v : V) → HasShards d → HasShards (put_if_absent_with_lock d k v).0
  unfolding put_if_absent_with_lock
  put_if_absent-HasShards d k v h = ground (arith, HasShards-set d k (assign k v (get_shard d k)) h)

  pub remove-HasShards : (d : Dict V) (k : Bytes) → HasShards d → HasShards (remove_with_lock d k).0
  unfolding remove_with_lock
  remove-HasShards d k h = ground (arith, HasShards-set d k (delete k (get_shard d k)) h)

  -- `Put` into a table of shards is read back under its key and hides no other key.
  pub get-put :
      (d : Dict V) (k j : Bytes) (v : V)
      → HasShards d
      → get_with_lock (put_with_lock d k v).0 j
        ≡ (if eq_bytes k j then some v else get_with_lock d j)
  unfolding get_with_lock put_with_lock
  get-put d k j v h =
      ground (arith, get-assign d k j v h, get_shard-add_count d k j (assign k v (get_shard d k)))

  pub put_result :
      (d : Dict V) (k : Bytes) (v : V)
      → (put_with_lock d k v).1 ≡ elim (get_with_lock d k) [ none ↦ 1 | some _ ↦ 0 ]
  unfolding get_with_lock put_with_lock
  put_result d k v = ground arith

  -- `PutIfAbsent` returns 1 for a new key and 0 for a key that is there.
  pub put_absent_result :
      (d : Dict V) (k : Bytes) (v : V)
      → (put_if_absent_with_lock d k v).1 ≡ elim (get_with_lock d k) [ none ↦ 1 | some _ ↦ 0 ]
  unfolding get_with_lock put_if_absent_with_lock
  put_absent_result d k v = ground arith

  -- `PutIfAbsent` on a table of shards writes a new key, keeps the value of a key that is there, and
  -- changes no other key.
  pub get-put_if_absent :
      (d : Dict V) (k j : Bytes) (v : V)
      → HasShards d
      → get_with_lock (put_if_absent_with_lock d k v).0 j ≡ (
          if eq_bytes k j
          then elim (get_with_lock d k) [ none ↦ some v | some w ↦ some w ]
          else get_with_lock d j)
  unfolding get_with_lock put_if_absent_with_lock
  get-put_if_absent d k j v h = ground (
    arith,
    eq_bytes_iff k j,
    get-assign d k j v h,
    get_shard-count (set_shard d k (assign k v (get_shard d k))) j,
  )

  -- `Remove` from a table of shards removes its key and no other key.
  pub get-remove :
      (d : Dict V) (k j : Bytes)
      → HasShards d
      → get_with_lock (remove_with_lock d k).0 j
        ≡ (if eq_bytes k j then none else get_with_lock d j)
  unfolding get_with_lock remove_with_lock
  get-remove d k j h = ground (
    arith,
    eq_bytes_iff k j,
    get-delete d k j h,
    get_shard-count (set_shard d k (delete k (get_shard d k))) j,
  )
