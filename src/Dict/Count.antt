-- ===== src/Dict/Count.antt =====
-- The count of the dictionary is the number of its entries, on 32 bits.
use red_go.Base.{
  ℕ, zero, suc, ◌+◌, ◌%◌, ◌^◌, ◌<◌, List, [], ◌∷◌, Bytes, length, get_elem?, set, ◌≡◌, arith, All,
  length-append,
}
use red_go.GoMap.{GoMap, assign, delete, Distinct}
use red_go.GoMap.Laws.{length-assign, length-delete, assign-Distinct, delete-Distinct}
use red_go.Dict.{
  Dict, spread, get_shard, set_shard, add_count, decrease_count, shard_or_empty, put_with_lock,
  remove_with_lock, entries, entries_of,
}
use red_go.Dict.Laws.{HasShards, spread-lt}

-- No shard holds a key twice, and the count is the number of entries.
abbrev pub IsCounted : {V : Type 0} → Dict V → Type 0
IsCounted d = All Distinct d.table × (d.count ≡ length (entries d) % 2 ^ 32)

module _ {V : Type 0} where
  length-entries_of_set :
      (ms : List (GoMap V)) (i : ℕ) (m : GoMap V)
      → i < length ms
      → length (entries_of (set ms i m)) + length (shard_or_empty (get_elem? ms i))
        ≡ length (entries_of ms) + length m
  unfolding shard_or_empty
  length-entries_of_set [] i m h = omega arith
  length-entries_of_set (a ∷ ms) zero m h =
      omega (arith, length-append a (entries_of ms), length-append m (entries_of ms))
  length-entries_of_set (a ∷ ms) (suc i) m h = omega (
    arith,
    length-append a (entries_of ms),
    length-append a (entries_of (set ms i m)),
    length-entries_of_set ms i m (omega arith),
  )

  All-set :
      (ms : List (GoMap V)) (i : ℕ) (m : GoMap V)
      → All Distinct ms
      → Distinct m
      → All Distinct (set ms i m)
  All-set [] i m hs h = hs
  All-set (a ∷ ms) zero m (ha, hs) h = (h, hs)
  All-set (a ∷ ms) (suc i) m (ha, hs) h = (ha, All-set ms i m hs h)

  shard-Distinct :
      (ms : List (GoMap V)) (i : ℕ) → All Distinct ms → Distinct (shard_or_empty (get_elem? ms i))
  unfolding shard_or_empty
  shard-Distinct [] i hs = tt
  shard-Distinct (a ∷ ms) zero (ha, hs) = ha
  shard-Distinct (a ∷ ms) (suc i) (ha, hs) = shard-Distinct ms i hs

  -- A write of one shard changes the number of entries as it changes the shard's.
  length-entries :
      (d : Dict V) (k : Bytes) (m : GoMap V)
      → HasShards d
      → length (entries (set_shard d k m)) + length (get_shard d k) ≡ length (entries d) + length m
  unfolding set_shard get_shard
  length-entries d k m (h, fits) =
      length-entries_of_set d.table (spread (length d.table) k) m
        (spread-lt (length d.table) k h fits)

  set_shard-Distinct :
      (d : Dict V) (k : Bytes) (m : GoMap V)
      → All Distinct d.table
      → Distinct m
      → All Distinct (set_shard d k m).table
  unfolding set_shard
  set_shard-Distinct d k m hs h = All-set d.table (spread (length d.table) k) m hs h

  get_shard-Distinct : (d : Dict V) (k : Bytes) → All Distinct d.table → Distinct (get_shard d k)
  unfolding get_shard
  get_shard-Distinct d k hs = shard-Distinct d.table (spread (length d.table) k) hs

  -- `Put` keeps the dictionary counted: no shard holds a key twice, and the count is the number of
  -- entries, on 32 bits.
  pub put-IsCounted :
      (d : Dict V) (k : Bytes) (v : V)
      → HasShards d
      → IsCounted d
      → IsCounted (put_with_lock d k v).0
  unfolding put_with_lock set_shard add_count
  put-IsCounted d k v valid (hs, h) =
      let m = get_shard d k in
      ground (
        arith,
        length-entries d k (assign k v m) valid,
        length-assign k v m,
        set_shard-Distinct d k (assign k v m) hs
            (assign-Distinct k v m (get_shard-Distinct d k hs)),
      )

  -- `Remove` keeps the dictionary counted: no shard holds a key twice, and the count is the number of
  -- entries, on 32 bits.
  pub remove-IsCounted :
      (d : Dict V) (k : Bytes) → HasShards d → IsCounted d → IsCounted (remove_with_lock d k).0
  unfolding remove_with_lock set_shard decrease_count
  remove-IsCounted d k valid (hs, h) =
      let m = get_shard d k in
      ground (
        arith,
        length-entries d k (delete k m) valid,
        length-delete k m (get_shard-Distinct d k hs),
        set_shard-Distinct d k (delete k m) hs (delete-Distinct k m (get_shard-Distinct d k hs)),
      )
