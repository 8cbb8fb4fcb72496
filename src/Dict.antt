-- ===== src/Dict.antt =====
-- datastruct/dict/concurrent_dict.go: a dictionary of shards, each a map. The calls that take no
-- lock themselves (`…WithLock`, whose caller holds the locks) are the sequential meaning of both
-- families of methods. `sync/atomic` on `count` is arithmetic on 32 bits.
pub mod Laws
pub mod Count
pub mod Locks
mod Examples
use Prim.Native.Nat.{bit_and, bit_or, bit_xor}
use red_go.Base.{
  ℕ, zero, suc, ◌+◌, ◌-◌, ◌*◌, ◌/◌, ◌%◌, ◌^◌, List, [], ◌∷◌, ◌++◌, Option, none, some, Bytes,
  length, get_elem?, set, replicate, ◌==◌, leb, if◌then◌else◌, ◌≡◌, refl, Bool, true, false, codes,
}
use red_go.GoMap
use red_go.GoMap.{GoMap, lookup, assign, delete}

-- `ConcurrentDict`, with the map of each `shard`
pub record Dict (V : Type 0) : Type 0 where
  pub table : List (GoMap V)
  pub count : ℕ
  pub shard_count : ℕ

-- `n |= n >> k`
or_shifted : ℕ → ℕ → ℕ
or_shifted k n = bit_or n (n / 2 ^ k)

-- `computeCapacity` of an argument that is not negative, whose `n` is not negative either
unfoldable pub compute_capacity : ℕ → ℕ
unfolding or_shifted
compute_capacity param =
    if leb param 16
    then 16
    else or_shifted 16 (or_shifted 8 (or_shifted 4 (or_shifted 2 (or_shifted 1 (param - 1))))) + 1

abbrev pub prime32 : ℕ
prime32 = 16777619

-- The loop of `fnv32`, on 32 bits
fnv_loop : ℕ → Bytes → ℕ
fnv_loop hash [] = hash
fnv_loop hash (c ∷ key) = fnv_loop (bit_xor ((hash * prime32) % 2 ^ 32) c) key

unfoldable pub fnv32 : Bytes → ℕ
unfolding fnv_loop
fnv32 key = fnv_loop 2166136261 key

-- `spread`, for a table of `size` shards
unfoldable pub spread : ℕ → Bytes → ℕ
unfolding fnv32
spread size key =
    if size == 1 then 0 else bit_and ((size % 2 ^ 32 + 2 ^ 32 - 1) % 2 ^ 32) (fnv32 key)

module _ {V : Type 0} where
  -- `MakeConcurrentDict`
  unfoldable pub make_dict : ℕ → Dict V
  unfolding compute_capacity
  make_dict shard_count =
      if shard_count == 1
      then record { table = [] ∷ []; count = 0; shard_count = shard_count }
      else record {
        table = replicate (compute_capacity shard_count) [];
        count = 0;
        shard_count = compute_capacity shard_count;
      }

  shard_or_empty : Option (GoMap V) → GoMap V
  shard_or_empty none = []
  shard_or_empty (some m) = m

  -- The shard of a key: `getShard` of `spread`. `spread` is an index of a table that is not empty.
  unfoldable pub get_shard : Dict V → Bytes → GoMap V
  unfolding shard_or_empty
  get_shard d key = shard_or_empty (get_elem? d.table (spread (length d.table) key))

  set_shard : Dict V → Bytes → GoMap V → Dict V
  set_shard d key m = record d { table = set d.table (spread (length d.table) key) m }

  -- `GetWithLock`, `Get`
  unfoldable pub get_with_lock : Dict V → Bytes → Option V
  get_with_lock d key = lookup key (get_shard d key)

  -- `addCount`, `decreaseCount`
  add_count : Dict V → Dict V
  add_count d = record d { count = (d.count + 1) % 2 ^ 32 }

  decrease_count : Dict V → Dict V
  decrease_count d = record d { count = (d.count + 2 ^ 32 - 1) % 2 ^ 32 }

  -- `PutWithLock`, `Put`
  unfoldable pub put_with_lock : Dict V → Bytes → V → Dict V × ℕ
  unfolding set_shard add_count
  put_with_lock d key val = elim (lookup key (get_shard d key)) [
    | some _ ↦ (set_shard d key (assign key val (get_shard d key)), 0)
    | none ↦ (set_shard (add_count d) key (assign key val (get_shard d key)), 1)
  ]

  -- `PutIfAbsentWithLock`, `PutIfAbsent`
  unfoldable pub put_if_absent_with_lock : Dict V → Bytes → V → Dict V × ℕ
  unfolding set_shard add_count
  put_if_absent_with_lock d key val = elim (lookup key (get_shard d key)) [
    | some _ ↦ (d, 0)
    | none ↦ (add_count (set_shard d key (assign key val (get_shard d key))), 1)
  ]

  -- `PutIfExistsWithLock`, `PutIfExists`
  unfoldable pub put_if_exists_with_lock : Dict V → Bytes → V → Dict V × ℕ
  unfolding set_shard
  put_if_exists_with_lock d key val = elim (lookup key (get_shard d key)) [
    | some _ ↦ (set_shard d key (assign key val (get_shard d key)), 1)
    | none ↦ (d, 0)
  ]

  -- `RemoveWithLock`, `Remove`
  unfoldable pub remove_with_lock : Dict V → Bytes → Dict V × ℕ
  unfolding set_shard decrease_count
  remove_with_lock d key = elim (lookup key (get_shard d key)) [
    | some _ ↦ (decrease_count (set_shard d key (delete key (get_shard d key))), 1)
    | none ↦ (d, 0)
  ]

  -- The entries that `ForEach` hands to a consumer that never stops it, shard by shard.
  abbrev pub entries_of : List (GoMap V) → GoMap V
  entries_of [] = []
  entries_of (m ∷ ms) = m ++ entries_of ms

  abbrev pub entries : Dict V → GoMap V
  entries d = entries_of d.table

  -- `Clear`
  unfoldable pub clear : Dict V → Dict V
  unfolding make_dict
  clear d = make_dict d.shard_count
