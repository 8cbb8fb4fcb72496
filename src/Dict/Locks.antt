-- ===== src/Dict/Locks.antt =====
-- datastruct/dict/concurrent_dict.go: the order in which `RWLocks` takes the locks of the shards and
-- `RWUnLocks` gives them back.
pub mod Order
pub mod Held
pub mod Clients
pub mod Highest
pub mod Progress
mod Examples
use red_go.Base.{
  ℕ, Bool, true, false, ◌||◌, List, [], ◌∷◌, ◌++◌, Bytes, ltb, ◌==◌, length, if◌then◌else◌,
}
use red_go.Dict.{Dict, spread}

-- A lock of a shard: for writing (`Lock`, `Unlock`) or for reading (`RLock`, `RUnlock`).
pub data Lock : Type 0 where
  write_lock read_lock : ℕ → Lock

-- `_, ok := set[index]` and `set[index] = struct{}{}` of a map of indices
unfoldable pub has_index : ℕ → List ℕ → Bool
has_index i [] = false
has_index i (j ∷ is) = j == i || has_index i is

add_index : ℕ → List ℕ → List ℕ
add_index i is = if has_index i is then is else i ∷ is

-- The loops over keys of `toLockIndices` and `RWLocks`, over a table of `size` shards
unfoldable pub index_set : ℕ → List Bytes → List ℕ
unfolding add_index has_index
index_set size [] = []
index_set size (key ∷ keys) = add_index (spread size key) (index_set size keys)

-- `sort.Slice` with the comparison of `toLockIndices`
less : Bool → ℕ → ℕ → Bool
less reverse i j = if reverse then ltb j i else ltb i j

unfoldable pub insert_index : Bool → ℕ → List ℕ → List ℕ
unfolding less
insert_index reverse i [] = i ∷ []
insert_index reverse i (j ∷ is) =
    if less reverse i j then i ∷ j ∷ is else j ∷ insert_index reverse i is

unfoldable pub sort_slice : Bool → List ℕ → List ℕ
sort_slice reverse [] = []
sort_slice reverse (i ∷ is) = insert_index reverse i (sort_slice reverse is)

-- `toLockIndices`, over a table of `size` shards
unfoldable pub to_lock_indices : ℕ → List Bytes → Bool → List ℕ
to_lock_indices size keys reverse = sort_slice reverse (index_set size keys)

-- The loop over the indices of `RWLocks` and of `RWUnLocks`
unfoldable pub locks_of : List ℕ → List ℕ → List Lock
locks_of write_index_set [] = []
locks_of write_index_set (index ∷ indices) =
    (if has_index index write_index_set then write_lock index else read_lock index)
    ∷ locks_of write_index_set indices

module _ {V : Type 0} where
  -- `RWLocks`: the locks that it takes, in order
  unfoldable pub rw_locks : Dict V → List Bytes → List Bytes → List Lock
  rw_locks d write_keys read_keys =
      let size = length d.table in
      locks_of (index_set size write_keys) (to_lock_indices size (write_keys ++ read_keys) false)

  -- `RWUnLocks`: the locks that it gives back, in order
  unfoldable pub rw_un_locks : Dict V → List Bytes → List Bytes → List Lock
  rw_un_locks d write_keys read_keys =
      let size = length d.table in
      locks_of (index_set size write_keys) (to_lock_indices size (write_keys ++ read_keys) true)
