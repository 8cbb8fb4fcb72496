-- ===== src/Dict/Locks/Held.antt =====
-- The locks are taken in ascending order, each once, and given back in the opposite order.
use red_go.Base.{
  ℕ, Bool, false, ◌||◌, List, [], ◌∷◌, ◌++◌, Bytes, ◌==◌, length, if◌then◌else◌, ◌≡◌, refl, arith,
  ap, ◌∙◌, sym, reverse, inl, inr, Bool-cases, map,
}
use mathlib.Core.List.{reverse-append}
use red_go.Dict.{Dict, spread}
use red_go.Dict.Locks.{
  Lock, write_lock, read_lock, has_index, index_set, sort_slice, to_lock_indices, locks_of,
  rw_locks, rw_un_locks,
}
use red_go.Dict.Locks.Order.{
  IsAscending, sort_slice-IsAscending, sort_slice-reverse, reverse-cons, has_index-sort_slice,
  index_set-IsDistinct,
}

locks_of-append : (ws is js : List ℕ) → locks_of ws (is ++ js) ≡ locks_of ws is ++ locks_of ws js
unfolding locks_of
locks_of-append ws [] js = refl
locks_of-append ws (i ∷ is) js =
    ap (◌∷◌ (if has_index i ws then write_lock i else read_lock i)) (locks_of-append ws is js)

locks_of-reverse : (ws is : List ℕ) → locks_of ws (reverse is) ≡ reverse (locks_of ws is)
unfolding locks_of
locks_of-reverse ws [] = refl
locks_of-reverse ws (i ∷ is) =
    ap (locks_of ws) (reverse-cons i is)
    ∙ locks_of-append ws (reverse is) (i ∷ [])
    ∙ ap (λ l. l ++ (if has_index i ws then write_lock i else read_lock i) ∷ [])
        (locks_of-reverse ws is)
    ∙ sym (
        reverse-append ((if has_index i ws then write_lock i else read_lock i) ∷ [])
          (locks_of ws is))

-- The shard of a lock
abbrev pub index_of_lock : Lock → ℕ
index_of_lock (write_lock i) = i
index_of_lock (read_lock i) = i

map-locks_of : (ws is : List ℕ) → map index_of_lock (locks_of ws is) ≡ is
unfolding locks_of
map-locks_of ws [] = refl
map-locks_of ws (i ∷ is) = elim (Bool-cases (has_index i ws)) [
  | inl w ↦ rw w (ap (◌∷◌ i) (map-locks_of ws is))
  | inr r ↦ rw r (ap (◌∷◌ i) (map-locks_of ws is))
]

-- Is there a write lock of the shard among the locks?
abbrev pub grants_write : ℕ → List Lock → Bool
grants_write i [] = false
grants_write i (write_lock j ∷ locks) = j == i || grants_write i locks
grants_write i (read_lock j ∷ locks) = grants_write i locks

grants_write-locks_of :
    (i : ℕ) (ws is : List ℕ)
    → grants_write i (locks_of ws is) ≡ (if has_index i ws then has_index i is else false)
unfolding locks_of has_index
grants_write-locks_of i ws [] = ground arith
grants_write-locks_of i ws (j ∷ is) = ground (arith, grants_write-locks_of i ws is)

has_index-index_set :
    (size i : ℕ) (keys : List Bytes)
    → has_index i (index_set size keys) ≡ has_index i (map (spread size) keys)
unfolding has_index index_set
has_index-index_set size i [] = refl
has_index-index_set size i (key ∷ keys) = ground (arith, has_index-index_set size i keys)

has_index-append :
    (i : ℕ) (is js : List ℕ) → has_index i (is ++ js) ≡ (has_index i is || has_index i js)
unfolding has_index
has_index-append i [] js = refl
has_index-append i (j ∷ is) js = ground (arith, has_index-append i is js)

map-append : (f : Bytes → ℕ) (ks ls : List Bytes) → map f (ks ++ ls) ≡ map f ks ++ map f ls
map-append f [] ls = refl
map-append f (k ∷ ks) ls = ap (◌∷◌ (f k)) (map-append f ks ls)

module _ {V : Type 0} (d : Dict V) (write_keys read_keys : List Bytes) where
  -- `RWLocks` takes the locks of its shards in strictly ascending order, each of them once.
  pub rw_locks-IsAscending : IsAscending (map index_of_lock (rw_locks d write_keys read_keys))
  unfolding rw_locks to_lock_indices
  rw_locks-IsAscending =
      let n = length d.table in
      rw
        (map-locks_of (index_set n write_keys)
          (sort_slice false (index_set n (write_keys ++ read_keys))))
        (sort_slice-IsAscending (index_set n (write_keys ++ read_keys))
          (index_set-IsDistinct n (write_keys ++ read_keys)))

  -- `RWUnLocks` of the same keys gives back exactly the locks that `RWLocks` took, each in its mode,
  -- in the opposite order.
  pub rw_un_locks-reverse :
      rw_un_locks d write_keys read_keys ≡ reverse (rw_locks d write_keys read_keys)
  unfolding rw_locks rw_un_locks to_lock_indices
  rw_un_locks-reverse =
      let n = length d.table in
      let ws = index_set n write_keys in
      let is = index_set n (write_keys ++ read_keys) in
      ap (locks_of ws) (sort_slice-reverse is (index_set-IsDistinct n (write_keys ++ read_keys)))
      ∙ locks_of-reverse ws (sort_slice false is)

  -- `RWLocks` locks exactly the shards of the keys, and for writing exactly those of the keys to
  -- write.
  pub rw_locks_lem :
      (i : ℕ)
      → (has_index i (map index_of_lock (rw_locks d write_keys read_keys))
          ≡ has_index i (map (spread (length d.table)) (write_keys ++ read_keys)))
        × (grants_write i (rw_locks d write_keys read_keys)
            ≡ has_index i (map (spread (length d.table)) write_keys))
  unfolding rw_locks to_lock_indices
  rw_locks_lem i =
      let n = length d.table in
      let ws = index_set n write_keys in
      let is = index_set n (write_keys ++ read_keys) in
      let all =
        has_index-sort_slice false i is ∙ has_index-index_set n i (write_keys ++ read_keys) in
      (
        ap (has_index i) (map-locks_of ws (sort_slice false is)) ∙ all,
        ground (
          arith,
          grants_write-locks_of i ws (sort_slice false is),
          all,
          has_index-index_set n i write_keys,
          map-append (spread n) write_keys read_keys,
          has_index-append i (map (spread n) write_keys) (map (spread n) read_keys),
        ),
      )
