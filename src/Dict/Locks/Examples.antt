-- ===== src/Dict/Locks/Examples.antt =====
-- The theorems on the locks at a dictionary of two shards.
use red_go.Base.{
  [], ◌∷◌, ◌++◌, List, Bytes, codes, length, map, reverse, ◌≡◌, ◌≢◌, ◌⊎◌, ◌<◌, ℕ, Bool, false, not,
  ◌||◌, ◌==◌, All, refl, arith, ap, inl, inr, Bool-cases, ==_iff,
}
use red_go.Dict.{Dict, spread}
use red_go.Dict.Locks.Clients.{Client, Waits, Mutexes, Step, done, calls}
use red_go.Dict.Locks.Highest.{IsFinished}
use red_go.Dict.Locks.Progress.{work, clients_finish}
use red_go.Dict.Locks.{Lock, write_lock, read_lock, has_index, rw_locks, rw_un_locks}
use red_go.Dict.Locks.Order.{IsAscending}
use red_go.Dict.Locks.Held.{
  index_of_lock, grants_write, rw_locks-IsAscending, rw_un_locks-reverse, rw_locks_lem,
}

abbrev two_shards : Dict Bytes
two_shards = record { table = [] ∷ [] ∷ []; count = 0; shard_count = 2 }

abbrev written : List Bytes
written = codes "a" ∷ []

abbrev read : List Bytes
read = codes "b" ∷ codes "a" ∷ []

rw_locks-IsAscending_example : IsAscending (map index_of_lock (rw_locks two_shards written read))
rw_locks-IsAscending_example = rw_locks-IsAscending two_shards written read

rw_un_locks-reverse_example :
    rw_un_locks two_shards written read ≡ reverse (rw_locks two_shards written read)
rw_un_locks-reverse_example = rw_un_locks-reverse two_shards written read

rw_locks_lem_example :
    (has_index 1 (map index_of_lock (rw_locks two_shards written read))
      ≡ has_index 1 (map (spread (length two_shards.table)) (written ++ read)))
    × (grants_write 1 (rw_locks two_shards written read)
        ≡ has_index 1 (map (spread (length two_shards.table)) written))
rw_locks_lem_example = rw_locks_lem two_shards written read 1

has_lock : ℕ → List Lock → Bool
has_lock i [] = false
has_lock i (l ∷ ls) = index_of_lock l == i || has_lock i ls

held_by_one : ℕ → List Client → Bool
unfolding has_lock
held_by_one i [] = false
held_by_one i (c ∷ cs) = has_lock i c.held || held_by_one i cs

next_writes : ℕ → List Lock → Bool
next_writes i [] = false
next_writes i (write_lock j ∷ ls) = j == i
next_writes i (read_lock j ∷ ls) = false

writer_of : ℕ → List Client → Bool
unfolding next_writes
writer_of i [] = false
writer_of i (c ∷ cs) = grants_write i c.held || next_writes i c.wanted || writer_of i cs

-- A lock for writing is granted when nobody has the mutex, one for reading when there is no writer.
abbrev granted : List Client → Lock → Bool
granted cs (write_lock i) = not (held_by_one i cs)
granted cs (read_lock i) = not (writer_of i cs)

has_lock_none : (i : ℕ) (ls : List Lock) → All (λ l. index_of_lock l ≢ i) ls → has_lock i ls ≡ false
unfolding has_lock
has_lock_none i [] h = refl
has_lock_none i (l ∷ ls) (ne, h) = ground (arith, has_lock_none i ls h)

held_by_none :
    (i : ℕ) (cs : List Client)
    → All (λ c. All (λ l. index_of_lock l ≢ i) c.held) cs
    → held_by_one i cs ≡ false
unfolding held_by_one
held_by_none i [] h = refl
held_by_none i (c ∷ cs) (hc, h) = rw (has_lock_none i c.held hc) (held_by_none i cs h)

grants_write_none :
    (i : ℕ) (ls : List Lock) → All (λ l. l ≢ write_lock i) ls → grants_write i ls ≡ false
grants_write_none i [] h = refl
grants_write_none i (read_lock j ∷ ls) (ne, h) = grants_write_none i ls h
grants_write_none i (write_lock j ∷ ls) (ne, h) = elim (Bool-cases (j == i)) [
  | inl t ↦ absurd (ne (ap write_lock ((==_iff j i).0 t)))
  | inr t ↦ rw t (grants_write_none i ls h)
]

next_writes_none :
    (i : ℕ) (ls : List Lock)
    → ((w : List Lock) → ls ≡ write_lock i ∷ w → ⊥)
    → next_writes i ls ≡ false
unfolding next_writes
next_writes_none i [] h = refl
next_writes_none i (read_lock j ∷ ls) h = refl
next_writes_none i (write_lock j ∷ ls) h = elim (Bool-cases (j == i)) [
  | inl t ↦ absurd (h ls (ap (λ k. write_lock k ∷ ls) ((==_iff j i).0 t)))
  | inr t ↦ t
]

no_writer :
    (i : ℕ) (cs : List Client)
    → All (λ c. All (λ l. l ≢ write_lock i) c.held) cs
    → All (λ c. Waits (write_lock i) c → ⊥) cs
    → writer_of i cs ≡ false
unfolding writer_of
no_writer i [] h w = refl
no_writer i (c ∷ cs) (hc, h) (wc, w) =
    rw (grants_write_none i c.held hc, next_writes_none i c.wanted (λ v e. wc (v, e)))
      (no_writer i cs h w)

abbrev mutexes : Mutexes
mutexes = record {
  grants = granted;
  free_write = λ cs i h. rw (held_by_none i cs h) refl;
  free_read = λ cs i h w. rw (no_writer i cs h w) refl;
}

abbrev two_calls : List (List Bytes × List Bytes)
two_calls = (written, read) ∷ (read, written) ∷ []

clients_finish_example :
    (All IsFinished (calls two_shards two_calls)
      ⊎ ((cs' : List Client) × Step mutexes (calls two_shards two_calls) cs'))
    × ((cs' : List Client)
        → Step mutexes (calls two_shards two_calls) cs'
        → work cs' < work (calls two_shards two_calls))
clients_finish_example =
    clients_finish mutexes two_shards two_calls (calls two_shards two_calls) done
