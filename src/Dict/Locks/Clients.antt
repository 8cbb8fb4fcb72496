-- ===== src/Dict/Locks/Clients.antt =====
-- Clients that call `RWLocks` and `RWUnLocks` of one dictionary at the same time. Whether the mutex of
-- a shard grants a lock is a parameter, with what package sync says of `RWMutex`.
use red_go.Base.{ℕ, ◌<◌, Bool, true, List, [], ◌∷◌, ◌++◌, Bytes, map, ◌≡◌, ◌≢◌, sym, subst, All}
use red_go.Dict.{Dict}
use red_go.Dict.Locks.{Lock, write_lock, read_lock, rw_locks}
use red_go.Dict.Locks.Order.{IsAscending}
use red_go.Dict.Locks.Held.{index_of_lock, rw_locks-IsAscending}

-- A client: the locks that it holds, the last taken first, and those that it is still to take, in order
pub record Client : Type 0 where
  pub held : List Lock
  pub wanted : List Lock

-- The client waits for the lock.
abbrev pub Waits : Lock → Client → Type 0
Waits l c = (w : List Lock) × (c.wanted ≡ l ∷ w)

-- What the documentation of `RWMutex` says: `Lock` returns when nobody holds the mutex, and `RLock` when
-- no writer holds it and none waits for it.
pub record Mutexes : Type 0 where
  pub grants : List Client → Lock → Bool
  pub free_write :
      (cs : List Client) (i : ℕ)
      → All (λ c. All (λ l. index_of_lock l ≢ i) c.held) cs
      → grants cs (write_lock i) ≡ true
  pub free_read :
      (cs : List Client) (i : ℕ)
      → All (λ c. All (λ l. l ≢ write_lock i) c.held) cs
      → All (λ c. Waits (write_lock i) c → ⊥) cs
      → grants cs (read_lock i) ≡ true

module _ (m : Mutexes) where
  -- A client takes the lock that it waits for, or, with all its locks, gives back the last that it took.
  pub data Step : List Client → List Client → Type 0 where
    take_lock :
        {cs cs' : List Client} (before after : List Client) (c : Client) (l : Lock) (w : List Lock)
        → c.wanted ≡ l ∷ w
        → m.grants cs l ≡ true
        → cs ≡ before ++ c ∷ after
        → cs' ≡ before ++ record { held = l ∷ c.held; wanted = w } ∷ after
        → Step cs cs'
    give_back :
        {cs cs' : List Client} (before after : List Client) (c : Client) (l : Lock) (h : List Lock)
        → c.wanted ≡ []
        → c.held ≡ l ∷ h
        → cs ≡ before ++ c ∷ after
        → cs' ≡ before ++ record { held = h; wanted = [] } ∷ after
        → Step cs cs'

  pub data Run : List Client → List Client → Type 0 where
    done : {cs : List Client} → Run cs cs
    step : {cs cs' cs₂ : List Client} → Run cs cs' → Step cs' cs₂ → Run cs cs₂

-- A client at its call of `RWLocks`
abbrev pub calls : {V : Type 0} → Dict V → List (List Bytes × List Bytes) → List Client
calls d [] = []
calls d ((write_keys, read_keys) ∷ keys) =
    record { held = []; wanted = rw_locks d write_keys read_keys } ∷ calls d keys

-- The locks that are wanted ascend, above all that are held.
abbrev pub IsOrdered : Client → Type 0
IsOrdered c =
    IsAscending (map index_of_lock c.wanted)
    × All (λ h. All (λ w. index_of_lock h < index_of_lock w) c.wanted) c.held

All-split :
    (P : Client → Type 0) (before after : List Client) (c : Client)
    → All P (before ++ c ∷ after)
    → All P before × P c × All P after
All-split P [] after c (h, hs) = (tt, h, hs)
All-split P (b ∷ before) after c (h, hs) =
    let (x, y, z) = All-split P before after c hs in ((h, x), y, z)

All-join :
    (P : Client → Type 0) (before after : List Client) (c : Client)
    → All P before
    → P c
    → All P after
    → All P (before ++ c ∷ after)
All-join P [] after c tt h hs = (h, hs)
All-join P (b ∷ before) after c (x, xs) h hs = (x, All-join P before after c xs h hs)

All-map_index :
    (i : ℕ) (ls : List Lock)
    → All (λ j. i < j) (map index_of_lock ls)
    → All (λ l. i < index_of_lock l) ls
All-map_index i [] h = tt
All-map_index i (l ∷ ls) (a, h) = (a, All-map_index i ls h)

tails :
    (l : Lock) (w hs : List Lock)
    → All (λ h. All (λ v. index_of_lock h < index_of_lock v) (l ∷ w)) hs
    → All (λ h. All (λ v. index_of_lock h < index_of_lock v) w) hs
tails l w [] a = tt
tails l w (h ∷ hs) ((_, a), as') = (a, tails l w hs as')

nothing_wanted : (hs : List Lock) → All (λ h. All (λ v. index_of_lock h < index_of_lock v) []) hs
nothing_wanted [] = tt
nothing_wanted (h ∷ hs) = (tt, nothing_wanted hs)

Step-IsOrdered :
    (m : Mutexes) (cs cs' : List Client) → Step m cs cs' → All IsOrdered cs → All IsOrdered cs'
Step-IsOrdered m cs cs' (take_lock before after c l w wants granted from to) a =
    let (x, (asc, above), y) = All-split IsOrdered before after c (subst (All IsOrdered) from a) in
    let (first, rest) = subst (λ ls. IsAscending (map index_of_lock ls)) wants asc in
    let held =
      subst (λ ls. All (λ h. All (λ v. index_of_lock h < index_of_lock v) ls) c.held) wants above in
    subst (All IsOrdered) (sym to) (
      All-join IsOrdered before after (record { held = l ∷ c.held; wanted = w }) x
        (rest, (All-map_index (index_of_lock l) w first, tails l w c.held held)) y)
Step-IsOrdered m cs cs' (give_back before after c l h wants holds from to) a =
    let (x, _, y) = All-split IsOrdered before after c (subst (All IsOrdered) from a) in
    subst (All IsOrdered) (sym to) (
      All-join IsOrdered before after (record { held = h; wanted = [] }) x (tt, nothing_wanted h) y)

pub Run-IsOrdered :
    (m : Mutexes) (cs cs' : List Client) → Run m cs cs' → All IsOrdered cs → All IsOrdered cs'
Run-IsOrdered m cs _ done a = a
Run-IsOrdered m cs _ (step {cs' = cs'} {cs₂ = cs₂} r s) a =
    Step-IsOrdered m cs' cs₂ s (Run-IsOrdered m cs cs' r a)

pub calls-IsOrdered :
    {V : Type 0} (d : Dict V) (keys : List (List Bytes × List Bytes)) → All IsOrdered (calls d keys)
calls-IsOrdered d [] = tt
calls-IsOrdered d ((write_keys, read_keys) ∷ keys) =
    ((rw_locks-IsAscending d write_keys read_keys, tt), calls-IsOrdered d keys)
