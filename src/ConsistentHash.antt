-- ===== src/ConsistentHash.antt =====
-- lib/consistent_hash/consistent_hash.go: the ring of the nodes' hashes, and the node that owns a
-- key. The hash function is the parameter that the caller of `NewNodeMap` gives.
pub mod Search
pub mod Ring
pub mod Pick
pub mod Join
mod Examples
use red_go.Base.{
  ℕ, zero, suc, ◌+◌, ◌-◌, ◌/◌, Bool, true, false, List, [], ◌∷◌, ◌++◌, Option, none, some, Bytes,
  length, get_elem?, ltb, leb, ◌==◌, if◌then◌else◌, ◌>>=◌,
}

-- `NodeMap`, less its hash function
pub record NodeMap : Type 0 where
  pub node_hashs : List ℕ
  pub nodehash_map : List (ℕ × Bytes)

-- `m[k]` of a map of strings with integer keys: a missing key reads as the empty string.
unfoldable pub name_of : ℕ → List (ℕ × Bytes) → Bytes
name_of k [] = []
name_of k ((j, node) ∷ m) = if j == k then node else name_of k m

unfoldable pub assign_name : ℕ → Bytes → List (ℕ × Bytes) → List (ℕ × Bytes)
assign_name k node [] = (k, node) ∷ []
assign_name k node ((j, old) ∷ m) =
    if j == k then (j, node) ∷ m else (j, old) ∷ assign_name k node m

-- `sort.Ints`
unfoldable pub insert : ℕ → List ℕ → List ℕ
insert x [] = x ∷ []
insert x (y ∷ ys) = if leb x y then x ∷ y ∷ ys else y ∷ insert x ys

unfoldable pub sort_ints : List ℕ → List ℕ
sort_ints [] = []
sort_ints (x ∷ xs) = insert x (sort_ints xs)

-- The loop of `sort.Search` for the least index in `[i, j)` at which the test holds; the fuel bounds
-- `j - i`.
unfoldable pub search_loop : ℕ → (ℕ → Bool) → ℕ → ℕ → ℕ
search_loop zero f i j = i
search_loop (suc fuel) f i j =
    let h = (i + j) / 2 in
    let above = search_loop fuel f (h + 1) j in
    let below = search_loop fuel f i h in if ltb i j then (if f h then below else above) else i

unfoldable pub search : ℕ → (ℕ → Bool) → ℕ
unfolding search_loop
search n f = search_loop n f 0 n

-- `NewNodeMap`
abbrev pub new_node_map : NodeMap
new_node_map = record { node_hashs = []; nodehash_map = [] }

-- `IsEmpty`
unfoldable pub is_empty : NodeMap → Bool
is_empty m = length m.node_hashs == 0

-- `m.nodeHashs[i] >= hashKey`. `sort.Search` calls it with indices of the slice only.
unfoldable pub at_least : ℕ → List ℕ → ℕ → Bool
at_least hash_key hashs i = elim (get_elem? hashs i) [ none ↦ true | some x ↦ leb hash_key x ]

-- The hash that a key goes to, behind the test of `IsEmpty`; `none` is an index out of range.
unfoldable pub pick_hash : List ℕ → ℕ → Option ℕ
unfolding search at_least
pick_hash hashs hash_key =
    let index = search (length hashs) (at_least hash_key hashs) in
    get_elem? hashs (if index == length hashs then 0 else index)

module _ (hash_func : Bytes → ℕ) where
  -- The loop of `AddNodes`
  unfoldable pub add_loop : NodeMap → List Bytes → NodeMap
  add_loop m [] = m
  add_loop m ([] ∷ nodes) = add_loop m nodes
  add_loop m ((c ∷ node) ∷ nodes) =
      let hash_key = hash_func (c ∷ node) in
      add_loop
        (record {
          node_hashs = m.node_hashs ++ hash_key ∷ [];
          nodehash_map = assign_name hash_key (c ∷ node) m.nodehash_map;
        })
        nodes

  -- `AddNodes`
  unfoldable pub add_nodes : NodeMap → List Bytes → NodeMap
  unfolding add_loop
  add_nodes m nodes =
      let m' = add_loop m nodes in record m' { node_hashs = sort_ints m'.node_hashs }

  -- `PickNode`; `none` is a panic.
  unfoldable pub pick_node : NodeMap → Bytes → Option Bytes
  unfolding is_empty pick_hash
  pick_node m key =
      if is_empty m
      then some []
      else do hash ← pick_hash m.node_hashs (hash_func key); some (name_of hash m.nodehash_map)
