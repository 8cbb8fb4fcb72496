-- ===== src/ConsistentHash/Join.antt =====
-- A node joins the ring: it takes keys over, and no key moves between two other nodes.
use red_go.Base.{
  ℕ, Bool, true, false, List, [], ◌∷◌, Option, none, some, Bytes, leb, ◌==◌, if◌then◌else◌, ◌≡◌,
  ◌≢◌, refl, arith, ap, ◌∙◌, sym, ◌⊎◌, inl, inr, Bool-cases,
}
use red_go.ConsistentHash.{NodeMap, insert, name_of, add_loop, add_nodes, pick_node}
use red_go.ConsistentHash.Search.{IsSorted}
use red_go.ConsistentHash.Ring.{sort_ints-snoc, sort_ints-IsSorted, name_of-assign_name}
use red_go.ConsistentHash.Pick.{first_at_least, or_first, pick_node-first}

-- The hash of the smaller of two candidates
abbrev smaller : ℕ → Option ℕ → ℕ
smaller x none = x
smaller x (some y) = if leb x y then x else y

first_at_least-insert :
    (h x : ℕ) (xs : List ℕ)
    → IsSorted xs
    → first_at_least h (insert x xs)
      ≡ (if leb h x then some (smaller x (first_at_least h xs)) else first_at_least h xs)
unfolding insert
first_at_least-insert h x [] s = refl
first_at_least-insert h x (y ∷ xs) (a, s) = ground (arith, first_at_least-insert h x xs s)

insert-ne-nil : (x : ℕ) (xs : List ℕ) → insert x xs ≢ []
unfolding insert
insert-ne-nil x [] = ground arith
insert-ne-nil x (y ∷ xs) = ground arith

-- The first hash of a ring that is joined
first-insert :
    (x y : ℕ) (xs : List ℕ) → or_first none (insert x (y ∷ xs)) ≡ some (if leb x y then x else y)
unfolding insert
first-insert x y xs = ground arith

one_of :
    (b : Bool) (x y : ℕ)
    → (some (if b then x else y) ≡ some y) ⊎ (some (if b then x else y) ≡ some x)
one_of true x y = inr refl
one_of false x y = inl refl

owner-insert :
    (h x : ℕ) (xs : List ℕ) (o : Option ℕ)
    → IsSorted xs
    → xs ≢ []
    → first_at_least h xs ≡ o
    → (or_first (first_at_least h (insert x xs)) (insert x xs) ≡ or_first o xs)
      ⊎ (or_first (first_at_least h (insert x xs)) (insert x xs) ≡ some x)
owner-insert h x [] o s ne e = absurd (ne refl)
owner-insert h x (y ∷ xs) none s ne e =
    let after = first_at_least-insert h x (y ∷ xs) s in
    elim (Bool-cases (leb h x)) [
      | inl le ↦ inr (rw (after, e, le) refl)
      | inr lt ↦ rw (after, e, lt, first-insert x y xs) (one_of (leb x y) x y)
    ]
owner-insert h x (y ∷ xs) (some z) s ne e =
    let after = first_at_least-insert h x (y ∷ xs) s in
    elim (Bool-cases (leb h x)) [
      | inl le ↦ rw (after, e, le) (one_of (leb x z) x z)
      | inr lt ↦ inl (rw (after, e, lt) refl)
    ]

owner_exists : (o : Option ℕ) (xs : List ℕ) → xs ≢ [] → (x : ℕ) × (or_first o xs ≡ some x)
owner_exists (some x) xs ne = (x, refl)
owner_exists none [] ne = absurd (ne refl)
owner_exists none (x ∷ xs) ne = (x, refl)

module _ (hash_func : Bytes → ℕ) where
  add_nodes-hashs :
      (m : NodeMap) (c : ℕ) (node : Bytes)
      → IsSorted m.node_hashs
      → (add_nodes hash_func m ((c ∷ node) ∷ [])).node_hashs
        ≡ insert (hash_func (c ∷ node)) m.node_hashs
  unfolding add_nodes
  add_nodes-hashs m c node s = sort_ints-snoc m.node_hashs (hash_func (c ∷ node)) s

  add_nodes-names :
      (m : NodeMap) (c : ℕ) (node : Bytes) (x : ℕ)
      → name_of x (add_nodes hash_func m ((c ∷ node) ∷ [])).nodehash_map
        ≡ (if hash_func (c ∷ node) == x then c ∷ node else name_of x m.nodehash_map)
  unfolding add_nodes
  add_nodes-names m c node x =
      name_of-assign_name (hash_func (c ∷ node)) x (c ∷ node) m.nodehash_map

  -- `AddNodes` leaves the hashes sorted, whatever they were before.
  pub add_nodes-IsSorted :
      (m : NodeMap) (nodes : List Bytes) → IsSorted (add_nodes hash_func m nodes).node_hashs
  unfolding add_nodes
  add_nodes-IsSorted m nodes = sort_ints-IsSorted (add_loop hash_func m nodes).node_hashs

  pick_joined :
      (m : NodeMap) (c : ℕ) (node key : Bytes) (x : ℕ)
      → IsSorted m.node_hashs
      → or_first
          (first_at_least (hash_func key) (insert (hash_func (c ∷ node)) m.node_hashs))
          (insert (hash_func (c ∷ node)) m.node_hashs)
        ≡ some x
      → pick_node hash_func (add_nodes hash_func m ((c ∷ node) ∷ [])) key
        ≡ some (if hash_func (c ∷ node) == x then c ∷ node else name_of x m.nodehash_map)
  pick_joined m c node key x s e =
      let hs = add_nodes-hashs m c node s in
      pick_node-first hash_func (add_nodes hash_func m ((c ∷ node) ∷ [])) key x
        (add_nodes-IsSorted m ((c ∷ node) ∷ []))
        (rw hs (insert-ne-nil (hash_func (c ∷ node)) m.node_hashs)) (rw hs e)
      ∙ ap some (add_nodes-names m c node x)

  -- When a node joins a ring of sorted hashes that is not empty, every key stays at its node or goes
  -- to the new one.
  pub pick_node-add_nodes :
      (m : NodeMap) (c : ℕ) (node key : Bytes)
      → IsSorted m.node_hashs
      → m.node_hashs ≢ []
      → (pick_node hash_func (add_nodes hash_func m ((c ∷ node) ∷ [])) key
          ≡ pick_node hash_func m key)
        ⊎ (pick_node hash_func (add_nodes hash_func m ((c ∷ node) ∷ [])) key ≡ some (c ∷ node))
  pick_node-add_nodes m c node key s ne =
      let k = hash_func (c ∷ node) in
      let h = hash_func key in
      let (x, e) = owner_exists (first_at_least h m.node_hashs) m.node_hashs ne in
      let before = pick_node-first hash_func m key x s ne e in
      elim (owner-insert h k m.node_hashs _ s ne refl) [
        | inr taken ↦ inr (pick_joined m c node key k s taken ∙ ground arith)
        | inl kept ↦
            let now = pick_joined m c node key x s (kept ∙ e) in
            elim (Bool-cases (k == x)) [
              | inl same ↦ inr (now ∙ rw same refl)
              | inr other ↦ inl (now ∙ rw other (sym before))
            ]
      ]
