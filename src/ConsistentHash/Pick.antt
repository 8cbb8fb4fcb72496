-- ===== src/ConsistentHash/Pick.antt =====
-- The node that owns a key: the nearest one clockwise, and stable when a node joins.
use red_go.Base.{
  ℕ, ◌+◌, ◌-◌, ◌%◌, ◌^◌, ◌<◌, ◌≤◌, false, List, [], ◌∷◌, Option, none, some, Bytes, length,
  get_elem?, leb, ◌==◌, if◌then◌else◌, ◌≡◌, ◌≢◌, refl, arith, ◌∙◌, inl, inr, All, Option-cases,
  Bool-cases, subst,
}
use red_go.ConsistentHash.{NodeMap, name_of, is_empty, pick_hash, pick_node}
use red_go.ConsistentHash.Search.{Above, IsSorted, below, search-below}

abbrev pub first_at_least : ℕ → List ℕ → Option ℕ
first_at_least h [] = none
first_at_least h (x ∷ xs) = if leb h x then some x else first_at_least h xs

-- The first hash that is at least `h`, or the first of all.
abbrev pub or_first : Option ℕ → List ℕ → Option ℕ
or_first (some x) xs = some x
or_first none [] = none
or_first none (x ∷ xs) = some x

get_elem?-below : (h : ℕ) (xs : List ℕ) → get_elem? xs (below h xs) ≡ first_at_least h xs
get_elem?-below h [] = refl
get_elem?-below h (x ∷ xs) = ground (arith, get_elem?-below h xs)

below-none : (h : ℕ) (xs : List ℕ) → below h xs ≡ length xs → first_at_least h xs ≡ none
below-none h [] e = refl
below-none h (x ∷ xs) e = ground (arith, below-none h xs)

below-some : (h : ℕ) (xs : List ℕ) (x : ℕ) → first_at_least h xs ≡ some x → below h xs ≢ length xs
below-some h xs x found e = let absent = below-none h xs e in cc

first_at_least-none : (h : ℕ) (xs : List ℕ) → first_at_least h xs ≡ none → below h xs ≡ length xs
first_at_least-none h [] e = refl
first_at_least-none h (x ∷ xs) e = ground (arith, first_at_least-none h xs)

or_first-none : (xs : List ℕ) → or_first none xs ≡ get_elem? xs 0
or_first-none [] = refl
or_first-none (x ∷ xs) = refl

pick_index :
    (h : ℕ) (xs : List ℕ)
    → get_elem? xs (if below h xs == length xs then 0 else below h xs)
      ≡ or_first (first_at_least h xs) xs
pick_index h xs = elim (Option-cases (first_at_least h xs)) [
  | inl absent ↦ ground (arith, absent, first_at_least-none h xs absent, or_first-none xs)
  | inr (x, found) ↦ ground (arith, found, below-some h xs x found, get_elem?-below h xs)
]

pub pick_hash-first :
    (h : ℕ) (xs : List ℕ) → IsSorted xs → pick_hash xs h ≡ or_first (first_at_least h xs) xs
unfolding pick_hash
pick_hash-first h xs s = rw (search-below h xs s) (pick_index h xs)

-- The way from one point of the ring to another in the direction of growing hashes
abbrev pub clockwise : ℕ → ℕ → ℕ
clockwise h x = (x + 2 ^ 32 - h) % 2 ^ 32

-- A number of the list, and no number is nearer to `h` clockwise.
abbrev pub IsNearest : ℕ → List ℕ → ℕ → Type 0
IsNearest h xs x =
    ((i : ℕ) × (get_elem? xs i ≡ some x)) × All (λ y. clockwise h x ≤ clockwise h y) xs

Above-clockwise :
    (h z : ℕ) (xs : List ℕ)
    → h ≤ z
    → h < 2 ^ 32
    → Above z xs
    → All (λ y. y < 2 ^ 32) xs
    → All (λ y. clockwise h z ≤ clockwise h y) xs
Above-clockwise h z [] le hb a b = tt
Above-clockwise h z (y ∷ xs) le hb (zy, a) (yb, b) = (omega arith, Above-clockwise h z xs le hb a b)

-- A hash found, against all: each is behind it or before `h`.
first_at_least-All :
    (h : ℕ) (xs : List ℕ) (x : ℕ)
    → IsSorted xs
    → h < 2 ^ 32
    → All (λ y. y < 2 ^ 32) xs
    → first_at_least h xs ≡ some x
    → (h ≤ x) × (x < 2 ^ 32) × All (λ y. clockwise h x ≤ clockwise h y) xs
first_at_least-All h [] x s hb b e = absurd (cc)
first_at_least-All h (z ∷ xs) x (a, s) hb (zb, b) e = elim (Bool-cases (leb h z)) [
  | inl le ↦
      let same : z ≡ x = ground arith in
      subst (λ w. (h ≤ w) × (w < 2 ^ 32) × All (λ y. clockwise h w ≤ clockwise h y) (z ∷ xs)) same
        (ground arith, zb, (omega arith, Above-clockwise h z xs (ground arith) hb a b))
  | inr lt ↦
      let later : first_at_least h xs ≡ some x = ground arith in
      let (hx, xb, all) = first_at_least-All h xs x s hb b later in (hx, xb, (ground arith, all))
]

none-All :
    (h : ℕ) (xs : List ℕ) (x : ℕ)
    → Above x xs
    → x < h
    → h < 2 ^ 32
    → first_at_least h xs ≡ none
    → All (λ y. clockwise h x ≤ clockwise h y) xs
none-All h [] x a lt hb e = tt
none-All h (y ∷ xs) x (le, a) lt hb e = ground (arith, none-All h xs x a lt hb)

first-index :
    (h : ℕ) (xs : List ℕ) (x : ℕ)
    → first_at_least h xs ≡ some x
    → (i : ℕ) × (get_elem? xs i ≡ some x)
first-index h xs x e = (below h xs, get_elem?-below h xs ∙ e)

or_first-IsNearest :
    (h : ℕ) (xs : List ℕ) (o : Option ℕ)
    → IsSorted xs
    → xs ≢ []
    → h < 2 ^ 32
    → All (λ y. y < 2 ^ 32) xs
    → first_at_least h xs ≡ o
    → (x : ℕ) × (or_first o xs ≡ some x) × IsNearest h xs x
or_first-IsNearest h xs (some x) s ne hb b e =
    let (_, _, all) = first_at_least-All h xs x s hb b e in (x, refl, (first-index h xs x e, all))
or_first-IsNearest h [] none s ne hb b e = absurd (ne refl)
or_first-IsNearest h (x ∷ xs) none (a, s) ne hb b e =
    (x, refl, ((0, refl), none-All h (x ∷ xs) x (omega arith, a) (ground arith) hb e))

is_empty-cons : (m : NodeMap) → m.node_hashs ≢ [] → is_empty m ≡ false
unfolding is_empty
is_empty-cons m ne = by_list m.node_hashs ne
  where
    by_list : (xs : List ℕ) → xs ≢ [] → (length xs == 0) ≡ false
    by_list [] ne' = absurd (ne' refl)
    by_list (x ∷ xs) ne' = ground arith

module _ (hash_func : Bytes → ℕ) where
  pub pick_node-first :
      (m : NodeMap) (key : Bytes) (x : ℕ)
      → IsSorted m.node_hashs
      → m.node_hashs ≢ []
      → or_first (first_at_least (hash_func key) m.node_hashs) m.node_hashs ≡ some x
      → pick_node hash_func m key ≡ some (name_of x m.nodehash_map)
  unfolding pick_node
  pick_node-first m key x s ne e =
      rw (is_empty-cons m ne, pick_hash-first (hash_func key) m.node_hashs s, e) refl

  -- On a ring of sorted 32-bit hashes that is not empty, a key goes to the node of a hash to which
  -- the way from the key's hash, clockwise around the ring of 2^32 points, is shortest; a way of no
  -- length counts, so that a key with the hash of a node goes to this node.
  pub pick_node_lem :
      (m : NodeMap) (key : Bytes)
      → IsSorted m.node_hashs
      → m.node_hashs ≢ []
      → All (λ x. x < 2 ^ 32) m.node_hashs
      → hash_func key < 2 ^ 32
      → (x : ℕ) × (pick_node hash_func m key ≡ some (name_of x m.nodehash_map))
        × IsNearest (hash_func key) m.node_hashs x
  pick_node_lem m key s ne b hb =
      let (x, e, near) = or_first-IsNearest (hash_func key) m.node_hashs _ s ne hb b refl in
      (x, pick_node-first m key x s ne e, near)
