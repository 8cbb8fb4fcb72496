-- ===== src/SkipList.antt =====
-- datastruct/skiplist/skiplist.go: a skip list. A pointer is the number of a node, and the nodes are
-- a function of it: the header is node 0. `none` is a panic: an index out of range, or a nil pointer
-- that is followed.
pub mod Reads
pub mod Order
pub mod Levels
pub mod Search
pub mod Splice
pub mod Pointers
pub mod Unlink
pub mod Valid
pub mod NewNode
pub mod Insert
pub mod Removal
pub mod Delete
pub mod Range
pub mod Page
pub mod Rank
mod Examples
use red_go.Base.{
  ℕ, zero, suc, ◌+◌, ◌-◌, ◌<◌, Bool, true, false, not, ◌&&◌, ◌||◌, List, [], ◌∷◌, ◌++◌, Option,
  none, some, Bytes, length, get_elem?, set, replicate, ltb, leb, ◌==◌, eq_bytes, if◌then◌else◌,
  ◌>>=◌, ℤ, pos, negsuc, ltb_ℤ, leb_ℤ, ◌+ℤ◌, ◌-ℤ◌, pos_part,
}
use red_go.Score.{Score, Item, before, equals, at_most}

-- `maxLevel`
abbrev pub max_level : ℕ
max_level = 16

-- `Node`
pub record Node {ℓ} (F : Type ℓ) : Type ℓ where
  pub item : Item F
  pub forward : List (Option ℕ)

-- `SkipList`, less its source of random numbers; `allocated` counts the nodes made so far.
pub record SkipList {ℓ} (F : Type ℓ) : Type ℓ where
  pub nodes : ℕ → Node F
  pub allocated : ℕ
  pub tail : Option ℕ
  pub level : ℕ
  pub length : ℕ

-- `x` behind the loops of a search: the node of the lowest level
abbrev pub reached : List ℕ → ℕ
reached [] = 0
reached (x ∷ update) = x

-- The loop of `randomLevel`, with `n` levels left; a draw tells whether `Float32() < 0.25`.
unfoldable pub climb : ℕ → (ℕ → Bool) → ℕ → ℕ
climb zero draws level = level
climb (suc n) draws level =
    let higher = climb n draws (suc level) in if draws level then higher else level

-- `randomLevel`
unfoldable pub random_level : (ℕ → Bool) → ℕ
unfolding climb
random_level draws = climb (max_level - 1) draws 1

-- `p == t` on pointers
abbrev pub is_node : ℕ → Option ℕ → Bool
is_node t none = false
is_node t (some p) = p == t

module _ {ℓ} {F : Type ℓ} where
  -- `x.Forward[i]`
  abbrev pub next : SkipList F → ℕ → ℕ → Option (Option ℕ)
  next s x i = get_elem? (s.nodes x).forward i

  -- The nodes with one of them changed
  abbrev pub update_node : (ℕ → Node F) → ℕ → Node F → ℕ → Node F
  update_node nodes x n y = if x == y then n else nodes y

  -- `x.Forward[i] = p`
  unfoldable pub set_next : SkipList F → ℕ → ℕ → Option ℕ → Option (SkipList F)
  set_next s x i p =
      if ltb i (length (s.nodes x).forward)
      then some (record s {
        nodes =
            update_node s.nodes x (record (s.nodes x) { forward = set (s.nodes x).forward i p });
      })
      else none

  -- The loop of one level: from `x` on to the last node before the first that fails the test, with
  -- fuel for its rounds
  unfoldable pub walk : ℕ → SkipList F → (Item F → Bool) → ℕ → ℕ → Option ℕ
  walk zero s test i x = none
  walk (suc fuel) s test i x = elim (next s x i) [
    | none ↦ none
    | some none ↦ some x
    | some (some y) ↦
        let rest = walk fuel s test i y in if test (s.nodes y).item then rest else some x
  ]

  -- The loop over the levels below `i`, from the highest: `update`, from level 0 on
  unfoldable pub descend : SkipList F → (Item F → Bool) → ℕ → ℕ → Option (List ℕ)
  unfolding walk
  descend s test zero x = some []
  descend s test (suc i) x = do
    y ← walk (s.length + 1) s test i x
    update ← descend s test i y
    some (update ++ y ∷ [])

  -- The new node `n` linked into `count` levels, from level `i` on
  unfoldable pub link : ℕ → ℕ → ℕ → List ℕ → SkipList F → Option (SkipList F)
  unfolding set_next
  link zero i n update s = some s
  link (suc count) i n update s = do
    u ← get_elem? update i
    p ← next s u i
    s₁ ← set_next s n i p
    s₂ ← set_next s₁ u i (some n)
    link count (suc i) n update s₂

  -- The node `t` taken out of `count` levels, from level `i` on, up to the first that it is not on
  unfoldable pub unlink : ℕ → ℕ → ℕ → List ℕ → SkipList F → Option (SkipList F)
  unfolding set_next
  unlink zero i t update s = some s
  unlink (suc count) i t update s = do
    u ← get_elem? update i
    p ← next s u i
    if is_node t p
        then (do q ← next s t i; s' ← set_next s u i q; unlink count (suc i) t update s')
        else some s

  -- The level behind `Delete`: levels on which the header has no next node are dropped.
  unfoldable pub lower : SkipList F → ℕ → Option ℕ
  lower s zero = some zero
  lower s (suc zero) = some 1
  lower s (suc (suc n)) = do
    p ← next s 0 (suc n)
    elim p [ none ↦ lower s (suc n) | some y ↦ some (suc (suc n)) ]

  -- The new node of `Insert`, and the level of the list: nothing points to the node yet.
  abbrev pub with_node : Item F → ℕ → SkipList F → SkipList F
  with_node x height s = record s {
    nodes = update_node s.nodes s.allocated (record { item = x; forward = replicate height none });
    allocated = s.allocated + 1;
    level = if ltb s.level height then height else s.level;
  }

  -- The end of `Insert`: the tail and the length
  unfoldable pub inserted : ℕ → SkipList F → Option (SkipList F)
  inserted n s = do
    p ← next s n 0
    some (record s { tail = elim p [ none ↦ some n | some y ↦ s.tail ]; length = s.length + 1 })

  -- The end of `Delete`: the tail, the level and the length
  unfoldable pub deleted : ℕ → ℕ → SkipList F → Option (SkipList F)
  unfolding lower
  deleted t u s = do
    level ← lower s s.level
    some (record s {
      tail = if is_node t s.tail then (if u == 0 then none else some u) else s.tail;
      level = level;
      length = s.length - 1;
    })

module _ {ℓ} {F : Type ℓ} ⦃f : Score F⦄ where
  -- The header's fields
  abbrev pub header : Node F
  header = record {
    item = record { member = []; score = f.nought };
    forward = replicate max_level none;
  }

  -- `NewSkipList`
  abbrev pub new_skip_list : SkipList F
  new_skip_list = record { nodes = λ _. header; allocated = 1; tail = none; level = 1; length = 0 }

  -- `Insert`
  unfoldable pub insert : Item F → (ℕ → Bool) → SkipList F → Option (SkipList F)
  unfolding descend link inserted
  insert x draws s =
      let height = random_level draws in
      do
        update ← descend s (λ y. before y x) s.level 0
        s' ←
            link height 0 s.allocated (update ++ replicate (height - s.level) 0)
              (with_node x height s)
        inserted s.allocated s'

  -- `Delete` behind its search, given the node there
  unfoldable pub delete_target :
      Item F → List ℕ → SkipList F → Option ℕ → Option (SkipList F × Bool)
  unfolding unlink deleted
  delete_target x update s none = some (s, false)
  delete_target x update s (some t) =
      if equals (s.nodes t).item x
      then (do
        s₁ ← unlink s.level 0 t update s
        s₂ ← deleted t (reached update) s₁
        some (s₂, true))
      else some (s, false)

  -- `Delete`
  unfoldable pub delete : Item F → SkipList F → Option (SkipList F × Bool)
  unfolding descend delete_target
  delete x s = do
    update ← descend s (λ y. before y x) s.level 0
    target ← next s (reached update) 0
    delete_target x update s target
