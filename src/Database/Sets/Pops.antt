-- ===== src/Database/Sets/Pops.antt =====
-- SPOP, whatever order the generator leaves.
use red_go.Base.{
  ℕ, ◌+◌, ◌-◌, ◌||◌, Bool, true, false, ◌≡◌, List, [], ◌∷◌, ◌++◌, Option, some, ◌>>=◌, Bytes, map,
  negsuc, length, if◌then◌else◌, ltb,
}
use red_go.HashSet
use red_go.HashSet.{HashSet}
use red_go.HashSet.Numbers.{IsUnique, elem}
use red_go.Reply.{Reply, bulk_reply}
use red_go.Database.{Db, Outcome, replied}
use red_go.Database.Sets.{bulks}
use red_go.Database.Sets.Under.{Leaves}

-- `Shuffle` leaves the same members in another order.
abbrev pub IsShuffle : (List Bytes → List Bytes) → Type 0
IsShuffle shuffle =
    (ms : List Bytes)
    → (length (shuffle ms) ≡ length ms)
      × (IsUnique ms → IsUnique (shuffle ms))
      × ((j : Bytes) → elem j (shuffle ms) ≡ elem j ms)

-- Some of the members, each once
abbrev pub IsPart : List Bytes → List Bytes → Type 0
IsPart xs ms = IsUnique xs × ((j : Bytes) → elem j xs ≡ true → elem j ms ≡ true)

-- One member is a bulk, more of them an array.
abbrev pub bulk_or_bulks : List Bytes → Reply
bulk_or_bulks [] = bulks []
bulk_or_bulks (x ∷ []) = bulk_reply (some x)
bulk_or_bulks (x ∷ y ∷ xs) = bulks (x ∷ y ∷ xs)

-- What SPOP replies and leaves: `count` of the members, and the others
abbrev pub Popped : Db → Bytes → List Bytes → ℕ → Outcome × Db → Type 0
Popped db key ms count outcome =
    (xs : List Bytes) × (ms' : List Bytes) × (outcome.0 ≡ replied (bulk_or_bulks xs))
    × (length xs ≡ count)
    × IsPart xs ms
    × Leaves db outcome.1 key ms'
    × ((j : Bytes) → elem j ms' ≡ (if elem j xs then false else elem j ms))

-- The smaller of two numbers
abbrev pub smaller : ℕ → ℕ → ℕ
smaller a b = if ltb a b then a else b
