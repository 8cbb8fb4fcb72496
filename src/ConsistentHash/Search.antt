-- ===== src/ConsistentHash/Search.antt =====
-- `sort.Search` finds the first hash that is at least the key's.
use red_go.Base.{
  ℕ, zero, suc, ◌+◌, ◌-◌, ◌/◌, ◌<◌, ◌≤◌, Bool, List, [], ◌∷◌, length, leb, if◌then◌else◌, ◌≡◌, refl,
  arith,
}
use red_go.ConsistentHash.{search_loop, search, at_least}

-- The hashes stand in order.
abbrev pub Above : ℕ → List ℕ → Type 0
Above x [] = Unit
Above x (y ∷ ys) = (x ≤ y) × Above x ys

abbrev pub IsSorted : List ℕ → Type 0
IsSorted [] = Unit
IsSorted (x ∷ xs) = Above x xs × IsSorted xs

-- The number of hashes before the first that is at least `h`.
abbrev pub below : ℕ → List ℕ → ℕ
below h [] = 0
below h (x ∷ xs) = if leb h x then 0 else suc (below h xs)

pub below-le : (h : ℕ) (xs : List ℕ) → below h xs ≤ length xs
below-le h [] = omega arith
below-le h (x ∷ xs) = ground (arith, below-le h xs)

below-Above : (h x : ℕ) (xs : List ℕ) → h ≤ x → Above x xs → below h xs ≡ 0
below-Above h x [] le a = refl
below-Above h x (y ∷ xs) le (a, as') = ground arith

at_least-below :
    (h : ℕ) (xs : List ℕ) (i : ℕ)
    → IsSorted xs
    → i < length xs
    → at_least h xs i ≡ leb (below h xs) i
unfolding at_least
at_least-below h [] i s lt = absurd (omega arith)
at_least-below h (x ∷ xs) zero (a, s) lt = ground arith
at_least-below h (x ∷ xs) (suc i) (a, s) lt =
    ground (arith, at_least-below h xs i s (omega arith), below-Above h x xs)

search_loop_lem :
    (fuel : ℕ) (f : ℕ → Bool) (n i j k : ℕ)
    → ((m : ℕ) → m < n → f m ≡ leb k m)
    → j ≤ n
    → i ≤ k
    → k ≤ j
    → j - i ≤ fuel
    → search_loop fuel f i j ≡ k
unfolding search_loop
search_loop_lem zero f n i j k test jn ik kj enough = omega arith
search_loop_lem (suc fuel) f n i j k test jn ik kj enough =
    let h = (i + j) / 2 in
    ground (
      arith,
      test h,
      search_loop_lem fuel f n (h + 1) j k test jn,
      search_loop_lem fuel f n i h k test,
    )

pub search-below :
    (h : ℕ) (xs : List ℕ) → IsSorted xs → search (length xs) (at_least h xs) ≡ below h xs
unfolding search
search-below h xs s =
    search_loop_lem (length xs) (at_least h xs) (length xs) 0 (length xs) (below h xs)
      (λ m lt. at_least-below h xs m s lt) (omega arith) (omega arith) (below-le h xs) (omega arith)
