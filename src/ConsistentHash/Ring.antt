-- ===== src/ConsistentHash/Ring.antt =====
-- The ring after `AddNodes`: the hashes stay sorted.
use red_go.Base.{ℕ, ◌≤◌, List, [], ◌∷◌, ◌++◌, Bytes, ◌==◌, if◌then◌else◌, ◌≡◌, refl, arith, ap, ◌∙◌}
use red_go.ConsistentHash.{insert, sort_ints, name_of, assign_name}
use red_go.ConsistentHash.Search.{Above, IsSorted}

insert-Above : (b x : ℕ) (xs : List ℕ) → b ≤ x → Above b xs → Above b (insert x xs)
unfolding insert
insert-Above b x [] le h = (le, tt)
insert-Above b x (y ∷ xs) le (a, h) = ground (arith, insert-Above b x xs le h)

Above-trans : (b c : ℕ) (xs : List ℕ) → b ≤ c → Above c xs → Above b xs
Above-trans b c [] le h = tt
Above-trans b c (y ∷ xs) le (a, h) = (omega arith, Above-trans b c xs le h)

pub insert-IsSorted : (x : ℕ) (xs : List ℕ) → IsSorted xs → IsSorted (insert x xs)
unfolding insert
insert-IsSorted x [] h = (tt, tt)
insert-IsSorted x (y ∷ xs) (a, h) =
    ground (arith, insert-IsSorted x xs h, insert-Above y x xs, Above-trans x y xs)

pub sort_ints-IsSorted : (xs : List ℕ) → IsSorted (sort_ints xs)
unfolding sort_ints
sort_ints-IsSorted [] = tt
sort_ints-IsSorted (x ∷ xs) = insert-IsSorted x (sort_ints xs) (sort_ints-IsSorted xs)

insert_comm : (x y : ℕ) (xs : List ℕ) → insert x (insert y xs) ≡ insert y (insert x xs)
unfolding insert
insert_comm x y [] = ground arith
insert_comm x y (z ∷ xs) = ground (arith, insert_comm x y xs)

insert-first : (x : ℕ) (xs : List ℕ) → Above x xs → insert x xs ≡ x ∷ xs
unfolding insert
insert-first x [] h = refl
insert-first x (y ∷ xs) (a, h) = ground arith

-- Sorting a sorted list with one more number behind it inserts that number.
pub sort_ints-snoc : (xs : List ℕ) (x : ℕ) → IsSorted xs → sort_ints (xs ++ x ∷ []) ≡ insert x xs
unfolding sort_ints
sort_ints-snoc [] x h = refl
sort_ints-snoc (y ∷ xs) x (a, h) =
    ap (insert y) (sort_ints-snoc xs x h) ∙ insert_comm y x xs ∙ ap (insert x) (insert-first y xs a)

pub name_of-assign_name :
    (k j : ℕ) (node : Bytes) (m : List (ℕ × Bytes))
    → name_of j (assign_name k node m) ≡ (if k == j then node else name_of j m)
unfolding name_of assign_name
name_of-assign_name k j node [] = refl
name_of-assign_name k j node ((i, old) ∷ m) = ground (arith, name_of-assign_name k j node m)
