-- ===== src/Database/Lists/Index.antt =====
-- LINDEX and LSET walk from the nearer end, and meet the element of the index.
use red_go.Base.{
  ℕ, zero, suc, ◌+◌, ◌-◌, ◌<◌, List, [], ◌∷◌, ◌++◌, some, Bytes, length, reverse, get_elem?, set,
  ◌≡◌, refl, arith, length-append, ap, ◌∙◌, sym,
}
use mathlib.Core.List.{reverse-append, reverse-reverse}
use red_go.Database.Lists.{element_at, replace_at}

get_elem?-append_left :
    (xs ys : List Bytes) (i : ℕ) → i < length xs → get_elem? (xs ++ ys) i ≡ get_elem? xs i
get_elem?-append_left [] ys i h = absurd (omega arith)
get_elem?-append_left (x ∷ xs) ys zero h = refl
get_elem?-append_left (x ∷ xs) ys (suc i) h = get_elem?-append_left xs ys i (omega arith)

get_elem?-snoc : (xs : List Bytes) (y : Bytes) → get_elem? (xs ++ y ∷ []) (length xs) ≡ some y
get_elem?-snoc [] y = refl
get_elem?-snoc (x ∷ xs) y = get_elem?-snoc xs y

pub reverse-cons : (x : Bytes) (xs : List Bytes) → reverse (x ∷ xs) ≡ reverse xs ++ x ∷ []
reverse-cons x xs = reverse-append (x ∷ []) xs

pub length-reverse : (xs : List Bytes) → length (reverse xs) ≡ length xs
length-reverse [] = refl
length-reverse (x ∷ xs) =
    ap length (reverse-cons x xs)
    ∙ omega (arith, length-append (reverse xs) (x ∷ []), length-reverse xs)

-- The element `j` places before the end.
pub get_elem?-reverse :
    (xs : List Bytes) (i j : ℕ) → i + j + 1 ≡ length xs → get_elem? (reverse xs) j ≡ get_elem? xs i
get_elem?-reverse [] i j h = absurd (omega arith)
get_elem?-reverse (x ∷ xs) zero j h =
    let e : j ≡ length (reverse xs) = omega (arith, length-reverse xs) in
    ap (λ l. get_elem? l j) (reverse-cons x xs)
    ∙ ap (get_elem? (reverse xs ++ x ∷ [])) e
    ∙ get_elem?-snoc (reverse xs) x
get_elem?-reverse (x ∷ xs) (suc i) j h =
    ap (λ l. get_elem? l j) (reverse-cons x xs)
    ∙ get_elem?-append_left (reverse xs) (x ∷ []) j (omega (arith, length-reverse xs))
    ∙ get_elem?-reverse xs i j (omega arith)

-- For every index in range, the walk of LINDEX, from the front or from the back, ends at the element
-- with that index.
pub element_at-get_elem? : (l : List Bytes) (i : ℕ) → i < length l → element_at l i ≡ get_elem? l i
unfolding element_at
element_at-get_elem? l i h = ground (arith, get_elem?-reverse l i (length l - 1 - i))

set-append_left :
    (xs ys : List Bytes) (i : ℕ) (v : Bytes) → i < length xs → set (xs ++ ys) i v ≡ set xs i v ++ ys
set-append_left [] ys i v h = absurd (omega arith)
set-append_left (x ∷ xs) ys zero v h = refl
set-append_left (x ∷ xs) ys (suc i) v h = ap (◌∷◌ x) (set-append_left xs ys i v (omega arith))

set-snoc : (xs : List Bytes) (y v : Bytes) → set (xs ++ y ∷ []) (length xs) v ≡ xs ++ v ∷ []
set-snoc [] y v = refl
set-snoc (x ∷ xs) y v = ap (◌∷◌ x) (set-snoc xs y v)

set-reverse :
    (xs : List Bytes) (i j : ℕ) (v : Bytes)
    → i + j + 1 ≡ length xs
    → set (reverse xs) j v ≡ reverse (set xs i v)
set-reverse [] i j v h = absurd (omega arith)
set-reverse (x ∷ xs) zero j v h =
    let e : j ≡ length (reverse xs) = omega (arith, length-reverse xs) in
    ap (λ l. set l j v) (reverse-cons x xs)
    ∙ ap (λ k. set (reverse xs ++ x ∷ []) k v) e
    ∙ set-snoc (reverse xs) x v
    ∙ sym (reverse-cons v xs)
set-reverse (x ∷ xs) (suc i) j v h =
    ap (λ l. set l j v) (reverse-cons x xs)
    ∙ set-append_left (reverse xs) (x ∷ []) j v (omega (arith, length-reverse xs))
    ∙ ap (λ l. l ++ x ∷ []) (set-reverse xs i j v (omega arith))
    ∙ sym (reverse-cons x (set xs i v))

-- For every index in range, LSET replaces the element with that index and no other.
pub replace_at-set :
    (l : List Bytes) (i : ℕ) (v : Bytes) → i < length l → replace_at l i v ≡ set l i v
unfolding replace_at
replace_at-set l i v h =
    ground (arith, set-reverse l i (length l - 1 - i) v, reverse-reverse (set l i v))
