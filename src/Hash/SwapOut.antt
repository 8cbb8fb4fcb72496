-- ===== src/Hash/SwapOut.antt =====
-- The deletion of `Delete` from a listpack: the last entry takes the place of the deleted one.
use red_go.Base.{
  ℕ, zero, suc, ◌+◌, ◌-◌, ◌<◌, List, [], ◌∷◌, none, some, Bytes, length, get_elem?, set, take, true,
  if◌then◌else◌, eq_bytes, eq_bytes_iff, ◌≡◌, refl, arith, ap, ◌∙◌,
}
use red_go.GoMap.{has, Distinct, lookup}
use red_go.Hash.{index_of, swap_out}

abbrev Entry : Type 0
Entry = Bytes × Bytes

last : Entry → List Entry → Entry
last x [] = x
last x (y ∷ l) = last y l

front : Entry → List Entry → List Entry
front x [] = []
front x (y ∷ l) = x ∷ front y l

get_elem?-last : (x : Entry) (l : List Entry) → get_elem? (x ∷ l) (length l) ≡ some (last x l)
unfolding last
get_elem?-last x [] = refl
get_elem?-last x (y ∷ l) = get_elem?-last y l

take-front : (x : Entry) (l : List Entry) → take (length l) (x ∷ l) ≡ front x l
unfolding front
take-front x [] = refl
take-front x (y ∷ l) = ap (◌∷◌ x) (take-front y l)

-- `swap_out` of an index in the list, by recursion
swapped : ℕ → Entry → List Entry → List Entry
swapped zero x [] = []
swapped zero x (y ∷ l) = last y l ∷ front y l
swapped (suc i) x [] = x ∷ []
swapped (suc i) x (y ∷ l) = x ∷ swapped i y l

take-set :
    (i : ℕ) (x : Entry) (l : List Entry)
    → i < length (x ∷ l)
    → take (length l) (set (x ∷ l) i (last x l)) ≡ swapped i x l
unfolding last front swapped
take-set zero x [] h = refl
take-set zero x (y ∷ l) h = ap (◌∷◌ (last y l)) (take-front y l)
take-set (suc i) x [] h = absurd (omega arith)
take-set (suc i) x (y ∷ l) h = ap (◌∷◌ x) (take-set i y l (omega arith))

swap_out_at :
    (i n : ℕ) (l : List Entry) (e : Entry)
    → length l - 1 ≡ n
    → get_elem? l n ≡ some e
    → swap_out i l ≡ take n (set l i e)
unfolding swap_out
swap_out_at i n l e p q = ground arith

swap_out-swapped :
    (i : ℕ) (x : Entry) (l : List Entry) → i < length (x ∷ l) → swap_out i (x ∷ l) ≡ swapped i x l
unfolding swap_out
swap_out-swapped i x l h =
    let e : suc (length l) - 1 ≡ length l = omega arith in
    swap_out_at i (length l) (x ∷ l) (last x l) e (get_elem?-last x l) ∙ take-set i x l h

index_of-lt : (f : Bytes) (l : List Entry) (i : ℕ) → index_of f l ≡ some i → i < length l
unfolding index_of
index_of-lt f [] i h = ground arith
index_of-lt f (e ∷ l) zero h = omega arith
index_of-lt f (e ∷ l) (suc i) h = ground (arith, index_of-lt f l i)

lookup-last-front :
    (g : Bytes) (y : Entry) (l : List Entry)
    → Distinct (y ∷ l)
    → lookup g (last y l ∷ front y l) ≡ lookup g (y ∷ l)
unfolding last front lookup
lookup-last-front g y [] h = refl
lookup-last-front g y (z ∷ l) (absent, h) = ground (
  arith,
  lookup-last-front g z l h,
  lookup-last-front (last z l).0 z l h,
  eq_bytes_iff (last z l).0 (last z l).0,
  eq_bytes_iff (last z l).0 y.0,
  eq_bytes_iff (last z l).0 g,
  eq_bytes_iff y.0 g,
)

front-Distinct :
    (y : Entry) (l : List Entry)
    → Distinct (y ∷ l)
    → (lookup (last y l).0 (front y l) ≡ none) × Distinct (front y l)
unfolding last front lookup
front-Distinct y [] h = (refl, tt)
front-Distinct y (z ∷ l) (absent, h) =
    let (gone, rest) = front-Distinct z l h in
    ground (
      arith,
      lookup-last-front y.0 z l h,
      lookup-last-front (last z l).0 z l h,
      eq_bytes_iff (last z l).0 (last z l).0,
      eq_bytes_iff (last z l).0 y.0,
      eq_bytes_iff y.0 (last z l).0,
    )

lookup-swapped :
    (f g : Bytes) (i : ℕ) (x : Entry) (l : List Entry)
    → Distinct (x ∷ l)
    → index_of f (x ∷ l) ≡ some i
    → lookup g (swapped i x l) ≡ (if eq_bytes f g then none else lookup g (x ∷ l))
unfolding swapped index_of lookup
lookup-swapped f g zero x [] h e =
    ground (arith, eq_bytes_iff x.0 f, eq_bytes_iff x.0 g, eq_bytes_iff f g)
lookup-swapped f g zero x (y ∷ l) (absent, h) e =
    ground
      (arith, eq_bytes_iff x.0 f, eq_bytes_iff x.0 g, eq_bytes_iff f g, lookup-last-front g y l h)
lookup-swapped f g (suc i) x [] (absent, h) e = ground arith
lookup-swapped f g (suc i) x (y ∷ l) (absent, h) e =
    ground
      (arith, eq_bytes_iff x.0 f, eq_bytes_iff x.0 g, eq_bytes_iff f g, lookup-swapped f g i y l h)

swapped-Distinct :
    (f : Bytes) (i : ℕ) (x : Entry) (l : List Entry)
    → Distinct (x ∷ l)
    → index_of f (x ∷ l) ≡ some i
    → Distinct (swapped i x l)
unfolding swapped index_of
swapped-Distinct f zero x [] h e = tt
swapped-Distinct f zero x (y ∷ l) (absent, h) e = front-Distinct y l h
swapped-Distinct f (suc i) x [] h e = h
swapped-Distinct f (suc i) x (y ∷ l) (absent, h) e =
    ground (arith, lookup-swapped f x.0 i y l h, swapped-Distinct f i y l h)

length-front : (y : Entry) (l : List Entry) → length (front y l) ≡ length l
unfolding front
length-front y [] = refl
length-front y (z ∷ l) = ap suc (length-front z l)

length-swapped :
    (i : ℕ) (x : Entry) (l : List Entry) → i < length (x ∷ l) → length (swapped i x l) ≡ length l
unfolding swapped
length-swapped zero x [] h = refl
length-swapped zero x (y ∷ l) h = ap suc (length-front y l)
length-swapped (suc i) x [] h = absurd (omega arith)
length-swapped (suc i) x (y ∷ l) h = ap suc (length-swapped i y l (omega arith))

pub index_of_absent : (f : Bytes) (l : List Entry) → index_of f l ≡ none → lookup f l ≡ none
unfolding index_of lookup
index_of_absent f [] h = refl
index_of_absent f (e ∷ l) h = ground (arith, index_of_absent f l)

pub index_of_present :
    (f : Bytes) (l : List Entry) (i : ℕ) → index_of f l ≡ some i → has (lookup f l) ≡ true
unfolding index_of lookup
index_of_present f [] i h = ground arith
index_of_present f (e ∷ l) zero h = ground arith
index_of_present f (e ∷ l) (suc i) h = ground (arith, index_of_present f l i)

-- The entry is gone, the others are there as before, no key stands twice, and the list is shorter
-- by one.
pub swap_out_lem :
    (f g : Bytes) (l : List Entry) (i : ℕ)
    → Distinct l
    → index_of f l ≡ some i
    → (lookup g (swap_out i l) ≡ (if eq_bytes f g then none else lookup g l))
      × Distinct (swap_out i l)
      × (length l ≡ length (swap_out i l) + 1)
swap_out_lem f g [] i h e = absurd (omega (arith, index_of-lt f [] i e))
swap_out_lem f g (x ∷ l) i h e =
    let inside = index_of-lt f (x ∷ l) i e in
    rw (swap_out-swapped i x l inside) (
      lookup-swapped f g i x l h e,
      swapped-Distinct f i x l h e,
      omega (arith, length-swapped i x l inside),
    )
