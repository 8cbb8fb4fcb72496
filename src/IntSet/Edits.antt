-- ===== src/IntSet/Edits.antt =====
-- Insertion and removal in an ascending list, by the place of the value.
use red_go.Base.{
  suc, ◌+◌, ◌<◌, true, false, ◌||◌, List, [], ◌∷◌, ◌++◌, length, take, drop, if◌then◌else◌, ℤ,
  ltb_ℤ, ◌≡◌, refl, arith, All,
}
use red_go.IntSet.Order.{
  eq_ℤ, eq_ℤ_iff, ltb_ℤ_irrefl, ltb_ℤ_tri, Above-trans, IsAscending, has_int, below, insert_int,
  remove_int, Above-has_int,
}

pub insert_int-take :
    (v : ℤ) (xs : List ℤ) → insert_int v xs ≡ take (below v xs) xs ++ v ∷ drop (below v xs) xs
insert_int-take v [] = refl
insert_int-take v (x ∷ xs) = ground (arith, insert_int-take v xs)

pub remove_int-take :
    (v : ℤ) (xs : List ℤ)
    → IsAscending xs
    → has_int v xs ≡ true
    → remove_int v xs ≡ take (below v xs) xs ++ drop (suc (below v xs)) xs
remove_int-take v [] h e = absurd (cc)
remove_int-take v (x ∷ xs) (a, h) e = ground (
  arith,
  remove_int-take v xs h,
  eq_ℤ_iff x v,
  ltb_ℤ_irrefl v,
  ltb_ℤ_tri x v,
  Above-has_int x v xs a,
)

pub has_int-insert_int :
    (v j : ℤ) (xs : List ℤ) → has_int j (insert_int v xs) ≡ (eq_ℤ v j || has_int j xs)
has_int-insert_int v j [] = refl
has_int-insert_int v j (x ∷ xs) = ground (arith, has_int-insert_int v j xs)

pub has_int-remove_int :
    (v j : ℤ) (xs : List ℤ)
    → IsAscending xs
    → has_int j (remove_int v xs) ≡ (if eq_ℤ v j then false else has_int j xs)
has_int-remove_int v j [] h = ground arith
has_int-remove_int v j (x ∷ xs) (a, h) = ground (
  arith,
  has_int-remove_int v j xs h,
  eq_ℤ_iff x v,
  eq_ℤ_iff v j,
  eq_ℤ_iff x j,
  ltb_ℤ_irrefl v,
  Above-has_int x v xs a,
)

pub All-insert_int {κ} :
    (P : ℤ → Type κ) (v : ℤ) (xs : List ℤ) → P v → All P xs → All P (insert_int v xs)
All-insert_int P v [] h hs = (h, tt)
All-insert_int P v (x ∷ xs) h (hx, hs) =
    elim (ltb_ℤ x v) as (λ b. All P (if b then x ∷ insert_int v xs else v ∷ x ∷ xs)) [
      | true ↦ (hx, All-insert_int P v xs h hs)
      | false ↦ (h, (hx, hs))
    ]

pub All-remove_int {κ} : (P : ℤ → Type κ) (v : ℤ) (xs : List ℤ) → All P xs → All P (remove_int v xs)
All-remove_int P v [] hs = tt
All-remove_int P v (x ∷ xs) (hx, hs) =
    elim (eq_ℤ x v) as (λ b. All P (if b then xs else x ∷ remove_int v xs)) [
      | true ↦ hs
      | false ↦ (hx, All-remove_int P v xs hs)
    ]

pub insert_int-IsAscending :
    (v : ℤ) (xs : List ℤ) → IsAscending xs → has_int v xs ≡ false → IsAscending (insert_int v xs)
insert_int-IsAscending v [] h e = (tt, tt)
insert_int-IsAscending v (x ∷ xs) (a, h) e = ground (
  arith,
  insert_int-IsAscending v xs h,
  All-insert_int (λ y. ltb_ℤ x y ≡ true) v xs,
  Above-trans v x xs,
  eq_ℤ_iff x v,
  ltb_ℤ_tri x v,
)

pub remove_int-IsAscending : (v : ℤ) (xs : List ℤ) → IsAscending xs → IsAscending (remove_int v xs)
remove_int-IsAscending v [] h = tt
remove_int-IsAscending v (x ∷ xs) (a, h) =
    ground (arith, remove_int-IsAscending v xs h, All-remove_int (λ y. ltb_ℤ x y ≡ true) v xs a)

pub length-insert_int : (v : ℤ) (xs : List ℤ) → length (insert_int v xs) ≡ length xs + 1
length-insert_int v [] = refl
length-insert_int v (x ∷ xs) = ground (arith, length-insert_int v xs)

pub length-remove_int :
    (v : ℤ) (xs : List ℤ) → has_int v xs ≡ true → length xs ≡ length (remove_int v xs) + 1
length-remove_int v [] h = absurd (cc)
length-remove_int v (x ∷ xs) h = ground (arith, length-remove_int v xs)

pub insert_int_last :
    (v : ℤ) (xs : List ℤ) → All (λ x. ltb_ℤ x v ≡ true) xs → insert_int v xs ≡ xs ++ v ∷ []
insert_int_last v [] h = refl
insert_int_last v (x ∷ xs) (hx, h) = rw (hx, insert_int_last v xs h) refl

pub below-lt-length :
    (v : ℤ) (xs : List ℤ) → IsAscending xs → has_int v xs ≡ true → below v xs < length xs
below-lt-length v [] h e = absurd (cc)
below-lt-length v (x ∷ xs) (a, h) e =
    ground (arith, below-lt-length v xs h, eq_ℤ_iff x v, ltb_ℤ_irrefl v)
