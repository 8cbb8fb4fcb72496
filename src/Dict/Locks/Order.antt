-- ===== src/Dict/Locks/Order.antt =====
-- `sort.Slice` of distinct indices, ascending and descending.
use red_go.Base.{
  ℕ, ◌<◌, Bool, true, false, ◌||◌, List, [], ◌∷◌, ◌++◌, Bytes, ltb, ◌==◌, ◌≡◌, ◌≢◌, refl, arith, ap,
  ◌∙◌, sym, reverse, All, inl, inr, Bool-cases,
}
use mathlib.Core.List.{reverse-append}
use red_go.Dict.Locks.{has_index, index_set, insert_index, sort_slice}

-- Every index of the list is larger than the one before it.
abbrev pub IsAscending : List ℕ → Type 0
IsAscending [] = Unit
IsAscending (i ∷ is) = All (λ j. i < j) is × IsAscending is

-- No index stands twice.
abbrev pub IsDistinct : List ℕ → Type 0
IsDistinct [] = Unit
IsDistinct (i ∷ is) = (has_index i is ≡ false) × IsDistinct is

pub index_set-IsDistinct : (size : ℕ) (keys : List Bytes) → IsDistinct (index_set size keys)
unfolding index_set
index_set-IsDistinct size [] = tt
index_set-IsDistinct size (key ∷ keys) = ground (arith, index_set-IsDistinct size keys)

has_index-insert_index :
    (r : Bool) (i j : ℕ) (is : List ℕ)
    → has_index j (insert_index r i is) ≡ (i == j || has_index j is)
unfolding has_index insert_index
has_index-insert_index r i j [] = refl
has_index-insert_index r i j (k ∷ is) = ground (arith, has_index-insert_index r i j is)

pub has_index-sort_slice :
    (r : Bool) (j : ℕ) (is : List ℕ) → has_index j (sort_slice r is) ≡ has_index j is
unfolding has_index sort_slice
has_index-sort_slice r j [] = refl
has_index-sort_slice r j (i ∷ is) =
    ground (arith, has_index-insert_index r i j (sort_slice r is), has_index-sort_slice r j is)

All-lt_trans : (i j : ℕ) (is : List ℕ) → i < j → All (λ k. j < k) is → All (λ k. i < k) is
All-lt_trans i j [] lt h = tt
All-lt_trans i j (k ∷ is) lt (a, h) = (omega arith, All-lt_trans i j is lt h)

All-lt-insert_index :
    (k i : ℕ) (is : List ℕ)
    → k < i
    → All (λ j. k < j) is
    → All (λ j. k < j) (insert_index false i is)
unfolding insert_index
All-lt-insert_index k i [] lt h = (lt, tt)
All-lt-insert_index k i (j ∷ is) lt (a, h) = ground (arith, All-lt-insert_index k i is lt h)

insert_index-IsAscending :
    (i : ℕ) (is : List ℕ)
    → has_index i is ≡ false
    → IsAscending is
    → IsAscending (insert_index false i is)
unfolding insert_index has_index
insert_index-IsAscending i [] out h = (tt, tt)
insert_index-IsAscending i (j ∷ is) out (a, h) =
    ground (arith, insert_index-IsAscending i is, All-lt-insert_index j i is, All-lt_trans i j is)

pub sort_slice-IsAscending : (is : List ℕ) → IsDistinct is → IsAscending (sort_slice false is)
unfolding sort_slice
sort_slice-IsAscending [] h = tt
sort_slice-IsAscending (i ∷ is) (out, h) =
    insert_index-IsAscending i (sort_slice false is) (has_index-sort_slice false i is ∙ out)
      (sort_slice-IsAscending is h)

-- Insertion in descending order, behind larger indices and before a smaller one
insert_index-snoc :
    (i j : ℕ) (is : List ℕ)
    → j < i
    → insert_index true i (is ++ j ∷ []) ≡ insert_index true i is ++ j ∷ []
unfolding insert_index
insert_index-snoc i j [] lt = ground arith
insert_index-snoc i j (k ∷ is) lt = ground (arith, insert_index-snoc i j is lt)

insert_index_last :
    (i : ℕ) (is : List ℕ) → All (λ k. i < k) is → insert_index true i is ≡ is ++ i ∷ []
unfolding insert_index
insert_index_last i [] h = refl
insert_index_last i (k ∷ is) (a, h) = ground (arith, insert_index_last i is h)

All-append : (P : ℕ → Type 0) (is js : List ℕ) → All P is → All P js → All P (is ++ js)
All-append P [] js h h' = h'
All-append P (i ∷ is) js (a, h) h' = (a, All-append P is js h h')

pub reverse-cons : (i : ℕ) (is : List ℕ) → reverse (i ∷ is) ≡ reverse is ++ i ∷ []
reverse-cons i is = reverse-append (i ∷ []) is

All-reverse : (P : ℕ → Type 0) (is : List ℕ) → All P is → All P (reverse is)
All-reverse P [] h = tt
All-reverse P (i ∷ is) (a, h) =
    rw (reverse-cons i is) (All-append P (reverse is) (i ∷ []) (All-reverse P is h) (a, tt))

insert_index_before : (i j : ℕ) (is : List ℕ) → i < j → insert_index false i (j ∷ is) ≡ i ∷ j ∷ is
unfolding insert_index
insert_index_before i j is lt = ground arith

insert_index_after :
    (i j : ℕ) (is : List ℕ)
    → ltb i j ≡ false
    → insert_index false i (j ∷ is) ≡ j ∷ insert_index false i is
unfolding insert_index
insert_index_after i j is e = ground arith

has_index-cons :
    (i j : ℕ) (is : List ℕ) → has_index i (j ∷ is) ≡ false → (i ≢ j) × (has_index i is ≡ false)
unfolding has_index
has_index-cons i j is h = (ground arith, ground arith)

insert_index-reverse :
    (i : ℕ) (is : List ℕ)
    → has_index i is ≡ false
    → IsAscending is
    → insert_index true i (reverse is) ≡ reverse (insert_index false i is)
unfolding insert_index
insert_index-reverse i [] out h = refl
insert_index-reverse i (j ∷ is) out (a, h) = elim (Bool-cases (ltb i j)) [
  | inl lt ↦
      let before : i < j = ground arith in
      insert_index_last i (reverse (j ∷ is))
        (All-reverse (λ k. i < k) (j ∷ is) (before, All-lt_trans i j is before a))
      ∙ sym (reverse-cons i (j ∷ is))
      ∙ ap reverse (sym (insert_index_before i j is before))
  | inr ge ↦
      let (ne, out') = has_index-cons i j is out in
      let after : j < i = ground arith in
      ap (insert_index true i) (reverse-cons j is)
      ∙ insert_index-snoc i j (reverse is) after
      ∙ ap (λ l. l ++ j ∷ []) (insert_index-reverse i is out' h)
      ∙ sym (reverse-cons j (insert_index false i is))
      ∙ ap reverse (sym (insert_index_after i j is ge))
]

pub sort_slice-reverse :
    (is : List ℕ) → IsDistinct is → sort_slice true is ≡ reverse (sort_slice false is)
unfolding sort_slice
sort_slice-reverse [] h = refl
sort_slice-reverse (i ∷ is) (out, h) =
    ap (insert_index true i) (sort_slice-reverse is h)
    ∙ insert_index-reverse i (sort_slice false is) (has_index-sort_slice false i is ∙ out)
        (sort_slice-IsAscending is h)
