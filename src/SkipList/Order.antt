-- ===== src/SkipList/Order.antt =====
-- Ascending lists of items: the place of an item, insertion and removal.
use red_go.Base.{
  ◌≤◌, Bool, true, false, ◌||◌, List, [], ◌∷◌, ◌++◌, length, if◌then◌else◌, ◌≡◌, inl, inr, refl, ap,
  arith, All, Bool-cases,
}
use red_go.Score.{
  Score, Item, before, equals, before_asym, before_cotrans, before_tri, equals_not_before,
  equals_not_after,
}

module _ {ℓ} {A : Type ℓ} (test : A → Bool) where
  -- The elements before the first that fails the test, and the others
  abbrev pub take_while : List A → List A
  take_while [] = []
  take_while (x ∷ xs) = if test x then x ∷ take_while xs else []

  abbrev pub drop_while : List A → List A
  drop_while [] = []
  drop_while (x ∷ xs) = if test x then drop_while xs else x ∷ xs

  pub take_while-drop_while : (xs : List A) → take_while xs ++ drop_while xs ≡ xs
  take_while-drop_while [] = refl
  take_while-drop_while (x ∷ xs) = ground (arith, take_while-drop_while xs)

  pub length-take_while : (xs : List A) → length (take_while xs) ≤ length xs
  length-take_while [] = omega arith
  length-take_while (x ∷ xs) = ground (arith, length-take_while xs)

  pub All-take_while : (xs : List A) → All (λ x. test x ≡ true) (take_while xs)
  All-take_while [] = tt
  All-take_while (x ∷ xs) = elim (Bool-cases (test x)) [
    | inl t ↦ rw t (t, All-take_while xs)
    | inr t ↦ rw t tt
  ]

module _ {ℓ} {F : Type ℓ} ⦃f : Score F⦄ where
  -- No item stands behind a greater one.
  abbrev pub IsAscending : List (Item F) → Type 0
  IsAscending [] = Unit
  IsAscending (x ∷ xs) = All (λ y. before y x ≡ false) xs × IsAscending xs

  -- Insertion before the first item that is not less
  unfoldable pub insert_item : Item F → List (Item F) → List (Item F)
  insert_item x [] = x ∷ []
  insert_item x (y ∷ ys) = if before y x then y ∷ insert_item x ys else x ∷ y ∷ ys

  unfoldable pub has_item : Item F → List (Item F) → Bool
  has_item x [] = false
  has_item x (y ∷ ys) = equals y x || has_item x ys

  -- The first item that equals `x` removed
  unfoldable pub remove_item : Item F → List (Item F) → List (Item F)
  remove_item x [] = []
  remove_item x (y ∷ ys) = if equals y x then ys else y ∷ remove_item x ys

  -- A test that, once it fails, fails on all greater items
  abbrev pub IsCut : (Item F → Bool) → Type ℓ
  IsCut test = (x y : Item F) → before y x ≡ false → test x ≡ false → test y ≡ false

  pub before-IsCut : (x : Item F) → IsCut (λ y. before y x)
  before-IsCut x y z h k = ground (arith, before_cotrans z y x)

  pub less-IsCut : (min : F) → IsCut (λ y. f.less y.score min)
  less-IsCut min y z h k = ground (arith, f.less_cotrans z.score y.score min)

  All-cut :
      (test : Item F → Bool) (x : Item F) (ys : List (Item F))
      → IsCut test
      → test x ≡ false
      → All (λ y. before y x ≡ false) ys
      → All (λ y. test y ≡ false) ys
  All-cut test x [] cut h a = tt
  All-cut test x (y ∷ ys) cut h (ay, a) = (cut x y ay h, All-cut test x ys cut h a)

  pub All-drop_while :
      (test : Item F → Bool) (xs : List (Item F))
      → IsCut test
      → IsAscending xs
      → All (λ y. test y ≡ false) (drop_while test xs)
  All-drop_while test [] cut a = tt
  All-drop_while test (x ∷ xs) cut (ax, a) = elim (Bool-cases (test x)) [
    | inl t ↦ rw t (All-drop_while test xs cut a)
    | inr t ↦ rw t (t, All-cut test x xs cut t ax)
  ]

  pub insert_item-while :
      (x : Item F) (ys : List (Item F))
      → insert_item x ys ≡ take_while (λ y. before y x) ys ++ x ∷ drop_while (λ y. before y x) ys
  unfolding insert_item
  insert_item-while x [] = refl
  insert_item-while x (y ∷ ys) = elim (Bool-cases (before y x)) [
    | inl t ↦ rw (t, insert_item-while x ys) refl
    | inr t ↦ rw t refl
  ]

  All-insert_item :
      (P : Item F → Type 0) (x : Item F) (ys : List (Item F))
      → P x
      → All P ys
      → All P (insert_item x ys)
  unfolding insert_item
  All-insert_item P x [] h hs = (h, tt)
  All-insert_item P x (y ∷ ys) h (hy, hs) = elim (Bool-cases (before y x)) [
    | inl t ↦ rw t (hy, All-insert_item P x ys h hs)
    | inr t ↦ rw t (h, (hy, hs))
  ]

  pub insert_item-IsAscending :
      (x : Item F) (ys : List (Item F)) → IsAscending ys → IsAscending (insert_item x ys)
  unfolding insert_item
  insert_item-IsAscending x [] a = (tt, tt)
  insert_item-IsAscending x (y ∷ ys) (ay, a) = elim (Bool-cases (before y x)) [
    | inl t ↦ rw t (
      All-insert_item (λ z. before z y ≡ false) x ys (before_asym y x t) ay,
      insert_item-IsAscending x ys a,
    )
    | inr t ↦ rw t ((t, All-cut (λ z. before z x) y ys (before-IsCut x) t ay), (ay, a))
  ]

  All-remove_item :
      (P : Item F → Type 0) (x : Item F) (ys : List (Item F)) → All P ys → All P (remove_item x ys)
  unfolding remove_item
  All-remove_item P x [] hs = tt
  All-remove_item P x (y ∷ ys) (hy, hs) = elim (Bool-cases (equals y x)) [
    | inl t ↦ rw t hs
    | inr t ↦ rw t (hy, All-remove_item P x ys hs)
  ]

  pub remove_item-IsAscending :
      (x : Item F) (ys : List (Item F)) → IsAscending ys → IsAscending (remove_item x ys)
  unfolding remove_item
  remove_item-IsAscending x [] a = tt
  remove_item-IsAscending x (y ∷ ys) (ay, a) = elim (Bool-cases (equals y x)) [
    | inl t ↦ rw t a
    | inr t ↦
        rw t (All-remove_item (λ z. before z y ≡ false) x ys ay, remove_item-IsAscending x ys a)
  ]

  pub remove_item_absent :
      (x : Item F) (ys : List (Item F)) → has_item x ys ≡ false → remove_item x ys ≡ ys
  unfolding has_item remove_item
  remove_item_absent x [] h = refl
  remove_item_absent x (y ∷ ys) h = elim (Bool-cases (equals y x)) [
    | inl t ↦ absurd (ground arith)
    | inr t ↦ rw t (ap (◌∷◌ y) (remove_item_absent x ys (ground arith)))
  ]

  absent_above :
      (x y : Item F) (ys : List (Item F))
      → before x y ≡ true
      → All (λ z. before z y ≡ false) ys
      → has_item x ys ≡ false
  unfolding has_item
  absent_above x y [] h a = refl
  absent_above x y (z ∷ ys) h (az, a) = ground (
    arith,
    absent_above x y ys h a,
    before_cotrans x z y,
    equals_not_before z x,
    equals_not_after z x,
  )

  -- An item that differs from the first that is not less is not in the list.
  pub absent_lem :
      (x y : Item F) (ys : List (Item F))
      → IsAscending (y ∷ ys)
      → before y x ≡ false
      → equals y x ≡ false
      → has_item x (y ∷ ys) ≡ false
  unfolding has_item
  absent_lem x y ys (ay, a) h e = ground (arith, absent_above x y ys, before_tri y x)

  -- The lesser items do not matter to a removal.
  pub has_item-append :
      (x : Item F) (xs ys : List (Item F))
      → All (λ y. before y x ≡ true) xs
      → (has_item x (xs ++ ys) ≡ has_item x ys)
        × (remove_item x (xs ++ ys) ≡ xs ++ remove_item x ys)
  unfolding has_item remove_item
  has_item-append x [] ys h = (refl, refl)
  has_item-append x (z ∷ xs) ys (hz, h) =
      let (a, b) = has_item-append x xs ys h in
      let e : equals z x ≡ false = ground (arith, equals_not_before z x) in rw e (a, ap (◌∷◌ z) b)

  pub has_item-nil : (x : Item F) → has_item x [] ≡ false
  unfolding has_item
  has_item-nil x = refl

  pub has_item_first :
      (x y : Item F) (ys : List (Item F)) → equals y x ≡ true → has_item x (y ∷ ys) ≡ true
  unfolding has_item
  has_item_first x y ys e = rw e refl

  pub IsAscending-append : (xs ys : List (Item F)) → IsAscending (xs ++ ys) → IsAscending ys
  IsAscending-append [] ys a = a
  IsAscending-append (x ∷ xs) ys (_, a) = IsAscending-append xs ys a
