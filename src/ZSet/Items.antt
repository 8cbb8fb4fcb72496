-- ===== src/ZSet/Items.antt =====
-- Insertion and removal in an ordered list of items, read as a map from members to scores.
use red_go.Base.{
  ◌+◌, true, false, List, [], ◌∷◌, none, some, Bytes, length, map, eq_bytes, eq_bytes_iff,
  eq_bytes_refl, if◌then◌else◌, ◌≡◌, inl, inr, refl, arith, Bool-cases,
}
use red_go.GoMap.{GoMap, lookup, Distinct}
use red_go.Score.{Score, Item, before, equals}
use red_go.SkipList.Order.{insert_item, remove_item}

abbrev pub as_map : {F : Type 0} → List (Item F) → GoMap F
as_map = map (λ x. (x.member, x.score))

module _ {F : Type 0} ⦃f : Score F⦄ where
  pub lookup-insert_item :
      (k : Bytes) (x : Item F) (ys : List (Item F))
      → lookup x.member (as_map ys) ≡ none
      → lookup k (as_map (insert_item x ys))
        ≡ (if eq_bytes x.member k then some x.score else lookup k (as_map ys))
  unfolding lookup insert_item
  lookup-insert_item k x [] h = refl
  lookup-insert_item k x (y ∷ ys) h = ground (
    arith,
    lookup-insert_item k x ys,
    eq_bytes_iff x.member k,
    eq_bytes_iff y.member k,
    eq_bytes_iff y.member x.member,
  )

  pub insert_item-Distinct :
      (x : Item F) (ys : List (Item F))
      → lookup x.member (as_map ys) ≡ none
      → Distinct (as_map ys)
      → Distinct (as_map (insert_item x ys))
  unfolding lookup insert_item
  insert_item-Distinct x [] h d = (refl, tt)
  insert_item-Distinct x (y ∷ ys) h (absent, d) = elim (Bool-cases (before y x)) [
    | inl t ↦
        let hx : lookup x.member (as_map ys) ≡ none = ground arith in
        rw t (
          ground (
            arith,
            lookup-insert_item y.member x ys hx,
            eq_bytes_iff x.member y.member,
            eq_bytes_refl x.member,
            h,
          ),
          insert_item-Distinct x ys hx d,
        )
    | inr t ↦ rw t (h, (absent, d))
  ]

  pub length-insert_item :
      (x : Item F) (ys : List (Item F)) → length (insert_item x ys) ≡ length ys + 1
  unfolding insert_item
  length-insert_item x [] = refl
  length-insert_item x (y ∷ ys) = ground (arith, length-insert_item x ys)

  same_refl : (a : F) → f.same a a ≡ true
  same_refl a = ground (arith, f.same_less a a, f.less_asym a a)

  pub equals_here :
      (x y : Item F) → eq_bytes y.member x.member ≡ true → y.score ≡ x.score → equals y x ≡ true
  equals_here x y e s = rw (e, s) (ground (arith, same_refl x.score))

  -- The removal of an item whose member has that score
  pub lookup-remove_item :
      (k : Bytes) (x : Item F) (ys : List (Item F))
      → Distinct (as_map ys)
      → lookup x.member (as_map ys) ≡ some x.score
      → lookup k (as_map (remove_item x ys))
        ≡ (if eq_bytes x.member k then none else lookup k (as_map ys))
  unfolding lookup remove_item
  lookup-remove_item k x [] d h = absurd (cc)
  lookup-remove_item k x (y ∷ ys) (absent, d) h = elim (Bool-cases (eq_bytes y.member x.member)) [
    | inl e ↦ ground (
      arith,
      equals_here x y e,
      absent,
      eq_bytes_iff x.member k,
      eq_bytes_iff y.member k,
      eq_bytes_iff y.member x.member,
    )
    | inr e ↦ ground (
      arith,
      lookup-remove_item k x ys d,
      eq_bytes_iff x.member k,
      eq_bytes_iff y.member k,
      eq_bytes_iff y.member x.member,
    )
  ]

  pub remove_item-Distinct :
      (x : Item F) (ys : List (Item F))
      → Distinct (as_map ys)
      → lookup x.member (as_map ys) ≡ some x.score
      → Distinct (as_map (remove_item x ys))
  unfolding lookup remove_item
  remove_item-Distinct x [] d h = absurd (cc)
  remove_item-Distinct x (y ∷ ys) (absent, d) h = elim (Bool-cases (eq_bytes y.member x.member)) [
    | inl e ↦ let t : equals y x ≡ true = equals_here x y e (ground arith) in rw t d
    | inr e ↦
        let t : equals y x ≡ false = ground arith in
        let hx : lookup x.member (as_map ys) ≡ some x.score = ground arith in
        rw t (ground (arith, lookup-remove_item y.member x ys d hx), remove_item-Distinct x ys d hx)
  ]

  pub length-remove_item :
      (x : Item F) (ys : List (Item F))
      → lookup x.member (as_map ys) ≡ some x.score
      → length ys ≡ length (remove_item x ys) + 1
  unfolding lookup remove_item
  length-remove_item x [] h = absurd (cc)
  length-remove_item x (y ∷ ys) h = elim (Bool-cases (eq_bytes y.member x.member)) [
    | inl e ↦ ground (arith, equals_here x y e)
    | inr e ↦ ground (arith, length-remove_item x ys)
  ]
