-- ===== src/SkipList/Search.antt =====
-- The search of a skip list: on each level, the last node before the first that fails the test.
use red_go.Base.{
  ℕ, zero, suc, ◌+◌, ◌-◌, ◌<◌, ◌≤◌, Bool, true, false, ◌||◌, List, [], ◌∷◌, ◌++◌, some, length,
  get_elem?, replicate, ltb, if◌then◌else◌, ◌≡◌, inl, inr, refl, ap, ◌∙◌, subst, arith, All,
  Bool-cases, length-append, ltb→lt,
}
use red_go.Score.{Item}
use red_go.SkipList.{SkipList, walk, descend}
use red_go.SkipList.Levels.{Entry, last_at, Linked, Level, Matches, walk_lem}

module _ {ℓ} {F : Type ℓ} where
  has_at : ℕ → List (Entry F) → Bool
  has_at i [] = false
  has_at i (e ∷ es) = ltb i e.height || has_at i es

  -- What stands behind the last node of level `i`
  unfoldable behind : ℕ → List (Entry F) → List (Entry F)
  unfolding has_at
  behind i [] = []
  behind i (e ∷ es) = if has_at i es then behind i es else if ltb i e.height then es else e ∷ es

  last_at_none : (i x : ℕ) (es : List (Entry F)) → has_at i es ≡ false → last_at i x es ≡ x
  unfolding has_at
  last_at_none i x [] h = refl
  last_at_none i x (e ∷ es) h = ground (arith, last_at_none i x es)

  last_at_any :
      (i x y : ℕ) (es : List (Entry F)) → has_at i es ≡ true → last_at i x es ≡ last_at i y es
  unfolding has_at
  last_at_any i x y [] h = absurd (cc)
  last_at_any i x y (e ∷ es) h = ground (arith, last_at_any i x y es)

  has_at-le : (i j : ℕ) (es : List (Entry F)) → j ≤ i → has_at i es ≡ true → has_at j es ≡ true
  unfolding has_at
  has_at-le i j [] le h = h
  has_at-le i j (e ∷ es) le h = ground (arith, has_at-le i j es le)

  last_at-behind :
      (i j x : ℕ) (es : List (Entry F))
      → j ≤ i
      → last_at j (last_at i x es) (behind i es) ≡ last_at j x es
  unfolding behind
  last_at-behind i j x [] le = refl
  last_at-behind i j x (e ∷ es) le = ground (
    arith,
    last_at-behind i j x es le,
    last_at-behind i j e.ptr es le,
    last_at_none i x es,
    last_at_none i e.ptr es,
    last_at_any j x e.ptr es,
    has_at-le i j es le,
  )

  length-behind : (i : ℕ) (es : List (Entry F)) → length (behind i es) ≤ length es
  unfolding behind
  length-behind i [] = omega arith
  length-behind i (e ∷ es) = ground (arith, length-behind i es)

  All-behind {κ} :
      (P : Entry F → Type κ) (i : ℕ) (es : List (Entry F)) → All P es → All P (behind i es)
  unfolding behind
  All-behind P i [] h = tt
  All-behind P i (e ∷ es) (he, h) =
      elim (has_at i es)
        as (λ b. All P (if b then behind i es else if ltb i e.height then es else e ∷ es)) [
          | true ↦ All-behind P i es h
          | false ↦ elim (ltb i e.height) as (λ b. All P (if b then es else e ∷ es)) [
            | true ↦ h
            | false ↦ (he, h)
          ]
        ]

  -- A node and those behind it on a level
  abbrev pub From : SkipList F → ℕ → ℕ → List (Entry F) → Type 0
  From s j x es = Linked s j x es × Level s j es

  From-behind :
      (s : SkipList F) (i j x : ℕ) (before after : List (Entry F))
      → j ≤ i
      → From s j x (before ++ after)
      → From s j (last_at i x before) (behind i before ++ after)
  unfolding behind
  From-behind s i j x [] after le h = h
  From-behind s i j x (e ∷ es) after le (link, (le', l)) = elim (Bool-cases (has_at i es)) [
    | inl h ↦ rw h (elim (Bool-cases (ltb j e.height)) [
      | inl t ↦
          subst (λ y. From s j y (behind i es ++ after))
            (ground (arith, last_at_any i x e.ptr es h))
            (From-behind s i j e.ptr es after le (le' t, l))
      | inr t ↦
          subst (λ y. From s j y (behind i es ++ after)) (ground arith)
            (From-behind s i j x es after le (link ∙ ap some (rw t refl), l))
    ])
    | inr h ↦ rw h (elim (Bool-cases (ltb i e.height)) [
      | inl t ↦ rw (t, last_at_none i e.ptr es h) (le' (ground arith), l)
      | inr t ↦ rw (t, last_at_none i x es h) (link, (le', l))
    ])
  ]

  -- The nodes that a search finds, from level 0 to the level below `k`
  unfoldable pub lasts : ℕ → ℕ → List (Entry F) → List ℕ
  lasts zero x es = []
  lasts (suc k) x es = lasts k x es ++ last_at k x es ∷ []

  lasts-behind :
      (i k x : ℕ) (es : List (Entry F))
      → k ≤ i
      → lasts k (last_at i x es) (behind i es) ≡ lasts k x es
  unfolding lasts
  lasts-behind i zero x es le = refl
  lasts-behind i (suc k) x es le =
      rw (lasts-behind i k x es (omega arith), last_at-behind i k x es (omega arith)) refl

  length-lasts : (k x : ℕ) (es : List (Entry F)) → length (lasts k x es) ≡ k
  unfolding lasts
  length-lasts zero x es = refl
  length-lasts (suc k) x es =
      omega (arith, length-append (lasts k x es) (last_at k x es ∷ []), length-lasts k x es)

  pub descend_lem :
      (s : SkipList F) (test : Item F → Bool) (k x : ℕ) (before after : List (Entry F))
      → length before ≤ s.length
      → ((j : ℕ) → j < k → From s j x (before ++ after))
      → All (Matches s) before
      → All (Matches s) after
      → All (λ e. test e.item ≡ true) before
      → All (λ e. test e.item ≡ false) after
      → descend s test k x ≡ some (lasts k x before)
  unfolding descend lasts
  descend_lem s test zero x before after enough from m n h r = refl
  descend_lem s test (suc i) x before after enough from m n h r =
      let (link, l) = from i (omega arith) in
      let found : walk (s.length + 1) s test i x ≡ some (last_at i x before) =
        walk_lem s test i (s.length + 1) x before after (omega arith) link l m n h r in
      let below : descend s test i (last_at i x before) ≡ some (lasts i x before) =
        descend_lem s test i (last_at i x before) (behind i before) after
          (omega (arith, length-behind i before))
          (λ j lt. From-behind s i j x before after (omega arith) (from j (omega arith)))
          (All-behind (Matches s) i before m) n (All-behind (λ e. test e.item ≡ true) i before h) r
        ∙ ap some (lasts-behind i i x before (omega arith)) in
      rw (found, below) refl

-- An index of a list behind its end
get_elem?-append :
    (xs ys : List ℕ) (i : ℕ)
    → get_elem? (xs ++ ys) i
      ≡ (if ltb i (length xs) then get_elem? xs i else get_elem? ys (i - length xs))
get_elem?-append [] ys i = ground arith
get_elem?-append (x ∷ xs) ys zero = ground arith
get_elem?-append (x ∷ xs) ys (suc i) = ground (arith, get_elem?-append xs ys i)

get_elem?-replicate : (n i x : ℕ) → i < n → get_elem? (replicate n x) i ≡ some x
get_elem?-replicate zero i x lt = absurd (omega arith)
get_elem?-replicate (suc n) zero x lt = refl
get_elem?-replicate (suc n) (suc i) x lt = get_elem?-replicate n i x (omega arith)

module _ {ℓ} {F : Type ℓ} where
  pub lasts_below :
      (k x i : ℕ) (es : List (Entry F)) → i < k → get_elem? (lasts k x es) i ≡ some (last_at i x es)
  unfolding lasts
  lasts_below zero x i es lt = absurd (omega arith)
  lasts_below (suc k) x i es lt =
      get_elem?-append (lasts k x es) (last_at k x es ∷ []) i ∙ elim (Bool-cases (ltb i k)) [
        | inl t ↦ rw (length-lasts k x es, t) (lasts_below k x i es (ltb→lt i k t))
        | inr t ↦
            let e : i ≡ k = ground arith in
            let z : k - k ≡ 0 = omega arith in rw (length-lasts k x es, t, e, z) refl
      ]

  -- The predecessor on each level, those of the new levels included
  pub get_elem?-lasts :
      (k x i n : ℕ) (es : List (Entry F))
      → (k ≤ i → last_at i x es ≡ x)
      → i < k + n
      → get_elem? (lasts k x es ++ replicate n x) i ≡ some (last_at i x es)
  get_elem?-lasts k x i n es above lt =
      get_elem?-append (lasts k x es) (replicate n x) i ∙ elim (Bool-cases (ltb i k)) [
        | inl t ↦ rw (length-lasts k x es, t) (lasts_below k x i es (ltb→lt i k t))
        | inr t ↦
            let le : k ≤ i = ground arith in
            rw (length-lasts k x es, t, above le) (get_elem?-replicate n (i - k) x (omega arith))
      ]
