-- ===== src/SkipList/Pointers.antt =====
-- The writes of pointers, and the loop that links a new node into its levels.
use red_go.Base.{
  ℕ, zero, suc, ◌+◌, ◌<◌, ◌≤◌, true, false, List, [], ◌∷◌, ◌++◌, Option, some, length, get_elem?,
  set, ltb, ◌==◌, ◌≡◌, ◌≢◌, ◌⊎◌, inl, inr, refl, ap, sym, ◌∙◌, arith, All, Bool-cases, ltb→lt,
  ==_iff, length-set, get_elem?-set_self, get_elem?-set_ne, subst, get_elem?_lt,
}
use red_go.SkipList.{SkipList, next, update_node, set_next, link}
use red_go.SkipList.Levels.{Entry, last_at, Matches}
use red_go.SkipList.Search.{From}
use red_go.SkipList.Splice.{last_at-ne, Apart, IsUnique, splice_in, Level-same, Apart-append}

module _ {ℓ} {F : Type ℓ} where
  -- A list with one pointer changed
  unfoldable pub written : SkipList F → ℕ → ℕ → Option ℕ → SkipList F
  written s x i p = record s {
    nodes = update_node s.nodes x (record (s.nodes x) { forward = set (s.nodes x).forward i p });
  }

  pub set_next_lem :
      (s : SkipList F) (x i : ℕ) (p : Option ℕ)
      → i < length (s.nodes x).forward
      → set_next s x i p ≡ some (written s x i p)
  unfolding set_next written
  set_next_lem s x i p lt =
      let t : ltb i (length (s.nodes x).forward) ≡ true = ground arith in rw t refl

  -- All but the pointers is the same.
  pub record Frame (s s' : SkipList F) : Type ℓ where
    pub items : (y : ℕ) → (s'.nodes y).item ≡ (s.nodes y).item
    pub heights : (y : ℕ) → length (s'.nodes y).forward ≡ length (s.nodes y).forward
    pub same_tail : s'.tail ≡ s.tail
    pub same_level : s'.level ≡ s.level
    pub same_length : s'.length ≡ s.length
    pub same_allocated : s'.allocated ≡ s.allocated

  pub Frame-refl : (s : SkipList F) → Frame s s
  Frame-refl s = record {
    items = λ y. refl;
    heights = λ y. refl;
    same_tail = refl;
    same_level = refl;
    same_length = refl;
    same_allocated = refl;
  }

  pub Frame-trans : (s s' s₂ : SkipList F) → Frame s s' → Frame s' s₂ → Frame s s₂
  Frame-trans s s' s₂ f g = record {
    items = λ y. g.items y ∙ f.items y;
    heights = λ y. g.heights y ∙ f.heights y;
    same_tail = g.same_tail ∙ f.same_tail;
    same_level = g.same_level ∙ f.same_level;
    same_length = g.same_length ∙ f.same_length;
    same_allocated = g.same_allocated ∙ f.same_allocated;
  }

  module _ (s : SkipList F) (x i : ℕ) (p : Option ℕ) where
    pub written-Frame : Frame s (written s x i p)
    unfolding written
    written-Frame = record {
      items = λ y. elim (Bool-cases (x == y)) [
        | inl e ↦ rw e (ap (λ z. (s.nodes z).item) ((==_iff x y).0 e))
        | inr e ↦ rw e refl
      ];
      heights = λ y. elim (Bool-cases (x == y)) [
        | inl e ↦ rw e (
            length-set (s.nodes x).forward i p
            ∙ ap (λ z. length (s.nodes z).forward) ((==_iff x y).0 e))
        | inr e ↦ rw e refl
      ];
      same_tail = refl;
      same_level = refl;
      same_length = refl;
      same_allocated = refl;
    }

    pub next-written_self : i < length (s.nodes x).forward → next (written s x i p) x i ≡ some p
    unfolding written
    next-written_self lt =
        let e : (x == x) ≡ true = ground arith in
        rw e (get_elem?-set_self (s.nodes x).forward i p lt)

    pub next-written_other : (y j : ℕ) → (x ≢ y) ⊎ (i ≢ j) → next (written s x i p) y j ≡ next s y j
    unfolding written
    next-written_other y j (inl ne) = let e : (x == y) ≡ false = ground arith in rw e refl
    next-written_other y j (inr ne) = elim (Bool-cases (x == y)) [
      | inl e ↦
          rw e (get_elem?-set_ne (s.nodes x).forward p ne ∙ ap (λ z. next s z j) ((==_iff x y).0 e))
      | inr e ↦ rw e refl
    ]

  -- The predecessor on a level has that level.
  pub last_at-lt :
      (s : SkipList F) (i x : ℕ) (es : List (Entry F))
      → All (Matches s) es
      → i < length (s.nodes x).forward
      → i < length (s.nodes (last_at i x es)).forward
  last_at-lt s i x [] m lt = lt
  last_at-lt s i x (e ∷ es) ((_, h), m) lt = elim (Bool-cases (ltb i e.height)) [
    | inl t ↦ rw t (last_at-lt s i e.ptr es m (subst (λ k. i < k) (sym h) (ltb→lt i e.height t)))
    | inr t ↦ rw t (last_at-lt s i x es m lt)
  ]

  pub Matches-Frame :
      (s s' : SkipList F) (es : List (Entry F))
      → Frame s s'
      → All (Matches s) es
      → All (Matches s') es
  Matches-Frame s s' [] f m = tt
  Matches-Frame s s' (e ∷ es) f ((i, h), m) =
      ((f.items e.ptr ∙ i, f.heights e.ptr ∙ h), Matches-Frame s s' es f m)

  pub From-same :
      (s s' : SkipList F) (i x : ℕ) (es : List (Entry F))
      → ((y : ℕ) → next s' y i ≡ next s y i)
      → From s i x es
      → From s' i x es
  From-same s s' i x es h (link, l) = (h x ∙ link, Level-same s s' i es (all es) l)
    where
      all : (es : List (Entry F)) → All (λ e. next s' e.ptr i ≡ next s e.ptr i) es
      all [] = tt
      all (e ∷ es) = (h e.ptr, all es)

  module _ (s : SkipList F) (u i n : ℕ) (p : Option ℕ) where
    abbrev pub linked : SkipList F
    linked = written (written s n i p) u i (some n)

    pub linked-Frame : Frame s linked
    linked-Frame =
        Frame-trans s (written s n i p) linked (written-Frame s n i p)
          (written-Frame (written s n i p) u i (some n))

    pub next-linked_other : (y j : ℕ) → ((n ≢ y) × (u ≢ y)) ⊎ (i ≢ j) → next linked y j ≡ next s y j
    next-linked_other y j (inl (ny, uy)) =
        next-written_other (written s n i p) u i (some n) y j (inl uy)
        ∙ next-written_other s n i p y j (inl ny)
    next-linked_other y j (inr ne) =
        next-written_other (written s n i p) u i (some n) y j (inr ne)
        ∙ next-written_other s n i p y j (inr ne)

    pub link_step :
        (count : ℕ) (update : List ℕ)
        → get_elem? update i ≡ some u
        → next s u i ≡ some p
        → i < length (s.nodes n).forward
        → i < length (s.nodes u).forward
        → link (suc count) i n update s ≡ link count (suc i) n update linked
    unfolding link
    link_step count update hu hp ln lu =
        let two : set_next (written s n i p) u i (some n) ≡ some linked =
          set_next_lem (written s n i p) u i (some n)
            (subst (λ k. i < k) (sym ((written-Frame s n i p).heights u)) lu) in
        rw (hu, hp, set_next_lem s n i p ln, two) refl

  -- The new entry `n` joins the levels from `i` to `i + count - 1`; nothing else changes.
  pub link_lem :
      (count i : ℕ) (update : List ℕ) (s : SkipList F) (n : Entry F) (before after : List (Entry F))
      → ((j : ℕ) → i ≤ j → j < i + count → get_elem? update j ≡ some (last_at j 0 before))
      → ((j : ℕ) → i ≤ j → j < i + count → From s j 0 (before ++ after))
      → i + count ≤ n.height
      → i + count ≤ length (s.nodes 0).forward
      → n.height ≡ length (s.nodes n.ptr).forward
      → All (Matches s) before
      → n.ptr ≢ 0
      → Apart n.ptr (before ++ after)
      → Apart 0 (before ++ after)
      → IsUnique (before ++ after)
      → (s' : SkipList F) × (link count i n.ptr update s ≡ some s')
        × ((j : ℕ) → i ≤ j → j < i + count → From s' j 0 (before ++ n ∷ after))
        × ((j y : ℕ) → (j < i) ⊎ (i + count ≤ j) → next s' y j ≡ next s y j)
        × Frame s s'
  unfolding link
  link_lem zero i update s n before after hu from hn h0 hl m n0 an a0 u =
      (s, refl, (λ j le lt. absurd (omega arith)), (λ j y h. refl), Frame-refl s)
  link_lem (suc count) i update s n before after hu from hn h0 hl m n0 an a0 u =
      let v : ℕ = last_at i 0 before in
      let lv : i < length (s.nodes v).forward = last_at-lt s i 0 before m (omega arith) in
      let (q, hq) = get_elem?_lt (s.nodes v).forward i lv in
      let s₂ : SkipList F = linked s v i n.ptr q in
      let f : Frame s s₂ = linked-Frame s v i n.ptr q in
      let nv : n.ptr ≢ v =
        last_at-ne i n.ptr 0 before n0 ((Apart-append n.ptr before after an).0) in
      let low : From s₂ i 0 (before ++ n ∷ after) =
        splice_in s s₂ i 0 n before after (ground arith)
          (next-written_self (written s n.ptr i q) v i (some n.ptr)
            (subst (λ k. i < k) (sym ((written-Frame s n.ptr i q).heights v)) lv))
          (next-written_other (written s n.ptr i q) v i (some n.ptr) n.ptr i (inl (λ e. nv (sym e)))
            ∙ next-written_self s n.ptr i q (omega arith)
            ∙ sym hq)
          (λ y vy ny. next-linked_other s v i n.ptr q y i (inl (ny, vy))) n0 an a0 u
          (from i (omega arith) (omega arith)) in
      let (s', e, done, same, g) =
        link_lem count (suc i) update s₂ n before after
          (λ j le lt. hu j (omega arith) (omega arith))
          (λ j le lt.
            From-same s s₂ j 0 (before ++ after)
              (λ y. next-linked_other s v i n.ptr q y j (inr (omega arith)))
              (from j (omega arith) (omega arith)))
          (omega arith) (omega (arith, f.heights 0)) (hl ∙ sym (f.heights n.ptr))
          (Matches-Frame s s₂ before f m) n0 an a0 u in
      (
        s',
        link_step s v i n.ptr q count update (hu i (omega arith) (omega arith)) hq (omega arith) lv
            ∙ e,
        (λ j le lt. elim (Bool-cases (i == j)) [
          | inl t ↦
              subst (λ k. From s' k 0 (before ++ n ∷ after)) ((==_iff i j).0 t)
                (From-same s₂ s' i 0 (before ++ n ∷ after) (λ y. same i y (inl (omega arith))) low)
          | inr t ↦ done j (ground arith) (omega arith)
        ]),
        (λ j y h.
            same j y (ground arith) ∙ next-linked_other s v i n.ptr q y j (inr (ground arith))),
        Frame-trans s s₂ s' f g,
      )
