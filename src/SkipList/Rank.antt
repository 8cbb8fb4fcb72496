-- ===== src/SkipList/Rank.antt =====
-- `RangeByRank`: the members between two ranks.
use Prim.Native.Nat.{min}
use red_go.Base.{
  ℕ, zero, suc, ◌+◌, ◌-◌, ◌≤◌, Bool, ◌||◌, List, [], ◌∷◌, Option, none, some, Bytes, length, take,
  drop, leb, if◌then◌else◌, ℤ, pos, negsuc, pos_part, ltb_ℤ, leb_ℤ, ◌+ℤ◌, ◌-ℤ◌, ◌≡◌, inl, inr, refl,
  ap, sym, ◌∙◌, arith, Bool-cases,
}
use red_go.Slice.{slice_from, slice_to, slice, slice-end}
use red_go.Score.{Score, Item}
use red_go.SkipList.{SkipList, next}
use red_go.SkipList.Reads.{rank_range, from_end, hop, gather, read_range, range_by_rank}
use red_go.SkipList.Levels.{Entry, first_at}
use red_go.SkipList.Valid.{Represents, items}
use red_go.SkipList.Range.{Rest, Rest-next, members, Holds-Rest}

-- The range of a list of `size` elements
abbrev range_from : ℕ → ℤ → ℕ → Option (ℕ × ℕ)
range_from size stop first =
    let past = min (slice_to size stop) size in
    if leb past first then none else some (first, past - first)

first_lem :
    (size : ℕ) (start : ℤ)
    → (if ltb_ℤ (from_end size start) (pos 0) then pos 0 else from_end size start)
      ≡ pos (slice_from size start)
unfolding from_end
first_lem size (pos m) = ground arith
first_lem size (negsuc m) = ground arith

-- What is behind the last index
last_lem :
    (size : ℕ) (stop : ℤ)
    → pos_part (
        (if leb_ℤ (pos size) (from_end size stop) then pos size -ℤ pos 1 else from_end size stop)
        +ℤ pos 1)
      ≡ min (slice_to size stop) size
unfolding from_end
last_lem size (pos m) = ground arith
last_lem size (negsuc m) = ground arith

abbrev when : Bool → ℕ × ℕ → Option (ℕ × ℕ)
when b r = if b then none else some r

test_lem :
    (size a : ℕ) (z : ℤ)
    → pos_part (z +ℤ pos 1) ≤ size
    → when (ltb_ℤ z (pos a) || leb_ℤ (pos size) (pos a)) (a, pos_part z + 1 - a)
      ≡ when (leb (pos_part (z +ℤ pos 1)) a) (a, pos_part (z +ℤ pos 1) - a)
test_lem size a (pos n) h = ground arith
test_lem size a (negsuc n) h = ground arith

rank_range_lem :
    (size : ℕ) (start stop : ℤ)
    → rank_range size start stop ≡ range_from size stop (slice_from size start)
unfolding rank_range
rank_range_lem size start stop =
    let last : ℤ =
      (if leb_ℤ (pos size) (from_end size stop) then pos size -ℤ pos 1 else from_end size stop) in
    rw (first_lem size start) (
      test_lem size (slice_from size start) last (omega (arith, last_lem size stop))
      ∙ ap
          (λ past.
            when (leb past (slice_from size start))
              (slice_from size start, past - slice_from size start))
          (last_lem size stop))

-- The elements of a range
abbrev pub taken : Option (ℕ × ℕ) → List Bytes → List Bytes
taken none l = []
taken (some (first, count)) l = take count (drop first l)

-- The range that the source computes is the slice that the indices name.
pub taken-rank_range :
    (start stop : ℤ) (l : List Bytes)
    → taken (rank_range (length l) start stop) l ≡ slice start stop l
taken-rank_range start stop l =
    let i : ℕ = slice_from (length l) start in
    let past : ℕ = min (slice_to (length l) stop) (length l) in
    ap (λ r. taken r l) (rank_range_lem (length l) start stop) ∙ elim (Bool-cases (leb past i)) [
      | inl t ↦
          let e : past - i ≡ 0 = ground arith in
          rw t (sym (slice-end i (slice_to (length l) stop) l ∙ ap (λ n. take n (drop i l)) e))
      | inr t ↦ rw t (sym (slice-end i (slice_to (length l) stop) l))
    ]

module _ {ℓ} {F : Type ℓ} where
  hop_lem :
      (s : SkipList F) (n : ℕ) (es : List (Entry F))
      → Rest s es
      → (hop s n (first_at 0 es) ≡ some (first_at 0 (drop n es))) × Rest s (drop n es)
  unfolding hop
  hop_lem s zero es r = (refl, r)
  hop_lem s (suc n) [] r = (refl, r)
  hop_lem s (suc n) (e ∷ es) r =
      let (first, link, same, r') = Rest-next s e es r in
      let (h, r'') = hop_lem s n es r' in (rw (first, link) h, r'')

  gather_lem :
      (s : SkipList F) (n : ℕ) (es : List (Entry F))
      → Rest s es
      → gather s n (first_at 0 es) ≡ some (take n (members (items es)))
  unfolding gather
  gather_lem s zero es r = refl
  gather_lem s (suc n) [] r = refl
  gather_lem s (suc n) (e ∷ es) r =
      let (first, link, same, r') = Rest-next s e es r in
      rw (first, link, gather_lem s n es r')
        (ap (λ (i : Item F). some (i.member ∷ take n (members (items es)))) same)

  members-drop :
      (n : ℕ) (es : List (Entry F)) → members (items (drop n es)) ≡ drop n (members (items es))
  members-drop zero es = refl
  members-drop (suc n) [] = refl
  members-drop (suc n) (e ∷ es) = members-drop n es

  length-members : (es : List (Entry F)) → length (members (items es)) ≡ length es
  length-members [] = refl
  length-members (e ∷ es) = ap suc (length-members es)

  read_range_lem :
      (s : SkipList F) (es : List (Entry F)) (range : Option (ℕ × ℕ))
      → next s 0 0 ≡ some (first_at 0 es)
      → Rest s es
      → read_range s range ≡ some (taken range (members (items es)))
  unfolding read_range
  read_range_lem s es none link r = refl
  read_range_lem s es (some (first, count)) link r =
      let (h, r') = hop_lem s first es r in
      rw (link, h, gather_lem s count (drop first es) r', members-drop first es) refl

module _ {ℓ} {F : Type ℓ} ⦃f : Score F⦄ where
  -- On a list that represents some items, `RangeByRank` does not panic and returns the slice of the
  -- members, in order, that its two indices name, negative or past the end.
  pub range_by_rank_lem :
      (s : SkipList F) (xs : List (Item F)) (start stop : ℤ)
      → Represents s xs
      → range_by_rank start stop s ≡ some (slice start stop (members xs))
  unfolding range_by_rank
  range_by_rank_lem s xs start stop r =
      let es = r.entries in
      let rest = Holds-Rest s [] es r.holds in
      let link = ((r.holds).linked 0 (omega arith)).0 in
      let size : s.length ≡ length (members (items es)) =
        (r.holds).count ∙ sym (length-members es) in
      read_range_lem s es (rank_range s.length start stop) link rest
      ∙ ap (λ n. some (taken (rank_range n start stop) (members (items es)))) size
      ∙ ap some (taken-rank_range start stop (members (items es)))
      ∙ ap (λ ys. some (slice start stop (members ys))) r.same_items
