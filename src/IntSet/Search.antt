-- ===== src/IntSet/Search.antt =====
-- The array of a set against the ascending list of its values, and the binary search.
use red_go.Base.{
  ℕ, zero, suc, ◌+◌, ◌-◌, ◌*◌, ◌/◌, ◌%◌, ◌^◌, ◌<◌, ◌≤◌, true, List, [], ◌∷◌, ◌++◌, some, Bytes,
  length, get_elem?, take, drop, ltb, if◌then◌else◌, ℤ, pos, negsuc, ◌≡◌, refl, arith, ap, All, ◌∙◌,
  sym, get_elem?_lt, Bool-cases, inl, inr,
}
use red_go.IntSet.{
  Encoding, enc_int16, enc_int32, enc_int64, width, bytes_of, IntSet, get_value_at, values_from,
  to_slice, find_loop, find_position, contains,
}
use red_go.IntSet.Order.{IsAscending, has_int, below, below-le, get_elem?-AtIndex}
use red_go.IntSet.Edits.{below-lt-length}
use red_go.IntSet.Words.{Fits, encode, read_uint-drop, take_past}

-- The first words of the array are these values, each in the range of the words, and the lengths
-- agree; behind them the slice may have more bytes.
abbrev pub HasWords : IntSet → List ℤ → Type 0
HasWords s vs =
    ((rest : Bytes) × (s.contents.array ≡ encode s.encoding vs ++ rest))
    × (length (encode s.encoding vs) ≤ s.contents.len)
    × (s.contents.len ≤ length s.contents.array)
    × (s.length ≡ length vs)
    × All (Fits s.encoding) vs

-- The values of the set, in ascending order; their bytes are counted on 32 bits.
abbrev pub Holds : IntSet → List ℤ → Type 0
Holds s vs = HasWords s vs × IsAscending vs × (length vs < 2 ^ 28)

width-le : (e : Encoding) → width e ≤ 8
width-le enc_int16 = omega arith
width-le enc_int32 = omega arith
width-le enc_int64 = omega arith

-- The offset of an index does not wrap.
offset_exact : (e : Encoding) (i : ℕ) → i < 2 ^ 28 → (i * width e) % 2 ^ 32 ≡ i * width e
offset_exact enc_int16 i h = omega arith
offset_exact enc_int32 i h = omega arith
offset_exact enc_int64 i h = omega arith

words_prefix :
    (s : IntSet) (vs : List ℤ)
    → HasWords s vs
    → (rest : Bytes) × (bytes_of s.contents ≡ encode s.encoding vs ++ rest)
words_prefix s vs ((rest, e), room, _, _, _) =
    let k = s.contents.len - length (encode s.encoding vs) in
    (
      take k rest,
      ap (take s.contents.len) e
          ∙ take_past (encode s.encoding vs) rest s.contents.len k (omega arith),
    )

pub get_value_at-get_elem? :
    (s : IntSet) (vs : List ℤ) (i : ℕ) (v : ℤ)
    → HasWords s vs
    → length vs < 2 ^ 28
    → i < length vs
    → get_elem? vs i ≡ some v
    → get_value_at s i ≡ some v
unfolding get_value_at
get_value_at-get_elem? s vs i v h few lt at =
    let (rest, e) = words_prefix s vs h in
    let (_, _, _, size, fits) = h in
    let inside : ltb i s.length ≡ true = ground arith in
    rw (inside, offset_exact s.encoding i (omega arith), e)
      (read_uint-drop s.encoding vs i v rest fits at)

pub drop_all : (n : ℕ) (xs : List ℤ) → length xs ≤ n → drop n xs ≡ []
drop_all zero [] h = refl
drop_all zero (x ∷ xs) h = absurd (omega arith)
drop_all (suc n) [] h = refl
drop_all (suc n) (x ∷ xs) h = drop_all n xs (omega arith)

pub drop-cons :
    (i : ℕ) (xs : List ℤ) (x : ℤ) → get_elem? xs i ≡ some x → x ∷ drop (i + 1) xs ≡ drop i xs
drop-cons i [] x e = absurd (cc)
drop-cons zero (y ∷ xs) x e = ground arith
drop-cons (suc i) (y ∷ xs) x e =
    let next : suc i + 1 ≡ suc (i + 1) = omega arith in rw next (drop-cons i xs x e)

-- What a search for `v` finds: its index, or the place where it would stand.
abbrev pub position : ℤ → List ℤ → ℤ
position v vs = if has_int v vs then pos (below v vs) else negsuc (below v vs)

find_loop_lem :
    (fuel : ℕ) (s : IntSet) (vs : List ℤ) (v : ℤ) (low end : ℕ)
    → Holds s vs
    → low ≤ below v vs
    → below v vs ≤ end
    → end ≤ length vs
    → (has_int v vs ≡ true → below v vs < end)
    → end - low < fuel
    → find_loop fuel s v low end ≡ some (position v vs)
unfolding find_loop
find_loop_lem zero s vs v low end h lo hi size strict enough = absurd (omega arith)
find_loop_lem (suc fuel) s vs v low end h lo hi size strict enough =
    elim (Bool-cases (ltb low end)) [
      | inl more ↦
          let mid = (low + end - 1) / 2 in
          let inside : mid < length vs = ground arith in
          let (x, at) = get_elem?_lt vs mid inside in
          let (words, ascending, few) = h in
          let (lower, upper, before, same) = get_elem?-AtIndex v vs mid x ascending at in
          rw (more, get_value_at-get_elem? s vs mid x words few inside at, find_loop)
            (ground (
              arith,
              lower,
              upper,
              before,
              same,
              find_loop_lem fuel s vs v (mid + 1) end h,
              find_loop_lem fuel s vs v low mid h,
            ))
      | inr done ↦ rw (done, find_loop) (ground arith)
    ]

-- On a set that holds ascending values, fewer than 2^28, the binary search ends, reads no word out of
-- range, and finds the value or its place.
pub find_position-position :
    (s : IntSet) (vs : List ℤ) (v : ℤ) → Holds s vs → find_position s v ≡ some (position v vs)
unfolding find_position
find_position-position s vs v h =
    let (words, ascending, few) = h in
    let (_, _, _, size, _) = words in
    find_loop_lem (s.length + 1) s vs v 0 s.length h (omega arith) (omega (arith, below-le v vs))
      (omega arith) (λ found. omega (arith, below-lt-length v vs ascending found)) (omega arith)

pub contains-has_int :
    (s : IntSet) (vs : List ℤ) (v : ℤ) → Holds s vs → contains s v ≡ some (has_int v vs)
unfolding contains
contains-has_int s vs v h = rw (find_position-position s vs v h) (ground arith)

values_from-drop :
    (s : IntSet) (vs : List ℤ) (n i : ℕ)
    → HasWords s vs
    → length vs < 2 ^ 28
    → i + n ≡ length vs
    → values_from s n i ≡ some (drop i vs)
unfolding values_from
values_from-drop s vs zero i h few e = ap some (sym (drop_all i vs (omega arith)))
values_from-drop s vs (suc n) i h few e =
    let (x, at) = get_elem?_lt vs i (omega arith) in
    rw
      (
        get_value_at-get_elem? s vs i x h few (omega arith) at,
        values_from-drop s vs n (i + 1) h few (omega arith),
      )
      (ap some (drop-cons i vs x at))

pub to_slice_lem : (s : IntSet) (vs : List ℤ) → Holds s vs → to_slice s ≡ some vs
unfolding to_slice
to_slice_lem s vs (words, _, few) =
    let (_, _, _, size, _) = words in values_from-drop s vs s.length 0 words few (omega arith)
