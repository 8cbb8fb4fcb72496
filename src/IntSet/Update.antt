-- ===== src/IntSet/Update.antt =====
-- `insertAt` and `removeAt` on the values of the set.
use red_go.Base.{
  ℕ, zero, suc, ◌+◌, ◌-◌, ◌*◌, ◌≤◌, Bool, true, false, List, [], ◌∷◌, ◌++◌, Bytes, length, take,
  drop, ltb, if◌then◌else◌, ◌≡◌, refl, arith, ap, ◌∙◌, sym, get_elem?_lt, append_assoc, append-nil,
  length-append, length-drop, ℤ,
}
use red_go.IntSet.{
  Encoding, width, IntSet, insert_at, remove_at, grow, put_uint, copy_within, write_at,
}
use red_go.IntSet.Order.{IsAscending, has_int, below, below-le, insert_int, remove_int}
use red_go.IntSet.Edits.{
  below-lt-length, insert_int-take, remove_int-take, All-insert_int, All-remove_int,
  length-insert_int, length-remove_int,
}
use red_go.IntSet.Words.{Fits, encode, encode-append, length-encode, length-put_uint, take_past}
use red_go.IntSet.Search.{HasWords, drop_all, drop-cons}
use red_go.IntSet.Slices.{
  length-take, take-drop, write_at_lem, copy_within_up, copy_within_down, grow_lem,
}

-- The array that `insertAt` shifts, from a grown one
abbrev shifted : Bytes → ℕ → ℕ → ℕ → Bool → Bytes
shifted a offset w old_len more = if more then copy_within a (offset + w) offset old_len else a

-- A gap of `w` bytes stands before the words that follow, also where none does.
shifted_gap :
    (a b rest : Bytes) (offset w old_len : ℕ) (more : Bool)
    → offset ≡ length a
    → length a + length b ≤ old_len
    → old_len + w ≤ length (a ++ (b ++ rest))
    → (more ≡ false → b ≡ [])
    → (h : Bytes) × (rest' : Bytes) × (shifted (a ++ (b ++ rest)) offset w old_len more
        ≡ a ++ (h ++ (b ++ rest')))
      × (length h ≡ w)
      × (old_len + w ≤ length a + (w + (length b + length rest')))
shifted_gap a b rest offset w old_len true e room size none_left =
    let k = old_len - offset in
    let c = b ++ rest in
    let tail = drop (w + k) c in
    let more_room = length-append a c in
    (
      take w c,
      take (k - length b) rest ++ tail,
      copy_within_up a c offset w old_len e
          ∙ ap (λ m. a ++ (take w c ++ (m ++ tail)))
              (take_past b rest k (k - length b) (omega arith))
          ∙ ap (λ m. a ++ (take w c ++ m)) (append_assoc b (take (k - length b) rest) tail),
      length-take w c (omega (arith, more_room)),
      omega (
        arith,
        more_room,
        length-append b rest,
        length-append (take (k - length b) rest) tail,
        length-take (k - length b) rest,
        length-drop (w + k) c,
      ),
    )
shifted_gap a b rest offset w old_len false e room size none_left =
    let empty : b ≡ [] = none_left refl in
    let total = length-append a (b ++ rest) in
    let none : length b ≡ 0 = ap length empty in
    let split = length-append b rest in
    let long : w ≤ length rest = omega (arith, total, split, none) in
    (
      take w rest,
      drop w rest,
      ap (λ m. a ++ (m ++ rest)) empty
          ∙ ap (λ m. a ++ m) (sym (take-drop w rest))
          ∙ ap (λ m. a ++ (take w rest ++ (m ++ drop w rest))) (sym empty),
      length-take w rest long,
      omega (arith, total, split, length-drop w rest, long),
    )

length-take_ints : (n : ℕ) (xs : List ℤ) → n ≤ length xs → length (take n xs) ≡ n
length-take_ints zero xs h = refl
length-take_ints (suc n) [] h = absurd (omega arith)
length-take_ints (suc n) (x ∷ xs) h = ap suc (length-take_ints n xs (omega arith))

take-drop_ints : (n : ℕ) (xs : List ℤ) → take n xs ++ drop n xs ≡ xs
take-drop_ints zero xs = refl
take-drop_ints (suc n) [] = refl
take-drop_ints (suc n) (x ∷ xs) = ap (◌∷◌ x) (take-drop_ints n xs)

encode-insert_int :
    (e : Encoding) (v : ℤ) (vs : List ℤ)
    → encode e (insert_int v vs)
      ≡ encode e (take (below v vs) vs) ++ (put_uint e v ++ encode e (drop (below v vs) vs))
encode-insert_int e v vs =
    ap (encode e) (insert_int-take v vs)
    ∙ encode-append e (take (below v vs) vs) (v ∷ drop (below v vs) vs)

encode-split :
    (e : Encoding) (n : ℕ) (vs : List ℤ)
    → encode e vs ≡ encode e (take n vs) ++ encode e (drop n vs)
encode-split e n vs =
    ap (encode e) (sym (take-drop_ints n vs)) ∙ encode-append e (take n vs) (drop n vs)

-- `insertAt` at the place of a value that fits the words makes it one of the values.
pub insert_at-HasWords :
    (s : IntSet) (vs : List ℤ) (v : ℤ)
    → HasWords s vs
    → Fits s.encoding v
    → HasWords (insert_at s (below v vs) v) (insert_int v vs)
unfolding insert_at
insert_at-HasWords s vs v ((rest, e), room, size, count, fits) fit =
    let k = below v vs in
    let w = width s.encoding in
    let offset = k * w in
    let a = encode s.encoding (take k vs) in
    let b = encode s.encoding (drop k vs) in
    let bs = put_uint s.encoding v in
    let parts = encode-split s.encoding k vs in
    let at : offset ≡ length a =
      ap (λ n. n * w) (sym (length-take_ints k vs (below-le v vs)))
      ∙ sym (length-encode s.encoding (take k vs)) in
    let both : length (encode s.encoding vs) ≡ length a + length b =
      ap length parts ∙ length-append a b in
    let ((rest', grown), longer, spare) =
      grow_lem s.contents w (encode s.encoding vs) rest e room size in
    let grown' : (grow s.contents w).array ≡ a ++ (b ++ rest') =
      grown ∙ ap (λ m. m ++ rest') parts ∙ append_assoc a b rest' in
    let (h, rest'', moved, gap, enough) =
      shifted_gap a b rest' offset w s.contents.len (ltb k s.length) at (omega (arith, both, room))
        (rw (← grown') spare)
        (λ done. ap (encode s.encoding) (drop_all k vs (ground (arith, count)))) in
    let written : write_at
          (shifted (grow s.contents w).array offset w s.contents.len (ltb k s.length)) offset bs
        ≡ a ++ (bs ++ (b ++ rest'')) =
      ap (λ m. write_at (shifted m offset w s.contents.len (ltb k s.length)) offset bs) grown'
      ∙ ap (λ m. write_at m offset bs) moved
      ∙ write_at_lem a h (b ++ rest'') bs offset at (gap ∙ sym (length-put_uint s.encoding v)) in
    let whole = encode-insert_int s.encoding v vs in
    let words : length (encode s.encoding (insert_int v vs)) ≡ length a + (w + length b) =
      ap length whole
      ∙ length-append a (bs ++ b)
      ∙ ap (λ n. length a + n) (length-append bs b)
      ∙ ap (λ n. length a + (n + length b)) (length-put_uint s.encoding v) in
    (
      (
        rest'',
        written
            ∙ ap (λ m. a ++ m) (sym (append_assoc bs b rest''))
            ∙ sym (append_assoc a (bs ++ b) rest'')
            ∙ ap (λ m. m ++ rest'') (sym whole),
      ),
      omega (arith, words, both, room, longer),
      omega (
        arith,
        longer,
        enough,
        ap length written,
        length-append a (bs ++ (b ++ rest'')),
        length-append bs (b ++ rest''),
        length-append b rest'',
        length-put_uint s.encoding v,
      ),
      omega (arith, count, length-insert_int v vs),
      All-insert_int (Fits s.encoding) v vs fit fits,
    )

-- The words before a value of the list, its own word, and those behind it
encode-remove_int :
    (e : Encoding) (v : ℤ) (vs : List ℤ)
    → IsAscending vs
    → has_int v vs ≡ true
    → (x : ℤ) × (encode e vs
        ≡ encode e (take (below v vs) vs) ++ (put_uint e x ++ encode e (drop (below v vs + 1) vs)))
      × (encode e (remove_int v vs)
          ≡ encode e (take (below v vs) vs) ++ encode e (drop (below v vs + 1) vs))
encode-remove_int e v vs ascending found =
    let k = below v vs in
    let (x, at) = get_elem?_lt vs k (below-lt-length v vs ascending found) in
    let next : suc k ≡ k + 1 = omega arith in
    (
      x,
      encode-split e k vs
          ∙ ap (λ m. encode e (take k vs) ++ encode e m) (sym (drop-cons k vs x at)),
      ap (encode e) (remove_int-take v vs ascending found ∙ ap (λ n. take k vs ++ drop n vs) next)
          ∙ encode-append e (take k vs) (drop (k + 1) vs),
    )

-- `removeAt` at the index of a value takes the value out of the list.
pub remove_at-HasWords :
    (s : IntSet) (vs : List ℤ) (v : ℤ)
    → HasWords s vs
    → IsAscending vs
    → has_int v vs ≡ true
    → HasWords (remove_at s (below v vs)) (remove_int v vs)
unfolding remove_at
remove_at-HasWords s vs v ((rest, e), room, size, count, fits) ascending found =
    let k = below v vs in
    let w = width s.encoding in
    let inside : ltb k s.length ≡ true = ground (arith, below-lt-length v vs ascending found) in
    let (x, parts, removed) = encode-remove_int s.encoding v vs ascending found in
    let a = encode s.encoding (take k vs) in
    let h = put_uint s.encoding x in
    let c = encode s.encoding (drop (k + 1) vs) in
    let gap = length-put_uint s.encoding x in
    let at : k * w ≡ length a =
      ap (λ n. n * w) (sym (length-take_ints k vs (below-le v vs)))
      ∙ sym (length-encode s.encoding (take k vs)) in
    let whole : length (encode s.encoding vs) ≡ length a + (w + length c) =
      omega (arith, ap length parts, length-append a (h ++ c), length-append h c, gap) in
    let last : s.length * w ≡ length a + (w + length c) =
      ap (λ n. n * w) count ∙ sym (length-encode s.encoding vs) ∙ whole in
    let kept : s.length * w - (k * w + w) ≡ length c = omega (arith, last, at) in
    let split : s.contents.array ≡ a ++ (h ++ (c ++ rest)) =
      e
      ∙ ap (λ m. m ++ rest) parts
      ∙ append_assoc a (h ++ c) rest
      ∙ ap (λ m. a ++ m) (append_assoc h c rest) in
    let tail = drop (length c) (h ++ (c ++ rest)) in
    let moved : copy_within s.contents.array (k * w) (k * w + w) (s.length * w) ≡ a ++ (c ++ tail) =
      ap (λ m. copy_within m (k * w) (k * w + w) (s.length * w)) split
      ∙ copy_within_down a h (c ++ rest) (k * w) w (s.length * w) at gap
      ∙ ap (λ n. a ++ (take n (c ++ rest) ++ drop n (h ++ (c ++ rest)))) kept
      ∙ ap (λ m. a ++ (m ++ tail)) (take_past c rest (length c) 0 (omega arith) ∙ append-nil c) in
    let words : length (encode s.encoding (remove_int v vs)) ≡ length a + length c =
      ap length removed ∙ length-append a c in
    rw inside (
      (tail, moved ∙ sym (append_assoc a c tail) ∙ ap (λ m. m ++ tail) (sym removed)),
      omega (arith, words, last),
      omega (arith, last, ap length moved, length-append a (c ++ tail), length-append c tail),
      omega (arith, count, length-remove_int v vs found),
      All-remove_int (Fits s.encoding) v vs fits,
    )
