-- ===== src/Database/Lists/Range.antt =====
-- LRANGE returns the slice that its two indices name.
use Prim.Native.Nat.{min}
use red_go.Base.{
  ltb, ℕ, zero, suc, ◌+◌, ◌-◌, List, [], ◌∷◌, some, Bytes, length, take, drop, map, true, false,
  ◌≡◌, refl, arith, ap, ◌∙◌, sym, ℤ, pos, negsuc, ltb_ℤ, Bool-cases, inl, inr,
}
use red_go.Slice.{slice_from, slice_to, slice, take-nil, drop-nil, slice-end}
use red_go.Reply.{multi_bulk_reply, empty_multi_bulk_reply, to_bytes}
use red_go.Strconv.{itoa}
use red_go.Database.Lists.{from_end, clamp_start, clamp_stop, range_loop, range_reply}

range_loop-take :
    (s e i n k : ℕ) (l : List Bytes)
    → k ≡ s - i
    → n ≡ e + 1 - (i + k)
    → range_loop (pos s) (pos e) i l ≡ take n (drop k l)
unfolding range_loop
range_loop-take s e i n k [] p q = sym (ap (take n) (drop-nil k) ∙ take-nil n)
range_loop-take s e i n (suc k) (x ∷ l) p q =
    ground
      (arith, range_loop-take s e (i + 1) n k l (omega arith) (omega arith), zero_take n (drop k l))
  where
    zero_take : (n : ℕ) (l : List Bytes) → n ≡ 0 → take n l ≡ []
    zero_take zero l h = refl
    zero_take (suc n) l h = absurd (omega arith)
range_loop-take s e i zero zero (x ∷ l) p q = ground arith
range_loop-take s e i (suc n) zero (x ∷ l) p q =
    ground (arith, range_loop-take s e (i + 1) n zero l (omega arith) (omega arith))

clamp_start-pos : (size : ℕ) (start : ℤ) → clamp_start size start ≡ pos (slice_from size start)
unfolding clamp_start from_end
clamp_start-pos size (pos n) = ground arith
clamp_start-pos size (negsuc n) = ground arith

-- The first index behind the slice, inside the list
slice_end : ℕ → ℤ → ℕ
slice_end size stop = min (slice_to size stop) size

clamp_stop-pos :
    (size e : ℕ) (stop : ℤ) → slice_end size stop ≡ suc e → clamp_stop size stop ≡ pos e
unfolding clamp_stop from_end slice_end
clamp_stop-pos size e (pos n) h = ground arith
clamp_stop-pos size e (negsuc n) h = ground arith

clamp_stop-neg :
    (size : ℕ) (stop : ℤ) → slice_end size stop ≡ 0 → ltb_ℤ (clamp_stop size stop) (pos 0) ≡ true
unfolding clamp_stop from_end slice_end
clamp_stop-neg size (pos n) h = ground arith
clamp_stop-neg size (negsuc n) h = ground arith

ltb_ℤ-pos : (a : ℤ) (n : ℕ) → ltb_ℤ a (pos 0) ≡ true → ltb_ℤ a (pos n) ≡ true
ltb_ℤ-pos (pos k) n h = ground arith
ltb_ℤ-pos (negsuc k) n h = ground arith

empty_bytes : to_bytes empty_multi_bulk_reply ≡ to_bytes (multi_bulk_reply [])
unfolding to_bytes itoa
empty_bytes = refl

-- An empty slice: the test of the reply holds.
range_reply_empty :
    (start stop : ℤ) (l : List Bytes)
    → ltb_ℤ (clamp_stop (length l) stop) (clamp_start (length l) start) ≡ true
    → range_reply start stop l ≡ empty_multi_bulk_reply
unfolding range_reply
range_reply_empty start stop l h = rw h

range_reply_full :
    (start stop : ℤ) (l : List Bytes)
    → ltb_ℤ (clamp_stop (length l) stop) (clamp_start (length l) start) ≡ false
    → range_reply start stop l
      ≡ multi_bulk_reply
          (map some (range_loop (clamp_start (length l) start) (clamp_stop (length l) stop) 0 l))
unfolding range_reply
range_reply_full start stop l h = rw h

module _ (start stop : ℤ) (l : List Bytes) where
  by_end :
      (m : ℕ)
      → slice_end (length l) stop ≡ m
      → to_bytes (range_reply start stop l)
        ≡ to_bytes (
            multi_bulk_reply (
              map some
                (take (m - slice_from (length l) start) (drop (slice_from (length l) start) l))))
  by_end zero e =
      let f = slice_from (length l) start in
      let test : ltb_ℤ (clamp_stop (length l) stop) (clamp_start (length l) start) ≡ true =
        rw (clamp_start-pos (length l) start)
          (ltb_ℤ-pos (clamp_stop (length l) stop) f (clamp_stop-neg (length l) stop e)) in
      let none_left : 0 - f ≡ 0 = omega arith in
      rw (range_reply_empty start stop l test, none_left) empty_bytes
  by_end (suc k) e =
      let f = slice_from (length l) start in
      let s = clamp_start-pos (length l) start in
      let t = clamp_stop-pos (length l) k stop e in
      elim (Bool-cases (ltb k f)) [
        | inl before ↦
            let test : ltb_ℤ (clamp_stop (length l) stop) (clamp_start (length l) start) ≡ true =
              rw (s, t) (ground arith) in
            let none_left : suc k - f ≡ 0 = ground arith in
            rw (range_reply_empty start stop l test, none_left) empty_bytes
        | inr inside ↦
            let test : ltb_ℤ (clamp_stop (length l) stop) (clamp_start (length l) start) ≡ false =
              rw (s, t) (ground arith) in
            rw (range_reply_full start stop l test, s, t)
              (ap (λ x. to_bytes (multi_bulk_reply (map some x)))
                (range_loop-take f k 0 (suc k - f) f l (omega arith) (omega arith)))
      ]

-- The bytes of the reply are those of the slice from `start` to `stop`, for all indices, negative
-- or past the end, also where the slice is empty.
pub range_reply-slice :
    (start stop : ℤ) (l : List Bytes)
    → to_bytes (range_reply start stop l)
      ≡ to_bytes (multi_bulk_reply (map some (slice start stop l)))
unfolding slice_end
range_reply-slice start stop l =
    by_end start stop l _ refl
    ∙ ap (λ x. to_bytes (multi_bulk_reply (map some x)))
        (sym (slice-end (slice_from (length l) start) (slice_to (length l) stop) l))
