-- ===== src/IntSet/Slices.antt =====
-- Copies and writes inside a byte array, by the parts of the array that they touch.
use red_go.Base.{
  ℕ, zero, suc, ◌+◌, ◌-◌, ◌*◌, ◌≤◌, [], ◌∷◌, ◌++◌, Bytes, length, take, drop, ltb, ◌≡◌, refl, arith,
  ap, ◌∙◌, sym, replicate, append_assoc, append-nil, length-append, length-replicate, Bool-cases,
  inl, inr,
}
use red_go.IntSet.{Slice, bytes_of, copy_within, write_at, grow}
use red_go.IntSet.Words.{drop_past, take_past}

pub length-take : (n : ℕ) (xs : Bytes) → n ≤ length xs → length (take n xs) ≡ n
length-take zero xs h = refl
length-take (suc n) [] h = absurd (omega arith)
length-take (suc n) (x ∷ xs) h = ap suc (length-take n xs (omega arith))

pub take-drop : (n : ℕ) (xs : Bytes) → take n xs ++ drop n xs ≡ xs
take-drop zero xs = refl
take-drop (suc n) [] = refl
take-drop (suc n) (x ∷ xs) = ap (◌∷◌ x) (take-drop n xs)

take_whole : (a b : Bytes) (n : ℕ) → n ≡ length a → take n (a ++ b) ≡ a
take_whole a b n e = take_past a b n 0 (omega arith) ∙ append-nil a

drop_whole : (a b : Bytes) (n : ℕ) → n ≡ length a → drop n (a ++ b) ≡ b
drop_whole a b n e = drop_past a b n 0 (omega arith)

pub write_at_lem :
    (a h c bs : Bytes) (n : ℕ)
    → n ≡ length a
    → length h ≡ length bs
    → write_at (a ++ (h ++ c)) n bs ≡ a ++ (bs ++ c)
unfolding write_at
write_at_lem a h c bs n e same = rw (
  take_whole a (h ++ c) n e,
  drop_past a (h ++ c) (n + length bs) (length bs) (omega arith),
  drop_whole h c (length bs) (sym same),
)

-- Bytes moved up by `w`: the first `w` of them stay where they were.
pub copy_within_up :
    (a b : Bytes) (n w end : ℕ)
    → n ≡ length a
    → copy_within (a ++ b) (n + w) n end
      ≡ a ++ (take w b ++ (take (end - n) b ++ drop (w + (end - n)) b))
unfolding copy_within
copy_within_up a b n w end e =
    rw
      (
        take_past a b (n + w) w (omega arith),
        drop_whole a b n e,
        drop_past a b (n + w + (end - n)) (w + (end - n)) (omega arith),
      )
      (append_assoc a (take w b) _)

-- Bytes moved down over the `w` bytes `h`
pub copy_within_down :
    (a h b : Bytes) (n w end : ℕ)
    → n ≡ length a
    → length h ≡ w
    → copy_within (a ++ (h ++ b)) n (n + w) end
      ≡ a ++ (take (end - (n + w)) b ++ drop (end - (n + w)) (h ++ b))
unfolding copy_within
copy_within_down a h b n w end e same = rw (
  take_whole a (h ++ b) n e,
  drop_past a (h ++ b) (n + w) w (omega arith),
  drop_whole h b w (sym same),
  drop_past a (h ++ b) (n + (end - (n + w))) (end - (n + w)) (omega arith),
)

-- The slice has `w` bytes more and keeps those that it had.
pub grow_lem :
    (s : Slice) (w : ℕ) (a rest : Bytes)
    → s.array ≡ a ++ rest
    → length a ≤ s.len
    → s.len ≤ length s.array
    → ((rest' : Bytes) × ((grow s w).array ≡ a ++ rest'))
      × ((grow s w).len ≡ s.len + w)
      × (s.len + w ≤ length (grow s w).array)
unfolding grow
grow_lem s w a rest e room size = elim (Bool-cases (ltb (length s.array) (s.len + w))) [
  | inl full ↦
      let zeros : Bytes = replicate ((s.len + w) * 2 - s.len) 0 in
      let kept : bytes_of s ≡ a ++ take (s.len - length a) rest =
        ap (take s.len) e ∙ take_past a rest s.len (s.len - length a) (omega arith) in
      rw full (
        (
          take (s.len - length a) rest ++ zeros,
          ap (λ b. b ++ zeros) kept ∙ append_assoc a (take (s.len - length a) rest) zeros,
        ),
        refl,
        omega (
          arith,
          length-append (bytes_of s) zeros,
          length-take s.len s.array size,
          length-replicate {A = ℕ} ((s.len + w) * 2 - s.len) 0,
        ),
      )
  | inr spare ↦ rw spare ((rest, e), refl, ground arith)
]
