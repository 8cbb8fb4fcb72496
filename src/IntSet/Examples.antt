-- ===== src/IntSet/Examples.antt =====
-- The theorems on integer sets at a concrete set.
use red_go.Base.{not, List, [], ◌∷◌, ℤ, pos, some, ◌≡◌, refl, arith}
use red_go.IntSet.{IntSet, enc_int16, put_uint, le_bytes, to_bits, add, find_position}
use red_go.IntSet.Order.{has_int}
use red_go.IntSet.Search.{Holds, position, find_position-position}
use red_go.IntSet.Upgrade.{added, add_lem}

abbrev one_and_three : List ℤ
one_and_three = pos 1 ∷ pos 3 ∷ []

-- 1 and 3 in words of 16 bits
abbrev odd : IntSet
odd = record {
  encoding = enc_int16;
  length = 2;
  contents = record { array = 1 ∷ 0 ∷ 3 ∷ 0 ∷ []; len = 4 };
}

odd-Holds : Holds odd one_and_three
unfolding put_uint le_bytes to_bits
odd-Holds = (
  (([], refl), omega arith, omega arith, refl, (omega arith, (omega arith, tt))),
  ((refl, tt), (tt, tt)),
  omega arith,
)

-- 100000 needs words of 32 bits.
add_lem_example :
    (s' : IntSet) × (add odd (pos 100000) ≡ some (s', not (has_int (pos 100000) one_and_three)))
    × Holds s' (added (pos 100000) one_and_three)
add_lem_example = add_lem odd one_and_three (pos 100000) odd-Holds (omega arith) (omega arith)

find_position-position_example : find_position odd (pos 2) ≡ some (position (pos 2) one_and_three)
find_position-position_example = find_position-position odd one_and_three (pos 2) odd-Holds
