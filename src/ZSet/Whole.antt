-- ===== src/ZSet/Whole.antt =====
-- Whole numbers as scores, printed as one byte, for tests.
use red_go.Base.{
  ℕ, Bool, true, false, not, ◌||◌, List, [], ◌∷◌, Bytes, ltb, leb, ◌==◌, if◌then◌else◌, ◌≡◌, refl,
  arith,
}
use red_go.Score.{Score}
use red_go.ZSet.{Floats}
use red_go.ZSet.Valid.{Parses}

pub ltb_asym : (a b : ℕ) → ltb a b ≡ true → ltb b a ≡ false
ltb_asym a b h = ground arith

pub ltb_cotrans : (a b c : ℕ) → ltb a c ≡ true → (ltb a b || ltb b c) ≡ true
ltb_cotrans a b c h = ground arith

pub ==_ltb : (a b : ℕ) → (a == b) ≡ not (ltb a b || ltb b a)
==_ltb a b = ground arith

instance unfoldable pub whole_score : Score ℕ
whole_score = record {
  nought = 0;
  less = ltb;
  same = λ a b. a == b;
  less_asym = ltb_asym;
  less_cotrans = ltb_cotrans;
  same_less = ==_ltb;
}

abbrev pub parse_byte : Bytes → ℕ × Bool
parse_byte [] = (0, true)
parse_byte (c ∷ []) = (c, false)
parse_byte (c ∷ d ∷ s) = (0, true)

abbrev pub insert_pair : Bytes × Bytes → List (Bytes × Bytes) → List (Bytes × Bytes)
insert_pair p [] = p ∷ []
insert_pair p (q ∷ ps) =
    if leb (parse_byte p.1).0 (parse_byte q.1).0 then p ∷ q ∷ ps else q ∷ insert_pair p ps

abbrev pub sort_pairs : List (Bytes × Bytes) → List (Bytes × Bytes)
sort_pairs [] = []
sort_pairs (p ∷ ps) = insert_pair p (sort_pairs ps)

abbrev pub whole_floats : Floats ℕ
whole_floats = record {
  format = λ n. n ∷ [];
  parse = parse_byte;
  format_float = λ n. n ∷ [];
  sort_slice = sort_pairs;
}

pub whole-Parses : Parses whole_floats
whole-Parses n = refl
