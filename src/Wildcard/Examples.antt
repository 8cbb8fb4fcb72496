-- ===== src/Wildcard/Examples.antt =====
-- Patterns of KEYS and the theorem on them at concrete texts.
use red_go.Base.{true, codes, ◌≡◌, refl}
use red_go.Wildcard.{compile_pattern, is_match}
use red_go.Wildcard.Matches.{is_match-matches, matches}

matches_range : is_match (compile_pattern (codes "file[0-9].log")) (codes "file7.log") ≡ true
unfolding compile_pattern is_match
matches_range = refl

matches_star : is_match (compile_pattern (codes "us*:?")) (codes "user:1") ≡ true
unfolding compile_pattern is_match
matches_star = refl

-- A set with `^` and `-` is no negated range: it excludes the two ends only.
matches_negation : is_match (compile_pattern (codes "file[^0-9].log")) (codes "file5.log") ≡ true
unfolding compile_pattern is_match
matches_negation = refl

is_match-matches_example :
    is_match (compile_pattern (codes "us*:?")) (codes "user:1")
    ≡ matches (compile_pattern (codes "us*:?")) (codes "user:1")
is_match-matches_example = is_match-matches (compile_pattern (codes "us*:?")) (codes "user:1")
