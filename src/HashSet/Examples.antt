-- ===== src/HashSet/Examples.antt =====
-- The theorems on sets at the empty set and at one of an integer.
use red_go.Base.{List, [], ◌∷◌, Bytes, codes, some, none, ◌≡◌}
use red_go.Strconv.{parse_int}
use red_go.HashSet.{HashSet, new_hash_set}
use red_go.HashSet.Numbers.{IsCanonical}
use red_go.HashSet.Refine.{Represents, new_hash_set-Represents}
use red_go.HashSet.Members.{Adds, Removes, add-Represents, remove-Represents}

abbrev word : Bytes
word = codes "word"

word-IsCanonical : IsCanonical word
unfolding parse_int
word-IsCanonical v e = absurd (cc)

-- A word turns the empty integer set into a map.
add-Represents_example : Adds new_hash_set word []
add-Represents_example =
    add-Represents new_hash_set [] word new_hash_set-Represents word-IsCanonical

-- The set of the word
abbrev one_word : HashSet
one_word = record new_hash_set { dict = (word, tt) ∷ []; is_intset = red_go.Base.false }

one_word-Represents : Represents one_word (word ∷ [])
one_word-Represents = (
  (word-IsCanonical, tt),
  (red_go.Base.refl, tt),
  red_go.Base.inr (red_go.Base.refl, red_go.Base.refl),
)

remove-Represents_example : Removes one_word word (word ∷ [])
remove-Represents_example =
    remove-Represents one_word (word ∷ []) word one_word-Represents word-IsCanonical
