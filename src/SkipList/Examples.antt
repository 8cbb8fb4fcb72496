-- ===== src/SkipList/Examples.antt =====
-- The theorems on skip lists at a concrete list, and a rank that the list does not give.
use red_go.Base.{
  ℕ, ◌≤◌, Bool, false, List, [], ◌∷◌, Option, none, some, ◌==◌, pos, negsuc, ◌≡◌, refl, sym, subst,
  eq_bytes,
}
use red_go.Slice.{slice}
use red_go.Score.{Item, ltb_bytes}
use red_go.SkipList.{
  SkipList, new_skip_list, max_level, random_level, insert, delete, descend, walk, link, set_next,
  inserted, climb,
}
use red_go.SkipList.Reads.{range_by_score, range_by_rank, get_rank, rank_descend, rank_walk}
use red_go.SkipList.Order.{insert_item, remove_item, has_item}
use red_go.SkipList.Valid.{Represents, new_skip_list-Represents}
use red_go.SkipList.NewNode.{random_level-range}
use red_go.SkipList.Insert.{insert-Represents}
use red_go.SkipList.Delete.{delete-Represents}
use red_go.SkipList.Range.{members, in_range}
use red_go.SkipList.Page.{page, range_by_score_lem}
use red_go.SkipList.Rank.{range_by_rank_lem}
use red_go.ZSet.Whole.{whole_score}

abbrev item : ℕ → ℕ → Item ℕ
item m x = record { member = m ∷ []; score = x }

-- The first draw raises the level of a node, the others do not.
abbrev second_level : ℕ → Bool
second_level i = i == 1

abbrev first_level : ℕ → Bool
first_level i = false

abbrev or_empty : Option (SkipList ℕ) → SkipList ℕ
or_empty none = new_skip_list
or_empty (some s) = s

built :
    (s : SkipList ℕ) (xs : List (Item ℕ)) (x : Item ℕ) (draws : ℕ → Bool)
    → Represents s xs
    → Represents (or_empty (insert x draws s)) (insert_item x xs)
built s xs x draws r =
    let (s', e, r') = insert-Represents s xs x draws r in
    subst (λ o. Represents (or_empty o) (insert_item x xs)) (sym e) r'

abbrev one : SkipList ℕ
one = or_empty (insert (item b'b' 2) second_level new_skip_list)

abbrev two : SkipList ℕ
two = or_empty (insert (item b'c' 3) first_level one)

abbrev three : SkipList ℕ
three = or_empty (insert (item b'a' 1) first_level two)

abbrev three_items : List (Item ℕ)
three_items = item b'a' 1 ∷ item b'b' 2 ∷ item b'c' 3 ∷ []

three-Represents : Represents three three_items
unfolding insert_item whole_score
three-Represents = built two (item b'b' 2 ∷ item b'c' 3 ∷ []) (item b'a' 1) first_level (
    built one (item b'b' 2 ∷ []) (item b'c' 3) first_level
      (built new_skip_list [] (item b'b' 2) second_level new_skip_list-Represents))

-- `c` stands behind two members, but the search reaches it in one hop, over level 1.
rank_of_c : get_rank (item b'c' 3) three ≡ some (some 1)
unfolding insert get_rank rank_descend rank_walk descend walk link set_next inserted random_level
    climb ltb_bytes eq_bytes whole_score
rank_of_c = refl

random_level-range_example :
    (1 ≤ random_level second_level) × (random_level second_level ≤ max_level)
random_level-range_example = random_level-range second_level

insert-Represents_example :
    (s' : SkipList ℕ) × (insert (item b'd' 2) second_level three ≡ some s')
    × Represents s' (insert_item (item b'd' 2) three_items)
insert-Represents_example =
    insert-Represents three three_items (item b'd' 2) second_level three-Represents

delete-Represents_example :
    (s' : SkipList ℕ) × (delete (item b'b' 2) three ≡ some (s', has_item (item b'b' 2) three_items))
    × Represents s' (remove_item (item b'b' 2) three_items)
delete-Represents_example = delete-Represents three three_items (item b'b' 2) three-Represents

range_by_score_lem_example :
    range_by_score 1 3 (pos 1) (pos 1) three
    ≡ some (page (pos 1) (pos 1) (members (in_range 1 3 three_items)))
range_by_score_lem_example =
    range_by_score_lem three three_items 1 3 (pos 1) (pos 1) three-Represents

range_by_rank_lem_example :
    range_by_rank (negsuc 1) (pos 9) three ≡ some (slice (negsuc 1) (pos 9) (members three_items))
range_by_rank_lem_example = range_by_rank_lem three three_items (negsuc 1) (pos 9) three-Represents
