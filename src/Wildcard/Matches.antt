-- ===== src/Wildcard/Matches.antt =====
-- The table of `IsMatch` against a matcher that reads the pattern from its head.
use red_go.Base.{
  ℕ, List, [], ◌∷◌, Bytes, Bool, true, false, ◌&&◌, ◌||◌, if◌then◌else◌, ◌≡◌, refl, arith, ap, ◌∙◌,
  sym,
}
use red_go.Wildcard.{Item, is_all, takes, cell, first_row, next_row, rows, last_cell, is_match}

-- Does the matcher accept a suffix of the text, the whole text or a shorter one?
abbrev pub some_suffix : (Bytes → Bool) → Bytes → Bool
some_suffix f [] = f []
some_suffix f (c ∷ s) = f (c ∷ s) || some_suffix f s

-- Does the item take the first byte, and the matcher the rest?
abbrev pub one_byte : Item → (Bytes → Bool) → Bytes → Bool
one_byte i f [] = false
one_byte i f (c ∷ s) = takes i c && f s

-- The pattern matches the text: a `*` takes any bytes, and any other item takes one byte.
unfoldable pub matches : List Item → Bytes → Bool
matches [] [] = true
matches [] (c ∷ s) = false
matches (i ∷ items) s =
    let rest = matches items in if is_all i then some_suffix rest s else one_byte i rest s

-- What a cell that holds promises for the rest of the text: behind a `*` more bytes may be skipped.
abbrev promise : Bool → List Item → Bytes → Bool
promise true items s = some_suffix (matches items) s
promise false items s = matches items s

-- Some cell of the row `b ∷ row` holds and its promise is kept.
abbrev reach : Bool → Bool → List Item → List Bool → Bytes → Bool
reach behind b [] row s = b && promise behind [] s
reach behind b (i ∷ items) [] s = false
reach behind b (i ∷ items) (c ∷ row) s =
    b && promise behind (i ∷ items) s || reach (is_all i) c items row s

abbrev tail_reach : List Item → List Bool → Bytes → Bool
tail_reach [] row s = false
tail_reach (i ∷ items) [] s = false
tail_reach (i ∷ items) (c ∷ row) s = reach (is_all i) c items row s

-- The row `b ∷ row` has a cell before each item and one at the end, and where a cell before a `*`
-- holds, the one behind it does.
abbrev IsRow : Bool → List Item → List Bool → Type 0
IsRow b [] [] = Unit
IsRow b [] (c ∷ row) = ⊥
IsRow b (i ∷ items) [] = ⊥
IsRow b (i ∷ items) (c ∷ row) = (is_all i && b ≡ is_all i && b && c) × IsRow c items row

promise-matches :
    (behind : Bool) (items : List Item) (s : Bytes)
    → matches items s ≡ true
    → promise behind items s ≡ true
promise-matches true items [] h = h
promise-matches true items (c ∷ s) h = ground arith
promise-matches false items s h = h

matches-all :
    (i : Item) (items : List Item) (s : Bytes)
    → is_all i ≡ true
    → matches (i ∷ items) s ≡ promise true items s
unfolding matches
matches-all i items s h = ground arith

matches-one :
    (i : Item) (items : List Item) (s : Bytes)
    → is_all i ≡ false
    → matches (i ∷ items) s ≡ one_byte i (matches items) s
unfolding matches
matches-one i items s h = ground arith

matches-nil : matches [] [] ≡ true
unfolding matches
matches-nil = refl

matches-nil_cons : (k : ℕ) (s : Bytes) → matches [] (k ∷ s) ≡ false
unfolding matches
matches-nil_cons k s = refl

promise_end : (behind : Bool) (items : List Item) → promise behind items [] ≡ matches items []
promise_end true items = refl
promise_end false items = refl

matches_end :
    (i : Item) (items : List Item)
    → matches (i ∷ items) [] ≡ (if is_all i then matches items [] else false)
unfolding matches
matches_end i items = ground arith

reach-head :
    (behind b : Bool) (items : List Item) (row : List Bool) (s : Bytes)
    → IsRow b items row
    → reach behind b items row s ≡ (b && promise behind items s || tail_reach items row s)
reach-head behind b [] [] s h = ground arith
reach-head behind b [] (c ∷ row) s h = absurd h
reach-head behind b (i ∷ items) [] s h = absurd h
reach-head behind b (i ∷ items) (c ∷ row) s h = refl

-- At the end of the text the promises that are kept come down to the last cell.
reach_end :
    (behind b : Bool) (items : List Item) (row : List Bool)
    → IsRow b items row
    → reach behind b items row [] ≡ last_cell (b ∷ row)
unfolding last_cell
reach_end true b [] [] h = ground (arith, matches-nil)
reach_end false b [] [] h = ground (arith, matches-nil)
reach_end behind b [] (c ∷ row) h = absurd h
reach_end behind b (i ∷ items) [] h = absurd h
reach_end behind b (i ∷ items) (c ∷ row) (closed, h) = ground (
  arith,
  reach_end (is_all i) c items row h,
  reach-head (is_all i) c items row [] h,
  promise_end behind (i ∷ items),
  promise_end (is_all i) items,
  matches_end i items,
)

-- A row of the table, from its cell `left` on.
abbrev Next : ℕ → Bool → Bool → List Item → Bool → List Bool → Type 0
Next k behind left items b row =
    (r : List Bool) × (next_row k left items (b ∷ row) ≡ left ∷ r)
    × IsRow left items r
    × ((s : Bytes)
        → reach behind left items r s ≡ (
            left && promise behind items s
            || (b && matches items (k ∷ s) || tail_reach items row (k ∷ s))))

Next-row-reach :
    (k : ℕ) (behind left : Bool) (items : List Item) (b : Bool) (row : List Bool)
    → IsRow b items row
    → Next k behind left items b row
unfolding next_row cell
Next-row-reach k behind left [] b [] h = ([], refl, tt, λ s. ground (arith, matches-nil_cons k s))
Next-row-reach k behind left [] b (c ∷ row) h = absurd h
Next-row-reach k behind left (i ∷ items) b [] h = absurd h
Next-row-reach k behind left (i ∷ items) b (c ∷ row) (closed, h) =
    let n = cell i k left c b in
    let (r, e, valid, kept) = Next-row-reach k (is_all i) n items c row h in
    (
      n ∷ r,
      ap (◌∷◌ left) e,
      (ground arith, valid),
      λ s. ground (
        arith,
        kept s,
        reach-head (is_all i) c items row (k ∷ s) h,
        promise-matches behind (i ∷ items) s,
        matches-all i items s,
        matches-all i items (k ∷ s),
        matches-one i items (k ∷ s),
      ),
    )

reach-first :
    (behind b : Bool) (items : List Item)
    → (row : List Bool) × (first_row b items ≡ b ∷ row)
      × IsRow b items row
      × ((s : Bytes) → reach behind b items row s ≡ (b && promise behind items s))
unfolding first_row
reach-first behind b [] = ([], refl, tt, λ s. refl)
reach-first behind b (i ∷ items) =
    let (row, e, valid, kept) = reach-first (is_all i) (b && is_all i) items in
    (
      (b && is_all i) ∷ row,
      ap (◌∷◌ b) e,
      (ground arith, valid),
      λ s. ground (arith, kept s, promise-matches behind (i ∷ items) s, matches-all i items s),
    )

rows-reach :
    (items : List Item) (b : Bool) (row : List Bool) (key : Bytes)
    → IsRow b items row
    → last_cell (rows items (b ∷ row) key) ≡ reach false b items row key
unfolding rows
rows-reach items b row [] h = sym (reach_end false b items row h)
rows-reach items b row (k ∷ key) h =
    let (r, e, valid, kept) = Next-row-reach k false false items b row h in
    ap (λ t. last_cell (rows items t key)) e
    ∙ rows-reach items false r key valid
    ∙ kept key
    ∙ sym (reach-head false b items row (k ∷ key) h)

-- For every pattern and every text, the table of `IsMatch` computes what a matcher decides that
-- reads the pattern from its head: a `*` takes any bytes, and any other item takes one byte that it
-- allows.
pub is_match-matches : (items : List Item) (key : Bytes) → is_match items key ≡ matches items key
unfolding is_match
is_match-matches [] [] = sym matches-nil
is_match-matches [] (c ∷ key) = sym (matches-nil_cons c key)
is_match-matches (i ∷ items) key =
    let (row, e, valid, kept) = reach-first false true (i ∷ items) in
    ap (λ t. last_cell (rows (i ∷ items) t key)) e
    ∙ rows-reach (i ∷ items) true row key valid
    ∙ kept key
