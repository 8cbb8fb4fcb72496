-- ===== src/Database/Sets/Algebra.antt =====
-- SUNION as the union of the members, and what the calculations on sets share.
use red_go.Base.{
  ◌||◌, ◌&&◌, ◌⊎◌, Bool, true, false, ◌≡◌, refl, arith, ap, ◌∙◌, sym, subst, List, [], ◌∷◌, Bytes,
  All, inl, inr,
}
use red_go.HashSet.{HashSet, new_hash_set}
use red_go.HashSet.Numbers.{IsCanonical, IsUnique, elem}
use red_go.HashSet.Refine.{Represents, new_hash_set-Represents, members_lem}
use red_go.Reply.{Reply, empty_multi_bulk_reply, to_bytes}
use red_go.Database.{Db, Outcome, replied}
use red_go.Database.Sets.{SetAt, no_set, other_type, found_set, get_as_set, bulks}
use red_go.Database.Sets.Calculate.{
  Calculation, returned, result_set, union_sets, calculated, exec_s_union, from_first,
}
use red_go.Database.Sets.Laws.{add_set_lem}
use red_go.Database.Sets.Under.{Holds}

-- The members under each of the keys
abbrev pub AllHold : Db → List Bytes → List (List Bytes) → Type 0
AllHold db [] [] = Unit
AllHold db [] (ms ∷ mss) = ⊥
AllHold db (key ∷ keys) [] = ⊥
AllHold db (key ∷ keys) (ms ∷ mss) = Holds (get_as_set db key) ms × AllHold db keys mss

abbrev pub elem_any : Bytes → List (List Bytes) → Bool
elem_any j [] = false
elem_any j (ms ∷ mss) = elem j ms || elem_any j mss

abbrev pub elem_all : Bytes → List (List Bytes) → Bool
elem_all j [] = true
elem_all j (ms ∷ mss) = elem j ms && elem_all j mss

-- The outcome is a reply with the bytes of the array of these members.
abbrev pub RepliesMembers : Outcome → List Bytes → Type 0
RepliesMembers outcome ms =
    (reply : Reply) × (outcome ≡ replied reply) × (to_bytes reply ≡ to_bytes (bulks ms))

pub Holds-cases :
    (at : SetAt) (ms : List Bytes)
    → Holds at ms
    → ((at ≡ no_set) × (ms ≡ [])) ⊎ ((s : HashSet) × (at ≡ found_set s) × Represents s ms)
Holds-cases no_set ms e = inl (refl, e)
Holds-cases other_type ms e = absurd e
Holds-cases (found_set s) ms rep = inr (s, refl, rep)

union_sets_lem :
    (db : Db) (result : HashSet) (ms : List Bytes) (keys : List Bytes) (mss : List (List Bytes))
    → Represents result ms
    → AllHold db keys mss
    → (s' : HashSet) × (ms' : List Bytes) × (union_sets db result keys ≡ result_set s')
      × Represents s' ms'
      × ((j : Bytes) → elem j ms' ≡ (elem_any j mss || elem j ms))
unfolding union_sets
union_sets_lem db result ms [] [] rep hold = (result, ms, refl, rep, λ j. refl)
union_sets_lem db result ms [] (ns ∷ mss) rep hold = absurd hold
union_sets_lem db result ms (key ∷ keys) [] rep hold = absurd hold
union_sets_lem db result ms (key ∷ keys) (ns ∷ mss) rep (held, hold) =
    elim (Holds-cases (get_as_set db key) ns held) [
      | inl (missing, empty) ↦
          let (s', ms', e, rep', has) = union_sets_lem db result ms keys mss rep hold in
          (
            s',
            ms',
            rw (union_sets, missing) e,
            rep',
            λ j. let none_here : elem j ns ≡ false = ap (elem j) empty in ground (arith, has j),
          )
      | inr (s, found, rep_s) ↦
          let (r₁, ms₁, e₁, rep₁, has₁) = add_set_lem result s ms ns rep rep_s in
          let (s', ms', e, rep', has) = union_sets_lem db r₁ ms₁ keys mss rep₁ hold in
          (s', ms', rw (union_sets, found, e₁) e, rep', λ j. ground (arith, has₁ j, has j))
    ]

calculated_lem :
    (s : HashSet) (ms : List Bytes)
    → Represents s ms
    → calculated (result_set s) ≡ replied (bulks ms)
unfolding calculated
calculated_lem s ms rep = rw (calculated, members_lem s ms rep) refl

-- SUNION of keys that hold sets, or nothing, replies the members of all of them, each
-- once, and changes nothing.
pub exec_s_union_lem :
    (db : Db) (keys : List Bytes) (mss : List (List Bytes))
    → AllHold db keys mss
    → (ms : List Bytes) × (exec_s_union db keys ≡ (replied (bulks ms), db))
      × All IsCanonical ms
      × IsUnique ms
      × ((j : Bytes) → elem j ms ≡ elem_any j mss)
unfolding exec_s_union
exec_s_union_lem db keys mss hold =
    let (s, ms, e, rep, has) =
      union_sets_lem db new_hash_set [] keys mss new_hash_set-Represents hold in
    (
      ms,
      rw e (ap (λ o. (o, db)) (calculated_lem s ms rep)),
      rep.0,
      rep.1,
      λ j. ground (arith, has j),
    )

-- An answer of members: their bulks, or the reply of an empty array
abbrev pub Answers : Outcome → List Bytes → Type 0
Answers outcome ms =
    ((outcome ≡ replied (bulks ms)) × All IsCanonical ms)
    ⊎ ((outcome ≡ replied empty_multi_bulk_reply) × (ms ≡ []))

-- What a calculation replies: the members of a set, or the empty array that stands for none
abbrev pub Yields : Calculation → (Bytes → Bool) → Type 0
Yields calculation among =
    (ms : List Bytes) × Answers (calculated calculation) ms × ((j : Bytes) → elem j ms ≡ among j)

empty_reply : to_bytes empty_multi_bulk_reply ≡ to_bytes (bulks [])
unfolding to_bytes bulks red_go.Strconv.itoa
empty_reply = refl

pub Answers-RepliesMembers :
    (outcome : Outcome) (ms : List Bytes) → Answers outcome ms → RepliesMembers outcome ms
Answers-RepliesMembers outcome ms (inl (e, _)) = (bulks ms, e, refl)
Answers-RepliesMembers outcome ms (inr (e, none_left)) =
    (empty_multi_bulk_reply, e, empty_reply ∙ ap (λ l. to_bytes (bulks l)) (sym none_left))

pub Yields-empty :
    (among : Bytes → Bool)
    → ((j : Bytes) → among j ≡ false)
    → Yields (returned empty_multi_bulk_reply) among
unfolding calculated
Yields-empty among h = ([], inr (refl, refl), λ j. sym (h j))

pub Yields-set :
    (s : HashSet) (ms : List Bytes) (among : Bytes → Bool)
    → Represents s ms
    → ((j : Bytes) → elem j ms ≡ among j)
    → Yields (result_set s) among
Yields-set s ms among rep h = (ms, inl (calculated_lem s ms rep, rep.0), h)

-- A calculation from a copy of the first set, if its rounds yield `among` of the members
pub from_first_lem :
    (rounds : HashSet → Calculation) (at : SetAt) (ms : List Bytes) (among : Bool → Bytes → Bool)
    → Holds at ms
    → ((j : Bytes) → among false j ≡ false)
    → ((s : HashSet) (ns : List Bytes)
        → Represents s ns
        → Yields (rounds s) (λ j. among (elem j ns) j))
    → Yields (from_first rounds at) (λ j. among (elem j ms) j)
unfolding from_first
from_first_lem rounds no_set ms among e no_one run =
    Yields-empty (λ j. among (elem j ms) j) (λ j. ap (λ ns. among (elem j ns) j) e ∙ no_one j)
from_first_lem rounds other_type ms among e no_one run = absurd e
from_first_lem rounds (found_set s) ms among rep no_one run =
    let (r, ms', e, rep', has) = add_set_lem new_hash_set s [] ms new_hash_set-Represents rep in
    let step : from_first rounds (found_set s) ≡ rounds r = rw (from_first, e) refl in
    let (ns, replies, same) = run r ms' rep' in
    subst (λ c. Yields c (λ j. among (elem j ms) j)) (sym step)
      (ns, replies, λ j. same j ∙ ap (λ b. among b j) (has j ∙ ground arith))
