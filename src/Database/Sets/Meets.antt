-- ===== src/Database/Sets/Meets.antt =====
-- SINTER and SDIFF as the intersection and the difference of the members.
use red_go.Base.{
  ◌||◌, ◌&&◌, not, Bool, true, false, ◌≡◌, refl, arith, ap, sym, subst, List, [], ◌∷◌, Bytes,
  Bool-cases, inl, inr, ◌==◌,
}
use red_go.HashSet
use red_go.HashSet.{HashSet, new_hash_set}
use red_go.HashSet.Numbers.{elem}
use red_go.HashSet.Refine.{Represents, len_lem}
use red_go.Reply.{empty_multi_bulk_reply}
use red_go.Database.{Db, Outcome}
use red_go.Database.Sets.{get_as_set}
use red_go.Database.Sets.Calculate.{returned, inter_sets, diff_sets, exec_s_inter, exec_s_diff}
use red_go.Database.Sets.Laws.{keep_common_lem, remove_set_lem}
use red_go.Database.Sets.Under.{Holds, empty_members}
use red_go.Database.Sets.Algebra.{
  AllHold, elem_any, elem_all, Answers, Answers-RepliesMembers, RepliesMembers, Holds-cases, Yields,
  Yields-empty, Yields-set, from_first_lem,
}

inter_sets_lem :
    (db : Db) (result : HashSet) (ms : List Bytes) (keys : List Bytes) (mss : List (List Bytes))
    → Represents result ms
    → AllHold db keys mss
    → Yields (inter_sets db result keys) (λ j. elem j ms && elem_all j mss)
unfolding inter_sets
inter_sets_lem db result ms [] [] rep hold =
    Yields-set result ms (λ j. elem j ms && true) rep (λ j. ground arith)
inter_sets_lem db result ms [] (ns ∷ mss) rep hold = absurd hold
inter_sets_lem db result ms (key ∷ keys) [] rep hold = absurd hold
inter_sets_lem db result ms (key ∷ keys) (ns ∷ mss) rep (held, hold) =
    let among : Bytes → Bool = λ j. elem j ms && (elem j ns && elem_all j mss) in
    elim (Holds-cases (get_as_set db key) ns held) [
      | inl (missing, empty) ↦
          let step : inter_sets db result (key ∷ keys) ≡ returned empty_multi_bulk_reply =
            rw (inter_sets, missing) refl in
          subst (λ c. Yields c among) (sym step)
            (Yields-empty among
              (λ j. let none_here : elem j ns ≡ false = ap (elem j) empty in ground arith))
      | inr (s, found, rep_s) ↦
          let (r₁, ms₁, e₁, rep₁, has₁) = keep_common_lem result s ms ns rep rep_s in
          let size = len_lem r₁ ms₁ rep₁ in
          let (ms', replies, has) = inter_sets_lem db r₁ ms₁ keys mss rep₁ hold in
          elim (Bool-cases (HashSet.len r₁ == 0)) [
            | inl none_left ↦
                let empty = empty_members ms₁ (ground (arith, none_left, size)) in
                let step : inter_sets db result (key ∷ keys) ≡ returned empty_multi_bulk_reply =
                  rw (inter_sets, found, e₁, none_left) refl in
                subst (λ c. Yields c among) (sym step)
                  (Yields-empty among (λ j.
                    let none_here : elem j ms₁ ≡ false = ap (elem j) empty in
                    ground (arith, has₁ j)))
            | inr some_left ↦
                let step : inter_sets db result (key ∷ keys) ≡ inter_sets db r₁ keys =
                  rw (inter_sets, found, e₁, some_left) refl in
                subst (λ c. Yields c among) (sym step)
                  (ms', replies, λ j. ground (arith, has j, has₁ j))
          ]
    ]

diff_sets_lem :
    (db : Db) (result : HashSet) (ms : List Bytes) (keys : List Bytes) (mss : List (List Bytes))
    → Represents result ms
    → AllHold db keys mss
    → Yields (diff_sets db result keys) (λ j. elem j ms && not (elem_any j mss))
unfolding diff_sets
diff_sets_lem db result ms [] [] rep hold =
    Yields-set result ms (λ j. elem j ms && true) rep (λ j. ground arith)
diff_sets_lem db result ms [] (ns ∷ mss) rep hold = absurd hold
diff_sets_lem db result ms (key ∷ keys) [] rep hold = absurd hold
diff_sets_lem db result ms (key ∷ keys) (ns ∷ mss) rep (held, hold) =
    let among : Bytes → Bool = λ j. elem j ms && not (elem j ns || elem_any j mss) in
    elim (Holds-cases (get_as_set db key) ns held) [
      | inl (missing, empty) ↦
          let (ms', replies, has) = diff_sets_lem db result ms keys mss rep hold in
          let step : diff_sets db result (key ∷ keys) ≡ diff_sets db result keys =
            rw (diff_sets, missing) refl in
          subst (λ c. Yields c among) (sym step)
            (
              ms',
              replies,
              λ j. let none_here : elem j ns ≡ false = ap (elem j) empty in ground (arith, has j),
            )
      | inr (s, found, rep_s) ↦
          let (r₁, ms₁, e₁, rep₁, has₁) = remove_set_lem result s ms ns rep rep_s in
          let size = len_lem r₁ ms₁ rep₁ in
          let (ms', replies, has) = diff_sets_lem db r₁ ms₁ keys mss rep₁ hold in
          elim (Bool-cases (HashSet.len r₁ == 0)) [
            | inl none_left ↦
                let empty = empty_members ms₁ (ground (arith, none_left, size)) in
                let step : diff_sets db result (key ∷ keys) ≡ returned empty_multi_bulk_reply =
                  rw (diff_sets, found, e₁, none_left) refl in
                subst (λ c. Yields c among) (sym step)
                  (Yields-empty among (λ j.
                    let none_here : elem j ms₁ ≡ false = ap (elem j) empty in
                    ground (arith, has₁ j)))
            | inr some_left ↦
                let step : diff_sets db result (key ∷ keys) ≡ diff_sets db r₁ keys =
                  rw (diff_sets, found, e₁, some_left) refl in
                subst (λ c. Yields c among) (sym step)
                  (ms', replies, λ j. ground (arith, has j, has₁ j))
          ]
    ]

-- A reply of members, and the database as it was
abbrev pub Replies : Db → (Bytes → Bool) → Outcome × Db → Type 0
Replies db among outcome =
    (ns : List Bytes) × RepliesMembers outcome.0 ns
    × (outcome.1 ≡ db)
    × ((j : Bytes) → elem j ns ≡ among j)

pub exec_s_inter-Answers :
    (db : Db) (key : Bytes) (keys ms : List Bytes) (mss : List (List Bytes))
    → Holds (get_as_set db key) ms
    → AllHold db keys mss
    → (ns : List Bytes) × Answers (exec_s_inter db (key ∷ keys)).0 ns
      × ((j : Bytes) → elem j ns ≡ (elem j ms && elem_all j mss))
unfolding exec_s_inter
exec_s_inter-Answers db key keys ms mss held hold =
    from_first_lem (λ r. inter_sets db r keys) (get_as_set db key) ms (λ b j. b && elem_all j mss)
      held (λ j. refl) (λ s ns rep. inter_sets_lem db s ns keys mss rep hold)

-- SINTER of keys that hold sets, or nothing, replies the members that all of them have, on the wire as
-- an array, and changes nothing.
exec_s_inter_lem :
    (db : Db) (key : Bytes) (keys ms : List Bytes) (mss : List (List Bytes))
    → Holds (get_as_set db key) ms
    → AllHold db keys mss
    → Replies db (λ j. elem j ms && elem_all j mss) (exec_s_inter db (key ∷ keys))
unfolding exec_s_inter
exec_s_inter_lem db key keys ms mss held hold =
    let (ns, answers, has) = exec_s_inter-Answers db key keys ms mss held hold in
    (ns, Answers-RepliesMembers _ ns answers, refl, has)

pub exec_s_diff-Answers :
    (db : Db) (key : Bytes) (keys ms : List Bytes) (mss : List (List Bytes))
    → Holds (get_as_set db key) ms
    → AllHold db keys mss
    → (ns : List Bytes) × Answers (exec_s_diff db (key ∷ keys)).0 ns
      × ((j : Bytes) → elem j ns ≡ (elem j ms && not (elem_any j mss)))
unfolding exec_s_diff
exec_s_diff-Answers db key keys ms mss held hold =
    from_first_lem (λ r. diff_sets db r keys) (get_as_set db key) ms
      (λ b j. b && not (elem_any j mss)) held (λ j. refl)
      (λ s ns rep. diff_sets_lem db s ns keys mss rep hold)

-- SDIFF of keys that hold sets, or nothing, replies the members of the first that none of the others
-- has, on the wire as an array, and changes nothing.
exec_s_diff_lem :
    (db : Db) (key : Bytes) (keys ms : List Bytes) (mss : List (List Bytes))
    → Holds (get_as_set db key) ms
    → AllHold db keys mss
    → Replies db (λ j. elem j ms && not (elem_any j mss)) (exec_s_diff db (key ∷ keys))
unfolding exec_s_diff
exec_s_diff_lem db key keys ms mss held hold =
    let (ns, answers, has) = exec_s_diff-Answers db key keys ms mss held hold in
    (ns, Answers-RepliesMembers _ ns answers, refl, has)

-- On keys that hold sets, or nothing, SINTER replies the members of the first that all of the others
-- have, and SDIFF those that none of the others has, on the wire as an array; they change nothing.
pub exec_s_inter_diff_lem :
    (db : Db) (key : Bytes) (keys ms : List Bytes) (mss : List (List Bytes))
    → Holds (get_as_set db key) ms
    → AllHold db keys mss
    → Replies db (λ j. elem j ms && elem_all j mss) (exec_s_inter db (key ∷ keys))
      × Replies db (λ j. elem j ms && not (elem_any j mss)) (exec_s_diff db (key ∷ keys))
exec_s_inter_diff_lem db key keys ms mss held hold =
    (exec_s_inter_lem db key keys ms mss held hold, exec_s_diff_lem db key keys ms mss held hold)
