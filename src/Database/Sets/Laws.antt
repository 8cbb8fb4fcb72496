-- ===== src/Database/Sets/Laws.antt =====
-- The loops of the set commands, on the members.
use red_go.Base.{
  ℕ, ◌+◌, ◌||◌, ◌&&◌, not, true, false, ◌≡◌, refl, arith, ap, List, [], ◌∷◌, some, Bytes, All,
  eq_bytes, eq_bytes_iff, if◌then◌else◌, Bool-cases, inl, inr, length,
}
use red_go.HashSet.{HashSet}
use red_go.HashSet.Numbers.{IsCanonical, elem}
use red_go.HashSet.Refine.{Represents, members_lem, contains_lem}
use red_go.HashSet.Edits.{news, olds}
use red_go.HashSet.Members.{add-Represents, remove-Represents}
use red_go.Database.Sets.{add_members, remove_members}
use red_go.Database.Sets.Calculate.{add_set, missing_in, keep_common, remove_set}

-- The members behind the addition of a list, and the count of those that were new
abbrev pub IsUnionWith : List Bytes → List Bytes → List Bytes → ℕ → Type 0
IsUnionWith xs ms ms' count =
    (length ms' ≡ length ms + count) × ((j : Bytes) → elem j ms' ≡ (elem j xs || elem j ms))

-- The members behind the removal of a list, and the count of those that were there
abbrev pub IsLess : List Bytes → List Bytes → List Bytes → ℕ → Type 0
IsLess xs ms ms' count =
    (length ms ≡ length ms' + count)
    × ((j : Bytes) → elem j ms' ≡ (if elem j xs then false else elem j ms))

pub add_members_lem :
    (s : HashSet) (ms xs : List Bytes)
    → Represents s ms
    → All IsCanonical xs
    → (s' : HashSet) × (ms' : List Bytes) × (count : ℕ) × (add_members s xs ≡ some (s', count))
      × Represents s' ms'
      × IsUnionWith xs ms ms' count
unfolding add_members
add_members_lem s ms [] rep all = (s, ms, 0, refl, rep, (omega arith, λ j. refl))
add_members_lem s ms (x ∷ xs) rep (canonical, all) =
    let (s₁, ms₁, e₁, rep₁, (size₁, has₁)) = add-Represents s ms x rep canonical in
    let (s₂, ms₂, count, e₂, rep₂, (size₂, has₂)) = add_members_lem s₁ ms₁ xs rep₁ all in
    (
      s₂,
      ms₂,
      news x ms + count,
      rw (e₁, e₂) refl,
      rep₂,
      (omega (arith, size₁, size₂), λ j. ground (arith, has₁ j, has₂ j)),
    )

pub remove_members_lem :
    (s : HashSet) (ms xs : List Bytes)
    → Represents s ms
    → All IsCanonical xs
    → (s' : HashSet) × (ms' : List Bytes) × (count : ℕ) × (remove_members s xs ≡ some (s', count))
      × Represents s' ms'
      × IsLess xs ms ms' count
unfolding remove_members
remove_members_lem s ms [] rep all = (s, ms, 0, refl, rep, (omega arith, λ j. refl))
remove_members_lem s ms (x ∷ xs) rep (canonical, all) =
    let (s₁, ms₁, e₁, rep₁, (size₁, has₁)) = remove-Represents s ms x rep canonical in
    let (s₂, ms₂, count, e₂, rep₂, (size₂, has₂)) = remove_members_lem s₁ ms₁ xs rep₁ all in
    (
      s₂,
      ms₂,
      olds x ms + count,
      rw (e₁, e₂) refl,
      rep₂,
      (omega (arith, size₁, size₂), λ j. ground (arith, has₁ j, has₂ j)),
    )

pub add_set_lem :
    (result s : HashSet) (ms ns : List Bytes)
    → Represents result ms
    → Represents s ns
    → (result' : HashSet) × (ms' : List Bytes) × (add_set result s ≡ some result')
      × Represents result' ms'
      × ((j : Bytes) → elem j ms' ≡ (elem j ns || elem j ms))
unfolding add_set
add_set_lem result s ms ns rep rep' =
    let (all, _, _) = rep' in
    let (r, ms', _, e, rep₁, (_, has₁)) = add_members_lem result ms ns rep all in
    (r, ms', rw (members_lem s ns rep', e) refl, rep₁, has₁)

pub remove_set_lem :
    (result s : HashSet) (ms ns : List Bytes)
    → Represents result ms
    → Represents s ns
    → (result' : HashSet) × (ms' : List Bytes) × (remove_set result s ≡ some result')
      × Represents result' ms'
      × ((j : Bytes) → elem j ms' ≡ (elem j ms && not (elem j ns)))
unfolding remove_set
remove_set_lem result s ms ns rep rep' =
    let (all, _, _) = rep' in
    let (r, ms', _, e, rep₁, (_, has₁)) = remove_members_lem result ms ns rep all in
    (r, ms', rw (members_lem s ns rep', e) refl, rep₁, λ j. ground (arith, has₁ j))

-- The members that are not among `ns`
abbrev lacking : List Bytes → List Bytes → List Bytes
lacking ns [] = []
lacking ns (m ∷ ms) = if elem m ns then lacking ns ms else m ∷ lacking ns ms

missing_in-lacking :
    (s : HashSet) (ns ms : List Bytes)
    → Represents s ns
    → All IsCanonical ms
    → missing_in s ms ≡ some (lacking ns ms)
unfolding missing_in
missing_in-lacking s ns [] rep all = refl
missing_in-lacking s ns (m ∷ ms) rep (canonical, all) =
    rw (contains_lem s ns m rep canonical, missing_in-lacking s ns ms rep all) refl

elem-lacking :
    (j : Bytes) (ns ms : List Bytes) → elem j (lacking ns ms) ≡ (elem j ms && not (elem j ns))
elem-lacking j ns [] = refl
elem-lacking j ns (m ∷ ms) = elim (Bool-cases (eq_bytes m j)) [
  | inl same ↦
      let equal = (eq_bytes_iff m j).0 same in
      let among : elem m ns ≡ elem j ns = ap (λ k. elem k ns) equal in
      ground (arith, same, among, elem-lacking j ns ms)
  | inr differs ↦ ground (arith, differs, elem-lacking j ns ms)
]

lacking-IsCanonical : (ns ms : List Bytes) → All IsCanonical ms → All IsCanonical (lacking ns ms)
lacking-IsCanonical ns [] h = tt
lacking-IsCanonical ns (m ∷ ms) (hm, h) =
    elim (elem m ns) as (λ b. All IsCanonical (if b then lacking ns ms else m ∷ lacking ns ms)) [
      | true ↦ lacking-IsCanonical ns ms h
      | false ↦ (hm, lacking-IsCanonical ns ms h)
    ]

pub keep_common_lem :
    (result s : HashSet) (ms ns : List Bytes)
    → Represents result ms
    → Represents s ns
    → (result' : HashSet) × (ms' : List Bytes) × (keep_common result s ≡ some result')
      × Represents result' ms'
      × ((j : Bytes) → elem j ms' ≡ (elem j ms && elem j ns))
unfolding keep_common
keep_common_lem result s ms ns rep rep' =
    let (all, _, _) = rep in
    let (r, ms', _, e, rep₁, (_, has₁)) =
      remove_members_lem result ms (lacking ns ms) rep (lacking-IsCanonical ns ms all) in
    (
      r,
      ms',
      rw (members_lem result ms rep, missing_in-lacking s ns ms rep' all, e) refl,
      rep₁,
      λ j. ground (arith, has₁ j, elem-lacking j ns ms),
    )
