-- ===== src/ZSet/Valid.antt =====
-- What holds of a sorted set between its operations, and the move to a skip list.
use red_go.Base.{
  ℕ, ◌≤◌, Bool, true, false, not, [], ◌∷◌, Option, none, some, Bytes, length, eq_bytes,
  eq_bytes_iff, eq_bytes_refl, if◌then◌else◌, ◌≡◌, inl, inr, refl, ap, sym, ◌∙◌, subst, arith,
  Bool-cases, Option-cases,
}
use red_go.GoMap
use red_go.GoMap.{GoMap, lookup, assign, has, Distinct}
use red_go.GoMap.Laws.{lookup-assign, lookup-delete}
use red_go.Score.{Score}
use red_go.SkipList.{SkipList}
use red_go.ZSet.{Floats, ZSet, listpack, skiplist, listpack_max_size, score, convert_pairs}
use red_go.ZSet.Nodes.{Agree, insert-Agree}
use red_go.ZSet.Pairs.{read, find_score-lookup}

-- What `ParseFloat` makes of the text that `Sprintf` prints is a number.
abbrev pub Parses : {F : Type 0} → Floats F → Type 0
Parses {F} lib = (x : F) → (lib.parse (lib.format x)).1 ≡ false

module _ {F : Type 0} ⦃f : Score F⦄ (lib : Floats F) where
  abbrev pub AllParse : GoMap Bytes → Type 0
  AllParse pairs = (k text : Bytes) → lookup k pairs ≡ some text → (lib.parse text).1 ≡ false

  -- No member stands twice, the pairs are few and their scores are numbers; the map and the skip list
  -- agree.
  abbrev pub IsValid : ZSet F → Type 0
  IsValid (listpack pairs) = Distinct pairs × (length pairs ≤ listpack_max_size) × AllParse pairs
  IsValid (skiplist dict sl) = Agree dict sl

  abbrev pub converted : Option Bytes → Option F → Option F
  converted none o = o
  converted (some text) o = some (lib.parse text).0

  pub convert_pairs_lem :
      (draws : ℕ → ℕ → Bool) (pairs : GoMap Bytes) (dict : GoMap F) (sl : SkipList F)
      → Distinct pairs
      → ((k : Bytes) → has (lookup k pairs) ≡ true → lookup k dict ≡ none)
      → Agree dict sl
      → (dict' : GoMap F) × (sl' : SkipList F) × (convert_pairs lib draws pairs dict sl
          ≡ some (skiplist dict' sl'))
        × Agree dict' sl'
        × ((k : Bytes) → lookup k dict' ≡ converted (lookup k pairs) (lookup k dict))
  unfolding convert_pairs lookup
  convert_pairs_lem draws [] dict sl d apart a = (dict, sl, refl, a, λ k. refl)
  convert_pairs_lem draws ((m, text) ∷ pairs) dict sl (absent, d) apart a =
      let value : F = (lib.parse text).0 in
      let fresh : lookup m dict ≡ none = apart m (rw (eq_bytes_refl m) refl) in
      let (sl₁, e, a₁) = insert-Agree dict sl m value a (draws (length pairs)) fresh in
      let apart₁ : (k : Bytes)
          → has (lookup k pairs) ≡ true
          → lookup k (assign m value dict) ≡ none =
        λ k h. elim (Bool-cases (eq_bytes m k)) [
          | inl t ↦
              let here : lookup k pairs ≡ none =
                ap (λ j. lookup j pairs) (sym ((eq_bytes_iff m k).0 t)) ∙ absent in
              absurd (ground (arith, h, here))
          | inr t ↦ lookup-assign m k value dict ∙ rw t (apart k (rw t h))
        ] in
      let (dict', sl', e', a', reads) =
        convert_pairs_lem draws pairs (assign m value dict) sl₁ d apart₁ a₁ in
      (
        dict',
        sl',
        rw e e',
        a',
        λ k.
            reads k
            ∙ ap (converted (lookup k pairs)) (lookup-assign m k value dict)
            ∙ elim (Bool-cases (eq_bytes m k)) [
              | inl t ↦
                  let here : lookup k pairs ≡ none =
                    ap (λ j. lookup j pairs) (sym ((eq_bytes_iff m k).0 t)) ∙ absent in
                  rw (t, here) refl
              | inr t ↦ rw t refl
            ],
      )

  pub AllParse-assign :
      (m : Bytes) (x : F) (pairs : GoMap Bytes)
      → Parses lib
      → AllParse pairs
      → AllParse (assign m (lib.format x) pairs)
  AllParse-assign m x pairs parses h k text e = elim (Bool-cases (eq_bytes m k)) [
    | inl t ↦
        let printed : some (lib.format x) ≡ some text =
          sym (lookup-assign m k (lib.format x) pairs ∙ rw t refl) ∙ e in
        let same : lib.format x ≡ text = cc in subst (λ s. (lib.parse s).1 ≡ false) same (parses x)
    | inr t ↦ h k text (sym (lookup-assign m k (lib.format x) pairs ∙ rw t refl) ∙ e)
  ]

  pub AllParse-delete :
      (m : Bytes) (pairs : GoMap Bytes) → AllParse pairs → AllParse (GoMap.delete m pairs)
  AllParse-delete m pairs h k text e = elim (Bool-cases (eq_bytes m k)) [
    | inl t ↦
        let gone : lookup k (GoMap.delete m pairs) ≡ none = lookup-delete m k pairs ∙ rw t refl in
        absurd (ground (arith, e, gone))
    | inr t ↦ h k text (sym (lookup-delete m k pairs ∙ rw t refl) ∙ e)
  ]

  -- The score of each member behind the replacement of one
  pub read-assign :
      (m k : Bytes) (x : F) (pairs : GoMap Bytes)
      → Parses lib
      → read lib (lookup k (assign m (lib.format x) pairs))
        ≡ (if eq_bytes m k then some (lib.parse (lib.format x)).0 else read lib (lookup k pairs))
  read-assign m k x pairs parses =
      ap (read lib) (lookup-assign m k (lib.format x) pairs)
      ∙ elim (Bool-cases (eq_bytes m k)) [ inl t ↦ rw (t, parses x) refl | inr t ↦ rw t refl ]

  -- The score that `Add` stores: a small set holds the printed score.
  unfoldable pub stored : Bytes → F → ZSet F → F
  stored m x (listpack pairs) = (lib.parse (lib.format x)).0
  stored m x (skiplist dict sl) = elim (lookup m dict) [
    | none ↦ x
    | some old ↦ if f.same old x then old else x
  ]

  -- What `Add` promises
  abbrev pub Added : Bytes → F → ZSet F → Option (ZSet F × Bool) → Type 0
  Added m x z result =
      (z' : ZSet F) × (result ≡ some (z', not (has (score lib m z))))
      × IsValid z'
      × ((k : Bytes)
          → score lib k z' ≡ (if eq_bytes m k then some (stored m x z) else score lib k z))

  pub score_pairs :
      (k : Bytes) (pairs : GoMap Bytes) → score lib k (listpack pairs) ≡ read lib (lookup k pairs)
  unfolding score
  score_pairs k pairs = find_score-lookup lib k pairs

  pub has-read :
      (pairs : GoMap Bytes) (m : Bytes)
      → AllParse pairs
      → has (read lib (lookup m pairs)) ≡ has (lookup m pairs)
  has-read pairs m h = elim (Option-cases (lookup m pairs)) [
    | inl e ↦ rw e refl
    | inr (text, e) ↦ rw (e, h m text e) refl
  ]

  pub converted-read :
      (pairs : GoMap Bytes) (m : Bytes)
      → AllParse pairs
      → converted (lookup m pairs) none ≡ read lib (lookup m pairs)
  converted-read pairs m h = elim (Option-cases (lookup m pairs)) [
    | inl e ↦ rw e refl
    | inr (text, e) ↦ rw (e, h m text e) refl
  ]
