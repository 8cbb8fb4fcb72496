-- ===== src/HashSet/Numbers.antt =====
-- The integers of a set as members: their prints, which are read back.
use red_go.Base.{
  suc, ◌||◌, Bool, false, ◌≡◌, refl, arith, ap, ◌∙◌, sym, List, [], ◌∷◌, none, some, Bytes, ℤ, pos,
  negsuc, All, map, eq_bytes, eq_bytes_iff, if◌then◌else◌, Bool-cases, inl, inr, length,
}
use red_go.Strconv.{parse_int, format_int}
use red_go.Strconv.Range.{IsInt64, parse_int-IsInt64}
use red_go.Strconv.RoundTrip.{parse_int-itoa, parse_int-format_int_neg}
use red_go.IntSet.{enc_int64}
use red_go.IntSet.Words.{Fits}
use red_go.IntSet.Edits.{All-remove_int, has_int-remove_int}
use red_go.IntSet.Order.{
  eq_ℤ, eq_ℤ_iff, Above-has_int, IsAscending, has_int, insert_int, remove_int, ltb_ℤ_irrefl,
}

fits : (v : ℤ) → IsInt64 v → Fits enc_int64 v
fits (pos n) h = omega arith
fits (negsuc n) h = omega arith

-- What `parse_int` reads fits the widest words.
pub parse_int-Fits : (m : Bytes) (v : ℤ) → parse_int m ≡ some v → Fits enc_int64 v
parse_int-Fits m v e = fits v (parse_int-IsInt64 m v e)

pub parse_int-format_int : (v : ℤ) → Fits enc_int64 v → parse_int (format_int v) ≡ some v
unfolding format_int
parse_int-format_int (pos n) h = parse_int-itoa n (omega arith)
parse_int-format_int (negsuc n) h = parse_int-format_int_neg n (omega arith)

-- Two integers of 64 bits have the same print only if they are equal.
pub format_int_inj :
    (v w : ℤ) → Fits enc_int64 v → Fits enc_int64 w → format_int v ≡ format_int w → v ≡ w
format_int_inj v w hv hw e =
    let both : some v ≡ some w =
      sym (parse_int-format_int v hv) ∙ ap parse_int e ∙ parse_int-format_int w hw in
    cc

eq_bytes-format_int :
    (v w : ℤ)
    → Fits enc_int64 v
    → Fits enc_int64 w
    → eq_bytes (format_int v) (format_int w) ≡ eq_ℤ v w
eq_bytes-format_int v w hv hw =
    let (sound, complete) = eq_bytes_iff (format_int v) (format_int w) in
    let (same, equal) = eq_ℤ_iff v w in
    elim (Bool-cases (eq_ℤ v w)) [
      | inl h ↦ complete (ap format_int (same h)) ∙ sym h
      | inr h ↦ elim (Bool-cases (eq_bytes (format_int v) (format_int w))) [
        | inl g ↦ absurd (let k = equal (format_int_inj v w hv hw (sound g)) in cc)
        | inr g ↦ g ∙ sym h
      ]
    ]

-- A member that is no integer, or the print of the integer that it reads as: "07" is none.
abbrev pub IsCanonical : Bytes → Type 0
IsCanonical m = (v : ℤ) → parse_int m ≡ some v → format_int v ≡ m

pub format_int-IsCanonical : (v : ℤ) → Fits enc_int64 v → IsCanonical (format_int v)
format_int-IsCanonical v h w e =
    let both : some v ≡ some w = sym (parse_int-format_int v h) ∙ e in
    ap format_int (let same : w ≡ v = cc in same)

abbrev pub elem : Bytes → List Bytes → Bool
elem m [] = false
elem m (n ∷ ns) = eq_bytes n m || elem m ns

-- No member stands twice.
abbrev pub IsUnique : List Bytes → Type 0
IsUnique [] = Unit
IsUnique (m ∷ ms) = (elem m ms ≡ false) × IsUnique ms

abbrev pub prints : List ℤ → List Bytes
prints = map format_int

pub elem-prints :
    (v : ℤ) (vs : List ℤ)
    → Fits enc_int64 v
    → All (Fits enc_int64) vs
    → elem (format_int v) (prints vs) ≡ has_int v vs
elem-prints v [] h hs = refl
elem-prints v (w ∷ vs) h (hw, hs) =
    ground (arith, eq_bytes-format_int w v hw h, elem-prints v vs h hs)

pub prints-IsUnique :
    (vs : List ℤ) → IsAscending vs → All (Fits enc_int64) vs → IsUnique (prints vs)
prints-IsUnique [] a hs = tt
prints-IsUnique (v ∷ vs) (above, a) (h, hs) =
    (elem-prints v vs h hs ∙ Above-has_int v v vs above (ltb_ℤ_irrefl v), prints-IsUnique vs a hs)

pub prints-IsCanonical : (vs : List ℤ) → All (Fits enc_int64) vs → All IsCanonical (prints vs)
prints-IsCanonical [] hs = tt
prints-IsCanonical (v ∷ vs) (h, hs) = (format_int-IsCanonical v h, prints-IsCanonical vs hs)

-- A member that is no integer is not among the prints.
pub elem-prints-none :
    (m : Bytes) (vs : List ℤ)
    → parse_int m ≡ none
    → All (Fits enc_int64) vs
    → elem m (prints vs) ≡ false
elem-prints-none m [] e hs = refl
elem-prints-none m (v ∷ vs) e (h, hs) = elim (Bool-cases (eq_bytes (format_int v) m)) [
  | inl same ↦ absurd (
      let read = parse_int-format_int v h in
      let equal = (eq_bytes_iff (format_int v) m).0 same in cc)
  | inr differs ↦ rw differs (elem-prints-none m vs e hs)
]

pub elem-prints-insert_int :
    (v : ℤ) (vs : List ℤ) (m : Bytes)
    → elem m (prints (insert_int v vs)) ≡ (eq_bytes (format_int v) m || elem m (prints vs))
elem-prints-insert_int v [] m = refl
elem-prints-insert_int v (w ∷ vs) m = ground (arith, elem-prints-insert_int v vs m)

elem-prints-remove_other :
    (v : ℤ) (vs : List ℤ) (m : Bytes)
    → eq_bytes (format_int v) m ≡ false
    → elem m (prints (remove_int v vs)) ≡ elem m (prints vs)
elem-prints-remove_other v [] m differs = refl
elem-prints-remove_other v (w ∷ vs) m differs = elim (Bool-cases (eq_ℤ w v)) [
  | inl same ↦
      let first : eq_bytes (format_int w) m ≡ false =
        ap (λ u. eq_bytes (format_int u) m) ((eq_ℤ_iff w v).0 same) ∙ differs in
      rw (same, first) refl
  | inr other ↦ rw (other, elem-prints-remove_other v vs m differs) refl
]

pub elem-prints-remove_int :
    (v : ℤ) (vs : List ℤ) (m : Bytes)
    → Fits enc_int64 v
    → IsAscending vs
    → All (Fits enc_int64) vs
    → elem m (prints (remove_int v vs))
      ≡ (if eq_bytes (format_int v) m then false else elem m (prints vs))
elem-prints-remove_int v vs m h ascending hs = elim (Bool-cases (eq_bytes (format_int v) m)) [
  | inl same ↦
      let equal = (eq_bytes_iff (format_int v) m).0 same in
      rw
        (
          same,
          ← equal,
          elem-prints v (remove_int v vs) h (All-remove_int (Fits enc_int64) v vs hs),
          has_int-remove_int v v vs ascending,
          (eq_ℤ_iff v v).1 refl,
        )
        refl
  | inr differs ↦ rw differs (elem-prints-remove_other v vs m differs)
]

pub length-prints : (vs : List ℤ) → length (prints vs) ≡ length vs
length-prints [] = refl
length-prints (v ∷ vs) = ap suc (length-prints vs)
