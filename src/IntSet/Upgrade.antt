-- ===== src/IntSet/Upgrade.antt =====
-- `Add`, with its change of the width of the words, and `Remove`, on the values of the set.
use red_go.Base.{
  ℕ, ◌+◌, ◌*◌, ◌^◌, ◌<◌, ◌≤◌, true, false, not, List, [], ◌∷◌, ◌++◌, Option, none, some, length,
  replicate, ltb, if◌then◌else◌, ◌≡◌, subst, refl, arith, ap, ◌∙◌, sym, append_assoc, append-nil,
  Bool-cases, inl, inr, ℤ, pos, negsuc, ltb_ℤ, All, length-append, length-replicate,
}
use red_go.IntSet.{
  Encoding, enc_int16, enc_int32, enc_int64, width, IntSet, new_int_set, insert_at, remove_at,
  required_encoding, add_at, add_with, add_all, upgrade_with, add, remove_found, remove,
}
use red_go.IntSet.Order.{
  eq_ℤ_iff, ltb_ℤ_irrefl, IsAscending, Above, has_int, insert_int, remove_int, below,
}
use red_go.IntSet.Edits.{
  insert_int_last, insert_int-IsAscending, remove_int-IsAscending, length-insert_int,
  length-remove_int,
}
use red_go.IntSet.Words.{Fits}
use red_go.IntSet.Search.{Holds, position, find_position-position, to_slice_lem}
use red_go.IntSet.Update.{insert_at-HasWords, remove_at-HasWords}

-- The values with one more
abbrev pub added : ℤ → List ℤ → List ℤ
added v vs = if has_int v vs then vs else insert_int v vs

-- The values with one less
abbrev pub removed : ℤ → List ℤ → List ℤ
removed v vs = if has_int v vs then remove_int v vs else vs

-- `requiredEncoding` is the shortest encoding whose words hold the value.
pub required_encoding-Fits :
    (e : Encoding) (v : ℤ) → Fits enc_int64 v → width (required_encoding v) ≤ width e → Fits e v
unfolding required_encoding
required_encoding-Fits enc_int16 (pos n) fits h = ground arith
required_encoding-Fits enc_int32 (pos n) fits h = ground arith
required_encoding-Fits enc_int64 (pos n) fits h = fits
required_encoding-Fits enc_int16 (negsuc n) fits h = ground arith
required_encoding-Fits enc_int32 (negsuc n) fits h = ground arith
required_encoding-Fits enc_int64 (negsuc n) fits h = fits

pub Fits-required_encoding :
    (e : Encoding) (v : ℤ) → Fits e v → width (required_encoding v) ≤ width e
unfolding required_encoding
Fits-required_encoding enc_int16 (pos n) h = ground arith
Fits-required_encoding enc_int32 (pos n) h = ground arith
Fits-required_encoding enc_int64 (pos n) h = ground arith
Fits-required_encoding enc_int16 (negsuc n) h = ground arith
Fits-required_encoding enc_int32 (negsuc n) h = ground arith
Fits-required_encoding enc_int64 (negsuc n) h = ground arith

Fits-mono : (e f : Encoding) (v : ℤ) → width e ≤ width f → Fits e v → Fits f v
Fits-mono enc_int16 enc_int16 (pos n) h fits = fits
Fits-mono enc_int16 enc_int16 (negsuc n) h fits = fits
Fits-mono enc_int16 enc_int32 (pos n) h fits = omega arith
Fits-mono enc_int16 enc_int32 (negsuc n) h fits = omega arith
Fits-mono enc_int16 enc_int64 (pos n) h fits = omega arith
Fits-mono enc_int16 enc_int64 (negsuc n) h fits = omega arith
Fits-mono enc_int32 enc_int16 v h fits = absurd (omega arith)
Fits-mono enc_int32 enc_int32 (pos n) h fits = fits
Fits-mono enc_int32 enc_int32 (negsuc n) h fits = fits
Fits-mono enc_int32 enc_int64 (pos n) h fits = omega arith
Fits-mono enc_int32 enc_int64 (negsuc n) h fits = omega arith
Fits-mono enc_int64 enc_int16 v h fits = absurd (omega arith)
Fits-mono enc_int64 enc_int32 v h fits = absurd (omega arith)
Fits-mono enc_int64 enc_int64 (pos n) h fits = fits
Fits-mono enc_int64 enc_int64 (negsuc n) h fits = fits

All-Fits-mono :
    (e f : Encoding) (vs : List ℤ) → width e ≤ width f → All (Fits e) vs → All (Fits f) vs
All-Fits-mono e f [] h fits = tt
All-Fits-mono e f (v ∷ vs) h (fit, fits) = (Fits-mono e f v h fit, All-Fits-mono e f vs h fits)

-- An addition behind the search, at the place that the search found
add_at_lem :
    (s : IntSet) (vs : List ℤ) (v : ℤ)
    → Holds s vs
    → Fits s.encoding v
    → length vs + 1 < 2 ^ 28
    → (s' : IntSet) × (add_at s v (position v vs) ≡ (s', not (has_int v vs)))
      × Holds s' (added v vs)
      × (s'.encoding ≡ s.encoding)
unfolding add_at insert_at
add_at_lem s vs v (words, ascending, few) fit room = elim (Bool-cases (has_int v vs)) [
  | inl found ↦ rw (found, add_at) (s, refl, (words, ascending, few), refl)
  | inr fresh ↦
      rw (fresh, add_at)
        (
          insert_at s (below v vs) v,
          refl,
          (
            insert_at-HasWords s vs v words fit,
            insert_int-IsAscending v vs ascending fresh,
            omega (arith, length-insert_int v vs),
          ),
          refl,
        )
]

-- `Add` of a value that the words hold, whatever the upgrade would do
add_with_lem :
    (upgrade : IntSet → Encoding → Option IntSet) (s : IntSet) (vs : List ℤ) (v : ℤ)
    → Holds s vs
    → Fits s.encoding v
    → length vs + 1 < 2 ^ 28
    → (s' : IntSet) × (add_with upgrade s v ≡ some (s', not (has_int v vs)))
      × Holds s' (added v vs)
      × (s'.encoding ≡ s.encoding)
unfolding add_with
add_with_lem upgrade s vs v holds fit room =
    let narrow : ltb (width s.encoding) (width (required_encoding v)) ≡ false =
      ground (arith, Fits-required_encoding s.encoding v fit) in
    let (s', e, holds', same) = add_at_lem s vs v holds fit room in
    (s', (rw (narrow, find_position-position s vs v holds) (ap some e)), holds', same)

Above-mid : (x v : ℤ) (xs ys : List ℤ) → Above x (xs ++ v ∷ ys) → ltb_ℤ x v ≡ true
Above-mid x v [] ys (h, _) = h
Above-mid x v (z ∷ xs) ys (_, h) = Above-mid x v xs ys h

pub IsAscending-before :
    (xs ys : List ℤ) (v : ℤ) → IsAscending (xs ++ v ∷ ys) → All (λ x. ltb_ℤ x v ≡ true) xs
IsAscending-before [] ys v h = tt
IsAscending-before (x ∷ xs) ys v (a, h) = (Above-mid x v xs ys a, IsAscending-before xs ys v h)

pub has_int_before : (v : ℤ) (xs : List ℤ) → All (λ x. ltb_ℤ x v ≡ true) xs → has_int v xs ≡ false
has_int_before v [] h = refl
has_int_before v (x ∷ xs) (hx, h) =
    ground (arith, has_int_before v xs h, eq_ℤ_iff x v, ltb_ℤ_irrefl v)

added_last : (v : ℤ) (xs : List ℤ) → All (λ x. ltb_ℤ x v ≡ true) xs → added v xs ≡ xs ++ v ∷ []
added_last v xs h = rw (has_int_before v xs h) (insert_int_last v xs h)

-- The loop of `upgradeEncoding`: ascending values go behind those of the set.
add_all_lem :
    (upgrade : IntSet → Encoding → Option IntSet) (s : IntSet) (done vs : List ℤ)
    → Holds s done
    → IsAscending (done ++ vs)
    → All (Fits s.encoding) vs
    → length (done ++ vs) < 2 ^ 28
    → (s' : IntSet) × (add_all (add_with upgrade) s vs ≡ some s')
      × Holds s' (done ++ vs)
      × (s'.encoding ≡ s.encoding)
unfolding add_all
add_all_lem upgrade s done [] holds ascending fits room =
    (s, refl, rw (append-nil done) holds, refl)
add_all_lem upgrade s done (v ∷ vs) holds ascending (fit, fits) room =
    let size = length-append done (v ∷ vs) in
    let (s₁, e₁, holds₁, same₁) = add_with_lem upgrade s done v holds fit (omega (arith, size)) in
    let grouped = append_assoc done (v ∷ []) vs in
    let holds₁' : Holds s₁ (done ++ v ∷ []) =
      subst (Holds s₁) (added_last v done (IsAscending-before done vs v ascending)) holds₁ in
    let (s₂, e₂, holds₂, same₂) =
      add_all_lem upgrade s₁ (done ++ v ∷ []) vs holds₁' (subst IsAscending (sym grouped) ascending)
        (rw same₁ fits) (subst (λ xs. length xs < 2 ^ 28) (sym grouped) room) in
    (s₂, rw e₁ e₂, subst (Holds s₂) grouped holds₂, same₂ ∙ same₁)

-- `upgradeEncoding` keeps the values.
upgrade_with_lem :
    (upgrade : IntSet → Encoding → Option IntSet) (s : IntSet) (vs : List ℤ) (e : Encoding)
    → Holds s vs
    → width s.encoding ≤ width e
    → (s' : IntSet) × (upgrade_with (add_with upgrade) s e ≡ some s')
      × Holds s' vs
      × (s'.encoding ≡ e)
unfolding upgrade_with
upgrade_with_lem upgrade s vs e holds wider =
    let ((_, _, _, _, fits), ascending, few) = holds in
    let n = width e * length vs in
    let empty : IntSet = record {
      encoding = e;
      length = 0;
      contents = record { array = replicate n 0; len = n };
    } in
    let start : Holds empty [] = (
      ((replicate n 0, refl), omega arith, omega (arith, length-replicate {A = ℕ} n 0), refl, tt),
      tt,
      omega arith,
    ) in
    let (s', e', holds', same) =
      add_all_lem upgrade empty [] vs start ascending (All-Fits-mono s.encoding e vs wider fits)
        few in
    (s', rw (to_slice_lem s vs holds) e', holds', same)

-- On a set that holds ascending values, fewer than 2^28 with the new one, `Add` of an integer of 64
-- bits neither panics nor stops short: it adds the value to the set, in the order of the integers, and
-- tells whether it was new.
pub add_lem :
    (s : IntSet) (vs : List ℤ) (v : ℤ)
    → Holds s vs
    → Fits enc_int64 v
    → length vs + 1 < 2 ^ 28
    → (s' : IntSet) × (add s v ≡ some (s', not (has_int v vs))) × Holds s' (added v vs)
unfolding add add_with
add_lem s vs v holds fit room =
    let required = required_encoding v in
    elim (Bool-cases (ltb (width s.encoding) (width required))) [
      | inr enough ↦
          let (s', e, holds', _) =
            add_with_lem (upgrade_with (add_with (λ s e. none))) s vs v holds
              (required_encoding-Fits s.encoding v fit (ground arith)) room in
          (s', e, holds')
      | inl short ↦
          let (s₁, e₁, holds₁, same₁) =
            upgrade_with_lem (λ s e. none) s vs required holds (ground arith) in
          let fit₁ : Fits s₁.encoding v =
            rw same₁ (required_encoding-Fits required v fit (omega arith)) in
          let (s₂, e₂, holds₂, _) = add_at_lem s₁ vs v holds₁ fit₁ room in
          (s₂, rw (short, e₁, find_position-position s₁ vs v holds₁) (ap some e₂), holds₂)
    ]

-- A removal behind the search
remove_found_lem :
    (s : IntSet) (vs : List ℤ) (v : ℤ)
    → Holds s vs
    → (s' : IntSet) × (remove_found s (position v vs) ≡ (s', has_int v vs))
      × Holds s' (removed v vs)
unfolding remove_found
remove_found_lem s vs v (words, ascending, few) = elim (Bool-cases (has_int v vs)) [
  | inl found ↦
      rw (found, remove_found)
        (
          remove_at s (below v vs),
          refl,
          (
            remove_at-HasWords s vs v words ascending found,
            remove_int-IsAscending v vs ascending,
            omega (arith, length-remove_int v vs found),
          ),
        )
  | inr absent ↦ rw (absent, remove_found) (s, refl, (words, ascending, few))
]

-- `Remove` takes the value out of the set and tells whether it was there.
pub remove_lem :
    (s : IntSet) (vs : List ℤ) (v : ℤ)
    → Holds s vs
    → (s' : IntSet) × (remove s v ≡ some (s', has_int v vs)) × Holds s' (removed v vs)
unfolding remove
remove_lem s vs v holds =
    let (s', e, holds') = remove_found_lem s vs v holds in
    (s', rw (find_position-position s vs v holds) (ap some e), holds')

pub new_int_set-Holds : Holds new_int_set []
new_int_set-Holds = ((([], refl), omega arith, omega arith, refl, tt), tt, omega arith)
