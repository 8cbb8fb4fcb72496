-- ===== src/Aof/Lines.antt =====
-- The command lines of the file that `handleAof` writes.
use red_go.Base.{
  sym, append_assoc, ℕ, ◌+◌, ◌≤◌, ◌<◌, ◌^◌, ◌==◌, ◌≡◌, refl, arith, ap, ◌∙◌, Bool, false,
  Bool-cases, inl, inr, List, [], ◌∷◌, ◌++◌, some, Bytes, codes, length, eq_bytes, if◌then◌else◌,
  map, All,
}
use red_go.Strconv.{itoa}
use red_go.Strconv.RoundTrip.{length-itoa, itoa-cons, IsDigit}
use red_go.Parser.{max_alloc}
use red_go.Parser.RoundTrip.{IsCommand, IsPlain, encode, command}
use red_go.Database.{CmdLine, to_lower}
use red_go.Aof.{AofPayload, select_line, handle_aof, line_bytes, string_of}

-- The lines of the file
abbrev pub aof_lines : ℕ → List AofPayload → List CmdLine
aof_lines current [] = []
aof_lines current (p ∷ ps) =
    if p.db_index == current
    then p.cmd ∷ aof_lines p.db_index ps
    else select_line p.db_index ∷ p.cmd ∷ aof_lines p.db_index ps

pub handle_aof-encode :
    (current : ℕ) (ps : List AofPayload) → handle_aof current ps ≡ encode (aof_lines current ps)
unfolding handle_aof
handle_aof-encode current [] = refl
handle_aof-encode current (p ∷ ps) = elim (Bool-cases (p.db_index == current)) [
  | inl same ↦ rw (same, handle_aof-encode p.db_index ps) refl
  | inr other ↦ rw (other, handle_aof-encode p.db_index ps) refl
]

-- The database of the last command
abbrev pub last_index : ℕ → List AofPayload → ℕ
last_index current [] = current
last_index current (p ∷ ps) = last_index p.db_index ps

pub encode-append : (xs ys : List CmdLine) → encode (xs ++ ys) ≡ encode xs ++ encode ys
encode-append [] ys = refl
encode-append (x ∷ xs) ys =
    ap (λ m. line_bytes x ++ m) (encode-append xs ys)
    ∙ sym (append_assoc (line_bytes x) (encode xs) (encode ys))

pub All-append :
    (xs ys : List CmdLine) → All IsCommand xs → All IsCommand ys → All IsCommand (xs ++ ys)
All-append [] ys h k = k
All-append (x ∷ xs) ys (hx, h) k = (hx, All-append xs ys h k)

pub map-append : (xs ys : List CmdLine) → map command (xs ++ ys) ≡ map command xs ++ map command ys
map-append [] ys = refl
map-append (x ∷ xs) ys = ap (◌∷◌ (command x)) (map-append xs ys)

abbrev pub is_select : CmdLine → Bool
is_select [] = false
is_select (name ∷ args) = eq_bytes (to_lower name) (codes "select")

pub strings_of_somes : (cmd : CmdLine) → map string_of (map some cmd) ≡ cmd
strings_of_somes [] = refl
strings_of_somes (m ∷ ms) = ap (◌∷◌ m) (strings_of_somes ms)

-- The databases have at most 2^16 indices.
abbrev pub IsIndex : ℕ → ℕ → Type 0
IsIndex n i = (i < n) × (n ≤ 2 ^ 16)

IsPlain-digits :
    (s : Bytes) (c : ℕ) (t : Bytes) → s ≡ c ∷ t → IsDigit c → length s + 2 ≤ max_alloc → IsPlain s
IsPlain-digits [] c t e digit h = absurd (cc)
IsPlain-digits (a ∷ s) c t e (low, high) h =
    let same : a ≡ c = cc in ((λ dollar. absurd (omega (arith, same, dollar, low))), h)

pub select_line-IsCommand : (i : ℕ) → i < 2 ^ 16 → IsCommand (select_line i)
select_line-IsCommand i h =
    let (c, t, e, digit) = itoa-cons i in
    (
      (λ e'. absurd (cc)),
      omega arith,
      (
        ((λ e'. absurd (omega (arith, e'))), omega arith),
        (IsPlain-digits (itoa i) c t e digit (omega (arith, length-itoa i)), tt),
      ),
    )
