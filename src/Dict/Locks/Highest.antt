-- ===== src/Dict/Locks/Highest.antt =====
-- The highest shard that a client waits for: no client holds the lock of it or of a later one.
use red_go.Base.{
  ℕ, ◌<◌, ◌≤◌, List, [], ◌∷◌, ◌++◌, leb, ◌==◌, ◌≡◌, ◌⊎◌, inl, inr, refl, ap, sym, ◌∙◌, subst, arith,
  All, Bool-cases, ==_iff,
}
use red_go.Dict.Locks.{Lock, write_lock, read_lock}
use red_go.Dict.Locks.Held.{index_of_lock}
use red_go.Dict.Locks.Clients.{Client, Waits, IsOrdered}

-- One of the clients, with what holds of it
abbrev pub One : (Client → Type 0) → List Client → Type 0
One P cs =
    (before : List Client) × (c : Client) × (after : List Client) × (cs ≡ before ++ c ∷ after) × P c

pub One-more : (P : Client → Type 0) (b : Client) (cs : List Client) → One P cs → One P (b ∷ cs)
One-more P b cs (before, c, after, e, h) = (b ∷ before, c, after, ap (◌∷◌ b) e, h)

-- One of the clients has a property, or all have another.
pub search_all :
    (P Q : Client → Type 0) → ((c : Client) → P c ⊎ Q c) → (cs : List Client) → One P cs ⊎ All Q cs
search_all P Q d [] = inr tt
search_all P Q d (c ∷ cs) = elim (d c) [
  | inl h ↦ inl ([], c, cs, refl, h)
  | inr h ↦ elim (search_all P Q d cs) [ inl o ↦ inl (One-more P c cs o) | inr a ↦ inr (h, a) ]
]

-- A client that has all its locks, and one that has none left
abbrev pub Releases : Client → Type 0
Releases c = (c.wanted ≡ []) × ((l : Lock) × (h : List Lock) × (c.held ≡ l ∷ h))

abbrev pub IsWaiting : Client → Type 0
IsWaiting c = (l : Lock) × Waits l c

abbrev pub IsFinished : Client → Type 0
IsFinished c = (c.wanted ≡ []) × (c.held ≡ [])

pub Releases-cases : (c : Client) → Releases c ⊎ (IsWaiting c ⊎ IsFinished c)
Releases-cases c = by_lists c.held c.wanted refl refl
  where
    by_lists :
        (held wanted : List Lock)
        → c.held ≡ held
        → c.wanted ≡ wanted
        → Releases c ⊎ (IsWaiting c ⊎ IsFinished c)
    by_lists held (l ∷ w) h e = inr (inl (l, (w, e)))
    by_lists (l ∷ held) [] h e = inl (e, (l, held, h))
    by_lists [] [] h e = inr (inr (e, h))

-- No client waits for a lock of a higher index.
abbrev pub UpTo : ℕ → Client → Type 0
UpTo i c = (l : Lock) → Waits l c → index_of_lock l ≤ i

pub UpTo-mono : (i j : ℕ) (cs : List Client) → i ≤ j → All (UpTo i) cs → All (UpTo j) cs
UpTo-mono i j [] le a = tt
UpTo-mono i j (c ∷ cs) le (h, a) = ((λ l w. let p = h l w in omega arith), UpTo-mono i j cs le a)

pub Waits-unique : (l k : Lock) (c : Client) → Waits l c → Waits k c → l ≡ k
Waits-unique l k c (w, e) (v, f) = let p : l ∷ w ≡ k ∷ v = sym e ∙ f in cc

-- The highest index that a client waits for
pub highest :
    (cs : List Client)
    → All (λ c. IsWaiting c ⊎ IsFinished c) cs
    → All IsFinished cs ⊎ ((l : Lock) × One (Waits l) cs × All (UpTo (index_of_lock l)) cs)
highest [] a = inl tt
highest (c ∷ cs) (inr fin, a) = elim (highest cs a) [
  | inl all ↦ inl (fin, all)
  | inr (l, o, up) ↦
      inr (l, One-more (Waits l) c cs o, ((λ k (w, e). absurd (ground (arith, sym e ∙ fin.0))), up))
]
highest (c ∷ cs) (inl (k, wk), a) = elim (highest cs a) [
  | inl all ↦ inr (
    k,
    ([], c, cs, refl, wk),
    (
      (λ j w.
          subst (λ x. index_of_lock x ≤ index_of_lock k) (Waits-unique k j c wk w) (omega arith)),
      none_wait cs all,
    ),
  )
  | inr (l, o, up) ↦ elim (Bool-cases (leb (index_of_lock k) (index_of_lock l))) [
    | inl t ↦ inr (
      l,
      One-more (Waits l) c cs o,
      (
        (λ j w.
            subst (λ x. index_of_lock x ≤ index_of_lock l) (Waits-unique k j c wk w)
              (ground arith)),
        up,
      ),
    )
    | inr t ↦ inr (
      k,
      ([], c, cs, refl, wk),
      (
        (λ j w.
            subst (λ x. index_of_lock x ≤ index_of_lock k) (Waits-unique k j c wk w) (omega arith)),
        UpTo-mono (index_of_lock l) (index_of_lock k) cs (ground arith) up,
      ),
    )
  ]
]
  where
    none_wait : (cs : List Client) → All IsFinished cs → All (UpTo (index_of_lock k)) cs
    none_wait [] all = tt
    none_wait (c ∷ cs) ((fin, _), all) =
        ((λ j (w, e). absurd (ground (arith, sym e ∙ fin))), none_wait cs all)

pub lower_held :
    (k i : ℕ) (w : List Lock) (l : Lock) (hs : List Lock)
    → index_of_lock l ≤ i
    → All (λ h. All (λ v. index_of_lock h < index_of_lock v) (l ∷ w)) hs
    → All (λ h. index_of_lock h < i) hs
lower_held k i w l [] le a = tt
lower_held k i w l (h ∷ hs) le ((p, _), a) = (omega arith, lower_held k i w l hs le a)

-- The locks that are held have lower indices than the highest that is waited for.
pub held_lower :
    (i : ℕ) (cs : List Client)
    → All (λ c. IsWaiting c ⊎ IsFinished c) cs
    → All IsOrdered cs
    → All (UpTo i) cs
    → All (λ c. All (λ h. index_of_lock h < i) c.held) cs
held_lower i [] a o u = tt
held_lower i (c ∷ cs) (inl (l, (w, e)), a) ((_, above), o) (up, u) = (
  lower_held 0 i w l c.held (up l (w, e))
      (subst (λ ls. All (λ h. All (λ v. index_of_lock h < index_of_lock v) ls) c.held) e above),
  held_lower i cs a o u,
)
held_lower i (c ∷ cs) (inr (_, none_held), a) (_, o) (_, u) =
    (subst (All (λ h. index_of_lock h < i)) (sym none_held) tt, held_lower i cs a o u)

pub All-map :
    (P Q : Lock → Type 0)
    → ((l : Lock) → P l → Q l)
    → (cs : List Client) → All (λ c. All P c.held) cs
    → All (λ c. All Q c.held) cs
All-map P Q f [] a = tt
All-map P Q f (c ∷ cs) (h, a) = (each c.held h, All-map P Q f cs a)
  where
    each : (ls : List Lock) → All P ls → All Q ls
    each [] h = tt
    each (l ∷ ls) (p, h) = (f l p, each ls h)

pub Waits-cases : (i : ℕ) (c : Client) → Waits (write_lock i) c ⊎ (Waits (write_lock i) c → ⊥)
Waits-cases i c = by_list c.wanted refl
  where
    by_list :
        (ls : List Lock) → c.wanted ≡ ls → Waits (write_lock i) c ⊎ (Waits (write_lock i) c → ⊥)
    by_list [] e = inr (λ (w, f). absurd (ground (arith, sym e ∙ f)))
    by_list (read_lock j ∷ ls) e = inr (λ (w, f). absurd (ground (arith, sym e ∙ f)))
    by_list (write_lock j ∷ ls) e = elim (Bool-cases (j == i)) [
      | inl t ↦ inl (ls, e ∙ ap (λ k. write_lock k ∷ ls) ((==_iff j i).0 t))
      | inr t ↦ inr (λ (w, f). absurd (ground (arith, sym e ∙ f)))
    ]
