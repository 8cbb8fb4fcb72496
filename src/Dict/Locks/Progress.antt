-- ===== src/Dict/Locks/Progress.antt =====
-- Clients that take the locks of their keys by `RWLocks` do not block each other for ever.
use red_go.Base.{
  ℕ, ◌+◌, ◌*◌, ◌<◌, true, List, [], ◌∷◌, ◌++◌, Bytes, length, ◌≡◌, ◌≢◌, ◌⊎◌, inl, inr, refl, ap,
  ◌∙◌, arith, All,
}
use red_go.Dict.{Dict}
use red_go.Dict.Locks.{Lock, write_lock, read_lock}
use red_go.Dict.Locks.Held.{index_of_lock}
use red_go.Dict.Locks.Clients.{
  Client, Waits, Mutexes, Step, take_lock, give_back, Run, calls, IsOrdered, Run-IsOrdered,
  calls-IsOrdered,
}
use red_go.Dict.Locks.Highest.{
  One, search_all, Releases, IsWaiting, IsFinished, Releases-cases, highest, held_lower, All-map,
  Waits-cases,
}

module _ (m : Mutexes) where
  Moves : List Client → Type 0
  Moves cs = (cs' : List Client) × Step m cs cs'

  taken : (cs : List Client) (l : Lock) → m.grants cs l ≡ true → One (Waits l) cs → Moves cs
  unfolding Moves
  taken cs l granted (before, c, after, e, (w, wants)) = (
    before ++ record { held = l ∷ c.held; wanted = w } ∷ after,
    take_lock before after c l w wants granted e refl,
  )

  granted_write :
      (cs : List Client) (i : ℕ)
      → All (λ c. All (λ h. index_of_lock h < i) c.held) cs
      → One (Waits (write_lock i)) cs
      → Moves cs
  granted_write cs i low o =
      taken cs (write_lock i)
        (m.free_write cs i (
          All-map (λ h. index_of_lock h < i) (λ h. index_of_lock h ≢ i)
            (λ h lt e. absurd (omega arith)) cs low))
        o

  -- A client that waits for a lock of the highest index gets it, or a writer of that shard does.
  granted :
      (cs : List Client) (l : Lock)
      → All (λ c. All (λ h. index_of_lock h < index_of_lock l) c.held) cs
      → One (Waits l) cs
      → Moves cs
  granted cs (write_lock i) low o = granted_write cs i low o
  granted cs (read_lock i) low o =
      elim (search_all (Waits (write_lock i)) (λ c. Waits (write_lock i) c → ⊥) (Waits-cases i)
        cs) [
          | inl writer ↦ granted_write cs i low writer
          | inr no_writer ↦
              taken cs (read_lock i)
                (m.free_read cs i
                  (All-map (λ h. index_of_lock h < i) (λ h. h ≢ write_lock i)
                    (λ h lt e.
                      let p : index_of_lock h ≡ i = ap index_of_lock e in absurd (omega arith))
                    cs low)
                  no_writer)
                o
        ]

  moves : (cs : List Client) → All IsOrdered cs → All IsFinished cs ⊎ Moves cs
  unfolding Moves
  moves cs ordered =
      elim (search_all Releases (λ c. IsWaiting c ⊎ IsFinished c) Releases-cases cs) [
        | inl (before, c, after, e, (wants, (l, h, holds))) ↦ inr (
          before ++ record { held = h; wanted = [] } ∷ after,
          give_back before after c l h wants holds e refl,
        )
        | inr a ↦ elim (highest cs a) [
          | inl all ↦ inl all
          | inr (l, o, up) ↦ inr (granted cs l (held_lower (index_of_lock l) cs a ordered up) o)
        ]
      ]

-- What is left to do: to take the locks that are wanted and to give back these and those held
unfoldable pub work : List Client → ℕ
work [] = 0
work (c ∷ cs) = 2 * length c.wanted + length c.held + work cs

work-append : (before after : List Client) → work (before ++ after) ≡ work before + work after
unfolding work
work-append [] after = omega arith
work-append (c ∷ before) after = omega (arith, work-append before after)

Step-work : (m : Mutexes) (cs cs' : List Client) → Step m cs cs' → work cs' < work cs
unfolding work
Step-work m cs cs' (take_lock before after c l w wants granted from to) =
    let c' : Client = record { held = l ∷ c.held; wanted = w } in
    omega (
      arith,
      ap work from ∙ work-append before (c ∷ after),
      ap work to ∙ work-append before (c' ∷ after),
      ap length wants,
    )
Step-work m cs cs' (give_back before after c l h wants holds from to) =
    let c' : Client = record { held = h; wanted = [] } in
    omega (
      arith,
      ap work from ∙ work-append before (c ∷ after),
      ap work to ∙ work-append before (c' ∷ after),
      ap length wants,
      ap length holds,
    )

-- Clients start at a call of `RWLocks` for any keys, and give the locks back when they have them
-- all; a mutex grants at least what package sync promises. In every state that the clients reach, all
-- of them have finished or one of them can go on, and every step leaves less to take and to give back.
pub clients_finish :
    (m : Mutexes) {V : Type 0} (d : Dict V) (keys : List (List Bytes × List Bytes))
    (cs : List Client)
    → Run m (calls d keys) cs
    → (All IsFinished cs ⊎ ((cs' : List Client) × Step m cs cs'))
      × ((cs' : List Client) → Step m cs cs' → work cs' < work cs)
unfolding Moves
clients_finish m d keys cs run =
    (moves m cs (Run-IsOrdered m (calls d keys) cs run (calls-IsOrdered d keys)), Step-work m cs)
