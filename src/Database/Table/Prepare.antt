-- ===== src/Database/Table/Prepare.antt =====
-- The arity of each command covers what its `prepare` function reads.
use red_go.Base.{
  ℕ, suc, List, [], ◌∷◌, none, some, Bytes, true, ℤ, pos, negsuc, ◌≡◌, ◌≢◌, arith, subst, sym,
  eq_bytes, eq_bytes_iff, Bool-cases, inl, inr, All,
}
use red_go.GoMap.{lookup, assign}
use red_go.Database.{
  Command, CmdTable, ExecFunc, PreFunc, register_command, to_lower, validate_arity, read_first_key,
  write_first_key, write_all_keys, read_all_keys, no_prepare, prepare_set_calculate,
  prepare_set_calculate_store,
}
use red_go.Database.Strings.{register_strings}
use red_go.Database.Keys.{register_keys, prepare_rename}
use red_go.Database.Lists.{register_lists}
use red_go.Database.Hashes.{register_hashes}
use red_go.Database.Ping.{register_ping}
use red_go.Database.Sets.Register.{register_sets}
use red_go.HashSet.{Random}
use red_go.Database.ZSets.Register.{Numbers, register_zsets}
use red_go.Database.Table.{cmd_table}

-- `prepare` reads no argument that a command line of the right arity lacks.
abbrev pub IsPrepared : PreFunc → ℤ → Type 0
IsPrepared prepare arity =
    (name : Bytes) (args : List Bytes)
    → validate_arity arity (name ∷ args) ≡ true
    → prepare args ≢ none

-- Every entry of the table has the property.
abbrev pub Holds : (Bytes → Command → Type 0) → CmdTable → Type 0
Holds P = All (λ e. P e.0 e.1)

assign-Holds :
    (P : Bytes → Command → Type 0) (k : Bytes) (c : Command) (t : CmdTable)
    → P k c
    → Holds P t
    → Holds P (assign k c t)
unfolding assign
assign-Holds P k c [] h hs = (h, tt)
assign-Holds P k c ((j, d) ∷ t) h (hd, hs) = elim (Bool-cases (eq_bytes j k)) [
  | inl same ↦ rw same (subst (λ i. P i c) (sym ((eq_bytes_iff j k).0 same)) h, hs)
  | inr other ↦ rw other (hd, assign-Holds P k c t h hs)
]

pub lookup-Holds :
    (P : Bytes → Command → Type 0) (k : Bytes) (c : Command) (t : CmdTable)
    → Holds P t
    → lookup k t ≡ some c
    → P k c
unfolding lookup
lookup-Holds P k c [] hs e = absurd (cc)
lookup-Holds P k c ((j, d) ∷ t) (hd, hs) e = elim (Bool-cases (eq_bytes j k)) [
  | inl same ↦
      let found : d ≡ c = ground (arith, e, same) in
      subst (λ i. P i c) ((eq_bytes_iff j k).0 same) (subst (P j) found hd)
  | inr other ↦ lookup-Holds P k c t hs (ground (arith, e, other))
]

pub register-Holds :
    (P : Bytes → Command → Type 0) (name : Bytes) (exec : ExecFunc) (prepare : PreFunc) (arity : ℤ)
    (t : CmdTable)
    → P (to_lower name) (record { exec = exec; prepare = prepare; arity = arity })
    → Holds P t
    → Holds P (register_command name exec prepare arity t)
unfolding register_command
register-Holds P name exec prepare arity t h hs = assign-Holds P (to_lower name) _ t h hs

-- Commands of the right arity have what `prepare` reads.
abbrev Prepared : Bytes → Command → Type 0
Prepared key c = IsPrepared c.prepare c.arity

register-Prepared :
    (name : Bytes) (exec : ExecFunc) (prepare : PreFunc) (arity : ℤ) (t : CmdTable)
    → IsPrepared prepare arity
    → Holds Prepared t
    → Holds Prepared (register_command name exec prepare arity t)
register-Prepared name exec prepare arity t h hs =
    register-Holds Prepared name exec prepare arity t h hs

read_first_pos : (n : ℕ) → IsPrepared read_first_key (pos (suc (suc n)))
unfolding read_first_key validate_arity
read_first_pos n name [] h = ground arith
read_first_pos n name (a ∷ args) h = cc

read_first_neg : (n : ℕ) → IsPrepared read_first_key (negsuc (suc n))
unfolding read_first_key validate_arity
read_first_neg n name [] h = ground arith
read_first_neg n name (a ∷ args) h = cc

write_first_pos : (n : ℕ) → IsPrepared write_first_key (pos (suc (suc n)))
unfolding write_first_key validate_arity
write_first_pos n name [] h = ground arith
write_first_pos n name (a ∷ args) h = cc

write_first_neg : (n : ℕ) → IsPrepared write_first_key (negsuc (suc n))
unfolding write_first_key validate_arity
write_first_neg n name [] h = ground arith
write_first_neg n name (a ∷ args) h = cc

rename_pos : IsPrepared prepare_rename (pos 3)
unfolding prepare_rename validate_arity
rename_pos name [] h = ground arith
rename_pos name (a ∷ []) h = ground arith
rename_pos name (a ∷ b ∷ args) h = cc

write_all : (arity : ℤ) → IsPrepared write_all_keys arity
unfolding write_all_keys
write_all arity name args h = cc

read_all : (arity : ℤ) → IsPrepared read_all_keys arity
unfolding read_all_keys
read_all arity name args h = cc

calculate : (arity : ℤ) → IsPrepared prepare_set_calculate arity
unfolding prepare_set_calculate
calculate arity name args h = cc

calculate_store : (n : ℕ) → IsPrepared prepare_set_calculate_store (negsuc (suc n))
unfolding prepare_set_calculate_store validate_arity
calculate_store n name [] h = ground arith
calculate_store n name (a ∷ args) h = cc

no_keys : (arity : ℤ) → IsPrepared no_prepare arity
unfolding no_prepare
no_keys arity name args h = cc

module _ (t : CmdTable) (hs : Holds Prepared t) where
  strings-Prepared : Holds Prepared (register_strings t)
  unfolding register_strings
  strings-Prepared = register-Prepared _ _ _ _ _ (read_first_pos 0) (
      register-Prepared _ _ _ _ _ (read_first_pos 1) (
        register-Prepared _ _ _ _ _ (write_first_pos 1) (
          register-Prepared _ _ _ _ _ (write_first_pos 1)
            (register-Prepared _ _ _ _ _ (read_first_pos 0) hs))))

  keys-Prepared : Holds Prepared (register_keys t)
  unfolding register_keys
  keys-Prepared = register-Prepared _ _ _ _ _ (no_keys (pos 2)) (
      register-Prepared _ _ _ _ _ rename_pos (
        register-Prepared _ _ _ _ _ rename_pos (
          register-Prepared _ _ _ _ _ (read_first_pos 0) (
            register-Prepared _ _ _ _ _ (write_all (pos 1)) (
              register-Prepared _ _ _ _ _ (read_all (negsuc 1))
                (register-Prepared _ _ _ _ _ (write_all (negsuc 1)) hs))))))

  lists-Prepared : Holds Prepared (register_lists t)
  unfolding register_lists
  lists-Prepared = register-Prepared _ _ _ _ _ (write_first_pos 2) (
      register-Prepared _ _ _ _ _ (read_first_pos 1) (
        register-Prepared _ _ _ _ _ (read_first_pos 0) (
          register-Prepared _ _ _ _ _ (read_first_pos 2) (
            register-Prepared _ _ _ _ _ (write_first_pos 0) (
              register-Prepared _ _ _ _ _ (write_first_pos 0) (
                register-Prepared _ _ _ _ _ (write_first_neg 1)
                  (register-Prepared _ _ _ _ _ (write_first_neg 1) hs)))))))

  hashes-Prepared : Holds Prepared (register_hashes t)
  unfolding register_hashes
  hashes-Prepared = register-Prepared _ _ _ _ _ (write_first_pos 2) (
      register-Prepared _ _ _ _ _ (read_first_pos 0) (
        register-Prepared _ _ _ _ _ (write_first_neg 2) (
          register-Prepared _ _ _ _ _ (read_first_neg 1) (
            register-Prepared _ _ _ _ _ (read_first_pos 0) (
              register-Prepared _ _ _ _ _ (read_first_pos 0) (
                register-Prepared _ _ _ _ _ (read_first_pos 0) (
                  register-Prepared _ _ _ _ _ (read_first_pos 0) (
                    register-Prepared _ _ _ _ _ (write_first_neg 1) (
                      register-Prepared _ _ _ _ _ (read_first_pos 1) (
                        register-Prepared _ _ _ _ _ (read_first_pos 1)
                          (register-Prepared _ _ _ _ _ (write_first_pos 2) hs)))))))))))

  sets-Prepared : (r : Random) → Holds Prepared (register_sets r t)
  unfolding register_sets
  sets-Prepared r = register-Prepared _ _ _ _ _ (calculate_store 1) (
      register-Prepared _ _ _ _ _ (calculate (negsuc 1)) (
        register-Prepared _ _ _ _ _ (calculate_store 1) (
          register-Prepared _ _ _ _ _ (calculate (negsuc 1)) (
            register-Prepared _ _ _ _ _ (calculate_store 1) (
              register-Prepared _ _ _ _ _ (calculate (negsuc 1)) (
                register-Prepared _ _ _ _ _ (read_first_neg 0) (
                  register-Prepared _ _ _ _ _ (write_first_neg 0) (
                    register-Prepared _ _ _ _ _ (write_first_neg 1) (
                      register-Prepared _ _ _ _ _ (read_first_pos 0) (
                        register-Prepared _ _ _ _ _ (read_first_pos 1) (
                          register-Prepared _ _ _ _ _ (read_first_pos 0)
                            (register-Prepared _ _ _ _ _ (write_first_neg 1) hs))))))))))))

zsets-Prepared :
    (n : Numbers) (t : CmdTable) → Holds Prepared t → Holds Prepared (register_zsets n t)
unfolding register_zsets
zsets-Prepared n t hs = register-Prepared _ _ _ _ _ (read_first_pos 1) (
    register-Prepared _ _ _ _ _ (read_first_pos 2) (
      register-Prepared _ _ _ _ _ (write_first_neg 1) (
        register-Prepared _ _ _ _ _ (read_first_neg 2) (
          register-Prepared _ _ _ _ _ (read_first_pos 0) (
            register-Prepared _ _ _ _ _ (read_first_pos 1)
              (register-Prepared _ _ _ _ _ (write_first_neg 2) hs))))))

ping-Prepared : (t : CmdTable) → Holds Prepared t → Holds Prepared (register_ping t)
unfolding register_ping
ping-Prepared t hs = register-Prepared _ _ _ _ _ (no_keys (pos 1)) hs

cmd_table-Prepared : (r : Random) (n : Numbers) → Holds Prepared (cmd_table r n)
unfolding cmd_table
cmd_table-Prepared r n = zsets-Prepared n _ (
    strings-Prepared _ (
      sets-Prepared _ (ping-Prepared _ (lists-Prepared _ (keys-Prepared _ (hashes-Prepared [] tt))))
        r))

-- For every command of the table, a command line of its arity has the arguments that its `prepare`
-- function reads: the locking never fails with an index out of range.
pub prepare_ne_none :
    (r : Random) (n : Numbers) (key name : Bytes) (args : List Bytes) (c : Command)
    → lookup key (cmd_table r n) ≡ some c
    → validate_arity c.arity (name ∷ args) ≡ true
    → c.prepare args ≢ none
prepare_ne_none r n key name args c e h =
    lookup-Holds Prepared key c (cmd_table r n) (cmd_table-Prepared r n) e name args h
