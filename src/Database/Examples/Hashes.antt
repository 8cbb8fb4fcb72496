-- ===== src/Database/Examples/Hashes.antt =====
-- The theorems on hashes and on the command table at concrete commands.
use red_go.Base.{[], ◌∷◌, none, some, codes, pos, ◌≡◌, ◌≢◌, refl, eq_bytes, true, false}
use red_go.GoMap.{lookup}
use red_go.HashSet.{Random}
use red_go.Dict.{get_with_lock, get_shard, spread}
use red_go.Hash.Refine
use red_go.Database.{
  Db, Entity, bytes_data, list_data, hash_data, CmdTable, Command, validate_arity, get_entity,
  replied, panic,
}
use red_go.Database.Strings.{exec_set}
use red_go.Database.Keys.{exec_del, exec_rename, exec_rename_nx}
use red_go.Database.Lists.{
  exec_l_push, exec_r_push, exec_l_pop, exec_r_pop, exec_l_index, exec_l_set, element_at,
  replace_at, get_as_list, from_end, range_reply, index_outcome,
}
use red_go.GoMap.{assign}
use red_go.Database.Hashes
use red_go.Database.Hashes.{
  get_as_hash, exec_h_get, exec_h_set, exec_h_exists, exec_h_set_nx, exec_h_del, exec_h_len,
  exec_h_get_all, exec_h_m_get,
}
use red_go.Database.Hashes.Commands.{Holds}
use red_go.Database.{write_first_key, register_command, to_lower}
use red_go.Database.Strings.{register_strings}
use red_go.ZSet.Whole.{whole_score, whole_floats}
use red_go.Database.ZSets.Register.{Numbers, register_zsets}
use red_go.Database.Table.{cmd_table}
use red_go.Database.Table.Prepare.{prepare_ne_none}
use red_go.Database.Table.Locks.{exec_normal_command_lem, RunsLocked}
use red_go.Database.Table.Covers.{is_writer, is_keyless}
use red_go.Database.Hashes.Panics.{hash_commands_panic, is_odd_set}
use red_go.Database.{exec_normal_command, exec_with_lock, read_first_key, lower}
use red_go.Database.Examples.{name, user, x, user_hash, sample, name-bytes}

user-Holds : Holds (get_as_hash sample user) user_hash
unfolding get_as_hash get_entity get_with_lock get_shard spread lookup eq_bytes
user-Holds = refl

user_hash-IsValid : Refine.IsValid user_hash
unfolding lookup eq_bytes
user_hash-IsValid = (refl, tt)

set_arity : validate_arity (pos 3) (codes "SET" ∷ name ∷ x ∷ []) ≡ true
unfolding validate_arity
set_arity = refl

abbrev h_get_entry : Command
h_get_entry = record { exec = exec_h_get; prepare = read_first_key; arity = pos 3 }

h_get-registered : lookup (to_lower (codes "HGet")) (Hashes.register_hashes []) ≡ some h_get_entry
unfolding Hashes.register_hashes register_command to_lower lower lookup assign eq_bytes
h_get-registered = refl

h_get-arity : validate_arity (pos 3) (codes "HGet" ∷ name ∷ x ∷ []) ≡ true
unfolding validate_arity
h_get-arity = refl

h_get-whole : is_odd_set (to_lower (codes "HGet")) (x ∷ []) ≡ false
unfolding to_lower lower eq_bytes
h_get-whole = refl

hash_commands_panic_example : exec_h_get sample (name ∷ x ∷ []) ≡ (panic, sample)
hash_commands_panic_example =
    hash_commands_panic sample (codes "HGet") name (x ∷ []) h_get_entry (bytes_data x)
      h_get-registered h_get-arity h_get-whole name-bytes refl

abbrev set_entry_of : Command
set_entry_of = record { exec = exec_set; prepare = write_first_key; arity = pos 3 }

-- A generator that changes no order and draws the first member
abbrev still : Random
still = record { shuffle = λ ms. ms; intn = λ i n. 0 }

-- Whole numbers for the scores
abbrev whole_numbers : Numbers
whole_numbers = record { scores = whole_score; floats = whole_floats; draws = λ i j k. false }

set_in_table : lookup (to_lower (codes "SET")) (cmd_table still whole_numbers) ≡ some set_entry_of
unfolding cmd_table register_zsets register_strings register_command to_lower lower lookup assign
    eq_bytes red_go.Database.Sets.Register.register_sets red_go.Database.Ping.register_ping
    red_go.Database.Lists.register_lists red_go.Database.Keys.register_keys Hashes.register_hashes
set_in_table = refl

prepare_ne_none_example : write_first_key (name ∷ x ∷ []) ≢ none
prepare_ne_none_example =
    prepare_ne_none still whole_numbers (to_lower (codes "SET")) (codes "SET") (name ∷ x ∷ [])
      set_entry_of set_in_table set_arity

set-keyed : is_keyless (to_lower (codes "SET")) ≡ false
unfolding is_keyless to_lower lower eq_bytes
set-keyed = refl

exec_normal_command_lem_example :
    RunsLocked sample name
      (is_writer (to_lower (codes "SET")))
      (exec_with_lock (cmd_table still whole_numbers) sample (codes "SET" ∷ name ∷ x ∷ []))
      (exec_normal_command (cmd_table still whole_numbers) sample (codes "SET" ∷ name ∷ x ∷ []))
exec_normal_command_lem_example =
    exec_normal_command_lem still whole_numbers sample (codes "SET") name (x ∷ []) set_entry_of
      set_in_table set_arity set-keyed
