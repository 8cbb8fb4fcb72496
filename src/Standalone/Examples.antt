-- ===== src/Standalone/Examples.antt =====
-- The replay of a log on two databases.
use red_go.Base.{
  ℕ, ◌≡◌, refl, arith, false, List, [], ◌∷◌, some, Bytes, codes, length, pos, eq_bytes,
}
use red_go.GoMap.{lookup, assign}
use red_go.Reply.{ok_reply, is_error, first_byte_is, to_bytes}
use red_go.Aof.{
  AofPayload, load_aof, handle_aof, loaded, select_line, AofHandler, handle_payloads,
  new_aof_handler,
}
use red_go.Aof.Replay.{Replays, run_all, load_aof-handle_aof}
use red_go.Aof.Restart.{second_replay_lem}
use red_go.Aof.Lines.{last_index}
use red_go.Aof.Lines.{is_select}
use red_go.Aof.Lines.{IsIndex}
use red_go.Database.{
  Db, CmdTable, to_lower, lower, register_command, exec_normal_command, run_command, validate_arity,
  write_first_key,
}
use red_go.Database.Strings.{register_strings, exec_set}
use red_go.Standalone.{Standalone, exec, exec_on, recovered}
use red_go.Standalone.Laws.{exec-select_line, exec-Ran, Ran}

abbrev table : CmdTable
table = register_strings []

abbrev empty_db : Db
empty_db = record { data_dict = record { table = [] ∷ []; count = 0; shard_count = 1 }; aof = [] }

abbrev two_dbs : Standalone
two_dbs = record { db_set = empty_db ∷ empty_db ∷ []; append_only = false; sent = [] }

abbrev set_line : List Bytes
set_line = codes "SET" ∷ codes "k" ∷ codes "v" ∷ []

-- SET k v at the second database
abbrev log : List AofPayload
log = record { cmd = set_line; db_index = 1 } ∷ []

-- There are two databases.
abbrev Ready : Standalone → Type 0
Ready d = length d.db_set ≡ 2

selects_two :
    (d : Standalone) (s i : ℕ)
    → Ready d
    → IsIndex 2 i
    → exec table d s (select_line i) ≡ (some ok_reply, (d, i))
selects_two d s i ready (inside, few) =
    exec-select_line table d s i (omega (arith, ready), omega (arith, ready))

set_line-other : is_select set_line ≡ false
unfolding to_lower lower eq_bytes
set_line-other = refl

set_line-answer : (exec table two_dbs 1 set_line).0 ≡ some ok_reply
unfolding exec exec_on recovered exec_normal_command run_command register_strings register_command
    to_lower lower lookup assign eq_bytes validate_arity exec_set write_first_key
set_line-answer = refl

ok_reply-is_error : is_error ok_reply ≡ some false
unfolding is_error first_byte_is to_bytes
ok_reply-is_error = refl

log-Replays : Replays (exec table) Ready 2 two_dbs log
log-Replays = (
  (
    (λ e. absurd (cc)),
    omega arith,
    (
      ((λ e. absurd (omega (arith, e))), omega arith),
      (
        ((λ e. absurd (omega (arith, e))), omega arith),
        (((λ e. absurd (omega (arith, e))), omega arith), tt),
      ),
    ),
  ),
  refl,
  (omega arith, omega arith),
  set_line-other,
  (
    ok_reply,
    false,
    set_line-answer,
    ok_reply-is_error,
    (exec-Ran table two_dbs 1 set_line set_line-other).1,
  ),
  tt,
)

load_aof-handle_aof_example :
    load_aof (exec table) two_dbs (handle_aof 0 log)
    ≡ loaded (record {
      db = run_all (exec table) Ready 2 two_dbs log;
      selected = last_index 0 log;
      current_db = pos (last_index 0 log);
    })
load_aof-handle_aof_example =
    load_aof-handle_aof (exec table) Ready 2 selects_two two_dbs log log-Replays

-- The databases behind the replay
abbrev replayed : Standalone
replayed = run_all (exec table) Ready 2 two_dbs log

replayed-Ready : Ready replayed
replayed-Ready = (exec-Ran table two_dbs 1 set_line set_line-other).0.0

replayed-answer : (exec table replayed 0 set_line).0 ≡ some ok_reply
unfolding exec exec_on recovered exec_normal_command run_command register_strings register_command
    to_lower lower lookup assign eq_bytes validate_arity exec_set write_first_key
replayed-answer = refl

-- The log of the first run, and SET k v at the second database once more
abbrev first_run : AofHandler
first_run = handle_payloads (record { aof_file = []; current_db = pos 0 }) log

abbrev again : AofPayload
again = record { cmd = set_line; db_index = 1 }

-- The second SET k v of the second database runs again at the first one.
second_replay_lem_example :
    (h : AofHandler) × (new_aof_handler (exec table) two_dbs first_run.aof_file
      ≡ some (replayed, h))
    × (new_aof_handler (exec table) two_dbs (handle_payloads h (again ∷ [])).aof_file
        ≡ some (
          (exec table replayed 0 set_line).1.0,
          record { aof_file = (handle_payloads h (again ∷ [])).aof_file; current_db = pos 0 },
        ))
second_replay_lem_example =
    second_replay_lem (exec table) Ready 2 selects_two two_dbs log again ok_reply false
      (omega arith) (omega arith) log-Replays replayed-Ready refl (λ e. absurd (omega (arith, e)))
      (log-Replays.0) set_line-other replayed-answer ok_reply-is_error
      (exec-Ran table replayed 0 set_line set_line-other).1

exec-Ran_example :
    Ran two_dbs 1 (exec table two_dbs 1 set_line).1.0 × ((exec table two_dbs 1 set_line).1.1 ≡ 1)
exec-Ran_example = exec-Ran table two_dbs 1 set_line set_line-other
