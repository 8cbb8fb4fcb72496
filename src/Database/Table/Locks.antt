-- ===== src/Database/Table/Locks.antt =====
-- The locks around a command line: `execNormalCommand` with the table that the `init` functions fill.
use red_go.Base.{
  List, ◌∷◌, Option, none, some, Bytes, Bool, true, false, ◌≡◌, ◌≢◌, refl, ap, ◌∙◌, if◌then◌else◌,
  map, length, reverse,
}
use red_go.GoMap.{lookup}
use red_go.Dict.{spread}
use red_go.Dict.Locks.{has_index}
use red_go.Dict.Locks.Order.{IsAscending}
use red_go.Dict.Locks.Held.{
  index_of_lock, grants_write, rw_locks-IsAscending, rw_un_locks-reverse, rw_locks_lem,
}
use red_go.Database.{
  Db, Outcome, Command, Executed, run_command, exec_normal_command, exec_with_lock, to_lower,
  validate_arity,
}
use red_go.HashSet.{Random}
use red_go.Database.ZSets.Register.{Numbers}
use red_go.Database.Table.{cmd_table}
use red_go.Database.Table.Prepare.{lookup-Holds, prepare_ne_none}
use red_go.Database.Table.Covers.{is_writer, is_keyless, Covers, IsCovered, cmd_table-IsCovered}

-- What holds of an execution over a key: it runs the handler, between locks that it takes in ascending
-- order, one of them of the key's shard, for writing if `writes` holds, and gives back in the opposite
-- order.
abbrev pub RunsLocked : Db → Bytes → Bool → Outcome × Db → Executed → Type 0
RunsLocked db key writes handled run =
    let shard = spread (length db.data_dict.table) key in
    (run.outcome ≡ handled.0)
    × (run.db ≡ handled.1)
    × IsAscending (map index_of_lock run.taken)
    × (has_index shard (map index_of_lock run.taken) ≡ true)
    × ((if writes then grants_write shard run.taken else true) ≡ true)
    × (run.given_back ≡ reverse run.taken)

run_command_lem :
    (db : Db) (c : Command) (key : Bytes) (args : List Bytes) (writes : Bool)
    (o : Option (List Bytes × List Bytes))
    → c.prepare (key ∷ args) ≡ o
    → o ≢ none
    → Covers c.prepare writes
    → RunsLocked db key writes (c.exec db (key ∷ args)) (run_command c db (key ∷ args))
unfolding run_command
run_command_lem db c key args writes none e found covers = absurd (found refl)
run_command_lem db c key args writes (some ks) e found covers =
    let d = db.data_dict in
    let (here, written) = covers (length d.table) key args ks e in
    let (all, for_writing) = rw_locks_lem d ks.0 ks.1 (spread (length d.table) key) in
    rw (run_command, e)
      (
        refl,
        refl,
        rw_locks-IsAscending d ks.0 ks.1,
        all ∙ here,
        ap (λ b. if writes then b else true) for_writing ∙ written,
        rw_un_locks-reverse d ks.0 ks.1,
      )

-- A command line of the table whose first argument is a key (it is no KEYS, PING or FLUSHDB), of a right
-- arity, has the outcome and leaves the database of the execution for a caller that holds the locks, but
-- between locks that it takes and gives back: it takes them in strictly ascending order, the one of the
-- key's shard among them, which is for writing where the command is one that writes the key (GETSET,
-- RENAME and RENAMENX excepted), and it gives exactly these back in the opposite order, also where the
-- handler panics.
pub exec_normal_command_lem :
    (r : Random) (n : Numbers) (db : Db) (name key : Bytes) (args : List Bytes) (c : Command)
    → lookup (to_lower name) (cmd_table r n) ≡ some c
    → validate_arity c.arity (name ∷ key ∷ args) ≡ true
    → is_keyless (to_lower name) ≡ false
    → RunsLocked db key
        (is_writer (to_lower name))
        (exec_with_lock (cmd_table r n) db (name ∷ key ∷ args))
        (exec_normal_command (cmd_table r n) db (name ∷ key ∷ args))
unfolding exec_normal_command exec_with_lock
exec_normal_command_lem r n db name key args c e h keyed =
    let covers =
      lookup-Holds IsCovered (to_lower name) c (cmd_table r n) (cmd_table-IsCovered r n) e keyed in
    let found = prepare_ne_none r n (to_lower name) name (key ∷ args) c e h in
    let locked : exec_normal_command (cmd_table r n) db (name ∷ key ∷ args)
        ≡ run_command c db (key ∷ args) =
      rw (exec_normal_command, e, h) refl in
    let bare : exec_with_lock (cmd_table r n) db (name ∷ key ∷ args) ≡ c.exec db (key ∷ args) =
      rw (exec_with_lock, e, h) refl in
    rw (locked, bare)
      (run_command_lem db c key args (is_writer (to_lower name)) (c.prepare (key ∷ args)) refl found
        covers)
