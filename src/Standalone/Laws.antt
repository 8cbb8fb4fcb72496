-- ===== src/Standalone/Laws.antt =====
-- What a command line does to the databases, the connection and the log.
use red_go.Base.{
  ℕ, ◌≡◌, ◌≢◌, refl, arith, ap, sym, Bool, true, false, List, [], ◌∷◌, ◌++◌, append-nil, Option,
  none, some, Bytes, length, eq_bytes, if◌then◌else◌, get_elem?, length-set, get_elem?-set_ne, All,
  ltb, pos,
}
use red_go.Strconv.{itoa, parse_int}
use red_go.Strconv.RoundTrip.{parse_int-itoa}
use red_go.Reply.{ok_reply}
use red_go.Aof.{AofPayload, select_line}
use red_go.Database.{Db, CmdLine, CmdTable, to_lower, lower, exec_normal_command}
use red_go.Standalone.{Standalone, exec, exec_on, exec_select, send_lines}
use red_go.Aof.Lines.{is_select}
use red_go.Aof.Lines.{IsIndex}

-- `SELECT` of a database that is there selects it and changes no database.
pub exec-select_line :
    (table : CmdTable) (d : Standalone) (s i : ℕ)
    → IsIndex (length d.db_set) i
    → exec table d s (select_line i) ≡ (some ok_reply, (d, i))
unfolding exec exec_select to_lower lower eq_bytes
exec-select_line table d s i index =
    let read : parse_int (itoa i) ≡ some (pos i) = parse_int-itoa i (omega arith) in
    let inside : ltb i (length d.db_set) ≡ true = ground arith in
    let step : exec_select d s (itoa i) ≡ (ok_reply, i) = rw (exec_select, read, inside) refl in
    ap (λ r. (some r.0, (d, r.1))) step

-- The payloads of a command line are for this database.
send_lines-All : (i : ℕ) (cmds : List CmdLine) → All (λ p. p.db_index ≡ i) (send_lines i cmds)
unfolding send_lines
send_lines-All i [] = tt
send_lines-All i (cmd ∷ cmds) = (refl, send_lines-All i cmds)

-- What a command line leaves: as many databases, the others than the selected one as they were, and
-- new payloads at the end of the log, for the selected one
abbrev pub Ran : Standalone → ℕ → Standalone → Type 0
Ran d s d' =
    (length d'.db_set ≡ length d.db_set)
    × ((j : ℕ) → s ≢ j → get_elem? d'.db_set j ≡ get_elem? d.db_set j)
    × ((ps : List AofPayload) × (d'.sent ≡ d.sent ++ ps) × All (λ p. p.db_index ≡ s) ps)

unchanged-Ran : (d : Standalone) (s : ℕ) → Ran d s d
unchanged-Ran d s = (refl, λ j h. refl, ([], sym (append-nil d.sent), tt))

sent_lem :
    (on : Bool) (sent : List AofPayload) (s : ℕ) (cmds : List CmdLine)
    → (ps : List AofPayload) × ((if on then sent ++ send_lines s cmds else sent) ≡ sent ++ ps)
      × All (λ p. p.db_index ≡ s) ps
sent_lem true sent s cmds = (send_lines s cmds, refl, send_lines-All s cmds)
sent_lem false sent s cmds = ([], sym (append-nil sent), tt)

exec_on-Ran :
    (table : CmdTable) (d : Standalone) (s : ℕ) (db : Db) (args : CmdLine)
    → Ran d s (exec_on table d s db args).1
unfolding exec_on
exec_on-Ran table d s db args =
    let db' = (exec_normal_command table (record db { aof = [] }) args).db in
    (
      length-set d.db_set s db',
      λ j h. get_elem?-set_ne d.db_set db' h,
      sent_lem d.append_only d.sent s db'.aof,
    )

exec_at-Ran :
    (table : CmdTable) (d : Standalone) (s : ℕ) (name : Bytes) (args : List Bytes) (o : Option Db)
    → get_elem? d.db_set s ≡ o
    → is_select (name ∷ args) ≡ false
    → Ran d s (exec table d s (name ∷ args)).1.0 × ((exec table d s (name ∷ args)).1.1 ≡ s)
unfolding exec
exec_at-Ran table d s name args none e other = rw (other, e) (unchanged-Ran d s, refl)
exec_at-Ran table d s name args (some db) e other =
    rw (other, e) (exec_on-Ran table d s db (name ∷ args), refl)

-- A command line that is no `SELECT` leaves the selection, the number of the databases and those that
-- are not selected as they were, and logs for the selected one alone; also where the handler panics.
pub exec-Ran :
    (table : CmdTable) (d : Standalone) (s : ℕ) (args : CmdLine)
    → is_select args ≡ false
    → Ran d s (exec table d s args).1.0 × ((exec table d s args).1.1 ≡ s)
unfolding exec
exec-Ran table d s [] other = (unchanged-Ran d s, refl)
exec-Ran table d s (name ∷ args) other =
    exec_at-Ran table d s name args (get_elem? d.db_set s) refl other
