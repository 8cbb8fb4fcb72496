-- ===== src/Aof/Restart.antt =====
-- A server that stops and starts again: the log goes on with the handler that `LoadAof` leaves.
use red_go.Base.{
  sym, append_assoc, append-nil, ℕ, ◌≤◌, ◌<◌, ◌^◌, ◌==◌, ◌≡◌, ◌≢◌, refl, arith, ap, ◌∙◌, Bool, true,
  false, Bool-cases, inl, inr, List, [], ◌∷◌, ◌++◌, some, Bytes, if◌then◌else◌, map, pos,
}
use red_go.Reply.{Reply, is_error, ok_reply}
use red_go.Parser.{err_payload, eof}
use red_go.Parser.RoundTrip.{IsCommand, encode, command, parse_it-encode}
use red_go.Database.{CmdLine}
use red_go.Aof.{
  AofPayload, select_line, line_bytes, handle_aof, Exec, Loading, loaded, load_loop, load_aof,
  AofHandler, is_current, write_line, handle_payload, handle_payloads, finish_load, new_aof_handler,
}
use red_go.Aof.Lines.{
  aof_lines, handle_aof-encode, last_index, encode-append, All-append, map-append, is_select,
  IsIndex, select_line-IsCommand,
}
use red_go.Aof.Replay.{
  run_all, Replays, load_command, load_select, aof_lines-IsCommand, load_lines, load_aof-handle_aof,
}

-- A handler at a database
abbrev at : Bytes → ℕ → AofHandler
at file k = record { aof_file = file; current_db = pos k }

handle_payload_lem :
    (file : Bytes) (k : ℕ) (p : AofPayload)
    → handle_payload (at file k) p ≡ at (file ++ handle_aof k (p ∷ [])) p.db_index
unfolding handle_payload handle_aof is_current write_line
handle_payload_lem file k p = elim (Bool-cases (p.db_index == k)) [
  | inl same ↦ let equal : p.db_index ≡ k = ground arith in rw (same, append-nil, equal) refl
  | inr other ↦
      rw (other, append-nil)
        (ap (λ m. at m p.db_index)
          (append_assoc file (line_bytes (select_line p.db_index)) (line_bytes p.cmd)))
]

handle_aof-cons :
    (k : ℕ) (p : AofPayload) (ps : List AofPayload)
    → handle_aof k (p ∷ ps) ≡ handle_aof k (p ∷ []) ++ handle_aof p.db_index ps
unfolding handle_aof
handle_aof-cons k p ps = rw append-nil (
    sym (
      append_assoc (if p.db_index == k then [] else line_bytes (select_line p.db_index))
        (line_bytes p.cmd) (handle_aof p.db_index ps)))

handle_payloads_lem :
    (file : Bytes) (k : ℕ) (ps : List AofPayload)
    → handle_payloads (at file k) ps ≡ at (file ++ handle_aof k ps) (last_index k ps)
unfolding handle_payloads
handle_payloads_lem file k [] = unfold handle_aof in rw append-nil refl
handle_payloads_lem file k (p ∷ ps) =
    ap (λ h. handle_payloads h ps) (handle_payload_lem file k p)
    ∙ handle_payloads_lem (file ++ handle_aof k (p ∷ [])) p.db_index ps
    ∙ ap (λ m. at m (last_index p.db_index ps))
        (append_assoc file (handle_aof k (p ∷ [])) (handle_aof p.db_index ps)
          ∙ ap (λ m. file ++ m) (sym (handle_aof-cons k p ps)))

-- The handler behind a load that ends at a database other than the first
finish_load-away :
    (file : Bytes) (k : ℕ)
    → k ≢ 0
    → finish_load (at file k) ≡ at (file ++ line_bytes (select_line 0)) k
unfolding finish_load is_current write_line
finish_load-away file k away = let moved : (0 == k) ≡ false = ground arith in rw moved refl

-- The file of a handler that starts with no database selected
file_lem :
    (ps : List AofPayload) → handle_payloads (at [] 0) ps ≡ at (handle_aof 0 ps) (last_index 0 ps)
file_lem ps = handle_payloads_lem [] 0 ps

new_aof_handler-loaded {ℓ} :
    {D : Type ℓ} (exec : Exec D) (d : D) (file : Bytes) (st : Loading D)
    → load_aof exec d file ≡ loaded st
    → new_aof_handler exec d file
      ≡ some (st.db, finish_load (record { aof_file = file; current_db = st.current_db }))
unfolding new_aof_handler
new_aof_handler-loaded exec d file st e = rw (new_aof_handler, e) refl

module _ {ℓ} {D : Type ℓ} (exec : Exec D) (Ready : D → Type 0) (n : ℕ) where
  module _
      (selects : (d : D) (s i : ℕ)
        → Ready d
        → IsIndex n i
        → exec d s (select_line i) ≡ (some ok_reply, (d, i))) where
    -- The replay of the first log, of `SELECT 0`, and of one more command
    load_restarted :
        (d : D) (ps : List AofPayload) (cmd : CmdLine) (r : Reply) (b : Bool)
        → 0 < n
        → n ≤ 2 ^ 16
        → Replays exec Ready n d ps
        → Ready (run_all exec Ready n d ps)
        → IsCommand cmd
        → is_select cmd ≡ false
        → (exec (run_all exec Ready n d ps) 0 cmd).0 ≡ some r
        → is_error r ≡ some b
        → (exec (run_all exec Ready n d ps) 0 cmd).1.1 ≡ 0
        → load_aof exec d ((handle_aof 0 ps ++ line_bytes (select_line 0)) ++ line_bytes cmd)
          ≡ loaded (record {
            db = (exec (run_all exec Ready n d ps) 0 cmd).1.0;
            selected = 0;
            current_db = pos 0;
          })
    unfolding load_aof load_loop
    load_restarted d ps cmd r b some_db few h ready wire other answer fine stays =
        let d' = run_all exec Ready n d ps in
        let k = last_index 0 ps in
        let lines = aof_lines 0 ps in
        let tail = select_line 0 ∷ cmd ∷ [] in
        let file : (handle_aof 0 ps ++ line_bytes (select_line 0)) ++ line_bytes cmd
            ≡ encode (lines ++ tail) =
          append_assoc (handle_aof 0 ps) (line_bytes (select_line 0)) (line_bytes cmd)
          ∙ rw (handle_aof-encode 0 ps, encode-append lines tail, append-nil) refl in
        let all =
          All-append lines tail (aof_lines-IsCommand exec Ready n 0 d ps h)
            (select_line-IsCommand 0 (omega arith), (wire, tt)) in
        let grouped : map command (lines ++ tail) ++ err_payload eof ∷ []
            ≡ map command lines ++ (map command tail ++ err_payload eof ∷ []) =
          ap (λ m. m ++ err_payload eof ∷ []) (map-append lines tail)
          ∙ append_assoc (map command lines) (map command tail) (err_payload eof ∷ []) in
        let rest = command cmd ∷ err_payload eof ∷ [] in
        rw (file, parse_it-encode (lines ++ tail) all, grouped)
          (load_lines exec Ready n selects (map command tail ++ err_payload eof ∷ []) d 0 ps h
            ∙ load_select exec Ready n selects rest d' k 0 (pos k) ready (some_db, few)
            ∙ load_command exec Ready n (err_payload eof ∷ []) d' 0 (pos 0) cmd r b (wire.0) other
                answer fine stays)

    -- A server logs commands, the last of them at another database than the first, stops, and starts
    -- again. Then it logs one more command, for that database. The start finds its databases as they
    -- were, but a further start runs the last command at the first database; for commands that the
    -- wire carries and that are answered.
    pub second_replay_lem :
        (d : D) (ps : List AofPayload) (p : AofPayload) (r : Reply) (b : Bool)
        → 0 < n
        → n ≤ 2 ^ 16
        → Replays exec Ready n d ps
        → Ready (run_all exec Ready n d ps)
        → p.db_index ≡ last_index 0 ps
        → last_index 0 ps ≢ 0
        → IsCommand p.cmd
        → is_select p.cmd ≡ false
        → (exec (run_all exec Ready n d ps) 0 p.cmd).0 ≡ some r
        → is_error r ≡ some b
        → (exec (run_all exec Ready n d ps) 0 p.cmd).1.1 ≡ 0
        → let first = handle_payloads (record { aof_file = []; current_db = pos 0 }) ps in
          (h : AofHandler) × (new_aof_handler exec d first.aof_file
            ≡ some (run_all exec Ready n d ps, h))
          × (new_aof_handler exec d (handle_payloads h (p ∷ [])).aof_file
              ≡ some (
                (exec (run_all exec Ready n d ps) 0 p.cmd).1.0,
                record { aof_file = (handle_payloads h (p ∷ [])).aof_file; current_db = pos 0 },
              ))
    unfolding finish_load is_current
    second_replay_lem d ps p r b some_db few h ready here away wire other answer fine stays =
        let k = last_index 0 ps in
        let file = handle_aof 0 ps ++ line_bytes (select_line 0) in
        let same : (p.db_index == k) ≡ true = ground arith in
        let written : handle_payloads (at file k) (p ∷ []) ≡ at (file ++ line_bytes p.cmd) k =
          handle_payloads_lem file k (p ∷ [])
          ∙ unfold handle_aof in rw (same, append-nil, here) refl in
        let first_load = load_aof-handle_aof exec Ready n selects d ps h in
        let second_load =
          load_restarted d ps p.cmd r b some_db few h ready wire other answer fine stays in
        (
          at file k,
          ap (λ g. new_aof_handler exec d g.aof_file) (file_lem ps)
              ∙ new_aof_handler-loaded exec d (handle_aof 0 ps) _ first_load
              ∙ ap (λ g. some (run_all exec Ready n d ps, g))
                  (finish_load-away (handle_aof 0 ps) k away),
          ap (λ g. new_aof_handler exec d g.aof_file) written
              ∙ new_aof_handler-loaded exec d (file ++ line_bytes p.cmd) _ second_load
              ∙ ap
                  (λ bytes. some (
                    (exec (run_all exec Ready n d ps) 0 p.cmd).1.0,
                    record { aof_file = bytes; current_db = pos 0 },
                  ))
                  (sym (ap (λ g. g.aof_file) written)),
        )
