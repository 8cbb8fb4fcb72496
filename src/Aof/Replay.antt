-- ===== src/Aof/Replay.antt =====
-- The file that `handleAof` writes, read back by `LoadAof`: every command runs again at its database.
use red_go.Base.{
  ℕ, ◌==◌, ◌≡◌, ◌≢◌, refl, arith, ap, ◌∙◌, subst, Bool, true, false, Bool-cases, inl, inr, List, [],
  ◌∷◌, ◌++◌, some, eq_bytes, if◌then◌else◌, map, ℤ, pos, All,
}
use red_go.Strconv.{itoa, parse_int}
use red_go.Strconv.RoundTrip.{parse_int-itoa}
use red_go.Reply.{Reply, multi_bulk_reply, to_bytes, is_error, ok_reply}
use red_go.Parser.{Payload, err_payload, eof, closed}
use red_go.Parser.RoundTrip.{IsCommand, command, parse_it-encode}
use red_go.Database.{CmdLine, to_lower}
use red_go.Aof.{
  AofPayload, select_line, handle_aof, Exec, Loading, Loaded, loaded, exec_line, selection,
  load_line, load_loop, load_aof,
}
use red_go.Aof.Lines.{
  aof_lines, handle_aof-encode, last_index, is_select, strings_of_somes, IsIndex,
  select_line-IsCommand,
}

module _ {ℓ} {D : Type ℓ} (exec : Exec D) (Ready : D → Type 0) (n : ℕ) where
  -- The commands run one by one, each at its database.
  abbrev pub run_all : D → List AofPayload → D
  run_all d [] = d
  run_all d (p ∷ ps) = run_all (exec d p.db_index p.cmd).1.0 ps

  -- Each command is one of the wire, finds the databases ready, is at one that is there, selects no other, and is answered
  -- with a reply that has bytes.
  abbrev pub Replays : D → List AofPayload → Type 0
  Replays d [] = Unit
  Replays d (p ∷ ps) =
      IsCommand p.cmd
      × Ready d
      × IsIndex n p.db_index
      × (is_select p.cmd ≡ false)
      × ((r : Reply) × (b : Bool) × ((exec d p.db_index p.cmd).0 ≡ some r)
          × (is_error r ≡ some b)
          × ((exec d p.db_index p.cmd).1.1 ≡ p.db_index))
      × Replays (exec d p.db_index p.cmd).1.0 ps

  exec_line_lem :
      (go : Loading D → Loaded D) (st : Loading D) (cmd : CmdLine) (r : Reply) (b : Bool)
      → (exec st.db st.selected cmd).0 ≡ some r
      → is_error r ≡ some b
      → exec_line exec go st cmd
        ≡ go (record st {
          db = (exec st.db st.selected cmd).1.0;
          selected = (exec st.db st.selected cmd).1.1;
        })
  unfolding exec_line
  exec_line_lem go st cmd r b answer fine = rw (exec_line, answer, fine) refl

  pub load_command :
      (ps : List Payload) (d : D) (i : ℕ) (c : ℤ) (cmd : CmdLine) (r : Reply) (b : Bool)
      → cmd ≢ []
      → is_select cmd ≡ false
      → (exec d i cmd).0 ≡ some r
      → is_error r ≡ some b
      → (exec d i cmd).1.1 ≡ i
      → load_loop exec closed (command cmd ∷ ps) (record { db = d; selected = i; current_db = c })
        ≡ load_loop exec closed ps
            (record { db = (exec d i cmd).1.0; selected = i; current_db = c })
  unfolding load_loop load_line
  load_command ps d i c [] r b ne other answer fine stays = absurd (ne refl)
  load_command ps d i c (name ∷ args) r b ne other answer fine stays =
      ap
        (load_line exec (load_loop exec closed ps)
          (record { db = d; selected = i; current_db = c }))
        (strings_of_somes (name ∷ args))
      ∙ rw other (
          exec_line_lem (load_loop exec closed ps) (record { db = d; selected = i; current_db = c })
            (name ∷ args) r b answer fine)
      ∙ ap
          (λ s.
            load_loop exec closed ps
              (record { db = (exec d i (name ∷ args)).1.0; selected = s; current_db = c }))
          stays

  -- `SELECT` of an index that is there selects it and changes nothing else.
  module _
      (selects : (d : D) (s i : ℕ)
        → Ready d
        → IsIndex n i
        → exec d s (select_line i) ≡ (some ok_reply, (d, i))) where
    pub load_select :
        (ps : List Payload) (d : D) (s i : ℕ) (c : ℤ)
        → Ready d
        → IsIndex n i
        → load_loop exec closed
            (command (select_line i) ∷ ps)
            (record { db = d; selected = s; current_db = c })
          ≡ load_loop exec closed ps (record { db = d; selected = i; current_db = pos i })
    unfolding load_loop load_line selection to_lower red_go.Database.lower eq_bytes is_error
        red_go.Reply.first_byte_is to_bytes
    load_select ps d s i c ready index =
        let law = selects d s i ready index in
        let read : parse_int (itoa i) ≡ some (pos i) = parse_int-itoa i (omega arith) in
        rw read (
          exec_line_lem (load_loop exec closed ps)
            (record { db = d; selected = s; current_db = pos i }) (select_line i) ok_reply false
            (ap (λ o. o.0) law) refl)
        ∙ ap
            (λ o.
              load_loop exec closed ps
                (record { db = o.1.0; selected = o.1.1; current_db = pos i }))
            law

module _ {ℓ} {D : Type ℓ} (exec : Exec D) (Ready : D → Type 0) (n : ℕ) where
  pub aof_lines-IsCommand :
      (current : ℕ) (d : D) (ps : List AofPayload)
      → Replays exec Ready n d ps
      → All IsCommand (aof_lines current ps)
  aof_lines-IsCommand current d [] h = tt
  aof_lines-IsCommand current d (p ∷ ps) (wire, _, (inside, few), _, _, h) =
      let rest = aof_lines-IsCommand p.db_index (exec d p.db_index p.cmd).1.0 ps h in
      elim (p.db_index == current)
        as (λ b. All IsCommand (
          if b
          then p.cmd ∷ aof_lines p.db_index ps
          else select_line p.db_index ∷ p.cmd ∷ aof_lines p.db_index ps)) [
            | true ↦ (wire, rest)
            | false ↦ (select_line-IsCommand p.db_index (omega arith), (wire, rest))
          ]

  module _
      (selects : (d : D) (s i : ℕ)
        → Ready d
        → IsIndex n i
        → exec d s (select_line i) ≡ (some ok_reply, (d, i))) where
    -- The replay of the lines from a database that is selected, on, before other payloads
    pub load_lines :
        (more : List Payload) (d : D) (current : ℕ) (ps : List AofPayload)
        → Replays exec Ready n d ps
        → load_loop exec closed
            (map command (aof_lines current ps) ++ more)
            (record { db = d; selected = current; current_db = pos current })
          ≡ load_loop exec closed more (record {
            db = run_all exec Ready n d ps;
            selected = last_index current ps;
            current_db = pos (last_index current ps);
          })
    unfolding load_loop
    load_lines more d current [] h = refl
    load_lines more d current (p ∷ ps) (wire, ready, index, other, (r, b, answer, fine, stays), h) =
        let i = p.db_index in
        let d' = (exec d i p.cmd).1.0 in
        let rest = load_lines more d' i ps h in
        let next = map command (aof_lines i ps) ++ more in
        let ran =
          load_command exec Ready n next d i (pos i) p.cmd r b (wire.0) other answer fine stays in
        elim (Bool-cases (i == current)) [
          | inl same ↦
              let equal : i ≡ current = ground arith in
              rw same (
                subst
                  (λ k.
                    load_loop exec closed (command p.cmd ∷ next)
                      (record { db = d; selected = k; current_db = pos k })
                    ≡ load_loop exec closed more (record {
                      db = run_all exec Ready n d' ps;
                      selected = last_index i ps;
                      current_db = pos (last_index i ps);
                    }))
                  equal (ran ∙ rest))
          | inr differs ↦ rw differs (
              load_select exec Ready n selects (command p.cmd ∷ next) d current i (pos current)
                ready index
              ∙ ran
              ∙ rest)
        ]

    -- The file that `handleAof` writes from the first database on is replayed by `LoadAof` without a
    -- panic and to its end: every command of the channel runs again, in order, at the database that it
    -- changed, and the last of these stays selected; for commands that the wire carries and that are
    -- answered.
    pub load_aof-handle_aof :
        (d : D) (ps : List AofPayload)
        → Replays exec Ready n d ps
        → load_aof exec d (handle_aof 0 ps)
          ≡ loaded (record {
            db = run_all exec Ready n d ps;
            selected = last_index 0 ps;
            current_db = pos (last_index 0 ps);
          })
    unfolding load_aof load_loop
    load_aof-handle_aof d ps h =
        rw (handle_aof-encode 0 ps, parse_it-encode (aof_lines 0 ps) (aof_lines-IsCommand 0 d ps h))
          (load_lines (err_payload eof ∷ []) d 0 ps h)
