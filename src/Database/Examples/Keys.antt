-- ===== src/Database/Examples/Keys.antt =====
-- The theorems on strings and keys at concrete commands.
use red_go.Base.{[], ◌∷◌, none, some, pos, ◌≡◌, eq_bytes, if◌then◌else◌}
use red_go.Reply.{ok_reply, int_reply}
use red_go.Database.{bytes_data, get_entity, replied}
use red_go.Database.Keys.{exec_del, exec_rename, exec_rename_nx}
use red_go.Database.Keys.Commands.{exec_del_lem, among, count_once, exec_renames_lem}
use red_go.Database.Examples.{name, queue, x, sample, sample-IsValid, name-bytes}

exec_del_lem_example :
    ((exec_del sample (name ∷ queue ∷ [])).0
      ≡ replied (int_reply (pos (count_once sample [] (name ∷ queue ∷ [])))))
    × (get_entity (exec_del sample (name ∷ queue ∷ [])).1 queue
        ≡ (if among queue (name ∷ queue ∷ []) then none else get_entity sample queue))
exec_del_lem_example = exec_del_lem sample (name ∷ queue ∷ []) queue sample-IsValid

exec_renames_lem_example :
    ((exec_rename sample (name ∷ queue ∷ [])).0 ≡ replied ok_reply)
    × (get_entity (exec_rename sample (name ∷ queue ∷ [])).1 queue ≡ (
        if eq_bytes name queue
        then none
        else if eq_bytes queue queue
        then some (bytes_data x)
        else get_entity sample queue))
    × ((exec_rename_nx sample (name ∷ queue ∷ [])).0 ≡ elim (get_entity sample queue) [
      | none ↦ replied (int_reply (pos 1))
      | some _ ↦ replied (int_reply (pos 0))
    ])
    × (get_entity (exec_rename_nx sample (name ∷ queue ∷ [])).1 queue
        ≡ elim (get_entity sample queue) [
          | none ↦
              if eq_bytes name queue
              then none
              else if eq_bytes queue queue
              then some (bytes_data x)
              else get_entity sample queue
          | some _ ↦ get_entity sample queue
        ])
exec_renames_lem_example =
    exec_renames_lem sample name queue [] (bytes_data x) queue sample-IsValid name-bytes
