-- ===== src/Database/Examples/ZSets.antt =====
-- The theorems on the commands of sorted sets at a concrete database.
use red_go.Base.{false, [], ◌∷◌, some, Bytes, codes, eq_bytes, pos, if◌then◌else◌, ◌≡◌, refl, arith}
use red_go.GoMap.{lookup, assign, has}
use red_go.Dict.{get_with_lock, get_shard, spread}
use red_go.Score.{Float64}
use red_go.ZSet
use red_go.ZSet.{ZSet, listpack}
use red_go.ZSet.Valid.{IsValid, AllParse-assign, stored}
use red_go.ZSet.Whole.{whole_score, whole_floats, whole-Parses}
use red_go.Reply.{bulk_reply, int_reply}
use red_go.Database
use red_go.Database.{Db, zset_data, replied, get_entity}
use red_go.Database.Examples.{x, y}
use red_go.Database.ZSets.{get_as_zset, parse_float, exec_z_add, exec_z_score}
use red_go.Database.ZSets.Laws.{set_at, exec_z_score-z_add}

abbrev board : Bytes
board = codes "board"

abbrev one_pair : ZSet Float64
one_pair = listpack ((x, 7 ∷ []) ∷ [])

one_pair-IsValid : IsValid whole_floats one_pair
unfolding lookup assign eq_bytes
one_pair-IsValid = (
  (refl, tt),
  omega arith,
  AllParse-assign whole_floats x 7 [] whole-Parses (λ k text e. absurd (ground (arith, e))),
)

abbrev scored : Db
scored = record {
  data_dict = record {
    table = ((board, zset_data one_pair) ∷ []) ∷ [];
    count = 1;
    shard_count = 1;
  };
  aof = [];
}

scored-IsValid : Database.Laws.IsValid scored
scored-IsValid = (omega arith, omega arith)

board-set : set_at (get_as_zset scored board) ≡ some one_pair
unfolding get_as_zset get_entity get_with_lock get_shard spread lookup eq_bytes
board-set = refl

three-parses : parse_float whole_floats (3 ∷ []) ≡ some 3
unfolding parse_float
three-parses = refl

exec_z_score-z_add_example :
    (db' : Db) × (exec_z_add whole_floats (λ i j k. false) scored (board ∷ (3 ∷ []) ∷ y ∷ []) ≡ (
      replied (int_reply (pos (if has (ZSet.score whole_floats y one_pair) then 0 else 1))),
      db',
    ))
    × (exec_z_score whole_floats db' (board ∷ y ∷ []) ≡ (
      replied (bulk_reply (some (whole_floats.format_float (stored whole_floats y 3 one_pair)))),
      db',
    ))
    × ((k : Bytes)
        → eq_bytes y k ≡ false
        → (exec_z_score whole_floats db' (board ∷ k ∷ [])).0
          ≡ (exec_z_score whole_floats scored (board ∷ k ∷ [])).0)
    × ((j : Bytes) → eq_bytes board j ≡ false → get_entity db' j ≡ get_entity scored j)
exec_z_score-z_add_example =
    exec_z_score-z_add whole_floats (λ i j k. false) scored board (3 ∷ []) y 3 one_pair
      scored-IsValid whole-Parses three-parses board-set one_pair-IsValid
