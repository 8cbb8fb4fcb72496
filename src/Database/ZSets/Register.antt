-- ===== src/Database/ZSets/Register.antt =====
-- The `init` function of database/zset.go.
use red_go.Base.{ℕ, Bool, codes, pos, negsuc}
use red_go.Score.{Score, Float64}
use red_go.ZSet.{Floats}
use red_go.Database.{CmdTable, register_command, read_first_key, write_first_key}
use red_go.Database.ZSets.{
  exec_z_add, exec_z_score, exec_z_card, exec_z_range, exec_z_rem, exec_z_count, exec_z_rank,
}

-- What the commands use of the libraries: the comparison of scores, their texts, and the draws of the
-- levels of skip lists
pub record Numbers : Type 0 where
  pub scores : Score Float64
  pub floats : Floats Float64
  pub draws : ℕ → ℕ → ℕ → Bool

-- `init`
unfoldable pub register_zsets : Numbers → CmdTable → CmdTable
register_zsets n table =
    register_command (codes "ZRANK") (exec_z_rank ⦃f = n.scores⦄ n.floats) read_first_key (pos 3) (
      register_command (codes "ZCOUNT") (exec_z_count ⦃f = n.scores⦄ n.floats) read_first_key
        (pos 4)
        (register_command (codes "ZREM") (exec_z_rem ⦃f = n.scores⦄) write_first_key (negsuc 2) (
          register_command (codes "ZRANGE") (exec_z_range ⦃f = n.scores⦄ n.floats) read_first_key
            (negsuc 3)
            (register_command (codes "ZCARD") exec_z_card read_first_key (pos 2) (
              register_command (codes "ZSCORE") (exec_z_score n.floats) read_first_key (pos 3) (
                register_command (codes "ZADD") (exec_z_add ⦃f = n.scores⦄ n.floats n.draws)
                  write_first_key (negsuc 3) table))))))
