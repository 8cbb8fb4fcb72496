-- ===== src/Database/Sets/Register.antt =====
-- The `init` function of database/set.go.
use red_go.Base.{codes, pos, negsuc}
use red_go.HashSet.{Random}
use red_go.Database.{
  CmdTable, register_command, read_first_key, write_first_key, prepare_set_calculate,
  prepare_set_calculate_store,
}
use red_go.Database.Sets.{exec_s_add, exec_s_card, exec_s_is_member, exec_s_members, exec_s_rem}
use red_go.Database.Sets.Draws.{exec_s_pop, exec_s_rand_member}
use red_go.Database.Sets.Calculate.{
  exec_s_union, exec_s_union_store, exec_s_inter, exec_s_inter_store, exec_s_diff,
  exec_s_diff_store,
}

-- `init`, over the generator that SPOP and SRANDMEMBER make
unfoldable pub register_sets : Random → CmdTable → CmdTable
register_sets r table =
    register_command (codes "SDIFFSTORE") exec_s_diff_store prepare_set_calculate_store (negsuc 2) (
      register_command (codes "SDIFF") exec_s_diff prepare_set_calculate (negsuc 1) (
        register_command (codes "SINTERSTORE") exec_s_inter_store prepare_set_calculate_store
          (negsuc 2)
          (register_command (codes "SINTER") exec_s_inter prepare_set_calculate (negsuc 1) (
            register_command (codes "SUNIONSTORE") exec_s_union_store prepare_set_calculate_store
              (negsuc 2)
              (register_command (codes "SUNION") exec_s_union prepare_set_calculate (negsuc 1) (
                register_command (codes "SRANDMEMBER") (exec_s_rand_member r) read_first_key
                  (negsuc 1)
                  (register_command (codes "SPOP") (exec_s_pop r) write_first_key (negsuc 1) (
                    register_command (codes "SREM") exec_s_rem write_first_key (negsuc 2) (
                      register_command (codes "SMEMBERS") exec_s_members read_first_key (pos 2) (
                        register_command (codes "SISMEMBER") exec_s_is_member read_first_key (pos 3)
                          (register_command (codes "SCARD") exec_s_card read_first_key (pos 2) (
                            register_command (codes "SADD") exec_s_add write_first_key (negsuc 2)
                              table))))))))))))
