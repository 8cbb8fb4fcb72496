-- ===== src/Database/Table.antt =====
-- The command table that the `init` functions of database/strings.go, key.go, list.go, hash.go,
-- set.go, ping.go and zset.go fill, over the generator of the random commands and the scores.
pub mod Prepare
pub mod Covers
pub mod Locks
use red_go.Base.{[]}
use red_go.Database.{CmdTable}
use red_go.Database.Strings.{register_strings}
use red_go.Database.Keys.{register_keys}
use red_go.Database.Lists.{register_lists}
use red_go.Database.Hashes.{register_hashes}
use red_go.Database.Ping.{register_ping}
use red_go.Database.Sets.Register.{register_sets}
use red_go.Database.ZSets.Register.{Numbers, register_zsets}
use red_go.HashSet.{Random}

-- Go runs the `init` functions of a package in the order of the files' names.
unfoldable pub cmd_table : Random → Numbers → CmdTable
cmd_table r n = register_zsets n (
    register_strings
      (register_sets r (register_ping (register_lists (register_keys (register_hashes []))))))
