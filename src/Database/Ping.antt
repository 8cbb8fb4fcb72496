-- ===== src/Database/Ping.antt =====
-- database/ping.go
use red_go.Base.{codes, pos}
use red_go.Reply.{pong_reply}
use red_go.Database.{ExecFunc, CmdTable, replied, register_command, no_prepare}

-- `Ping`
unfoldable pub ping : ExecFunc
ping db args = (replied pong_reply, db)

-- `init` of database/ping.go
unfoldable pub register_ping : CmdTable → CmdTable
register_ping table = register_command (codes "Ping") ping no_prepare (pos 1) table
