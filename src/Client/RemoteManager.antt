-- ===== src/Client/RemoteManager.antt =====
-- internal/client/remote_manager.go: what each call of `RemoteManager` sends, by `Client.send`
-- (internal/client/client.go). A grace and a delay are not sent. A write that fails is input and output.
pub mod Serving
mod Tests
use randomshitgo_go.Prelude.{[], Option, none, some, String}
use randomshitgo_go.Process.Manager.{ReloadResult}
use randomshitgo_go.Ipc.Message.{
  Command, Envelope, Op, kind_command, op_start, op_stop, op_restart, op_start_group, op_stop_all,
  op_reload,
}

unfoldable pub send : Command → Envelope
send cmd = record { kind = kind_command; command = some cmd; event = none; snapshot = none }

-- A command without an id and a group.
abbrev bare : Op → Command
bare op = record { op = op; id = ""; group = "" }

pub start : String → Envelope
unfolding send
start id = send (record (bare op_start) { id = id })

pub stop : String → Envelope
unfolding send
stop id = send (record (bare op_stop) { id = id })

pub restart : String → Envelope
unfolding send
restart id = send (record (bare op_restart) { id = id })

pub start_group : String → Envelope
unfolding send
start_group name = send (record (bare op_start_group) { group = name })

pub stop_all : Envelope
unfolding send
stop_all = send (bare op_stop_all)

-- The result comes later, as an event; the caller gets an empty one.
pub reload : ReloadResult × Envelope
unfolding send
reload = (record { added = []; removed = []; changed = []; stopped = [] }, send (bare op_reload))
