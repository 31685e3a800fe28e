-- ===== src/Ipc/Message.antt =====
-- internal/ipc/message.go: what crosses the socket. An enumeration is a data type with the source's
-- constants; the pointer fields, of which the kind selects one, are options.
use randomshitgo_go.Prelude.{List, String, Option, none, some, Bool, true, false}
use randomshitgo_go.Prelude.Int.{ℤ}
use randomshitgo_go.Event.{
  StartedEvent, ExitedEvent, StateChangedEvent, LogLineEvent, RestartingEvent,
}
use randomshitgo_go.Log.Line.{Line}

pub data Kind : Type 0 where
  kind_command : Kind
  kind_event : Kind
  kind_snapshot : Kind

pub data Op : Type 0 where
  op_start : Op
  op_stop : Op
  op_restart : Op
  op_start_group : Op
  op_stop_all : Op
  op_reload : Op
  op_shutdown : Op
  op_status : Op

pub record Command : Type 0 where
  pub op : Op
  pub id : String
  pub group : String

pub data EventKind : Type 0 where
  ev_started : EventKind
  ev_exited : EventKind
  ev_state_changed : EventKind
  ev_log_line : EventKind
  ev_restarting : EventKind
  ev_reload_result : EventKind
  ev_toast : EventKind
  ev_err : EventKind

pub record ReloadResult : Type 0 where
  pub added : List String
  pub removed : List String
  pub changed : List String
  pub stopped : List String

pub record WireToast : Type 0 where
  pub text : String
  pub level : String

pub record EventMsg : Type 0 where
  pub kind : EventKind
  pub started : Option StartedEvent
  pub exited : Option ExitedEvent
  pub state_changed : Option StateChangedEvent
  pub log_line : Option LogLineEvent
  pub restarting : Option RestartingEvent
  pub reload_result : Option ReloadResult
  pub toast : Option WireToast
  pub err : String

pub record ProjectSnap : Type 0 where
  pub id : String
  pub state : String
  pub pid : ℤ
  pub lines : List Line

pub record Snapshot : Type 0 where
  pub projects : List ProjectSnap

pub record Envelope : Type 0 where
  pub kind : Kind
  pub command : Option Command
  pub event : Option EventMsg
  pub snapshot : Option Snapshot

-- internal/daemon/client_conn.go: `isLogLine`
unfoldable pub is_log_line : Envelope → Bool
is_log_line env = elim env.kind [
  | kind_command ↦ false
  | kind_snapshot ↦ false
  | kind_event ↦ elim env.event [
    | none ↦ false
    | some msg ↦ elim msg.kind [ ev_log_line ↦ true | _ ↦ false ]
  ]
]
