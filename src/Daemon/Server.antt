-- ===== src/Daemon/Server.antt =====
-- internal/daemon/server.go: the part of `Server` that its source goroutine owns, and what it sends.
-- The runtime store and the rings are the other components'; `decode` is log.DecodeForRender, which
-- stands on internal/log/ansi.go. The client is its connection's queues.
use randomshitgo_go.Prelude.{ℕ, List, [], Option, none, some, ◌≡◌, refl, map, String}
use randomshitgo_go.Prelude.Int.{ℤ}
use randomshitgo_go.Prelude.Assoc.{Assoc, lookup, insert}
use randomshitgo_go.Event.{Event, started, exited, state_changed, log_line, restarting}
use randomshitgo_go.Log.Line.{Line}
use randomshitgo_go.Log.RingBuffer.{RingBuffer, new_ring_buffer, push_locked}
use randomshitgo_go.Log.RingBuffer.{snapshot as ring_snapshot}
use randomshitgo_go.State.Registry.{zero_line, ring_capacity}
use randomshitgo_go.State.Runtime.{RuntimeStore, ProjectRuntime, apply}
use randomshitgo_go.State.Runtime.{snapshot as runtime_snapshot}
use randomshitgo_go.Ipc.Message.{
  Envelope, EventMsg, EventKind, ProjectSnap, Snapshot, kind_event, kind_snapshot, ev_started,
  ev_exited, ev_state_changed, ev_log_line, ev_restarting, ev_toast,
}
use randomshitgo_go.Daemon.ClientConn.{ClientConn, enqueue, close}

-- `&ipc.EventMsg{}`, of which each case sets the kind and one payload.
unfoldable pub empty_msg : EventKind → EventMsg
empty_msg k = record {
  kind = k;
  started = none;
  exited = none;
  state_changed = none;
  log_line = none;
  restarting = none;
  reload_result = none;
  toast = none;
  err = "";
}

unfoldable pub event_msg : Event → EventMsg
unfolding empty_msg
event_msg (started e) = record (empty_msg ev_started) { started = some e }
event_msg (exited e) = record (empty_msg ev_exited) { exited = some e }
event_msg (state_changed e) = record (empty_msg ev_state_changed) { state_changed = some e }
event_msg (log_line e) = record (empty_msg ev_log_line) { log_line = some e }
event_msg (restarting e) = record (empty_msg ev_restarting) { restarting = some e }

-- `eventEnvelope`; every event has one.
unfoldable pub event_envelope : Event → Envelope
unfolding event_msg
event_envelope ev = record {
  kind = kind_event;
  command = none;
  event = some (event_msg ev);
  snapshot = none;
}

pub toast_envelope : String → String → Envelope
unfolding empty_msg
toast_envelope text level = record {
  kind = kind_event;
  command = none;
  event =
      some (record (empty_msg ev_toast) { toast = some (record { text = text; level = level }) });
  snapshot = none;
}

-- `log_buffer_lines` is the setting that the source reads under its lock.
pub record Server : Type 0 where
  pub rt : RuntimeStore
  pub bring : Assoc (RingBuffer Line)
  pub client : Option ClientConn
  pub log_buffer_lines : ℤ

-- The ring of `ringFor`, which the caller then stores.
abbrev pub ring_for : ℤ → Assoc (RingBuffer Line) → String → RingBuffer Line
ring_for lines bring id = elim (lookup id bring) [
  | some r ↦ r
  | none ↦ new_ring_buffer zero_line (ring_capacity lines)
]

-- To the connected client, if there is one.
unfoldable pub forward : Server → Event → Option ClientConn → Server
forward s ev none = s
forward s ev (some c) = record s { client = some (enqueue c (event_envelope ev)) }

pub rt-forward : (s : Server) (ev : Event) (o : Option ClientConn) → (forward s ev o).rt ≡ s.rt
unfolding forward
rt-forward s ev none = refl
rt-forward s ev (some c) = refl

module _ (decode : List ℕ → List ℕ) where
  -- `applyAndForward`; `now` is the clock's answer. Writing the children's file is input and output.
  abbrev pub record_line : Server → Event → Server
  record_line s (log_line e) =
      let l : Line = record {
        bytes = e.bytes;
        rendered = decode e.bytes;
        is_partial = e.is_partial;
        timestamp = e.at;
      } in
      record s {
        bring =
            insert e.id (push_locked zero_line (ring_for s.log_buffer_lines s.bring e.id) l)
              s.bring;
      }
  record_line s (started e) = s
  record_line s (exited e) = s
  record_line s (state_changed e) = s
  record_line s (restarting e) = s

  unfoldable pub apply_and_forward : Server → Event → ℕ → Server
  unfolding forward
  apply_and_forward s ev now =
      let s' = record_line (record s { rt = apply s.rt ev now }) ev in forward s' ev s'.client

-- What a connecting client is told of a project.
pub project_snap : Assoc (RingBuffer Line) → ProjectRuntime → ProjectSnap
project_snap bring r = record {
  id = r.id;
  state = r.state;
  pid = r.pid;
  lines = elim (lookup r.id bring) [ none ↦ [] | some ring ↦ ring_snapshot zero_line ring ];
}

pub build_snapshot : Server → Snapshot
unfolding project_snap
build_snapshot s = record { projects = map (project_snap s.bring) (runtime_snapshot s.rt) }

pub snapshot_envelope : Snapshot → Envelope
snapshot_envelope snap = record {
  kind = kind_snapshot;
  command = none;
  event = none;
  snapshot = some snap;
}

-- The source goroutine's answer to a registering connection. The connection that it takes over from is
-- closed; that one is the second component.
pub register : Server → ClientConn → Server × Option ClientConn
unfolding build_snapshot snapshot_envelope
register s conn =
    let taken : Option ClientConn = elim s.client [ none ↦ none | some c ↦ some (close c) ] in
    (record s { client = some (enqueue conn (snapshot_envelope (build_snapshot s))) }, taken)
