-- ===== src/Daemon/ClientConn/Tests.antt =====
-- internal/daemon/client_conn.go: the theorems on a few envelopes.
use randomshitgo_go.Prelude.{
  ℕ, ◌+◌, ◌≤◌, List, [], ◌∷◌, ◌++◌, ◌≡◌, none, some, false, refl, arith, length, keep_last,
  replicate, length-replicate,
}
use randomshitgo_go.Ipc.Message.{Envelope, is_log_line, kind_snapshot}
use randomshitgo_go.Daemon.ClientConn.{
  ClientConn, new_client_conn, drain, max_log_queue, max_ctrl_queue,
}
use randomshitgo_go.Daemon.ClientConn.Delivery.{controls, logs, enqueue_all, drain-enqueue_all}
use randomshitgo_go.Daemon.Server.{event_envelope, event_msg}
use randomshitgo_go.Event.{log_line}

abbrev a_line : Envelope
a_line = event_envelope (log_line (record { id = "web"; bytes = []; is_partial = false; at = 1 }))

abbrev a_snapshot : Envelope
a_snapshot = record {
  kind = kind_snapshot;
  command = none;
  event = none;
  snapshot = some (record { projects = [] });
}

abbrev queued : List Envelope
queued = a_line ∷ a_snapshot ∷ a_line ∷ []

queued_fit : length (controls queued) ≤ max_ctrl_queue
unfolding controls is_log_line event_envelope event_msg
queued_fit = omega arith

drain-enqueue_all_example :
    (drain
      (length (controls queued) + length (keep_last max_log_queue (logs queued)))
      (enqueue_all new_client_conn queued)).0
    ≡ controls queued ++ keep_last max_log_queue (logs queued)
drain-enqueue_all_example = drain-enqueue_all queued queued_fit

backlog : ℕ → List Envelope
backlog n = replicate n a_snapshot

length-backlog : (n : ℕ) → n ≤ length (backlog n)
unfolding backlog
length-backlog n = omega (arith, length-replicate n a_snapshot)

abbrev wedged : ClientConn
wedged = record { ctrl = backlog max_ctrl_queue; logq = []; closed = false }

is_control : is_log_line a_snapshot ≡ false
unfolding is_log_line
is_control = refl
