-- ===== src/Client/Mirror/Tests.antt =====
-- internal/client/client.go: the theorem from two fresh stores on.
use randomshitgo_go.Prelude.{ℕ, List, [], ◌∷◌, ◌≡◌, some, false, refl}
use randomshitgo_go.Prelude.Int.{pos}
use randomshitgo_go.Event.{started, log_line}
use randomshitgo_go.State.Runtime.{new_runtime_store}
use randomshitgo_go.State.Runtime.Shown.{shown}
use randomshitgo_go.State.Registry.{new_registry}
use randomshitgo_go.Daemon.Server.{
  Server, apply_and_forward, forward, event_envelope, event_msg, empty_msg,
}
use randomshitgo_go.Daemon.ClientConn.{
  ClientConn, new_client_conn, enqueue, enqueue_log, enqueue_ctrl, write_turn,
}
use randomshitgo_go.Ipc.Message.{is_log_line}
use randomshitgo_go.Client.Mirror.{Client}
use randomshitgo_go.Client.Mirror.Delivery.{Step, happens, delivers, run, step, deliver}
use randomshitgo_go.Client.Mirror.Faithful.{run-shown}

abbrev server : Server
server = record {
  rt = new_runtime_store;
  bring = [];
  client = some new_client_conn;
  log_buffer_lines = pos 10;
}

abbrev client : Client
client = record { reg = new_registry (pos 10); rt = new_runtime_store; notif = [] }

-- A start and a line are queued, and the start is delivered.
abbrev history : List Step
history =
    happens (started (record { id = "web"; pid = pos 41; at = 7 })) 7
    ∷ happens (log_line (record { id = "web"; bytes = b'x' ∷ []; is_partial = false; at = 8 })) 8
    ∷ delivers 9
    ∷ []

decode : List ℕ → List ℕ
decode b = b

abbrev after : Server × Client
after = run decode server client history

abbrev last : ClientConn
last = record {
  ctrl = [];
  logq =
      event_envelope
        (log_line (record { id = "web"; bytes = b'x' ∷ []; is_partial = false; at = 8 }))
      ∷ [];
  closed = false;
}

run-shown_example : shown after.1.rt "web" ≡ shown after.0.rt "web"
unfolding run step deliver apply_and_forward forward enqueue enqueue_log enqueue_ctrl write_turn
    is_log_line event_envelope event_msg empty_msg new_client_conn
run-shown_example =
    run-shown decode history server client new_client_conn last "web" refl refl refl refl
      (λ k. refl) refl refl refl
