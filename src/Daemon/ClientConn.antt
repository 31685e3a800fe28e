-- ===== src/Daemon/ClientConn.antt =====
-- internal/daemon/client_conn.go: the server's view of one client, with the kinds that
-- internal/ipc/message.go gives its envelopes. Each critical section of the mutex is one function;
-- the socket and the condition variable are not state of the model.
pub mod Delivery
mod Tests
use randomshitgo_go.Prelude.{
  ℕ, zero, suc, ◌+◌, ◌^◌, List, [], ◌∷◌, ◌++◌, Option, none, some, Bool, true, false, leb,
  if◌then◌else◌, length, drop,
}
use randomshitgo_go.Ipc.Message.{Envelope, is_log_line}

abbrev pub max_log_queue : ℕ
max_log_queue = 4096

-- 1 << 16
abbrev pub max_ctrl_queue : ℕ
max_ctrl_queue = 2 ^ 16

pub record ClientConn : Type 0 where
  pub ctrl : List Envelope
  pub logq : List Envelope
  pub closed : Bool

unfoldable pub new_client_conn : ClientConn
new_client_conn = record { ctrl = []; logq = []; closed = false }

unfoldable pub close : ClientConn → ClientConn
close c = if c.closed then c else record c { closed = true }

-- The oldest log line makes room for a new one when the queue is full.
unfoldable pub enqueue_log : ClientConn → Envelope → ClientConn
enqueue_log c env =
    let logq = if leb max_log_queue (length c.logq) then drop 1 c.logq else c.logq in
    record c { logq = logq ++ env ∷ [] }

-- A client with a full control queue is dropped.
unfoldable pub enqueue_ctrl : ClientConn → Envelope → ClientConn
unfolding close
enqueue_ctrl c env =
    if leb max_ctrl_queue (length c.ctrl) then close c else record c { ctrl = c.ctrl ++ env ∷ [] }

unfoldable pub enqueue : ClientConn → Envelope → ClientConn
unfolding enqueue_log enqueue_ctrl
enqueue c env =
    if c.closed then c else if is_log_line env then enqueue_log c env else enqueue_ctrl c env

-- What the writer does when it holds the lock: waits, leaves, or takes an envelope to write.
pub data Turn : Type 0 where
  wait : Turn
  leave : Turn
  send : Envelope → Turn

-- One turn of the loop in `writeLoop`, up to the write.
unfoldable pub write_turn : ClientConn → Turn × ClientConn
write_turn c = if c.closed then (leave, c) else elim c.ctrl [
  | env ∷ ctrl ↦ (send env, record c { ctrl = ctrl })
  | [] ↦ elim c.logq [ env ∷ logq ↦ (send env, record c { logq = logq }) | [] ↦ (wait, c) ]
]

-- `drain n c`: what the next n turns write, with every write successful.
pub drain : ℕ → ClientConn → List Envelope × ClientConn
unfolding write_turn
drain zero c = ([], c)
drain (suc n) c =
    let (turn, c') = write_turn c in
    let (sent, c'') = drain n c' in
    elim turn [ wait ↦ ([], c) | leave ↦ ([], c) | send env ↦ (env ∷ sent, c'') ]
