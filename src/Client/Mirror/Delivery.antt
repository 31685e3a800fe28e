-- ===== src/Client/Mirror/Delivery.antt =====
-- internal/daemon/server.go, internal/daemon/client_conn.go and internal/client/client.go: the daemon and its client as one
-- system. The writer's turn and the reading of what it sends are one step; an envelope comes through the socket as it is.
use randomshitgo_go.Prelude.{ℕ, List, [], ◌∷◌, Option, none, some}
use randomshitgo_go.Event.{Event}
use randomshitgo_go.Daemon.Server.{Server, apply_and_forward}
use randomshitgo_go.Daemon.ClientConn.{ClientConn, Turn, wait, leave, send, write_turn}
use randomshitgo_go.Client.Mirror.{Client, apply_envelope}

-- What happens: an event at the daemon's time, or a turn of the writer whose envelope the client applies at its own.
pub data Step : Type 0 where
  happens : Event → ℕ → Step
  delivers : ℕ → Step

-- What the writer took is sent, received and applied.
unfoldable pub receive : Client → Turn → ℕ → Client
receive c (send env) now = apply_envelope c env now
receive c wait now = c
receive c leave now = c

unfoldable pub deliver : Server → Client → Option ClientConn → ℕ → Server × Client
unfolding receive
deliver s c none now = (s, c)
deliver s c (some conn) now =
    let (turn, conn') = write_turn conn in (record s { client = some conn' }, receive c turn now)

unfoldable pub step : (List ℕ → List ℕ) → Server → Client → Step → Server × Client
unfolding deliver
step decode s c (happens ev now) = (apply_and_forward decode s ev now, c)
step decode s c (delivers now) = deliver s c s.client now

unfoldable pub run : (List ℕ → List ℕ) → Server → Client → List Step → Server × Client
unfolding step
run decode s c [] = (s, c)
run decode s c (st ∷ sts) = let (s', c') = step decode s c st in run decode s' c' sts
