-- ===== src/Client/Mirror/Queues.antt =====
-- internal/daemon/client_conn.go: the two queues after one envelope more, for queues that hold events.
use randomshitgo_go.Prelude.{
  List, [], ◌∷◌, ◌++◌, ◌≡◌, Bool, true, false, refl, ap, ◌∙◌, map, drop, leb, length, if◌then◌else◌,
}
use randomshitgo_go.Event.{Event, log_line, LogLineEvent}
use randomshitgo_go.Daemon.Server.{event_envelope}
use randomshitgo_go.Ipc.Message.{Envelope, is_log_line}
use randomshitgo_go.Daemon.ClientConn.{
  ClientConn, enqueue, enqueue_log, enqueue_ctrl, close, max_ctrl_queue, max_log_queue,
}

pub closed-enqueue :
    (conn : ClientConn) (env : Envelope) → conn.closed ≡ true → (enqueue conn env).closed ≡ true
unfolding enqueue
closed-enqueue conn env h = rw (enqueue, h) refl

pub drop_line : (es : List LogLineEvent) → List LogLineEvent
drop_line [] = []
drop_line (e ∷ es) = es

map-drop :
    (es : List LogLineEvent)
    → drop 1 (map (λ e. event_envelope (log_line e)) es)
      ≡ map (λ e. event_envelope (log_line e)) (drop_line es)
unfolding drop_line
map-drop [] = refl
map-drop (e ∷ es) = refl

pub map-snoc :
    {A : Type 0} (f : A → Envelope) (xs : List A) (x : A)
    → map f xs ++ f x ∷ [] ≡ map f (xs ++ x ∷ [])
map-snoc f [] x = refl
map-snoc f (y ∷ xs) x = ap (λ t. f y ∷ t) (map-snoc f xs x)

pub enqueue-full :
    (conn : ClientConn) (env : Envelope)
    → conn.closed ≡ false
    → is_log_line env ≡ false
    → leb max_ctrl_queue (length conn.ctrl) ≡ true
    → (enqueue conn env).closed ≡ true
unfolding enqueue enqueue_ctrl close
enqueue-full conn env h k full = rw (enqueue, h, k, full) refl

pub enqueue-room :
    (conn : ClientConn) (env : Envelope)
    → conn.closed ≡ false
    → is_log_line env ≡ false
    → leb max_ctrl_queue (length conn.ctrl) ≡ false
    → ((enqueue conn env).ctrl ≡ conn.ctrl ++ env ∷ [])
      × ((enqueue conn env).logq ≡ conn.logq)
      × ((enqueue conn env).closed ≡ false)
unfolding enqueue enqueue_ctrl
enqueue-room conn env h k room = rw (enqueue, h, k, room) (refl, refl, refl)

pub enqueue-line :
    (conn : ClientConn) (env : Envelope)
    → conn.closed ≡ false
    → is_log_line env ≡ true
    → ((enqueue conn env).ctrl ≡ conn.ctrl)
      × ((enqueue conn env).logq
          ≡ (if leb max_log_queue (length conn.logq) then drop 1 conn.logq else conn.logq)
            ++ env ∷ [])
      × ((enqueue conn env).closed ≡ false)
unfolding enqueue enqueue_log
enqueue-line conn env h k = rw (enqueue, h, k) (refl, refl, refl)

pub kept_lines :
    (b : Bool) (logq : List Envelope) (es : List LogLineEvent)
    → logq ≡ map (λ e. event_envelope (log_line e)) es
    → (if b then drop 1 logq else logq)
      ≡ map (λ e. event_envelope (log_line e)) (if b then drop_line es else es)
kept_lines true logq es h = ap (drop 1) h ∙ map-drop es
kept_lines false logq es h = h

pub none_pending : (evs : List Event) → map event_envelope evs ≡ [] → evs ≡ []
none_pending [] h = refl
none_pending (ev ∷ evs) h = cc
