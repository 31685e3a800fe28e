-- ===== src/Client/Mirror/Faithful.antt =====
-- internal/client/client.go: what the client shows is what the daemon holds.
use mathlib.Core.Option.{some-injective}
use randomshitgo_go.Prelude.{
  ℕ, List, [], ◌∷◌, ◌++◌, ◌≡◌, ◌⊎◌, inl, inr, some, Bool, true, false, refl, sym, ap, ◌∙◌, String,
  map, leb, length, Bool-cases, true≢false, if◌then◌else◌,
}
use randomshitgo_go.Event.{
  Event, started, exited, state_changed, log_line, restarting, LogLineEvent,
}
use randomshitgo_go.State.Runtime.{RuntimeStore, apply}
use randomshitgo_go.State.Runtime.Shown.{shown, shown-log_line, shown-cong}
use randomshitgo_go.Daemon.Server.{
  Server, apply_and_forward, event_envelope, event_msg, empty_msg, rt-forward, forward,
}
use randomshitgo_go.Ipc.Message.{Envelope, is_log_line}
use randomshitgo_go.Daemon.ClientConn.{
  ClientConn, enqueue, write_turn, max_ctrl_queue, max_log_queue,
}
use randomshitgo_go.Client.Mirror.{Client, apply_envelope, apply_event, apply_if}
use randomshitgo_go.Client.Mirror.Delivery.{Step, happens, delivers, receive, deliver, step, run}
use randomshitgo_go.Client.Mirror.Queues.{
  closed-enqueue, drop_line, map-snoc, enqueue-full, enqueue-room, enqueue-line, kept_lines,
  none_pending,
}

rt-apply_and_forward :
    (decode : List ℕ → List ℕ) (s : Server) (ev : Event) (now : ℕ)
    → (apply_and_forward decode s ev now).rt ≡ apply s.rt ev now
unfolding apply_and_forward
rt-apply_and_forward decode s (started e) now = rt-forward _ (started e) s.client
rt-apply_and_forward decode s (exited e) now = rt-forward _ (exited e) s.client
rt-apply_and_forward decode s (state_changed e) now = rt-forward _ (state_changed e) s.client
rt-apply_and_forward decode s (log_line e) now = rt-forward _ (log_line e) s.client
rt-apply_and_forward decode s (restarting e) now = rt-forward _ (restarting e) s.client

-- A line changes the rings only.
shown-apply_envelope :
    (c : Client) (ev : Event) (now : ℕ) (j : String)
    → shown (apply_envelope c (event_envelope ev) now).rt j ≡ shown (apply c.rt ev now) j
unfolding apply_envelope apply_event apply_if event_envelope event_msg empty_msg
shown-apply_envelope c (started e) now j = refl
shown-apply_envelope c (exited e) now j = refl
shown-apply_envelope c (state_changed e) now j = refl
shown-apply_envelope c (log_line e) now j = sym (shown-log_line c.rt e now j)
shown-apply_envelope c (restarting e) now j = refl

-- The events applied, at any time.
apply_all : RuntimeStore → List Event → RuntimeStore
apply_all rt [] = rt
apply_all rt (ev ∷ evs) = apply_all (apply rt ev 0) evs

shown-apply_all :
    (a b : RuntimeStore) (evs : List Event) (j : String)
    → ((k : String) → shown a k ≡ shown b k)
    → shown (apply_all a evs) j ≡ shown (apply_all b evs) j
unfolding apply_all
shown-apply_all a b [] j h = h j
shown-apply_all a b (ev ∷ evs) j h =
    shown-apply_all (apply a ev 0) (apply b ev 0) evs j (shown-cong a b ev 0 0 h)

apply_all-snoc :
    (rt : RuntimeStore) (evs : List Event) (ev : Event)
    → apply_all rt (evs ++ ev ∷ []) ≡ apply (apply_all rt evs) ev 0
unfolding apply_all
apply_all-snoc rt [] ev = refl
apply_all-snoc rt (e ∷ evs) ev = apply_all-snoc (apply rt e 0) evs ev

-- The queues of an open connection hold events, and with the events of the control queue applied the client
-- shows what the daemon holds.
record Sync (s : Server) (c : Client) (conn : ClientConn) : Type 0 where
  pending : List Event
  lines : List LogLineEvent
  ctrl : conn.ctrl ≡ map event_envelope pending
  logq : conn.logq ≡ map (λ e. event_envelope (log_line e)) lines
  alive : conn.closed ≡ false
  same : (j : String) → shown (apply_all c.rt pending) j ≡ shown s.rt j

-- The connection is closed, or in step.
InStep : Server → Client → Type 0
InStep s c = (conn : ClientConn) × (s.client ≡ some conn) × ((conn.closed ≡ true) ⊎ Sync s c conn)

client-apply_and_forward :
    (decode : List ℕ → List ℕ) (s : Server) (ev : Event) (now : ℕ) (conn : ClientConn)
    → s.client ≡ some conn
    → (apply_and_forward decode s ev now).client ≡ some (enqueue conn (event_envelope ev))
unfolding apply_and_forward forward
client-apply_and_forward decode s (started e) now conn h = rw h refl
client-apply_and_forward decode s (exited e) now conn h = rw h refl
client-apply_and_forward decode s (state_changed e) now conn h = rw h refl
client-apply_and_forward decode s (log_line e) now conn h = rw h refl
client-apply_and_forward decode s (restarting e) now conn h = rw h refl

-- An event that is no line goes to the control queue, or the connection is closed.
control-InStep :
    (s s' : Server) (c : Client) (conn : ClientConn) (ev : Event)
    → Sync s c conn
    → is_log_line (event_envelope ev) ≡ false
    → s'.client ≡ some (enqueue conn (event_envelope ev))
    → ((j : String) → shown s'.rt j ≡ shown (apply s.rt ev 0) j)
    → InStep s' c
unfolding InStep
control-InStep s s' c conn ev y k at now =
    let env : Envelope = event_envelope ev in
    elim (Bool-cases (leb max_ctrl_queue (length conn.ctrl))) [
      | inl full ↦ (enqueue conn env, at, inl (enqueue-full conn env y.alive k full))
      | inr room ↦
          let (ctrl, logq, alive) = enqueue-room conn env y.alive k room in
          (
            enqueue conn env,
            at,
            inr (record {
              pending = y.pending ++ ev ∷ [];
              lines = y.lines;
              ctrl = ctrl ∙ ap (λ t. t ++ env ∷ []) y.ctrl ∙ map-snoc event_envelope y.pending ev;
              logq = logq ∙ y.logq;
              alive = alive;
              same = λ j.
                  ap (λ rt. shown rt j) (apply_all-snoc c.rt y.pending ev)
                  ∙ shown-cong (apply_all c.rt y.pending) s.rt ev 0 0 y.same j
                  ∙ sym (now j);
            }),
          )
    ]

-- A line goes to the log queue, and changes nothing that is shown.
line-InStep :
    (s s' : Server) (c : Client) (conn : ClientConn) (e : LogLineEvent)
    → Sync s c conn
    → s'.client ≡ some (enqueue conn (event_envelope (log_line e)))
    → ((j : String) → shown s'.rt j ≡ shown s.rt j)
    → InStep s' c
unfolding InStep event_envelope event_msg empty_msg is_log_line
line-InStep s s' c conn e y at now =
    let env : Envelope = event_envelope (log_line e) in
    let b : Bool = leb max_log_queue (length conn.logq) in
    let (ctrl, logq, alive) = enqueue-line conn env y.alive refl in
    (
      enqueue conn env,
      at,
      inr (record {
        pending = y.pending;
        lines = (if b then drop_line y.lines else y.lines) ++ e ∷ [];
        ctrl = ctrl ∙ y.ctrl;
        logq =
            logq
            ∙ ap (λ t. t ++ env ∷ []) (kept_lines b conn.logq y.lines y.logq)
            ∙ map-snoc (λ l. event_envelope (log_line l)) _ e;
        alive = alive;
        same = λ j. y.same j ∙ sym (now j);
      }),
    )

happens-InStep :
    (decode : List ℕ → List ℕ) (s : Server) (c : Client) (ev : Event) (now : ℕ)
    → InStep s c
    → InStep (apply_and_forward decode s ev now) c
unfolding InStep event_envelope event_msg empty_msg is_log_line
happens-InStep decode s c ev now (conn, at, inl closed) = (
  enqueue conn (event_envelope ev),
  client-apply_and_forward decode s ev now conn at,
  inl (closed-enqueue conn (event_envelope ev) closed),
)
happens-InStep decode s c ev now (conn, at, inr y) = by_event ev
  where
    shown_now :
        (e : Event) (j : String)
        → shown (apply_and_forward decode s e now).rt j ≡ shown (apply s.rt e 0) j
    shown_now e j =
        ap (λ rt. shown rt j) (rt-apply_and_forward decode s e now)
        ∙ shown-cong s.rt s.rt e now 0 (λ k. refl) j

    control :
        (e : Event)
        → is_log_line (event_envelope e) ≡ false
        → InStep (apply_and_forward decode s e now) c
    control e k =
        control-InStep s (apply_and_forward decode s e now) c conn e y k
          (client-apply_and_forward decode s e now conn at) (shown_now e)

    by_event : (e : Event) → InStep (apply_and_forward decode s e now) c
    by_event (started e) = control (started e) refl
    by_event (exited e) = control (exited e) refl
    by_event (state_changed e) = control (state_changed e) refl
    by_event (restarting e) = control (restarting e) refl
    by_event (log_line e) =
        line-InStep s (apply_and_forward decode s (log_line e) now) c conn e y
          (client-apply_and_forward decode s (log_line e) now conn at)
          (λ j. shown_now (log_line e) j ∙ shown-log_line s.rt e 0 j)

-- A turn of the writer on an open connection, and what the client makes of it.
deliver-InStep :
    (s : Server) (c : Client) (conn : ClientConn) (now : ℕ) (pending : List Event)
    (lines : List LogLineEvent)
    → conn.ctrl ≡ map event_envelope pending
    → conn.logq ≡ map (λ e. event_envelope (log_line e)) lines
    → conn.closed ≡ false
    → ((j : String) → shown (apply_all c.rt pending) j ≡ shown s.rt j)
    → InStep (deliver s c (some conn) now).0 (deliver s c (some conn) now).1
unfolding deliver write_turn receive InStep apply_all
deliver-InStep s c conn now (ev ∷ evs) lines ctrl logq alive same =
    rw (alive, ctrl)
      (
        record conn { ctrl = map event_envelope evs },
        refl,
        inr (record {
          pending = evs;
          lines = lines;
          ctrl = refl;
          logq = logq;
          alive = alive;
          same = λ j.
              shown-apply_all (apply_envelope c (event_envelope ev) now).rt (apply c.rt ev 0) evs j
                (λ k. shown-apply_envelope c ev now k ∙ shown-cong c.rt c.rt ev now 0 (λ l. refl) k)
              ∙ same j;
        }),
      )
deliver-InStep s c conn now [] (e ∷ es) ctrl logq alive same =
    rw (alive, ctrl, logq)
      (
        record conn { logq = map (λ l. event_envelope (log_line l)) es },
        refl,
        inr (record {
          pending = [];
          lines = es;
          ctrl = ctrl;
          logq = refl;
          alive = alive;
          same =
              λ j. shown-apply_envelope c (log_line e) now j ∙ shown-log_line c.rt e now j ∙ same j;
        }),
      )
deliver-InStep s c conn now [] [] ctrl logq alive same =
    rw (alive, ctrl, logq)
      (
        conn,
        refl,
        inr (record {
          pending = [];
          lines = [];
          ctrl = ctrl;
          logq = logq;
          alive = alive;
          same = same;
        }),
      )

closed-InStep :
    (s : Server) (c : Client) (conn : ClientConn) (now : ℕ)
    → conn.closed ≡ true
    → InStep (deliver s c (some conn) now).0 (deliver s c (some conn) now).1
unfolding deliver write_turn receive InStep
closed-InStep s c conn now h = rw (deliver, h) (record conn { closed = true }, refl, inl refl)

step-InStep :
    (decode : List ℕ → List ℕ) (s : Server) (c : Client) (st : Step)
    → InStep s c
    → InStep (step decode s c st).0 (step decode s c st).1
unfolding step InStep
step-InStep decode s c (happens ev now) h = happens-InStep decode s c ev now h
step-InStep decode s c (delivers now) (conn, at, inl closed) =
    rw at (closed-InStep s c conn now closed)
step-InStep decode s c (delivers now) (conn, at, inr y) =
    rw at (deliver-InStep s c conn now y.pending y.lines y.ctrl y.logq y.alive y.same)

run-InStep :
    (decode : List ℕ → List ℕ) (sts : List Step) (s : Server) (c : Client)
    → InStep s c
    → InStep (run decode s c sts).0 (run decode s c sts).1
unfolding run
run-InStep decode [] s c h = h
run-InStep decode (st ∷ sts) s c h =
    run-InStep decode sts (step decode s c st).0 (step decode s c st).1
      (step-InStep decode s c st h)

-- A fresh connection.
start-InStep :
    (s : Server) (c : Client) (conn : ClientConn)
    → s.client ≡ some conn
    → conn.ctrl ≡ []
    → conn.logq ≡ []
    → conn.closed ≡ false
    → ((j : String) → shown c.rt j ≡ shown s.rt j)
    → InStep s c
unfolding InStep apply_all
start-InStep s c conn at ctrl logq alive same = (
  conn,
  at,
  inr (record { pending = []; lines = []; ctrl = ctrl; logq = logq; alive = alive; same = same }),
)

-- Let the daemon have an open connection with empty queues to a client that shows the same state and process id for every
-- project. Whatever events the daemon applies and puts into the queues, and whenever the writer sends what is in them and
-- the client applies it, at whatever times: if the connection is still open and no control envelope is waiting, the
-- client shows what the daemon holds. Lines that the full log queue drops make no difference.
pub run-shown :
    (decode : List ℕ → List ℕ) (sts : List Step) (s : Server) (c : Client) (conn last : ClientConn)
    (j : String)
    → s.client ≡ some conn
    → conn.ctrl ≡ []
    → conn.logq ≡ []
    → conn.closed ≡ false
    → ((k : String) → shown c.rt k ≡ shown s.rt k)
    → (run decode s c sts).0.client ≡ some last
    → last.closed ≡ false
    → last.ctrl ≡ []
    → shown (run decode s c sts).1.rt j ≡ shown (run decode s c sts).0.rt j
unfolding InStep apply_all
run-shown decode sts s c conn last j at ctrl logq alive same is_last open_still empty =
    from (run-InStep decode sts s c (start-InStep s c conn at ctrl logq alive same))
  where
    from :
        InStep (run decode s c sts).0 (run decode s c sts).1
        → shown (run decode s c sts).1.rt j ≡ shown (run decode s c sts).0.rt j
    from (conn', at', inl closed) =
        let same_conn : conn' ≡ last = some-injective conn' last (sym at' ∙ is_last) in
        absurd (true≢false (sym closed ∙ ap (λ q. q.closed) same_conn ∙ open_still))
    from (conn', at', inr y) =
        let same_conn : conn' ≡ last = some-injective conn' last (sym at' ∙ is_last) in
        let none_left : y.pending ≡ [] =
          none_pending y.pending (sym y.ctrl ∙ ap (λ q. q.ctrl) same_conn ∙ empty) in
        ap (λ evs. shown (apply_all (run decode s c sts).1.rt evs) j) (sym none_left) ∙ y.same j
