-- ===== src/Daemon/ClientConn/Delivery.antt =====
-- internal/daemon/client_conn.go: which envelopes the writer sends, and in which order.
use randomshitgo_go.Prelude.{
  ℕ, zero, suc, ◌+◌, ◌≤◌, ◌<◌, List, [], ◌∷◌, ◌++◌, true, false, ◌≡◌, refl, sym, ap, subst, ◌∙◌,
  arith, inl, inr, Bool-cases, leb, if◌then◌else◌, length, drop, drop-append, length-keep_last,
  keep_last, keep_last-append, length-append, append_assoc, append-nil,
}
use randomshitgo_go.Ipc.Message.{Envelope, is_log_line}
use randomshitgo_go.Daemon.ClientConn.{
  ClientConn, new_client_conn, close, enqueue_log, enqueue_ctrl, enqueue, write_turn, drain,
  max_log_queue, max_ctrl_queue,
}

pub enqueue_all : ClientConn → List Envelope → ClientConn
enqueue_all c [] = c
enqueue_all c (env ∷ envs) = enqueue_all (enqueue c env) envs

unfoldable pub controls : List Envelope → List Envelope
controls [] = []
controls (env ∷ envs) = let rest = controls envs in if is_log_line env then rest else env ∷ rest

pub logs : List Envelope → List Envelope
logs [] = []
logs (env ∷ envs) = let rest = logs envs in if is_log_line env then env ∷ rest else rest

keep_last_full :
    (xs : List Envelope) (x : Envelope)
    → length xs ≡ max_log_queue
    → keep_last max_log_queue (xs ++ x ∷ []) ≡ drop 1 xs ++ x ∷ []
keep_last_full xs x h =
    ap (λ i. drop i (xs ++ x ∷ [])) {y = 1} (omega (arith, length-append xs (x ∷ [])))
    ∙ drop-append 1 xs (x ∷ []) (omega arith)

keep_last_room :
    (xs : List Envelope) (x : Envelope)
    → length xs < max_log_queue
    → keep_last max_log_queue (xs ++ x ∷ []) ≡ xs ++ x ∷ []
keep_last_room xs x h =
    ap (λ i. drop i (xs ++ x ∷ [])) {y = 0} (omega (arith, length-append xs (x ∷ [])))

-- Open, with the log queue in its bound.
pub IsOpen : ClientConn → Type 0
IsOpen c = (c.closed ≡ false) × (length c.logq ≤ max_log_queue)

enqueue-log :
    (c : ClientConn) (env : Envelope)
    → IsOpen c
    → is_log_line env ≡ true
    → enqueue c env ≡ record c { logq = keep_last max_log_queue (c.logq ++ env ∷ []) }
unfolding enqueue enqueue_log IsOpen
enqueue-log c env (o, bound) h = elim (Bool-cases (leb max_log_queue (length c.logq))) [
  | inl full ↦ rw (o, h, full, keep_last_full c.logq env (ground arith))
  | inr room ↦ rw (o, h, room, keep_last_room c.logq env (ground arith))
]

enqueue-ctrl :
    (c : ClientConn) (env : Envelope)
    → IsOpen c
    → is_log_line env ≡ false
    → length c.ctrl < max_ctrl_queue
    → enqueue c env ≡ record c { ctrl = c.ctrl ++ env ∷ [] }
unfolding enqueue enqueue_ctrl IsOpen
enqueue-ctrl c env (o, bound) h k =
    let room : leb max_ctrl_queue (length c.ctrl) ≡ false = ground arith in rw (o, h, room)

-- What an open connection's queues are after envelopes that its control queue has room for.
pub Queues : ClientConn → ClientConn → List Envelope → Type 0
Queues c' c envs =
    (c'.ctrl ≡ c.ctrl ++ controls envs)
    × (c'.logq ≡ keep_last max_log_queue (c.logq ++ logs envs))
    × (c'.closed ≡ false)

enqueue_all-Queues :
    (envs : List Envelope) (c : ClientConn)
    → IsOpen c
    → length c.ctrl + length (controls envs) ≤ max_ctrl_queue
    → Queues (enqueue_all c envs) c envs
unfolding enqueue_all controls logs Queues IsOpen
enqueue_all-Queues [] c (o, bound) h = (
  sym (append-nil c.ctrl),
  sym (
      ap (keep_last max_log_queue) (append-nil c.logq)
      ∙ ap (λ i. drop i c.logq) {y = 0} (omega arith)),
  o,
)
enqueue_all-Queues (env ∷ envs) c (o, bound) h = elim (Bool-cases (is_log_line env)) [
  | inl log ↦
      let (here, line, alive) =
        enqueue_all-Queues envs (record c { logq = keep_last max_log_queue (c.logq ++ env ∷ []) })
          (o, omega (arith, length-keep_last max_log_queue (c.logq ++ env ∷ []))) (ground arith) in
      subst (λ c'. Queues (enqueue_all c' envs) c (env ∷ envs))
        (sym (enqueue-log c env (o, bound) log))
        (rw log (
          here,
          line
              ∙ keep_last-append max_log_queue (c.logq ++ env ∷ []) (logs envs)
              ∙ ap (keep_last max_log_queue) (append_assoc c.logq (env ∷ []) (logs envs)),
          alive,
        ))
  | inr control ↦
      let (here, line, alive) =
        enqueue_all-Queues envs (record c { ctrl = c.ctrl ++ env ∷ [] }) (o, bound)
          (ground (arith, length-append c.ctrl (env ∷ []))) in
      subst (λ c'. Queues (enqueue_all c' envs) c (env ∷ envs))
        (sym (enqueue-ctrl c env (o, bound) control (ground arith)))
        (rw control (here ∙ append_assoc c.ctrl (env ∷ []) (controls envs), line, alive))
]

write_all :
    (logq : List Envelope)
    → (drain (length logq) (record { ctrl = []; logq = logq; closed = false })).0 ≡ logq
unfolding drain write_turn
write_all [] = refl
write_all (env ∷ logq) = ap (λ t. env ∷ t) (write_all logq)

write_both :
    (ctrl logq : List Envelope)
    → (drain (length ctrl + length logq) (record { ctrl = ctrl; logq = logq; closed = false })).0
      ≡ ctrl ++ logq
unfolding drain write_turn
write_both [] logq =
    ap (λ k. (drain k (record { ctrl = []; logq = logq; closed = false })).0) {y = length logq}
      (omega arith)
    ∙ write_all logq
write_both (env ∷ ctrl) logq =
    ap (λ k. (drain k (record { ctrl = env ∷ ctrl; logq = logq; closed = false })).0)
      {y = suc (length ctrl + length logq)} (omega arith)
    ∙ ap (λ t. env ∷ t) (write_both ctrl logq)

from_fields :
    (c : ClientConn) (ctrl logq : List Envelope)
    → c.ctrl ≡ ctrl
    → c.logq ≡ logq
    → c.closed ≡ false
    → c ≡ record { ctrl = ctrl; logq = logq; closed = false }
from_fields c ctrl logq e l o = rw (o, e, l) refl

-- What is queued on a fresh connection, while the control queue has room for it, is written as
-- follows once the writer has the turns: every control envelope, none dropped, in the order queued, and
-- after them the last 4096 of the log lines, in order.
pub drain-enqueue_all :
    (envs : List Envelope)
    → length (controls envs) ≤ max_ctrl_queue
    → (drain
        (length (controls envs) + length (keep_last max_log_queue (logs envs)))
        (enqueue_all new_client_conn envs)).0
      ≡ controls envs ++ keep_last max_log_queue (logs envs)
unfolding new_client_conn IsOpen Queues
drain-enqueue_all envs h =
    let (here, line, alive) =
      enqueue_all-Queues envs new_client_conn (refl, omega arith) (omega arith) in
    ap (λ c. (drain (length (controls envs) + length (keep_last max_log_queue (logs envs))) c).0)
      (from_fields (enqueue_all new_client_conn envs) (controls envs)
        (keep_last max_log_queue (logs envs)) here line alive)
    ∙ write_both (controls envs) (keep_last max_log_queue (logs envs))

closed_absorbs : (c : ClientConn) (env : Envelope) → c.closed ≡ true → enqueue c env ≡ c
unfolding enqueue
closed_absorbs c env h = rw h

stays_closed :
    (envs : List Envelope) (c : ClientConn) → c.closed ≡ true → (enqueue_all c envs).closed ≡ true
unfolding enqueue_all
stays_closed [] c h = h
stays_closed (env ∷ envs) c h =
    ap (λ c'. (enqueue_all c' envs).closed) (closed_absorbs c env h) ∙ stays_closed envs c h

drain_closed : (n : ℕ) (c : ClientConn) → c.closed ≡ true → (drain n c).0 ≡ []
unfolding drain write_turn
drain_closed zero c h = refl
drain_closed (suc n) c h = rw h

closes :
    (c : ClientConn) (env : Envelope)
    → max_ctrl_queue ≤ length c.ctrl
    → is_log_line env ≡ false
    → (enqueue c env).closed ≡ true
unfolding enqueue enqueue_ctrl close
closes c env full control =
    let over : leb max_ctrl_queue (length c.ctrl) ≡ true = ground arith in
    elim (Bool-cases c.closed) [ inl shut ↦ rw shut | inr o ↦ rw (o, control, over) ]

-- A control envelope that finds the control queue full closes the connection, and from then on
-- nothing is written, whatever is queued and however many turns the writer has.
pub overflow_drops_client :
    (c : ClientConn) (env : Envelope) (envs : List Envelope) (n : ℕ)
    → max_ctrl_queue ≤ length c.ctrl
    → is_log_line env ≡ false
    → ((enqueue c env).closed ≡ true) × ((drain n (enqueue_all (enqueue c env) envs)).0 ≡ [])
overflow_drops_client c env envs n full control =
    let shut = closes c env full control in
    (
      shut,
      drain_closed n (enqueue_all (enqueue c env) envs) (stays_closed envs (enqueue c env) shut),
    )
