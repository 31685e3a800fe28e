-- ===== src/Client/Mirror.antt =====
-- internal/client/client.go: how `Client` applies what the daemon sends to its own stores. The registry
-- is the one of internal/state; its log directory is empty, so no file is written. The channel of notifications holds
-- 64, and a full one loses the newest.
pub mod Faithful
pub mod Delivery
pub mod Queues
mod Tests
use randomshitgo_go.Prelude.{
  ℕ, List, [], ◌∷◌, ◌++◌, Option, none, some, Bool, true, false, ltb, length, String, if◌then◌else◌,
}
use randomshitgo_go.Prelude.Int.{ℤ, pos, ltb_ℤ}
use randomshitgo_go.Prelude.Assoc.{Assoc, lookup, insert}
use randomshitgo_go.Event.{
  Event, LogLineEvent, started, exited, state_changed, log_line, restarting,
}
use randomshitgo_go.Log.Line.{Line}
use randomshitgo_go.Log.RingBuffer.{RingBuffer, new_ring_buffer, push_locked, push_many}
use randomshitgo_go.State.Runtime.{RuntimeStore, new_runtime_store, apply, set}
use randomshitgo_go.Ipc.Message.{
  Envelope, EventMsg, ProjectSnap, Snapshot, WireToast, ReloadResult, kind_command, kind_event,
  kind_snapshot, ev_started, ev_exited, ev_state_changed, ev_log_line, ev_restarting,
  ev_reload_result, ev_toast, ev_err,
}
use randomshitgo_go.State.Registry.{Registry, zero_line, get}

pub data Notification : Type 0 where
  notif_conn_lost : Notification
  notif_toast : WireToast → Notification
  notif_reload : ReloadResult → Notification

pub record Client : Type 0 where
  pub reg : Registry
  pub rt : RuntimeStore
  pub notif : List Notification

pub emit : Client → Notification → Client
emit c n = if ltb (length c.notif) 64 then record c { notif = c.notif ++ n ∷ [] } else c

-- The log directory is empty, so no rotator is made.
no_files : String → Bool
no_files id = false

-- A change of the ring of `Get`.
on_ring : Registry → String → (RingBuffer Line → RingBuffer Line) → Registry
unfolding no_files
on_ring reg id change =
    let e = get no_files reg id in
    record reg { m = insert id (record e { ring = change e.ring }) reg.m }

-- A line from the wire; the panel renders it later.
mirrored_line : LogLineEvent → Line
mirrored_line ll = record {
  bytes = ll.bytes;
  rendered = [];
  is_partial = ll.is_partial;
  timestamp = ll.at;
}

apply_if : Client → Option Event → ℕ → Client
apply_if c none now = c
apply_if c (some ev) now = record c { rt = apply c.rt ev now }

pub apply_event : Client → Option EventMsg → ℕ → Client
unfolding apply_if emit mirrored_line on_ring
apply_event c none now = c
apply_event c (some em) now = elim em.kind [
  | ev_started ↦ elim em.started [ none ↦ c | some e ↦ apply_if c (some (started e)) now ]
  | ev_exited ↦ elim em.exited [ none ↦ c | some e ↦ apply_if c (some (exited e)) now ]
  | ev_state_changed ↦ elim em.state_changed [
    | none ↦ c
    | some e ↦ apply_if c (some (state_changed e)) now
  ]
  | ev_restarting ↦ elim em.restarting [ none ↦ c | some e ↦ apply_if c (some (restarting e)) now ]
  | ev_log_line ↦ elim em.log_line [
    | none ↦ c
    | some ll ↦ record c {
      reg = on_ring c.reg ll.id (λ ring. push_locked zero_line ring (mirrored_line ll));
    }
  ]
  | ev_toast ↦ elim em.toast [ none ↦ c | some t ↦ emit c (notif_toast t) ]
  | ev_reload_result ↦ elim em.reload_result [ none ↦ c | some r ↦ emit c (notif_reload r) ]
  | ev_err ↦ emit c (notif_toast (record { text = em.err; level = "error" }))
]

apply_project : Client → ProjectSnap → Client
unfolding on_ring
apply_project c p =
    let c' = record c { rt = set c.rt p.id p.state p.pid } in
    elim p.lines [
      | [] ↦ c'
      | l ∷ ls ↦ record c' { reg = on_ring c'.reg p.id (λ ring. push_many zero_line ring p.lines) }
    ]

apply_projects : Client → List ProjectSnap → Client
apply_projects c [] = c
apply_projects c (p ∷ ps) = apply_projects (apply_project c p) ps

pub apply_snapshot : Client → Snapshot → Client
unfolding apply_projects apply_project
apply_snapshot c snap = apply_projects c snap.projects

-- One envelope in the loop of `readLoop`.
pub apply_envelope : Client → Envelope → ℕ → Client
unfolding apply_event apply_snapshot
apply_envelope c env now = elim env.kind [
  | kind_command ↦ c
  | kind_event ↦ apply_event c env.event now
  | kind_snapshot ↦ elim env.snapshot [ none ↦ c | some snap ↦ apply_snapshot c snap ]
]
