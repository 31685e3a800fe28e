-- ===== src/Daemon/Dispatch.antt =====
-- internal/daemon/server.go: `dispatch`, the commands that a client sends, with the read loop of
-- internal/daemon/client_conn.go that hands them over. A goroutine that a command starts waits in a list, from which
-- a turn picks any one and runs it to its end, so goroutines are taken in any order, but not with their parts
-- interleaved. What the system answers to the spawns and to the reading of the configuration, and what a restart finds
-- done by the child's own goroutine, comes with the turn; the wording of an error is a parameter.
use randomshitgo_go.Prelude.{
  ℕ, zero, suc, List, [], ◌∷◌, ◌++◌, Option, none, some, Bool, true, map, String,
}
use randomshitgo_go.Config.{Config, ValidationError}
use randomshitgo_go.State.Runtime.{RuntimeStore, ProjectRuntime}
use randomshitgo_go.State.Runtime.{snapshot as runtime_snapshot}
use randomshitgo_go.Process.Child.{Spawn}
use randomshitgo_go.Process.Manager.{
  Manager, ManagerError, Pause, start_project, stop_project, restart_project, start_group, stop_all,
}
use randomshitgo_go.Ipc.Message.{
  Command, Envelope, ProjectSnap, kind_command, kind_event, kind_snapshot, op_start, op_stop,
  op_restart, op_start_group, op_stop_all, op_status, op_reload, op_shutdown,
}
use randomshitgo_go.Daemon.ClientConn.{ClientConn, enqueue}
use randomshitgo_go.Daemon.Server.{toast_envelope, snapshot_envelope}
use randomshitgo_go.Daemon.Reload.{Reloader, handle_reload}

-- What the system answers while the goroutine of one command runs.
pub record Answers : Type 0 where
  pub spawn : String → Spawn
  pub pause : Pause
  pub now : ℕ
  pub decoded : Option Config

-- `tasks` are the commands whose goroutines have been started and have not run.
pub record Daemon : Type 0 where
  pub reloader : Reloader
  pub tasks : List Command
  pub shut_down : Bool

unfoldable pub with_manager : Daemon → Manager → Daemon
with_manager d m = record d { reloader = record d.reloader { mgr = m } }

-- A project in the reply to a status command, which has no lines.
pub status_snap : ProjectRuntime → ProjectSnap
status_snap r = record { id = r.id; state = r.state; pid = r.pid; lines = [] }

pub status_envelope : RuntimeStore → Envelope
unfolding status_snap
status_envelope rt = snapshot_envelope (record { projects = map status_snap (runtime_snapshot rt) })

-- The toast for an error, and nothing for a success.
unfoldable pub report : (ManagerError → String) → ClientConn → Option ManagerError → ClientConn
report wording c none = c
report wording c (some err) = enqueue c (toast_envelope (wording err) "error")

unfoldable pub add_task : Daemon → Command → Daemon
add_task d cmd = record d { tasks = d.tasks ++ cmd ∷ [] }

unfoldable pub dispatch : Daemon → Command → ClientConn → Daemon × ClientConn
unfolding status_envelope add_task
dispatch d cmd c = elim cmd.op [
  | op_start ↦ (add_task d cmd, c)
  | op_stop ↦ (add_task d cmd, c)
  | op_restart ↦ (add_task d cmd, c)
  | op_start_group ↦ (add_task d cmd, c)
  | op_stop_all ↦ (add_task d cmd, c)
  | op_status ↦ (d, enqueue c (status_envelope d.reloader.rt))
  | op_reload ↦ (add_task d cmd, c)
  | op_shutdown ↦ (record d { shut_down = true }, c)
]

-- One turn of `readLoop`: what is not a command is ignored.
unfoldable pub serve : Daemon → Envelope → ClientConn → Daemon × ClientConn
unfolding dispatch
serve d env c = elim env.kind [
  | kind_command ↦ elim env.command [ none ↦ (d, c) | some cmd ↦ dispatch d cmd c ]
  | kind_event ↦ (d, c)
  | kind_snapshot ↦ (d, c)
]

-- What happens in the daemon: an envelope is read, or the goroutine at a place in the list runs.
pub data Turn : Type 0 where
  arrives : Envelope → Turn
  runs : ℕ → Answers → Turn

-- The element at a place, and the others.
unfoldable pub take_out {ℓ} : {A : Type ℓ} → ℕ → List A → Option (A × List A)
take_out n [] = none
take_out zero (x ∷ xs) = some (x, xs)
take_out (suc n) (x ∷ xs) = elim (take_out n xs) [
  | none ↦ none
  | some (y, rest) ↦ some (y, x ∷ rest)
]

module _ (expand : String → Option String) (wording : ManagerError → String)
    (reload_wording : Option (List ValidationError) → String) where
  -- The body of a command's goroutine.
  unfoldable pub run_task : Daemon → Command → Answers → ClientConn → Daemon × ClientConn
  unfolding with_manager report
  run_task d cmd answers c = elim cmd.op [
    | op_start ↦
        let (err, m) = start_project d.reloader.mgr cmd.id (answers.spawn cmd.id) answers.now in
        (with_manager d m, report wording c err)
    | op_stop ↦ (with_manager d (stop_project d.reloader.mgr cmd.id).1, c)
    | op_restart ↦
        let (err, m) =
          restart_project d.reloader.mgr cmd.id answers.pause (answers.spawn cmd.id) answers.now in
        (with_manager d m, c)
    | op_start_group ↦
        let (err, m) = start_group d.reloader.mgr cmd.group answers.spawn answers.now in
        (with_manager d m, report wording c err)
    | op_stop_all ↦ (with_manager d (stop_all d.reloader.mgr), c)
    | op_status ↦ (d, c)
    | op_reload ↦
        let (r, reply) = handle_reload expand reload_wording d.reloader answers.decoded in
        (record d { reloader = r }, enqueue c reply)
    | op_shutdown ↦ (d, c)
  ]

  -- The goroutine at a place in the list runs, if there is one.
  unfoldable pub run_next : Daemon → ℕ → Answers → ClientConn → Daemon × ClientConn
  unfolding run_task take_out
  run_next d n answers c = elim (take_out n d.tasks) [
    | none ↦ (d, c)
    | some (cmd, rest) ↦ run_task (record d { tasks = rest }) cmd answers c
  ]

  unfoldable pub take_turn : Daemon → Turn → ClientConn → Daemon × ClientConn
  unfolding serve run_next
  take_turn d (arrives env) c = serve d env c
  take_turn d (runs n answers) c = run_next d n answers c

  unfoldable pub take_turns : Daemon → List Turn → ClientConn → Daemon × ClientConn
  unfolding take_turn
  take_turns d [] c = (d, c)
  take_turns d (t ∷ ts) c = let (d', c') = take_turn d t c in take_turns d' ts c'
