-- ===== src/Client/RemoteManager/Serving.antt =====
-- internal/client/remote_manager.go and internal/daemon/server.go: what the commands of a remote manager come to
-- in the daemon, against the calls of the daemon's own manager that they stand in for.
use mathlib.Core.List.{Perm}
use mathlib.Core.List.Perm
use randomshitgo_go.Prelude.{
  ℕ, zero, suc, List, [], ◌∷◌, ◌++◌, append-nil, append_assoc, map, Option, none, some, ◌≡◌, ◌⊎◌,
  inl, inr, refl, ap, sym, subst, ◌∙◌, String,
}
use randomshitgo_go.Config.{ValidationError}
use randomshitgo_go.Process.Manager.{
  Manager, ManagerError, start_project, stop_project, restart_project,
}
use randomshitgo_go.Process.Manager.{start_group as manager_start_group}
use randomshitgo_go.Process.Manager.{stop_all as manager_stop_all}
use randomshitgo_go.Ipc.Message.{
  Command, Envelope, op_start, op_stop, op_restart, op_start_group, op_stop_all,
}
use randomshitgo_go.Daemon.ClientConn.{ClientConn}
use randomshitgo_go.Daemon.Dispatch.{
  Answers, Daemon, Turn, arrives, runs, take_out, add_task, with_manager, report, dispatch,
  run_task, run_next, serve, take_turn, take_turns,
}
use randomshitgo_go.Client.RemoteManager.{bare, send, start, stop, restart, start_group, stop_all}

-- The calls that change children.
pub data Call : Type 0 where
  call_start : String → Call
  call_stop : String → Call
  call_restart : String → Call
  call_start_group : String → Call
  call_stop_all : Call

unfoldable pub remote_call : Call → Envelope
remote_call (call_start id) = start id
remote_call (call_stop id) = stop id
remote_call (call_restart id) = restart id
remote_call (call_start_group name) = start_group name
remote_call call_stop_all = stop_all

-- A call of the manager in the same process, and the error that its caller gets.
unfoldable pub local_call : Manager → Call → Answers → Option ManagerError × Manager
local_call m (call_start id) answers = start_project m id (answers.spawn id) answers.now
local_call m (call_stop id) answers = stop_project m id
local_call m (call_restart id) answers =
    restart_project m id answers.pause (answers.spawn id) answers.now
local_call m (call_start_group name) answers = manager_start_group m name answers.spawn answers.now
local_call m call_stop_all answers = (none, manager_stop_all m)

-- The errors that the daemon passes on: those of the two calls that start.
unfoldable pub passed_on : Call → Option ManagerError → Option ManagerError
passed_on (call_start id) err = err
passed_on (call_start_group name) err = err
passed_on (call_stop id) err = none
passed_on (call_restart id) err = none
passed_on call_stop_all err = none

-- The local manager through the calls, and the toasts that the daemon makes of their errors.
unfoldable pub local_calls :
    (ManagerError → String) → Manager → List (Call × Answers) → ClientConn → Manager × ClientConn
unfolding local_call passed_on
local_calls wording m [] c = (m, c)
local_calls wording m ((call, answers) ∷ calls) c =
    let (err, m') = local_call m call answers in
    local_calls wording m' calls (report wording c (passed_on call err))

-- A call is made, or the goroutine at a place in the daemon's list runs.
pub data Happening : Type 0 where
  called : Call → Happening
  ran : ℕ → Answers → Happening

-- What it is in the daemon, and the calls that are made.
unfoldable pub remote : Happening → Turn
remote (called call) = arrives (remote_call call)
remote (ran n answers) = runs n answers

unfoldable pub calls_of : List Happening → List Call
calls_of [] = []
calls_of (called call ∷ hs) = call ∷ calls_of hs
calls_of (ran n answers ∷ hs) = calls_of hs

-- The command that arrives for a call.
unfoldable pub command_of : Call → Command
command_of (call_start id) = record (bare op_start) { id = id }
command_of (call_stop id) = record (bare op_stop) { id = id }
command_of (call_restart id) = record (bare op_restart) { id = id }
command_of (call_start_group name) = record (bare op_start_group) { group = name }
command_of call_stop_all = bare op_stop_all

map-append :
    (xs ys : List Call) → map command_of (xs ++ ys) ≡ map command_of xs ++ map command_of ys
map-append [] ys = refl
map-append (x ∷ xs) ys = ap (λ l. command_of x ∷ l) (map-append xs ys)

-- What is taken out and what stays are those of the list before.
take_out-cases :
    (n : ℕ) (pending : List Call)
    → (take_out n (map command_of pending) ≡ none)
      ⊎ ((call : Call) × (rest : List Call) × (take_out n (map command_of pending)
            ≡ some (command_of call, map command_of rest))
          × Perm (call ∷ rest) pending)
unfolding take_out
take_out-cases n [] = inl refl
take_out-cases zero (x ∷ xs) = inr (x, xs, refl, Perm.refl (x ∷ xs))
take_out-cases (suc n) (x ∷ xs) = elim (take_out-cases n xs) [
  | inl e ↦ inl (rw e refl)
  | inr (call, rest, e, p) ↦
      inr (call, x ∷ rest, rw e refl, Perm.trans (Perm.swap x call rest) (Perm.cons x p))
]

module _ (expand : String → Option String) (wording : ManagerError → String)
    (reload_wording : Option (List ValidationError) → String) where
  serve-remote_call :
      (d : Daemon) (call : Call) (c : ClientConn)
      → serve d (remote_call call) c ≡ (add_task d (command_of call), c)
  unfolding serve dispatch remote_call command_of start stop restart start_group stop_all send
  serve-remote_call d (call_start id) c = refl
  serve-remote_call d (call_stop id) c = refl
  serve-remote_call d (call_restart id) c = refl
  serve-remote_call d (call_start_group name) c = refl
  serve-remote_call d call_stop_all c = refl

  run_task-command_of :
      (d : Daemon) (call : Call) (answers : Answers) (c : ClientConn)
      → run_task expand wording reload_wording d (command_of call) answers c ≡ (
        with_manager d (local_call d.reloader.mgr call answers).1,
        report wording c (passed_on call (local_call d.reloader.mgr call answers).0),
      )
  unfolding run_task command_of local_call passed_on report
  run_task-command_of d (call_start id) answers c = refl
  run_task-command_of d (call_stop id) answers c = refl
  run_task-command_of d (call_restart id) answers c = refl
  run_task-command_of d (call_start_group name) answers c = refl
  run_task-command_of d call_stop_all answers c = refl

  run_next-none :
      (d : Daemon) (n : ℕ) (answers : Answers) (c : ClientConn)
      → take_out n d.tasks ≡ none
      → run_next expand wording reload_wording d n answers c ≡ (d, c)
  unfolding run_next
  run_next-none d n answers c e = rw (run_next, e) refl

  run_next-some :
      (d : Daemon) (n : ℕ) (cmd : Command) (rest : List Command) (answers : Answers)
      (c : ClientConn)
      → take_out n d.tasks ≡ some (cmd, rest)
      → run_next expand wording reload_wording d n answers c
        ≡ run_task expand wording reload_wording (record d { tasks = rest }) cmd answers c
  unfolding run_next
  run_next-some d n cmd rest answers c e = rw (run_next, e) refl

  -- A daemon with a manager and the goroutines of calls.
  abbrev pub daemon_with : Daemon → Manager → List Call → Daemon
  daemon_with d m pending = record (with_manager d m) { tasks = map command_of pending }

  abbrev AreServed : Daemon → Manager → List Call → List Happening → List Call → ClientConn → Type 0
  AreServed d m pending hs asked c =
      (done : List (Call × Answers)) × (left : List Call) × (take_turns expand wording
          reload_wording (daemon_with d m pending) (map remote hs) c
        ≡ (daemon_with d (local_calls wording m done c).0 left, (local_calls wording m done c).1))
      × Perm (map (λ call. call.0) done ++ left) asked

  served :
      (d : Daemon) (m : Manager) (pending : List Call) (hs : List Happening) (c : ClientConn)
      → AreServed d m pending hs (pending ++ calls_of hs) c
  unfolding take_turns take_turn remote calls_of local_calls with_manager add_task
  served d m pending [] c =
      ([], pending, refl, subst (Perm pending) (sym (append-nil pending)) (Perm.refl pending))
  served d m pending (called call ∷ hs) c =
      let (done, left, e, p) = served d m (pending ++ call ∷ []) hs c in
      (
        done,
        left,
        ap (λ q. take_turns expand wording reload_wording q.0 (map remote hs) q.1)
              (serve-remote_call (daemon_with d m pending) call c)
            ∙ ap
                (λ l.
                  take_turns expand wording reload_wording (record (with_manager d m) { tasks = l })
                    (map remote hs) c)
                (sym (map-append pending (call ∷ [])))
            ∙ e,
        subst (Perm (map (λ call. call.0) done ++ left))
            (append_assoc pending (call ∷ []) (calls_of hs)) p,
      )
  served d m pending (ran n answers ∷ hs) c = elim (take_out-cases n pending) [
    | inl none_there ↦
        let (done, left, e, p) = served d m pending hs c in
        (
          done,
          left,
          ap (λ q. take_turns expand wording reload_wording q.0 (map remote hs) q.1)
                (run_next-none (daemon_with d m pending) n answers c none_there)
              ∙ e,
          p,
        )
    | inr (call, rest, there, q) ↦
        let m' = (local_call m call answers).1 in
        let c' = report wording c (passed_on call (local_call m call answers).0) in
        let (done, left, e, p) = served d m' rest hs c' in
        (
          (call, answers) ∷ done,
          left,
          ap (λ q. take_turns expand wording reload_wording q.0 (map remote hs) q.1)
                (run_next-some (daemon_with d m pending) n (command_of call) (map command_of rest)
                    answers c there
                  ∙ run_task-command_of (daemon_with d m rest) call answers c)
              ∙ e,
          Perm.trans (Perm.cons call p) (Perm.append_right (calls_of hs) q),
        )
  ]

  -- Calls of a remote manager, in any order with the runs of the goroutines that the daemon starts for them: there is
  -- an order of the calls whose goroutines ran, such that the daemon's manager is what these calls, made
  -- directly in that order, make of it, the client's queue has a toast for each error of a start or a group
  -- start among them and nothing else, and the daemon has otherwise only the goroutines of the calls left.
  -- No call is lost, doubled or made up. The daemon had no goroutine left, and each one runs to its end at once.
  pub take_turns-remote :
      (d : Daemon) (hs : List Happening) (c : ClientConn)
      → d.tasks ≡ []
      → (done : List (Call × Answers)) × (left : List Call) × (take_turns expand wording
            reload_wording d
            (map remote hs)
            c
          ≡ (
            daemon_with d (local_calls wording d.reloader.mgr done c).0 left,
            (local_calls wording d.reloader.mgr done c).1,
          ))
        × Perm (map (λ call. call.0) done ++ left) (calls_of hs)
  unfolding with_manager
  take_turns-remote d hs c idle =
      let (done, left, e, p) = served d d.reloader.mgr [] hs c in
      (
        done,
        left,
        ap
              (λ l.
                take_turns expand wording reload_wording (record d { tasks = l }) (map remote hs) c)
              idle
            ∙ e,
        p,
      )
