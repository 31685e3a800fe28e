-- ===== src/Client/RemoteManager/Tests.antt =====
-- internal/client/remote_manager.go: the theorems at a daemon with one project and a group that names a second one.
use mathlib.Core.List.{Perm}
use randomshitgo_go.Prelude.{
  [], ◌∷◌, ◌++◌, map, ◌≡◌, refl, Option, none, some, true, false, String, List,
}
use randomshitgo_go.Config.{Project, Config, ValidationError, default_settings}
use randomshitgo_go.State.Runtime.{new_runtime_store, seed}
use randomshitgo_go.Process.Child.{spawned}
use randomshitgo_go.Process.Manager.{ManagerError, new_manager, nothing_done}
use randomshitgo_go.Daemon.ClientConn.{new_client_conn}
use randomshitgo_go.Daemon.Dispatch.{Answers, Daemon, take_turns}
use randomshitgo_go.Client.RemoteManager.Serving.{
  Call, call_start, call_restart, call_start_group, call_stop_all, local_calls, Happening, called,
  ran, remote, calls_of, daemon_with, take_turns-remote,
}

abbrev project : Project
project = record { path = "/srv"; cmd = "serve"; restart = "never"; env = []; env_file = "" }

abbrev config : Config
config = record {
  projects = ("web", project) ∷ [];
  groups = ("all", "web" ∷ "db" ∷ []) ∷ [];
  settings = default_settings;
}

abbrev daemon : Daemon
daemon = record {
  reloader = record {
    mgr = new_manager config;
    rt = seed new_runtime_store ("web" ∷ []);
    has_path = true;
  };
  tasks = [];
  shut_down = false;
}

abbrev answers : Answers
answers = record { spawn = λ id. spawned 7; pause = nothing_done; now = 3; decoded = none }

abbrev wording : ManagerError → String
wording err = "error"

abbrev reload_wording : Option (List ValidationError) → String
reload_wording o = "config error"

-- The restart's goroutine runs before the start's, and that of the last call not at all.
abbrev happenings : List Happening
happenings =
    called (call_start "web")
    ∷ called (call_restart "db")
    ∷ ran 1 answers
    ∷ called (call_start_group "all")
    ∷ ran 0 answers
    ∷ ran 4 answers
    ∷ ran 0 answers
    ∷ called call_stop_all
    ∷ []

abbrev no_change : String → Option String
no_change path = some path

take_turns-remote_example :
    (done : List (Call × Answers)) × (left : List Call) × (take_turns no_change wording
        reload_wording daemon
        (map remote happenings)
        new_client_conn
      ≡ (
        daemon_with no_change wording reload_wording daemon
            (local_calls wording daemon.reloader.mgr done new_client_conn).0
            left,
        (local_calls wording daemon.reloader.mgr done new_client_conn).1,
      ))
    × Perm (map (λ call. call.0) done ++ left) (calls_of happenings)
take_turns-remote_example =
    take_turns-remote no_change wording reload_wording daemon happenings new_client_conn refl
