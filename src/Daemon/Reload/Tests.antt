-- ===== src/Daemon/Reload/Tests.antt =====
-- internal/daemon/server.go: the theorems at a reload that takes one project away.
use randomshitgo_go.Prelude.{
  [], ◌∷◌, ◌≡◌, refl, inr, Option, none, some, true, not, ◌&&◌, if◌then◌else◌, String, List,
}
use randomshitgo_go.Prelude.Assoc.{lookup}
use randomshitgo_go.Event.{state_changed}
use randomshitgo_go.Config.{Project, Config, ValidationError, default_settings, load}
use randomshitgo_go.State.Runtime.{new_runtime_store, seed, get, apply, idle_runtime}
use randomshitgo_go.State.Runtime.Lookup.{idle_if}
use randomshitgo_go.Process.Manager.{new_manager, has}
use randomshitgo_go.Daemon.Reload.{Reloader, handle_reload, handle_reload-rt, removed-returns}

abbrev project : Project
project = record { path = "/srv"; cmd = "serve"; restart = "never"; env = []; env_file = "" }

abbrev old : Config
old = record {
  projects = ("web", project) ∷ ("db", project) ∷ [];
  groups = [];
  settings = default_settings;
}

abbrev new : Config
new = record { projects = ("web", project) ∷ []; groups = []; settings = default_settings }

abbrev server : Reloader
server = record {
  mgr = new_manager old;
  rt = seed new_runtime_store ("web" ∷ "db" ∷ []);
  has_path = true;
}

abbrev wording : Option (List ValidationError) → String
wording o = "config error"

abbrev as_is : String → Option String
as_is path = some path

loads : load as_is new ≡ inr new
unfolding load default_settings
loads = refl

handle_reload-rt_example :
    (get (handle_reload as_is wording server (some new)).0.rt "db" ≡ (
      if has "db" old.projects && not (has "db" new.projects)
      then none
      else idle_if
          (has "db" new.projects && not (has "db" old.projects))
          "db"
          (get server.rt "db")))
    × ((handle_reload as_is wording server (some new)).0.mgr.cfg ≡ new)
unfolding new_manager lookup
handle_reload-rt_example =
    handle_reload-rt as_is wording server new new "db" refl loads (refl, (refl, tt))

removed-returns_example :
    get
      (apply
        (handle_reload as_is wording server (some new)).0.rt
        (state_changed (record { id = "db"; state = "stopping" }))
        5)
      "db"
    ≡ some (record (idle_runtime "db") { state = "stopping" })
unfolding new_manager lookup
removed-returns_example =
    removed-returns as_is wording server new new "db" "stopping" 5 refl loads (refl, (refl, tt))
      refl
