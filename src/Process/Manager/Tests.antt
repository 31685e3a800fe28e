-- ===== src/Process/Manager/Tests.antt =====
-- internal/process/manager.go: the theorems at a manager with two projects.
use randomshitgo_go.Prelude.{
  [], ◌∷◌, ◌≡◌, refl, some, none, not, ◌&&◌, if◌then◌else◌, String, List, Bool, false, ◌||◌, str_eq,
  arith,
}
use randomshitgo_go.Prelude.Assoc.{lookup, insert, delete_key}
use randomshitgo_go.State.Runtime.Lookup.{mem}
use randomshitgo_go.Config.{Project, Config, default_settings}
use randomshitgo_go.Process.Manager.{
  Entry, Manager, new_manager, new_entry, put, get_or_create, reload, has, stop_each, stop_all,
}
use randomshitgo_go.Process.Manager.Calls.{AreDistinct, stopped, keys, stop_each-stop_all}
use randomshitgo_go.Process.Manager.Reload.{changed_at, reload-parts, reload-keeps-entry}

abbrev project : String → Project
project cmd = record { path = "/srv"; cmd = cmd; restart = "never"; env = []; env_file = "" }

abbrev old : Config
old = record {
  projects = ("web", project "serve") ∷ ("db", project "postgres") ∷ [];
  groups = [];
  settings = default_settings;
}

-- `db` goes, `web` changes and `api` comes.
abbrev new : Config
new = record {
  projects = ("api", project "api") ∷ ("web", project "serve -v") ∷ [];
  groups = [];
  settings = default_settings;
}

abbrev web_entry : Entry
web_entry = new_entry "web" (project "serve") default_settings

abbrev manager : Manager
manager =
    put (put (new_manager old) "db" (new_entry "db" (project "postgres") default_settings)) "web"
      web_entry

reload-parts_example :
    (mem "db" (reload manager new).0.added
      ≡ (has "db" new.projects && not (has "db" manager.cfg.projects)))
    × (mem "db" (reload manager new).0.removed
        ≡ (has "db" manager.cfg.projects && not (has "db" new.projects)))
    × (mem "db" (reload manager new).0.changed
        ≡ changed_at (lookup "db" manager.cfg.projects) (lookup "db" new.projects))
    × (mem "db" (reload manager new).0.stopped ≡ (
        has "db" manager.cfg.projects && not (has "db" new.projects) && has "db" manager.children))
    × (lookup "db" (reload manager new).2 ≡ (
        if has "db" manager.cfg.projects && not (has "db" new.projects)
        then stopped (lookup "db" manager.children)
        else none))
    × (lookup "db" (reload manager new).1.children ≡ (
        if has "db" manager.cfg.projects && not (has "db" new.projects)
        then none
        else lookup "db" manager.children))
    × ((reload manager new).1.cfg ≡ new)
unfolding put new_manager lookup
reload-parts_example = reload-parts manager new "db" (refl, (refl, tt))

reload-keeps-entry_example : (get_or_create (reload manager new).1 "web").0 ≡ some web_entry
unfolding put lookup insert
reload-keeps-entry_example =
    reload-keeps-entry manager new "web" web_entry (project "serve -v") refl refl

abbrev other_order : List String
other_order = "db" ∷ "web" ∷ []

same_ids : (a b : Bool) → (a || (b || false)) ≡ (b || (a || false))
same_ids a b = ground arith

other_order-AreDistinct : AreDistinct other_order
unfolding AreDistinct
other_order-AreDistinct = (refl, (refl, tt))

manager-AreDistinct : AreDistinct (keys manager.children)
unfolding AreDistinct put insert delete_key new_manager
manager-AreDistinct = (refl, (refl, tt))

manager_ids : (k : String) → mem k other_order ≡ mem k (keys manager.children)
unfolding put insert delete_key new_manager
manager_ids k = same_ids (str_eq "db" k) (str_eq "web" k)

stop_each-stop_all_example :
    (lookup "db" (stop_all manager).children ≡ stopped (lookup "db" manager.children))
    × (lookup "db" (stop_each manager other_order).children
        ≡ lookup "db" (stop_all manager).children)
stop_each-stop_all_example =
    stop_each-stop_all manager other_order "db" other_order-AreDistinct manager-AreDistinct
      manager_ids
