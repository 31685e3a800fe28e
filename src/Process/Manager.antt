-- ===== src/Process/Manager.antt =====
-- internal/process/manager.go: `Manager`, the children by id, and the reload of a configuration. The fan-in
-- channel is each child's own list of events; wait groups and `Close` are not modelled, and the goroutines
-- of `StopAll` are steps in some order. What the system answers to a spawn is an argument, for a group one answer for each id.
pub mod Reload
pub mod Calls
mod Tests
use randomshitgo_go.Prelude.{
  ℕ, List, [], ◌∷◌, ◌++◌, Option, none, some, Bool, true, false, ◌⊎◌, inl, inr, not, ◌&&◌, ◌||◌,
  if◌then◌else◌, String, str_eq, length, ◌==◌, map,
}
use randomshitgo_go.Prelude.Assoc.{Assoc, lookup, insert, delete_key}
use randomshitgo_go.Config.{Project, Settings, Config}
use randomshitgo_go.Prelude.Int.{ℤ}
use randomshitgo_go.Process.Policy.{new_policy}
use randomshitgo_go.Process.Child.{
  Child, Spawn, StartError, new_child, start, stop_begin, stop_mark, stop, restart_now, attach,
  after_exit, after_wait, no_pty,
}

-- A child with the definition that it was made from.
pub record Entry : Type 0 where
  pub project : Project
  pub child : Child

pub record Manager : Type 0 where
  pub cfg : Config
  pub children : Assoc Entry

pub data ManagerError : Type 0 where
  unknown_project : ManagerError
  unknown_group : ManagerError
  member_failed : String → ManagerError → ManagerError
  child_error : StartError → ManagerError
  not_running : ManagerError

unfoldable pub new_manager : Config → Manager
new_manager cfg = record { cfg = cfg; children = [] }

pub new_entry : String → Project → Settings → Entry
new_entry id p s = record {
  project = p;
  child =
      new_child id
        (new_policy p.restart s.restart_backoff_ms s.restart_max_attempts s.restart_reset_after_ms);
}

pub put : Manager → String → Entry → Manager
put m id e = record m { children = insert id e m.children }

pub get_or_create : Manager → String → Option Entry × Manager
unfolding new_entry put
get_or_create m id = elim (lookup id m.children) [
  | some e ↦ (some e, m)
  | none ↦ elim (lookup id m.cfg.projects) [
    | none ↦ (none, m)
    | some p ↦ let e = new_entry id p m.cfg.settings in (some e, put m id e)
  ]
]

abbrev to_error : Option StartError → Option ManagerError
to_error none = none
to_error (some e) = some (child_error e)

-- What a call of a child's method makes of the manager.
pub finish : Manager → String → Entry → Option StartError × Child → Option ManagerError × Manager
unfolding put
finish m id e (err, c) = (to_error err, put m id (record e { child = c }))

pub start_project : Manager → String → Spawn → ℕ → Option ManagerError × Manager
unfolding get_or_create finish
start_project m id spawn now = elim (get_or_create m id).0 [
  | none ↦ (some unknown_project, m)
  | some e ↦ finish (get_or_create m id).1 id e (start e.child spawn now)
]

pub stop_project : Manager → String → Option ManagerError × Manager
unfolding put
stop_project m id = elim (lookup id m.children) [
  | none ↦ (some unknown_project, m)
  | some e ↦ (none, put m id (record e { child = stop e.child }))
]

-- `Stop` of each id in turn.
pub stop_each : Manager → List String → Manager
unfolding stop_project
stop_each m [] = m
stop_each m (id ∷ ids) = stop_each (stop_project m id).1 ids

-- `StopAll`, when its context outlasts the children.
pub stop_all : Manager → Manager
unfolding stop_each
stop_all m = stop_each m (map (λ b. b.0) m.children)

-- What the goroutine of the child gets done while `Restart` sleeps between its `Stop` and its start: nothing, the end of
-- the process with what follows, or the end of a wait for a restart that the stop cancelled.
pub data Pause : Type 0 where
  nothing_done wait_ended : Pause
  process_ended : ℤ → String → ℕ → Pause

pub in_pause : Pause → Child → Child
in_pause nothing_done c = c
in_pause wait_ended c = after_wait true c no_pty 0
in_pause (process_ended code sig at) c = (after_exit c code sig at).1

pub restart_project : Manager → String → Pause → Spawn → ℕ → Option ManagerError × Manager
unfolding get_or_create finish in_pause
restart_project m id pause spawn now = elim (get_or_create m id).0 [
  | none ↦ (some unknown_project, m)
  | some e ↦
      finish (get_or_create m id).1 id e (restart_now (in_pause pause (stop e.child)) spawn now)
]

-- The members in turn, up to the first that fails. The delay is a wait only.
pub start_members : Manager → List String → (String → Spawn) → ℕ → Option ManagerError × Manager
unfolding start_project
start_members m [] answer now = (none, m)
start_members m (id ∷ ids) answer now =
    let rest = start_members (start_project m id (answer id) now).1 ids answer now in
    elim (start_project m id (answer id) now).0 [
      | some err ↦ (some (member_failed id err), (start_project m id (answer id) now).1)
      | none ↦ rest
    ]

pub start_group : Manager → String → (String → Spawn) → ℕ → Option ManagerError × Manager
unfolding start_members
start_group m name answer now = elim (lookup name m.cfg.groups) [
  | none ↦ (some unknown_group, m)
  | some members ↦ start_members m members answer now
]

pub attach_project : Manager → String → ManagerError ⊎ ℕ
attach_project m id = elim (lookup id m.children) [
  | none ↦ inl unknown_project
  | some e ↦ elim (attach e.child) [ none ↦ inl not_running | some p ↦ inr p ]
]

abbrev same_text : Option String → Option String → Bool
same_text none b = false
same_text (some a) none = false
same_text (some a) (some b) = str_eq a b

-- Each binding of the first map is one of the second.
pub includes : Assoc String → Assoc String → Bool
includes [] b = true
includes (binding ∷ a) b = same_text (some binding.1) (lookup binding.0 b) && includes a b

-- `maps.Equal`
pub maps_equal : Assoc String → Assoc String → Bool
unfolding includes
maps_equal a b = (length a == length b) && includes a b

pub project_changed : Project → Project → Bool
unfolding maps_equal
project_changed a b =
    if not (str_eq a.path b.path)
      || not (str_eq a.cmd b.cmd)
      || not (str_eq a.restart b.restart)
      || not (str_eq a.env_file b.env_file)
    then true
    else not (maps_equal a.env b.env)

pub record ReloadResult : Type 0 where
  pub added : List String
  pub removed : List String
  pub changed : List String
  pub stopped : List String

abbrev pub has {ℓ} : {V : Type ℓ} → String → Assoc V → Bool
has k m = elim (lookup k m) [ none ↦ false | some v ↦ true ]

-- The keys of the first map that the second has not, in the order of the first.
pub missing_in : Assoc Project → Assoc Project → List String
missing_in [] b = []
missing_in (p ∷ a) b = let rest = missing_in a b in if has p.0 b then rest else p.0 ∷ rest

-- Whether the second map has the project with another definition.
abbrev pub differs : String × Project → Assoc Project → Bool
differs (id, old) new = elim (lookup id new) [ none ↦ false | some p ↦ project_changed old p ]

pub changed_in : Assoc Project → Assoc Project → List String
unfolding project_changed
changed_in [] new = []
changed_in (p ∷ old) new =
    let rest = changed_in old new in if differs p new then p.0 ∷ rest else rest

-- The loop over the removed projects: those with a child are stopped and forgotten. The results are their ids, the
-- children that are left, and the stopped ones, whose goroutines go on. To forget an id that has none changes
-- nothing.
pub stop_removed : Assoc Entry → List String → List String × Assoc Entry × Assoc Entry
stop_removed children [] = ([], children, [])
stop_removed children (id ∷ ids) =
    let (stopped, left, halted) = stop_removed (delete_key id children) ids in
    elim (lookup id children) [
      | none ↦ (stopped, left, halted)
      | some e ↦ (id ∷ stopped, left, (id, record e { child = stop e.child }) ∷ halted)
    ]

-- The result, the manager, and the stopped children that it has forgotten.
pub reload : Manager → Config → ReloadResult × Manager × Assoc Entry
unfolding missing_in changed_in stop_removed
reload m new =
    let removed = missing_in m.cfg.projects new.projects in
    let (stopped, children, halted) = stop_removed m.children removed in
    (
      record {
        added = missing_in new.projects m.cfg.projects;
        removed = removed;
        changed = changed_in m.cfg.projects new.projects;
        stopped = stopped;
      },
      record { cfg = new; children = children },
      halted,
    )
