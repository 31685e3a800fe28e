-- ===== src/Daemon/Reload.antt =====
-- internal/daemon/server.go: `handleReload`, with the manager, the configuration and the runtime store. The
-- file is read and decoded by the system: `decoded` is its answer, none for a file that cannot be
-- read or decoded; `expand` is ExpandPath, and an error's wording is an argument.
mod Tests
use randomshitgo_go.Prelude.{
  ℕ, List, [], ◌∷◌, Option, none, some, Bool, true, false, not, ◌&&◌, ◌⊎◌, inl, inr, ◌≡◌, refl, sym,
  ap, ◌∙◌, String, str_eq, eq_iff, arith, if◌then◌else◌,
}
use randomshitgo_go.Prelude.Assoc.{lookup}
use randomshitgo_go.Event.{Event, state_changed, project_id}
use randomshitgo_go.Config.{Config, ValidationError, load}
use randomshitgo_go.State.Runtime.{
  RuntimeStore, ProjectRuntime, idle_runtime, seed, delete, get, apply,
}
use randomshitgo_go.State.Runtime.Lookup.{mem, idle_if, get-seed, get-delete, get-apply, effect}
use randomshitgo_go.Process.Manager.{Manager, ReloadResult, reload, has}
use randomshitgo_go.Process.Manager.Reload.{IsMap, changed_at, reload-parts}
use randomshitgo_go.Ipc.Message.{Envelope, EventMsg, kind_event, ev_reload_result}
use randomshitgo_go.Daemon.ClientConn.{ClientConn, enqueue}
use randomshitgo_go.Daemon.Server.{empty_msg, toast_envelope}

-- What the command needs of the server. An empty list is left out by the source, and seeds or deletes nothing.
pub record Reloader : Type 0 where
  pub mgr : Manager
  pub rt : RuntimeStore
  pub has_path : Bool

pub result_envelope : ReloadResult → Envelope
result_envelope r = record {
  kind = kind_event;
  command = none;
  event = some (record (empty_msg ev_reload_result) {
    reload_result =
        some (record {
          added = r.added;
          removed = r.removed;
          changed = r.changed;
          stopped = r.stopped;
        });
  });
  snapshot = none;
}

pub seed_some : RuntimeStore → List String → RuntimeStore
seed_some rt [] = rt
seed_some rt (id ∷ ids) = seed rt (id ∷ ids)

-- The runtime store after the reconciliation. `Delete` of nothing changes nothing.
pub reconcile : RuntimeStore → ReloadResult → RuntimeStore
unfolding seed_some
reconcile rt r = delete (seed_some rt r.added) r.removed

-- The loaded configuration, or the reply for one that does not load.
abbrev loaded :
    (String → Option String)
    → (Option (List ValidationError) → String)
    → Option Config
    → String ⊎ Config
loaded expand wording none = inl (wording none)
loaded expand wording (some c) = elim (load expand c) [
  | inl errs ↦ inl (wording (some errs))
  | inr c' ↦ inr c'
]

-- What the server becomes, and the reply that the client's queue gets.
pub handle_reload :
    (String → Option String)
    → (Option (List ValidationError) → String)
    → Reloader
    → Option Config
    → Reloader × Envelope
unfolding reconcile result_envelope
handle_reload expand wording s decoded =
    if not s.has_path
    then (s, toast_envelope "reload unavailable (no config path)" "warn")
    else elim (loaded expand wording decoded) [
      | inl text ↦ (s, toast_envelope text "error")
      | inr cfg ↦
          let (r, mgr, halted) = reload s.mgr cfg in
          (record s { mgr = mgr; rt = reconcile s.rt r }, result_envelope r)
    ]

idle_if-false : (j : String) (o : Option ProjectRuntime) → idle_if false j o ≡ o
idle_if-false j none = refl
idle_if-false j (some r) = refl

get-seed_some :
    (rt : RuntimeStore) (ids : List String) (j : String)
    → get (seed_some rt ids) j ≡ idle_if (mem j ids) j (get rt j)
unfolding seed_some
get-seed_some rt [] j = sym (idle_if-false j (get rt j))
get-seed_some rt (id ∷ ids) j = get-seed rt (id ∷ ids) j

-- When a configuration loads, the daemon's runtime store has, for each id: no entry if the project is in the
-- old configuration alone, an idle entry if it is in the new one alone and had none, and else the
-- entry that it had; and the manager has the new configuration. The old one has each id once.
pub handle_reload-rt :
    (expand : String → Option String) (wording : Option (List ValidationError) → String)
    (s : Reloader) (decoded cfg : Config) (j : String)
    → s.has_path ≡ true
    → load expand decoded ≡ inr cfg
    → IsMap s.mgr.cfg.projects
    → let s' = (handle_reload expand wording s (some decoded)).0 in
      let old = s.mgr.cfg.projects in
      (get s'.rt j ≡ (
        if has j old && not (has j cfg.projects)
        then none
        else idle_if (has j cfg.projects && not (has j old)) j (get s.rt j)))
      × (s'.mgr.cfg ≡ cfg)
unfolding handle_reload reconcile
handle_reload-rt expand wording s decoded cfg j path ok once =
    let (added, removed, changed, stopped, halted, kept, new) = reload-parts s.mgr cfg j once in
    let r = (reload s.mgr cfg).0 in
    let rt =
      get-delete (seed_some s.rt r.added) r.removed j
      ∙ ap (λ b. if b then none else get (seed_some s.rt r.added) j) removed
      ∙ ap (λ o. if has j s.mgr.cfg.projects && not (has j cfg.projects) then none else o)
          (get-seed_some s.rt r.added j ∙ ap (λ b. idle_if b j (get s.rt j)) added) in
    rw (handle_reload, path, ok) (rt, new)

-- A state event of a removed project that comes after the reload, as the goroutine of the child that it stopped
-- sends them, makes the entry of that project again, idle but for the state of the event.
pub removed-returns :
    (expand : String → Option String) (wording : Option (List ValidationError) → String)
    (s : Reloader) (decoded cfg : Config) (j st : String) (now : ℕ)
    → s.has_path ≡ true
    → load expand decoded ≡ inr cfg
    → IsMap s.mgr.cfg.projects
    → (has j s.mgr.cfg.projects && not (has j cfg.projects)) ≡ true
    → get
        (apply
          (handle_reload expand wording s (some decoded)).0.rt
          (state_changed (record { id = j; state = st }))
          now)
        j
      ≡ some (record (idle_runtime j) { state = st })
unfolding effect project_id
removed-returns expand wording s decoded cfg j st now path ok once gone =
    let rt = (handle_reload expand wording s (some decoded)).0.rt in
    let none_left : get rt j ≡ none =
      (handle_reload-rt expand wording s decoded cfg j path ok once).0 ∙ rw gone refl in
    let own : str_eq j j ≡ true = ground (arith, eq_iff j j) in
    get-apply rt (state_changed (record { id = j; state = st })) now j ∙ rw (own, none_left) refl
