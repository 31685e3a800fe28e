-- ===== src/State/Runtime/Tests.antt =====
-- internal/state/runtime.go: the theorems at a store with two projects.
use randomshitgo_go.Prelude.{[], ◌∷◌}
use randomshitgo_go.Prelude.Int.{pos}
use randomshitgo_go.Event.{Event, started, exited}
use randomshitgo_go.State.Runtime.{RuntimeStore, new_runtime_store, subscribe, seed}

abbrev store : RuntimeStore
store = seed (subscribe new_runtime_store) ("web" ∷ "db" ∷ [])

abbrev web_up : Event
web_up = started (record { id = "web"; pid = pos 41; at = 7 })

abbrev db_down : Event
db_down = exited (record { id = "db"; code = pos 1; signal = ""; at = 8 })
