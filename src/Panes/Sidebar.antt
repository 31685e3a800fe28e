-- ===== src/Panes/Sidebar.antt =====
-- internal/tui/panes/sidebar.go: the list of projects and its cursor, and handleRuntimeChanged and
-- syncSelectedFromStore of internal/tui, which keep it in step with the stores. Drawing is not modelled, but for the
-- clipping of a label.
pub mod Selecting
mod Tests
use randomshitgo_go.Prelude.{
  ℕ, zero, suc, ◌+◌, ◌-◌, List, [], ◌∷◌, ◌++◌, Option, none, some, Bool, true, false, not, ◌&&◌,
  ◌||◌, if◌then◌else◌, length, ltb, leb, ◌==◌, get_elem?, take, map, String, str_eq,
}
use randomshitgo_go.Prelude.Int.{ℤ, pos, negsuc}
use randomshitgo_go.State.Runtime.{ProjectRuntime}
use randomshitgo_go.State.Ui.{UiStore, set_selected_id}

pub record Row : Type 0 where
  pub id : String
  pub state : String
  pub attempts : ℤ

pub record Sidebar : Type 0 where
  pub rows : List Row
  pub cursor : ℕ

abbrev pub row_of : ProjectRuntime → Row
row_of r = record { id = r.id; state = r.state; attempts = r.restart_attempts }

pub set_rows : Sidebar → List ProjectRuntime → Sidebar
set_rows s snapshot =
    let n = length snapshot in
    record s {
      rows = map row_of snapshot;
      cursor = if leb n s.cursor && ltb 0 n then n - 1 else s.cursor;
    }

pub len : Sidebar → ℕ
len s = length s.rows

pub set_cursor : Sidebar → ℤ → Sidebar
set_cursor s (negsuc i) = s
set_cursor s (pos i) = if leb (length s.rows) i then s else record s { cursor = i }

pub up : Sidebar → Sidebar
up s = record s { cursor = s.cursor - 1 }

pub down : Sidebar → Sidebar
down s = if ltb (s.cursor + 1) (length s.rows) then record s { cursor = s.cursor + 1 } else s

-- `Cursor`: -1 on an empty sidebar.
pub cursor_index : Sidebar → ℤ
cursor_index s = if length s.rows == 0 then negsuc 0 else pos s.cursor

pub selected : Sidebar → String
selected s = elim (get_elem? s.rows s.cursor) [ none ↦ "" | some r ↦ r.id ]

-- The index of the first row of a project, from the i-th row on.
pub row_index : String → ℕ → List Row → Option ℕ
row_index id i [] = none
row_index id i (r ∷ rs) =
    let later = row_index id (i + 1) rs in if str_eq r.id id then some i else later

pub set_selected : Sidebar → String → Sidebar
unfolding row_index
set_selected s id = elim (row_index id 0 s.rows) [ none ↦ s | some i ↦ record s { cursor = i } ]

-- The first m runes, the last of them an ellipsis, if there are more.
pub truncate : List ℕ → ℤ → List ℕ
truncate s (negsuc m) = []
truncate s (pos m) =
    if m == 0
    then []
    else if leb (length s) m
    then s
    else if leb m 1
    then 0x2026 ∷ []
    else take (m - 1) s ++ 0x2026 ∷ []

module _ {Regex : Type 0} where
  pub sync_selected_from_store : Sidebar → UiStore Regex → Sidebar × UiStore Regex
  unfolding set_selected selected
  sync_selected_from_store s ui =
      if not (str_eq ui.selected_id "")
      then (set_selected s ui.selected_id, ui)
      else if not (str_eq (selected s) "")
      then (s, set_selected_id ui (selected s))
      else (s, ui)

  pub sync_selected_to_store : Sidebar → UiStore Regex → UiStore Regex
  unfolding selected
  sync_selected_to_store s ui =
      if not (str_eq (selected s) "") then set_selected_id ui (selected s) else ui

  -- What `handleRuntimeChanged` does to the sidebar and the UI store.
  pub handle_runtime_changed :
      Sidebar → UiStore Regex → List ProjectRuntime → Sidebar × UiStore Regex
  unfolding set_rows sync_selected_from_store
  handle_runtime_changed s ui snapshot = sync_selected_from_store (set_rows s snapshot) ui
