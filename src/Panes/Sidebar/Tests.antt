-- ===== src/Panes/Sidebar/Tests.antt =====
-- internal/tui/panes/sidebar.go: a new project comes to stand before the selected one.
use randomshitgo_go.Prelude.{ℕ, true, [], ◌∷◌, ◌≡◌, refl, none, false}
use randomshitgo_go.State.Runtime.{idle_runtime}
use randomshitgo_go.State.Ui.{UiStore, overlay_none}
use randomshitgo_go.Panes.Sidebar.{Sidebar, selected, row_of, handle_runtime_changed}
use randomshitgo_go.Panes.Sidebar.Selecting.{handle_runtime_changed-selected}

abbrev two : Sidebar
two = record { rows = row_of (idle_runtime "api") ∷ row_of (idle_runtime "web") ∷ []; cursor = 0 }

abbrev store : UiStore ℕ
store = record {
  selected_id = "api";
  filter_text = "";
  filter_regex = none;
  filter_err = false;
  log_scroll = 0;
  sticky_bottom = true;
  overlay = overlay_none;
  toasts = [];
  subs = [];
}

handle_runtime_changed-selected_example :
    (selected
        (handle_runtime_changed two store
          (idle_runtime "all" ∷ idle_runtime "api" ∷ idle_runtime "web" ∷ [])).0
      ≡ "api")
    × ((handle_runtime_changed two store
          (idle_runtime "all" ∷ idle_runtime "api" ∷ idle_runtime "web" ∷ [])).1
        ≡ store)
handle_runtime_changed-selected_example =
    handle_runtime_changed-selected two store (idle_runtime "all" ∷ []) (idle_runtime "api")
      (idle_runtime "web" ∷ []) refl refl
