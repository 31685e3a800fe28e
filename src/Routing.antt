-- ===== src/Routing.antt =====
-- internal/tui/routing.go, and handleJumpMatch and handleCtrlC of handlers.go: the keys of log focus, and Ctrl+C. A key is its name, as
-- `msg.String()` gives it, under the default key map; times are in nanoseconds, none is the zero time. `paint` is
-- the row map that painting makes for a cursor. Of a toast only the text is kept.
pub mod LogFocus
pub mod Commands
mod Tests
use randomshitgo_go.Prelude.{
  ℕ, ◌-◌, List, [], ◌∷◌, Option, none, some, Bool, true, false, not, ◌&&◌, ◌||◌, if◌then◌else◌,
  length, leb, String, str_eq,
}
use randomshitgo_go.Panes.Cursor.{Cursor}
use randomshitgo_go.Panes.CopyMode.{clear_pending, handle_copy_key, no_selection}
use randomshitgo_go.Panes.Matches.{Matches, jump_next_match_cursor, jump_prev_match_cursor}
use randomshitgo_go.Panes.Lines.{Panel, selects, set_copy_mode, toggle_paused}

pub data Mode : Type 0 where
  mode_normal : Mode
  mode_group_picker : Mode
  mode_branch_picker : Mode
  mode_filter : Mode
  mode_attach : Mode
  mode_embedded_attach : Mode
  mode_help : Mode
  mode_command : Mode
  mode_log_focus : Mode

-- `filtering` says that the UI store has a filter.
pub record Model : Type 0 where
  pub mode : Mode
  pub log_esc_armed_at : Option ℕ
  pub quit_armed_at : Option ℕ
  pub quit_reason : String
  pub filtering : Bool
  pub filter : Option (List ℕ → Bool)
  pub match_lines : List ℕ
  pub match_cur : Option ℕ
  pub log_panel : Panel

abbrev pub quit_arm_window : ℕ
quit_arm_window = 2000000000

abbrev pub is_esc : String → Bool
is_esc s = str_eq s "esc"

-- The part of the panel that the jumps are about.
pub matches_of : ℕ → Model → Matches
matches_of rows m = record {
  raw_lines = m.log_panel.copy.lines;
  filter = m.filter;
  match_lines = m.match_lines;
  match_cur = m.match_cur;
  rows = rows;
  height = m.log_panel.copy.height;
  y_offset = m.log_panel.copy.y_offset;
  sticky = m.log_panel.sticky;
  in_copy = m.log_panel.copy.in_copy;
  cur = m.log_panel.copy.cur;
}

pub with_matches : Model → Matches → Model
with_matches m v = record m {
  match_cur = v.match_cur;
  log_panel = record m.log_panel {
    sticky = v.sticky;
    copy = record m.log_panel.copy { y_offset = v.y_offset; cur = v.cur };
  };
}

abbrev jump_toasts : Bool → Bool → List String
jump_toasts false wrapped = "no matches" ∷ []
jump_toasts true false = []
jump_toasts true true = "search wrapped" ∷ []

-- `handleJumpMatch` in log focus.
pub handle_jump_match : (Cursor → List ℕ) → Model → Bool → List String × Model
unfolding matches_of with_matches
handle_jump_match paint m forward =
    let v = matches_of (length (paint m.log_panel.copy.cur)) m in
    let ((ok, wrapped), w) =
      if forward then jump_next_match_cursor paint v else jump_prev_match_cursor paint v in
    if m.filtering
    then (jump_toasts ok wrapped, with_matches m w)
    else ("no filter — press / to search" ∷ [], m)

abbrev pub within : Option ℕ → ℕ → Bool
within none now = false
within (some t) now = leb (now - t) quit_arm_window

unfoldable pub route_esc : (Cursor → List ℕ) → ℕ → Model → List String × Model
route_esc paint now m =
    let lp = m.log_panel in
    let (cleared, copy) = clear_pending lp.copy in
    let rows = paint lp.copy.cur in
    if cleared
    then ([], record m { log_esc_armed_at = none; log_panel = record lp { copy = copy } })
    else if selects lp.copy.sel.mode
    then (
      [],
      record m {
        log_esc_armed_at = none;
        log_panel = record lp { copy = record lp.copy { sel = no_selection } };
      },
    )
    else if within m.log_esc_armed_at now
    then (
      [],
      record m {
        mode = mode_normal;
        log_esc_armed_at = none;
        log_panel = set_copy_mode rows (length rows) lp false;
      },
    )
    else ("Press Esc again to exit log focus" ∷ [], record m { log_esc_armed_at = some now })

-- The toasts, the text to yank, and the model.
unfoldable pub route_log_focus :
    (Cursor → List ℕ) → ℕ → Model → String → (List String × Option (List ℕ)) × Model
unfolding route_esc handle_jump_match
route_log_focus paint now m s =
    let disarmed = record m { log_esc_armed_at = none } in
    let (esc_toasts, esc_model) = route_esc paint now m in
    let (next_toasts, next_model) = handle_jump_match paint disarmed true in
    let (prev_toasts, prev_model) = handle_jump_match paint disarmed false in
    let (command, copy) = handle_copy_key paint m.log_panel.copy s in
    if is_esc s
    then ((esc_toasts, none), esc_model)
    else if str_eq s " " || str_eq s "space"
    then (([], none), record disarmed { log_panel = toggle_paused m.log_panel })
    else if str_eq s "n"
    then ((next_toasts, none), next_model)
    else if str_eq s "N"
    then ((prev_toasts, none), prev_model)
    else (([], command), record disarmed { log_panel = record m.log_panel { copy = copy } })

-- `handleCtrlC`. The command that `handleQuitRequest` gives is in Routing/Commands.antt.
pub handle_ctrl_c : ℕ → Model → List String × Model
handle_ctrl_c now m =
    if within m.quit_armed_at now
    then ([], record m { quit_reason = "detach" })
    else ("Press Ctrl+C again to quit" ∷ [], record m { quit_armed_at = some now })

abbrev pub is_ctrl_c : String → Bool
is_ctrl_c s = str_eq s "ctrl+c"

-- `routeKey` in log focus.
unfoldable pub route_key :
    (Cursor → List ℕ) → ℕ → Model → String → (List String × Option (List ℕ)) × Model
unfolding handle_ctrl_c route_log_focus
route_key paint now m s =
    let (toasts, quit_model) = handle_ctrl_c now m in
    let others = route_log_focus paint now (record m { quit_armed_at = none }) s in
    if is_ctrl_c s then ((toasts, none), quit_model) else others

abbrev pub in_log_focus : Mode → Bool
in_log_focus mode_log_focus = true
in_log_focus mode_normal = false
in_log_focus mode_group_picker = false
in_log_focus mode_branch_picker = false
in_log_focus mode_filter = false
in_log_focus mode_attach = false
in_log_focus mode_embedded_attach = false
in_log_focus mode_help = false
in_log_focus mode_command = false

-- Keys typed at times, as long as log focus is on.
unfoldable pub type_keys : (Cursor → List ℕ) → Model → List (ℕ × String) → Model
unfolding route_key
type_keys paint m [] = m
type_keys paint m (k ∷ ks) =
    let rest = type_keys paint (route_key paint k.0 m k.1).1 ks in
    if in_log_focus m.mode then rest else m
