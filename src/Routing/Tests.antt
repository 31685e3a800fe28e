-- ===== src/Routing/Tests.antt =====
-- internal/tui/routing.go: keys typed in log focus.
use randomshitgo_go.Prelude.{ℕ, List, [], ◌∷◌, none, true, false, ◌≡◌, refl, String}
use randomshitgo_go.Panes.Cursor.{Cursor, at_pos}
use randomshitgo_go.Panes.CopyMode.{clear_pending, no_find, no_selection, pend_none}
use randomshitgo_go.Routing.{
  Model, mode_log_focus, mode_normal, type_keys, route_key, route_log_focus, route_esc,
}
use randomshitgo_go.Routing.LogFocus.{has_double_esc, type_keys-stays}

abbrev focused : Model
focused = record {
  mode = mode_log_focus;
  log_esc_armed_at = none;
  quit_armed_at = none;
  quit_reason = "";
  filtering = false;
  filter = none;
  match_lines = [];
  match_cur = none;
  log_panel = record {
    copy = record {
      lines = (b'a' ∷ b'b' ∷ []) ∷ [];
      cur = at_pos 0 0;
      pending = pend_none;
      op_yank = false;
      count = 0;
      pending_find = no_find;
      last_find = no_find;
      sel = no_selection;
      in_copy = true;
      height = 2;
      y_offset = 0;
    };
    sticky = false;
    paused = false;
    gutter_on = false;
    width = 80;
    vp_width = 76;
  };
}

abbrev paint : Cursor → List ℕ
paint c = 0 ∷ []

-- A space between two Escs.
abbrev spaced : List (ℕ × String)
spaced = (1, "esc") ∷ (2, " ") ∷ (3, "esc") ∷ (4, "n") ∷ []

type_keys-stays_example : (type_keys paint focused spaced).mode ≡ mode_log_focus
unfolding has_double_esc
type_keys-stays_example = type_keys-stays paint focused spaced refl refl refl

-- Ctrl+C between two Escs does not keep log focus.
interrupted :
    (type_keys paint focused ((1, "esc") ∷ (2, "ctrl+c") ∷ (3, "esc") ∷ [])).mode ≡ mode_normal
unfolding type_keys route_key route_log_focus route_esc clear_pending
interrupted = refl
