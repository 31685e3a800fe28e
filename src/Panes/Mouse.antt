-- ===== src/Panes/Mouse.antt =====
-- internal/tui/panes/logpanel_mouse.go: the mouse on the log panel. The coordinates of the screen are integers. Lines come
-- with escape sequences stripped. Of painting the rows are modelled: `pieces` gives, for the panel as it is then, into how
-- many rows a line is wrapped with what is laid over it. Widths and heights are at least 2.
pub mod Cell
pub mod Drag
mod Tests
use randomshitgo_go.Prelude.{
  ℕ, zero, suc, ◌+◌, ◌-◌, ◌*◌, max, List, [], ◌∷◌, Option, none, some, Bool, true, false, not, ◌&&◌,
  ◌||◌, if◌then◌else◌, length, ltb, leb, ◌==◌, get_or, ◌++◌, replicate,
}
use randomshitgo_go.Prelude.Int.{ℤ, pos, negsuc, ◌-ℤ◌, ltb_ℤ}
use randomshitgo_go.Panes.Cursor.{Cursor, at_pos, stripped_line}
use randomshitgo_go.Panes.CopyMode.{
  CopyMode, sel_char, no_selection, yank_text, set_y_offset, command,
}
use randomshitgo_go.Panes.Lines.{Panel, gutter_width}

pub record MousePanel : Type 0 where
  pub panel : Panel
  pub full_height : ℕ
  pub wrap_on : Bool
  pub x_origin : ℤ
  pub y_origin : ℤ
  pub row_to_raw : List ℕ
  pub pressed : Bool
  pub anchor_at : Cursor

pub data Button : Type 0 where
  left : Button
  wheel_up : Button
  wheel_down : Button
  other_wheel : Button
  other_button : Button

pub data Action : Type 0 where
  press : Action
  motion : Action
  release : Action

pub record MouseMsg : Type 0 where
  pub button : Button
  pub action : Action
  pub x : ℤ
  pub y : ℤ

abbrev pub is_wheel : Button → Bool
is_wheel left = false
is_wheel wheel_up = true
is_wheel wheel_down = true
is_wheel other_wheel = true
is_wheel other_button = false

abbrev pub is_left : Button → Bool
is_left left = true
is_left wheel_up = false
is_left wheel_down = false
is_left other_wheel = false
is_left other_button = false

-- A position in the panel that is not negative, in the content: column and row.
pub rel_to_content : MousePanel → ℤ → ℤ → Option (ℕ × ℕ)
rel_to_content lp (negsuc x) y = none
rel_to_content lp (pos x) (negsuc y) = none
rel_to_content lp (pos x) (pos y) =
    let gw = gutter_width lp.panel in
    if leb lp.panel.width x || leb lp.full_height y
    then none
    else if x == 0 || x == lp.panel.width - 1
    then none
    else if y == 0 || y == lp.full_height - 1
    then none
    else if leb (lp.panel.vp_width + gw) (x - 1)
    then none
    else if ltb (x - 1) gw
    then some (0, y - 1)
    else some (x - 1 - gw, y - 1)

pub abs_to_content : MousePanel → ℤ → ℤ → Option (ℕ × ℕ)
unfolding rel_to_content
abs_to_content lp abs_x abs_y = rel_to_content lp (abs_x -ℤ lp.x_origin) (abs_y -ℤ lp.y_origin)

-- How many of the rows before the k-th are of the raw line, without a gap.
pub wrap_piece : List ℕ → ℕ → ℕ → ℕ
wrap_piece row_to_raw raw zero = 0
wrap_piece row_to_raw raw (suc k) =
    let before = wrap_piece row_to_raw raw k in
    if get_or row_to_raw k 0 == raw then before + 1 else 0

abbrev pub content_width : MousePanel → ℕ
content_width lp = max 1 (lp.panel.vp_width - gutter_width lp.panel)

pub col_for_rendered_row : MousePanel → ℕ → ℕ → ℕ
unfolding wrap_piece
col_for_rendered_row lp row x =
    let raw = get_or lp.row_to_raw row 0 in
    let n = length (stripped_line lp.panel.copy.lines raw) in
    let piece = if lp.wrap_on then wrap_piece lp.row_to_raw raw row else 0 in
    let col = piece * content_width lp + x in
    if leb (length lp.row_to_raw) row || leb (length lp.panel.copy.lines) raw || n == 0
    then 0
    else if leb n col
    then n - 1
    else col

-- A place of the content, that lies in the window, as a place of the buffer.
pub content_to_cursor : MousePanel → Option (ℕ × ℕ) → Option Cursor
unfolding col_for_rendered_row
content_to_cursor lp none = none
content_to_cursor lp (some (x, y)) =
    let row = lp.panel.copy.y_offset + y in
    let raw = get_or lp.row_to_raw row 0 in
    let total = length lp.panel.copy.lines in
    if leb lp.panel.copy.height y
    then none
    else if leb (length lp.row_to_raw) row
    then (if total == 0 then none else some (at_pos (total - 1) 0))
    else if leb total raw
    then none
    else some (at_pos raw (col_for_rendered_row lp row x))

pub mouse_to_cursor : MousePanel → ℤ → ℤ → Option Cursor
unfolding abs_to_content content_to_cursor
mouse_to_cursor lp abs_x abs_y = content_to_cursor lp (abs_to_content lp abs_x abs_y)

abbrev pub last_col : MousePanel → ℕ → ℕ
last_col lp raw = length (stripped_line lp.panel.copy.lines raw) - 1

-- The three cases of `clampToPane`: above the content, below it, and beside it.
pub clamp_above : MousePanel → Cursor
clamp_above lp =
    let n = length lp.row_to_raw in
    let top = lp.panel.copy.y_offset in
    if n == 0 || length lp.panel.copy.lines == 0
    then lp.anchor_at
    else at_pos (get_or lp.row_to_raw (if leb n top then n - 1 else top) 0) 0

pub clamp_below : MousePanel → Cursor
clamp_below lp =
    let n = length lp.row_to_raw in
    let bottom = lp.panel.copy.y_offset + lp.panel.copy.height - 1 in
    let row = if leb n bottom then n - 1 else bottom in
    let raw = get_or lp.row_to_raw row 0 in
    if length lp.panel.copy.lines == 0 || n == 0 || leb (length lp.panel.copy.lines) raw
    then lp.anchor_at
    else at_pos raw (last_col lp raw)

pub clamp_beside : MousePanel → ℤ → ℕ → Cursor
clamp_beside lp rel_x y =
    let row = lp.panel.copy.y_offset + (y - 1) in
    let raw = get_or lp.row_to_raw row 0 in
    if leb (length lp.row_to_raw) row || leb (length lp.panel.copy.lines) raw
    then lp.anchor_at
    else at_pos raw (if ltb_ℤ rel_x (pos (lp.panel.width - 1)) then 0 else last_col lp raw)

pub clamp_rel : MousePanel → ℤ → ℤ → Cursor
unfolding clamp_above clamp_below clamp_beside
clamp_rel lp rel_x (negsuc y) = clamp_above lp
clamp_rel lp rel_x (pos y) =
    if y == 0
    then clamp_above lp
    else if leb (lp.full_height - 1) y
    then clamp_below lp
    else clamp_beside lp rel_x y

pub clamp_to_pane : MousePanel → ℤ → ℤ → Cursor
unfolding clamp_rel
clamp_to_pane lp abs_x abs_y = clamp_rel lp (abs_x -ℤ lp.x_origin) (abs_y -ℤ lp.y_origin)

abbrev pub with_copy : MousePanel → CopyMode → MousePanel
with_copy lp c = record lp { panel = record lp.panel { copy = c } }

abbrev pub wheel_delta : ℕ
wheel_delta = 3

-- The wheel, pressed: `window.Update`, and whether the panel still follows the end.
pub scroll_mouse : MousePanel → MouseMsg → MousePanel
unfolding set_y_offset
scroll_mouse lp msg =
    let rows = if length lp.panel.copy.lines == 0 then 0 else length lp.row_to_raw in
    let c = lp.panel.copy in
    let offset : ℕ = elim msg.action [
      | press ↦ elim msg.button [
        | wheel_up ↦ set_y_offset rows c.height (c.y_offset - wheel_delta)
        | wheel_down ↦ set_y_offset rows c.height (c.y_offset + wheel_delta)
        | left ↦ c.y_offset
        | other_wheel ↦ c.y_offset
        | other_button ↦ c.y_offset
      ]
      | motion ↦ c.y_offset
      | release ↦ c.y_offset
    ] in
    let at_bottom = leb (rows - c.height) offset in
    record lp {
      panel = record lp.panel {
        sticky = lp.panel.sticky && at_bottom;
        copy = record c { y_offset = offset };
      };
    }

pub press_at : MousePanel → Cursor → MousePanel
press_at lp cur = record lp {
  pressed = true;
  anchor_at = cur;
  panel = record lp.panel {
    sticky = false;
    copy = record lp.panel.copy { cur = cur; sel = record { mode = sel_char; anchor = cur } };
  };
}

abbrev pub same_cursor : Cursor → Cursor → Bool
same_cursor a b = a.line == b.line && a.col == b.col

-- The text that a release writes to the clipboard, if there is any, and the panel.
pub release_drag : MousePanel → Option (List ℕ) × MousePanel
release_drag lp =
    let c = lp.panel.copy in
    let cleared = record lp {
      pressed = false;
      panel = record lp.panel { copy = record c { sel = no_selection } };
    } in
    if not lp.pressed
    then (none, lp)
    else if same_cursor c.cur lp.anchor_at
    then (none, cleared)
    else (command (yank_text c), cleared)

pub on_press : MousePanel → Option Cursor → MousePanel
unfolding press_at
on_press lp none = lp
on_press lp (some cur) = press_at lp cur

abbrev pub is_some : Option Cursor → Bool
is_some none = false
is_some (some cur) = true

abbrev pub or_clamped : Cursor → Option Cursor → Cursor
or_clamped c none = c
or_clamped c (some cur) = cur

-- The row map of the n lines from line i on.
unfoldable pub row_map : (ℕ → ℕ) → ℕ → ℕ → List ℕ
row_map pieces i zero = []
row_map pieces i (suc n) = replicate (pieces i) i ++ row_map pieces (i + 1) n

module _ (pieces : MousePanel → ℕ → ℕ) where
  -- `paintMatches`: the row map, and the window on the new rows. Without lines it keeps the row map.
  unfoldable pub paint_matches : MousePanel → MousePanel
  unfolding row_map set_y_offset
  paint_matches lp =
      let c = lp.panel.copy in
      let n = length c.lines in
      let rows = row_map (pieces lp) 0 n in
      record lp {
        row_to_raw = if n == 0 then lp.row_to_raw else rows;
        panel = record lp.panel {
          copy = record c {
            y_offset = set_y_offset (if n == 0 then 0 else length rows) c.height c.y_offset;
          };
        };
      }

  -- The painting after an event that was for the panel.
  unfoldable pub painted_if : Bool → Option (List ℕ) × MousePanel → Option (List ℕ) × MousePanel
  unfolding paint_matches
  painted_if changed (text, lp) = (text, if changed then paint_matches lp else lp)

  -- The switch on the action.
  pub handle_action : MousePanel → MouseMsg → Action → Option (List ℕ) × MousePanel
  unfolding mouse_to_cursor clamp_to_pane on_press release_drag painted_if
  handle_action lp msg press =
      let at = mouse_to_cursor lp msg.x msg.y in
      if is_left msg.button then painted_if (is_some at) (none, on_press lp at) else (none, lp)
  handle_action lp msg motion =
      if is_left msg.button && lp.pressed
      then painted_if true (
        none,
        with_copy lp (record lp.panel.copy {
          cur = or_clamped (clamp_to_pane lp msg.x msg.y) (mouse_to_cursor lp msg.x msg.y);
        }),
      )
      else (none, lp)
  handle_action lp msg release = painted_if lp.pressed (release_drag lp)

  unfoldable pub handle_mouse : MousePanel → MouseMsg → Option (List ℕ) × MousePanel
  unfolding scroll_mouse handle_action
  handle_mouse lp msg =
      if is_wheel msg.button then (none, scroll_mouse lp msg) else handle_action lp msg msg.action
