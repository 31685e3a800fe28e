-- ===== src/Panes/Lines.antt =====
-- internal/tui/panes/logpanel.go: the lines of the log panel and copy mode's way in and out. Painting is not
-- modelled, but for the place where it looks up the cursor's line and the number of rows that it makes, `rows`;
-- `row_to_raw` is the row map that it made before. The lines come in with escape sequences stripped, and
-- with the formatting of JSON and SQL done, if it is on. Widths and heights are at least 3.
pub mod Entering
mod Tests
use randomshitgo_go.Prelude.{
  ℕ, zero, suc, ◌+◌, ◌-◌, ◌/◌, max, min, List, Bool, true, false, not, ◌&&◌, ◌||◌, if◌then◌else◌,
  length, get_or, ltb, ◌==◌, [],
}
use randomshitgo_go.Panes.Cursor.{at_pos}
use randomshitgo_go.Panes.CopyMode.{
  CopyMode, SelMode, sel_none, sel_char, sel_line, no_find, no_selection, clear_transient,
  clamp_col, set_y_offset,
}

pub record Panel : Type 0 where
  pub copy : CopyMode
  pub sticky : Bool
  pub paused : Bool
  pub gutter_on : Bool
  pub width : ℕ
  pub vp_width : ℕ

-- The rounds of the loop that divides by ten; as many as the number are enough.
pub digits : ℕ → ℕ → ℕ
digits zero n = 0
digits (suc fuel) n = let rest = digits fuel (n / 10) in if n == 0 then 0 else rest + 1

unfoldable pub line_number_width : ℕ → ℕ
unfolding digits
line_number_width total = if ltb total 1 then 1 else digits total total

unfoldable pub gutter_width : Panel → ℕ
unfolding line_number_width
gutter_width lp =
    if not lp.gutter_on && not lp.copy.in_copy
    then 0
    else line_number_width (length lp.copy.lines) + 3

pub fit_width : Panel → Panel
unfolding gutter_width
fit_width lp = record lp { vp_width = max 1 (lp.width - 3 - gutter_width lp) }

-- The line of the row at the top of the window.
pub top_line : List ℕ → CopyMode → ℕ
top_line row_to_raw c =
    if ltb c.y_offset (length row_to_raw) then get_or row_to_raw c.y_offset 0 else c.y_offset

-- The rows that painting gives the window.
abbrev pub render : ℕ → Panel → Panel
render rows lp =
    let shown = if length lp.copy.lines == 0 then 0 else rows in
    record lp {
      copy = record lp.copy { y_offset = set_y_offset shown lp.copy.height lp.copy.y_offset };
    }

-- The change of `SetCopyMode`, behind its early return.
pub switch_copy_mode : List ℕ → Panel → Bool → Panel
unfolding top_line clamp_col clear_transient
switch_copy_mode row_to_raw lp true =
    let line = min (top_line row_to_raw lp.copy) (length lp.copy.lines - 1) in
    record lp {
      sticky = false;
      copy = clamp_col (record lp.copy { in_copy = true; cur = at_pos line 0 });
    }
switch_copy_mode row_to_raw lp false = record lp {
  copy = record (clear_transient lp.copy) {
    in_copy = false;
    last_find = no_find;
    sel = no_selection;
  };
}

abbrev pub same : Bool → Bool → Bool
same true b = b
same false b = not b

pub set_copy_mode : List ℕ → ℕ → Panel → Bool → Panel
unfolding switch_copy_mode fit_width set_y_offset
set_copy_mode row_to_raw rows lp on =
    if same lp.copy.in_copy on
    then lp
    else render rows (fit_width (switch_copy_mode row_to_raw lp on))

-- Whether the index of `out[lp.cur.line]`, which painting takes in copy mode, is one of the lines.
pub paints : CopyMode → Bool
paints c = length c.lines == 0 || not c.in_copy || ltb c.cur.line (length c.lines)

abbrev pub selects : SelMode → Bool
selects sel_none = false
selects sel_char = true
selects sel_line = true

pub set_lines : Panel → List (List ℕ) → ℕ → Panel
unfolding gutter_width fit_width set_y_offset
set_lines lp lines rows =
    let shown = record lp { copy = record lp.copy { lines = lines } } in
    let sized = if gutter_width shown == gutter_width lp then shown else fit_width shown in
    let painted = render rows sized in
    let c = painted.copy in
    let bottom = (if length lines == 0 then 0 else rows) - c.height in
    if lp.sticky && not lp.paused && not (selects c.sel.mode)
    then record painted { copy = record c { y_offset = bottom } }
    else painted

pub toggle_paused : Panel → Panel
toggle_paused lp = record lp { paused = not lp.paused }

pub set_gutter : ℕ → Panel → Bool → Panel
unfolding fit_width set_y_offset
set_gutter rows lp on =
    if same lp.gutter_on on then lp else render rows (fit_width (record lp { gutter_on = on }))

pub set_size : Panel → ℕ → ℕ → Panel
unfolding gutter_width
set_size lp width height = record lp {
  width = width;
  vp_width = max 1 (width - 3 - gutter_width lp);
  copy = record lp.copy { height = max 1 (height - 2) };
}
