-- ===== src/Panes/Mouse/Tests.antt =====
-- internal/tui/panes/logpanel_mouse.go: a line of five bytes wrapped in rows of three, and a short one.
use randomshitgo_go.Prelude.{
  ℕ, ◌<◌, ◌-◌, List, [], ◌∷◌, some, true, false, ◌≡◌, refl, arith, length, get_or,
}
use randomshitgo_go.Prelude.Int.{pos, ◌-ℤ◌}
use randomshitgo_go.Panes.Cursor.{at_pos, stripped_line}
use randomshitgo_go.Panes.CopyMode.{no_find, no_selection, pend_none, yank_text}
use randomshitgo_go.Panes.Lines.{gutter_width, line_number_width}
use randomshitgo_go.Panes.Wrap.{wrap_line}
use randomshitgo_go.Panes.Mouse.{
  MousePanel, MouseMsg, left, press, motion, release, wrap_piece, content_width,
  col_for_rendered_row, handle_mouse,
}
use randomshitgo_go.Panes.Mouse.Drag.{IsIn, handle_all, handle_all-IsIn}
use randomshitgo_go.Panes.Mouse.Cell.{col_for_rendered_row-hits}

abbrev lp : MousePanel
lp = record {
  panel = record {
    copy = record {
      lines = (b'a' ∷ b'b' ∷ b'c' ∷ b'd' ∷ b'e' ∷ []) ∷ (b'f' ∷ []) ∷ [];
      cur = at_pos 0 0;
      pending = pend_none;
      op_yank = false;
      count = 0;
      pending_find = no_find;
      last_find = no_find;
      sel = no_selection;
      in_copy = false;
      height = 3;
      y_offset = 0;
    };
    sticky = true;
    paused = false;
    gutter_on = false;
    width = 6;
    vp_width = 3;
  };
  full_height = 5;
  wrap_on = true;
  x_origin = pos 10;
  y_origin = pos 0;
  row_to_raw = 0 ∷ 0 ∷ 1 ∷ [];
  pressed = false;
  anchor_at = at_pos 0 0;
}

abbrev find : List ℕ → List (ℕ × ℕ)
find line = []

-- From "c" in the first row to "e" in the second.
abbrev drag : List MouseMsg
drag =
    record { button = left; action = press; x = pos 13; y = pos 1 }
    ∷ record { button = left; action = motion; x = pos 12; y = pos 2 }
    ∷ []

-- The long line takes two rows, however it is painted.
abbrev pieces : MousePanel → ℕ → ℕ
pieces panel i = 2 - i

abbrev let_go : MouseMsg
let_go = record { button = left; action = release; x = pos 12; y = pos 2 }

handle_all-IsIn_example : IsIn (handle_all pieces lp drag)
handle_all-IsIn_example = handle_all-IsIn pieces lp drag (record {
  cursor = (omega arith, omega arith);
  selection = (omega arith, omega arith);
  anchor = (omega arith, omega arith);
  rows = (omega arith, (omega arith, (omega arith, tt)));
})

dragged :
    (handle_mouse pieces (handle_all pieces lp drag) let_go).0 ≡ some (b'c' ∷ b'd' ∷ b'e' ∷ [])
unfolding handle_mouse handle_all gutter_width line_number_width ◌-ℤ◌ yank_text
dragged = refl

abbrev row : List ℕ
row =
    get_or (wrap_line find (stripped_line lp.panel.copy.lines 0) (content_width lp))
      (wrap_piece lp.row_to_raw 0 1) []

in_row : 1 < length row
unfolding wrap_line wrap_piece gutter_width
in_row = omega arith

col_for_rendered_row-hits_example :
    get_or (stripped_line lp.panel.copy.lines 0) (col_for_rendered_row lp 1 1) 0 ≡ get_or row 1 0
col_for_rendered_row-hits_example =
    col_for_rendered_row-hits lp find 1 1 refl (omega arith) (omega arith) refl in_row
