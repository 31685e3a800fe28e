-- ===== src/Panes/Window.antt =====
-- internal/tui/panes/logpanel_window.go: `window`, the vertical scroller of the log panel.
-- Go's `int` fields and arguments are integers. Of `rows` only the number counts for scrolling;
-- `View` is drawing and is not modelled. The sums are taken not to pass 64 bits.
pub mod Scroll
use randomshitgo_go.Prelude.{ℕ, List, Bool, true, false, not, length, if◌then◌else◌, []}
use randomshitgo_go.Prelude.Int.{ℤ, pos, ◌+ℤ◌, ◌-ℤ◌, ltb_ℤ}

pub record Window : Type 0 where
  pub width : ℤ
  pub height : ℤ
  pub y_offset : ℤ
  pub rows : List (List ℕ)
  pub wheel_delta : ℤ

pub new_window : ℤ → ℤ → Window
new_window width height = record {
  width = width;
  height = height;
  y_offset = pos 0;
  rows = [];
  wheel_delta = pos 3;
}

-- `maxInt`
pub max_int : ℤ → ℤ → ℤ
max_int a b = if ltb_ℤ b a then a else b

pub max_y_offset : Window → ℤ
max_y_offset w = max_int (pos 0) (pos (length w.rows) -ℤ w.height)

pub set_rows : Window → List (List ℕ) → Window
set_rows w rows =
    let v = record w { rows = rows } in
    if ltb_ℤ (max_y_offset v) v.y_offset then record v { y_offset = max_y_offset v } else v

pub at_top : Window → Bool
at_top w = not (ltb_ℤ (pos 0) w.y_offset)

pub at_bottom : Window → Bool
at_bottom w = not (ltb_ℤ w.y_offset (max_y_offset w))

pub set_y_offset : Window → ℤ → Window
set_y_offset w n =
    let k = if ltb_ℤ n (pos 0) then pos 0 else n in
    record w { y_offset = if ltb_ℤ (max_y_offset w) k then max_y_offset w else k }

pub goto_top : Window → Window
goto_top w = record w { y_offset = pos 0 }

pub goto_bottom : Window → Window
goto_bottom w = record w { y_offset = max_y_offset w }

pub page_up : Window → Window
page_up w = set_y_offset w (w.y_offset -ℤ w.height)

pub page_down : Window → Window
page_down w = set_y_offset w (w.y_offset +ℤ w.height)

pub scroll_up : Window → ℤ → Window
scroll_up w n = set_y_offset w (w.y_offset -ℤ n)

pub scroll_down : Window → ℤ → Window
scroll_down w n = set_y_offset w (w.y_offset +ℤ n)

-- What `Update` reads of a message: a press of the wheel, or anything else.
pub data Wheel : Type 0 where
  wheel_up wheel_down other_message : Wheel

pub update : Window → Wheel → Window
update w wheel_up = scroll_up w w.wheel_delta
update w wheel_down = scroll_down w w.wheel_delta
update w other_message = w
