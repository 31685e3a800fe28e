-- ===== src/Panes/Window/Scroll.antt =====
-- internal/tui/panes/logpanel_window.go: the offset stays within the content.
use randomshitgo_go.Prelude.{
  ℕ, List, [], true, ◌≡◌, inl, inr, arith, length, Bool-cases, ◌∷◌, ◌↔◌, if◌then◌else◌,
}
use randomshitgo_go.Prelude.Int.{ℤ, pos, ◌-ℤ◌, ◌≤ℤ◌, ltb_ℤ, eq_of_parts}
use randomshitgo_go.Panes.Window.{
  Window, Wheel, wheel_up, wheel_down, other_message, max_int, max_y_offset, set_rows, at_top,
  at_bottom, set_y_offset, goto_top, goto_bottom, page_up, page_down, scroll_up, scroll_down,
  update,
}

-- The offset is no less than 0 and no more than what brings the last row to the bottom.
abbrev pub InContent : Window → Type 0
InContent w = (pos 0 ≤ℤ w.y_offset) × (w.y_offset ≤ℤ max_y_offset w)

max_int-nonneg : (b : ℤ) → pos 0 ≤ℤ max_int (pos 0) b
unfolding max_int
max_int-nonneg b = ground arith

clamp_bounds :
    (m n : ℤ)
    → pos 0 ≤ℤ m
    → let k = if ltb_ℤ n (pos 0) then pos 0 else n in
      let r = if ltb_ℤ m k then m else k in (pos 0 ≤ℤ r) × (r ≤ℤ m)
clamp_bounds m n h = ground arith

-- `SetYOffset` leaves the offset within the content, at every argument and on every window.
set_y_offset-InContent : (w : Window) (n : ℤ) → InContent (set_y_offset w n)
unfolding set_y_offset max_y_offset
set_y_offset-InContent w n =
    clamp_bounds (max_int (pos 0) (pos (length w.rows) -ℤ w.height)) n (max_int-nonneg _)

goto_top-InContent : (w : Window) → InContent (goto_top w)
unfolding goto_top max_y_offset
goto_top-InContent w = (omega arith, max_int-nonneg _)

goto_bottom-InContent : (w : Window) → InContent (goto_bottom w)
unfolding goto_bottom max_y_offset
goto_bottom-InContent w = (max_int-nonneg _, omega arith)

set_rows-InContent :
    (w : Window) (rows : List (List ℕ)) → pos 0 ≤ℤ w.y_offset → InContent (set_rows w rows)
unfolding set_rows max_y_offset
set_rows-InContent w rows h =
    elim (Bool-cases (ltb_ℤ (max_int (pos 0) (pos (length rows) -ℤ w.height)) w.y_offset)) [
      | inl past ↦ rw past (max_int-nonneg _, omega arith)
      | inr fits ↦ rw fits (h, ground arith)
    ]

-- A call on a window.
pub data Call : Type 0 where
  set_rows_to : List (List ℕ) → Call
  set_offset : ℤ → Call
  to_top to_bottom page_back page_on : Call
  back on : ℤ → Call
  message : Wheel → Call

pub step : Window → Call → Window
step w (set_rows_to rows) = set_rows w rows
step w (set_offset n) = set_y_offset w n
step w to_top = goto_top w
step w to_bottom = goto_bottom w
step w page_back = page_up w
step w page_on = page_down w
step w (back n) = scroll_up w n
step w (on n) = scroll_down w n
step w (message m) = update w m

pub run : Window → List Call → Window
run w [] = w
run w (c ∷ cs) = run (step w c) cs

step-InContent : (w : Window) (c : Call) → InContent w → InContent (step w c)
unfolding step page_up page_down scroll_up scroll_down update
step-InContent w (set_rows_to rows) h = set_rows-InContent w rows h.0
step-InContent w (set_offset n) h = set_y_offset-InContent w n
step-InContent w to_top h = goto_top-InContent w
step-InContent w to_bottom h = goto_bottom-InContent w
step-InContent w page_back h = set_y_offset-InContent w _
step-InContent w page_on h = set_y_offset-InContent w _
step-InContent w (back n) h = set_y_offset-InContent w _
step-InContent w (on n) h = set_y_offset-InContent w _
step-InContent w (message wheel_up) h = set_y_offset-InContent w _
step-InContent w (message wheel_down) h = set_y_offset-InContent w _
step-InContent w (message other_message) h = h

-- From a window within its content, whatever calls are made, in any order, the window never
-- scrolls past it: the offset is at least 0, and at most the number of rows less the height.
pub run-InContent : (w : Window) (cs : List Call) → InContent w → InContent (run w cs)
unfolding run
run-InContent w [] h = h
run-InContent w (c ∷ cs) h = run-InContent (step w c) cs (step-InContent w c h)

-- `AtTop` and `AtBottom` tell the two ends of a window that is within its content.
pub at_ends :
    (w : Window)
    → InContent w
    → ((at_top w ≡ true) ↔ (w.y_offset ≡ pos 0))
      × ((at_bottom w ≡ true) ↔ (w.y_offset ≡ max_y_offset w))
unfolding at_top at_bottom
at_ends w h = (
  (λ e. ground arith, λ e. ground arith),
  (λ e. eq_of_parts _ _ (ground arith), λ e. ground arith),
)
