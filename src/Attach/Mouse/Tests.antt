-- ===== src/Attach/Mouse/Tests.antt =====
-- internal/tui/attach/mouse.go and internal/tui/attach_mouse.go: the theorems on a screen of four columns, with a
-- drag that ends outside the pane.
use randomshitgo_go.Prelude.{◌+◌, ◌-◌, List, [], ◌∷◌, ◌≡◌, refl, some, Bool, true, false, arith}
use randomshitgo_go.Panes.Extract.{join_lines}
use randomshitgo_go.Attach.Mouse.{
  Selection, Term, Pane, MouseMsg, press, motion, button_left, no_selection, normalized, contains,
  trim_right, rows_from, selection_text, row_text,
}
use randomshitgo_go.Attach.Mouse.Copied.{IsNarrow, covered, selection_text-contains}
use randomshitgo_go.Attach.Mouse.Drag.{IsIn, route_all, route_all-IsIn}

-- Each row reads abcd.
abbrev term : Term
term = record { width = 4; cell_at = λ x y. some (record { content = (97 + x) ∷ []; width = 1 }) }

abbrev pane : Pane
pane = record { origin_x = 20; w = 4; h = 3 }

-- Dragged upwards, from c in the second row to b in the first.
abbrev selection : Selection
selection = record {
  anchor = record { x = 2; y = 1 };
  cursor = record { x = 1; y = 0 };
  active = true;
}

term-IsNarrow : IsNarrow term
unfolding IsNarrow
term-IsNarrow x y = refl

selection_text-contains_example :
    let (lo, hi) = normalized selection in
    selection_text term selection
    ≡ join_lines (
        rows_from
          (λ y. trim_right (covered (λ x. contains selection x y) term y 0 term.width))
          lo.y
          (hi.y + 1 - lo.y))
selection_text-contains_example =
    selection_text-contains term selection term-IsNarrow refl (omega arith) (omega arith)

copied : selection_text term selection ≡ 98 ∷ 99 ∷ 100 ∷ 10 ∷ 97 ∷ 98 ∷ 99 ∷ []
unfolding selection_text row_text join_lines
copied = refl

abbrev pressed : MouseMsg
pressed = record {
  x = 22;
  y = 1;
  action = press;
  button = button_left;
  shift = false;
  alt = false;
  ctrl = false;
}

-- Into the sidebar and below the pane.
abbrev dragged : MouseMsg
dragged = record pressed { x = 3; y = 9; action = motion }

abbrev events : List (Bool × Term × MouseMsg)
events = (false, term, pressed) ∷ (false, term, dragged) ∷ []

none-IsIn : IsIn pane no_selection
unfolding IsIn
none-IsIn on = absurd (cc)

route_all-IsIn_example : IsIn pane (route_all pane no_selection events)
route_all-IsIn_example =
    route_all-IsIn pane events no_selection (omega arith) (omega arith) none-IsIn
