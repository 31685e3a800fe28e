-- ===== src/Panes/Lines/Tests.antt =====
-- internal/tui/panes/logpanel.go: new lines under a panel in copy mode, with the cursor on the third line.
use randomshitgo_go.Prelude.{ℕ, List, [], ◌∷◌, true, false, ◌≡◌, refl, length, ltb, ◌==◌, ◌||◌}
use randomshitgo_go.Panes.Cursor.{at_pos}
use randomshitgo_go.Panes.CopyMode.{no_find, no_selection, pend_none, set_y_offset, clamp_col}
use randomshitgo_go.Panes.Lines.{
  Panel, digits, set_lines, set_copy_mode, switch_copy_mode, gutter_width, line_number_width,
  fit_width, top_line, paints,
}
use randomshitgo_go.Panes.Lines.Entering.{set_lines-paints}

abbrev lp : Panel
lp = record {
  copy = record {
    lines = [] ∷ [] ∷ (b'a' ∷ []) ∷ [];
    cur = at_pos 2 0;
    pending = pend_none;
    op_yank = false;
    count = 0;
    pending_find = no_find;
    last_find = no_find;
    sel = no_selection;
    in_copy = true;
    height = 2;
    y_offset = 0;
  };
  sticky = false;
  paused = false;
  gutter_on = false;
  width = 80;
  vp_width = 76;
}

abbrev one : List (List ℕ)
one = [] ∷ []

set_lines-paints_example :
    paints (set_lines lp one 1).copy ≡ (length one == 0 || ltb lp.copy.cur.line (length one))
set_lines-paints_example = set_lines-paints lp one 1 refl

-- Fewer lines than the cursor's are not painted; as many are.
fewer_lines : paints (set_lines lp one 1).copy ≡ false
unfolding paints set_lines gutter_width line_number_width fit_width
fewer_lines = refl

as_many_lines : paints (set_lines lp ([] ∷ [] ∷ [] ∷ []) 3).copy ≡ true
unfolding paints set_lines gutter_width line_number_width fit_width
as_many_lines = refl

-- Off and on again, from the second row on.
again :
    (set_copy_mode
      (0 ∷ 1 ∷ 2 ∷ [])
      3
      (set_copy_mode
        (0 ∷ 1 ∷ 2 ∷ [])
        3
        (record lp { copy = record lp.copy { y_offset = 1 } })
        false)
      true).copy.cur
    ≡ at_pos 1 0
unfolding set_copy_mode switch_copy_mode top_line clamp_col fit_width set_y_offset
again = refl

widths : (line_number_width 0 ≡ 1) × (line_number_width 9 ≡ 1) × (line_number_width 10 ≡ 2)
unfolding line_number_width digits
widths = (refl, refl, refl)
