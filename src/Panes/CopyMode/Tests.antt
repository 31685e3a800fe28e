-- ===== src/Panes/CopyMode/Tests.antt =====
-- internal/tui/panes/logpanel_motion.go: the theorems, and keys typed in turn, on a buffer of three lines.
use randomshitgo_go.Prelude.{ℕ, List, [], ◌∷◌, true, false, ◌≡◌, arith}
use randomshitgo_go.Panes.Cursor.{Cursor, at_pos, InBuffer}
use randomshitgo_go.Panes.Extract.{extract_range}
use randomshitgo_go.Panes.CopyMode.{
  CopyMode, no_find, no_selection, pend_none, sel_char, sel_line, handle_copy_key, yank_text,
  effective_count,
}
use randomshitgo_go.Panes.CopyMode.Cursors.{handle_copy_key-InBuffer}
use randomshitgo_go.Panes.CopyMode.Yanks.{selection_range, yank_text-extract_range}

abbrev paint : Cursor → List ℕ
paint c = 0 ∷ 1 ∷ 2 ∷ []

-- "ab c", "d", "ef"
abbrev panel : CopyMode
panel = record {
  lines = (b'a' ∷ b'b' ∷ b' ' ∷ b'c' ∷ []) ∷ (b'd' ∷ []) ∷ (b'e' ∷ b'f' ∷ []) ∷ [];
  cur = at_pos 0 3;
  pending = pend_none;
  op_yank = false;
  count = 2;
  pending_find = no_find;
  last_find = no_find;
  sel = record { mode = sel_char; anchor = at_pos 1 0 };
  in_copy = true;
  height = 2;
  y_offset = 0;
}

abbrev ready : CopyMode
ready = record panel { sel = no_selection }

handle_copy_key-InBuffer_example :
    InBuffer (handle_copy_key paint panel "j").1.lines (handle_copy_key paint panel "j").1.cur
handle_copy_key-InBuffer_example =
    handle_copy_key-InBuffer paint panel "j" (omega arith) (omega arith, omega arith)
      (unfold effective_count in omega arith)

yank_text-extract_range_example :
    (yank_text panel ≡ extract_range panel.lines (selection_range panel false))
    × (yank_text (record panel { sel = record panel.sel { mode = sel_line } })
        ≡ extract_range panel.lines (selection_range panel true))
yank_text-extract_range_example =
    yank_text-extract_range panel (omega arith, omega arith) (omega arith, omega arith)
