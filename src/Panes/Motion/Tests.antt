-- ===== src/Panes/Motion/Tests.antt =====
-- internal/tui/panes/logpanel_motion_ranges.go: the theorems on a buffer of two lines.
use randomshitgo_go.Prelude.{ℕ, List, [], ◌∷◌, ◌≡◌, some, true, false, refl, arith}
use randomshitgo_go.Panes.Cursor.{MotionRange, at_pos, InBuffer}
use randomshitgo_go.Panes.Words.{is_word}
use randomshitgo_go.Panes.Motion.{word_end_backward_n}
use randomshitgo_go.Panes.Motion.Bounds.{word_end_backward_n-InBuffer}
use randomshitgo_go.Panes.Motion.Find.{FindState, range_find, found_index, find_range, find_forward}

-- "ab cd" and "ef"
abbrev buffer : List (List ℕ)
buffer = (b'a' ∷ b'b' ∷ b' ' ∷ b'c' ∷ b'd' ∷ []) ∷ (b'e' ∷ b'f' ∷ []) ∷ []

word_end_backward_n-InBuffer_example :
    InBuffer buffer (word_end_backward_n buffer (at_pos 1 1) is_word 2)
word_end_backward_n-InBuffer_example =
    word_end_backward_n-InBuffer buffer (omega arith) (at_pos 1 1) is_word 2
      (omega arith, omega arith)

abbrev find_c : FindState
find_c = record { ch = b'c'; forward = true; till = false; active = true }

finds_c : found_index buffer (at_pos 0 0) find_c 1 ≡ some 3
unfolding find_forward
finds_c = refl

abbrev range_c : MotionRange
range_c = record { start = at_pos 0 0; end = at_pos 0 3; linewise = false; inclusive = true }

range_find_c : range_find buffer (at_pos 0 0) find_c 1 ≡ some range_c
unfolding range_find find_forward find_range
range_find_c = refl
