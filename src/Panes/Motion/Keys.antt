-- ===== src/Panes/Motion/Keys.antt =====
-- internal/tui/panes/logpanel_motion_ranges.go: `resolveMotion`, from key to range. The switch is in
-- two parts: the motion that a key names, and the range of a motion. The key `g` sets a pending
-- state and has no range.
use randomshitgo_go.Prelude.{
  ℕ, ◌+◌, ◌-◌, ◌*◌, ◌/◌, max, min, List, Option, none, some, true, false, ◌||◌, leb, if◌then◌else◌,
  length, String, str_eq, ltb,
}
use randomshitgo_go.Panes.Cursor.{Cursor, MotionRange, at_pos, stripped_line, line_len}
use randomshitgo_go.Panes.Words.{is_word, is_big_word, first_non_blank}
use randomshitgo_go.Panes.Motion.{
  count_down, count_up, word_forward_n, word_backward_n, word_end_forward_n,
}

pub data Motion : Type 0 where
  left right down up : Motion
  line_start first_non_blank_col line_end : Motion
  next_line prev_line : Motion
  pend_g last_line : Motion
  word_forward big_word_forward word_backward big_word_backward word_end big_word_end : Motion
  half_page_up half_page_down page_up page_down : Motion
  screen_top screen_middle screen_bottom : Motion

-- The case labels.
unfoldable pub motion_of_key : String → Option Motion
motion_of_key s =
    if str_eq s "h" || str_eq s "left"
    then some left
    else if str_eq s "l" || str_eq s "right"
    then some right
    else if str_eq s "j" || str_eq s "down"
    then some down
    else if str_eq s "k" || str_eq s "up"
    then some up
    else if str_eq s "0"
    then some line_start
    else if str_eq s "^"
    then some first_non_blank_col
    else if str_eq s "$"
    then some line_end
    else if str_eq s "+"
    then some next_line
    else if str_eq s "-"
    then some prev_line
    else if str_eq s "g"
    then some pend_g
    else if str_eq s "G"
    then some last_line
    else if str_eq s "w"
    then some word_forward
    else if str_eq s "W"
    then some big_word_forward
    else if str_eq s "b"
    then some word_backward
    else if str_eq s "B"
    then some big_word_backward
    else if str_eq s "e"
    then some word_end
    else if str_eq s "E"
    then some big_word_end
    else if str_eq s "ctrl+u"
    then some half_page_up
    else if str_eq s "ctrl+d"
    then some half_page_down
    else if str_eq s "ctrl+b"
    then some page_up
    else if str_eq s "ctrl+f"
    then some page_down
    else if str_eq s "H"
    then some screen_top
    else if str_eq s "M"
    then some screen_middle
    else if str_eq s "L"
    then some screen_bottom
    else none

abbrev char_range : Cursor → Cursor → Option MotionRange
char_range s e = some (record { start = s; end = e; linewise = false; inclusive = false })

abbrev inclusive_range : Cursor → Cursor → Option MotionRange
inclusive_range s e = some (record { start = s; end = e; linewise = false; inclusive = true })

abbrev line_range_to : Cursor → Cursor → Option MotionRange
line_range_to s e = some (record { start = s; end = e; linewise = true; inclusive = false })

module _ (lines : List (List ℕ)) (height y_offset : ℕ) where
  -- A column that is past the end of its line moves to the end.
  unfoldable pub clamp_to_line : Cursor → Cursor
  clamp_to_line c =
      if ltb (line_len lines c.line) c.col then at_pos c.line (line_len lines c.line) else c

  abbrev half_page : ℕ
  half_page = max 1 (height / 2)

  abbrev last : ℕ
  last = length lines - 1

  -- The bodies, with `mul` at least 1.
  unfoldable pub motion_range : Motion → Cursor → ℕ → Option MotionRange
  motion_range left start mul = char_range start (at_pos start.line (count_down mul start.col))
  motion_range right start mul =
      char_range start (at_pos start.line (count_up mul (line_len lines start.line) start.col))
  motion_range down start mul =
      line_range_to start (clamp_to_line (at_pos (count_up mul last start.line) start.col))
  motion_range up start mul =
      line_range_to start (clamp_to_line (at_pos (count_down mul start.line) start.col))
  motion_range line_start start mul = char_range start (at_pos start.line 0)
  motion_range first_non_blank_col start mul =
      char_range start (at_pos start.line (first_non_blank (stripped_line lines start.line)))
  motion_range line_end start mul =
      inclusive_range start (at_pos start.line (line_len lines start.line))
  motion_range next_line start mul =
      let target = if leb (length lines) (start.line + mul) then last else start.line + mul in
      line_range_to start (at_pos target (first_non_blank (stripped_line lines target)))
  motion_range prev_line start mul =
      let target = start.line - mul in
      line_range_to start (at_pos target (first_non_blank (stripped_line lines target)))
  motion_range pend_g start mul = none
  motion_range last_line start mul = line_range_to start (at_pos last 0)
  motion_range word_forward start mul = char_range start (word_forward_n lines start is_word mul)
  motion_range big_word_forward start mul =
      char_range start (word_forward_n lines start is_big_word mul)
  motion_range word_backward start mul = char_range start (word_backward_n lines start is_word mul)
  motion_range big_word_backward start mul =
      char_range start (word_backward_n lines start is_big_word mul)
  motion_range word_end start mul =
      inclusive_range start (word_end_forward_n lines start is_word mul)
  motion_range big_word_end start mul =
      inclusive_range start (word_end_forward_n lines start is_big_word mul)
  motion_range half_page_up start mul =
      line_range_to start (clamp_to_line (at_pos (start.line - half_page * mul) start.col))
  motion_range half_page_down start mul =
      line_range_to start
        (clamp_to_line (at_pos (min last (start.line + half_page * mul)) start.col))
  motion_range page_up start mul =
      line_range_to start (clamp_to_line (at_pos (start.line - height * mul) start.col))
  motion_range page_down start mul =
      line_range_to start (clamp_to_line (at_pos (min last (start.line + height * mul)) start.col))
  motion_range screen_top start mul =
      line_range_to start (clamp_to_line (at_pos y_offset start.col))
  motion_range screen_middle start mul =
      line_range_to start (clamp_to_line (at_pos (min last (y_offset + height / 2)) start.col))
  motion_range screen_bottom start mul =
      line_range_to start (clamp_to_line (at_pos (min last (y_offset + height - 1)) start.col))

  unfoldable pub resolve_motion : Cursor → String → ℕ → Option MotionRange
  resolve_motion start s n = elim (motion_of_key s) [
    | none ↦ none
    | some m ↦ motion_range m start (max 1 n)
  ]
