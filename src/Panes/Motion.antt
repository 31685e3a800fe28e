-- ===== src/Panes/Motion.antt =====
-- internal/tui/panes/logpanel_motion_ranges.go: what each motion key covers.
-- `lines` is the buffer; the window's height and offset are arguments. The loop over lines in a
-- forward motion recurs on the lines from the cursor on, in a backward one on the line number.
pub mod Bounds
pub mod Landing
pub mod Find
pub mod Keys
mod Tests
use randomshitgo_go.Prelude.{
  ℕ, zero, suc, ◌+◌, ◌-◌, ◌*◌, ◌/◌, max, min, List, [], ◌∷◌, Option, none, some, Bool, true, false,
  not, ◌&&◌, ◌||◌, ltb, leb, ◌==◌, if◌then◌else◌, length, get_or, drop, String, str_eq,
}
use randomshitgo_go.Panes.Cursor.{Cursor, MotionRange, at_pos, stripped_line, line_len, buffer_end}
use randomshitgo_go.Panes.Words.{
  ClassFn, is_word, is_big_word, is_blank, class_of, run_length, same_class, run_left,
  skip_blanks_left, first_non_blank,
}

-- `for i := 0; i < mul && x > 0; i++ { x-- }`
unfoldable pub count_down : ℕ → ℕ → ℕ
count_down zero x = x
count_down (suc i) x = elim (ltb 0 x) [ true ↦ count_down i (x - 1) | false ↦ x ]

-- `for i := 0; i < mul && x < limit; i++ { x++ }`
unfoldable pub count_up : ℕ → ℕ → ℕ → ℕ
count_up zero limit x = x
count_up (suc i) limit x = elim (ltb x limit) [ true ↦ count_up i limit (x + 1) | false ↦ x ]

module _ (lines : List (List ℕ)) where
  -- The second loop of `wordForwardOnce`, over the lines from `line` on.
  pub next_non_blank : List (List ℕ) → ℕ → ℕ → Cursor
  next_non_blank [] line col = buffer_end lines
  next_non_blank (s ∷ rest) line col =
      let later = next_non_blank rest (line + 1) 0 in
      let stop = col + run_length is_blank (drop col s) in
      if ltb stop (length s)
      then at_pos line stop
      else if leb (length lines) (line + 1)
      then buffer_end lines
      else later

  -- `wordForwardOnce` from a cursor inside its line.
  pub word_forward_inside : Cursor → ClassFn → Cursor
  word_forward_inside start cls =
      let s = stripped_line lines start.line in
      let k = class_of (get_or s start.col 0) cls in
      let col =
        if ltb start.col (length s) && not (k == 0)
        then start.col + run_length (same_class cls k) (drop start.col s)
        else start.col in
      next_non_blank (drop start.line lines) start.line col

  pub word_forward_once : Cursor → ClassFn → Cursor
  word_forward_once start cls =
      if leb (line_len lines start.line) start.col
      then if leb (length lines) (start.line + 1)
        then buffer_end lines
        else word_forward_inside (at_pos (start.line + 1) 0) cls
      else word_forward_inside start cls

  pub word_forward_n : Cursor → ClassFn → ℕ → Cursor
  word_forward_n cur cls zero = cur
  word_forward_n cur cls (suc i) = word_forward_n (word_forward_once cur cls) cls i

  -- One byte back, over the line start; `none` at the start of the buffer.
  pub step_back : Cursor → Option Cursor
  step_back start =
      if start.col == 0
      then if start.line == 0
        then none
        else some (at_pos (start.line - 1) (line_len lines (start.line - 1) - 1))
      else some (at_pos start.line (start.col - 1))

  -- The loop leftward over white space, for `k` = col + 1; `none` at the start of the buffer.
  pub back_to_non_blank : ℕ → ℕ → Option Cursor
  back_to_non_blank zero k =
      let stop = skip_blanks_left (stripped_line lines 0) k in
      if ltb 0 stop && leb stop (line_len lines 0) then some (at_pos 0 (stop - 1)) else none
  back_to_non_blank (suc line) k =
      let above = back_to_non_blank line (line_len lines line) in
      let stop = skip_blanks_left (stripped_line lines (suc line)) k in
      if ltb 0 stop && leb stop (line_len lines (suc line))
      then some (at_pos (suc line) (stop - 1))
      else above

  -- The two together: the last byte that is not white space before the cursor.
  pub previous_non_blank : Cursor → Option Cursor
  previous_non_blank start = elim (step_back start) [
    | none ↦ none
    | some c ↦ back_to_non_blank c.line (c.col + 1)
  ]

  pub word_backward_once : Cursor → ClassFn → Cursor
  word_backward_once start cls = elim (previous_non_blank start) [
    | none ↦ at_pos 0 0
    | some c ↦
        let s = stripped_line lines c.line in
        at_pos c.line (run_left (same_class cls (class_of (get_or s c.col 0) cls)) s c.col)
  ]

  pub word_backward_n : Cursor → ClassFn → ℕ → Cursor
  word_backward_n cur cls zero = cur
  word_backward_n cur cls (suc i) = word_backward_n (word_backward_once cur cls) cls i

  -- The loop of `wordEndForwardOnce`, over the lines from `line` on.
  pub next_word_end : ClassFn → List (List ℕ) → ℕ → ℕ → Cursor
  next_word_end cls [] line col = at_pos (length lines - 1) (line_len lines (length lines - 1) - 1)
  next_word_end cls (s ∷ rest) line col =
      let later = next_word_end cls rest (line + 1) 0 in
      let from = col + run_length is_blank (drop col s) in
      let k = class_of (get_or s from 0) cls in
      if leb (length s) from
      then if leb (length lines) (line + 1) then at_pos line (length s - 1) else later
      else at_pos line (from + run_length (same_class cls k) (drop (from + 1) s))

  pub word_end_forward_once : Cursor → ClassFn → Cursor
  word_end_forward_once start cls =
      let at =
        if ltb start.col (line_len lines start.line)
        then at_pos start.line (start.col + 1)
        else if ltb (start.line + 1) (length lines)
        then at_pos (start.line + 1) 0
        else start in
      next_word_end cls (drop at.line lines) at.line at.col

  pub word_end_forward_n : Cursor → ClassFn → ℕ → Cursor
  word_end_forward_n cur cls zero = cur
  word_end_forward_n cur cls (suc i) = word_end_forward_n (word_end_forward_once cur cls) cls i

  pub word_end_backward_once : Cursor → ClassFn → Cursor
  word_end_backward_once start cls = elim (previous_non_blank start) [
    | none ↦ at_pos 0 0
    | some c ↦ c
  ]

  pub word_end_backward_n : Cursor → ClassFn → ℕ → Cursor
  word_end_backward_n cur cls zero = cur
  word_end_backward_n cur cls (suc i) = word_end_backward_n (word_end_backward_once cur cls) cls i
