-- ===== src/Panes/Cursor.antt =====
-- internal/tui/panes/logpanel_motion.go: positions and ranges in the log buffer.
-- The buffer is the list of its lines with escape sequences stripped, `strippedLine` of each raw
-- line; a line is the list of its bytes. Lines, columns and counts are numbers: where the source
-- clamps at 0, ℕ does, and sums and products are taken not to pass 64 bits.
use randomshitgo_go.Prelude.{ℕ, ◌≤◌, ◌<◌, ◌-◌, List, [], Option, none, some, Bool, length, get_or}

pub record Cursor : Type 0 where
  pub line : ℕ
  pub col : ℕ

pub record MotionRange : Type 0 where
  pub start : Cursor
  pub end : Cursor
  pub linewise : Bool
  pub inclusive : Bool

abbrev pub at_pos : ℕ → ℕ → Cursor
at_pos line col = record { line = line; col = col }

abbrev pub stripped_line : List (List ℕ) → ℕ → List ℕ
stripped_line lines i = get_or lines i []

abbrev pub line_len : List (List ℕ) → ℕ → ℕ
line_len lines i = length (stripped_line lines i)

-- `cursor{total - 1, lineLen(lp, total-1)}`; the source reaches it with total ≥ 1.
abbrev pub buffer_end : List (List ℕ) → Cursor
buffer_end lines = at_pos (length lines - 1) (line_len lines (length lines - 1))

-- The cursor stands on a line of the buffer, at a byte or just behind the last one.
abbrev pub InBuffer : List (List ℕ) → Cursor → Type 0
InBuffer lines c = (c.line < length lines) × (c.col ≤ line_len lines c.line)

-- The line on which a range that was found ends is one of the buffer.
abbrev pub EndsOn : List (List ℕ) → Option MotionRange → Type 0
EndsOn lines none = Unit {0}
EndsOn lines (some r) = r.end.line < length lines
