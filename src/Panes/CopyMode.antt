-- ===== src/Panes/CopyMode.antt =====
-- internal/tui/panes/logpanel_motion.go and logpanel_select.go: copy mode, the machine that reads keys into
-- counts, operators, motions and selections. A key is its name, as `msg.String()` gives it; a command is
-- the text that it writes to the clipboard. Painting is not modelled: `paint` gives the `rowToRaw` that
-- `paintMatches` builds for a cursor, and the window is its height, offset and number of rows, as numbers.
pub mod Cursors
pub mod Yanks
mod Tests
use randomshitgo_go.Prelude.{
  ℕ, zero, suc, ◌+◌, ◌-◌, ◌*◌, ◌^◌, ◌%◌, max, min, List, [], ◌∷◌, ◌++◌, Option, none, some, Bool,
  true, false, not, ◌&&◌, ◌||◌, if◌then◌else◌, length, ltb, leb, ◌==◌, String, str_eq, drop, take,
}
use Prim.Native.String.{len, char_at}
use Prim.Native.Char.{code}
use randomshitgo_go.Panes.Cursor.{Cursor, MotionRange, at_pos, stripped_line, line_len}
use randomshitgo_go.Panes.Words.{is_word, is_big_word}
use randomshitgo_go.Panes.Motion.{word_end_backward_n}
use randomshitgo_go.Panes.Motion.Keys.{resolve_motion}
use randomshitgo_go.Panes.Motion.Find.{FindState, range_find}
use randomshitgo_go.Panes.TextObject.{range_text_object}
use randomshitgo_go.Panes.Extract.{extract_range, line_range, join_lines, lines_from}

pub data Pending : Type 0 where
  pend_none : Pending
  pend_g : Pending
  pend_find : Pending
  pend_op_yank_i : Pending
  pend_op_yank_a : Pending

pub data SelMode : Type 0 where
  sel_none : SelMode
  sel_char : SelMode
  sel_line : SelMode

pub record Selection : Type 0 where
  pub mode : SelMode
  pub anchor : Cursor

-- `count` is a 64-bit integer by its bits: from 2 ^ 63 on it is negative.
-- `lines` are the raw lines with escape sequences stripped; `op_yank` says that the operator is y.
pub record CopyMode : Type 0 where
  pub lines : List (List ℕ)
  pub cur : Cursor
  pub pending : Pending
  pub op_yank : Bool
  pub count : ℕ
  pub pending_find : FindState
  pub last_find : FindState
  pub sel : Selection
  pub in_copy : Bool
  pub height : ℕ
  pub y_offset : ℕ

abbrev pub no_find : FindState
no_find = record { ch = 0; forward = false; till = false; active = false }

abbrev pub no_selection : Selection
no_selection = record { mode = sel_none; anchor = at_pos 0 0 }

unfoldable pub clear_transient : CopyMode → CopyMode
clear_transient lp = record lp {
  pending = pend_none;
  op_yank = false;
  count = 0;
  pending_find = no_find;
}

abbrev is_pending : Pending → Bool
is_pending pend_none = false
is_pending pend_g = true
is_pending pend_find = true
is_pending pend_op_yank_i = true
is_pending pend_op_yank_a = true

-- Whether anything was cleared, and the rest.
unfoldable pub clear_pending : CopyMode → Bool × CopyMode
unfolding clear_transient
clear_pending lp =
    if not (is_pending lp.pending) && not lp.op_yank && lp.count == 0
    then (false, lp)
    else (true, clear_transient lp)

abbrev is_positive : ℕ → Bool
is_positive n = ltb 0 n && ltb n (2 ^ 63)

pub effective_count : CopyMode → ℕ
effective_count lp = if is_positive lp.count then lp.count else 1

unfoldable pub clamp_col : CopyMode → CopyMode
clamp_col lp =
    let n = line_len lp.lines lp.cur.line in
    record lp { cur = at_pos lp.cur.line (if ltb n lp.cur.col then n else lp.cur.col) }

-- The rows of a line in a row map, from the k-th row on: the loop with `first`, none for -1, and `last`.
pub scan_rows : ℕ → List ℕ → ℕ → Option ℕ → ℕ → Option ℕ × ℕ
scan_rows line [] k first last = (first, last)
scan_rows line (ri ∷ rows) k first last =
    let later =
      scan_rows line rows (k + 1)
        (if ri == line then (elim first [ none ↦ some k | some f ↦ some f ]) else first)
        (if ri == line then k else last) in
    if not (ri == line) && ltb line ri then (first, last) else later

pub cursor_rows : List ℕ → ℕ → ℕ × ℕ
unfolding scan_rows
cursor_rows row_to_raw line =
    let (first, last) = scan_rows line row_to_raw 0 none 0 in
    elim first [ none ↦ (line, line) | some f ↦ (f, last) ]

-- `window.SetYOffset` on numbers.
unfoldable pub set_y_offset : ℕ → ℕ → ℕ → ℕ
set_y_offset rows height n = min n (rows - height)

-- The offset that shows the cursor's rows.
unfoldable pub visible_offset : List ℕ → ℕ → ℕ → ℕ → ℕ
unfolding cursor_rows set_y_offset
visible_offset row_to_raw height offset line =
    let (first, last) = cursor_rows row_to_raw line in
    let rows = length row_to_raw in
    if ltb first offset
    then set_y_offset rows height first
    else if leb (offset + height) last
    then set_y_offset rows height
        (if ltb first (last + 1 - height) then first else last + 1 - height)
    else offset

unfoldable pub yank_text : CopyMode → List ℕ
yank_text lp =
    let a = lp.sel.anchor in
    let c = lp.cur in
    let (start, end) =
      if ltb a.line c.line || (a.line == c.line && leb a.col c.col) then (a, c) else (c, a) in
    let first = stripped_line lp.lines start.line in
    let last = stripped_line lp.lines end.line in
    if length lp.lines == 0 then [] else elim lp.sel.mode [
      | sel_none ↦ stripped_line lp.lines lp.cur.line
      | sel_line ↦ join_lines (lines_from lp.lines start.line (end.line + 1 - start.line))
      | sel_char ↦
          if start.line == end.line
          then (let stop = min (end.col + 1) (length first) in
              drop (min (min start.col (length first)) stop) (take stop first))
          else join_lines (
              drop (min start.col (length first)) first
                ∷ lines_from lp.lines (start.line + 1) (end.line - (start.line + 1))
              ++ take (min (end.col + 1) (length last)) last ∷ [])
    ]

-- `if text == "" { return nil }; return lp.yankCmd(text)`
abbrev pub command : List ℕ → Option (List ℕ)
command [] = none
command (b ∷ bs) = some (b ∷ bs)

abbrev same_mode : SelMode → SelMode → Bool
same_mode sel_none sel_none = true
same_mode sel_char sel_char = true
same_mode sel_line sel_line = true
same_mode a b = false

-- The keys v and V.
pub toggle_selection : CopyMode → SelMode → CopyMode
toggle_selection lp mode = record lp {
  sel =
      if same_mode lp.sel.mode mode then no_selection else record { mode = mode; anchor = lp.cur };
}

-- Whether the key was one of the selection's, its command, and the rest.
pub handle_visual : CopyMode → String → Bool × Option (List ℕ) × CopyMode
unfolding yank_text effective_count clear_transient toggle_selection
handle_visual lp s =
    if str_eq s "v"
    then (true, none, toggle_selection lp sel_char)
    else if str_eq s "V"
    then (true, none, toggle_selection lp sel_line)
    else if str_eq s "y"
    then (if same_mode lp.sel.mode sel_none
        then (false, none, lp)
        else (true, some (yank_text lp), record lp { sel = no_selection }))
    else if str_eq s "Y"
    then (
      true,
      command
          (extract_range lp.lines (line_range lp.cur.line (effective_count lp) (length lp.lines))),
      clear_transient lp,
    )
    else (false, none, lp)

-- The byte of a name of one byte; a longer name has none.
abbrev pub key_byte : String → Option ℕ
key_byte s = if len s == 1 then some (code (char_at s 0)) else none

-- The count prefix, which wraps around: the new count if the key is a digit that goes on with it.
pub count_digit : ℕ → String → Option ℕ
count_digit count s = elim (key_byte s) [
  | none ↦ none
  | some b ↦
      if leb b'1' b && leb b b'9'
      then some ((count * 10 + (b - b'0')) % 2 ^ 64)
      else if b == b'0' && is_positive count
      then some (count * 10 % 2 ^ 64)
      else none
]

module _ (paint : Cursor → List ℕ) where
  pub ensure_cursor_visible : CopyMode → CopyMode
  unfolding visible_offset
  ensure_cursor_visible lp = record lp {
    y_offset = visible_offset (paint lp.cur) lp.height lp.y_offset lp.cur.line;
  }

  pub apply_range : CopyMode → MotionRange → Option (List ℕ) × CopyMode
  unfolding clear_transient clamp_col ensure_cursor_visible
  apply_range lp r =
      if lp.op_yank
      then (command (extract_range lp.lines r), clear_transient lp)
      else (none, clear_transient (ensure_cursor_visible (clamp_col (record lp { cur = r.end }))))

  -- A range that was found is applied; otherwise the command is dropped.
  abbrev apply_found : CopyMode → Option MotionRange → Option (List ℕ) × CopyMode
  apply_found lp none = (none, clear_transient lp)
  apply_found lp (some r) = apply_range lp r

  pub handle_pend_g : CopyMode → String → Option (List ℕ) × CopyMode
  unfolding effective_count apply_range clear_transient
  handle_pend_g lp0 s =
      let lp = record lp0 { pending = pend_none } in
      let n = effective_count lp in
      if str_eq s "g"
      then apply_range lp
          (record { start = lp.cur; end = at_pos 0 0; linewise = false; inclusive = false })
      else if str_eq s "e"
      then apply_range lp (record {
        start = lp.cur;
        end = word_end_backward_n lp.lines lp.cur is_word n;
        linewise = false;
        inclusive = true;
      })
      else if str_eq s "E"
      then apply_range lp (record {
        start = lp.cur;
        end = word_end_backward_n lp.lines lp.cur is_big_word n;
        linewise = false;
        inclusive = true;
      })
      else (none, clear_transient lp)

  -- A byte above 127 is no name of one byte, so the second test of the source never holds.
  pub handle_pend_find : CopyMode → String → Option (List ℕ) × CopyMode
  unfolding effective_count apply_range clear_transient
  handle_pend_find lp0 s =
      let lp = record lp0 { pending = pend_none } in
      elim (key_byte s) [
        | none ↦ (none, clear_transient lp)
        | some b ↦
            let f = record lp.pending_find { ch = b; active = true } in
            let lp' = record lp { pending_find = f; last_find = f } in
            apply_found lp' (range_find lp'.lines lp'.cur f (effective_count lp'))
      ]

  pub handle_pend_text_object : CopyMode → String → Bool → Option (List ℕ) × CopyMode
  unfolding apply_range clear_transient
  handle_pend_text_object lp0 s around =
      let lp = record lp0 { pending = pend_none } in
      elim (key_byte s) [
        | none ↦ (none, clear_transient lp)
        | some b ↦ apply_found lp (range_text_object lp.lines lp.cur b around)
      ]

  abbrev start_find : CopyMode → Bool → Bool → Option (List ℕ) × CopyMode
  start_find lp forward till = (
    none,
    record lp {
      pending = pend_find;
      pending_find = record { ch = 0; forward = forward; till = till; active = false };
    },
  )

  -- The end of `dispatchKey`: the motions. The key `g` makes itself pending.
  pub dispatch_motion : CopyMode → String → Option (List ℕ) × CopyMode
  unfolding effective_count apply_range clear_transient
  dispatch_motion lp s =
      if str_eq s "g"
      then (none, record lp { pending = pend_g })
      else apply_found lp
          (resolve_motion lp.lines lp.height lp.y_offset lp.cur s (effective_count lp))

  pub dispatch_key : CopyMode → String → Option (List ℕ) × CopyMode
  unfolding effective_count apply_range clear_transient dispatch_motion
  dispatch_key lp s =
      let n = effective_count lp in
      if str_eq s "y"
      then (if lp.op_yank
          then apply_range lp (line_range lp.cur.line n (length lp.lines))
          else (none, record lp { op_yank = true }))
      else if str_eq s "i" && lp.op_yank
      then (none, record lp { pending = pend_op_yank_i })
      else if str_eq s "a" && lp.op_yank
      then (none, record lp { pending = pend_op_yank_a })
      else if str_eq s "f"
      then start_find lp true false
      else if str_eq s "F"
      then start_find lp false false
      else if str_eq s "t"
      then start_find lp true true
      else if str_eq s "T"
      then start_find lp false true
      else if str_eq s ";"
      then apply_found lp
          (if lp.last_find.active then range_find lp.lines lp.cur lp.last_find n else none)
      else if str_eq s ","
      then apply_found lp (
          if lp.last_find.active
          then range_find lp.lines lp.cur
              (record lp.last_find { forward = not lp.last_find.forward }) n
          else none)
      else dispatch_motion lp s

  abbrev handle_free : CopyMode → String → Option (List ℕ) × CopyMode
  handle_free lp s = elim (count_digit lp.count s) [
    | some n ↦ (none, record lp { count = n })
    | none ↦ dispatch_key lp s
  ]

  -- The keys after the selection's, by what is pending.
  pub handle_command : CopyMode → String → Option (List ℕ) × CopyMode
  unfolding handle_pend_g handle_pend_find handle_pend_text_object dispatch_key count_digit
  handle_command lp s = elim lp.pending [
    | pend_g ↦ handle_pend_g lp s
    | pend_find ↦ handle_pend_find lp s
    | pend_op_yank_i ↦ handle_pend_text_object lp s false
    | pend_op_yank_a ↦ handle_pend_text_object lp s true
    | pend_none ↦ handle_free lp s
  ]

  pub handle_copy_key : CopyMode → String → Option (List ℕ) × CopyMode
  unfolding handle_visual handle_command
  handle_copy_key lp s =
      if not lp.in_copy || length lp.lines == 0
      then (none, lp)
      else (let (consumed, cmd, lp') = handle_visual lp s in
          if consumed then (cmd, lp') else handle_command lp' s)
