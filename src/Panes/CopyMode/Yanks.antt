-- ===== src/Panes/CopyMode/Yanks.antt =====
-- internal/tui/panes/logpanel_select.go and logpanel_motion.go: what the keys of copy mode yank.
use randomshitgo_go.Prelude.{
  ℕ, ◌+◌, ◌-◌, ◌<◌, max, min, List, [], ◌∷◌, ◌++◌, none, Bool, true, false, ◌&&◌, ◌||◌, ◌≡◌, refl,
  ap, ◌∙◌, inl, inr, arith, leb, ltb, ◌==◌, if◌then◌else◌, length, Bool-cases, take, drop,
}
use randomshitgo_go.Panes.Cursor.{Cursor, MotionRange, stripped_line, line_len, InBuffer}
use randomshitgo_go.Panes.Extract.{
  extract_range, extract_lines, slice_char, normalise_char_range, line_range, lines_from,
  join_lines, extract-line_range,
}
use randomshitgo_go.Panes.CopyMode.{
  CopyMode, sel_none, sel_char, sel_line, yank_text, clear_transient, command, effective_count,
  handle_visual, apply_range, dispatch_key, handle_command, handle_copy_key, pend_none, count_digit,
}

-- The range that the operator would yank for a selection of a kind.
abbrev pub selection_range : CopyMode → Bool → MotionRange
selection_range lp linewise = record {
  start = lp.sel.anchor;
  end = lp.cur;
  linewise = linewise;
  inclusive = true;
}

-- Clamping a start twice is clamping it once.
clamp_start : (c n e : ℕ) → min (min c n) (min e n) ≡ min c (min e n)
clamp_start c n e = omega arith

-- The two ways to write the characters between two positions.
slice_again :
    (lines : List (List ℕ)) (a b : Cursor)
    → (let first = stripped_line lines a.line in
        let last = stripped_line lines b.line in
        if a.line == b.line
        then (let stop = min (b.col + 1) (length first) in
            drop (min (min a.col (length first)) stop) (take stop first))
        else join_lines (
            drop (min a.col (length first)) first
              ∷ lines_from lines (a.line + 1) (b.line - (a.line + 1))
            ++ take (min (b.col + 1) (length last)) last ∷ []))
      ≡ slice_char lines a.line a.col b.line (b.col + 1)
unfolding slice_char
slice_again lines a b = elim (Bool-cases (a.line == b.line)) [
  | inl e ↦ rw e (
      ap (λ i. drop i (take (min (b.col + 1) (line_len lines a.line)) (stripped_line lines a.line)))
        (clamp_start a.col (line_len lines a.line) (b.col + 1)))
  | inr e ↦ rw e refl
]

-- The lines from a to b, in order, when both are lines of the buffer.
lines_again :
    (lines : List (List ℕ)) (a b x y : ℕ)
    → x < length lines
    → y < length lines
    → a ≡ min x y
    → b ≡ max x y
    → join_lines (lines_from lines a (b + 1 - a)) ≡ extract_lines lines x y
unfolding extract_lines
lines_again lines a b x y hx hy ha hb =
    let inside : leb (length lines) (max x y) ≡ false = ground (arith, hx, hy) in
    rw (inside, ha, hb) refl

some_line : (n k : ℕ) → k < n → (n == 0) ≡ false
some_line n k h = ground arith

-- What a visual selection yanks is what the operator y yanks for the motion from its anchor to the
-- cursor, taken linewise for a selection of lines and inclusive for one of characters, whichever end comes
-- first. The anchor and the cursor are in the buffer.
pub yank_text-extract_range :
    (lp : CopyMode)
    → InBuffer lp.lines lp.sel.anchor
    → InBuffer lp.lines lp.cur
    → (yank_text (record lp { sel = record lp.sel { mode = sel_char } })
        ≡ extract_range lp.lines (selection_range lp false))
      × (yank_text (record lp { sel = record lp.sel { mode = sel_line } })
          ≡ extract_range lp.lines (selection_range lp true))
unfolding yank_text extract_range extract_lines slice_char normalise_char_range
yank_text-extract_range lp h k =
    let a : Cursor = lp.sel.anchor in
    let c : Cursor = lp.cur in
    let full = some_line (length lp.lines) c.line k.0 in
    elim (Bool-cases (ltb a.line c.line || (a.line == c.line && leb a.col c.col))) [
      | inl e ↦ (
        rw (full, e) (slice_again lp.lines a c),
        rw (full, e)
            (lines_again lp.lines a.line c.line a.line c.line h.0 k.0 (ground (arith, e))
              (ground (arith, e))),
      )
      | inr e ↦ (
        rw (full, e) (slice_again lp.lines c a),
        rw (full, e)
            (lines_again lp.lines c.line a.line a.line c.line h.0 k.0 (ground (arith, e))
              (ground (arith, e))),
      )
    ]

-- Ready for a command: in copy mode, with nothing pending and nothing selected.
abbrev pub IsReady : CopyMode → Type 0
IsReady lp =
    (lp.in_copy ≡ true)
    × (lp.pending ≡ pend_none)
    × (lp.op_yank ≡ false)
    × (lp.sel.mode ≡ sel_none)
    × (lp.cur.line < length lp.lines)

first_y :
    (paint : Cursor → List ℕ) (lp : CopyMode)
    → IsReady lp
    → handle_copy_key paint lp "y" ≡ (none, record lp { op_yank = true })
unfolding handle_copy_key handle_command handle_visual dispatch_key count_digit
first_y paint lp (copy, pend, op, sel, inside) =
    rw (copy, some_line (length lp.lines) lp.cur.line inside, sel, pend, op) (rw pend refl)

second_y :
    (paint : Cursor → List ℕ) (lp : CopyMode)
    → IsReady lp
    → handle_copy_key paint (record lp { op_yank = true }) "y" ≡ (
      command
          (extract_range lp.lines (line_range lp.cur.line (effective_count lp) (length lp.lines))),
      clear_transient lp,
    )
unfolding handle_copy_key handle_command handle_visual dispatch_key count_digit apply_range
    clear_transient effective_count
second_y paint lp (copy, pend, op, sel, inside) =
    rw (copy, some_line (length lp.lines) lp.cur.line inside, sel, pend) refl

effective_count-positive : (lp : CopyMode) → 0 < effective_count lp
unfolding effective_count
effective_count-positive lp = ground arith

-- `y` typed twice, after a count n (0 for none), yanks the cursor's line and the n - 1 lines below it, as
-- far as there are lines, and leaves the cursor where it is, with nothing counted or pending.
pub yank_lines :
    (paint : Cursor → List ℕ) (lp : CopyMode)
    → IsReady lp
    → let once = handle_copy_key paint lp "y" in
      let twice = handle_copy_key paint once.1 "y" in
      (once.0 ≡ none)
      × (twice.0
          ≡ command (
              join_lines (
                take
                  (min (effective_count lp) (length lp.lines - lp.cur.line))
                  (drop lp.cur.line lp.lines))))
      × (twice.1 ≡ clear_transient lp)
yank_lines paint lp ready =
    let n = effective_count lp in
    let first = first_y paint lp ready in
    let second = second_y paint lp ready in
    let lines = extract-line_range lp.lines lp.cur.line n ready.4 (effective_count-positive lp) in
    rw first (refl, ap (λ t. t.0) second ∙ ap command lines, ap (λ t. t.1) second)
