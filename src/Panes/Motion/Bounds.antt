-- ===== src/Panes/Motion/Bounds.antt =====
-- internal/tui/panes/logpanel_motion_ranges.go: where motions leave the cursor.
use randomshitgo_go.Prelude.{
  ℕ, zero, suc, ◌+◌, ◌-◌, ◌≤◌, ◌<◌, List, [], ◌∷◌, Option, none, some, ◌≡◌, ◌≢◌, inl, inr, refl, ap,
  arith, leb, length, get_or, drop, length-drop, drop-eq-cons, Bool-cases, Option-cases,
}
use randomshitgo_go.Panes.Cursor.{Cursor, MotionRange, at_pos, stripped_line, line_len, InBuffer}
use randomshitgo_go.Panes.Words.{
  ClassFn, is_blank, class_of, run_length, same_class, first_non_blank, run_length-le, run_left-le,
  skip_blanks_left-le,
}
use randomshitgo_go.Panes.Motion.{
  count_down, count_up, next_non_blank, word_forward_inside, word_forward_once, word_forward_n,
  step_back, back_to_non_blank, previous_non_blank, word_backward_once, word_backward_n,
  next_word_end, word_end_forward_once, word_end_forward_n, word_end_backward_once,
  word_end_backward_n,
}
use randomshitgo_go.Panes.Motion.Keys.{
  Motion, left, right, down, up, line_start, first_non_blank_col, line_end, next_line, prev_line,
  pend_g, last_line, word_forward, big_word_forward, word_backward, big_word_backward, word_end,
  big_word_end, half_page_up, half_page_down, page_up, page_down, screen_top, screen_middle,
  screen_bottom, clamp_to_line, motion_range,
}

count_down-le : (i x : ℕ) → count_down i x ≤ x
unfolding count_down
count_down-le zero x = omega arith
count_down-le (suc i) x = ground (arith, count_down-le i (x - 1))

count_up-le : (i limit x : ℕ) → x ≤ limit → count_up i limit x ≤ limit
unfolding count_up
count_up-le zero limit x h = h
count_up-le (suc i) limit x h = ground (arith, count_up-le i limit (x + 1))

module _ (lines : List (List ℕ)) (some_line : 0 < length lines) where
  -- A run from `col` on ends in the line.
  run_within :
      (test : ClassFn) (s : List ℕ) (col : ℕ)
      → col ≤ length s
      → col + run_length test (drop col s) ≤ length s
  run_within test s col h = omega (arith, run_length-le test (drop col s), length-drop col s)

  next_non_blank-InBuffer :
      (rest : List (List ℕ)) (line col : ℕ)
      → drop line lines ≡ rest
      → InBuffer lines (next_non_blank lines rest line col)
  unfolding next_non_blank
  next_non_blank-InBuffer [] line col e = (omega arith, omega arith)
  next_non_blank-InBuffer (s ∷ rest) line col e =
      let (below, at, after) = drop-eq-cons line lines s [] rest e in
      ground (arith, ap length at, next_non_blank-InBuffer rest (line + 1) 0 after)

  word_forward_once-InBuffer :
      (c : Cursor) (cls : ClassFn) → InBuffer lines (word_forward_once lines c cls)
  unfolding word_forward_once word_forward_inside
  word_forward_once-InBuffer c cls = elim (Bool-cases (leb (line_len lines c.line) c.col)) [
    | inr inside ↦ rw inside (next_non_blank-InBuffer _ c.line _ refl)
    | inl past ↦ rw past (elim (Bool-cases (leb (length lines) (c.line + 1))) [
      | inl last ↦ rw last (omega arith, omega arith)
      | inr more ↦ rw more (next_non_blank-InBuffer _ (c.line + 1) _ refl)
    ])
  ]

  back_to_non_blank-InBuffer :
      (line k : ℕ) (c : Cursor)
      → line < length lines
      → back_to_non_blank lines line k ≡ some c
      → (c.line < length lines) × (c.col < line_len lines c.line)
  unfolding back_to_non_blank
  back_to_non_blank-InBuffer zero k c h e =
      ground (arith, skip_blanks_left-le (stripped_line lines 0) k)
  back_to_non_blank-InBuffer (suc line) k c h e = ground (
    arith,
    skip_blanks_left-le (stripped_line lines (suc line)) k,
    back_to_non_blank-InBuffer line (line_len lines line) c (omega arith),
  )

  step_back-line : (c d : Cursor) → step_back lines c ≡ some d → d.line ≤ c.line
  unfolding step_back
  step_back-line c d e = ground arith

  pub previous_non_blank-InBuffer :
      (c d : Cursor)
      → c.line < length lines
      → previous_non_blank lines c ≡ some d
      → (d.line < length lines) × (d.col < line_len lines d.line)
  unfolding previous_non_blank
  previous_non_blank-InBuffer c d h e = elim (Option-cases (step_back lines c)) [
    | inl none_before ↦ absurd (ground arith)
    | inr (b, before) ↦
        back_to_non_blank-InBuffer b.line (b.col + 1) d (omega (arith, step_back-line c b before))
          (ground arith)
  ]

  word_backward_once-InBuffer :
      (c : Cursor) (cls : ClassFn)
      → c.line < length lines
      → InBuffer lines (word_backward_once lines c cls)
  unfolding word_backward_once
  word_backward_once-InBuffer c cls h = elim (Option-cases (previous_non_blank lines c)) [
    | inl e ↦ rw (e, word_backward_once) (omega arith, omega arith)
    | inr (d, e) ↦
        let (below, within) = previous_non_blank-InBuffer c d h e in
        let s = stripped_line lines d.line in
        rw (e, word_backward_once)
          (
            below,
            omega (arith, run_left-le (same_class cls (class_of (get_or s d.col 0) cls)) s d.col),
          )
  ]

  word_end_backward_once-InBuffer :
      (c : Cursor) (cls : ClassFn)
      → c.line < length lines
      → InBuffer lines (word_end_backward_once lines c cls)
  unfolding word_end_backward_once
  word_end_backward_once-InBuffer c cls h = elim (Option-cases (previous_non_blank lines c)) [
    | inl e ↦ rw (e, word_end_backward_once) (omega arith, omega arith)
    | inr (d, e) ↦
        let (below, within) = previous_non_blank-InBuffer c d h e in
        rw (e, word_end_backward_once) (below, omega arith)
  ]

  next_word_end-InBuffer :
      (cls : ClassFn) (rest : List (List ℕ)) (line col : ℕ)
      → drop line lines ≡ rest
      → InBuffer lines (next_word_end lines cls rest line col)
  unfolding next_word_end
  next_word_end-InBuffer cls [] line col e = (omega arith, omega arith)
  next_word_end-InBuffer cls (s ∷ rest) line col e =
      let (below, at, after) = drop-eq-cons line lines s [] rest e in
      let from = col + run_length is_blank (drop col s) in
      let k = class_of (get_or s from 0) cls in
      ground (
        arith,
        ap length at,
        run_length-le (same_class cls k) (drop (from + 1) s),
        length-drop (from + 1) s,
        next_word_end-InBuffer cls rest (line + 1) 0 after,
      )

  word_end_forward_once-InBuffer :
      (c : Cursor) (cls : ClassFn) → InBuffer lines (word_end_forward_once lines c cls)
  unfolding word_end_forward_once
  word_end_forward_once-InBuffer c cls = next_word_end-InBuffer cls _ _ _ refl

  word_forward_n-InBuffer :
      (c : Cursor) (cls : ClassFn) (n : ℕ)
      → InBuffer lines c
      → InBuffer lines (word_forward_n lines c cls n)
  unfolding word_forward_n
  word_forward_n-InBuffer c cls zero h = h
  word_forward_n-InBuffer c cls (suc n) h =
      word_forward_n-InBuffer (word_forward_once lines c cls) cls n
        (word_forward_once-InBuffer c cls)

  word_backward_n-InBuffer :
      (c : Cursor) (cls : ClassFn) (n : ℕ)
      → InBuffer lines c
      → InBuffer lines (word_backward_n lines c cls n)
  unfolding word_backward_n
  word_backward_n-InBuffer c cls zero h = h
  word_backward_n-InBuffer c cls (suc n) h =
      word_backward_n-InBuffer (word_backward_once lines c cls) cls n
        (word_backward_once-InBuffer c cls h.0)

  word_end_forward_n-InBuffer :
      (c : Cursor) (cls : ClassFn) (n : ℕ)
      → InBuffer lines c
      → InBuffer lines (word_end_forward_n lines c cls n)
  unfolding word_end_forward_n
  word_end_forward_n-InBuffer c cls zero h = h
  word_end_forward_n-InBuffer c cls (suc n) h =
      word_end_forward_n-InBuffer (word_end_forward_once lines c cls) cls n
        (word_end_forward_once-InBuffer c cls)

  -- `ge` and `gE`, n times, keep the cursor in the buffer.
  pub word_end_backward_n-InBuffer :
      (c : Cursor) (cls : ClassFn) (n : ℕ)
      → InBuffer lines c
      → InBuffer lines (word_end_backward_n lines c cls n)
  unfolding word_end_backward_n
  word_end_backward_n-InBuffer c cls zero h = h
  word_end_backward_n-InBuffer c cls (suc n) h =
      word_end_backward_n-InBuffer (word_end_backward_once lines c cls) cls n
        (word_end_backward_once-InBuffer c cls h.0)

  clamp_to_line-InBuffer :
      (height y_offset line col : ℕ)
      → line < length lines
      → InBuffer lines (clamp_to_line lines height y_offset (at_pos line col))
  unfolding clamp_to_line
  clamp_to_line-InBuffer height y_offset line col h = ground arith

  first_non_blank-le : (line : ℕ) → first_non_blank (stripped_line lines line) ≤ line_len lines line
  unfolding first_non_blank
  first_non_blank-le line = run_length-le is_blank (stripped_line lines line)

-- Where a motion that has a range ends.
abbrev pub EndsIn : List (List ℕ) → Option MotionRange → Type 0
EndsIn lines none = Unit {0}
EndsIn lines (some r) = InBuffer lines r.end

-- Every motion but `H` ends in the buffer: on one of its lines, at a byte or just behind the last.
-- The buffer has a line, and the cursor was in it.
pub motion_range-InBuffer :
    (lines : List (List ℕ)) (height y_offset : ℕ) (m : Motion) (c : Cursor) (mul : ℕ)
    → 0 < length lines
    → m ≢ screen_top
    → InBuffer lines c
    → EndsIn lines (motion_range lines height y_offset m c mul)
unfolding motion_range
motion_range-InBuffer lines height y left c mul z ne h =
    (h.0, omega (arith, count_down-le mul c.col, h.1))
motion_range-InBuffer lines height y right c mul z ne h =
    (h.0, count_up-le mul (line_len lines c.line) c.col h.1)
motion_range-InBuffer lines height y down c mul z ne h =
    clamp_to_line-InBuffer lines z height y _ c.col
      (omega (arith, count_up-le mul (length lines - 1) c.line (omega (arith, h.0))))
motion_range-InBuffer lines height y up c mul z ne h =
    clamp_to_line-InBuffer lines z height y _ c.col (omega (arith, count_down-le mul c.line, h.0))
motion_range-InBuffer lines height y line_start c mul z ne h = (h.0, omega arith)
motion_range-InBuffer lines height y first_non_blank_col c mul z ne h =
    (h.0, first_non_blank-le lines z c.line)
motion_range-InBuffer lines height y line_end c mul z ne h = (h.0, omega arith)
motion_range-InBuffer lines height y next_line c mul z ne h =
    (ground arith, first_non_blank-le lines z _)
motion_range-InBuffer lines height y prev_line c mul z ne h =
    (omega (arith, h.0), first_non_blank-le lines z _)
motion_range-InBuffer lines height y pend_g c mul z ne h = tt
motion_range-InBuffer lines height y last_line c mul z ne h = (omega arith, omega arith)
motion_range-InBuffer lines height y word_forward c mul z ne h =
    word_forward_n-InBuffer lines z c _ mul h
motion_range-InBuffer lines height y big_word_forward c mul z ne h =
    word_forward_n-InBuffer lines z c _ mul h
motion_range-InBuffer lines height y word_backward c mul z ne h =
    word_backward_n-InBuffer lines z c _ mul h
motion_range-InBuffer lines height y big_word_backward c mul z ne h =
    word_backward_n-InBuffer lines z c _ mul h
motion_range-InBuffer lines height y word_end c mul z ne h =
    word_end_forward_n-InBuffer lines z c _ mul h
motion_range-InBuffer lines height y big_word_end c mul z ne h =
    word_end_forward_n-InBuffer lines z c _ mul h
motion_range-InBuffer lines height y screen_top c mul z ne h = absurd (ne refl)
motion_range-InBuffer lines height y half_page_up c mul z ne h =
    clamp_to_line-InBuffer lines z height y _ c.col (omega (arith, h.0))
motion_range-InBuffer lines height y half_page_down c mul z ne h =
    clamp_to_line-InBuffer lines z height y _ c.col (omega arith)
motion_range-InBuffer lines height y page_up c mul z ne h =
    clamp_to_line-InBuffer lines z height y _ c.col (omega (arith, h.0))
motion_range-InBuffer lines height y page_down c mul z ne h =
    clamp_to_line-InBuffer lines z height y _ c.col (omega arith)
motion_range-InBuffer lines height y screen_middle c mul z ne h =
    clamp_to_line-InBuffer lines z height y _ c.col (omega arith)
motion_range-InBuffer lines height y screen_bottom c mul z ne h =
    clamp_to_line-InBuffer lines z height y _ c.col (omega arith)

-- `H` takes the window's offset, which counts rows, for a line: with more rows above the window than
-- the buffer has lines, as when long lines wrap, it ends on a line that the buffer does not have.
pub screen_top_escapes :
    (lines : List (List ℕ)) (height y_offset : ℕ) (c : Cursor) (mul : ℕ)
    → length lines ≤ y_offset
    → ¬ EndsIn lines (motion_range lines height y_offset screen_top c mul)
unfolding motion_range clamp_to_line
screen_top_escapes lines height y_offset c mul h = ground arith
