-- ===== src/Panes/CopyMode/Cursors.antt =====
-- internal/tui/panes/logpanel_motion.go: where a key of copy mode leaves the cursor.
use randomshitgo_go.Prelude.{
  ℕ, ◌+◌, ◌-◌, ◌*◌, ◌^◌, ◌<◌, max, List, Option, none, some, Bool, true, false, not, ◌&&◌, ◌||◌,
  ◌≡◌, ◌≢◌, ◌⊎◌, refl, inl, inr, arith, ltb, ◌==◌, if◌then◌else◌, if_either, length, Option-cases,
  String, str_eq,
}
use randomshitgo_go.Panes.Cursor.{Cursor, MotionRange, line_len, InBuffer, EndsOn}
use randomshitgo_go.Panes.Words.{is_word, is_big_word}
use randomshitgo_go.Panes.Motion.Bounds.{
  EndsIn, motion_range-InBuffer, word_end_backward_n-InBuffer,
}
use randomshitgo_go.Panes.Motion.Keys.{
  Motion, motion_of_key, motion_range, resolve_motion, clamp_to_line, screen_top, left, right, down,
  up, line_start, first_non_blank_col, line_end, next_line, prev_line, pend_g as pend_g_key,
  last_line, word_forward, big_word_forward, word_backward, big_word_backward, word_end,
  big_word_end, half_page_up, half_page_down, page_up, page_down, screen_middle, screen_bottom,
}
use randomshitgo_go.Panes.Motion.Find.{FindState, range_find, find_range, found_index}
use randomshitgo_go.Panes.TextObject.{range_text_object-EndsOn}
use randomshitgo_go.Panes.Extract.{line_range}
use randomshitgo_go.Panes.CopyMode.{
  CopyMode, Pending, same_mode, toggle_selection, clear_transient, clamp_col, ensure_cursor_visible,
  apply_range, apply_found, handle_pend_g, handle_pend_find, handle_pend_text_object,
  dispatch_motion, dispatch_key, count_digit, handle_free, handle_command, handle_visual,
  handle_copy_key, effective_count, key_byte, pend_none, pend_g, pend_find, pend_op_yank_i,
  pend_op_yank_a, sel_none,
}

pending-cases :
    (p : Pending)
    → (p ≡ pend_none)
      ⊎ ((p ≡ pend_g) ⊎ ((p ≡ pend_find) ⊎ ((p ≡ pend_op_yank_i) ⊎ (p ≡ pend_op_yank_a))))
pending-cases pend_none = inl refl
pending-cases pend_g = inr (inl refl)
pending-cases pend_find = inr (inr (inl refl))
pending-cases pend_op_yank_i = inr (inr (inr (inl refl)))
pending-cases pend_op_yank_a = inr (inr (inr (inr refl)))

-- The sums and products of a motion are 64-bit integers in the source: the counted lines or windows, from a line of
-- the buffer on, do not go beyond them.
abbrev pub NoOverflow : CopyMode → Type 0
NoOverflow lp = effective_count lp * max 1 lp.height + length lp.lines < 2 ^ 63

abbrev pub HasCursor : CopyMode → Type 0
HasCursor lp = InBuffer lp.lines lp.cur

line_range-EndsOn :
    (lines : List (List ℕ)) (start count : ℕ)
    → 0 < length lines
    → EndsOn lines (some (line_range start count (length lines)))
unfolding line_range
line_range-EndsOn lines start count h = ground arith

range_find-EndsOn :
    (lines : List (List ℕ)) (c : Cursor) (f : FindState) (n : ℕ)
    → c.line < length lines
    → EndsOn lines (range_find lines c f n)
unfolding range_find find_range
range_find-EndsOn lines c f n h = elim (Option-cases (found_index lines c f n)) [
  | inl e ↦ rw (range_find, e) tt
  | inr (i, e) ↦
      rw (range_find, e)
        (if_either (EndsOn lines)
          (ltb (line_len lines c.line) (if f.till then if f.forward then i - 1 else i + 1 else i))
          tt h)
]

weaken : (lines : List (List ℕ)) (o : Option MotionRange) → EndsIn lines o → EndsOn lines o
weaken lines none h = tt
weaken lines (some r) h = h.0

motion-cases : (m : Motion) → (m ≡ screen_top) ⊎ (m ≢ screen_top)
motion-cases screen_top = inl refl
motion-cases left = inr (λ e. cc)
motion-cases right = inr (λ e. cc)
motion-cases down = inr (λ e. cc)
motion-cases up = inr (λ e. cc)
motion-cases line_start = inr (λ e. cc)
motion-cases first_non_blank_col = inr (λ e. cc)
motion-cases line_end = inr (λ e. cc)
motion-cases next_line = inr (λ e. cc)
motion-cases prev_line = inr (λ e. cc)
motion-cases pend_g_key = inr (λ e. cc)
motion-cases last_line = inr (λ e. cc)
motion-cases word_forward = inr (λ e. cc)
motion-cases big_word_forward = inr (λ e. cc)
motion-cases word_backward = inr (λ e. cc)
motion-cases big_word_backward = inr (λ e. cc)
motion-cases word_end = inr (λ e. cc)
motion-cases big_word_end = inr (λ e. cc)
motion-cases half_page_up = inr (λ e. cc)
motion-cases half_page_down = inr (λ e. cc)
motion-cases page_up = inr (λ e. cc)
motion-cases page_down = inr (λ e. cc)
motion-cases screen_middle = inr (λ e. cc)
motion-cases screen_bottom = inr (λ e. cc)

-- Also `H`, as long as the offset is a line's number.
motion_range-EndsOn :
    (lines : List (List ℕ)) (height y : ℕ) (m : Motion) (c : Cursor) (n : ℕ)
    → y < length lines
    → InBuffer lines c
    → EndsOn lines (motion_range lines height y m c n)
unfolding motion_range clamp_to_line
motion_range-EndsOn lines height y m c n h k = elim (motion-cases m) [
  | inl top ↦
      rw top (if_either (λ (d : Cursor). d.line < length lines) (ltb (line_len lines y) c.col) h h)
  | inr other ↦
      weaken lines (motion_range lines height y m c n)
        (motion_range-InBuffer lines height y m c n (omega (arith, h)) other k)
]

resolve_motion-EndsOn :
    (lines : List (List ℕ)) (height y : ℕ) (c : Cursor) (s : String) (n : ℕ)
    → y < length lines
    → InBuffer lines c
    → EndsOn lines (resolve_motion lines height y c s n)
unfolding resolve_motion
resolve_motion-EndsOn lines height y c s n h k = elim (Option-cases (motion_of_key s)) [
  | inl e ↦ rw (resolve_motion, e) tt
  | inr (m, e) ↦ rw (resolve_motion, e) (motion_range-EndsOn lines height y m c (max 1 n) h k)
]

module _ (paint : Cursor → List ℕ) where
  apply_range-HasCursor :
      (lp : CopyMode) (r : MotionRange)
      → HasCursor lp
      → r.end.line < length lp.lines
      → HasCursor (apply_range paint lp r).1
  unfolding apply_range clear_transient ensure_cursor_visible clamp_col
  apply_range-HasCursor lp r h k =
      if_either (λ (t : Option (List ℕ) × CopyMode). HasCursor t.1) lp.op_yank h (k, ground arith)

  apply_found-HasCursor :
      (lp : CopyMode) (o : Option MotionRange)
      → HasCursor lp
      → EndsOn lp.lines o
      → HasCursor (apply_found paint lp o).1
  unfolding clear_transient
  apply_found-HasCursor lp none h k = h
  apply_found-HasCursor lp (some r) h k = apply_range-HasCursor lp r h k

  abbrev Keeps : Option (List ℕ) × CopyMode → Type 0
  Keeps t = HasCursor t.1

  handle_pend_g-HasCursor :
      (lp : CopyMode) (s : String) → HasCursor lp → HasCursor (handle_pend_g paint lp s).1
  unfolding handle_pend_g clear_transient effective_count
  handle_pend_g-HasCursor lp s h =
      let some_line : 0 < length lp.lines = omega (arith, h.0) in
      let lp' : CopyMode = record lp { pending = pend_none } in
      if_either Keeps (str_eq s "g") (apply_range-HasCursor lp' _ h some_line) (
        if_either Keeps (str_eq s "e")
          (apply_range-HasCursor lp' _ h
            (word_end_backward_n-InBuffer lp.lines some_line lp.cur is_word _ h).0)
          (if_either Keeps (str_eq s "E")
            (apply_range-HasCursor lp' _ h
              (word_end_backward_n-InBuffer lp.lines some_line lp.cur is_big_word _ h).0)
            h))

  handle_pend_find-HasCursor :
      (lp : CopyMode) (s : String) → HasCursor lp → HasCursor (handle_pend_find paint lp s).1
  unfolding handle_pend_find clear_transient
  handle_pend_find-HasCursor lp s h = elim (Option-cases (key_byte s)) [
    | inl e ↦ rw (handle_pend_find, e) h
    | inr (b, e) ↦
        rw (handle_pend_find, e)
          (let f : FindState = record lp.pending_find { ch = b; active = true } in
            let lp' : CopyMode = record lp {
              pending = pend_none;
              pending_find = f;
              last_find = f;
            } in
            apply_found-HasCursor lp' (range_find lp.lines lp.cur f (effective_count lp')) h
              (range_find-EndsOn lp.lines lp.cur f (effective_count lp') h.0))
  ]

  handle_pend_text_object-HasCursor :
      (lp : CopyMode) (s : String) (around : Bool)
      → HasCursor lp
      → HasCursor (handle_pend_text_object paint lp s around).1
  unfolding handle_pend_text_object clear_transient
  handle_pend_text_object-HasCursor lp s around h = elim (Option-cases (key_byte s)) [
    | inl e ↦ rw (handle_pend_text_object, e) h
    | inr (b, e) ↦
        rw (handle_pend_text_object, e)
          (apply_found-HasCursor (record lp { pending = pend_none }) _ h
            (range_text_object-EndsOn lp.lines lp.cur b around h.0))
  ]

  dispatch_motion-HasCursor :
      (lp : CopyMode) (s : String)
      → lp.y_offset < length lp.lines
      → HasCursor lp
      → HasCursor (dispatch_motion paint lp s).1
  unfolding dispatch_motion
  dispatch_motion-HasCursor lp s y h = if_either Keeps (str_eq s "g") h (
      apply_found-HasCursor lp _ h
        (resolve_motion-EndsOn lp.lines lp.height lp.y_offset lp.cur s (effective_count lp) y h))

  dispatch_key-HasCursor :
      (lp : CopyMode) (s : String)
      → lp.y_offset < length lp.lines
      → HasCursor lp
      → HasCursor (dispatch_key paint lp s).1
  unfolding dispatch_key
  dispatch_key-HasCursor lp s y h =
      if_either Keeps (str_eq s "y")
        (if_either Keeps lp.op_yank
          (apply_range-HasCursor lp _ h
            (line_range-EndsOn lp.lines lp.cur.line _ (omega (arith, h.0))))
          h)
        (if_either Keeps (str_eq s "i" && lp.op_yank) h (
          if_either Keeps (str_eq s "a" && lp.op_yank) h (
            if_either Keeps (str_eq s "f") h (
              if_either Keeps (str_eq s "F") h (
                if_either Keeps (str_eq s "t") h (
                  if_either Keeps (str_eq s "T") h (
                    if_either Keeps (str_eq s ";")
                      (apply_found-HasCursor lp _ h (
                        if_either (EndsOn lp.lines) lp.last_find.active
                          (range_find-EndsOn lp.lines lp.cur _ _ h.0) tt))
                      (if_either Keeps (str_eq s ",")
                        (apply_found-HasCursor lp _ h (
                          if_either (EndsOn lp.lines) lp.last_find.active
                            (range_find-EndsOn lp.lines lp.cur _ _ h.0) tt))
                        (dispatch_motion-HasCursor lp s y h)))))))))

  handle_free-HasCursor :
      (lp : CopyMode) (s : String)
      → lp.y_offset < length lp.lines
      → HasCursor lp
      → HasCursor (handle_free paint lp s).1
  handle_free-HasCursor lp s y h = elim (Option-cases (count_digit lp.count s)) [
    | inl e ↦ rw (handle_free, e) (dispatch_key-HasCursor lp s y h)
    | inr (n, e) ↦ rw (handle_free, e) h
  ]

  handle_command-HasCursor :
      (lp : CopyMode) (s : String)
      → lp.y_offset < length lp.lines
      → HasCursor lp
      → HasCursor (handle_command paint lp s).1
  unfolding handle_command
  handle_command-HasCursor lp s y h = elim (pending-cases lp.pending) [
    | inl e ↦ rw (handle_command, e) (handle_free-HasCursor lp s y h)
    | inr (inl e) ↦ rw (handle_command, e) (handle_pend_g-HasCursor lp s h)
    | inr (inr (inl e)) ↦ rw (handle_command, e) (handle_pend_find-HasCursor lp s h)
    | inr (inr (inr (inl e))) ↦
        rw (handle_command, e) (handle_pend_text_object-HasCursor lp s false h)
    | inr (inr (inr (inr e))) ↦
        rw (handle_command, e) (handle_pend_text_object-HasCursor lp s true h)
  ]

  -- A selection key moves nothing.
  abbrev Same : CopyMode → Bool × Option (List ℕ) × CopyMode → Type 0
  Same lp t = (t.2.lines ≡ lp.lines) × (t.2.cur ≡ lp.cur) × (t.2.y_offset ≡ lp.y_offset)

  handle_visual-keeps : (lp : CopyMode) (s : String) → Same lp (handle_visual lp s)
  unfolding handle_visual clear_transient toggle_selection
  handle_visual-keeps lp s =
      if_either (Same lp) (str_eq s "v") (refl, refl, refl)
        (if_either (Same lp) (str_eq s "V") (refl, refl, refl)
          (if_either (Same lp) (str_eq s "y")
            (if_either (Same lp) (same_mode lp.sel.mode sel_none) (refl, refl, refl)
              (refl, refl, refl))
            (if_either (Same lp) (str_eq s "Y") (refl, refl, refl) (refl, refl, refl))))

  -- A key of copy mode leaves the cursor in the buffer, on one of its lines and at a byte or just behind the last
  -- one, whatever is pending or selected. It was there before, the window's offset, which `H` takes for a line, is
  -- the number of a line, and the count is small enough for a motion not to overflow: count times the window's
  -- height, with the lines of the buffer added, is below 2 ^ 63.
  pub handle_copy_key-InBuffer :
      (lp : CopyMode) (s : String)
      → lp.y_offset < length lp.lines
      → InBuffer lp.lines lp.cur
      → NoOverflow lp
      → InBuffer (handle_copy_key paint lp s).1.lines (handle_copy_key paint lp s).1.cur
  unfolding handle_copy_key
  handle_copy_key-InBuffer lp s y h _ =
      let (same_lines, same_cur, same_y) = handle_visual-keeps lp s in
      let after : HasCursor (handle_visual lp s).2 = rw (same_lines, same_cur) h in
      if_either Keeps (not lp.in_copy || length lp.lines == 0) h (
        if_either Keeps (handle_visual lp s).0 after
          (handle_command-HasCursor (handle_visual lp s).2 s (rw (same_lines, same_y) y) after))
