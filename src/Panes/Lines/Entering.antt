-- ===== src/Panes/Lines/Entering.antt =====
-- internal/tui/panes/logpanel.go: the cursor when copy mode begins and when the lines change, and the width of
-- line numbers.
use randomshitgo_go.Prelude.{
  ℕ, ◌-◌, ◌<◌, min, List, Bool, true, false, not, ◌&&◌, ◌||◌, ◌≡◌, refl, arith, if◌then◌else◌,
  if_either, Bool-cases, inl, inr, length, ltb, ◌==◌,
}
use randomshitgo_go.Panes.Cursor.{InBuffer, at_pos}
use randomshitgo_go.Panes.CopyMode.{CopyMode, clamp_col}
use randomshitgo_go.Panes.Lines.{
  Panel, set_copy_mode, switch_copy_mode, set_lines, selects, paints, fit_width, top_line,
  gutter_width,
}

or_skip : (a b : Bool) → ((a || false) || b) ≡ (a || b)
or_skip true b = refl
or_skip false b = refl

paints-clamp_col : (c : CopyMode) → c.cur.line < length c.lines → paints (clamp_col c) ≡ true
unfolding paints clamp_col
paints-clamp_col c h = ground arith

-- Copy mode begins with the cursor in the buffer, where painting finds its line. The buffer has a line, and
-- copy mode was off.
pub set_copy_mode-InBuffer :
    (row_to_raw : List ℕ) (rows : ℕ) (lp : Panel)
    → lp.copy.in_copy ≡ false
    → 0 < length lp.copy.lines
    → let c : CopyMode = (set_copy_mode row_to_raw rows lp true).copy in
      InBuffer c.lines c.cur × (paints c ≡ true)
unfolding set_copy_mode switch_copy_mode fit_width clamp_col paints
set_copy_mode-InBuffer row_to_raw rows lp off h =
    let line = min (top_line row_to_raw lp.copy) (length lp.copy.lines - 1) in
    let low : line < length lp.copy.lines = omega (arith, h) in
    rw off (
      (low, ground arith),
      paints-clamp_col (record lp.copy { in_copy = true; cur = at_pos line 0 }) low,
    )

abbrev Kept : Panel → List (List ℕ) → Panel → Type 0
Kept lp lines q =
    (q.copy.lines ≡ lines) × (q.copy.cur ≡ lp.copy.cur) × (q.copy.in_copy ≡ lp.copy.in_copy)

set_lines-fields :
    (lp : Panel) (lines : List (List ℕ)) (rows : ℕ) → Kept lp lines (set_lines lp lines rows)
unfolding set_lines fit_width
set_lines-fields lp lines rows =
    let shown : Panel = record lp { copy = record lp.copy { lines = lines } } in
    let sized : Panel = if gutter_width shown == gutter_width lp then shown else fit_width shown in
    let kept : Kept lp lines sized =
      if_either (Kept lp lines) (gutter_width shown == gutter_width lp) (refl, refl, refl)
        (refl, refl, refl) in
    if_either (Kept lp lines) (lp.sticky && not lp.paused && not (selects sized.copy.sel.mode)) kept
      kept

-- In copy mode new lines leave the cursor where it was: painting them finds the cursor's line exactly when they
-- reach that far, or when there are none; fewer lines, but some, are an index out of range.
pub set_lines-paints :
    (lp : Panel) (lines : List (List ℕ)) (rows : ℕ)
    → lp.copy.in_copy ≡ true
    → paints (set_lines lp lines rows).copy
      ≡ (length lines == 0 || ltb lp.copy.cur.line (length lines))
unfolding paints
set_lines-paints lp lines rows h =
    let (same_lines, same_cur, same_copy) = set_lines-fields lp lines rows in
    rw (paints, same_lines, same_cur, same_copy, h)
      (or_skip (length lines == 0) (ltb lp.copy.cur.line (length lines)))

-- However it was, copy mode is off after it is switched off.
pub set_copy_mode-off :
    (row_to_raw : List ℕ) (rows : ℕ) (lp : Panel)
    → (set_copy_mode row_to_raw rows lp false).copy.in_copy ≡ false
unfolding set_copy_mode switch_copy_mode fit_width
set_copy_mode-off row_to_raw rows lp = elim (Bool-cases lp.copy.in_copy) [
  | inl e ↦ rw (set_copy_mode, e) refl
  | inr e ↦ rw (set_copy_mode, e) refl
]
