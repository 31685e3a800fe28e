-- ===== src/Panes/Mouse/Drag.antt =====
-- internal/tui/panes/logpanel_mouse.go: the cursor and the selection under the mouse.
use randomshitgo_go.Prelude.{
  ℕ, zero, suc, ◌+◌, ◌-◌, ◌≤◌, ◌<◌, List, [], ◌∷◌, Option, none, some, false, not, ◌&&◌, ◌||◌, ◌≡◌,
  inl, inr, arith, if◌then◌else◌, if_either, if_split, Option-cases, length, leb, ◌==◌, get_or, All,
  All-append, replicate, Bool, true, refl,
}
use randomshitgo_go.Prelude.Int.{ℤ, pos, negsuc, ◌-ℤ◌}
use randomshitgo_go.Panes.Cursor.{Cursor, at_pos, line_len, InBuffer}
use randomshitgo_go.Panes.CopyMode.{CopyMode, no_selection}
use randomshitgo_go.Panes.Mouse.{
  MousePanel, MouseMsg, Action, press, motion, release, is_left, is_wheel, col_for_rendered_row,
  content_to_cursor, abs_to_content, mouse_to_cursor, clamp_above, clamp_below, clamp_beside,
  clamp_rel, clamp_to_pane, scroll_mouse, press_at, release_drag, handle_mouse, same_cursor,
  or_clamped, handle_action, on_press, row_map, paint_matches, painted_if, is_some, with_copy,
}

-- The buffer has a line; the cursor, the selection's anchor and the drag's are in the buffer, and so are the lines of the
-- row map.
pub record IsIn (lp : MousePanel) : Type 0 where
  pub cursor : InBuffer lp.panel.copy.lines lp.panel.copy.cur
  pub selection : InBuffer lp.panel.copy.lines lp.panel.copy.sel.anchor
  pub anchor : InBuffer lp.panel.copy.lines lp.anchor_at
  pub rows : All (λ raw. raw < length lp.panel.copy.lines) lp.row_to_raw

All-get_or :
    (n : ℕ) (rs : List ℕ) (k : ℕ) → All (λ raw. raw < n) rs → k < length rs → get_or rs k 0 < n
All-get_or n [] k h l = absurd (omega arith)
All-get_or n (r ∷ rs) zero h l = h.0
All-get_or n (r ∷ rs) (suc k) h l = All-get_or n rs k h.1 (omega arith)

col-le :
    (lp : MousePanel) (row x : ℕ)
    → col_for_rendered_row lp row x ≤ line_len lp.panel.copy.lines (get_or lp.row_to_raw row 0)
unfolding col_for_rendered_row
col-le lp row x = ground arith

-- Where the content has a place of the buffer, the place is in the buffer.
content_to_cursor-InBuffer :
    (lp : MousePanel) (at : Option (ℕ × ℕ)) (cur : Cursor)
    → content_to_cursor lp at ≡ some cur
    → InBuffer lp.panel.copy.lines cur
unfolding content_to_cursor
content_to_cursor-InBuffer lp none cur h = absurd (cc)
content_to_cursor-InBuffer lp (some (x, y)) cur h =
    let P : Option Cursor → Type 0 = λ o. o ≡ some cur → InBuffer lp.panel.copy.lines cur in
    let no : P none = λ e. absurd (cc e) in
    let lines : List (List ℕ) = lp.panel.copy.lines in
    let row : ℕ = lp.panel.copy.y_offset + y in
    let raw : ℕ = get_or lp.row_to_raw row 0 in
    let is : (c : Cursor) → InBuffer lines c → P (some c) =
      λ c g e. let same : c ≡ cur = cc e in rw (← same) g in
    if_either P (leb lp.panel.copy.height y) no
      (if_either P (leb (length lp.row_to_raw) row)
        (if_split P (length lines == 0) (λ e. no)
          (λ e. is (at_pos (length lines - 1) 0) (ground (arith, e), omega arith)))
        (if_split P (leb (length lines) raw) (λ e. no)
          (λ e.
            is (at_pos raw (col_for_rendered_row lp row x)) (ground (arith, e), col-le lp row x))))
      h

mouse_to_cursor-InBuffer :
    (lp : MousePanel) (x y : ℤ) (cur : Cursor)
    → mouse_to_cursor lp x y ≡ some cur
    → InBuffer lp.panel.copy.lines cur
unfolding mouse_to_cursor
mouse_to_cursor-InBuffer lp x y cur h = content_to_cursor-InBuffer lp (abs_to_content lp x y) cur h

module _ (lp : MousePanel) (g : IsIn lp) where
  clamp_above-InBuffer : InBuffer lp.panel.copy.lines (clamp_above lp)
  unfolding clamp_above
  clamp_above-InBuffer =
      let n : ℕ = length lp.row_to_raw in
      let top : ℕ = lp.panel.copy.y_offset in
      let row : ℕ = if leb n top then n - 1 else top in
      if_split (InBuffer lp.panel.copy.lines) (n == 0 || length lp.panel.copy.lines == 0)
        (λ e. g.anchor)
        (λ e. (
          All-get_or (length lp.panel.copy.lines) lp.row_to_raw row g.rows (ground (arith, e)),
          omega arith,
        ))

  clamp_below-InBuffer : InBuffer lp.panel.copy.lines (clamp_below lp)
  unfolding clamp_below
  clamp_below-InBuffer = ground (arith, g.anchor)

  clamp_beside-InBuffer :
      (rel_x : ℤ) (y : ℕ) → InBuffer lp.panel.copy.lines (clamp_beside lp rel_x y)
  unfolding clamp_beside
  clamp_beside-InBuffer rel_x y = ground (arith, g.anchor)

  clamp_rel-InBuffer : (rel_x rel_y : ℤ) → InBuffer lp.panel.copy.lines (clamp_rel lp rel_x rel_y)
  unfolding clamp_rel
  clamp_rel-InBuffer rel_x (negsuc y) = clamp_above-InBuffer
  clamp_rel-InBuffer rel_x (pos y) =
      if_either (InBuffer lp.panel.copy.lines) (y == 0) clamp_above-InBuffer (
        if_either (InBuffer lp.panel.copy.lines) (leb (lp.full_height - 1) y) clamp_below-InBuffer
          (clamp_beside-InBuffer rel_x y))

  dragged-InBuffer :
      (x y : ℤ)
      → InBuffer lp.panel.copy.lines (or_clamped (clamp_to_pane lp x y) (mouse_to_cursor lp x y))
  unfolding clamp_to_pane
  dragged-InBuffer x y = elim (Option-cases (mouse_to_cursor lp x y)) [
    | inl e ↦ rw e (clamp_rel-InBuffer (x -ℤ lp.x_origin) (y -ℤ lp.y_origin))
    | inr (cur, e) ↦ rw e (mouse_to_cursor-InBuffer lp x y cur e)
  ]

-- The scrolling changes neither the buffer nor the places in it.
scroll_mouse-IsIn : (lp : MousePanel) (msg : MouseMsg) → IsIn lp → IsIn (scroll_mouse lp msg)
unfolding scroll_mouse
scroll_mouse-IsIn lp msg g = record {
  cursor = g.cursor;
  selection = g.selection;
  anchor = g.anchor;
  rows = g.rows;
}

press_at-IsIn :
    (lp : MousePanel) (cur : Cursor)
    → InBuffer lp.panel.copy.lines cur
    → IsIn lp
    → IsIn (press_at lp cur)
unfolding press_at
press_at-IsIn lp cur h g = record { cursor = h; selection = h; anchor = h; rows = g.rows }

on_press-IsIn :
    (lp : MousePanel) (x y : ℤ)
    → IsIn lp
    → (at : Option Cursor) → mouse_to_cursor lp x y ≡ at
    → IsIn (on_press lp at)
unfolding on_press
on_press-IsIn lp x y g none e = g
on_press-IsIn lp x y g (some cur) e = press_at-IsIn lp cur (mouse_to_cursor-InBuffer lp x y cur e) g

release_drag-IsIn : (lp : MousePanel) → IsIn lp → IsIn (release_drag lp).1
unfolding release_drag
release_drag-IsIn lp g =
    let Q : Option (List ℕ) × MousePanel → Type 0 = λ r. IsIn r.1 in
    let c : CopyMode = lp.panel.copy in
    let cleared : IsIn (record lp {
      pressed = false;
      panel = record lp.panel { copy = record c { sel = no_selection } };
    }) =
      record {
        cursor = g.cursor;
        selection = (omega (arith, g.cursor.0), omega arith);
        anchor = g.anchor;
        rows = g.rows;
      } in
    if_either Q (not lp.pressed) g (if_either Q (same_cursor c.cur lp.anchor_at) cleared cleared)

All-replicate : (m n i : ℕ) → i < m → All (λ raw. raw < m) (replicate n i)
All-replicate m zero i h = tt
All-replicate m (suc n) i h = (h, All-replicate m n i h)

row_map-All : (pieces : ℕ → ℕ) (i n m : ℕ) → i + n ≤ m → All (λ raw. raw < m) (row_map pieces i n)
unfolding row_map
row_map-All pieces i zero m h = tt
row_map-All pieces i (suc n) m h =
    All-append (λ raw. raw < m) (replicate (pieces i) i) (row_map pieces (i + 1) n)
      (All-replicate m (pieces i) i (omega arith)) (row_map-All pieces (i + 1) n m (omega arith))

module _ (pieces : MousePanel → ℕ → ℕ) where
  paint_matches-IsIn : (lp : MousePanel) → IsIn lp → IsIn (paint_matches pieces lp)
  unfolding paint_matches
  paint_matches-IsIn lp g = record {
    cursor = g.cursor;
    selection = g.selection;
    anchor = g.anchor;
    rows =
        let n : ℕ = length lp.panel.copy.lines in
        if_either (All (λ raw. raw < n)) (n == 0) g.rows
          (row_map-All (pieces lp) 0 n n (omega arith));
  }

  painted_if-IsIn :
      (b : Bool) (r : Option (List ℕ) × MousePanel) → IsIn r.1 → IsIn (painted_if pieces b r).1
  unfolding painted_if
  painted_if-IsIn true r g = paint_matches-IsIn r.1 g
  painted_if-IsIn false r g = g

  handle_action-IsIn :
      (lp : MousePanel) (msg : MouseMsg) (a : Action)
      → IsIn lp
      → IsIn (handle_action pieces lp msg a).1
  unfolding handle_action
  handle_action-IsIn lp msg press g =
      if_either (λ (r : Option (List ℕ) × MousePanel). IsIn r.1) (is_left msg.button)
        (painted_if-IsIn (is_some (mouse_to_cursor lp msg.x msg.y))
          (none, on_press lp (mouse_to_cursor lp msg.x msg.y))
          (on_press-IsIn lp msg.x msg.y g (mouse_to_cursor lp msg.x msg.y) refl))
        g
  handle_action-IsIn lp msg motion g =
      if_either (λ (r : Option (List ℕ) × MousePanel). IsIn r.1) (is_left msg.button && lp.pressed)
        (painted_if-IsIn true
          (
            none,
            with_copy lp (record lp.panel.copy {
              cur = or_clamped (clamp_to_pane lp msg.x msg.y) (mouse_to_cursor lp msg.x msg.y);
            }),
          )
          (record {
            cursor = dragged-InBuffer lp g msg.x msg.y;
            selection = g.selection;
            anchor = g.anchor;
            rows = g.rows;
          }))
        g
  handle_action-IsIn lp msg release g =
      painted_if-IsIn lp.pressed (release_drag lp) (release_drag-IsIn lp g)

  handle_mouse-IsIn :
      (lp : MousePanel) (msg : MouseMsg) → IsIn lp → IsIn (handle_mouse pieces lp msg).1
  unfolding handle_mouse
  handle_mouse-IsIn lp msg g =
      if_either (λ (r : Option (List ℕ) × MousePanel). IsIn r.1) (is_wheel msg.button)
        (scroll_mouse-IsIn lp msg g) (handle_action-IsIn lp msg msg.action g)

  unfoldable pub handle_all : MousePanel → List MouseMsg → MousePanel
  handle_all lp [] = lp
  handle_all lp (msg ∷ msgs) = handle_all (handle_mouse pieces lp msg).1 msgs

  -- Wherever the mouse is pressed, moved, released and its wheel turned, within the panel and without, the cursor and
  -- both ends of the selection stay in the buffer, and the lines of the row map are lines of it, however painting
  -- wraps the lines with the cursor and the selection of the time. They were so before.
  pub handle_all-IsIn :
      (lp : MousePanel) (msgs : List MouseMsg) → IsIn lp → IsIn (handle_all lp msgs)
  unfolding handle_all
  handle_all-IsIn lp [] g = g
  handle_all-IsIn lp (msg ∷ msgs) g =
      handle_all-IsIn (handle_mouse pieces lp msg).1 msgs (handle_mouse-IsIn lp msg g)
