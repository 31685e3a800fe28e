-- ===== src/Panes/Mouse/Cell.antt =====
-- internal/tui/panes/logpanel_mouse.go and logpanel_wrap.go: the byte under the mouse.
use randomshitgo_go.Prelude.{
  ℕ, ◌+◌, ◌*◌, ◌<◌, List, [], true, false, ◌≡◌, ap, sym, ◌∙◌, arith, length, get_or,
}
use randomshitgo_go.Panes.Cursor.{stripped_line}
use randomshitgo_go.Panes.Wrap.{has_esc, wrap_line}
use randomshitgo_go.Panes.Wrap.Plain.{wrap_line-get}
use randomshitgo_go.Panes.Mouse.{MousePanel, wrap_piece, content_width, col_for_rendered_row}

content_width_pos : (lp : MousePanel) → 0 < content_width lp
content_width_pos lp = omega arith

column-eq :
    (lp : MousePanel) (row x : ℕ)
    → let raw : ℕ = get_or lp.row_to_raw row 0 in
      let col : ℕ = wrap_piece lp.row_to_raw raw row * content_width lp + x in
      lp.wrap_on ≡ true
      → row < length lp.row_to_raw
      → raw < length lp.panel.copy.lines
      → col < length (stripped_line lp.panel.copy.lines raw)
      → col_for_rendered_row lp row x ≡ col
unfolding col_for_rendered_row
column-eq lp row x on r l c = rw on (ground (arith, r, l, c))

-- With wrapping on, the column of a click is that of the byte that is shown there: of a line without escape sequences that
-- is wrapped at the content's width, the row that was clicked is the piece counted back in the row map, and its x-th byte,
-- if it has one, is the line's at the column.
pub col_for_rendered_row-hits :
    (lp : MousePanel) (find : List ℕ → List (ℕ × ℕ)) (row x : ℕ)
    → let raw : ℕ = get_or lp.row_to_raw row 0 in
      let line : List ℕ = stripped_line lp.panel.copy.lines raw in
      let shown : List ℕ =
        get_or (wrap_line find line (content_width lp)) (wrap_piece lp.row_to_raw raw row) [] in
      lp.wrap_on ≡ true
      → row < length lp.row_to_raw
      → raw < length lp.panel.copy.lines
      → has_esc line ≡ false
      → x < length shown
      → get_or line (col_for_rendered_row lp row x) 0 ≡ get_or shown x 0
col_for_rendered_row-hits lp find row x on r l plain s =
    let raw : ℕ = get_or lp.row_to_raw row 0 in
    let line : List ℕ = stripped_line lp.panel.copy.lines raw in
    let piece : ℕ = wrap_piece lp.row_to_raw raw row in
    let wide : 0 < content_width lp = content_width_pos lp in
    let (inside, same) = wrap_line-get find line (content_width lp) piece x wide plain s in
    ap (λ (k : ℕ). get_or line k 0) (column-eq lp row x on r l inside) ∙ sym same
