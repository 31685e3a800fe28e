-- ===== src/Attach/Mouse/Copied.antt =====
-- internal/tui/attach/mouse.go: the text that a selection copies is the text of the cells that it covers.
use randomshitgo_go.Prelude.{
  ℕ, zero, suc, ◌+◌, ◌-◌, ◌≤◌, ◌<◌, List, [], ◌∷◌, ◌++◌, Bool, true, false, ◌&&◌, ◌≡◌, refl, ap,
  ◌∙◌, sym, inl, inr, ◌||◌, arith, Bool-cases, ltb, leb, ◌==◌, min, max, if◌then◌else◌,
}
use randomshitgo_go.Panes.Extract.{join_lines}
use randomshitgo_go.Attach.Mouse.{
  Cell, Selection, Term, glyph, columns, row_from, trim_right, row_text, start_of, stop_of,
  rows_from, selection_text, normalized, between, contains,
}

-- No cell takes two columns.
unfoldable pub IsNarrow : Term → Type 0
IsNarrow t = (x y : ℕ) → columns (t.cell_at x y) ≡ 1

-- The glyphs of n columns of a row from column x, of those that p holds of.
unfoldable pub covered : (ℕ → Bool) → Term → ℕ → ℕ → ℕ → List ℕ
covered p t y x zero = []
covered p t y x (suc n) =
    let rest = covered p t y (x + 1) n in if p x then glyph (t.cell_at x y) ++ rest else rest

-- The glyphs of n columns from column x.
glyphs : Term → ℕ → ℕ → ℕ → List ℕ
glyphs t y x zero = []
glyphs t y x (suc n) = glyph (t.cell_at x y) ++ glyphs t y (x + 1) n

row_from-glyphs :
    (fuel : ℕ) (t : Term) (y x stop : ℕ)
    → IsNarrow t
    → fuel ≡ stop - x
    → row_from fuel t y x stop ≡ glyphs t y x fuel
unfolding row_from glyphs IsNarrow
row_from-glyphs zero t y x stop narrow h = refl
row_from-glyphs (suc fuel) t y x stop narrow h =
    let inside : ltb x stop ≡ true = ground arith in
    rw (inside, narrow x y)
      (ap (λ r. glyph (t.cell_at x y) ++ r)
        (row_from-glyphs fuel t y (x + 1) stop narrow (omega arith)))

glyphs_at : (t : Term) (y a b n m : ℕ) → a ≡ b → n ≡ m → glyphs t y a n ≡ glyphs t y b m
glyphs_at t y a b n m ha hn = rw (ha, hn) refl

glyphs_none : (t : Term) (y a n : ℕ) → n ≡ 0 → glyphs t y a n ≡ []
unfolding glyphs
glyphs_none t y a n h = rw h refl

covered-glyphs :
    (n : ℕ) (p : ℕ → Bool) (t : Term) (y x start stop : ℕ)
    → ((k : ℕ) → x ≤ k → k < x + n → p k ≡ (leb start k && ltb k stop))
    → covered p t y x n ≡ glyphs t y (max start x) (min stop (x + n) - max start x)
unfolding covered glyphs
covered-glyphs zero p t y x start stop h =
    let nothing : 0 ≡ min stop (x + 0) - max start x = omega arith in
    glyphs_at t y (max start x) (max start x) 0 (min stop (x + 0) - max start x) refl nothing
covered-glyphs (suc n) p t y x start stop h =
    let rest =
      covered-glyphs n p t y (x + 1) start stop
        (λ k above below. h k (omega arith) (omega arith)) in
    let here = h x (omega arith) (omega arith) in
    elim (Bool-cases (ltb x start)) [
      | inl before ↦
          let skipped : p x ≡ false = here ∙ ground (arith, before) in
          rw skipped
            (rest ∙ glyphs_at t y _ _ _ _ (ground (arith, before)) (ground (arith, before)))
      | inr from ↦ elim (Bool-cases (ltb x stop)) [
        | inl inside ↦
            let taken : p x ≡ true = here ∙ ground (arith, from, inside) in
            rw (taken, rest)
              (ap (λ r. glyph (t.cell_at x y) ++ r)
                  (glyphs_at t y _ (x + 1) _ (min stop (x + suc n) - (x + 1)) (ground (arith, from))
                    (ground (arith, from)))
                ∙ glyphs_at t y x (max start x) (suc (min stop (x + suc n) - (x + 1))) _
                    (ground (arith, from)) (ground (arith, from, inside)))
        | inr behind ↦
            let skipped : p x ≡ false = here ∙ ground (arith, from, behind) in
            rw skipped (
              rest
              ∙ glyphs_none t y _ _ (ground (arith, behind))
              ∙ sym (glyphs_none t y _ _ (ground (arith, behind))))
      ]
    ]

-- Between two cells in reading order the columns of a row in their range are those from where the copied text of
-- the row starts to where it stops.
between-row :
    (lo hi : Cell) (w x y : ℕ)
    → lo.y ≤ y
    → y ≤ hi.y
    → x < w
    → between lo hi x y ≡ (leb (start_of lo y) x && ltb x (if y == hi.y then hi.x + 1 else w))
unfolding between
between-row lo hi w x y low high inside = ground arith

row_text-covered :
    (t : Term) (lo hi : Cell) (y : ℕ)
    → IsNarrow t
    → lo.x < t.width
    → hi.x < t.width
    → lo.y ≤ y
    → y ≤ hi.y
    → row_text t y (start_of lo y) (stop_of t hi y)
      ≡ trim_right (covered (λ x. between lo hi x y) t y 0 t.width)
unfolding row_text
row_text-covered t lo hi y narrow lo_in hi_in low high =
    let start = start_of lo y in
    let stop = stop_of t hi y in
    let stop_in : stop ≤ t.width = ground arith in
    ap trim_right (
      row_from-glyphs (stop - start) t y start stop narrow refl
      ∙ glyphs_at t y start (max start 0) (stop - start) (min stop (0 + t.width) - max start 0)
          (omega arith) (omega arith)
      ∙ sym (
          covered-glyphs t.width (λ x. between lo hi x y) t y 0 start stop
            (λ x above below. between-row lo hi t.width x y low high (omega arith))))

rows_from-eq :
    (n : ℕ) (f g : ℕ → List ℕ) (y : ℕ)
    → ((k : ℕ) → y ≤ k → k < y + n → f k ≡ g k)
    → rows_from f y n ≡ rows_from g y n
unfolding rows_from
rows_from-eq zero f g y h = refl
rows_from-eq (suc n) f g y h = rw (h y (omega arith) (omega arith)) (
    ap (λ r. g y ∷ r)
      (rows_from-eq n f g (y + 1) (λ k above below. h k (omega arith) (omega arith))))

normalized-within :
    (s : Selection) (w : ℕ)
    → s.anchor.x < w
    → s.cursor.x < w
    → ((normalized s).0.x < w) × ((normalized s).1.x < w)
unfolding normalized
normalized-within s w a c =
    elim (Bool-cases
      (ltb s.anchor.y s.cursor.y || (s.anchor.y == s.cursor.y && leb s.anchor.x s.cursor.x))) [
        | inl h ↦ rw h (a, c)
        | inr h ↦ rw h (c, a)
      ]

-- On a screen without cells of two columns, a selection within its columns copies, for each row from its first to its
-- last, the text of exactly the cells that it is shown to contain, less the spaces at the row's end, with the
-- rows joined by line feeds; whichever way it was dragged.
pub selection_text-contains :
    (t : Term) (s : Selection)
    → IsNarrow t
    → s.active ≡ true
    → s.anchor.x < t.width
    → s.cursor.x < t.width
    → let (lo, hi) = normalized s in
      selection_text t s
      ≡ join_lines (
          rows_from
            (λ y. trim_right (covered (λ x. contains s x y) t y 0 t.width))
            lo.y
            (hi.y + 1 - lo.y))
unfolding selection_text contains
selection_text-contains t s narrow on anchor_in cursor_in =
    let (lo, hi) = normalized s in
    let (lo_in, hi_in) = normalized-within s t.width anchor_in cursor_in in
    rw on (
      ap join_lines (
        rows_from-eq (hi.y + 1 - lo.y) _ _ lo.y
          (λ y above below. row_text-covered t lo hi y narrow lo_in hi_in above (omega arith))))
