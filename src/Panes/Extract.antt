-- ===== src/Panes/Extract.antt =====
-- internal/tui/panes/logpanel_motion.go: the text that the yank operator takes from a range.
-- A slice s[a:b] is `drop a (take b s)`; the source clamps a ≤ b ≤ len(s) before it slices.
mod Tests
use randomshitgo_go.Prelude.{
  ℕ, zero, suc, ◌+◌, ◌-◌, ◌≤◌, ◌<◌, min, max, List, [], ◌∷◌, ◌++◌, Bool, true, false, ◌&&◌, ◌||◌,
  ◌≡◌, ◌≢◌, refl, sym, ap, ap₂, ◌∙◌, inl, inr, arith, ltb, leb, ltb→lt, ◌==◌, if◌then◌else◌, length,
  get_or, take, drop, drop-cons, Bool-cases, append_assoc,
}
use randomshitgo_go.Panes.Cursor.{Cursor, MotionRange, at_pos, stripped_line, line_len, InBuffer}

-- `strings.Join(parts, "\n")`
unfoldable pub join_lines : List (List ℕ) → List ℕ
join_lines [] = []
join_lines (s ∷ []) = s
join_lines (s ∷ t ∷ rest) = s ++ 0x0a ∷ join_lines (t ∷ rest)

-- `for i := from; …; i++ { parts = append(parts, strippedLine(lp, i)) }`, n rounds.
pub lines_from : List (List ℕ) → ℕ → ℕ → List (List ℕ)
lines_from lines from zero = []
lines_from lines from (suc n) = stripped_line lines from ∷ lines_from lines (from + 1) n

-- The earlier cursor first, in line-major order.
unfoldable pub normalise_char_range : Cursor → Cursor → Cursor × Cursor
normalise_char_range a b =
    if ltb a.line b.line || (a.line == b.line && leb a.col b.col) then (a, b) else (b, a)

unfoldable pub slice_char : List (List ℕ) → ℕ → ℕ → ℕ → ℕ → List ℕ
slice_char lines sl sc el ec =
    if sl == el
    then (let s = stripped_line lines sl in
        let stop = min ec (length s) in drop (min sc stop) (take stop s))
    else (let first = stripped_line lines sl in
        let last = stripped_line lines el in
        join_lines (
          drop (min sc (length first)) first ∷ lines_from lines (sl + 1) (el - (sl + 1))
          ++ take (min ec (length last)) last ∷ []))

-- The source's bounds on a range of lines: swapped into order and cut at the last line.
unfoldable pub extract_lines : List (List ℕ) → ℕ → ℕ → List ℕ
extract_lines lines a b =
    let sl = min a b in
    let el = if leb (length lines) (max a b) then length lines - 1 else max a b in
    join_lines (lines_from lines sl (el + 1 - sl))

unfoldable pub extract_range : List (List ℕ) → MotionRange → List ℕ
unfolding extract_lines normalise_char_range slice_char
extract_range lines r =
    if r.linewise
    then extract_lines lines r.start.line r.end.line
    else (let (a, b) = normalise_char_range r.start r.end in
        slice_char lines a.line a.col b.line (if r.inclusive then b.col + 1 else b.col))

-- The range of `yy` and `Y`: `count` lines from `start` on.
unfoldable pub line_range : ℕ → ℕ → ℕ → MotionRange
line_range start count total =
    let n = if ltb count 1 then 1 else count in
    let end = if leb total (start + n - 1) then total - 1 else start + n - 1 in
    record { start = at_pos start 0; end = at_pos end 0; linewise = true; inclusive = false }

lines_from-take :
    (lines : List (List ℕ)) (from n : ℕ)
    → from + n ≤ length lines
    → lines_from lines from n ≡ take n (drop from lines)
unfolding lines_from
lines_from-take lines from zero h = refl
lines_from-take lines from (suc n) h =
    ap (λ t. stripped_line lines from ∷ t)
      (lines_from-take lines (from + 1) n (omega arith)
        ∙ ap (λ i. take n (drop i lines)) {y = suc from} (omega arith))
    ∙ sym (ap (take (suc n)) (drop-cons from lines [] (omega arith)))

-- `yy` with a count of at least one takes that many whole lines from the cursor's line on, or all
-- that are left.
pub extract-line_range :
    (lines : List (List ℕ)) (start count : ℕ)
    → start < length lines
    → 0 < count
    → extract_range lines (line_range start count (length lines))
      ≡ join_lines (take (min count (length lines - start)) (drop start lines))
unfolding extract_range line_range
extract-line_range lines start count h some_count = ap join_lines (
    ap₂ (lines_from lines) {y = start} {v = min count (length lines - start)} (ground arith)
      (ground arith)
    ∙ lines_from-take lines start (min count (length lines - start)) (omega arith))
