-- ===== src/Panes/TextObject.antt =====
-- internal/tui/panes/logpanel_textobjects.go: the text objects of `yi{char}` and `ya{char}`.
-- A result is the half-open range [sCol, eCol), or `none` for ok = false. A column below 0 does not
-- occur.
pub mod Ends
use randomshitgo_go.Prelude.{
  ℕ, zero, suc, ◌+◌, ◌-◌, ◌<◌, if_either, List, [], ◌∷◌, ◌++◌, Option, none, some, Bool, true,
  false, not, ◌&&◌, ◌||◌, ltb, leb, ◌==◌, if◌then◌else◌, length, get_or, drop,
}
use randomshitgo_go.Panes.Cursor.{Cursor, MotionRange, at_pos, stripped_line, EndsOn}
use randomshitgo_go.Panes.Words.{
  ClassFn, is_word, is_big_word, is_blank, class_of, run_length, same_class, run_left,
}

abbrev pub Span : Type 0
Span = ℕ × ℕ

-- From `col` on white space.
pub blank_object : List ℕ → ℕ → Bool → Span
blank_object line col around =
    let s = run_left is_blank line col in
    let end = col + run_length is_blank (drop (col + 1) line) + 1 in
    if around then (s, end + run_length is_big_word (drop end line)) else (s, end)

-- From `col` on a byte of class `k`.
pub run_object : ClassFn → ℕ → List ℕ → ℕ → Bool → Span
run_object cls k line col around =
    let s = run_left (same_class cls k) line col in
    let end = col + run_length (same_class cls k) (drop (col + 1) line) + 1 in
    let trailing = run_length is_blank (drop end line) in
    if around
    then if trailing == 0 then (run_left is_blank line s, end) else (s, end + trailing)
    else (s, end)

pub tobj_word_like : List ℕ → ℕ → ClassFn → Bool → Option Span
tobj_word_like [] col cls around = none
tobj_word_like (b ∷ rest) col cls around =
    let line = b ∷ rest in
    let at = if leb (length line) col then length line - 1 else col in
    let k = class_of (get_or line at 0) cls in
    if k == 0 then some (blank_object line at around) else some (run_object cls k line at around)

-- The indices from `i` on at which `q` stands.
pub positions_of : ℕ → List ℕ → ℕ → List ℕ
positions_of q [] i = []
positions_of q (b ∷ s) i = let rest = positions_of q s (i + 1) in if b == q then i ∷ rest else rest

-- The first of the pairs (0,1), (2,3), … that contains `col`.
pub pair_at : ℕ → List ℕ → Option Span
pair_at col [] = none
pair_at col (o ∷ []) = none
pair_at col (o ∷ c ∷ rest) =
    let later = pair_at col rest in if leb o col && leb col c then some (o, c) else later

quoted_text : List ℕ → Bool → Span → Span
quoted_text line around (o, c) =
    if around then (o, c + 1 + run_length is_blank (drop (c + 1) line)) else (o + 1, c)

first_pair : ℕ → Bool → List ℕ → Option Span
first_pair col around [] = none
first_pair col around (o ∷ []) = none
first_pair col around (o ∷ c ∷ rest) =
    if ltb col o then if around then some (o, c + 1) else some (o + 1, c) else none

pub tobj_quote : List ℕ → ℕ → ℕ → Bool → Option Span
unfolding quoted_text first_pair
tobj_quote line col q around =
    let positions = positions_of q line 0 in
    elim (pair_at col positions) [
      | none ↦ first_pair col around positions
      | some p ↦ some (quoted_text line around p)
    ]

-- A close byte at `i` makes a pair with the open index on top of the stack, if there is one.
pub close_pair : ℕ → List ℕ → List Span → List ℕ × List Span
close_pair i [] pairs = ([], pairs)
close_pair i (top ∷ stack) pairs = (stack, pairs ++ (top, i) ∷ [])

-- One round of the scan, at the byte `b` with index `i`.
pub scan_byte : ℕ → ℕ → ℕ → ℕ → List ℕ → List Span → List ℕ × List Span
unfolding close_pair
scan_byte open_ch close_ch b i stack pairs =
    if b == open_ch
    then if open_ch == close_ch then (stack, pairs) else (i ∷ stack, pairs)
    else if b == close_ch
    then close_pair i stack pairs
    else (stack, pairs)

-- The rounds from index `i` on: the stack of open indices, its top first, and the pairs so far.
pub scan_pairs : ℕ → ℕ → List ℕ → ℕ → List ℕ → List Span → List Span
unfolding scan_byte
scan_pairs open_ch close_ch [] i stack pairs = pairs
scan_pairs open_ch close_ch (b ∷ s) i stack pairs =
    let (stack', pairs') = scan_byte open_ch close_ch b i stack pairs in
    scan_pairs open_ch close_ch s (i + 1) stack' pairs'

-- The loop over the pairs, with the best so far.
pub best_pair : ℕ → List Span → Option Span → Option Span
best_pair col [] best = best
best_pair col ((o, c) ∷ pairs) none =
    best_pair col pairs (if leb o col && leb col c then some (o, c) else none)
best_pair col ((o, c) ∷ pairs) (some (p, q)) =
    best_pair col pairs
      (if leb o col && leb col c && leb p o && leb c q then some (o, c) else some (p, q))

pub tobj_bracket : List ℕ → ℕ → ℕ → ℕ → Bool → Option Span
tobj_bracket line col open_ch close_ch around =
    elim (best_pair col (scan_pairs open_ch close_ch line 0 [] []) none) [
      | none ↦ none
      | some (o, c) ↦ if around then some (o, c + 1) else some (o + 1, c)
    ]

-- The switch over the object's character.
pub span_of : List ℕ → ℕ → ℕ → Bool → Option Span
span_of line col ch around =
    if ch == b'w'
    then tobj_word_like line col is_word around
    else if ch == b'W'
    then tobj_word_like line col is_big_word around
    else if ch == 0x22 || ch == 0x27 || ch == 0x60
    then tobj_quote line col ch around
    else if ch == b'(' || ch == b')' || ch == b'b'
    then tobj_bracket line col b'(' b')' around
    else if ch == b'[' || ch == b']'
    then tobj_bracket line col b'[' b']' around
    else if ch == b'{' || ch == b'}' || ch == b'B'
    then tobj_bracket line col b'{' b'}' around
    else if ch == b'<' || ch == b'>'
    then tobj_bracket line col b'<' b'>' around
    else none

abbrev span_range : Cursor → Option Span → Option MotionRange
span_range at none = none
span_range at (some (s, e)) =
    if leb e s
    then none
    else some (record {
      start = at_pos at.line s;
      end = at_pos at.line e;
      linewise = false;
      inclusive = false;
    })

pub range_text_object : List (List ℕ) → Cursor → ℕ → Bool → Option MotionRange
range_text_object lines at ch around =
    span_range at (span_of (stripped_line lines at.line) at.col ch around)

span_range-EndsOn :
    (lines : List (List ℕ)) (at : Cursor) (o : Option Span)
    → at.line < length lines
    → EndsOn lines (span_range at o)
span_range-EndsOn lines at none h = tt
span_range-EndsOn lines at (some (s, e)) h = if_either (EndsOn lines) (leb e s) tt h

-- A text object lies on the cursor's line.
pub range_text_object-EndsOn :
    (lines : List (List ℕ)) (at : Cursor) (ch : ℕ) (around : Bool)
    → at.line < length lines
    → EndsOn lines (range_text_object lines at ch around)
unfolding range_text_object
range_text_object-EndsOn lines at ch around h =
    span_range-EndsOn lines at (span_of (stripped_line lines at.line) at.col ch around) h
