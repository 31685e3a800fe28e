-- ===== src/Panes/Matches/Jumps.antt =====
-- internal/tui/panes/logpanel.go: where the jumps between matches lead, and where the thumb of the scroll
-- indicator stands.
use randomshitgo_go.Prelude.{
  ℕ, zero, suc, ◌+◌, ◌-◌, ◌*◌, ◌/◌, ◌≤◌, ◌<◌, min, List, [], ◌∷◌, some, Bool, true, false, ◌&&◌,
  ◌≡◌, refl, sym, ap, ◌∙◌, inl, inr, arith, if◌then◌else◌, if_either, length, get_or, leb, leb→le,
  ltb, ◌==◌, Bool-cases, Option-cases,
}
use randomshitgo_go.Panes.CopyMode.{set_y_offset}
use randomshitgo_go.Panes.Matches.{
  Matches, next_match, prev_match, jump_to, jump_next_match, jump_prev_match, scroll_to_match,
  thumb_size, thumb_start, cells, Cell, rail, blank, thumb_cell, scrollbar_column,
}

scroll_to_match-keeps :
    (lp : Matches)
    → ((scroll_to_match lp).match_cur ≡ lp.match_cur)
      × ((scroll_to_match lp).match_lines ≡ lp.match_lines)
unfolding scroll_to_match
scroll_to_match-keeps lp = elim (Option-cases lp.match_cur) [
  | inl e ↦ rw (scroll_to_match, e) (e, refl)
  | inr (k, e) ↦
      rw (scroll_to_match, e)
        (if_either (λ (q : Matches). (q.match_cur ≡ some k) × (q.match_lines ≡ lp.match_lines))
          (leb (length lp.match_lines) k) (e, refl) (e, refl))
]

-- The counters alone: one match on and one back.
prev-next :
    (n k : ℕ)
    → k < n
    → prev_match (some (next_match (some k) n).0) n ≡ (k, (next_match (some k) n).1)
prev-next n k h = elim (Bool-cases (leb n (k + 1))) [
  | inl e ↦ rw e (ap (λ t. (t, true)) (omega (arith, leb→le n (k + 1) e, h)))
  | inr e ↦ rw e (ap (λ t. prev_match (some t) n) {x = k + 1} {y = suc k} (omega arith))
]

jump_next-eq :
    (lp : Matches)
    → (length lp.match_lines == 0) ≡ false
    → jump_next_match lp ≡ jump_to lp (next_match lp.match_cur (length lp.match_lines))
unfolding jump_next_match
jump_next-eq lp h = rw (jump_next_match, h) refl

jump_prev-eq :
    (lp : Matches)
    → (length lp.match_lines == 0) ≡ false
    → jump_prev_match lp ≡ jump_to lp (prev_match lp.match_cur (length lp.match_lines))
unfolding jump_prev_match
jump_prev-eq lp h = rw (jump_prev_match, h) refl

-- A panel that has chosen a match, and one of as many.
jump_to-fields :
    (lp : Matches) (p : ℕ × Bool)
    → ((jump_to lp p).1.match_cur ≡ some p.0) × ((jump_to lp p).1.match_lines ≡ lp.match_lines)
jump_to-fields lp (k, wrapped) = scroll_to_match-keeps (record lp { match_cur = some k })

-- The jump back undoes the jump on, and goes round exactly when that did: the same match is chosen again. The
-- panel had chosen the match k.
pub jump_prev-jump_next :
    (lp : Matches) (k : ℕ)
    → lp.match_cur ≡ some k
    → k < length lp.match_lines
    → ((jump_prev_match (jump_next_match lp).1).1.match_cur ≡ some k)
      × ((jump_prev_match (jump_next_match lp).1).0 ≡ (jump_next_match lp).0)
jump_prev-jump_next lp k e h =
    let n = length lp.match_lines in
    let some_match : (n == 0) ≡ false = ground (arith, h) in
    let p : ℕ × Bool = next_match (some k) n in
    let q : Matches = (jump_to lp p).1 in
    let (chosen, same) = jump_to-fields lp p in
    let on : jump_next_match lp ≡ jump_to lp p =
      jump_next-eq lp some_match ∙ ap (λ c. jump_to lp (next_match c n)) e in
    let back : jump_prev_match q ≡ jump_to q (k, p.1) =
      jump_prev-eq q (rw same some_match) ∙ ap (jump_to q) (rw (chosen, same) (prev-next n k h)) in
    let both : jump_prev_match (jump_next_match lp).1 ≡ jump_to q (k, p.1) =
      ap (λ t. jump_prev_match t.1) on ∙ back in
    (
      ap (λ t. t.1.match_cur) both ∙ (jump_to-fields q (k, p.1)).0,
      ap (λ t. t.0) both ∙ sym (ap (λ t. t.0) on),
    )

-- A jump shows its match: the window's rows hold the match's line, when each line is one row. The panel
-- has a match at the counter, and a window with a row.
pub scroll_to_match-shows :
    (lp : Matches) (k : ℕ)
    → lp.match_cur ≡ some k
    → k < length lp.match_lines
    → get_or lp.match_lines k 0 < lp.rows
    → 0 < lp.height
    → let q = scroll_to_match lp in
      (q.y_offset ≤ get_or lp.match_lines k 0) × (get_or lp.match_lines k 0 < q.y_offset + q.height)
unfolding scroll_to_match set_y_offset
scroll_to_match-shows lp k e h row some_height =
    let inside : leb (length lp.match_lines) k ≡ false = ground (arith, h) in
    rw (scroll_to_match, e, inside)
      (omega (arith, row, some_height), omega (arith, row, some_height))

pub count_thumb : List Cell → ℕ
count_thumb [] = 0
count_thumb (thumb_cell ∷ cs) = suc (count_thumb cs)
count_thumb (rail ∷ cs) = count_thumb cs
count_thumb (blank ∷ cs) = count_thumb cs

length-cells : (start thumb i n : ℕ) → length (cells start thumb i n) ≡ n
unfolding cells
length-cells start thumb i zero = refl
length-cells start thumb i (suc n) = ap suc (length-cells start thumb (i + 1) n)

-- From the thumb's first row on.
count_thumb-within :
    (start thumb i n : ℕ)
    → start ≤ i
    → count_thumb (cells start thumb i n) ≡ min (start + thumb - i) n
unfolding cells count_thumb
count_thumb-within start thumb i zero h = omega arith
count_thumb-within start thumb i (suc n) h =
    let later = count_thumb-within start thumb (i + 1) n (omega (arith, h)) in
    elim (Bool-cases (leb start i && ltb i (start + thumb))) [
      | inl e ↦ rw e (ap suc later ∙ ground (arith, e))
      | inr e ↦ rw e (later ∙ ground (arith, e, h))
    ]

count_thumb-cells :
    (start thumb i n : ℕ)
    → i ≤ start
    → start + thumb ≤ i + n
    → count_thumb (cells start thumb i n) ≡ thumb
unfolding cells count_thumb
count_thumb-cells start thumb i zero lo hi = omega (arith, lo, hi)
count_thumb-cells start thumb i (suc n) lo hi = elim (Bool-cases (ltb i start)) [
  | inl before ↦
      let off : (leb start i && ltb i (start + thumb)) ≡ false = ground (arith, before) in
      rw off (count_thumb-cells start thumb (i + 1) n (ground (arith, before)) (omega (arith, hi)))
  | inr at ↦
      count_thumb-within start thumb i (suc n) (ground (arith, at)) ∙ ground (arith, lo, hi, at)
]

-- Whatever the quotients come to.
clamp_size :
    (h t : ℕ)
    → 0 < h
    → let one = if ltb t 1 then 1 else t in
      (0 < (if ltb h one then h else one)) × ((if ltb h one then h else one) ≤ h)
clamp_size h t some_row = (ground (arith, some_row), ground (arith, some_row))

clamp_first : (room s : ℕ) → (if ltb room s then room else s) ≤ room
clamp_first room s = ground arith

thumb_size-within : (h total : ℕ) → 0 < h → (0 < thumb_size h total) × (thumb_size h total ≤ h)
unfolding thumb_size
thumb_size-within h total some_row = clamp_size h (h * h / total) some_row

thumb_start-within : (h total offset : ℕ) → thumb_start h total offset ≤ h - thumb_size h total
unfolding thumb_start
thumb_start-within h total offset = clamp_first (h - thumb_size h total) _

-- On a buffer with more lines than rows, the indicator has one cell for each row, and its thumb is in it
-- as a whole: at least one cell and at most all, wherever the window stands.
pub scrollbar_column-thumb :
    (h total offset : ℕ)
    → 0 < h
    → h < total
    → (length (scrollbar_column h total offset) ≡ h)
      × (count_thumb (scrollbar_column h total offset) ≡ thumb_size h total)
      × (0 < thumb_size h total)
      × (thumb_size h total ≤ h)
unfolding scrollbar_column
scrollbar_column-thumb h total offset some_row more =
    let long : leb total h ≡ false = ground (arith, more) in
    let (low, high) = thumb_size-within h total some_row in
    let first = thumb_start-within h total offset in
    (
      rw (scrollbar_column, long) (length-cells _ _ 0 h),
      rw (scrollbar_column, long)
          (count_thumb-cells _ _ 0 h (omega arith) (omega (arith, high, first))),
      low,
      high,
    )
