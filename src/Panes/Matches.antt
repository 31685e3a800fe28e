-- ===== src/Panes/Matches.antt =====
-- internal/tui/panes/logpanel.go: the lines that match the filter, the jumps between them, and the
-- scroll indicator. The filter is a test on a line's bytes without escape sequences; `match_cur` is none for -1;
-- the window is its height, offset and number of rows, as numbers. Painting is not modelled.
pub mod Jumps
use randomshitgo_go.Prelude.{
  ℕ, zero, suc, ◌+◌, ◌-◌, ◌*◌, ◌/◌, min, List, [], ◌∷◌, Option, none, some, Bool, true, false, ◌&&◌,
  if◌then◌else◌, length, get_or, leb, ltb, ◌==◌,
}
use randomshitgo_go.Panes.Cursor.{Cursor, at_pos}
use randomshitgo_go.Panes.CopyMode.{set_y_offset, visible_offset}

pub record Matches : Type 0 where
  pub raw_lines : List (List ℕ)
  pub filter : Option (List ℕ → Bool)
  pub match_lines : List ℕ
  pub match_cur : Option ℕ
  pub rows : ℕ
  pub height : ℕ
  pub y_offset : ℕ
  pub sticky : Bool
  pub in_copy : Bool
  pub cur : Cursor

-- The indices of the lines that match, from the i-th line on.
pub match_index : (List ℕ → Bool) → ℕ → List (List ℕ) → List ℕ
match_index test i [] = []
match_index test i (line ∷ lines) =
    let rest = match_index test (i + 1) lines in if test line then i ∷ rest else rest

pub render_content : Matches → Matches
unfolding match_index
render_content lp = record lp {
  match_cur = none;
  match_lines = elim lp.filter [ none ↦ [] | some test ↦ match_index test 0 lp.raw_lines ];
}

pub match_count : Matches → ℕ
match_count lp = length lp.match_lines

-- From 1, or 0 for none.
pub match_cursor : Matches → ℕ
match_cursor lp =
    if length lp.match_lines == 0 then 0 else elim lp.match_cur [ none ↦ 0 | some k ↦ k + 1 ]

pub scroll_to_match : Matches → Matches
unfolding set_y_offset
scroll_to_match lp = elim lp.match_cur [
  | none ↦ lp
  | some k ↦ if leb (length lp.match_lines) k then lp else record lp {
    y_offset = set_y_offset lp.rows lp.height (get_or lp.match_lines k 0 - lp.height / 3);
    sticky = false;
  }
]

abbrev pub next_match : Option ℕ → ℕ → ℕ × Bool
next_match none n = (0, false)
next_match (some k) n = if leb n (k + 1) then (0, true) else (k + 1, false)

abbrev pub prev_match : Option ℕ → ℕ → ℕ × Bool
prev_match none n = (0, false)
prev_match (some zero) n = (n - 1, true)
prev_match (some (suc k)) n = (k, false)

-- Whether there is a match, whether the jump went round, and the panel.
abbrev pub jump_to : Matches → ℕ × Bool → (Bool × Bool) × Matches
jump_to lp (k, wrapped) = ((true, wrapped), scroll_to_match (record lp { match_cur = some k }))

pub jump_next_match : Matches → (Bool × Bool) × Matches
unfolding scroll_to_match
jump_next_match lp =
    if length lp.match_lines == 0
    then ((false, false), lp)
    else jump_to lp (next_match lp.match_cur (length lp.match_lines))

pub jump_prev_match : Matches → (Bool × Bool) × Matches
unfolding scroll_to_match
jump_prev_match lp =
    if length lp.match_lines == 0
    then ((false, false), lp)
    else jump_to lp (prev_match lp.match_cur (length lp.match_lines))

-- The copy-mode cursor on the match; `paint` gives the row map for a cursor.
pub park_cursor : (Cursor → List ℕ) → (Bool × Bool) × Matches → (Bool × Bool) × Matches
unfolding visible_offset
park_cursor paint ((ok, wrapped), lp) = elim lp.match_cur [
  | none ↦ ((ok, wrapped), lp)
  | some k ↦
      if ok && lp.in_copy && ltb k (length lp.match_lines)
      then (let line = get_or lp.match_lines k 0 in
          (
            (ok, wrapped),
            record lp {
              cur = at_pos line 0;
              y_offset = visible_offset (paint (at_pos line 0)) lp.height lp.y_offset line;
            },
          ))
      else ((ok, wrapped), lp)
]

pub jump_next_match_cursor : (Cursor → List ℕ) → Matches → (Bool × Bool) × Matches
unfolding park_cursor jump_next_match
jump_next_match_cursor paint lp = park_cursor paint (jump_next_match lp)

pub jump_prev_match_cursor : (Cursor → List ℕ) → Matches → (Bool × Bool) × Matches
unfolding park_cursor jump_prev_match
jump_prev_match_cursor paint lp = park_cursor paint (jump_prev_match lp)

-- The size of the thumb and its first row, for a track of h rows that is shorter than the buffer.
pub thumb_size : ℕ → ℕ → ℕ
thumb_size h total =
    let thumb = h * h / total in
    let one = if ltb thumb 1 then 1 else thumb in if ltb h one then h else one

pub thumb_start : ℕ → ℕ → ℕ → ℕ
unfolding thumb_size
thumb_start h total offset =
    let thumb = thumb_size h total in
    let denom = if ltb (total - h) 1 then 1 else total - h in
    let start = offset * (h - thumb) / denom in if ltb (h - thumb) start then h - thumb else start

pub data Cell : Type 0 where
  blank : Cell
  rail : Cell
  thumb_cell : Cell

-- The cells from the i-th row on, n of them.
pub cells : ℕ → ℕ → ℕ → ℕ → List Cell
cells start thumb i zero = []
cells start thumb i (suc n) =
    (if leb start i && ltb i (start + thumb) then thumb_cell else rail)
    ∷ cells start thumb (i + 1) n

pub blanks : ℕ → List Cell
blanks zero = []
blanks (suc n) = blank ∷ blanks n

pub scrollbar_column : ℕ → ℕ → ℕ → List Cell
unfolding thumb_size thumb_start cells blanks
scrollbar_column h total offset =
    if leb total h then blanks h else cells (thumb_start h total offset) (thumb_size h total) 0 h
