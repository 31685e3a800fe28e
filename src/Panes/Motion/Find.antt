-- ===== src/Panes/Motion/Find.antt =====
-- internal/tui/panes/logpanel_motion_ranges.go: `rangeFind`, the motions f, F, t and T.
pub mod Targets
use randomshitgo_go.Prelude.{
  ℕ, zero, suc, ◌+◌, ◌-◌, ◌*◌, ◌≤◌, ◌<◌, max, List, [], ◌∷◌, Option, none, some, Bool, true, false,
  ◌≡◌, refl, arith, ltb, leb, ◌==◌, if◌then◌else◌, length, get_or, drop,
}
use randomshitgo_go.Panes.Cursor.{Cursor, MotionRange, at_pos, stripped_line, line_len}

pub record FindState : Type 0 where
  pub ch : ℕ
  pub forward : Bool
  pub till : Bool
  pub active : Bool

-- The forward loop, over the bytes from index `i` on, with `k` matches to go.
unfoldable pub find_forward : ℕ → List ℕ → ℕ → ℕ → Option ℕ → Option ℕ
find_forward ch [] i k found = found
find_forward ch (b ∷ s) i zero found = found
find_forward ch (b ∷ s) i (suc k) found =
    find_forward ch s (i + 1) (if b == ch then k else suc k) (if b == ch then some i else found)

-- The backward loop, from index `i` - 1 down.
unfoldable pub find_backward : ℕ → List ℕ → ℕ → ℕ → Option ℕ → Option ℕ
find_backward ch s zero k found = found
find_backward ch s (suc i) zero found = found
find_backward ch s (suc i) (suc k) found =
    let hit = get_or s i 0 == ch in
    find_backward ch s i (if hit then k else suc k) (if hit then some i else found)

-- One short of the match, for t and T. A match forward lies behind the cursor, so `found - 1` is
-- no negative column.
unfoldable pub find_range : Cursor → FindState → List ℕ → ℕ → Option MotionRange
find_range start f s found =
    let target = if f.till then if f.forward then found - 1 else found + 1 else found in
    if ltb (length s) target
    then none
    else some (record {
      start = start;
      end = at_pos start.line target;
      linewise = false;
      inclusive = f.forward;
    })

-- The index that the loops leave in `found`, `none` for -1.
abbrev pub found_index : List (List ℕ) → Cursor → FindState → ℕ → Option ℕ
found_index lines start f n =
    let s = stripped_line lines start.line in
    if f.forward
    then find_forward f.ch (drop (start.col + 1) s) (start.col + 1) (max 1 n) none
    else find_backward f.ch s start.col (max 1 n) none

unfoldable pub range_find : List (List ℕ) → Cursor → FindState → ℕ → Option MotionRange
range_find lines start f n = elim (found_index lines start f n) [
  | none ↦ none
  | some found ↦ find_range start f (stripped_line lines start.line) found
]
