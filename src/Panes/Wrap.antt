-- ===== src/Panes/Wrap.antt =====
-- internal/tui/panes/logpanel_wrap.go: wrapping a line into rows. Lines are bytes. `seqs` are the places of the
-- escape sequences that the regular expression `ansiSeqRe` finds, as pairs of begin and end; the engine is not
-- code of the repository. What a row's builder was given, byte by byte and sequence by sequence, is kept as a list
-- of pieces, whose bytes `flatten` joins.
pub mod Plain
pub mod Walk
pub mod Blank
mod Tests
use randomshitgo_go.Prelude.{
  ℕ, zero, suc, ◌+◌, ◌-◌, List, [], ◌∷◌, ◌++◌, Bool, true, false, not, ◌&&◌, ◌||◌, if◌then◌else◌,
  length, ltb, leb, ◌==◌, get_or, take, drop, map,
}

pub data Piece : Type 0 where
  seq : List ℕ → Piece
  byte : ℕ → Piece

abbrev pub flatten : List Piece → List ℕ
flatten [] = []
flatten (seq q ∷ ps) = q ++ flatten ps
flatten (byte b ∷ ps) = b ∷ flatten ps

abbrev pub has_esc : List ℕ → Bool
has_esc [] = false
has_esc (b ∷ bs) = b == 0x1b || has_esc bs

-- The loop of the fast path; as many rounds as there are bytes are enough.
unfoldable pub chunks : ℕ → ℕ → List ℕ → List (List ℕ)
chunks zero width line = []
chunks (suc fuel) width [] = []
chunks (suc fuel) width (b ∷ bs) = take width (b ∷ bs) ∷ chunks fuel width (drop width (b ∷ bs))

-- `visibleColumnsWithSeqs`
pub visible_columns : ℕ → List (ℕ × ℕ) → ℕ
visible_columns cols [] = cols
visible_columns cols (loc ∷ seqs) = visible_columns (cols - (loc.1 - loc.0)) seqs

abbrev pub is_sgr : List ℕ → Bool
is_sgr q =
    leb 3 (length q)
    && get_or q 0 0 == 0x1b
    && get_or q 1 0 == b'['
    && get_or q (length q - 1) 0 == b'm'

abbrev pub is_empty_or_zero : List ℕ → Bool
is_empty_or_zero [] = true
is_empty_or_zero (b ∷ []) = b == b'0'
is_empty_or_zero (b ∷ c ∷ bs) = false

abbrev pub is_sgr_reset : List ℕ → Bool
is_sgr_reset q = is_sgr q && is_empty_or_zero (take (length q - 3) (drop 2 q))

-- The variables of the walk.
pub record Rows : Type 0 where
  pub out : List (List Piece)
  pub row : List Piece
  pub active_sgr : List Piece
  pub visible : ℕ

abbrev pub reset : List ℕ
reset = 0x1b ∷ b'[' ∷ b'0' ∷ b'm' ∷ []

abbrev pub is_empty : List Piece → Bool
is_empty ps = length (flatten ps) == 0

pub flush_row : Rows → Rows
flush_row s = if is_empty s.row then s else record s {
  out = s.out ++ (if is_empty s.active_sgr then s.row else s.row ++ seq reset ∷ []) ∷ [];
  row = if is_empty s.active_sgr then [] else s.active_sgr;
  visible = 0;
}

pub put_byte : ℕ → ℕ → Rows → Rows
unfolding flush_row
put_byte width b s =
    let s' = record s { row = s.row ++ byte b ∷ []; visible = s.visible + 1 } in
    if leb width s'.visible then flush_row s' else s'

pub put_seq : List ℕ → Rows → Rows
put_seq q s = record s {
  row = s.row ++ seq q ∷ [];
  active_sgr =
      if is_sgr q
      then (if is_sgr_reset q then [] else s.active_sgr ++ seq q ∷ [])
      else s.active_sgr;
}

-- The walk from index i on, where `rest` begins; as many rounds as there are bytes are enough.
pub walk : ℕ → ℕ → ℕ → List ℕ → List (ℕ × ℕ) → Rows → Rows
unfolding put_byte put_seq
walk zero width i rest seqs s = s
walk (suc fuel) width i [] seqs s = s
walk (suc fuel) width i (b ∷ rest) [] s = walk fuel width (i + 1) rest [] (put_byte width b s)
walk (suc fuel) width i (b ∷ rest) (loc ∷ seqs) s = elim (loc.0 == i) [
  | true ↦
      walk fuel width loc.1 (drop (loc.1 - i) (b ∷ rest)) seqs
        (put_seq (take (loc.1 - i) (b ∷ rest)) s)
  | false ↦ walk fuel width (i + 1) rest (loc ∷ seqs) (put_byte width b s)
]

abbrev pub start : Rows
start = record { out = []; row = []; active_sgr = []; visible = 0 }

-- The rows of a line with escape sequences that does not fit.
pub wrap_rows : ℕ → List ℕ → List (ℕ × ℕ) → List (List Piece)
unfolding walk flush_row
wrap_rows width line seqs = (flush_row (walk (length line) width 0 line seqs start)).out

abbrev pub or_line : List ℕ → List (List ℕ) → List (List ℕ)
or_line line [] = line ∷ []
or_line line (r ∷ rs) = r ∷ rs

-- A width that is 0 stands for one that is 0 or less.
unfoldable pub wrap_line : (List ℕ → List (ℕ × ℕ)) → List ℕ → ℕ → List (List ℕ)
unfolding chunks visible_columns wrap_rows
wrap_line find line width =
    if width == 0
    then line ∷ []
    else if not (has_esc line)
    then (if leb (length line) width then line ∷ [] else chunks (length line) width line)
    else if leb (visible_columns (length line) (find line)) width
    then line ∷ []
    else or_line line (map flatten (wrap_rows width line (find line)))
