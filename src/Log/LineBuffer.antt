-- ===== src/Log/LineBuffer.antt =====
-- internal/log/linebuffer.go: `LineBuffer`, which splits a byte stream into lines.
-- `Feed` walks the indices lineStart ≤ i of `combined`. Here `pending` is combined[lineStart:i] and
-- the list that `scan` recurs on is combined[i:]; offsets count from lineStart. `now` is the clock's
-- answer, an argument. `MaxLineSize` is a positive number, as `NewLineBuffer` makes it.
pub mod Rounds
pub mod Bounds
pub mod Chunks
pub mod Content
mod Tests
use Prim.Native.Nat.{bit_and}
use randomshitgo_go.Prelude.{
  ℕ, zero, suc, ◌+◌, ◌-◌, ◌*◌, List, [], ◌∷◌, ◌++◌, Option, none, some, Bool, true, false, not, ltb,
  leb, ◌==◌, if◌then◌else◌, length, get_elem?, take, drop,
}
use randomshitgo_go.Prelude.Int.{ℤ, pos, ltb_ℤ, pos_part}
use randomshitgo_go.Log.Line.{Line}

abbrev pub lf : ℕ
lf = 0x0a

abbrev pub cr : ℕ
cr = 0x0d

abbrev pub default_max_line_size : ℕ
default_max_line_size = 64 * 1024

pub record LineBuffer : Type 0 where
  pub buf : List ℕ
  pub max_line_size : ℕ

pub new_line_buffer : ℤ → LineBuffer
new_line_buffer max_line_size = record {
  buf = [];
  max_line_size =
      if ltb_ℤ (pos 0) max_line_size then pos_part max_line_size else default_max_line_size;
}

-- `(b & 0xC0) == 0x80`
pub is_continuation : ℕ → Bool
is_continuation b = bit_and b 0xC0 == 0x80

-- The loop of `safeSplitOffset`, with the rounds left.
pub backtrack : List ℕ → ℕ → ℕ → ℕ → ℕ
backtrack buf floor zero off = off
backtrack buf floor (suc n) off =
    let back = backtrack buf floor n (off - 1) in
    if ltb floor off
    then elim (get_elem? buf off) [ none ↦ off | some b ↦ if is_continuation b then back else off ]
    else off

pub safe_split_offset : List ℕ → ℕ → ℕ → ℕ
safe_split_offset buf limit floor =
    let off = backtrack buf floor 3 limit in if off == floor then limit else off

abbrev pub whole_line : ℕ → List ℕ → Line
whole_line now bytes = record { bytes = bytes; rendered = []; is_partial = false; timestamp = now }

abbrev pub partial_line : ℕ → List ℕ → Line
partial_line now bytes = record { bytes = bytes; rendered = []; is_partial = true; timestamp = now }

module _ (max_size now : ℕ) where
  -- One round at a byte that is no CR: the lines it ends, and what is pending after it.
  pub take_byte : List ℕ → ℕ → List ℕ → List Line × List ℕ
  take_byte pending b rest =
      let safe = safe_split_offset (pending ++ b ∷ rest) max_size 0 in
      if b == lf
      then (whole_line now pending ∷ [], [])
      else if leb max_size (length pending)
      then (partial_line now (take safe (pending ++ b ∷ rest)) ∷ [], drop safe pending ++ b ∷ [])
      else ([], pending ++ b ∷ [])

  -- The rounds from here on: the lines, and what is left pending at the end.
  pub scan : List ℕ → List ℕ → List Line × List ℕ
  scan pending [] = ([], pending)
  scan pending (b ∷ []) = if b == cr then ([], []) else take_byte pending b []
  scan pending (b ∷ c ∷ rest) = elim (b == cr) [
    | true ↦ elim (c == lf) [
      | true ↦ let (lines, left) = scan [] rest in (whole_line now pending ∷ lines, left)
      | false ↦ scan [] (c ∷ rest)
    ]
    | false ↦
        let (out, kept) = take_byte pending b (c ∷ rest) in
        let (lines, left) = scan kept (c ∷ rest) in (out ++ lines, left)
  ]

pub feed : LineBuffer → List ℕ → ℕ → List Line × LineBuffer
feed lb [] now = ([], lb)
feed lb (b ∷ chunk) now =
    let (lines, left) = scan lb.max_line_size now [] (lb.buf ++ b ∷ chunk) in
    (lines, record lb { buf = left })

pub flush_buf : LineBuffer → List ℕ → ℕ → Option Line × LineBuffer
flush_buf lb [] now = (none, lb)
flush_buf lb (b ∷ bytes) now = (some (partial_line now (b ∷ bytes)), record lb { buf = [] })

pub flush : LineBuffer → ℕ → Option Line × LineBuffer
flush lb now = flush_buf lb lb.buf now
