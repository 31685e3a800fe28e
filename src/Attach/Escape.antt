-- ===== src/Attach/Escape.antt =====
-- internal/tui/attach/escape.go: `EscapeDetector`, which watches for a double Escape.
-- A time is a number of nanoseconds and never Go's zero time, which stands for no pending escape and
-- is `none` here. Durations are integers.
pub mod Gesture
mod Tests
use randomshitgo_go.Prelude.{
  ℕ, ◌*◌, List, [], ◌∷◌, ◌++◌, Option, none, some, Bool, true, false, ◌==◌, if◌then◌else◌,
}
use randomshitgo_go.Prelude.Int.{ℤ, pos, negsuc, ◌-ℤ◌, ltb_ℤ, pos_part, neg_part}

abbrev pub default_escape_byte : ℕ
default_escape_byte = 0x1b

-- 400 ms
abbrev pub default_timeout : ℤ
default_timeout = pos (400 * 1000000)

pub record EscapeDetector : Type 0 where
  pub escape_byte : ℕ
  pub timeout : ℤ
  pub last_escape_at : Option ℕ

pub new_escape_detector : ℕ → ℤ → EscapeDetector
new_escape_detector escape_byte timeout = record {
  escape_byte = if escape_byte == 0 then default_escape_byte else escape_byte;
  timeout =
      if pos_part timeout == 0
      then if neg_part timeout == 0 then default_timeout else timeout
      else timeout;
  last_escape_at = none;
}

-- An escape is pending, less than the timeout ago.
pub in_window : EscapeDetector → ℕ → Bool
unfolding ◌-ℤ◌
in_window d now = elim d.last_escape_at [
  | none ↦ false
  | some last ↦ ltb_ℤ (pos now -ℤ pos last) d.timeout
]

pub feed : EscapeDetector → ℕ → ℕ → (List ℕ × Bool) × EscapeDetector
feed d b now =
    if b == d.escape_byte
    then if in_window d now
      then (([], true), record d { last_escape_at = none })
      else (([], false), record d { last_escape_at = some now })
    else ((b ∷ [], false), record d { last_escape_at = none })

-- The loop of `FeedChunk`, with the bytes passed through so far.
pub feed_bytes : EscapeDetector → List ℕ → ℕ → List ℕ → (List ℕ × Bool) × EscapeDetector
feed_bytes d [] now out = ((out, false), d)
feed_bytes d (b ∷ chunk) now out =
    let ((pass, det), d') = feed d b now in
    let rest = feed_bytes d' chunk now (out ++ pass) in if det then ((out, true), d') else rest

pub feed_chunk : EscapeDetector → List ℕ → ℕ → (List ℕ × Bool) × EscapeDetector
feed_chunk d chunk now = feed_bytes d chunk now []
