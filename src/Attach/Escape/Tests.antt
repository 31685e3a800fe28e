-- ===== src/Attach/Escape/Tests.antt =====
-- internal/tui/attach/escape.go: the theorem on a chunk with a double escape.
use randomshitgo_go.Prelude.{ℕ, List, [], ◌∷◌, ◌≡◌, arith, refl, true, some}
use randomshitgo_go.Prelude.Int.{pos}
use randomshitgo_go.Attach.Escape.{EscapeDetector, in_window, feed_chunk, feed_bytes, feed}
use randomshitgo_go.Attach.Escape.Gesture.{gesture, feed_chunk-gesture}

abbrev detector : EscapeDetector
detector = record { escape_byte = 0x1b; timeout = pos 400; last_escape_at = some 10 }

-- An escape, too late for the pending one, then one with a byte between, then two in a row.
abbrev chunk : List ℕ
chunk = 0x1b ∷ b'a' ∷ 0x1b ∷ 0x1b ∷ b'b' ∷ []

detaches : (feed_chunk detector chunk 900).0 ≡ (b'a' ∷ [], true)
unfolding feed_chunk feed_bytes feed in_window
detaches = refl

feed_chunk-gesture_example :
    (feed_chunk detector chunk 900).0 ≡ gesture detector.escape_byte (in_window detector 900) chunk
feed_chunk-gesture_example = feed_chunk-gesture detector chunk 900 (omega arith)
