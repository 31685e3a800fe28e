-- ===== src/Attach/Escape/Gesture.antt =====
-- internal/tui/attach/escape.go: what ends the attachment, and what reaches the child.
use randomshitgo_go.Prelude.{
  ℕ, ◌<◌, List, [], ◌∷◌, ◌++◌, none, some, Bool, true, false, ◌≡◌, refl, sym, ap, arith, ◌==◌, inl,
  inr, Bool-cases, if◌then◌else◌, append-nil, append_assoc,
}
use randomshitgo_go.Prelude.Int.{pos_part, ◌-ℤ◌}
use randomshitgo_go.Attach.Escape.{EscapeDetector, in_window, feed, feed_bytes, feed_chunk}

-- What a chunk should do, told by its bytes alone: `armed` says that an escape comes just before it
-- in time. The bytes in front of the first double escape pass, but for the escapes among them.
pub gesture : ℕ → Bool → List ℕ → List ℕ × Bool
gesture esc armed [] = ([], false)
gesture esc armed (b ∷ chunk) =
    let (pass, det) = gesture esc (b == esc) chunk in
    if b == esc then if armed then ([], true) else (pass, det) else (b ∷ pass, det)

armed_now :
    (d : EscapeDetector) (now : ℕ)
    → 0 < pos_part d.timeout
    → in_window (record d { last_escape_at = some now }) now ≡ true
unfolding in_window ◌-ℤ◌
armed_now d now h = ground arith

feed-plain :
    (d : EscapeDetector) (b now : ℕ)
    → (b == d.escape_byte) ≡ false
    → feed d b now ≡ ((b ∷ [], false), record d { last_escape_at = none })
unfolding feed
feed-plain d b now h = rw h

feed-armed :
    (d : EscapeDetector) (b now : ℕ)
    → (b == d.escape_byte) ≡ true
    → in_window d now ≡ true
    → feed d b now ≡ (([], true), record d { last_escape_at = none })
unfolding feed
feed-armed d b now h k = rw (h, k)

feed-first :
    (d : EscapeDetector) (b now : ℕ)
    → (b == d.escape_byte) ≡ true
    → in_window d now ≡ false
    → feed d b now ≡ (([], false), record d { last_escape_at = some now })
unfolding feed
feed-first d b now h k = rw (h, k)

disarmed :
    (d : EscapeDetector) (now : ℕ) → in_window (record d { last_escape_at = none }) now ≡ false
unfolding in_window
disarmed d now = refl

feed_bytes-gesture :
    (chunk : List ℕ) (d : EscapeDetector) (now : ℕ) (out : List ℕ)
    → 0 < pos_part d.timeout
    → (feed_bytes d chunk now out).0 ≡ (
      out ++ (gesture d.escape_byte (in_window d now) chunk).0,
      (gesture d.escape_byte (in_window d now) chunk).1,
    )
unfolding feed_bytes gesture
feed_bytes-gesture [] d now out h = ap (λ o. (o, false)) (sym (append-nil out))
feed_bytes-gesture (b ∷ chunk) d now out h = elim (Bool-cases (b == d.escape_byte)) [
  | inr plain ↦
      let ih =
        feed_bytes-gesture chunk (record d { last_escape_at = none }) now (out ++ b ∷ []) h in
      rw (feed-plain d b now plain, plain, ih, disarmed d now, append_assoc out (b ∷ []))
  | inl escape ↦ elim (Bool-cases (in_window d now)) [
    | inl armed ↦ rw (feed-armed d b now escape armed, escape, armed, append-nil out)
    | inr first ↦
        let ih =
          feed_bytes-gesture chunk (record d { last_escape_at = some now }) now (out ++ []) h in
        rw (feed-first d b now escape first, escape, first, ih, armed_now d now h, append-nil out)
  ]
]

-- When the timeout is positive, a chunk read at one time passes exactly the bytes in front of the
-- first double escape, with the escapes among them left out, and the detector reports a double escape
-- exactly when there is one; a pending escape counts as the byte in front of the chunk.
pub feed_chunk-gesture :
    (d : EscapeDetector) (chunk : List ℕ) (now : ℕ)
    → 0 < pos_part d.timeout
    → (feed_chunk d chunk now).0 ≡ gesture d.escape_byte (in_window d now) chunk
unfolding feed_chunk
feed_chunk-gesture d chunk now h = feed_bytes-gesture chunk d now [] h
