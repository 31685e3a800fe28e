-- ===== src/Log/LineBuffer/Tests.antt =====
-- internal/log/linebuffer.go: tests after linebuffer_test.go, and the theorems at concrete inputs.
use randomshitgo_go.Prelude.{ℕ, ◌≤◌, List, [], ◌∷◌, ◌++◌, ◌≡◌, refl, arith, All, length}
use randomshitgo_go.Prelude.Int.{pos}
use randomshitgo_go.Log.LineBuffer.{
  LineBuffer, new_line_buffer, feed, scan, take_byte, lf, cr, whole_line, partial_line,
  safe_split_offset, backtrack, is_continuation,
}
use randomshitgo_go.Log.LineBuffer.Rounds.{IsWell}
use randomshitgo_go.Log.LineBuffer.Bounds.{IsShort, feed_bounds}
use randomshitgo_go.Log.LineBuffer.Chunks.{feed-append, new_line_buffer-IsWell}
use randomshitgo_go.Log.LineBuffer.Content.{feed-spell, spell, crlf_cut}

abbrev small : LineBuffer
small = new_line_buffer (pos 4)

small-IsWell : IsWell small
small-IsWell = new_line_buffer-IsWell (pos 4)

-- "ab", CR, LF, "c"
abbrev crlf_text : List ℕ
crlf_text = b'a' ∷ b'b' ∷ cr ∷ lf ∷ b'c' ∷ []

-- six letters, LF
abbrev long_text : List ℕ
long_text = b'a' ∷ b'b' ∷ b'c' ∷ b'd' ∷ b'e' ∷ b'f' ∷ lf ∷ []

crlf_line : (feed small crlf_text 7).0 ≡ whole_line 7 (b'a' ∷ b'b' ∷ []) ∷ []
unfolding feed scan take_byte new_line_buffer
crlf_line = refl

forced :
    (feed small long_text 7).0
    ≡ partial_line 7 (b'a' ∷ b'b' ∷ b'c' ∷ b'd' ∷ []) ∷ whole_line 7 (b'e' ∷ b'f' ∷ []) ∷ []
unfolding feed scan take_byte new_line_buffer safe_split_offset backtrack is_continuation
forced = refl

feed_bounds_example :
    All (IsShort small.max_line_size) (feed small long_text 7).0
    × (length (feed small long_text 7).1.buf ≤ small.max_line_size)
feed_bounds_example = feed_bounds small long_text 7 small-IsWell.positive small-IsWell.short

feed-append_example : feed small (long_text ++ crlf_text) 7 ≡ (
    let (first, mid) = feed small long_text 7 in
    let (second, last) = feed mid crlf_text 7 in (first ++ second, last))
feed-append_example = feed-append small long_text crlf_text 7 small-IsWell refl

feed-spell_example :
    spell (feed small long_text 7).0 ++ (feed small long_text 7).1.buf ≡ small.buf ++ long_text
feed-spell_example =
    feed-spell small long_text 7 small-IsWell
      (refl, (refl, (refl, (refl, (refl, (refl, (refl, tt)))))))

crlf_cut_example :
    ((feed small (b'a' ∷ b'b' ∷ [] ++ cr ∷ lf ∷ []) 7).0
      ≡ whole_line 7 (small.buf ++ b'a' ∷ b'b' ∷ []) ∷ [])
    × ((feed (feed small (b'a' ∷ b'b' ∷ [] ++ cr ∷ []) 7).1 (lf ∷ []) 7).0 ≡ whole_line 7 [] ∷ [])
    × ((feed small (b'a' ∷ b'b' ∷ [] ++ cr ∷ []) 7).0 ≡ [])
unfolding new_line_buffer
crlf_cut_example =
    crlf_cut small b'a' (b'b' ∷ []) 7 small-IsWell ((refl, refl), ((refl, refl), tt)) (omega arith)

-- "é" twice: the split before the fourth byte would cut the second one.
abbrev accents : List ℕ
accents = 0xc3 ∷ 0xa9 ∷ 0xc3 ∷ 0xa9 ∷ []
