-- ===== src/Log/LineBuffer/Bounds.antt =====
-- internal/log/linebuffer.go: the split offset and the sizes of lines and buffer.
use native.Mathlib.Decide.{ℕ_discrete}
use mathlib.Core.Option.{some-injective}
use randomshitgo_go.Prelude.{
  ℕ, zero, suc, ◌+◌, ◌-◌, ◌≤◌, ◌<◌, List, [], ◌∷◌, ◌++◌, some, ◌≡◌, ap, ◌∙◌, inl, inr, false, arith,
  length, get_elem?, drop, length-append, length-take, length-drop, All, All-append, Bool-cases,
  lt→ltb, ◌==◌, Option-cases, lt→ne, sym, subst, true≢false,
}
use randomshitgo_go.Log.Line.{Line}
use randomshitgo_go.Log.LineBuffer.Rounds.{scan-crlf, scan-bare_cr, scan-byte}
use randomshitgo_go.Log.LineBuffer.{
  backtrack, safe_split_offset, is_continuation, take_byte, scan, lf, cr, feed, LineBuffer,
}

backtrack_bounds :
    (buf : List ℕ) (floor n off : ℕ)
    → floor ≤ off
    → (floor ≤ backtrack buf floor n off)
      × (backtrack buf floor n off ≤ off)
      × (off ≤ backtrack buf floor n off + n)
unfolding backtrack
backtrack_bounds buf floor zero off h = omega arith
backtrack_bounds buf floor (suc n) off h = ground (arith, backtrack_bounds buf floor n (off - 1))

-- The offset lies behind `floor`, at most 3 bytes before `limit`, if `floor` does.
pub safe_split_offset_bounds :
    (buf : List ℕ) (limit floor : ℕ)
    → floor < limit
    → (floor < safe_split_offset buf limit floor)
      × (safe_split_offset buf limit floor ≤ limit)
      × (limit ≤ safe_split_offset buf limit floor + 3)
unfolding safe_split_offset
safe_split_offset_bounds buf limit floor h = ground (arith, backtrack_bounds buf floor 3 limit)

-- The byte there begins a code point.
abbrev pub IsBoundary : List ℕ → ℕ → Type 0
IsBoundary buf i = (b : ℕ) → get_elem? buf i ≡ some b → is_continuation b ≡ false

backtrack-IsBoundary :
    (buf : List ℕ) (floor n off k : ℕ)
    → k ≤ n
    → floor + k < off
    → IsBoundary buf (off - k)
    → (floor < backtrack buf floor n off) × IsBoundary buf (backtrack buf floor n off)
unfolding backtrack
backtrack-IsBoundary buf floor zero off k le h at =
    (omega arith, subst (IsBoundary buf) (omega arith) at)
backtrack-IsBoundary buf floor (suc n) off k le h at = elim (Option-cases (get_elem? buf off)) [
  | inl e ↦ rw (lt→ltb floor off (omega arith), e) (omega arith, λ b q. cc)
  | inr (c, e) ↦
      rw (lt→ltb floor off (omega arith), e)
        (elim (Bool-cases (is_continuation c)) [
          | inl more ↦ rw more (elim (ℕ_discrete k 0) [
            | yes z ↦ absurd (true≢false (sym more ∙ at c (ap (get_elem? buf) (omega arith) ∙ e)))
            | no nz ↦
                backtrack-IsBoundary buf floor n (off - 1) (k - 1) (omega arith) (omega arith)
                  (subst (IsBoundary buf) (omega arith) at)
          ])
          | inr stop ↦
              rw stop
                (omega arith, λ b q. ap is_continuation (some-injective b c (sym q ∙ e)) ∙ stop)
        ])
]

-- If a byte at most three before `limit`, and behind `floor`, begins a code point, or the one at
-- `limit` does, then the split is at a byte that begins one.
pub safe_split_offset-IsBoundary :
    (buf : List ℕ) (limit floor k : ℕ)
    → k ≤ 3
    → floor + k < limit
    → IsBoundary buf (limit - k)
    → IsBoundary buf (safe_split_offset buf limit floor)
unfolding safe_split_offset
safe_split_offset-IsBoundary buf limit floor k le h at =
    let (above, found) = backtrack-IsBoundary buf floor 3 limit k le h at in
    rw (lt→ne _ floor above) found

abbrev pub IsShort : ℕ → Line → Type 0
IsShort n l = length l.bytes ≤ n

-- Every line has at most `n` bytes, and so has what is pending.
abbrev AllShort : ℕ → List Line × List ℕ → Type 0
AllShort n r = All (IsShort n) r.0 × (length r.1 ≤ n)

module _ (n now : ℕ) (positive : 0 < n) where
  take_byte_short :
      (pending : List ℕ) (b : ℕ) (rest : List ℕ)
      → length pending ≤ n
      → AllShort n (take_byte n now pending b rest)
  unfolding take_byte
  take_byte_short pending b rest h = ground (
    arith,
    safe_split_offset_bounds (pending ++ b ∷ rest) n 0,
    length-take (safe_split_offset (pending ++ b ∷ rest) n 0) (pending ++ b ∷ rest),
    length-drop (safe_split_offset (pending ++ b ∷ rest) n 0) pending,
    length-append (drop (safe_split_offset (pending ++ b ∷ rest) n 0) pending) (b ∷ []),
    length-append pending (b ∷ []),
  )

  scan_short : (pending rest : List ℕ) → length pending ≤ n → AllShort n (scan n now pending rest)
  unfolding scan
  scan_short pending [] h = (tt, h)
  scan_short pending (b ∷ []) h = elim (Bool-cases (b == cr)) [
    | inl at_cr ↦ rw at_cr (tt, omega arith)
    | inr no_cr ↦ rw no_cr (take_byte_short pending b [] h)
  ]
  scan_short pending (b ∷ c ∷ rest) h = elim (Bool-cases (b == cr)) [
    | inl at_cr ↦ elim (Bool-cases (c == lf)) [
      | inl crlf ↦
          let later = scan_short [] rest (omega arith) in
          rw (scan-crlf n now pending b c rest at_cr crlf) ((h, later.0), later.1)
      | inr bare ↦
          rw (scan-bare_cr n now pending b c rest at_cr bare)
            (scan_short [] (c ∷ rest) (omega arith))
    ]
    | inr no_cr ↦
        let now_short = take_byte_short pending b (c ∷ rest) h in
        let later = scan_short (take_byte n now pending b (c ∷ rest)).1 (c ∷ rest) now_short.1 in
        rw (scan-byte n now pending b c rest no_cr)
          (All-append (IsShort n) _ _ now_short.0 later.0, later.1)
  ]

-- The lines that `Feed` returns have at most `MaxLineSize` bytes, and so has the buffer that it
-- keeps, if the limit is positive and the buffer was within it before.
pub feed_bounds :
    (lb : LineBuffer) (chunk : List ℕ) (now : ℕ)
    → 0 < lb.max_line_size
    → length lb.buf ≤ lb.max_line_size
    → All (IsShort lb.max_line_size) (feed lb chunk now).0
      × (length (feed lb chunk now).1.buf ≤ lb.max_line_size)
unfolding feed
feed_bounds lb [] now positive h = (tt, h)
feed_bounds lb (b ∷ chunk) now positive h =
    scan_short lb.max_line_size now positive [] (lb.buf ++ b ∷ chunk) (omega arith)
