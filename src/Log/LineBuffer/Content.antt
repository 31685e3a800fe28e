-- ===== src/Log/LineBuffer/Content.antt =====
-- internal/log/linebuffer.go: which bytes the lines hold.
use randomshitgo_go.Prelude.{
  ℕ, ◌+◌, ◌≤◌, ◌<◌, List, [], ◌∷◌, ◌++◌, ◌≡◌, refl, sym, ap, ◌∙◌, inl, inr, true, false, arith,
  length, length-append, take-append, take-append-drop, append-nil, append_assoc, All, All-append,
  All-take, Bool-cases, leb, leb→le, ◌==◌, ==_iff, if◌then◌else◌,
}
use randomshitgo_go.Log.Line.{Line}
use randomshitgo_go.Log.LineBuffer.{
  safe_split_offset, take_byte, scan, lf, cr, feed, LineBuffer, whole_line,
}
use randomshitgo_go.Log.LineBuffer.Rounds.{
  scan-crlf, scan-bare_cr, scan-byte, scan_no_cr, IsPlain, IsWell,
}
use randomshitgo_go.Log.LineBuffer.Bounds.{safe_split_offset_bounds}
use randomshitgo_go.Log.LineBuffer.Chunks.{scan-plain, take_byte-IsPlain}

-- The text that lines stand for: a partial line has no terminator.
abbrev pub spell : List Line → List ℕ
spell [] = []
spell (l ∷ ls) = l.bytes ++ ((if l.is_partial then [] else lf ∷ []) ++ spell ls)

spell-append : (ls ms : List Line) → spell (ls ++ ms) ≡ spell ls ++ spell ms
spell-append [] ms = refl
spell-append (l ∷ ls) ms = simp (spell-append ls ms, append_assoc)

abbrev pub NoCr : List ℕ → Type 0
NoCr = All (λ b. (b == cr) ≡ false)

abbrev pub PlainLine : Line → Type 0
PlainLine l = All IsPlain l.bytes

module _ (n now : ℕ) (positive : 0 < n) where
  split_within :
      (p : List ℕ) (b : ℕ) (rest : List ℕ)
      → leb n (length p) ≡ true
      → safe_split_offset (p ++ b ∷ rest) n 0 ≤ length p
  split_within p b rest full =
      omega (arith, leb→le _ _ full, safe_split_offset_bounds (p ++ b ∷ rest) n 0 positive)

  spell-take_byte :
      (p : List ℕ) (b : ℕ) (rest : List ℕ)
      → spell (take_byte n now p b rest).0 ++ (take_byte n now p b rest).1 ≡ p ++ b ∷ []
  unfolding take_byte
  spell-take_byte p b rest = elim (Bool-cases (b == lf)) [
    | inl e ↦ rw e (append-nil (p ++ lf ∷ []) ∙ ap (λ x. p ++ x ∷ []) (sym ((==_iff b lf).0 e)))
    | inr e ↦ rw e (elim (Bool-cases (leb n (length p))) [
      | inr room ↦ rw room
      | inl full ↦
          rw (full, take-append _ p (b ∷ rest) (split_within p b rest full), append-nil)
            (sym (append_assoc _ _ (b ∷ []))
              ∙ ap (λ q. q ++ b ∷ []) (take-append-drop (safe_split_offset (p ++ b ∷ rest) n 0) p))
    ])
  ]

  -- The lines and what is left pending spell what went in.
  spell-scan :
      (p xs : List ℕ) → NoCr xs → spell (scan n now p xs).0 ++ (scan n now p xs).1 ≡ p ++ xs
  spell-scan p [] h = unfold scan in sym (append-nil p)
  spell-scan p (b ∷ xs) h =
      ap (λ r. spell r.0 ++ r.1) (scan_no_cr n now p b xs h.0)
      ∙ ap (λ q. q ++ left.1) (spell-append out.0 left.0)
      ∙ append_assoc (spell out.0) (spell left.0) left.1
      ∙ ap (λ q. spell out.0 ++ q) (spell-scan out.1 xs h.1)
      ∙ sym (append_assoc (spell out.0) out.1 xs)
      ∙ ap (λ q. q ++ xs) (spell-take_byte p b xs)
      ∙ append_assoc p (b ∷ []) xs
    where
      out : List Line × List ℕ
      out = take_byte n now p b xs

      left : List Line × List ℕ
      left = scan n now out.1 xs

  take_byte_lines :
      (p : List ℕ) (b : ℕ) (rest : List ℕ)
      → All IsPlain p
      → All PlainLine (take_byte n now p b rest).0
  unfolding take_byte
  take_byte_lines p b rest h = elim (Bool-cases (b == lf)) [
    | inl e ↦ rw e (h, tt)
    | inr e ↦ rw e (elim (Bool-cases (leb n (length p))) [
      | inr room ↦ rw room tt
      | inl full ↦
          rw (full, take-append _ p (b ∷ rest) (split_within p b rest full))
            (All-take IsPlain (safe_split_offset (p ++ b ∷ rest) n 0) p h, tt)
    ])
  ]

  scan_lines : (p xs : List ℕ) → All IsPlain p → All PlainLine (scan n now p xs).0
  scan_lines p [] h = unfold scan in tt
  scan_lines p (b ∷ []) h = elim (Bool-cases (b == cr)) [
    | inl e ↦ unfold scan in rw e tt
    | inr e ↦ unfold scan in rw e (take_byte_lines p b [] h)
  ]
  scan_lines p (b ∷ c ∷ xs) h = elim (Bool-cases (b == cr)) [
    | inr e ↦ rw (scan-byte n now p b c xs e) (
        All-append PlainLine _ _ (take_byte_lines p b (c ∷ xs) h)
          (scan_lines _ (c ∷ xs) (take_byte-IsPlain n now positive p b (c ∷ xs) e h)))
    | inl e ↦ elim (Bool-cases (c == lf)) [
      | inl f ↦ rw (scan-crlf n now p b c xs e f) (h, scan_lines [] xs tt)
      | inr f ↦ rw (scan-bare_cr n now p b c xs e f) (scan_lines [] (c ∷ xs) tt)
    ]
  ]

-- No line that `Feed` returns holds a CR or an LF, for any chunk, on a splitter as its operations
-- leave it (a positive limit, and a buffer within it with no CR and no LF).
pub feed_lines :
    (lb : LineBuffer) (chunk : List ℕ) (now : ℕ) → IsWell lb → All PlainLine (feed lb chunk now).0
unfolding feed
feed_lines lb [] now w = tt
feed_lines lb (b ∷ chunk) now w =
    scan_lines lb.max_line_size now w.positive [] (lb.buf ++ b ∷ chunk) tt

-- Of a chunk with no CR nothing is lost: the lines that `Feed` returns, each behind its LF unless
-- it is partial, and then the buffer that it keeps, spell the old buffer and the chunk; on a
-- splitter as its operations leave it (a positive limit, and a buffer within it with no CR and no
-- LF).
pub feed-spell :
    (lb : LineBuffer) (chunk : List ℕ) (now : ℕ)
    → IsWell lb
    → NoCr chunk
    → spell (feed lb chunk now).0 ++ (feed lb chunk now).1.buf ≡ lb.buf ++ chunk
unfolding feed
feed-spell lb [] now w h = sym (append-nil lb.buf)
feed-spell lb (b ∷ chunk) now w h =
    spell-scan lb.max_line_size now w.positive [] (lb.buf ++ b ∷ chunk)
      (All-append (λ x. (x == cr) ≡ false) lb.buf (b ∷ chunk) (no_cr lb.buf w.plain) h)
  where
    no_cr : (bytes : List ℕ) → All IsPlain bytes → NoCr bytes
    no_cr [] t = tt
    no_cr (x ∷ bytes) t = (t.0.0, no_cr bytes t.1)

scan_end :
    (lb : LineBuffer) (w end : List ℕ) (now : ℕ)
    → IsWell lb
    → All IsPlain w
    → length lb.buf + length w ≤ lb.max_line_size
    → scan lb.max_line_size now [] (lb.buf ++ (w ++ end))
      ≡ scan lb.max_line_size now (lb.buf ++ w) end
scan_end lb w end now v h le =
    ap (scan lb.max_line_size now []) (sym (append_assoc lb.buf w end))
    ∙ scan-plain lb.max_line_size now v.positive [] (lb.buf ++ w) end
        (All-append IsPlain lb.buf w v.plain h) (omega (arith, length-append lb.buf w))

-- After text without CR and LF that is not empty and that fits, with the buffer, in `MaxLineSize`,
-- a CRLF in one chunk ends the line of the buffer and the text. If its LF comes in the next chunk,
-- the first chunk gives no line and the second an empty one, and buffer and text are lost. All of
-- it on a splitter as its operations leave it (a positive limit, and a buffer within it with no CR
-- and no LF).
pub crlf_cut :
    (lb : LineBuffer) (x : ℕ) (w : List ℕ) (now : ℕ)
    → IsWell lb
    → All IsPlain (x ∷ w)
    → length lb.buf + length (x ∷ w) ≤ lb.max_line_size
    → ((feed lb (x ∷ w ++ cr ∷ lf ∷ []) now).0 ≡ whole_line now (lb.buf ++ x ∷ w) ∷ [])
      × ((feed (feed lb (x ∷ w ++ cr ∷ []) now).1 (lf ∷ []) now).0 ≡ whole_line now [] ∷ [])
      × ((feed lb (x ∷ w ++ cr ∷ []) now).0 ≡ [])
unfolding feed
crlf_cut lb x w now v h le = (
  ap (λ r. r.0) (scan_end lb (x ∷ w) (cr ∷ lf ∷ []) now v h le) ∙ (unfold scan in refl),
  ap (λ r. (scan lb.max_line_size now [] (r.1 ++ lf ∷ [])).0) cut ∙ (unfold scan take_byte in refl),
  ap (λ r. r.0) cut,
)
  where
    cut : scan lb.max_line_size now [] (lb.buf ++ (x ∷ w ++ cr ∷ [])) ≡ ([], [])
    cut = scan_end lb (x ∷ w) (cr ∷ []) now v h le ∙ (unfold scan in refl)
