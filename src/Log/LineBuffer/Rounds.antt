-- ===== src/Log/LineBuffer/Rounds.antt =====
-- internal/log/linebuffer.go: the rounds of `Feed`, as equations.
use randomshitgo_go.Prelude.{
  ℕ, List, [], ◌∷◌, ◌++◌, ◌≡◌, sym, ap, true, false, ◌==◌, append-nil, append_assoc, ◌≤◌, ◌<◌,
  length, All,
}
use randomshitgo_go.Log.Line.{Line}
use randomshitgo_go.Log.LineBuffer.{LineBuffer, take_byte, scan, lf, cr, whole_line}

module _ (n now : ℕ) where
  -- The lines of a round in front of those of the rounds after it.
  abbrev pub after : List Line → List Line × List ℕ → List Line × List ℕ
  after out r = (out ++ r.0, r.1)

  pub scan-crlf :
      (pending : List ℕ) (b c : ℕ) (rest : List ℕ)
      → (b == cr) ≡ true
      → (c == lf) ≡ true
      → scan n now pending (b ∷ c ∷ rest) ≡ after (whole_line now pending ∷ []) (scan n now [] rest)
  unfolding scan
  scan-crlf pending b c rest e f = rw (e, f, scan)

  pub scan-bare_cr :
      (pending : List ℕ) (b c : ℕ) (rest : List ℕ)
      → (b == cr) ≡ true
      → (c == lf) ≡ false
      → scan n now pending (b ∷ c ∷ rest) ≡ scan n now [] (c ∷ rest)
  unfolding scan
  scan-bare_cr pending b c rest e f = rw (e, f, scan)

  pub scan-byte :
      (pending : List ℕ) (b c : ℕ) (rest : List ℕ)
      → (b == cr) ≡ false
      → scan n now pending (b ∷ c ∷ rest) ≡ (
          let (out, kept) = take_byte n now pending b (c ∷ rest) in
          after out (scan n now kept (c ∷ rest)))
  unfolding scan
  scan-byte pending b c rest e = rw (e, scan)

  pub scan_no_cr :
      (pending : List ℕ) (b : ℕ) (rest : List ℕ)
      → (b == cr) ≡ false
      → scan n now pending (b ∷ rest)
        ≡ (let (out, kept) = take_byte n now pending b rest in after out (scan n now kept rest))
  unfolding scan
  scan_no_cr pending b [] e = rw e (
      ap (λ o. (o, (take_byte n now pending b []).1))
        (sym (append-nil (take_byte n now pending b []).0)))
  scan_no_cr pending b (c ∷ rest) e = scan-byte pending b c rest e

  pub after-after :
      (a b : List Line) (r : List Line × List ℕ) → after a (after b r) ≡ after (a ++ b) r
  after-after a b r = ap (λ o. (o, r.1)) (sym (append_assoc a b r.0))

-- A byte that ends no line.
abbrev pub IsPlain : ℕ → Type 0
IsPlain b = ((b == cr) ≡ false) × ((b == lf) ≡ false)

-- What `Feed` keeps between calls.
pub record IsWell (lb : LineBuffer) : Type 0 where
  pub positive : 0 < lb.max_line_size
  pub short : length lb.buf ≤ lb.max_line_size
  pub plain : All IsPlain lb.buf
