-- ===== src/Log/LineBuffer/Chunks.antt =====
-- internal/log/linebuffer.go: how a stream is cut into chunks does not matter, unless a cut falls
-- between a CR and its LF.
use randomshitgo_go.Prelude.{
  ℕ, zero, suc, ◌+◌, ◌-◌, ◌≤◌, ◌<◌, List, [], ◌∷◌, ◌++◌, ◌≡◌, refl, sym, ap, ◌∙◌, inl, inr, Bool,
  false, arith, length, get_elem?, length-append, take-append, append-nil, append_assoc, All,
  All-append, All-drop, Bool-cases, leb, leb→le, ◌==◌, if◌then◌else◌,
}
use randomshitgo_go.Prelude.Int.{ℤ}
use randomshitgo_go.Log.Line.{Line}
use randomshitgo_go.Log.LineBuffer.{
  backtrack, safe_split_offset, take_byte, scan, lf, cr, feed, LineBuffer, whole_line,
  new_line_buffer,
}
use randomshitgo_go.Log.LineBuffer.Rounds.{
  after, scan-crlf, scan-bare_cr, scan-byte, scan_no_cr, after-after, IsPlain, IsWell,
}
use randomshitgo_go.Log.LineBuffer.Bounds.{feed_bounds, safe_split_offset_bounds}

get_elem?-prefix :
    (p : List ℕ) (b : ℕ) (rest : List ℕ) (i : ℕ)
    → i ≤ length p
    → get_elem? (p ++ b ∷ rest) i ≡ get_elem? (p ++ b ∷ []) i
get_elem?-prefix [] b rest zero h = refl
get_elem?-prefix [] b rest (suc i) h = absurd (omega arith)
get_elem?-prefix (x ∷ p) b rest zero h = refl
get_elem?-prefix (x ∷ p) b rest (suc i) h = get_elem?-prefix p b rest i (omega arith)

backtrack_rest :
    (p : List ℕ) (b : ℕ) (rest : List ℕ) (floor n off : ℕ)
    → off ≤ length p
    → backtrack (p ++ b ∷ rest) floor n off ≡ backtrack (p ++ b ∷ []) floor n off
unfolding backtrack
backtrack_rest p b rest floor zero off h = refl
backtrack_rest p b rest floor (suc n) off h =
    ground (
      arith,
      get_elem?-prefix p b rest off,
      backtrack_rest p b rest floor n (off - 1) (omega arith),
    )

safe_split_offset_rest :
    (p : List ℕ) (b : ℕ) (rest : List ℕ) (limit floor : ℕ)
    → limit ≤ length p
    → safe_split_offset (p ++ b ∷ rest) limit floor ≡ safe_split_offset (p ++ b ∷ []) limit floor
unfolding safe_split_offset
safe_split_offset_rest p b rest limit floor h =
    ap (λ off. if off == floor then limit else off) (backtrack_rest p b rest floor 3 limit h)

-- The chunk ends in a CR.
abbrev pub ends_in_cr : List ℕ → Bool
ends_in_cr [] = false
ends_in_cr (b ∷ []) = b == cr
ends_in_cr (b ∷ c ∷ rest) = ends_in_cr (c ∷ rest)

ends_in_cr-tail : (b : ℕ) (xs : List ℕ) → ends_in_cr (b ∷ xs) ≡ false → ends_in_cr xs ≡ false
ends_in_cr-tail b [] h = refl
ends_in_cr-tail b (c ∷ xs) h = h

ends_in_cr-append :
    (xs : List ℕ) (b : ℕ) (ys : List ℕ) → ends_in_cr (xs ++ b ∷ ys) ≡ ends_in_cr (b ∷ ys)
ends_in_cr-append [] b ys = refl
ends_in_cr-append (x ∷ []) b ys = refl
ends_in_cr-append (x ∷ y ∷ xs) b ys = ends_in_cr-append (y ∷ xs) b ys

module _ (n now : ℕ) (positive : 0 < n) where
  -- A round does not depend on the bytes after its own.
  take_byte_rest :
      (p : List ℕ) (b : ℕ) (rest : List ℕ) → take_byte n now p b rest ≡ take_byte n now p b []
  unfolding take_byte
  take_byte_rest p b rest = elim (Bool-cases (leb n (length p))) [
    | inr room ↦ rw room
    | inl full ↦
        let within : safe_split_offset (p ++ b ∷ []) n 0 ≤ length p =
          omega (arith, leb→le _ _ full, safe_split_offset_bounds (p ++ b ∷ []) n 0 positive) in
        rw (
          safe_split_offset_rest p b rest n 0 (leb→le _ _ full),
          take-append (safe_split_offset (p ++ b ∷ []) n 0) p (b ∷ rest) within,
          take-append (safe_split_offset (p ++ b ∷ []) n 0) p (b ∷ []) within,
        )
  ]

  after_round :
      (p : List ℕ) (b : ℕ) (xs ys : List ℕ)
      → (b == cr) ≡ false
      → ((k : List ℕ)
          → scan n now k (xs ++ ys)
            ≡ after n now (scan n now k xs).0 (scan n now (scan n now k xs).1 ys))
      → scan n now p (b ∷ xs ++ ys)
        ≡ after n now (scan n now p (b ∷ xs)).0 (scan n now (scan n now p (b ∷ xs)).1 ys)
  after_round p b xs ys e ih =
      scan_no_cr n now p b (xs ++ ys) e
      ∙ ap (λ r. after n now r.0 (scan n now r.1 (xs ++ ys))) (take_byte_rest p b (xs ++ ys))
      ∙ ap (after n now (take_byte n now p b []).0) (ih (take_byte n now p b []).1)
      ∙ after-after n now (take_byte n now p b []).0 _ _
      ∙ ap (λ r. after n now r.0 (scan n now r.1 ys))
          (sym (
            scan_no_cr n now p b xs e
            ∙ ap (λ r. after n now r.0 (scan n now r.1 xs)) (take_byte_rest p b xs)))

  -- The rounds over two lists are those over the first and then those over the second.
  scan-append :
      (p xs ys : List ℕ)
      → ends_in_cr xs ≡ false
      → scan n now p (xs ++ ys)
        ≡ after n now (scan n now p xs).0 (scan n now (scan n now p xs).1 ys)
  scan-append p [] ys h = unfold scan in refl
  scan-append p (b ∷ []) ys h = after_round p b [] ys h (λ k. unfold scan in refl)
  scan-append p (b ∷ c ∷ xs) ys h = elim (Bool-cases (b == cr)) [
    | inr e ↦ after_round p b (c ∷ xs) ys e (λ k. scan-append k (c ∷ xs) ys h)
    | inl e ↦ elim (Bool-cases (c == lf)) [
      | inl f ↦
          rw (scan-crlf n now p b c (xs ++ ys) e f, scan-crlf n now p b c xs e f)
            (ap (after n now (whole_line now p ∷ []))
              (scan-append [] xs ys (ends_in_cr-tail c xs h)))
      | inr f ↦
          rw (scan-bare_cr n now p b c (xs ++ ys) e f, scan-bare_cr n now p b c xs e f)
            (scan-append [] (c ∷ xs) ys h)
    ]
  ]

  take_byte_plain :
      (p : List ℕ) (b : ℕ) (rest : List ℕ)
      → (b == lf) ≡ false
      → length p < n
      → take_byte n now p b rest ≡ ([], p ++ b ∷ [])
  unfolding take_byte
  take_byte_plain p b rest e h = ground arith

  -- Plain bytes that fit become pending: reading a kept buffer again ends no line.
  pub scan-plain :
      (p ks ys : List ℕ)
      → All IsPlain ks
      → length p + length ks ≤ n
      → scan n now p (ks ++ ys) ≡ scan n now (p ++ ks) ys
  scan-plain p [] ys h le = ap (λ q. scan n now q ys) (sym (append-nil p))
  scan-plain p (k ∷ ks) ys h le =
      scan_no_cr n now p k (ks ++ ys) h.0.0
      ∙ ap (λ r. after n now r.0 (scan n now r.1 (ks ++ ys)))
          (take_byte_plain p k (ks ++ ys) h.0.1 (omega arith))
      ∙ scan-plain (p ++ k ∷ []) ks ys h.1 (omega (arith, length-append p (k ∷ [])))
      ∙ ap (λ q. scan n now q ys) (append_assoc p (k ∷ []) ks)

  pub take_byte-IsPlain :
      (p : List ℕ) (b : ℕ) (rest : List ℕ)
      → (b == cr) ≡ false
      → All IsPlain p
      → All IsPlain (take_byte n now p b rest).1
  unfolding take_byte
  take_byte-IsPlain p b rest e h = elim (Bool-cases (b == lf)) [
    | inl f ↦ rw f tt
    | inr f ↦ rw f (elim (Bool-cases (leb n (length p))) [
      | inl full ↦ rw full (All-append IsPlain _ (b ∷ []) (All-drop IsPlain _ p h) ((e, f), tt))
      | inr room ↦ rw room (All-append IsPlain p (b ∷ []) h ((e, f), tt))
    ])
  ]

  scan-kept : (p xs : List ℕ) → All IsPlain p → All IsPlain (scan n now p xs).1
  scan-kept p [] h = unfold scan in h
  scan-kept p (b ∷ []) h = elim (Bool-cases (b == cr)) [
    | inl e ↦ unfold scan in rw e tt
    | inr e ↦ unfold scan in rw e (take_byte-IsPlain p b [] e h)
  ]
  scan-kept p (b ∷ c ∷ xs) h = elim (Bool-cases (b == cr)) [
    | inr e ↦
        rw (scan-byte n now p b c xs e) (scan-kept _ (c ∷ xs) (take_byte-IsPlain p b (c ∷ xs) e h))
    | inl e ↦ elim (Bool-cases (c == lf)) [
      | inl f ↦ rw (scan-crlf n now p b c xs e f) (scan-kept [] xs tt)
      | inr f ↦ rw (scan-bare_cr n now p b c xs e f) (scan-kept [] (c ∷ xs) tt)
    ]
  ]

-- `Feed` keeps a buffer that is short and holds no CR and no LF.
pub feed-IsWell :
    (lb : LineBuffer) (chunk : List ℕ) (now : ℕ) → IsWell lb → IsWell (feed lb chunk now).1
unfolding feed
feed-IsWell lb [] now w = w
feed-IsWell lb (b ∷ chunk) now w = record {
  positive = w.positive;
  short = (feed_bounds lb (b ∷ chunk) now w.positive w.short).1;
  plain = scan-kept lb.max_line_size now w.positive [] (lb.buf ++ b ∷ chunk) tt;
}

-- Feeding two chunks at one time gives the lines and the buffer that feeding them as one chunk
-- gives, if the first does not end in a CR, on a splitter as its operations leave it (a positive
-- limit, and a buffer within it with no CR and no LF).
pub feed-append :
    (lb : LineBuffer) (xs ys : List ℕ) (now : ℕ)
    → IsWell lb
    → ends_in_cr xs ≡ false
    → feed lb (xs ++ ys) now ≡ (
        let (first, mid) = feed lb xs now in
        let (second, last) = feed mid ys now in (first ++ second, last))
unfolding feed
feed-append lb [] ys now w h = refl
feed-append lb (x ∷ xs) [] now w h =
    rw (append-nil xs)
      (ap (λ o. (o, (feed lb (x ∷ xs) now).1)) (sym (append-nil (feed lb (x ∷ xs) now).0)))
feed-append lb (x ∷ xs) (y ∷ ys) now w h =
    ap (λ r. (r.0, record lb { buf = r.1 }))
      (ap (scan n now []) (sym (append_assoc lb.buf (x ∷ xs) (y ∷ ys)))
        ∙ scan-append n now w.positive [] (lb.buf ++ x ∷ xs) (y ∷ ys)
            (ends_in_cr-append lb.buf x xs ∙ h)
        ∙ ap (after n now first.0) (
            sym (
              scan-plain n now w.positive [] first.1 (y ∷ ys) kept.plain
                (omega (arith, kept.short)))))
  where
    n : ℕ
    n = lb.max_line_size

    first : List Line × List ℕ
    first = scan n now [] (lb.buf ++ x ∷ xs)

    kept : IsWell (feed lb (x ∷ xs) now).1
    kept = feed-IsWell lb (x ∷ xs) now w

-- `NewLineBuffer` is empty, with a positive limit, at every argument.
pub new_line_buffer-IsWell : (m : ℤ) → IsWell (new_line_buffer m)
unfolding new_line_buffer
new_line_buffer-IsWell m = record { positive = ground arith; short = omega arith; plain = tt }
