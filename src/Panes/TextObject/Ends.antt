-- ===== src/Panes/TextObject/Ends.antt =====
-- internal/tui/panes/logpanel_textobjects.go: what stands at the ends of a text object.
use randomshitgo_go.Prelude.{
  ℕ, ◌+◌, ◌-◌, ◌≤◌, ◌<◌, List, [], ◌∷◌, Option, none, some, Bool, false, ◌&&◌, ◌≡◌, inl, inr, refl,
  ap, subst, ◌∙◌, arith, ltb, leb, ◌==◌, ==_iff, if◌then◌else◌, length, get_or, drop, length-drop,
  drop-eq-cons, All, All-append, Bool-cases, Option-cases,
}
use randomshitgo_go.Panes.Words.{
  ClassFn, is_big_word, is_blank, class_of, run_length, same_class, run_left, run_length-le,
  run_left-le,
}
use randomshitgo_go.Panes.TextObject.{
  Span, blank_object, run_object, tobj_word_like, positions_of, pair_at, first_pair, tobj_quote,
  close_pair, scan_byte, scan_pairs, best_pair, tobj_bracket,
}

-- The span is in the line and holds the column.
abbrev pub Holds : List ℕ → ℕ → Span → Type 0
Holds line col p = (p.0 ≤ col) × (col < p.1) × (p.1 ≤ length line)

-- What a span has to be, if there is one.
abbrev pub Each {ℓ} : (Span → Type ℓ) → Option Span → Type ℓ
Each P none = Unit
Each P (some p) = P p

module _ (line : List ℕ) (col : ℕ) (within : col < length line) (around : Bool) where
  blank_object-Holds : Holds line col (blank_object line col around)
  unfolding blank_object
  blank_object-Holds = ground (
    arith,
    run_left-le is_blank line col,
    run_length-le is_blank (drop (col + 1) line),
    length-drop (col + 1) line,
    run_length-le is_big_word (drop (col + run_length is_blank (drop (col + 1) line) + 1) line),
    length-drop (col + run_length is_blank (drop (col + 1) line) + 1) line,
  )

  run_object-Holds : (cls : ClassFn) (k : ℕ) → Holds line col (run_object cls k line col around)
  unfolding run_object
  run_object-Holds cls k =
      let s = run_left (same_class cls k) line col in
      let end = col + run_length (same_class cls k) (drop (col + 1) line) + 1 in
      ground (
        arith,
        run_left-le (same_class cls k) line col,
        run_left-le is_blank line s,
        run_length-le (same_class cls k) (drop (col + 1) line),
        length-drop (col + 1) line,
        run_length-le is_blank (drop end line),
        length-drop end line,
      )

-- `iw`, `aw`, `iW` and `aW` select a span of the line that holds the cursor, on every line that is
-- not empty; a cursor behind the last byte counts as on it.
pub tobj_word_like-Holds :
    (line : List ℕ) (col : ℕ) (cls : ClassFn) (around : Bool)
    → 0 < length line
    → (p : Span) × (tobj_word_like line col cls around ≡ some p)
      × Holds line (if leb (length line) col then length line - 1 else col) p
unfolding tobj_word_like
tobj_word_like-Holds [] col cls around h = absurd (omega arith)
tobj_word_like-Holds (b ∷ rest) col cls around h =
    let line = b ∷ rest in
    let at = if leb (length line) col then length line - 1 else col in
    let within : at < length line = ground arith in
    elim (Bool-cases (class_of (get_or line at 0) cls == 0)) [
      | inl blank ↦
          (blank_object line at around, rw blank, blank_object-Holds line at within around)
      | inr other ↦ (
        run_object cls (class_of (get_or line at 0) cls) line at around,
        rw other,
        run_object-Holds line at within around cls (class_of (get_or line at 0) cls),
      )
    ]

-- Rising indices from `lo` on, with the byte `q` at each.
abbrev Marks : List ℕ → ℕ → ℕ → List ℕ → Type 0
Marks line q lo [] = Unit
Marks line q lo (x ∷ xs) =
    ((lo ≤ x) × (x < length line) × (get_or line x 0 ≡ q)) × Marks line q (x + 1) xs

Marks-le :
    (line : List ℕ) (q lo lo' : ℕ) (xs : List ℕ)
    → lo ≤ lo'
    → Marks line q lo' xs
    → Marks line q lo xs
Marks-le line q lo lo' [] h m = tt
Marks-le line q lo lo' (x ∷ xs) h m = ((omega arith, m.0.1, m.0.2), m.1)

positions_of-Marks :
    (line : List ℕ) (q : ℕ) (s : List ℕ) (i : ℕ)
    → drop i line ≡ s
    → Marks line q i (positions_of q s i)
unfolding positions_of
positions_of-Marks line q [] i e = tt
positions_of-Marks line q (b ∷ s) i e =
    let (below, at, after) = drop-eq-cons i line b 0 s e in
    let later = positions_of-Marks line q s (i + 1) after in
    elim (Bool-cases (b == q)) [
      | inl hit ↦ rw hit ((omega arith, below, at ∙ (==_iff b q).0 hit), later)
      | inr miss ↦
          rw miss (Marks-le line q i (i + 1) (positions_of q s (i + 1)) (omega arith) later)
    ]

-- The bytes at both ends of a pair.
abbrev pub Encloses : List ℕ → ℕ → ℕ → Span → Type 0
Encloses line q r p =
    (p.0 < p.1) × (p.1 < length line) × (get_or line p.0 0 ≡ q) × (get_or line p.1 0 ≡ r)

pair_at-Encloses :
    (line : List ℕ) (q lo col : ℕ) (xs : List ℕ)
    → Marks line q lo xs
    → Each (Encloses line q q) (pair_at col xs)
unfolding pair_at
pair_at-Encloses line q lo col [] m = tt
pair_at-Encloses line q lo col (o ∷ []) m = tt
pair_at-Encloses line q lo col (o ∷ c ∷ rest) m = elim (Bool-cases (leb o col && leb col c)) [
  | inl here ↦ rw here (omega (arith, m.1.0.0), m.1.0.1, m.0.2, m.1.0.2)
  | inr past ↦ rw past (pair_at-Encloses line q (c + 1) col rest m.1.1)
]

-- The inside of a pair: it begins just behind the open byte and ends at the close byte.
abbrev pub IsInside : List ℕ → ℕ → ℕ → Span → Type 0
IsInside line q r p =
    (0 < p.0)
    × (p.0 ≤ p.1)
    × (p.1 < length line)
    × (get_or line (p.0 - 1) 0 ≡ q)
    × (get_or line p.1 0 ≡ r)

Encloses-IsInside :
    (line : List ℕ) (q r : ℕ) (p : Span) → Encloses line q r p → IsInside line q r (p.0 + 1, p.1)
Encloses-IsInside line q r p (rise, below, at, at_end) = (
  omega arith,
  omega arith,
  below,
  ap (λ i. get_or line i 0) {y = p.0} (omega arith) ∙ at,
  at_end,
)

-- The inside of a quote, `yi"` and its kin, lies between two quote bytes of the line.
pub tobj_quote-IsInside :
    (line : List ℕ) (col q : ℕ) → Each (IsInside line q q) (tobj_quote line col q false)
unfolding tobj_quote
tobj_quote-IsInside line col q = elim (Option-cases (pair_at col (positions_of q line 0))) [
  | inl e ↦ rw (e, tobj_quote) (fallback (positions_of q line 0) marks)
  | inr (p, e) ↦
      rw (e, tobj_quote)
        (Encloses-IsInside line q q p
          (subst (Each (Encloses line q q)) e (pair_at-Encloses line q 0 col _ marks)))
]
  where
    marks : Marks line q 0 (positions_of q line 0)
    marks = positions_of-Marks line q line 0 refl

    fallback :
        (xs : List ℕ) → Marks line q 0 xs → Each (IsInside line q q) (first_pair col false xs)
    fallback [] m = tt
    fallback (o ∷ []) m = tt
    fallback (o ∷ c ∷ rest) m = elim (Bool-cases (ltb col o)) [
      | inr no_quote ↦ rw no_quote tt
      | inl before ↦
          rw before
            (Encloses-IsInside line q q (o, c) (omega (arith, m.1.0.0), m.1.0.1, m.0.2, m.1.0.2))
    ]

module _ (line : List ℕ) (open_ch close_ch : ℕ) where
  -- An open bracket before index `i`.
  abbrev OpenBefore : ℕ → ℕ → Type 0
  OpenBefore i x = (x < i) × (get_or line x 0 ≡ open_ch)

  OpenBefore-suc : (i : ℕ) (xs : List ℕ) → All (OpenBefore i) xs → All (OpenBefore (i + 1)) xs
  OpenBefore-suc i [] h = tt
  OpenBefore-suc i (x ∷ xs) h = ((omega (arith, h.0.0), h.0.1), OpenBefore-suc i xs h.1)

  abbrev Scanned : ℕ → List ℕ × List Span → Type 0
  Scanned i r = All (OpenBefore i) r.0 × All (Encloses line open_ch close_ch) r.1

  close_pair-Scanned :
      (i : ℕ) (stack : List ℕ) (pairs : List Span)
      → i < length line
      → get_or line i 0 ≡ close_ch
      → Scanned i (stack, pairs)
      → Scanned i (close_pair i stack pairs)
  unfolding close_pair
  close_pair-Scanned i [] pairs below at h = h
  close_pair-Scanned i (top ∷ stack) pairs below at h = (
    h.0.1,
    All-append (Encloses line open_ch close_ch) pairs ((top, i) ∷ []) h.1
        ((h.0.0.0, below, h.0.0.1, at), tt),
  )

  scan_byte-Scanned :
      (b i : ℕ) (stack : List ℕ) (pairs : List Span)
      → i < length line
      → get_or line i 0 ≡ b
      → Scanned i (stack, pairs)
      → Scanned (i + 1) (scan_byte open_ch close_ch b i stack pairs)
  unfolding scan_byte
  scan_byte-Scanned b i stack pairs below at h = elim (Bool-cases (b == open_ch)) [
    | inl opens ↦ rw opens (elim (Bool-cases (open_ch == close_ch)) [
      | inl quote ↦ rw quote (OpenBefore-suc i stack h.0, h.1)
      | inr bracket ↦
          rw bracket
            (((omega arith, at ∙ (==_iff b open_ch).0 opens), OpenBefore-suc i stack h.0), h.1)
    ])
    | inr other ↦ rw other (elim (Bool-cases (b == close_ch)) [
      | inl closes ↦
          let done = close_pair-Scanned i stack pairs below (at ∙ (==_iff b close_ch).0 closes) h in
          rw closes (OpenBefore-suc i _ done.0, done.1)
      | inr plain ↦ rw plain (OpenBefore-suc i stack h.0, h.1)
    ])
  ]

  scan_pairs-Encloses :
      (s : List ℕ) (i : ℕ) (stack : List ℕ) (pairs : List Span)
      → drop i line ≡ s
      → Scanned i (stack, pairs)
      → All (Encloses line open_ch close_ch) (scan_pairs open_ch close_ch s i stack pairs)
  unfolding scan_pairs
  scan_pairs-Encloses [] i stack pairs e h = h.1
  scan_pairs-Encloses (b ∷ s) i stack pairs e h =
      let (below, at, after) = drop-eq-cons i line b 0 s e in
      scan_pairs-Encloses s (i + 1) _ _ after (scan_byte-Scanned b i stack pairs below at h)

  -- The best pair is one of the pairs, and holds the column.
  abbrev Chosen : ℕ → Span → Type 0
  Chosen col p = Encloses line open_ch close_ch p × (p.0 ≤ col) × (col ≤ p.1)

  best_pair-Chosen :
      (col : ℕ) (pairs : List Span) (best : Option Span)
      → All (Encloses line open_ch close_ch) pairs
      → Each (Chosen col) best
      → Each (Chosen col) (best_pair col pairs best)
  unfolding best_pair
  best_pair-Chosen col [] best h c = c
  best_pair-Chosen col ((o, e) ∷ pairs) none h c =
      best_pair-Chosen col pairs _ h.1 (elim (Bool-cases (leb o col && leb col e)) [
        | inl holds ↦ rw holds (h.0, ground arith, ground arith)
        | inr misses ↦ rw misses tt
      ])
  best_pair-Chosen col ((o, e) ∷ pairs) (some (p, q)) h c =
      best_pair-Chosen col pairs _ h.1
        (elim (Bool-cases (leb o col && leb col e && leb p o && leb e q)) [
          | inl holds ↦ rw holds (h.0, ground arith, ground arith)
          | inr misses ↦ rw misses c
        ])

  -- The inside of a bracket, `yi(` and its kin, lies between an open and a close bracket of the
  -- line, and the cursor is on one of these or between them.
  pub tobj_bracket-IsInside :
      (col : ℕ)
      → Each
          (λ p. IsInside line open_ch close_ch p × (p.0 ≤ col + 1) × (col ≤ p.1))
          (tobj_bracket line col open_ch close_ch false)
  unfolding tobj_bracket
  tobj_bracket-IsInside col =
      elim (Option-cases (best_pair col (scan_pairs open_ch close_ch line 0 [] []) none)) [
        | inl e ↦ rw (e, tobj_bracket) tt
        | inr ((o, c), e) ↦
            let (ends, left, right) =
              subst (Each (Chosen col)) e
                (best_pair-Chosen col _ none (scan_pairs-Encloses line 0 [] [] refl (tt, tt)) tt) in
            rw (e, tobj_bracket)
              (Encloses-IsInside line open_ch close_ch (o, c) ends, omega arith, right)
      ]
