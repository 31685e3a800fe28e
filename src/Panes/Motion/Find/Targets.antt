-- ===== src/Panes/Motion/Find/Targets.antt =====
-- internal/tui/panes/logpanel_motion_ranges.go: where f, F, t and T end, and what a count does.
use randomshitgo_go.Prelude.{
  ℕ, zero, suc, ◌+◌, ◌-◌, ◌≤◌, ◌<◌, max, List, [], ◌∷◌, Option, none, some, ◌≡◌, ◌≢◌, ◌⊎◌, inl, inr,
  sym, ap, ◌∙◌, arith, ◌==◌, ==_iff, if◌then◌else◌, length, get_or, drop, get_or-drop, length-drop,
  Bool-cases, Option-cases,
}
use randomshitgo_go.Panes.Cursor.{Cursor, MotionRange, stripped_line, line_len}
use randomshitgo_go.Panes.Motion.Find.{
  FindState, find_forward, find_backward, find_range, range_find, found_index,
}

find_forward_sound :
    (ch : ℕ) (s : List ℕ) (i k : ℕ) (found : Option ℕ) (j : ℕ)
    → find_forward ch s i k found ≡ some j
    → (found ≡ some j) ⊎ ((i ≤ j) × (j < i + length s) × (get_or s (j - i) 0 ≡ ch))
unfolding find_forward
find_forward_sound ch [] i k found j e = inl e
find_forward_sound ch (b ∷ s) i zero found j e = inl e
find_forward_sound ch (b ∷ s) i (suc k) found j e = elim (Bool-cases (b == ch)) [
  | inl hit ↦
      later (find_forward_sound ch s (i + 1) k (some i) j (rw hit at e)) ((==_iff b ch).0 hit)
  | inr miss ↦ earlier (find_forward_sound ch s (i + 1) (suc k) found j (rw miss at e))
]
  where
    after :
        (i + 1 ≤ j) × (j < i + 1 + length s) × (get_or s (j - (i + 1)) 0 ≡ ch)
        → (i ≤ j) × (j < i + length (b ∷ s)) × (get_or (b ∷ s) (j - i) 0 ≡ ch)
    after (le, lt, at) = (
      omega arith,
      omega arith,
      ap (λ n. get_or (b ∷ s) n 0) {y = suc (j - (i + 1))} (omega arith) ∙ at,
    )

    later :
        (some i ≡ some j) ⊎ ((i + 1 ≤ j) × (j < i + 1 + length s) × (get_or s (j - (i + 1)) 0 ≡ ch))
        → b ≡ ch
        → (found ≡ some j) ⊎ ((i ≤ j) × (j < i + length (b ∷ s)) × (get_or (b ∷ s) (j - i) 0 ≡ ch))
    later (inl q) h =
        let same : i ≡ j = ground arith in
        inr (omega arith, omega arith, ap (λ n. get_or (b ∷ s) n 0) {y = 0} (omega arith) ∙ h)
    later (inr q) h = inr (after q)

    earlier :
        (found ≡ some j) ⊎ ((i + 1 ≤ j) × (j < i + 1 + length s) × (get_or s (j - (i + 1)) 0 ≡ ch))
        → (found ≡ some j) ⊎ ((i ≤ j) × (j < i + length (b ∷ s)) × (get_or (b ∷ s) (j - i) 0 ≡ ch))
    earlier (inl q) = inl q
    earlier (inr q) = inr (after q)

find_backward_sound :
    (ch : ℕ) (s : List ℕ) (i k : ℕ) (found : Option ℕ) (j : ℕ)
    → find_backward ch s i k found ≡ some j
    → (found ≡ some j) ⊎ ((j < i) × (get_or s j 0 ≡ ch))
unfolding find_backward
find_backward_sound ch s zero k found j e = inl e
find_backward_sound ch s (suc i) zero found j e = inl e
find_backward_sound ch s (suc i) (suc k) found j e = elim (Bool-cases (get_or s i 0 == ch)) [
  | inl hit ↦
      later (find_backward_sound ch s i k (some i) j (rw hit at e))
        ((==_iff (get_or s i 0) ch).0 hit)
  | inr miss ↦ earlier (find_backward_sound ch s i (suc k) found j (rw miss at e))
]
  where
    later :
        (some i ≡ some j) ⊎ ((j < i) × (get_or s j 0 ≡ ch))
        → get_or s i 0 ≡ ch
        → (found ≡ some j) ⊎ ((j < suc i) × (get_or s j 0 ≡ ch))
    later (inl q) h =
        let same : i ≡ j = ground arith in inr (omega arith, ap (λ n. get_or s n 0) (sym same) ∙ h)
    later (inr q) h = inr (omega arith, q.1)

    earlier :
        (found ≡ some j) ⊎ ((j < i) × (get_or s j 0 ≡ ch))
        → (found ≡ some j) ⊎ ((j < suc i) × (get_or s j 0 ≡ ch))
    earlier (inl q) = inl q
    earlier (inr q) = inr (omega arith, q.1)

-- The column that a range without `till` ends at holds the byte looked for.
abbrev pub IsTarget : List (List ℕ) → Cursor → FindState → MotionRange → Type 0
IsTarget lines start f r =
    (r.start ≡ start)
    × (r.end.line ≡ start.line)
    × ((found : ℕ) × (get_or (stripped_line lines start.line) found 0 ≡ f.ch)
        × (r.end.col ≡ (if f.till then if f.forward then found - 1 else found + 1 else found))
        × (if f.forward
            then (start.col < found) × (found < line_len lines start.line)
            else (found < start.col)))

find_result :
    (lines : List (List ℕ)) (start : Cursor) (f : FindState) (found : ℕ) (r : MotionRange)
    → get_or (stripped_line lines start.line) found 0 ≡ f.ch
    → (if f.forward
        then (start.col < found) × (found < line_len lines start.line)
        else (found < start.col))
    → find_range start f (stripped_line lines start.line) found ≡ some r
    → IsTarget lines start f r
unfolding find_range
find_result lines start f found r at where_it_is e =
    (ground arith, ground arith, (found, at, ground arith, where_it_is))

module _ (lines : List (List ℕ)) (start : Cursor) (f : FindState) (n : ℕ) where
  forward_target :
      (found : ℕ)
      → find_forward f.ch
          (drop (start.col + 1) (stripped_line lines start.line))
          (start.col + 1)
          (max 1 n)
          none
        ≡ some found
      → (get_or (stripped_line lines start.line) found 0 ≡ f.ch)
        × (start.col < found)
        × (found < line_len lines start.line)
  forward_target found e = elim (find_forward_sound f.ch _ (start.col + 1) (max 1 n) none found e) [
    | inl q ↦ absurd (cc)
    | inr (above, below, at) ↦ (
      ap (λ i. get_or s i 0) (omega arith)
          ∙ sym (get_or-drop (start.col + 1) (found - (start.col + 1)) s 0)
          ∙ at,
      omega arith,
      omega (arith, length-drop (start.col + 1) s),
    )
  ]
    where
      s : List ℕ
      s = stripped_line lines start.line

  backward_target :
      (found : ℕ)
      → find_backward f.ch (stripped_line lines start.line) start.col (max 1 n) none ≡ some found
      → (get_or (stripped_line lines start.line) found 0 ≡ f.ch) × (found < start.col)
  backward_target found e = elim (find_backward_sound f.ch _ start.col (max 1 n) none found e) [
    | inl q ↦ absurd (cc)
    | inr (below, at) ↦ (at, below)
  ]

  -- A find ends on its own line: `f` at a byte equal to the target behind the cursor, `F` at one
  -- before it, `t` and `T` one column short of such a byte.
  pub range_find-IsTarget :
      (r : MotionRange) → range_find lines start f n ≡ some r → IsTarget lines start f r
  unfolding range_find
  range_find-IsTarget r e = elim (Bool-cases f.forward) [
    | inl fw ↦
        elim (Option-cases (
          find_forward f.ch (drop (start.col + 1) (stripped_line lines start.line)) (start.col + 1)
            (max 1 n) none)) [
              | inl q ↦ absurd (ground (arith, fw, q, e))
              | inr (found, q) ↦
                  let (at, above, below) = forward_target found q in
                  find_result lines start f found r at (rw fw (above, below))
                    (ground (arith, fw, q, e))
            ]
    | inr bw ↦
        elim (Option-cases
          (find_backward f.ch (stripped_line lines start.line) start.col (max 1 n) none)) [
            | inl q ↦ absurd (ground (arith, bw, q, e))
            | inr (found, q) ↦
                let (at, below) = backward_target found q in
                find_result lines start f found r at (rw bw below) (ground (arith, bw, q, e))
          ]
  ]

find_forward-some : (ch : ℕ) (s : List ℕ) (i k j : ℕ) → find_forward ch s i k (some j) ≢ none
unfolding find_forward
find_forward-some ch [] i k j = λ e. cc
find_forward-some ch (b ∷ s) i zero j = λ e. cc
find_forward-some ch (b ∷ s) i (suc k) j = elim (Bool-cases (b == ch)) [
  | inl hit ↦ rw hit (find_forward-some ch s (i + 1) k i)
  | inr miss ↦ rw miss (find_forward-some ch s (i + 1) (suc k) j)
]

find_forward_any :
    (ch : ℕ) (s : List ℕ) (i k k' : ℕ)
    → find_forward ch s i (suc k) none ≢ none
    → find_forward ch s i (suc k') none ≢ none
unfolding find_forward
find_forward_any ch [] i k k' h = h
find_forward_any ch (b ∷ s) i k k' h = elim (Bool-cases (b == ch)) [
  | inl hit ↦ rw hit (find_forward-some ch s (i + 1) k' i)
  | inr miss ↦ rw miss (find_forward_any ch s (i + 1) k k' (rw miss at h))
]

forward_any :
    (ch : ℕ) (s : List ℕ) (i k k' : ℕ)
    → 0 < k
    → 0 < k'
    → find_forward ch s i k none ≢ none
    → find_forward ch s i k' none ≢ none
forward_any ch s i zero k' a b h = absurd (omega arith)
forward_any ch s i (suc k) zero a b h = absurd (omega arith)
forward_any ch s i (suc k) (suc k') a b h = find_forward_any ch s i k k' h

find_backward-some : (ch : ℕ) (s : List ℕ) (i k j : ℕ) → find_backward ch s i k (some j) ≢ none
unfolding find_backward
find_backward-some ch s zero k j = λ e. cc
find_backward-some ch s (suc i) zero j = λ e. cc
find_backward-some ch s (suc i) (suc k) j = elim (Bool-cases (get_or s i 0 == ch)) [
  | inl hit ↦ rw hit (find_backward-some ch s i k i)
  | inr miss ↦ rw miss (find_backward-some ch s i (suc k) j)
]

find_backward_any :
    (ch : ℕ) (s : List ℕ) (i k k' : ℕ)
    → find_backward ch s i (suc k) none ≢ none
    → find_backward ch s i (suc k') none ≢ none
unfolding find_backward
find_backward_any ch s zero k k' h = h
find_backward_any ch s (suc i) k k' h = elim (Bool-cases (get_or s i 0 == ch)) [
  | inl hit ↦ rw hit (find_backward-some ch s i k' i)
  | inr miss ↦ rw miss (find_backward_any ch s i k k' (rw miss at h))
]

backward_any :
    (ch : ℕ) (s : List ℕ) (i k k' : ℕ)
    → 0 < k
    → 0 < k'
    → find_backward ch s i k none ≢ none
    → find_backward ch s i k' none ≢ none
backward_any ch s i zero k' a b h = absurd (omega arith)
backward_any ch s i (suc k) zero a b h = absurd (omega arith)
backward_any ch s i (suc k) (suc k') a b h = find_backward_any ch s i k k' h

-- A count beyond the matches on the line is no failure: if the search with one count has a match,
-- so has the search with any other count.
pub found_index_any_count :
    (lines : List (List ℕ)) (start : Cursor) (f : FindState) (n m : ℕ)
    → found_index lines start f n ≢ none
    → found_index lines start f m ≢ none
found_index_any_count lines start f n m h = elim (Bool-cases f.forward) [
  | inl fw ↦ rw fw (
      forward_any f.ch _ (start.col + 1) (max 1 n) (max 1 m) (omega arith) (omega arith)
        (rw fw at h))
  | inr bw ↦
      rw bw
        (backward_any f.ch _ start.col (max 1 n) (max 1 m) (omega arith) (omega arith) (rw bw at h))
]
