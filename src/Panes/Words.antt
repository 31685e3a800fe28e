-- ===== src/Panes/Words.antt =====
-- internal/tui/panes/logpanel_motion.go and logpanel_motion_ranges.go: byte classes, and the loops
-- over a line that the word motions and text objects share.
use randomshitgo_go.Prelude.{
  ℕ, zero, suc, ◌-◌, ◌≤◌, ◌<◌, List, [], ◌∷◌, Bool, true, false, not, ◌&&◌, ◌||◌, ◌≡◌, ap, ◌∙◌, inl,
  inr, Bool-cases, arith, ltb, leb, ◌==◌, if◌then◌else◌, length, get_or,
}

abbrev pub ClassFn : Type 0
ClassFn = ℕ → Bool

unfoldable pub is_word : ClassFn
is_word b =
    (leb b'a' b && leb b b'z')
    || (leb b'A' b && leb b b'Z')
    || (leb b'0' b && leb b b'9')
    || b == b'_'

-- `b == ' ' || b == '\t'`
abbrev pub is_blank : ClassFn
is_blank b = b == 0x20 || b == 0x09

-- `isWORD`
unfoldable pub is_big_word : ClassFn
is_big_word b = not (is_blank b)

-- 0 is white space, 1 the class, 2 punctuation.
unfoldable pub class_of : ℕ → ClassFn → ℕ
class_of b cls = if is_blank b then 0 else if cls b then 1 else 2

-- How many bytes at the head of `s` pass the test: what a loop `for col < len(s) && test(s[col])`
-- adds to `col`, if `s` is the line from `col` on.
unfoldable pub run_length : ClassFn → List ℕ → ℕ
run_length test [] = 0
run_length test (b ∷ s) = let more = suc (run_length test s) in if test b then more else 0

abbrev pub same_class : ClassFn → ℕ → ClassFn
same_class cls k b = class_of b cls == k

-- The loop `for col > 0 && test(s[col-1]) { col-- }`.
unfoldable pub run_left : ClassFn → List ℕ → ℕ → ℕ
run_left test s zero = 0
run_left test s (suc col) =
    let left = run_left test s col in if test (get_or s col 0) then left else suc col

-- The loop `for col >= 0 && col < len(s) && blank(s[col]) { col-- }`, for `k` = col + 1.
unfoldable pub skip_blanks_left : List ℕ → ℕ → ℕ
skip_blanks_left s zero = 0
skip_blanks_left s (suc col) =
    let left = skip_blanks_left s col in
    if ltb col (length s) && is_blank (get_or s col 0) then left else suc col

unfoldable pub first_non_blank : List ℕ → ℕ
first_non_blank s = run_length is_blank s

pub run_length-le : (test : ClassFn) (s : List ℕ) → run_length test s ≤ length s
unfolding run_length
run_length-le test [] = omega arith
run_length-le test (b ∷ s) = ground (arith, run_length-le test s)

pub run_left-le : (test : ClassFn) (s : List ℕ) (col : ℕ) → run_left test s col ≤ col
unfolding run_left
run_left-le test s zero = omega arith
run_left-le test s (suc col) = ground (arith, run_left-le test s col)

pub skip_blanks_left-le : (s : List ℕ) (k : ℕ) → skip_blanks_left s k ≤ k
unfolding skip_blanks_left
skip_blanks_left-le s zero = omega arith
skip_blanks_left-le s (suc col) = ground (arith, skip_blanks_left-le s col)

-- Where a run stops short of the end, the next byte fails the test.
pub run_length_stop :
    (test : ClassFn) (s : List ℕ)
    → run_length test s < length s
    → test (get_or s (run_length test s) 0) ≡ false
unfolding run_length
run_length_stop test [] h = absurd (omega arith)
run_length_stop test (b ∷ s) h = elim (Bool-cases (test b)) [
  | inl e ↦ rw e (run_length_stop test s (let h' = rw e at h in omega arith))
  | inr e ↦ rw e e
]

-- A leftward run stops at the line start or behind a byte that fails the test.
pub run_left_stop :
    (test : ClassFn) (s : List ℕ) (col : ℕ)
    → 0 < run_left test s col
    → test (get_or s (run_left test s col - 1) 0) ≡ false
unfolding run_left
run_left_stop test s zero h = absurd (omega arith)
run_left_stop test s (suc col) h = elim (Bool-cases (test (get_or s col 0))) [
  | inl e ↦ rw e (run_left_stop test s col (rw e at h))
  | inr e ↦ rw e (ap (λ i. test (get_or s i 0)) (omega arith) ∙ e)
]

-- If its first byte passes the test, so does the byte at which it stops.
pub run_left_here :
    (test : ClassFn) (s : List ℕ) (col : ℕ)
    → test (get_or s col 0) ≡ true
    → test (get_or s (run_left test s col) 0) ≡ true
unfolding run_left
run_left_here test s zero h = h
run_left_here test s (suc col) h = elim (Bool-cases (test (get_or s col 0))) [
  | inl e ↦ rw e (run_left_here test s col e)
  | inr e ↦ rw e h
]

pub skip_blanks_left_stop :
    (s : List ℕ) (k : ℕ)
    → 0 < skip_blanks_left s k
    → skip_blanks_left s k ≤ length s
    → is_blank (get_or s (skip_blanks_left s k - 1) 0) ≡ false
unfolding skip_blanks_left
skip_blanks_left_stop s zero h le = absurd (omega arith)
skip_blanks_left_stop s (suc col) h le =
    elim (Bool-cases (ltb col (length s) && is_blank (get_or s col 0))) [
      | inl e ↦ rw e (skip_blanks_left_stop s col (rw e at h) (rw e at le))
      | inr e ↦
          rw e
            (ap (λ i. is_blank (get_or s i 0)) {y = col} (omega arith) ∙ not_blank e (rw e at le))
    ]
  where
    not_blank :
        (ltb col (length s) && is_blank (get_or s col 0)) ≡ false
        → suc col ≤ length s
        → is_blank (get_or s col 0) ≡ false
    not_blank e le = ground arith
