-- ===== src/Panes/Motion/Landing.antt =====
-- internal/tui/panes/logpanel_motion_ranges.go: the word motions land where words begin and end.
use native.Mathlib.Decide.{ℕ_discrete}
use randomshitgo_go.Prelude.{
  ℕ, zero, suc, ◌+◌, ◌-◌, ◌<◌, List, [], ◌∷◌, some, false, ◌≡◌, ◌≢◌, ◌⊎◌, inl, inr, refl, sym, ap,
  ◌∙◌, arith, ltb, leb, ltb→lt, true≢false, ==_iff, length, get_or, drop, get_or-drop, length-drop,
  drop-eq-cons, Bool-cases, Option-cases,
}
use randomshitgo_go.Panes.Cursor.{Cursor, at_pos, stripped_line, line_len, buffer_end}
use randomshitgo_go.Panes.Words.{
  ClassFn, is_blank, class_of, run_length, same_class, run_left, run_length_stop, run_left_stop,
  run_left-le, run_left_here, skip_blanks_left_stop,
}
use randomshitgo_go.Panes.Motion.{
  next_non_blank, word_forward_inside, word_forward_once, step_back, back_to_non_blank,
  previous_non_blank, word_backward_once,
}

abbrev pub byte_at : List (List ℕ) → Cursor → ℕ
byte_at lines c = get_or (stripped_line lines c.line) c.col 0

-- The cursor stands on a byte that is no white space.
abbrev pub OnWord : List (List ℕ) → Cursor → Type 0
OnWord lines c = (c.col < line_len lines c.line) × (is_blank (byte_at lines c) ≡ false)

-- No byte of the same class stands before it on the line.
abbrev pub BeginsRun : List (List ℕ) → ClassFn → Cursor → Type 0
BeginsRun lines cls c =
    (c.col ≡ 0)
    ⊎ (class_of (get_or (stripped_line lines c.line) (c.col - 1) 0) cls
        ≢ class_of (byte_at lines c) cls)

module _ (lines : List (List ℕ)) where
  next_non_blank-OnWord :
      (rest : List (List ℕ)) (line col : ℕ)
      → drop line lines ≡ rest
      → OnWord lines (next_non_blank lines rest line col)
        ⊎ (next_non_blank lines rest line col ≡ buffer_end lines)
  unfolding next_non_blank
  next_non_blank-OnWord [] line col e = inr refl
  next_non_blank-OnWord (s ∷ rest) line col e =
      let (below, at, after) = drop-eq-cons line lines s [] rest e in
      elim (Bool-cases (ltb (col + run_length is_blank (drop col s)) (length s))) [
        | inl found ↦ rw found (
            inl (
              omega (arith, ltb→lt _ _ found, ap length at),
              ap (λ t. is_blank (get_or t (col + run_length is_blank (drop col s)) 0)) at
                  ∙ ap is_blank (sym (get_or-drop col (run_length is_blank (drop col s)) s 0))
                  ∙ run_length_stop is_blank (drop col s)
                      (omega (arith, ltb→lt _ _ found, length-drop col s)),
            ))
        | inr past ↦ rw past (elim (Bool-cases (leb (length lines) (line + 1))) [
          | inl last ↦ rw last (inr refl)
          | inr more ↦ rw more (next_non_blank-OnWord rest (line + 1) 0 after)
        ])
      ]

  -- `w` lands on a byte that is no white space, or at the end of the buffer.
  pub word_forward_once-OnWord :
      (c : Cursor) (cls : ClassFn)
      → OnWord lines (word_forward_once lines c cls)
        ⊎ (word_forward_once lines c cls ≡ buffer_end lines)
  unfolding word_forward_once word_forward_inside
  word_forward_once-OnWord c cls = elim (Bool-cases (leb (line_len lines c.line) c.col)) [
    | inr inside ↦ rw inside (next_non_blank-OnWord _ c.line _ refl)
    | inl past ↦ rw past (elim (Bool-cases (leb (length lines) (c.line + 1))) [
      | inl last ↦ rw last (inr refl)
      | inr more ↦ rw more (next_non_blank-OnWord _ (c.line + 1) _ refl)
    ])
  ]

  -- From behind the last byte of a line, where `$` puts the cursor, `w` does as from the first
  -- byte of the next line, if that line is not empty: a word that begins there is passed over.
  pub word_forward_once_line_end :
      (line : ℕ) (cls : ClassFn)
      → line + 1 < length lines
      → 0 < line_len lines (line + 1)
      → word_forward_once lines (at_pos line (line_len lines line)) cls
        ≡ word_forward_once lines (at_pos (line + 1) 0) cls
  unfolding word_forward_once
  word_forward_once_line_end line cls more some_byte = ground arith

  back_to_non_blank-OnWord :
      (line k : ℕ) (c : Cursor) → back_to_non_blank lines line k ≡ some c → OnWord lines c
  unfolding back_to_non_blank
  back_to_non_blank-OnWord zero k c e =
      ground (arith, skip_blanks_left_stop (stripped_line lines 0) k)
  back_to_non_blank-OnWord (suc line) k c e = ground (
    arith,
    skip_blanks_left_stop (stripped_line lines (suc line)) k,
    back_to_non_blank-OnWord line (line_len lines line) c,
  )

  previous_non_blank-OnWord : (c d : Cursor) → previous_non_blank lines c ≡ some d → OnWord lines d
  unfolding previous_non_blank
  previous_non_blank-OnWord c d e = elim (Option-cases (step_back lines c)) [
    | inl none_before ↦ absurd (ground arith)
    | inr (b, before) ↦ back_to_non_blank-OnWord b.line (b.col + 1) d (ground arith)
  ]

  -- Bytes of one class are white space together.
  class_of-is_blank :
      (a b : ℕ) (cls : ClassFn)
      → class_of a cls ≡ class_of b cls
      → is_blank b ≡ false
      → is_blank a ≡ false
  unfolding class_of
  class_of-is_blank a b cls e h = ground arith

  run_left-BeginsRun :
      (d : Cursor) (cls : ClassFn)
      → OnWord lines d
      → let s = stripped_line lines d.line in
        let k = class_of (get_or s d.col 0) cls in
        OnWord lines (at_pos d.line (run_left (same_class cls k) s d.col))
        × BeginsRun lines cls (at_pos d.line (run_left (same_class cls k) s d.col))
  run_left-BeginsRun d cls h = (
    (omega (arith, run_left-le test s d.col, h.0), class_of-is_blank _ _ cls same h.1),
    elim (ℕ_discrete r 0) [
      | yes z ↦ inl z
      | no nz ↦ inr (λ q.
          true≢false (sym ((==_iff _ k).1 (q ∙ same)) ∙ run_left_stop test s d.col (omega arith)))
    ],
  )
    where
      s : List ℕ
      s = stripped_line lines d.line

      k : ℕ
      k = class_of (get_or s d.col 0) cls

      test : ClassFn
      test = same_class cls k

      r : ℕ
      r = run_left test s d.col

      same : class_of (get_or s r 0) cls ≡ k
      same = (==_iff _ k).0 (run_left_here test s d.col ((==_iff k k).1 refl))

  -- `b` lands on the first byte of a word, or at the start of the buffer.
  pub word_backward_once-BeginsRun :
      (c : Cursor) (cls : ClassFn)
      → (OnWord lines (word_backward_once lines c cls)
          × BeginsRun lines cls (word_backward_once lines c cls))
        ⊎ (word_backward_once lines c cls ≡ at_pos 0 0)
  unfolding word_backward_once
  word_backward_once-BeginsRun c cls = elim (Option-cases (previous_non_blank lines c)) [
    | inl e ↦ rw (e, word_backward_once) (inr refl)
    | inr (d, e) ↦
        rw (e, word_backward_once)
          (inl (run_left-BeginsRun d cls (previous_non_blank-OnWord c d e)))
  ]
