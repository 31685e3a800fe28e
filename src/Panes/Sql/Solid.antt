-- ===== src/Panes/Sql/Solid.antt =====
-- internal/tui/panes/logpanel_sql.go: what formatting keeps of a text.
use randomshitgo_go.Prelude.{
  ℕ, zero, suc, ◌-◌, ◌≤◌, ◌<◌, List, [], ◌∷◌, ◌++◌, Option, none, some, true, not, ◌&&◌, ◌≡◌, refl,
  ap, ap₂, sym, ◌∙◌, arith, if◌then◌else◌, if_either, if_given, both, ==_iff, ltb→lt, length, ltb,
  ◌==◌, get_or, take, drop, replicate, take-append-drop, length-drop, append-nil, append_assoc,
}
use randomshitgo_go.Panes.Text.{
  is_blank, trim_left, trim_right, trim_space, skip_space, cut_space, space_width,
}
use randomshitgo_go.Panes.Sql.{
  Format, emit, round, format_loop, format_sql, match_keyword, write, is_quote, is_keyword_boundary,
  nothing_read, or_trimmed,
}

-- The bytes but blanks and tabs.
abbrev pub solid : List ℕ → List ℕ
solid [] = []
solid (b ∷ bs) = if is_blank b then solid bs else b ∷ solid bs

abbrev pub all_solid : List (List ℕ) → List ℕ
all_solid [] = []
all_solid (r ∷ rs) = solid r ++ all_solid rs

pub solid-append : (xs ys : List ℕ) → solid (xs ++ ys) ≡ solid xs ++ solid ys
solid-append [] ys = refl
solid-append (x ∷ xs) ys = ground (arith, solid-append xs ys)

all_solid-append : (rs qs : List (List ℕ)) → all_solid (rs ++ qs) ≡ all_solid rs ++ all_solid qs
all_solid-append [] qs = refl
all_solid-append (r ∷ rs) qs =
    ap (λ t. solid r ++ t) (all_solid-append rs qs)
    ∙ sym (append_assoc (solid r) (all_solid rs) (all_solid qs))

pub solid-trim_left : (s : List ℕ) → solid (trim_left s) ≡ solid s
unfolding trim_left
solid-trim_left [] = refl
solid-trim_left (b ∷ bs) = ground (arith, solid-trim_left bs)

solid-cons_unless :
    (b : ℕ) (t bs : List ℕ)
    → trim_right bs ≡ t
    → solid t ≡ solid bs
    → solid (trim_right (b ∷ bs)) ≡ solid (b ∷ bs)
unfolding trim_right
solid-cons_unless b [] bs e h = rw e (ground (arith, h))
solid-cons_unless b (c ∷ cs) bs e h = rw e (ap (λ u. if is_blank b then u else b ∷ u) h)

pub solid-trim_right : (s : List ℕ) → solid (trim_right s) ≡ solid s
unfolding trim_right
solid-trim_right [] = refl
solid-trim_right (b ∷ bs) = solid-cons_unless b (trim_right bs) bs refl (solid-trim_right bs)

solid-replicate : (n : ℕ) (s : List ℕ) → solid (replicate n 0x20 ++ s) ≡ solid s
solid-replicate zero s = refl
solid-replicate (suc n) s = solid-replicate n s

solid-empty : (s : List ℕ) → length s ≡ 0 → solid s ≡ []
solid-empty [] h = refl
solid-empty (b ∷ bs) h = absurd (omega arith)

-- What was read so far.
abbrev content : Format → List ℕ
content f = all_solid f.rows ++ solid f.cur

trimmed-solid : (s : List ℕ) → solid (trim_left (trim_right s)) ≡ solid s
trimmed-solid s = solid-trim_left (trim_right s) ∙ solid-trim_right s

emit-content : (f : Format) → content (emit f) ≡ content f
unfolding emit
emit-content f =
    let trimmed : List ℕ = trim_left (trim_right f.cur) in
    if_either (λ (g : Format). content g ≡ content f) (length trimmed == 0) refl
      (append-nil (all_solid (f.rows ++ (replicate f.last_indent 0x20 ++ trimmed) ∷ []))
        ∙ all_solid-append f.rows ((replicate f.last_indent 0x20 ++ trimmed) ∷ [])
        ∙ ap (λ t. all_solid f.rows ++ t)
            (append-nil (solid (replicate f.last_indent 0x20 ++ trimmed))
              ∙ solid-replicate f.last_indent trimmed
              ∙ trimmed-solid f.cur))

write-content : (bs : List ℕ) (f : Format) → content (write bs f) ≡ content f ++ solid bs
write-content bs f =
    ap (λ t. all_solid f.rows ++ t) (solid-append f.cur bs)
    ∙ sym (append_assoc (all_solid f.rows) (solid f.cur) (solid bs))

-- A round reads something, and keeps it but for blanks.
abbrev Keeps : List ℕ → Format → ℕ × Format → Type 0
Keeps s f r = (0 < r.0) × (content r.1 ≡ content f ++ solid (take r.0 s))

second_byte :
    (b : ℕ) (bs : List ℕ)
    → ltb 1 (length (b ∷ bs)) ≡ true
    → take 2 (b ∷ bs) ≡ b ∷ get_or bs 0 0 ∷ []
second_byte b [] h = absurd (ground arith)
second_byte b (c ∷ cs) h = refl

round-Keeps :
    (prev : Option ℕ) (b : ℕ) (bs : List ℕ) (f : Format) → Keeps (b ∷ bs) f (round prev (b ∷ bs) f)
unfolding round
round-Keeps prev b bs f =
    let K : ℕ × Format → Type 0 = Keeps (b ∷ bs) f in
    let n : ℕ = (match_keyword (b ∷ bs)).0 in
    let one : content (write (b ∷ []) f) ≡ content f ++ solid (b ∷ []) = write-content (b ∷ []) f in
    if_either K (not (f.quote == 0))
      (if_either K (b == f.quote)
        (if_given K (ltb 1 (length (b ∷ bs)) && get_or bs 0 0 == f.quote)
          (λ h.
            let (long, same) = both (ltb 1 (length (b ∷ bs))) (get_or bs 0 0 == f.quote) h in
            (
              omega arith,
              write-content (b ∷ f.quote ∷ []) f
                  ∙ ap (λ t. content f ++ solid t)
                      (sym (
                        second_byte b bs long
                        ∙ ap (λ c. b ∷ c ∷ []) ((==_iff (get_or bs 0 0) f.quote).0 same))),
            ))
          (omega arith, one))
        (omega arith, one))
      (if_either K (is_quote b) (omega arith, one)
        (if_either K (b == b'(') (omega arith, one)
          (if_either K (b == b')') (omega arith, one)
            (if_given K (f.paren_depth == 0 && is_keyword_boundary prev && ltb 0 n)
              (λ h. (
                ltb→lt 0 n (both (f.paren_depth == 0 && is_keyword_boundary prev) (ltb 0 n) h).1,
                write-content (take n (b ∷ bs)) (emit f)
                    ∙ ap (λ t. t ++ solid (take n (b ∷ bs))) (emit-content f),
              ))
              (omega arith, one)))))

format_loop-content :
    (fuel : ℕ) (prev : Option ℕ) (s : List ℕ) (f : Format)
    → length s ≤ fuel
    → content (format_loop fuel prev s f) ≡ content f ++ solid s
unfolding format_loop
format_loop-content zero prev [] f h = sym (append-nil (content f))
format_loop-content zero prev (b ∷ bs) f h = absurd (omega arith)
format_loop-content (suc fuel) prev [] f h = sym (append-nil (content f))
format_loop-content (suc fuel) prev (b ∷ bs) f h =
    let n : ℕ = (round prev (b ∷ bs) f).0 in
    let (some_read, kept) = round-Keeps prev b bs f in
    let short : length (drop n (b ∷ bs)) ≤ fuel =
      omega (arith, some_read, length-drop n (b ∷ bs)) in
    format_loop-content fuel (some (get_or (b ∷ bs) (n - 1) 0)) (drop n (b ∷ bs))
      (round prev (b ∷ bs) f).1 short
    ∙ ap (λ t. t ++ solid (drop n (b ∷ bs))) kept
    ∙ append_assoc (content f) (solid (take n (b ∷ bs))) (solid (drop n (b ∷ bs)))
    ∙ ap (λ t. content f ++ t)
        (sym (solid-append (take n (b ∷ bs)) (drop n (b ∷ bs)))
          ∙ ap solid (take-append-drop n (b ∷ bs)))

-- What is left after the last row is blank.
emit-rest : (f : Format) → solid (emit f).cur ≡ []
unfolding emit
emit-rest f =
    let trimmed : List ℕ = trim_left (trim_right f.cur) in
    if_given (λ (g : Format). solid g.cur ≡ []) (length trimmed == 0)
      (λ h. sym (trimmed-solid f.cur) ∙ solid-empty trimmed ((==_iff (length trimmed) 0).0 h)) refl

nil-append : (xs ys : List ℕ) → xs ++ ys ≡ [] → (xs ≡ []) × (ys ≡ [])
nil-append [] ys h = (refl, h)
nil-append (x ∷ xs) ys h = absurd (cc)

blank-parts :
    (n : ℕ) (s : List ℕ) → solid s ≡ [] → (solid (take n s) ≡ []) × (solid (drop n s) ≡ [])
blank-parts n s h =
    nil-append (solid (take n s)) (solid (drop n s))
      (sym (solid-append (take n s) (drop n s)) ∙ ap solid (take-append-drop n s) ∙ h)

skip_space-solid : (fuel : ℕ) (s : List ℕ) → solid s ≡ [] → solid (skip_space fuel s) ≡ []
unfolding skip_space
skip_space-solid zero s h = h
skip_space-solid (suc fuel) s h =
    if_either (λ (t : List ℕ). solid t ≡ []) (space_width s == 0) h
      (skip_space-solid fuel (drop (space_width s) s) (blank-parts (space_width s) s h).1)

cut_space-solid : (fuel : ℕ) (s : List ℕ) → solid s ≡ [] → solid (cut_space fuel s) ≡ []
unfolding cut_space
cut_space-solid zero s h = refl
cut_space-solid (suc fuel) [] h = refl
cut_space-solid (suc fuel) (b ∷ bs) h =
    let n : ℕ = space_width (b ∷ bs) in
    let past : solid (cut_space fuel (drop n (b ∷ bs))) ≡ [] =
      cut_space-solid fuel (drop n (b ∷ bs)) (blank-parts n (b ∷ bs) h).1 in
    let after : solid (cut_space fuel bs) ≡ [] =
      cut_space-solid fuel bs (blank-parts 1 (b ∷ bs) h).1 in
    if_either (λ (t : List ℕ). solid t ≡ []) (n == 0)
      (solid-append (b ∷ []) (cut_space fuel bs) ∙ ap₂ ◌++◌ (blank-parts 1 (b ∷ bs) h).0 after)
      (if_either (λ (t : List ℕ). solid t ≡ []) (length (cut_space fuel (drop n (b ∷ bs))) == 0)
        refl
        (solid-append (take n (b ∷ bs)) (cut_space fuel (drop n (b ∷ bs)))
          ∙ ap₂ ◌++◌ (blank-parts n (b ∷ bs) h).0 past))

trim_space-solid : (s : List ℕ) → solid s ≡ [] → solid (trim_space s) ≡ []
unfolding trim_space
trim_space-solid s h =
    cut_space-solid (length (skip_space (length s) s)) (skip_space (length s) s)
      (skip_space-solid (length s) s h)

or_trimmed-solid :
    (s : List ℕ) (rows : List (List ℕ))
    → all_solid rows ≡ solid s
    → all_solid (or_trimmed s rows) ≡ solid s
or_trimmed-solid s [] h = append-nil (solid (trim_space s)) ∙ trim_space-solid s (sym h) ∙ h
or_trimmed-solid s (r ∷ rs) h = h

-- The rows that SQL is formatted into have together the bytes of the text in their order, blanks and tabs aside:
-- nothing is lost, added or written in other case, whatever the quotes, parentheses and keywords are.
pub format_sql-solid : (s : List ℕ) → all_solid (format_sql s) ≡ solid s
unfolding format_sql
format_sql-solid s =
    let f : Format = format_loop (length s) none s nothing_read in
    or_trimmed-solid s (emit f).rows (
      sym (append-nil (all_solid (emit f).rows))
      ∙ ap (λ t. all_solid (emit f).rows ++ t) (sym (emit-rest f))
      ∙ emit-content f
      ∙ format_loop-content (length s) none s nothing_read (omega arith))
