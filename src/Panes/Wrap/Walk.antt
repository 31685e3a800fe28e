-- ===== src/Panes/Wrap/Walk.antt =====
-- internal/tui/panes/logpanel_wrap.go: the walk over a line with escape sequences.
use randomshitgo_go.Prelude.{
  ℕ, zero, suc, ◌+◌, ◌-◌, ◌≤◌, ◌<◌, List, [], ◌∷◌, ◌++◌, Bool, true, false, ◌&&◌, ◌||◌, ◌≡◌, refl,
  ap, ap₂, sym, ◌∙◌, inl, inr, arith, if◌then◌else◌, if_either, Bool-cases, ltb, length, leb, ◌==◌,
  take, drop, All, All-append, length-drop, append-nil, append_assoc, length-append,
}
use randomshitgo_go.Panes.Wrap.{
  Piece, seq, byte, Rows, reset, is_empty, is_sgr, is_sgr_reset, flush_row, put_byte, put_seq, walk,
  start, wrap_rows,
}

-- The bytes of a row that are not of an escape sequence.
abbrev pub shown : List Piece → List ℕ
shown [] = []
shown (seq q ∷ ps) = shown ps
shown (byte b ∷ ps) = b ∷ shown ps

abbrev pub all_shown : List (List Piece) → List ℕ
all_shown [] = []
all_shown (r ∷ rs) = shown r ++ all_shown rs

abbrev covers : ℕ → List (ℕ × ℕ) → Bool
covers i [] = false
covers i (loc ∷ seqs) = (leb loc.0 i && ltb i loc.1) || covers i seqs

-- The bytes of a line, of which the first has index i, that lie in no escape sequence.
pub outside : ℕ → List ℕ → List (ℕ × ℕ) → List ℕ
outside i [] seqs = []
outside i (b ∷ bs) seqs =
    let rest = outside (i + 1) bs seqs in if covers i seqs then rest else b ∷ rest

-- The places are not empty and follow one another, from index i on.
abbrev pub AreInOrder : ℕ → List (ℕ × ℕ) → Type 0
AreInOrder i [] = Unit
AreInOrder i (loc ∷ seqs) = (i ≤ loc.0) × (loc.0 < loc.1) × AreInOrder loc.1 seqs

covers-before : (i j : ℕ) (seqs : List (ℕ × ℕ)) → i < j → AreInOrder j seqs → covers i seqs ≡ false
covers-before i j [] h o = refl
covers-before i j (loc ∷ seqs) h o = ground (arith, covers-before i loc.1 seqs (omega arith) o.2)

-- A sequence that is over covers nothing from here on.
outside-past :
    (i : ℕ) (bs : List ℕ) (loc : ℕ × ℕ) (seqs : List (ℕ × ℕ))
    → loc.1 ≤ i
    → outside i bs (loc ∷ seqs) ≡ outside i bs seqs
unfolding outside
outside-past i [] loc seqs h = refl
outside-past i (b ∷ bs) loc seqs h = ground (arith, outside-past (i + 1) bs loc seqs (omega arith))

outside-skip :
    (n i : ℕ) (bs : List ℕ) (loc : ℕ × ℕ) (seqs : List (ℕ × ℕ))
    → loc.0 ≤ i
    → i + n ≡ loc.1
    → outside i bs (loc ∷ seqs) ≡ outside loc.1 (drop n bs) seqs
unfolding outside
outside-skip zero i bs loc seqs h e =
    outside-past i bs loc seqs (omega arith) ∙ ap (λ k. outside k bs seqs) (omega arith)
outside-skip (suc n) i [] loc seqs h e = refl
outside-skip (suc n) i (b ∷ bs) loc seqs h e =
    ground (arith, outside-skip n (i + 1) bs loc seqs (omega arith) (omega arith))

shown-append : (ps qs : List Piece) → shown (ps ++ qs) ≡ shown ps ++ shown qs
shown-append [] qs = refl
shown-append (seq q ∷ ps) qs = shown-append ps qs
shown-append (byte b ∷ ps) qs = ap (λ t. b ∷ t) (shown-append ps qs)

all_shown-append : (rs qs : List (List Piece)) → all_shown (rs ++ qs) ≡ all_shown rs ++ all_shown qs
all_shown-append [] qs = refl
all_shown-append (r ∷ rs) qs =
    ap (λ t. shown r ++ t) (all_shown-append rs qs)
    ∙ sym (append_assoc (shown r) (all_shown rs) (all_shown qs))

shown-is_empty : (ps : List Piece) → is_empty ps ≡ true → shown ps ≡ []
shown-is_empty [] h = refl
shown-is_empty (seq [] ∷ ps) h = shown-is_empty ps h
shown-is_empty (seq (b ∷ q) ∷ ps) h = ground arith
shown-is_empty (byte b ∷ ps) h = ground arith

-- What the rows so far show.
abbrev so_far : Rows → List ℕ
so_far s = all_shown s.out ++ shown s.row

record IsGood (width : ℕ) (s : Rows) : Type 0 where
  quiet : shown s.active_sgr ≡ []
  counted : s.visible ≡ length (shown s.row)
  below : s.visible < width
  narrow : All (λ r. length (shown r) ≤ width) s.out

shown-row : (ps : List Piece) (b : Bool) → shown (if b then ps else ps ++ seq reset ∷ []) ≡ shown ps
shown-row ps true = refl
shown-row ps false = shown-append ps (seq reset ∷ []) ∙ append-nil (shown ps)

next_row-shown : (sgr : List Piece) (b : Bool) → shown sgr ≡ [] → shown (if b then [] else sgr) ≡ []
next_row-shown sgr true h = refl
next_row-shown sgr false h = h

flush_row-IsGood :
    (width : ℕ) (s : Rows)
    → 0 < width
    → shown s.active_sgr ≡ []
    → s.visible ≡ length (shown s.row)
    → s.visible ≤ width
    → All (λ r. length (shown r) ≤ width) s.out
    → IsGood width (flush_row s) × (so_far (flush_row s) ≡ so_far s)
unfolding flush_row
flush_row-IsGood width s w q c v n =
    let closed : List Piece = if is_empty s.active_sgr then s.row else s.row ++ seq reset ∷ [] in
    let same : shown closed ≡ shown s.row = shown-row s.row (is_empty s.active_sgr) in
    let fresh : shown (if is_empty s.active_sgr then [] else s.active_sgr) ≡ [] =
      next_row-shown s.active_sgr (is_empty s.active_sgr) q in
    elim (Bool-cases (is_empty s.row)) [
      | inl e ↦
          rw (flush_row, e)
            (
              record {
                quiet = q;
                counted = c;
                below = omega (arith, ap length (shown-is_empty s.row e));
                narrow = n;
              },
              refl,
            )
      | inr e ↦
          rw (flush_row, e)
            (
              record {
                quiet = q;
                counted = sym (ap length fresh);
                below = w;
                narrow =
                    All-append (λ r. length (shown r) ≤ width) s.out (closed ∷ []) n
                      (omega (arith, ap length same), tt);
              },
              ap₂ ◌++◌ (all_shown-append s.out (closed ∷ [])) fresh
                  ∙ append-nil (all_shown s.out ++ (shown closed ++ []))
                  ∙ ap (λ t. all_shown s.out ++ t) (append-nil (shown closed) ∙ same),
            )
    ]

put_byte-IsGood :
    (width b : ℕ) (s : Rows)
    → 0 < width
    → IsGood width s
    → IsGood width (put_byte width b s) × (so_far (put_byte width b s) ≡ so_far s ++ b ∷ [])
unfolding put_byte
put_byte-IsGood width b s w g =
    let s' : Rows = record s { row = s.row ++ byte b ∷ []; visible = s.visible + 1 } in
    let one_more : shown s'.row ≡ shown s.row ++ b ∷ [] = shown-append s.row (byte b ∷ []) in
    let more : so_far s' ≡ so_far s ++ b ∷ [] =
      ap (λ t. all_shown s.out ++ t) one_more
      ∙ sym (append_assoc (all_shown s.out) (shown s.row) (b ∷ [])) in
    let count : s'.visible ≡ length (shown s'.row) =
      omega (arith, ap length one_more, length-append (shown s.row) (b ∷ []), g.counted) in
    elim (Bool-cases (leb width s'.visible)) [
      | inl e ↦
          let (good, kept) =
            flush_row-IsGood width s' w g.quiet count (omega (arith, g.below)) g.narrow in
          rw (put_byte, e) (good, kept ∙ more)
      | inr e ↦
          rw (put_byte, e)
            (
              record {
                quiet = g.quiet;
                counted = count;
                below = ground (arith, e);
                narrow = g.narrow;
              },
              more,
            )
    ]

put_seq-IsGood :
    (width : ℕ) (q : List ℕ) (s : Rows)
    → IsGood width s
    → IsGood width (put_seq q s) × (so_far (put_seq q s) ≡ so_far s)
unfolding put_seq
put_seq-IsGood width q s g =
    let same : shown (s.row ++ seq q ∷ []) ≡ shown s.row =
      shown-append s.row (seq q ∷ []) ∙ append-nil (shown s.row) in
    let still : shown (s.active_sgr ++ seq q ∷ []) ≡ [] =
      shown-append s.active_sgr (seq q ∷ []) ∙ append-nil (shown s.active_sgr) ∙ g.quiet in
    (
      record {
        quiet =
            if_either (λ (ps : List Piece). shown ps ≡ []) (is_sgr q)
              (if_either (λ (ps : List Piece). shown ps ≡ []) (is_sgr_reset q) refl still) g.quiet;
        counted = g.counted ∙ sym (ap length same);
        below = g.below;
        narrow = g.narrow;
      },
      ap (λ t. all_shown s.out ++ t) same,
    )

walk-IsGood :
    (fuel width i : ℕ) (rest : List ℕ) (seqs : List (ℕ × ℕ)) (s : Rows)
    → 0 < width
    → length rest ≤ fuel
    → AreInOrder i seqs
    → IsGood width s
    → IsGood width (walk fuel width i rest seqs s)
      × (so_far (walk fuel width i rest seqs s) ≡ so_far s ++ outside i rest seqs)
unfolding walk outside
walk-IsGood zero width i [] seqs s w h o g = (g, sym (append-nil (so_far s)))
walk-IsGood zero width i (b ∷ rest) seqs s w h o g = absurd (omega arith)
walk-IsGood (suc fuel) width i [] seqs s w h o g = (g, sym (append-nil (so_far s)))
walk-IsGood (suc fuel) width i (b ∷ rest) [] s w h o g =
    let (good, one) = put_byte-IsGood width b s w g in
    let (good', all) =
      walk-IsGood fuel width (i + 1) rest [] (put_byte width b s) w (omega arith) tt good in
    (
      good',
      all
          ∙ ap (λ t. t ++ outside (i + 1) rest []) one
          ∙ append_assoc (so_far s) (b ∷ []) (outside (i + 1) rest []),
    )
walk-IsGood (suc fuel) width i (b ∷ rest) (loc ∷ seqs) s w h o g = elim (Bool-cases (loc.0 == i)) [
  | inl e ↦
      let n : ℕ = loc.1 - i in
      let here : loc.0 ≡ i = ground (arith, e) in
      let (good, same) = put_seq-IsGood width (take n (b ∷ rest)) s g in
      let short : length (drop n (b ∷ rest)) ≤ fuel = omega (arith, length-drop n (b ∷ rest)) in
      let (good', all) =
        walk-IsGood fuel width loc.1 (drop n (b ∷ rest)) seqs (put_seq (take n (b ∷ rest)) s) w
          short o.2 good in
      rw (walk, e)
        (
          good',
          all
              ∙ ap₂ ◌++◌ same
                  (sym (outside-skip n i (b ∷ rest) loc seqs (omega arith) (omega (arith, o.1)))),
        )
  | inr e ↦
      let apart : i < loc.0 = ground (arith, e, o.0) in
      let (good, one) = put_byte-IsGood width b s w g in
      let (good', all) =
        walk-IsGood fuel width (i + 1) rest (loc ∷ seqs) (put_byte width b s) w (omega arith)
          (omega arith, o.1, o.2) good in
      let bare : covers i (loc ∷ seqs) ≡ false =
        covers-before i loc.0 (loc ∷ seqs) apart (omega arith, o.1, o.2) in
      rw (walk, e, bare)
        (
          good',
          all
              ∙ ap (λ t. t ++ outside (i + 1) rest (loc ∷ seqs)) one
              ∙ append_assoc (so_far s) (b ∷ []) (outside (i + 1) rest (loc ∷ seqs)),
        )
]

flush_row-rest : (s : Rows) → shown s.active_sgr ≡ [] → shown (flush_row s).row ≡ []
unfolding flush_row
flush_row-rest s q = elim (Bool-cases (is_empty s.row)) [
  | inl e ↦ rw (flush_row, e) (shown-is_empty s.row e)
  | inr e ↦ rw (flush_row, e) (next_row-shown s.active_sgr (is_empty s.active_sgr) q)
]

-- The rows of a line with escape sequences show together the bytes of the line outside the sequences, in their
-- order, and none shows more than the width. The places of the sequences are not empty and in order.
pub wrap_rows-shown :
    (width : ℕ) (line : List ℕ) (seqs : List (ℕ × ℕ))
    → 0 < width
    → AreInOrder 0 seqs
    → (all_shown (wrap_rows width line seqs) ≡ outside 0 line seqs)
      × All (λ r. length (shown r) ≤ width) (wrap_rows width line seqs)
unfolding wrap_rows
wrap_rows-shown width line seqs w o =
    let first : IsGood width start = record {
      quiet = refl;
      counted = refl;
      below = w;
      narrow = tt;
    } in
    let s : Rows = walk (length line) width 0 line seqs start in
    let (good, all) = walk-IsGood (length line) width 0 line seqs start w (omega arith) o first in
    let (good', same) =
      flush_row-IsGood width s w good.quiet good.counted (omega (arith, good.below)) good.narrow in
    (
      sym (append-nil (all_shown (flush_row s).out))
          ∙ ap (λ t. all_shown (flush_row s).out ++ t) (sym (flush_row-rest s good.quiet))
          ∙ same
          ∙ all,
      good'.narrow,
    )
