-- ===== src/Panes/Wrap/Blank.antt =====
-- internal/tui/panes/logpanel_wrap.go: a coloured line that fills its rows exactly.
use randomshitgo_go.Prelude.{
  ℕ, zero, suc, ◌+◌, ◌-◌, ◌*◌, ◌≤◌, ◌<◌, List, [], ◌∷◌, ◌++◌, Bool, true, false, ◌≡◌, refl, ap, ap₂,
  ◌∙◌, inl, inr, arith, if◌then◌else◌, Bool-cases, length, leb, take, drop, get_or, length-append,
  length-map, map, ◌==◌,
}
use randomshitgo_go.Panes.Wrap.{
  Piece, seq, byte, Rows, reset, is_empty, is_sgr, is_sgr_reset, flush_row, put_byte, put_seq, walk,
  start, wrap_rows, flatten, has_esc, or_line, visible_columns, wrap_line,
}

-- The colours `q` are on, and a row that shows nothing yet has them alone.
record IsColoured (q : List Piece) (width : ℕ) (s : Rows) : Type 0 where
  on : s.active_sgr ≡ q
  below : s.visible < width
  begun : s.visible ≡ 0 → s.row ≡ q

is_empty-byte : (ps : List Piece) (b : ℕ) → is_empty (ps ++ byte b ∷ []) ≡ false
is_empty-byte [] b = refl
is_empty-byte (seq [] ∷ ps) b = is_empty-byte ps b
is_empty-byte (seq (c ∷ q) ∷ ps) b = ground arith
is_empty-byte (byte c ∷ ps) b = ground arith

module _ (q : List Piece) (full : is_empty q ≡ false) (width : ℕ) where
  -- The byte that fills a row ends it, and the next one begins with the colours.
  filled :
      (b : ℕ) (s : Rows)
      → IsColoured q width s
      → s.visible + 1 ≡ width
      → IsColoured q width (put_byte width b s)
        × ((put_byte width b s).visible ≡ 0)
        × (length (put_byte width b s).out ≡ length s.out + 1)
  unfolding put_byte flush_row
  filled b s g e =
      let at : leb width (s.visible + 1) ≡ true = ground (arith, e) in
      let on_still : is_empty s.active_sgr ≡ false = ap is_empty g.on ∙ full in
      rw (put_byte, at, flush_row, is_empty-byte s.row b, on_still)
        (
          record { on = g.on; below = omega arith; begun = λ z. g.on },
          refl,
          length-append s.out ((s.row ++ byte b ∷ [] ++ seq reset ∷ []) ∷ []),
        )

  unfilled :
      (b : ℕ) (s : Rows)
      → IsColoured q width s
      → s.visible + 1 < width
      → IsColoured q width (put_byte width b s)
        × ((put_byte width b s).visible ≡ s.visible + 1)
        × (length (put_byte width b s).out ≡ length s.out)
  unfolding put_byte
  unfilled b s g e =
      let at : leb width (s.visible + 1) ≡ false = ground (arith, e) in
      rw (put_byte, at)
        (record { on = g.on; below = e; begun = λ z. absurd (omega (arith, z)) }, refl, refl)

  at_end :
      (s : Rows) (m : ℕ)
      → IsColoured q width s
      → s.visible ≡ m * width
      → (length s.out ≡ length s.out + m) × (s.active_sgr ≡ q) × (s.row ≡ q)
  at_end s zero g e = (omega arith, g.on, g.begun (omega (arith, e)))
  at_end s (suc m) g e = absurd (grind (arith, e, g.below))

  walk-rows :
      (fuel i : ℕ) (text : List ℕ) (s : Rows) (m : ℕ)
      → length text ≤ fuel
      → IsColoured q width s
      → s.visible + length text ≡ m * width
      → (length (walk fuel width i text [] s).out ≡ length s.out + m)
        × ((walk fuel width i text [] s).active_sgr ≡ q)
        × ((walk fuel width i text [] s).row ≡ q)
  unfolding walk
  walk-rows zero i [] s m h g e = at_end s m g (omega (arith, e))
  walk-rows zero i (b ∷ text) s m h g e = absurd (omega arith)
  walk-rows (suc fuel) i [] s m h g e = at_end s m g (omega (arith, e))
  walk-rows (suc fuel) i (b ∷ text) s zero h g e = absurd (omega (arith, e))
  walk-rows (suc fuel) i (b ∷ text) s (suc m) h g e =
      elim (Bool-cases (leb width (s.visible + 1))) [
        | inl k ↦
            let (good, none_left, one_more) = filled b s g (ground (arith, k, g.below)) in
            let left : (put_byte width b s).visible + length text ≡ m * width =
              grind (arith, e, none_left) in
            let (rows, on, row) =
              walk-rows fuel (i + 1) text (put_byte width b s) m (omega arith) good left in
            (omega (arith, rows, one_more), on, row)
        | inr k ↦
            let (good, one_shown, same) = unfilled b s g (ground (arith, k)) in
            let left : (put_byte width b s).visible + length text ≡ suc m * width =
              omega (arith, e, one_shown) in
            let (rows, on, row) =
              walk-rows fuel (i + 1) text (put_byte width b s) (suc m) (omega arith) good left in
            (omega (arith, rows, same), on, row)
      ]

get_or-last : (rs : List (List Piece)) (r : List Piece) → get_or (rs ++ r ∷ []) (length rs) [] ≡ r
get_or-last [] r = refl
get_or-last (x ∷ rs) r = get_or-last rs r

take-length : (xs ys : List ℕ) → take (length xs) (xs ++ ys) ≡ xs
take-length [] ys = refl
take-length (x ∷ xs) ys = ap (λ t. x ∷ t) (take-length xs ys)

drop-length : (xs ys : List ℕ) → drop (length xs) (xs ++ ys) ≡ ys
drop-length [] ys = refl
drop-length (x ∷ xs) ys = drop-length xs ys

after_open :
    (open_seq text : List ℕ) (width : ℕ) (fuel : ℕ)
    → 0 < length open_seq
    → walk (suc fuel) width 0 (open_seq ++ text) ((0, length open_seq) ∷ []) start
      ≡ walk fuel width (length open_seq) text [] (put_seq open_seq start)
unfolding walk
after_open [] text width fuel h = absurd (omega arith)
after_open (b ∷ bs) text width fuel h =
    let all : List ℕ = b ∷ bs ++ text in
    ap (λ (n : ℕ). walk fuel width (length (b ∷ bs)) (drop n all) [] (put_seq (take n all) start))
      {x = length (b ∷ bs) - 0} {y = length (b ∷ bs)} (omega arith)
    ∙ ap₂ (λ (t o : List ℕ). walk fuel width (length (b ∷ bs)) t [] (put_seq o start))
        (drop-length (b ∷ bs) text) (take-length (b ∷ bs) text)

flush_row-last :
    (q : List Piece) (s : Rows)
    → is_empty q ≡ false
    → s.active_sgr ≡ q
    → s.row ≡ q
    → (flush_row s).out ≡ s.out ++ (q ++ seq reset ∷ []) ∷ []
unfolding flush_row
flush_row-last q s full on row = rw (flush_row, row, on, full) refl

not_empty-sgr : (open_seq : List ℕ) → is_sgr open_seq ≡ true → is_empty (seq open_seq ∷ []) ≡ false
not_empty-sgr [] h = absurd (ground arith)
not_empty-sgr (b ∷ bs) h = ground arith

wrap_rows-blank :
    (open_seq text : List ℕ) (width m : ℕ)
    → is_sgr open_seq ≡ true
    → is_sgr_reset open_seq ≡ false
    → 0 < width
    → length text ≡ m * width
    → let rows : List (List Piece) =
        wrap_rows width (open_seq ++ text) ((0, length open_seq) ∷ []) in
      (length rows ≡ m + 1) × (get_or rows m [] ≡ seq open_seq ∷ seq reset ∷ [])
unfolding wrap_rows put_seq
wrap_rows-blank open_seq text width m sgr no_reset w e =
    let q : List Piece = seq open_seq ∷ [] in
    let full : is_empty q ≡ false = not_empty-sgr open_seq sgr in
    let some_bytes : 0 < length open_seq = ground (arith, sgr) in
    let first : Rows = put_seq open_seq start in
    let coloured : IsColoured q width first = record {
      on = ap₂ (λ (a b : Bool). if a then (if b then [] else q) else []) sgr no_reset;
      below = w;
      begun = λ z. refl;
    } in
    let fuel : ℕ = length (open_seq ++ text) - 1 in
    let rounds : length (open_seq ++ text) ≡ suc fuel =
      omega (arith, length-append open_seq text) in
    let s : Rows = walk fuel width (length open_seq) text [] first in
    let (rows, on, row) =
      walk-rows q full width fuel (length open_seq) text first m
        (omega (arith, length-append open_seq text)) coloured (omega (arith, e)) in
    let all : wrap_rows width (open_seq ++ text) ((0, length open_seq) ∷ [])
        ≡ s.out ++ (q ++ seq reset ∷ []) ∷ [] =
      ap
        (λ (n : ℕ).
          (flush_row (walk n width 0 (open_seq ++ text) ((0, length open_seq) ∷ []) start)).out)
        rounds
      ∙ ap (λ (r : Rows). (flush_row r).out) (after_open open_seq text width fuel some_bytes)
      ∙ flush_row-last q s full on row in
    let last : m ≡ length s.out = omega (arith, rows) in
    rw all (
      omega (arith, rows, length-append s.out ((q ++ seq reset ∷ []) ∷ [])),
      ap (λ (n : ℕ). get_or (s.out ++ (q ++ seq reset ∷ []) ∷ []) n []) last
          ∙ get_or-last s.out (q ++ seq reset ∷ []),
    )

has_esc-sgr : (open_seq text : List ℕ) → is_sgr open_seq ≡ true → has_esc (open_seq ++ text) ≡ true
has_esc-sgr [] text h = absurd (ground arith)
has_esc-sgr (b ∷ bs) text h = ground (arith, h)

or_line-some : (line : List ℕ) (rs : List (List ℕ)) → 0 < length rs → or_line line rs ≡ rs
or_line-some line [] h = absurd (omega arith)
or_line-some line (r ∷ rs) h = refl

get_or-map :
    (rs : List (List Piece)) (i : ℕ) → get_or (map flatten rs) i [] ≡ flatten (get_or rs i [])
get_or-map [] i = refl
get_or-map (r ∷ rs) zero = refl
get_or-map (r ∷ rs) (suc i) = get_or-map rs i

wider : (m width : ℕ) → 0 < width → 1 < m → width < m * width
wider zero width w h = absurd (omega arith)
wider (suc zero) width w h = absurd (omega arith)
wider (suc (suc k)) width w h = grind arith

-- A line that is one colour sequence and then text that fills two rows or more exactly is wrapped into one row more,
-- and the last one is the colour sequence and a reset, and shows nothing.
pub wrap_line-blank :
    (find : List ℕ → List (ℕ × ℕ)) (open_seq text : List ℕ) (width m : ℕ)
    → is_sgr open_seq ≡ true
    → is_sgr_reset open_seq ≡ false
    → find (open_seq ++ text) ≡ (0, length open_seq) ∷ []
    → 0 < width
    → 1 < m
    → length text ≡ m * width
    → let rows : List (List ℕ) = wrap_line find (open_seq ++ text) width in
      (length rows ≡ m + 1) × (get_or rows m [] ≡ open_seq ++ reset)
unfolding wrap_line visible_columns
wrap_line-blank find open_seq text width m sgr no_reset found w more e =
    let line : List ℕ = open_seq ++ text in
    let rows : List (List Piece) = wrap_rows width line ((0, length open_seq) ∷ []) in
    let (count, last) = wrap_rows-blank open_seq text width m sgr no_reset w e in
    let positive : (width == 0) ≡ false = ground arith in
    let wide : leb (length line - (length open_seq - 0)) width ≡ false =
      ground (arith, wider m width w more, e, length-append open_seq text) in
    let some_rows : 0 < length (map flatten rows) = omega (arith, length-map rows flatten, count) in
    rw
      (
        positive,
        has_esc-sgr open_seq text sgr,
        found,
        wide,
        or_line-some line (map flatten rows) some_rows,
      )
      (length-map rows flatten ∙ count, get_or-map rows m ∙ ap flatten last)
