-- ===== src/Panes/Wrap/Plain.antt =====
-- internal/tui/panes/logpanel_wrap.go: the fast path, of lines without escape sequences.
use randomshitgo_go.Prelude.{
  ℕ, zero, suc, ◌+◌, ◌-◌, ◌*◌, ◌≤◌, ◌<◌, List, [], ◌∷◌, ◌++◌, false, ◌≡◌, refl, ap, ◌∙◌, inl, inr,
  arith, Bool-cases, leb→le, lt→ne, length, leb, get_or, take, drop, All, length-take, length-drop,
  take-append-drop, get_or-drop, append-nil,
}
use randomshitgo_go.Panes.Wrap.{has_esc, chunks, wrap_line}

abbrev pub concat : List (List ℕ) → List ℕ
concat [] = []
concat (r ∷ rs) = r ++ concat rs

chunks-concat :
    (fuel width : ℕ) (line : List ℕ)
    → 0 < width
    → length line ≤ fuel
    → concat (chunks fuel width line) ≡ line
unfolding chunks
chunks-concat zero width [] w h = refl
chunks-concat zero width (b ∷ bs) w h = absurd (omega arith)
chunks-concat (suc fuel) width [] w h = refl
chunks-concat (suc fuel) width (b ∷ bs) w h =
    let short : length (drop width (b ∷ bs)) ≤ fuel = omega (arith, length-drop width (b ∷ bs)) in
    ap (λ r. take width (b ∷ bs) ++ r) (chunks-concat fuel width (drop width (b ∷ bs)) w short)
    ∙ take-append-drop width (b ∷ bs)

chunks-All : (fuel width : ℕ) (line : List ℕ) → All (λ r. length r ≤ width) (chunks fuel width line)
unfolding chunks
chunks-All zero width line = tt
chunks-All (suc fuel) width [] = tt
chunks-All (suc fuel) width (b ∷ bs) =
    (omega (arith, length-take width (b ∷ bs)), chunks-All fuel width (drop width (b ∷ bs)))

get_or-take : (n i : ℕ) (xs : List ℕ) → i < n → get_or (take n xs) i 0 ≡ get_or xs i 0
get_or-take zero i xs h = absurd (omega arith)
get_or-take (suc n) i [] h = refl
get_or-take (suc n) zero (x ∷ xs) h = refl
get_or-take (suc n) (suc i) (x ∷ xs) h = get_or-take n i xs (omega arith)

-- The x-th byte of the j-th row is the byte of the line at j * width + x.
pub chunks-get :
    (fuel width : ℕ) (line : List ℕ) (j x : ℕ)
    → x < width
    → length line ≤ fuel
    → get_or (get_or (chunks fuel width line) j []) x 0 ≡ get_or line (j * width + x) 0
unfolding chunks
chunks-get zero width [] j x w h = refl
chunks-get zero width (b ∷ bs) j x w h = absurd (omega arith)
chunks-get (suc fuel) width [] j x w h = refl
chunks-get (suc fuel) width (b ∷ bs) zero x w h =
    get_or-take width x (b ∷ bs) w ∙ ap (λ k. get_or (b ∷ bs) k 0) (omega arith)
chunks-get (suc fuel) width (b ∷ bs) (suc j) x w h =
    let short : length (drop width (b ∷ bs)) ≤ fuel = omega (arith, length-drop width (b ∷ bs)) in
    chunks-get fuel width (drop width (b ∷ bs)) j x w short
    ∙ get_or-drop width (j * width + x) (b ∷ bs) 0
    ∙ ap (λ k. get_or (b ∷ bs) k 0) (grind arith)

-- A line without escape sequences is wrapped into rows that joined are the line, none wider than the width.
pub wrap_line-concat :
    (find : List ℕ → List (ℕ × ℕ)) (line : List ℕ) (width : ℕ)
    → 0 < width
    → has_esc line ≡ false
    → (concat (wrap_line find line width) ≡ line)
      × All (λ r. length r ≤ width) (wrap_line find line width)
unfolding wrap_line
wrap_line-concat find line width w plain = elim (Bool-cases (leb (length line) width)) [
  | inl e ↦
      rw (wrap_line, lt→ne width 0 w, plain, e)
        (append-nil line, (leb→le (length line) width e, tt))
  | inr e ↦
      rw (wrap_line, lt→ne width 0 w, plain, e)
        (
          chunks-concat (length line) width line w (omega arith),
          chunks-All (length line) width line,
        )
]

chunks-in :
    (fuel width : ℕ) (line : List ℕ) (j x : ℕ)
    → 0 < width
    → length line ≤ fuel
    → x < length (get_or (chunks fuel width line) j [])
    → (x < width) × (j * width + x < length line)
unfolding chunks
chunks-in zero width line j x w h l = absurd (omega arith)
chunks-in (suc fuel) width [] j x w h l = absurd (omega arith)
chunks-in (suc fuel) width (b ∷ bs) zero x w h l =
    (omega (arith, length-take width (b ∷ bs)), omega (arith, length-take width (b ∷ bs)))
chunks-in (suc fuel) width (b ∷ bs) (suc j) x w h l =
    let rest : List ℕ = drop width (b ∷ bs) in
    let less : length rest ≡ length (b ∷ bs) - width = length-drop width (b ∷ bs) in
    let (short, inside) = chunks-in fuel width rest j x w (omega (arith, less)) l in
    (short, grind (arith, inside, less))

-- A byte that a row of a line without escape sequences shows is the line's, as far on as the rows before are wide.
pub wrap_line-get :
    (find : List ℕ → List (ℕ × ℕ)) (line : List ℕ) (width j x : ℕ)
    → 0 < width
    → has_esc line ≡ false
    → x < length (get_or (wrap_line find line width) j [])
    → (j * width + x < length line)
      × (get_or (get_or (wrap_line find line width) j []) x 0 ≡ get_or line (j * width + x) 0)
unfolding wrap_line
wrap_line-get find line width j x w plain l = elim (Bool-cases (leb (length line) width)) [
  | inl e ↦
      rw (wrap_line, lt→ne width 0 w, plain, e)
        (only j (rw (wrap_line, lt→ne width 0 w, plain, e) at l))
  | inr e ↦
      let l' : x < length (get_or (chunks (length line) width line) j []) =
        rw (wrap_line, lt→ne width 0 w, plain, e) at l in
      let (short, inside) = chunks-in (length line) width line j x w (omega arith) l' in
      rw (wrap_line, lt→ne width 0 w, plain, e)
        (inside, chunks-get (length line) width line j x short (omega arith))
]
  where
    only :
        (j : ℕ)
        → x < length (get_or (line ∷ []) j [])
        → (j * width + x < length line)
          × (get_or (get_or (line ∷ []) j []) x 0 ≡ get_or line (j * width + x) 0)
    only zero l = (omega arith, ap (λ k. get_or line k 0) (omega arith))
    only (suc j) l = absurd (omega arith)
