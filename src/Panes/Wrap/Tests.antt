-- ===== src/Panes/Wrap/Tests.antt =====
-- internal/tui/panes/logpanel_wrap.go: "abcde" in rows of two bytes, and red text in such rows.
use randomshitgo_go.Prelude.{
  ℕ, List, [], ◌∷◌, ◌++◌, ◌≡◌, refl, ◌≤◌, arith, All, length, get_or, ◌+◌,
}
use randomshitgo_go.Panes.Wrap.{wrap_rows, wrap_line, reset}
use randomshitgo_go.Panes.Wrap.Walk.{shown, all_shown, outside, wrap_rows-shown}
use randomshitgo_go.Panes.Wrap.Blank.{wrap_line-blank}

abbrev text : List ℕ
text = b'a' ∷ b'b' ∷ b'c' ∷ b'd' ∷ []

abbrev red : List ℕ
red = 0x1b ∷ b'[' ∷ b'3' ∷ b'1' ∷ b'm' ∷ []

abbrev find : List ℕ → List (ℕ × ℕ)
find line = []

wrap_rows-shown_example :
    (all_shown (wrap_rows 2 (red ++ text) ((0, 5) ∷ [])) ≡ outside 0 (red ++ text) ((0, 5) ∷ []))
    × All (λ r. length (shown r) ≤ 2) (wrap_rows 2 (red ++ text) ((0, 5) ∷ []))
wrap_rows-shown_example =
    wrap_rows-shown 2 (red ++ text) ((0, 5) ∷ []) (omega arith) (omega arith, omega arith, tt)

abbrev find_red : List ℕ → List (ℕ × ℕ)
find_red line = (0, length red) ∷ []

wrap_line-blank_example :
    (length (wrap_line find_red (red ++ text) 2) ≡ 2 + 1)
    × (get_or (wrap_line find_red (red ++ text) 2) 2 [] ≡ red ++ reset)
wrap_line-blank_example =
    wrap_line-blank find_red red text 2 2 refl refl refl (omega arith) (omega arith) refl
