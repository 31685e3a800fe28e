-- ===== src/Panes/Extract/Tests.antt =====
-- internal/tui/panes/logpanel_motion.go: the theorem on three lines.
use randomshitgo_go.Prelude.{ℕ, List, [], ◌∷◌}

abbrev buffer : List (List ℕ)
buffer = (b'a' ∷ []) ∷ [] ∷ (b'b' ∷ []) ∷ []
