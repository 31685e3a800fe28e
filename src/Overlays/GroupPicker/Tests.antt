-- ===== src/Overlays/GroupPicker/Tests.antt =====
-- internal/tui/overlays/grouppicker.go: three groups.
use randomshitgo_go.Prelude.{List, [], ◌∷◌, some, ◌≡◌, refl, String}
use randomshitgo_go.State.Runtime.{lt_codes}
use randomshitgo_go.Overlays.GroupPicker.{new_group_picker, show, update}

abbrev names : List String
names = "web" ∷ "api" ∷ "all" ∷ []

second : (update (update (show (new_group_picker names)) "j").0 "enter").1 ≡ some "api"
unfolding update show new_group_picker lt_codes
second = refl
