-- ===== src/Overlays/BranchPicker/Tests.antt =====
-- internal/tui/overlays/branchpicker.go: "eV" and enter among three branches.
use randomshitgo_go.Prelude.{
  ℕ, ◌+◌, ◌<◌, List, [], ◌∷◌, some, true, false, ◌&&◌, ◌≡◌, refl, leb, if◌then◌else◌, length,
  get_or, map,
}
use randomshitgo_go.Panes.Text.{codes}
use randomshitgo_go.Overlays.BranchPicker.{
  BranchPicker, Key, key_runes, key_enter, contains, new_branch_picker, update, show,
}
use randomshitgo_go.Overlays.BranchPicker.Filtering.{type_keys, show-Chosen}

-- The letters of ASCII.
abbrev lower : ℕ → ℕ
lower c = if leb b'A' c && leb c b'Z' then c + 32 else c

abbrev picker : BranchPicker
picker = record {
  branches = codes "main" ∷ codes "Dev" ∷ codes "fix" ∷ [];
  filtered = [];
  filter = [];
  cursor = 0;
  visible = false;
}

abbrev keys : List Key
keys = key_runes (codes "e") ∷ key_runes (codes "V") ∷ []

dev_chosen :
    (update lower (type_keys lower (show lower picker) keys) key_enter).1 ≡ some (codes "Dev")
unfolding update show type_keys
dev_chosen = refl

show-Chosen_example :
    let after : BranchPicker = type_keys lower (show lower picker) keys in
    (k : ℕ) × (k < length after.branches)
    × (codes "Dev" ≡ get_or after.branches k [])
    × (contains (map lower (codes "Dev")) (map lower after.filter) ≡ true)
show-Chosen_example = show-Chosen lower picker keys key_enter (codes "Dev") dev_chosen

fallback : (new_branch_picker lower []).branches ≡ codes "main" ∷ codes "dev" ∷ []
unfolding new_branch_picker
fallback = refl
