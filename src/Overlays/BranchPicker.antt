-- ===== src/Overlays/BranchPicker.antt =====
-- internal/tui/overlays/branchpicker.go: the list of branches, narrowed by a filter. Texts are lists of runes, and
-- `lower` is what strings.ToLower makes of a rune. Keys come without Alt and not as a paste. Drawing is not modelled.
pub mod Filtering
mod Tests
use randomshitgo_go.Prelude.{
  ℕ, ◌+◌, ◌-◌, List, [], ◌∷◌, ◌++◌, Option, none, some, Bool, true, false, not, ◌&&◌, ◌||◌,
  if◌then◌else◌, length, ltb, leb, ◌==◌, get_or, take, map,
}
use randomshitgo_go.Panes.Text.{codes}

pub record BranchPicker : Type 0 where
  pub branches : List (List ℕ)
  pub filtered : List ℕ
  pub filter : List ℕ
  pub cursor : ℕ
  pub visible : Bool

abbrev pub same_text : List ℕ → List ℕ → Bool
same_text [] [] = true
same_text [] (d ∷ t) = false
same_text (c ∷ s) [] = false
same_text (c ∷ s) (d ∷ t) = c == d && same_text s t

abbrev pub begins_with : List ℕ → List ℕ → Bool
begins_with s [] = true
begins_with [] (d ∷ t) = false
begins_with (c ∷ s) (d ∷ t) = c == d && begins_with s t

-- `strings.Contains`
abbrev pub contains : List ℕ → List ℕ → Bool
contains [] needle = begins_with [] needle
contains (c ∷ s) needle = begins_with (c ∷ s) needle || contains s needle

pub data Key : Type 0 where
  key_up : Key
  key_down : Key
  key_enter : Key
  key_esc : Key
  key_backspace : Key
  key_space : Key
  key_runes : List ℕ → Key
  key_other : List ℕ → Key

-- `msg.String()`, by which bindings match: runes are their own name.
abbrev pub name : Key → List ℕ
name key_up = codes "up"
name key_down = codes "down"
name key_enter = codes "enter"
name key_esc = codes "esc"
name key_backspace = codes "backspace"
name key_space = codes " "
name (key_runes rs) = rs
name (key_other s) = s

abbrev pub indices : ℕ → List (List ℕ) → List ℕ
indices i [] = []
indices i (b ∷ bs) = i ∷ indices (i + 1) bs

module _ (lower : ℕ → ℕ) where
  -- The branches that hold the needle, from the i-th on.
  pub matching : List ℕ → ℕ → List (List ℕ) → List ℕ
  matching needle i [] = []
  matching needle i (b ∷ bs) =
      let rest = matching needle (i + 1) bs in
      if contains (map lower b) needle then i ∷ rest else rest

  pub rebuild_filter : BranchPicker → BranchPicker
  unfolding matching
  rebuild_filter bp =
      let found =
        if length bp.filter == 0
        then indices 0 bp.branches
        else matching (map lower bp.filter) 0 bp.branches in
      record bp { filtered = found; cursor = if leb (length found) bp.cursor then 0 else bp.cursor }

  abbrev or_main_and_dev : List (List ℕ) → List (List ℕ)
  or_main_and_dev [] = codes "main" ∷ codes "dev" ∷ []
  or_main_and_dev (b ∷ bs) = b ∷ bs

  pub new_branch_picker : List (List ℕ) → BranchPicker
  unfolding rebuild_filter
  new_branch_picker branches = rebuild_filter (record {
    branches = or_main_and_dev branches;
    filtered = [];
    filter = [];
    cursor = 0;
    visible = false;
  })

  pub show : BranchPicker → BranchPicker
  unfolding rebuild_filter
  show bp = rebuild_filter (record bp { visible = true; filter = []; cursor = 0 })

  pub hide : BranchPicker → BranchPicker
  hide bp = record bp { visible = false }

  pub set_branches : BranchPicker → List (List ℕ) → BranchPicker
  unfolding rebuild_filter
  set_branches bp branches =
      rebuild_filter (record bp { branches = branches; filter = []; cursor = 0 })

  abbrev with_filter : BranchPicker → List ℕ → BranchPicker
  with_filter bp text = record bp { filter = text; cursor = 0 }

  -- What is typed into the filter, when no binding matches.
  pub edit_filter : BranchPicker → Key → BranchPicker
  unfolding rebuild_filter
  edit_filter bp key_backspace =
      if length bp.filter == 0
      then bp
      else rebuild_filter (with_filter bp (take (length bp.filter - 1) bp.filter))
  edit_filter bp (key_runes rs) =
      if length rs == 0 then bp else rebuild_filter (with_filter bp (bp.filter ++ rs))
  edit_filter bp key_space = rebuild_filter (with_filter bp (bp.filter ++ codes " "))
  edit_filter bp key_up = bp
  edit_filter bp key_down = bp
  edit_filter bp key_enter = bp
  edit_filter bp key_esc = bp
  edit_filter bp (key_other s) = bp

  -- The picker, and the branch of the message to check one out, if there is one.
  pub update : BranchPicker → Key → BranchPicker × Option (List ℕ)
  unfolding edit_filter
  update bp key =
      if same_text (name key) (codes "up")
      then (record bp { cursor = bp.cursor - 1 }, none)
      else if same_text (name key) (codes "down")
      then (
        if ltb (bp.cursor + 1) (length bp.filtered)
            then record bp { cursor = bp.cursor + 1 }
            else bp,
        none,
      )
      else if same_text (name key) (codes "enter")
      then (if length bp.filtered == 0 then (bp, none) else (
        record bp { visible = false },
        some (get_or bp.branches (get_or bp.filtered bp.cursor 0) []),
      ))
      else if same_text (name key) (codes "esc")
      then (if not (length bp.filter == 0)
          then (rebuild_filter (with_filter bp []), none)
          else (record bp { visible = false }, none))
      else (edit_filter bp key, none)
