-- ===== src/Overlays/GroupPicker.antt =====
-- internal/tui/overlays/grouppicker.go: the list of groups and its cursor. A key is its name; the names of the groups
-- come in any order. Drawing is not modelled.
pub mod Names
mod Tests
use Prim.Native.Char.{code}
use Prim.Native.String
use mathlib.Core.List.{reverse}
use randomshitgo_go.Prelude.{
  ℕ, ◌+◌, ◌-◌, List, [], ◌∷◌, Option, none, some, Bool, true, false, ◌||◌, if◌then◌else◌, length,
  ltb, ◌==◌, get_or, String, str_eq,
}
use randomshitgo_go.State.Runtime.{lt_codes}

pub record GroupPicker : Type 0 where
  pub groups : List String
  pub cursor : ℕ
  pub visible : Bool

-- The inner loop of `sortStrings`, on the sorted entries from the last one back: larger ones are shifted.
pub place : String → List String → List String
place key [] = key ∷ []
place key (s ∷ before) =
    let shifted = s ∷ place key before in if lt_codes key s then shifted else key ∷ s ∷ before

-- The outer loop: the sorted entries from the last one back, and those to come.
pub sort_from : List String → List String → List String
unfolding place
sort_from sorted [] = sorted
sort_from sorted (key ∷ rest) = sort_from (place key sorted) rest

pub sort_strings : List String → List String
unfolding sort_from
sort_strings names = reverse (sort_from [] names)

pub new_group_picker : List String → GroupPicker
unfolding sort_strings
new_group_picker names = record { groups = sort_strings names; cursor = 0; visible = false }

pub show : GroupPicker → GroupPicker
show gp = record gp { visible = true; cursor = 0 }

pub hide : GroupPicker → GroupPicker
hide gp = record gp { visible = false }

-- The picker, and the group of the message to start one, if there is one.
pub update : GroupPicker → String → GroupPicker × Option String
update gp key =
    if str_eq key "k" || str_eq key "up"
    then (record gp { cursor = gp.cursor - 1 }, none)
    else if str_eq key "j" || str_eq key "down"
    then (
      if ltb (gp.cursor + 1) (length gp.groups) then record gp { cursor = gp.cursor + 1 } else gp,
      none,
    )
    else if str_eq key "enter"
    then (if ltb 0 (length gp.groups)
        then (record gp { visible = false }, some (get_or gp.groups gp.cursor ""))
        else (gp, none))
    else if str_eq key "esc" || str_eq key "q"
    then (record gp { visible = false }, none)
    else (gp, none)
