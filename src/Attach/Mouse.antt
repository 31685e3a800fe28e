-- ===== src/Attach/Mouse.antt =====
-- internal/tui/attach/mouse.go and internal/tui/attach_mouse.go: the mouse in the attach pane. The screen of the
-- terminal emulator is a function from columns and rows to cells, with its width. Coordinates are natural
-- numbers, and a pane has at least one column and one row; the three modifiers stay flags. `stop` is the
-- column behind the source's `endX`.
pub mod Copied
pub mod Drag
mod Tests
use randomshitgo_go.Prelude.{
  ℕ, zero, suc, ◌+◌, ◌-◌, List, [], ◌∷◌, ◌++◌, Option, none, some, Bool, true, false, not, ◌&&◌,
  ◌||◌, if◌then◌else◌, ltb, leb, ◌==◌,
}
use randomshitgo_go.Panes.Extract.{join_lines}

pub record Cell : Type 0 where
  pub x : ℕ
  pub y : ℕ

pub record Selection : Type 0 where
  pub anchor : Cell
  pub cursor : Cell
  pub active : Bool

-- `Selection{}`
abbrev pub no_selection : Selection
no_selection = record {
  anchor = record { x = 0; y = 0 };
  cursor = record { x = 0; y = 0 };
  active = false;
}

-- The end that comes first in reading order, and the other.
unfoldable pub normalized : Selection → Cell × Cell
normalized s =
    if ltb s.anchor.y s.cursor.y || (s.anchor.y == s.cursor.y && leb s.anchor.x s.cursor.x)
    then (s.anchor, s.cursor)
    else (s.cursor, s.anchor)

unfoldable pub between : Cell → Cell → ℕ → ℕ → Bool
between lo hi x y =
    if ltb y lo.y || ltb hi.y y
    then false
    else if y == lo.y && ltb x lo.x
    then false
    else if y == hi.y && ltb hi.x x
    then false
    else true

unfoldable pub contains : Selection → ℕ → ℕ → Bool
unfolding normalized between
contains s x y = if not s.active then false else (let (lo, hi) = normalized s in between lo hi x y)

-- A cell of the emulator's grid.
pub record GridCell : Type 0 where
  pub content : List ℕ
  pub width : ℕ

-- `VTTerm`, of which the text is read: the width, and the cells, which may be missing.
pub record Term : Type 0 where
  pub width : ℕ
  pub cell_at : ℕ → ℕ → Option GridCell

abbrev content_of : List ℕ → List ℕ
content_of [] = 0x20 ∷ []
content_of (b ∷ bs) = b ∷ bs

-- What is written for a cell, and the columns that it takes.
abbrev pub glyph : Option GridCell → List ℕ
glyph none = 0x20 ∷ []
glyph (some c) = content_of c.content

abbrev pub columns : Option GridCell → ℕ
columns none = 1
columns (some c) = if c.width == 2 then 2 else 1

-- The loop of `rowText` from column x, in at most as many rounds as there are columns.
unfoldable pub row_from : ℕ → Term → ℕ → ℕ → ℕ → List ℕ
row_from zero t y x stop = []
row_from (suc fuel) t y x stop =
    let rest = row_from fuel t y (x + columns (t.cell_at x y)) stop in
    if ltb x stop then glyph (t.cell_at x y) ++ rest else []

abbrev cons_space : ℕ → List ℕ → List ℕ
cons_space b [] = if b == 0x20 then [] else b ∷ []
cons_space b (c ∷ cs) = b ∷ c ∷ cs

-- `strings.TrimRight(s, " ")`
unfoldable pub trim_right : List ℕ → List ℕ
trim_right [] = []
trim_right (b ∷ bs) = cons_space b (trim_right bs)

unfoldable pub row_text : Term → ℕ → ℕ → ℕ → List ℕ
unfolding row_from trim_right
row_text t y start stop = trim_right (row_from (stop - start) t y start stop)

abbrev pub start_of : Cell → ℕ → ℕ
start_of lo y = if y == lo.y then lo.x else 0

abbrev pub stop_of : Term → Cell → ℕ → ℕ
stop_of t hi y = if y == hi.y then hi.x + 1 else t.width

-- The loop over the rows, from row y, n rounds.
unfoldable pub rows_from : (ℕ → List ℕ) → ℕ → ℕ → List (List ℕ)
rows_from row y zero = []
rows_from row y (suc n) = row y ∷ rows_from row (y + 1) n

unfoldable pub selection_text : Term → Selection → List ℕ
unfolding normalized rows_from row_text
selection_text t s =
    if not s.active
    then []
    else (let (lo, hi) = normalized s in
        join_lines
          (rows_from (λ y. row_text t y (start_of lo y) (stop_of t hi y)) lo.y (hi.y + 1 - lo.y)))

-- Bubble Tea's mouse messages. `button_other` is a button that the source does not map.
pub data Button : Type 0 where
  button_none : Button
  button_left : Button
  button_middle : Button
  button_right : Button
  wheel_up : Button
  wheel_down : Button
  wheel_left : Button
  wheel_right : Button
  button_backward : Button
  button_forward : Button
  button_other : Button

pub data Action : Type 0 where
  press : Action
  release : Action
  motion : Action

pub record MouseMsg : Type 0 where
  pub x : ℕ
  pub y : ℕ
  pub action : Action
  pub button : Button
  pub shift : Bool
  pub alt : Bool
  pub ctrl : Bool

abbrev pub is_wheel : Button → Bool
is_wheel wheel_up = true
is_wheel wheel_down = true
is_wheel wheel_left = true
is_wheel wheel_right = true
is_wheel _ = false

-- `teaButtonToUV`: both libraries name the same buttons.
abbrev tea_button_to_uv : Button → Option Button
tea_button_to_uv button_other = none
tea_button_to_uv b = some b

pub data EventKind : Type 0 where
  wheel : EventKind
  click : EventKind
  released : EventKind
  moved : EventKind

-- An event for the child, in the pane's coordinates.
pub record MouseEvent : Type 0 where
  pub kind : EventKind
  pub x : ℕ
  pub y : ℕ
  pub button : Button
  pub shift : Bool
  pub alt : Bool
  pub ctrl : Bool

abbrev kind_of : MouseMsg → EventKind
kind_of msg = elim msg.action [
  | press ↦ if is_wheel msg.button then wheel else click
  | release ↦ released
  | motion ↦ moved
]

pub msg_to_mouse : MouseMsg → ℕ → ℕ → Option MouseEvent
msg_to_mouse msg origin_x origin_y =
    if ltb msg.x origin_x || ltb msg.y origin_y then none else elim (tea_button_to_uv msg.button) [
      | none ↦ none
      | some b ↦ some (record {
        kind = kind_of msg;
        x = msg.x - origin_x;
        y = msg.y - origin_y;
        button = b;
        shift = msg.shift;
        alt = msg.alt;
        ctrl = msg.ctrl;
      })
    ]

-- `attachPaneGeometry`, as its three results.
pub record Pane : Type 0 where
  pub origin_x : ℕ
  pub w : ℕ
  pub h : ℕ

unfoldable pub attach_cell_at : Pane → ℕ → ℕ → Option Cell
attach_cell_at p abs_x abs_y =
    if ltb abs_x p.origin_x || leb p.w (abs_x - p.origin_x) || leb p.h abs_y
    then none
    else some (record { x = abs_x - p.origin_x; y = abs_y })

-- `clampInt` from 0, where the subtraction already stops.
unfoldable pub clamp_int : ℕ → ℕ → ℕ
clamp_int v hi = if ltb hi v then hi else v

unfoldable pub attach_clamp_cell : Pane → ℕ → ℕ → Cell
unfolding clamp_int
attach_clamp_cell p abs_x abs_y = record {
  x = clamp_int (abs_x - p.origin_x) (p.w - 1);
  y = clamp_int abs_y (p.h - 1);
}

-- What an event leads to outside the model: nothing, an event for the child, or a copy to the clipboard.
pub data Effect : Type 0 where
  no_effect : Effect
  send_mouse : MouseEvent → Effect
  yank : List ℕ → Effect

abbrev same_cell : Cell → Cell → Bool
same_cell a b = a.x == b.x && a.y == b.y

-- The event for a child that tracks the mouse, if it is on the grid.
pub forward : Pane → MouseMsg → Effect
unfolding msg_to_mouse
forward p msg = elim (attach_cell_at p msg.x msg.y) [
  | none ↦ no_effect
  | some cell ↦ elim (msg_to_mouse msg p.origin_x 0) [ none ↦ no_effect | some ev ↦ send_mouse ev ]
]

-- The effect of letting go of the button, which ends the selection.
pub yank_selection : Term → Selection → Effect
yank_selection t sel =
    if same_cell sel.anchor sel.cursor
    then no_effect
    else elim (selection_text t sel) [ [] ↦ no_effect | b ∷ bs ↦ yank (b ∷ bs) ]

-- A press of the left button in the pane begins a selection.
unfoldable pub begin : Selection → Button → Option Cell → Selection
begin sel button_left (some cell) = record { anchor = cell; cursor = cell; active = true }
begin sel button_left none = sel
begin sel _ o = sel

unfoldable pub drag : Pane → Term → Selection → MouseMsg → Selection × Effect
unfolding begin yank_selection
drag p t sel msg = elim msg.action [
  | press ↦ (begin sel msg.button (attach_cell_at p msg.x msg.y), no_effect)
  | motion ↦
      if not sel.active
      then (sel, no_effect)
      else (record sel { cursor = attach_clamp_cell p msg.x msg.y }, no_effect)
  | release ↦ if not sel.active then (sel, no_effect) else (no_selection, yank_selection t sel)
]

-- `routeEmbeddedAttachMouse` of a session; `tracking` is the child's answer.
unfoldable pub route_embedded_attach_mouse :
    Pane → Term → Bool → Selection → MouseMsg → Selection × Effect
unfolding forward drag
route_embedded_attach_mouse p t tracking sel msg =
    if tracking
    then (if sel.active then no_selection else sel, forward p msg)
    else if is_wheel msg.button
    then (sel, no_effect)
    else drag p t sel msg
