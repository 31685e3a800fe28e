-- ===== src/Attach/Mouse/Drag.antt =====
-- internal/tui/attach_mouse.go: where the selection of the attach pane is after any mouse events, and what they
-- send to the child.
use mathlib.Core.Option.{some-injective}
use randomshitgo_go.Prelude.{
  ℕ, ◌-◌, ◌<◌, List, [], ◌∷◌, Option, none, some, Bool, true, false, not, ◌≡◌, refl, subst, inl,
  inr, arith, Bool-cases, ltb, leb, ◌||◌, if◌then◌else◌,
}
use randomshitgo_go.Attach.Mouse.{
  Cell, Selection, Term, Pane, MouseMsg, Effect, Action, press, release, motion, Button,
  no_selection, attach_cell_at, attach_clamp_cell, clamp_int, drag, begin, is_wheel, button_none,
  button_left, button_middle, button_right, wheel_up, wheel_down, wheel_left, wheel_right,
  button_backward, button_forward, button_other, route_embedded_attach_mouse,
}

-- The ends of an active selection are cells of the pane.
unfoldable pub IsCellOf : Pane → Cell → Type 0
IsCellOf p c = (c.x < p.w) × (c.y < p.h)

unfoldable pub IsIn : Pane → Selection → Type 0
IsIn p s = s.active ≡ true → IsCellOf p s.anchor × IsCellOf p s.cursor

clamped : (v n : ℕ) → 0 < n → clamp_int v (n - 1) < n
unfolding clamp_int
clamped v n h = ground arith

if_cell : (b : Bool) (d c : Cell) → (if b then none else some d) ≡ some c → (b ≡ false) × (d ≡ c)
if_cell true d c h = absurd (cc)
if_cell false d c h = (refl, some-injective d c h)

cell_at-IsCellOf : (p : Pane) (x y : ℕ) (c : Cell) → attach_cell_at p x y ≡ some c → IsCellOf p c
unfolding attach_cell_at IsCellOf
cell_at-IsCellOf p x y c h =
    let (inside, same) =
      if_cell (ltb x p.origin_x || leb p.w (x - p.origin_x) || leb p.h y)
        (record { x = x - p.origin_x; y = y }) c h in
    subst (λ d. (d.x < p.w) × (d.y < p.h)) same (ground (arith, inside), ground (arith, inside))

no_selection-IsIn : (p : Pane) → IsIn p no_selection
unfolding IsIn
no_selection-IsIn p h = absurd (cc)

begin-IsIn :
    (p : Pane) (sel : Selection) (b : Button) (o : Option Cell)
    → ((c : Cell) → o ≡ some c → IsCellOf p c)
    → IsIn p sel
    → IsIn p (begin sel b o)
unfolding begin IsIn
begin-IsIn p sel button_left (some c) h i = λ on. (h c refl, h c refl)
begin-IsIn p sel button_left none h i = i
begin-IsIn p sel button_none o h i = i
begin-IsIn p sel button_middle o h i = i
begin-IsIn p sel button_right o h i = i
begin-IsIn p sel wheel_up o h i = i
begin-IsIn p sel wheel_down o h i = i
begin-IsIn p sel wheel_left o h i = i
begin-IsIn p sel wheel_right o h i = i
begin-IsIn p sel button_backward o h i = i
begin-IsIn p sel button_forward o h i = i
begin-IsIn p sel button_other o h i = i

clamp-IsCellOf : (p : Pane) (x y : ℕ) → 0 < p.w → 0 < p.h → IsCellOf p (attach_clamp_cell p x y)
unfolding attach_clamp_cell IsCellOf
clamp-IsCellOf p x y w h = (clamped (x - p.origin_x) p.w w, clamped y p.h h)

if-IsIn :
    (p : Pane) (b : Bool) (q r : Selection × Effect)
    → (b ≡ true → IsIn p q.0)
    → (b ≡ false → IsIn p r.0)
    → IsIn p (if b then q else r).0
if-IsIn p true q r h k = h refl
if-IsIn p false q r h k = k refl

drop-IsIn :
    (p : Pane) (b : Bool) (sel : Selection) → IsIn p sel → IsIn p (if b then no_selection else sel)
drop-IsIn p true sel i = no_selection-IsIn p
drop-IsIn p false sel i = i

move-IsIn :
    (p : Pane) (sel : Selection) (c : Cell)
    → sel.active ≡ true
    → IsIn p sel
    → IsCellOf p c
    → IsIn p (record sel { cursor = c })
unfolding IsIn
move-IsIn p sel c on i h = λ _. ((i on).0, h)

drag-IsIn :
    (p : Pane) (t : Term) (sel : Selection) (msg : MouseMsg) (a : Action)
    → 0 < p.w
    → 0 < p.h
    → IsIn p sel
    → msg.action ≡ a
    → IsIn p (drag p t sel msg).0
unfolding drag
drag-IsIn p t sel msg press w h i e =
    rw (drag, e) (begin-IsIn p sel msg.button _ (cell_at-IsCellOf p msg.x msg.y) i)
drag-IsIn p t sel msg motion w h i e =
    rw (drag, e)
      (if-IsIn p (not sel.active) _ _ (λ _. i)
        (λ on. move-IsIn p sel _ (ground (arith, on)) i (clamp-IsCellOf p msg.x msg.y w h)))
drag-IsIn p t sel msg release w h i e =
    rw (drag, e) (if-IsIn p (not sel.active) _ _ (λ _. i) (λ _. no_selection-IsIn p))

route-IsIn :
    (p : Pane) (t : Term) (tracking : Bool) (sel : Selection) (msg : MouseMsg)
    → 0 < p.w
    → 0 < p.h
    → IsIn p sel
    → IsIn p (route_embedded_attach_mouse p t tracking sel msg).0
unfolding route_embedded_attach_mouse
route-IsIn p t true sel msg w h i = drop-IsIn p sel.active sel i
route-IsIn p t false sel msg w h i = elim (Bool-cases (is_wheel msg.button)) [
  | inl turned ↦ rw turned i
  | inr other ↦ rw other (drag-IsIn p t sel msg msg.action w h i refl)
]

-- The selection after the messages, each with the child's answer at its time and the screen then.
unfoldable pub route_all : Pane → Selection → List (Bool × Term × MouseMsg) → Selection
route_all p sel [] = sel
route_all p sel ((tracking, t, msg) ∷ rest) =
    route_all p (route_embedded_attach_mouse p t tracking sel msg).0 rest

-- In a pane of at least one cell the ends of an active selection are cells of the pane after any mouse
-- messages, wherever they point, whether or not the child tracks the mouse meanwhile.
pub route_all-IsIn :
    (p : Pane) (msgs : List (Bool × Term × MouseMsg)) (sel : Selection)
    → 0 < p.w
    → 0 < p.h
    → IsIn p sel
    → IsIn p (route_all p sel msgs)
unfolding route_all
route_all-IsIn p [] sel w h i = i
route_all-IsIn p ((tracking, t, msg) ∷ rest) sel w h i =
    route_all-IsIn p rest (route_embedded_attach_mouse p t tracking sel msg).0 w h
      (route-IsIn p t tracking sel msg w h i)
