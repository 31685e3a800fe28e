-- ===== src/Panes/Sidebar/Selecting.antt =====
-- internal/tui/panes/sidebar.go, internal/tui/app.go and handlers.go: the selected project when the projects change.
use randomshitgo_go.Prelude.{
  ℕ, suc, ◌+◌, ◌-◌, ◌≤◌, ◌<◌, List, [], ◌∷◌, ◌++◌, Option, none, some, false, ◌≡◌, refl, ap, ◌∙◌,
  inl, inr, arith, if_given, Bool-cases, Option-cases, length, get_elem?, map, length-map, String,
  str_eq, eq_iff,
}
use randomshitgo_go.Prelude.Int.{ℤ, pos, negsuc}
use randomshitgo_go.State.Runtime.{ProjectRuntime}
use randomshitgo_go.State.Ui.{UiStore}
use randomshitgo_go.Panes.Sidebar.{
  Row, Sidebar, row_of, row_index, set_rows, set_cursor, up, down, selected, set_selected,
  handle_runtime_changed,
}

-- The calls of the sidebar.
pub data Call : Type 0 where
  rows : List ProjectRuntime → Call
  to : ℤ → Call
  move_up : Call
  move_down : Call
  project : String → Call

pub call : Sidebar → Call → Sidebar
unfolding set_rows set_cursor up down set_selected
call s (rows snapshot) = set_rows s snapshot
call s (to i) = set_cursor s i
call s move_up = up s
call s move_down = down s
call s (project id) = set_selected s id

pub calls : Sidebar → List Call → Sidebar
unfolding call
calls s [] = s
calls s (c ∷ cs) = calls (call s c) cs

-- A row is under the cursor, if there are rows.
abbrev pub IsOnRow : Sidebar → Type 0
IsOnRow s = 0 < length s.rows → s.cursor < length s.rows

-- The row that is found is the project's.
row_index-found :
    (id : String) (i : ℕ) (rs : List Row) (k : ℕ)
    → row_index id i rs ≡ some k
    → (i ≤ k) × ((r : Row) × (get_elem? rs (k - i) ≡ some r) × (r.id ≡ id)) × (k < i + length rs)
unfolding row_index
row_index-found id i [] k h = absurd (cc)
row_index-found id i (r ∷ rs) k h =
    if_given
      (λ (o : Option ℕ).
        o ≡ some k
        → (i ≤ k)
          × ((q : Row) × (get_elem? (r ∷ rs) (k - i) ≡ some q) × (q.id ≡ id))
          × (k < i + length (r ∷ rs)))
      (str_eq r.id id)
      (λ e o.
        let at : i ≡ k = cc o in
        let first : k - i ≡ 0 = omega (arith, at) in
        (
          omega (arith, at),
          (r, ap (λ (n : ℕ). get_elem? (r ∷ rs) n) first, (eq_iff r.id id).0 e),
          omega (arith, at),
        ))
      (λ o.
        let (low, (q, here, named), high) = row_index-found id (i + 1) rs k o in
        let next : k - i ≡ suc (k - (i + 1)) = omega (arith, low) in
        (
          omega (arith, low),
          (q, ap (λ (n : ℕ). get_elem? (r ∷ rs) n) next ∙ here, named),
          omega (arith, high),
        ))
      h

set_selected-IsOnRow : (s : Sidebar) (id : String) → IsOnRow s → IsOnRow (set_selected s id)
unfolding set_selected
set_selected-IsOnRow s id h = elim (Option-cases (row_index id 0 s.rows)) [
  | inl e ↦ rw (set_selected, e) h
  | inr (k, e) ↦
      rw (set_selected, e) (λ some_row. omega (arith, (row_index-found id 0 s.rows k e).2))
]

set_selected-selected :
    (s : Sidebar) (id : String) (k : ℕ)
    → row_index id 0 s.rows ≡ some k
    → selected (set_selected s id) ≡ id
unfolding set_selected selected
set_selected-selected s id k e =
    let (low, (q, here, named), high) = row_index-found id 0 s.rows k e in
    let at : get_elem? s.rows k ≡ some q =
      ap (λ (n : ℕ). get_elem? s.rows n) (omega arith) ∙ here in
    rw (set_selected, e, selected, at) named

call-IsOnRow : (s : Sidebar) (c : Call) → IsOnRow s → IsOnRow (call s c)
unfolding call
call-IsOnRow s (rows snapshot) h =
    let same : length (map row_of snapshot) ≡ length snapshot = length-map snapshot row_of in
    ground arith
call-IsOnRow s (to (pos i)) h = ground arith
call-IsOnRow s (to (negsuc i)) h = h
call-IsOnRow s move_up h = λ some_row. omega (arith, h some_row)
call-IsOnRow s move_down h = ground arith
call-IsOnRow s (project id) h = set_selected-IsOnRow s id h

-- Whatever calls are made of the sidebar, there is a row under its cursor as long as there are rows.
pub calls-IsOnRow : (s : Sidebar) (cs : List Call) → IsOnRow s → IsOnRow (calls s cs)
unfolding calls
calls-IsOnRow s [] h = h
calls-IsOnRow s (c ∷ cs) h = calls-IsOnRow (call s c) cs (call-IsOnRow s c h)

row_index-append :
    (id : String) (i : ℕ) (before : List Row) (r : Row) (after : List Row)
    → r.id ≡ id
    → (k : ℕ) × (row_index id i (before ++ r ∷ after) ≡ some k)
unfolding row_index
row_index-append id i [] r after h = (i, rw ((eq_iff r.id id).1 h) refl)
row_index-append id i (b ∷ before) r after h = elim (Bool-cases (str_eq b.id id)) [
  | inl e ↦ (i, rw e refl)
  | inr e ↦ let (k, found) = row_index-append id (i + 1) before r after h in (k, rw e found)
]

map-row_of :
    (before : List ProjectRuntime) (r : ProjectRuntime) (after : List ProjectRuntime)
    → map row_of (before ++ r ∷ after) ≡ map row_of before ++ row_of r ∷ map row_of after
map-row_of [] r after = refl
map-row_of (b ∷ before) r after = ap (λ t. row_of b ∷ t) (map-row_of before r after)

module _ {Regex : Type 0} where
  -- The project that the store names stays selected when the projects change, wherever its row comes to stand, and the
  -- store goes on naming it.
  pub handle_runtime_changed-selected :
      (s : Sidebar) (ui : UiStore Regex) (before : List ProjectRuntime) (r : ProjectRuntime)
      (after : List ProjectRuntime)
      → str_eq ui.selected_id "" ≡ false
      → r.id ≡ ui.selected_id
      → let next : Sidebar × UiStore Regex = handle_runtime_changed s ui (before ++ r ∷ after) in
        (selected next.0 ≡ ui.selected_id) × (next.1 ≡ ui)
  unfolding handle_runtime_changed set_rows set_selected selected
  handle_runtime_changed-selected s ui before r after named here =
      let (k, found) =
        row_index-append ui.selected_id 0 (map row_of before) (row_of r) (map row_of after) here in
      let found' : row_index ui.selected_id 0 (map row_of (before ++ r ∷ after)) ≡ some k =
        ap (row_index ui.selected_id 0) (map-row_of before r after) ∙ found in
      rw (handle_runtime_changed, named)
        (set_selected-selected (set_rows s (before ++ r ∷ after)) ui.selected_id k found', refl)

  -- A selected project that is gone: the store goes on naming it, and the sidebar has another one under its cursor, or
  -- none.
  pub handle_runtime_changed-gone :
      (s : Sidebar) (ui : UiStore Regex) (snapshot : List ProjectRuntime)
      → str_eq ui.selected_id "" ≡ false
      → row_index ui.selected_id 0 (map row_of snapshot) ≡ none
      → let next : Sidebar × UiStore Regex = handle_runtime_changed s ui snapshot in
        (next.0 ≡ set_rows s snapshot) × (next.1 ≡ ui)
  unfolding handle_runtime_changed set_rows set_selected
  handle_runtime_changed-gone s ui snapshot named gone =
      rw (handle_runtime_changed, named, set_selected, gone) (refl, refl)
