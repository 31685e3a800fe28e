-- ===== src/Routing/LogFocus.antt =====
-- internal/tui/routing.go: how log focus is left.
use randomshitgo_go.Prelude.{
  ℕ, List, [], ◌∷◌, Option, none, some, Bool, true, false, ◌&&◌, ◌||◌, ◌⊎◌, inl, inr, ◌≡◌, refl, ap,
  ◌∙◌, if◌then◌else◌, String, str_eq, eq_iff, Bool-cases, if_either, neither, sym,
}
use randomshitgo_go.Panes.Cursor.{Cursor}
use randomshitgo_go.Panes.CopyMode.{clear_pending}
use randomshitgo_go.Panes.Lines.{selects}
use randomshitgo_go.Routing.{
  handle_jump_match, with_matches, Model, mode_log_focus, is_esc, within, route_esc,
  route_log_focus, is_ctrl_c, handle_ctrl_c, route_key, in_log_focus, type_keys,
}

-- The time of the last Esc with nothing but Ctrl+C after it: that key does not disarm.
abbrev pub esc_time : Option ℕ → ℕ → String → Option ℕ
esc_time last now s = if is_esc s then some now else if is_ctrl_c s then last else none

-- Whether an Esc comes within the window after another, with nothing but Ctrl+C between them; the first argument is
-- the time of an Esc before.
unfoldable pub has_double_esc : Option ℕ → List (ℕ × String) → Bool
has_double_esc last [] = false
has_double_esc last (k ∷ ks) =
    (is_esc k.1 && within last k.0) || has_double_esc (esc_time last k.0 k.1) ks

-- Armed at the time of the last Esc, if at all.
abbrev ArmedBy : Model → Option ℕ → Type 0
ArmedBy m last = (m.log_esc_armed_at ≡ none) ⊎ (m.log_esc_armed_at ≡ last)

not_within :
    (m : Model) (last : Option ℕ) (now : ℕ)
    → ArmedBy m last
    → within last now ≡ false
    → within m.log_esc_armed_at now ≡ false
not_within m last now a w = elim a [ inl e ↦ rw e refl | inr e ↦ rw e w ]

route_esc-stays :
    (paint : Cursor → List ℕ) (now : ℕ) (m : Model) (last : Option ℕ)
    → m.mode ≡ mode_log_focus
    → ArmedBy m last
    → within last now ≡ false
    → ((route_esc paint now m).1.mode ≡ mode_log_focus)
      × ArmedBy (route_esc paint now m).1 (some now)
unfolding route_esc
route_esc-stays paint now m last h a w =
    let Q : List String × Model → Type 0 =
      λ r. (r.1.mode ≡ mode_log_focus) × ArmedBy r.1 (some now) in
    if_either Q (clear_pending m.log_panel.copy).0 (h, inl refl)
      (if_either Q (selects m.log_panel.copy.sel.mode) (h, inl refl)
        (rw (not_within m last now a w) (h, inr refl)))

jump-stays :
    (paint : Cursor → List ℕ) (m : Model) (forward : Bool)
    → ((handle_jump_match paint m forward).1.mode ≡ m.mode)
      × ((handle_jump_match paint m forward).1.log_esc_armed_at ≡ m.log_esc_armed_at)
unfolding handle_jump_match with_matches
jump-stays paint m forward =
    if_either
      (λ (r : List String × Model).
        (r.1.mode ≡ m.mode) × (r.1.log_esc_armed_at ≡ m.log_esc_armed_at))
      m.filtering (refl, refl) (refl, refl)

other-stays :
    (paint : Cursor → List ℕ) (now : ℕ) (m : Model) (s : String)
    → m.mode ≡ mode_log_focus
    → is_esc s ≡ false
    → ((route_log_focus paint now m s).1.mode ≡ mode_log_focus)
      × ((route_log_focus paint now m s).1.log_esc_armed_at ≡ none)
unfolding route_log_focus
other-stays paint now m s h e =
    let Q : (List String × Option (List ℕ)) × Model → Type 0 =
      λ r. (r.1.mode ≡ mode_log_focus) × (r.1.log_esc_armed_at ≡ none) in
    let disarmed : Model = record m { log_esc_armed_at = none } in
    let jumps : (forward : Bool) → Q (([], none), (handle_jump_match paint disarmed forward).1) =
      λ forward.
        let (mode_kept, armed_kept) = jump-stays paint disarmed forward in
        (mode_kept ∙ h, armed_kept) in
    rw e (
      if_either Q (str_eq s " " || str_eq s "space") (h, refl)
        (if_either Q (str_eq s "n") (jumps true)
          (if_either Q (str_eq s "N") (jumps false) (h, refl))))

focus-stays :
    (paint : Cursor → List ℕ) (now : ℕ) (m : Model) (s : String) (last : Option ℕ)
    → m.mode ≡ mode_log_focus
    → ArmedBy m last
    → (is_esc s && within last now) ≡ false
    → ((route_log_focus paint now m s).1.mode ≡ mode_log_focus)
      × ArmedBy (route_log_focus paint now m s).1 (if is_esc s then some now else none)
unfolding route_log_focus
focus-stays paint now m s last h a d = elim (Bool-cases (is_esc s)) [
  | inl e ↦
      rw e (route_esc-stays paint now m last h a (rw (sym (ap (λ b. b && within last now) e)) d))
  | inr e ↦ let (kept, off) = other-stays paint now m s h e in (kept, inl off)
]

ctrl_c-no-esc : (s : String) → is_ctrl_c s ≡ true → is_esc s ≡ false
ctrl_c-no-esc s c = ap is_esc ((eq_iff s "ctrl+c").0 c)

ctrl_c-stays :
    (now : ℕ) (m : Model) (last : Option ℕ)
    → m.mode ≡ mode_log_focus
    → ArmedBy m last
    → ((handle_ctrl_c now m).1.mode ≡ mode_log_focus) × ArmedBy (handle_ctrl_c now m).1 last
unfolding handle_ctrl_c
ctrl_c-stays now m last h a =
    if_either (λ (r : List String × Model). (r.1.mode ≡ mode_log_focus) × ArmedBy r.1 last)
      (within m.quit_armed_at now) (h, a) (h, a)

step-stays :
    (paint : Cursor → List ℕ) (now : ℕ) (m : Model) (s : String) (last : Option ℕ)
    → m.mode ≡ mode_log_focus
    → ArmedBy m last
    → (is_esc s && within last now) ≡ false
    → ((route_key paint now m s).1.mode ≡ mode_log_focus)
      × ArmedBy (route_key paint now m s).1 (esc_time last now s)
unfolding route_key
step-stays paint now m s last h a d = elim (Bool-cases (is_ctrl_c s)) [
  | inl c ↦ rw (c, ctrl_c-no-esc s c) (ctrl_c-stays now m last h a)
  | inr c ↦
      rw (route_key, c) (focus-stays paint now (record m { quit_armed_at = none }) s last h a d)
]

type_keys-kept :
    (paint : Cursor → List ℕ) (m : Model) (last : Option ℕ) (keys : List (ℕ × String))
    → m.mode ≡ mode_log_focus
    → ArmedBy m last
    → has_double_esc last keys ≡ false
    → (type_keys paint m keys).mode ≡ mode_log_focus
unfolding type_keys has_double_esc
type_keys-kept paint m last [] h a d = h
type_keys-kept paint m last (k ∷ ks) h a d =
    let (here, later) =
      neither (is_esc k.1 && within last k.0) (has_double_esc (esc_time last k.0 k.1) ks) d in
    let (kept, armed) = step-stays paint k.0 m k.1 last h a here in
    if_either (λ (r : Model). r.mode ≡ mode_log_focus) (in_log_focus m.mode)
      (type_keys-kept paint (route_key paint k.0 m k.1).1 (esc_time last k.0 k.1) ks kept armed
        later)
      h

-- Log focus is not left, whatever is typed, unless an Esc comes within two seconds after another with nothing but
-- Ctrl+C between them. It starts with no Esc counted.
pub type_keys-stays :
    (paint : Cursor → List ℕ) (m : Model) (keys : List (ℕ × String))
    → m.mode ≡ mode_log_focus
    → m.log_esc_armed_at ≡ none
    → has_double_esc none keys ≡ false
    → (type_keys paint m keys).mode ≡ mode_log_focus
type_keys-stays paint m keys h a d = type_keys-kept paint m none keys h (inl a) d
