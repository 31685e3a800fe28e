-- ===== src/State/Ui.antt =====
-- internal/state/ui.go: `UIStore`. The compiler of filters, regexp.Compile, is an argument. A subscriber is
-- its channel of one token: full or not. `LogScroll` is a number, `SetLogScroll` takes an integer; times are
-- numbers and durations integers, their differences taken not to pass 64 bits.
pub mod Consistent
use randomshitgo_go.Prelude.{
  ℕ, List, [], ◌∷◌, ◌++◌, Option, none, some, Bool, true, false, not, ◌||◌, if◌then◌else◌, map,
  String, str_eq,
}
use randomshitgo_go.Prelude.Int.{ℤ, pos, ltb_ℤ, pos_part, ◌-ℤ◌}

pub data OverlayKind : Type 0 where
  overlay_none : OverlayKind
  overlay_help : OverlayKind
  overlay_filter : OverlayKind

pub record Toast : Type 0 where
  pub message : String
  pub at : ℕ
  pub duration : ℤ

pub record UiStore (Regex : Type 0) : Type 0 where
  pub selected_id : String
  pub filter_text : String
  pub filter_regex : Option Regex
  pub filter_err : Bool
  pub log_scroll : ℕ
  pub sticky_bottom : Bool
  pub overlay : OverlayKind
  pub toasts : List Toast
  pub subs : List Bool

pub record UiSnapshot (Regex : Type 0) : Type 0 where
  pub selected_id : String
  pub filter_text : String
  pub filter_regex : Option Regex
  pub log_scroll : ℕ
  pub sticky_bottom : Bool
  pub overlay : OverlayKind
  pub toasts : List Toast

-- Whether a toast stays at a time.
abbrev pub is_kept : ℕ → Toast → Bool
is_kept now t = not (ltb_ℤ (pos 0) t.duration) || ltb_ℤ (pos now -ℤ pos t.at) t.duration

pub keep_toasts : ℕ → List Toast → List Toast
keep_toasts now [] = []
keep_toasts now (t ∷ ts) = let rest = keep_toasts now ts in if is_kept now t then t ∷ rest else rest

module _ {Regex : Type 0} where
  pub new_ui_store : UiStore Regex
  new_ui_store = record {
    selected_id = "";
    filter_text = "";
    filter_regex = none;
    filter_err = false;
    log_scroll = 0;
    sticky_bottom = true;
    overlay = overlay_none;
    toasts = [];
    subs = [];
  }

  -- A channel that is full keeps its token.
  pub notify : UiStore Regex → UiStore Regex
  notify u = record u { subs = map (λ full. true) u.subs }

  pub subscribe : UiStore Regex → UiStore Regex
  subscribe u = record u { subs = u.subs ++ false ∷ [] }

  pub set_selected_id : UiStore Regex → String → UiStore Regex
  unfolding notify
  set_selected_id u id = notify (record u { selected_id = id })

  -- Whether it returns an error, and the store.
  pub set_filter : (String → Option Regex) → UiStore Regex → String → Bool × UiStore Regex
  unfolding notify
  set_filter compile u text =
      if str_eq text ""
      then (
        false,
        notify (record u { filter_text = text; filter_regex = none; filter_err = false }),
      )
      else elim (compile text) [
        | none ↦
            (true, notify (record u { filter_text = text; filter_regex = none; filter_err = true }))
        | some re ↦ (
          false,
          notify (record u { filter_text = text; filter_regex = some re; filter_err = false }),
        )
      ]

  pub set_log_scroll : UiStore Regex → ℤ → UiStore Regex
  unfolding notify
  set_log_scroll u n = notify (record u { log_scroll = if ltb_ℤ n (pos 0) then 0 else pos_part n })

  pub set_sticky_bottom : UiStore Regex → Bool → UiStore Regex
  unfolding notify
  set_sticky_bottom u v = notify (record u { sticky_bottom = v })

  pub set_overlay : UiStore Regex → OverlayKind → UiStore Regex
  unfolding notify
  set_overlay u o = notify (record u { overlay = o })

  pub push_toast : UiStore Regex → String → ℤ → ℕ → UiStore Regex
  unfolding notify
  push_toast u msg dur now =
      notify
        (record u { toasts = u.toasts ++ record { message = msg; at = now; duration = dur } ∷ [] })

  pub pop_expired_toasts : UiStore Regex → ℕ → UiStore Regex
  unfolding keep_toasts
  pop_expired_toasts u now = record u { toasts = keep_toasts now u.toasts }

  pub snapshot : UiStore Regex → UiSnapshot Regex
  snapshot u = record {
    selected_id = u.selected_id;
    filter_text = u.filter_text;
    filter_regex = u.filter_regex;
    log_scroll = u.log_scroll;
    sticky_bottom = u.sticky_bottom;
    overlay = u.overlay;
    toasts = u.toasts;
  }
