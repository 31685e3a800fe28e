-- ===== src/State/Ui/Consistent.antt =====
-- internal/state/ui.go: what holds of the UI store after any calls.
use randomshitgo_go.Prelude.{
  ℕ, List, [], ◌∷◌, Option, none, some, Bool, true, false, ◌≡◌, refl, inl, inr, if◌then◌else◌,
  Bool-cases, String, str_eq, Option-cases,
}
use randomshitgo_go.Prelude.Int.{ℤ}
use randomshitgo_go.State.Ui.{
  UiStore, OverlayKind, notify, subscribe, set_selected_id, set_filter, set_log_scroll,
  set_sticky_bottom, set_overlay, push_toast, pop_expired_toasts,
}

-- The calls that change the store.
pub data Call : Type 0 where
  subscribes : Call
  selects : String → Call
  filters : String → Call
  scrolls : ℤ → Call
  sticks : Bool → Call
  overlays : OverlayKind → Call
  toasts : String → ℤ → ℕ → Call
  expires : ℕ → Call

module _ {Regex : Type 0} (compile : String → Option Regex) where
  pub call : UiStore Regex → Call → UiStore Regex
  unfolding set_filter
  call u subscribes = subscribe u
  call u (selects id) = set_selected_id u id
  call u (filters text) = (set_filter compile u text).1
  call u (scrolls n) = set_log_scroll u n
  call u (sticks v) = set_sticky_bottom u v
  call u (overlays o) = set_overlay u o
  call u (toasts msg dur now) = push_toast u msg dur now
  call u (expires now) = pop_expired_toasts u now

  pub calls : UiStore Regex → List Call → UiStore Regex
  unfolding call
  calls u [] = u
  calls u (c ∷ cs) = calls (call u c) cs

  abbrev is_none : Option Regex → Bool
  is_none none = true
  is_none (some re) = false

  -- The regex in use is that of the text, and an error is one of the text.
  abbrev pub IsConsistent : UiStore Regex → Type 0
  IsConsistent u =
      (u.filter_regex ≡ (if str_eq u.filter_text "" then none else compile u.filter_text))
      × (u.filter_err
          ≡ (if str_eq u.filter_text "" then false else is_none (compile u.filter_text)))

  set_filter-IsConsistent :
      (u : UiStore Regex) (text : String) → IsConsistent (set_filter compile u text).1
  unfolding set_filter notify
  set_filter-IsConsistent u text = elim (Bool-cases (str_eq text "")) [
    | inl e ↦ rw (set_filter, e) (rw e refl, rw e refl)
    | inr e ↦ elim (Option-cases (compile text)) [
      | inl bad ↦ rw (set_filter, e, bad) (rw (e, bad) refl, rw (e, bad) refl)
      | inr (re, good) ↦ rw (set_filter, e, good) (rw (e, good) refl, rw (e, good) refl)
    ]
  ]

  call-IsConsistent : (u : UiStore Regex) (c : Call) → IsConsistent u → IsConsistent (call u c)
  unfolding call notify subscribe set_selected_id set_log_scroll set_sticky_bottom set_overlay
      push_toast pop_expired_toasts
  call-IsConsistent u subscribes h = h
  call-IsConsistent u (selects id) h = h
  call-IsConsistent u (filters text) h = set_filter-IsConsistent u text
  call-IsConsistent u (scrolls n) h = h
  call-IsConsistent u (sticks v) h = h
  call-IsConsistent u (overlays o) h = h
  call-IsConsistent u (toasts msg dur now) h = h
  call-IsConsistent u (expires now) h = h

  -- After any calls on a store that was consistent, as a new one is, the filter in use is what its text
  -- compiles to, or none for the empty text and for one that does not compile, and the store holds an error
  -- in the last case alone.
  pub calls-IsConsistent :
      (u : UiStore Regex) (cs : List Call) → IsConsistent u → IsConsistent (calls u cs)
  unfolding calls
  calls-IsConsistent u [] h = h
  calls-IsConsistent u (c ∷ cs) h = calls-IsConsistent (call u c) cs (call-IsConsistent u c h)
