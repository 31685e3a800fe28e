-- ===== src/State/Runtime/Shown.antt =====
-- internal/state/runtime.go: the two fields of an entry that a daemon's snapshot carries.
use randomshitgo_go.Prelude.{
  ℕ, Option, none, some, ◌≡◌, refl, ap, ◌∙◌, sym, inl, inr, Bool-cases, if◌then◌else◌, String,
  str_eq, eq_iff, arith,
}
use randomshitgo_go.Prelude.Int.{ℤ, pos}
use randomshitgo_go.Event.{
  Event, LogLineEvent, project_id, started, exited, state_changed, log_line, restarting,
}
use randomshitgo_go.State.Runtime.{ProjectRuntime, RuntimeStore, apply, get}
use randomshitgo_go.State.Runtime.Lookup.{effect, after_effect, get-apply}

pub view : Option ProjectRuntime → Option (String × ℤ)
view none = none
view (some r) = some (r.state, r.pid)

unfoldable pub shown : RuntimeStore → String → Option (String × ℤ)
unfolding view
shown s j = view (get s j)

-- An idle entry shows as this.
abbrev pub or_idle_view : Option (String × ℤ) → String × ℤ
or_idle_view none = ("idle", pos 0)
or_idle_view (some v) = v

-- What an event does to what is shown.
abbrev pub shown_after : Event → Option (String × ℤ) → Option (String × ℤ)
shown_after (started e) v = some ("running", e.pid)
shown_after (exited e) v = some ((or_idle_view v).0, pos 0)
shown_after (state_changed e) v = some (e.state, (or_idle_view v).1)
shown_after (log_line e) v = v
shown_after (restarting e) v = some (or_idle_view v)

view-after :
    (ev : Event) (now : ℕ) (id : String) (o : Option ProjectRuntime)
    → view (after_effect (effect ev now) id o) ≡ shown_after ev (view o)
unfolding view effect
view-after (started e) now id none = refl
view-after (started e) now id (some r) = refl
view-after (exited e) now id none = refl
view-after (exited e) now id (some r) = refl
view-after (state_changed e) now id none = refl
view-after (state_changed e) now id (some r) = refl
view-after (log_line e) now id o = refl
view-after (restarting e) now id none = refl
view-after (restarting e) now id (some r) = refl

-- What a store shows after an event follows from the event and from what it showed before.
pub shown-apply :
    (s : RuntimeStore) (ev : Event) (now : ℕ) (j : String)
    → shown (apply s ev now) j
      ≡ (if str_eq (project_id ev) j then shown_after ev (shown s (project_id ev)) else shown s j)
unfolding shown
shown-apply s ev now j =
    ap view (get-apply s ev now j) ∙ elim (Bool-cases (str_eq (project_id ev) j)) [
      | inl own ↦ rw own (view-after ev now (project_id ev) (get s (project_id ev)))
      | inr other ↦ rw other
    ]

-- Two stores that show the same go on showing the same when both apply an event, whatever their clocks.
pub shown-cong :
    (s t : RuntimeStore) (ev : Event) (now now' : ℕ)
    → ((j : String) → shown s j ≡ shown t j)
    → (j : String) → shown (apply s ev now) j ≡ shown (apply t ev now') j
shown-cong s t ev now now' h j =
    shown-apply s ev now j ∙ (rw (h (project_id ev), h j)) ∙ sym (shown-apply t ev now' j)

pub shown-log_line :
    (s : RuntimeStore) (e : LogLineEvent) (now : ℕ) (j : String)
    → shown (apply s (log_line e) now) j ≡ shown s j
unfolding project_id
shown-log_line s e now j = shown-apply s (log_line e) now j ∙ elim (Bool-cases (str_eq e.id j)) [
  | inl own ↦ let same : e.id ≡ j = ground (arith, eq_iff e.id j) in rw own (ap (shown s) same)
  | inr other ↦ rw other
]
