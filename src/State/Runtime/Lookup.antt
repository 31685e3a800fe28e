-- ===== src/State/Runtime/Lookup.antt =====
-- internal/state/runtime.go: what `Get` finds after each operation, and who is notified.
use randomshitgo_go.Prelude.{
  ℕ, List, [], ◌∷◌, Option, none, some, Bool, true, false, ◌≡◌, inl, inr, refl, sym, ap, subst, ◌∙◌,
  arith, map, if◌then◌else◌, ◌||◌, String, str_eq, eq_iff, Bool-cases, Option-cases, All,
}
use randomshitgo_go.Prelude.Int.{ℤ, pos}
use randomshitgo_go.Prelude.Assoc.{Assoc, lookup, delete_key, lookup-insert, lookup-delete_key}
use randomshitgo_go.Event.{Event, started, exited, state_changed, log_line, restarting, project_id}
use randomshitgo_go.State.Runtime.{
  ProjectRuntime, RuntimeStore, idle_runtime, notify, update_entry, seed_entry, seed_entries, seed,
  set, delete_entries, delete, apply_entries, apply, get,
}

abbrev pub or_idle : String → Option ProjectRuntime → ProjectRuntime
or_idle id none = idle_runtime id
or_idle id (some r) = r

lookup-update_entry :
    (k j : String) (change : ProjectRuntime → ProjectRuntime) (m : Assoc ProjectRuntime)
    → lookup j (update_entry k change m)
      ≡ (if str_eq k j then some (change (or_idle k (lookup k m))) else lookup j m)
unfolding update_entry
lookup-update_entry k j change m = elim (Option-cases (lookup k m)) [
  | inl e ↦ rw (e, update_entry) (lookup-insert k j (change (idle_runtime k)) m)
  | inr (r, e) ↦ rw (e, update_entry) (lookup-insert k j (change r) m)
]

-- What an event says of its project; a log line says nothing.
unfoldable pub effect : Event → ℕ → Option (ProjectRuntime → ProjectRuntime)
effect (started e) now = some (λ r. record r { state = "running"; pid = e.pid; started_at = e.at })
effect (exited e) now =
    some (λ r. record r { pid = pos 0; exit_code = e.code; exit_signal = e.signal })
effect (state_changed e) now = some (λ r. record r { state = e.state })
effect (log_line e) now = none
effect (restarting e) now =
    some (λ r. record r { restart_attempts = e.attempt; last_restart_at = now })

abbrev pub after_effect :
    Option (ProjectRuntime → ProjectRuntime)
    → String
    → Option ProjectRuntime
    → Option ProjectRuntime
after_effect none id o = o
after_effect (some change) id o = some (change (or_idle id o))

-- `Apply` gives the event's project its effect, on an idle entry if there was none, and leaves every
-- other project as it was.
pub get-apply :
    (s : RuntimeStore) (ev : Event) (now : ℕ) (j : String)
    → get (apply s ev now) j ≡ (
        if str_eq (project_id ev) j
        then after_effect (effect ev now) (project_id ev) (get s (project_id ev))
        else get s j)
unfolding get apply apply_entries notify effect project_id
get-apply s (started e) now j = lookup-update_entry e.id j _ s.m
get-apply s (exited e) now j = lookup-update_entry e.id j _ s.m
get-apply s (state_changed e) now j = lookup-update_entry e.id j _ s.m
get-apply s (log_line e) now j = ground (arith, eq_iff e.id j)
get-apply s (restarting e) now j = lookup-update_entry e.id j _ s.m

-- A history of events with the times at which they are applied.
pub run : RuntimeStore → List (Event × ℕ) → RuntimeStore
run s [] = s
run s ((ev, now) ∷ evs) = run (apply s ev now) evs

-- The events of one project.
pub own : String → List (Event × ℕ) → List (Event × ℕ)
own j [] = []
own j ((ev, now) ∷ evs) =
    let rest = own j evs in if str_eq (project_id ev) j then (ev, now) ∷ rest else rest

run-get :
    (s t : RuntimeStore) (j : String) (evs : List (Event × ℕ))
    → get s j ≡ get t j
    → get (run s evs) j ≡ get (run t (own j evs)) j
unfolding run own
run-get s t j [] e = e
run-get s t j ((ev, now) ∷ evs) e = elim (Bool-cases (str_eq (project_id ev) j)) [
  | inl mine ↦
      let at_project : get s (project_id ev) ≡ get t (project_id ev) =
        subst (λ k. get s k ≡ get t k) (sym ((eq_iff (project_id ev) j).0 mine)) e in
      rw (mine, own)
        (run-get (apply s ev now) (apply t ev now) j evs (
          get-apply s ev now j
          ∙ rw mine (ap (after_effect (effect ev now) (project_id ev)) at_project)
          ∙ sym (get-apply t ev now j)))
  | inr other ↦
      rw (other, own) (run-get (apply s ev now) t j evs (get-apply s ev now j ∙ rw other e))
]

-- After any history the entry of a project is the one that its own events make, in their order.
pub get-run-own :
    (s : RuntimeStore) (j : String) (evs : List (Event × ℕ))
    → get (run s evs) j ≡ get (run s (own j evs)) j
get-run-own s j evs = run-get s s j evs refl

abbrev pub mem : String → List String → Bool
mem j [] = false
mem j (id ∷ ids) = str_eq id j || mem j ids

abbrev pub idle_if : Bool → String → Option ProjectRuntime → Option ProjectRuntime
idle_if named j (some r) = some r
idle_if true j none = some (idle_runtime j)
idle_if false j none = none

idle_if-false : (j : String) (o : Option ProjectRuntime) → o ≡ idle_if false j o
idle_if-false j none = refl
idle_if-false j (some r) = refl

-- What `Seed` makes of one project, told by the tests on the names.
lookup-seed_entry :
    (id j : String) (m : Assoc ProjectRuntime)
    → lookup j (seed_entry m id) ≡ idle_if (str_eq id j) j (lookup j m)
unfolding seed_entry
lookup-seed_entry id j m = elim (Option-cases (lookup id m)) [
  | inl e ↦
      rw (e, seed_entry)
        (lookup-insert id j (idle_runtime id) m ∙ elim (Bool-cases (str_eq id j)) [
          | inl same ↦ rw same (
              subst (λ k. some (idle_runtime id) ≡ idle_if true k (lookup k m))
                ((eq_iff id j).0 same) (rw e))
          | inr other ↦ rw other (idle_if-false j (lookup j m))
        ])
  | inr (r, e) ↦
      rw (e, seed_entry)
        (elim (Bool-cases (str_eq id j)) [
          | inl same ↦
              rw same (
                subst (λ k. lookup k m ≡ idle_if true k (lookup k m)) ((eq_iff id j).0 same) (rw e))
          | inr other ↦ rw other (idle_if-false j (lookup j m))
        ])
]

idle_if-twice :
    (a b : Bool) (j : String) (o : Option ProjectRuntime)
    → idle_if b j (idle_if a j o) ≡ idle_if (a || b) j o
idle_if-twice a b j (some r) = refl
idle_if-twice true b j none = refl
idle_if-twice false b j none = refl

lookup-seed_entries :
    (ids : List String) (j : String) (m : Assoc ProjectRuntime)
    → lookup j (seed_entries ids m) ≡ idle_if (mem j ids) j (lookup j m)
unfolding seed_entries
lookup-seed_entries [] j m = idle_if-false j (lookup j m)
lookup-seed_entries (id ∷ ids) j m =
    lookup-seed_entries ids j (seed_entry m id)
    ∙ ap (idle_if (mem j ids) j) (lookup-seed_entry id j m)
    ∙ idle_if-twice (str_eq id j) (mem j ids) j (lookup j m)

-- `Seed` gives an idle entry to each named project that had none, and changes no other.
pub get-seed :
    (s : RuntimeStore) (ids : List String) (j : String)
    → get (seed s ids) j ≡ idle_if (mem j ids) j (get s j)
unfolding get seed notify
get-seed s ids j = lookup-seed_entries ids j s.m

lookup-delete_entries :
    (ids : List String) (j : String) (m : Assoc ProjectRuntime)
    → lookup j (delete_entries ids m) ≡ (if mem j ids then none else lookup j m)
unfolding delete_entries
lookup-delete_entries [] j m = refl
lookup-delete_entries (id ∷ ids) j m =
    lookup-delete_entries ids j (delete_key id m) ∙ rw (lookup-delete_key id j m) (ground arith)

-- After `Delete` the named projects are gone, and the others are as they were.
pub get-delete :
    (s : RuntimeStore) (ids : List String) (j : String)
    → get (delete s ids) j ≡ (if mem j ids then none else get s j)
unfolding get delete notify
get-delete s [] j = refl
get-delete s (id ∷ ids) j = lookup-delete_entries (id ∷ ids) j s.m

abbrev pub IsToken : Bool → Type 0
IsToken b = b ≡ true

All-tokens : (subs : List Bool) → All IsToken (map (λ _. true) subs)
All-tokens [] = tt
All-tokens (b ∷ subs) = (refl, All-tokens subs)

-- `Apply`, `Seed`, `Set` and `Delete` of a list that is not empty leave a token with every
-- subscriber, however full its channel was.
pub notified :
    (s : RuntimeStore) (ev : Event) (now : ℕ) (id st : String) (pid : ℤ) (ids : List String)
    → All IsToken (apply s ev now).subs
      × All IsToken (seed s ids).subs
      × All IsToken (set s id st pid).subs
      × All IsToken (delete s (id ∷ ids)).subs
unfolding apply seed set delete notify
notified s ev now id st pid ids =
    (All-tokens s.subs, All-tokens s.subs, All-tokens s.subs, All-tokens s.subs)
