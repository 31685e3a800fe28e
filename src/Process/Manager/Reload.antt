-- ===== src/Process/Manager/Reload.antt =====
-- internal/process/manager.go: what `Reload` reports and what it leaves.
use randomshitgo_go.Prelude.{
  List, [], ◌∷◌, Option, none, some, Bool, true, false, not, ◌&&◌, ◌||◌, ◌≡◌, refl, ap, sym, ◌∙◌,
  inl, inr, String, str_eq, eq_iff, arith, Bool-cases, Option-cases, if◌then◌else◌,
}
use randomshitgo_go.Prelude.Assoc.{Assoc, lookup, delete_key, lookup-delete_key}
use randomshitgo_go.Config.{Project, Config}
use randomshitgo_go.State.Runtime.Lookup.{mem}
use randomshitgo_go.Process.Manager.Calls.{stopped}
use randomshitgo_go.Process.Child.{stop}
use randomshitgo_go.Process.Manager.{
  Entry, Manager, has, missing_in, differs, changed_in, stop_removed, reload, project_changed,
  get_or_create,
}

mem-if :
    (j id : String) (b : Bool) (ids : List String)
    → mem j (if b then id ∷ ids else ids) ≡ ((b && str_eq id j) || mem j ids)
mem-if j id true ids = refl
mem-if j id false ids = refl

mem-unless :
    (j id : String) (b : Bool) (ids : List String)
    → mem j (if b then ids else id ∷ ids) ≡ ((not b && str_eq id j) || mem j ids)
mem-unless j id true ids = refl
mem-unless j id false ids = refl

absorb : (a b : Bool) → ((not b && true) || (a && not b)) ≡ not b
absorb a b = ground arith

skip : (b x : Bool) → ((b && false) || x) ≡ x
skip b x = ground arith

merge : (a b : Bool) → ((b && true) || (a && false)) ≡ b
merge a b = ground arith

abbrev some? : Option Project → Bool
some? none = false
some? (some v) = true

some?-if :
    (b : Bool) (v : Project) (o : Option Project) → some? (if b then some v else o) ≡ (b || some? o)
some?-if true v o = refl
some?-if false v o = refl

has-cons :
    (j : String) (p : String × Project) (a : Assoc Project)
    → has j (p ∷ a) ≡ (str_eq p.0 j || has j a)
unfolding lookup
has-cons j p a = some?-if (str_eq p.0 j) p.1 (lookup j a)

mem-missing_in :
    (j : String) (a b : Assoc Project) → mem j (missing_in a b) ≡ (has j a && not (has j b))
unfolding missing_in
mem-missing_in j [] b = unfold lookup in refl
mem-missing_in j (p ∷ a) b =
    let rest = mem-missing_in j a b in
    mem-unless j p.0 (has p.0 b) (missing_in a b) ∙ elim (Bool-cases (str_eq p.0 j)) [
      | inl same ↦
          let key : has p.0 b ≡ has j b = ap (λ k. has k b) ((eq_iff p.0 j).0 same) in
          rw (rest, key, has-cons j p a, same) (absorb (has j a) (has j b))
      | inr other ↦ rw (rest, has-cons j p a, other) (skip (not (has p.0 b)) _)
    ]

-- A map has one binding for a key.
abbrev pub IsMap : Assoc Project → Type 0
IsMap [] = Unit
IsMap (p ∷ m) = (has p.0 m ≡ false) × IsMap m

abbrev pub changed_at : Option Project → Option Project → Bool
changed_at none new = false
changed_at (some p) none = false
changed_at (some p) (some q) = project_changed p q

absent : (o : Option Project) → some? o ≡ false → o ≡ none
absent none h = refl
absent (some v) h = cc

clear : (b : Bool) → ((b && true) || false) ≡ b
clear b = ground arith

differs_at :
    (p : Project) (o : Option Project)
    → (((elim o [ none ↦ false | some q ↦ project_changed p q ]) && true) || false)
      ≡ changed_at (some p) o
differs_at p none = refl
differs_at p (some q) = clear (project_changed p q)

mem-changed_in :
    (j : String) (old new : Assoc Project)
    → IsMap old
    → mem j (changed_in old new) ≡ changed_at (lookup j old) (lookup j new)
unfolding changed_in lookup
mem-changed_in j [] new h = refl
mem-changed_in j (p ∷ old) new h =
    mem-if j p.0 (differs p new) (changed_in old new) ∙ elim (Bool-cases (str_eq p.0 j)) [
      | inl same ↦
          let key : p.0 ≡ j = (eq_iff p.0 j).0 same in
          let none_left : has j old ≡ false = ap (λ k. has k old) (sym key) ∙ h.0 in
          rw (same, mem-changed_in j old new h.1, absent (lookup j old) none_left, key)
            (differs_at p.1 (lookup j new))
      | inr other ↦ rw (other, mem-changed_in j old new h.1) (skip (differs p new) _)
    ]

twice :
    {A : Type 0} (a b : Bool) (x y : A)
    → (if a then x else (if b then x else y)) ≡ (if b || a then x else y)
twice true true x y = refl
twice true false x y = refl
twice false true x y = refl
twice false false x y = refl

lookup-stop_removed :
    (j : String) (children : Assoc Entry) (ids : List String)
    → lookup j (stop_removed children ids).1 ≡ (if mem j ids then none else lookup j children)
unfolding stop_removed
lookup-stop_removed j children [] = refl
lookup-stop_removed j children (id ∷ ids) =
    let later = lookup-stop_removed j (delete_key id children) ids in
    let first = lookup-delete_key id j children in
    let all = later ∙ rw first (twice (mem j ids) (str_eq id j) none (lookup j children)) in
    elim (Option-cases (lookup id children)) [
      | inl e ↦ rw (stop_removed, e) all
      | inr (c, e) ↦ rw (stop_removed, e) all
    ]

has-delete_key :
    (id j : String) (children : Assoc Entry)
    → has j (delete_key id children) ≡ (not (str_eq id j) && has j children)
has-delete_key id j children =
    ap (λ o. elim o [ none ↦ false | some v ↦ true ]) (lookup-delete_key id j children)
    ∙ elim (Bool-cases (str_eq id j)) [ inl e ↦ rw e refl | inr e ↦ rw e refl ]

mem-first :
    (j id : String) (children : Assoc Entry) (ids : List String)
    → mem j (stop_removed children (id ∷ ids)).0
      ≡ ((has id children && str_eq id j) || mem j (stop_removed (delete_key id children) ids).0)
unfolding stop_removed
mem-first j id children ids = elim (Option-cases (lookup id children)) [
  | inl e ↦ rw (stop_removed, has, e) refl
  | inr (c, e) ↦ rw (stop_removed, has, e) refl
]

mem-stop_removed :
    (j : String) (children : Assoc Entry) (ids : List String)
    → mem j (stop_removed children ids).0 ≡ (mem j ids && has j children)
unfolding stop_removed
mem-stop_removed j children [] = refl
mem-stop_removed j children (id ∷ ids) =
    mem-first j id children ids
    ∙ ap (λ b. (has id children && str_eq id j) || b)
        (mem-stop_removed j (delete_key id children) ids
          ∙ ap (λ b. mem j ids && b) (has-delete_key id j children))
    ∙ elim (Bool-cases (str_eq id j)) [
      | inl same ↦
          let key : has id children ≡ has j children =
            ap (λ k. has k children) ((eq_iff id j).0 same) in
          rw (key, same) (merge (mem j ids) (has j children))
      | inr other ↦ rw other (skip (has id children) (mem j ids && has j children))
    ]

forgotten_once :
    (own named : Bool) (o : Option Entry)
    → (if named then stopped (if own then none else o) else none)
      ≡ (if own then none else (if named then stopped o else none))
unfolding stopped
forgotten_once true true o = refl
forgotten_once true false o = refl
forgotten_once false named o = refl

-- The first of the ids without a child and with one, given the result for the others.
unnamed :
    (own named : Bool) (o : Option Entry)
    → (own ≡ true → o ≡ none)
    → (if own then none else (if named then stopped o else none))
      ≡ (if own || named then stopped o else none)
unfolding stopped
unnamed true named o h = rw (h refl) refl
unnamed false named o h = refl

first-halted :
    (own named : Bool) (o rest : Option Entry) (e : Entry)
    → rest ≡ (if own then none else (if named then stopped o else none))
    → (own ≡ true → o ≡ some e)
    → (if own then some (record e { child = stop e.child }) else rest)
      ≡ (if own || named then stopped o else none)
unfolding stopped
first-halted true named o rest e r h = rw (h refl) refl
first-halted false named o rest e r h = r

-- The children that were stopped and forgotten: each removed one, stopped.
lookup-halted :
    (j : String) (children : Assoc Entry) (ids : List String)
    → lookup j (stop_removed children ids).2
      ≡ (if mem j ids then stopped (lookup j children) else none)
unfolding stop_removed lookup
lookup-halted j children [] = refl
lookup-halted j children (id ∷ ids) =
    let own : Bool = str_eq id j in
    let rest =
      lookup-halted j (delete_key id children) ids
      ∙ ap (λ o. if mem j ids then stopped o else none) (lookup-delete_key id j children)
      ∙ forgotten_once own (mem j ids) (lookup j children) in
    let at_id : own ≡ true → lookup j children ≡ lookup id children =
      λ h. ap (λ k. lookup k children) (sym ((eq_iff id j).0 h)) in
    elim (Option-cases (lookup id children)) [
      | inl e ↦
          rw (stop_removed, e)
            (rest ∙ unnamed own (mem j ids) (lookup j children) (λ h. at_id h ∙ e))
      | inr (c, e) ↦
          rw (stop_removed, e)
            (first-halted own (mem j ids) (lookup j children) _ c rest (λ h. at_id h ∙ e))
    ]

-- For each id, `Reload` to a new configuration reports it added when only the new one has the project,
-- removed when only the old one has it, changed when both have it and the definitions differ, and
-- stopped when it is removed and has a child, whether that runs or not; that child is stopped, and the manager
-- forgets it; the children that stay are those not removed, each as it was, and the configuration is the new one.
-- The old configuration has each id once.
pub reload-parts :
    (m : Manager) (new : Config) (j : String)
    → IsMap m.cfg.projects
    → let r = (reload m new).0 in
      let gone : Bool = has j m.cfg.projects && not (has j new.projects) in
      (mem j r.added ≡ (has j new.projects && not (has j m.cfg.projects)))
      × (mem j r.removed ≡ gone)
      × (mem j r.changed ≡ changed_at (lookup j m.cfg.projects) (lookup j new.projects))
      × (mem j r.stopped ≡ (gone && has j m.children))
      × (lookup j (reload m new).2 ≡ (if gone then stopped (lookup j m.children) else none))
      × (lookup j (reload m new).1.children ≡ (if gone then none else lookup j m.children))
      × ((reload m new).1.cfg ≡ new)
unfolding reload
reload-parts m new j h =
    let removed : List String = missing_in m.cfg.projects new.projects in
    let is_removed = mem-missing_in j m.cfg.projects new.projects in
    (
      mem-missing_in j new.projects m.cfg.projects,
      is_removed,
      mem-changed_in j m.cfg.projects new.projects h,
      mem-stop_removed j m.children removed ∙ ap (λ b. b && has j m.children) is_removed,
      lookup-halted j m.children removed
          ∙ ap (λ b. if b then stopped (lookup j m.children) else none) is_removed,
      lookup-stop_removed j m.children removed
          ∙ ap (λ b. if b then none else lookup j m.children) is_removed,
      refl,
    )

if_known : {A : Type 0} (a b : Bool) (x y : A) → b ≡ true → (if a && not b then x else y) ≡ y
if_known a true x y h = ground arith
if_known a false x y h = cc

kept :
    (m : Manager) (new : Config) (id : String) (p : Project)
    → lookup id new.projects ≡ some p
    → lookup id (reload m new).1.children ≡ lookup id m.children
unfolding reload
kept m new id p in_new =
    lookup-stop_removed id m.children (missing_in m.cfg.projects new.projects)
    ∙ ap (λ b. if b then none else lookup id m.children)
        (mem-missing_in id m.cfg.projects new.projects)
    ∙ if_known (has id m.cfg.projects) (has id new.projects) none (lookup id m.children)
        (rw (has, in_new) refl)

-- A project that has a child and is in the new configuration keeps that child through `Reload`, with the
-- definition it was made from: the next `Start` or `Restart` of it finds this entry, whatever the new
-- configuration says of the project.
pub reload-keeps-entry :
    (m : Manager) (new : Config) (id : String) (e : Entry) (p : Project)
    → lookup id m.children ≡ some e
    → lookup id new.projects ≡ some p
    → (get_or_create (reload m new).1 id).0 ≡ some e
unfolding get_or_create
reload-keeps-entry m new id e p have in_new = rw (get_or_create, kept m new id p in_new ∙ have) refl
