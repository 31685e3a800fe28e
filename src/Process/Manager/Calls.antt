-- ===== src/Process/Manager/Calls.antt =====
-- internal/process/manager.go: `StopAll`.
use randomshitgo_go.Prelude.{
  List, [], ◌∷◌, Option, none, some, Bool, true, false, ◌≡◌, refl, ap, sym, ◌∙◌, inl, inr, String,
  str_eq, eq_iff, arith, Bool-cases, if◌then◌else◌, map,
}
use randomshitgo_go.Prelude.Assoc.{Assoc, lookup, lookup-insert}
use randomshitgo_go.State.Runtime.Lookup.{mem}
use randomshitgo_go.Process.Child.{stop}
use randomshitgo_go.Process.Manager.{Entry, Manager, stop_project, stop_each, stop_all, put}

-- A list without repetition.
unfoldable pub AreDistinct : List String → Type 0
AreDistinct [] = Unit
AreDistinct (id ∷ ids) = (mem id ids ≡ false) × AreDistinct ids

unfoldable pub stopped : Option Entry → Option Entry
stopped none = none
stopped (some e) = some (record e { child = stop e.child })

absent-stopped :
    (b : Bool) (o : Option Entry) → (b ≡ true → o ≡ none) → o ≡ (if b then stopped o else o)
unfolding stopped
absent-stopped true o h = rw (h refl) refl
absent-stopped false o h = refl

put_stopped :
    (m : Manager) (id j : String) (e : Entry)
    → lookup id m.children ≡ some e
    → lookup j (put m id (record e { child = stop e.child })).children
      ≡ (if str_eq id j then stopped (lookup j m.children) else lookup j m.children)
unfolding put stopped
put_stopped m id j e h =
    lookup-insert id j (record e { child = stop e.child }) m.children
    ∙ elim (Bool-cases (str_eq id j)) [
      | inl same ↦
          rw same
            (sym (ap stopped (ap (λ k. lookup k m.children) (sym ((eq_iff id j).0 same)) ∙ h)))
      | inr other ↦ rw other refl
    ]

lookup-stop_project :
    (m : Manager) (id j : String) (o : Option Entry)
    → lookup id m.children ≡ o
    → lookup j (stop_project m id).1.children
      ≡ (if str_eq id j then stopped (lookup j m.children) else lookup j m.children)
unfolding stop_project
lookup-stop_project m id j none h =
    rw (stop_project, h)
      (absent-stopped (str_eq id j) (lookup j m.children)
        (λ same. ap (λ k. lookup k m.children) (sym ((eq_iff id j).0 same)) ∙ h))
lookup-stop_project m id j (some e) h = rw (stop_project, h) (put_stopped m id j e h)

-- Goroutines that stop the children of a list of distinct ids, in whatever order the list has, each stop the
-- child of their own id, and leave every other child and every absent one.
lookup-stop_each :
    (ids : List String) (m : Manager) (j : String)
    → AreDistinct ids
    → lookup j (stop_each m ids).children
      ≡ (if mem j ids then stopped (lookup j m.children) else lookup j m.children)
unfolding stop_each AreDistinct
lookup-stop_each [] m j h = refl
lookup-stop_each (id ∷ ids) m j (once, rest) =
    lookup-stop_each ids (stop_project m id).1 j rest
    ∙ rw (lookup-stop_project m id j (lookup id m.children) refl) (elim (Bool-cases (str_eq id j)) [
      | inl same ↦
          let others : mem j ids ≡ false =
            ap (λ k. mem k ids) (sym ((eq_iff id j).0 same)) ∙ once in
          rw (same, others) refl
      | inr other ↦ rw other refl
    ])

abbrev pub keys : Assoc Entry → List String
keys children = map (λ b. b.0) children

unbound :
    (j : String) (children : Assoc Entry) → mem j (keys children) ≡ false → lookup j children ≡ none
unfolding lookup
unbound j [] h = refl
unbound j (b ∷ children) h = elim (Bool-cases (str_eq b.0 j)) [
  | inl same ↦ absurd (ground (arith, h, same))
  | inr other ↦ rw other (unbound j children (ground (arith, h, other)))
]

named_or_absent :
    (b : Bool) (o : Option Entry)
    → (b ≡ false → o ≡ none)
    → (if b then stopped o else o) ≡ stopped o
unfolding stopped
named_or_absent true o h = refl
named_or_absent false o h = rw (h refl) refl

-- `StopAll` stops every child, each by the one `Stop` that is its own, in whatever order the goroutines
-- stop the ids: the ids are distinct, and a list of them in another order gives each child the same end. A
-- child that is not there stays absent.
pub stop_each-stop_all :
    (m : Manager) (ids : List String) (j : String)
    → AreDistinct ids
    → AreDistinct (keys m.children)
    → ((k : String) → mem k ids ≡ mem k (keys m.children))
    → (lookup j (stop_all m).children ≡ stopped (lookup j m.children))
      × (lookup j (stop_each m ids).children ≡ lookup j (stop_all m).children)
unfolding stop_all
stop_each-stop_all m ids j distinct distinct_keys same =
    let o = lookup j m.children in
    let all_stopped : lookup j (stop_each m (keys m.children)).children ≡ stopped o =
      lookup-stop_each (keys m.children) m j distinct_keys
      ∙ named_or_absent (mem j (keys m.children)) o (unbound j m.children) in
    (
      all_stopped,
      lookup-stop_each ids m j distinct
          ∙ ap (λ b. if b then stopped o else o) (same j)
          ∙ named_or_absent (mem j (keys m.children)) o (unbound j m.children)
          ∙ sym all_stopped,
    )
