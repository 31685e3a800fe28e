-- ===== src/State/Runtime/Sorted.antt =====
-- internal/state/runtime.go: `Snapshot` lists every runtime once, sorted by project id.
use mathlib.Core.List.{Perm}
use mathlib.Core.List.Perm
use randomshitgo_go.Prelude.{
  List, [], ◌∷◌, true, false, ◌≡◌, inl, inr, refl, arith, map, String, Bool-cases,
}
use randomshitgo_go.State.Runtime.{
  ProjectRuntime, RuntimeStore, lt_codes, insert_sorted, sort_runtimes, snapshot,
}

pub lt_codes-asymm : (s t : String) → lt_codes s t ≡ true → lt_codes t s ≡ false
unfolding lt_codes
lt_codes-asymm String.[] String.[] h = refl
lt_codes-asymm String.[] (String.◌∷◌ d t) h = refl
lt_codes-asymm (String.◌∷◌ c s) String.[] h = cc
lt_codes-asymm (String.◌∷◌ c s) (String.◌∷◌ d t) h = ground (arith, lt_codes-asymm s t)

-- No id is smaller than the one before it.
abbrev pub IsSorted : List ProjectRuntime → Type 0
IsSorted [] = Unit {0}
IsSorted (r ∷ []) = Unit {0}
IsSorted (r ∷ q ∷ rs) = (lt_codes q.id r.id ≡ false) × IsSorted (q ∷ rs)

insert_below :
    (r q : ProjectRuntime) (rs : List ProjectRuntime)
    → lt_codes r.id q.id ≡ false
    → IsSorted (q ∷ rs)
    → IsSorted (insert_sorted r rs)
    → IsSorted (q ∷ insert_sorted r rs)
unfolding insert_sorted
insert_below r q [] h s t = (h, t)
insert_below r q (p ∷ rs) h s t = elim (Bool-cases (lt_codes r.id p.id)) [
  | inl e ↦ rw e (h, (lt_codes-asymm r.id p.id e, s.1))
  | inr e ↦ rw e (s.0, rw e at t)
]

insert_sorted-IsSorted :
    (r : ProjectRuntime) (rs : List ProjectRuntime) → IsSorted rs → IsSorted (insert_sorted r rs)
unfolding insert_sorted
insert_sorted-IsSorted r [] s = tt
insert_sorted-IsSorted r (q ∷ rs) s = elim (Bool-cases (lt_codes r.id q.id)) [
  | inl e ↦ rw e (lt_codes-asymm r.id q.id e, s)
  | inr e ↦ rw e (insert_below r q rs e s (insert_sorted-IsSorted r rs (tail_IsSorted q rs s)))
]
  where
    tail_IsSorted :
        (q : ProjectRuntime) (rs : List ProjectRuntime) → IsSorted (q ∷ rs) → IsSorted rs
    tail_IsSorted q [] s = tt
    tail_IsSorted q (p ∷ rs) s = s.1

insert_sorted-perm :
    (r : ProjectRuntime) (rs : List ProjectRuntime) → Perm (insert_sorted r rs) (r ∷ rs)
unfolding insert_sorted
insert_sorted-perm r [] = Perm.refl (r ∷ [])
insert_sorted-perm r (q ∷ rs) = elim (Bool-cases (lt_codes r.id q.id)) [
  | inl e ↦ rw e (Perm.refl (r ∷ q ∷ rs))
  | inr e ↦ rw e (Perm.trans (Perm.cons q (insert_sorted-perm r rs)) (Perm.swap r q rs))
]

sort_runtimes-IsSorted : (rs : List ProjectRuntime) → IsSorted (sort_runtimes rs)
unfolding sort_runtimes
sort_runtimes-IsSorted [] = tt
sort_runtimes-IsSorted (r ∷ rs) =
    insert_sorted-IsSorted r (sort_runtimes rs) (sort_runtimes-IsSorted rs)

sort_runtimes-perm : (rs : List ProjectRuntime) → Perm (sort_runtimes rs) rs
unfolding sort_runtimes
sort_runtimes-perm [] = Perm.refl []
sort_runtimes-perm (r ∷ rs) =
    Perm.trans (insert_sorted-perm r (sort_runtimes rs)) (Perm.cons r (sort_runtimes-perm rs))

-- `Snapshot` holds the store's runtimes, each as often as the store does, in the order of their ids.
pub snapshot-IsSorted-perm :
    (s : RuntimeStore) → IsSorted (snapshot s) × Perm (snapshot s) (map (λ e. e.1) s.m)
unfolding snapshot
snapshot-IsSorted-perm s =
    (sort_runtimes-IsSorted (map (λ e. e.1) s.m), sort_runtimes-perm (map (λ e. e.1) s.m))
