-- ===== src/Overlays/GroupPicker/Names.antt =====
-- internal/tui/overlays/grouppicker.go: the order of the groups, and the cursor.
use mathlib.Core.List.{Perm, reverse, reverse_aux, reverse_perm, perm_middle}
use mathlib.Core.List.Perm
use randomshitgo_go.Prelude.{
  ◌<◌, List, [], ◌∷◌, ◌++◌, Option, false, ◌||◌, ◌≡◌, sym, subst, append-nil, inl, inr, arith,
  if_either, Bool-cases, length, ltb, String, str_eq,
}
use randomshitgo_go.State.Runtime.{lt_codes}
use randomshitgo_go.State.Runtime.Sorted.{lt_codes-asymm}
use randomshitgo_go.Overlays.GroupPicker.{
  GroupPicker, place, sort_from, sort_strings, new_group_picker, update,
}

-- From the last entry back: no entry is larger than the one after it.
abbrev IsDescending : List String → Type 0
IsDescending [] = Unit {0}
IsDescending (s ∷ []) = Unit {0}
IsDescending (s ∷ t ∷ rest) = (lt_codes s t ≡ false) × IsDescending (t ∷ rest)

place_below :
    (key s : String) (rest : List String)
    → lt_codes s key ≡ false
    → IsDescending (s ∷ rest)
    → IsDescending (place key rest)
    → IsDescending (s ∷ place key rest)
unfolding place
place_below key s [] h d p = (h, p)
place_below key s (t ∷ rest) h d p = elim (Bool-cases (lt_codes key t)) [
  | inl e ↦ rw e (d.0, rw e at p)
  | inr e ↦ rw e (h, (e, d.1))
]

place-IsDescending :
    (key : String) (sorted : List String) → IsDescending sorted → IsDescending (place key sorted)
unfolding place
place-IsDescending key [] d = tt
place-IsDescending key (s ∷ rest) d = elim (Bool-cases (lt_codes key s)) [
  | inl e ↦ rw e (
      place_below key s rest (lt_codes-asymm key s e) d
        (place-IsDescending key rest (tail_IsDescending s rest d)))
  | inr e ↦ rw e (e, d)
]
  where
    tail_IsDescending :
        (s : String) (rest : List String) → IsDescending (s ∷ rest) → IsDescending rest
    tail_IsDescending s [] d = tt
    tail_IsDescending s (t ∷ rest) d = d.1

place-perm : (key : String) (sorted : List String) → Perm (place key sorted) (key ∷ sorted)
unfolding place
place-perm key [] = Perm.refl (key ∷ [])
place-perm key (s ∷ rest) = elim (Bool-cases (lt_codes key s)) [
  | inl e ↦ rw e (Perm.trans (Perm.cons s (place-perm key rest)) (Perm.swap key s rest))
  | inr e ↦ rw e (Perm.refl (key ∷ s ∷ rest))
]

sort_from-IsDescending :
    (sorted rest : List String) → IsDescending sorted → IsDescending (sort_from sorted rest)
unfolding sort_from
sort_from-IsDescending sorted [] d = d
sort_from-IsDescending sorted (key ∷ rest) d =
    sort_from-IsDescending (place key sorted) rest (place-IsDescending key sorted d)

sort_from-perm : (sorted rest : List String) → Perm (sort_from sorted rest) (sorted ++ rest)
unfolding sort_from
sort_from-perm sorted [] = subst (λ l. Perm sorted l) (sym (append-nil sorted)) (Perm.refl sorted)
sort_from-perm sorted (key ∷ rest) = Perm.trans (sort_from-perm (place key sorted) rest) (
    Perm.trans (Perm.append_right rest (place-perm key sorted))
      (Perm.symm (perm_middle sorted rest)))

-- No name is smaller than the one before it.
abbrev pub IsAscending : List String → Type 0
IsAscending [] = Unit {0}
IsAscending (s ∷ []) = Unit {0}
IsAscending (s ∷ t ∷ rest) = (lt_codes t s ≡ false) × IsAscending (t ∷ rest)

reverse_aux-IsAscending :
    (s : String) (l acc : List String)
    → IsDescending (s ∷ l)
    → IsAscending (s ∷ acc)
    → IsAscending (reverse_aux l (s ∷ acc))
reverse_aux-IsAscending s [] acc d a = a
reverse_aux-IsAscending s (t ∷ l) acc d a = reverse_aux-IsAscending t l (s ∷ acc) d.1 (d.0, a)

reverse-IsAscending : (l : List String) → IsDescending l → IsAscending (reverse l)
reverse-IsAscending [] d = tt
reverse-IsAscending (s ∷ l) d = reverse_aux-IsAscending s l [] d tt

-- The picker lists every group once for each time that it is named, in ascending order, whatever order they come in.
pub new_group_picker-groups :
    (names : List String)
    → IsAscending (new_group_picker names).groups × Perm (new_group_picker names).groups names
unfolding new_group_picker sort_strings
new_group_picker-groups names = (
  reverse-IsAscending (sort_from [] names) (sort_from-IsDescending [] names tt),
  Perm.trans (reverse_perm (sort_from [] names)) (sort_from-perm [] names),
)

-- The cursor stays on a group.
update-cursor :
    (gp : GroupPicker) (key : String)
    → gp.cursor < length gp.groups
    → (update gp key).0.cursor < length (update gp key).0.groups
unfolding update
update-cursor gp key h =
    let Q : GroupPicker × Option String → Type 0 = λ r. r.0.cursor < length r.0.groups in
    if_either Q (str_eq key "k" || str_eq key "up") (omega (arith, h)) (
      if_either Q (str_eq key "j" || str_eq key "down") (ground (arith, h)) (
        if_either Q (str_eq key "enter") (if_either Q (ltb 0 (length gp.groups)) h h)
          (if_either Q (str_eq key "esc" || str_eq key "q") h h)))
