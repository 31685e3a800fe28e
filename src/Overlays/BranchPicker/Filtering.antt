-- ===== src/Overlays/BranchPicker/Filtering.antt =====
-- internal/tui/overlays/branchpicker.go: the branches that are shown, and the one that is checked out.
use randomshitgo_go.Prelude.{
  ℕ, suc, zero, ◌+◌, ◌-◌, ◌<◌, List, [], ◌∷◌, ◌++◌, Option, none, some, true, false, not, ◌≡◌, refl,
  ap, sym, ◌∙◌, inl, inr, arith, if◌then◌else◌, if_either, if_given, Bool-cases, ltb→lt, take,
  length, ltb, ◌==◌, get_or, map,
}
use randomshitgo_go.Panes.Text.{codes}
use randomshitgo_go.Overlays.BranchPicker.{
  BranchPicker, Key, key_up, key_down, key_enter, key_esc, key_backspace, key_space, key_runes,
  key_other, contains, indices, matching, rebuild_filter, edit_filter, update, show, same_text,
  name,
}

-- The index stands for a branch that holds the needle.
abbrev Finds : (ℕ → ℕ) → List ℕ → ℕ → List (List ℕ) → ℕ → Type 0
Finds lower needle i bs n =
    (k : ℕ) × (n ≡ i + k) × (k < length bs) × (contains (map lower (get_or bs k [])) needle ≡ true)

contains-nil : (s : List ℕ) → contains s [] ≡ true
contains-nil [] = refl
contains-nil (c ∷ s) = refl

is_nil : (s : List ℕ) → (length s == 0) ≡ true → s ≡ []
is_nil [] h = refl
is_nil (c ∷ s) h = absurd (ground arith)

module _ (lower : ℕ → ℕ) where
  later-Finds :
      (needle : List ℕ) (i : ℕ) (b : List ℕ) (bs : List (List ℕ)) (n : ℕ)
      → Finds lower needle (i + 1) bs n
      → Finds lower needle i (b ∷ bs) n
  later-Finds needle i b bs n (k, e, h, c) = (suc k, omega (arith, e), omega (arith, h), c)

  indices-Finds :
      (i : ℕ) (bs : List (List ℕ)) (j : ℕ)
      → j < length (indices i bs)
      → Finds lower [] i bs (get_or (indices i bs) j 0)
  indices-Finds i [] j h = absurd (omega arith)
  indices-Finds i (b ∷ bs) zero h = (0, omega arith, omega arith, contains-nil (map lower b))
  indices-Finds i (b ∷ bs) (suc j) h =
      later-Finds [] i b bs (get_or (indices (i + 1) bs) j 0)
        (indices-Finds (i + 1) bs j (omega arith))

  matching-Finds :
      (needle : List ℕ) (i : ℕ) (bs : List (List ℕ)) (j : ℕ)
      → j < length (matching lower needle i bs)
      → Finds lower needle i bs (get_or (matching lower needle i bs) j 0)
  unfolding matching
  matching-Finds needle i [] j h = absurd (omega arith)
  matching-Finds needle i (b ∷ bs) zero h = elim (Bool-cases (contains (map lower b) needle)) [
    | inl e ↦ rw (matching, e) (0, omega arith, omega arith, e)
    | inr e ↦
        rw (matching, e)
          (later-Finds needle i b bs (get_or (matching lower needle (i + 1) bs) 0 0)
            (matching-Finds needle (i + 1) bs 0 (rw (matching, e) at h)))
  ]
  matching-Finds needle i (b ∷ bs) (suc j) h = elim (Bool-cases (contains (map lower b) needle)) [
    | inl e ↦
        rw (matching, e)
          (later-Finds needle i b bs (get_or (matching lower needle (i + 1) bs) j 0)
            (matching-Finds needle (i + 1) bs j (omega (arith, rw (matching, e) at h))))
    | inr e ↦
        rw (matching, e)
          (later-Finds needle i b bs (get_or (matching lower needle (i + 1) bs) (suc j) 0)
            (matching-Finds needle (i + 1) bs (suc j) (rw (matching, e) at h)))
  ]

  -- Every index that is shown finds the filter, and the cursor is on one, if there are any.
  pub record IsNarrowed (bp : BranchPicker) : Type 0 where
    pub finds :
        (j : ℕ)
        → j < length bp.filtered
        → Finds lower (map lower bp.filter) 0 bp.branches (get_or bp.filtered j 0)
    pub on_one : 0 < length bp.filtered → bp.cursor < length bp.filtered

  rebuild_filter-IsNarrowed : (bp : BranchPicker) → IsNarrowed (rebuild_filter lower bp)
  unfolding rebuild_filter
  rebuild_filter-IsNarrowed bp = record {
    finds =
        if_given
          (λ (found : List ℕ).
            (j : ℕ)
            → j < length found
            → Finds lower (map lower bp.filter) 0 bp.branches (get_or found j 0))
          (length bp.filter == 0)
          (λ e j h. rw (is_nil bp.filter e) (indices-Finds 0 bp.branches j h))
          (matching-Finds (map lower bp.filter) 0 bp.branches);
    on_one = λ h. ground arith;
  }

  edit_filter-IsNarrowed :
      (bp : BranchPicker) (key : Key) → IsNarrowed bp → IsNarrowed (edit_filter lower bp key)
  unfolding edit_filter
  edit_filter-IsNarrowed bp key_backspace g = if_either IsNarrowed (length bp.filter == 0) g (
      rebuild_filter-IsNarrowed
        (record bp { filter = take (length bp.filter - 1) bp.filter; cursor = 0 }))
  edit_filter-IsNarrowed bp (key_runes rs) g =
      if_either IsNarrowed (length rs == 0) g
        (rebuild_filter-IsNarrowed (record bp { filter = bp.filter ++ rs; cursor = 0 }))
  edit_filter-IsNarrowed bp key_space g =
      rebuild_filter-IsNarrowed (record bp { filter = bp.filter ++ codes " "; cursor = 0 })
  edit_filter-IsNarrowed bp key_up g = g
  edit_filter-IsNarrowed bp key_down g = g
  edit_filter-IsNarrowed bp key_enter g = g
  edit_filter-IsNarrowed bp key_esc g = g
  edit_filter-IsNarrowed bp (key_other s) g = g

  update-IsNarrowed :
      (bp : BranchPicker) (key : Key) → IsNarrowed bp → IsNarrowed (update lower bp key).0
  unfolding update
  update-IsNarrowed bp key g =
      let Q : BranchPicker × Option (List ℕ) → Type 0 = λ r. IsNarrowed r.0 in
      let hidden : IsNarrowed (record bp { visible = false }) = record {
        finds = g.finds;
        on_one = g.on_one;
      } in
      if_either Q (same_text (name key) (codes "up"))
        (record { finds = g.finds; on_one = λ h. omega (arith, g.on_one h) })
        (if_either Q (same_text (name key) (codes "down"))
          (if_given IsNarrowed (ltb (bp.cursor + 1) (length bp.filtered))
            (λ e. record {
              finds = g.finds;
              on_one = λ h. ltb→lt (bp.cursor + 1) (length bp.filtered) e;
            })
            g)
          (if_either Q (same_text (name key) (codes "enter"))
            (if_either Q (length bp.filtered == 0) g hidden)
            (if_either Q (same_text (name key) (codes "esc"))
              (if_either Q (not (length bp.filter == 0))
                (rebuild_filter-IsNarrowed (record bp { filter = []; cursor = 0 })) hidden)
              (edit_filter-IsNarrowed bp key g))))

  -- The branch that a key checks out is one that is shown.
  Chosen : BranchPicker → BranchPicker × Option (List ℕ) → Type 0
  Chosen bp r =
      (b : List ℕ)
      → r.1 ≡ some b
      → (k : ℕ) × (k < length bp.branches)
        × (b ≡ get_or bp.branches k [])
        × (contains (map lower b) (map lower bp.filter) ≡ true)

  update-Chosen : (bp : BranchPicker) (key : Key) → IsNarrowed bp → Chosen bp (update lower bp key)
  unfolding update Chosen
  update-Chosen bp key g =
      let C : BranchPicker × Option (List ℕ) → Type 0 = Chosen bp in
      let no : (r : BranchPicker) → C (r, none) = λ r b e. absurd (cc e) in
      if_either C (same_text (name key) (codes "up")) (no (record bp { cursor = bp.cursor - 1 })) (
        if_either C (same_text (name key) (codes "down"))
          (no (
            if ltb (bp.cursor + 1) (length bp.filtered)
            then record bp { cursor = bp.cursor + 1 }
            else bp))
          (if_either C (same_text (name key) (codes "enter"))
            (elim (Bool-cases (length bp.filtered == 0)) [
              | inl e ↦ rw e (no bp)
              | inr e ↦ rw e λ b k.
                  let chosen : get_or bp.branches (get_or bp.filtered bp.cursor 0) [] ≡ b = cc k in
                  let (i, at, low, holds) = g.finds bp.cursor (g.on_one (ground (arith, e))) in
                  let here : get_or bp.branches i [] ≡ b =
                    ap (λ (n : ℕ). get_or bp.branches n []) (omega (arith, at)) ∙ chosen in
                  (i, low, sym here, rw (← here) holds)
            ])
            (if_either C (same_text (name key) (codes "esc"))
              (if_either C (not (length bp.filter == 0))
                (no (rebuild_filter lower (record bp { filter = []; cursor = 0 })))
                (no (record bp { visible = false })))
              (no (edit_filter lower bp key)))))

  unfoldable pub type_keys : BranchPicker → List Key → BranchPicker
  type_keys bp [] = bp
  type_keys bp (key ∷ keys) = type_keys (update lower bp key).0 keys

  type_keys-IsNarrowed :
      (bp : BranchPicker) (keys : List Key) → IsNarrowed bp → IsNarrowed (type_keys bp keys)
  unfolding type_keys
  type_keys-IsNarrowed bp [] g = g
  type_keys-IsNarrowed bp (key ∷ keys) g =
      type_keys-IsNarrowed (update lower bp key).0 keys (update-IsNarrowed bp key g)

  -- Whatever is typed after the picker is shown, a branch that it checks out is one of its branches and holds the text
  -- of the filter, the case of letters aside.
  pub show-Chosen :
      (bp : BranchPicker) (keys : List Key) (key : Key) (b : List ℕ)
      → let after : BranchPicker = type_keys (show lower bp) keys in
        (update lower after key).1 ≡ some b
        → (k : ℕ) × (k < length after.branches)
          × (b ≡ get_or after.branches k [])
          × (contains (map lower b) (map lower after.filter) ≡ true)
  unfolding show Chosen
  show-Chosen bp keys key b e =
      let first : IsNarrowed (show lower bp) =
        rebuild_filter-IsNarrowed (record bp { visible = true; filter = []; cursor = 0 }) in
      update-Chosen (type_keys (show lower bp) keys) key
        (type_keys-IsNarrowed (show lower bp) keys first) b e
