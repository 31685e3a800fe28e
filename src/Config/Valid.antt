-- ===== src/Config/Valid.antt =====
-- internal/config/config.go: what a configuration that loads has.
use randomshitgo_go.Prelude.{
  neither, ℕ, ◌+◌, List, [], ◌∷◌, ◌++◌, Option, none, some, true, false, not, ◌&&◌, ◌≡◌, ◌≢◌, ◌⊎◌,
  inl, inr, refl, subst, sym, ◌∙◌, String, str_eq, eq_iff, true≢false, arith, All, Bool-cases,
  if_either, Option-cases,
}
use mathlib.Core.Sum.{inr-injective}
use randomshitgo_go.Prelude.Int.{pos, ltb_ℤ}
use randomshitgo_go.Prelude.Assoc.{Assoc, lookup}
use randomshitgo_go.Config.{
  Project, Settings, Config, Check, checks, errors_of, project_checks, all_project_checks,
  member_checks, group_checks, all_group_checks, settings_checks, with_restart, with_restarts,
  validate, load, apply_defaults, ValidationError, path_unexpanded, expand_env_file, expand_project,
  expand_projects, expand_settings, expand_all, or_errors, restart_never, restart_on_failure, none?,
  is_empty,
}

abbrev Passed : Check → Type 0
Passed c = c.0 ≡ false

All-split : (xs ys : List Check) → All Passed (xs ++ ys) → All Passed xs × All Passed ys
All-split [] ys h = (tt, h)
All-split (x ∷ xs) ys h = let (a, b) = All-split xs ys h.1 in ((h.0, a), b)

-- Without an error no check has failed.
none-failed : (cs : List Check) → errors_of cs ≡ [] → All Passed cs
unfolding errors_of
none-failed [] h = tt
none-failed ((true, e) ∷ cs) h = cc
none-failed ((false, e) ∷ cs) h = (refl, none-failed cs h)

-- The path comes from one that is not empty.
abbrev IsRunnable : Project → Type 0
IsRunnable p =
    (p.path ≢ "") × (p.cmd ≢ "") × ((p.restart ≡ restart_never) ⊎ (p.restart ≡ restart_on_failure))

not_empty : (t : String) → str_eq t "" ≡ false → t ≢ ""
not_empty t h e = true≢false (sym ((eq_iff t "").1 e) ∙ h)

one_of :
    (r : String)
    → (not (str_eq r restart_never) && not (str_eq r restart_on_failure)) ≡ false
    → (r ≡ restart_never) ⊎ (r ≡ restart_on_failure)
one_of r h = elim (Bool-cases (str_eq r restart_never)) [
  | inl e ↦ inl ((eq_iff r restart_never).0 e)
  | inr e ↦ elim (Bool-cases (str_eq r restart_on_failure)) [
    | inl f ↦ inr ((eq_iff r restart_on_failure).0 f)
    | inr f ↦ ground (arith, h, e, f)
  ]
]

with_restart-keeps :
    (p : Project) → ((with_restart p).path ≡ p.path) × ((with_restart p).cmd ≡ p.cmd)
unfolding with_restart
with_restart-keeps p = ground arith

project-IsRunnable :
    (id : String) (p : Project) → All Passed (project_checks id p) → IsRunnable (with_restart p)
project-IsRunnable id p (a, (b, (c, rest))) =
    let (same_path, same_cmd) = with_restart-keeps p in
    (
      rw same_path (not_empty p.path a),
      rw same_cmd (not_empty p.cmd b),
      one_of (with_restart p).restart c,
    )

projects-IsRunnable :
    (ps : Assoc Project)
    → All Passed (all_project_checks ps)
    → All (λ b. IsRunnable b.1) (with_restarts ps)
unfolding all_project_checks with_restarts
projects-IsRunnable [] h = tt
projects-IsRunnable (b ∷ ps) h =
    let (here, rest) = All-split (project_checks b.0 b.1) (all_project_checks ps) h in
    (project-IsRunnable b.0 b.1 here, projects-IsRunnable ps rest)

-- The member is a project of the configuration.
abbrev pub IsKnown : Assoc Project → String → Type 0
IsKnown projects m = (p : Project) × (lookup m projects ≡ some p)

known : (o : Option Project) → none? o ≡ false → (p : Project) × (o ≡ some p)
known none h = cc
known (some p) h = (p, refl)

members-IsKnown :
    (projects : Assoc Project) (name : String) (i : ℕ) (ms : List String)
    → All Passed (member_checks projects name i ms)
    → All (IsKnown projects) ms
unfolding member_checks
members-IsKnown projects name i [] h = tt
members-IsKnown projects name i (m ∷ ms) h =
    (known (lookup m projects) h.0, members-IsKnown projects name (i + 1) ms h.1)

abbrev pub IsGroup : Assoc Project → List String → Type 0
IsGroup projects ms = (ms ≢ []) × All (IsKnown projects) ms

not_nil : {A : Type 0} (xs : List A) → is_empty xs ≡ false → xs ≢ []
not_nil [] h e = true≢false h
not_nil (x ∷ xs) h e = cc

groups-IsGroup :
    (projects : Assoc Project) (gs : Assoc (List String))
    → All Passed (all_group_checks projects gs)
    → All (λ g. IsGroup projects g.1) gs
unfolding all_group_checks
groups-IsGroup projects [] h = tt
groups-IsGroup projects (g ∷ gs) h =
    let (here, rest) = All-split (group_checks projects g) (all_group_checks projects gs) h in
    (
      (not_nil g.1 here.0, members-IsKnown projects g.0 0 g.1 here.1),
      groups-IsGroup projects gs rest,
    )

-- The settings that must be positive.
abbrev pub IsPositive : Settings → Type 0
IsPositive s =
    (ltb_ℤ s.log_buffer_lines (pos 1) ≡ false)
    × (ltb_ℤ s.log_rotate_keep (pos 1) ≡ false)
    × (ltb_ℤ s.log_flush_interval_ms (pos 1) ≡ false)
    × (ltb_ℤ s.pty_cols (pos 1) ≡ false)
    × (ltb_ℤ s.pty_rows (pos 1) ≡ false)

settings-IsPositive : (s : Settings) → All Passed (settings_checks s) → IsPositive s
settings-IsPositive s (a, (b, (c, (d, rest)))) =
    let (e, f) = neither (ltb_ℤ s.pty_cols (pos 1)) (ltb_ℤ s.pty_rows (pos 1)) d in (a, b, c, e, f)

-- What validation leaves.
abbrev IsValidated : Config → Type 0
IsValidated c =
    (c.projects ≢ [])
    × All (λ b. IsRunnable b.1) c.projects
    × All (λ g. IsGroup c.projects g.1) c.groups
    × IsPositive c.settings

with_restarts-nonempty : (ps : Assoc Project) → is_empty ps ≡ false → with_restarts ps ≢ []
unfolding with_restarts
with_restarts-nonempty [] h e = true≢false h
with_restarts-nonempty (b ∷ ps) h e = cc

validate-IsValidated : (c : Config) → (validate c).0 ≡ [] → IsValidated (validate c).1
unfolding validate
validate-IsValidated c h =
    let projects : Assoc Project = with_restarts c.projects in
    let (a, rest) = none-failed (checks c) h in
    let (others, s) =
      All-split (all_project_checks c.projects ++ all_group_checks projects c.groups)
        (settings_checks c.settings) rest in
    let (b, g) =
      All-split (all_project_checks c.projects) (all_group_checks projects c.groups) others in
    (
      with_restarts-nonempty c.projects a,
      projects-IsRunnable c.projects b,
      groups-IsGroup projects c.groups g,
      settings-IsPositive c.settings s,
    )

empty_list : {A : Type 0} (xs : List A) → is_empty xs ≡ true → xs ≡ []
empty_list [] h = refl
empty_list (x ∷ xs) h = cc

both_nil : (xs ys : List ValidationError) → xs ++ ys ≡ [] → (xs ≡ []) × (ys ≡ [])
both_nil [] ys h = (refl, h)
both_nil (x ∷ xs) ys h = absurd (cc)

module _ (expand : String → Option String) where
  -- A project with an expanded path, a command and a mode.
  abbrev pub IsExpanded : Project → Type 0
  IsExpanded p =
      ((written : String) × (written ≢ "") × (expand written ≡ some p.path))
      × (p.cmd ≢ "")
      × ((p.restart ≡ restart_never) ⊎ (p.restart ≡ restart_on_failure))

  abbrev pub IsValid : Config → Type 0
  IsValid c =
      (c.projects ≢ [])
      × All (λ b. IsExpanded b.1) c.projects
      × All (λ g. IsGroup c.projects g.1) c.groups
      × IsPositive c.settings

  env_file-IsExpanded :
      (id : String) (p : Project) → IsExpanded p → IsExpanded (expand_env_file expand id p).1
  unfolding expand_env_file
  env_file-IsExpanded id p h =
      let P : List ValidationError × Project → Type 0 = λ r. IsExpanded r.1 in
      if_either P (str_eq p.env_file "") h
        (elim (Option-cases (expand p.env_file)) [ inl e ↦ rw e h | inr (file, e) ↦ rw e h ])

  project-IsExpanded :
      (id : String) (p : Project)
      → IsRunnable p
      → (expand_project expand id p).0 ≡ []
      → IsExpanded (expand_project expand id p).1
  unfolding expand_project
  project-IsExpanded id p h k = elim (Option-cases (expand p.path)) [
    | inl e ↦
        let fails : (expand_project expand id p).0 ≡ path_unexpanded id ∷ [] =
          rw (expand_project, e) refl in
        absurd (cc (fails, k))
    | inr (path, e) ↦
        rw (expand_project, e)
          (env_file-IsExpanded id (record p { path = path }) ((p.path, h.0, e), h.1, h.2))
  ]

  projects-IsExpanded :
      (ps : Assoc Project)
      → All (λ b. IsRunnable b.1) ps
      → (expand_projects expand ps).0 ≡ []
      → All (λ b. IsExpanded b.1) (expand_projects expand ps).1
  unfolding expand_projects
  projects-IsExpanded [] h k = tt
  projects-IsExpanded ((id, p) ∷ ps) h k =
      let (here, rest) = both_nil _ _ k in
      (project-IsExpanded id p h.0 here, projects-IsExpanded ps h.1 rest)

  expand_projects-nonempty : (ps : Assoc Project) → ps ≢ [] → (expand_projects expand ps).1 ≢ []
  unfolding expand_projects
  expand_projects-nonempty [] h e = h refl
  expand_projects-nonempty (b ∷ ps) h e = cc

  -- The projects keep their ids.
  expand_projects-IsKnown :
      (ps : Assoc Project) (m : String) → IsKnown ps m → IsKnown (expand_projects expand ps).1 m
  unfolding expand_projects lookup
  expand_projects-IsKnown [] m h = h
  expand_projects-IsKnown ((id, p) ∷ ps) m h = elim (Bool-cases (str_eq id m)) [
    | inl e ↦ rw e ((expand_project expand id p).1, refl)
    | inr e ↦ rw e (expand_projects-IsKnown ps m (h.0, sym (rw e refl) ∙ h.1))
  ]

  members-kept :
      (ps : Assoc Project) (ms : List String)
      → All (IsKnown ps) ms
      → All (IsKnown (expand_projects expand ps).1) ms
  members-kept ps [] h = tt
  members-kept ps (m ∷ ms) h = (expand_projects-IsKnown ps m h.0, members-kept ps ms h.1)

  groups-kept :
      (ps : Assoc Project) (gs : Assoc (List String))
      → All (λ g. IsGroup ps g.1) gs
      → All (λ g. IsGroup (expand_projects expand ps).1 g.1) gs
  groups-kept ps [] h = tt
  groups-kept ps (g ∷ gs) h = ((h.0.0, members-kept ps g.1 h.0.1), groups-kept ps gs h.1)

  settings-kept : (s : Settings) → IsPositive s → IsPositive (expand_settings expand s).1
  unfolding expand_settings
  settings-kept s h = elim (Option-cases (expand s.log_dir)) [
    | inl e ↦ rw (expand_settings, e) h
    | inr (dir, e) ↦ rw (expand_settings, e) h
  ]

  expand_all-IsValid :
      (c : Config) → IsValidated c → (expand_all expand c).0 ≡ [] → IsValid (expand_all expand c).1
  unfolding expand_all
  expand_all-IsValid c (some_project, projects, groups, settings) k = (
    expand_projects-nonempty c.projects some_project,
    projects-IsExpanded c.projects projects (both_nil _ _ k).0,
    groups-kept c.projects c.groups groups,
    settings-kept c.settings settings,
  )

  no_errors :
      (r : List ValidationError × Config) (loaded : Config)
      → or_errors r ≡ inr loaded
      → (r.0 ≡ []) × (r.1 ≡ loaded)
  no_errors ([], c) loaded h = (refl, inr-injective c loaded h)
  no_errors (e ∷ errs, c) loaded h = absurd (cc)

  -- A configuration that loads has a project; each project has a path that some path, not empty, expands to, a
  -- command and one of the two restart modes; each group has a member, and its members are projects of it; and the sizes
  -- that must be positive are. The mode and the settings are those after the defaults. An expanded path can be empty.
  pub load-IsValid : (c loaded : Config) → load expand c ≡ inr loaded → IsValid loaded
  unfolding load
  load-IsValid c loaded h =
      let d : Config = record c { settings = apply_defaults c.settings } in
      elim (Bool-cases (is_empty (validate d).0)) [
        | inl e ↦
            let (none_failed, same) =
              no_errors (expand_all expand (validate d).1) loaded (sym (rw (load, e) refl) ∙ h) in
            subst IsValid same (
              expand_all-IsValid (validate d).1
                (validate-IsValidated d (empty_list (validate d).0 e)) none_failed)
        | inr e ↦ cc
      ]
