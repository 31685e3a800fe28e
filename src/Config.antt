-- ===== src/Config.antt =====
-- internal/config/config.go and defaults.go: the configuration as decoded, its defaults and its
-- validation. The YAML decoder and the file are not code of the repository; `load` takes what the decoder
-- returned. Errors keep the key that they name and not their wording. The environment of a process (env.go)
-- is in Config/Env.antt. `expand` is ExpandPath of expand.go, which asks the system for the home directory and the
-- variables: none where it fails.
pub mod Env
pub mod Valid
mod Tests
use randomshitgo_go.Prelude.{
  ℕ, zero, suc, ◌⊎◌, inl, inr, ◌+◌, List, [], ◌∷◌, ◌++◌, Option, none, some, Bool, true, false, not,
  ◌&&◌, ◌||◌, if◌then◌else◌, String, str_eq,
}
use randomshitgo_go.Prelude.Int.{ℤ, pos, negsuc, ltb_ℤ}
use randomshitgo_go.Prelude.Assoc.{Assoc, lookup}

abbrev pub restart_never : String
restart_never = "never"

abbrev pub restart_on_failure : String
restart_on_failure = "on-failure"

pub record Project : Type 0 where
  pub path : String
  pub cmd : String
  pub restart : String
  pub env : Assoc String
  pub env_file : String

pub record Settings : Type 0 where
  pub log_buffer_lines : ℤ
  pub log_dir : String
  pub log_rotate_size_mb : ℤ
  pub log_rotate_keep : ℤ
  pub shutdown_grace_ms : ℤ
  pub group_start_delay_ms : ℤ
  pub restart_backoff_ms : List ℤ
  pub restart_max_attempts : ℤ
  pub restart_reset_after_ms : ℤ
  pub pty_cols : ℤ
  pub pty_rows : ℤ
  pub log_flush_interval_ms : ℤ

pub record Config : Type 0 where
  pub projects : Assoc Project
  pub groups : Assoc (List String)
  pub settings : Settings

unfoldable pub default_settings : Settings
default_settings = record {
  log_buffer_lines = pos 1000;
  log_dir = "~/.cache/procs/logs";
  log_rotate_size_mb = pos 10;
  log_rotate_keep = pos 5;
  shutdown_grace_ms = pos 5000;
  group_start_delay_ms = pos 300;
  restart_backoff_ms = pos 1000 ∷ pos 2000 ∷ pos 4000 ∷ pos 8000 ∷ pos 16000 ∷ [];
  restart_max_attempts = pos 5;
  restart_reset_after_ms = pos 60000;
  pty_cols = pos 120;
  pty_rows = pos 40;
  log_flush_interval_ms = pos 150;
}

abbrev or_default : ℤ → ℤ → ℤ
or_default (pos zero) d = d
or_default (pos (suc n)) d = pos (suc n)
or_default (negsuc n) d = negsuc n

abbrev or_default_list : List ℤ → List ℤ → List ℤ
or_default_list [] d = d
or_default_list (x ∷ xs) d = x ∷ xs

pub apply_defaults : Settings → Settings
unfolding default_settings
apply_defaults s = record {
  log_buffer_lines = or_default s.log_buffer_lines default_settings.log_buffer_lines;
  log_dir = if str_eq s.log_dir "" then default_settings.log_dir else s.log_dir;
  log_rotate_size_mb = or_default s.log_rotate_size_mb default_settings.log_rotate_size_mb;
  log_rotate_keep = or_default s.log_rotate_keep default_settings.log_rotate_keep;
  shutdown_grace_ms = or_default s.shutdown_grace_ms default_settings.shutdown_grace_ms;
  group_start_delay_ms = or_default s.group_start_delay_ms default_settings.group_start_delay_ms;
  restart_backoff_ms = or_default_list s.restart_backoff_ms default_settings.restart_backoff_ms;
  restart_max_attempts = or_default s.restart_max_attempts default_settings.restart_max_attempts;
  restart_reset_after_ms =
      or_default s.restart_reset_after_ms default_settings.restart_reset_after_ms;
  pty_cols = or_default s.pty_cols default_settings.pty_cols;
  pty_rows = or_default s.pty_rows default_settings.pty_rows;
  log_flush_interval_ms = or_default s.log_flush_interval_ms default_settings.log_flush_interval_ms;
}

pub data ValidationError : Type 0 where
  no_projects : ValidationError
  path_required : String → ValidationError
  cmd_required : String → ValidationError
  bad_restart : String → String → ValidationError
  empty_group : String → ValidationError
  unknown_member : String → ℕ → String → ValidationError
  bad_setting : String → ValidationError
  path_unexpanded : String → ValidationError
  env_file_unexpanded : String → ValidationError
  log_dir_unexpanded : ValidationError

-- The errors of the checks that fail, in turn.
pub errors_of : List (Bool × ValidationError) → List ValidationError
errors_of [] = []
errors_of ((failed, e) ∷ checks) =
    let later = errors_of checks in if failed then e ∷ later else later

-- The project as `validate` stores it back.
pub with_restart : Project → Project
with_restart p = if str_eq p.restart "" then record p { restart = restart_never } else p

abbrev pub Check : Type 0
Check = Bool × ValidationError

abbrev pub project_checks : String → Project → List Check
project_checks id p =
    let q = with_restart p in
    (str_eq p.path "", path_required id)
    ∷ (str_eq p.cmd "", cmd_required id)
    ∷ (
      not (str_eq q.restart restart_never) && not (str_eq q.restart restart_on_failure),
      bad_restart id q.restart,
    )
    ∷ []

abbrev none? {ℓ} : {A : Type ℓ} → Option A → Bool
none? none = true
none? (some a) = false

-- The checks of the members from the i-th on.
unfoldable pub member_checks :
    Assoc Project → String → ℕ → List String → List (Bool × ValidationError)
member_checks projects group i [] = []
member_checks projects group i (m ∷ ms) =
    (none? (lookup m projects), unknown_member group i m) ∷ member_checks projects group (i + 1) ms

abbrev is_empty {ℓ} : {A : Type ℓ} → List A → Bool
is_empty [] = true
is_empty (x ∷ xs) = false

abbrev pub group_checks : Assoc Project → String × List String → List Check
group_checks projects g = (is_empty g.1, empty_group g.0) ∷ member_checks projects g.0 0 g.1

abbrev pub settings_checks : Settings → List Check
settings_checks s =
    (ltb_ℤ s.log_buffer_lines (pos 1), bad_setting "log_buffer_lines")
    ∷ (ltb_ℤ s.log_rotate_keep (pos 1), bad_setting "log_rotate_keep")
    ∷ (ltb_ℤ s.log_flush_interval_ms (pos 1), bad_setting "log_flush_interval_ms")
    ∷ (ltb_ℤ s.pty_cols (pos 1) || ltb_ℤ s.pty_rows (pos 1), bad_setting "pty_cols/pty_rows")
    ∷ []

pub all_project_checks : Assoc Project → List Check
all_project_checks [] = []
all_project_checks (b ∷ ps) = project_checks b.0 b.1 ++ all_project_checks ps

pub all_group_checks : Assoc Project → Assoc (List String) → List Check
all_group_checks projects [] = []
all_group_checks projects (g ∷ gs) = group_checks projects g ++ all_group_checks projects gs

pub with_restarts : Assoc Project → Assoc Project
unfolding with_restart
with_restarts [] = []
with_restarts (b ∷ ps) = (b.0, with_restart b.1) ∷ with_restarts ps

-- Each loop and test of `validate`, in turn.
abbrev pub checks : Config → List Check
checks c =
    ((is_empty c.projects, no_projects) ∷ [])
    ++ all_project_checks c.projects
    ++ all_group_checks (with_restarts c.projects) c.groups
    ++ settings_checks c.settings

-- The errors, and the configuration with the restart modes filled in.
pub validate : Config → List ValidationError × Config
unfolding errors_of with_restarts all_project_checks all_group_checks
validate c = (errors_of (checks c), record c { projects = with_restarts c.projects })

abbrev pub or_errors : List ValidationError × Config → List ValidationError ⊎ Config
or_errors ([], c) = inr c
or_errors (e ∷ errs, c) = inl (e ∷ errs)

module _ (expand : String → Option String) where
  -- The environment file of a project whose path was expanded; an empty one is left as it is.
  pub expand_env_file : String → Project → List ValidationError × Project
  expand_env_file id p = if str_eq p.env_file "" then ([], p) else elim (expand p.env_file) [
    | none ↦ (env_file_unexpanded id ∷ [], p)
    | some file ↦ ([], record p { env_file = file })
  ]

  -- One round of the loop in `expandAll`. Where there is an error, the configuration is not used.
  pub expand_project : String → Project → List ValidationError × Project
  unfolding expand_env_file
  expand_project id p = elim (expand p.path) [
    | none ↦ (path_unexpanded id ∷ [], p)
    | some path ↦ expand_env_file id (record p { path = path })
  ]

  pub expand_projects : Assoc Project → List ValidationError × Assoc Project
  unfolding expand_project
  expand_projects [] = ([], [])
  expand_projects ((id, p) ∷ ps) =
      let (errs, p') = expand_project id p in
      let (later, ps') = expand_projects ps in (errs ++ later, (id, p') ∷ ps')

  pub expand_settings : Settings → List ValidationError × Settings
  expand_settings s = elim (expand s.log_dir) [
    | none ↦ (log_dir_unexpanded ∷ [], s)
    | some dir ↦ ([], record s { log_dir = dir })
  ]

  pub expand_all : Config → List ValidationError × Config
  unfolding expand_projects expand_settings
  expand_all c =
      let (errs, projects) = expand_projects c.projects in
      let (later, settings) = expand_settings c.settings in
      (errs ++ later, record c { projects = projects; settings = settings })

  -- `LoadFromPath` from the decoded configuration on.
  unfoldable pub load : Config → List ValidationError ⊎ Config
  unfolding apply_defaults validate expand_all
  load c =
      let (errs, c') = validate (record c { settings = apply_defaults c.settings }) in
      if is_empty errs then or_errors (expand_all c') else inl errs
