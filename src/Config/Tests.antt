-- ===== src/Config/Tests.antt =====
-- internal/config/config.go and env.go: the theorem at a configuration after config_test.go, and an env file.
use randomshitgo_go.Prelude.{
  [], ◌∷◌, ◌≡◌, refl, inl, inr, some, false, List, Option, String, str_eq, if◌then◌else◌,
}
use randomshitgo_go.Prelude.Int.{pos, negsuc}
use randomshitgo_go.Prelude.Assoc.{lookup, insert, delete_key}
use randomshitgo_go.Config.Env.{parse_env_file, missing_equals}
use randomshitgo_go.Config.{
  Project, member_checks, Settings, Config, load, validate, apply_defaults, unknown_member,
  bad_setting,
}
use randomshitgo_go.Config.Valid.{IsValid, load-IsValid}

abbrev nothing_set : Settings
nothing_set = record {
  log_buffer_lines = pos 0;
  log_dir = "";
  log_rotate_size_mb = pos 0;
  log_rotate_keep = pos 0;
  shutdown_grace_ms = pos 0;
  group_start_delay_ms = pos 0;
  restart_backoff_ms = [];
  restart_max_attempts = pos 0;
  restart_reset_after_ms = pos 0;
  pty_cols = pos 0;
  pty_rows = pos 0;
  log_flush_interval_ms = pos 0;
}

abbrev minimal : Config
minimal = record {
  projects =
      ("api", record { path = "/tmp"; cmd = "echo hi"; restart = ""; env = []; env_file = "" })
      ∷ [];
  groups = ("full", "api" ∷ []) ∷ [];
  settings = nothing_set;
}

abbrev loaded : Config
loaded = (validate (record minimal { settings = apply_defaults nothing_set })).1

-- Nothing to expand.
abbrev as_is : String → Option String
as_is path = some path

load-IsValid_example : IsValid as_is loaded
unfolding member_checks lookup
load-IsValid_example = load-IsValid as_is minimal loaded (unfold load in refl)

-- Validation names each error.
two_errors :
    load as_is (record minimal {
      groups = ("full", "web" ∷ []) ∷ [];
      settings = record nothing_set { pty_cols = negsuc 0 };
    })
    ≡ inl (unknown_member "full" 0 "web" ∷ bad_setting "pty_cols/pty_rows" ∷ [])
unfolding load member_checks lookup
two_errors = refl

abbrev with_file : Project
with_file = record {
  path = "/tmp";
  cmd = "serve";
  restart = "never";
  env = ("PORT", "80") ∷ [];
  env_file = ".env";
}

abbrev env_lines : List String
env_lines = "# comment" ∷ "  export MODE = 'a b' " ∷ "PORT=8080" ∷ []

reads : parse_env_file (some (env_lines, false)) ≡ inr (("PORT", "8080") ∷ ("MODE", "a b") ∷ [])
unfolding parse_env_file insert delete_key
reads = refl

no_equals : parse_env_file (some ("A=1" ∷ "=2" ∷ [], false)) ≡ inl (missing_equals 2)
unfolding parse_env_file insert
no_equals = refl

-- A variable that is set to nothing leaves a project without a path.
abbrev empty_variable : String → Option String
empty_variable path = if str_eq path "$EMPTY" then some "" else some path

abbrev unset : Project
unset = record { path = "$EMPTY"; cmd = "serve"; restart = "never"; env = []; env_file = "" }

no_path :
    load empty_variable (record minimal { projects = ("api", unset) ∷ [] })
    ≡ inr (record loaded { projects = ("api", record unset { path = "" }) ∷ [] })
unfolding load member_checks lookup
no_path = refl
