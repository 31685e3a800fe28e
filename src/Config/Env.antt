-- ===== src/Config/Env.antt =====
-- internal/config/env.go: the environment of a process. The base and the lines of an env file are texts, in the
-- order of the source; the system reads the file, and says whether reading it failed. A slice of the
-- source is cut at ASCII bytes or at characters, so the library's `slice` is it.
use randomshitgo_go.Prelude.{
  ℕ, zero, suc, ◌+◌, ◌-◌, List, [], ◌∷◌, Option, none, some, Bool, ◌&&◌, ◌||◌, ◌⊎◌, inl, inr, ◌≡◌,
  refl, ap, ◌∙◌, if◌then◌else◌, leb, ◌==◌, map, String, str_eq, Bool-cases,
}
use Prim.Native.String.{len, char_at, slice}
use Prim.Native.String.{◌++◌ as concat}
use Prim.Native.Char.{code, len_utf8}
use text.Mathlib.Text.{starts_with, find?}
use randomshitgo_go.Prelude.Assoc.{Assoc, lookup, insert, lookup-insert}
use randomshitgo_go.Config.{Project}

-- `unicode.IsSpace`
pub is_space : ℕ → Bool
is_space c =
    (leb 9 c && leb c 13)
    || c == 0x20
    || c == 0x85
    || c == 0xa0
    || c == 0x1680
    || (leb 0x2000 c && leb c 0x200a)
    || c == 0x2028
    || c == 0x2029
    || c == 0x202f
    || c == 0x205f
    || c == 0x3000

-- From the character at i on: the place of the first one that is no space, and the end of the last one.
pub trim_bounds : ℕ → String → ℕ → Option ℕ → ℕ → ℕ × ℕ
unfolding is_space
trim_bounds zero s i first last = (elim first [ none ↦ last | some f ↦ f ], last)
trim_bounds (suc fuel) s i first last =
    let c = char_at s i in
    let after = i + len_utf8 c in
    let space = is_space (code c) in
    let rest =
      trim_bounds fuel s after
        (if space then first else elim first [ none ↦ some i | some f ↦ some f ])
        (if space then last else after) in
    if leb (len s) i then (elim first [ none ↦ last | some f ↦ f ], last) else rest

-- `strings.TrimSpace`. There are no more characters than bytes.
pub trim_space : String → String
unfolding trim_bounds
trim_space s = let (a, b) = trim_bounds (len s) s 0 none 0 in slice s a b

pub data EnvError : Type 0 where
  not_opened : EnvError
  missing_equals : ℕ → EnvError
  not_read : EnvError

pub data EnvLine : Type 0 where
  skipped : EnvLine
  malformed : EnvLine
  binds : String → String → EnvLine

abbrev byte_is : String → ℕ → ℕ → Bool
byte_is s i b = code (char_at s i) == b

-- A value without its outer quotes.
pub unquote : String → String
unquote val =
    let last = len val - 1 in
    if leb 2 (len val)
      && ((byte_is val 0 0x22 && byte_is val last 0x22)
          || (byte_is val 0 0x27 && byte_is val last 0x27))
    then slice val 1 last
    else val

-- The split at the first '=', which stands behind at least one byte.
abbrev split_at : String → Option ℕ → EnvLine
split_at raw none = malformed
split_at raw (some zero) = malformed
split_at raw (some (suc k)) =
    binds (trim_space (slice raw 0 (suc k)))
      (unquote (trim_space (slice raw (suc k + 1) (len raw))))

-- One round of the loop of `parseEnvFile`.
pub parse_line : String → EnvLine
unfolding trim_space unquote
parse_line text =
    let raw = trim_space text in
    let body = if starts_with raw "export " then trim_space (slice raw 7 (len raw)) else raw in
    if str_eq raw "" || starts_with raw "#" then skipped else split_at body (find? body "=")

-- The lines from a number on, and whether reading failed behind them.
pub parse_lines : List String → Bool → ℕ → Assoc String → EnvError ⊎ Assoc String
unfolding parse_line
parse_lines [] failed n out = if failed then inl not_read else inr out
parse_lines (text ∷ texts) failed n out = elim (parse_line text) [
  | skipped ↦ parse_lines texts failed (n + 1) out
  | malformed ↦ inl (missing_equals (n + 1))
  | binds key val ↦ parse_lines texts failed (n + 1) (insert key val out)
]

-- The file as the system reads it: none if it cannot be opened.
abbrev pub EnvFile : Type 0
EnvFile = Option (List String × Bool)

unfoldable pub parse_env_file : EnvFile → EnvError ⊎ Assoc String
unfolding parse_lines
parse_env_file none = inl not_opened
parse_env_file (some (texts, failed)) = parse_lines texts failed 0 []

-- A `KEY=VALUE` of the base; another text is left out.
abbrev base_entry : String → Option ℕ → Assoc String → Assoc String
base_entry kv none m = m
base_entry kv (some zero) m = m
base_entry kv (some (suc k)) m = insert (slice kv 0 (suc k)) (slice kv (suc k + 1) (len kv)) m

pub base_env : List String → Assoc String → Assoc String
base_env [] m = m
base_env (kv ∷ kvs) m = base_env kvs (base_entry kv (find? kv "=") m)

-- Each binding of the first map into the second, in any order: a map has one binding for a key.
pub merge : Assoc String → Assoc String → Assoc String
merge [] m = m
merge (binding ∷ bs) m = insert binding.0 binding.1 (merge bs m)

abbrev file_env : Project → EnvFile → EnvError ⊎ Assoc String
file_env p file = if str_eq p.env_file "" then inr [] else parse_env_file file

-- The map that `BuildEnv` makes.
pub merged_env : Project → EnvFile → List String → EnvError ⊎ Assoc String
unfolding base_env merge parse_env_file
merged_env p file base = elim (file_env p file) [
  | inl e ↦ inl e
  | inr m ↦ inr (merge p.env (merge m (base_env base [])))
]

pub build_env : Project → EnvFile → List String → EnvError ⊎ List String
unfolding merged_env
build_env p file base = elim (merged_env p file base) [
  | inl e ↦ inl e
  | inr m ↦ inr (map (λ b. concat b.0 (concat "=" b.1)) m)
]

abbrev pub or_else : Option String → Option String → Option String
or_else none o = o
or_else (some v) o = some v

lookup-merge :
    (k : String) (bs m : Assoc String) → lookup k (merge bs m) ≡ or_else (lookup k bs) (lookup k m)
unfolding merge lookup
lookup-merge k [] m = refl
lookup-merge k (b ∷ bs) m =
    lookup-insert b.0 k b.1 (merge bs m)
    ∙ elim (Bool-cases (str_eq b.0 k)) [ inl e ↦ rw e refl | inr e ↦ rw e (lookup-merge k bs m) ]

-- The environment of a project whose env file, if it has one, parses: each variable has the value of the
-- project's own `env`, or else of the env file, or else of the base.
pub merged_env-lookup :
    (p : Project) (file : EnvFile) (base : List String) (m : Assoc String) (k : String)
    → file_env p file ≡ inr m
    → (r : Assoc String) × (merged_env p file base ≡ inr r)
      × (lookup k r ≡ or_else (lookup k p.env) (or_else (lookup k m) (lookup k (base_env base []))))
unfolding merged_env
merged_env-lookup p file base m k h = (
  merge p.env (merge m (base_env base [])),
  rw (merged_env, h) refl,
  lookup-merge k p.env (merge m (base_env base []))
      ∙ ap (or_else (lookup k p.env)) (lookup-merge k m (base_env base [])),
)
