-- ===== src/Routing/Commands.antt =====
-- internal/tui/handlers.go: `dispatchCommand`, the commands that are typed after a colon, with `handleQuitRequest`. A
-- text is its UTF-8 bytes. The handlers that a command calls are named by an effect, and a call on the
-- log panel by the option that it sets.
pub mod Quitting
mod Tests
use randomshitgo_go.Prelude.{
  ℕ, zero, suc, List, [], ◌∷◌, ◌++◌, Option, none, some, Bool, true, false, not, ◌&&◌, ◌||◌,
  if◌then◌else◌, length, drop, ◌==◌, String,
}
use randomshitgo_go.Panes.Text.{codes, space_width}

unfoldable pub same_bytes : List ℕ → List ℕ → Bool
same_bytes [] [] = true
same_bytes [] (c ∷ cs) = false
same_bytes (b ∷ bs) [] = false
same_bytes (b ∷ bs) (c ∷ cs) = let rest = same_bytes bs cs in b == c && rest

abbrev flush : List ℕ → List (List ℕ)
flush [] = []
flush (b ∷ bs) = (b ∷ bs) ∷ []

-- `strings.Fields`, with the bytes of the word so far; as many rounds as there are bytes are enough.
unfoldable pub fields_from : ℕ → List ℕ → List ℕ → List (List ℕ)
fields_from zero s word = flush word
fields_from (suc fuel) [] word = flush word
fields_from (suc fuel) (b ∷ bs) word = elim (space_width (b ∷ bs) == 0) [
  | true ↦ fields_from fuel bs (word ++ b ∷ [])
  | false ↦ flush word ++ fields_from fuel (drop (space_width (b ∷ bs)) (b ∷ bs)) []
]

unfoldable pub fields : List ℕ → List (List ℕ)
unfolding fields_from
fields s = fields_from (length s) s []

-- `strings.Join(words, " ")`
unfoldable pub join_words : List (List ℕ) → List ℕ
join_words [] = []
join_words (w ∷ []) = w
join_words (w ∷ v ∷ rest) = w ++ 0x20 ∷ join_words (v ∷ rest)

unfoldable pub command_name : List ℕ → List ℕ
unfolding fields join_words
command_name text = join_words (fields text)

-- `strings.Cut(name, " ")`
unfoldable pub cut : List ℕ → Option (List ℕ × List ℕ)
cut [] = none
cut (b ∷ bs) =
    let rest = cut bs in
    if b == 0x20
    then some ([], bs)
    else elim rest [ none ↦ none | some (head, tail) ↦ some (b ∷ head, tail) ]

-- A setting of the log panel.
pub data PanelOption : Type 0 where
  gutter : PanelOption
  severity : PanelOption
  json_pretty : PanelOption
  wrap : PanelOption
  sql_pretty : PanelOption

pub data QuitReason : Type 0 where
  quit_detach : QuitReason
  quit_shutdown : QuitReason

-- What a command leads to. `quit_now` is `tea.Quit`; `graceful_quit` stops all children before it quits.
pub data Effect : Type 0 where
  no_effect : Effect
  quit_now : QuitReason → Effect
  graceful_quit : QuitReason → Effect
  set_panel : PanelOption → Bool → Effect
  clear_buffer : Effect
  write_buffer : List ℕ → Effect
  git_fetch : Effect
  git_pull : Effect
  edit_config : Effect
  reload_config : Effect
  not_in_daemon_mode : Effect
  unknown_command : List ℕ → Effect

unfoldable pub handle_quit_request : Bool → QuitReason → Effect
handle_quit_request detach_mode reason =
    if detach_mode then quit_now reason else graceful_quit reason

abbrev pub named : List ℕ → String → Bool
named name s = same_bytes name (codes s)

-- The cases from `set nu` on, in the order of the source.
pub settings : List (String × Effect)
settings =
    ("set nu", set_panel gutter true)
    ∷ ("set number", set_panel gutter true)
    ∷ ("set nonu", set_panel gutter false)
    ∷ ("set nonumber", set_panel gutter false)
    ∷ ("set severity", set_panel severity true)
    ∷ ("set sev", set_panel severity true)
    ∷ ("set nosev", set_panel severity false)
    ∷ ("set noseverity", set_panel severity false)
    ∷ ("set json", set_panel json_pretty true)
    ∷ ("set nojson", set_panel json_pretty false)
    ∷ ("set wrap", set_panel wrap true)
    ∷ ("set nowrap", set_panel wrap false)
    ∷ ("set sql", set_panel sql_pretty true)
    ∷ ("set nosql", set_panel sql_pretty false)
    ∷ ("clear", clear_buffer)
    ∷ ("c", clear_buffer)
    ∷ ("fetch", git_fetch)
    ∷ ("pull", git_pull)
    ∷ ("edit", edit_config)
    ∷ ("e", edit_config)
    ∷ ("reload", reload_config)
    ∷ []

unfoldable pub first_named : List ℕ → List (String × Effect) → Option Effect
first_named name [] = none
first_named name ((s, effect) ∷ cases) =
    let rest = first_named name cases in if named name s then some effect else rest

abbrev pub chosen : Option Effect → Effect → Effect
chosen none other = other
chosen (some effect) other = effect

-- The commands with arguments, and what is no command.
pub with_arguments : List ℕ → Effect
unfolding cut
with_arguments name = elim (cut name) [
  | none ↦ unknown_command name
  | some (head, rest) ↦
      if named head "w" || named head "write" then write_buffer rest else unknown_command name
]

-- The switch on the name.
pub for_name : Bool → List ℕ → Effect
unfolding handle_quit_request settings with_arguments
for_name detach_mode name =
    if named name ""
    then no_effect
    else if named name "q" || named name "quit"
    then handle_quit_request detach_mode quit_detach
    else if named name "detach"
    then (if detach_mode then handle_quit_request detach_mode quit_detach else not_in_daemon_mode)
    else if named name "shutdown"
    then handle_quit_request detach_mode quit_shutdown
    else chosen (first_named name settings) (with_arguments name)

pub dispatch_command : Bool → List ℕ → Effect
unfolding for_name
dispatch_command detach_mode text = for_name detach_mode (command_name text)
