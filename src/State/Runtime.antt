-- ===== src/State/Runtime.antt =====
-- internal/state/runtime.go: `RuntimeStore`, the live state of every project.
-- The map is an association list; its entries are reached through the store only, so they are
-- values. A subscriber's channel of capacity 1 is a Boolean: a token waits in it. `now` is the
-- clock's answer.
pub mod Lookup
pub mod Sorted
pub mod Shown
mod Tests
use Prim.Native.Char.{Char, code}
use Prim.Native.String
use randomshitgo_go.Prelude.{
  ℕ, List, [], ◌∷◌, ◌++◌, Option, none, some, Bool, true, false, map, if◌then◌else◌, ltb, ◌==◌,
  String, str_eq,
}
use randomshitgo_go.Prelude.Int.{ℤ, pos}
use randomshitgo_go.Prelude.Assoc.{Assoc, lookup, insert, delete_key}
use randomshitgo_go.Event.{Event, started, exited, state_changed, log_line, restarting}

pub record ProjectRuntime : Type 0 where
  pub id : String
  pub state : String
  pub pid : ℤ
  pub started_at : ℕ
  pub restart_attempts : ℤ
  pub exit_code : ℤ
  pub exit_signal : String
  pub last_restart_at : ℕ

pub record RuntimeStore : Type 0 where
  pub m : Assoc ProjectRuntime
  pub subs : List Bool

unfoldable pub new_runtime_store : RuntimeStore
new_runtime_store = record { m = []; subs = [] }

-- `&ProjectRuntime{ID: id, State: "idle"}`
abbrev pub idle_runtime : String → ProjectRuntime
idle_runtime id = record {
  id = id;
  state = "idle";
  pid = pos 0;
  started_at = 0;
  restart_attempts = pos 0;
  exit_code = pos 0;
  exit_signal = "";
  last_restart_at = 0;
}

pub subscribe : RuntimeStore → RuntimeStore
subscribe s = record s { subs = s.subs ++ false ∷ [] }

-- The non-blocking sends: an empty channel gets a token, a full one keeps its own.
pub notify : RuntimeStore → RuntimeStore
notify s = record s { subs = map (λ _. true) s.subs }

-- The entry of `id`, made if there is none, after `change`.
pub update_entry :
    String → (ProjectRuntime → ProjectRuntime) → Assoc ProjectRuntime → Assoc ProjectRuntime
update_entry id change m = elim (lookup id m) [
  | none ↦ insert id (change (idle_runtime id)) m
  | some r ↦ insert id (change r) m
]

pub seed_entry : Assoc ProjectRuntime → String → Assoc ProjectRuntime
seed_entry m id = elim (lookup id m) [ none ↦ insert id (idle_runtime id) m | some r ↦ m ]

seed_entries : List String → Assoc ProjectRuntime → Assoc ProjectRuntime
seed_entries [] m = m
seed_entries (id ∷ ids) m = seed_entries ids (seed_entry m id)

pub seed : RuntimeStore → List String → RuntimeStore
seed s ids = notify (record s { m = seed_entries ids s.m })

pub set : RuntimeStore → String → String → ℤ → RuntimeStore
set s id st pid =
    notify (record s { m = update_entry id (λ r. record r { state = st; pid = pid }) s.m })

delete_entries : List String → Assoc ProjectRuntime → Assoc ProjectRuntime
delete_entries [] m = m
delete_entries (id ∷ ids) m = delete_entries ids (delete_key id m)

pub delete : RuntimeStore → List String → RuntimeStore
delete s [] = s
delete s (id ∷ ids) = notify (record s { m = delete_entries (id ∷ ids) s.m })

-- The switch of `Apply`.
pub apply_entries : Event → ℕ → Assoc ProjectRuntime → Assoc ProjectRuntime
apply_entries (started e) now m =
    update_entry e.id (λ r. record r { state = "running"; pid = e.pid; started_at = e.at }) m
apply_entries (exited e) now m =
    update_entry e.id (λ r. record r { pid = pos 0; exit_code = e.code; exit_signal = e.signal }) m
apply_entries (state_changed e) now m = update_entry e.id (λ r. record r { state = e.state }) m
apply_entries (log_line e) now m = m
apply_entries (restarting e) now m =
    update_entry e.id (λ r. record r { restart_attempts = e.attempt; last_restart_at = now }) m

pub apply : RuntimeStore → Event → ℕ → RuntimeStore
apply s ev now = notify (record s { m = apply_entries ev now s.m })

-- Go's order of texts.
unfoldable pub lt_codes : String → String → Bool
lt_codes String.[] String.[] = false
lt_codes String.[] (String.◌∷◌ c t) = true
lt_codes (String.◌∷◌ c s) String.[] = false
lt_codes (String.◌∷◌ c s) (String.◌∷◌ d t) =
    if ltb (code c) (code d) then true else if code c == code d then lt_codes s t else false

pub insert_sorted : ProjectRuntime → List ProjectRuntime → List ProjectRuntime
insert_sorted r [] = r ∷ []
insert_sorted r (q ∷ rs) =
    let later = q ∷ insert_sorted r rs in if lt_codes r.id q.id then r ∷ q ∷ rs else later

-- `sort.Slice` by `ID`.
pub sort_runtimes : List ProjectRuntime → List ProjectRuntime
sort_runtimes [] = []
sort_runtimes (r ∷ rs) = insert_sorted r (sort_runtimes rs)

pub snapshot : RuntimeStore → List ProjectRuntime
snapshot s = sort_runtimes (map (λ e. e.1) s.m)

unfoldable pub get : RuntimeStore → String → Option ProjectRuntime
get s id = lookup id s.m
