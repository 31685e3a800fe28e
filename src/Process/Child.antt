-- ===== src/Process/Child.antt =====
-- internal/process/child.go: `Child`, one supervised process, with the states of events.go. The lock
-- regions of its methods and of its goroutine are functions here, composed as the source composes them; the
-- relation of Child/Races.antt interleaves them. `cmd` and `ptmx` are the process behind the pointers,
-- by its id; `cancelled` says of the last context made that it is cancelled; `events` are the sends so
-- far, oldest first, of which the channel drops one that finds it full. What the system answers to
-- a spawn, and what an exit and a wait come to, are arguments. The reader loop (bytes to log and
-- subscribers) is `read_chunk`, with the splitter that the goroutine holds.
pub mod Observed
pub mod CrashLoop
pub mod Life
pub mod Races
mod Tests
use randomshitgo_go.Prelude.{
  ℕ, zero, suc, List, [], ◌∷◌, ◌++◌, Option, none, some, Bool, true, false, not, ◌&&◌,
  if◌then◌else◌, map, String, str_eq,
}
use randomshitgo_go.Prelude.Int.{ℤ, pos, negsuc}
use randomshitgo_go.Event.{Event, started, exited, state_changed, log_line, restarting}
use randomshitgo_go.Log.Line.{Line}
use randomshitgo_go.Log.LineBuffer.{LineBuffer, feed, flush}
use randomshitgo_go.Process.Policy.{
  Policy, Action, nothing, restart, give_up, on_start, on_exit, manual_restart,
}
use randomshitgo_go.Process.Policy.{stop as stop_policy}

abbrev pub state_idle : String
state_idle = "idle"

abbrev pub state_starting : String
state_starting = "starting"

abbrev pub state_running : String
state_running = "running"

abbrev pub state_stopping : String
state_stopping = "stopping"

abbrev pub state_crashed : String
state_crashed = "crashed"

abbrev pub state_restarting : String
state_restarting = "restarting"

abbrev pub state_giving_up : String
state_giving_up = "giving-up"

pub record Child : Type 0 where
  pub id : String
  pub policy : Policy
  pub state : String
  pub pid : ℤ
  pub cmd : Option ℕ
  pub ptmx : Option ℕ
  pub cancelled : Bool
  pub stop_requested : Bool
  pub events : List Event

pub new_child : String → Policy → Child
new_child id policy = record {
  id = id;
  policy = policy;
  state = state_idle;
  pid = pos 0;
  cmd = none;
  ptmx = none;
  cancelled = false;
  stop_requested = false;
  events = [];
}

pub emit : Child → Event → Child
emit c ev = record c { events = c.events ++ ev ∷ [] }

pub set_state : Child → String → Child
unfolding emit
set_state c s = emit (record c { state = s }) (state_changed (record { id = c.id; state = s }))

-- What starting a process comes to: no environment, no pseudo-terminal, or a process id.
pub data Spawn : Type 0 where
  bad_env : Spawn
  no_pty : Spawn
  spawned : ℕ → Spawn

pub data StartError : Type 0 where
  already_in_state : StartError
  build_env_failed : StartError
  start_pty_failed : StartError

-- The first lock region of `Start`; a refusal is `none`.
pub start_check : Child → Option Child
start_check c =
    if not (str_eq c.state state_idle) && not (str_eq c.state state_crashed)
    then none
    else some (record c { state = state_starting; stop_requested = false; cancelled = false })

-- The rest of `Start`.
pub start_spawn : Child → Spawn → ℕ → Option StartError × Child
unfolding set_state emit
start_spawn c bad_env now = (some build_env_failed, set_state c state_idle)
start_spawn c no_pty now =
    (some start_pty_failed, set_state (record c { cancelled = true }) state_idle)
start_spawn c (spawned p) now =
    let c' = set_state (record c { cmd = some p; ptmx = some p; pid = pos p }) state_running in
    (
      none,
      emit (record c' { policy = on_start c'.policy })
          (started (record { id = c.id; pid = pos p; at = now })),
    )

pub start : Child → Spawn → ℕ → Option StartError × Child
unfolding start_check start_spawn
start c spawn now = elim (start_check c) [
  | none ↦ (some already_in_state, c)
  | some c' ↦ start_spawn c' spawn now
]

-- The event of a line that the reader's own splitter ends.
line_event : String → Line → Event
line_event id l =
    log_line (record { id = id; bytes = l.bytes; is_partial = l.is_partial; at = l.timestamp })

-- One read of the reader loop. The registry gets the same chunk (State/Registry.antt).
pub read_chunk : Child → LineBuffer → List ℕ → ℕ → Child × LineBuffer
unfolding line_event
read_chunk c lb chunk now =
    let (lines, lb') = feed lb chunk now in
    (record c { events = c.events ++ map (line_event c.id) lines }, lb')

-- The partial line left at the end of the output.
pub read_tail : Child → LineBuffer → ℕ → Child
unfolding emit line_event
read_tail c lb now = elim (flush lb now).0 [ none ↦ c | some l ↦ emit c (line_event c.id l) ]

pub clear_process : Child → Child
clear_process c = record c { cmd = none; ptmx = none; pid = pos 0 }

abbrev is_zero_code : ℤ → Bool
is_zero_code (pos zero) = true
is_zero_code (pos (suc n)) = false
is_zero_code (negsuc n) = false

-- What the policy's answer makes of the child. The flag says that a restart is due.
pub act : Child → ℤ → Action × ℤ → Bool × Child
unfolding clear_process set_state emit
act c code (nothing, delay) =
    (false, set_state (clear_process c) (if is_zero_code code then state_idle else state_crashed))
act c code (give_up, delay) = (false, set_state (clear_process c) state_giving_up)
act c code (restart, delay) = (
  true,
  emit (set_state c state_restarting)
      (restarting (record { id = c.id; attempt = pos c.policy.attempts; delay = delay })),
)

-- `run` from the reaped process on, up to the wait before a restart.
pub after_exit : Child → ℤ → String → ℕ → Bool × Child
unfolding clear_process set_state emit act
after_exit c code sig at =
    let c' = emit c (exited (record { id = c.id; code = code; signal = sig; at = at })) in
    let (answer, policy) = on_exit c'.policy code in
    let idle = set_state (clear_process c') state_idle in
    if c'.stop_requested
    then (false, record idle { policy = stop_policy idle.policy })
    else act (record c' { policy = policy }) code answer

-- The lock region after the wait, before the respawn.
pub before_respawn : Child → Child
unfolding clear_process
before_respawn c = record (clear_process c) { state = state_idle }

-- The respawn, once `Start` has answered.
pub settle : Option StartError × Child → Child
unfolding set_state emit
settle (none, c) = c
settle (some e, c) = set_state c state_crashed

pub respawn : Child → Spawn → ℕ → Child
unfolding start settle
respawn c spawn now = settle (start c spawn now)

-- `run` from the wait on. The flag is the end of the wait for the goroutine's own context, cancelled
-- or not, which is the child's last one unless a `Restart` has come in between.
pub after_wait : Bool → Child → Spawn → ℕ → Child
unfolding clear_process set_state before_respawn respawn
after_wait done c spawn now =
    if done then set_state (clear_process c) state_idle else respawn (before_respawn c) spawn now

-- `Stop` up to its unlock: the request, the cancelled context, and the process that it saw.
pub stop_begin : Child → Option ℕ × Child
stop_begin c = (c.cmd, record c { stop_requested = true; cancelled = true })

-- The rest of `Stop`, for the process that it saw; signals are not state of the model.
pub stop_mark : Option ℕ → Child → Child
unfolding set_state emit
stop_mark none c = c
stop_mark (some p) c = set_state c state_stopping

pub stop : Child → Child
unfolding stop_begin stop_mark
stop c = let (cmd, c') = stop_begin c in stop_mark cmd c'

-- `Restart` after its `Stop` and its sleep.
pub restart_now : Child → Spawn → ℕ → Option StartError × Child
unfolding start
restart_now c spawn now =
    start
      (record c {
        stop_requested = false;
        policy = (manual_restart c.policy).1;
        state = state_idle;
      })
      spawn now

-- `Attach` fails without a pseudo-terminal.
pub attach : Child → Option ℕ
attach c = c.ptmx
