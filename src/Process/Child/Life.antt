-- ===== src/Process/Child/Life.antt =====
-- internal/process/child.go: the operations of `Child` as steps, each whole: what a user asks for and what
-- the goroutine `run` does at an exit and at the end of a wait, with that goroutine's own place.
use randomshitgo_go.Prelude.{
  ℕ, List, Option, none, some, Bool, true, false, ◌≡◌, refl, ◌⊎◌, inl, inr, Bool-cases,
  Option-cases, String, if_either, subst, not, ◌&&◌, str_eq,
}
use randomshitgo_go.Prelude.Int.{ℤ}
use randomshitgo_go.Log.LineBuffer.{LineBuffer, flush}
use randomshitgo_go.Event.{exited}
use randomshitgo_go.Process.Policy.{
  Policy, Action, nothing, restart, give_up, on_exit, manual_restart,
}
use randomshitgo_go.Process.Child.{
  Child, Spawn, StartError, already_in_state, bad_env, no_pty, spawned, start_check, start_spawn,
  start, read_chunk, read_tail, act, after_exit, before_respawn, settle, respawn, after_wait,
  stop_begin, stop_mark, stop, restart_now, new_child, set_state, emit, clear_process, state_idle,
  state_crashed, state_running, state_stopping, state_giving_up, state_restarting, state_starting,
  is_zero_code,
}

-- The goroutine of the child: none, reading the process, or in the wait before a restart.
pub data Phase : Type 0 where
  gone : Phase
  reading : Phase
  delaying : Phase

pub record Run : Type 0 where
  pub child : Child
  pub phase : Phase

-- The goroutine after a start: a refusal leaves the one there is.
abbrev phase_after_start : Option StartError → Phase → Phase
phase_after_start none old = reading
phase_after_start (some e) old = old

abbrev phase_after_exit : Bool → Phase
phase_after_exit true = delaying
phase_after_exit false = gone

-- The respawn of the goroutine itself: refused or failed, nothing is left.
abbrev phase_after_wait : Bool → Child → Spawn → ℕ → Phase
phase_after_wait true c spawn at = gone
phase_after_wait false c spawn at = phase_after_start (start (before_respawn c) spawn at).0 gone

pub data Step : Run → Run → Type 0 where
  starts :
      (r : Run) (spawn : Spawn) (at : ℕ)
      → Step r (record {
        child = (start r.child spawn at).1;
        phase = phase_after_start (start r.child spawn at).0 r.phase;
      })
  reads :
      (r : Run) (lb : LineBuffer) (chunk : List ℕ) (at : ℕ)
      → Step r (record r { child = (read_chunk r.child lb chunk at).0 })
  ends :
      (r : Run) (lb : LineBuffer) (at : ℕ) → Step r (record r { child = read_tail r.child lb at })
  exits :
      (r : Run) (code : ℤ) (sig : String) (at : ℕ)
      → r.phase ≡ reading
      → Step r (record {
        child = (after_exit r.child code sig at).1;
        phase = phase_after_exit (after_exit r.child code sig at).0;
      })
  waits :
      (r : Run) (done : Bool) (spawn : Spawn) (at : ℕ)
      → r.phase ≡ delaying
      → Step r (record {
        child = after_wait done r.child spawn at;
        phase = phase_after_wait done r.child spawn at;
      })
  stops : (r : Run) → Step r (record r { child = stop r.child })
  -- `Restart`, once its `Stop` and its sleep have let the goroutine finish.
  restarts :
      (r : Run) (spawn : Spawn) (at : ℕ)
      → r.phase ≡ gone
      → Step r (record {
        child = (restart_now r.child spawn at).1;
        phase = phase_after_start (restart_now r.child spawn at).0 r.phase;
      })

pub data Reach (v : Run) : Run → Type 0 where
  here : Reach v v
  next : {w u : Run} → Reach v w → Step w u → Reach v u

-- The state word, the process and the goroutine agree.
abbrev pub Fits : String → Option ℕ → Phase → Type 0
Fits state cmd gone =
    ((state ≡ state_idle) ⊎ ((state ≡ state_crashed) ⊎ (state ≡ state_giving_up))) × (cmd ≡ none)
Fits state cmd reading =
    ((state ≡ state_running) ⊎ (state ≡ state_stopping)) × ((p : ℕ) × (cmd ≡ some p))
Fits state cmd delaying =
    ((state ≡ state_restarting) ⊎ (state ≡ state_stopping)) × ((p : ℕ) × (cmd ≡ some p))

abbrev pub Agrees : Child → Phase → Type 0
Agrees c ph = Fits c.state c.cmd ph

pub start-refused :
    (c : Child) (spawn : Spawn) (at : ℕ)
    → start_check c ≡ none
    → start c spawn at ≡ (some already_in_state, c)
unfolding start
start-refused c spawn at h = rw (start, h)

pub start-accepted :
    (c c' : Child) (spawn : Spawn) (at : ℕ)
    → start_check c ≡ some c'
    → start c spawn at ≡ start_spawn c' spawn at
unfolding start start_spawn
start-accepted c c' spawn at h = rw (start, h)

-- A child with its process is refused, in each state it can have then.
pub busy_refused :
    (c : Child)
    → ((c.state ≡ state_running) ⊎ (c.state ≡ state_stopping)) ⊎ (c.state ≡ state_restarting)
    → start_check c ≡ none
unfolding start_check
busy_refused c (inl (inl h)) = rw h
busy_refused c (inl (inr h)) = rw h
busy_refused c (inr h) = rw h

start_spawn-Agrees :
    (c : Child) (spawn : Spawn) (at : ℕ)
    → c.cmd ≡ none
    → Agrees (start_spawn c spawn at).1 (phase_after_start (start_spawn c spawn at).0 gone)
unfolding start_spawn set_state emit
start_spawn-Agrees c bad_env at h = (inl refl, h)
start_spawn-Agrees c no_pty at h = (inl refl, h)
start_spawn-Agrees c (spawned p) at h = (inl refl, (p, refl))

-- Without a goroutine `Start` is refused or spawns.
start_gone-Agrees :
    (c : Child) (spawn : Spawn) (at : ℕ)
    → Agrees c gone
    → Agrees (start c spawn at).1 (phase_after_start (start c spawn at).0 gone)
unfolding start_check
start_gone-Agrees c spawn at h =
    let c' : Child = record c {
      state = state_starting;
      stop_requested = false;
      cancelled = false;
    } in
    elim (Bool-cases (not (str_eq c.state state_idle) && not (str_eq c.state state_crashed))) [
      | inl busy ↦ rw (start-refused c spawn at (rw (start_check, busy))) h
      | inr free ↦
          rw (start-accepted c c' spawn at (rw (start_check, free)))
            (start_spawn-Agrees c' spawn at h.1)
    ]

start-Agrees :
    (c : Child) (ph : Phase) (spawn : Spawn) (at : ℕ)
    → Agrees c ph
    → Agrees (start c spawn at).1 (phase_after_start (start c spawn at).0 ph)
start-Agrees c gone spawn at h = start_gone-Agrees c spawn at h
start-Agrees c reading spawn at h = rw (start-refused c spawn at (busy_refused c (inl h.0))) h
start-Agrees c delaying spawn at (inl e, p) =
    rw (start-refused c spawn at (busy_refused c (inr e))) (inl e, p)
start-Agrees c delaying spawn at (inr e, p) =
    rw (start-refused c spawn at (busy_refused c (inl (inr e)))) (inr e, p)

act-Agrees :
    (c : Child) (code : ℤ) (answer : Action × ℤ) (p : ℕ)
    → c.cmd ≡ some p
    → Agrees (act c code answer).1 (phase_after_exit (act c code answer).0)
unfolding act set_state emit clear_process
act-Agrees c code (nothing, delay) p h = (
  if_either (λ s. (s ≡ state_idle) ⊎ ((s ≡ state_crashed) ⊎ (s ≡ state_giving_up)))
      (is_zero_code code) (inl refl) (inr (inl refl)),
  refl,
)
act-Agrees c code (give_up, delay) p h = (inr (inr refl), refl)
act-Agrees c code (restart, delay) p h = (inl refl, (p, h))

after_exit-Agrees :
    (c : Child) (code : ℤ) (sig : String) (at p : ℕ)
    → c.cmd ≡ some p
    → Agrees (after_exit c code sig at).1 (phase_after_exit (after_exit c code sig at).0)
unfolding after_exit set_state emit clear_process
after_exit-Agrees c code sig at p h =
    if_either (λ (r : Bool × Child). Agrees r.1 (phase_after_exit r.0)) c.stop_requested
      (inl refl, refl)
      (act-Agrees (record (emit c (exited _)) { policy = (on_exit c.policy code).1 }) code
        (on_exit c.policy code).0 p h)

-- An answered respawn: refused or failed, it leaves a crashed child without a process.
settle-Agrees :
    (r : Option StartError × Child)
    → Agrees r.1 (phase_after_start r.0 gone)
    → Agrees (settle r) (phase_after_start r.0 gone)
unfolding settle set_state emit
settle-Agrees (none, c) h = h
settle-Agrees (some e, c) h = (inr (inl refl), h.1)

after_wait-Agrees :
    (done : Bool) (c : Child) (spawn : Spawn) (at : ℕ)
    → Agrees (after_wait done c spawn at) (phase_after_wait done c spawn at)
unfolding after_wait before_respawn set_state emit clear_process respawn
after_wait-Agrees true c spawn at = (inl refl, refl)
after_wait-Agrees false c spawn at =
    settle-Agrees (start (before_respawn c) spawn at)
      (start_gone-Agrees (before_respawn c) spawn at (inl refl, refl))

stop-Agrees : (c : Child) (ph : Phase) → Agrees c ph → Agrees (stop c) ph
unfolding stop stop_begin stop_mark set_state emit
stop-Agrees c gone (h, e) = rw e (h, refl)
stop-Agrees c reading (h, (p, e)) = rw e (inr refl, (p, refl))
stop-Agrees c delaying (h, (p, e)) = rw e (inr refl, (p, refl))

-- Output changes the events alone.
read_tail-Agrees :
    (c : Child) (ph : Phase) (lb : LineBuffer) (at : ℕ)
    → Agrees c ph
    → Agrees (read_tail c lb at) ph
unfolding read_tail emit
read_tail-Agrees c ph lb at h = elim (Option-cases (flush lb at).0) [
  | inl e ↦ rw (read_tail, e) h
  | inr (l, e) ↦ rw (read_tail, e) h
]

restart_now-Agrees :
    (c : Child) (spawn : Spawn) (at : ℕ)
    → c.cmd ≡ none
    → Agrees (restart_now c spawn at).1 (phase_after_start (restart_now c spawn at).0 gone)
unfolding restart_now
restart_now-Agrees c spawn at h =
    start_gone-Agrees
      (record c {
        stop_requested = false;
        policy = (manual_restart c.policy).1;
        state = state_idle;
      })
      spawn at (inl refl, h)

Step-Agrees : {r u : Run} → Step r u → Agrees r.child r.phase → Agrees u.child u.phase
unfolding read_chunk
Step-Agrees (starts r spawn at) h = start-Agrees r.child r.phase spawn at h
Step-Agrees (reads r lb chunk at) h = h
Step-Agrees (ends r lb at) h = read_tail-Agrees r.child r.phase lb at h
Step-Agrees (exits r code sig at e) h =
    let live : Agrees r.child reading = subst (λ ph. Agrees r.child ph) e h in
    after_exit-Agrees r.child code sig at live.1.0 live.1.1
Step-Agrees (waits r done spawn at e) h = after_wait-Agrees done r.child spawn at
Step-Agrees (stops r) h = stop-Agrees r.child r.phase h
Step-Agrees (restarts r spawn at e) h =
    let live : Agrees r.child gone = subst (λ ph. Agrees r.child ph) e h in
    rw e (restart_now-Agrees r.child spawn at live.1)

-- From a new child on, whatever is asked of it and however its processes end: the state is
-- "running" or "stopping" while the goroutine reads its process, "restarting" or "stopping" in the wait
-- before a restart, "idle", "crashed" or "giving-up" without a goroutine, and in the last case alone the
-- child has no process. Each operation is one step, and `Restart` starts once its `Stop` has ended
-- the goroutine.
pub reach-Agrees :
    (id : String) (policy : Policy) (r : Run)
    → Reach (record { child = new_child id policy; phase = gone }) r
    → Agrees r.child r.phase
unfolding new_child
reach-Agrees id policy r here = (inl refl, refl)
reach-Agrees id policy r (next w st) = Step-Agrees st (reach-Agrees id policy _ w)
