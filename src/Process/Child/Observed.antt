-- ===== src/Process/Child/Observed.antt =====
-- internal/process/child.go with internal/state/runtime.go: what a runtime store makes of the events
-- that a child sends.
use randomshitgo_go.Prelude.{
  ℕ, List, [], ◌∷◌, ◌++◌, Option, none, some, Bool, true, false, ◌≡◌, refl, sym, ap, ◌∙◌, inl, inr,
  Option-cases, map, String, str_eq, eq_iff, arith, append_assoc, append-nil, All, if_either,
}
use randomshitgo_go.Prelude.Int.{ℤ, pos}
use randomshitgo_go.Event.{Event, project_id, started, exited, state_changed, log_line, restarting}
use randomshitgo_go.Log.Line.{Line}
use randomshitgo_go.Log.LineBuffer.{LineBuffer, feed, flush}
use randomshitgo_go.State.Runtime.{RuntimeStore, apply}
use randomshitgo_go.State.Runtime.Shown.{shown, shown-apply, shown_after, or_idle_view}
use randomshitgo_go.Process.Policy.{
  Policy, Action, nothing, restart, give_up, on_exit, manual_restart,
}
use randomshitgo_go.Process.Child.{
  Child, Spawn, StartError, bad_env, no_pty, spawned, emit, set_state, start_check, start_spawn,
  start, read_chunk, read_tail, line_event, clear_process, act, after_exit, before_respawn, settle,
  respawn, new_child, after_wait, stop_begin, stop_mark, stop, restart_now, state_idle,
  state_crashed, state_starting, state_stopping, state_giving_up, state_restarting,
}
use randomshitgo_go.Process.Child.Life.{
  Run, Step, starts, reads, ends, exits, waits, stops, restarts, Reach, here, next, gone,
  start-refused, start-accepted,
}

-- The store after the events, all applied at one time: what it shows does not depend on the times.
pub apply_all : RuntimeStore → List Event → ℕ → RuntimeStore
apply_all s [] now = s
apply_all s (ev ∷ evs) now = apply_all (apply s ev now) evs now

apply_all-append :
    (s : RuntimeStore) (xs ys : List Event) (now : ℕ)
    → apply_all s (xs ++ ys) now ≡ apply_all (apply_all s xs now) ys now
unfolding apply_all
apply_all-append s [] ys now = refl
apply_all-append s (x ∷ xs) ys now = apply_all-append (apply s x now) xs ys now

module _ (s : RuntimeStore) (now : ℕ) where
  -- The state that the store shows for the child, once it has the child's events.
  pub state_shown : Child → String
  unfolding apply_all
  state_shown c = (or_idle_view (shown (apply_all s c.events now) c.id)).0

  -- The store shows the child's own state.
  abbrev pub IsObserved : Child → Type 0
  IsObserved c = state_shown c ≡ c.state

  -- What one more event of the child makes of the state shown.
  abbrev state_after : Event → String → String
  state_after (started e) old = "running"
  state_after (exited e) old = old
  state_after (state_changed e) old = e.state
  state_after (log_line e) old = old
  state_after (restarting e) old = old

  state-shown_after :
      (ev : Event) (v : Option (String × ℤ))
      → (or_idle_view (shown_after ev v)).0 ≡ state_after ev (or_idle_view v).0
  state-shown_after (started e) v = refl
  state-shown_after (exited e) v = refl
  state-shown_after (state_changed e) v = refl
  state-shown_after (log_line e) v = refl
  state-shown_after (restarting e) v = refl

  abbrev IsQuiet : Event → Type 0
  IsQuiet (started e) = ⊥
  IsQuiet (exited e) = Unit
  IsQuiet (state_changed e) = ⊥
  IsQuiet (log_line e) = Unit
  IsQuiet (restarting e) = Unit

  IsQuiet-keeps : (ev : Event) (old : String) → IsQuiet ev → state_after ev old ≡ old
  IsQuiet-keeps (exited e) old h = refl
  IsQuiet-keeps (log_line e) old h = refl
  IsQuiet-keeps (restarting e) old h = refl
  IsQuiet-keeps (started e) old h = elim h [ ]
  IsQuiet-keeps (state_changed e) old h = elim h [ ]

  state_shown-emit :
      (c : Child) (ev : Event)
      → project_id ev ≡ c.id
      → state_shown (emit c ev) ≡ state_after ev (state_shown c)
  unfolding state_shown emit
  state_shown-emit c ev own =
      ap (λ t. (or_idle_view (shown t c.id)).0) (apply_all-append s c.events (ev ∷ []) now)
      ∙ ap (λ v. (or_idle_view v).0) (shown-apply (apply_all s c.events now) ev now c.id)
      ∙ (let same : str_eq c.id c.id ≡ true = ground (arith, eq_iff c.id c.id) in
          rw (own, same) (state-shown_after ev (shown (apply_all s c.events now) c.id)))

  set_state-IsObserved : (c : Child) (new_state : String) → IsObserved (set_state c new_state)
  unfolding set_state project_id
  set_state-IsObserved c new_state =
      state_shown-emit (record c { state = new_state })
        (state_changed (record { id = c.id; state = new_state })) refl

  -- A store sees id and events only.
  state_shown-fields :
      (c d : Child) → c.id ≡ d.id → c.events ≡ d.events → state_shown c ≡ state_shown d
  unfolding state_shown
  state_shown-fields c d i e = rw (i, e)

  start_spawn-IsObserved :
      (c : Child) (spawn : Spawn) (at : ℕ) → IsObserved (start_spawn c spawn at).1
  unfolding start_spawn project_id
  start_spawn-IsObserved c bad_env at = set_state-IsObserved c state_idle
  start_spawn-IsObserved c no_pty at =
      set_state-IsObserved (record c { cancelled = true }) state_idle
  start_spawn-IsObserved c (spawned p) at =
      state_shown-emit _ (started (record { id = c.id; pid = pos p; at = at })) refl

  start-IsObserved :
      (c : Child) (spawn : Spawn) (at : ℕ) → IsObserved c → IsObserved (start c spawn at).1
  start-IsObserved c spawn at h = elim (Option-cases (start_check c)) [
    | inl refused ↦ rw (start-refused c spawn at refused) h
    | inr (c', ok) ↦ rw (start-accepted c c' spawn at ok) (start_spawn-IsObserved c' spawn at)
  ]

  idle-IsObserved :
      (c : Child) (spawn : Spawn) (at : ℕ) → c.state ≡ state_idle → IsObserved (start c spawn at).1
  unfolding start_check
  idle-IsObserved c spawn at h =
      let c' : Child = record c {
        state = state_starting;
        stop_requested = false;
        cancelled = false;
      } in
      rw (start-accepted c c' spawn at (rw (start_check, h))) (start_spawn-IsObserved c' spawn at)

  act-IsObserved : (c : Child) (code : ℤ) (answer : Action × ℤ) → IsObserved (act c code answer).1
  unfolding act project_id
  act-IsObserved c code (nothing, delay) = set_state-IsObserved (clear_process c) _
  act-IsObserved c code (give_up, delay) = set_state-IsObserved (clear_process c) state_giving_up
  act-IsObserved c code (restart, delay) =
      state_shown-emit (set_state c state_restarting) (restarting _) refl
      ∙ set_state-IsObserved c state_restarting

  after_exit-IsObserved :
      (c : Child) (code : ℤ) (sig : String) (at : ℕ) → IsObserved (after_exit c code sig at).1
  unfolding after_exit
  after_exit-IsObserved c code sig at =
      if_either (λ (r : Bool × Child). IsObserved r.1) c.stop_requested
        (state_shown-fields _ (set_state (clear_process (emit c (exited _))) state_idle) refl refl
          ∙ set_state-IsObserved (clear_process (emit c (exited _))) state_idle)
        (act-IsObserved (record (emit c (exited _)) { policy = (on_exit c.policy code).1 }) code
          (on_exit c.policy code).0)

  settle-IsObserved : (r : Option StartError × Child) → IsObserved r.1 → IsObserved (settle r)
  unfolding settle
  settle-IsObserved (none, c) h = h
  settle-IsObserved (some e, c) h = set_state-IsObserved c state_crashed

  -- An idle child is not refused.
  respawn-IsObserved :
      (c : Child) (spawn : Spawn) (at : ℕ) → IsObserved (respawn (before_respawn c) spawn at)
  unfolding respawn before_respawn clear_process
  respawn-IsObserved c spawn at =
      settle-IsObserved (start (before_respawn c) spawn at)
        (idle-IsObserved (before_respawn c) spawn at refl)

  after_wait-IsObserved :
      (done : Bool) (c : Child) (spawn : Spawn) (at : ℕ) → IsObserved (after_wait done c spawn at)
  unfolding after_wait
  after_wait-IsObserved done c spawn at =
      if_either IsObserved done (set_state-IsObserved (clear_process c) state_idle)
        (respawn-IsObserved c spawn at)

  stop_mark-IsObserved : (o : Option ℕ) (c : Child) → IsObserved c → IsObserved (stop_mark o c)
  unfolding stop_mark
  stop_mark-IsObserved none c h = h
  stop_mark-IsObserved (some p) c h = set_state-IsObserved c state_stopping

  stop-IsObserved : (c : Child) → IsObserved c → IsObserved (stop c)
  unfolding stop stop_begin
  stop-IsObserved c h =
      stop_mark-IsObserved c.cmd (stop_begin c).1
        (state_shown-fields (stop_begin c).1 c refl refl ∙ h)

  quiet_events :
      (c : Child) (evs : List Event)
      → All (λ ev. (project_id ev ≡ c.id) × IsQuiet ev) evs
      → state_shown (record c { events = c.events ++ evs }) ≡ state_shown c
  unfolding emit
  quiet_events c [] h = state_shown-fields _ c refl (append-nil c.events)
  quiet_events c (ev ∷ evs) h =
      state_shown-fields _ (record (emit c ev) { events = (emit c ev).events ++ evs }) refl
        (sym (append_assoc c.events (ev ∷ []) evs))
      ∙ quiet_events (emit c ev) evs h.1
      ∙ state_shown-emit c ev h.0.0
      ∙ IsQuiet-keeps ev (state_shown c) h.0.1

  line_events-IsQuiet :
      (id : String) (lines : List Line)
      → All (λ ev. (project_id ev ≡ id) × IsQuiet ev) (map (line_event id) lines)
  unfolding project_id line_event
  line_events-IsQuiet id [] = tt
  line_events-IsQuiet id (l ∷ ls) = ((refl, tt), line_events-IsQuiet id ls)

  read_chunk-IsObserved :
      (c : Child) (lb : LineBuffer) (chunk : List ℕ) (at : ℕ)
      → IsObserved c
      → IsObserved (read_chunk c lb chunk at).0
  unfolding read_chunk
  read_chunk-IsObserved c lb chunk at h =
      quiet_events c _ (line_events-IsQuiet c.id (feed lb chunk at).0) ∙ h

  tail-IsObserved :
      (c : Child) (o : Option Line)
      → IsObserved c
      → IsObserved (elim o [ none ↦ c | some l ↦ emit c (line_event c.id l) ])
  unfolding line_event project_id emit
  tail-IsObserved c none h = h
  tail-IsObserved c (some l) h = state_shown-emit c (line_event c.id l) refl ∙ h

  read_tail-IsObserved :
      (c : Child) (lb : LineBuffer) (at : ℕ) → IsObserved c → IsObserved (read_tail c lb at)
  unfolding read_tail
  read_tail-IsObserved c lb at h = tail-IsObserved c (flush lb at).0 h

  restart_now-IsObserved :
      (c : Child) (spawn : Spawn) (at : ℕ) → IsObserved (restart_now c spawn at).1
  unfolding restart_now
  restart_now-IsObserved c spawn at =
      idle-IsObserved
        (record c {
          stop_requested = false;
          policy = (manual_restart c.policy).1;
          state = state_idle;
        })
        spawn at refl

  Step-IsObserved : {r u : Run} → Step r u → IsObserved r.child → IsObserved u.child
  Step-IsObserved (starts r spawn at) h = start-IsObserved r.child spawn at h
  Step-IsObserved (reads r lb chunk at) h = read_chunk-IsObserved r.child lb chunk at h
  Step-IsObserved (ends r lb at) h = read_tail-IsObserved r.child lb at h
  Step-IsObserved (exits r code sig at e) h = after_exit-IsObserved r.child code sig at
  Step-IsObserved (waits r done spawn at e) h = after_wait-IsObserved done r.child spawn at
  Step-IsObserved (stops r) h = stop-IsObserved r.child h
  Step-IsObserved (restarts r spawn at e) h = restart_now-IsObserved r.child spawn at

  -- Let a store show "idle" for a project, and apply to it, oldest first and none lost, the events that
  -- the project's child has sent since it was made. Then the store shows the state word of the child itself,
  -- whatever was asked of the child and however its processes ended, each operation being one step.
  pub reach-IsObserved :
      (id : String) (policy : Policy) (r : Run)
      → (or_idle_view (shown s id)).0 ≡ state_idle
      → Reach (record { child = new_child id policy; phase = gone }) r
      → state_shown r.child ≡ r.child.state
  unfolding new_child state_shown apply_all
  reach-IsObserved id policy r h here = h
  reach-IsObserved id policy r h (next w st) = Step-IsObserved st (reach-IsObserved id policy _ h w)
