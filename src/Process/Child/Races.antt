-- ===== src/Process/Child/Races.antt =====
-- internal/process/child.go: `Stop`, and what the lock regions of a child do when they interleave with those
-- of the goroutine `run`.
use randomshitgo_go.Prelude.{
  ℕ, List, [], ◌∷◌, Option, none, some, Bool, true, false, ◌≡◌, refl, inl, inr, String,
}
use randomshitgo_go.Prelude.Int.{ℤ, pos}
use randomshitgo_go.Process.Child.{
  Child, Spawn, spawned, emit, set_state, start_check, start_spawn, start, clear_process,
  after_exit, before_respawn, settle, respawn, stop_begin, stop_mark, stop, state_idle,
  state_crashed, state_stopping,
}
use randomshitgo_go.Process.Child.Life.{busy_refused, start-refused}

-- What a user can ask of a child, `Restart` apart.
pub data Request : Type 0 where
  ask_start : Spawn → ℕ → Request
  ask_stop : Request

pub ask : Child → Request → Child
unfolding start stop
ask c (ask_start spawn at) = (start c spawn at).1
ask c ask_stop = stop c

pub ask_all : Child → List Request → Child
unfolding ask
ask_all c [] = c
ask_all c (q ∷ qs) = ask_all (ask c q) qs

halts :
    (c : Child) (code : ℤ) (sig : String) (at : ℕ)
    → c.stop_requested ≡ true
    → ((after_exit c code sig at).0 ≡ false)
      × ((after_exit c code sig at).1.state ≡ state_idle)
      × ((after_exit c code sig at).1.cmd ≡ none)
      × ((after_exit c code sig at).1.pid ≡ pos 0)
unfolding after_exit emit clear_process set_state
halts c code sig at h = rw (after_exit, h) (refl, refl, refl, refl)

stop_mark-requested : (o : Option ℕ) (c : Child) → (stop_mark o c).stop_requested ≡ c.stop_requested
unfolding stop_mark set_state emit
stop_mark-requested none c = refl
stop_mark-requested (some p) c = refl

-- After `Stop` any exit of the process, whatever its code and the policy, leaves the child "idle" and
-- without a process, and no restart is due.
pub stop-halts :
    (c : Child) (code : ℤ) (sig : String) (at : ℕ)
    → let r : Bool × Child = after_exit (stop c) code sig at in
      (r.0 ≡ false) × (r.1.state ≡ state_idle) × (r.1.cmd ≡ none) × (r.1.pid ≡ pos 0)
unfolding stop stop_begin
stop-halts c code sig at = halts (stop c) code sig at (stop_mark-requested c.cmd (stop_begin c).1)

abbrev IsStuck : Child → Type 0
IsStuck c = (c.state ≡ state_stopping) × (c.cmd ≡ none)

ask-IsStuck : (c : Child) (q : Request) → IsStuck c → IsStuck (ask c q)
unfolding ask stop stop_begin stop_mark
ask-IsStuck c (ask_start spawn at) h =
    rw (ask, start-refused c spawn at (busy_refused c (inl (inr h.0)))) h
ask-IsStuck c ask_stop (h, e) = rw e (h, refl)

ask_all-IsStuck : (c : Child) (qs : List Request) → IsStuck c → IsStuck (ask_all c qs)
unfolding ask_all
ask_all-IsStuck c [] h = h
ask_all-IsStuck c (q ∷ qs) h = ask_all-IsStuck (ask c q) qs (ask-IsStuck c q h)

-- Let the process exit, and the goroutine finish, after `Stop` has read that there is a process and before it
-- writes the state. Then the child is in the state "stopping" without a process, and stays so as long as
-- only calls of `Start` and `Stop` follow.
pub stop-stuck :
    (c : Child) (p : ℕ) (code : ℤ) (sig : String) (at : ℕ) (qs : List Request)
    → c.cmd ≡ some p
    → let stuck : Child = stop_mark (stop_begin c).0 (after_exit (stop_begin c).1 code sig at).1 in
      ((ask_all stuck qs).state ≡ state_stopping) × ((ask_all stuck qs).cmd ≡ none)
unfolding stop_begin stop_mark after_exit set_state emit clear_process
stop-stuck c p code sig at qs h = rw h (ask_all-IsStuck _ qs (refl, refl))

-- Let a user's `Start` come between the lock region in which the goroutine makes the child "idle" and the
-- goroutine's own `Start`. Then the child is "crashed" while the process p of the user's start is its
-- process, and the next `Start` spawns a second one.
pub start-twice :
    (c : Child) (p q : ℕ) (spawn : Spawn) (at : ℕ)
    → let gap : Child = respawn (start (before_respawn c) (spawned p) at).1 spawn at in
      (gap.state ≡ state_crashed)
      × (gap.cmd ≡ some p)
      × ((start gap (spawned q) at).0 ≡ none)
      × ((start gap (spawned q) at).1.cmd ≡ some q)
unfolding respawn start start_check start_spawn before_respawn settle set_state emit clear_process
start-twice c p q spawn at = (refl, refl, refl, refl)
