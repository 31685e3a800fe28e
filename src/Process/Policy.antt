-- ===== src/Process/Policy.antt =====
-- internal/process/restart.go: `Policy`, which decides whether a process that exited is restarted.
-- Durations and exit codes are integers, a duration in nanoseconds. `reset_timer` is `some fired`
-- while the field is not nil. Go runs the function of a timer that fired by itself: `fire` and
-- `run_callback` below are those steps, and `callbacks` counts the functions still to run.
pub mod Attempts
mod Tests
use randomshitgo_go.Prelude.{
  ℕ, zero, suc, ◌+◌, ◌-◌, List, [], ◌∷◌, Option, none, some, Bool, true, false, not, ◌&&◌, leb, ltb,
  if◌then◌else◌, length, get_or, map, String, str_eq, ◌≡◌,
}
use randomshitgo_go.Prelude.Int.{ℤ, pos, negsuc, ◌-ℤ◌, ◌*ℤ◌, ltb_ℤ, pos_part, neg_part, wrap64}

pub data Action : Type 0 where
  nothing restart give_up : Action

pub record Policy : Type 0 where
  pub mode : String
  pub backoffs : List ℤ
  pub max_attempts : ℤ
  pub reset_after : ℤ
  pub attempts : ℕ
  pub reset_timer : Option Bool

-- `time.Duration(ms) * time.Millisecond`
abbrev pub millis : ℤ → ℤ
millis ms = wrap64 (ms *ℤ pos 1000000)

unfoldable pub new_policy : String → List ℤ → ℤ → ℤ → Policy
new_policy mode backoffs_ms max_attempts reset_after_ms = record {
  mode = mode;
  backoffs = map millis backoffs_ms;
  max_attempts = max_attempts;
  reset_after = millis reset_after_ms;
  attempts = 0;
  reset_timer = none;
}

-- The test for nil changes nothing: either way the field is nil after the call.
abbrev pub stop_reset_timer : Policy → Policy
stop_reset_timer p = record p { reset_timer = none }

unfoldable pub on_start : Policy → Policy
on_start p =
    if ltb_ℤ (pos 0) p.reset_after
    then record (stop_reset_timer p) { reset_timer = some false }
    else stop_reset_timer p

-- The index falls to -1 if there are no backoffs, and then the delay stays 0.
pub pick_backoff : List ℤ → ℕ → ℤ
unfolding ◌-ℤ◌
pick_backoff backoffs attempts =
    let idx =
      if leb (length backoffs) attempts then pos (length backoffs) -ℤ pos 1 else pos attempts in
    if not (ltb_ℤ idx (pos 0)) && ltb 0 (length backoffs)
    then get_or backoffs (pos_part idx) (pos 0)
    else pos 0

abbrev is_zero : ℤ → Bool
is_zero (pos zero) = true
is_zero (pos (suc n)) = false
is_zero (negsuc n) = false

unfoldable pub on_exit : Policy → ℤ → (Action × ℤ) × Policy
on_exit p code =
    let q = stop_reset_timer p in
    if is_zero code
    then ((nothing, pos 0), record q { attempts = 0 })
    else if not (str_eq p.mode "on-failure")
    then ((nothing, pos 0), q)
    else if not (ltb_ℤ (pos p.attempts) p.max_attempts)
    then ((give_up, pos 0), q)
    else ((restart, pick_backoff p.backoffs p.attempts), record q { attempts = p.attempts + 1 })

pub manual_restart : Policy → (Action × ℤ) × Policy
manual_restart p = ((restart, pos 0), record (stop_reset_timer p) { attempts = 0 })

pub stop : Policy → Policy
stop p = stop_reset_timer p

-- The policy and the timer functions that have not run yet.
pub record World : Type 0 where
  pub policy : Policy
  pub callbacks : ℕ

abbrev at_policy : World → Policy → World
at_policy w p = record w { policy = p }

-- What happens to a policy. A failing exit and a clean one are both `exits`.
pub data Step : World → World → Type 0 where
  starts : (w : World) → Step w (at_policy w (on_start w.policy))
  exits : (w : World) (code : ℤ) → Step w (at_policy w (on_exit w.policy code).1)
  restarts : (w : World) → Step w (at_policy w (manual_restart w.policy).1)
  stops : (w : World) → Step w (at_policy w (stop w.policy))
  fire :
      (w : World)
      → w.policy.reset_timer ≡ some false
      → Step w (record {
        policy = record w.policy { reset_timer = some true };
        callbacks = w.callbacks + 1;
      })
  run_callback :
      (w : World) (n : ℕ)
      → w.callbacks ≡ suc n
      → Step w (record { policy = record w.policy { attempts = 0 }; callbacks = n })

pub data Reach (v : World) : World → Type 0 where
  here : Reach v v
  next : {w u : World} → Reach v w → Step w u → Reach v u
