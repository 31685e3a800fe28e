-- ===== src/Process/Child/CrashLoop.antt =====
-- internal/process/child.go with restart.go: a child whose process keeps failing.
use randomshitgo_go.Prelude.{
  ℕ, suc, List, [], ◌∷◌, ◌<◌, ◌≤◌, Bool, true, false, ◌≡◌, refl, ap, ◌∙◌, String, arith,
  if◌then◌else◌, ltb, lt→ltb,
}
use randomshitgo_go.Prelude.Int.{ℤ, pos}
use randomshitgo_go.Process.Policy.{restart, give_up, on_exit, on_start, pick_backoff}
use randomshitgo_go.Process.Policy.Attempts.{
  IsFailure, crash-answer, Crashed, crash-Crashed, start-Crashed,
}
use randomshitgo_go.Process.Child.{
  Child, spawned, emit, set_state, start_check, start_spawn, start, clear_process, act, after_exit,
  before_respawn, settle, respawn, after_wait, state_giving_up, state_restarting,
}

-- One failure of the process: its exit code and its time, the number of the process that the restart spawns, and
-- whether the function of the reset timer ran while the failing process was there.
pub record Failure : Type 0 where
  pub code : ℤ
  pub at : ℕ
  pub pid : ℕ
  pub called_back : Bool

-- The function of the reset timer.
pub call_back : Bool → Child → Child
call_back true c = record c { policy = record c.policy { attempts = 0 } }
call_back false c = c

-- The process fails, and after the wait a new one is there.
pub fail_once : Child → Failure → Child
unfolding after_exit after_wait call_back
fail_once c f =
    after_wait false (after_exit (call_back f.called_back c) f.code "" f.at).1 (spawned f.pid) f.at

-- The child after failures, the last one first.
pub fail_times : Child → List Failure → Child
unfolding fail_once
fail_times c [] = c
fail_times c (f ∷ fs) = fail_once (fail_times c fs) f

-- The failures that count when one more comes: none if its process outlasted the reset timer.
unfoldable pub since_reset : Bool → ℕ → ℕ
since_reset true n = 0
since_reset false n = n

unfoldable pub streak : List Failure → ℕ
unfolding since_reset
streak [] = 0
streak (f ∷ fs) = suc (since_reset f.called_back (streak fs))

-- Every exit is a failure, and came when fewer than m failures counted.
abbrev pub IsLoop : ℕ → List Failure → Type 0
IsLoop m [] = Unit
IsLoop m (f ∷ fs) = IsFailure f.code × (since_reset f.called_back (streak fs) < m) × IsLoop m fs

-- What one restart makes of the child.
fail_once-fields :
    (c : Child) (f : Failure) (delay : ℤ)
    → (call_back f.called_back c).stop_requested ≡ false
    → (on_exit (call_back f.called_back c).policy f.code).0 ≡ (restart, delay)
    → ((fail_once c f).stop_requested ≡ false)
      × ((fail_once c f).policy ≡ on_start (on_exit (call_back f.called_back c).policy f.code).1)
unfolding fail_once after_wait after_exit act before_respawn respawn start start_check start_spawn
    settle clear_process set_state emit
fail_once-fields c f delay h e = rw (h, e) (refl, refl)

module _ (bs : List ℤ) (m : ℕ) where
  -- A child in the loop, with n failures that count.
  abbrev Looping : ℕ → Child → Type 0
  Looping n d = (d.stop_requested ≡ false) × Crashed bs m n d.policy

  call_back-Looping :
      (b : Bool) (n : ℕ) (d : Child) → Looping n d → Looping (since_reset b n) (call_back b d)
  unfolding call_back since_reset
  call_back-Looping true n d (h, l) =
      (h, record { mode_on = l.mode_on; limit = l.limit; delays = l.delays; counted = omega arith })
  call_back-Looping false n d l = l

  -- In the loop the counter is the number of failures that count, up to the limit.
  loop_answer :
      (n : ℕ) (d : Child) (code : ℤ)
      → IsFailure code
      → n ≤ m
      → Looping n d
      → (on_exit d.policy code).0
        ≡ (if ltb n m then (restart, pick_backoff d.policy.backoffs n) else (give_up, pos 0))
  loop_answer n d code f le (h, l) =
      let now : d.policy.attempts ≡ n = omega (arith, l.counted, le) in
      crash-answer d.policy code m f l.mode_on l.limit
      ∙ ap (λ k. if ltb k m then (restart, pick_backoff d.policy.backoffs k) else (give_up, pos 0))
          now

  next-Looping :
      (d : Child) (f : Failure) (n : ℕ)
      → IsFailure f.code
      → since_reset f.called_back n < m
      → Looping n d
      → Looping (suc (since_reset f.called_back n)) (fail_once d f)
  next-Looping d f n bad less l =
      let k = since_reset f.called_back n in
      let old : Child = call_back f.called_back d in
      let now : Looping k old = call_back-Looping f.called_back n d l in
      let e =
        fail_once-fields d f (pick_backoff old.policy.backoffs k) now.0
          (loop_answer k old f.code bad (omega (arith, less)) now ∙ rw (lt→ltb k m less) refl) in
      (
        e.0,
        rw (e.1) (
            start-Crashed bs m (suc k) (on_exit old.policy f.code).1
              (crash-Crashed bs m k old.policy f.code bad now.1)),
      )

  times-Looping :
      (c : Child) (fs : List Failure)
      → IsLoop m fs
      → Looping 0 c
      → (streak fs ≤ m) × Looping (streak fs) (fail_times c fs)
  unfolding fail_times streak
  times-Looping c [] h l = (omega arith, l)
  times-Looping c (f ∷ fs) (bad, less, h) l = (
    omega (arith, less),
    next-Looping (fail_times c fs) f (streak fs) bad less (times-Looping c fs h l).1,
  )

since_reset-le : (b : Bool) (n m : ℕ) → n ≤ m → since_reset b n ≤ m
unfolding since_reset
since_reset-le true n m h = omega arith
since_reset-le false n m h = h

-- What the goroutine makes of a failing exit.
after_failure :
    (c : Child) (code : ℤ) (sig : String) (at : ℕ) (b : Bool) (delay : ℤ)
    → c.stop_requested ≡ false
    → (on_exit c.policy code).0 ≡ (if b then (restart, delay) else (give_up, pos 0))
    → ((after_exit c code sig at).0 ≡ b)
      × ((after_exit c code sig at).1.state ≡ (if b then state_restarting else state_giving_up))
unfolding after_exit act clear_process set_state emit
after_failure c code sig at true delay h e = rw (h, e) (refl, refl)
after_failure c code sig at false delay h e = rw (h, e) (refl, refl)

-- A child that runs under "on-failure" with a limit m ≥ 0, a zero counter and no stop asked for, whose process fails
-- again and again, with any codes at any times, and is spawned again after each wait: when the process outlasts the
-- reset timer the failures before it no longer count. As long as fewer than m failures counted at each one so far,
-- the next failure makes the child "restarting" with a restart due if fewer than m
-- count, and else "giving-up" with none due.
pub failures-give-up :
    (c : Child) (m : ℕ) (fs : List Failure) (f : Failure) (sig : String)
    → IsLoop m fs
    → IsFailure f.code
    → c.stop_requested ≡ false
    → c.policy.mode ≡ "on-failure"
    → c.policy.max_attempts ≡ pos m
    → c.policy.attempts ≡ 0
    → ((after_exit (call_back f.called_back (fail_times c fs)) f.code sig f.at).0
        ≡ ltb (since_reset f.called_back (streak fs)) m)
      × ((after_exit (call_back f.called_back (fail_times c fs)) f.code sig f.at).1.state ≡ (
          if ltb (since_reset f.called_back (streak fs)) m
          then state_restarting
          else state_giving_up))
failures-give-up c m fs f sig loop bad h mode max fresh =
    let bs = c.policy.backoffs in
    let k = since_reset f.called_back (streak fs) in
    let d : Child = call_back f.called_back (fail_times c fs) in
    let (le, l) =
      times-Looping bs m c fs loop (
        h,
        record { mode_on = mode; limit = max; delays = refl; counted = omega (arith, fresh) },
      ) in
    let now : Looping bs m k d =
      call_back-Looping bs m f.called_back (streak fs) (fail_times c fs) l in
    after_failure d f.code sig f.at (ltb k m) (pick_backoff d.policy.backoffs k) now.0
      (loop_answer bs m k d f.code bad (since_reset-le f.called_back (streak fs) m le) now)
