-- ===== src/Process/Child/Tests.antt =====
-- internal/process/child.go: the theorems at concrete children.
use randomshitgo_go.Prelude.{[], ◌∷◌, none, some, true, false, ◌≡◌, refl, arith, if◌then◌else◌, ltb}
use randomshitgo_go.Prelude.Int.{pos, negsuc, wrap64, ◌*ℤ◌}
use randomshitgo_go.Prelude.Assoc.{lookup}
use randomshitgo_go.State.Runtime.{new_runtime_store, get}
use randomshitgo_go.State.Runtime.Shown.{shown}
use randomshitgo_go.Process.Policy.{Policy, new_policy, on_start, on_exit}
use randomshitgo_go.Process.Child.{
  Child, new_child, spawned, no_pty, start, after_exit, before_respawn, respawn, stop, stop_begin,
  stop_mark, state_idle, state_stopping, state_crashed, state_restarting, state_giving_up,
}
use randomshitgo_go.Process.Child.Life.{
  Run, Reach, here, next, starts, exits, gone, reading, delaying, Agrees, reach-Agrees,
}
use randomshitgo_go.Process.Child.Observed.{state_shown, reach-IsObserved}
use randomshitgo_go.Process.Child.Races.{
  ask_start, ask_stop, ask_all, stop-halts, stop-stuck, start-twice,
}
use randomshitgo_go.Process.Child.CrashLoop.{
  Failure, call_back, fail_times, since_reset, streak, failures-give-up,
}

-- One backoff, one attempt.
abbrev once : Policy
once = new_policy "on-failure" (pos 500 ∷ []) (pos 1) (pos 0)

abbrev fresh : Run
fresh = record { child = new_child "web" once; phase = gone }

abbrev running : Run
running = record { child = (start fresh.child (spawned 41) 1).1; phase = reading }

started : Reach fresh running
unfolding start new_child
started = next here (starts fresh (spawned 41) 1)

-- The process fails, and the restart is due.
abbrev waiting : Run
waiting = record { child = (after_exit running.child (pos 1) "" 2).1; phase = delaying }

failed : Reach fresh waiting
unfolding after_exit start new_child on_exit on_start new_policy wrap64 ◌*ℤ◌
failed = next started (exits running (pos 1) "" 2 refl)

reach-Agrees_example : Agrees waiting.child delaying
reach-Agrees_example = reach-Agrees "web" once waiting failed

reach-IsObserved_example : state_shown new_runtime_store 9 waiting.child ≡ waiting.child.state
unfolding shown new_runtime_store get lookup
reach-IsObserved_example = reach-IsObserved new_runtime_store 9 "web" once waiting refl failed

stop-halts_example :
    ((after_exit (stop running.child) (pos 1) "" 3).0 ≡ false)
    × ((after_exit (stop running.child) (pos 1) "" 3).1.state ≡ state_idle)
    × ((after_exit (stop running.child) (pos 1) "" 3).1.cmd ≡ none)
    × ((after_exit (stop running.child) (pos 1) "" 3).1.pid ≡ pos 0)
stop-halts_example = stop-halts running.child (pos 1) "" 3

abbrev raced : Child
raced =
    stop_mark (stop_begin running.child).0 (after_exit (stop_begin running.child).1 (pos 0) "" 3).1

stop-stuck_example :
    ((ask_all raced (ask_start (spawned 42) 4 ∷ ask_stop ∷ [])).state ≡ state_stopping)
    × ((ask_all raced (ask_start (spawned 42) 4 ∷ ask_stop ∷ [])).cmd ≡ none)
unfolding start new_child
stop-stuck_example =
    stop-stuck running.child 41 (pos 0) "" 3 (ask_start (spawned 42) 4 ∷ ask_stop ∷ []) refl

abbrev gap : Child
gap = respawn (start (before_respawn waiting.child) (spawned 42) 4).1 no_pty 4

start-twice_example :
    (gap.state ≡ state_crashed)
    × (gap.cmd ≡ some 42)
    × ((start gap (spawned 43) 4).0 ≡ none)
    × ((start gap (spawned 43) 4).1.cmd ≡ some 43)
start-twice_example = start-twice waiting.child 42 43 no_pty 4

-- A run that outlasted the reset timer, after one that failed at once, and then a second failure at once.
abbrev early : Failure
early = record { code = negsuc 0; at = 5; pid = 42; called_back = false }

abbrev late : Failure
late = record { code = pos 1; at = 90; pid = 43; called_back = true }

abbrev soon : Failure
soon = record { code = pos 2; at = 91; pid = 44; called_back = false }

failures-give-up_example :
    ((after_exit (call_back false (fail_times running.child (late ∷ early ∷ []))) (pos 2) "" 91).0
      ≡ ltb 1 1)
    × ((after_exit
          (call_back false (fail_times running.child (late ∷ early ∷ [])))
          (pos 2)
          ""
          91).1.state
        ≡ (if ltb 1 1 then state_restarting else state_giving_up))
unfolding start new_child on_start new_policy wrap64 ◌*ℤ◌ streak since_reset
failures-give-up_example =
    failures-give-up running.child 1 (late ∷ early ∷ []) soon ""
      ((λ e. cc), omega arith, ((λ e. cc), omega arith, tt)) (λ e. cc) refl refl refl refl
