-- ===== src/Process/Policy/Attempts.antt =====
-- internal/process/restart.go: how often a crash loop restarts, how long it waits, and the bound on
-- the attempt counter whatever timers do.
use randomshitgo_go.Prelude.{
  ℕ, zero, suc, ◌+◌, ◌≤◌, min, List, [], ◌∷◌, Bool, ◌≡◌, ◌≢◌, refl, ap, subst, ◌∙◌, inl, inr, arith,
  leb, ltb, ltb→lt, if◌then◌else◌, length, get_or, if_either, eq_iff, Bool-cases,
}
use randomshitgo_go.Prelude.Int.{ℤ, pos, negsuc, pos_part, ltb_ℤ}
use randomshitgo_go.Process.Policy.{
  Action, restart, give_up, Policy, on_start, on_exit, pick_backoff, manual_restart, stop, World,
  Step, Reach, here, next, starts, exits, restarts, stops, fire, run_callback,
}

-- The n-th delay of a crash loop: the backoffs in turn, and then the last one again and again.
pub backoff_at : List ℤ → ℕ → ℤ
backoff_at [] n = pos 0
backoff_at (b ∷ []) n = b
backoff_at (b ∷ c ∷ bs) zero = b
backoff_at (b ∷ c ∷ bs) (suc n) = backoff_at (c ∷ bs) n

backoff_at-get_or :
    (b : ℤ) (bs : List ℤ) (n : ℕ)
    → backoff_at (b ∷ bs) n ≡ get_or (b ∷ bs) (min n (length bs)) (pos 0)
unfolding backoff_at
backoff_at-get_or b [] n = ap (λ i. get_or (b ∷ []) i (pos 0)) {x = 0} (omega arith)
backoff_at-get_or b (c ∷ bs) zero = ap (λ i. get_or (b ∷ c ∷ bs) i (pos 0)) {x = 0} (omega arith)
backoff_at-get_or b (c ∷ bs) (suc n) =
    backoff_at-get_or c bs n
    ∙ ap (λ i. get_or (b ∷ c ∷ bs) i (pos 0)) {x = suc (min n (length bs))} (omega arith)

pick_backoff-eq-backoff_at : (bs : List ℤ) (n : ℕ) → pick_backoff bs n ≡ backoff_at bs n
unfolding pick_backoff
pick_backoff-eq-backoff_at [] n = unfold backoff_at in ground arith
pick_backoff-eq-backoff_at (b ∷ bs) n = elim (Bool-cases (leb (suc (length bs)) n)) [
  | inl e ↦ rw e (ground (arith, backoff_at-get_or b bs n))
  | inr e ↦ rw e (ground (arith, backoff_at-get_or b bs n))
]

abbrev answer_with : Bool → ℤ → Action × ℤ
answer_with again delay = if again then (restart, delay) else (give_up, pos 0)

-- The answer to the n-th failing exit (from 0) of a crash loop with limit `m`.
abbrev pub nth_reply : List ℤ → ℕ → ℕ → Action × ℤ
nth_reply bs m n = if ltb n m then (restart, backoff_at bs n) else (give_up, pos 0)

nth_reply-min : (bs : List ℤ) (m n a : ℕ) → a ≡ min n m → nth_reply bs m a ≡ nth_reply bs m n
nth_reply-min bs m n a e = elim (Bool-cases (ltb n m)) [
  | inl more ↦ ap (nth_reply bs m) (omega (arith, e, ltb→lt _ _ more))
  | inr done ↦ ground (arith, e)
]

-- n failing exits in a row.
unfoldable pub crashes : ℤ → ℕ → Policy → Policy
crashes code zero p = p
crashes code (suc n) p = crashes code n (on_exit p code).1

abbrev pub IsFailure : ℤ → Type 0
IsFailure code = code ≢ pos 0

crash-fields :
    (p : Policy) (code : ℤ)
    → ((on_exit p code).1.mode ≡ p.mode)
      × ((on_exit p code).1.backoffs ≡ p.backoffs)
      × ((on_exit p code).1.max_attempts ≡ p.max_attempts)
unfolding on_exit
crash-fields p code = ground arith

-- Each failing exit under "on-failure" counts, until `MaxAttempts`.
crash-attempts :
    (p : Policy) (code : ℤ) (m : ℕ)
    → IsFailure code
    → p.mode ≡ "on-failure"
    → p.max_attempts ≡ pos m
    → (on_exit p code).1.attempts ≡ (if ltb p.attempts m then p.attempts + 1 else p.attempts)
unfolding on_exit
crash-attempts p (pos zero) m f mode max = absurd (f refl)
crash-attempts p (pos (suc k)) m f mode max =
    rw ((eq_iff p.mode "on-failure").1 mode, max) (ground arith)
crash-attempts p (negsuc k) m f mode max =
    rw ((eq_iff p.mode "on-failure").1 mode, max) (ground arith)

pub crash-answer :
    (p : Policy) (code : ℤ) (m : ℕ)
    → IsFailure code
    → p.mode ≡ "on-failure"
    → p.max_attempts ≡ pos m
    → (on_exit p code).0 ≡ (
        if ltb p.attempts m
        then (restart, pick_backoff p.backoffs p.attempts)
        else (give_up, pos 0))
unfolding on_exit
crash-answer p (pos zero) m f mode max = absurd (f refl)
crash-answer p (pos (suc k)) m f mode max =
    rw ((eq_iff p.mode "on-failure").1 mode, max) (ground arith)
crash-answer p (negsuc k) m f mode max =
    rw ((eq_iff p.mode "on-failure").1 mode, max) (ground arith)

-- A policy in the middle of a crash loop that began with `bs`.
pub record Crashed (bs : List ℤ) (m : ℕ) (a : ℕ) (p : Policy) : Type 0 where
  pub mode_on : p.mode ≡ "on-failure"
  pub limit : p.max_attempts ≡ pos m
  pub delays : p.backoffs ≡ bs
  pub counted : p.attempts ≡ min a m

pub crash-Crashed :
    (bs : List ℤ) (m a : ℕ) (p : Policy) (code : ℤ)
    → IsFailure code
    → Crashed bs m a p
    → Crashed bs m (suc a) (on_exit p code).1
crash-Crashed bs m a p code f c =
    let (same_mode, same_delays, same_limit) = crash-fields p code in
    record {
      mode_on = same_mode ∙ c.mode_on;
      limit = same_limit ∙ c.limit;
      delays = same_delays ∙ c.delays;
      counted = ground (arith, crash-attempts p code m f c.mode_on c.limit, c.counted);
    }

pub start-Crashed :
    (bs : List ℤ) (m a : ℕ) (p : Policy) → Crashed bs m a p → Crashed bs m a (on_start p)
unfolding on_start
start-Crashed bs m a p c =
    if_either (Crashed bs m a) (ltb_ℤ (pos 0) p.reset_after)
      (record { mode_on = c.mode_on; limit = c.limit; delays = c.delays; counted = c.counted })
      (record { mode_on = c.mode_on; limit = c.limit; delays = c.delays; counted = c.counted })

crashes-Crashed :
    (bs : List ℤ) (m a n : ℕ) (p : Policy) (code : ℤ)
    → IsFailure code
    → Crashed bs m a p
    → Crashed bs m (a + n) (crashes code n p)
unfolding crashes
crashes-Crashed bs m a zero p code f c = record {
  mode_on = c.mode_on;
  limit = c.limit;
  delays = c.delays;
  counted = omega (arith, c.counted);
}
crashes-Crashed bs m a (suc n) p code f c =
    let later =
      crashes-Crashed bs m (suc a) n (on_exit p code).1 code f (crash-Crashed bs m a p code f c) in
    record {
      mode_on = later.mode_on;
      limit = later.limit;
      delays = later.delays;
      counted = omega (arith, later.counted);
    }

-- A process that keeps failing is restarted `MaxAttempts` times, the n-th time (from 0) with the
-- n-th backoff, or the last one if there are fewer; then the policy gives up, at each further exit.
-- It starts from a zero counter under "on-failure" with a limit m ≥ 0, and nothing comes between
-- the exits.
pub crash_loop :
    (p : Policy) (code : ℤ) (m n : ℕ)
    → IsFailure code
    → p.mode ≡ "on-failure"
    → p.max_attempts ≡ pos m
    → p.attempts ≡ 0
    → (on_exit (crashes code n p) code).0 ≡ nth_reply p.backoffs m n
crash_loop p code m n f mode max fresh =
    crash-answer q code m f c.mode_on c.limit
    ∙ ap (answer_with (ltb q.attempts m)) (
        ap (λ bs. pick_backoff bs q.attempts) c.delays
        ∙ pick_backoff-eq-backoff_at p.backoffs q.attempts)
    ∙ nth_reply-min p.backoffs m n q.attempts c.counted
  where
    q : Policy
    q = crashes code n p

    start : Crashed p.backoffs m 0 p
    start = record { mode_on = mode; limit = max; delays = refl; counted = omega (arith, fresh) }

    c : Crashed p.backoffs m n q
    c =
        subst (λ a. Crashed p.backoffs m a q) {x = 0 + n} (omega arith)
          (crashes-Crashed p.backoffs m 0 n p code f start)

-- The counter is within `MaxAttempts`, or zero.
abbrev pub IsBounded : World → Type 0
IsBounded w = w.policy.attempts ≤ pos_part w.policy.max_attempts

Step-IsBounded : {v w : World} → Step v w → IsBounded v → IsBounded w
unfolding on_start on_exit manual_restart stop
Step-IsBounded (starts w) h = ground arith
Step-IsBounded (exits w code) h = ground arith
Step-IsBounded (restarts w) h = omega arith
Step-IsBounded (stops w) h = h
Step-IsBounded (fire w e) h = h
Step-IsBounded (run_callback w n e) h = omega arith

-- Whatever starts, exits, restarts, stops and timers happen, in any order, the counter never passes
-- `MaxAttempts`, if it did not at first.
pub Reach-IsBounded : {v w : World} → IsBounded v → Reach v w → IsBounded w
Reach-IsBounded h here = h
Reach-IsBounded h (next r s) = Step-IsBounded s (Reach-IsBounded h r)
