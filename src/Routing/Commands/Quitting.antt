-- ===== src/Routing/Commands/Quitting.antt =====
-- internal/tui/handlers.go: which commands quit with a stop of all children, and which shut the daemon down.
use randomshitgo_go.Prelude.{
  ℕ, List, [], ◌∷◌, Option, none, some, Bool, true, false, not, ◌&&◌, ◌||◌, ◌≡◌, refl, ap, ◌∙◌, inl,
  inr, arith, Bool-cases, ◌==◌, if◌then◌else◌, String,
}
use randomshitgo_go.Panes.Text.{codes}
use randomshitgo_go.Routing.Commands.{
  same_bytes, command_name, named, Effect, QuitReason, quit_detach, quit_shutdown, no_effect,
  quit_now, graceful_quit, handle_quit_request, settings, first_named, with_arguments,
  dispatch_command, for_name, chosen, cut, write_buffer, not_in_daemon_mode, unknown_command,
}

-- Whether an effect is the quit that stops all children first, and whether it quits with the reason that has
-- the daemon shut down. A reload, which can stop the children of removed projects, is neither.
unfoldable pub quits_gracefully : Effect → Bool
quits_gracefully (graceful_quit reason) = true
quits_gracefully _ = false

abbrev is_shutdown : QuitReason → Bool
is_shutdown quit_shutdown = true
is_shutdown quit_detach = false

unfoldable pub shuts_down : Effect → Bool
shuts_down (graceful_quit reason) = is_shutdown reason
shuts_down (quit_now reason) = is_shutdown reason
shuts_down _ = false

unfoldable pub Harmless : Effect → Type 0
Harmless e = (quits_gracefully e ≡ false) × (shuts_down e ≡ false)

same_bytes-eq : (a b : List ℕ) → same_bytes a b ≡ true → a ≡ b
unfolding same_bytes
same_bytes-eq [] [] h = refl
same_bytes-eq [] (c ∷ cs) h = absurd (cc)
same_bytes-eq (b ∷ bs) [] h = absurd (cc)
same_bytes-eq (b ∷ bs) (c ∷ cs) h = elim (Bool-cases (b == c)) [
  | inl same ↦
      let first : b ≡ c = ground (arith, same) in
      rw first (ap (λ r. c ∷ r) (same_bytes-eq bs cs (ground (arith, h, same))))
  | inr other ↦ absurd (ground (arith, h, other))
]

-- A name that is one text is not another.
excludes :
    (name : List ℕ) (a b : String)
    → named name a ≡ true
    → named (codes a) b ≡ false
    → named name b ≡ false
excludes name a b h different = ap (λ n. named n b) (same_bytes-eq name (codes a) h) ∙ different

with_arguments-Harmless : (name : List ℕ) → Harmless (with_arguments name)
unfolding with_arguments Harmless quits_gracefully shuts_down
with_arguments-Harmless name = go (cut name)
  where
    go :
        (o : Option (List ℕ × List ℕ))
        → Harmless (elim o [
          | none ↦ unknown_command name
          | some (head, rest) ↦
              if named head "w" || named head "write"
              then write_buffer rest
              else unknown_command name
        ])
    go none = (refl, refl)
    go (some (head, rest)) = elim (Bool-cases (named head "w" || named head "write")) [
      | inl h ↦ rw h (refl, refl)
      | inr h ↦ rw h (refl, refl)
    ]

harms : Effect → Bool
harms e = quits_gracefully e || shuts_down e

any_harms : List (String × Effect) → Bool
any_harms [] = false
any_harms (c ∷ cases) = let rest = any_harms cases in harms c.1 || rest

Harmless-harms : (e : Effect) → harms e ≡ false → Harmless e
unfolding harms Harmless
Harmless-harms e h = (ground (arith, h), ground (arith, h))

first_named-Harmless :
    (name : List ℕ) (cases : List (String × Effect)) (other : Effect)
    → any_harms cases ≡ false
    → Harmless other
    → Harmless (chosen (first_named name cases) other)
unfolding first_named any_harms
first_named-Harmless name [] other none_harms h = h
first_named-Harmless name ((s, act) ∷ cases) other none_harms h = elim (Bool-cases (named name s)) [
  | inl e ↦ rw e (Harmless-harms act (ground (arith, none_harms)))
  | inr e ↦ rw e (first_named-Harmless name cases other (ground (arith, none_harms)) h)
]

settings-any_harms : any_harms settings ≡ false
unfolding settings any_harms harms quits_gracefully shuts_down
settings-any_harms = refl

-- The effect does what the two flags say.
Does : Effect → Bool → Bool → Type 0
Does e stops shuts = (quits_gracefully e ≡ stops) × (shuts_down e ≡ shuts)

quit_detach-Does : (d : Bool) → Does (handle_quit_request d quit_detach) (not d && true) false
unfolding Does handle_quit_request quits_gracefully shuts_down
quit_detach-Does true = (refl, refl)
quit_detach-Does false = (refl, refl)

detach-Does :
    (d : Bool)
    → Does
        (if d then handle_quit_request d quit_detach else not_in_daemon_mode)
        (not d && false)
        false
unfolding Does handle_quit_request quits_gracefully shuts_down
detach-Does true = (refl, refl)
detach-Does false = (refl, refl)

quit_shutdown-Does : (d : Bool) → Does (handle_quit_request d quit_shutdown) (not d && true) true
unfolding Does handle_quit_request quits_gracefully shuts_down
quit_shutdown-Does true = (refl, refl)
quit_shutdown-Does false = (refl, refl)

Harmless-Does : (d : Bool) (e : Effect) → Harmless e → Does e (not d && false) false
unfolding Does Harmless
Harmless-Does true e h = h
Harmless-Does false e h = h

no_effect-Harmless : Harmless no_effect
unfolding Harmless quits_gracefully shuts_down
no_effect-Harmless = (refl, refl)

for_name-Does :
    (d : Bool) (name : List ℕ)
    → Does
        (for_name d name)
        (not d && (named name "q" || named name "quit" || named name "shutdown"))
        (named name "shutdown")
unfolding for_name same_bytes
for_name-Does d name = elim (Bool-cases (named name "")) [
  | inl e ↦
      rw
        (
          e,
          excludes name "" "q" e refl,
          excludes name "" "quit" e refl,
          excludes name "" "shutdown" e refl,
        )
        (Harmless-Does d no_effect no_effect-Harmless)
  | inr e ↦ elim (Bool-cases (named name "q")) [
    | inl q ↦ rw (e, q, excludes name "q" "shutdown" q refl) (quit_detach-Does d)
    | inr q ↦ elim (Bool-cases (named name "quit")) [
      | inl u ↦ rw (e, q, u, excludes name "quit" "shutdown" u refl) (quit_detach-Does d)
      | inr u ↦ elim (Bool-cases (named name "detach")) [
        | inl t ↦ rw (e, q, u, t, excludes name "detach" "shutdown" t refl) (detach-Does d)
        | inr t ↦ elim (Bool-cases (named name "shutdown")) [
          | inl s ↦ rw (e, q, u, t, s) (quit_shutdown-Does d)
          | inr s ↦
              rw (e, q, u, t, s)
                (Harmless-Does d _ (
                  first_named-Harmless name settings (with_arguments name) settings-any_harms
                    (with_arguments-Harmless name)))
        ]
      ]
    ]
  ]
]

-- By the name of a command, which is its words with one space between: in the process that has the children, q,
-- quit and shutdown quit with a stop of all children and no other command does, and in a client of the daemon
-- none does; the quit reason that has the daemon shut down is given by shutdown alone, in both.
pub dispatch_command-quits :
    (detach_mode : Bool) (text : List ℕ)
    → let name = command_name text in
      (quits_gracefully (dispatch_command detach_mode text)
        ≡ (not detach_mode && (named name "q" || named name "quit" || named name "shutdown")))
      × (shuts_down (dispatch_command detach_mode text) ≡ named name "shutdown")
unfolding dispatch_command Does
dispatch_command-quits detach_mode text = for_name-Does detach_mode (command_name text)
