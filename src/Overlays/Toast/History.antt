-- ===== src/Overlays/Toast/History.antt =====
-- internal/tui/overlays/toast.go: what the stack holds after any history.
use randomshitgo_go.Prelude.{
  ◌-◌, ◌≤◌, List, [], ◌∷◌, ◌++◌, ◌≡◌, sym, ap, ◌∙◌, arith, inl, inr, Bool-cases, ltb, length, drop,
  keep_last, keep_last-append, length-drop, append_assoc, append-nil,
}
use randomshitgo_go.Overlays.Toast.{Toast, ToastStack, max_toasts, append_toast}

items-append_toast :
    (ts : ToastStack) (t : Toast)
    → (append_toast ts t).items ≡ keep_last max_toasts (ts.items ++ t ∷ [])
unfolding append_toast
items-append_toast ts t = elim (Bool-cases (ltb max_toasts (length (ts.items ++ t ∷ [])))) [
  | inl over ↦ rw over
  | inr fits ↦ rw fits (ap (λ i. drop i (ts.items ++ t ∷ [])) {x = 0} (ground arith))
]

pub append_all : ToastStack → List Toast → ToastStack
append_all ts [] = ts
append_all ts (t ∷ more) = append_all (append_toast ts t) more

-- After any number of additions to a stack of at most five it holds the last five of the old
-- toasts and the new ones, oldest first.
pub items-append_all :
    (more : List Toast) (ts : ToastStack)
    → length ts.items ≤ max_toasts
    → (append_all ts more).items ≡ keep_last max_toasts (ts.items ++ more)
unfolding append_all
items-append_all [] ts h = sym (
    ap (keep_last max_toasts) (append-nil ts.items)
    ∙ ap (λ i. drop i ts.items) {y = 0} (omega arith))
items-append_all (t ∷ more) ts h =
    items-append_all more (append_toast ts t) (
      omega (
        arith,
        ap length (items-append_toast ts t),
        length-drop (length (ts.items ++ t ∷ []) - 5) (ts.items ++ t ∷ []),
      ))
    ∙ ap (λ xs. keep_last max_toasts (xs ++ more)) (items-append_toast ts t)
    ∙ keep_last-append max_toasts (ts.items ++ t ∷ []) more
    ∙ ap (keep_last max_toasts) (append_assoc ts.items (t ∷ []) more)
