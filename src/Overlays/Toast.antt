-- ===== src/Overlays/Toast.antt =====
-- internal/tui/overlays/toast.go: `ToastStack`, at most five notifications. The clock's answer is an
-- argument; times and durations are integers. `View` is drawing and is not modelled.
pub mod History
use randomshitgo_go.Prelude.{
  ℕ, ◌-◌, ◌*◌, List, [], ◌∷◌, ◌++◌, Option, none, some, Bool, true, false, ltb, if◌then◌else◌,
  length, drop, get_elem?, get_or,
}
use randomshitgo_go.Prelude.Int.{ℤ, pos, ◌+ℤ◌, ltb_ℤ}

abbrev pub toast_info : ℕ
toast_info = 0

abbrev pub toast_warn : ℕ
toast_warn = 1

abbrev pub toast_err : ℕ
toast_err = 2

abbrev pub max_toasts : ℕ
max_toasts = 5

-- 3 s
abbrev pub default_toast_ttl : ℤ
default_toast_ttl = pos (3 * 1000000000)

pub record Toast : Type 0 where
  pub text : List ℕ
  pub level : ℕ
  pub expires_at : ℤ

pub record ToastStack : Type 0 where
  pub items : List Toast

-- `append`, and the cut to the last `max_toasts`.
pub append_toast : ToastStack → Toast → ToastStack
append_toast ts t =
    let items = ts.items ++ t ∷ [] in
    if ltb max_toasts (length items)
    then record ts { items = drop (length items - max_toasts) items }
    else record ts { items = items }

pub add_with_ttl : ToastStack → List ℕ → ℕ → ℤ → ℤ → ToastStack
unfolding append_toast
add_with_ttl ts text level ttl now =
    append_toast ts (record { text = text; level = level; expires_at = now +ℤ ttl })

pub add : ToastStack → List ℕ → ℕ → ℤ → ToastStack
unfolding append_toast
add ts text level now =
    append_toast ts (record { text = text; level = level; expires_at = now +ℤ default_toast_ttl })

-- `t.ExpiresAt.After(now)`
abbrev pub is_live : ℤ → Toast → Bool
is_live now t = ltb_ℤ now t.expires_at

pub keep_live : ℤ → List Toast → List Toast
keep_live now [] = []
keep_live now (t ∷ ts) = let kept = keep_live now ts in if is_live now t then t ∷ kept else kept

pub prune : ToastStack → ℤ → ToastStack
unfolding keep_live
prune ts now = record ts { items = keep_live now ts.items }

pub len : ToastStack → ℕ
len ts = length ts.items

pub last : ToastStack → Option Toast
last ts = get_elem? ts.items (length ts.items - 1)
