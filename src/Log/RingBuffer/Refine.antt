-- ===== src/Log/RingBuffer/Refine.antt =====
-- internal/log/ringbuffer.go: a valid ring holds a list of at most `cap` items, and each operation
-- acts on that list.
use native.Mathlib.Nat.{mod-add-mod, mod-eq_of_lt, mod-eq-sub-mod, mod-mod}
use native.Mathlib.Decide.{dec_lt}
use randomshitgo_go.Prelude.{
  ℕ, zero, suc, ◌+◌, ◌-◌, ◌*◌, ◌%◌, ◌^◌, ◌≤◌, ◌<◌, List, [], ◌∷◌, ◌++◌, ◌≡◌, ◌≢◌, refl, sym, ap,
  ap₂, subst, ◌∙◌, arith, length, set, get_or, length-set, get_or-set_self, get_or-set_ne,
  keep_last, drop, length-append, ltb, ltb→lt, inl, inr, Bool-cases, length-replicate, length-map,
}
use randomshitgo_go.Prelude.Int.{ℤ}
use randomshitgo_go.Log.RingBuffer.{
  RingBuffer, new_ring_buffer, push_locked, read_from, snapshot, clear,
}

-- The storage has `cap` places, `cap` is at least 1, and the numbers are in range.
pub record IsValid {ℓ} {A : Type ℓ} (r : RingBuffer A) : Type 0 where
  pub storage : length r.buf ≡ r.cap
  pub positive : 0 < r.cap
  pub head_in : r.head < r.cap
  pub count_in : r.count ≤ r.cap
  pub gen_in : r.gen < 2 ^ 64

-- Fewer than `cap` steps round the ring do not come back to the start.
add-mod-ne : (c h k : ℕ) → h < c → 0 < k → k < c → (h + k) % c ≢ h
add-mod-ne c h k hh h0 hk = elim (dec_lt (h + k) c) [
  | yes p ↦ omega (arith, mod-eq_of_lt p)
  | no p ↦ omega (
    arith,
    mod-eq-sub-mod {n = h + k} {m = c} (omega arith),
    mod-eq_of_lt {n = h + k - c} {m = c} (omega arith),
  )
]

pub mod-ne : (c a k : ℕ) → 0 < k → k < c → (a + k) % c ≢ a % c
mod-ne c a k h0 hk =
    subst (λ x. x ≢ a % c) (mod-add-mod a c k) (add-mod-ne c (a % c) k (omega arith) h0 hk)

module _ {ℓ} {A : Type ℓ} (zero_value : A) where
  pub length-read_from :
      (buf : List A) (cap at n : ℕ) → length (read_from zero_value buf cap at n) ≡ n
  unfolding read_from
  length-read_from buf cap at zero = refl
  length-read_from buf cap at (suc n) = ap suc (length-read_from buf cap (at + 1) n)

  -- Only the start modulo `cap` matters.
  pub read_from-mod :
      (buf : List A) (cap a b n : ℕ)
      → a % cap ≡ b % cap
      → read_from zero_value buf cap a n ≡ read_from zero_value buf cap b n
  unfolding read_from
  read_from-mod buf cap a b zero e = refl
  read_from-mod buf cap a b (suc n) e = ap₂ ◌∷◌ (ap (λ i. get_or buf i zero_value) e) (
      read_from-mod buf cap (a + 1) (b + 1) n
        (sym (mod-add-mod a cap 1) ∙ ap (λ i. (i + 1) % cap) e ∙ mod-add-mod b cap 1))

  -- The last item read stands at the end.
  pub read_from-snoc :
      (buf : List A) (cap at n : ℕ)
      → read_from zero_value buf cap at (suc n)
        ≡ read_from zero_value buf cap at n ++ get_or buf ((at + n) % cap) zero_value ∷ []
  unfolding read_from
  read_from-snoc buf cap at zero = ap (λ i. get_or buf (i % cap) zero_value ∷ []) (omega arith)
  read_from-snoc buf cap at (suc n) =
      ap (λ t. get_or buf (at % cap) zero_value ∷ t)
        (read_from-snoc buf cap (at + 1) n
          ∙ ap
              (λ i. read_from zero_value buf cap (at + 1) n ++ get_or buf (i % cap) zero_value ∷ [])
              (omega arith))

  -- A write past the items read, but less than once round, changes none of them.
  pub read_from-set :
      (buf : List A) (cap at n k : ℕ) (v : A)
      → n ≤ k
      → k < cap
      → read_from zero_value (set buf ((at + k) % cap) v) cap at n
        ≡ read_from zero_value buf cap at n
  unfolding read_from
  read_from-set buf cap at zero k v h hk = refl
  read_from-set buf cap at (suc n) k v h hk =
      ap₂ ◌∷◌ (get_or-set_ne buf v zero_value (mod-ne cap at k (omega arith) hk)) (
        subst
          (λ i.
            read_from zero_value (set buf (i % cap) v) cap (at + 1) n
            ≡ read_from zero_value buf cap (at + 1) n)
          (sym e) (read_from-set buf cap (at + 1) n (k - 1) v (omega arith) (omega arith)))
    where
      e : at + k ≡ at + 1 + (k - 1)
      e = omega arith

  -- `new_ring_buffer` is valid and empty, at every argument.
  pub new_ring_buffer-IsValid : (cap : ℤ) → IsValid (new_ring_buffer zero_value cap)
  unfolding new_ring_buffer
  new_ring_buffer-IsValid cap = record {
    storage = length-replicate _ zero_value;
    positive = ground arith;
    head_in = ground arith;
    count_in = omega arith;
    gen_in = omega arith;
  }

  pub push-IsValid : {r : RingBuffer A} (v : A) → IsValid r → IsValid (push_locked zero_value r v)
  unfolding push_locked
  push-IsValid {r} v h = ground (arith, length-set r.buf ((r.head + r.count) % r.cap) v)

  -- A write just past the items read adds an item.
  pub read_from-push :
      (buf : List A) (c at n : ℕ) (v : A)
      → length buf ≡ c
      → n < c
      → read_from zero_value (set buf ((at + n) % c) v) c at (suc n)
        ≡ read_from zero_value buf c at n ++ v ∷ []
  read_from-push buf c at n v e h =
      read_from-snoc (set buf ((at + n) % c) v) c at n
      ∙ ap₂ (λ xs y. xs ++ y ∷ []) (read_from-set buf c at n n v (omega arith) h)
          (get_or-set_self buf ((at + n) % c) v zero_value (omega arith))

  -- In a full ring that place is the oldest item's.
  read_from-replace :
      (buf : List A) (c h n : ℕ) (v : A)
      → length buf ≡ c
      → n ≡ c
      → 0 < c
      → read_from zero_value (set buf ((h + n) % c) v) c ((h + 1) % c) n
        ≡ drop 1 (read_from zero_value buf c h n ++ v ∷ [])
  unfolding read_from
  read_from-replace buf c h zero v e k pos = absurd (omega arith)
  read_from-replace buf c h (suc m) v e k pos =
      read_from-mod (set buf ((h + suc m) % c) v) c ((h + 1) % c) (h + 1) (suc m)
        (mod-mod (h + 1) c)
      ∙ ap (λ i. read_from zero_value (set buf (i % c) v) c (h + 1) (suc m)) (omega arith)
      ∙ read_from-push buf c (h + 1) m v e (omega arith)

  pub length-snapshot : (r : RingBuffer A) → length (snapshot zero_value r) ≡ r.count
  unfolding snapshot
  length-snapshot r = length-read_from r.buf r.cap r.head r.count

  drop_overflow :
      (r : RingBuffer A) (v : A) (k : ℕ)
      → (r.count + 1) - r.cap ≡ k
      → drop k (snapshot zero_value r ++ v ∷ []) ≡ keep_last r.cap (snapshot zero_value r ++ v ∷ [])
  drop_overflow r v k e =
      ap (λ i. drop i (snapshot zero_value r ++ v ∷ []))
        (omega (arith, length-append (snapshot zero_value r) (v ∷ []), length-snapshot r))

  -- A push into a valid ring leaves the last `cap` of its old items and the new one.
  pub snapshot-push :
      {r : RingBuffer A} (v : A)
      → IsValid r
      → snapshot zero_value (push_locked zero_value r v)
        ≡ keep_last r.cap (snapshot zero_value r ++ v ∷ [])
  unfolding snapshot push_locked
  snapshot-push {r} v h = elim (Bool-cases (ltb r.count r.cap)) [
    | inl room ↦ rw room (
        ap (λ n. read_from zero_value (set r.buf ((r.head + r.count) % r.cap) v) r.cap r.head n)
          (omega arith)
        ∙ read_from-push r.buf r.cap r.head r.count v h.storage (omega (arith, ltb→lt _ _ room))
        ∙ drop_overflow r v 0 (omega (arith, ltb→lt _ _ room)))
    | inr full ↦ rw full (
        read_from-replace r.buf r.cap r.head r.count v h.storage (ground arith) h.positive
        ∙ drop_overflow r v 1 (ground arith))
  ]

  -- `Clear` empties the ring, which stays valid.
  pub clear-IsValid : {r : RingBuffer A} → IsValid r → IsValid (clear zero_value r)
  unfolding clear
  clear-IsValid {r} h = record {
    storage = length-map r.buf (λ _. zero_value) ∙ h.storage;
    positive = h.positive;
    head_in = h.positive;
    count_in = omega arith;
    gen_in = omega arith;
  }

  pub cap-push : (r : RingBuffer A) (v : A) → (push_locked zero_value r v).cap ≡ r.cap
  unfolding push_locked
  cap-push r v = ground arith

  -- No index leaves the storage, and no sum passes 2 * cap.
  pub in_bounds :
      {r : RingBuffer A} (i : ℕ)
      → IsValid r
      → i ≤ r.count
      → ((r.head + i) % r.cap < length r.buf) × (r.head + i < 2 * r.cap)
  in_bounds {r} i h k = omega arith
