-- ===== src/Log/RingBuffer/Bulk.antt =====
-- internal/log/ringbuffer.go: `PushMany` with its shortcut for long batches, `Tail`, `Clear`, and the
-- generation counter that subscribers compare.
use native.Mathlib.Nat.{mod-add-mod, mod-eq_of_lt, add-zero}
use Prim.Native.Nat.add
use native.Mathlib.Decide.{ℕ_discrete}
use randomshitgo_go.Prelude.{
  ℕ, zero, suc, ◌+◌, ◌-◌, ◌%◌, ◌^◌, ◌≤◌, ◌<◌, List, [], ◌∷◌, ◌++◌, some, ◌≡◌, ◌≢◌, refl, sym, ap,
  ap₂, subst, ◌∙◌, arith, length, set, get_or, length-set, get_or-set_self, get_or-set_ne,
  keep_last, keep_last-append, drop, drop-cons, drop_past, drop_all, length-append, ltb, leb,
  ltb→lt, leb→le, inl, inr, Bool-cases, append_assoc, append-nil,
}
use randomshitgo_go.Prelude.Int.{pos}
use randomshitgo_go.Log.RingBuffer.{
  RingBuffer, add_gen, push_locked, push_each, push_many, copy_tail, read_from, snapshot, clear,
  tail,
}
use randomshitgo_go.Log.RingBuffer.Refine.{
  IsValid, push-IsValid, snapshot-push, cap-push, length-snapshot,
}

module _ {ℓ} {A : Type ℓ} (zero_value : A) where
  snapshot_all :
      {r : RingBuffer A}
      → IsValid r
      → keep_last r.cap (snapshot zero_value r ++ []) ≡ snapshot zero_value r
  snapshot_all {r} h =
      ap (keep_last r.cap) (append-nil (snapshot zero_value r))
      ∙ ap (λ i. drop i (snapshot zero_value r)) {y = 0}
          (omega (arith, length-snapshot zero_value r))

  pub push_each-IsValid :
      (vs : List A) {r : RingBuffer A} → IsValid r → IsValid (push_each zero_value r vs)
  unfolding push_each
  push_each-IsValid [] h = h
  push_each-IsValid (v ∷ vs) h = push_each-IsValid vs (push-IsValid zero_value v h)

  pub cap-push_each : (vs : List A) (r : RingBuffer A) → (push_each zero_value r vs).cap ≡ r.cap
  unfolding push_each
  cap-push_each [] r = refl
  cap-push_each (v ∷ vs) r = cap-push_each vs (push_locked zero_value r v) ∙ cap-push zero_value r v

  pub snapshot-push_each :
      (vs : List A) {r : RingBuffer A}
      → IsValid r
      → snapshot zero_value (push_each zero_value r vs)
        ≡ keep_last r.cap (snapshot zero_value r ++ vs)
  unfolding push_each
  snapshot-push_each [] {r} h = sym (snapshot_all h)
  snapshot-push_each (v ∷ vs) {r} h =
      snapshot-push_each vs (push-IsValid zero_value v h)
      ∙ ap₂ (λ c xs. keep_last c (xs ++ vs)) (cap-push zero_value r v)
          (snapshot-push zero_value v h)
      ∙ keep_last-append r.cap (snapshot zero_value r ++ v ∷ []) vs
      ∙ ap (keep_last r.cap) (append_assoc (snapshot zero_value r) (v ∷ []) vs)

  gen-push_locked : (r : RingBuffer A) (v : A) → (push_locked zero_value r v).gen ≡ add_gen r.gen 1
  unfolding push_locked
  gen-push_locked r v = ground arith

  pub gen-push_each :
      (vs : List A) (r : RingBuffer A)
      → r.gen < 2 ^ 64
      → (push_each zero_value r vs).gen ≡ add_gen r.gen (length vs)
  unfolding push_each
  gen-push_each [] r h = sym (ap (λ i. i % 2 ^ 64) (add-zero r.gen) ∙ mod-eq_of_lt h)
  gen-push_each (v ∷ vs) r h =
      gen-push_each vs (push_locked zero_value r v) (rw (gen-push_locked r v) (omega arith))
      ∙ ap (λ g. add_gen g (length vs)) (gen-push_locked r v)
      ∙ mod-add-mod (r.gen + 1) (2 ^ 64) (length vs)
      ∙ ap (λ i. i % 2 ^ 64) (omega arith)

  length-copy_tail :
      (vs : List A) (offset i n : ℕ) (buf : List A)
      → length (copy_tail zero_value vs offset i n buf) ≡ length buf
  unfolding copy_tail
  length-copy_tail vs offset i zero buf = refl
  length-copy_tail vs offset i (suc n) buf =
      length-copy_tail vs offset (i + 1) n (set buf i (get_or vs (offset + i) zero_value))
      ∙ length-set buf i (get_or vs (offset + i) zero_value)

  copy_tail_below :
      (vs : List A) (offset i n : ℕ) (buf : List A) (j : ℕ)
      → j < i
      → get_or (copy_tail zero_value vs offset i n buf) j zero_value ≡ get_or buf j zero_value
  unfolding copy_tail
  copy_tail_below vs offset i zero buf j h = refl
  copy_tail_below vs offset i (suc n) buf j h =
      copy_tail_below vs offset (i + 1) n (set buf i (get_or vs (offset + i) zero_value)) j
        (omega arith)
      ∙ get_or-set_ne buf (get_or vs (offset + i) zero_value) zero_value (omega arith)

  -- The loop copies the places that it passes.
  copy_tail_within :
      (vs : List A) (offset i n : ℕ) (buf : List A) (j : ℕ)
      → i + n ≤ length buf
      → i ≤ j
      → j < i + n
      → get_or (copy_tail zero_value vs offset i n buf) j zero_value
        ≡ get_or vs (offset + j) zero_value
  unfolding copy_tail
  copy_tail_within vs offset i zero buf j s h k = absurd (omega arith)
  copy_tail_within vs offset i (suc n) buf j s h k = elim (ℕ_discrete i j) [
    | yes e ↦
        copy_tail_below vs offset (i + 1) n written j (omega arith)
        ∙ subst (λ x. get_or (set buf i v) x zero_value ≡ get_or vs (offset + x) zero_value) e
            (get_or-set_self buf i v zero_value (omega arith))
    | no ne ↦
        copy_tail_within vs offset (i + 1) n written j (omega (arith, length-set buf i v))
          (omega arith) (omega arith)
  ]
    where
      v : A
      v = get_or vs (offset + i) zero_value

      written : List A
      written = set buf i v

  -- A ring whose places hold the end of `vs` reads as the end of `vs`.
  read_from-drop :
      (buf vs : List A) (c offset at n : ℕ)
      → ((j : ℕ) → j < c → get_or buf j zero_value ≡ get_or vs (offset + j) zero_value)
      → at + n ≤ c
      → offset + at + n ≡ length vs
      → read_from zero_value buf c at n ≡ drop (offset + at) vs
  unfolding read_from
  read_from-drop buf vs c offset at zero same h e = sym (drop_all vs (offset + at) (omega arith))
  read_from-drop buf vs c offset at (suc n) same h e =
      ap₂ ◌∷◌
        (ap (λ i. get_or buf i zero_value) (mod-eq_of_lt (omega arith)) ∙ same at (omega arith))
        (read_from-drop buf vs c offset (at + 1) n same (omega arith) (omega arith)
          ∙ ap (λ i. drop i vs) {y = suc (offset + at)} (omega arith))
      ∙ sym (drop-cons (offset + at) vs zero_value (omega arith))

  copied : (vs : List A) (buf : List A) (c : ℕ) → List A
  copied vs buf c = copy_tail zero_value vs (length vs - c) 0 c buf

  read_copied :
      (xs vs buf : List A) (c : ℕ)
      → length buf ≡ c
      → c ≤ length vs
      → read_from zero_value (copied vs buf c) c 0 c ≡ keep_last c (xs ++ vs)
  unfolding copied
  read_copied xs vs buf c e h =
      read_from-drop (copied vs buf c) vs c (length vs - c) 0 c
        (λ j hj.
          copy_tail_within vs (length vs - c) 0 c buf j (omega arith) (omega arith) (omega arith))
        (omega arith) (omega arith)
      ∙ ap (λ i. drop i vs) (omega arith)
      ∙ sym (drop_past xs vs (length vs - c))
      ∙ ap (λ i. drop i (xs ++ vs)) (omega (arith, length-append xs vs))

  -- What a caller sees of a ring.
  abbrev pub View : Type ℓ
  View = List A × ℕ × ℕ × ℕ

  pub view : RingBuffer A → View
  view r = (snapshot zero_value r, r.count, r.cap, r.gen)

  pub push_many-IsValid :
      (vs : List A) {r : RingBuffer A} → IsValid r → IsValid (push_many zero_value r vs)
  unfolding push_many
  push_many-IsValid [] h = h
  push_many-IsValid (v ∷ vs) {r} h = elim (Bool-cases (leb r.cap (length (v ∷ vs)))) [
    | inl long ↦ rw long (record {
      storage = length-copy_tail (v ∷ vs) (length (v ∷ vs) - r.cap) 0 r.cap r.buf ∙ h.storage;
      positive = h.positive;
      head_in = h.positive;
      count_in = omega arith;
      gen_in = omega arith;
    })
    | inr short ↦ rw short (push_each-IsValid (v ∷ vs) h)
  ]

  -- After `PushMany` a valid ring holds the last `cap` of its old items and the batch, on both
  -- paths.
  pub snapshot-push_many :
      (vs : List A) {r : RingBuffer A}
      → IsValid r
      → snapshot zero_value (push_many zero_value r vs)
        ≡ keep_last r.cap (snapshot zero_value r ++ vs)
  unfolding push_many
  snapshot-push_many [] h = sym (snapshot_all h)
  snapshot-push_many (v ∷ vs) {r} h = elim (Bool-cases (leb r.cap (length (v ∷ vs)))) [
    | inl long ↦ rw long (
        unfold snapshot copied in
        read_copied (snapshot zero_value r) (v ∷ vs) r.buf r.cap h.storage (leb→le _ _ long))
    | inr short ↦ rw short (snapshot-push_each (v ∷ vs) h)
  ]

  cap-push_many : (vs : List A) (r : RingBuffer A) → (push_many zero_value r vs).cap ≡ r.cap
  unfolding push_many
  cap-push_many [] r = refl
  cap-push_many (v ∷ vs) r = elim (Bool-cases (leb r.cap (length (v ∷ vs)))) [
    | inl long ↦ rw long
    | inr short ↦ rw short (cap-push_each (v ∷ vs) r)
  ]

  pub gen-push_many :
      (vs : List A) (r : RingBuffer A)
      → r.gen < 2 ^ 64
      → (push_many zero_value r vs).gen ≡ add_gen r.gen (length vs)
  unfolding push_many
  gen-push_many [] r h = sym (ap (λ i. i % 2 ^ 64) (add-zero r.gen) ∙ mod-eq_of_lt h)
  gen-push_many (v ∷ vs) r h = elim (Bool-cases (leb r.cap (length (v ∷ vs)))) [
    | inl long ↦ rw long
    | inr short ↦ rw short (gen-push_each (v ∷ vs) r h)
  ]

  -- `PushMany` cannot be told from pushing the items one by one: the snapshot, the count, the
  -- capacity and the generation of a valid ring come out the same.
  pub push_many-eq-push_each :
      (vs : List A) (r : RingBuffer A)
      → IsValid r
      → view (push_many zero_value r vs) ≡ view (push_each zero_value r vs)
  unfolding view
  push_many-eq-push_each vs r h = cc (
    same,
    sym (length-snapshot zero_value (push_many zero_value r vs))
        ∙ ap length same
        ∙ length-snapshot zero_value (push_each zero_value r vs),
    cap-push_many vs r,
    cap-push_each vs r,
    gen-push_many vs r h.gen_in,
    gen-push_each vs r h.gen_in,
  )
    where
      same :
          snapshot zero_value (push_many zero_value r vs)
          ≡ snapshot zero_value (push_each zero_value r vs)
      same = snapshot-push_many vs h ∙ sym (snapshot-push_each vs h)

  read_from-add :
      (buf : List A) (c at k m : ℕ)
      → read_from zero_value buf c (at + k) m ≡ drop k (read_from zero_value buf c at (k + m))
  unfolding read_from
  read_from-add buf c at zero m = ap₂ (read_from zero_value buf c) (omega arith) (omega arith)
  read_from-add buf c at (suc k) m =
      ap (λ i. read_from zero_value buf c i m) (omega arith)
      ∙ read_from-add buf c (at + 1) k m
      ∙ sym (ap (λ n. drop (suc k) (read_from zero_value buf c at n)) (add.suc k m))

  tail_lem :
      (r : RingBuffer A) (m : ℕ)
      → m ≤ r.count
      → read_from zero_value r.buf r.cap (r.head + (r.count - m)) m
        ≡ drop (r.count - m) (snapshot zero_value r)
  unfolding snapshot
  tail_lem r m h =
      read_from-add r.buf r.cap r.head (r.count - m) m
      ∙ ap (λ n. drop (r.count - m) (read_from zero_value r.buf r.cap r.head n)) (omega arith)

  -- `Tail(n)` with n ≥ 0 is the last n items of `Snapshot()`, or all of them if there are fewer.
  pub tail-snapshot :
      (r : RingBuffer A) (n : ℕ)
      → tail zero_value r (pos n) ≡ some (keep_last n (snapshot zero_value r))
  unfolding tail
  tail-snapshot r n = elim (Bool-cases (ltb r.count n)) [
    | inl more ↦ rw more (
        ap some (
          tail_lem r r.count (omega arith)
          ∙ ap (λ i. drop i (snapshot zero_value r))
              (omega (arith, ltb→lt _ _ more, length-snapshot zero_value r))))
    | inr fewer ↦ rw fewer (
        ap some (
          tail_lem r n (ground arith)
          ∙ ap (λ i. drop i (snapshot zero_value r)) (omega (arith, length-snapshot zero_value r))))
  ]

  -- Each change of a valid ring shows in its generation: `Push`, `Clear`, and `PushMany` of a batch
  -- that is not empty and is shorter than 2^64.
  pub gen_changes :
      (r : RingBuffer A) (v : A) (vs : List A)
      → IsValid r
      → 0 < length vs
      → length vs < 2 ^ 64
      → ((push_locked zero_value r v).gen ≢ r.gen)
        × ((clear zero_value r).gen ≢ r.gen)
        × ((push_many zero_value r vs).gen ≢ r.gen)
  unfolding clear
  gen_changes r v vs h some_item short = (
    omega (arith, gen-push_locked r v, h.gen_in),
    omega (arith, h.gen_in),
    omega (arith, gen-push_many vs r h.gen_in, h.gen_in),
  )
