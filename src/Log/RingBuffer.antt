-- ===== src/Log/RingBuffer.antt =====
-- internal/log/ringbuffer.go: `RingBuffer[T]`, a circular buffer that evicts its oldest item.
-- The mutex is not modelled: each method is one step. `zero_value` is Go's zero value of `T`, which
-- `make` fills the storage with. `gen`, an int64, is the bit pattern in two's complement.
-- The indices stand on ℕ: by `Refine.in_bounds` no sum passes 2 * cap. A read out of range gives
-- `zero_value` and a write out of range does nothing, where Go panics; `in_bounds` rules both out.
pub mod Refine
pub mod Bulk
mod Tests
use randomshitgo_go.Prelude.{
  ℕ, zero, suc, ◌+◌, ◌-◌, ◌%◌, ◌^◌, List, [], ◌∷◌, Option, none, some, ltb, leb, if◌then◌else◌,
  length, set, get_or, replicate, map,
}
use randomshitgo_go.Prelude.Int.{ℤ, pos, negsuc, ltb_ℤ, pos_part}

pub record RingBuffer {ℓ} (A : Type ℓ) : Type ℓ where
  pub buf : List A
  pub cap : ℕ
  pub head : ℕ
  pub count : ℕ
  pub gen : ℕ

-- int64 addition of a number that is not negative
abbrev pub add_gen : ℕ → ℕ → ℕ
add_gen g n = (g + n) % 2 ^ 64

module _ {ℓ} {A : Type ℓ} (zero_value : A) where
  pub new_ring_buffer : ℤ → RingBuffer A
  new_ring_buffer cap =
      let size = if ltb_ℤ cap (pos 1) then 1 else pos_part cap in
      record { buf = replicate size zero_value; cap = size; head = 0; count = 0; gen = 0 }

  pub push_locked : RingBuffer A → A → RingBuffer A
  push_locked r v =
      let w = (r.head + r.count) % r.cap in
      let written = set r.buf w v in
      if ltb r.count r.cap
      then record r { buf = written; count = r.count + 1; gen = add_gen r.gen 1 }
      else record r { buf = written; head = (r.head + 1) % r.cap; gen = add_gen r.gen 1 }

  pub push : RingBuffer A → A → RingBuffer A
  push r v = push_locked r v

  -- `for i := …; i < cap; i++ { buf[i] = vs[offset+i] }`, with `n` rounds to go.
  pub copy_tail : List A → ℕ → ℕ → ℕ → List A → List A
  copy_tail vs offset i zero buf = buf
  copy_tail vs offset i (suc n) buf =
      copy_tail vs offset (i + 1) n (set buf i (get_or vs (offset + i) zero_value))

  -- `for _, v := range vs { pushLocked(v) }`
  unfoldable pub push_each : RingBuffer A → List A → RingBuffer A
  push_each r [] = r
  push_each r (v ∷ vs) = push_each (push_locked r v) vs

  pub push_many : RingBuffer A → List A → RingBuffer A
  push_many r [] = r
  push_many r (v ∷ rest) =
      let vs = v ∷ rest in
      if leb r.cap (length vs)
      then record r {
        buf = copy_tail vs (length vs - r.cap) 0 r.cap r.buf;
        head = 0;
        count = r.cap;
        gen = add_gen r.gen (length vs);
      }
      else push_each r vs

  pub len : RingBuffer A → ℕ
  len r = r.count

  pub generation : RingBuffer A → ℕ
  generation r = r.gen

  -- the items at `buf[at % cap]`, `buf[(at+1) % cap]`, …, `n` of them
  pub read_from : List A → ℕ → ℕ → ℕ → List A
  read_from buf cap at zero = []
  read_from buf cap at (suc n) = get_or buf (at % cap) zero_value ∷ read_from buf cap (at + 1) n

  pub snapshot : RingBuffer A → List A
  snapshot r = read_from r.buf r.cap r.head r.count

  -- `none`: `make` panics at a negative length.
  pub tail : RingBuffer A → ℤ → Option (List A)
  tail r (pos n) =
      let m = if ltb r.count n then r.count else n in
      some (read_from r.buf r.cap (r.head + (r.count - m)) m)
  tail r (negsuc n) = none

  pub clear : RingBuffer A → RingBuffer A
  clear r = record r {
    buf = map (λ _. zero_value) r.buf;
    head = 0;
    count = 0;
    gen = add_gen r.gen 1;
  }
