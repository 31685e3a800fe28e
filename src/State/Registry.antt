-- ===== src/State/Registry.antt =====
-- internal/state/registry.go: `Registry`, a log pipeline per project, made at its first use.
-- Parameters: `decode` and `strip` are log.DecodeForRender and log.StripANSI, which stand on
-- internal/log/ansi.go; `opens` says of which project a rotator is made, which depends on the log
-- directory and on the file system. A rotator is what has been written to it, write by write.
pub mod Pipeline
mod Tests
use randomshitgo_go.Prelude.{
  ℕ, List, [], ◌∷◌, ◌++◌, Option, none, some, Bool, true, false, if◌then◌else◌, String,
}
use randomshitgo_go.Prelude.Int.{ℤ, pos, ltb_ℤ}
use randomshitgo_go.Prelude.Assoc.{Assoc, lookup, insert}
use randomshitgo_go.Log.Line.{Line}
use randomshitgo_go.Log.LineBuffer.{LineBuffer, new_line_buffer, feed}
use randomshitgo_go.Log.RingBuffer.{RingBuffer, new_ring_buffer, push_locked, clear}

-- Go's zero value of a line, which an empty slot of a ring holds.
abbrev pub zero_line : Line
zero_line = record { bytes = []; rendered = []; is_partial = false; timestamp = 0 }

pub record Entry : Type 0 where
  pub ring : RingBuffer Line
  pub rot : Option (List (List ℕ))
  pub line : LineBuffer

pub record Registry : Type 0 where
  pub m : Assoc Entry
  pub log_buffer_lines : ℤ

pub new_registry : ℤ → Registry
new_registry log_buffer_lines = record { m = []; log_buffer_lines = log_buffer_lines }

-- The capacity of a new ring.
abbrev pub ring_capacity : ℤ → ℤ
ring_capacity lines = if ltb_ℤ (pos 0) lines then lines else pos 1000

module _ (opens : String → Bool) where
  pub new_entry : ℤ → String → Entry
  new_entry lines id = record {
    ring = new_ring_buffer zero_line (ring_capacity lines);
    rot = if opens id then some [] else none;
    line = new_line_buffer (pos 0);
  }

  -- What `Get` returns; it also stores a new entry.
  pub get : Registry → String → Entry
  get r id = elim (lookup id r.m) [ some e ↦ e | none ↦ new_entry r.log_buffer_lines id ]

module _ (decode strip : List ℕ → List ℕ) where
  abbrev pub render : Line → Line
  render l = record l { rendered = decode l.bytes }

  pub write_rot : Option (List (List ℕ)) → Line → Option (List (List ℕ))
  write_rot none l = none
  write_rot (some written) l = some (written ++ (strip l.bytes ++ 0x0a ∷ []) ∷ [])

  -- One round of the loop in `WriteRaw`.
  pub write_line : Entry → Line → Entry
  unfolding write_rot
  write_line e l = record e {
    ring = push_locked zero_line e.ring (render l);
    rot = write_rot e.rot l;
  }

  pub write_lines : Entry → List Line → Entry
  write_lines e [] = e
  write_lines e (l ∷ ls) = write_lines (write_line e l) ls

  -- `WriteRaw` on the entry.
  pub write_entry : Entry → List ℕ → ℕ → Entry
  unfolding write_lines
  write_entry e b now =
      let (lines, line) = feed e.line b now in write_lines (record e { line = line }) lines

  pub write_raw : (String → Bool) → Registry → String → List ℕ → ℕ → Registry
  unfolding get write_entry
  write_raw opens r id b now = record r { m = insert id (write_entry (get opens r id) b now) r.m }

-- Only an entry that is there is cleared; its rotator keeps what it has.
pub clear_buffer : Registry → String → Registry
clear_buffer r id = elim (lookup id r.m) [
  | none ↦ r
  | some e ↦ record r { m = insert id (record e { ring = clear zero_line e.ring }) r.m }
]
