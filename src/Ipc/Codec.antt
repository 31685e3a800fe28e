-- ===== src/Ipc/Codec.antt =====
-- internal/ipc/codec.go: length-prefixed frames. What gob makes of an envelope is a list of bytes
-- here, a parameter of every statement; the source and the sink of the bytes are lists too. A byte is a
-- number below 256. The underlying reader may answer with fewer bytes than asked for: `got` is how many.
pub mod Frames
mod Tests
use randomshitgo_go.Prelude.{
  ℕ, zero, suc, ◌+◌, ◌-◌, ◌*◌, ◌/◌, ◌%◌, ◌^◌, min, List, [], ◌∷◌, ◌++◌, Option, none, some, Bool,
  true, false, ltb, ◌==◌, if◌then◌else◌, length, take, drop,
}

-- 16 << 20
abbrev pub max_frame_size : ℕ
max_frame_size = 16 * 2 ^ 20

pub data CodecError : Type 0 where
  frame_too_large : CodecError
  zero_length_frame : CodecError
  unexpected_eof : CodecError
  eof : CodecError

pub data Result : Type 0 where
  ok : List ℕ → Result
  fail : CodecError → Result

-- `binary.BigEndian.PutUint32` of `uint32(n)`
pub put_uint32 : ℕ → List ℕ
put_uint32 n = n / 2 ^ 24 % 2 ^ 8 ∷ n / 2 ^ 16 % 2 ^ 8 ∷ n / 2 ^ 8 % 2 ^ 8 ∷ n % 2 ^ 8 ∷ []

-- `binary.BigEndian.Uint32` of the four bytes of a header
pub uint32_of : ℕ → ℕ → ℕ → ℕ → ℕ
uint32_of a b c d = a * 2 ^ 24 + b * 2 ^ 16 + c * 2 ^ 8 + d

-- `Encoder.Write` on the payload: what it sends.
pub write : List ℕ → Result
write payload =
    if ltb max_frame_size (length payload)
    then fail frame_too_large
    else ok (put_uint32 (length payload) ++ payload)

pub record FramedReader : Type 0 where
  pub r : List ℕ
  pub max : ℕ
  pub remaining : ℕ

pub new_framed_reader : List ℕ → FramedReader
new_framed_reader r = record { r = r; max = max_frame_size; remaining = 0 }

-- The header of the next frame, when none is open. A source that ends within a header is an error,
-- and the bytes it had are gone.
pub read_header : FramedReader → Option CodecError × FramedReader
read_header fr =
    if fr.remaining == 0
    then elim fr.r [
      | a ∷ b ∷ c ∷ d ∷ r ↦
          let n = uint32_of a b c d in
          if n == 0
          then (some zero_length_frame, record fr { r = r })
          else if ltb fr.max n
          then (some frame_too_large, record fr { r = r })
          else (none, record fr { r = r; remaining = n })
      | [] ↦ (some eof, fr)
      | _ ↦ (some unexpected_eof, record fr { r = [] })
    ]
    else (none, fr)

-- The rest of `Read`, with a frame open: no more than what the frame has left. An underlying reader
-- that has nothing left reports the end.
pub read_body : FramedReader → ℕ → ℕ → Result × FramedReader
read_body fr len got =
    let p = take (min (min len fr.remaining) got) fr.r in
    elim fr.r [
      | [] ↦ (fail eof, fr)
      | b ∷ r ↦ (
        ok p,
        record fr {
          r = drop (min (min len fr.remaining) got) fr.r;
          remaining = fr.remaining - length p;
        },
      )
    ]

-- `Read` into a buffer of `len` bytes, when the underlying reader gives at most `got` of them.
pub read : FramedReader → ℕ → ℕ → Result × FramedReader
unfolding read_header read_body
read fr len got =
    let (err, fr') = read_header fr in
    elim err [ some e ↦ (fail e, fr') | none ↦ read_body fr' len got ]
