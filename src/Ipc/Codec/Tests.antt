-- ===== src/Ipc/Codec/Tests.antt =====
-- internal/ipc/codec.go: the theorems on two short payloads.
use randomshitgo_go.Prelude.{ℕ, ◌<◌, List, [], ◌∷◌, ◌≡◌, some, arith, length, All}
use randomshitgo_go.Ipc.Codec.{new_framed_reader, eof}
use randomshitgo_go.Ipc.Codec.Frames.{IsFrame, IsRead, stream, frames, read_all, read_all-frames}

abbrev payloads : List (List ℕ)
payloads = (1 ∷ 2 ∷ 3 ∷ []) ∷ (4 ∷ []) ∷ []

payloads-IsFrame : All IsFrame payloads
unfolding IsFrame
payloads-IsFrame = ((omega arith, omega arith), ((omega arith, omega arith), tt))

abbrev short : List ℕ
short = 4 ∷ []

stream_short : length (stream payloads) < 5
unfolding stream
stream_short = omega arith

-- Reads of different sizes, and a connection that gives now more and now less.
abbrev reads : List (ℕ × ℕ)
reads = (2, 3) ∷ (1, 1) ∷ (4, 2) ∷ (1, 3) ∷ (3, 1) ∷ []

reads-IsRead : All IsRead reads
unfolding IsRead
reads-IsRead = (
  (omega arith, omega arith),
  (
    (omega arith, omega arith),
    ((omega arith, omega arith), ((omega arith, omega arith), ((omega arith, omega arith), tt))),
  ),
)

read_all-frames_example :
    read_all reads (new_framed_reader (frames payloads)) ≡ (stream payloads, some eof)
read_all-frames_example = read_all-frames payloads reads payloads-IsFrame reads-IsRead stream_short
