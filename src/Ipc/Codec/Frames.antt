-- ===== src/Ipc/Codec/Frames.antt =====
-- internal/ipc/codec.go: the bytes that come out of the frames are the bytes that went in.
use randomshitgo_go.Prelude.{
  ℕ, ◌/◌, ◌%◌, ◌≤◌, ◌<◌, ◌^◌, min, List, [], ◌∷◌, ◌++◌, Option, none, some, true, false, ◌≡◌, ◌≢◌,
  subst, refl, sym, ap, ◌∙◌, arith, ltb, ◌==◌, inl, inr, Bool-cases, length, take, drop,
  length-append, length-take, length-drop, take-append, drop-append, take-append-drop, take_all,
  drop_all, leb, append_assoc, append-nil, All,
}
use randomshitgo_go.Ipc.Codec.{
  FramedReader, CodecError, new_framed_reader, read_header, read_body, read, write, put_uint32,
  uint32_of, max_frame_size, ok, fail, frame_too_large, eof,
}

uint32_of-bytes :
    (n : ℕ)
    → n < 2 ^ 32
    → uint32_of (n / 2 ^ 24 % 2 ^ 8) (n / 2 ^ 16 % 2 ^ 8) (n / 2 ^ 8 % 2 ^ 8) (n % 2 ^ 8) ≡ n
unfolding uint32_of
uint32_of-bytes n h = omega arith

-- The payloads one after the other, and the frames that carry them.
unfoldable pub stream : List (List ℕ) → List ℕ
stream [] = []
stream (p ∷ ps) = p ++ stream ps

pub frames : List (List ℕ) → List ℕ
frames [] = []
frames (p ∷ ps) = (put_uint32 (length p) ++ p) ++ frames ps

-- A payload that the writer accepts and the reader can take.
unfoldable pub IsFrame : List ℕ → Type 0
IsFrame p = (0 < length p) × (length p ≤ max_frame_size)

-- The writer sends exactly the frame of a payload within the limit, and refuses a longer one.
pub write-frame :
    (p : List ℕ)
    → (length p ≤ max_frame_size → write p ≡ ok (frames (p ∷ [])))
      × (max_frame_size < length p → write p ≡ fail frame_too_large)
unfolding write frames
write-frame p = (
  λ h.
      let fits : ltb max_frame_size (length p) ≡ false = ground arith in
      rw (fits, append-nil (put_uint32 (length p) ++ p)),
  λ h. let over : ltb max_frame_size (length p) ≡ true = ground arith in rw over,
)

-- What the reader still has to hand out: the rest of the open frame and the frames behind it.
pub Pending : FramedReader → List ℕ → List (List ℕ) → Type 0
Pending fr cur ps =
    (fr.r ≡ cur ++ frames ps)
    × (fr.remaining ≡ length cur)
    × (fr.max ≡ max_frame_size)
    × All IsFrame ps

read-header :
    (fr fr' : FramedReader) (len got : ℕ)
    → read_header fr ≡ (none, fr')
    → read fr len got ≡ read_body fr' len got
unfolding read
read-header fr fr' len got h = rw (read, h) (ap (λ q. read_body q.1 len got) h)

within : (len got : ℕ) (xs : List ℕ) → ℕ
within len got xs = min (min len (length xs)) got

take-within :
    (len got : ℕ) (xs ys : List ℕ) → take (within len got xs) (xs ++ ys) ≡ take (min len got) xs
unfolding within
take-within len got xs ys =
    take-append (within len got xs) xs ys (omega arith)
    ∙ elim (Bool-cases (leb (min len got) (length xs))) [
      | inl short ↦ ap (λ k. take k xs) (ground arith)
      | inr long ↦
          take_all xs (within len got xs) (ground arith)
          ∙ sym (take_all xs (min len got) (ground arith))
    ]

drop-within :
    (len got : ℕ) (xs ys : List ℕ)
    → drop (within len got xs) (xs ++ ys) ≡ drop (min len got) xs ++ ys
unfolding within
drop-within len got xs ys =
    drop-append (within len got xs) xs ys (omega arith)
    ∙ ap (λ t. t ++ ys)
        (elim (Bool-cases (leb (min len got) (length xs))) [
          | inl short ↦ ap (λ k. drop k xs) (ground arith)
          | inr long ↦
              drop_all xs (within len got xs) (ground arith)
              ∙ sym (drop_all xs (min len got) (ground arith))
        ])

read_body-Pending :
    (fr : FramedReader) (cur : List ℕ) (ps : List (List ℕ)) (len got : ℕ)
    → 0 < length cur
    → Pending fr cur ps
    → ((read_body fr len got).0 ≡ ok (take (min len got) cur))
      × Pending (read_body fr len got).1 (drop (min len got) cur) ps
unfolding read_body Pending within
read_body-Pending fr [] ps len got h (e, l, m, all) = absurd (omega arith)
read_body-Pending fr (x ∷ cur) ps len got h (e, l, m, all) =
    rw (e, l)
      (
        ap ok (take-within len got (x ∷ cur) (frames ps)),
        (
          drop-within len got (x ∷ cur) (frames ps),
          omega (
            arith,
            ap length (take-within len got (x ∷ cur) (frames ps)),
            length-take (min len got) (x ∷ cur),
            length-drop (min len got) (x ∷ cur),
          ),
          m,
          all,
        ),
      )

-- Between frames the next header opens the next frame.
opens :
    (fr : FramedReader) (p : List ℕ) (ps : List (List ℕ))
    → Pending fr [] (p ∷ ps)
    → (0 < length p) × ((fr' : FramedReader) × (read_header fr ≡ (none, fr')) × Pending fr' p ps)
unfolding read_header Pending IsFrame frames put_uint32
opens fr p ps (e, l, m, ((few, fits), all)) =
    let size = uint32_of-bytes (length p) (omega arith) in
    let nonzero : (length p == 0) ≡ false = ground arith in
    let small : ltb max_frame_size (length p) ≡ false = ground arith in
    (
      few,
      (
        record fr { r = p ++ frames ps; remaining = length p },
        rw (l, e, size, nonzero, m, small) refl,
        (refl, refl, m, all),
      ),
    )

-- What a read gives while payload bytes are left to hand out: some bytes, a prefix of them, and the
-- others are still pending.
pub Advances : FramedReader → ℕ → ℕ → List ℕ → Type 0
Advances fr len got bytes =
    (out : List ℕ) × (cur : List ℕ) × (ps : List (List ℕ)) × ((read fr len got).0 ≡ ok out)
    × (bytes ≡ out ++ (cur ++ stream ps))
    × (0 < length out)
    × Pending (read fr len got).1 cur ps

Advances-within :
    (fr fr' : FramedReader) (cur : List ℕ) (ps : List (List ℕ)) (len got : ℕ)
    → 0 < len
    → 0 < got
    → 0 < length cur
    → read_header fr ≡ (none, fr')
    → Pending fr' cur ps
    → Advances fr len got (cur ++ stream ps)
unfolding Advances
Advances-within fr fr' cur ps len got l g c h pending =
    let (gives, next) = read_body-Pending fr' cur ps len got c pending in
    let same = read-header fr fr' len got h in
    (
      take (min len got) cur,
      drop (min len got) cur,
      ps,
      ap (λ q. q.0) same ∙ gives,
      ap (λ t. t ++ stream ps) (sym (take-append-drop (min len got) cur))
          ∙ append_assoc (take (min len got) cur) (drop (min len got) cur) (stream ps),
      omega (arith, length-take (min len got) cur),
      subst (λ q. Pending q.1 (drop (min len got) cur) ps) (sym same) next,
    )

stays_open :
    (fr : FramedReader) (cur : List ℕ) (ps : List (List ℕ))
    → 0 < length cur
    → Pending fr cur ps
    → read_header fr ≡ (none, fr)
unfolding read_header Pending
stays_open fr cur ps h (e, l, m, all) =
    let midway : (fr.remaining == 0) ≡ false = ground arith in rw midway

ends : (fr : FramedReader) (len got : ℕ) → Pending fr [] [] → (read fr len got).0 ≡ fail eof
unfolding read read_header Pending frames
ends fr len got (e, l, m, all) = rw (l, e)

-- Of accepted payloads, one after the other in their frames, a read into a buffer that has room, from
-- a connection that gives at least one byte, hands out a non-empty prefix of what is left of them; the
-- rest stays pending, whichever way reads and frames overlap. When nothing is left it reports the end.
pub read-Advances :
    (fr : FramedReader) (cur : List ℕ) (ps : List (List ℕ)) (len got : ℕ)
    → 0 < len
    → 0 < got
    → Pending fr cur ps
    → (cur ++ stream ps ≢ [] → Advances fr len got (cur ++ stream ps))
      × (cur ++ stream ps ≡ [] → (read fr len got).0 ≡ fail eof)
unfolding stream
read-Advances fr (x ∷ cur) ps len got l g pending = (
  λ _.
      Advances-within fr fr (x ∷ cur) ps len got l g (omega arith)
        (stays_open fr (x ∷ cur) ps (omega arith) pending) pending,
  λ none_left. absurd (cc),
)
read-Advances fr [] (p ∷ ps) len got l g pending =
    let (few, (fr', h, next)) = opens fr p ps pending in
    (
      λ _. Advances-within fr fr' p ps len got l g few h next,
      λ none_left. absurd (omega (arith, ap length none_left, length-append p (stream ps))),
    )
read-Advances fr [] [] len got l g pending =
    (λ left. absurd (left refl), λ _. ends fr len got pending)

-- What the decoder is handed by repeated reads, up to the first error or the last of the reads. Each read has the
-- room in its buffer and the number of bytes that the connection gives at most.
pub read_all : List (ℕ × ℕ) → FramedReader → List ℕ × Option CodecError
read_all [] fr = ([], none)
read_all ((len, got) ∷ reads) fr =
    let (res, fr') = read fr len got in
    let (more, err) = read_all reads fr' in
    elim res [ fail e ↦ ([], some e) | ok p ↦ (p ++ more, err) ]

-- A read that has room and is given at least one byte.
unfoldable pub IsRead : ℕ × ℕ → Type 0
IsRead (len, got) = (0 < len) × (0 < got)

read_all-Pending :
    (reads : List (ℕ × ℕ)) (fr : FramedReader) (cur : List ℕ) (ps : List (List ℕ))
    → All IsRead reads
    → Pending fr cur ps
    → length (cur ++ stream ps) < length reads
    → read_all reads fr ≡ (cur ++ stream ps, some eof)
unfolding read_all Advances IsRead
read_all-Pending [] fr cur ps room pending h = absurd (omega arith)
read_all-Pending ((len, got) ∷ reads) fr cur ps ((l, g), room) pending h =
    go (λ fr' cur' ps'. read_all-Pending reads fr' cur' ps' room) (cur ++ stream ps)
      (read-Advances fr cur ps len got l g pending) refl
  where
    go :
        ((fr' : FramedReader) (cur' : List ℕ) (ps' : List (List ℕ))
          → Pending fr' cur' ps'
          → length (cur' ++ stream ps') < length reads
          → read_all reads fr' ≡ (cur' ++ stream ps', some eof))
        → (bytes : List ℕ)
        → (bytes ≢ [] → Advances fr len got bytes) × (bytes ≡ [] → (read fr len got).0 ≡ fail eof)
        → cur ++ stream ps ≡ bytes
        → read_all ((len, got) ∷ reads) fr ≡ (bytes, some eof)
    go ih [] (_, end) e = rw (read_all, end refl)
    go ih (b ∷ bytes) (more, _) e =
        let (out, cur', ps', gives, split, some_out, next) = more (λ x. absurd (cc)) in
        rw (read_all, gives)
          (ap (λ r. (out ++ r.0, r.1))
              (ih (read fr len got).1 cur' ps' next (
                omega
                  (arith, ap length e, ap length split, length-append out (cur' ++ stream ps'))))
            ∙ ap (λ t. (t, some eof)) (sym split))

-- Payloads that are neither empty nor over the limit, sent frame after frame, come out of the reader
-- as their bytes in order and then the end of the stream, whatever positive room each read has in its buffer and
-- whatever positive number of bytes the connection gives to it; one read more than there are bytes is enough.
pub read_all-frames :
    (ps : List (List ℕ)) (reads : List (ℕ × ℕ))
    → All IsFrame ps
    → All IsRead reads
    → length (stream ps) < length reads
    → read_all reads (new_framed_reader (frames ps)) ≡ (stream ps, some eof)
unfolding new_framed_reader Pending
read_all-frames ps reads all room h =
    read_all-Pending reads (new_framed_reader (frames ps)) [] ps room (refl, refl, refl, all) h
