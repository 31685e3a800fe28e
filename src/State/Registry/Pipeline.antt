-- ===== src/State/Registry/Pipeline.antt =====
-- internal/state/registry.go: from raw bytes to the ring and the rotator.
use randomshitgo_go.Prelude.{
  ℕ, List, [], ◌∷◌, ◌++◌, Option, none, some, Bool, true, ◌≡◌, refl, sym, ap, ◌∙◌, arith,
  if◌then◌else◌, String, eq_iff, map, append_assoc, append-nil, keep_last,
}
use randomshitgo_go.Prelude.Assoc.{lookup, lookup-insert}
use randomshitgo_go.Log.Line.{Line}
use randomshitgo_go.Log.LineBuffer.{LineBuffer, feed}
use randomshitgo_go.Log.RingBuffer.{push_each, snapshot}
use randomshitgo_go.Log.RingBuffer.Refine.{IsValid}
use randomshitgo_go.Log.RingBuffer.Bulk.{snapshot-push_each}
use randomshitgo_go.State.Registry.{
  Entry, Registry, zero_line, get, render, write_rot, write_line, write_lines, write_entry,
  write_raw,
}

get-found :
    (opens : String → Bool) (r : Registry) (id : String) (e : Entry)
    → lookup id r.m ≡ some e
    → get opens r id ≡ e
unfolding get
get-found opens r id e h = rw (get, h)

module _ (decode strip : List ℕ → List ℕ) where
  -- Writing lines does not touch the splitter.
  write_lines-line :
      (e : Entry) (lb : LineBuffer) (ls : List Line)
      → write_lines decode strip (record e { line = lb }) ls
        ≡ record (write_lines decode strip e ls) { line = lb }
  unfolding write_lines write_line
  write_lines-line e lb [] = refl
  write_lines-line e lb (l ∷ ls) = write_lines-line (write_line decode strip e l) lb ls

  get-write_raw :
      (opens : String → Bool) (r : Registry) (id : String) (b : List ℕ) (now : ℕ)
      → get opens (write_raw decode strip opens r id b now) id
        ≡ write_entry decode strip (get opens r id) b now
  unfolding write_raw
  get-write_raw opens r id b now =
      get-found opens (write_raw decode strip opens r id b now) id
        (write_entry decode strip (get opens r id) b now)
        (lookup-insert id id (write_entry decode strip (get opens r id) b now) r.m
          ∙ ap
              (λ t.
                if t then some (write_entry decode strip (get opens r id) b now) else lookup id r.m)
              {y = true} (ground (arith, eq_iff id id)))

  ring-write_lines :
      (e : Entry) (ls : List Line)
      → (write_lines decode strip e ls).ring
        ≡ push_each zero_line e.ring (map (render decode strip) ls)
  unfolding write_lines write_line push_each
  ring-write_lines e [] = refl
  ring-write_lines e (l ∷ ls) = ring-write_lines (write_line decode strip e l) ls

  -- What a rotator has after the lines are written to it, if there is one.
  pub rotated : Option (List (List ℕ)) → List Line → Option (List (List ℕ))
  rotated none ls = none
  rotated (some written) ls = some (written ++ map (λ l. strip l.bytes ++ 0x0a ∷ []) ls)

  rot-line :
      (e : Entry) (l : Line) (o : Option (List (List ℕ)))
      → e.rot ≡ o
      → (write_line decode strip e l).rot ≡ rotated o (l ∷ [])
  unfolding write_line write_rot rotated
  rot-line e l none h = rw h
  rot-line e l (some written) h = rw h

  rot-lines :
      (e : Entry) (ls : List Line) (o : Option (List (List ℕ)))
      → e.rot ≡ o
      → (write_lines decode strip e ls).rot ≡ rotated o ls
  unfolding write_lines rotated
  rot-lines e [] none h = h
  rot-lines e [] (some written) h = h ∙ ap some (sym (append-nil written))
  rot-lines e (l ∷ ls) none h =
      rot-lines (write_line decode strip e l) ls none (rot-line e l none h)
  rot-lines e (l ∷ ls) (some written) h =
      rot-lines (write_line decode strip e l) ls
        (some (written ++ (strip l.bytes ++ 0x0a ∷ []) ∷ [])) (rot-line e l (some written) h)
      ∙ ap some (
          append_assoc written ((strip l.bytes ++ 0x0a ∷ []) ∷ [])
            (map (λ k. strip k.bytes ++ 0x0a ∷ []) ls))

  rot-write_lines :
      (e : Entry) (ls : List Line) → (write_lines decode strip e ls).rot ≡ rotated e.rot ls
  rot-write_lines e ls = rot-lines e ls e.rot refl

  -- A write of raw bytes splits them into lines with what the splitter held, keeps in the ring, if
  -- it is valid, the last of its old lines and of the new ones rendered, and appends to the
  -- rotator, if there is one, each new line stripped and with its LF.
  pub write_raw-contents :
      (opens : String → Bool) (r : Registry) (id : String) (b : List ℕ) (now : ℕ)
      → IsValid (get opens r id).ring
      → (let e = get opens r id in
          let lines = (feed e.line b now).0 in
          let e' = get opens (write_raw decode strip opens r id b now) id in
          (snapshot zero_line e'.ring
            ≡ keep_last e.ring.cap (snapshot zero_line e.ring ++ map (render decode strip) lines))
          × (e'.rot ≡ rotated e.rot lines)
          × (e'.line ≡ (feed e.line b now).1))
  unfolding write_entry
  write_raw-contents opens r id b now h =
      let e = get opens r id in
      let lines = (feed e.line b now).0 in
      let same = get-write_raw opens r id b now ∙ write_lines-line e (feed e.line b now).1 lines in
      (
        ap (λ a. snapshot zero_line a.ring) same
            ∙ ap (snapshot zero_line) (ring-write_lines e lines)
            ∙ snapshot-push_each zero_line (map (render decode strip) lines) h,
        ap (λ a. a.rot) same ∙ rot-write_lines e lines,
        ap (λ a. a.line) same,
      )
