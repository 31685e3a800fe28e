-- ===== src/State/Registry/Tests.antt =====
-- internal/state/registry.go: the theorems at a project that has no entry yet.
use randomshitgo_go.Prelude.{ℕ, List, [], ◌∷◌, ◌++◌, map, keep_last, ◌≡◌, true, String, Bool}
use randomshitgo_go.Prelude.Int.{pos}
use randomshitgo_go.Prelude.Assoc.{lookup}
use randomshitgo_go.Log.LineBuffer.{feed}
use randomshitgo_go.Log.RingBuffer.{snapshot}
use randomshitgo_go.Log.RingBuffer.Refine.{IsValid, new_ring_buffer-IsValid}
use randomshitgo_go.State.Registry.{
  Registry, new_registry, new_entry, get, write_raw, zero_line, render,
}
use randomshitgo_go.State.Registry.Pipeline.{rotated, write_raw-contents}

abbrev empty : Registry
empty = new_registry (pos 2)

abbrev all_files : String → Bool
all_files id = true

abbrev same : List ℕ → List ℕ
same bytes = bytes

web-IsValid : IsValid (get all_files empty "web").ring
unfolding get new_entry new_registry lookup
web-IsValid = new_ring_buffer-IsValid zero_line (pos 2)

write_raw-contents_example :
    let e = get all_files empty "web" in
    let bytes : List ℕ = b'a' ∷ b'b' ∷ 0x0a ∷ b'c' ∷ [] in
    let lines = (feed e.line bytes 1).0 in
    let e' = get all_files (write_raw same same all_files empty "web" bytes 1) "web" in
    (snapshot zero_line e'.ring
      ≡ keep_last e.ring.cap (snapshot zero_line e.ring ++ map (render same same) lines))
    × (e'.rot ≡ rotated same same e.rot lines)
    × (e'.line ≡ (feed e.line bytes 1).1)
write_raw-contents_example =
    write_raw-contents same same all_files empty "web" (b'a' ∷ b'b' ∷ 0x0a ∷ b'c' ∷ []) 1
      web-IsValid
