-- ===== src/Log/RingBuffer/Tests.antt =====
-- internal/log/ringbuffer.go: tests on small rings, and the theorems at concrete rings.
use randomshitgo_go.Prelude.{ℕ, [], ◌∷◌, ◌≡◌, refl}
use randomshitgo_go.Prelude.Int.{pos}
use randomshitgo_go.Log.RingBuffer.{
  RingBuffer, new_ring_buffer, push_many, push_each, push_locked, snapshot, read_from,
}
use randomshitgo_go.Log.RingBuffer.Refine.{IsValid, new_ring_buffer-IsValid}
use randomshitgo_go.Log.RingBuffer.Bulk.{push_many-IsValid, push_many-eq-push_each, view}

abbrev fresh : RingBuffer ℕ
fresh = new_ring_buffer 0 (pos 3)

abbrev full : RingBuffer ℕ
full = push_many 0 fresh (1 ∷ 2 ∷ [])

full-IsValid : IsValid full
full-IsValid = push_many-IsValid 0 (1 ∷ 2 ∷ []) (new_ring_buffer-IsValid 0 (pos 3))

wraps : snapshot 0 (push_each 0 full (3 ∷ 4 ∷ [])) ≡ 2 ∷ 3 ∷ 4 ∷ []
unfolding snapshot push_each push_locked new_ring_buffer push_many read_from
wraps = refl

push_many-eq-push_each_example :
    view 0 (push_many 0 full (3 ∷ 4 ∷ 5 ∷ 6 ∷ [])) ≡ view 0 (push_each 0 full (3 ∷ 4 ∷ 5 ∷ 6 ∷ []))
push_many-eq-push_each_example = push_many-eq-push_each 0 (3 ∷ 4 ∷ 5 ∷ 6 ∷ []) full full-IsValid
