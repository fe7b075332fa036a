-- ===== src/Ring/Writer.antt =====
-- internal/core/ring/ring.go, `Writer`: one frame published into its slot.
use yoke.Prelude.{ℕ, ◌+◌, ◌%◌, ◌^◌, Option, none, some, List, if◌then◌else◌, ltb, length}
use yoke.Ring.{Geometry, slot, slot_header, off_published, off_wake}
use yoke.Ring.Bytes.{Mem, get_le, put_le, copy_in}

pub record Writer : Type 0 where
  pub geometry : Geometry
  pub published : ℕ

unfoldable pub open_writer : Mem → Geometry → Writer
unfolding get_le
open_writer m g = record { geometry = g; published = get_le 8 m off_published }

-- The stores of a slot: no sequence, the header, the payload, and the sequence again.
unfoldable pub store_slot : Mem → ℕ → ℕ → ℕ → List ℕ → Mem
unfolding put_le copy_in
store_slot m at n clock payload =
    let m1 = put_le 8 m at 0 in
    let m2 = put_le 8 m1 (at + 8) clock in
    let m3 = put_le 4 m2 (at + 16) (length payload % 2 ^ 32) in
    let m4 = copy_in m3 (at + slot_header) payload in put_le 8 m4 at n

-- The stores of the header: the count of frames, and the word that the waiters wait on.
unfoldable pub store_header : Mem → ℕ → Mem
unfolding get_le put_le
store_header m n =
    let m1 = put_le 8 m off_published n in
    put_le 4 m1 off_wake ((get_le 4 m1 off_wake + 1) % 2 ^ 32)

-- A frame that is larger than a slot is refused.
unfoldable pub publish : Mem → Writer → ℕ → List ℕ → Option (Mem × Writer)
unfolding store_slot store_header slot
publish m w clock payload =
    if ltb w.geometry.capacity (length payload)
    then none
    else (let n = (w.published + 1) % 2 ^ 64 in
        let m1 = store_slot m (slot w.geometry n) n clock payload in
        some (store_header m1 n, record w { published = n }))
