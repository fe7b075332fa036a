-- ===== src/Ring.antt =====
-- internal/core/ring/ring.go: the shared ring. The mapped memory is a function from an offset to its byte,
-- with its length beside it. A descriptor, its mapping and the wake-up of the waiters are I/O: the word
-- that they wait on is part of the memory. An `int` is given by its 64 bits.
pub mod Bytes
pub mod Writer
pub mod Reader
pub mod Slots
pub mod Frames
pub mod Reading
pub mod Gaps
pub mod Tearing
mod Tests
use yoke.Prelude.{
  ℕ, ◌+◌, ◌-◌, ◌*◌, ◌%◌, ◌^◌, Bool, true, false, ◌||◌, ◌&&◌, not, List, [], ◌∷◌, ◌==◌, ltb, less,
  if◌then◌else◌,
}
use yoke.Ring.Bytes.{Mem, get_le, put_le, slice, copy_in}

-- Layout 1: the header, the header of a slot, and where the header's figures stand.
abbrev pub header_size : ℕ
header_size = 64

abbrev pub slot_header : ℕ
slot_header = 32

abbrev pub magic : List ℕ
magic = b'Y' ∷ b'O' ∷ b'K' ∷ b'E' ∷ b'R' ∷ b'I' ∷ b'N' ∷ b'G' ∷ []

abbrev pub off_version : ℕ
off_version = 8

abbrev pub off_slots : ℕ
off_slots = 12

abbrev pub off_capacity : ℕ
off_capacity = 16

abbrev pub off_published : ℕ
off_published = 24

abbrev pub off_wake : ℕ
off_wake = 32

-- The bytes a ring of the given geometry occupies.
abbrev pub size : ℕ → ℕ → ℕ
size slots capacity = (header_size + slots * (slot_header + capacity)) % 2 ^ 64

-- A mapped ring's, read from its header.
pub record Geometry : Type 0 where
  pub slots : ℕ
  pub capacity : ℕ

-- The header that `CreateWith` writes.
unfoldable pub create_with : Mem → ℕ → ℕ → Mem
unfolding put_le copy_in
create_with m slots capacity =
    let m1 = copy_in m 0 magic in
    let m2 = put_le 4 m1 off_version 1 in
    put_le 4 (put_le 4 m2 off_slots slots) off_capacity capacity

pub data Mapping : Type 0 where
  maps : Geometry → Mapping
  too_short not_a_ring other_layout does_not_fit : Mapping

abbrev pub same_bytes : List ℕ → List ℕ → Bool
same_bytes [] [] = true
same_bytes [] (b ∷ bs) = false
same_bytes (a ∷ bs) [] = false
same_bytes (a ∷ l) (b ∷ k) = a == b && same_bytes l k

unfoldable pub map_ring : Mem → ℕ → Mapping
unfolding get_le slice
map_ring m length =
    let slots = get_le 4 m off_slots in
    let capacity = get_le 4 m off_capacity in
    if less length header_size
    then too_short
    else if not (same_bytes (slice 8 m 0) magic)
    then not_a_ring
    else if not (get_le 4 m off_version == 1)
    then other_layout
    else if slots == 0 || less length (size slots capacity)
    then does_not_fit
    else maps (record { slots = slots; capacity = capacity })

-- Where the slot of a sequence begins.
unfoldable pub slot : Geometry → ℕ → ℕ
slot g n =
    (header_size + (((n + 2 ^ 64) - 1) % 2 ^ 64) % g.slots * (slot_header + g.capacity)) % 2 ^ 64
