-- ===== src/Ring/Tests.antt =====
-- A ring of two slots of four bytes, and the theorems about rings at it.
use yoke.Ring.Tearing.{bytes, begins, stores, rests, word, copy_slot-Writes, Writes, Store, store}
use yoke.Prelude.{ℕ, ◌≡◌, ◌≤◌, ◌+◌, ◌-◌, ◌^◌, refl, arith, some, none, List, [], ◌∷◌}
use yoke.Ring.{Mapping, Geometry, create_with, map_ring, maps, slot}
use yoke.Ring.Bytes.{Mem, get_le}
use yoke.Ring.Writer.{store_slot, publish}
use yoke.Ring.Reader.{copy_slot, got, next, open_reader}
use yoke.Ring.Slots.{Fits, slot-map_ring}
use yoke.Ring.Frames.{result}
use yoke.Ring.Reading.{publish_all, quiet, writer, reader, next-publish_all}
use yoke.Ring.Gaps.{Accounted, next-Accounted}

abbrev blank : Mem
blank i = 0

abbrev two_slots : Geometry
two_slots = record { slots = 2; capacity = 4 }

abbrev created : Mem
created = create_with blank 2 4

created_maps : map_ring created 136 ≡ maps two_slots
unfolding map_ring create_with
created_maps = refl

created_short : map_ring created 135 ≡ Mapping.does_not_fit
unfolding map_ring create_with
created_short = refl

-- A geometry of 2 ^ 31 slots of 2 ^ 32 - 1 bytes has a size that is negative as a 64-bit number.
huge_maps :
    map_ring (create_with blank (2 ^ 31) (2 ^ 32 - 1)) 136
    ≡ maps (record { slots = 2 ^ 31; capacity = 2 ^ 32 - 1 })
unfolding map_ring create_with
huge_maps = refl

two_slots-Fits : Fits two_slots
two_slots-Fits = (omega arith, omega arith, omega arith, omega arith)

slot-map_ring_example : (64 ≤ slot two_slots 2) × (slot two_slots 2 + (32 + 4) ≤ 136)
slot-map_ring_example =
    slot-map_ring created 136 2 two_slots created_maps (omega arith) two_slots-Fits (omega arith)
      (omega arith)

abbrev first : List (ℕ × List ℕ)
first = (1000, 7 ∷ 8 ∷ 9 ∷ []) ∷ (1001, 6 ∷ []) ∷ []

abbrev written : Mem
written = (result (created, writer two_slots 0) (publish_all created (writer two_slots 0) first)).0

written_published :
    publish_all created (writer two_slots 0) first ≡ some (written, writer two_slots 2)
unfolding publish_all publish
written_published = refl

too_large : publish created (writer two_slots 0) 5 (1 ∷ 2 ∷ 3 ∷ 4 ∷ 5 ∷ []) ≡ none
unfolding publish
too_large = refl

next-publish_all_example :
    next (quiet written ∷ []) (reader two_slots 1) 0
    ≡ got (record { sequence = 1; clock = 1000; payload = 7 ∷ 8 ∷ 9 ∷ [] }) 0 (reader two_slots 2)
next-publish_all_example =
    next-publish_all created written two_slots 0 (writer two_slots 2) 1000 (7 ∷ 8 ∷ 9 ∷ [])
      ((1001, 6 ∷ []) ∷ []) [] two_slots-Fits (omega arith, (omega arith, tt)) (omega arith)
      (omega arith) written_published

-- A third frame laps a reader that is at the first.
abbrev lapping : Mem
lapping =
    (result (written, writer two_slots 2)
      (publish_all written (writer two_slots 2) ((1002, 5 ∷ []) ∷ []))).0

lapped :
    next (quiet lapping ∷ []) (open_reader two_slots) 0
    ≡ got (record { sequence = 2; clock = 1001; payload = 6 ∷ [] }) 1 (reader two_slots 3)
unfolding next publish_all publish
lapped = refl

lapping_count : get_le 8 lapping 24 ≡ 3
unfolding get_le publish_all publish
lapping_count = refl

next-Accounted_example : Accounted 1 (next (quiet lapping ∷ []) (open_reader two_slots) 0)
next-Accounted_example =
    next-Accounted (quiet lapping ∷ []) (open_reader two_slots) 1 0 (omega arith)
      (omega (arith, lapping_count), tt) refl (omega arith)

-- The producer has cleared the second slot when the first is copied.
abbrev halfway : Mem
halfway =
    store (store (store (store_slot created 64 1 1000 (7 ∷ [])) (word 8 24 1)) (word 4 32 1))
      (word 8 100 0)

abbrev to_store : List Store
to_store =
    word 8 108 1001
    ∷ word 4 116 1
    ∷ bytes 132 (6 ∷ [])
    ∷ word 8 100 2
    ∷ word 8 24 2
    ∷ word 4 32 2
    ∷ []

halfway-Writes :
    Writes two_slots 1
      (store_slot created (slot two_slots 1) 1 1000 (7 ∷ []))
      (word 8 24 1 ∷ word 4 32 1 ∷ [])
      halfway
      to_store
unfolding slot
halfway-Writes = stores (word 8 100 0) (
    begins 2 1001 2 (6 ∷ []) (omega arith) (omega arith) (omega arith)
      (stores (word 4 32 1) (stores (word 8 24 1) rests)))

halfway_sequence : get_le 8 halfway (slot two_slots 1) ≡ 1
unfolding get_le store slot store_slot
halfway_sequence = refl

copy_slot-Writes_example :
    copy_slot two_slots halfway 1 ≡ record { sequence = 1; clock = 1000; payload = 7 ∷ [] }
copy_slot-Writes_example =
    copy_slot-Writes created halfway halfway two_slots 1 1000 1 (7 ∷ []) to_store to_store
      two_slots-Fits (omega arith) (omega arith) (omega arith) (omega arith) halfway-Writes rests
      halfway_sequence
