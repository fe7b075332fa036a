-- ===== src/Ring/Reader.antt =====
-- internal/core/ring/ring.go, `Reader`: the next frame that can still be read, and how many were lost.
-- The producer may write between any two loads of a reader, so each round of the loop has the memory as
-- it is at each of its four moments. A round whose frame is not published yet waits, or ends the wait.
use yoke.Prelude.{
  ℕ, ◌+◌, ◌-◌, ◌%◌, ◌^◌, Bool, true, false, ◌&&◌, List, [], ◌∷◌, if◌then◌else◌, ltb, leb, ◌==◌,
}
use yoke.Ring.{Geometry, slot, slot_header, off_published}
use yoke.Ring.Bytes.{Mem, get_le, slice}

pub record Frame : Type 0 where
  pub sequence : ℕ
  pub clock : ℕ
  pub payload : List ℕ

pub record Reader : Type 0 where
  pub geometry : Geometry
  pub next : ℕ

abbrev pub open_reader : Geometry → Reader
open_reader g = record { geometry = g; next = 1 }

-- The memory as the count of frames is read, as the sequence is first read, as the slot is copied, and
-- as the sequence is read again; and whether the interval is over.
pub record Round : Type 0 where
  pub counted : Mem
  pub before : Mem
  pub copied : Mem
  pub after : Mem
  pub is_late : Bool

pub data Outcome : Type 0 where
  got : Frame → ℕ → Reader → Outcome
  no_frame : ℕ → Reader → Outcome
  waiting : ℕ → Reader → Outcome

-- The oldest frame that a reader has not been lapped on.
unfoldable pub oldest : Geometry → ℕ → ℕ
oldest g published = (((published + 2 ^ 64) - g.slots) + 1) % 2 ^ 64

abbrev pub is_lapped : Reader → ℕ → Bool
is_lapped r published = leb r.geometry.slots published && ltb r.next (oldest r.geometry published)

unfoldable pub copy_slot : Geometry → Mem → ℕ → Frame
unfolding get_le slice slot
copy_slot g m n =
    let at = slot g n in
    let length = get_le 4 m (at + 16) in
    record {
      sequence = n;
      clock = get_le 8 m (at + 8);
      payload = slice (if ltb g.capacity length then g.capacity else length) m (at + slot_header);
    }

-- Where a reader goes on, and what it has lost, once a frame is published.
abbrev pub caught_up : Reader → ℕ → ℕ × ℕ
caught_up r published =
    if is_lapped r published
    then (oldest r.geometry published, (oldest r.geometry published + 2 ^ 64 - r.next) % 2 ^ 64)
    else (r.next, 0)

abbrev pub is_whole : Geometry → Round → ℕ → Bool
is_whole g l n = get_le 8 l.before (slot g n) == n && get_le 8 l.after (slot g n) == n

-- The loop of `Next`.
unfoldable pub next : List Round → Reader → ℕ → Outcome
unfolding get_le oldest copy_slot slot
next [] r gap = waiting gap r
next (l ∷ ls) r gap =
    let published = get_le 8 l.counted off_published in
    elim (ltb published r.next) [
      | true ↦ elim l.is_late [ true ↦ no_frame gap r | false ↦ next ls r gap ]
      | false ↦
          let (n, lost) = caught_up r published in
          let r' = record r { next = (n + 1) % 2 ^ 64 } in
          let gap' = (gap + lost) % 2 ^ 64 in
          elim (is_whole r.geometry l n) [
            | true ↦ got (copy_slot r.geometry l.copied n) gap' r'
            | false ↦ next ls r' ((gap' + 1) % 2 ^ 64)
          ]
    ]
