-- ===== src/Ring/Gaps.antt =====
-- internal/core/ring/ring.go, `Next`: what a reader is told was lost, whatever slots the producer writes
-- meanwhile, where the counts of frames that it leaves are below 2 ^ 63.
use yoke.Prelude.{
  inr, inl, Bool-cases, ◌%◌, if◌then◌else◌, true, false, ltb, ℕ, ◌+◌, ◌^◌, ◌≡◌, ◌<◌, ◌≤◌, arith,
  List, [], ◌∷◌,
}
use yoke.Ring.Bytes.{get_le}
use yoke.Ring.Reader.{
  copy_slot, is_whole, next, Reader, Round, Outcome, got, no_frame, waiting, oldest, caught_up,
}

-- A count of frames that 63 bits hold, in every round.
abbrev pub Counts : List Round → Type 0
Counts [] = Unit
Counts (l ∷ ls) = (get_le 8 l.counted 24 < 2 ^ 63) × Counts ls

-- Of the frames from the first to where a reader goes on, each is lost but the last where one was got.
abbrev pub Accounted : ℕ → Outcome → Type 0
Accounted first (got f gap r) = (f.sequence ≡ first + gap) × (r.next ≡ first + gap + 1)
Accounted first (no_frame gap r) = r.next ≡ first + gap
Accounted first (waiting gap r) = r.next ≡ first + gap

caught_up_lem :
    (r : Reader) (t : ℕ)
    → t < 2 ^ 63
    → r.next ≤ t
    → 1 ≤ r.geometry.slots
    → let c = caught_up r t in (c.0 ≡ r.next + c.1) × (c.0 ≤ t)
unfolding oldest
caught_up_lem r t a b c = ground (arith, a, b, c)

next_waits :
    (l : Round) (ls : List Round) (r : Reader) (gap : ℕ)
    → ltb (get_le 8 l.counted 24) r.next ≡ true
    → next (l ∷ ls) r gap ≡ (if l.is_late then no_frame gap r else next ls r gap)
unfolding next
next_waits l ls r gap e = ground (arith, e)

next_reads :
    (l : Round) (ls : List Round) (r : Reader) (gap : ℕ)
    → ltb (get_le 8 l.counted 24) r.next ≡ false
    → let c = caught_up r (get_le 8 l.counted 24) in
      let r' = record r { next = (c.0 + 1) % 2 ^ 64 } in
      let gap' = (gap + c.1) % 2 ^ 64 in
      next (l ∷ ls) r gap ≡ (
        if is_whole r.geometry l c.0
        then got (copy_slot r.geometry l.copied c.0) gap' r'
        else next ls r' ((gap' + 1) % 2 ^ 64))
unfolding next
next_reads l ls r gap e = ground (arith, e)

-- Of a ring that has a slot: where each count of frames that a reader loads is below 2 ^ 63, the reader is
-- at 2 ^ 63 at most, and the gap so far is counted from a first frame to the one it is at, then whatever
-- else the producer writes between the loads, every frame from the first to the one the reader goes on at
-- is the frame that it got, the last of them, or is counted as lost, once.
pub next-Accounted :
    (ls : List Round) (r : Reader) (first gap : ℕ)
    → 1 ≤ r.geometry.slots
    → Counts ls
    → r.next ≡ first + gap
    → r.next ≤ 2 ^ 63
    → Accounted first (next ls r gap)
unfolding next
next-Accounted [] r first gap s k e b = e
next-Accounted (l ∷ ls) r first gap s k e b =
    elim (Bool-cases (ltb (get_le 8 l.counted 24) r.next)) [
      | inl t ↦ rw (next_waits l ls r gap t) (elim (Bool-cases l.is_late) [
        | inl u ↦ rw u e
        | inr u ↦ rw u (next-Accounted ls r first gap s k.1 e b)
      ])
      | inr t ↦
          let c = caught_up r (get_le 8 l.counted 24) in
          let there : r.next ≤ get_le 8 l.counted 24 = ground (arith, t) in
          let up = caught_up_lem r (get_le 8 l.counted 24) k.0 there s in
          let r' = record r { next = (c.0 + 1) % 2 ^ 64 } in
          let gap' = (gap + c.1) % 2 ^ 64 in
          let on : r'.next ≡ first + gap' + 1 = omega (arith, e, up, k.0) in
          rw (next_reads l ls r gap t) (elim (Bool-cases (is_whole r.geometry l c.0)) [
            | inl u ↦ rw u (omega (arith, e, up, k.0), on)
            | inr u ↦ rw u (
                next-Accounted ls r' first ((gap' + 1) % 2 ^ 64) s k.1 (omega (arith, e, up, k.0))
                  (omega (arith, e, up, k.0)))
          ])
    ]
