-- ===== src/Supervisor/Speaking.antt =====
-- internal/core/supervisor/supervisor.go, `lineWriter`: the lines handed on are those of the whole output.
use yoke.Prelude.{
  ℕ, zero, suc, ◌≤◌, ◌<◌, ◌≡◌, refl, ◌⊎◌, inl, inr, true, Option, none, some, List, [], ◌∷◌, ◌++◌,
  ◌==◌, arith, length, Option-cases, Bool-cases,
}
use mathlib.Core.List.{append_assoc, append-nil}
use yoke.Supervisor.Lines.{
  Bytes, newline, LineWriter, held_until_opened, index_byte, take, drop, line, lines_out, write,
  flush, open_writer, split, is_empty, Turn, writes, opens, turn, turns, output, all_lines,
}

split-append :
    (begun p q : Bytes)
    → ((split begun (p ++ q)).0 ≡ (split begun p).0 ++ (split (split begun p).1 q).0)
      × ((split begun (p ++ q)).1 ≡ (split (split begun p).1 q).1)
unfolding split
split-append begun [] q = (refl, refl)
split-append begun (b ∷ p) q = elim (Bool-cases (b == newline)) [
  | inl e ↦ rw (e, split) (ground (arith, e, split-append [] p q))
  | inr e ↦ rw (e, split) (split-append (begun ++ b ∷ []) p q)
]

abbrev pieces : Bytes → Bytes → Option ℕ → List Bytes × Bytes
pieces begun p none = ([], begun ++ p)
pieces begun p (some i) =
    ((begun ++ take i p) ∷ (split [] (drop (suc i) p)).0, (split [] (drop (suc i) p)).1)

-- Cutting at the first newline gives the first line.
split-index_byte : (begun p : Bytes) → split begun p ≡ pieces begun p (index_byte p newline)
unfolding split index_byte
split-index_byte begun [] = rw append-nil refl
split-index_byte begun (b ∷ p) = elim (Bool-cases (b == newline)) [
  | inl e ↦ ground (arith, e, append-nil begun)
  | inr e ↦ elim (Option-cases (index_byte p newline)) [
    | inl n ↦
        ground (arith, e, n, split-index_byte (begun ++ b ∷ []) p, append_assoc begun (b ∷ []) p)
    | inr (i, n) ↦
        ground (
          arith,
          e,
          n,
          split-index_byte (begun ++ b ∷ []) p,
          append_assoc begun (b ∷ []) (take i p),
        )
  ]
]

-- What a writer has handed on or holds, in order.
abbrev pub spoken : LineWriter → List Bytes
spoken w = w.emitted ++ w.held

-- A writer that is open holds nothing.
abbrev pub IsOrdered : LineWriter → Type 0
IsOrdered w = (w.is_closed ≡ true) ⊎ (w.held ≡ [])

line-spoken :
    (w : LineWriter) (s : Bytes)
    → IsOrdered w
    → (spoken (line w s) ≡ spoken w ++ s ∷ []) × IsOrdered (line w s)
line-spoken w s h = elim (Bool-cases w.is_closed) [
  | inl e ↦ ground (arith, e, append_assoc w.emitted w.held (s ∷ []))
  | inr e ↦ ground (arith, e, h, append-nil w.emitted, append-nil (w.emitted ++ s ∷ []))
]

length-drop : (i : ℕ) (p : Bytes) → length (drop i p) ≤ length p
length-drop zero p = omega arith
length-drop (suc i) [] = omega arith
length-drop (suc i) (b ∷ p) = omega (arith, length-drop i p)

index_byte-length :
    (p : Bytes) (i : ℕ) → index_byte p newline ≡ some i → suc (length (drop (suc i) p)) ≤ length p
unfolding index_byte
index_byte-length [] i h = absurd (cc)
index_byte-length (b ∷ p) i h = omega (arith, length-drop i p)

-- What a writer has said, and what it has pending.
abbrev Says : LineWriter → LineWriter → List Bytes → Bytes → Type 0
Says w w' ls rest =
    (spoken w' ≡ spoken w ++ ls) × (w'.pending ≡ rest) × IsOrdered w' × (w'.is_closed ≡ w.is_closed)

lines_out-Says :
    (fuel : ℕ) (w : LineWriter)
    → length w.pending < fuel
    → IsOrdered w
    → Says w (lines_out fuel w) (split [] w.pending).0 (split [] w.pending).1
unfolding lines_out
lines_out-Says zero w l h = elim l [ ]
lines_out-Says (suc fuel) w l h = elim (Option-cases (index_byte w.pending newline)) [
  | inl n ↦
      rw (n, lines_out) (ground (arith, n, split-index_byte [] w.pending, append-nil (spoken w), h))
  | inr (i, n) ↦
      let t = take i w.pending in
      let w' = record (line w t) { pending = drop (suc i) w.pending } in
      let one = line-spoken w t h in
      let rest = lines_out-Says fuel w' (omega (arith, l, index_byte-length w.pending i n)) one.1 in
      rw (n, lines_out)
        (ground (
          arith,
          n,
          one,
          rest,
          split-index_byte [] w.pending,
          append_assoc (spoken w) (t ∷ []) (split [] w'.pending).0,
        ))
]

-- What follows the last newline has no newline.
abbrev IsWhole : Bytes → Type 0
IsWhole p = ((split [] p).0 ≡ []) × ((split [] p).1 ≡ p)

split-IsWhole : (begun p : Bytes) → IsWhole begun → IsWhole (split begun p).1
unfolding split
split-IsWhole begun [] h = h
split-IsWhole begun (b ∷ p) h = elim (Bool-cases (b == newline)) [
  | inl e ↦ rw (e, split) (split-IsWhole [] p (refl, refl))
  | inr e ↦
      rw (e, split)
        (split-IsWhole (begun ++ b ∷ []) p (ground (arith, e, h, split-append [] begun (b ∷ []))))
]

-- A writer after some output.
abbrev After : LineWriter → Bytes → Type 0
After w all = (spoken w ≡ (split [] all).0) × (w.pending ≡ (split [] all).1) × IsOrdered w

write-After : (w : LineWriter) (all p : Bytes) → After w all → After (write w p) (all ++ p)
unfolding write split
write-After w all p h =
    let begun = (split [] all).1 in
    let says =
      lines_out-Says (suc (length (w.pending ++ p))) (record w { pending = w.pending ++ p })
        (omega arith) h.2 in
    ground (
      arith,
      h,
      says,
      split-append [] all p,
      split-append [] begun p,
      split-IsWhole [] all (refl, refl),
    )

open_writer-After : (w : LineWriter) (all : Bytes) → After w all → After (open_writer w) all
unfolding open_writer
open_writer-After w all h = ground (arith, h, append-nil (w.emitted ++ w.held))

turns-After :
    (w : LineWriter) (all : Bytes) (ts : List Turn)
    → After w all
    → After (turns w ts) (all ++ output ts)
unfolding turns turn
turns-After w all [] h = rw append-nil h
turns-After w all (writes p ∷ ts) h =
    rw (← append_assoc) (turns-After (write w p) (all ++ p) ts (write-After w all p h))
turns-After w all (opens ∷ ts) h = turns-After (open_writer w) all ts (open_writer-After w all h)

-- However a unit's output is cut into pieces, and whenever its incarnation is opened between them, what
-- is handed on once the output is flushed and the incarnation opened is the lines of the whole output,
-- each once and in order, a last line without a newline among them.
pub turns-flush :
    (ts : List Turn)
    → (open_writer (flush (turns held_until_opened ts))).emitted ≡ all_lines (output ts)
unfolding flush open_writer split
turns-flush ts =
    let w = turns held_until_opened ts in
    let h = turns-After held_until_opened [] ts (refl, refl, inl refl) in
    elim (Bool-cases (is_empty w.pending)) [
      | inl e ↦ ground (arith, e, h, append-nil (spoken w))
      | inr e ↦ ground (arith, e, h, line-spoken w w.pending h.2)
    ]
