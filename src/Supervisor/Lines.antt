-- ===== src/Supervisor/Lines.antt =====
-- internal/core/supervisor/supervisor.go, `lineWriter`: a unit's output handed on one line at a time, and
-- held until its incarnation is opened. A byte is a number; what was emitted is kept with the writer.
use yoke.Prelude.{
  ℕ, zero, suc, Bool, true, false, Option, none, some, List, [], ◌∷◌, ◌++◌, if◌then◌else◌, ◌==◌,
  length,
}

abbrev pub Bytes : Type 0
Bytes = List ℕ

abbrev pub newline : ℕ
newline = 10

pub record LineWriter : Type 0 where
  pub pending : Bytes
  pub is_closed : Bool
  pub held : List Bytes
  pub emitted : List Bytes

abbrev pub held_until_opened : LineWriter
held_until_opened = record { pending = []; is_closed = true; held = []; emitted = [] }

unfoldable pub index_byte : Bytes → ℕ → Option ℕ
index_byte [] c = none
index_byte (b ∷ bs) c = elim (b == c) [
  | true ↦ some 0
  | false ↦ elim (index_byte bs c) [ none ↦ none | some i ↦ some (suc i) ]
]

abbrev pub take : ℕ → Bytes → Bytes
take zero bs = []
take (suc n) [] = []
take (suc n) (b ∷ bs) = b ∷ take n bs

abbrev pub drop : ℕ → Bytes → Bytes
drop zero bs = bs
drop (suc n) [] = []
drop (suc n) (b ∷ bs) = drop n bs

abbrev pub line : LineWriter → Bytes → LineWriter
line w s =
    if w.is_closed
    then record w { held = w.held ++ s ∷ [] }
    else record w { emitted = w.emitted ++ s ∷ [] }

-- The loop of `Write`: a line goes at each newline that is pending.
unfoldable pub lines_out : ℕ → LineWriter → LineWriter
unfolding index_byte
lines_out zero w = w
lines_out (suc fuel) w = elim (index_byte w.pending newline) [
  | none ↦ w
  | some i ↦
      lines_out fuel (record (line w (take i w.pending)) { pending = drop (suc i) w.pending })
]

-- Each line takes a byte at least, so the bytes that are pending are fuel enough.
unfoldable pub write : LineWriter → Bytes → LineWriter
unfolding lines_out
write w p = let all = w.pending ++ p in lines_out (suc (length all)) (record w { pending = all })

abbrev pub is_empty : Bytes → Bool
is_empty [] = true
is_empty (b ∷ bs) = false

unfoldable pub flush : LineWriter → LineWriter
flush w = if is_empty w.pending then w else record (line w w.pending) { pending = [] }

unfoldable pub open_writer : LineWriter → LineWriter
open_writer w = record w { is_closed = false; emitted = w.emitted ++ w.held; held = [] }

-- The lines of a text, and what follows its last newline, after the bytes of a line already begun.
unfoldable pub split : Bytes → Bytes → List Bytes × Bytes
split begun [] = ([], begun)
split begun (b ∷ bs) = elim (b == newline) [
  | true ↦ (begun ∷ (split [] bs).0, (split [] bs).1)
  | false ↦ split (begun ++ b ∷ []) bs
]

-- What is done to a writer: a piece of output, of any length, and the opening of its incarnation.
pub data Turn : Type 0 where
  writes : Bytes → Turn
  opens : Turn

unfoldable pub turn : LineWriter → Turn → LineWriter
unfolding write open_writer
turn w (writes p) = write w p
turn w opens = open_writer w

unfoldable pub turns : LineWriter → List Turn → LineWriter
turns w [] = w
turns w (t ∷ ts) = turns (turn w t) ts

-- All that was written.
abbrev pub output : List Turn → Bytes
output [] = []
output (writes p ∷ ts) = p ++ output ts
output (opens ∷ ts) = output ts

-- The lines of a whole output, the last one included where no newline ends it.
abbrev pub all_lines : Bytes → List Bytes
all_lines p = (split [] p).0 ++ (if is_empty (split [] p).1 then [] else (split [] p).1 ∷ [])
