-- ===== src/Ring/Reading.antt =====
-- internal/core/ring/ring.go: what is published and then read.
use yoke.Prelude.{
  true, ℕ, ◌+◌, ◌≡◌, ◌<◌, ◌≤◌, ◌^◌, arith, length, some, none, Option, List, [], ◌∷◌, false, refl,
  sym, ap, ◌∙◌, Option-cases, inl, inr, ltb, ◌%◌,
}
use mathlib.Core.Option.{some-ne-none}
use yoke.Ring.{Geometry, slot}
use yoke.Ring.Bytes.{Mem}
use yoke.Ring.Writer.{Writer, publish}
use yoke.Ring.Reader.{got, copy_slot, Reader, oldest, next, Round, caught_up, is_whole}
use yoke.Ring.Slots.{Fits}
use yoke.Ring.Frames.{Holds, count, publish-Published, result}

-- Several frames, each with its clock, published one after another.
unfoldable pub publish_all : Mem → Writer → List (ℕ × List ℕ) → Option (Mem × Writer)
publish_all m w [] = some (m, w)
publish_all m w ((clock, payload) ∷ fs) = elim (publish m w clock payload) [
  | none ↦ none
  | some (m', w') ↦ publish_all m' w' fs
]

publish_all-none :
    (m : Mem) (w : Writer) (clock : ℕ) (payload : List ℕ) (fs : List (ℕ × List ℕ))
    → publish m w clock payload ≡ none
    → publish_all m w ((clock, payload) ∷ fs) ≡ none
unfolding publish_all
publish_all-none m w clock payload fs e = rw (e, publish_all) refl

publish_all-some :
    (m m' : Mem) (w w' : Writer) (clock : ℕ) (payload : List ℕ) (fs : List (ℕ × List ℕ))
    → publish m w clock payload ≡ some (m', w')
    → publish_all m w ((clock, payload) ∷ fs) ≡ publish_all m' w' fs
unfolding publish_all
publish_all-some m m' w w' clock payload fs e = rw (e, publish_all) refl

-- A round while nothing is written.
abbrev pub quiet : Mem → Round
quiet m = record { counted = m; before = m; copied = m; after = m; is_late = false }

-- The clocks are numbers of 64 bits.
abbrev pub Clocks : List (ℕ × List ℕ) → Type 0
Clocks [] = Unit
Clocks ((clock, payload) ∷ fs) = (clock < 2 ^ 64) × Clocks fs

abbrev pub writer : Geometry → ℕ → Writer
writer g n = record { geometry = g; published = n }

-- A frame that is held is held through the publication of fewer frames than there are slots.
publish_all-Holds :
    (m m' : Mem) (g : Geometry) (n : ℕ) (w' : Writer) (fs : List (ℕ × List ℕ)) (j c : ℕ)
    (p : List ℕ)
    → Fits g
    → Clocks fs
    → n + length fs < 2 ^ 64
    → 1 ≤ j
    → j ≤ n
    → n + length fs < j + g.slots
    → length p ≤ g.capacity
    → count m ≡ n
    → Holds m (slot g j) j c p
    → publish_all m (writer g n) fs ≡ some (m', w')
    → (count m' ≡ n + length fs) × Holds m' (slot g j) j c p
unfolding publish_all
publish_all-Holds m m' g n w' [] j c p f k b1 b2 b3 b4 b5 q h e =
    let same = ap (λ o. (result (m, writer g n) o).0) e in rw (← same) (q ∙ omega arith, h)
publish_all-Holds m m' g n w' ((clock, payload) ∷ fs) j c p f k b1 b2 b3 b4 b5 q h e =
    elim (Option-cases (publish m (writer g n) clock payload)) [
      | inl e1 ↦
          absurd
            (some-ne-none (m', w') (sym e ∙ publish_all-none m (writer g n) clock payload fs e1))
      | inr ((m1, w1), e1) ↦
          let one =
            publish-Published m m1 (writer g n) w1 clock payload f (omega (arith, b1)) k.0 e1 in
          let rest =
            ap (λ w. publish_all m1 w fs) (sym one.0)
            ∙ (sym (publish_all-some m m1 (writer g n) w1 clock payload fs e1) ∙ e) in
          let all =
            publish_all-Holds m1 m' g (n + 1) w' fs j c p f k.1 (omega (arith, b1)) b2
              (omega (arith, b3)) (omega (arith, b4)) b5 one.2
              (one.4 j c p b2 (omega (arith, b3)) (omega (arith, b4)) b5 h) rest in
          (all.0 ∙ omega arith, all.1)
    ]

abbrev pub reader : Geometry → ℕ → Reader
reader g n = record { geometry = g; next = n }

not_lapped :
    (g : Geometry) (n t : ℕ) → t < 2 ^ 64 → t < n + g.slots → caught_up (reader g n) t ≡ (n, 0)
unfolding oldest
not_lapped g n t h k = ground (arith, h, k)

pub copy_slot-Holds :
    (m : Mem) (g : Geometry) (n c : ℕ) (p : List ℕ)
    → length p ≤ g.capacity
    → Holds m (slot g n) n c p
    → copy_slot g m n ≡ record { sequence = n; clock = c; payload = p }
unfolding copy_slot
copy_slot-Holds m g n c p h k =
    let fits : ltb g.capacity (length p) ≡ false = ground (arith, h) in
    rw k.2 (rw fits (rw k.1 (rw k.3 refl)))

next-Holds :
    (m : Mem) (g : Geometry) (n c : ℕ) (p : List ℕ) (ls : List Round)
    → n + 1 < 2 ^ 64
    → count m < 2 ^ 64
    → n ≤ count m
    → count m < n + g.slots
    → length p ≤ g.capacity
    → Holds m (slot g n) n c p
    → next (quiet m ∷ ls) (reader g n) 0
      ≡ got (record { sequence = n; clock = c; payload = p }) 0 (reader g (n + 1))
unfolding next
next-Holds m g n c p ls a b d e l h =
    let there : ltb (count m) n ≡ false = ground (arith, d) in
    let whole : is_whole g (quiet m) n ≡ true = ground (arith, h) in
    let up : (n + 1) % 2 ^ 64 ≡ n + 1 = omega (arith, a) in
    let here = not_lapped g n (count m) b e in
    rw (there, next) (rw (here, whole, here) (rw (copy_slot-Holds m g n c p l h) (rw up refl)))

-- A frame that is published comes back whole to the reader that is at it, its sequence, clock and bytes,
-- with nothing lost, as long as fewer frames than the ring has slots are published after it.
pub next-publish_all :
    (m m' : Mem) (g : Geometry) (n : ℕ) (w' : Writer) (c : ℕ) (p : List ℕ) (fs : List (ℕ × List ℕ))
    (ls : List Round)
    → Fits g
    → Clocks ((c, p) ∷ fs)
    → n + 2 + length fs < 2 ^ 64
    → length fs < g.slots
    → publish_all m (writer g n) ((c, p) ∷ fs) ≡ some (m', w')
    → next (quiet m' ∷ ls) (reader g (n + 1)) 0
      ≡ got (record { sequence = n + 1; clock = c; payload = p }) 0 (reader g (n + 2))
next-publish_all m m' g n w' c p fs ls f k a b e =
    elim (Option-cases (publish m (writer g n) c p)) [
      | inl e1 ↦ absurd (some-ne-none (m', w') (sym e ∙ publish_all-none m (writer g n) c p fs e1))
      | inr ((m1, w1), e1) ↦
          let one = publish-Published m m1 (writer g n) w1 c p f (omega (arith, a)) k.0 e1 in
          let rest =
            ap (λ w. publish_all m1 w fs) (sym one.0)
            ∙ (sym (publish_all-some m m1 (writer g n) w1 c p fs e1) ∙ e) in
          let all =
            publish_all-Holds m1 m' g (n + 1) w' fs (n + 1) c p f k.1 (omega (arith, a))
              (omega arith) (omega arith) (omega (arith, b)) one.3 one.2 one.1 rest in
          let back =
            next-Holds m' g (n + 1) c p ls (omega (arith, a)) (omega (arith, a, all.0))
              (omega (arith, all.0)) (omega (arith, b, all.0)) one.3 all.1 in
          back
          ∙ ap (λ k. got (record { sequence = n + 1; clock = c; payload = p }) 0 (reader g k))
              (omega arith)
    ]
