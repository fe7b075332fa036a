-- ===== src/Ring/Tearing.antt =====
-- internal/core/ring/ring.go: a producer that writes one store at a time while a slot is copied.
use yoke.Ring.Frames.{store_slot-Holds, Holds-Agree}
use yoke.Ring.Reading.{copy_slot-Holds}
use yoke.Ring.Writer.{store_header, store_slot}
use yoke.Ring.Reader.{copy_slot}
use yoke.Prelude.{
  inl, inr, ap, ℕ, ◌+◌, ◌-◌, ◌*◌, ◌%◌, ◌^◌, ◌≡◌, ◌≢◌, ◌<◌, ◌≤◌, ◌⊎◌, arith, length, List, [], ◌∷◌,
  All, sym, ◌∙◌, refl,
}
use yoke.Ring.{Geometry, slot}
use yoke.Ring.Bytes.{
  Mem, get_le, put_le, copy_in, Agree, put_le-Outside, get_le-put_le, copy_in-Outside, get_le-Agree,
}
use yoke.Ring.Slots.{slot_bounds, Fits, slot_lem, Apart, mul_lt}

pub data Store : Type 0 where
  word : ℕ → ℕ → ℕ → Store
  bytes : ℕ → List ℕ → Store

unfoldable pub store : Mem → Store → Mem
unfolding put_le copy_in
store m (word k at v) = put_le k m at v
store m (bytes at p) = copy_in m at p

-- The stores of one publication, in their order.
abbrev pub stores_of : ℕ → ℕ → ℕ → List ℕ → ℕ → List Store
stores_of at n clock payload wake =
    word 8 at 0
    ∷ word 8 (at + 8) clock
    ∷ word 4 (at + 16) (length payload % 2 ^ 32)
    ∷ bytes (at + 32) payload
    ∷ word 8 at n
    ∷ word 8 24 n
    ∷ word 4 32 wake
    ∷ []

abbrev run : Mem → List Store → Mem
run m [] = m
run m (st ∷ todo) = run (store m st) todo

-- They are what `Publish` stores.
run-stores_of :
    (m : Mem) (at n clock : ℕ) (payload : List ℕ)
    → let wake = (get_le 4 (put_le 8 (store_slot m at n clock payload) 24 n) 32 + 1) % 2 ^ 32 in
      run m (stores_of at n clock payload wake) ≡ store_header (store_slot m at n clock payload) n
unfolding store store_slot store_header
run-stores_of m at n clock payload = refl

-- A producer that publishes frames after the n-th: the memory, and the stores it has begun.
pub data Writes (g : Geometry) (n : ℕ) : Mem → List Store → Mem → List Store → Type 0 where
  rests : {m : Mem} {todo : List Store} → Writes g n m todo m todo
  begins :
      {m m' : Mem} {todo : List Store} (k clock wake : ℕ) (payload : List ℕ)
      → n < k
      → k < 2 ^ 64
      → length payload ≤ g.capacity
      → Writes g n m todo m' []
      → Writes g n m todo m' (stores_of (slot g k) k clock payload wake)
  stores :
      {m m' : Mem} {todo rest : List Store} (st : Store)
      → Writes g n m todo m' (st ∷ rest)
      → Writes g n m todo (store m' st) rest

abbrev Away : ℕ → ℕ → Store → Type 0
Away at w (word k b v) = (b + k ≤ at) ⊎ (at + w ≤ b)
Away at w (bytes b p) = (b + length p ≤ at) ⊎ (at + w ≤ b)

Away-Agree : (at w : ℕ) (m : Mem) (st : Store) → Away at w st → Agree at w m (store m st)
unfolding store
Away-Agree at w m (word k b v) h j x y = put_le-Outside k m b v j (ground (arith, h, x, y))
Away-Agree at w m (bytes b p) h j x y = copy_in-Outside m b p j (ground (arith, h, x, y))

-- A store after which a slot's sequence is not the n-th if it was not before.
abbrev Harmless : ℕ → ℕ → Store → Type 0
Harmless at n st = (m : Mem) → get_le 8 m at ≢ n → get_le 8 (store m st) at ≢ n

Away-Harmless : (at n : ℕ) (st : Store) → Away at 8 st → Harmless at n st
Away-Harmless at n st h m k e =
    k (sym (get_le-Agree 8 m (store m st) at (Away-Agree at 8 m st h)) ∙ e)

names-other : (at n v : ℕ) (m : Mem) → v < 2 ^ 64 → v ≢ n → get_le 8 (store m (word 8 at v)) at ≢ n
unfolding store
names-other at n v m h k e = k (sym (get_le-put_le 8 m at v (omega (arith, h))) ∙ e)

slots_meet :
    (g : Geometry) (n k : ℕ)
    → Fits g
    → 1 ≤ n
    → n < k
    → k < 2 ^ 64
    → (slot g k ≡ slot g n) ⊎ Apart (slot g n) (slot g k) (32 + g.capacity)
slots_meet g n k f a b c =
    let x = (n - 1) % g.slots in
    let y = (k - 1) % g.slots in
    let w = 32 + g.capacity in
    ground (
      arith,
      slot_lem g n f a (omega (arith, b, c)),
      slot_lem g k f (omega (arith, a, b)) c,
      mul_lt x y w,
      mul_lt y x w,
      λ (e : x ≡ y). ap (λ q. q * w) e,
    )

abbrev Clears : ℕ → ℕ → List Store → Type 0
Clears at n [] = ⊥
Clears at n (st ∷ todo) = ((m : Mem) → get_le 8 (store m st) at ≢ n) × All (Harmless at n) todo

-- Either the slot is as it was, and the stores begun are away from it or are to clear it first, or its
-- sequence is another.
abbrev Kept : ℕ → ℕ → ℕ → Mem → Mem → List Store → Type 0
Kept at w n m0 m todo =
    (Agree at w m0 m × (All (Away at w) todo ⊎ Clears at n todo))
    ⊎ ((get_le 8 m at ≢ n) × All (Harmless at n) todo)

Harmless-All :
    (at w n : ℕ) (todo : List Store) → 8 ≤ w → All (Away at w) todo → All (Harmless at n) todo
Harmless-All at w n [] b h = tt
Harmless-All at w n (word k x v ∷ todo) b h =
    (Away-Harmless at n (word k x v) (ground (arith, h.0, b)), Harmless-All at w n todo b h.1)
Harmless-All at w n (bytes x p ∷ todo) b h =
    (Away-Harmless at n (bytes x p) (ground (arith, h.0, b)), Harmless-All at w n todo b h.1)

stores_of-Away :
    (at w b k clock wake : ℕ) (payload : List ℕ)
    → 64 ≤ at
    → 32 + length payload ≤ w
    → Apart at b w
    → All (Away at w) (stores_of b k clock payload wake)
stores_of-Away at w b k clock wake payload x y z = (
  ground (arith, y, z),
  (
    ground (arith, y, z),
    (
      ground (arith, y, z),
      (
        ground (arith, y, z),
        (ground (arith, y, z), (inl (omega (arith, x)), (inl (omega (arith, x)), tt))),
      ),
    ),
  ),
)

stores_of-Clears :
    (at n k clock wake : ℕ) (payload : List ℕ)
    → 64 ≤ at
    → 1 ≤ n
    → n < k
    → k < 2 ^ 64
    → Clears at n (stores_of at k clock payload wake)
stores_of-Clears at n k clock wake payload a b c d = (
  (λ m. names-other at n 0 m (omega arith) (omega (arith, b))),
  (
    Away-Harmless at n (word 8 (at + 8) clock) (inr (omega arith)),
    (
      Away-Harmless at n (word 4 (at + 16) (length payload % 2 ^ 32)) (inr (omega arith)),
      (
        Away-Harmless at n (bytes (at + 32) payload) (inr (omega arith)),
        (
          (λ m e. names-other at n k m d (omega (arith, c))),
          (
            Away-Harmless at n (word 8 24 k) (inl (omega (arith, a))),
            (Away-Harmless at n (word 4 32 wake) (inl (omega (arith, a))), tt),
          ),
        ),
      ),
    ),
  ),
)

Kept-store :
    (at w n : ℕ) (m0 m : Mem) (st : Store) (rest : List Store)
    → 8 ≤ w
    → Kept at w n m0 m (st ∷ rest)
    → Kept at w n m0 (store m st) rest
Kept-store at w n m0 m st rest b (inl (same, inl away)) =
    inl ((λ j x y. Away-Agree at w m st away.0 j x y ∙ same j x y), inl away.1)
Kept-store at w n m0 m st rest b (inl (same, inr clears)) = inr (clears.0 m, clears.1)
Kept-store at w n m0 m st rest b (inr (other, harmless)) = inr (harmless.0 m other, harmless.1)

begins-Kept :
    (g : Geometry) (n k clock wake : ℕ) (payload : List ℕ) (m0 m : Mem)
    → Fits g
    → 1 ≤ n
    → n < k
    → k < 2 ^ 64
    → length payload ≤ g.capacity
    → Kept (slot g n) (32 + g.capacity) n m0 m []
    → Kept (slot g n) (32 + g.capacity) n m0 m (stores_of (slot g k) k clock payload wake)
begins-Kept g n k clock wake payload m0 m f a b c d h =
    let at = slot g n in
    let w = 32 + g.capacity in
    let past = (slot_bounds g n f a (omega (arith, b, c))).0 in
    elim (slots_meet g n k f a b c) [
      | inl same ↦
          let clears = stores_of-Clears at n k clock wake payload past a b c in
          rw same (elim h [
            | inl kept ↦ inl (kept.0, inr clears)
            | inr lost ↦ inr (lost.0, ((λ x e. clears.0 x), clears.1))
          ])
      | inr apart ↦
          let away =
            stores_of-Away at w (slot g k) k clock wake payload past (omega (arith, d)) apart in
          elim h [
            | inl kept ↦ inl (kept.0, inl away)
            | inr lost ↦ inr (
              lost.0,
              Harmless-All at w n (stores_of (slot g k) k clock payload wake) (omega arith) away,
            )
          ]
    ]

writes-Kept :
    (g : Geometry) (n : ℕ) {m0 m : Mem} {t0 todo : List Store}
    → Fits g
    → 1 ≤ n
    → All (Away (slot g n) (32 + g.capacity)) t0
    → Writes g n m0 t0 m todo
    → Kept (slot g n) (32 + g.capacity) n m0 m todo
writes-Kept g n f a t rests = inl ((λ j x y. refl), inl t)
writes-Kept g n {m0} f a t (begins {m} {m'} k clock wake payload b c d h) =
    begins-Kept g n k clock wake payload m0 m' f a b c d (writes-Kept g n f a t h)
writes-Kept g n {m0} f a t (stores {m} {m'} {todo} {rest} st h) =
    Kept-store (slot g n) (32 + g.capacity) n m0 m' st rest (omega arith) (writes-Kept g n f a t h)

begins-Harmless :
    (g : Geometry) (n k clock wake : ℕ) (payload : List ℕ)
    → Fits g
    → 1 ≤ n
    → n < k
    → k < 2 ^ 64
    → length payload ≤ g.capacity
    → All (Harmless (slot g n) n) (stores_of (slot g k) k clock payload wake)
begins-Harmless g n k clock wake payload f a b c d =
    let at = slot g n in
    let w = 32 + g.capacity in
    let past = (slot_bounds g n f a (omega (arith, b, c))).0 in
    elim (slots_meet g n k f a b c) [
      | inl same ↦
          let clears = stores_of-Clears at n k clock wake payload past a b c in
          rw same ((λ x e. clears.0 x), clears.1)
      | inr apart ↦
          Harmless-All at w n (stores_of (slot g k) k clock payload wake) (omega arith)
            (stores_of-Away at w (slot g k) k clock wake payload past (omega (arith, d)) apart)
    ]

-- Once another sequence stands in a slot, the n-th never does again.
writes-lost :
    (g : Geometry) (n : ℕ) {m m' : Mem} {todo todo' : List Store}
    → Fits g
    → 1 ≤ n
    → Writes g n m todo m' todo'
    → (get_le 8 m (slot g n) ≢ n) × All (Harmless (slot g n) n) todo
    → (get_le 8 m' (slot g n) ≢ n) × All (Harmless (slot g n) n) todo'
writes-lost g n f a rests h = h
writes-lost g n f a (begins k clock wake payload b c d w) h =
    ((writes-lost g n f a w h).0, begins-Harmless g n k clock wake payload f a b c d)
writes-lost g n f a (stores {m} {m'} st w) h =
    let lost = writes-lost g n f a w h in (lost.1.0 m' lost.0, lost.1.1)

-- From the moment that a frame's sequence stands in its slot, with its count not stored yet, a producer
-- may write any stores of later frames. If the sequence is the frame's at some moment, then what was
-- copied at any moment before is that frame, its sequence, clock and bytes, and never a part of another.
pub copy_slot-Writes :
    (m m1 m2 : Mem) (g : Geometry) (n c wake : ℕ) (p : List ℕ) (t1 t2 : List Store)
    → Fits g
    → 1 ≤ n
    → n < 2 ^ 64
    → c < 2 ^ 64
    → length p ≤ g.capacity
    → Writes g n (store_slot m (slot g n) n c p) (word 8 24 n ∷ word 4 32 wake ∷ []) m1 t1
    → Writes g n m1 t1 m2 t2
    → get_le 8 m2 (slot g n) ≡ n
    → copy_slot g m1 n ≡ record { sequence = n; clock = c; payload = p }
copy_slot-Writes m m1 m2 g n c wake p t1 t2 f a b d l first second e =
    let past = (slot_bounds g n f a b).0 in
    let away : All (Away (slot g n) (32 + g.capacity)) (word 8 24 n ∷ word 4 32 wake ∷ []) =
      (inl (omega (arith, past)), (inl (omega (arith, past)), tt)) in
    elim (writes-Kept g n f a away first) [
      | inl kept ↦ copy_slot-Holds m1 g n c p l (
          Holds-Agree (store_slot m (slot g n) n c p) m1 (slot g n) n c p
            (λ j x y. kept.0 j x (omega (arith, y, l)))
            (store_slot-Holds m (slot g n) n c p b d (omega (arith, l, f))))
      | inr lost ↦ absurd ((writes-lost g n f a second lost).0 e)
    ]
