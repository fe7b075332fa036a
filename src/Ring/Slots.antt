-- ===== src/Ring/Slots.antt =====
-- internal/core/ring/ring.go, `slot` and `Size`: the slots lie in the memory, past the header, and two
-- frames less than a lap apart have slots that do not meet.
use yoke.Ring.Bytes.{Mem}
use yoke.Prelude.{
  less-lt, false, less, ◌⊎◌, ap, ℕ, ◌+◌, ◌*◌, ◌-◌, ◌/◌, ◌%◌, ◌^◌, ◌≡◌, ◌≢◌, ◌<◌, ◌≤◌, arith,
}
use yoke.Ring.{size, maps, map_ring, Geometry, slot}

-- A geometry that a memory under 2 ^ 63 bytes holds.
abbrev pub Fits : Geometry → Type 0
Fits g =
    (1 ≤ g.slots)
    × (g.slots < 2 ^ 32)
    × (g.capacity < 2 ^ 32)
    × (64 + g.slots * (32 + g.capacity) < 2 ^ 63)

pub mul_lt : (a b w : ℕ) → a < b → a * w + w ≤ b * w
mul_lt a b w h = grind arith

index_lt : (g : Geometry) (n : ℕ) → 1 ≤ g.slots → (n % g.slots) < g.slots
index_lt g n h = ground arith

-- Where a slot begins, without the wrap-around of 64 bits.
pub slot_lem :
    (g : Geometry) (n : ℕ)
    → Fits g
    → 1 ≤ n
    → n < 2 ^ 64
    → slot g n ≡ 64 + (n - 1) % g.slots * (32 + g.capacity)
unfolding slot
slot_lem g n f a b =
    let i = mul_lt ((n - 1) % g.slots) g.slots (32 + g.capacity) (index_lt g (n - 1) f.0) in
    let same : ((n + 2 ^ 64) - 1) % 2 ^ 64 ≡ n - 1 = omega (arith, a, b) in
    rw same (omega (arith, f, i))

same_quotient : (a b s : ℕ) → a ≡ b → a * s ≡ b * s
same_quotient a b s e = ap (λ q. q * s) e

residues : (x d s : ℕ) → 1 ≤ d → d < s → (x + d) % s ≢ x % s
residues x d s h k e =
    let a = x / s in
    let b = (x + d) / s in ground (arith, h, k, e, mul_lt a b s, mul_lt b a s, same_quotient a b s)

pub slot_bounds :
    (g : Geometry) (n : ℕ)
    → Fits g
    → 1 ≤ n
    → n < 2 ^ 64
    → (64 ≤ slot g n) × (slot g n + (32 + g.capacity) ≤ 64 + g.slots * (32 + g.capacity))
slot_bounds g n f a b =
    let i = mul_lt ((n - 1) % g.slots) g.slots (32 + g.capacity) (index_lt g (n - 1) f.0) in
    rw (slot_lem g n f a b) (omega (arith, i), omega (arith, i))

-- Two runs of so many bytes do not meet.
abbrev pub Apart : ℕ → ℕ → ℕ → Type 0
Apart a b n = (a + n ≤ b) ⊎ (b + n ≤ a)

pub slots-Apart :
    (g : Geometry) (j n : ℕ)
    → Fits g
    → 1 ≤ j
    → j < n
    → n < j + g.slots
    → n < 2 ^ 64
    → Apart (slot g j) (slot g n) (32 + g.capacity)
slots-Apart g j n f a b c d =
    let x = (j - 1) % g.slots in
    let y = (n - 1) % g.slots in
    let w = 32 + g.capacity in
    let same : (j - 1) + (n - j) ≡ n - 1 = omega (arith, a, b) in
    let differ = residues (j - 1) (n - j) g.slots (omega (arith, b)) (omega (arith, c)) in
    let differ' : y ≢ x = rw (← same) differ in
    ground (
      arith,
      differ',
      slot_lem g j f a (omega (arith, b, d)),
      slot_lem g n f (omega (arith, a, b)) d,
      mul_lt x y w,
      mul_lt y x w,
    )

-- Where a ring of under 2 ^ 63 bytes is mapped, every slot lies past its header and inside its memory.
-- The bound is a condition, since what is compared with the memory's length is a signed 64-bit number.
pub slot-map_ring :
    (m : Mem) (length n : ℕ) (g : Geometry)
    → map_ring m length ≡ maps g
    → length < 2 ^ 63
    → Fits g
    → 1 ≤ n
    → n < 2 ^ 64
    → (64 ≤ slot g n) × (slot g n + (32 + g.capacity) ≤ length)
unfolding map_ring
slot-map_ring m length n g e h f a b =
    let s = slot_bounds g n f a b in
    let fits : less length (size g.slots g.capacity) ≡ false = ground (arith, e) in
    ground (arith, h, f, s, fits, less-lt length (size g.slots g.capacity))
