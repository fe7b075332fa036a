-- ===== src/Ring/Bytes.antt =====
-- The bytes of a mapped memory: numbers of little-endian order, and runs of bytes.
use yoke.Prelude.{
  ℕ, zero, suc, ◌+◌, ◌*◌, ◌/◌, ◌%◌, ◌≡◌, ◌<◌, ◌≤◌, ◌⊎◌, inl, List, [], ◌∷◌, ◌==◌, if◌then◌else◌,
  arith, length, refl,
}

abbrev pub Mem : Type 0
Mem = ℕ → ℕ

abbrev pub poke : Mem → ℕ → ℕ → Mem
poke m i b j = if j == i then b else m j

-- `PutUint32`, `PutUint64` and the atomic stores write 4 or 8 bytes, the lowest first.
unfoldable pub put_le : ℕ → Mem → ℕ → ℕ → Mem
put_le zero m at v = m
put_le (suc k) m at v = put_le k (poke m at (v % 256)) (suc at) (v / 256)

unfoldable pub get_le : ℕ → Mem → ℕ → ℕ
get_le zero m at = 0
get_le (suc k) m at = m at + 256 * get_le k m (suc at)

unfoldable pub copy_in : Mem → ℕ → List ℕ → Mem
copy_in m at [] = m
copy_in m at (b ∷ bs) = copy_in (poke m at b) (suc at) bs

unfoldable pub slice : ℕ → Mem → ℕ → List ℕ
slice zero m at = []
slice (suc n) m at = m at ∷ slice n m (suc at)

-- The numbers that so many bytes hold.
abbrev pub limit : ℕ → ℕ
limit zero = 1
limit (suc k) = 256 * limit k

-- An offset outside a run of bytes.
abbrev pub Outside : ℕ → ℕ → ℕ → Type 0
Outside j at n = (j < at) ⊎ (at + n ≤ j)

pub put_le-Outside : (k : ℕ) (m : Mem) (at v j : ℕ) → Outside j at k → put_le k m at v j ≡ m j
unfolding put_le
put_le-Outside zero m at v j h = refl
put_le-Outside (suc k) m at v j h =
    ground (arith, h, put_le-Outside k (poke m at (v % 256)) (suc at) (v / 256) j)

pub get_le-put_le : (k : ℕ) (m : Mem) (at v : ℕ) → v < limit k → get_le k (put_le k m at v) at ≡ v
unfolding put_le get_le
get_le-put_le zero m at v h = ground (arith, h)
get_le-put_le (suc k) m at v h =
    let m' = poke m at (v % 256) in
    ground (
      arith,
      h,
      put_le-Outside k m' (suc at) (v / 256) at (inl (omega arith)),
      get_le-put_le k m' (suc at) (v / 256) (omega (arith, h)),
    )

pub copy_in-Outside :
    (m : Mem) (at : ℕ) (bs : List ℕ) (j : ℕ) → Outside j at (length bs) → copy_in m at bs j ≡ m j
unfolding copy_in
copy_in-Outside m at [] j h = refl
copy_in-Outside m at (b ∷ bs) j h = ground (arith, h, copy_in-Outside (poke m at b) (suc at) bs j)

pub slice-copy_in : (m : Mem) (at : ℕ) (bs : List ℕ) → slice (length bs) (copy_in m at bs) at ≡ bs
unfolding copy_in slice
slice-copy_in m at [] = refl
slice-copy_in m at (b ∷ bs) = ground (
  arith,
  copy_in-Outside (poke m at b) (suc at) bs at (inl (omega arith)),
  slice-copy_in (poke m at b) (suc at) bs,
)

-- Two memories that agree on a run of bytes.
abbrev pub Agree : ℕ → ℕ → Mem → Mem → Type 0
Agree at n m m' = (j : ℕ) → at ≤ j → j < at + n → m' j ≡ m j

pub get_le-Agree : (k : ℕ) (m m' : Mem) (at : ℕ) → Agree at k m m' → get_le k m' at ≡ get_le k m at
unfolding get_le
get_le-Agree zero m m' at h = refl
get_le-Agree (suc k) m m' at h = ground (
  arith,
  h at (omega arith) (omega arith),
  get_le-Agree k m m' (suc at) (λ j a b. h j (omega (arith, a)) (omega (arith, b))),
)

pub slice-Agree : (n : ℕ) (m m' : Mem) (at : ℕ) → Agree at n m m' → slice n m' at ≡ slice n m at
unfolding slice
slice-Agree zero m m' at h = refl
slice-Agree (suc n) m m' at h = ground (
  arith,
  h at (omega arith) (omega arith),
  slice-Agree n m m' (suc at) (λ j a b. h j (omega (arith, a)) (omega (arith, b))),
)
