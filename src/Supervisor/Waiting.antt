-- ===== src/Supervisor/Waiting.antt =====
-- internal/core/supervisor/supervisor.go, `settle`: the loop that doubles the wait, against its closed form.
use yoke.Prelude.{
  less-lt, ℕ, zero, suc, ◌-◌, ◌*◌, ◌%◌, ◌^◌, ◌≤◌, ◌<◌, ◌≡◌, arith, ltb, inl, inr, Bool-cases,
}
use Prim.Native.Nat.{min}
use yoke.Supervisor.{Policy}
use yoke.Supervisor.Backoff.{doubled, backoff_wait}

pow_pos : (r : ℕ) → 1 ≤ 2 ^ r
pow_pos zero = omega arith
pow_pos (suc r) = omega (arith, pow_pos r)

doubled-lt : (r c w : ℕ) → c ≤ 2 ^ 62 → w < 2 ^ 63 → doubled r c w < 2 ^ 63
unfolding doubled
doubled-lt zero c w h k = k
doubled-lt (suc r) c w h k = ground (arith, less-lt w c, doubled-lt r c ((w * 2) % 2 ^ 64) h)

mul-pow : (r w : ℕ) → w * 2 ^ suc r ≡ (w * 2) * 2 ^ r
mul-pow r w = grind arith

le-mul_pow : (r w : ℕ) → w ≤ w * 2 ^ r
le-mul_pow r w = grind (arith, pow_pos r)

min-doubled : (r c w : ℕ) → c ≤ 2 ^ 62 → w < 2 ^ 63 → min c (doubled r c w) ≡ min c (w * 2 ^ r)
unfolding doubled
min-doubled zero c w h k = ground arith
min-doubled (suc r) c w h k = elim (Bool-cases (ltb w c)) [
  | inl t ↦
      let same : (w * 2) % 2 ^ 64 ≡ w * 2 = ground arith in
      let ih = min-doubled r c (w * 2) h (ground arith) in
      ground (arith, less-lt w c, t, same, ih, mul-pow r w)
  | inr t ↦ ground (arith, less-lt w c, t, le-mul_pow (suc r) w)
]

-- Where the ceiling and the first wait are under 2 ^ 62 nanoseconds, about 146 years, the wait before an
-- attempt is the first wait doubled once for each failure after the first, and never over the ceiling.
backoff_wait_lem :
    (p : Policy) (failures : ℕ)
    → p.ceiling ≤ 2 ^ 62
    → p.backoff ≤ 2 ^ 62
    → backoff_wait p failures ≡ min p.ceiling (p.backoff * 2 ^ (failures - 1))
unfolding backoff_wait
backoff_wait_lem p failures h k =
    let wait = doubled (failures - 1) p.ceiling p.backoff in
    ground (
      arith,
      min-doubled (failures - 1) p.ceiling p.backoff h,
      doubled-lt (failures - 1) p.ceiling p.backoff h,
      less-lt p.ceiling wait,
    )
