-- ===== src/Session/Numbers.antt =====
-- internal/core/session/session.go, `queue`: the fuel of the printing of a number is enough.
use yoke.Prelude.{ℕ, zero, suc, ◌≤◌, ◌/◌, ◌≡◌, arith}
use yoke.Session.{digits}

-- Printing a number with more fuel than the number makes no difference.
pub digits_enough : (fuel n : ℕ) → n ≤ fuel → digits (suc fuel) n ≡ digits fuel n
unfolding digits
digits_enough zero n h = ground arith
digits_enough (suc fuel) n h = ground (arith, digits_enough fuel (n / 10))
