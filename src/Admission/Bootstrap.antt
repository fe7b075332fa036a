-- ===== src/Admission/Bootstrap.antt =====
-- internal/core/admission/admission.go: the bootstrap tokens. The random value of a token and the
-- clock's reading are arguments; a time is a number of nanoseconds.
use yoke.Prelude.{
  ℕ, ◌-◌, String, Bool, true, false, not, ◌||◌, Option, none, some, List, if◌then◌else◌, ltb, ◌=?◌,
  get, put, string_discrete,
}
use yoke.Contract.{Code, unspecified, auth_invalid, auth_consumed, auth_expired}

pub record Token : Type 0 where
  pub value : String
  pub at : ℕ
  pub spent : Bool

abbrev pub Tokens : Type 0
Tokens = List (String × Token)

unfoldable pub issue : Tokens → String → String → ℕ → Tokens
issue t id value now = put string_discrete id (record { value = value; at = now; spent = false }) t

-- The `switch` of `spend`, on the token issued for the unit.
unfoldable pub why_not : Option Token → String → ℕ → ℕ → Code
why_not none value window now = auth_invalid
why_not (some tok) value window now =
    if value =? "" || not (tok.value =? value)
    then auth_invalid
    else if tok.spent
    then auth_consumed
    else if ltb window (now - tok.at)
    then auth_expired
    else unspecified

abbrev pub is_good : Code → Bool
is_good unspecified = true
is_good _ = false

abbrev pub used : Option Token → Token
used none = record { value = ""; at = 0; spent = true }
used (some tok) = record tok { spent = true }

unfoldable pub spend : Tokens → String → String → ℕ → ℕ → Tokens × Code
unfolding why_not
spend t id value window now =
    let code = why_not (get string_discrete id t) value window now in
    if is_good code
    then (put string_discrete id (used (get string_discrete id t)) t, code)
    else (t, code)
