-- ===== src/Admission/Spending.antt =====
-- internal/core/admission/admission.go: a token is good for one registration.
use yoke.Prelude.{
  ◌&&◌, ℕ, ◌+◌, ◌≤◌, ◌≡◌, refl, ◌≢◌, ◌⊎◌, String, Bool, true, false, Option, none, some, List, [],
  ◌∷◌, get, get-put, get-put_self, string_discrete, arith, ◌=?◌, if◌then◌else◌,
}
use yoke.Contract.{auth_invalid}
use yoke.Admission.{Token, Tokens, issue, spend, is_good, used}

-- One presentation of a token: the unit, the value presented, its startup window, and when.
pub record Attempt : Type 0 where
  pub unit : String
  pub value : String
  pub window : ℕ
  pub now : ℕ

-- How many of a sequence of presentations for a unit are good.
unfoldable pub successes : Tokens → String → List Attempt → ℕ
successes t id [] = 0
successes t id (a ∷ rest) =
    let (t', code) = spend t a.unit a.value a.window a.now in
    (if is_good code && a.unit =? id then 1 else 0) + successes t' id rest

abbrev is_spent : Option Token → Bool
is_spent none = true
is_spent (some tok) = tok.spent

-- A presentation that is good finds the unit's token unspent, and spends it; no presentation makes a
-- spent token good again.
spend-is_spent :
    (t : Tokens) (a : Attempt) (id : String)
    → (((is_good (spend t a.unit a.value a.window a.now).1 && a.unit =? id) ≡ true)
        × (is_spent (get string_discrete id t) ≡ false)
        × (is_spent (get string_discrete id (spend t a.unit a.value a.window a.now).0) ≡ true))
      ⊎ (((is_good (spend t a.unit a.value a.window a.now).1 && a.unit =? id) ≡ false)
          × (is_spent (get string_discrete id (spend t a.unit a.value a.window a.now).0)
              ≡ is_spent (get string_discrete id t)))
unfolding spend ◌=?◌
spend-is_spent t a id =
    ground (arith, get-put string_discrete a.unit id (used (get string_discrete a.unit t)) t)

successes_spent :
    (t : Tokens) (id : String) (todo : List Attempt)
    → is_spent (get string_discrete id t) ≡ true
    → successes t id todo ≡ 0
unfolding successes
successes_spent t id [] h = refl
successes_spent t id (a ∷ rest) h = ground (
  arith,
  spend-is_spent t a id,
  successes_spent (spend t a.unit a.value a.window a.now).0 id rest,
)

-- Of all the presentations made for a unit between two issues of its token, whatever units the others
-- were made for, at most one is good.
pub successes-le-one :
    (t : Tokens) (id : String) (presented : List Attempt) → successes t id presented ≤ 1
unfolding successes
successes-le-one t id [] = omega arith
successes-le-one t id (a ∷ rest) = ground (
  arith,
  spend-is_spent t a id,
  successes_spent (spend t a.unit a.value a.window a.now).0 id rest,
  successes-le-one (spend t a.unit a.value a.window a.now).0 id rest,
)

-- Issuing a token for a unit's next launch ends the one issued for its last: presented again, with
-- another value issued since, it is refused as invalid, and nothing is spent.
issue-spend :
    (t : Tokens) (id value old : String) (window now later : ℕ)
    → value ≢ old
    → spend (issue t id value now) id old window later ≡ (issue t id value now, auth_invalid)
unfolding spend issue ◌=?◌
issue-spend t id value old window now later h =
    ground
      (arith, get-put_self string_discrete id (record { value = value; at = now; spent = false }) t)
