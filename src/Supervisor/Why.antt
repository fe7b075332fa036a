-- ===== src/Supervisor/Why.antt =====
-- internal/core/supervisor/supervisor.go, `chain` and `why`: why a unit did not start, back to the unit
-- that failed. `seen` is the map the calls share; a chain goes on through held units only, each once, so
-- one round of fuel for each unit, and one more, are enough.
use yoke.Prelude.{
  ℕ, zero, suc, ℤ, pos, negsuc, String, Bool, true, false, not, none, some, List, [], ◌∷◌, get,
  string_discrete, ◌=?◌, if◌then◌else◌, contains,
}
use Prim.Native.String.{◌++◌ as str_append}
use yoke.Lifecycle.{State, refused, stopped, is_terminal}
use yoke.Event.Build.{state_name}
use yoke.Session.{digits}
use yoke.Supervisor.{Supervisor, Managed}

abbrev pub join : String → List String → String
join sep [] = ""
join sep (s ∷ []) = s
join sep (s ∷ t ∷ ts) = str_append s (str_append sep (join sep (t ∷ ts)))

unfoldable pub int_text : ℤ → String
unfolding digits
int_text (pos n) = digits n n
int_text (negsuc n) = str_append "-" (digits (suc n) (suc n))

abbrev pub is_refused : State → Bool
is_refused refused = true
is_refused s = false

abbrev pub is_stopped : State → Bool
is_stopped stopped = true
is_stopped s = false

-- What a unit that was launched is doing instead of being ready.
unfoldable pub doing : String → Managed → String
unfolding int_text
doing id d =
    if not (is_terminal d.machine.state)
    then str_append id (str_append " had not become ready, being " (state_name d.machine.state))
    else if is_refused d.machine.state
    then str_append id " was refused"
    else if is_stopped d.machine.state
    then str_append id " was stopped"
    else if not (d.status.failure =? "")
    then str_append id (str_append " could not be launched: " d.status.failure)
    else if d.window_out
    then str_append id " did not become ready within its startup window"
    else elim d.exit_status [
      | some n ↦ str_append id (str_append " exited " (int_text n))
      | none ↦ str_append id " failed"
    ]

-- The reasons of several units, each with what the ones before it have seen.
abbrev pub reasons :
    (String → List String → String × List String)
    → List String
    → List String
    → List String × List String
reasons why [] seen = ([], seen)
reasons why (d ∷ ds) seen =
    let (r, seen') = why d seen in let (rs, seen'') = reasons why ds seen' in (r ∷ rs, seen'')

abbrev pub chain_with :
    (String → List String → String × List String)
    → String
    → Managed
    → List String
    → String × List String
chain_with why id m seen =
    let (rs, seen') = reasons why m.status.awaiting (id ∷ seen) in
    (str_append id (str_append " did not start because " (join " and " rs)), seen')

unfoldable pub why : ℕ → Supervisor → String → List String → String × List String
unfolding doing
why zero s id seen = (id, seen)
why (suc fuel) s id seen = elim (get string_discrete id s.units) [
  | none ↦ (str_append id " does not start with the instance", seen)
  | some d ↦ elim (contains seen id) [
    | true ↦ (str_append id " is waiting as well", seen)
    | false ↦ elim (d.status.not_started =? "") [
      | false ↦ (d.status.not_started, seen)
      | true ↦ elim d.is_held [
        | true ↦ chain_with (why fuel s) id d seen
        | false ↦ (doing id d, seen)
      ]
    ]
  ]
]

abbrev pub count : List (String × Managed) → ℕ
count [] = 0
count (u ∷ us) = suc (count us)

unfoldable pub chain : Supervisor → String → Managed → String
unfolding why
chain s id m = (chain_with (why (suc (count s.units)) s) id m []).0
