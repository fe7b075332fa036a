-- ===== src/Arbiter/Tests.antt =====
-- A deployment of a panel and a console, and the theorems about arbitration at it.
use yoke.Prelude.{
  ◌≡◌, refl, String, true, false, none, some, List, [], ◌∷◌, get, contains, string_discrete,
}
use yoke.Arbiter.{
  Arbitrated, Arbiter, Channel, Rule, new_arbiter, hold, reclaim, recompute, state_of, displaced,
  reclaimed, is_withdrawn,
}
use yoke.Arbiter.Reasons.{Grounds, Unopposed, rules_say, recompute-Grounds}

abbrev channels : List Channel
channels =
    record { name = "panel"; class = none; on_suspend = "" }
    ∷ record { name = "console"; class = some "routable"; on_suspend = "dark" }
    ∷ []

abbrev rules : List Rule
rules = record { prevails = "console"; over = "panel" ∷ [] } ∷ []

abbrev fresh : Arbiter
fresh = new_arbiter channels rules

abbrev both : Arbiter
both = (hold 2 (hold 1 fresh "panel" true).0 "console" true).0

panel_displaced : state_of both "panel" ≡ some ("read-only", "console", displaced)
unfolding state_of get hold new_arbiter yoke.Prelude.put string_discrete yoke.Prelude.sort
    yoke.Prelude.◌=?◌ yoke.Arbiter.arbitrated
panel_displaced = refl

panel_back : state_of (reclaim 3 both "panel").0 "panel" ≡ none
unfolding state_of get reclaim hold new_arbiter yoke.Prelude.put string_discrete yoke.Prelude.sort
    yoke.Prelude.◌=?◌ yoke.Arbiter.arbitrated
panel_back = refl

console_reclaimed :
    state_of (reclaim 3 both "panel").0 "console" ≡ some ("dark", "panel", reclaimed)
unfolding state_of get reclaim hold new_arbiter yoke.Prelude.put string_discrete yoke.Prelude.sort
    yoke.Prelude.◌=?◌ yoke.Arbiter.arbitrated
console_reclaimed = refl

dark_withdraws : is_withdrawn "dark" "query" ≡ true
unfolding is_withdrawn yoke.Prelude.◌=?◌ string_discrete
dark_withdraws = refl

abbrev panel : Arbitrated
panel = record {
  is_local = true;
  grade = "read-only";
  is_holding = true;
  has_reclaimed = false;
  is_suspended = true;
  by = "console";
  reason = displaced;
}

panel_there : get string_discrete "panel" both.channels ≡ some panel
unfolding get hold new_arbiter yoke.Prelude.put string_discrete yoke.Prelude.sort yoke.Prelude.◌=?◌
    yoke.Arbiter.arbitrated
panel_there = refl

panel_ordered : contains both.order "panel" ≡ true
unfolding contains hold get new_arbiter yoke.Prelude.put string_discrete yoke.Prelude.sort
panel_ordered = refl

panel_stays : get string_discrete "panel" (recompute 4 both).0.channels ≡ some panel
unfolding get recompute hold new_arbiter yoke.Prelude.put string_discrete yoke.Prelude.sort
    yoke.Prelude.◌=?◌ yoke.Arbiter.arbitrated
panel_stays = refl

recompute-Grounds_example :
    (panel.is_suspended ≡ true
      → Grounds both.channels
          (rules_say both.rules "console" "panel")
          (rules_say both.rules "panel" "console")
          "console"
          "panel"
          displaced)
    × (panel.is_suspended ≡ false
        → (p : String)
        → Unopposed both.channels
            (rules_say both.rules p "panel")
            (rules_say both.rules "panel" p)
            p
            "panel")
recompute-Grounds_example =
    recompute-Grounds 4 both "panel" panel panel panel_there panel_ordered panel_stays
