-- ===== src/Session/Tests.antt =====
-- A Session of a camera unit, and the theorems about Sessions at it.
use yoke.Prelude.{◌≡◌, refl, ◌≤◌, String, true, none, some, List, [], ◌∷◌, pos}
use yoke.Contract.{plugin_disabled}
use yoke.Lifecycle.{session_ended, reported}
use yoke.Session.{
  Admitted, Envelope, Payload, Live, observes, hands, ack, open_message, close_message,
  outcome_done, other_control, control, numbered, health, condition_changes,
}
use yoke.Session.Sending.{Step, receives, issues, revokes, fires, perform}
use yoke.Session.Ending.{told_endings, told_endings-le-one}
use yoke.Session.Receiving.{told_of, told_of-le-one, tells, tells_any, caller}
use yoke.Session.Opening.{
  no_sessions, opened_live, Happening, arrives, steps, openings, openings-le-one,
}

abbrev terms : Admitted
terms = record { unit = "cam-1"; incarnation = 1; interval = 5; tolerance = 3; scope = none }

abbrev from_unit : String → String → Payload → Envelope
from_unit m c p = record { message = m; session = "s-1"; correlation = c; payload = some p }

abbrev first : Envelope
first = from_unit "u-1" "" open_message

abbrev live : Live
live = opened_live 100 first terms

abbrev asked : Live
asked = (perform live (issues (control other_control))).0

abbrev done : Envelope
done = from_unit "u-2" "c-1" (ack outcome_done)

number_twelve : numbered 12 ≡ "c-12"
unfolding numbered
number_twelve = refl

ack_handed : (perform asked (receives 110 done)).1 ≡ hands "c-1" done ∷ []
unfolding perform yoke.Session.Receive.receive yoke.Prelude.◌=?◌ yoke.Prelude.string_discrete
    yoke.Session.queue yoke.Prelude.contains yoke.Session.Receive.attribute numbered
    yoke.Prelude.get yoke.Prelude.put yoke.Session.Receive.act
ack_handed = refl

ack_once : (perform (perform asked (receives 110 done)).0 (receives 111 done)).1 ≡ []
unfolding perform yoke.Session.Receive.receive yoke.Prelude.◌=?◌ yoke.Prelude.string_discrete
    yoke.Session.queue yoke.Prelude.contains yoke.Session.Receive.attribute numbered
    yoke.Prelude.get yoke.Prelude.put yoke.Session.Receive.act
ack_once = refl

disabled_ends :
    (perform live (revokes plugin_disabled "")).1 ≡ observes "cam-1" (session_ended true) ∷ []
unfolding perform yoke.Session.Receive.end_session
disabled_ends = refl

abbrev todo : List Step
todo =
    issues (control other_control)
    ∷ receives 110 done
    ∷ receives 111 done
    ∷ receives 112 (from_unit "u-3" "" close_message)
    ∷ fires
    ∷ []

one_told : told_of (tells caller) "u-2" live todo ≡ 1
unfolding told_of yoke.Prelude.◌=?◌ yoke.Prelude.string_discrete yoke.Session.Receive.receive
    perform yoke.Session.queue yoke.Prelude.contains yoke.Session.Receive.attribute numbered
    yoke.Prelude.get yoke.Prelude.put yoke.Session.Receive.act
one_told = refl

one_ending : told_endings live todo ≡ 1
unfolding told_endings yoke.Session.Receive.receive yoke.Prelude.◌=?◌ yoke.Prelude.string_discrete
    yoke.Session.queue yoke.Prelude.contains yoke.Session.Receive.attribute numbered
    yoke.Prelude.get yoke.Prelude.put yoke.Session.Receive.act
one_ending = refl

told_endings-le-one_example : told_endings live todo ≤ 1
told_endings-le-one_example = told_endings-le-one live todo

told_of-le-one_example :
    (told_of tells_any "u-2" live todo ≤ 1) × (told_of (tells caller) "u-2" live todo ≤ 1)
told_of-le-one_example = told_of-le-one caller "u-2" live todo

-- A health report that changes the condition is told to the machine and to the bus.
abbrev slow : Envelope
slow = from_unit "u-4" "" (health 120 "slow")

health_told :
    (perform live (receives 110 slow)).1
    ≡ observes "cam-1" (reported (record { view = none; grade = pos 99; line = "slow" }))
      ∷ condition_changes "cam-1" 1 none 99 "slow"
      ∷ []
unfolding perform yoke.Session.Receive.receive yoke.Prelude.◌=?◌ yoke.Prelude.string_discrete
    yoke.Prelude.contains yoke.Session.Receive.attribute yoke.Session.Receive.act
health_told = refl

abbrev arrivals : List Happening
arrivals = arrives 100 first (some terms) ∷ steps "s-1" fires ∷ arrives 120 first (some terms) ∷ []

one_opening : openings "s-1" no_sessions arrivals ≡ 1
unfolding openings yoke.Prelude.◌=?◌ yoke.Prelude.string_discrete yoke.Prelude.contains
    yoke.Prelude.get yoke.Prelude.put
one_opening = refl

openings-le-one_example : openings "s-1" no_sessions arrivals ≤ 1
openings-le-one_example = openings-le-one "s-1" no_sessions arrivals
