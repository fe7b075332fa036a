-- ===== src/Lifecycle/Tests.antt =====
-- Runs of the machine, and the theorems about it at inputs that meet their hypotheses.
use yoke.Prelude.{some, ◌≡◌, refl, List, [], ◌∷◌, pos, negsuc, ℤ}
use yoke.Lifecycle.{
  plugin, oneshot, admitted, running, completed, stopped, failed, Input, process_started,
  process_exited, stop_asked, admission_accepted, session_opened, reported, new_machine, apply, run,
  State-discrete,
}
use yoke.Lifecycle.Diagram.{Edge, Moves, Edge-Moves, apply-Edge, open_session}
use yoke.Lifecycle.Histories.{HoldsThen, running_plugin}

abbrev at_grade : ℤ → Input
at_grade g = reported (record { view = some failed; grade = g; line = "slow" })

-- A plugin admitted and opened, that reports twice, and is then asked to stop and exits.
abbrev life : List Input
life =
    process_started
    ∷ admission_accepted
    ∷ session_opened
    ∷ at_grade (pos 30)
    ∷ at_grade (pos 50)
    ∷ []

abbrev ending : List Input
ending = stop_asked ∷ process_exited (negsuc 0) ∷ []

life_runs : (run (new_machine plugin) life).state ≡ running
unfolding run new_machine apply
life_runs = refl

ending_stops : (run (run (new_machine plugin) life) ending).state ≡ stopped
unfolding run new_machine apply
ending_stops = refl

oneshot_done :
    (run (new_machine oneshot) (process_started ∷ process_exited (pos 0) ∷ [])).state ≡ completed
unfolding run new_machine apply
oneshot_done = refl

apply-Edge_example : Edge plugin admitted running
unfolding run new_machine apply State-discrete
apply-Edge_example =
    apply-Edge (run (new_machine plugin) (admission_accepted ∷ [])) session_opened
      {t = record { from = admitted; to = running }} refl

Edge-Moves_example : Moves plugin admitted running
Edge-Moves_example = Edge-Moves plugin admitted running open_session

running_plugin_example : HoldsThen admission_accepted session_opened life
running_plugin_example = running_plugin life life_runs
