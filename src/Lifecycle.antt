-- ===== src/Lifecycle.antt =====
-- internal/core/unit/machine.go: the lifecycle machine of one incarnation of a unit.
-- A method that changes `*Machine` returns the new record; the pair `(Transition, bool)` that
-- `Apply` returns is an `Option Transition`, since the transition is read only beside `true`.
pub mod Absorbing
pub mod Diagram
pub mod Reports
pub mod Histories
mod Tests
use yoke.Prelude.{
  ℤ, is_zero, String, Bool, true, false, not, ◌&&◌, ◌||◌, Option, none, some, List, [], ◌∷◌,
  if◌then◌else◌,
}
use mathlib.Core.Logic.{ite}

-- How a deployment expects a unit to behave.
pub data Kind : Type 0 where
  plugin oneshot interface : Kind

-- Where an incarnation is.
pub data State : Type 0 where
  starting admitted running completed stopped failed refused : State

unfoldable pub Kind-discrete : Discrete Kind
Kind-discrete = hlevel

unfoldable pub State-discrete : Discrete State
State-discrete = hlevel

abbrev pub is_terminal : State → Bool
is_terminal completed = true
is_terminal stopped = true
is_terminal failed = true
is_terminal refused = true
is_terminal _ = false

-- A unit's own report: a view of its state, which is none where it is left empty, a grade and a line.
pub record Report : Type 0 where
  pub view : Option State
  pub grade : ℤ
  pub line : String

-- Something observed of a unit, or decided about it.
pub data Input : Type 0 where
  process_started : Input
  process_exited : ℤ → Input
  launch_failed : String → Input
  stop_asked : Input
  admission_accepted : Input
  admission_declined : Input
  admission_withdrawn : Input
  session_opened : Input
  session_ended : Bool → Input
  window_elapsed : Input
  reported : Report → Input

pub record Transition : Type 0 where
  pub from : State
  pub to : State

pub record Condition : Type 0 where
  pub grade : ℤ
  pub line : String

pub record Machine : Type 0 where
  pub kind : Kind
  pub state : State
  pub asked : Bool
  pub condition : Option Condition

unfoldable pub new_machine : Kind → Machine
new_machine k = record { kind = k; state = starting; asked = false; condition = none }

unfoldable pub skipped : Kind → Machine
skipped k = record { kind = k; state = completed; asked = false; condition = none }

unfoldable pub declined : Kind → Machine
declined k = record { kind = k; state = refused; asked = false; condition = none }

abbrev pub is_plugin : Kind → Bool
is_plugin plugin = true
is_plugin _ = false

abbrev pub is_oneshot : Kind → Bool
is_oneshot oneshot = true
is_oneshot _ = false

abbrev pub is_starting : State → Bool
is_starting starting = true
is_starting _ = false

abbrev pub is_admitted : State → Bool
is_admitted admitted = true
is_admitted _ = false

abbrev pub is_running : State → Bool
is_running running = true
is_running _ = false

abbrev pub is_failed : State → Bool
is_failed failed = true
is_failed _ = false

-- The `switch` of `Apply`, on a machine whose state is not terminal.
weigh : Machine → Input → Machine
weigh m process_started =
    if not (is_plugin m.kind) && is_starting m.state then record m { state = running } else m
weigh m (process_exited status) =
    if m.asked
    then record m { state = stopped }
    else if is_oneshot m.kind && is_running m.state && is_zero status
    then record m { state = completed }
    else record m { state = failed }
weigh m (launch_failed reason) = if is_starting m.state then record m { state = failed } else m
weigh m window_elapsed = if is_starting m.state then record m { state = failed } else m
weigh m stop_asked = record m { asked = true }
weigh m admission_accepted =
    if is_plugin m.kind && is_starting m.state then record m { state = admitted } else m
weigh m admission_declined =
    if is_plugin m.kind && is_starting m.state then record m { state = refused } else m
weigh m admission_withdrawn =
    if is_plugin m.kind && (is_admitted m.state || is_running m.state)
    then record m { state = refused }
    else m
weigh m session_opened =
    if is_plugin m.kind && is_admitted m.state then record m { state = running } else m
weigh m (session_ended withdrawn) =
    if is_plugin m.kind && is_running m.state
    then (if m.asked
        then record m { state = stopped }
        else if withdrawn
        then record m { state = refused }
        else record m { state = failed })
    else m
weigh m (reported r) = record m { condition = some (record { grade = r.grade; line = r.line }) }

-- The transition from one state to another, if the two differ.
moved : State → State → Option Transition
moved from to = ite (State-discrete to from) none (some (record { from = from; to = to }))

unfoldable pub apply : Machine → Input → Machine × Option Transition
unfolding weigh moved
apply m i =
    if is_terminal m.state then (m, none) else (let n = weigh m i in (n, moved m.state n.state))

-- The inputs of an incarnation, weighed in the order they came.
unfoldable pub run : Machine → List Input → Machine
run m [] = m
run m (i ∷ is) = run (apply m i).0 is

unfoldable pub restarts : Kind → State → Bool → Bool
restarts k s on_failure = is_failed s && (not (is_oneshot k) || on_failure)
