-- ===== src/Lifecycle/Diagram.antt =====
-- internal/core/unit/machine.go: the transition diagram that `Apply` follows, for each kind of unit.
use yoke.Prelude.{◌≡◌, Bool, true, false, none, some, pos, arith}
use yoke.Lifecycle.{
  Kind, plugin, oneshot, interface, State, starting, admitted, running, completed, stopped, failed,
  refused, Input, process_started, process_exited, admission_accepted, admission_declined,
  admission_withdrawn, session_opened, session_ended, Machine, Transition, apply,
}

-- The states that do not end an incarnation.
pub data IsLive : State → Type 0 where
  starting_live : IsLive starting
  admitted_live : IsLive admitted
  running_live : IsLive running

-- The moves an incarnation of each kind makes.
pub data Edge : Kind → State → State → Type 0 where
  launch_oneshot : Edge oneshot starting running
  launch_interface : Edge interface starting running
  admit : Edge plugin starting admitted
  open_session : Edge plugin admitted running
  refuse : {s : State} → IsLive s → Edge plugin s refused
  complete : Edge oneshot running completed
  stop : {k : Kind} {s : State} → IsLive s → Edge k s stopped
  fail : {k : Kind} {s : State} → IsLive s → Edge k s failed

ruleset edges =
    (launch_oneshot, launch_interface, admit, open_session, refuse, complete, stop, fail)

ruleset lives = (starting_live, admitted_live, running_live)

-- Every transition the machine reports is an edge of the diagram of its kind.
pub apply-Edge :
    (m : Machine) (i : Input) {t : Transition} → (apply m i).1 ≡ some t → Edge m.kind t.from t.to
unfolding apply
apply-Edge m i h = grind (arith, edges, lives)

abbrev pub at : Kind → State → Bool → Machine
at k s asked = record { kind = k; state = s; asked = asked; condition = none }

-- Some input moves a machine of kind `k` from `s` to `t`.
abbrev pub Moves : Kind → State → State → Type 0
Moves k s t =
    (asked : Bool) × (i : Input) × ((apply (at k s asked) i).1 ≡ some (record { from = s; to = t }))

refuse-Moves : {s : State} → IsLive s → Moves plugin s refused
unfolding apply
refuse-Moves starting_live = (false, admission_declined, ground arith)
refuse-Moves admitted_live = (false, admission_withdrawn, ground arith)
refuse-Moves running_live = (false, session_ended true, ground arith)

exit-Moves : (k : Kind) {s : State} → IsLive s → Moves k s stopped × Moves k s failed
unfolding apply
exit-Moves k starting_live =
    ((true, process_exited (pos 1), ground arith), (false, process_exited (pos 1), ground arith))
exit-Moves k admitted_live =
    ((true, process_exited (pos 1), ground arith), (false, process_exited (pos 1), ground arith))
exit-Moves k running_live =
    ((true, process_exited (pos 1), ground arith), (false, process_exited (pos 1), ground arith))

-- The diagram has no edge that the machine does not take: from the state where an edge starts, some
-- input moves a machine of that kind, asked to stop or not, to the state where the edge ends.
pub Edge-Moves : (k : Kind) (s t : State) → Edge k s t → Moves k s t
unfolding apply
Edge-Moves _ _ _ launch_oneshot = (false, process_started, ground arith)
Edge-Moves _ _ _ launch_interface = (false, process_started, ground arith)
Edge-Moves _ _ _ admit = (false, admission_accepted, ground arith)
Edge-Moves _ _ _ open_session = (false, session_opened, ground arith)
Edge-Moves _ _ _ (refuse l) = refuse-Moves l
Edge-Moves _ _ _ complete = (false, process_exited (pos 0), ground arith)
Edge-Moves k _ _ (stop l) = (exit-Moves k l).0
Edge-Moves k _ _ (fail l) = (exit-Moves k l).1
