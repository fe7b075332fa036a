-- ===== src/Lifecycle/Absorbing.antt =====
-- internal/core/unit/machine.go: a terminal state ends the incarnation.
use yoke.Prelude.{
  ℤ, Bool, not, ◌&&◌, ◌||◌, is_zero, ◌≡◌, refl, ◌≢◌, ◌⊎◌, Bool, true, false, none, some, List, [],
  ◌∷◌, arith,
}
use yoke.Lifecycle.{
  process_exited, restarts, is_oneshot, is_running, Input, Machine, is_terminal, apply, run,
  restarts,
}

apply-terminal : (m : Machine) (i : Input) → is_terminal m.state ≡ true → apply m i ≡ (m, none)
unfolding apply
apply-terminal m i h = ground arith

-- A machine in a terminal state is left as it is, whole, by every sequence of inputs.
pub run-terminal : (m : Machine) (is : List Input) → is_terminal m.state ≡ true → run m is ≡ m
unfolding run
run-terminal m [] h = refl
run-terminal m (i ∷ is) h = ground (arith, apply-terminal m i h, run-terminal m is h)

-- Applying an input reports a transition exactly when the state changed, and then it names the
-- state before and the state after. The kind of a machine never changes.
apply-transition :
    (m : Machine) (i : Input)
    → let (n, t) = apply m i in
      (n.kind ≡ m.kind)
      × ((t ≡ none) × (n.state ≡ m.state)
          ⊎ (t ≡ some (record { from = m.state; to = n.state })) × (n.state ≢ m.state))
unfolding apply
apply-transition m i = ground arith

-- A process's exit ends every live incarnation, and another is launched after it exactly when the
-- unit was not asked to stop and either it is no oneshot, or it is one that declared
-- restart-on-failure and did not exit zero while Running.
exit-restarts :
    (m : Machine) (status : ℤ) (on_failure : Bool)
    → is_terminal m.state ≡ false
    → let s = (apply m (process_exited status)).0.state in
      (is_terminal s ≡ true)
      × (restarts m.kind s on_failure ≡ (
          not m.asked
          && (not (is_oneshot m.kind) || on_failure && not (is_running m.state && is_zero status))))
unfolding apply restarts
exit-restarts m status on_failure h = ground arith
