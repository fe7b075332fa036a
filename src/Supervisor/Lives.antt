-- ===== src/Supervisor/Lives.antt =====
-- internal/core/supervisor/supervisor.go: an instance's units through any of the supervisor's steps.
use yoke.Prelude.{ℕ, ℤ, ◌≡◌, String, true, List, contains}
use yoke.Lifecycle.{Input}
use yoke.Supervisor.{Policy, Supervisor, Declared, Backend}
use yoke.Supervisor.Attempt.{Answers}
use yoke.Supervisor.Steps.{
  start, no_units, never_arrived, window_ran_out, ended, input, withdraw, go_quiet,
  become_observable, stop_unit, stop_turn, start_unit, restarted, container_started,
  container_failed, begin_stop,
}
use yoke.Supervisor.Order.{Dependable, Inv}
use yoke.Supervisor.Keeping.{
  ended-Inv, input-Inv, window_ran_out-Inv, never_arrived-Inv, go_quiet-Inv, become_observable-Inv,
}
use yoke.Supervisor.Stopping.{
  withdraw-Inv, stop_unit-Inv, stop_turn-Inv, start_unit-Inv, restarted-Inv, container_started-Inv,
  container_failed-Inv, begin_stop-Inv,
}
use yoke.Supervisor.Starting.{Distinct, start-Inv}

-- What happens to a supervisor that a deployment's units were started on. A restart's timer, and an
-- operator who starts a unit, are of a unit that was launched before.
pub data Reachable : Supervisor → Type 0 where
  starts :
      (now : ℕ) (a : String → Answers) (p : Policy) (root : String) (us : List Declared)
      → Distinct us
      → Reachable (start now a (no_units p root) us)
  exits :
      {s : Supervisor} (now : ℕ) (a : String → Answers) (id : String) (n : ℕ) (status : ℤ)
      → Reachable s
      → Reachable (ended now a s id n status)
  receives :
      {s : Supervisor} (now : ℕ) (a : String → Answers) (id : String) (i : Input)
      → Reachable s
      → Reachable (input now a s id i)
  misses : {s : Supervisor} (id : String) (n : ℕ) → Reachable s → Reachable (window_ran_out s id n)
  gives_up : {s : Supervisor} (id : String) → Reachable s → Reachable (never_arrived s id)
  quiets : {s : Supervisor} (b : Backend) (since : ℕ) → Reachable s → Reachable (go_quiet s b since)
  returns : {s : Supervisor} (b : Backend) → Reachable s → Reachable (become_observable s b)
  withdraws :
      {s : Supervisor} (now : ℕ) (a : String → Answers) (id : String)
      → Reachable s
      → Reachable (withdraw now a s id).0
  stops :
      {s : Supervisor} (now : ℕ) (a : String → Answers) (id : String)
      → Reachable s
      → Reachable (stop_unit now a s id).0
  restarts :
      {s : Supervisor} (a : String → Answers) (id : String)
      → contains s.order id ≡ true
      → Reachable s
      → Reachable (restarted a s id)
  starts_again :
      {s : Supervisor} (a : String → Answers) (id : String)
      → contains s.order id ≡ true
      → Reachable s
      → Reachable (start_unit a s id).0
  box_starts :
      {s : Supervisor} (now : ℕ) (a : String → Answers) (id : String) (n : ℕ) (box : String)
      → Reachable s
      → Reachable (container_started now a s id n box)
  box_fails :
      {s : Supervisor} (now : ℕ) (a : String → Answers) (id : String) (n : ℕ) (why : String)
      → Reachable s
      → Reachable (container_failed now a s id n why)
  begins_stop : {s : Supervisor} → Reachable s → Reachable (begin_stop s)
  stop_turns :
      {s : Supervisor} (now : ℕ) (a : String → Answers) (id : String)
      → Reachable s
      → Reachable (stop_turn now a s id)

pub reachable-Inv : {s : Supervisor} → Reachable s → Inv s
reachable-Inv (starts now a p root us d) = start-Inv now a p root us d
reachable-Inv (exits {s} now a id n st r) = ended-Inv now a s id n st (reachable-Inv r)
reachable-Inv (receives {s} now a id i r) = input-Inv now a s id i (reachable-Inv r)
reachable-Inv (misses {s} id n r) = window_ran_out-Inv s id n (reachable-Inv r)
reachable-Inv (gives_up {s} id r) = never_arrived-Inv s id (reachable-Inv r)
reachable-Inv (quiets {s} b since r) = go_quiet-Inv s b since (reachable-Inv r)
reachable-Inv (returns {s} b r) = become_observable-Inv s b (reachable-Inv r)
reachable-Inv (withdraws {s} now a id r) = withdraw-Inv now a s id (reachable-Inv r)
reachable-Inv (stops {s} now a id r) = stop_unit-Inv now a s id (reachable-Inv r)
reachable-Inv (restarts {s} a id o r) = restarted-Inv a s id o (reachable-Inv r)
reachable-Inv (starts_again {s} a id o r) = start_unit-Inv a s id o (reachable-Inv r)
reachable-Inv (box_starts {s} now a id n box r) =
    container_started-Inv now a s id n box (reachable-Inv r)
reachable-Inv (box_fails {s} now a id n why r) =
    container_failed-Inv now a s id n why (reachable-Inv r)
reachable-Inv (begins_stop {s} r) = begin_stop-Inv s (reachable-Inv r)
reachable-Inv (stop_turns {s} now a id r) = stop_turn-Inv now a s id (reachable-Inv r)

-- However a deployment's units of distinct identities were started, and whatever happened since (units
-- that exit, fail, report, miss their windows, are stopped, started again after a launch or withdrawn,
-- backends that go quiet, engines that answer), each life that began did so after every unit that its
-- own depends on had become ready: Running, or Completed of a oneshot.
pub reachable-Dependable : {s : Supervisor} → Reachable s → Dependable s.told
reachable-Dependable r = (reachable-Inv r).0
