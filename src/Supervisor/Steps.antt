-- ===== src/Supervisor/Steps.antt =====
-- internal/core/supervisor/supervisor.go: the operations of the supervisor, and any of them in any order.
use yoke.Prelude.{
  ℕ, suc, ◌+◌, ℤ, String, Bool, true, false, not, ◌&&◌, ◌||◌, none, some, is_some, List, [], ◌∷◌,
  ◌++◌, get, put, delete, string_discrete, ◌=?◌, ◌==◌, if◌then◌else◌, keep, contains, length,
}
use yoke.Lifecycle.{
  Input, process_exited, window_elapsed, admission_declined, admission_withdrawn, stop_asked,
  process_started, is_starting, is_admitted, is_terminal,
}
use yoke.Supervisor.{
  Supervisor, Managed, Declared, Backend, Backend-discrete, host, container_process, unobservable,
  observable, never_starts, kills, disposes, backend_of, is_plugin, with_unit, tell, managed,
  policy_of, Policy,
}
use yoke.Supervisor.Attempt.{
  Answers, Release, apply_input, settle, failed_launch, decline, attempt, release, is_quiet,
  without,
}
use yoke.Supervisor.Why.{chain}

abbrev pub is_empty : List String → Bool
is_empty [] = true
is_empty (x ∷ xs) = false

abbrev pub declared : List Declared → List (String × Managed) → List (String × Managed)
declared [] units = units
declared (u ∷ us) units = declared us (put string_discrete u.id (managed u) units)

abbrev pub dependent : Declared → Bool
dependent u = not (is_empty u.depends_on)

abbrev pub held_back : ℕ → Supervisor → Declared → Managed
held_back now s u =
    let m = managed u in
    record m {
      is_held = true;
      hold = some (now + (policy_of s m).startup_window);
      status = record m.status { awaiting = u.depends_on };
    }

-- The dependents, held before anything is launched.
abbrev pub hold_all : ℕ → Supervisor → List Declared → Supervisor
hold_all now s [] = s
hold_all now s (u ∷ us) =
    hold_all now (record (with_unit s (held_back now s u)) { held = s.held ++ u.id ∷ [] }) us

unfoldable pub launch_free : Release → (String → Answers) → Supervisor → List Declared → Supervisor
unfolding attempt
launch_free release a s [] = s
launch_free release a s (u ∷ us) =
    launch_free release a
      (attempt release (a u.id) (record s { order = s.order ++ u.id ∷ [] }) u.id) us

abbrev pub no_units : Policy → String → Supervisor
no_units p root = record {
  policy = p;
  root = root;
  units = [];
  order = [];
  stop_order = [];
  is_stopping = false;
  quiet = [];
  held = [];
  told = [];
}

-- The fuel of a release: each round launches a unit that was held, and it is held no more.
abbrev pub enough : Supervisor → ℕ
enough s = suc (length s.held)

unfoldable pub start : ℕ → (String → Answers) → Supervisor → List Declared → Supervisor
unfolding launch_free release
start now a s us =
    let s1 = record s { units = declared us s.units } in
    let s2 = hold_all now s1 (keep dependent us) in
    launch_free (release (enough s2) a) a s2 (keep (λ u. not (dependent u)) us)

unfoldable pub launch_unit : (String → Answers) → Supervisor → Declared → Supervisor
unfolding attempt release
launch_unit a s u =
    let s1 = record (with_unit s (managed u)) { order = s.order ++ u.id ∷ [] } in
    attempt (release (enough s1) a) (a u.id) s1 u.id

unfoldable pub never_arrived : Supervisor → String → Supervisor
unfolding chain
never_arrived s id = elim (get string_discrete id s.units) [
  | none ↦ s
  | some m ↦
      if s.is_stopping || not m.is_held
      then s
      else let cause = chain s id m in
        tell
          (record (with_unit s (record m {
            is_held = false;
            status = record m.status { awaiting = []; not_started = cause };
          })) { held = without id s.held })
          (never_starts id cause)
]

unfoldable pub window_ran_out : Supervisor → String → ℕ → Supervisor
window_ran_out s id incarnation = elim (get string_discrete id s.units) [
  | none ↦ s
  | some m ↦
      if not (m.incarnation == incarnation)
        || (not (is_starting m.machine.state) || not (is_some m.process))
      then s
      else tell (with_unit s (record m { window_out = true })) (kills id)
]

abbrev pub exit_input : Managed → ℤ → Input
exit_input m status = if m.window_out then window_elapsed else process_exited status

-- The kernel's report that an incarnation's process is gone.
unfoldable pub ended : ℕ → (String → Answers) → Supervisor → String → ℕ → ℤ → Supervisor
unfolding apply_input settle release
ended now a s id incarnation status = elim (get string_discrete id s.units) [
  | none ↦ s
  | some m ↦
      if not (m.incarnation == incarnation)
      then s
      else settle now
          (apply_input (release (enough s) a) now s
            (record m { process = none; exit_status = some status }) (exit_input m status))
          id
]

unfoldable pub input : ℕ → (String → Answers) → Supervisor → String → Input → Supervisor
unfolding apply_input release
input now a s id i = elim (get string_discrete id s.units) [
  | none ↦ s
  | some m ↦ apply_input (release (enough s) a) now s m i
]

-- A unit of a plugin that was disabled: what it becomes, and whether it moved.
unfoldable pub withdraw : ℕ → (String → Answers) → Supervisor → String → Supervisor × Bool
unfolding apply_input settle decline release
withdraw now a s id = elim (get string_discrete id s.units) [
  | none ↦ (s, false)
  | some m ↦
      if not (is_plugin m.decl.kind)
      then (s, false)
      else if is_starting m.machine.state
      then (settle now (apply_input (release (enough s) a) now s m admission_declined) id, true)
      else if is_admitted m.machine.state
      then (settle now (apply_input (release (enough s) a) now s m admission_withdrawn) id, true)
      else if is_terminal m.machine.state && m.status.is_waiting
      then (decline now s m, true)
      else (s, false)
]

abbrev pub runs_on : Backend → Managed → Bool
runs_on host m = is_some m.process && m.decl.image =? ""
runs_on Backend.container m = is_some m.process && not (m.decl.image =? "")

-- The units running on a backend that went quiet, marked and told of in the order of their launches.
unfoldable pub mark_quiet : Backend → Supervisor → List String → Supervisor
mark_quiet b s [] = s
mark_quiet b s (id ∷ ids) = elim (get string_discrete id s.units) [
  | none ↦ mark_quiet b s ids
  | some m ↦
      mark_quiet b
        (if runs_on b m
          then tell (with_unit s (record m { is_unobserved = true }))
              (unobservable id m.incarnation m.machine.condition)
          else s)
        ids
]

unfoldable pub go_quiet : Supervisor → Backend → ℕ → Supervisor
unfolding mark_quiet
go_quiet s b since =
    if is_quiet s b
    then s
    else mark_quiet b (record s { quiet = put Backend-discrete b since s.quiet }) s.order

unfoldable pub mark_observable : Supervisor → List String → Supervisor
mark_observable s [] = s
mark_observable s (id ∷ ids) = elim (get string_discrete id s.units) [
  | none ↦ mark_observable s ids
  | some m ↦
      mark_observable
        (if m.is_unobserved
          then tell (with_unit s (record m { is_unobserved = false }))
              (observable id m.incarnation m.machine.condition)
          else s)
        ids
]

unfoldable pub become_observable : Supervisor → Backend → Supervisor
unfolding mark_observable
become_observable s b =
    if is_quiet s b
    then mark_observable (record s { quiet = delete Backend-discrete b s.quiet }) s.order
    else s

-- A unit is asked to stop: its process, where it has one, is asked to go.
unfoldable pub stop_one : ℕ → (String → Answers) → Supervisor → String → Supervisor
unfolding apply_input release
stop_one now a s id = elim (get string_discrete id s.units) [
  | none ↦ s
  | some m ↦
      let m' = record m { restart = none; launching = 1 + m.launching } in
      if is_some m.process
      then tell (apply_input (release (enough s) a) now s m' stop_asked) (disposes id)
      else with_unit s m'
]

pub data Answer : Type 0 where
  done no_unit unreachable : Answer

unfoldable pub stop_unit : ℕ → (String → Answers) → Supervisor → String → Supervisor × Answer
unfolding stop_one
stop_unit now a s id = elim (get string_discrete id s.units) [
  | none ↦ (s, no_unit)
  | some m ↦
      if is_quiet s (backend_of m.decl) then (s, unreachable) else (stop_one now a s id, done)
]

unfoldable pub start_unit : (String → Answers) → Supervisor → String → Supervisor × Answer
unfolding attempt release
start_unit a s id = elim (get string_discrete id s.units) [
  | none ↦ (s, no_unit)
  | some m ↦
      if is_quiet s (backend_of m.decl)
      then (s, unreachable)
      else if m.is_held || (is_some m.process && not (is_terminal m.machine.state))
      then (s, done)
      else (let s1 = record (with_unit s (record m { restart = none; failures = 0 })) {
        order = if contains s.order id then s.order else s.order ++ id ∷ [];
      } in
          (attempt (release (enough s1) a) (a id) s1 id, done))
]

-- The timer of a restart, as it fires.
unfoldable pub restarted : (String → Answers) → Supervisor → String → Supervisor
unfolding attempt release
restarted a s id = if s.is_stopping then s else attempt (release (enough s) a) (a id) s id

-- The engine's answer to a launch: a container that it started, or why there is none.
unfoldable pub container_started :
    ℕ → (String → Answers) → Supervisor → String → ℕ → String → Supervisor
unfolding apply_input release
container_started now a s id launching box = elim (get string_discrete id s.units) [
  | none ↦ s
  | some m ↦
      if not (m.launching == launching) || s.is_stopping
      then tell s (kills id)
      else apply_input (release (enough s) a) now s
          (record m { process = some (container_process box) }) process_started
]

unfoldable pub container_failed :
    ℕ → (String → Answers) → Supervisor → String → ℕ → String → Supervisor
unfolding failed_launch release
container_failed now a s id launching why = elim (get string_discrete id s.units) [
  | none ↦ s
  | some m ↦
      if m.launching == launching && not s.is_stopping
      then failed_launch (release (enough s) a) now s m why
      else s
]

abbrev pub timers_stopped : List (String × Managed) → List (String × Managed)
timers_stopped [] = []
timers_stopped ((k, m) ∷ units) =
    (k, record m { restart = none; hold = none }) ∷ timers_stopped units

-- The first section of `Stop`.
abbrev pub begin_stop : Supervisor → Supervisor
begin_stop s = record s { is_stopping = true; units = timers_stopped s.units }

-- One turn of its loop.
unfoldable pub stop_turn : ℕ → (String → Answers) → Supervisor → String → Supervisor
unfolding stop_unit
stop_turn now a s id = (stop_unit now a (record s { stop_order = s.stop_order ++ id ∷ [] }) id).0
