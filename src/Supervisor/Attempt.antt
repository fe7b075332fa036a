-- ===== src/Supervisor/Attempt.antt =====
-- internal/core/supervisor/supervisor.go: one launch of a unit, what its machine concludes, and what is
-- released by that. A launch that makes a unit ready at once releases its dependants, and so on; a
-- function that may release takes the release as an argument, and `release` runs on fuel.
-- `Answers` is what the outside answers to one launch: the files, the engine, the clock and the random
-- token; a fault is its text.
use yoke.Prelude.{
  equal_ℤ, ℕ, zero, suc, ◌+◌, String, Bool, true, false, not, ◌&&◌, Option, none, some, is_some,
  List, [], ◌∷◌, ◌++◌, get, put, string_discrete, ◌=?◌, if◌then◌else◌, keep,
}
use Prim.Native.String.{◌++◌ as str_append}
use yoke.Lifecycle.{
  Machine, Input, process_started, launch_failed, Transition, is_terminal, new_machine, apply,
  State, running, completed, refused, Condition,
}
use yoke.Lifecycle
use yoke.Supervisor.{
  Supervisor, Managed, Declared, Status, Skipped, Backend, host, Backend-discrete, Process,
  host_process, Told, begins, moves, skips, declines, ends, launch_fails, disposes, is_plugin,
  ready, with_unit, tell,
}
use yoke.Supervisor.Backoff.{settled}

pub record Answers : Type 0 where
  pub is_disabled : Bool
  pub directory : Option String
  pub needs : Option String
  pub has_engine : Bool
  pub opened : Option String
  pub unread : Option String
  pub digest : String
  pub unstarted : Option String
  pub pid : ℕ
  pub token : String
  pub number : ℕ
  pub now : ℕ

abbrev pub Release : Type 0
Release = Supervisor → String → Supervisor

abbrev pub same_condition : Option Condition → Option Condition → Bool
same_condition none c = false
same_condition (some c) none = false
same_condition (some c) (some d) = equal_ℤ c.grade d.grade && c.line =? d.line

-- When the condition last changed.
abbrev pub condition_moment : Status → Option Condition → ℕ → ℕ
condition_moment st c now =
    if is_some c && not (same_condition st.condition c) then now else st.condition_since

abbrev pub becomes_running : Option Transition → Bool
becomes_running none = false
becomes_running (some t) = Lifecycle.is_running t.to

-- What `apply` records of the machine's conclusion.
abbrev pub recorded : Managed → Machine → Option Transition → ℕ → Managed
recorded m n t now = record m {
  machine = n;
  ready_at = if becomes_running t then some now else m.ready_at;
  status = record m.status {
    state = some n.state;
    since = if is_some t then now else m.status.since;
    condition_since = condition_moment m.status n.condition now;
    condition = n.condition;
  };
}

abbrev pub tell_when : Bool → Told → Supervisor → Supervisor
tell_when b t s = if b then tell s t else s

-- What is recorded and told of the machine's conclusion.
unfoldable pub concluded :
    Release → ℕ → Supervisor → Managed → Machine → Option Transition → Supervisor
concluded release now s m n none = with_unit s (recorded m n none now)
concluded release now s m n (some t) =
    let s1 =
      tell (with_unit s (recorded m n (some t) now)) (moves m.decl m.incarnation t.from t.to) in
    let s2 = (if ready m.decl.kind t.to then release s1 m.decl.id else s1) in
    let s3 = tell_when (is_terminal t.to && is_some m.process) (disposes m.decl.id) s2 in
    tell_when (is_terminal t.to) (ends m.decl.id) s3

-- The machine is given one input.
unfoldable pub apply_input : Release → ℕ → Supervisor → Managed → Input → Supervisor
unfolding concluded
apply_input release now s m i =
    concluded release now s m (apply m.machine i).0 (apply m.machine i).1

unfoldable pub settle : ℕ → Supervisor → String → Supervisor
unfolding settled
settle now s id = elim (get string_discrete id s.units) [
  | none ↦ s
  | some m ↦ with_unit s (settled s m now)
]

-- An attempt that produced no process.
unfoldable pub failed_launch : Release → ℕ → Supervisor → Managed → String → Supervisor
unfolding apply_input settle
failed_launch release now s m why =
    let m' = record m { status = record m.status { failure = why } } in
    settle now
      (apply_input release now (tell s (launch_fails m.decl.id why)) m' (launch_failed why))
      m.decl.id

-- What a new attempt, a skip and a decline forget of the last.
abbrev pub cleared : Managed → Managed
cleared m = record m {
  incarnation = 0;
  window_out = false;
  exit_status = none;
  process = none;
  status = record m.status { is_waiting = false; failure = "" };
}

-- A oneshot that its range does not admit.
unfoldable pub skip : Release → ℕ → Supervisor → Managed → Skipped → Supervisor
skip release now s m k =
    let c = cleared m in
    let m' = record c {
      machine = Lifecycle.skipped m.decl.kind;
      status = record c.status { state = some completed; since = now };
    } in
    release (tell (with_unit s m') (skips m.decl k)) m.decl.id

-- A unit of a disabled plugin.
unfoldable pub decline : ℕ → Supervisor → Managed → Supervisor
decline now s m =
    let c = cleared m in
    tell
      (with_unit s (record c {
        machine = Lifecycle.declined m.decl.kind;
        restart = none;
        status = record c.status {
          state = some refused;
          since = now;
          attempt = 0;
          wait = 0;
          next_at = 0;
        };
      }))
      (declines m.decl)

abbrev pub or_fault : Option String → Option String → Option String
or_fault none f = f
or_fault (some why) f = some why

abbrev pub fault_when : Bool → String → Option String
fault_when b why = if b then some why else none

abbrev pub is_quiet : Supervisor → Backend → Bool
is_quiet s b = is_some (get Backend-discrete b s.quiet)

abbrev pub on_host : Declared → Bool
on_host u = u.image =? ""

abbrev pub when_plugin : Declared → Option String → Option String
when_plugin u f = if is_plugin u.kind then f else none

-- What stops a launch, in the order that it is looked for.
unfoldable pub launch_fault : Supervisor → Answers → Declared → Option String
launch_fault s a u =
    or_fault (fault_when (is_quiet s host && on_host u) "the host backend cannot be reached") (
      or_fault (when_plugin u a.directory) (
        or_fault a.needs (
          fault_when (not (on_host u) && not a.has_engine)
            "no container engine is reached, and the unit names an image")))

-- What stops the launch of a process: its executable, the digest it must have, and its start.
unfoldable pub host_fault : Answers → Declared → Option String
host_fault a u = or_fault a.opened (
    or_fault a.unread (
      or_fault
        (fault_when (not (u.digest =? "") && not (a.digest =? u.digest)) (
          str_append "the executable " (
            str_append u.exec (
              str_append " is "
                (str_append a.digest (str_append ", and the declaration says " u.digest))))))
        a.unstarted))

-- The unit with a life that is counted and named.
abbrev pub begun : Managed → Answers → ℕ → Option Process → Managed
begun m a pid p = record m {
  incarnation = a.number;
  process = p;
  status = record m.status { incarnation = a.number; pid = pid; token = a.token; since = a.now };
}

-- A process on the host, or why there is none.
unfoldable pub launch_process :
    Release → Answers → Supervisor → Managed → Option String → Supervisor
unfolding failed_launch apply_input
launch_process release a s m (some why) = failed_launch release a.now s m why
launch_process release a s m none =
    let m' = begun m a a.pid (some (host_process a.pid)) in
    apply_input release a.now (tell (with_unit s m') (begins m.decl a.number)) m' process_started

-- What is done of a launch at once: all of it on the host, and up to asking the engine of a container.
unfoldable pub launch_as : Release → Answers → Supervisor → Managed → Option String → Supervisor
unfolding failed_launch launch_process host_fault
launch_as release a s m (some why) = failed_launch release a.now s m why
launch_as release a s m none =
    if on_host m.decl
    then launch_process release a s m (host_fault a m.decl)
    else tell (with_unit s (begun m a 0 none)) (begins m.decl a.number)

unfoldable pub launch : Release → Answers → Supervisor → Managed → Supervisor
unfolding launch_as launch_fault
launch release a s m = launch_as release a s m (launch_fault s a m.decl)

-- The unit as an attempt finds it: a new machine, and no life with a number yet.
abbrev pub fresh : Managed → Managed
fresh m = record (cleared m) { machine = new_machine m.decl.kind; launching = 1 + m.launching }

unfoldable pub attempt_as : Release → Answers → Supervisor → Managed → Option Skipped → Supervisor
unfolding skip decline launch
attempt_as release a s m (some k) = skip release a.now s m k
attempt_as release a s m none =
    if is_plugin m.decl.kind && a.is_disabled
    then decline a.now s m
    else launch release a s (fresh m)

unfoldable pub attempt : Release → Answers → Supervisor → String → Supervisor
unfolding attempt_as
attempt release a s id = elim (get string_discrete id s.units) [
  | none ↦ s
  | some m ↦ attempt_as release a s m m.decl.skipped
]

abbrev pub without : String → List String → List String
without id = keep (λ d. not (d =? id))

abbrev pub stops_awaiting : String → Managed → Managed
stops_awaiting id m = record m {
  status = record m.status { awaiting = without id m.status.awaiting };
}

-- The held units await one unit less.
unfoldable pub arrived : String → List String → List (String × Managed) → List (String × Managed)
arrived id [] units = units
arrived id (h ∷ hs) units = elim (get string_discrete h units) [
  | none ↦ arrived id hs units
  | some m ↦ arrived id hs (put string_discrete h (stops_awaiting id m) units)
]

abbrev pub awaits_none : Option Managed → Bool
awaits_none none = false
awaits_none (some m) = elim m.status.awaiting [ [] ↦ true | d ∷ ds ↦ false ]

abbrev pub is_free : Supervisor → String → Bool
is_free s h = awaits_none (get string_discrete h s.units) && not s.is_stopping

abbrev pub let_go : Managed → Managed
let_go m = record m { hold = none; is_held = false; status = record m.status { awaiting = [] } }

abbrev pub freed : Supervisor → String → Supervisor
freed s h = elim (get string_discrete h s.units) [
  | none ↦ s
  | some m ↦ record (with_unit s (let_go m)) { order = s.order ++ h ∷ [] }
]

-- The units that are free, launched in their order.
unfoldable pub launch_all : Release → (String → Answers) → Supervisor → List String → Supervisor
unfolding attempt
launch_all release a s [] = s
launch_all release a s (h ∷ hs) = launch_all release a (attempt release (a h) (freed s h) h) hs

unfoldable pub release : ℕ → (String → Answers) → Release
unfolding arrived launch_all
release zero a s id = s
release (suc fuel) a s id =
    let s1 = record s { units = arrived id s.held s.units } in
    let free = keep (is_free s1) s.held in
    launch_all (release fuel a) a (record s1 { held = keep (λ h. not (is_free s1 h)) s.held }) free
