-- ===== src/Supervisor.antt =====
-- internal/core/supervisor/supervisor.go: the units of an instance, their launches, their restarts and
-- what each waits for. Everything done with the lock held is one step. A `*managed` is named by its
-- unit, so no two units of a deployment share an identity; what the supervisor tells the outside is kept
-- with the state, the newest first. A duration is its 64 bits, and a time a number of nanoseconds.
pub mod Waiting
pub mod Backoff
pub mod Attempt
pub mod Why
pub mod Steps
pub mod Fuel
pub mod Order
pub mod Releasing
pub mod Freeing
pub mod Starting
pub mod Keeping
pub mod Stopping
pub mod Lives
pub mod Observing
pub mod Lines
pub mod Speaking
pub mod Environment
pub mod Needs
pub mod Meeting
pub mod Expanding
mod Tests
use yoke.Prelude.{
  ℕ, ℤ, String, Bool, true, false, Option, none, some, List, [], ◌∷◌, get, put, string_discrete,
  ◌=?◌, if◌then◌else◌,
}
use yoke.Lifecycle.{
  Kind, State, starting, Machine, Condition, new_machine, is_oneshot, running, completed,
}

-- The deployment's figures.
pub record Policy : Type 0 where
  pub startup_window : ℕ
  pub stop_window : ℕ
  pub backoff : ℕ
  pub ceiling : ℕ
  pub stability_window : ℕ

pub record Skipped : Type 0 where
  pub range : String
  pub version : String

pub record Need : Type 0 where
  pub class : String
  pub path : String

-- One declared unit.
pub record Declared : Type 0 where
  pub id : String
  pub kind : Kind
  pub plugin : String
  pub exec : String
  pub image : String
  pub digest : String
  pub env : List (String × String)
  pub restart_on_failure : Bool
  pub depends_on : List String
  pub policy : Option Policy
  pub channel : String
  pub needs : List Need
  pub skipped : Option Skipped

pub data Backend : Type 0 where
  host container : Backend

unfoldable pub Backend-discrete : Discrete Backend
Backend-discrete = hlevel

-- An incarnation's process, however it was launched.
pub data Process : Type 0 where
  host_process : ℕ → Process
  container_process : String → Process

-- What is observed of a unit.
pub record Status : Type 0 where
  pub state : Option State
  pub since : ℕ
  pub condition_since : ℕ
  pub incarnation : ℕ
  pub pid : ℕ
  pub token : String
  pub condition : Option Condition
  pub failure : String
  pub is_waiting : Bool
  pub attempt : ℕ
  pub wait : ℕ
  pub next_at : ℕ
  pub awaiting : List String
  pub not_started : String

abbrev pub no_status : Status
no_status = record {
  state = none;
  since = 0;
  condition_since = 0;
  incarnation = 0;
  pid = 0;
  token = "";
  condition = none;
  failure = "";
  is_waiting = false;
  attempt = 0;
  wait = 0;
  next_at = 0;
  awaiting = [];
  not_started = "";
}

pub record Managed : Type 0 where
  pub decl : Declared
  pub machine : Machine
  pub status : Status
  pub process : Option Process
  pub launching : ℕ
  pub incarnation : ℕ
  pub failures : ℕ
  pub ready_at : Option ℕ
  pub window_out : Bool
  pub restart : Option ℕ
  pub exit_status : Option ℤ
  pub is_held : Bool
  pub is_unobserved : Bool
  pub hold : Option ℕ

abbrev pub managed : Declared → Managed
managed u = record {
  decl = u;
  machine = new_machine u.kind;
  status = no_status;
  process = none;
  launching = 0;
  incarnation = 0;
  failures = 0;
  ready_at = none;
  window_out = false;
  restart = none;
  exit_status = none;
  is_held = false;
  is_unobserved = false;
  hold = none;
}

-- What the supervisor tells: an event's matter to the bus, an ending to what is keyed by a live unit, a
-- launch that failed, a unit that was not started, and a process to dispose of.
pub data Told : Type 0 where
  begins : Declared → ℕ → Told
  moves : Declared → ℕ → State → State → Told
  skips : Declared → Skipped → Told
  declines : Declared → Told
  unobservable : String → ℕ → Option Condition → Told
  observable : String → ℕ → Option Condition → Told
  ends : String → Told
  launch_fails : String → String → Told
  never_starts : String → String → Told
  disposes : String → Told
  kills : String → Told

pub record Supervisor : Type 0 where
  pub policy : Policy
  pub root : String
  pub units : List (String × Managed)
  pub order : List String
  pub stop_order : List String
  pub is_stopping : Bool
  pub quiet : List (Backend × ℕ)
  pub held : List String
  pub told : List Told

abbrev pub backend_of : Declared → Backend
backend_of u = if u.image =? "" then host else container

abbrev pub backend_name : Backend → String
backend_name host = "host"
backend_name container = "container"

abbrev pub is_plugin : Kind → Bool
is_plugin Kind.plugin = true
is_plugin k = false

abbrev pub plugin_of : Declared → String
plugin_of u = if is_plugin u.kind then u.plugin else ""

-- Whether a unit has become ready by the definition its kind fixes.
unfoldable pub ready : Kind → State → Bool
ready Kind.oneshot completed = true
ready Kind.oneshot s = false
ready Kind.plugin running = true
ready Kind.plugin s = false
ready Kind.interface running = true
ready Kind.interface s = false

abbrev pub with_unit : Supervisor → Managed → Supervisor
with_unit s m = record s { units = put string_discrete m.decl.id m s.units }

abbrev pub tell : Supervisor → Told → Supervisor
tell s t = record s { told = t ∷ s.told }

-- The unit's own figures where it has them, and the deployment's otherwise.
abbrev pub policy_of : Supervisor → Managed → Policy
policy_of s m = elim m.decl.policy [ none ↦ s.policy | some p ↦ p ]
