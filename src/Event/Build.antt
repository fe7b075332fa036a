-- ===== src/Event/Build.antt =====
-- internal/core/event/event.go: the events the Core builds for its own conclusions and for what a
-- unit or an operator did. `now` stands for `time.Now()`, and a unit's report for its fields.
use yoke.Prelude.{
  ℕ, ℤ, pos, String, Bool, Option, none, some, List, [], ◌∷◌, ◌++◌, if◌then◌else◌, ◌=?◌,
}
use yoke.Lifecycle.{
  State, starting, admitted, running, completed, stopped, failed, refused, Condition,
}
use yoke.Event.{
  Subject, Actor, Value, text, number, fields, Detail, no_detail, object, bytes, Event, routine,
  notable, serious, occurrence_type,
}

abbrev pub state_name : State → String
state_name starting = "Starting"
state_name admitted = "Admitted"
state_name running = "Running"
state_name completed = "Completed"
state_name stopped = "Stopped"
state_name failed = "Failed"
state_name refused = "Refused"

abbrev pub by : String → Actor
by c = record { actor_class = c; person = "" }

abbrev pub of_kind : String → String → Subject
of_kind k id = record { kind = k; id = id; incarnation = 0 }

abbrev pub unit_subject : String → ℕ → Subject
unit_subject id incarnation = record { kind = "unit"; id = id; incarnation = incarnation }

unfoldable pub concluded : ℕ → String → Subject → ℤ → Detail → Event
concluded now typ subject severity detail = record {
  seq = 0;
  typ = typ;
  subject = subject;
  time = now;
  actor = by "core";
  severity = severity;
  occurrence = "";
  cause = 0;
  detail = detail;
  line = "";
}

-- The grade of a change, by where it went.
unfoldable pub severity_of : State → ℤ
severity_of failed = serious
severity_of refused = notable
severity_of _ = routine

abbrev pub from_field : Option State → List (String × Value)
from_field none = []
from_field (some s) = ("from", text (state_name s)) ∷ []

abbrev pub plugin_field : String → List (String × Value)
plugin_field p = if p =? "" then [] else ("plugin", text p) ∷ []

unfoldable pub state_changed_of : ℕ → String → String → ℕ → Option State → State → Event
unfolding concluded severity_of
state_changed_of now id plugin incarnation from to =
    concluded now "unit.state.changed" (unit_subject id incarnation) (severity_of to)
      (object (("to", text (state_name to)) ∷ (from_field from ++ plugin_field plugin)))

unfoldable pub state_changed : ℕ → String → ℕ → Option State → State → Event
unfolding state_changed_of
state_changed now id incarnation from to = state_changed_of now id "" incarnation from to

unfoldable pub skipped_of : ℕ → String → String → String → Event
unfolding concluded
skipped_of now id range version = concluded now "unit.state.changed" (unit_subject id 0) routine (
    object (
      ("to", text (state_name completed))
      ∷ ("skipped", fields (("range", range) ∷ ("version", version) ∷ []))
      ∷ []))

unfoldable pub declined_of : ℕ → String → String → Event
unfolding concluded
declined_of now id plugin = concluded now "unit.state.changed" (unit_subject id 0) notable (
    object (
      ("to", text (state_name refused))
      ∷ ("plugin", text plugin)
      ∷ ("declined", fields (("reason", "plugin.disabled") ∷ []))
      ∷ []))

unfoldable pub stream_activated : ℕ → String → ℕ → String → Event
unfolding concluded
stream_activated now id incarnation stream =
    concluded now "unit.stream.activated" (unit_subject id incarnation) routine
      (object (("stream", text stream) ∷ []))

unfoldable pub stream_stopped : ℕ → String → ℕ → String → String → Bool → Event
unfolding concluded
stream_stopped now id incarnation stream reason asked =
    concluded now "unit.stream.stopped" (unit_subject id incarnation)
      (if asked then routine else notable)
      (object (("stream", text stream) ∷ ("reason", text reason) ∷ []))

unfoldable pub instance_ready : ℕ → String → Event
unfolding concluded
instance_ready now name = concluded now "instance.ready" (of_kind "instance" name) routine no_detail

unfoldable pub instance_stopping : ℕ → String → Event
unfolding concluded
instance_stopping now name =
    concluded now "instance.stopping" (of_kind "instance" name) routine no_detail

-- A unit's report of an occurrence: its severity, its name, its detail and its line.
pub record Reported : Type 0 where
  pub severity : ℕ
  pub occurrence : String
  pub detail : List ℕ
  pub line : String

unfoldable pub occurrence_reported : ℕ → String → ℕ → Reported → Event
occurrence_reported now id incarnation r = record {
  seq = 0;
  typ = occurrence_type;
  subject = unit_subject id incarnation;
  time = now;
  actor = by "unit";
  severity = pos r.severity;
  occurrence = r.occurrence;
  cause = 0;
  detail = bytes r.detail;
  line = r.line;
}

abbrev pub grade_field : String → Option ℤ → List (String × Value)
grade_field k none = []
grade_field k (some g) = (k, number g) ∷ []

unfoldable pub condition_changed : ℕ → String → ℕ → Option ℤ → ℤ → String → Event
unfolding concluded
condition_changed now id incarnation from to line =
    record (concluded now "unit.condition.changed" (unit_subject id incarnation) to
      (object (("to", number to) ∷ ("message", text line) ∷ grade_field "from" from))) {
        actor = by "unit";
        line = line;
      }

unfoldable pub unobservable : ℕ → String → ℕ → Option ℤ → String → Event
unfolding concluded
unobservable now id incarnation from line =
    record (concluded now "unit.condition.changed" (unit_subject id incarnation) notable
      (object (("to", number notable) ∷ ("message", text line) ∷ grade_field "from" from))) {
        line = line;
      }

abbrev pub own_fields : Option Condition → List (String × Value)
own_fields none = []
own_fields (some c) = ("to", number c.grade) ∷ ("message", text c.line) ∷ []

abbrev pub own_line : Option Condition → String
own_line none = ""
own_line (some c) = c.line

unfoldable pub observable : ℕ → String → ℕ → Option Condition → Event
unfolding concluded
observable now id incarnation to =
    record (concluded now "unit.condition.changed" (unit_subject id incarnation) routine
      (object (("from", number notable) ∷ own_fields to))) { line = own_line to }
