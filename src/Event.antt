-- ===== src/Event.antt =====
-- internal/core/event/event.go: what the Core publishes, the declared types and their classes, and the
-- check that an event fits its eight fields.
-- A kind and an actor's class are the Go strings that they are there, since `Check` weighs values
-- outside the declared ones. A time is a number of nanoseconds, zero for `time.Time{}`. The detail
-- is the object that `json.Marshal` would write, or a report's bytes as they arrived.
pub mod Text
pub mod Build
pub mod Surfaces
pub mod Filter
pub mod Segments
pub mod Checked
pub mod Conclusions
mod Tests
use Text.{codes, eq_codes, first_segment}
use yoke.Prelude.{
  ℕ, ℤ, pos, negsuc, ltb_ℤ, String, Bool, true, false, not, ◌&&◌, ◌||◌, Option, none, some, is_some,
  List, [], ◌∷◌, if◌then◌else◌, ◌==◌, contains, ◌=?◌, get, string_discrete,
}

pub record Subject : Type 0 where
  pub kind : String
  pub id : String
  pub incarnation : ℕ

pub record Actor : Type 0 where
  pub actor_class : String
  pub person : String

-- The values a detail's fields take.
pub data Value : Type 0 where
  text : String → Value
  number : ℤ → Value
  flag : Bool → Value
  texts : List String → Value
  fields : List (String × String) → Value
  moment : ℕ → Value

pub data Detail : Type 0 where
  no_detail : Detail
  object : List (String × Value) → Detail
  bytes : List ℕ → Detail

pub data Class : Type 0 where
  level edge : Class

pub record Event : Type 0 where
  pub seq : ℕ
  pub typ : String
  pub subject : Subject
  pub time : ℕ
  pub actor : Actor
  pub severity : ℤ
  pub occurrence : String
  pub cause : ℕ
  pub detail : Detail
  pub line : String

abbrev pub routine : ℤ
routine = pos 10

abbrev pub notable : ℤ
notable = pos 30

abbrev pub serious : ℤ
serious = pos 50

abbrev pub critical : ℤ
critical = pos 70

abbrev pub declared : List (String × Class)
declared =
    ("instance.ready", level)
    ∷ ("instance.stopping", level)
    ∷ ("unit.state.changed", level)
    ∷ ("unit.condition.changed", level)
    ∷ ("unit.occurrence.reported", edge)
    ∷ ("unit.stream.activated", level)
    ∷ ("unit.stream.stopped", level)
    ∷ ("document.resolved", level)
    ∷ ("document.rejected", edge)
    ∷ ("connection.opened", level)
    ∷ ("channel.attached", level)
    ∷ ("channel.detached", level)
    ∷ ("channel.suspended", level)
    ∷ ("channel.resumed", level)
    ∷ ("channel.subscription.stale", level)
    ∷ ("connection.closed", level)
    ∷ ("plugin.policy.changed", level)
    ∷ []

abbrev pub occurrence_type : String
occurrence_type = "unit.occurrence.reported"

abbrev pub kinds : List String
kinds = "instance" ∷ "unit" ∷ "plugin" ∷ "channel" ∷ "document" ∷ "connection" ∷ []

abbrev pub actor_classes : List String
actor_classes = "core" ∷ "operator" ∷ "unit" ∷ "host" ∷ []

unfoldable pub class_of : String → Option Class
class_of t = get string_discrete t declared

unfoldable pub declared_type : String → Bool
declared_type t = is_some (get string_discrete t declared)

-- The field an event is refused for.
pub data Fault : Type 0 where
  no_type undeclared_type other_kind unknown_kind no_identity : Fault
  incarnation_of_no_unit unknown_actor off_scale no_time : Fault
  no_occurrence stray_occurrence : Fault

-- The `switch` of `Check`, its cases in their order; `none` is a nil error.
unfoldable pub check : Event → Option Fault
check e =
    if e.typ =? ""
    then some no_type
    else if not (declared_type e.typ)
    then some undeclared_type
    else if not (eq_codes (first_segment (codes e.typ)) (codes e.subject.kind))
    then some other_kind
    else if not (contains kinds e.subject.kind)
    then some unknown_kind
    else if e.subject.id =? ""
    then some no_identity
    else if not (e.subject.kind =? "unit") && not (e.subject.incarnation == 0)
    then some incarnation_of_no_unit
    else if not (contains actor_classes e.actor.actor_class)
    then some unknown_actor
    else if ltb_ℤ e.severity (pos 0) || ltb_ℤ (pos 99) e.severity
    then some off_scale
    else if e.time == 0
    then some no_time
    else if e.typ =? occurrence_type && e.occurrence =? ""
    then some no_occurrence
    else if not (e.typ =? occurrence_type) && not (e.occurrence =? "")
    then some stray_occurrence
    else none
