-- ===== src/Session.antt =====
-- internal/core/session/session.go: the Sessions of admitted units. A critical section and what follows
-- it outside the lock is one step; what it tells the unit's lifecycle machine, the bus and a caller
-- that waits is returned with the state, as effects. A Session stays in the map of all there were, and
-- the map `s.open` is the list of the identities open. The timer is whether it runs and when it
-- fires. The text of an error and the time an envelope is sent are left out.
pub mod Receive
pub mod Receiving
pub mod Ending
pub mod Sending
mod Tests
pub mod Opening
pub mod Numbers
use yoke.Prelude.{
  zero, ℕ, ℤ, pos, suc, ◌+◌, ◌*◌, ◌/◌, ◌%◌, String, Bool, true, false, not, ◌&&◌, ◌||◌, Option,
  none, some, is_some, List, [], ◌∷◌, ◌++◌, if◌then◌else◌, ltb, leb, ◌==◌, ◌=?◌, get, put, delete,
  string_discrete, contains,
}
use Prim.Native.String.{slice, ◌++◌ as str_append}
use yoke.Contract.{
  Code, unspecified, message_malformed, session_revoked, message_duplicate, direction,
  correlation_missing, correlation_unknown, stream_inactive, Cause, no_cause, liveness_lost,
  plugin_disabled, protocol_failure,
}
use yoke.Lifecycle.{Input}
use yoke.Scope.{Scope, Kind, check}

pub data Outcome : Type 0 where
  outcome_unspecified outcome_accepted outcome_done outcome_failed : Outcome

-- An instruction of the Core: a command by its type, a stream's activation or stop, or another.
pub data Control : Type 0 where
  command activate stop : String → Control
  other_control : Control

pub data Payload : Type 0 where
  open_message close_message bare_message : Payload
  revoked_message : Cause → String → Payload
  control : Control → Payload
  question : String → Payload
  answer : Payload
  ack : Outcome → Payload
  failure : String → Payload
  core_failure : Code → Payload
  health : ℕ → String → Payload
  occurred : String → ℕ → Payload
  data_message other_payload : Payload

pub record Envelope : Type 0 where
  pub message : String
  pub session : String
  pub correlation : String
  pub payload : Option Payload

-- What admission issued with a Session identity.
pub record Admitted : Type 0 where
  pub unit : String
  pub incarnation : ℕ
  pub interval : ℕ
  pub tolerance : ℕ
  pub scope : Option Scope

pub record Exchange : Type 0 where
  pub is_instruction : Bool
  pub is_accepted : Bool
  pub is_handed : Bool
  pub has_waiter : Bool

pub record Live : Type 0 where
  pub id : String
  pub terms : Admitted
  pub out : List Envelope
  pub is_done : Bool
  pub seen : List String
  pub sent : List String
  pub exchanges : List (String × Exchange)
  pub next : ℕ
  pub timer : Option ℕ
  pub is_ended : Bool
  pub is_lost : Bool
  pub condition : Option (ℕ × String)

-- What a step tells: an input to a unit's machine, a change of a unit's condition or an occurrence to the
-- bus, and an answer to whoever waits for it.
pub data Effect : Type 0 where
  observes : String → Input → Effect
  condition_changes : String → ℕ → Option ℕ → ℕ → String → Effect
  reports : String → ℕ → String → ℕ → Effect
  hands : String → Envelope → Effect

abbrev pub outbox : ℕ
outbox = 64

-- How many envelopes wait to be sent.
abbrev pub length : List Envelope → ℕ
length [] = 0
length (e ∷ es) = 1 + length es

abbrev pub window : Admitted → ℕ
window t = t.interval * (if ltb t.tolerance 1 then 1 else t.tolerance)

abbrev digit : ℕ → String
digit n = slice "0123456789" n (n + 1)

-- The decimal digits of a number; a number has no more digits than its own value, but 0, which has one.
unfoldable pub digits : ℕ → ℕ → String
digits zero n = digit n
digits (suc fuel) n =
    let rest = digits fuel (n / 10) in
    if ltb n 10 then digit n else str_append rest (digit (n % 10))

-- `fmt.Sprintf("c-%d", n)`.
unfoldable pub numbered : ℕ → String
unfolding digits
numbered n = str_append "c-" (digits n n)

abbrev pub opens_exchange : Option Payload → Option Bool
opens_exchange (some (control c)) = some true
opens_exchange (some (question q)) = some false
opens_exchange _ = none

abbrev pub fresh_exchange : Bool → Exchange
fresh_exchange instruction = record {
  is_instruction = instruction;
  is_accepted = false;
  is_handed = false;
  has_waiter = false;
}

abbrev pub posted : List Envelope → Envelope → List Envelope
posted out e = if ltb (length out) outbox then out ++ e ∷ [] else out

abbrev pub with_exchange :
    List (String × Exchange) → String → Option Bool → List (String × Exchange)
with_exchange m k none = m
with_exchange m k (some b) = put string_discrete k (fresh_exchange b) m

-- An envelope from the Core, its header filled.
unfoldable pub queue : Live → String → Option Payload → Live
queue l correlation p =
    let id = numbered (suc l.next) in
    record l {
      next = suc l.next;
      sent = id ∷ l.sent;
      exchanges = with_exchange l.exchanges id (opens_exchange p);
      out =
          posted l.out
            (record { message = id; session = l.id; correlation = correlation; payload = p });
    }

abbrev pub on_the_scale : ℕ → ℕ
on_the_scale n = if leb n 99 then n else 99
