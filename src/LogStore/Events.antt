-- ===== src/LogStore/Events.antt =====
-- internal/core/logstore/logstore.go, `Counterpart` and `Keep`: the durable counterpart of an event. The
-- bytes of a detail are its encoding, which is an argument.
use yoke.Prelude.{ℕ, ◌≡◌, ◌≢◌, String, true, Option, none, some, List, if◌then◌else◌, ◌=?◌, arith}
use Prim.Native.String.{◌++◌ as str_append}
use yoke.Event.{Event, Subject, Detail, check}
use yoke.Event
use yoke.Event.Checked.{check-Fits}
use yoke.LogStore.{Entry, from_core, reported, Store, satisfies}
use yoke.LogStore.Writing.{append, Appended, no_unit}

abbrev pub in_registry : String
in_registry = "plugin.policy.changed"

-- Who caused something, as the column keeps it.
unfoldable pub actor_text : Event.Actor → String
actor_text a =
    if a.person =? "" then a.actor_class else str_append a.actor_class (str_append ":" a.person)

-- What the Core concluded, for a person.
unfoldable pub sentence : Event → String
sentence e =
    if e.line =? ""
    then str_append e.typ (str_append " " (str_append e.subject.kind (str_append ":" e.subject.id)))
    else e.line

unfoldable pub counterpart : (Detail → List ℕ) → Event → Entry
unfolding actor_text sentence
counterpart encoded e = record {
  seq = 0;
  at = e.time;
  unit = if e.subject.kind =? "unit" then e.subject.id else "";
  incarnation = if e.subject.kind =? "unit" then e.subject.incarnation else 0;
  source = if e.occurrence =? "" then from_core else reported;
  severity = e.severity;
  typ = e.typ;
  subject_kind = e.subject.kind;
  subject_id = e.subject.id;
  actor = actor_text e.actor;
  cause = e.cause;
  message = sentence e;
  detail = encoded e.detail;
}

unfoldable pub keep_event : (Detail → List ℕ) → Store → Event → Store × Option Appended
unfolding counterpart append
keep_event encoded s e =
    if e.typ =? in_registry
    then (s, none)
    else (let (s', a) = append s (counterpart encoded e) in (s', some a))

-- An event that passes the check is one that the store can keep: its counterpart is never refused by
-- `Append`, and satisfies what the table asks of a row.
counterpart-check :
    (encoded : Detail → List ℕ) (s : Store) (e : Event)
    → check e ≡ none
    → ((keep_event encoded s e).1 ≢ some no_unit) × (satisfies (counterpart encoded e) ≡ true)
unfolding keep_event counterpart append satisfies ◌=?◌
counterpart-check encoded s e h =
    let f = (check-Fits e).0 h in ground (arith, f.graded.1, f.graded.2, f.identified, f.lives)
