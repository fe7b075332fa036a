-- ===== src/Session/Receive.antt =====
-- internal/core/session/session.go, `receive`, `answered` and `end`: what an envelope from a unit does.
use yoke.Prelude.{
  pos, ℕ, ◌+◌, String, Bool, true, false, not, ◌&&◌, ◌||◌, Option, none, some, List, [], ◌∷◌,
  if◌then◌else◌, ◌==◌, ◌=?◌, get, put, delete, string_discrete, contains,
}
use yoke.Contract.{
  Code, unspecified, message_malformed, session_revoked, message_duplicate, direction,
  correlation_missing, correlation_unknown, stream_inactive, Cause, plugin_disabled,
  protocol_failure,
}
use yoke.Lifecycle.{session_ended, reported}
use yoke.Scope.{check, occurrence}
use yoke.Session.{
  Outcome, outcome_unspecified, outcome_accepted, outcome_done, outcome_failed, Payload,
  open_message, close_message, bare_message, revoked_message, control, question, answer, ack,
  failure, core_failure, health, occurred, data_message, other_payload, Envelope, Exchange, Live,
  Effect, observes, condition_changes, reports, hands, window, numbered, posted, queue,
  on_the_scale,
}

abbrev pub refuse : Live → Code → String → Live × List Effect
refuse l c correlation = (queue l correlation (some (core_failure c)), [])

abbrev pub is_disabling : Cause → Bool
is_disabling plugin_disabled = true
is_disabling _ = false

-- The notice of a revocation, where the stream is still there.
abbrev pub notified : Live → Cause → String → Live
notified l cause line = if l.is_lost then l else record l {
  next = 1 + l.next;
  out = posted l.out (record {
    message = numbered (1 + l.next);
    session = l.id;
    correlation = "";
    payload = some (revoked_message cause line);
  });
}

abbrev pub finished : Live → Live
finished l = record l { is_ended = true; timer = none; is_done = true }

-- A Session ends once: closed by the unit, or revoked by the Core for a cause.
unfoldable pub end_session : Live → Option (Cause × String) → Live × List Effect
end_session l how = if l.is_ended then (l, []) else elim how [
  | none ↦ (finished l, observes l.terms.unit (session_ended false) ∷ [])
  | some c ↦
      (finished (notified l c.0 c.1), observes l.terms.unit (session_ended (is_disabling c.0)) ∷ [])
]

abbrev pub drop_exchange : Bool → String → List (String × Exchange) → List (String × Exchange)
drop_exchange true k m = delete string_discrete k m
drop_exchange false k m = m

-- The exchange after an answer: handed now, and its waiter gone if it was.
abbrev pub after_answer : Exchange → Bool → Exchange
after_answer x final = record x {
  is_handed = true;
  is_accepted = x.is_accepted || not final;
  has_waiter = x.has_waiter && x.is_handed;
}

unfoldable pub answered : Live → Envelope → Bool → Live × List Effect
answered l e final = elim (get string_discrete e.correlation l.exchanges) [
  | none ↦ (l, [])
  | some x ↦ (
    record l {
      exchanges =
          drop_exchange final e.correlation
            (put string_discrete e.correlation (after_answer x final) l.exchanges);
    },
    if not x.is_handed && x.has_waiter then hands e.correlation e ∷ [] else [],
  )
]

abbrev pub same_condition : Option (ℕ × String) → ℕ → String → Bool
same_condition none grade line = false
same_condition (some c) grade line = c.0 == grade && c.1 =? line

abbrev pub grade_of : Option (ℕ × String) → Option ℕ
grade_of none = none
grade_of (some c) = some (c.0)

-- A health report counts as a heartbeat, and is told to the machine and the bus where the grade or its
-- line changed.
unfoldable pub health_report : ℕ → Live → ℕ → String → Live × List Effect
health_report now l declared line =
    let grade = on_the_scale declared in
    (
      record l { timer = some (now + window l.terms); condition = some (grade, line) },
      if same_condition l.condition grade line
          then []
          else observes l.terms.unit
              (reported (record { view = none; grade = pos grade; line = line }))
            ∷ condition_changes l.terms.unit l.terms.incarnation (grade_of l.condition) grade line
            ∷ [],
    )

abbrev pub is_unspecified : Code → Bool
is_unspecified unspecified = true
is_unspecified _ = false

unfoldable pub occurrence_report : Live → String → String → ℕ → Live × List Effect
occurrence_report l message id severity =
    let code = check l.terms.scope occurrence id in
    if is_unspecified code
    then (l, reports l.terms.unit l.terms.incarnation id (on_the_scale severity) ∷ [])
    else refuse l code message

abbrev pub awaits : Bool → Option Exchange → Bool
awaits instruction none = false
awaits true (some x) = x.is_instruction
awaits false (some x) = not x.is_instruction

abbrev pub already_accepted : Option Exchange → Bool
already_accepted none = false
already_accepted (some x) = x.is_accepted

unfoldable pub acknowledged : Live → Envelope → Outcome → Live × List Effect
unfolding answered
acknowledged l e outcome_unspecified = refuse l message_malformed e.message
acknowledged l e outcome_accepted =
    if already_accepted (get string_discrete e.correlation l.exchanges)
    then refuse l message_malformed e.message
    else answered l e false
acknowledged l e outcome_done = answered l e true
acknowledged l e outcome_failed = answered l e true

-- 7, semantics.
unfoldable pub act : ℕ → Live → Envelope → Payload → Live × List Effect
unfolding end_session health_report acknowledged answered occurrence_report
act now l e (health grade line) = health_report now l grade line
act now l e close_message = end_session l none
act now l e open_message = end_session l (some (protocol_failure, "a Session is opened once"))
act now l e data_message = refuse l stream_inactive e.message
act now l e (ack o) = acknowledged l e o
act now l e answer = answered l e true
act now l e (failure c) = if e.correlation =? "" then (l, []) else answered l e true
act now l e (core_failure c) = if e.correlation =? "" then (l, []) else answered l e true
act now l e (occurred id severity) = occurrence_report l e.message id severity
act now l e (control c) = (l, [])
act now l e (question q) = (l, [])
act now l e (revoked_message c line) = (l, [])
act now l e bare_message = (l, [])
act now l e other_payload = (l, [])

abbrev pub is_core_family : Payload → Bool
is_core_family (control c) = true
is_core_family (question q) = true
is_core_family (revoked_message c line) = true
is_core_family _ = false

abbrev pub is_ack : Payload → Bool
is_ack (ack o) = true
is_ack _ = false

abbrev pub is_answer : Payload → Bool
is_answer answer = true
is_answer _ = false

abbrev pub is_error : Payload → Bool
is_error (failure c) = true
is_error (core_failure c) = true
is_error _ = false

-- 5 and 6, direction and correlation, of a message whose identity is new.
unfoldable pub attribute : ℕ → Live → Envelope → Payload → Live × List Effect
attribute now l e p =
    let answers = is_ack p || is_answer p in
    let x = get string_discrete e.correlation l.exchanges in
    if is_core_family p
    then refuse l direction e.message
    else if answers && e.correlation =? ""
    then refuse l correlation_missing e.message
    else if (answers || (is_error p && not (e.correlation =? "")))
        && (not (contains l.sent e.correlation) || e.correlation =? e.message)
    then refuse l correlation_unknown e.message
    else if (is_ack p && not (awaits true x)) || (is_answer p && not (awaits false x))
    then refuse l correlation_unknown e.message
    else act now l e p

unfoldable pub receive : ℕ → Live → Envelope → Live × List Effect
receive now l e = elim e.payload [
  | none ↦ refuse l message_malformed e.message
  | some p ↦
      if e.message =? "" || e.session =? ""
      then refuse l message_malformed e.message
      else if not (e.session =? l.id)
      then (l, [])
      else if l.is_ended
      then refuse l session_revoked e.message
      else if contains l.seen e.message
      then refuse l message_duplicate e.message
      else attribute now (record l { seen = e.message ∷ l.seen }) e p
]
