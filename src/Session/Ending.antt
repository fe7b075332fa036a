-- ===== src/Session/Ending.antt =====
-- internal/core/session/session.go: over the steps of a Session, it ends once.
use yoke.Session.Receive.{
  act, acknowledged, answered, attribute, end_session, health_report, occurrence_report, receive,
  refuse,
}
use yoke.Session.Sending.{
  Step, perform, receives, sends, issues, gives_up, revokes, fires, forgets, loses, send, issue,
  wait, forget,
}
use yoke.Scope.{check, occurrence}
use yoke.Contract.{
  Cause, Code, liveness_lost, message_malformed, stream_inactive, protocol_failure, direction,
  correlation_missing, correlation_unknown, session_revoked, message_duplicate,
}
use yoke.Prelude.{
  ℕ, ◌+◌, List, [], ◌∷◌, ◌≡◌, refl, ◌≤◌, ◌⊎◌, String, Bool, true, false, Option, none, some,
  Option-cases, inl, inr, arith,
}
use yoke.Lifecycle.{session_ended}
use yoke.Session.{
  Effect, observes, Live, Envelope, Outcome, Payload, health, close_message, open_message,
  data_message, ack, answer, failure, core_failure, occurred, control, question, revoked_message,
  bare_message, other_payload, Control,
}

-- How many of a list of effects tell a machine that a Session ended.
abbrev pub endings : List Effect → ℕ
endings [] = 0
endings (observes u (session_ended w) ∷ es) = 1 + endings es
endings (e ∷ es) = endings es

-- A step tells of no ending after one, and of one ending at most, which it makes.
abbrev EndsOnce : Live → Live × List Effect → Type 0
EndsOnce l r =
    (l.is_ended ≡ true → (endings r.1 ≡ 0) × (r.0.is_ended ≡ true))
    × ((endings r.1 ≡ 0) ⊎ ((endings r.1 ≡ 1) × (r.0.is_ended ≡ true)))

refuse-EndsOnce : (l : Live) (c : Code) (s : String) → EndsOnce l (refuse l c s)
unfolding yoke.Session.queue
refuse-EndsOnce l c s = ground arith

end_session-EndsOnce : (l : Live) (how : Option (Cause × String)) → EndsOnce l (end_session l how)
unfolding end_session
end_session-EndsOnce l how = ground arith

answered-EndsOnce : (l : Live) (e : Envelope) (final : Bool) → EndsOnce l (answered l e final)
unfolding answered
answered-EndsOnce l e final = ground arith

acknowledged-EndsOnce : (l : Live) (e : Envelope) (o : Outcome) → EndsOnce l (acknowledged l e o)
unfolding acknowledged
acknowledged-EndsOnce l e o = ground (
  arith,
  answered-EndsOnce l e true,
  answered-EndsOnce l e false,
  refuse-EndsOnce l message_malformed e.message,
)

health_report-EndsOnce :
    (now : ℕ) (l : Live) (n : ℕ) (line : String) → EndsOnce l (health_report now l n line)
unfolding health_report
health_report-EndsOnce now l n line = ground arith

occurrence_report-EndsOnce :
    (l : Live) (m id : String) (n : ℕ) → EndsOnce l (occurrence_report l m id n)
unfolding occurrence_report
occurrence_report-EndsOnce l m id n =
    ground (arith, refuse-EndsOnce l (check l.terms.scope occurrence id) m)

act-EndsOnce : (now : ℕ) (l : Live) (e : Envelope) (p : Payload) → EndsOnce l (act now l e p)
unfolding act
act-EndsOnce now l e (health grade line) = health_report-EndsOnce now l grade line
act-EndsOnce now l e close_message = end_session-EndsOnce l none
act-EndsOnce now l e open_message =
    end_session-EndsOnce l (some (protocol_failure, "a Session is opened once"))
act-EndsOnce now l e data_message = refuse-EndsOnce l stream_inactive e.message
act-EndsOnce now l e (ack o) = acknowledged-EndsOnce l e o
act-EndsOnce now l e answer = answered-EndsOnce l e true
act-EndsOnce now l e (failure c) = ground (arith, answered-EndsOnce l e true)
act-EndsOnce now l e (core_failure c) = ground (arith, answered-EndsOnce l e true)
act-EndsOnce now l e (occurred id severity) = occurrence_report-EndsOnce l e.message id severity
act-EndsOnce now l e (control c) = ground arith
act-EndsOnce now l e (question q) = ground arith
act-EndsOnce now l e (revoked_message c line) = ground arith
act-EndsOnce now l e bare_message = ground arith
act-EndsOnce now l e other_payload = ground arith

attribute-EndsOnce :
    (now : ℕ) (l : Live) (e : Envelope) (p : Payload) → EndsOnce l (attribute now l e p)
unfolding attribute
attribute-EndsOnce now l e p = ground (
  arith,
  act-EndsOnce now l e p,
  refuse-EndsOnce l direction e.message,
  refuse-EndsOnce l correlation_missing e.message,
  refuse-EndsOnce l correlation_unknown e.message,
)

receive-EndsOnce : (now : ℕ) (l : Live) (e : Envelope) → EndsOnce l (receive now l e)
unfolding receive
receive-EndsOnce now l e = elim (Option-cases e.payload) [
  | inl n ↦ ground (arith, refuse-EndsOnce l message_malformed e.message)
  | inr (p, n) ↦ ground (
    arith,
    refuse-EndsOnce l message_malformed e.message,
    refuse-EndsOnce l session_revoked e.message,
    refuse-EndsOnce l message_duplicate e.message,
    attribute-EndsOnce now (record l { seen = e.message ∷ l.seen }) e p,
  )
]

perform-EndsOnce : (l : Live) (s : Step) → EndsOnce l (perform l s)
unfolding perform send issue wait forget yoke.Session.queue
perform-EndsOnce l (receives now e) = receive-EndsOnce now l e
perform-EndsOnce l (sends c p) = ground arith
perform-EndsOnce l (issues p) = ground arith
perform-EndsOnce l (gives_up id) = ground arith
perform-EndsOnce l (revokes cause line) = end_session-EndsOnce l (some (cause, line))
perform-EndsOnce l fires =
    end_session-EndsOnce l
      (some (liveness_lost, "no heartbeat arrived within the terms admission set"))
perform-EndsOnce l forgets = ground arith
perform-EndsOnce l loses = ground arith

-- How many endings the steps of a Session tell its unit's machine of.
unfoldable pub told_endings : Live → List Step → ℕ
unfolding perform
told_endings l [] = 0
told_endings l (s ∷ rest) = endings (perform l s).1 + told_endings (perform l s).0 rest

told_endings_ended : (l : Live) (todo : List Step) → l.is_ended ≡ true → told_endings l todo ≡ 0
unfolding told_endings
told_endings_ended l [] h = refl
told_endings_ended l (s ∷ rest) h =
    ground (arith, perform-EndsOnce l s, told_endings_ended (perform l s).0 rest)

-- Through any steps in any order (envelopes, sendings, revocations, the timer, the loss of the
-- stream), a Session's end is told to its unit's machine once at most.
pub told_endings-le-one : (l : Live) (todo : List Step) → told_endings l todo ≤ 1
unfolding told_endings
told_endings-le-one l [] = omega arith
told_endings-le-one l (s ∷ rest) = ground (
  arith,
  perform-EndsOnce l s,
  told_endings_ended (perform l s).0 rest,
  told_endings-le-one (perform l s).0 rest,
)
