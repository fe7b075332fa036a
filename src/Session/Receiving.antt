-- ===== src/Session/Receiving.antt =====
-- internal/core/session/session.go: what a message of the unit's is told of, it is told of once.
use yoke.Session.Receive.{
  act, acknowledged, answered, attribute, end_session, health_report, occurrence_report, receive,
  refuse,
}
use yoke.Session.Sending.{
  Step, perform, receives, sends, issues, gives_up, revokes, fires, forgets, loses, send, issue,
  wait, forget,
}
use yoke.Scope.{check, occurrence}
use yoke.Contract.{
  Cause, Code, message_malformed, stream_inactive, protocol_failure, direction, correlation_missing,
  correlation_unknown,
}
use yoke.Prelude.{
  ℕ, ◌+◌, List, [], ◌∷◌, ◌≡◌, refl, ◌≤◌, ◌⊎◌, String, Bool, true, false, Option, none, some,
  Option-cases, inl, inr, arith, contains, ◌=?◌, if◌then◌else◌, ap,
}
use yoke.Session.{
  Effect, observes, Live, Envelope, Outcome, Payload, health, close_message, open_message,
  data_message, ack, answer, failure, core_failure, occurred, control, question, revoked_message,
  bare_message, other_payload, Control, condition_changes, reports, hands,
}

-- What a step leaves as it was: the identities seen.
abbrev SameSeen : Live → Live × List Effect → Type 0
SameSeen l r = r.0.seen ≡ l.seen

refuse-SameSeen : (l : Live) (c : Code) (s : String) → SameSeen l (refuse l c s)
unfolding yoke.Session.queue
refuse-SameSeen l c s = ground arith

end_session-SameSeen : (l : Live) (how : Option (Cause × String)) → SameSeen l (end_session l how)
unfolding end_session
end_session-SameSeen l how = ground arith

answered-SameSeen : (l : Live) (e : Envelope) (final : Bool) → SameSeen l (answered l e final)
unfolding answered
answered-SameSeen l e final = ground arith

acknowledged-SameSeen : (l : Live) (e : Envelope) (o : Outcome) → SameSeen l (acknowledged l e o)
unfolding acknowledged
acknowledged-SameSeen l e o = ground (
  arith,
  answered-SameSeen l e true,
  answered-SameSeen l e false,
  refuse-SameSeen l message_malformed e.message,
)

health_report-SameSeen :
    (now : ℕ) (l : Live) (n : ℕ) (line : String) → SameSeen l (health_report now l n line)
unfolding health_report
health_report-SameSeen now l n line = ground arith

occurrence_report-SameSeen :
    (l : Live) (m id : String) (n : ℕ) → SameSeen l (occurrence_report l m id n)
unfolding occurrence_report
occurrence_report-SameSeen l m id n =
    ground (arith, refuse-SameSeen l (check l.terms.scope occurrence id) m)

act-SameSeen : (now : ℕ) (l : Live) (e : Envelope) (p : Payload) → SameSeen l (act now l e p)
unfolding act
act-SameSeen now l e (health grade line) = health_report-SameSeen now l grade line
act-SameSeen now l e close_message = end_session-SameSeen l none
act-SameSeen now l e open_message =
    end_session-SameSeen l (some (protocol_failure, "a Session is opened once"))
act-SameSeen now l e data_message = refuse-SameSeen l stream_inactive e.message
act-SameSeen now l e (ack o) = acknowledged-SameSeen l e o
act-SameSeen now l e answer = answered-SameSeen l e true
act-SameSeen now l e (failure c) = ground (arith, answered-SameSeen l e true)
act-SameSeen now l e (core_failure c) = ground (arith, answered-SameSeen l e true)
act-SameSeen now l e (occurred id severity) = occurrence_report-SameSeen l e.message id severity
act-SameSeen now l e (control c) = ground arith
act-SameSeen now l e (question q) = ground arith
act-SameSeen now l e (revoked_message c line) = ground arith
act-SameSeen now l e bare_message = ground arith
act-SameSeen now l e other_payload = ground arith

attribute-SameSeen :
    (now : ℕ) (l : Live) (e : Envelope) (p : Payload) → SameSeen l (attribute now l e p)
unfolding attribute
attribute-SameSeen now l e p = ground (
  arith,
  act-SameSeen now l e p,
  refuse-SameSeen l direction e.message,
  refuse-SameSeen l correlation_missing e.message,
  refuse-SameSeen l correlation_unknown e.message,
)

-- What a step does to the identities seen: none is forgotten, and a message of which something is told
-- is a new one of this Session, not ended, and is seen after.
abbrev Keeps : Live → Live → Type 0
Keeps l l' = (m : String) → contains l.seen m ≡ true → contains l'.seen m ≡ true

abbrev IsNew : Live → Envelope → Live × List Effect → Type 0
IsNew l e r =
    (r.1 ≡ [])
    ⊎ ((l.is_ended ≡ false)
        × (contains l.seen e.message ≡ false)
        × (contains r.0.seen e.message ≡ true))

receive-Keeps : (now : ℕ) (l : Live) (e : Envelope) → Keeps l (receive now l e).0
unfolding receive contains yoke.Session.queue
receive-Keeps now l e m h = elim (Option-cases e.payload) [
  | inl n ↦ ground arith
  | inr (p, n) ↦ ground (arith, attribute-SameSeen now (record l { seen = e.message ∷ l.seen }) e p)
]

receive-IsNew : (now : ℕ) (l : Live) (e : Envelope) → IsNew l e (receive now l e)
unfolding receive contains
receive-IsNew now l e = elim (Option-cases e.payload) [
  | inl n ↦ ground arith
  | inr (p, n) ↦ ground (arith, attribute-SameSeen now (record l { seen = e.message ∷ l.seen }) e p)
]

perform-Keeps : (l : Live) (s : Step) → Keeps l (perform l s).0
unfolding perform send issue wait forget yoke.Session.queue end_session
perform-Keeps l (receives now e) m h = receive-Keeps now l e m h
perform-Keeps l (sends c p) m h = ground arith
perform-Keeps l (issues p) m h = ground arith
perform-Keeps l (gives_up id) m h = ground arith
perform-Keeps l (revokes cause line) m h = ground arith
perform-Keeps l fires m h = ground arith
perform-Keeps l forgets m h = ground arith
perform-Keeps l loses m h = ground arith

-- Who may be told something: a unit's machine, the bus, a caller that waits; and how many effects tell it.
pub data Party : Type 0 where
  machine bus caller : Party

abbrev pub tells : Party → List Effect → ℕ
tells p [] = 0
tells machine (observes u i ∷ es) = 1 + tells machine es
tells bus (condition_changes u n from grade line ∷ es) = 1 + tells bus es
tells bus (reports u n id severity ∷ es) = 1 + tells bus es
tells caller (hands k e ∷ es) = 1 + tells caller es
tells p (e ∷ es) = tells p es

-- Whether anybody is told.
abbrev pub tells_any : List Effect → ℕ
tells_any [] = 0
tells_any (e ∷ es) = 1

-- Each party is told once at most.
abbrev Apart : List Effect → Type 0
Apart es = (tells machine es ≤ 1) × (tells bus es ≤ 1) × (tells caller es ≤ 1)

answered-Apart : (l : Live) (e : Envelope) (final : Bool) → Apart (answered l e final).1
unfolding answered
answered-Apart l e final = ground arith

acknowledged-Apart : (l : Live) (e : Envelope) (o : Outcome) → Apart (acknowledged l e o).1
unfolding acknowledged
acknowledged-Apart l e o = ground (arith, answered-Apart l e true, answered-Apart l e false)

end_session-Apart : (l : Live) (how : Option (Cause × String)) → Apart (end_session l how).1
unfolding end_session
end_session-Apart l how = ground arith

health_report-Apart :
    (now : ℕ) (l : Live) (n : ℕ) (line : String) → Apart (health_report now l n line).1
unfolding health_report
health_report-Apart now l n line = ground arith

occurrence_report-Apart : (l : Live) (m id : String) (n : ℕ) → Apart (occurrence_report l m id n).1
unfolding occurrence_report
occurrence_report-Apart l m id n = ground arith

act-Apart : (now : ℕ) (l : Live) (e : Envelope) (p : Payload) → Apart (act now l e p).1
unfolding act
act-Apart now l e (health grade line) = health_report-Apart now l grade line
act-Apart now l e close_message = end_session-Apart l none
act-Apart now l e open_message =
    end_session-Apart l (some (protocol_failure, "a Session is opened once"))
act-Apart now l e (ack o) = acknowledged-Apart l e o
act-Apart now l e answer = answered-Apart l e true
act-Apart now l e (failure c) = ground (arith, answered-Apart l e true)
act-Apart now l e (core_failure c) = ground (arith, answered-Apart l e true)
act-Apart now l e (occurred id severity) = occurrence_report-Apart l e.message id severity
act-Apart now l e p = ground arith

attribute-Apart : (now : ℕ) (l : Live) (e : Envelope) (p : Payload) → Apart (attribute now l e p).1
unfolding attribute
attribute-Apart now l e p = ground (arith, act-Apart now l e p)

receive-Apart : (now : ℕ) (l : Live) (e : Envelope) → Apart (receive now l e).1
unfolding receive
receive-Apart now l e = elim (Option-cases e.payload) [
  | inl n ↦ ground arith
  | inr (p, n) ↦ ground (arith, attribute-Apart now (record l { seen = e.message ∷ l.seen }) e p)
]

-- What the steps of a Session that receive a message of an identity tell, by a count of their effects.
unfoldable pub told_of : (List Effect → ℕ) → String → Live → List Step → ℕ
told_of count m l [] = 0
told_of count m l (receives now e ∷ rest) =
    let r = receive now l e in (if e.message =? m then count r.1 else 0) + told_of count m r.0 rest
told_of count m l (s ∷ rest) = told_of count m (perform l s).0 rest

module _ (count : List Effect → ℕ) (nothing : count [] ≡ 0) where
  told_of_seen :
      (m : String) (l : Live) (todo : List Step)
      → contains l.seen m ≡ true
      → told_of count m l todo ≡ 0
  unfolding told_of ◌=?◌ perform
  told_of_seen m l [] h = refl
  told_of_seen m l (receives now e ∷ rest) h =
      let next = told_of_seen m (receive now l e).0 rest (receive-Keeps now l e m h) in
      elim (receive-IsNew now l e) [
        | inl n ↦ ground (arith, next, nothing, ap count n)
        | inr n ↦ ground (arith, next, h, n)
      ]
  told_of_seen m l (sends c p ∷ rest) h = told_of_seen m _ rest (perform-Keeps l (sends c p) m h)
  told_of_seen m l (issues p ∷ rest) h = told_of_seen m _ rest (perform-Keeps l (issues p) m h)
  told_of_seen m l (gives_up id ∷ rest) h =
      told_of_seen m _ rest (perform-Keeps l (gives_up id) m h)
  told_of_seen m l (revokes c line ∷ rest) h =
      told_of_seen m _ rest (perform-Keeps l (revokes c line) m h)
  told_of_seen m l (fires ∷ rest) h = told_of_seen m _ rest (perform-Keeps l fires m h)
  told_of_seen m l (forgets ∷ rest) h = told_of_seen m _ rest (perform-Keeps l forgets m h)
  told_of_seen m l (loses ∷ rest) h = told_of_seen m _ rest (perform-Keeps l loses m h)

  told_once :
      ((now : ℕ) (l : Live) (e : Envelope) → count (receive now l e).1 ≤ 1)
      → (m : String) (l : Live) (todo : List Step) → told_of count m l todo ≤ 1
  unfolding told_of ◌=?◌
  told_once once m l [] = omega arith
  told_once once m l (receives now e ∷ rest) =
      let next = told_once once m (receive now l e).0 rest in
      let later = told_of_seen m (receive now l e).0 rest in
      elim (receive-IsNew now l e) [
        | inl n ↦ ground (arith, next, nothing, ap count n)
        | inr n ↦ ground (arith, next, later, n, once now l e)
      ]
  told_once once m l (sends c p ∷ rest) = told_once once m _ rest
  told_once once m l (issues p ∷ rest) = told_once once m _ rest
  told_once once m l (gives_up id ∷ rest) = told_once once m _ rest
  told_once once m l (revokes c line ∷ rest) = told_once once m _ rest
  told_once once m l (fires ∷ rest) = told_once once m _ rest
  told_once once m l (forgets ∷ rest) = told_once once m _ rest
  told_once once m l (loses ∷ rest) = told_once once m _ rest

receive-tells : (p : Party) (now : ℕ) (l : Live) (e : Envelope) → tells p (receive now l e).1 ≤ 1
receive-tells machine now l e = (receive-Apart now l e).0
receive-tells bus now l e = (receive-Apart now l e).1
receive-tells caller now l e = (receive-Apart now l e).2

tells_any-le-one : (es : List Effect) → tells_any es ≤ 1
tells_any-le-one [] = omega arith
tells_any-le-one (e ∷ es) = omega arith

tells_nothing : (p : Party) → tells p [] ≡ 0
tells_nothing p = refl

-- Through any steps of a Session in any order, at most one of the messages that carry an identity has
-- anything told of it, and of that one each party (the unit's machine, the bus, a caller that waits) is
-- told once at most.
pub told_of-le-one :
    (p : Party) (m : String) (l : Live) (todo : List Step)
    → (told_of tells_any m l todo ≤ 1) × (told_of (tells p) m l todo ≤ 1)
told_of-le-one p m l todo = (
  told_once tells_any refl (λ now l e. tells_any-le-one (receive now l e).1) m l todo,
  told_once (tells p) (tells_nothing p) (receive-tells p) m l todo,
)
