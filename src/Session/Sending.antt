-- ===== src/Session/Sending.antt =====
-- internal/core/session/session.go, `Send`, `issue`, `Revoke`, `Forget` and the timer: the steps of a
-- Session, in whatever order they come.
use yoke.Prelude.{
  ℕ, String, Bool, true, false, not, Option, none, some, List, [], if◌then◌else◌, put, get,
  string_discrete, suc,
}
use yoke.Contract.{Cause, Code, liveness_lost, direction, unspecified}
use yoke.Scope.{Scope, check, stream, command, query}
use yoke.Session.{
  Control, activate, stop, other_control, Payload, control, question, failure, core_failure,
  Envelope, Live, Effect, Exchange, queue, numbered,
}
use yoke.Session.Receive.{receive, end_session, is_error, is_unspecified}

-- What the unit's grant answers of what the Core would send.
unfoldable pub permitted : Option Scope → Payload → Code
permitted sc (control (yoke.Session.command id)) = check sc command id
permitted sc (control (activate id)) = check sc stream id
permitted sc (control (stop id)) = check sc stream id
permitted sc (question id) = check sc query id
permitted sc p = unspecified

abbrev pub is_sent_by_core : Payload → Bool
is_sent_by_core (control c) = true
is_sent_by_core (question q) = true
is_sent_by_core p = is_error p

pub data Sent : Type 0 where
  sent_as : String → Sent
  declined : Code → Sent
  not_open : Sent

-- `Send` on a Session.
unfoldable pub send : Live → String → Payload → Live × Sent
unfolding permitted
send l correlation p =
    if not (is_sent_by_core p)
    then (l, declined direction)
    else if l.is_ended
    then (l, not_open)
    else if not (is_unspecified (permitted l.terms.scope p))
    then (l, declined (permitted l.terms.scope p))
    else (queue l correlation (some p), sent_as (numbered (suc l.next)))

abbrev pub waited_for :
    Option Exchange → Bool → List (String × Exchange) → String → List (String × Exchange)
waited_for none b m id = m
waited_for (some x) b m id = put string_discrete id (record x { has_waiter = b }) m

-- Whether somebody waits for the answer to a message of the Core's.
unfoldable pub wait : Live → String → Bool → Live
wait l id b = record l {
  exchanges = waited_for (get string_discrete id l.exchanges) b l.exchanges id;
}

-- `issue`, as far as the wait.
unfoldable pub issue : Live → Payload → Live × Sent
unfolding permitted wait
issue l p =
    if l.is_ended
    then (l, not_open)
    else if not (is_unspecified (permitted l.terms.scope p))
    then (l, declined (permitted l.terms.scope p))
    else (wait (queue l "" (some p)) (numbered (suc l.next)) true, sent_as (numbered (suc l.next)))

-- `Forget` on a Session that its unit holds: nothing is told.
unfoldable pub forget : Live → Live
forget l = if l.is_ended then l else record l { is_ended = true; timer = none; is_done = true }

pub data Step : Type 0 where
  receives : ℕ → Envelope → Step
  sends : String → Payload → Step
  issues : Payload → Step
  gives_up : String → Step
  revokes : Cause → String → Step
  fires forgets loses : Step

unfoldable pub perform : Live → Step → Live × List Effect
unfolding send issue wait forget
perform l (receives now e) = receive now l e
perform l (sends correlation p) = ((send l correlation p).0, [])
perform l (issues p) = ((issue l p).0, [])
perform l (gives_up id) = (wait l id false, [])
perform l (revokes cause line) = end_session l (some (cause, line))
perform l fires =
    end_session l (some (liveness_lost, "no heartbeat arrived within the terms admission set"))
perform l forgets = (forget l, [])
perform l loses = (record l { is_lost = true }, [])
