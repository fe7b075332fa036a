-- ===== src/Event/Conclusions.antt =====
-- internal/core/event/event.go: the Core's own conclusions pass the check that publication makes.
use yoke.Prelude.{
  ℕ, ℤ, pos, ◌<◌, ◌≤◌, ◌≡◌, ◌≢◌, String, Bool, true, Option, none, List, contains, ◌=?◌, arith,
  string_discrete, get,
}
use yoke.Lifecycle.{State, Condition}
use yoke.Event.Text.{eq_codes, first_segment}
use yoke.Event.{Actor, Event, declared_type, check, actor_classes}
use yoke.Event.Build.{
  Reported, state_changed_of, skipped_of, declined_of, stream_activated, stream_stopped,
  instance_ready, instance_stopping, occurrence_reported, condition_changed, unobservable,
  observable,
}
use yoke.Event.Surfaces.{
  document_resolved, document_rejected, connection_opened, connection_closed, channel_attached,
  channel_detached, channel_suspended, channel_resumed, subscription_stale, policy_changed,
}

-- The events that the Core builds, at a time `now`: each of the constructors, with an identity that
-- is not empty, a grade on the scale where a unit stated one, a name where an occurrence has one,
-- and an actor of one of the four classes where a surface stated one.
pub data Built (now : ℕ) : Event → Type 0 where
  state :
      (id p : String) (n : ℕ) (from : Option State) (to : State)
      → id ≢ ""
      → Built now (state_changed_of now id p n from to)
  skip : (id r v : String) → id ≢ "" → Built now (skipped_of now id r v)
  decline : (id p : String) → id ≢ "" → Built now (declined_of now id p)
  activated :
      (id : String) (n : ℕ) (st : String) → id ≢ "" → Built now (stream_activated now id n st)
  stream_ended :
      (id : String) (n : ℕ) (st reason : String) (asked : Bool)
      → id ≢ ""
      → Built now (stream_stopped now id n st reason asked)
  ready : (name : String) → name ≢ "" → Built now (instance_ready now name)
  stopping : (name : String) → name ≢ "" → Built now (instance_stopping now name)
  occurred :
      (id : String) (n : ℕ) (r : Reported)
      → id ≢ ""
      → r.severity ≤ 99
      → r.occurrence ≢ ""
      → Built now (occurrence_reported now id n r)
  condition :
      (id : String) (n : ℕ) (from : Option ℤ) (to : ℕ) (line : String)
      → id ≢ ""
      → to ≤ 99
      → Built now (condition_changed now id n from (pos to) line)
  quiet :
      (id : String) (n : ℕ) (from : Option ℤ) (line : String)
      → id ≢ ""
      → Built now (unobservable now id n from line)
  returned :
      (id : String) (n : ℕ) (to : Option Condition) → id ≢ "" → Built now (observable now id n to)
  resolved : (path r d : String) → path ≢ "" → Built now (document_resolved now path r d)
  rejected : (path c pl : String) → path ≢ "" → Built now (document_rejected now path c pl)
  opened :
      (id pr : String) (a : Actor)
      → id ≢ ""
      → contains actor_classes a.actor_class ≡ true
      → Built now (connection_opened now id pr a)
  closed :
      (id pr reason : String) (a : Actor)
      → id ≢ ""
      → contains actor_classes a.actor_class ≡ true
      → Built now (connection_closed now id pr reason a)
  attached : (name c : String) → name ≢ "" → Built now (channel_attached now name c)
  detached : (name c reason : String) → name ≢ "" → Built now (channel_detached now name c reason)
  suspended :
      (name reason b retains : String)
      → name ≢ ""
      → Built now (channel_suspended now name reason b retains)
  resumed : (name : String) → name ≢ "" → Built now (channel_resumed now name)
  stale : (name : String) (since : ℕ) → name ≢ "" → Built now (subscription_stale now name since)
  policy :
      (p : String) (a : Actor) (en : Option Bool) (g w : Option (List String))
      → p ≢ ""
      → contains actor_classes a.actor_class ≡ true
      → Built now (policy_changed now p a en g w)

-- Every event the Core builds for itself passes the check, so publishing it is never refused.
pub Built-check : (now : ℕ) {e : Event} → 0 < now → Built now e → check e ≡ none
unfolding check declared_type get string_discrete eq_codes first_segment contains ◌=?◌
    state_changed_of skipped_of declined_of stream_activated stream_stopped instance_ready
    instance_stopping occurrence_reported condition_changed unobservable observable
    document_resolved document_rejected connection_opened connection_closed channel_attached
    channel_detached channel_suspended channel_resumed subscription_stale policy_changed
Built-check now stamped (state id p n from to h) = ground arith
Built-check now stamped (skip id r v h) = ground arith
Built-check now stamped (decline id p h) = ground arith
Built-check now stamped (activated id n st h) = ground arith
Built-check now stamped (stream_ended id n st reason asked h) = ground arith
Built-check now stamped (ready name h) = ground arith
Built-check now stamped (stopping name h) = ground arith
Built-check now stamped (occurred id n r h k l) = ground arith
Built-check now stamped (condition id n from to line h k) = ground arith
Built-check now stamped (quiet id n from line h) = ground arith
Built-check now stamped (returned id n to h) = ground arith
Built-check now stamped (resolved path r d h) = ground arith
Built-check now stamped (rejected path c pl h) = ground arith
Built-check now stamped (opened id pr a h k) = ground arith
Built-check now stamped (closed id pr reason a h k) = ground arith
Built-check now stamped (attached name c h) = ground arith
Built-check now stamped (detached name c reason h) = ground arith
Built-check now stamped (suspended name reason b retains h) = ground arith
Built-check now stamped (resumed name h) = ground arith
Built-check now stamped (stale name since h) = ground arith
Built-check now stamped (policy p a en g w h k) = ground arith
