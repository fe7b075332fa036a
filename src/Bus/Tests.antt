-- ===== src/Bus/Tests.antt =====
-- A bus with one subscriber, and the theorems about it.
use native.Mathlib.Decide.{ℕ_discrete}
use yoke.Event.Text.{eq_codes, first_segment}
use yoke.Prelude.{
  string_discrete, ◌=?◌, contains, put, zero, suc, ◌≡◌, refl, true, false, some, List, [], ◌∷◌,
  arith, ℕ, suc, get,
}
use yoke.Event.{class_of, declared_type, Event, check}
use yoke.Event.Build.{instance_ready, instance_stopping}
use yoke.Event.Filter.{everything, selects}
use yoke.Bus.{
  selected, insert_seq, note, offer, tell, look, Subscription, level_of, new, subscribe_to, publish,
  snapshot, announce,
}
use yoke.Bus.Queues.{offers, offers-take, Woken, offers-Woken}
use yoke.Bus.Steps.{step, Action, subscribes, publishes, looks, run}
use yoke.Bus.Interleavings.{Follows, subscribe_to-Follows}

abbrev ready : Event
ready = instance_ready 5 "main"

abbrev stopping : Event
stopping = instance_stopping 6 "main"

abbrev unnamed : Event
unnamed = instance_ready 5 ""

abbrev idle : Subscription
idle = record {
  filter = everything;
  queue = [];
  lost = false;
  closed = false;
  member = true;
  wake = false;
}

offers-take_example :
    ((offers idle (ready ∷ stopping ∷ [])).queue ≡ ready ∷ stopping ∷ [])
    × ((offers idle (ready ∷ stopping ∷ [])).lost ≡ false)
offers-take_example = offers-take idle (ready ∷ stopping ∷ []) refl (omega arith)

offers-Woken_example : Woken (offers idle (ready ∷ []))
offers-Woken_example = offers-Woken idle (ready ∷ []) (λ p. ground arith)

subscribe_to-Follows_example :
    let (c, k, snap) = subscribe_to (run new (publishes ready ∷ [])) everything in
    Follows k snap (run c (publishes stopping ∷ looks 0 ∷ []))
subscribe_to-Follows_example =
    subscribe_to-Follows (publishes ready ∷ []) (publishes stopping ∷ looks 0 ∷ []) everything

abbrev repeat : ℕ → Action → List Action → List Action
repeat zero a rest = rest
repeat (suc n) a rest = a ∷ repeat n a rest

-- 257 events are published to one subscriber, which then reads the 256 that it was kept.
abbrev overflowing : List Action
overflowing = subscribes everything ∷ repeat 257 (publishes ready) (repeat 256 (looks 0) [])

overflow_announced :
    (announce (run new overflowing) 0).1 ≡ some (snapshot (run new overflowing) everything)
unfolding announce run step subscribe_to publish look get put check declared_type first_segment
    eq_codes contains ◌=?◌ string_discrete ℕ_discrete instance_ready selects tell offer note
    class_of level_of insert_seq selected snapshot
overflow_announced = refl
