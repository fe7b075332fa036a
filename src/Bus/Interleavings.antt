-- ===== src/Bus/Interleavings.antt =====
-- internal/core/bus/bus.go: what a subscriber is told under every interleaving of publishers and
-- subscribers, one critical section at a time.
use native.Mathlib.Decide.{ℕ_discrete}
use yoke.Prelude.{
  get-put_self, Option-cases, ℕ, ◌≤◌, ◌≡◌, refl, inl, inr, true, false, some, List, [], get, put,
  arith, Values, OfSome,
}
use yoke.Event.{Event}
use yoke.Event.Filter.{Filter}
use yoke.Bus.{Bus, Subscription, Snapshot, new, subscribe_to, announce, snapshot}
use yoke.Bus.Snapshots.{In, In-snapshot_bound}
use yoke.Bus.Steps.{Action, run, Queued, Since, run-Since}

new-Since : (k : ℕ) → Since k 0 new
unfolding get
new-Since k = record { queued = tt; reached = omega arith; levels = tt }

-- A subscription's queue just emptied holds nothing older than the last sequence.
fresh-Since :
    (k : ℕ) (b : Bus) (s : Subscription)
    → s.queue ≡ []
    → get ℕ_discrete k b.heap ≡ some s
    → Values (λ e. e.seq ≤ b.seq) b.current
    → Since k b.seq b
fresh-Since k b s q e v = record {
  queued = rw e (rw q (omega arith, omega arith));
  reached = omega arith;
  levels = v;
}

-- What a subscriber has before it: the picture of a snapshot, and a queue that follows it.
abbrev pub Follows : ℕ → Snapshot → Bus → Type 0
Follows k snap c =
    ((e : Event) → In e snap.events → e.seq ≤ snap.at)
    × OfSome (Queued snap.at c.seq) (get ℕ_discrete k c.heap)

-- From a new bus and through any interleaving of critical sections, a subscriber opens with a snapshot
-- of events no later than its point, and whatever happens next its queue holds at most 256 events, in
-- the order of their sequences, all of them after that point: no event is in both.
pub subscribe_to-Follows :
    (before after : List Action) (f : Filter)
    → let (c, k, snap) = subscribe_to (run new before) f in Follows k snap (run c after)
unfolding subscribe_to snapshot
subscribe_to-Follows before after f = (
  λ e i. In-snapshot_bound b f b.seq e levels i,
  (run-Since b.allocated b.seq c after (
      fresh-Since b.allocated c opened refl (get-put_self ℕ_discrete b.allocated opened b.heap)
        levels)).queued,
)
  where
    b : Bus
    b = run new before

    levels : Values (λ e. e.seq ≤ b.seq) b.current
    levels = (run-Since 0 0 new before (new-Since 0)).levels

    opened : Subscription
    opened = record {
      filter = f;
      queue = [];
      lost = false;
      closed = false;
      member = true;
      wake = false;
    }

    c : Bus
    c = (subscribe_to b f).0

abbrev resumed : Subscription → Subscription
resumed s = record s { lost = false }

-- An announcement is made to a subscriber that lost events and has nothing queued, of the picture as
-- it is; the subscriber's loss is then told.
announce_inv :
    (b : Bus) (k : ℕ) (snap : Snapshot)
    → (announce b k).1 ≡ some snap
    → (s : Subscription) × (get ℕ_discrete k b.heap ≡ some s)
      × (s.queue ≡ [])
      × (snap ≡ snapshot b s.filter)
      × ((announce b k).0 ≡ record b { heap = put ℕ_discrete k (resumed s) b.heap })
unfolding announce
announce_inv b k snap h = elim (Option-cases (get ℕ_discrete k b.heap)) [
  | inl n ↦ absurd (ground arith)
  | inr (s, e) ↦ (s, e, ground arith, ground arith, ground arith)
]

-- The same holds of the snapshot that announces an overflow: what the subscriber is told next of is
-- after it.
announce-Follows :
    (k : ℕ) (before after : List Action) {snap : Snapshot}
    → (announce (run new before) k).1 ≡ some snap
    → Follows k snap (run (announce (run new before) k).0 after)
unfolding snapshot
announce-Follows k before after {snap} h =
    let (s, e, q, p, r) = announce_inv b k snap h in
    rw (p, r)
      (
        λ d i. In-snapshot_bound b s.filter b.seq d levels i,
        (run-Since k b.seq (told s) after (
            fresh-Since k (told s) (resumed s) q (get-put_self ℕ_discrete k (resumed s) b.heap)
              levels)).queued,
      )
  where
    b : Bus
    b = run new before

    levels : Values (λ e. e.seq ≤ b.seq) b.current
    levels = (run-Since 0 0 new before (new-Since 0)).levels

    told : Subscription → Bus
    told s = record b { heap = put ℕ_discrete k (resumed s) b.heap }
