-- ===== src/Bus.antt =====
-- internal/core/bus/bus.go: the in-process publish and subscribe.
-- A `*Subscription` is a number in a heap; `member` says that it is a key of the bus's `subs`, and
-- `wake` that its channel of one place is full. `Next` is its two critical sections: `look`, under the
-- subscription's lock, and `announce`, under the bus's lock and then the subscription's.
pub mod Snapshots
pub mod Queues
pub mod Numbers
pub mod Steps
pub mod Interleavings
mod Tests
use yoke.Prelude.{
  ℕ, suc, ◌+◌, String, Bool, true, false, not, ◌&&◌, ◌||◌, Option, none, some, List, [], ◌∷◌, ◌++◌,
  map, length, if◌then◌else◌, leb, ltb, ◌==◌, ◌=?◌, get, put, string_discrete, keep,
}
use native.Mathlib.Decide.{ℕ_discrete}
use mathlib.Core.Logic.{ite}
use yoke.Event.{Event, Detail, object, Value, text, class_of, level, Fault, check, Class}
use yoke.Event.Filter.{Filter, everything, selects}

abbrev pub bound : ℕ
bound = 256

-- What makes an event the current value of something.
pub record Level : Type 0 where
  pub typ : String
  pub kind : String
  pub id : String
  pub stream : String

pub Level-discrete : Discrete Level
Level-discrete = hlevel string_discrete

-- The `stream` field of a detail. The two types it is read of are built with an object.
abbrev pub stream_of : Detail → String
stream_of (object fs) = elim (get string_discrete "stream" fs) [
  | some v ↦ elim v [ text s ↦ s | _ ↦ "" ]
  | none ↦ ""
]
stream_of _ = ""

unfoldable pub level_of : Event → Level
level_of e =
    if e.typ =? "unit.stream.activated" || e.typ =? "unit.stream.stopped"
    then record {
      typ = "unit.stream";
      kind = e.subject.kind;
      id = e.subject.id;
      stream = stream_of e.detail;
    }
    else record { typ = e.typ; kind = e.subject.kind; id = e.subject.id; stream = "" }

pub record Subscription : Type 0 where
  pub filter : Filter
  pub queue : List Event
  pub lost : Bool
  pub closed : Bool
  pub member : Bool
  pub wake : Bool

pub record Snapshot : Type 0 where
  pub at : ℕ
  pub events : List Event

pub record Bus : Type 0 where
  pub seq : ℕ
  pub current : List (Level × Event)
  pub heap : List (ℕ × Subscription)
  pub allocated : ℕ

abbrev pub new : Bus
new = record { seq = 0; current = []; heap = []; allocated = 0 }

-- `slices.SortFunc` by sequence, by insertion.
unfoldable pub insert_seq : Event → List Event → List Event
insert_seq e [] = e ∷ []
insert_seq e (d ∷ ds) =
    let rest = insert_seq e ds in if leb e.seq d.seq then e ∷ d ∷ ds else d ∷ rest

-- The current values that a filter selects, in the order of their sequences.
unfoldable pub selected : Filter → List (Level × Event) → List Event
selected f [] = []
selected f ((l, e) ∷ m) = let rest = selected f m in if selects f e then insert_seq e rest else rest

unfoldable pub snapshot : Bus → Filter → Snapshot
snapshot b f = record { at = b.seq; events = selected f b.current }

unfoldable pub subscribe_to : Bus → Filter → Bus × ℕ × Snapshot
subscribe_to b f = (
  record b {
    heap =
        put ℕ_discrete b.allocated
          (record {
            filter = f;
            queue = [];
            lost = false;
            closed = false;
            member = true;
            wake = false;
          })
          b.heap;
    allocated = suc b.allocated;
  },
  b.allocated,
  snapshot b f,
)

-- `Subscribe`, which drops the snapshot.
unfoldable pub subscribe : Bus → Bus × ℕ
unfolding subscribe_to
subscribe b = let (c, k, snap) = subscribe_to b everything in (c, k)

unfoldable pub offer : Event → Subscription → Subscription
offer e s =
    if leb bound (length s.queue)
    then record s { lost = true; wake = true }
    else if s.lost
    then s
    else record s { queue = s.queue ++ e ∷ []; wake = true }

-- A subscriber of the bus is offered what its filter selects.
unfoldable pub tell : Event → Subscription → Subscription
tell e s = if s.member && selects s.filter e then offer e s else s

abbrev pub is_level : Option Class → Bool
is_level (some level) = true
is_level _ = false

-- The map `current` after an event was numbered.
unfoldable pub note : Event → List (Level × Event) → List (Level × Event)
note e m = if is_level (class_of e.typ) then put Level-discrete (level_of e) e m else m

abbrev pub tell_all : Event → List (ℕ × Subscription) → List (ℕ × Subscription)
tell_all e [] = []
tell_all e ((k, s) ∷ h) = (k, tell e s) ∷ tell_all e h

abbrev pub published : Bus → Event → Bus
published b e = record b { seq = suc b.seq; current = note e b.current; heap = tell_all e b.heap }

pub data Published : Type 0 where
  ok : Event → Published
  err : Fault → Event → Published

unfoldable pub publish : Bus → Event → Bus × Published
publish b e = elim (check e) [
  | some f ↦ (b, err f e)
  | none ↦ (published b (record e { seq = suc b.seq }), ok (record e { seq = suc b.seq }))
]

pub data Look : Type 0 where
  closed : Look
  event : Event → Look
  overflowed : Look
  wait : Look

abbrev pub look_at : Subscription → List Event → Subscription × Look
look_at s (e ∷ rest) = if s.closed then (s, closed) else (record s { queue = rest }, event e)
look_at s [] = if s.closed then (s, closed) else if s.lost then (s, overflowed) else (s, wait)

-- The first critical section of `Next`.
unfoldable pub look : Bus → ℕ → Bus × Option Look
look b k = elim (get ℕ_discrete k b.heap) [
  | none ↦ (b, none)
  | some s ↦
      let (t, l) = look_at s s.queue in (record b { heap = put ℕ_discrete k t b.heap }, some l)
]

-- The second critical section of `Next`, after an overflow was seen; `none` is `continue`.
unfoldable pub announce : Bus → ℕ → Bus × Option Snapshot
announce b k = elim (get ℕ_discrete k b.heap) [
  | none ↦ (b, none)
  | some s ↦ if not s.lost || ltb 0 (length s.queue) then (b, none) else (
    record b { heap = put ℕ_discrete k (record s { lost = false }) b.heap },
    some (snapshot b s.filter),
  )
]

-- `Close`.
unfoldable pub close : Bus → ℕ → Bus
close b k = elim (get ℕ_discrete k b.heap) [
  | none ↦ b
  | some s ↦ record b {
    heap = put ℕ_discrete k (record s { member = false; closed = true; wake = true }) b.heap;
  }
]

-- The wait of `Next`: a full channel is taken, and the loop goes on; `false` is the wait itself.
unfoldable pub await : Bus → ℕ → Bus × Bool
await b k = elim (get ℕ_discrete k b.heap) [
  | none ↦ (b, false)
  | some s ↦
      if s.wake
      then (record b { heap = put ℕ_discrete k (record s { wake = false }) b.heap }, true)
      else (b, false)
]
