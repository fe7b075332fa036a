-- ===== src/Streams.antt =====
-- internal/core/streams/streams.go: the transports of the streams that may flow, the consumers of their
-- frames, and the identities of subscribers. Each section under the lock is one step, and each thing that
-- a call does after it let the lock go is a job, which is a step of its own: other calls may come
-- between. The readers are outside: a frame that was read is a step. What the service tells the outside
-- is kept with its state, the newest first; a feed is named by a number, which stands for its address.
pub mod Frames
pub mod Flows
pub mod Jobs
pub mod Balance
pub mod Feeds
pub mod Carrying
pub mod Holding
mod Tests
use yoke.Prelude.{
  ℕ, suc, ◌+◌, String, Bool, true, false, not, ◌&&◌, ◌||◌, Option, none, some, List, [], ◌∷◌, ◌++◌,
  if◌then◌else◌, ◌=?◌, ◌==◌, get, put, keep, sort, ◌≡◌, zero,
}
use Prim.Native.String.{◌++◌ as str_append}

-- What carries a stream's data.
pub data Transport : Type 0 where
  ordered framed shared : Transport

pub record Tolerances : Type 0 where
  pub loss : Bool
  pub reorder : Bool

-- What a stream is known by: its unit, and its name there.
pub record Key : Type 0 where
  pub unit : String
  pub stream : String

unfoldable pub same : Key → Key → Bool
same k j = k.unit =? j.unit && k.stream =? j.stream

pub record Frame : Type 0 where
  pub sequence : ℕ
  pub sent_at : ℕ
  pub payload : List ℕ

pub record Flow : Type 0 where
  pub key : Key
  pub incarnation : ℕ
  pub transport : Transport
  pub tolerates : Tolerances
  pub address : String
  pub read : ℕ

pub record Feed : Type 0 where
  pub number : ℕ
  pub key : Key

-- Why a stream stops.
abbrev pub asked : String
asked = "asked"

abbrev pub session_ended : String
session_ended = "session ended"

abbrev pub unit_exited : String
unit_exited = "unit exited"

-- What is told: that a transport was opened; that one that stops is gone, and then the stop, with its
-- reason; that one is gone that nothing is published of; a frame to the consumer of all; that a frame is
-- for a feed, which is handed it once the lock is let go; and that a feed was released.
pub data Told : Type 0 where
  opens : Flow → Told
  removes : Flow → Told
  stops : Flow → String → Told
  discards : Flow → Told
  delivers : Key → Frame → Told
  picks : ℕ → Frame → Told
  releases : ℕ → Told

-- What a call does once it let the lock go: a transport is closed and its socket removed, a stop is
-- published, a transport is discarded, a feed is released.
pub data Job : Type 0 where
  unlinks : Flow → Job
  publishes : Flow → String → Job
  drops : Flow → Job
  lets_go : ℕ → Job

-- `pending` has the jobs of each call that let the lock go, in their order; `sockets` are the files.
pub record Service : Type 0 where
  pub root : String
  pub opened : List Flow
  pub feeds : List Feed
  pub made : ℕ
  pub counters : List (Key × ℕ)
  pub sockets : List String
  pub pending : List (List Job)
  pub told : List Told

abbrev pub new : String → Service
new root = record {
  root = root;
  opened = [];
  feeds = [];
  made = 0;
  counters = [];
  sockets = [];
  pending = [];
  told = [];
}

unfoldable pub transport_of : Tolerances → Bool → Transport
transport_of t offers_shared =
    if t.loss && offers_shared then shared else if t.loss || t.reorder then framed else ordered

abbrev pub path : Service → Key → String
path s k = str_append s.root (
    str_append "/plugins/"
      (str_append k.unit (str_append "/streams/" (str_append k.stream ".sock"))))

unfoldable pub find : Key → List Flow → Option Flow
unfolding same
find k [] = none
find k (f ∷ fs) = let rest = find k fs in if same f.key k then some f else rest

abbrev pub without : Key → List Flow → List Flow
without k = keep (λ f. not (same f.key k))

pub data Opening : Type 0 where
  already_open : Opening
  fault : String → Opening
  is_open : Transport → String → Opening

abbrev pub flow_of : Service → Key → ℕ → Tolerances → Bool → Flow
flow_of s k incarnation t offers_shared = record {
  key = k;
  incarnation = incarnation;
  transport = transport_of t offers_shared;
  tolerates = t;
  address = path s k;
  read = 0;
}

abbrev pub without_socket : String → List String → List String
without_socket address = keep (λ a. not (a =? address))

-- Of two faults the one of the directory comes before the file at the address is removed, the one of the
-- transport after.
pub data Fault : Type 0 where
  of_directory : String → Fault
  of_transport : String → Fault

unfoldable pub open_flow : Service → Key → ℕ → Tolerances → Bool → Option Fault → Service × Opening
unfolding find transport_of
open_flow s k incarnation t offers_shared why = elim (find k s.opened) [
  | some f ↦ (s, already_open)
  | none ↦ elim why [
    | some (of_directory text) ↦ (s, fault text)
    | some (of_transport text) ↦
        (record s { sockets = without_socket (path s k) s.sockets }, fault text)
    | none ↦
        let f = flow_of s k incarnation t offers_shared in
        (
          record s {
            opened = f ∷ s.opened;
            sockets = f.address ∷ without_socket f.address s.sockets;
            told = opens f ∷ s.told;
          },
          is_open f.transport f.address,
        )
  ]
]

abbrev pub read_one : Key → List Flow → List Flow
read_one k [] = []
read_one k (f ∷ fs) = (if same f.key k then record f { read = suc f.read } else f) ∷ read_one k fs

abbrev pub pick : Frame → List Feed → List Told → List Told
pick x [] told = told
pick x (fd ∷ fds) told = pick x fds (picks fd.number x ∷ told)

-- A frame that was read from a flow: counted, delivered, and picked for each feed of its stream.
unfoldable pub deliver : Service → Key → Frame → Service
deliver s k x = record s {
  opened = read_one k s.opened;
  told = pick x (keep (λ fd. same fd.key k) s.feeds) (delivers k x ∷ s.told);
}

-- A stream that is closed is no more among the open; what is left to do is to remove its transport.
unfoldable pub close : Service → Key → String → Service × Bool
unfolding find
close s k reason = elim (find k s.opened) [
  | none ↦ (s, false)
  | some f ↦ (
    record s {
      opened = without k s.opened;
      pending = (unlinks f ∷ publishes f reason ∷ []) ∷ s.pending;
    },
    true,
  )
]

unfoldable pub discard : Service → Key → Service
unfolding find
discard s k = elim (find k s.opened) [
  | none ↦ s
  | some f ↦ record s { opened = without k s.opened; pending = (drops f ∷ []) ∷ s.pending }
]

abbrev pub of_unit : String → Flow → Bool
of_unit id f = f.key.unit =? id

abbrev pub feed_of : String → Feed → Bool
feed_of id fd = fd.key.unit =? id

-- The flows that go, in the order of their streams.
abbrev pub leb_stream : Flow → Flow → Bool
leb_stream f g = yoke.Prelude.leb_string f.key.stream g.key.stream

abbrev pub insert_flow : Flow → List Flow → List Flow
insert_flow f [] = f ∷ []
insert_flow f (g ∷ gs) =
    let rest = insert_flow f gs in if leb_stream f g then f ∷ g ∷ gs else g ∷ rest

abbrev pub sort_flows : List Flow → List Flow
sort_flows [] = []
sort_flows (f ∷ fs) = insert_flow f (sort_flows fs)

abbrev pub stop_jobs : String → List Flow → List Job
stop_jobs reason [] = []
stop_jobs reason (f ∷ fs) = unlinks f ∷ publishes f reason ∷ stop_jobs reason fs

abbrev pub release_jobs : List Feed → List Job
release_jobs [] = []
release_jobs (fd ∷ fds) = lets_go fd.number ∷ release_jobs fds

-- Every transport of a unit; and unless that was asked for, every feed of its streams.
unfoldable pub close_all : Service → String → String → Service
close_all s id reason =
    let closing = sort_flows (keep (of_unit id) s.opened) in
    let released = (if reason =? asked then [] else keep (feed_of id) s.feeds) in
    record s {
      opened = keep (λ f. not (of_unit id f)) s.opened;
      feeds = if reason =? asked then s.feeds else keep (λ fd. not (feed_of id fd)) s.feeds;
      pending = (stop_jobs reason closing ++ release_jobs released) ∷ s.pending;
    }

-- A job is done. The socket of an address is removed whoever made it.
unfoldable pub do_job : Service → Job → Service
do_job s (unlinks f) = record s {
  sockets = without_socket f.address s.sockets;
  told = removes f ∷ s.told;
}
do_job s (publishes f reason) = record s { told = stops f reason ∷ s.told }
do_job s (drops f) = record s {
  sockets = without_socket f.address s.sockets;
  told = discards f ∷ s.told;
}
do_job s (lets_go n) = record s { told = releases n ∷ s.told }

-- The first job of one of the calls, and what is left.
abbrev pub next_job : ℕ → List (List Job) → Option Job × List (List Job)
next_job i [] = (none, [])
next_job zero ([] ∷ calls) = (none, [] ∷ calls)
next_job zero ((j ∷ js) ∷ calls) = (some j, js ∷ calls)
next_job (suc i) (js ∷ calls) = let (j, rest) = next_job i calls in (j, js ∷ rest)

abbrev pub go_on : Service → Option Job → Service
go_on s none = s
go_on s (some j) = do_job s j

-- One of the calls that let the lock go does its next job.
unfoldable pub proceed : Service → ℕ → Service
unfolding do_job
proceed s i = let (j, rest) = next_job i s.pending in go_on (record s { pending = rest }) j

abbrev pub names : List Flow → List String
names [] = []
names (f ∷ fs) = f.key.stream ∷ names fs

unfoldable pub active : Service → String → List String
active s id = sort (names (keep (of_unit id) s.opened))

-- A feed begins, and is stopped by its consumer.
unfoldable pub feed : Service → Key → Service × ℕ
feed s k =
    (record s { feeds = record { number = s.made; key = k } ∷ s.feeds; made = suc s.made }, s.made)

unfoldable pub stop_feed : Service → ℕ → Service
stop_feed s n = record s { feeds = keep (λ fd. not (fd.number == n)) s.feeds }

unfoldable pub address : Service → Key → String
unfolding find
address s k = elim (find k s.opened) [ none ↦ "" | some f ↦ f.address ]

-- The next subscriber of a stream, counted; its identity is the count in eight digits or more.
abbrev pub count_of : Key → List (Key × ℕ) → ℕ
count_of k [] = 0
count_of k ((j, n) ∷ cs) = let rest = count_of k cs in if same j k then n else rest

abbrev pub counted : Key → List (Key × ℕ) → List (Key × ℕ)
counted k [] = (k, 1) ∷ []
counted k ((j, n) ∷ cs) =
    let rest = counted k cs in if same j k then (j, suc n) ∷ cs else (j, n) ∷ rest

unfoldable pub next_subscriber : Service → Key → Service × ℕ
next_subscriber s k = let cs = counted k s.counters in (record s { counters = cs }, count_of k cs)
