-- ===== src/Streams/Flows.antt =====
-- internal/core/streams/streams.go: what becomes of the transports that were opened.
use yoke.Prelude.{
  ℕ, ◌+◌, ◌≡◌, ◌≤◌, String, Bool, true, not, Option, none, some, List, [], ◌∷◌, =?→≡, =?_refl,
  if◌then◌else◌, keep, arith, refl,
}
use yoke.Streams.{
  removes, proceed, Service, Key, Flow, Frame, Tolerances, Told, opens, stops, discards, same, find,
  without, open_flow, deliver, close, discard, close_all, feed, stop_feed, read_one, sort_flows,
  insert_flow, next_subscriber, Fault,
}

-- What happens to the service, one section under its lock, or one job after one, at a time.
pub data Step : Type 0 where
  opening : Key → ℕ → Tolerances → Bool → Option Fault → Step
  reading : Key → Frame → Step
  closing : Key → String → Step
  discarding : Key → Step
  closing_all : String → String → Step
  feeding : Key → Step
  stopping_feed : ℕ → Step
  subscribing : Key → Step
  proceeding : ℕ → Step

unfoldable pub perform : Service → Step → Service
unfolding open_flow deliver close discard close_all feed stop_feed next_subscriber proceed
perform s (opening k n t sh why) = (open_flow s k n t sh why).0
perform s (reading k x) = deliver s k x
perform s (closing k reason) = (close s k reason).0
perform s (discarding k) = discard s k
perform s (closing_all id reason) = close_all s id reason
perform s (feeding k) = (feed s k).0
perform s (stopping_feed n) = stop_feed s n
perform s (subscribing k) = (next_subscriber s k).0
perform s (proceeding i) = proceed s i

unfoldable pub run : Service → List Step → Service
unfolding perform
run s [] = s
run s (st ∷ sts) = run (perform s st) sts

-- The flows of a stream among some.
abbrev pub count_flows : Key → List Flow → ℕ
count_flows k [] = 0
count_flows k (f ∷ fs) = (if same f.key k then 1 else 0) + count_flows k fs

-- How often a stream's transport was opened, and removed.
abbrev pub openings : Key → List Told → ℕ
openings k [] = 0
openings k (opens f ∷ log) = (if same f.key k then 1 else 0) + openings k log
openings k (t ∷ log) = openings k log

-- How often the transport of one that stopped was removed, and the stop published, and how often one was
-- discarded.
abbrev pub removals : Key → List Told → ℕ
removals k [] = 0
removals k (removes f ∷ log) = (if same f.key k then 1 else 0) + removals k log
removals k (t ∷ log) = removals k log

abbrev pub published : Key → List Told → ℕ
published k [] = 0
published k (stops f reason ∷ log) = (if same f.key k then 1 else 0) + published k log
published k (t ∷ log) = published k log

abbrev pub discarded : Key → List Told → ℕ
discarded k [] = 0
discarded k (discards f ∷ log) = (if same f.key k then 1 else 0) + discarded k log
discarded k (t ∷ log) = discarded k log

same_refl : (k : Key) → same k k ≡ true
unfolding same
same_refl k = ground (arith, =?_refl k.unit, =?_refl k.stream)

pub same→≡ : (k j : Key) → same k j ≡ true → k ≡ j
unfolding same
same→≡ k j h = ground (arith, h, =?→≡ k.unit j.unit, =?→≡ k.stream j.stream)

-- Two keys that are one each other's are of the same streams.
pub same_both : (k j i : Key) → same k j ≡ true → same k i ≡ same j i
same_both k j i h = rw (same→≡ k j h) refl

pub find-none : (k : Key) (fs : List Flow) → find k fs ≡ none → count_flows k fs ≡ 0
unfolding find
find-none k [] h = refl
find-none k (f ∷ fs) h = ground (arith, h, find-none k fs)

pub find-some :
    (k : Key) (fs : List Flow) (f : Flow)
    → find k fs ≡ some f
    → (same f.key k ≡ true) × (1 ≤ count_flows k fs)
unfolding find
find-some k [] f h = absurd (ground (arith, h))
find-some k (g ∷ fs) f h = ground (arith, h, find-some k fs f)

pub count_flows-without :
    (k j : Key) (fs : List Flow)
    → count_flows j (without k fs) ≡ (if same k j then 0 else count_flows j fs)
count_flows-without k j [] = ground arith
count_flows-without k j (f ∷ fs) = ground (
  arith,
  count_flows-without k j fs,
  same_both f.key k j,
  same→≡ f.key j,
  same→≡ k j,
  same_refl f.key,
  same_refl k,
)

pub count_flows-read_one :
    (k j : Key) (fs : List Flow) → count_flows j (read_one k fs) ≡ count_flows j fs
count_flows-read_one k j [] = refl
count_flows-read_one k j (f ∷ fs) = ground (arith, count_flows-read_one k j fs)

pub count_flows-keep :
    (p : Flow → Bool) (j : Key) (fs : List Flow)
    → count_flows j (keep p fs) + count_flows j (keep (λ f. not (p f)) fs) ≡ count_flows j fs
count_flows-keep p j [] = refl
count_flows-keep p j (f ∷ fs) = ground (arith, count_flows-keep p j fs)

count_flows-insert_flow :
    (j : Key) (f : Flow) (fs : List Flow)
    → count_flows j (insert_flow f fs) ≡ count_flows j (f ∷ fs)
count_flows-insert_flow j f [] = refl
count_flows-insert_flow j f (g ∷ gs) = ground (arith, count_flows-insert_flow j f gs)

pub count_flows-sort_flows :
    (j : Key) (fs : List Flow) → count_flows j (sort_flows fs) ≡ count_flows j fs
count_flows-sort_flows j [] = refl
count_flows-sort_flows j (f ∷ fs) =
    ground (arith, count_flows-insert_flow j f (sort_flows fs), count_flows-sort_flows j fs)
