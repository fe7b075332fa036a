-- ===== src/Arbiter.antt =====
-- internal/core/interfaces/arbitration.go: which channels are suspended, by the declared rules and what
-- holds. A critical section of the Arbiter is one step; what it tells is returned with the state. The
-- clock is read once to a step, `now`. The order names the channels there are, so a name of it that the map lacks, which the code would
-- fail on, is passed over.
pub mod Judging
pub mod Reasons
pub mod Telling
mod Tests
use yoke.Prelude.{
  ℕ, String, Bool, true, false, not, ◌&&◌, ◌||◌, Option, none, some, List, [], ◌∷◌, ◌++◌,
  if◌then◌else◌, ◌=?◌, get, put, string_discrete, contains, sort,
}
use yoke.Event.{Event}
use yoke.Event.Surfaces.{channel_suspended, channel_resumed}

-- internal/gate/body.go: what is declared of a channel, and an arbitration rule.
pub record Channel : Type 0 where
  pub name : String
  pub class : Option String
  pub on_suspend : String

pub record Rule : Type 0 where
  pub prevails : String
  pub over : List String

abbrev pub displaced : String
displaced = "displaced"

abbrev pub reclaimed : String
reclaimed = "reclaimed"

pub record Arbitrated : Type 0 where
  pub is_local : Bool
  pub grade : String
  pub is_holding : Bool
  pub has_reclaimed : Bool
  pub is_suspended : Bool
  pub by : String
  pub reason : String

abbrev pub Channels : Type 0
Channels = List (String × Arbitrated)

pub record Arbiter : Type 0 where
  pub rules : List Rule
  pub channels : Channels
  pub order : List String

abbrev pub local_class : Option String → Bool
local_class none = true
local_class (some c) = c =? "local"

unfoldable pub arbitrated : Channel → Arbitrated
arbitrated ch = record {
  is_local = local_class ch.class;
  grade = if ch.on_suspend =? "" then "read-only" else ch.on_suspend;
  is_holding = false;
  has_reclaimed = false;
  is_suspended = false;
  by = "";
  reason = "";
}

unfoldable pub declared : List Channel → Channels → Channels
declared [] m = m
declared (ch ∷ chs) m = declared chs (put string_discrete ch.name (arbitrated ch) m)

abbrev pub names : List Channel → List String
names [] = []
names (ch ∷ chs) = ch.name ∷ names chs

unfoldable pub new_arbiter : List Channel → List Rule → Arbiter
unfolding declared
new_arbiter chs rules = record {
  rules = rules;
  channels = declared chs [];
  order = sort (names chs);
}

-- One channel suspends another, for a reason.
pub record Edge : Type 0 where
  pub prevails : String
  pub over : String
  pub reason : String

abbrev pub is_reclaiming : Option Arbitrated → Bool
is_reclaiming none = false
is_reclaiming (some c) = c.has_reclaimed && (c.is_local && c.is_holding)

abbrev pub is_held : Option Arbitrated → Bool
is_held none = false
is_held (some c) = c.is_holding

abbrev pub edge : Channels → String → String → Edge
edge m p d =
    if is_reclaiming (get string_discrete d m)
    then record { prevails = d; over = p; reason = reclaimed }
    else record { prevails = p; over = d; reason = displaced }

unfoldable pub edges_over : Channels → String → List String → List Edge
edges_over m p [] = []
edges_over m p (d ∷ ds) = edge m p d ∷ edges_over m p ds

unfoldable pub edges : Channels → List Rule → List Edge
unfolding edges_over
edges m [] = []
edges m (r ∷ rs) = edges_over m r.prevails r.over ++ edges m rs

-- The first edge that suspends a channel.
unfoldable pub judge : Channels → List Edge → String → Option Edge
judge m [] name = none
judge m (e ∷ es) name =
    let rest = judge m es name in
    if e.over =? name && is_held (get string_discrete e.prevails m) then some e else rest

abbrev pub judged : Arbitrated → Option Edge → Arbitrated
judged c none = record c { is_suspended = false; by = ""; reason = "" }
judged c (some e) = record c { is_suspended = true; by = e.prevails; reason = e.reason }

abbrev pub told : ℕ → String → Arbitrated → Option Edge → List Event
told now name c none = if c.is_suspended then channel_resumed now name ∷ [] else []
told now name c (some e) =
    if not c.is_suspended || (not (c.by =? e.prevails) || not (c.reason =? e.reason))
    then channel_suspended now name e.reason e.prevails c.grade ∷ []
    else []

-- The loop over the order.
unfoldable pub judge_all : ℕ → List Edge → List String → Channels → Channels × List Event
unfolding judge
judge_all now es [] m = (m, [])
judge_all now es (n ∷ ns) m = elim (get string_discrete n m) [
  | none ↦ judge_all now es ns m
  | some c ↦
      let (m', events) = judge_all now es ns (put string_discrete n (judged c (judge m es n)) m) in
      (m', told now n c (judge m es n) ++ events)
]

unfoldable pub recompute : ℕ → Arbiter → Arbiter × List Event
unfolding judge_all edges
recompute now a =
    let (m, events) = judge_all now (edges a.channels a.rules) a.order a.channels in
    (record a { channels = m }, events)

-- What is done to a channel before the suspensions are derived again.
abbrev pub held : Arbitrated → Bool → Arbitrated
held c holds = record c {
  is_holding = holds;
  has_reclaimed = if holds then c.has_reclaimed else false;
}

unfoldable pub hold : ℕ → Arbiter → String → Bool → Arbiter × List Event
unfolding recompute
hold now a name holds = elim (get string_discrete name a.channels) [
  | none ↦ (a, [])
  | some c ↦
      recompute now (record a { channels = put string_discrete name (held c holds) a.channels })
]

unfoldable pub reclaim : ℕ → Arbiter → String → Arbiter × List Event
unfolding recompute
reclaim now a name = elim (get string_discrete name a.channels) [
  | none ↦ (a, [])
  | some c ↦
      if not c.is_local
      then (a, [])
      else recompute now (record a {
        channels = put string_discrete name (record c { has_reclaimed = true }) a.channels;
      })
]

abbrev pub some_told : List Event → Bool
some_told [] = false
some_told (e ∷ es) = true

-- What a channel's state answers: its grade, by which channel and why, where it is suspended.
unfoldable pub state_of : Arbiter → String → Option (String × String × String)
state_of a name = elim (get string_discrete name a.channels) [
  | none ↦ none
  | some c ↦ if c.is_suspended then some (c.grade, c.by, c.reason) else none
]

-- Whether a grade withdraws an operation.
unfoldable pub is_withdrawn : String → String → Bool
is_withdrawn grade operation =
    if operation =? "command" || (operation =? "stream.start" || operation =? "stream.stop")
    then true
    else if operation =? "query"
        || (operation =? "stream.subscribe" || operation =? "stream.unsubscribe")
    then grade =? "dark"
    else false
