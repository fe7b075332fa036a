-- ===== src/Streams/Tests.antt =====
-- A camera's stream, and the theorems about streams at it.
use yoke.Streams.Holding.{
  all, adds, nothing_held, all-adds, Attachment, detach, subscribe, times, released_by,
}
use yoke.Prelude.{get, ℕ, ◌≡◌, ◌≤◌, ◌+◌, refl, arith, true, false, none, some, List, [], ◌∷◌}
use yoke.Streams.{Service, Key, Frame, Tolerances, new, active, asked, session_ended}
use yoke.Streams.Flows.{
  Step, opening, reading, closing, closing_all, feeding, run, openings, proceeding,
}
use yoke.Streams.Balance.{Balanced, run-Balanced}
use yoke.Streams.Jobs.{count_feeds}
use yoke.Streams.Feeds.{released_of, Silent, run-Silent}
use yoke.Streams.Frames.{read_datagram}
use yoke.Streams.Carrying.{
  Delivery, offers, takes, offered, First, subscribed, run-First-subscribed,
}
use yoke.Streams.Carrying

abbrev video : Key
video = record { unit = "cam"; stream = "video" }

abbrev lossy : Tolerances
lossy = record { loss = true; reorder = false }

abbrev frame : ℕ → Frame
frame n = record { sequence = n; sent_at = 1000 + n; payload = 7 ∷ [] }

abbrev day : List Step
day =
    opening video 1 lossy false none
    ∷ feeding video
    ∷ reading video (frame 1)
    ∷ opening video 1 lossy false none
    ∷ closing video asked
    ∷ opening video 1 lossy false none
    ∷ reading video (frame 2)
    ∷ closing_all "cam" session_ended
    ∷ reading video (frame 3)
    ∷ proceeding 0
    ∷ proceeding 0
    ∷ proceeding 0
    ∷ []

abbrev over : Service
over = run (new "/run/yoke") day

twice_opened : openings video over.told ≡ 2
unfolding run yoke.Prelude.◌=?◌ yoke.Prelude.string_discrete
twice_opened = refl

none_active : active over "cam" ≡ []
unfolding active yoke.Prelude.sort run yoke.Prelude.◌=?◌ yoke.Prelude.string_discrete
none_active = refl

released_once : released_of 0 over.told ≡ 1
unfolding run yoke.Prelude.◌=?◌ yoke.Prelude.string_discrete
released_once = refl

-- The camera's first transport is closed, and its socket is removed once the second is open: the stream is
-- active, and there is no socket at its address.
abbrev crossed : Service
crossed = run (new "/run/yoke") (
    opening video 1 lossy false none
    ∷ closing video asked
    ∷ opening video 1 lossy false none
    ∷ proceeding 0
    ∷ [])

kept_open : active crossed "cam" ≡ "video" ∷ []
unfolding active yoke.Prelude.sort yoke.Prelude.insert_sorted run yoke.Prelude.◌=?◌
    yoke.Prelude.string_discrete
kept_open = refl

unlinked_since : crossed.sockets ≡ []
unfolding run yoke.Prelude.◌=?◌ yoke.Prelude.string_discrete
unlinked_since = refl

run-Balanced_example : Balanced over video
run-Balanced_example = run-Balanced "/run/yoke" day video

run-Silent_example : (released_of 0 over.told + count_feeds 0 over.feeds ≤ 1) × Silent over.told
run-Silent_example = run-Silent "/run/yoke" day 0

short_refused : read_datagram (1 ∷ 2 ∷ []) ≡ none
unfolding read_datagram
short_refused = refl

-- A client that reads one frame of four, through a queue of two, with one offered while it is dark.
abbrev slow : List Carrying.Step
slow =
    offers false (frame 1)
    ∷ offers true (frame 2)
    ∷ offers false (frame 3)
    ∷ offers false (frame 4)
    ∷ takes
    ∷ offers false (frame 5)
    ∷ []

slow_carries : Carrying.carried (Carrying.run (subscribed 2) slow) ≡ frame 1 ∷ frame 3 ∷ []
unfolding Carrying.run
slow_carries = refl

run-First-subscribed_example : First (Carrying.run (subscribed 2) slow) (offered slow)
run-First-subscribed_example = run-First-subscribed 2 slow

all-adds_example :
    ((all (adds nothing_held ((1, 7) ∷ (2, 8) ∷ [])) (2 ∷ 2 ∷ 1 ∷ [])).held ≡ [])
    × ((r : ℕ)
        → times r (all (adds nothing_held ((1, 7) ∷ (2, 8) ∷ [])) (2 ∷ 2 ∷ 1 ∷ [])).released
          ≡ released_by r ((1, 7) ∷ (2, 8) ∷ []))
unfolding get native.Mathlib.Decide.ℕ_discrete
all-adds_example =
    all-adds ((1, 7) ∷ (2, 8) ∷ []) (2 ∷ 2 ∷ 1 ∷ []) (refl, (refl, tt)) (refl, (refl, tt))

abbrev sound : Key
sound = record { unit = "cam"; stream = "sound" }

-- The first subscriptions to two streams have the same identity: of the two feeds one is left behind.
abbrev left : Attachment
left =
    detach
      (subscribe (subscribe (record { service = new ""; deliveries = nothing_held }) video) sound)
      (1 ∷ [])

one_released : left.deliveries.released ≡ 1 ∷ []
unfolding detach subscribe yoke.Prelude.put native.Mathlib.Decide.ℕ_discrete yoke.Streams.same
    yoke.Prelude.◌=?◌ yoke.Prelude.string_discrete get
one_released = refl

left_behind : left.service.feeds ≡ record { number = 0; key = video } ∷ []
unfolding detach subscribe yoke.Prelude.put native.Mathlib.Decide.ℕ_discrete yoke.Streams.same
    yoke.Prelude.◌=?◌ yoke.Prelude.string_discrete get yoke.Streams.stop_feed
left_behind = refl
