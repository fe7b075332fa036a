-- ===== src/LogStore/Tests.antt =====
-- A camera's output in a small store, and the theorems about the store at it.
use yoke.Prelude.{
  ◌⊎◌, ℕ, ◌≡◌, ◌≢◌, ◌≤◌, refl, arith, String, true, false, none, some, List, [], ◌∷◌, pos, ◌*◌, ◌/◌,
  ◌<◌, ◌^◌,
}
use yoke.LogStore.{Entry, Retention, stdout, insert, query, last}
use yoke.LogStore.Writing.{Trace, Step, appends, writes, closes, run}
use yoke.LogStore.Ordering.{Kept, fresh, run-Kept-fresh}
use yoke.LogStore.Cleaning.{Limits, clean, cycle, bytes_of}
use yoke.LogStore.Spending.{others, mine, within, not_old, one, clean_lem}
use yoke.LogStore.Cycles.{Spent, cycle-Spent}
use yoke.LogStore.Following.{everything_after, query-insert}
use yoke.Event.{Event, Detail, check}
use yoke.Event.Build.{stream_stopped}

abbrev line : ℕ → String → String → Entry
line at unit message = record {
  seq = 0;
  at = at;
  unit = unit;
  incarnation = 1;
  source = stdout;
  severity = pos 10;
  typ = "";
  subject_kind = "";
  subject_id = "";
  actor = "";
  cause = 0;
  message = message;
  detail = [];
}

abbrev three : List Step
three =
    appends (line 5 "cam" "on")
    ∷ appends (line 6 "disk" "formatted")
    ∷ writes 2 false
    ∷ appends (line 7 "" "of no unit")
    ∷ appends (line 8 "cam" "frame")
    ∷ writes 1 true
    ∷ closes
    ∷ appends (line 9 "cam" "late")
    ∷ []

abbrev kept : Trace
kept = run fresh three

kept_last : last kept.store.entries ≡ 2
unfolding run yoke.Prelude.◌=?◌ yoke.Prelude.string_discrete
kept_last = refl

kept_lost : kept.store.lost ≡ 1
unfolding run yoke.Prelude.◌=?◌ yoke.Prelude.string_discrete
kept_lost = refl

run-Kept-fresh_example : Kept (run fresh three)
run-Kept-fresh_example = run-Kept-fresh three

abbrev table : List Entry
table =
    record (line 5 "cam" "on") { seq = 1 }
    ∷ record (line 6 "disk" "formatted") { seq = 2 }
    ∷ record (line 7 "cam" "frame") { seq = 3 }
    ∷ []

abbrev small : Limits
small = record { age = 0; bytes = 5; entries = 0 }

newest_left : (clean "cam" small 20 table).1 ≡ 1
unfolding clean yoke.Prelude.◌=?◌ yoke.Prelude.string_discrete
newest_left = refl

clean_lem_example :
    (others "cam" (clean "cam" small 20 table).0 ≡ others "cam" table)
    × (mine "cam" (clean "cam" small 20 table).0
        ≡ within one 0 (within bytes_of 5 (not_old small 20 (mine "cam" table))))
clean_lem_example = clean_lem "cam" small 20 table

cycle-Spent_example : Spent small 20 (mine "cam" (cycle (λ g. small) 20 0 table).entries)
cycle-Spent_example = cycle-Spent (λ g. small) 20 0 table "cam"

-- A limit of four bytes removes the camera's last entry, which was the last of all.
abbrev tiny : Limits
tiny = record { age = 0; bytes = 4; entries = 0 }

abbrev spent : List Entry
spent = record (line 6 "disk" "formatted") { seq = 2 } ∷ []

spent_cleaned : (clean "cam" tiny 20 table).0 ≡ spent
unfolding clean yoke.Prelude.◌=?◌ yoke.Prelude.string_discrete
spent_cleaned = refl

-- A limit of bytes that is not below 2 ^ 63 leaves none of the camera's entries.
huge_left : (clean "cam" (record { age = 0; bytes = 2 ^ 63; entries = 0 }) 20 table).0 ≡ spent
unfolding clean yoke.Prelude.◌=?◌ yoke.Prelude.string_discrete
huge_left = refl

abbrev again : Entry
again = record (line 21 "cam" "new") { seq = 3 }

abbrev stored : List Entry
stored = record (line 6 "disk" "formatted") { seq = 2 } ∷ again ∷ []

again_stored : insert spent (line 21 "cam" "new") ≡ some stored
unfolding insert yoke.Prelude.◌=?◌ yoke.Prelude.string_discrete clean
again_stored = refl

query-insert_example :
    ((last spent ≡ 3) × ((query stored (everything_after 3)).0 ≡ again ∷ []))
    ⊎ ((last spent < 3) × (query stored (everything_after 3) ≡ ([], false)))
query-insert_example = query-insert spent stored (line 21 "cam" "new") 3 again_stored (omega arith)

abbrev week : Retention
week = record { age = 90000000000 * 7; bytes = none; entries = some 10 }

units_differ : ◌≢◌ {A = String} "cam" "disk"
units_differ e = cc

abbrev stopped : Event
stopped = stream_stopped 9 "cam" 1 "video" "asked" true

abbrev plain : Detail → List ℕ
plain d = b'{' ∷ b'}' ∷ []

stopped_passes : check stopped ≡ none
unfolding check yoke.Prelude.◌=?◌ yoke.Prelude.string_discrete stream_stopped
    yoke.Event.declared_type yoke.Prelude.get yoke.Event.Text.eq_codes yoke.Event.Text.first_segment
    yoke.Prelude.contains
stopped_passes = refl
