-- ===== src/LogStore/Writing.antt =====
-- internal/core/logstore/logstore.go: `Append`, the writer that takes the queue in batches, and `Close`;
-- and what an interleaving of them stores. A batch is any of the lengths that the writer's wait allows.
use yoke.Prelude.{
  false, ◌≡◌, Option, is_some, ℕ, zero, suc, ◌+◌, Bool, true, not, ◌&&◌, none, some, List, [], ◌∷◌,
  ◌++◌, if◌then◌else◌, ◌=?◌, ◌==◌, ltb, leb, length,
}
use yoke.LogStore.{Entry, Store, store}

pub data Appended : Type 0 where
  no_unit closed full queued : Appended

abbrev pub room : ℕ
room = 4096

abbrev pub batch_entries : ℕ
batch_entries = 64

-- An append that finds the queue full waits, and is made again once there is room.
unfoldable pub append : Store → Entry → Store × Appended
append s e =
    if e.unit =? "" && not (e.incarnation == 0)
    then (s, no_unit)
    else if s.is_closed
    then (s, closed)
    else if leb room (length s.queue)
    then (s, full)
    else (record s { queue = s.queue ++ e ∷ [] }, queued)

abbrev pub taken : ℕ → List Entry → List Entry
taken n [] = []
taken n (e ∷ es) = elim n [ zero ↦ [] | suc k ↦ e ∷ taken k es ]

abbrev pub left : ℕ → List Entry → List Entry
left n [] = []
left n (e ∷ es) = elim n [ zero ↦ e ∷ es | suc k ↦ left k es ]

-- One round of the writer: as many entries as it gathered, at least one and 64 at most. A batch that the
-- database did not write, for a fault of its own or of an entry, is lost and reported.
abbrev pub gathered : ℕ → ℕ
gathered n = if ltb n 1 then 1 else if ltb batch_entries n then batch_entries else n

abbrev pub written : Bool → List Entry → List Entry → Option (List Entry)
written fails es batch = if fails then none else store es batch

unfoldable pub write : Store → ℕ → Bool → Store
unfolding store
write s n fails =
    let batch = taken (gathered n) s.queue in
    let s' = record s { queue = left (gathered n) s.queue } in
    elim (written fails s.entries batch) [
      | none ↦ record s' { lost = s.lost + length batch }
      | some es ↦ record s' { entries = es }
    ]

unfoldable pub close : Store → Store
close s = record s { is_closed = true }

pub data Step : Type 0 where
  appends : Entry → Step
  writes : ℕ → Bool → Step
  closes : Step

-- A store with what it accepted, in order, and the batches that its writer took, each with whether it
-- was stored, the last one last.
pub record Trace : Type 0 where
  pub store : Store
  pub accepted : List Entry
  pub batches : List (List Entry × Bool)

abbrev pub was_queued : Appended → Bool
was_queued queued = true
was_queued a = false

unfoldable pub perform : Trace → Step → Trace
unfolding append write close
perform t (appends e) =
    let (s, a) = append t.store e in
    record {
      store = s;
      accepted = if was_queued a then t.accepted ++ e ∷ [] else t.accepted;
      batches = t.batches;
    }
perform t (writes n fails) =
    let batch = taken (gathered n) t.store.queue in
    record {
      store = write t.store n fails;
      accepted = t.accepted;
      batches = t.batches ++ (batch, is_some (written fails t.store.entries batch)) ∷ [];
    }
perform t closes = record t { store = close t.store }

unfoldable pub run : Trace → List Step → Trace
unfolding perform
run t [] = t
run t (st ∷ sts) = run (perform t st) sts

abbrev pub unnumbered : Entry → Entry
unnumbered e = record e { seq = 0 }

-- Every entry of the batches, and those of the batches that were stored.
abbrev pub all_of : List (List Entry × Bool) → List Entry
all_of [] = []
all_of ((b, stored) ∷ bs) = b ++ all_of bs

abbrev pub stored_of : List (List Entry × Bool) → List Entry
stored_of [] = []
stored_of ((b, stored) ∷ bs) = (if stored then b else []) ++ stored_of bs

-- The numbers of a table that nothing was removed from: 1, 2 and so on.
abbrev pub Numbered : ℕ → List Entry → Type 0
Numbered n [] = Unit
Numbered n (e ∷ es) = (e.seq ≡ n) × Numbered (suc n) es
