-- ===== src/Bus/Snapshots.antt =====
-- internal/core/bus/bus.go, `snapshot`: what a subscriber is told of the levels as they are.
use mathlib.Core.Bool.{false≢true}
use yoke.Prelude.{
  sym, ap, ◌∙◌, ◌↔◌, ℕ, ◌≤◌, ◌≡◌, refl, ◌⊎◌, ◌↔◌, inl, inr, true, false, List, [], ◌∷◌, leb, arith,
  Values, Bool-cases,
}
use yoke.Event.{Event}
use yoke.Event.Filter.{Filter, selects}
use yoke.Bus.{Bus, Level, insert_seq, selected, snapshot}

-- Each event's sequence is at most the next one's.
abbrev pub Ascending : List Event → Type 0
Ascending [] = Unit
Ascending (e ∷ []) = Unit
Ascending (e ∷ d ∷ ds) = (e.seq ≤ d.seq) × Ascending (d ∷ ds)

insert_seq-Ascending : (e : Event) (ds : List Event) → Ascending ds → Ascending (insert_seq e ds)
unfolding insert_seq
insert_seq-Ascending e [] h = tt
insert_seq-Ascending e (d ∷ []) h = ground arith
insert_seq-Ascending e (d ∷ c ∷ cs) h = ground (arith, insert_seq-Ascending e (c ∷ cs) h.1)

selected-Ascending : (f : Filter) (m : List (Level × Event)) → Ascending (selected f m)
unfolding selected
selected-Ascending f [] = tt
selected-Ascending f ((l, e) ∷ m) =
    ground (arith, selected-Ascending f m, insert_seq-Ascending e (selected f m))

-- An event stands in a list.
abbrev pub In : Event → List Event → Type 0
In e [] = ⊥
In e (d ∷ ds) = (e ≡ d) ⊎ In e ds

-- An event is the current value of some level.
abbrev pub IsCurrent : Event → List (Level × Event) → Type 0
IsCurrent e [] = ⊥
IsCurrent e ((l, d) ∷ m) = (e ≡ d) ⊎ IsCurrent e m

In-insert_seq : (e d : Event) (ds : List Event) → In e (insert_seq d ds) ↔ ((e ≡ d) ⊎ In e ds)
unfolding insert_seq
In-insert_seq e d [] = (λ h. h, λ h. h)
In-insert_seq e d (c ∷ cs) = elim (Bool-cases (leb d.seq c.seq)) [
  | inl t ↦ rw t (λ h. h, λ h. h)
  | inr f ↦ rw f (later (In-insert_seq e d cs))
]
  where
    later :
        (In e (insert_seq d cs) ↔ ((e ≡ d) ⊎ In e cs))
        → In e (c ∷ insert_seq d cs) ↔ ((e ≡ d) ⊎ In e (c ∷ cs))
    later ih = (λ h. ground arith, λ h. ground arith)

In-selected :
    (f : Filter) (e : Event) (m : List (Level × Event))
    → In e (selected f m) ↔ (IsCurrent e m × (selects f e ≡ true))
unfolding selected
In-selected f e [] = (λ h. absurd h, λ h. absurd h.0)
In-selected f e ((l, d) ∷ m) = elim (Bool-cases (selects f d)) [
  | inl t ↦ rw t (chosen t (In-insert_seq e d (selected f m)) (In-selected f e m))
  | inr n ↦ rw n (passed n (In-selected f e m))
]
  where
    chosen :
        selects f d ≡ true
        → In e (insert_seq d (selected f m)) ↔ ((e ≡ d) ⊎ In e (selected f m))
        → In e (selected f m) ↔ (IsCurrent e m × (selects f e ≡ true))
        → In e (insert_seq d (selected f m)) ↔ (((e ≡ d) ⊎ IsCurrent e m) × (selects f e ≡ true))
    chosen t i h = (
      λ k. elim (i.0 k) [
        | inl p ↦ (inl p, ap (selects f) p ∙ t)
        | inr w ↦ (inr (h.0 w).0, (h.0 w).1)
      ],
      λ k. elim k.0 [ inl p ↦ i.1 (inl p) | inr p ↦ i.1 (inr (h.1 (p, k.1))) ],
    )

    passed :
        selects f d ≡ false
        → In e (selected f m) ↔ (IsCurrent e m × (selects f e ≡ true))
        → In e (selected f m) ↔ (((e ≡ d) ⊎ IsCurrent e m) × (selects f e ≡ true))
    passed n h = (
      λ k. (inr (h.0 k).0, (h.0 k).1),
      λ k. elim k.0 [
        | inl p ↦ absurd (false≢true (sym n ∙ ap (selects f) (sym p) ∙ k.1))
        | inr p ↦ h.1 (p, k.1)
      ],
    )

-- A snapshot is taken at the last sequence published, and holds exactly the current values of levels
-- that the filter selects, in the order of their sequences.
snapshot-current :
    (b : Bus) (f : Filter)
    → ((snapshot b f).at ≡ b.seq)
      × Ascending (snapshot b f).events
      × ((e : Event) → In e (snapshot b f).events ↔ (IsCurrent e b.current × (selects f e ≡ true)))
unfolding snapshot
snapshot-current b f = (refl, selected-Ascending f b.current, λ e. In-selected f e b.current)

-- The events of a snapshot are no later than the bus's current values are.
pub In-snapshot_bound :
    (b : Bus) (f : Filter) (n : ℕ) (e : Event)
    → Values (λ d. d.seq ≤ n) b.current
    → In e (snapshot b f).events
    → e.seq ≤ n
In-snapshot_bound b f n e h i = current_bound b.current h (((snapshot-current b f).2 e).0 i).0
  where
    current_bound :
        (m : List (Level × Event)) → Values (λ d. d.seq ≤ n) m → IsCurrent e m → e.seq ≤ n
    current_bound [] h i = absurd i
    current_bound ((l, d) ∷ m) h (inl p) = rw p h.0
    current_bound ((l, d) ∷ m) h (inr p) = current_bound m h.1 p
