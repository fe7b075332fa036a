-- ===== src/Bus/Numbers.antt =====
-- internal/core/bus/bus.go, `Publish`: the numbers of events, and what a refused event consumes.
use yoke.Prelude.{
  if◌then◌else◌, Option-cases, ℕ, suc, ◌+◌, ◌≡◌, refl, ◌⊎◌, inl, inr, none, some, List, [], ◌∷◌,
  get, get-put, arith,
}
use mathlib.Core.Logic.{ite}
use yoke.Event.{Event, Fault, check, class_of}
use yoke.Bus.{Bus, Level, Level-discrete, level_of, is_level, note, publish, ok, err}

-- Publishing an event that fits numbers it with the next sequence, and hands it back so numbered;
-- one that does not fit is handed back as it was, with its fault, and the bus is left as it was.
publish-number :
    (b : Bus) (e : Event)
    → ((check e ≡ none)
        × ((publish b e).1 ≡ ok (record e { seq = suc b.seq }))
        × ((publish b e).0.seq ≡ suc b.seq))
      ⊎ ((f : Fault) × (check e ≡ some f) × (publish b e ≡ (b, err f e)))
unfolding publish
publish-number b e = elim (Option-cases (check e)) [
  | inl n ↦ inl (n, rw (n, publish), rw (n, publish))
  | inr (f, s) ↦ inr (f, s, rw (s, publish))
]

-- The events published one after another, refused ones included.
unfoldable pub publish_all : Bus → List Event → Bus
publish_all b [] = b
publish_all b (e ∷ es) = publish_all (publish b e).0 es

-- How many of a list of events fit.
abbrev pub fitting : List Event → ℕ
fitting [] = 0
fitting (e ∷ es) = (elim (check e) [ none ↦ 1 | some f ↦ 0 ]) + fitting es

-- The last sequence counts the events that were published, and nothing else.
publish_all-seq : (b : Bus) (es : List Event) → (publish_all b es).seq ≡ b.seq + fitting es
unfolding publish_all publish
publish_all-seq b [] = omega arith
publish_all-seq b (e ∷ es) = ground (arith, publish_all-seq (publish b e).0 es)

level_of-seq : (e : Event) (n : ℕ) → level_of (record e { seq = n }) ≡ level_of e
unfolding level_of
level_of-seq e n = refl

-- The current value of a level is the last event published at it: publishing an event of a level makes
-- it that level's current value, numbered, and leaves every other level's; an edge leaves them all.
publish-current :
    (b : Bus) (e : Event) (l : Level)
    → check e ≡ none
    → get Level-discrete l (publish b e).0.current ≡ (
        if is_level (class_of e.typ)
        then ite
            (Level-discrete (level_of e) l)
            (some (record e { seq = suc b.seq }))
            (get Level-discrete l b.current)
        else get Level-discrete l b.current)
unfolding publish note
publish-current b e l h = ground (
  arith,
  level_of-seq e (suc b.seq),
  get-put Level-discrete (level_of e) l (record e { seq = suc b.seq }) b.current,
)
