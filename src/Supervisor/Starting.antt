-- ===== src/Supervisor/Starting.antt =====
-- internal/core/supervisor/supervisor.go, `Start`: each dependent is held before anything is launched.
use yoke.Supervisor.Releasing.{attempt-Good, Releases}
use yoke.Supervisor.Attempt.{release, attempt, Answers, Release}
use yoke.Prelude.{
  not, ℕ, ◌≡◌, refl, ◌⊎◌, inl, inr, String, Bool, true, false, some, List, [], ◌∷◌, ◌++◌, get, put,
  string_discrete, contains, get-put, arith, Bool-cases, keep,
}
use yoke.Supervisor.{Policy, Supervisor, Managed, Declared, with_unit, managed}
use yoke.Supervisor.Steps.{
  enough, no_units, launch_free, start, dependent, declared, held_back, hold_all,
}
use yoke.Supervisor.Order.{
  Good-trans, Unheld-Steady, Good, Unheld, Steady, decl_of, awaiting_of, unit, Inv,
}
use yoke.Supervisor.Freeing.{release-Good, contains-append}

abbrev pub ids : List Declared → List String
ids [] = []
ids (u ∷ us) = u.id ∷ ids us

-- No two units share an identity.
abbrev pub Distinct : List Declared → Type 0
Distinct [] = Unit
Distinct (u ∷ us) = (contains (ids us) u.id ≡ false) × Distinct us

abbrev Mem : Declared → List Declared → Type 0
Mem w [] = ⊥
Mem w (u ∷ us) = (w ≡ u) ⊎ Mem w us

Mem-ids : (w : Declared) (us : List Declared) → Mem w us → contains (ids us) w.id ≡ true
unfolding contains
Mem-ids w [] h = absurd h
Mem-ids w (u ∷ us) (inl e) = ground (arith, e)
Mem-ids w (u ∷ us) (inr h) = ground (arith, Mem-ids w us h)

Distinct-same :
    (us : List Declared) (w u : Declared) → Distinct us → Mem w us → Mem u us → w.id ≡ u.id → w ≡ u
Distinct-same [] w u d h k e = absurd h
Distinct-same (x ∷ us) w u d (inl a) (inl b) e = ground (arith, a, b)
Distinct-same (x ∷ us) w u d (inl a) (inr b) e = absurd (ground (arith, a, e, d.0, Mem-ids u us b))
Distinct-same (x ∷ us) w u d (inr a) (inl b) e = absurd (ground (arith, b, e, d.0, Mem-ids w us a))
Distinct-same (x ∷ us) w u d (inr a) (inr b) e = Distinct-same us w u d.1 a b e

-- The units there are were all declared, each under its identity.
abbrev Listed : List Declared → List (String × Managed) → Type 0
Listed us units =
    (id : String) (w : Declared)
    → decl_of (get string_discrete id units) ≡ some w
    → Mem w us × (w.id ≡ id)

Listed-put :
    (us : List Declared) (units : List (String × Managed)) (m : Managed)
    → Mem m.decl us
    → Listed us units
    → Listed us (put string_discrete m.decl.id m units)
Listed-put us units m h l id w e = elim (string_discrete m.decl.id id) [
  | yes q ↦
      let same : w ≡ m.decl = ground (arith, e, q, get-put string_discrete m.decl.id id m units) in
      rw same (h, q)
  | no n ↦ l id w (ground (arith, e, n, get-put string_discrete m.decl.id id m units))
]

-- The declared, each under its identity, are all of a list, and those of another list besides.
AllOf : List Declared → List Declared → Type 0
AllOf us [] = Unit
AllOf us (w ∷ ws) = Mem w us × AllOf us ws

AllOf-more : (u : Declared) (us ws : List Declared) → AllOf us ws → AllOf (u ∷ us) ws
unfolding AllOf
AllOf-more u us [] h = tt
AllOf-more u us (w ∷ ws) h = (inr h.0, AllOf-more u us ws h.1)

AllOf-self : (us : List Declared) → AllOf us us
unfolding AllOf
AllOf-self [] = tt
AllOf-self (u ∷ us) = (inl refl, AllOf-more u us us (AllOf-self us))

AllOf-keep : (p : Declared → Bool) (us ws : List Declared) → AllOf us ws → AllOf us (keep p ws)
unfolding AllOf
AllOf-keep p us [] h = tt
AllOf-keep p us (w ∷ ws) h = elim (Bool-cases (p w)) [
  | inl e ↦ rw e (h.0, AllOf-keep p us ws h.1)
  | inr e ↦ rw e (AllOf-keep p us ws h.1)
]

Listed-declared :
    (us ws : List Declared) (units : List (String × Managed))
    → AllOf us ws
    → Listed us units
    → Listed us (declared ws units)
unfolding AllOf
Listed-declared us [] units h l = l
Listed-declared us (w ∷ ws) units h l =
    Listed-declared us ws (put string_discrete w.id (managed w) units) h.1
      (Listed-put us units (managed w) h.0 l)

-- While dependents are held and nothing was launched or told.
abbrev Holding : List Declared → Supervisor → Type 0
Holding us s =
    Listed us s.units
    × (s.order ≡ [])
    × (s.told ≡ [])
    × ((id : String) (w : Declared) (d : String)
        → decl_of (unit s id) ≡ some w
        → contains s.held id ≡ true
        → contains w.depends_on d ≡ true
        → contains (awaiting_of (unit s id)) d ≡ true)

hold_one :
    (now : ℕ) (us : List Declared) (s : Supervisor) (u : Declared)
    → Mem u us
    → Holding us s
    → Holding us (record (with_unit s (held_back now s u)) { held = s.held ++ u.id ∷ [] })
unfolding contains
hold_one now us s u h k = (
  Listed-put us s.units (held_back now s u) h k.0,
  k.1,
  k.2,
  λ id w d e c f. ground (
    arith,
    e,
    c,
    f,
    k.3 id w d,
    contains-append s.held (u.id ∷ []) id,
    get-put string_discrete u.id id (held_back now s u) s.units,
  ),
)

hold_all-Holding :
    (now : ℕ) (us ws : List Declared) (s : Supervisor)
    → AllOf us ws
    → Holding us s
    → Holding us (hold_all now s ws)
unfolding AllOf
hold_all-Holding now us [] s h k = k
hold_all-Holding now us (w ∷ ws) s h k =
    hold_all-Holding now us ws
      (record (with_unit s (held_back now s w)) { held = s.held ++ w.id ∷ [] }) h.1
      (hold_one now us s w h.0 k)

Holding-Inv : (us : List Declared) (s : Supervisor) → Holding us s → Inv s
unfolding contains
Holding-Inv us s k = (
  rw k.2 tt,
  (λ id u e. ground (arith, (k.0 id u e).1)),
  λ id u d e c. ground (arith, k.1, k.3 id u d e),
)

-- The units with no dependency, as they stand, wait for nothing.
abbrev AllUnheld : Supervisor → List Declared → Type 0
AllUnheld s [] = Unit
AllUnheld s (u ∷ us) = Unheld s u.id × AllUnheld s us

AllUnheld-Steady :
    (s s' : Supervisor) (us : List Declared) → Steady s s' → AllUnheld s us → AllUnheld s' us
AllUnheld-Steady s s' [] st h = tt
AllUnheld-Steady s s' (u ∷ us) st h =
    (Unheld-Steady s s' u.id st h.0, AllUnheld-Steady s s' us st h.1)

no_dependency :
    (us : List Declared) (s : Supervisor) (u : Declared)
    → Distinct us
    → Mem u us
    → Holding us s
    → dependent u ≡ false
    → Unheld s u.id
unfolding contains
no_dependency us s u dis mem k e w d f c =
    let here = k.0 u.id w f in
    let same = Distinct-same us w u dis here.0 mem here.1 in absurd (ground (arith, same, e, c))

free_of :
    (us ws : List Declared) (s : Supervisor)
    → Distinct us
    → AllOf us ws
    → Holding us s
    → AllUnheld s (keep (λ u. not (dependent u)) ws)
unfolding AllOf
free_of us [] s dis h k = tt
free_of us (w ∷ ws) s dis h k = elim (Bool-cases (dependent w)) [
  | inl e ↦ rw e (free_of us ws s dis h.1 k)
  | inr e ↦ rw e (no_dependency us s w dis h.0 k e, free_of us ws s dis h.1 k)
]

ordered-Good :
    (s : Supervisor) (id : String)
    → Unheld s id
    → Inv s
    → Good s (record s { order = s.order ++ id ∷ [] })
unfolding contains
ordered-Good s id free inv = (
  ((λ j. refl), λ d c. c),
  (
    inv.0,
    inv.1,
    λ j u d e c. ground (arith, e, c, inv.2 j u d, free u d, contains-append s.order (id ∷ []) j),
  ),
)

launch_free-Inv :
    (r : Release) (a : String → Answers) (s : Supervisor) (us : List Declared)
    → Releases r
    → AllUnheld s us
    → Inv s
    → Inv (launch_free r a s us)
unfolding launch_free
launch_free-Inv r a s [] rel h inv = inv
launch_free-Inv r a s (u ∷ us) rel h inv =
    let s1 = record s { order = s.order ++ u.id ∷ [] } in
    let s2 = attempt r (a u.id) s1 u.id in
    let g =
      Good-trans s s1 s2 (ordered-Good s u.id h.0 inv)
        (λ i. attempt-Good r (a u.id) s1 u.id rel h.0 i) in
    launch_free-Inv r a s2 us rel (AllUnheld-Steady s s2 us g.0 h.1) g.1

pub start-Inv :
    (now : ℕ) (a : String → Answers) (p : Policy) (root : String) (us : List Declared)
    → Distinct us
    → Inv (start now a (no_units p root) us)
unfolding start contains get
start-Inv now a p root us dis =
    let s1 = record (no_units p root) { units = declared us [] } in
    let s2 = hold_all now s1 (keep dependent us) in
    let listed = Listed-declared us us [] (AllOf-self us) (λ id w e. absurd (ground (arith, e))) in
    let holding =
      hold_all-Holding now us (keep dependent us) s1 (AllOf-keep dependent us us (AllOf-self us))
        (listed, refl, refl, λ id w d e c. absurd (cc)) in
    launch_free-Inv (release (enough s2) a) a s2 (keep (λ u. not (dependent u)) us)
      (release-Good (enough s2) a) (free_of us us s2 dis (AllOf-self us) holding)
      (Holding-Inv us s2 holding)
