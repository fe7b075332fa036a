-- ===== src/Supervisor/Order.antt =====
-- internal/core/supervisor/supervisor.go: what holds of the units and of what was told while units wait
-- for each other, and the changes that keep it.
use yoke.Prelude.{
  ℕ, ◌≡◌, ◌⊎◌, String, Bool, true, false, ◌&&◌, ◌||◌, Option, none, some, List, [], ◌∷◌, get,
  string_discrete, ◌=?◌, contains, get-put, arith, refl,
}
use yoke.Supervisor.{
  kills, disposes, never_starts, launch_fails, ends, observable, unobservable, tell, declines,
  Supervisor, Managed, Declared, Told, begins, moves, skips, ready, with_unit,
}

-- Whether a unit became ready, by what was told.
abbrev pub became_ready : String → List Told → Bool
became_ready d [] = false
became_ready d (moves u n from to ∷ log) = (u.id =? d && ready u.kind to) || became_ready d log
became_ready d (skips u k ∷ log) = u.id =? d || became_ready d log
became_ready d (t ∷ log) = became_ready d log

-- Each life began after all that its unit depends on became ready.
abbrev pub Dependable : List Told → Type 0
Dependable [] = Unit
Dependable (begins u n ∷ log) =
    ((d : String) → contains u.depends_on d ≡ true → became_ready d log ≡ true) × Dependable log
Dependable (t ∷ log) = Dependable log

abbrev pub decl_of : Option Managed → Option Declared
decl_of none = none
decl_of (some m) = some m.decl

abbrev pub awaiting_of : Option Managed → List String
awaiting_of none = []
awaiting_of (some m) = m.status.awaiting

abbrev pub unit : Supervisor → String → Option Managed
unit s id = get string_discrete id s.units

-- What a unit that was launched depends on became ready, and what one that is held depends on did or is
-- awaited.
abbrev pub Waits : Supervisor → Type 0
Waits s =
    (id : String) (u : Declared) (d : String)
    → decl_of (unit s id) ≡ some u
    → contains u.depends_on d ≡ true
    → (contains s.order id ≡ true → became_ready d s.told ≡ true)
      × (contains s.held id ≡ true
          → (contains (awaiting_of (unit s id)) d ≡ true) ⊎ (became_ready d s.told ≡ true))

abbrev pub Keyed : Supervisor → Type 0
Keyed s = (id : String) (u : Declared) → decl_of (unit s id) ≡ some u → u.id ≡ id

abbrev pub Inv : Supervisor → Type 0
Inv s = Dependable s.told × Keyed s × Waits s

-- What a change keeps: the declarations, and what became ready.
abbrev pub Steady : Supervisor → Supervisor → Type 0
Steady s s' =
    ((id : String) → decl_of (unit s' id) ≡ decl_of (unit s id))
    × ((d : String) → became_ready d s.told ≡ true → became_ready d s'.told ≡ true)

abbrev pub Good : Supervisor → Supervisor → Type 0
Good s s' = Steady s s' × Inv s'

pub Steady-trans : (r s t : Supervisor) → Steady r s → Steady s t → Steady r t
Steady-trans r s t h k = (λ id. ground (arith, h.0 id, k.0 id), λ d e. k.1 d (h.1 d e))

-- A unit that the supervisor has, as it is declared and as it waits.
abbrev pub Same : Supervisor → Managed → Type 0
Same s m =
    (decl_of (unit s m.decl.id) ≡ some m.decl)
    × (awaiting_of (unit s m.decl.id) ≡ m.status.awaiting)

pub with_unit-Good : (s : Supervisor) (m : Managed) → Inv s → Same s m → Good s (with_unit s m)
with_unit-Good s m inv same = (
  (λ id. ground (arith, same, get-put string_discrete m.decl.id id m s.units), λ d e. e),
  (
    inv.0,
    (λ id u e. ground (arith, inv.1 id u, same, e, get-put string_discrete m.decl.id id m s.units)),
    λ id u d e c.
        ground (arith, inv.2 id u d, same, e, c, get-put string_discrete m.decl.id id m s.units),
  ),
)

-- Telling of anything but a life's begin keeps what held.
abbrev pub is_begin : Told → Bool
is_begin (begins u n) = true
is_begin t = false

became_ready-tell :
    (d : String) (t : Told) (log : List Told)
    → became_ready d log ≡ true
    → became_ready d (t ∷ log) ≡ true
became_ready-tell d t log h = ground (arith, h)

Dependable-tell :
    (t : Told) (log : List Told) → is_begin t ≡ false → Dependable log → Dependable (t ∷ log)
Dependable-tell (begins u n) log h k = absurd (cc)
Dependable-tell (moves u n from to) log h k = k
Dependable-tell (skips u w) log h k = k
Dependable-tell (declines u) log h k = k
Dependable-tell (unobservable id n c) log h k = k
Dependable-tell (observable id n c) log h k = k
Dependable-tell (ends id) log h k = k
Dependable-tell (launch_fails id why) log h k = k
Dependable-tell (never_starts id why) log h k = k
Dependable-tell (disposes id) log h k = k
Dependable-tell (kills id) log h k = k

pub Waits-tell : (s : Supervisor) (t : Told) → Waits s → Waits (tell s t)
Waits-tell s t h id u d e c = ground (arith, h id u d e c, became_ready-tell d t s.told)

pub tell-Good : (s : Supervisor) (t : Told) → is_begin t ≡ false → Inv s → Good s (tell s t)
tell-Good s t h inv = (
  (λ id. refl, λ d e. became_ready-tell d t s.told e),
  (Dependable-tell t s.told h inv.0, inv.1, Waits-tell s t inv.2),
)

-- All that a unit depends on became ready.
abbrev pub Unheld : Supervisor → String → Type 0
Unheld s id =
    (u : Declared) (d : String)
    → decl_of (unit s id) ≡ some u
    → contains u.depends_on d ≡ true
    → became_ready d s.told ≡ true

pub Unheld-Steady : (s s' : Supervisor) (id : String) → Steady s s' → Unheld s id → Unheld s' id
Unheld-Steady s s' id h k u d e c = h.1 d (k u d (ground (arith, e, h.0 id)) c)

pub begins-Good :
    (s : Supervisor) (u : Declared) (n : ℕ)
    → Inv s
    → decl_of (unit s u.id) ≡ some u
    → Unheld s u.id
    → Good s (tell s (begins u n))
begins-Good s u n inv e h = (((λ id. refl), λ d c. c), (((λ d c. h u d e c), inv.0), inv.1, inv.2))

pub Good-refl : (s : Supervisor) → Inv s → Good s s
Good-refl s inv = ((λ id. refl, λ d e. e), inv)

-- One change after another, the second proved where the first has kept what holds.
pub Good-trans : (r s t : Supervisor) → Good r s → (Inv s → Good s t) → Good r t
Good-trans r s t h k = (Steady-trans r s t h.0 (k h.1).0, (k h.1).1)
