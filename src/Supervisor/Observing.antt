-- ===== src/Supervisor/Observing.antt =====
-- internal/core/supervisor/supervisor.go, `goQuiet` and `observable`: what a quiet backend changes.
use yoke.Prelude.{
  ℕ, ◌≡◌, refl, ◌≢◌, inl, inr, String, Bool, true, false, ◌&&◌, ◌||◌, Option, none, some, List, [],
  ◌∷◌, get, put, delete, string_discrete, ◌=?◌, contains, get-put, get-delete, arith, if◌then◌else◌,
  Option-cases, Bool-cases,
}
use yoke.Lifecycle.{Machine}
use yoke.Supervisor.{
  Supervisor, Managed, Backend, Backend-discrete, with_unit, tell, observable, unobservable,
}
use yoke.Supervisor.Attempt.{is_quiet}
use yoke.Supervisor.Steps.{mark_quiet, go_quiet, mark_observable, become_observable, runs_on}
use yoke.Supervisor.Order.{unit, Inv, with_unit-Good, tell-Good}
use yoke.Supervisor.Releasing.{found-Same}
use yoke.Supervisor.Lives.{Reachable, reachable-Inv}

abbrev pub machine_of : Option Managed → Option Machine
machine_of none = none
machine_of (some m) = some m.machine

-- Whether a unit carries the condition of a quiet backend.
abbrev pub is_marked : Option Managed → Bool
is_marked none = false
is_marked (some m) = m.is_unobserved

abbrev pub is_running_on : Backend → Option Managed → Bool
is_running_on b none = false
is_running_on b (some m) = runs_on b m

abbrev marked : Managed → Bool → Managed
marked m b = record m { is_unobserved = b }

marked-Inv :
    (s : Supervisor) (id : String) (m : Managed) (b : Bool)
    → get string_discrete id s.units ≡ some m
    → Inv s
    → Inv (with_unit s (marked m b))
marked-Inv s id m b e inv = (with_unit-Good s (marked m b) inv (found-Same s id m e inv)).1

unit-marked :
    (s : Supervisor) (id : String) (m : Managed) (b : Bool) (x : String)
    → get string_discrete id s.units ≡ some m
    → Inv s
    → (machine_of (unit (with_unit s (marked m b)) x) ≡ machine_of (unit s x))
      × (is_marked (unit (with_unit s (marked m b)) x)
          ≡ (if id =? x then b else is_marked (unit s x)))
unfolding ◌=?◌
unit-marked s id m b x e inv =
    ground (arith, e, inv.1 id m.decl, get-put string_discrete m.decl.id x (marked m b) s.units)

mark_observable_lem :
    (s : Supervisor) (ids : List String) (x : String)
    → Inv s
    → (machine_of (unit (mark_observable s ids) x) ≡ machine_of (unit s x))
      × (is_marked (unit (mark_observable s ids) x)
          ≡ (if contains ids x then false else is_marked (unit s x)))
      × ((mark_observable s ids).quiet ≡ s.quiet)
unfolding mark_observable contains ◌=?◌
mark_observable_lem s [] x inv = (refl, refl, refl)
mark_observable_lem s (id ∷ ids) x inv = elim (Option-cases (get string_discrete id s.units)) [
  | inl e ↦ rw (e, mark_observable) (ground (arith, e, mark_observable_lem s ids x inv))
  | inr (m, e) ↦ elim (Bool-cases m.is_unobserved) [
    | inl r ↦
        let u = with_unit s (marked m false) in
        let t = observable id m.incarnation m.machine.condition in
        let inv' = (tell-Good u t refl (marked-Inv s id m false e inv)).1 in
        rw (e, mark_observable)
          (rw r (
            ground
              (arith, unit-marked s id m false x e inv, mark_observable_lem (tell u t) ids x inv')))
    | inr r ↦ rw (e, mark_observable) (rw r (ground (arith, e, r, mark_observable_lem s ids x inv)))
  ]
]

running_on-marked :
    (b : Backend) (s : Supervisor) (id : String) (m : Managed) (x : String)
    → get string_discrete id s.units ≡ some m
    → Inv s
    → is_running_on b (unit (with_unit s (marked m true)) x) ≡ is_running_on b (unit s x)
running_on-marked Backend.host s id m x e inv =
    ground (arith, e, inv.1 id m.decl, get-put string_discrete m.decl.id x (marked m true) s.units)
running_on-marked Backend.container s id m x e inv =
    ground (arith, e, inv.1 id m.decl, get-put string_discrete m.decl.id x (marked m true) s.units)

mark_quiet_lem :
    (b : Backend) (s : Supervisor) (ids : List String) (x : String)
    → Inv s
    → (machine_of (unit (mark_quiet b s ids) x) ≡ machine_of (unit s x))
      × (is_marked (unit (mark_quiet b s ids) x)
          ≡ ((contains ids x && is_running_on b (unit s x)) || is_marked (unit s x)))
unfolding mark_quiet contains ◌=?◌
mark_quiet_lem b s [] x inv = (refl, refl)
mark_quiet_lem b s (id ∷ ids) x inv = elim (Option-cases (get string_discrete id s.units)) [
  | inl e ↦ rw (e, mark_quiet) (ground (arith, e, mark_quiet_lem b s ids x inv))
  | inr (m, e) ↦ elim (Bool-cases (runs_on b m)) [
    | inl r ↦
        let u = with_unit s (marked m true) in
        let t = unobservable id m.incarnation m.machine.condition in
        let inv' = (tell-Good u t refl (marked-Inv s id m true e inv)).1 in
        rw (e, mark_quiet)
          (rw r (
            ground (
              arith,
              e,
              r,
              unit-marked s id m true x e inv,
              running_on-marked b s id m x e inv,
              mark_quiet_lem b (tell u t) ids x inv',
            )))
    | inr r ↦ rw (e, mark_quiet) (rw r (ground (arith, e, r, mark_quiet_lem b s ids x inv)))
  ]
]

-- A backend that goes quiet concludes nothing: no machine moves, and of the units that were launched
-- those that run on it carry its condition, besides those that carried one.
go_quiet_lem :
    {s : Supervisor} (b : Backend) (since : ℕ) (x : String)
    → Reachable s
    → is_quiet s b ≡ false
    → contains s.order x ≡ true
    → (machine_of (unit (go_quiet s b since) x) ≡ machine_of (unit s x))
      × (is_marked (unit (go_quiet s b since) x)
          ≡ (is_running_on b (unit s x) || is_marked (unit s x)))
unfolding go_quiet
go_quiet_lem {s} b since x r q o = ground (
  arith,
  q,
  o,
  mark_quiet_lem b (record s { quiet = put Backend-discrete b since s.quiet }) s.order x
      (reachable-Inv r),
)

-- A quiet backend that is observable again concludes nothing either: no machine moves, and the other
-- backend stays quiet if it was. But no unit that was launched carries a condition any more: those of
-- the other backend lose theirs as well, while it is still quiet.
pub become_observable_lem :
    {s : Supervisor} (b c : Backend) (x : String)
    → Reachable s
    → is_quiet s b ≡ true
    → b ≢ c
    → contains s.order x ≡ true
    → (machine_of (unit (become_observable s b) x) ≡ machine_of (unit s x))
      × (is_quiet (become_observable s b) c ≡ is_quiet s c)
      × (is_marked (unit (become_observable s b) x) ≡ false)
unfolding become_observable
become_observable_lem {s} b c x r q n o = ground (
  arith,
  q,
  o,
  n,
  get-delete Backend-discrete b c s.quiet,
  mark_observable_lem (record s { quiet = delete Backend-discrete b s.quiet }) s.order x
      (reachable-Inv r),
)
