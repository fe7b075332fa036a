-- ===== src/Lifecycle/Reports.antt =====
-- internal/core/unit/machine.go: what a unit's own reports do to the machine.
use yoke.Prelude.{
  ◌≡◌, refl, Bool, true, false, not, none, some, Option, List, [], ◌∷◌, arith, keep, ◌∙◌, inl, inr,
  Bool-cases,
}
use yoke.Lifecycle.{Input, reported, Machine, Condition, is_terminal, apply, run}
use yoke.Lifecycle.Absorbing.{run-terminal}

abbrev pub is_report : Input → Bool
is_report (reported r) = true
is_report _ = false

-- A machine less the unit's account of itself.
abbrev pub position : Machine → Machine
position m = record m { condition = none }

position-apply :
    (m n : Machine) (i : Input)
    → position m ≡ position n
    → position (apply m i).0 ≡ position (apply n i).0
unfolding apply
position-apply m n i h = ground arith

position-report :
    (m : Machine) (i : Input) → is_report i ≡ true → position (apply m i).0 ≡ position m
unfolding apply
position-report m i h = ground arith

position-run :
    (m n : Machine) (is : List Input)
    → position m ≡ position n
    → position (run m is) ≡ position (run n (keep (λ i. not (is_report i)) is))
unfolding run
position-run m n [] h = h
position-run m n (i ∷ is) h = elim (Bool-cases (is_report i)) [
  | inl e ↦ rw e (position-run (apply m i).0 n is (position-report m i e ∙ h))
  | inr e ↦ rw e (position-run (apply m i).0 (apply n i).0 is (position-apply m n i h))
]

-- What a unit reports of itself never moves it: dropping every report from a sequence of inputs
-- leaves the machine's kind, its state and whether it was asked to stop as they were.
run-report_blind :
    (m : Machine) (is : List Input)
    → position (run m is) ≡ position (run m (keep (λ i. not (is_report i)) is))
run-report_blind m is = position-run m m is refl

-- The condition after one more input: a report replaces it, and nothing else touches it.
abbrev pub told : Option Condition → Input → Option Condition
told c (reported r) = some (record { grade = r.grade; line = r.line })
told c _ = c

abbrev pub last_told : Option Condition → List Input → Option Condition
last_told c [] = c
last_told c (i ∷ is) = last_told (told c i) is

condition-apply :
    (m : Machine) (i : Input)
    → is_terminal m.state ≡ false
    → (apply m i).0.condition ≡ told m.condition i
unfolding apply
condition-apply m i h = ground arith

-- While an incarnation lives, its condition is its last report, and none where it never reported.
run-condition :
    (m : Machine) (is : List Input)
    → is_terminal (run m is).state ≡ false
    → (run m is).condition ≡ last_told m.condition is
unfolding run
run-condition m [] h = refl
run-condition m (i ∷ is) h = elim (Bool-cases (is_terminal m.state)) [
  | inl e ↦ ground (arith, run-terminal m (i ∷ is) e)
  | inr e ↦ rw (← condition-apply m i e) (run-condition (apply m i).0 is h)
]
