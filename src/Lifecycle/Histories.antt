-- ===== src/Lifecycle/Histories.antt =====
-- internal/core/unit/machine.go: what must have come before for an incarnation to be in a state.
use yoke.Prelude.{◌≡◌, refl, ◌≢◌, true, false, List, [], ◌∷◌, arith, ◌⊎◌, inl, inr}
use yoke.Lifecycle.{
  Kind, plugin, oneshot, interface, State, starting, admitted, running, completed, stopped, refused,
  Input, stop_asked, admission_accepted, session_opened, Machine, is_terminal, new_machine, apply,
  run,
}

-- An input stands in a history.
abbrev pub Holds : Input → List Input → Type 0
Holds a [] = ⊥
Holds a (i ∷ is) = (i ≡ a) ⊎ Holds a is

-- One input stands in a history with the other somewhere after it.
abbrev pub HoldsThen : Input → Input → List Input → Type 0
HoldsThen a b [] = ⊥
HoldsThen a b (i ∷ is) = ((i ≡ a) × Holds b is) ⊎ HoldsThen a b is

apply-kind : (m : Machine) (i : Input) → (apply m i).0.kind ≡ m.kind
unfolding apply
apply-kind m i = ground arith

-- From Admitted, a plugin runs only once its Session opened.
apply-admitted :
    (m : Machine) (i : Input)
    → m.kind ≡ plugin
    → m.state ≢ running
    → (i ≡ session_opened) ⊎ ((apply m i).0.state ≢ running)
unfolding apply
apply-admitted m i k h = ground arith

run-session :
    (m : Machine) (is : List Input)
    → m.kind ≡ plugin
    → m.state ≢ running
    → (run m is).state ≡ running
    → Holds session_opened is
unfolding run
run-session m [] k h r = absurd (h r)
run-session m (i ∷ is) k h r = elim (apply-admitted m i k h) [
  | inl e ↦ inl e
  | inr e ↦ inr (run-session (apply m i).0 is (ground (arith, apply-kind m i)) e r)
]

apply-starting :
    (m : Machine) (i : Input)
    → m.kind ≡ plugin
    → (m.state ≡ starting) ⊎ (is_terminal m.state ≡ true)
    → ((i ≡ admission_accepted) × ((apply m i).0.state ≢ running))
      ⊎ (((apply m i).0.state ≡ starting) ⊎ (is_terminal (apply m i).0.state ≡ true))
unfolding apply
apply-starting m i k h = ground arith

run-admission :
    (m : Machine) (is : List Input)
    → m.kind ≡ plugin
    → (m.state ≡ starting) ⊎ (is_terminal m.state ≡ true)
    → (run m is).state ≡ running
    → HoldsThen admission_accepted session_opened is
unfolding run
run-admission m [] k h r = absurd (ground arith)
run-admission m (i ∷ is) k h r = elim (apply-starting m i k h) [
  | inl p ↦ inl (p.0, run-session (apply m i).0 is (ground (arith, apply-kind m i)) p.1 r)
  | inr e ↦ inr (run-admission (apply m i).0 is (ground (arith, apply-kind m i)) e r)
]

-- A plugin unit is Running only after an admission was accepted and, later, its Session opened.
pub running_plugin :
    (is : List Input)
    → (run (new_machine plugin) is).state ≡ running
    → HoldsThen admission_accepted session_opened is
unfolding new_machine
running_plugin is r = run-admission _ is refl (inl refl) r

apply-asked :
    (m : Machine) (i : Input)
    → m.asked ≡ false
    → m.state ≢ stopped
    → (i ≡ stop_asked) ⊎ (((apply m i).0.asked ≡ false) × ((apply m i).0.state ≢ stopped))
unfolding apply
apply-asked m i a h = ground arith

run-asked :
    (m : Machine) (is : List Input)
    → m.asked ≡ false
    → m.state ≢ stopped
    → (run m is).state ≡ stopped
    → Holds stop_asked is
unfolding run
run-asked m [] a h r = absurd (h r)
run-asked m (i ∷ is) a h r = elim (apply-asked m i a h) [
  | inl e ↦ inl e
  | inr e ↦ inr (run-asked (apply m i).0 is e.0 e.1 r)
]

-- A unit of any kind is Stopped only after a stop was asked.
stopped_asked :
    (k : Kind) (is : List Input) → (run (new_machine k) is).state ≡ stopped → Holds stop_asked is
unfolding new_machine
stopped_asked k is r = run-asked _ is refl (λ e. cc) r

-- What a kind of unit never is: only a plugin is admitted or refused, and only a oneshot completes.
abbrev pub Fits : Kind → State → Type 0
Fits plugin s = s ≢ completed
Fits oneshot s = (s ≢ admitted) × (s ≢ refused)
Fits interface s = (s ≢ admitted) × (s ≢ refused) × (s ≢ completed)

apply-Fits : (m : Machine) (i : Input) → Fits m.kind m.state → Fits m.kind (apply m i).0.state
unfolding apply
apply-Fits m i h = ground arith

run-Fits : (m : Machine) (is : List Input) → Fits m.kind m.state → Fits m.kind (run m is).state
unfolding run
run-Fits m [] h = h
run-Fits m (i ∷ is) h =
    rw (apply-kind m i) at (run-Fits (apply m i).0 is (rw (apply-kind m i) (apply-Fits m i h)))

-- After any inputs, only a plugin unit is Admitted or Refused and only a oneshot is Completed.
run-new_machine-Fits : (k : Kind) (is : List Input) → Fits k (run (new_machine k) is).state
unfolding new_machine
run-new_machine-Fits plugin is = run-Fits (new_machine plugin) is (λ e. cc)
run-new_machine-Fits oneshot is = run-Fits (new_machine oneshot) is ((λ e. cc), (λ e. cc))
run-new_machine-Fits interface is =
    run-Fits (new_machine interface) is ((λ e. cc), (λ e. cc), (λ e. cc))
