-- ===== src/Gate/Phases.antt =====
-- internal/gate/gate.go, `Check` and `run`: the phases of a pass, in order. A phase is what it makes of
-- the checker, and whether its inputs were given; what it carries beside its report is a parameter.
use yoke.Prelude.{String, Bool, true, false, Option, none, some, List, [], ◌∷◌, ◌++◌, if◌then◌else◌}
use yoke.Gate.{Report, refused}

module _ {ℓ} (S : Type ℓ) where
  pub record Checker : Type ℓ where
    pub state : S
    pub report : Report

  pub record Phase : Type ℓ where
    pub name : String
    pub run : Checker → Checker × Bool

module _ {ℓ} {S : Type ℓ} where
  abbrev pub fresh_checker : S → Checker S
  fresh_checker s = record { state = s; report = record { findings = []; not_run = [] } }

  abbrev pub passed_by : Checker S → String → Checker S
  passed_by c name = record c {
    report = record c.report { not_run = c.report.not_run ++ name ∷ [] };
  }

  -- What a phase leaves: of one whose inputs were not given, its name among those not run.
  abbrev pub after : Checker S × Bool → String → Checker S
  after (c, ran) name = if ran then c else passed_by c name

  -- The phases, of which a refusal stops those that come after.
  unfoldable pub run_phases : List (Phase S) → Bool → Checker S → Checker S
  run_phases [] stopped c = c
  run_phases (p ∷ ps) stopped c = elim stopped [
    | true ↦ run_phases ps true (passed_by c p.name)
    | false ↦
        let (c1, ran) = p.run c in
        run_phases ps (if ran then refused c1.report else false) (after (c1, ran) p.name)
  ]

  -- The report, and the deployment of a document that nothing refused.
  unfoldable pub check : {D : Type ℓ} → (S → D) → List (Phase S) → S → Report × Option D
  unfolding run_phases
  check deployment phases s =
      let c = run_phases phases false (fresh_checker s) in
      (c.report, if refused c.report then none else some (deployment c.state))

  -- Every phase, whatever the others found.
  abbrev pub run_all : List (Phase S) → Checker S → Checker S
  run_all [] c = c
  run_all (p ∷ ps) c = run_all ps (after (p.run c) p.name)
