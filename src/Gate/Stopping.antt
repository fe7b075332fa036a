-- ===== src/Gate/Stopping.antt =====
-- internal/gate/gate.go, `run`: what stopping at a refusal leaves out.
use yoke.Prelude.{
  ◌≡◌, ◌⊎◌, inl, inr, String, Bool, true, false, Option, none, some, List, [], ◌∷◌, ◌++◌,
  if◌then◌else◌, refl, ap, ◌∙◌, All, Bool-cases,
}
use yoke.Gate.{Report, refused}
use yoke.Gate.Phases.{Checker, Phase, passed_by, after, run_phases, run_all, check, fresh_checker}

module _ {ℓ} {S : Type ℓ} where
  abbrev pub unstopped : {D : Type ℓ} → (S → D) → List (Phase S) → S → Report × Option D
  unstopped deployment phases s =
      let c = run_all phases (fresh_checker s) in
      (c.report, if refused c.report then none else some (deployment c.state))

  abbrev pub pass_by : List (Phase S) → Checker S → Checker S
  pass_by [] c = c
  pass_by (p ∷ ps) c = pass_by ps (passed_by c p.name)

  -- A phase adds to what was found, and does nothing where its inputs were not given.
  abbrev pub IsAdding : Phase S → Type ℓ
  IsAdding p =
      (c : Checker S)
      → (refused c.report ≡ true → refused (p.run c).0.report ≡ true)
        × ((p.run c).1 ≡ false → (p.run c).0 ≡ c)

  -- The pass ended at the first phase that found a refusal, after all of those before it.
  abbrev pub Stopped : List (Phase S) → Checker S → Checker S → Type ℓ
  Stopped ps c end =
      (before : List (Phase S)) × (p : Phase S) × (rest : List (Phase S)) × (ps
        ≡ before ++ p ∷ rest)
      × (refused (run_all before c).report ≡ false)
      × (refused (p.run (run_all before c)).0.report ≡ true)
      × (end ≡ pass_by rest (p.run (run_all before c)).0)

  run_phases-stopped : (ps : List (Phase S)) (c : Checker S) → run_phases ps true c ≡ pass_by ps c
  unfolding run_phases
  run_phases-stopped [] c = refl
  run_phases-stopped (p ∷ ps) c = run_phases-stopped ps (passed_by c p.name)

  refused-pass_by :
      (ps : List (Phase S)) (c : Checker S) → refused (pass_by ps c).report ≡ refused c.report
  unfolding refused
  refused-pass_by [] c = refl
  refused-pass_by (p ∷ ps) c = refused-pass_by ps (passed_by c p.name)

  refused-after :
      (p : Phase S) (c : Checker S)
      → IsAdding p
      → refused c.report ≡ true
      → refused (after (p.run c) p.name).report ≡ true
  unfolding refused
  refused-after p c a h = elim (Bool-cases (p.run c).1) [
    | inl k ↦ rw k ((a c).0 h)
    | inr k ↦ rw k ((a c).0 h)
  ]

  refused-run_all :
      (ps : List (Phase S)) (c : Checker S)
      → All IsAdding ps
      → refused c.report ≡ true
      → refused (run_all ps c).report ≡ true
  refused-run_all [] c a h = h
  refused-run_all (p ∷ ps) c a h =
      refused-run_all ps (after (p.run c) p.name) a.1 (refused-after p c a.0 h)

  Stopped-cons :
      (p : Phase S) (ps : List (Phase S)) (c c2 end : Checker S)
      → refused c.report ≡ false
      → after (p.run c) p.name ≡ c2
      → Stopped ps c2 end
      → Stopped (p ∷ ps) c end
  Stopped-cons p ps c c2 end h e (before, q, rest, split, passed, refuses, left) = (
    p ∷ before,
    q,
    rest,
    ap (λ l. p ∷ l) split,
    rw (run_all, e) passed,
    rw (run_all, e) refuses,
    rw (run_all, e) left,
  )

  -- What follows a phase that did not end the pass.
  go_on :
      (p : Phase S) (ps : List (Phase S)) (c c2 : Checker S)
      → refused c.report ≡ false
      → after (p.run c) p.name ≡ c2
      → ((run_phases ps false c2 ≡ run_all ps c2) × (refused (run_all ps c2).report ≡ false))
        ⊎ (Stopped ps c2 (run_phases ps false c2) × (refused (run_all ps c2).report ≡ true))
      → ((run_phases ps false c2 ≡ run_all ps c2) × (refused (run_all ps c2).report ≡ false))
        ⊎ (Stopped (p ∷ ps) c (run_phases ps false c2) × (refused (run_all ps c2).report ≡ true))
  go_on p ps c c2 h e (inl x) = inl x
  go_on p ps c c2 h e (inr x) = inr (Stopped-cons p ps c c2 (run_phases ps false c2) h e x.0, x.1)

  run_phases-ran :
      (p : Phase S) (ps : List (Phase S)) (c : Checker S) (stops : Bool)
      → (p.run c).1 ≡ true
      → refused (p.run c).0.report ≡ stops
      → (run_phases (p ∷ ps) false c ≡ run_phases ps stops (p.run c).0)
        × (run_all (p ∷ ps) c ≡ run_all ps (p.run c).0)
        × (after (p.run c) p.name ≡ (p.run c).0)
  unfolding run_phases
  run_phases-ran p ps c stops k r = rw (k, r) (refl, refl, refl)

  run_phases-not_given :
      (p : Phase S) (ps : List (Phase S)) (c : Checker S)
      → (p.run c).1 ≡ false
      → let c2 = passed_by (p.run c).0 p.name in
        (run_phases (p ∷ ps) false c ≡ run_phases ps false c2)
        × (run_all (p ∷ ps) c ≡ run_all ps c2)
        × (after (p.run c) p.name ≡ c2)
  unfolding run_phases
  run_phases-not_given p ps c k = rw k (refl, refl, refl)

  refused-passed_by :
      (c : Checker S) (name : String) → refused (passed_by c name).report ≡ refused c.report
  unfolding refused
  refused-passed_by c name = refl

  no_phases : (c : Checker S) → run_phases [] false c ≡ c
  unfolding run_phases
  no_phases c = refl

  abbrev Ended : List (Phase S) → Checker S → Type ℓ
  Ended ps c =
      ((run_phases ps false c ≡ run_all ps c) × (refused (run_all ps c).report ≡ false))
      ⊎ (Stopped ps c (run_phases ps false c) × (refused (run_all ps c).report ≡ true))

  run_phases-Ended :
      (ps : List (Phase S)) (c : Checker S)
      → All IsAdding ps
      → refused c.report ≡ false
      → Ended ps c
  run_phases-Ended [] c a h = inl (no_phases c, h)
  run_phases-Ended (p ∷ ps) c a h = elim (Bool-cases (p.run c).1) [
    | inl k ↦ elim (Bool-cases (refused (p.run c).0.report)) [
      | inl r ↦
          let e = run_phases-ran p ps c true k r in
          rw (e.0, e.1)
            (inr (
              ([], p, ps, refl, h, r, run_phases-stopped ps (p.run c).0),
              refused-run_all ps (p.run c).0 a.1 r,
            ))
      | inr r ↦
          let e = run_phases-ran p ps c false k r in
          rw (e.0, e.1) (go_on p ps c (p.run c).0 h e.2 (run_phases-Ended ps (p.run c).0 a.1 r))
    ]
    | inr k ↦
        let c2 = passed_by (p.run c).0 p.name in
        let e = run_phases-not_given p ps c k in
        let same : refused c2.report ≡ false =
          refused-passed_by (p.run c).0 p.name ∙ (ap (λ x. refused x.report) ((a.0 c).1 k) ∙ h) in
        rw (e.0, e.1) (go_on p ps c c2 h e.2 (run_phases-Ended ps c2 a.1 same))
  ]

  nothing_found : (s : S) → refused (record { findings = []; not_run = [] }) ≡ false
  unfolding refused
  nothing_found s = refl

  Stopped-refused :
      (ps : List (Phase S)) (c end : Checker S) → Stopped ps c end → refused end.report ≡ true
  Stopped-refused ps c end (before, q, rest, split, passed, refuses, left) =
      rw left (refused-pass_by rest (q.run (run_all before c)).0 ∙ refuses)

  abbrev pub SameVerdict : {D : Type ℓ} → (S → D) → List (Phase S) → S → Type ℓ
  SameVerdict deployment phases s =
      (check deployment phases s ≡ unstopped deployment phases s)
      ⊎ (((check deployment phases s).1 ≡ none)
          × ((unstopped deployment phases s).1 ≡ none)
          × ((end : Checker S) × ((check deployment phases s).0 ≡ end.report)
              × Stopped phases (fresh_checker s) end))

-- A document passes exactly when no phase refuses it, each of them run whatever the others found, and
-- then the report is that of all of the phases. Of one that is refused the report is that of the phases
-- up to the first that found a refusal, with every later one named as not run. Of the phases it asks
-- that each adds to what was found, and does nothing where its inputs were not given.
pub check-unstopped {ℓ} :
    {S D : Type ℓ} (deployment : S → D) (phases : List (Phase S)) (s : S)
    → All IsAdding phases
    → SameVerdict deployment phases s
unfolding check
check-unstopped deployment phases s a =
    let c = fresh_checker s in
    elim (run_phases-Ended phases c a (nothing_found s)) [
      | inl h ↦ inl (rw h.0 refl)
      | inr h ↦
          let end = run_phases phases false c in
          let r = Stopped-refused phases c end h.0 in
          let q = h.1 in inr (rw r refl, rw q refl, (end, refl, h.0))
    ]
