-- ===== src/Admission/Stages.antt =====
-- internal/core/admission/admission.go, `decide`: what a refusal at each stage leaves.
use yoke.Admission.Bootstrap.{spend}
use yoke.Prelude.{
  ◌≢◌, false, not, true, inr, inl, Option-cases, ℕ, ◌≡◌, ◌≤◌, ◌⊎◌, String, Bool, List, arith,
}
use yoke.Contract.{stage_number}
use yoke.Admission.{
  plugin, accepted, Admission, Config, Outside, Request, Verdict, refused, Composed, Manifest,
  spend,
}
use yoke.Admission.Decide.{decide, authenticate, Outcome, compare_declared, prepare}

-- The stage that refused, and 0 where none did.
abbrev pub stage_of : Verdict → ℕ
stage_of (refused s c) = stage_number s
stage_of (accepted se w) = 0

-- What an outcome of stages 5 to 9 may be.
abbrev Late : Admission → Bool → Outcome → Type 0
Late a examined d =
    ((stage_of d.verdict ≡ 0) ⊎ ((5 ≤ stage_of d.verdict) × (d.after ≡ a)))
    × (d.examined ≡ examined)

prepare-Late :
    (cfg : Config) (o : Outside) (a : Admission) (req : Request) (composed : Composed)
    (m : Manifest) (grants : List String) (examined : Bool)
    → Late a examined (prepare cfg o a req composed m grants examined)
unfolding prepare
prepare-Late cfg o a req composed m grants examined = ground arith

compare-Late :
    (cfg : Config) (o : Outside) (a : Admission) (req : Request) (composed : Composed)
    (grants : List String) (examined : Bool)
    → Late a examined (compare_declared cfg o a req composed grants examined)
unfolding compare_declared
compare-Late cfg o a req composed grants examined = elim (Option-cases (cfg.manifest req.plugin)) [
  | inl e ↦ ground arith
  | inr (m, e) ↦ ground (arith, prepare-Late cfg o a req composed m grants examined)
]

-- What an outcome of the stages may be: a refusal by one of the first three leaves all as it was, with the
-- credential not reached; one by the fourth, its tokens apart; and one by a later stage comes after the
-- fourth, passed or waived.
authenticate-Late :
    (cfg : Config) (o : Outside) (a : Admission) (req : Request) (composed : Composed)
    (grants : List String)
    → let d = authenticate cfg o a req composed grants in
      (d.examined ≡ not cfg.admit_unlaunched)
      × ((stage_of d.verdict ≡ 0)
          ⊎ ((4 ≤ stage_of d.verdict)
              × (d.after.registry ≡ a.registry)
              × (d.after.live ≡ a.live)
              × (d.after.sessions ≡ a.sessions)))
unfolding authenticate
authenticate-Late cfg o a req composed grants =
    let (tokens, code) = spend a.tokens req.unit req.token (cfg.window req.unit) o.now in
    ground (
      arith,
      compare-Late cfg o a req composed grants false,
      compare-Late cfg o (record a { tokens = tokens }) req composed grants true,
    )

-- A refusal makes no Session, leaves the Registry and what is live as they were, and where it comes
-- before authentication it leaves everything as it was, with the credential not reached.
pub decide-refusal :
    (cfg : Config) (o : Outside) (a : Admission) (req : Request)
    → let d = decide cfg o a req in
      stage_of d.verdict ≢ 0
      → (d.after.registry ≡ a.registry)
        × (d.after.live ≡ a.live)
        × (d.after.sessions ≡ a.sessions)
        × (stage_of d.verdict ≤ 3 → (d.after ≡ a) × (d.examined ≡ false))
        × (4 ≤ stage_of d.verdict → d.examined ≡ not cfg.admit_unlaunched)
unfolding decide
decide-refusal cfg o a req h = elim (Option-cases (plugin a.registry req.plugin)) [
  | inl e ↦ ground arith
  | inr (p, e) ↦ elim (Option-cases (cfg.unit req.unit)) [
    | inl e' ↦ ground arith
    | inr (composed, e') ↦ ground (arith, authenticate-Late cfg o a req composed p.capabilities)
  ]
]
