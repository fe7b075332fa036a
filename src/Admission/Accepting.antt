-- ===== src/Admission/Accepting.antt =====
-- internal/core/admission/admission.go, `decide`: what a Session that was accepted went through.
use yoke.Registry.{Plugin, plugin}
use yoke.Prelude.{
  some, none, get, string_discrete, get-put_self, ◌≢◌, false, true, inr, inl, Option-cases, ◌≡◌,
  ◌⊎◌, String, Bool, List, arith, ◌=?◌, put,
}
use yoke.Contract.{Code}
use yoke.Admission.{
  intersect, find_session, Surface, Session, accepted, Admission, Config, Outside, Request,
  Composed, Manifest, speaks, consistent, lists, manifest_surface, is_good, spend,
}
use yoke.Admission.Decide.{decide, session_for, authenticate, Outcome, compare_declared, prepare}
use yoke.Admission.Stages.{stage_of}

-- What a Session was made of, once stages 7 to 9 passed.
abbrev pub Prepared :
    Config
    → Outside
    → Admission
    → Request
    → Composed
    → Manifest
    → List String
    → Outcome
    → Session
    → Surface
    → Type 0
Prepared cfg o a req composed m grants d se w =
    (get string_discrete req.unit a.live ≡ none)
    × (se ≡ session_for cfg req se.id composed m grants)
    × (w ≡ (intersect m grants).withheld)
    × (o.random ≡ some se.id)
    × (d.after.live ≡ put string_discrete req.unit se.id a.live)
    × (d.after.sessions ≡ put string_discrete se.id se a.sessions)
    × (get string_discrete req.unit d.after.live ≡ some se.id)
    × (find_session d.after se.id ≡ some se)

prepare-Prepared :
    (cfg : Config) (o : Outside) (a : Admission) (req : Request) (composed : Composed)
    (m : Manifest) (grants : List String) (examined : Bool) (se : Session) (w : Surface)
    → let d = prepare cfg o a req composed m grants examined in
      d.verdict ≡ accepted se w → Prepared cfg o a req composed m grants d se w
unfolding prepare find_session
prepare-Prepared cfg o a req composed m grants examined se w h = elim (Option-cases o.random) [
  | inl e ↦ ground arith
  | inr (id, e) ↦ ground (
    arith,
    get-put_self string_discrete req.unit id a.live,
    get-put_self string_discrete id (session_for cfg req id composed m grants) a.sessions,
  )
]

-- What a token answers that a registration presents.
abbrev pub token_code : Config → Outside → Admission → Request → Code
token_code cfg o a req = (spend a.tokens req.unit req.token (cfg.window req.unit) o.now).1

-- What stages 4, 5 and 6 let pass.
abbrev pub Authenticated : Config → Outside → Admission → Request → Composed → Type 0
Authenticated cfg o a req composed =
    (cfg.admit_unlaunched ≡ true)
    ⊎ (((composed.plugin =? req.plugin) ≡ true) × (is_good (token_code cfg o a req) ≡ true))

abbrev pub Compared : Config → Request → Manifest → Type 0
Compared cfg req m =
    (speaks cfg.protocols req.protocol ≡ true)
    × (consistent (lists req.declared) (lists (manifest_surface m)) ≡ true)

compare-Prepared :
    (cfg : Config) (o : Outside) (a : Admission) (req : Request) (composed : Composed)
    (grants : List String) (examined : Bool) (m : Manifest) (se : Session) (w : Surface)
    → let d = compare_declared cfg o a req composed grants examined in
      cfg.manifest req.plugin ≡ some m
      → d.verdict ≡ accepted se w
      → Compared cfg req m × Prepared cfg o a req composed m grants d se w
unfolding compare_declared
compare-Prepared cfg o a req composed grants examined m se w e h =
    ground (arith, prepare-Prepared cfg o a req composed m grants examined se w)

compare-manifest :
    (cfg : Config) (o : Outside) (a : Admission) (req : Request) (composed : Composed)
    (grants : List String) (examined : Bool)
    → cfg.manifest req.plugin ≡ none
    → stage_of (compare_declared cfg o a req composed grants examined).verdict ≢ 0
unfolding compare_declared
compare-manifest cfg o a req composed grants examined e = ground arith

authenticate-Prepared :
    (cfg : Config) (o : Outside) (a : Admission) (req : Request) (composed : Composed)
    (grants : List String) (m : Manifest) (se : Session) (w : Surface)
    → let d = authenticate cfg o a req composed grants in
      cfg.manifest req.plugin ≡ some m
      → d.verdict ≡ accepted se w
      → Authenticated cfg o a req composed
        × Compared cfg req m
        × Prepared cfg o a req composed m grants d se w
unfolding authenticate
authenticate-Prepared cfg o a req composed grants m se w e h =
    let (tokens, code) = spend a.tokens req.unit req.token (cfg.window req.unit) o.now in
    ground (
      arith,
      compare-Prepared cfg o a req composed grants false m se w,
      compare-Prepared cfg o (record a { tokens = tokens }) req composed grants true m se w,
    )

authenticate-manifest :
    (cfg : Config) (o : Outside) (a : Admission) (req : Request) (composed : Composed)
    (grants : List String)
    → cfg.manifest req.plugin ≡ none
    → stage_of (authenticate cfg o a req composed grants).verdict ≢ 0
unfolding authenticate
authenticate-manifest cfg o a req composed grants e =
    let (tokens, code) = spend a.tokens req.unit req.token (cfg.window req.unit) o.now in
    ground (
      arith,
      compare-manifest cfg o a req composed grants false,
      compare-manifest cfg o (record a { tokens = tokens }) req composed grants true,
    )

-- A registration that is accepted names a plugin that the Registry holds, enabled, and a unit that is
-- composed and was not live; where unlaunched processes are not waived through, that unit runs that
-- plugin and the token presented was good; the protocol is spoken and the five lists declared are the
-- Manifest's; and the Session that is then found, and live for the unit, has what the Manifest
-- declares and the Registry's grants authorise.
pub decide-Prepared :
    (cfg : Config) (o : Outside) (a : Admission) (req : Request) (se : Session) (w : Surface)
    → (decide cfg o a req).verdict ≡ accepted se w
    → (p : Plugin) × (composed : Composed) × (m : Manifest) × (plugin a.registry req.plugin
        ≡ some p)
      × (p.is_enabled ≡ true)
      × (cfg.unit req.unit ≡ some composed)
      × (cfg.manifest req.plugin ≡ some m)
      × Authenticated cfg o a req composed
      × Compared cfg req m
      × Prepared cfg o a req composed m p.capabilities (decide cfg o a req) se w
unfolding decide
decide-Prepared cfg o a req se w h = elim (Option-cases (plugin a.registry req.plugin)) [
  | inl e ↦ ground arith
  | inr (p, e) ↦ elim (Option-cases (cfg.unit req.unit)) [
    | inl e' ↦ ground arith
    | inr (composed, e') ↦ elim (Option-cases (cfg.manifest req.plugin)) [
      | inl f ↦ ground (arith, authenticate-manifest cfg o a req composed p.capabilities)
      | inr (m, f) ↦
          let all = authenticate-Prepared cfg o a req composed p.capabilities m se w f in
          (
            p,
            composed,
            m,
            e,
            ground arith,
            e',
            f,
            ground (arith, all),
            ground (arith, all),
            ground (arith, all),
          )
    ]
  ]
]
