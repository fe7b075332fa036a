-- ===== src/Admission/Decide.antt =====
-- internal/core/admission/admission.go, `decide` and `Register`: the nine ordered stages.
use yoke.Prelude.{
  String, Bool, true, false, not, ◌&&◌, ◌||◌, Option, none, some, is_some, List, [], ◌∷◌,
  if◌then◌else◌, leb, ◌=?◌, get, put, string_discrete,
}
use yoke.Contract.{
  Code, structural_malformed, identity_unknown_plugin, identity_unknown_unit, state_disabled,
  auth_invalid, compat_unsupported, consistency_divergent, conflict_unit_live, session_unavailable,
  Stage, structural, identity, administrative_state, authentication, compatibility,
  declaration_consistency, unit_conflict, session_preparation, stage_number,
}
use yoke.Lifecycle.{Input, admission_accepted, admission_declined}
use yoke.Registry.{Registration, record_registration, plugin, Result, ok, err}
use yoke.Admission.{
  Admission, Config, Composed, Outside, Request, Session, Verdict, refused, accepted, Surface,
  Manifest, lists, manifest_surface, intersect, spend, is_good, consistent, speaks,
}

-- Where a registration got: the admission after it, what was concluded, and whether the credential was
-- reached.
pub record Outcome : Type 0 where
  pub after : Admission
  pub verdict : Verdict
  pub examined : Bool

abbrev pub refuse : Admission → Stage → Code → Bool → Outcome
refuse a s c examined = record { after = a; verdict = refused s c; examined = examined }

-- What is registered of a process.
abbrev pub registration : Request → Registration
registration req = record {
  version = req.artifact_version;
  language = req.language;
  sdk = req.sdk_line;
}

abbrev pub session_for : Config → Request → String → Composed → Manifest → List String → Session
session_for cfg req id composed m grants = record {
  id = id;
  unit = req.unit;
  plugin = req.plugin;
  granted = (intersect m grants).granted;
  interval = composed.heartbeat_interval;
  tolerance = composed.heartbeat_tolerance;
  scope = (intersect m grants).scope;
  shared = req.shared;
}

-- The Session that stage 9 commits to, once the registration was recorded.
abbrev pub commit :
    Config → Admission → Request → String → Composed → Manifest → List String → Bool → Outcome
commit cfg a req id composed m grants examined = record {
  after = record a {
    registry = (record_registration a.registry req.plugin (registration req)).0;
    live = put string_discrete req.unit id a.live;
    sessions = put string_discrete id (session_for cfg req id composed m grants) a.sessions;
  };
  verdict = accepted (session_for cfg req id composed m grants) (intersect m grants).withheld;
  examined = examined;
}

abbrev pub is_ok {ℓ} : {A : Type ℓ} → Result A → Bool
is_ok (ok a) = true
is_ok (err f) = false

-- Stages 7, 8 and 9: authorisation, unit conflict and session preparation.
unfoldable pub prepare :
    Config → Outside → Admission → Request → Composed → Manifest → List String → Bool → Outcome
prepare cfg o a req composed m grants examined =
    if is_some (get string_discrete req.unit a.live)
    then refuse a unit_conflict conflict_unit_live examined
    else elim o.random [
      | none ↦ refuse a session_preparation session_unavailable examined
      | some id ↦
          if not
            (o.writable && is_ok (record_registration a.registry req.plugin (registration req)).1)
          then refuse a session_preparation session_unavailable examined
          else commit cfg a req id composed m grants examined
    ]

-- Stages 5 and 6: compatibility and declaration consistency.
unfoldable pub compare_declared :
    Config → Outside → Admission → Request → Composed → List String → Bool → Outcome
compare_declared cfg o a req composed grants examined =
    if not (speaks cfg.protocols req.protocol)
    then refuse a compatibility compat_unsupported examined
    else elim (cfg.manifest req.plugin) [
      | none ↦ refuse a declaration_consistency consistency_divergent examined
      | some m ↦
          if not (consistent (lists req.declared) (lists (manifest_surface m)))
          then refuse a declaration_consistency consistency_divergent examined
          else prepare cfg o a req composed m grants examined
    ]

-- Stage 4: the token issued for this pair, spent where it is good.
unfoldable pub authenticate :
    Config → Outside → Admission → Request → Composed → List String → Outcome
authenticate cfg o a req composed grants =
    if cfg.admit_unlaunched
    then compare_declared cfg o a req composed grants false
    else if not (composed.plugin =? req.plugin)
    then refuse a authentication auth_invalid true
    else (let (tokens, code) = spend a.tokens req.unit req.token (cfg.window req.unit) o.now in
        if not (is_good code)
        then refuse (record a { tokens = tokens }) authentication code true
        else compare_declared cfg o (record a { tokens = tokens }) req composed grants true)

-- The nine stages, stopping at the first that refuses.
unfoldable pub decide : Config → Outside → Admission → Request → Outcome
decide cfg o a req =
    if req.plugin =? "" || req.unit =? ""
    then refuse a structural structural_malformed false
    else if not o.readable
    then refuse a identity identity_unknown_plugin false
    else elim (plugin a.registry req.plugin) [
      | none ↦ refuse a identity identity_unknown_plugin false
      | some p ↦ elim (cfg.unit req.unit) [
        | none ↦ refuse a identity identity_unknown_unit false
        | some composed ↦
            if not p.is_enabled
            then refuse a administrative_state state_disabled false
            else authenticate cfg o a req composed p.capabilities
      ]
    ]

-- Whether `lists` of what is withheld have an item.
abbrev pub any_item : List (List String) → Bool
any_item [] = false
any_item ([] ∷ ls) = any_item ls
any_item ((x ∷ xs) ∷ ls) = true

pub data Response : Type 0 where
  refused_at : Stage → Code → Response
  accepted_whole : Session → Response
  accepted_with_restrictions : Session → Surface → Response

-- What `Register` answers.
unfoldable pub respond : Verdict → Response
respond (refused s c) = refused_at s c
respond (accepted se w) =
    if any_item (lists w) then accepted_with_restrictions se w else accepted_whole se

-- What `Register` tells the unit's lifecycle machine.
unfoldable pub observed : Verdict → Bool → Option Input
observed (refused s c) examined =
    if leb 5 (stage_number s) && examined then some admission_declined else none
observed (accepted se w) examined = some admission_accepted

unfoldable pub register :
    Config → Outside → Admission → Request → Admission × Response × Option Input
unfolding decide respond observed
register cfg o a req =
    let d = decide cfg o a req in (d.after, respond d.verdict, observed d.verdict d.examined)
