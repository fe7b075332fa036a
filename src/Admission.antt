-- ===== src/Admission.antt =====
-- internal/core/admission/admission.go: the gate between a running process and a participant.
-- What the outside answers while a registration is decided is a record of values: the clock, the
-- random Session identity, and whether the Registry could be read and written. `decide` holds the
-- admission's lock from stage 8 on; a registration is one step, since before that it reads only what
-- it is given and spends a token under the tokens' own lock.
mod Bootstrap
mod Grant
pub mod Spending
pub mod Granting
pub mod Stages
pub mod Accepting
pub mod Lives
mod Tests
pub mod Decide
pub use Bootstrap.{Token}
unfoldable pub use Bootstrap.{Tokens, issue, why_not, is_good, used, spend}
pub use Grant.{Object, Capability, Stream, Manifest, Surface, Intersection}
unfoldable pub use Grant.{
  no_surface, lists, names, stream_ids, manifest_surface, is_governed, granting, kind_name, sorting,
  intersect,
}
use yoke.Prelude.{
  ℕ, ℤ, pos, suc, ◌-◌, String, Bool, true, false, not, ◌&&◌, ◌||◌, Option, none, some, is_some,
  List, [], ◌∷◌, ◌++◌, if◌then◌else◌, ltb, leb, ◌=?◌, get, put, delete, contains, sort,
  string_discrete,
}
use yoke.Contract.{
  Code, unspecified, structural_malformed, identity_unknown_plugin, identity_unknown_unit,
  state_disabled, auth_invalid, compat_unsupported, consistency_divergent, conflict_unit_live,
  session_unavailable, Stage, structural, identity, administrative_state, authentication,
  compatibility, declaration_consistency, unit_conflict, session_preparation, stage_number,
}
use yoke.Lifecycle.{Input, admission_accepted, admission_declined}
use yoke.Registry.{Registry, Registration, record_registration, plugin, Result, ok, err}
use yoke.Scope.{Scope}

-- What the deployment says of a unit: its plugin, and the figures of its heartbeat.
pub record Composed : Type 0 where
  pub plugin : String
  pub heartbeat_interval : ℕ
  pub heartbeat_tolerance : ℕ

pub record Config : Type 0 where
  pub manifest : String → Option Manifest
  pub unit : String → Option Composed
  pub window : String → ℕ
  pub protocols : List ℕ
  pub admit_unlaunched : Bool

-- What the outside answers.
pub record Outside : Type 0 where
  pub now : ℕ
  pub readable : Bool
  pub writable : Bool
  pub random : Option String

pub record Session : Type 0 where
  pub id : String
  pub unit : String
  pub plugin : String
  pub granted : Surface
  pub interval : ℕ
  pub tolerance : ℕ
  pub scope : Scope
  pub shared : Bool

pub record Admission : Type 0 where
  pub registry : Registry
  pub tokens : Tokens
  pub live : List (String × String)
  pub sessions : List (String × Session)

abbrev pub fresh_admission : Registry → Admission
fresh_admission r = record { registry = r; tokens = []; live = []; sessions = [] }

pub record Request : Type 0 where
  pub plugin : String
  pub unit : String
  pub token : String
  pub protocol : ℕ
  pub declared : Surface
  pub artifact_version : String
  pub language : String
  pub sdk_line : String
  pub shared : Bool

abbrev pub live_session : Option String → String
live_session none = ""
live_session (some id) = id

unfoldable pub release : Admission → String → Admission
release a unit = record a {
  sessions = delete string_discrete (live_session (get string_discrete unit a.live)) a.sessions;
  live = delete string_discrete unit a.live;
}

unfoldable pub find_session : Admission → String → Option Session
find_session a id = get string_discrete id a.sessions

-- What the stages conclude: a refusal at a stage, or a Session with what it withholds.
pub data Verdict : Type 0 where
  refused : Stage → Code → Verdict
  accepted : Session → Surface → Verdict

unfoldable pub equal_lists : List String → List String → Bool
equal_lists [] [] = true
equal_lists [] (y ∷ ys) = false
equal_lists (x ∷ xs) [] = false
equal_lists (x ∷ xs) (y ∷ ys) = x =? y && equal_lists xs ys

unfoldable pub same_set : List String → List String → Bool
unfolding equal_lists
same_set xs ys = equal_lists (sort xs) (sort ys)

-- Stage 6's loop over the five lists.
unfoldable pub consistent : List (List String) → List (List String) → Bool
unfolding same_set
consistent [] wants = true
consistent (got ∷ gots) [] = true
consistent (got ∷ gots) (want ∷ wants) = same_set got want && consistent gots wants

unfoldable pub speaks : List ℕ → ℕ → Bool
speaks [] p = false
speaks (q ∷ qs) p = leb p q && leb q p || speaks qs p
