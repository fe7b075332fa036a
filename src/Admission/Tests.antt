-- ===== src/Admission/Tests.antt =====
-- A deployment with one camera unit, registrations of it, and the theorems about admission at those.
use yoke.Scope.{stream, check}
use yoke.Admission.Accepting.{decide-Prepared, Prepared, Compared, Authenticated}
use yoke.Admission.Granting.{intersect-check, authorised, listed}
use yoke.Admission.Stages.{decide-refusal, stage_of}
use yoke.Admission.Spending.{successes-le-one, successes}
use yoke.Admission.Bootstrap.{spend}
use yoke.Admission.Grant.{Surface}
use yoke.Admission.Lives.{
  started, issued, registered, released, reachable-IsConsistent, Reachable, IsConsistent, Fresh,
}
use yoke.Prelude.{
  arith, ◌≡◌, refl, String, true, false, Option, none, some, [], ◌∷◌, string_discrete, pos, ◌≢◌,
  ◌≤◌, contains, not, ◌&&◌, if◌then◌else◌, ◌=?◌, =?→≢,
}
use yoke.Contract.{scope_undeclared, scope_withheld, unspecified, authentication, auth_consumed}
use yoke.Registry.{Registry, declare, grant, Plugin, plugin}
use yoke.Admission.{
  accepted, Admission, Composed, Config, Outside, Request, Manifest, Session, fresh_admission,
  issue, intersect, manifest_surface, release, no_surface,
}
use yoke.Admission.Decide.{authenticate, decide, register, refused_at, accepted_with_restrictions}

abbrev manifest : Manifest
manifest = record {
  capabilities =
      record { name = "see"; governs = record { kind = "stream"; id = "video" } }
      ∷ record { name = "move"; governs = record { kind = "command"; id = "reset" } }
      ∷ [];
  streams = record { id = "video"; tolerates_loss = true; tolerates_reorder = false } ∷ [];
  commands = "reset" ∷ [];
  queries = [];
  occurrences = [];
}

abbrev composed : Composed
composed = record { plugin = "camera"; heartbeat_interval = 5; heartbeat_tolerance = 3 }

abbrev unit_named : String → Option Composed
unit_named s = elim (string_discrete s "cam-1") [ yes e ↦ some composed | no n ↦ none ]

abbrev config : Config
config = record {
  manifest = λ p. some manifest;
  unit = λ u. some composed;
  window = λ u. 30;
  protocols = 1 ∷ [];
  admit_unlaunched = false;
}

abbrev registry : Registry
registry =
    (grant
      (declare yoke.Registry.empty
        (record { id = "camera"; protocol = pos 1; manifest_digest = "sha256:00" }))
      "camera" "see" 1 "ana").0

abbrev before : Admission
before = fresh_admission registry

abbrev launched : Admission
launched = record before { tokens = issue before.tokens "cam-1" "t-1" 100 }

abbrev outside : Outside
outside = record { now = 110; readable = true; writable = true; random = some "s-1" }

abbrev request : Request
request = record {
  plugin = "camera";
  unit = "cam-1";
  token = "t-1";
  protocol = 1;
  declared = manifest_surface manifest;
  artifact_version = "1.0";
  language = "go";
  sdk_line = "1";
  shared = false;
}

abbrev session : Session
session = record {
  id = "s-1";
  unit = "cam-1";
  plugin = "camera";
  granted = (intersect manifest ("see" ∷ [])).granted;
  interval = 5;
  tolerance = 3;
  scope = (intersect manifest ("see" ∷ [])).scope;
  shared = false;
}

abbrev withheld : Surface
withheld = record no_surface { capabilities = "move" ∷ []; commands = "reset" ∷ [] }

accepted_once : (decide config outside launched request).verdict ≡ accepted session withheld
unfolding register yoke.Prelude.◌=?◌ string_discrete yoke.Registry.plugin yoke.Prelude.get grant
    yoke.Registry.is_granted declare yoke.Prelude.put yoke.Registry.decided
    yoke.Admission.Decide.authenticate yoke.Admission.spend issue
    yoke.Admission.Decide.compare_declared yoke.Admission.speaks yoke.Admission.consistent
    yoke.Prelude.sort yoke.Admission.why_not yoke.Admission.Decide.decide
    yoke.Admission.Decide.observed yoke.Admission.Decide.prepare yoke.Admission.Decide.respond
    yoke.Admission.granting intersect yoke.Admission.is_governed manifest_surface
    yoke.Admission.sorting yoke.Admission.equal_lists yoke.Admission.same_set yoke.Prelude.contains
    yoke.Prelude.insert_sorted yoke.Prelude.leb_codes yoke.Prelude.leb_string
    yoke.Registry.capabilities_of yoke.Registry.granting yoke.Registry.record_registration
    yoke.Scope.Kind-discrete yoke.Scope.add yoke.Scope.declare yoke.Scope.grant yoke.Scope.ids
accepted_once = refl

restricted_once :
    (register config outside launched request).1 ≡ accepted_with_restrictions session withheld
unfolding register yoke.Prelude.◌=?◌ string_discrete yoke.Registry.plugin yoke.Prelude.get grant
    yoke.Registry.is_granted declare yoke.Prelude.put yoke.Registry.decided
    yoke.Admission.Decide.authenticate yoke.Admission.spend issue
    yoke.Admission.Decide.compare_declared yoke.Admission.speaks yoke.Admission.consistent
    yoke.Prelude.sort yoke.Admission.why_not yoke.Admission.Decide.decide
    yoke.Admission.Decide.observed yoke.Admission.Decide.prepare yoke.Admission.Decide.respond
    yoke.Admission.granting intersect yoke.Admission.is_governed manifest_surface
    yoke.Admission.sorting yoke.Admission.equal_lists yoke.Admission.same_set yoke.Prelude.contains
    yoke.Prelude.insert_sorted yoke.Prelude.leb_codes yoke.Prelude.leb_string
    yoke.Registry.capabilities_of yoke.Registry.granting yoke.Registry.record_registration
    yoke.Scope.Kind-discrete yoke.Scope.add yoke.Scope.declare yoke.Scope.grant yoke.Scope.ids
restricted_once = refl

refused_again :
    (register config outside
      (release (register config outside launched request).0 "cam-1")
      request).1
    ≡ refused_at authentication auth_consumed
unfolding register yoke.Prelude.◌=?◌ string_discrete yoke.Registry.plugin yoke.Prelude.get grant
    yoke.Registry.is_granted declare yoke.Prelude.put yoke.Registry.decided
    yoke.Admission.Decide.authenticate yoke.Admission.spend issue
    yoke.Admission.Decide.compare_declared yoke.Admission.speaks yoke.Admission.consistent
    yoke.Prelude.sort yoke.Admission.why_not yoke.Admission.Decide.decide
    yoke.Admission.Decide.observed yoke.Admission.Decide.prepare yoke.Admission.Decide.respond
    yoke.Admission.granting intersect yoke.Admission.is_governed manifest_surface
    yoke.Admission.sorting yoke.Admission.equal_lists yoke.Admission.same_set yoke.Prelude.contains
    yoke.Prelude.insert_sorted yoke.Prelude.leb_codes yoke.Prelude.leb_string
    yoke.Registry.capabilities_of yoke.Registry.granting yoke.Registry.record_registration
    yoke.Scope.Kind-discrete yoke.Scope.add yoke.Scope.declare yoke.Scope.grant yoke.Scope.ids
    release yoke.Prelude.delete
refused_again = refl

wrong_token : stage_of (decide config outside before request).verdict ≡ 4
unfolding register yoke.Prelude.◌=?◌ string_discrete yoke.Registry.plugin yoke.Prelude.get grant
    yoke.Registry.is_granted declare yoke.Prelude.put yoke.Registry.decided
    yoke.Admission.Decide.authenticate yoke.Admission.spend issue
    yoke.Admission.Decide.compare_declared yoke.Admission.speaks yoke.Admission.consistent
    yoke.Prelude.sort yoke.Admission.why_not yoke.Admission.Decide.decide
    yoke.Admission.Decide.observed yoke.Admission.Decide.prepare yoke.Admission.Decide.respond
    yoke.Admission.granting intersect yoke.Admission.is_governed manifest_surface
    yoke.Admission.sorting yoke.Admission.equal_lists yoke.Admission.same_set yoke.Prelude.contains
    yoke.Prelude.insert_sorted yoke.Prelude.leb_codes yoke.Prelude.leb_string
    yoke.Registry.capabilities_of yoke.Registry.granting yoke.Registry.record_registration
    yoke.Scope.Kind-discrete yoke.Scope.add yoke.Scope.declare yoke.Scope.grant yoke.Scope.ids
wrong_token = refl

successes-le-one_example :
    successes launched.tokens "cam-1" (
      record { unit = "cam-1"; value = "t-1"; window = 30; now = 110 }
      ∷ record { unit = "cam-1"; value = "t-1"; window = 30; now = 111 }
      ∷ [])
    ≤ 1
successes-le-one_example = successes-le-one launched.tokens "cam-1" (
    record { unit = "cam-1"; value = "t-1"; window = 30; now = 110 }
    ∷ record { unit = "cam-1"; value = "t-1"; window = 30; now = 111 }
    ∷ [])

intersect-check_example :
    let done = intersect manifest ("see" ∷ []) in
    (contains (listed stream done.granted) "video" ≡ (
      contains (listed stream (manifest_surface manifest)) "video"
      && authorised manifest.capabilities ("see" ∷ []) "stream" "video"))
    × (contains (listed stream done.withheld) "video" ≡ (
        contains (listed stream (manifest_surface manifest)) "video"
        && not (authorised manifest.capabilities ("see" ∷ []) "stream" "video")))
    × (check (some done.scope) stream "video" ≡ (
        if contains (listed stream done.granted) "video"
        then unspecified
        else if contains (listed stream done.withheld) "video"
        then scope_withheld
        else scope_undeclared))
intersect-check_example = intersect-check manifest ("see" ∷ []) stream "video"

wrong_token_refused : stage_of (decide config outside before request).verdict ≢ 0
wrong_token_refused e = omega (arith, e, wrong_token)

decide-refusal_example :
    let d = decide config outside before request in
    (d.after.registry ≡ before.registry)
    × (d.after.live ≡ before.live)
    × (d.after.sessions ≡ before.sessions)
    × (stage_of d.verdict ≤ 3 → (d.after ≡ before) × (d.examined ≡ false))
    × (4 ≤ stage_of d.verdict → d.examined ≡ not config.admit_unlaunched)
decide-refusal_example = decide-refusal config outside before request wrong_token_refused

decide-Prepared_example :
    (p : Plugin) × (c : Composed) × (m : Manifest) × (plugin launched.registry "camera" ≡ some p)
    × (p.is_enabled ≡ true)
    × (config.unit "cam-1" ≡ some c)
    × (config.manifest "camera" ≡ some m)
    × Authenticated config outside launched request c
    × Compared config request m
    × Prepared config outside launched request c m p.capabilities
        (decide config outside launched request)
        session
        withheld
decide-Prepared_example =
    decide-Prepared config outside launched request session withheld accepted_once

identity-Fresh : Fresh launched outside.random
unfolding yoke.Prelude.get ◌=?◌ string_discrete
identity-Fresh = (=?→≢ "s-1" "" refl, refl)

abbrev life : Reachable (release (register config outside launched request).0 "cam-1")
life =
    released "cam-1" (
      registered config outside request identity-Fresh
        (issued "cam-1" "t-1" 100 (started registry)))

reachable-IsConsistent_example :
    IsConsistent (release (register config outside launched request).0 "cam-1")
reachable-IsConsistent_example = reachable-IsConsistent life
