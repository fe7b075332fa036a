-- ===== src/Admission/Grant.antt =====
-- internal/core/admission/admission.go: what is granted of a Manifest, and what is withheld.
use yoke.Prelude.{
  String, Bool, false, ◌&&◌, ◌||◌, List, [], ◌∷◌, map, if◌then◌else◌, ◌=?◌, contains,
}
use yoke.Scope.{Kind, stream, command, query, occurrence, Scope, empty, declare, grant}

-- What a capability governs: a kind and an identity.
pub record Object : Type 0 where
  pub kind : String
  pub id : String

pub record Capability : Type 0 where
  pub name : String
  pub governs : Object

pub record Stream : Type 0 where
  pub id : String
  pub tolerates_loss : Bool
  pub tolerates_reorder : Bool

-- What admission reads of a Manifest.
pub record Manifest : Type 0 where
  pub capabilities : List Capability
  pub streams : List Stream
  pub commands : List String
  pub queries : List String
  pub occurrences : List String

pub record Surface : Type 0 where
  pub capabilities : List String
  pub streams : List String
  pub commands : List String
  pub queries : List String
  pub occurrences : List String

abbrev pub no_surface : Surface
no_surface = record {
  capabilities = [];
  streams = [];
  commands = [];
  queries = [];
  occurrences = [];
}

abbrev pub lists : Surface → List (List String)
lists s = s.capabilities ∷ s.streams ∷ s.commands ∷ s.queries ∷ s.occurrences ∷ []

abbrev pub names : List Capability → List String
names = map (λ c. c.name)

abbrev pub stream_ids : List Stream → List String
stream_ids = map (λ s. s.id)

unfoldable pub manifest_surface : Manifest → Surface
manifest_surface m = record {
  capabilities = names m.capabilities;
  streams = stream_ids m.streams;
  commands = m.commands;
  queries = m.queries;
  occurrences = m.occurrences;
}

-- Whether an object is in the map `governed`.
unfoldable pub is_governed : String → String → List Object → Bool
is_governed k id [] = false
is_governed k id (o ∷ os) = o.kind =? k && o.id =? id || is_governed k id os

-- The loop over the capabilities: the granted names, the withheld ones and what the granted govern.
unfoldable pub granting : List Capability → List String → List String × List String × List Object
granting [] grants = ([], [], [])
granting (c ∷ cs) grants =
    let (yes_names, no_names, governed) = granting cs grants in
    if contains grants c.name
    then (c.name ∷ yes_names, no_names, c.governs ∷ governed)
    else (yes_names, c.name ∷ no_names, governed)

abbrev pub kind_name : Kind → String
kind_name stream = "stream"
kind_name command = "command"
kind_name query = "query"
kind_name occurrence = "occurrence"

-- The closure `sort`: the objects of a kind, declared, and granted where a granted capability governs
-- them, in the order of the Manifest.
unfoldable pub sorting :
    Kind → List Object → List String → Scope → List String × List String × Scope
sorting k governed [] sc = ([], [], sc)
sorting k governed (id ∷ ids) sc =
    let g = is_governed (kind_name k) id governed in
    let now = (if g then grant (declare sc k id) k id else declare sc k id) in
    let (into, out, done) = sorting k governed ids now in
    if g then (id ∷ into, out, done) else (into, id ∷ out, done)

pub record Intersection : Type 0 where
  pub granted : Surface
  pub withheld : Surface
  pub scope : Scope

unfoldable pub intersect : Manifest → List String → Intersection
unfolding granting sorting
intersect m grants =
    let (yes_names, no_names, governed) = granting m.capabilities grants in
    let (s1, s2, sc1) = sorting stream governed (stream_ids m.streams) empty in
    let (c1, c2, sc2) = sorting command governed m.commands sc1 in
    let (q1, q2, sc3) = sorting query governed m.queries sc2 in
    let (o1, o2, sc4) = sorting occurrence governed m.occurrences sc3 in
    record {
      granted = record {
        capabilities = yes_names;
        streams = s1;
        commands = c1;
        queries = q1;
        occurrences = o1;
      };
      withheld = record {
        capabilities = no_names;
        streams = s2;
        commands = c2;
        queries = q2;
        occurrences = o2;
      };
      scope = sc4;
    }
