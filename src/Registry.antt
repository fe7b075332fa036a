-- ===== src/Registry.antt =====
-- internal/core/registry/registry.go: the store of authority. A table is a list of its rows, under
-- its primary key where it has one, and a statement is what its SQL says of the tables: an `ON CONFLICT
-- DO NOTHING` keeps the row that is there, a foreign key that names no row is an error, and a row of
-- `decision` takes the number after the largest. A transaction that fails leaves the tables as they were.
-- The file itself, its migration and failures of the database engine are not modelled.
pub mod Declaring
pub mod Deciding
pub mod Replay
mod Tests
use yoke.Prelude.{
  ℕ, ℤ, suc, String, Bool, true, false, not, ◌&&◌, ◌||◌, Option, none, some, is_some, List, [], ◌∷◌,
  if◌then◌else◌, leb, ◌=?◌, get, put, string_discrete, sort,
}
use Prim.Native.Nat.{max}

pub record PluginRow : Type 0 where
  pub protocol : ℤ
  pub manifest_digest : String
  pub version : String
  pub language : String
  pub sdk : String

pub record Credential : Type 0 where
  pub mode : String
  pub fingerprint : Option String

pub data Action : Type 0 where
  enabled disabled granted withdrawn : Action

pub record Decision : Type 0 where
  pub seq : ℕ
  pub plugin : String
  pub at : ℕ
  pub actor : String
  pub action : Action
  pub capability : Option String

pub record Registry : Type 0 where
  pub plugins : List (String × PluginRow)
  pub policies : List (String × Bool)
  pub grants : List (String × String)
  pub credentials : List (String × Credential)
  pub decisions : List Decision

abbrev pub empty : Registry
empty = record { plugins = []; policies = []; grants = []; credentials = []; decisions = [] }

pub data Fault : Type 0 where
  not_declared : String → Fault
  foreign_key : Fault

pub data Result {ℓ} (A : Type ℓ) : Type ℓ where
  ok : A → Result A
  err : Fault → Result A

-- A transaction: what its work did where it succeeds, and nothing where it fails.
abbrev pub within {ℓ} :
    {A : Type ℓ} → (Registry → Result (Registry × A)) → Registry → Registry × Result A
within work r = elim (work r) [ ok (s, a) ↦ (s, ok a) | err f ↦ (r, err f) ]

pub record Declared : Type 0 where
  pub id : String
  pub protocol : ℤ
  pub manifest_digest : String

-- The row that an upsert leaves: the one that is there with what was declared put in, or a new one.
abbrev pub upserted : Option PluginRow → Declared → PluginRow
upserted none d = record {
  protocol = d.protocol;
  manifest_digest = d.manifest_digest;
  version = "";
  language = "";
  sdk = "";
}
upserted (some p) d = record p { protocol = d.protocol; manifest_digest = d.manifest_digest }

-- `INSERT … ON CONFLICT DO NOTHING` into a table with a primary key.
abbrev pub absent_put : {V : Type 0} → String → V → List (String × V) → List (String × V)
absent_put k v m = if is_some (get string_discrete k m) then m else put string_discrete k v m

abbrev pub bootstrap : Credential
bootstrap = record { mode = "bootstrap"; fingerprint = none }

unfoldable pub declare : Registry → Declared → Registry
declare r d = record r {
  plugins = put string_discrete d.id (upserted (get string_discrete d.id r.plugins) d) r.plugins;
  policies = absent_put d.id true r.policies;
  credentials = absent_put d.id bootstrap r.credentials;
}

pub record Registration : Type 0 where
  pub version : String
  pub language : String
  pub sdk : String

unfoldable pub record_registration : Registry → String → Registration → Registry × Result (Unit {0})
record_registration r id reg = elim (get string_discrete id r.plugins) [
  | none ↦ (r, err (not_declared id))
  | some p ↦ (
    record r {
      plugins =
          put string_discrete id
            (record p { version = reg.version; language = reg.language; sdk = reg.sdk }) r.plugins;
    },
    ok tt,
  )
]

abbrev pub largest : List Decision → ℕ
largest [] = 0
largest (d ∷ ds) = max d.seq (largest ds)

abbrev pub null_if_empty : String → Option String
null_if_empty c = if c =? "" then none else some c

-- The row that `decided` inserts, where the plugin it names is there.
unfoldable pub decided : Registry → String → ℕ → String → Action → String → Result (Registry × Bool)
decided r id now actor action capability =
    if is_some (get string_discrete id r.plugins)
    then ok (
      record r {
        decisions =
            record {
              seq = suc (largest r.decisions);
              plugin = id;
              at = now;
              actor = actor;
              action = action;
              capability = null_if_empty capability;
            }
            ∷ r.decisions;
      },
      true,
    )
    else err foreign_key

abbrev pub action_of : Bool → Action
action_of true = enabled
action_of false = disabled

abbrev pub same_flag : Bool → Bool → Bool
same_flag true b = b
same_flag false b = not b

-- The work of `setEnabled` where the policy is there and differs.
unfoldable pub turn : Registry → String → ℕ → String → Bool → Result (Registry × Bool)
unfolding decided
turn r id now actor on =
    decided (record r { policies = put string_discrete id on r.policies }) id now actor
      (action_of on) ""

-- The work of `setEnabled`.
unfoldable pub setting : String → ℕ → String → Bool → Registry → Result (Registry × Bool)
setting id now actor on r = elim (get string_discrete id r.policies) [
  | none ↦ err (not_declared id)
  | some b ↦ if same_flag b on then ok (r, false) else turn r id now actor on
]

unfoldable pub set_enabled : Registry → String → ℕ → String → Bool → Registry × Result Bool
unfolding setting
set_enabled r id now actor on = within (setting id now actor on) r

-- Whether a row of the table `grant` is there.
unfoldable pub is_granted : String → String → List (String × String) → Bool
is_granted id c [] = false
is_granted id c ((i, d) ∷ m) = i =? id && d =? c || is_granted id c m

-- The work of `Grant`.
unfoldable pub granting : String → String → ℕ → String → Registry → Result (Registry × Bool)
granting id capability now actor r =
    if is_granted id capability r.grants
    then ok (r, false)
    else if not (is_some (get string_discrete id r.policies))
    then err foreign_key
    else decided (record r { grants = (id, capability) ∷ r.grants }) id now actor granted capability

unfoldable pub grant : Registry → String → String → ℕ → String → Registry × Result Bool
unfolding granting
grant r id capability now actor = within (granting id capability now actor) r

unfoldable pub ungrant : String → String → List (String × String) → List (String × String)
ungrant id c [] = []
ungrant id c ((i, d) ∷ m) =
    let rest = ungrant id c m in if i =? id && d =? c then rest else (i, d) ∷ rest

-- The work of `Withdraw`.
unfoldable pub withdrawing : String → String → ℕ → String → Registry → Result (Registry × Bool)
withdrawing id capability now actor r =
    if is_granted id capability r.grants
    then decided (record r { grants = ungrant id capability r.grants }) id now actor withdrawn
        capability
    else ok (r, false)

unfoldable pub withdraw : Registry → String → String → ℕ → String → Registry × Result Bool
unfolding withdrawing
withdraw r id capability now actor = within (withdrawing id capability now actor) r

-- Everything the Registry holds about one plugin.
pub record Plugin : Type 0 where
  pub id : String
  pub row : PluginRow
  pub is_enabled : Bool
  pub capabilities : List String
  pub credential : Credential

unfoldable pub capabilities_of : String → List (String × String) → List String
capabilities_of id [] = []
capabilities_of id ((i, c) ∷ m) =
    let rest = capabilities_of id m in if i =? id then c ∷ rest else rest

-- The join of the three tables on the plugin, and its grants in order.
unfoldable pub plugin : Registry → String → Option Plugin
unfolding capabilities_of
plugin r id = elim (get string_discrete id r.plugins) [
  | none ↦ none
  | some p ↦ elim (get string_discrete id r.policies) [
    | none ↦ none
    | some b ↦ elim (get string_discrete id r.credentials) [
      | none ↦ none
      | some c ↦ some (record {
        id = id;
        row = p;
        is_enabled = b;
        capabilities = sort (capabilities_of id r.grants);
        credential = c;
      })
    ]
  ]
]

abbrev pub keys : {V : Type 0} → List (String × V) → List String
keys [] = []
keys ((k, v) ∷ m) = k ∷ keys m

unfoldable pub plugins : Registry → List String
plugins r = sort (keys r.plugins)

unfoldable pub insert_decision : Decision → List Decision → List Decision
insert_decision d [] = d ∷ []
insert_decision d (e ∷ es) =
    let rest = insert_decision d es in if leb d.seq e.seq then d ∷ e ∷ es else e ∷ rest

abbrev pub about : String → List Decision → List Decision
about id [] = []
about id (d ∷ ds) =
    let rest = about id ds in if d.plugin =? id then insert_decision d rest else rest

-- The decisions about one plugin, in the order of their numbers.
unfoldable pub history : Registry → String → List Decision
unfolding insert_decision
history r id = about id r.decisions
