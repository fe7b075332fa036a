-- ===== src/Gate.antt =====
-- internal/gate: the validator of a deployment's documents. A document is given as what its shape phase
-- built; how a text is read into it is outside. A finding's document is the one that the pass is given,
-- and its message is left out.
pub mod Phases
pub mod Stopping
pub mod Written
pub mod Values
pub mod Resolving
pub mod Expected
pub mod Settling
pub mod Joins
pub mod Closing
pub mod Joined
pub mod Policies
pub mod Budget
mod Tests
use yoke.Prelude.{
  ℤ, ℕ, String, Bool, true, false, ◌||◌, Option, List, [], ◌∷◌, ◌++◌, ◌=?◌, if◌then◌else◌,
}
use Prim.Native.String.{◌++◌ as str_append}

pub data Class : Type 0 where
  refusal weaker : Class

pub record Finding : Type 0 where
  pub code : String
  pub class : Class
  pub location : String

pub record Report : Type 0 where
  pub findings : List Finding
  pub not_run : List String

abbrev pub is_refusal : Class → Bool
is_refusal refusal = true
is_refusal weaker = false

abbrev pub any_refuses : List Finding → Bool
any_refuses [] = false
any_refuses (f ∷ fs) = is_refusal f.class || any_refuses fs

unfoldable pub refused : Report → Bool
refused r = any_refuses r.findings

abbrev pub refusing : String → String → Finding
refusing code location = record { code = code; class = refusal; location = location }

abbrev pub noting : String → String → Finding
noting code location = record { code = code; class = weaker; location = location }

-- A location with one more step.
unfoldable pub joined : String → String → String
joined location step = if location =? "" then step else str_append location (str_append "." step)

-- A deployment's figures: a duration, a size or a count is a signed number of 64 bits, given by its bit
-- pattern.
pub record Policy : Type 0 where
  pub heartbeat_interval : ℕ
  pub heartbeat_tolerance : ℕ
  pub startup_window : ℕ
  pub stop_window : ℕ
  pub backoff : ℕ
  pub ceiling : ℕ
  pub stability_window : ℕ
  pub retention_age : ℕ
  pub retention_bytes : ℕ
  pub retention_entries : ℕ

pub record Need : Type 0 where
  pub class : String
  pub name : String

-- What a document binds and substitutes by: the need's name where it has one, its class where not.
abbrev pub key_of : Need → String
key_of n = if n.name =? "" then n.class else n.name

-- A declared unit, as far as the joins and the retention read it.
pub record Body : Type 0 where
  pub kind : String
  pub args : List String
  pub env : List (String × String)
  pub needs : List Need
  pub bind : List (String × String)
  pub depends_on : List String
  pub policy : Policy

pub record Address : Type 0 where
  pub class : String
  pub port : String
  pub transport : String
  pub caller : String

pub record Channel : Type 0 where
  pub unit : String
  pub transport : String
  pub address : Option Address

pub record Rule : Type 0 where
  pub prevails : String
  pub over : List String

pub record Parameter : Type 0 where
  pub typ : String
  pub range : Option (ℤ × ℤ)
  pub pattern : String
  pub values : List String
  pub required : Bool
  pub default : Option String

pub record Deployment : Type 0 where
  pub is_descriptor : Bool
  pub parameters : List (String × List (String × Parameter))
  pub units : List (String × Body)
  pub order : List String
  pub channels : List (String × Channel)
  pub arbitration : List Rule
  pub policy : Policy
