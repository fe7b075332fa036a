-- ===== src/Gate/Policies.antt =====
-- internal/gate/body.go: the figures of a deployment, and what its log store may occupy; and
-- internal/core/trunk/trunk.go, `RetentionOf` and `Clamp`: the limits that a group is cleaned by.
use yoke.Prelude.{
  ℕ, ◌+◌, ◌*◌, ◌%◌, ◌^◌, String, Bool, ◌||◌, ◌&&◌, Option, none, some, List, [], ◌∷◌, if◌then◌else◌,
  ◌==◌, ltb, ◌=?◌, get, string_discrete,
}
use yoke.Gate.{Policy, Body, Deployment}
use yoke.LogStore.{Store, Retention}
use yoke.LogStore.Settings.{override}
use yoke.LogStore.Cleaning.{Limits, default_limits, core_group}

abbrev pub second : ℕ
second = 1000000000

abbrev pub defaults : Policy
defaults = record {
  heartbeat_interval = 10 * second;
  heartbeat_tolerance = 3;
  startup_window = 30 * second;
  stop_window = 10 * second;
  backoff = 5 * second;
  ceiling = 300 * second;
  stability_window = 60 * second;
  retention_age = 604800 * second;
  retention_bytes = 50000000;
  retention_entries = 100000;
}

-- The fields that one scope wrote.
pub record Overrides : Type 0 where
  pub heartbeat_interval : Option ℕ
  pub tolerance : Option ℕ
  pub startup_window : Option ℕ
  pub stop_window : Option ℕ
  pub backoff : Option ℕ
  pub ceiling : Option ℕ
  pub stability : Option ℕ
  pub age : Option ℕ
  pub bytes : Option ℕ
  pub entries : Option ℕ

abbrev pub set : ℕ → Option ℕ → ℕ
set n none = n
set n (some v) = v

unfoldable pub over : Overrides → Policy → Policy
over o p = record {
  heartbeat_interval = set p.heartbeat_interval o.heartbeat_interval;
  heartbeat_tolerance = set p.heartbeat_tolerance o.tolerance;
  startup_window = set p.startup_window o.startup_window;
  stop_window = set p.stop_window o.stop_window;
  backoff = set p.backoff o.backoff;
  ceiling = set p.ceiling o.ceiling;
  stability_window = set p.stability_window o.stability;
  retention_age = set p.retention_age o.age;
  retention_bytes = set p.retention_bytes o.bytes;
  retention_entries = set p.retention_entries o.entries;
}

-- The two scopes of a unit, over the written defaults.
abbrev pub unit_policy : Overrides → Overrides → Policy
unit_policy inner outer = over inner (over outer defaults)

abbrev pub is_positive : ℕ → Bool
is_positive n = ltb 0 n && ltb n (2 ^ 63)

-- The sum of some limits, and nothing where one of them is not positive.
unfoldable pub summed : ℕ → List ℕ → Option ℕ
summed bytes [] = some bytes
summed bytes (l ∷ ls) =
    let rest = summed ((bytes + l) % 2 ^ 64) ls in if is_positive l then rest else none

abbrev pub bytes_limits : List (String × Body) → List ℕ
bytes_limits [] = []
bytes_limits ((name, u) ∷ us) = u.policy.retention_bytes ∷ bytes_limits us

unfoldable pub worst_case : Deployment → Option ℕ
unfolding summed
worst_case d = summed 0 (d.policy.retention_bytes ∷ bytes_limits d.units)

abbrev pub limits : Policy → Limits
limits p = record {
  age = p.retention_age;
  bytes = p.retention_bytes;
  entries = p.retention_entries;
}

abbrev pub or_zero : Option ℕ → ℕ
or_zero none = 0
or_zero (some n) = n

-- What a deployment says of a group.
abbrev pub declared_limits : Option Deployment → String → Limits
declared_limits none group = default_limits
declared_limits (some d) group = elim (get string_discrete group d.units) [
  | some u ↦ limits u.policy
  | none ↦ limits d.policy
]

abbrev pub overridden : Option Retention → Limits → Limits
overridden none l = l
overridden (some o) l = record { age = o.age; bytes = or_zero o.bytes; entries = or_zero o.entries }

-- An override of a unit comes first, and one that is not written is the deployment's.
unfoldable pub retention_of : Store → Option Deployment → String → Limits
retention_of s d group =
    if group =? core_group
    then declared_limits d group
    else overridden (override s group) (declared_limits d group)

-- A ceiling of zero constrains nothing; a limit of zero is above every ceiling.
abbrev pub lower : ℕ → ℕ → ℕ
lower ceiling l = if ltb 0 ceiling && (l == 0 || ltb ceiling l) then ceiling else l

unfoldable pub clamp : Limits → (String → Limits) → String → Limits
clamp c policy group =
    let l = policy group in
    record {
      age = lower c.age l.age;
      bytes = lower c.bytes l.bytes;
      entries = lower c.entries l.entries;
    }
