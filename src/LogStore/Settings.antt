-- ===== src/LogStore/Settings.antt =====
-- internal/core/logstore/logstore.go: a unit's retention override, written and read back. An age is
-- kept in whole seconds, and a number as the 64 bits of a signed one, so it is read back as it was.
use yoke.Prelude.{
  ℕ, ◌*◌, ◌/◌, ◌≡◌, ◌≢◌, String, Option, none, some, if◌then◌else◌, ltb, put, get, delete,
  get-put_ne, get-put_self, get-delete, get-delete_self, string_discrete, arith,
}
use yoke.LogStore.{Store, Retention, Row}

abbrev pub second : ℕ
second = 1000000000

-- The columns that an override is written to; an age of zero is null.
abbrev pub row_of : Retention → Row
row_of r = record {
  age = if ltb 0 r.age then some (r.age / second) else none;
  bytes = r.bytes;
  entries = r.entries;
}

abbrev pub seconds_of : Option ℕ → ℕ
seconds_of none = 0
seconds_of (some n) = n * second

abbrev pub retention_of : Row → Retention
retention_of row = record { age = seconds_of row.age; bytes = row.bytes; entries = row.entries }

unfoldable pub set_override : Store → String → Retention → Store
set_override s unit r = record s { policies = put string_discrete unit (row_of r) s.policies }

unfoldable pub clear_override : Store → String → Store
clear_override s unit = record s { policies = delete string_discrete unit s.policies }

unfoldable pub override : Store → String → Option Retention
override s unit = elim (get string_discrete unit s.policies) [
  | none ↦ none
  | some row ↦ some (retention_of row)
]

-- An override that is set is read back, with its age down to the whole second, until it is cleared, and
-- no other unit's is touched by either.
override-set_override :
    (s : Store) (unit other : String) (r : Retention)
    → unit ≢ other
    → (override (set_override s unit r) unit ≡ some (record r { age = r.age / second * second }))
      × (override (set_override s unit r) other ≡ override s other)
      × (override (clear_override (set_override s unit r) unit) unit ≡ none)
      × (override (clear_override s unit) other ≡ override s other)
unfolding override set_override clear_override
override-set_override s unit other r n = ground (
  arith,
  n,
  get-put_self string_discrete unit (row_of r) s.policies,
  get-put_ne string_discrete unit other (row_of r) s.policies,
  get-delete_self string_discrete unit (put string_discrete unit (row_of r) s.policies),
  get-delete string_discrete unit other s.policies,
)
