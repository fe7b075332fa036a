-- ===== src/Scope.antt =====
-- internal/core/scope/scope.go: what a unit may do once admitted, by kind of governed object.
-- A `map[Kind]map[string]bool` whose values are only ever `true` is a map from a kind to the
-- identities recorded under it; a nil `*Scope` is `none`.
pub mod Checks
mod Tests
use yoke.Prelude.{
  String, Bool, true, false, Option, none, some, List, [], ◌∷◌, if◌then◌else◌, contains, get, put,
  sort,
}
use yoke.Contract.{Code, unspecified, scope_withheld, scope_undeclared}

pub data Kind : Type 0 where
  stream command query occurrence : Kind

unfoldable pub Kind-discrete : Discrete Kind
Kind-discrete = hlevel

abbrev pub Objects : Type 0
Objects = List (Kind × List String)

pub record Scope : Type 0 where
  pub declared : Objects
  pub granted : Objects

abbrev pub empty : Scope
empty = record { declared = []; granted = [] }

-- The identities recorded under a kind; an absent inner map reads as empty.
unfoldable pub ids : Kind → Objects → List String
ids k m = elim (get Kind-discrete k m) [ none ↦ [] | some l ↦ l ]

unfoldable pub add : Objects → Kind → String → Objects
add m k id = let l = ids k m in put Kind-discrete k (if contains l id then l else id ∷ l) m

unfoldable pub declare : Scope → Kind → String → Scope
declare s k id = record s { declared = add s.declared k id }

unfoldable pub grant : Scope → Kind → String → Scope
grant s k id = record s { granted = add s.granted k id }

unfoldable pub granted_ids : Option Scope → Kind → List String
granted_ids none k = []
granted_ids (some s) k = sort (ids k s.granted)

unfoldable pub check : Option Scope → Kind → String → Code
check none k id = scope_undeclared
check (some s) k id =
    if contains (ids k s.granted) id
    then unspecified
    else if contains (ids k s.declared) id
    then scope_withheld
    else scope_undeclared
