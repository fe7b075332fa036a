-- ===== src/Scope/Checks.antt =====
-- internal/core/scope/scope.go: what a check answers after any sequence of declarations and grants.
use mathlib.Core.Logic.{ite}
use yoke.Prelude.{
  get, ◌≡◌, refl, ◌↔◌, String, Bool, true, false, Option, none, some, List, [], ◌∷◌, ◌||◌,
  if◌then◌else◌, contains, get-put, IsSorted, sort-IsSorted, contains-sort, arith, ◌=?◌,
}
use yoke.Contract.{unspecified, scope_withheld, scope_undeclared}
use yoke.Scope.{
  Kind, Kind-discrete, Objects, Scope, empty, ids, add, declare, grant, granted_ids, check,
}

-- Whether two objects are one.
abbrev pub same : Kind → String → Kind → String → Bool
same k id j x = ite (Kind-discrete k j) (id =? x) false

pub contains-add :
    (m : Objects) (k j : Kind) (id x : String)
    → contains (ids j (add m k id)) x ≡ (same k id j x || contains (ids j m) x)
unfolding add ids contains ◌=?◌
contains-add m k j id x =
    ground
      (arith, get-put Kind-discrete k j (if contains (ids k m) id then ids k m else id ∷ ids k m) m)

-- A change to a scope: a declaration, or a grant.
pub data Change : Type 0 where
  declares grants : Kind → String → Change

unfoldable pub change : Scope → Change → Scope
change s (declares k id) = declare s k id
change s (grants k id) = grant s k id

unfoldable pub changes : Scope → List Change → Scope
changes s [] = s
changes s (c ∷ cs) = changes (change s c) cs

-- Whether a sequence of changes declares an object, and whether it grants it.
abbrev pub declares_it : Kind → String → List Change → Bool
declares_it j x [] = false
declares_it j x (declares k id ∷ cs) = same k id j x || declares_it j x cs
declares_it j x (grants k id ∷ cs) = declares_it j x cs

abbrev pub grants_it : Kind → String → List Change → Bool
grants_it j x [] = false
grants_it j x (declares k id ∷ cs) = grants_it j x cs
grants_it j x (grants k id ∷ cs) = same k id j x || grants_it j x cs

changes_members :
    (s : Scope) (cs : List Change) (j : Kind) (x : String)
    → (contains (ids j (changes s cs).declared) x
        ≡ (declares_it j x cs || contains (ids j s.declared) x))
      × (contains (ids j (changes s cs).granted) x
          ≡ (grants_it j x cs || contains (ids j s.granted) x))
unfolding changes change declare grant
changes_members s [] j x = (refl, refl)
changes_members s (declares k id ∷ cs) j x =
    ground
      (arith, changes_members (change s (declares k id)) cs j x, contains-add s.declared k j id x)
changes_members s (grants k id ∷ cs) j x =
    ground (arith, changes_members (change s (grants k id)) cs j x, contains-add s.granted k j id x)

pub contains-ids_empty : (k : Kind) (id : String) → contains (ids k []) id ≡ false
unfolding ids contains get
contains-ids_empty k id = refl

-- What `Check` answers after any sequence of declarations and grants from an empty scope is decided
-- by that sequence alone, not its order: nothing is refused that was granted, an object declared and
-- never granted is withheld, and one that neither named is undeclared.
check-changes :
    (cs : List Change) (k : Kind) (id : String)
    → check (some (changes empty cs)) k id ≡ (
        if grants_it k id cs
        then unspecified
        else if declares_it k id cs
        then scope_withheld
        else scope_undeclared)
unfolding check
check-changes cs k id = ground (arith, changes_members empty cs k id, contains-ids_empty k id)

-- The listing of what is granted is in order, and holds exactly the objects that `Check` lets pass.
granted_ids-check :
    (s : Option Scope) (k : Kind)
    → IsSorted (granted_ids s k)
      × ((id : String) → (contains (granted_ids s k) id ≡ true) ↔ (check s k id ≡ unspecified))
unfolding granted_ids check contains
granted_ids-check none k = (tt, λ id. ground arith)
granted_ids-check (some s) k =
    (sort-IsSorted (ids k s.granted), λ id. ground (arith, contains-sort id (ids k s.granted)))
