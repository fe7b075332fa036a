-- ===== src/Gate/Expected.antt =====
-- internal/gate/body.go, `Values`: the value that a parameter has to have.
use yoke.Prelude.{
  if◌then◌else◌, ◌⊎◌, some, ◌≡◌, inl, inr, String, Option, none, List, get, string_discrete, arith,
  refl, Option-cases,
}
use yoke.Gate.{Parameter, Deployment}
use yoke.Gate.Values.{
  value_of, resolve, resolved, Host, Resolution, entries_of, kept, of_group, missing, unaccepted,
  judged, accepts, resolve_default,
}

-- What was supplied, or else the default; and that where the declaration accepts it.
abbrev pub supplied_or : Option String → Option String → Option String
supplied_or none default = default
supplied_or (some v) default = some v

abbrev pub accepted : Host → Parameter → Option String → Option String
accepted h p none = none
accepted h p (some v) = if accepts h p v then some v else none

-- The value that a name of a group has to have.
abbrev pub expected :
    Host → Deployment → List (String × List (String × String)) → String → String → Option String
expected h d supplied g n = elim (get string_discrete n (entries_of g d.parameters)) [
  | none ↦ none
  | some p ↦ accepted h p (supplied_or (get string_discrete n (entries_of g supplied)) p.default)
]

-- A name that is declared and has a value, or is neither declared nor supplied.
abbrev pub Settled :
    Host → Deployment → List (String × List (String × String)) → String → String → Type 0
Settled h d supplied g n =
    ((get string_discrete n (entries_of g d.parameters) ≡ none)
      × (get string_discrete n (entries_of g supplied) ≡ none))
    ⊎ ((v : String) × (expected h d supplied g n ≡ some v))

value_of-judged :
    (h : Host) (p : Parameter) (v : String) → value_of (judged h p v) ≡ accepted h p (some v)
value_of-judged h p v = ground arith

value_of-resolve_default :
    (h : Host) (p : Parameter) (o : Option String)
    → value_of (resolve_default h p o) ≡ accepted h p o
value_of-resolve_default h p none = refl
value_of-resolve_default h p (some v) = value_of-judged h p v

value_of-resolve :
    (h : Host) (p : Parameter) (given : Option String)
    → value_of (resolve h p given) ≡ accepted h p (supplied_or given p.default)
unfolding resolve
value_of-resolve h p none = value_of-resolve_default h p p.default
value_of-resolve h p (some v) = value_of-judged h p v

pub kept-expected :
    (h : Host) (d : Deployment) (supplied : List (String × List (String × String))) (g n : String)
    → kept (of_group h d supplied g n) ≡ expected h d supplied g n
kept-expected h d supplied g n =
    elim (Option-cases (get string_discrete n (entries_of g d.parameters))) [
      | inl e ↦ ground (arith, e)
      | inr (p, e) ↦
          ground (arith, e, value_of-resolve h p (get string_discrete n (entries_of g supplied)))
    ]

pub kept-resolved : (o : Option Resolution) (v : String) → kept o ≡ some v → o ≡ some (resolved v)
kept-resolved none v k = absurd (ground (arith, k))
kept-resolved (some (resolved w)) v k = ground (arith, k)
kept-resolved (some missing) v k = absurd (ground (arith, k))
kept-resolved (some unaccepted) v k = absurd (ground (arith, k))
