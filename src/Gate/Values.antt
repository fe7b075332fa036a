-- ===== src/Gate/Values.antt =====
-- internal/gate/body.go, `accepts` and `Values`: what a site supplied, checked against a descriptor's
-- declarations. A Go map is gone through in the order of its keys.
use yoke.Prelude.{
  String, Bool, true, false, not, ◌||◌, Option, none, some, List, [], ◌∷◌, ◌++◌, if◌then◌else◌,
  ◌=?◌, get, string_discrete, sort, contains, codes, ltb_ℤ, ℤ,
}
use yoke.Gate.{Parameter, Deployment, Finding, refusing, joined}
use yoke.Gate.Written.{parse_int}

-- What the host answers: whether a value matches a pattern, as it does where the pattern is no regular
-- expression; and whether a path exists.
pub record Host : Type 0 where
  pub matches : String → String → Bool
  pub exists : String → Bool

abbrev pub in_range : Option (ℤ × ℤ) → Option ℤ → Bool
in_range range none = false
in_range none (some n) = true
in_range (some (least, most)) (some n) = not (ltb_ℤ n least || ltb_ℤ most n)

unfoldable pub accepts : Host → Parameter → String → Bool
unfolding parse_int contains
accepts h p v =
    if p.typ =? "string"
    then p.pattern =? "" || h.matches p.pattern v
    else if p.typ =? "integer"
    then in_range p.range (parse_int (codes v))
    else if p.typ =? "boolean"
    then v =? "true" || v =? "false"
    else if p.typ =? "enum"
    then contains p.values v
    else if p.typ =? "path"
    then h.exists v
    else if p.typ =? "address"
    then not (v =? "")
    else true

abbrev pub keys {ℓ} : {V : Type ℓ} → List (String × V) → List String
keys [] = []
keys ((k, v) ∷ m) = k ∷ keys m

-- A map that is absent is empty.
abbrev pub entries_of :
    {V : Type 0} → String → List (String × List (String × V)) → List (String × V)
entries_of g m = elim (get string_discrete g m) [ none ↦ [] | some t ↦ t ]

abbrev pub at : String → String → String
at g name = joined (joined "parameters" g) name

-- The values that nobody declared, of a group and of all.
abbrev pub undeclared : List (String × Parameter) → String → List String → List Finding
undeclared declared g [] = []
undeclared declared g (n ∷ ns) = elim (get string_discrete n declared) [
  | none ↦ refusing "key.unknown" (at g n) ∷ undeclared declared g ns
  | some p ↦ undeclared declared g ns
]

abbrev pub unknown :
    Deployment → List (String × List (String × String)) → List String → List Finding
unknown d supplied [] = []
unknown d supplied (g ∷ gs) =
    undeclared (entries_of g d.parameters) g (sort (keys (entries_of g supplied)))
    ++ unknown d supplied gs

pub data Resolution : Type 0 where
  resolved : String → Resolution
  missing unaccepted : Resolution

abbrev pub judged : Host → Parameter → String → Resolution
judged h p v = if accepts h p v then resolved v else unaccepted

-- A value that is not supplied is the default, where there is one.
abbrev pub resolve_default : Host → Parameter → Option String → Resolution
resolve_default h p none = missing
resolve_default h p (some v) = judged h p v

unfoldable pub resolve : Host → Parameter → Option String → Resolution
unfolding accepts
resolve h p none = resolve_default h p p.default
resolve h p (some v) = judged h p v

abbrev pub value_of : Resolution → Option String
value_of (resolved v) = some v
value_of r = none

abbrev pub finding_of : String → Resolution → List Finding
finding_of at (resolved v) = []
finding_of at missing = refusing "parameter.missing" at ∷ []
finding_of at unaccepted = refusing "parameter.value" at ∷ []

abbrev pub with_value : String → Option String → List (String × String) → List (String × String)
with_value n none m = m
with_value n (some v) m = (n, v) ∷ m

-- What becomes of a name: of one that is declared, its resolution.
abbrev pub outcome :
    Host → List (String × Parameter) → List (String × String) → String → Option Resolution
outcome h declared supplied n = elim (get string_discrete n declared) [
  | none ↦ none
  | some p ↦ some (resolve h p (get string_discrete n supplied))
]

abbrev pub found : String → Option Resolution → List Finding
found at none = []
found at (some r) = finding_of at r

abbrev pub kept : Option Resolution → Option String
kept none = none
kept (some r) = value_of r

-- The values of a group's names.
abbrev pub resolve_names : (String → Option Resolution) → List String → List (String × String)
resolve_names f [] = []
resolve_names f (n ∷ ns) = with_value n (kept (f n)) (resolve_names f ns)

abbrev pub refuse_names : (String → Option Resolution) → String → List String → List Finding
refuse_names f g [] = []
refuse_names f g (n ∷ ns) = found (at g n) (f n) ++ refuse_names f g ns

abbrev pub of_group :
    Host → Deployment → List (String × List (String × String)) → String → String → Option Resolution
of_group h d supplied g = outcome h (entries_of g d.parameters) (entries_of g supplied)

abbrev pub resolve_groups :
    Host
    → Deployment
    → List (String × List (String × String))
    → List String
    → List (String × List (String × String))
resolve_groups h d supplied [] = []
resolve_groups h d supplied (g ∷ gs) =
    (g, resolve_names (of_group h d supplied g) (sort (keys (entries_of g d.parameters))))
    ∷ resolve_groups h d supplied gs

abbrev pub refuse_groups :
    Host → Deployment → List (String × List (String × String)) → List String → List Finding
refuse_groups h d supplied [] = []
refuse_groups h d supplied (g ∷ gs) =
    refuse_names (of_group h d supplied g) g (sort (keys (entries_of g d.parameters)))
    ++ refuse_groups h d supplied gs

-- The values resolved, and the findings: those nobody declared, and then those of the declarations.
unfoldable pub values :
    Host
    → Deployment
    → List (String × List (String × String))
    → List (String × List (String × String)) × List Finding
unfolding resolve
values h d supplied =
    let groups = sort (keys d.parameters) in
    (
      resolve_groups h d supplied groups,
      unknown d supplied (sort (keys supplied)) ++ refuse_groups h d supplied groups,
    )
