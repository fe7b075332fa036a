-- ===== src/Gate/Resolving.antt =====
-- internal/gate/body.go, `Values`: what is resolved of each declared parameter.
use yoke.Prelude.{
  Bool-cases, contains-sort, ◌≡◌, inl, inr, String, false, Option, none, List, [], ◌∷◌,
  if◌then◌else◌, get, string_discrete, sort, contains, arith, refl, Option-cases, sym,
}
use yoke.Gate.{Deployment}
use yoke.Gate.Values.{
  values, Host, Resolution, keys, entries_of, kept, resolve_names, of_group, resolve_groups,
}

pub get-keys :
    {V : Type 0} (n : String) (m : List (String × V))
    → contains (keys m) n ≡ false
    → get string_discrete n m ≡ none
unfolding contains get
get-keys n [] h = refl
get-keys n ((k, v) ∷ m) h = ground (arith, h, get-keys n m)

get-resolve_names :
    (f : String → Option Resolution) (n : String) (ns : List String)
    → get string_discrete n (resolve_names f ns) ≡ (if contains ns n then kept (f n) else none)
unfolding contains get
get-resolve_names f n [] = ground arith
get-resolve_names f n (m ∷ ns) = elim (Option-cases (kept (f m))) [
  | inl e ↦ rw e (ground (arith, e, get-resolve_names f n ns))
  | inr (v, e) ↦ rw e (ground (arith, e, get-resolve_names f n ns))
]

entries_of-resolve_groups :
    (h : Host) (d : Deployment) (supplied : List (String × List (String × String))) (g : String)
    (gs : List String)
    → entries_of g (resolve_groups h d supplied gs) ≡ (
        if contains gs g
        then resolve_names (of_group h d supplied g) (sort (keys (entries_of g d.parameters)))
        else [])
unfolding contains get
entries_of-resolve_groups h d supplied g [] = ground arith
entries_of-resolve_groups h d supplied g (x ∷ gs) = elim (string_discrete x g) [
  | yes e ↦ rw e (ground arith)
  | no n ↦ ground (arith, n, entries_of-resolve_groups h d supplied g gs)
]

pub entries_of-keys :
    {V : Type 0} (g : String) (m : List (String × List (String × V)))
    → contains (keys m) g ≡ false
    → entries_of g m ≡ []
entries_of-keys g m h = rw (entries_of, get-keys g m h) refl

kept-of_group :
    (h : Host) (d : Deployment) (supplied : List (String × List (String × String))) (g n : String)
    → get string_discrete n (entries_of g d.parameters) ≡ none
    → kept (of_group h d supplied g n) ≡ none
kept-of_group h d supplied g n e = ground (arith, e)

get-names :
    (h : Host) (d : Deployment) (supplied : List (String × List (String × String))) (g n : String)
    → get string_discrete n
        (resolve_names (of_group h d supplied g) (sort (keys (entries_of g d.parameters))))
      ≡ kept (of_group h d supplied g n)
get-names h d supplied g n =
    let ns = keys (entries_of g d.parameters) in
    rw (get-resolve_names (of_group h d supplied g) n (sort ns), contains-sort n ns)
      (elim (Bool-cases (contains ns n)) [
        | inl k ↦ rw k refl
        | inr k ↦
            rw k (sym (kept-of_group h d supplied g n (get-keys n (entries_of g d.parameters) k)))
      ])

none-of_group :
    (h : Host) (d : Deployment) (supplied : List (String × List (String × String))) (g n : String)
    → entries_of g d.parameters ≡ []
    → none ≡ kept (of_group h d supplied g n)
unfolding get
none-of_group h d supplied g n e = sym (kept-of_group h d supplied g n (rw e refl))

-- What is resolved of a name of a group is what its declaration makes of what was supplied.
pub get-values :
    (h : Host) (d : Deployment) (supplied : List (String × List (String × String))) (g n : String)
    → get string_discrete n (entries_of g (values h d supplied).0)
      ≡ kept (of_group h d supplied g n)
unfolding values get
get-values h d supplied g n =
    let gs = keys d.parameters in
    rw (entries_of-resolve_groups h d supplied g (sort gs), contains-sort g gs)
      (elim (Bool-cases (contains gs g)) [
        | inl k ↦ rw k (get-names h d supplied g n)
        | inr k ↦ rw k (none-of_group h d supplied g n (entries_of-keys g d.parameters k))
      ])
