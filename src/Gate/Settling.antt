-- ===== src/Gate/Settling.antt =====
-- internal/gate/body.go, `Values`: when nothing is found of what a site supplied.
use yoke.Prelude.{
  some, ◌↔◌, Bool-cases, ◌≢◌, true, contains-sort, ◌≡◌, inl, inr, String, false, Option, none, List,
  [], ◌∷◌, get, string_discrete, sort, contains, arith, refl, Option-cases, ◌++◌, sym, ◌∙◌, ap,
}
use yoke.Gate.{Parameter, Finding, Deployment}
use yoke.Gate.Values.{
  resolve, resolved, at, found, undeclared, refuse_names, refuse_groups, values, unknown, Host,
  Resolution, keys, entries_of, kept, of_group, missing, unaccepted,
}
use yoke.Gate.Resolving.{get-keys, entries_of-keys, get-values}
use yoke.Gate.Expected.{expected, Settled, kept-expected, kept-resolved}

pub nothing_in_both : (xs ys : List Finding) → xs ++ ys ≡ [] → (xs ≡ []) × (ys ≡ [])
nothing_in_both [] ys h = (refl, h)
nothing_in_both (x ∷ xs) ys h = absurd (ground (arith, h))

refuse_names-nil :
    (f : String → Option Resolution) (g n : String) (ns : List String)
    → refuse_names f g ns ≡ []
    → contains ns n ≡ true
    → found (at g n) (f n) ≡ []
unfolding contains
refuse_names-nil f g n [] h k = absurd (ground (arith, k))
refuse_names-nil f g n (m ∷ ns) h k =
    let both = nothing_in_both (found (at g m) (f m)) (refuse_names f g ns) h in
    elim (string_discrete m n) [
      | yes e ↦ rw (← e) both.0
      | no ne ↦ refuse_names-nil f g n ns both.1 (ground (arith, k, ne))
    ]

refuse_groups-nil :
    (h : Host) (d : Deployment) (supplied : List (String × List (String × String))) (g : String)
    (gs : List String)
    → refuse_groups h d supplied gs ≡ []
    → contains gs g ≡ true
    → refuse_names (of_group h d supplied g) g (sort (keys (entries_of g d.parameters))) ≡ []
unfolding contains
refuse_groups-nil h d supplied g [] e k = absurd (ground (arith, k))
refuse_groups-nil h d supplied g (x ∷ gs) e k =
    let both =
      nothing_in_both
        (refuse_names (of_group h d supplied x) x (sort (keys (entries_of x d.parameters))))
        (refuse_groups h d supplied gs) e in
    elim (string_discrete x g) [
      | yes q ↦ rw (← q) both.0
      | no ne ↦ refuse_groups-nil h d supplied g gs both.1 (ground (arith, k, ne))
    ]

undeclared-nil :
    (declared : List (String × Parameter)) (g n : String) (ns : List String)
    → undeclared declared g ns ≡ []
    → contains ns n ≡ true
    → get string_discrete n declared ≢ none
unfolding contains
undeclared-nil declared g n [] h k = absurd (ground (arith, k))
undeclared-nil declared g n (m ∷ ns) h k = elim (Option-cases (get string_discrete m declared)) [
  | inl e ↦ absurd (ground (arith, h, e))
  | inr (p, e) ↦ elim (string_discrete m n) [
    | yes q ↦ λ z. ground (arith, e, z, q)
    | no ne ↦ undeclared-nil declared g n ns (ground (arith, h, e)) (ground (arith, k, ne))
  ]
]

unknown-nil :
    (d : Deployment) (supplied : List (String × List (String × String))) (g : String)
    (gs : List String)
    → unknown d supplied gs ≡ []
    → contains gs g ≡ true
    → undeclared (entries_of g d.parameters) g (sort (keys (entries_of g supplied))) ≡ []
unfolding contains
unknown-nil d supplied g [] e k = absurd (ground (arith, k))
unknown-nil d supplied g (x ∷ gs) e k =
    let both =
      nothing_in_both
        (undeclared (entries_of x d.parameters) x (sort (keys (entries_of x supplied))))
        (unknown d supplied gs) e in
    elim (string_discrete x g) [
      | yes q ↦ rw (← q) both.0
      | no ne ↦ unknown-nil d supplied g gs both.1 (ground (arith, k, ne))
    ]

refuse_names-found :
    (f : String → Option Resolution) (g : String) (ns : List String)
    → ((n : String) → found (at g n) (f n) ≡ [])
    → refuse_names f g ns ≡ []
refuse_names-found f g [] h = refl
refuse_names-found f g (n ∷ ns) h = rw (h n) (refuse_names-found f g ns h)

refuse_groups-found :
    (h : Host) (d : Deployment) (supplied : List (String × List (String × String)))
    (gs : List String)
    → ((g n : String) → found (at g n) (of_group h d supplied g n) ≡ [])
    → refuse_groups h d supplied gs ≡ []
refuse_groups-found h d supplied [] k = refl
refuse_groups-found h d supplied (g ∷ gs) k =
    let ns = sort (keys (entries_of g d.parameters)) in
    rw (refuse_names-found (of_group h d supplied g) g ns (k g))
      (refuse_groups-found h d supplied gs k)

keys-get :
    {V : Type 0} (n : String) (m : List (String × V))
    → get string_discrete n m ≡ none
    → contains (keys m) n ≡ false
unfolding contains get
keys-get n [] e = refl
keys-get n ((k, v) ∷ m) e = ground (arith, e, keys-get n m)

contains_self : (n : String) (ns : List String) → contains (n ∷ ns) n ≡ true
unfolding contains
contains_self n ns = ground arith

contains_more :
    (m n : String) (ns : List String) → contains ns n ≡ true → contains (m ∷ ns) n ≡ true
unfolding contains
contains_more m n ns h = ground (arith, h)

undeclared-found :
    (declared : List (String × Parameter)) (g : String) (ns : List String)
    → ((n : String) → contains ns n ≡ true → get string_discrete n declared ≢ none)
    → undeclared declared g ns ≡ []
undeclared-found declared g [] k = refl
undeclared-found declared g (n ∷ ns) k = elim (Option-cases (get string_discrete n declared)) [
  | inl e ↦ absurd (k n (contains_self n ns) e)
  | inr (p, e) ↦
      rw (undeclared, e) (undeclared-found declared g ns (λ m q. k m (contains_more n m ns q)))
]

unknown-found :
    (d : Deployment) (supplied : List (String × List (String × String))) (gs : List String)
    → ((g n : String)
        → contains (keys (entries_of g supplied)) n ≡ true
        → get string_discrete n (entries_of g d.parameters) ≢ none)
    → unknown d supplied gs ≡ []
unknown-found d supplied [] k = refl
unknown-found d supplied (g ∷ gs) k =
    let ns = keys (entries_of g supplied) in
    rw
      (undeclared-found (entries_of g d.parameters) g (sort ns)
        (λ n q. k g n (sym (contains-sort n ns) ∙ q)))
      (unknown-found d supplied gs k)

get-nothing :
    {V : Type 0} (n : String) (m : List (String × V)) → m ≡ [] → get string_discrete n m ≡ none
unfolding get
get-nothing n m e = rw e refl

resolved_found :
    (location : String) (r : Resolution) (o : Option Resolution)
    → o ≡ some r
    → found location o ≡ []
    → (v : String) × (o ≡ some (resolved v))
resolved_found location (resolved v) o e k = (v, e)
resolved_found location missing o e k = absurd (ground (arith, e, k))
resolved_found location unaccepted o e k = absurd (ground (arith, e, k))

module _ (h : Host) (d : Deployment) (supplied : List (String × List (String × String))) where
  Settled-found :
      ((g n : String) → Settled h d supplied g n)
      → (g n : String) → found (at g n) (of_group h d supplied g n) ≡ []
  Settled-found settled g n = elim (settled g n) [
    | inl e ↦ ground (arith, e.0)
    | inr (v, e) ↦
        rw (kept-resolved (of_group h d supplied g n) v (kept-expected h d supplied g n ∙ e)) refl
  ]

  -- No supplied name is undeclared.
  Settled-undeclared :
      ((g n : String) → Settled h d supplied g n)
      → (g n : String) → contains (keys (entries_of g supplied)) n ≡ true
      → get string_discrete n (entries_of g d.parameters) ≢ none
  Settled-undeclared settled g n k e =
      ground (arith, k, e, settled g n, keys-get n (entries_of g supplied))

  not_supplied :
      (g n : String)
      → unknown d supplied (sort (keys supplied)) ≡ []
      → get string_discrete n (entries_of g d.parameters) ≡ none
      → get string_discrete n (entries_of g supplied) ≡ none
  not_supplied g n u e =
      let ns = keys (entries_of g supplied) in
      elim (Bool-cases (contains ns n)) [
        | inr k ↦ get-keys n (entries_of g supplied) k
        | inl k ↦ elim (Bool-cases (contains (keys supplied) g)) [
          | inl q ↦
              let none_left =
                unknown-nil d supplied g (sort (keys supplied)) u
                  (contains-sort g (keys supplied) ∙ q) in
              absurd (
                undeclared-nil (entries_of g d.parameters) g n (sort ns) none_left
                  (contains-sort n ns ∙ k) e)
          | inr q ↦ get-nothing n (entries_of g supplied) (entries_of-keys g supplied q)
        ]
      ]

  settled_by :
      (g n : String) (p : Parameter)
      → refuse_groups h d supplied (sort (keys d.parameters)) ≡ []
      → get string_discrete n (entries_of g d.parameters) ≡ some p
      → found (at g n) (of_group h d supplied g n) ≡ []
  settled_by g n p f e = elim (Bool-cases (contains (keys d.parameters) g)) [
    | inl q ↦ elim (Bool-cases (contains (keys (entries_of g d.parameters)) n)) [
      | inl k ↦
          refuse_names-nil (of_group h d supplied g) g n (sort (keys (entries_of g d.parameters)))
            (refuse_groups-nil h d supplied g (sort (keys d.parameters)) f
              (contains-sort g (keys d.parameters) ∙ q))
            (contains-sort n (keys (entries_of g d.parameters)) ∙ k)
      | inr k ↦ absurd (ground (arith, e, get-keys n (entries_of g d.parameters) k))
    ]
    | inr q ↦ absurd (
        ground
          (arith, e, get-nothing n (entries_of g d.parameters) (entries_of-keys g d.parameters q)))
  ]

  found-nil :
      (g n : String) (p : Parameter)
      → get string_discrete n (entries_of g d.parameters) ≡ some p
      → found (at g n) (of_group h d supplied g n) ≡ []
      → (v : String) × (of_group h d supplied g n ≡ some (resolved v))
  found-nil g n p e k =
      resolved_found (at g n) (resolve h p (get string_discrete n (entries_of g supplied)))
        (of_group h d supplied g n) (ground (arith, e)) k

-- Of each name of a group, the value that is resolved is the one that was supplied, or else the default,
-- where the declaration accepts it, and there is none otherwise. Nothing is found exactly when each name
-- is declared and has such a value, or is neither declared nor supplied.
pub values_lem :
    (h : Host) (d : Deployment) (supplied : List (String × List (String × String)))
    → ((g n : String)
        → get string_discrete n (entries_of g (values h d supplied).0) ≡ expected h d supplied g n)
      × (((values h d supplied).1 ≡ []) ↔ ((g n : String) → Settled h d supplied g n))
unfolding values
values_lem h d supplied = (
  λ g n. get-values h d supplied g n ∙ kept-expected h d supplied g n,
  (
    λ e g n.
        let both =
          nothing_in_both (unknown d supplied (sort (keys supplied)))
            (refuse_groups h d supplied (sort (keys d.parameters))) e in
        elim (Option-cases (get string_discrete n (entries_of g d.parameters))) [
          | inl k ↦ inl (k, not_supplied h d supplied g n both.0 k)
          | inr (p, k) ↦
              let (v, q) =
                found-nil h d supplied g n p k (settled_by h d supplied g n p both.1 k) in
              inr (v, sym (kept-expected h d supplied g n) ∙ ap kept q)
        ],
    λ settled.
        rw
          (unknown-found d supplied (sort (keys supplied))
            (Settled-undeclared h d supplied settled))
          (refuse_groups-found h d supplied (sort (keys d.parameters))
            (Settled-found h d supplied settled)),
  ),
)
