-- ===== src/Arbiter/Telling.antt =====
-- internal/core/interfaces/arbitration.go, `recompute`: run again on the same inputs, it changes and
-- tells nothing.
use yoke.Prelude.{
  ℕ, ◌≡◌, refl, String, true, Option, none, some, List, [], ◌∷◌, ◌=?◌, get, put, string_discrete,
  contains, arith, inl, inr, Option-cases, get-put, Bool-cases,
}
use yoke.Arbiter.{
  Arbitrated, Arbiter, Channels, Edge, judge, judged, judge_all, is_held, Rule, edges, edges_over,
  is_reclaiming, recompute, told,
}
use yoke.Arbiter.Judging.{settled, get-judge_all, judge-put}

-- Two maps in which the same channels hold and reclaim.
abbrev Alike : Channels → Channels → Type 0
Alike m m' =
    (x : String)
    → (is_held (get string_discrete x m') ≡ is_held (get string_discrete x m))
      × (is_reclaiming (get string_discrete x m') ≡ is_reclaiming (get string_discrete x m))

edges_over-Alike :
    (m m' : Channels) (p : String) (ds : List String)
    → Alike m m'
    → edges_over m' p ds ≡ edges_over m p ds
unfolding edges_over
edges_over-Alike m m' p [] h = refl
edges_over-Alike m m' p (d ∷ ds) h = ground (arith, (h d).1, edges_over-Alike m m' p ds h)

edges-Alike : (m m' : Channels) (rs : List Rule) → Alike m m' → edges m' rs ≡ edges m rs
unfolding edges
edges-Alike m m' [] h = refl
edges-Alike m m' (r ∷ rs) h =
    ground (arith, edges_over-Alike m m' r.prevails r.over h, edges-Alike m m' rs h)

judge-Alike :
    (m m' : Channels) (es : List Edge) (x : String) → Alike m m' → judge m' es x ≡ judge m es x
unfolding judge
judge-Alike m m' [] x h = refl
judge-Alike m m' (e ∷ es) x h = ground (arith, (h e.prevails).0, judge-Alike m m' es x h)

-- Each channel of a list is as the edges have it.
abbrev Settled : Channels → List Edge → List String → Type 0
Settled m es ns =
    (x : String)
    → contains ns x ≡ true
    → get string_discrete x m ≡ settled (get string_discrete x m) (judge m es x)

told-settled :
    (now : ℕ) (n : String) (c : Arbitrated) (e : Option Edge)
    → some c ≡ settled (some c) e
    → told now n c e ≡ []
unfolding ◌=?◌
told-settled now n c none h = ground (arith, h)
told-settled now n c (some e) h = ground (arith, h)

judge_all-Settled :
    (now : ℕ) (es : List Edge) (ns : List String) (m : Channels)
    → Settled m es ns
    → (judge_all now es ns m).1 ≡ []
unfolding judge_all contains
judge_all-Settled now es [] m h = refl
judge_all-Settled now es (n ∷ ns) m h = elim (Option-cases (get string_discrete n m)) [
  | inl e ↦ ground (arith, judge_all-Settled now es ns m (λ x i. h x (ground (arith, i))))
  | inr (c, e) ↦
      let j = judge m es n in
      let m' = put string_discrete n (judged c j) m in
      let rest = judge_all-Settled now es ns m' (λ x i.
        ground
          (arith, h x, i, get-put string_discrete n x (judged c j) m, judge-put m n c j es x e)) in
      ground (arith, rest, told-settled now n c j, h n)
]

judge_all-Alike :
    (now : ℕ) (es : List Edge) (ns : List String) (m : Channels) → Alike m (judge_all now es ns m).0
judge_all-Alike now es ns m x = elim (Option-cases (judge m es x)) [
  | inl e ↦ ground (arith, get-judge_all now es ns m x)
  | inr (g, e) ↦ ground (arith, get-judge_all now es ns m x)
]

judge_all-again :
    (now : ℕ) (es : List Edge) (ns : List String) (m : Channels)
    → Settled (judge_all now es ns m).0 es ns
judge_all-again now es ns m x i =
    let m' = (judge_all now es ns m).0 in
    elim (Option-cases (get string_discrete x m)) [
      | inl e ↦
          ground (
            arith,
            get-judge_all now es ns m x,
            judge-Alike m m' es x (judge_all-Alike now es ns m),
          )
      | inr (c, e) ↦ elim (Option-cases (judge m es x)) [
        | inl f ↦ ground (
          arith,
          get-judge_all now es ns m x,
          judge-Alike m m' es x (judge_all-Alike now es ns m),
        )
        | inr (g, f) ↦ ground (
          arith,
          get-judge_all now es ns m x,
          judge-Alike m m' es x (judge_all-Alike now es ns m),
        )
      ]
    ]

get-judge_all_same :
    (later : ℕ) (es : List Edge) (ns : List String) (m : Channels) (x : String)
    → Settled m es ns
    → get string_discrete x (judge_all later es ns m).0 ≡ get string_discrete x m
get-judge_all_same later es ns m x h = elim (Bool-cases (contains ns x)) [
  | inl e ↦ ground (arith, get-judge_all later es ns m x, h x e)
  | inr e ↦ ground (arith, get-judge_all later es ns m x)
]

-- The suspensions are derived from the rules and from what holds and has reclaimed, and from nothing
-- else: derived again they are the same on every channel, and there is nothing to tell.
recompute-recompute :
    (now later : ℕ) (a : Arbiter)
    → let again = recompute later (recompute now a).0 in
      (again.1 ≡ [])
      × ((x : String)
          → get string_discrete x again.0.channels
            ≡ get string_discrete x (recompute now a).0.channels)
unfolding recompute
recompute-recompute now later a =
    let es = edges a.channels a.rules in
    let m = (judge_all now es a.order a.channels).0 in
    let same = edges-Alike a.channels m a.rules (judge_all-Alike now es a.order a.channels) in
    let settled = judge_all-again now es a.order a.channels in
    (
      rw same (judge_all-Settled later es a.order m settled),
      λ x. rw same (get-judge_all_same later es a.order m x settled),
    )
