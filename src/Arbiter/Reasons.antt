-- ===== src/Arbiter/Reasons.antt =====
-- internal/core/interfaces/arbitration.go, `recompute`: which rules and channels a suspension rests on.
use yoke.Arbiter.Judging.{get-judge_all}
use yoke.Prelude.{
  ◌≡◌, refl, String, Bool, true, false, ◌&&◌, ◌||◌, ◌++◌, none, some, List, [], ◌∷◌, ◌=?◌, get,
  string_discrete, contains, arith, ◌⊎◌, inl, ℕ, is_some, inr, Option-cases,
}
use yoke.Arbiter.{
  Channels, Edge, judge, is_held, Rule, edges, edges_over, is_reclaiming, displaced, reclaimed,
  Arbiter, recompute, Arbitrated,
}

-- Whether a rule is declared by which one channel prevails over another.
unfoldable pub rules_say : List Rule → String → String → Bool
rules_say [] p d = false
rules_say (r ∷ rs) p d = (r.prevails =? p && contains r.over d) || rules_say rs p d

-- Whether a channel suspends another, given whether a rule is declared each way.
abbrev pub Grounds : Channels → Bool → Bool → String → String → String → Type 0
Grounds m over under by x why =
    ((why ≡ displaced)
      × (over ≡ true)
      × (is_held (get string_discrete by m) ≡ true)
      × (is_reclaiming (get string_discrete x m) ≡ false))
    ⊎ ((why ≡ reclaimed) × (under ≡ true) × (is_reclaiming (get string_discrete by m) ≡ true))

judge-append :
    (m : Channels) (es fs : List Edge) (x : String)
    → ((judge m es x ≡ none) × (judge m (es ++ fs) x ≡ judge m fs x))
      ⊎ ((is_some (judge m es x) ≡ true) × (judge m (es ++ fs) x ≡ judge m es x))
unfolding judge
judge-append m [] fs x = inl (refl, refl)
judge-append m (e ∷ es) fs x = ground (arith, judge-append m es fs x)

judge-edges_over :
    (m : Channels) (p : String) (ds : List String) (x : String) (e : Edge)
    → judge m (edges_over m p ds) x ≡ some e
    → Grounds m
        (p =? e.prevails && contains ds x)
        (p =? x && contains ds e.prevails)
        e.prevails
        x
        e.reason
unfolding judge edges_over ◌=?◌ contains
judge-edges_over m p [] x e h = ground arith
judge-edges_over m p (d ∷ ds) x e h = ground (arith, judge-edges_over m p ds x e)

judge-edges :
    (m : Channels) (rs : List Rule) (x : String) (e : Edge)
    → judge m (edges m rs) x ≡ some e
    → Grounds m (rules_say rs e.prevails x) (rules_say rs x e.prevails) e.prevails x e.reason
unfolding judge edges rules_say
judge-edges m [] x e h = ground arith
judge-edges m (r ∷ rs) x e h = ground (
  arith,
  judge-append m (edges_over m r.prevails r.over) (edges m rs) x,
  judge-edges_over m r.prevails r.over x e,
  judge-edges m rs x e,
)

-- Nothing suspends a channel where no edge does.
abbrev pub Unopposed : Channels → Bool → Bool → String → String → Type 0
Unopposed m over under p x =
    (over ≡ true
      → is_held (get string_discrete p m) ≡ true
      → is_reclaiming (get string_discrete x m) ≡ true)
    × (under ≡ true → is_reclaiming (get string_discrete p m) ≡ false)

judge-edges_over-none :
    (m : Channels) (q : String) (ds : List String) (x p : String)
    → judge m (edges_over m q ds) x ≡ none
    → Unopposed m (q =? p && contains ds x) (q =? x && contains ds p) p x
unfolding judge edges_over ◌=?◌ contains
judge-edges_over-none m q [] x p h = ground arith
judge-edges_over-none m q (d ∷ ds) x p h = ground (arith, judge-edges_over-none m q ds x p)

judge-edges-none :
    (m : Channels) (rs : List Rule) (x p : String)
    → judge m (edges m rs) x ≡ none
    → Unopposed m (rules_say rs p x) (rules_say rs x p) p x
unfolding judge edges rules_say
judge-edges-none m [] x p h = ground arith
judge-edges-none m (r ∷ rs) x p h = ground (
  arith,
  judge-append m (edges_over m r.prevails r.over) (edges m rs) x,
  judge-edges_over-none m r.prevails r.over x p,
  judge-edges-none m rs x p,
)

-- After any change to what holds or has reclaimed, a channel is suspended exactly with grounds: by a
-- channel that holds and that a declared rule lets prevail, while the suspended one is not a local
-- channel that has reclaimed and holds; or by such a channel, over which a rule would have let it
-- prevail. One that is not suspended has no such grounds against it, from any channel.
pub recompute-Grounds :
    (now : ℕ) (a : Arbiter) (x : String) (c d : Arbitrated)
    → get string_discrete x a.channels ≡ some c
    → contains a.order x ≡ true
    → get string_discrete x (recompute now a).0.channels ≡ some d
    → (d.is_suspended ≡ true
        → Grounds a.channels (rules_say a.rules d.by x) (rules_say a.rules x d.by) d.by x d.reason)
      × (d.is_suspended ≡ false
          → (p : String) → Unopposed a.channels (rules_say a.rules p x) (rules_say a.rules x p) p x)
unfolding recompute
recompute-Grounds now a x c d h o e =
    elim (Option-cases (judge a.channels (edges a.channels a.rules) x)) [
      | inl n ↦ (
        ground (arith, get-judge_all now (edges a.channels a.rules) a.order a.channels x),
        λ s p. judge-edges-none a.channels a.rules x p n,
      )
      | inr (g, n) ↦ (
        ground (
          arith,
          get-judge_all now (edges a.channels a.rules) a.order a.channels x,
          judge-edges a.channels a.rules x g n,
        ),
        λ s. ground (arith, get-judge_all now (edges a.channels a.rules) a.order a.channels x),
      )
    ]
