-- ===== src/Supervisor/Freeing.antt =====
-- internal/core/supervisor/supervisor.go, `release`: the units that are launched once their last
-- dependency is ready.
use yoke.Prelude.{
  ℕ, Bool-cases, ◌≡◌, refl, ◌⊎◌, inl, inr, String, Bool, true, not, ◌&&◌, ◌||◌, some, List, [], ◌∷◌,
  ◌++◌, get, put, string_discrete, ◌=?◌, contains, get-put, arith, Option-cases, keep, All, =?→≡,
  zero, suc,
}
use yoke.Supervisor.{Supervisor, Managed, with_unit}
use yoke.Supervisor.Attempt.{
  Answers, Release, attempt, arrived, freed, let_go, launch_all, stops_awaiting, is_free, release,
}
use yoke.Supervisor.Order.{
  became_ready, decl_of, awaiting_of, Inv, Good, Steady, Unheld, Unheld-Steady, Good-refl,
  Good-trans,
}
use yoke.Supervisor.Releasing.{Releases, attempt-Good}

pub contains-keep :
    (p : String → Bool) (l : List String) (x : String)
    → contains (keep p l) x ≡ (contains l x && p x)
unfolding contains
contains-keep p [] x = refl
contains-keep p (y ∷ l) x = ground (arith, contains-keep p l x)

pub contains-append :
    (l k : List String) (x : String) → contains (l ++ k) x ≡ (contains l x || contains k x)
unfolding contains
contains-append [] k x = refl
contains-append (y ∷ l) k x = ground (arith, contains-append l k x)

-- The units that await one unit less are declared as they were, and await all others that they did.
arrived_lem :
    (id : String) (hs : List String) (units : List (String × Managed)) (j d : String)
    → let now = get string_discrete j (arrived id hs units) in
      let was = get string_discrete j units in
      (decl_of now ≡ decl_of was)
      × (contains (awaiting_of was) d ≡ true → (contains (awaiting_of now) d ≡ true) ⊎ (d ≡ id))
unfolding arrived
arrived_lem id [] units j d = (refl, λ h. inl h)
arrived_lem id (h ∷ hs) units j d = elim (Option-cases (get string_discrete h units)) [
  | inl e ↦ rw (e, arrived) (arrived_lem id hs units j d)
  | inr (m, e) ↦
      rw (e, arrived)
        (ground (
          arith,
          e,
          arrived_lem id hs (put string_discrete h (stops_awaiting id m) units) j d,
          get-put string_discrete h j (stops_awaiting id m) units,
          contains-keep (λ x. not (x =? id)) m.status.awaiting d,
          =?→≡ d id,
        ))
]

arrived-Inv :
    (s : Supervisor) (id : String)
    → Inv s
    → became_ready id s.told ≡ true
    → Good s (record s { units = arrived id s.held s.units })
arrived-Inv s id inv r = (
  ((λ j. (arrived_lem id s.held s.units j id).0), λ d e. e),
  (
    inv.0,
    (λ j u e. ground (arith, arrived_lem id s.held s.units j j, inv.1 j u, e)),
    λ j u d e c. ground (arith, arrived_lem id s.held s.units j d, inv.2 j u d, e, c, r),
  ),
)

let_go-Good :
    (s : Supervisor) (h : String) (m : Managed)
    → get string_discrete h s.units ≡ some m
    → Unheld s h
    → Inv s
    → Good s (record (with_unit s (let_go m)) { order = s.order ++ h ∷ [] })
unfolding contains
let_go-Good s h m e free inv = (
  (
    (λ j.
        ground (arith, e, inv.1 h m.decl, get-put string_discrete m.decl.id j (let_go m) s.units)),
    λ d c. c,
  ),
  (
    inv.0,
    (λ j u f. ground (
      arith,
      e,
      f,
      inv.1 h m.decl,
      inv.1 j u,
      get-put string_discrete m.decl.id j (let_go m) s.units,
    )),
    λ j u d f c. ground (
      arith,
      e,
      f,
      c,
      inv.1 h m.decl,
      inv.2 j u d,
      free u d,
      contains-append s.order (h ∷ []) j,
      get-put string_discrete m.decl.id j (let_go m) s.units,
    ),
  ),
)

All-Steady :
    (s s' : Supervisor) (hs : List String) → Steady s s' → All (Unheld s) hs → All (Unheld s') hs
All-Steady s s' [] st h = tt
All-Steady s s' (x ∷ hs) st h = (Unheld-Steady s s' x st h.0, All-Steady s s' hs st h.1)

-- A unit let go waits for nothing, and is one of those launched.
freed-Good : (s : Supervisor) (h : String) → Unheld s h → Inv s → Good s (freed s h)
freed-Good s h free inv = elim (Option-cases (get string_discrete h s.units)) [
  | inl e ↦ rw (e, freed) (Good-refl s inv)
  | inr (m, e) ↦ rw (e, freed) (let_go-Good s h m e free inv)
]

launch_all-Good :
    (r : Release) (a : String → Answers) (s : Supervisor) (hs : List String)
    → Releases r
    → All (Unheld s) hs
    → Inv s
    → Good s (launch_all r a s hs)
unfolding launch_all
launch_all-Good r a s [] rel free inv = Good-refl s inv
launch_all-Good r a s (h ∷ hs) rel free inv =
    let s1 = freed s h in
    let s2 = attempt r (a h) s1 h in
    let g1 = freed-Good s h free.0 inv in
    let g2 =
      Good-trans s s1 s2 g1
        (λ i. attempt-Good r (a h) s1 h rel (Unheld-Steady s s1 h g1.0 free.0) i) in
    Good-trans s s2 (launch_all r a s2 hs) g2
      (λ i. launch_all-Good r a s2 hs rel (All-Steady s s2 hs g2.0 free.1) i)

-- The held units that are free await nothing any more, so all that they depend on became ready.
free-Unheld :
    (s : Supervisor) (hs : List String)
    → Inv s
    → ((h : String) → contains hs h ≡ true → contains s.held h ≡ true)
    → All (Unheld s) (keep (is_free s) hs)
unfolding contains
free-Unheld s [] inv sub = tt
free-Unheld s (h ∷ hs) inv sub =
    let rest = free-Unheld s hs inv (λ x e. sub x (ground (arith, e))) in
    let here = sub h (ground arith) in
    elim (Bool-cases (is_free s h)) [
      | inl e ↦ rw e ((λ u d f c. ground (arith, e, inv.2 h u d f c, here)), rest)
      | inr e ↦ rw e rest
    ]

pub fewer-Good :
    (s : Supervisor) (p : String → Bool) → Inv s → Good s (record s { held = keep p s.held })
fewer-Good s p inv = (
  ((λ id. refl), λ d c. c),
  (inv.0, inv.1, λ id u d e c. ground (arith, inv.2 id u d e c, contains-keep p s.held id)),
)

pub release-Good : (fuel : ℕ) (a : String → Answers) → Releases (release fuel a)
unfolding release
release-Good zero a s id inv r = Good-refl s inv
release-Good (suc fuel) a s id inv r =
    let s1 = record s { units = arrived id s.held s.units } in
    let s2 = record s1 { held = keep (λ h. not (is_free s1 h)) s.held } in
    let g1 = arrived-Inv s id inv r in
    let g2 = Good-trans s s1 s2 g1 (λ i. fewer-Good s1 (λ h. not (is_free s1 h)) i) in
    Good-trans s s2 (release (suc fuel) a s id) g2 (λ i.
      launch_all-Good (release fuel a) a s2 (keep (is_free s1) s.held) (release-Good fuel a)
        (free-Unheld s1 s.held g1.1 (λ h e. e)) i)
