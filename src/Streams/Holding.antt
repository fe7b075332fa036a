-- ===== src/Streams/Holding.antt =====
-- internal/core/interfaces/delivery.go, `deliveries`: what one attachment holds, each by its identity with
-- what releases it, which is the number of a feed. A Go map is gone through in any order, so the order in
-- which an attachment's identities are dropped is an argument.
use mathlib.Core.List.{append-nil, append_assoc}
use native.Mathlib.Decide.{ℕ_discrete}
use yoke.Prelude.{
  ◌≢◌, if◌then◌else◌, ℕ, ◌≡◌, Bool, true, false, none, some, List, [], ◌∷◌, get, put, delete, arith,
  refl, get-delete, ◌==◌, ◌+◌, ◌||◌, Option-cases, inl, inr, ap, ◌∙◌, ◌++◌,
}
use yoke.Streams.{Service, Key, feed, stop_feed, next_subscriber}

pub record Deliveries : Type 0 where
  pub held : List (ℕ × ℕ)
  pub released : List ℕ

abbrev pub nothing_held : Deliveries
nothing_held = record { held = []; released = [] }

unfoldable pub add : Deliveries → ℕ → ℕ → Deliveries
add d id release = record d { held = put ℕ_discrete id release d.held }

unfoldable pub drop : Deliveries → ℕ → Deliveries × Bool
drop d id = elim (get ℕ_discrete id d.held) [
  | none ↦ (d, false)
  | some release ↦
      (record { held = delete ℕ_discrete id d.held; released = release ∷ d.released }, true)
]

unfoldable pub drop_each : Deliveries → List ℕ → Deliveries
unfolding drop
drop_each d [] = d
drop_each d (id ∷ ids) = drop_each (drop d id).0 ids

-- An order goes through every identity that is held.
abbrev pub has_identity : ℕ → List ℕ → Bool
has_identity id [] = false
has_identity id (j ∷ ids) = j == id || has_identity id ids

abbrev pub Covers : List ℕ → List (ℕ × ℕ) → Type 0
Covers order [] = Unit
Covers order ((id, release) ∷ m) = (has_identity id order ≡ true) × Covers order m

-- `all`, in an order that covers what is held. The lock is taken for each drop alone, so others may come
-- between: they are in the order too.
abbrev pub all : Deliveries → List ℕ → Deliveries
all d order = drop_each d order

-- An attachment, with the service that its deliveries are fed by.
pub record Attachment : Type 0 where
  pub service : Service
  pub deliveries : Deliveries

-- A subscription is known by the next identity of its stream, and released by stopping its feed.
unfoldable pub subscribe : Attachment → Key → Attachment
unfolding add next_subscriber feed
subscribe a k =
    let (s, n) = next_subscriber a.service k in
    let (s', f) = feed s k in record { service = s'; deliveries = add a.deliveries n f }

abbrev pub stop_feeds : Service → List ℕ → Service
stop_feeds s [] = s
stop_feeds s (n ∷ ns) = stop_feeds (stop_feed s n) ns

unfoldable pub detach : Attachment → List ℕ → Attachment
unfolding drop_each
detach a order =
    let d = all a.deliveries order in
    record { service = stop_feeds a.service d.released; deliveries = d }

-- Some deliveries are added, in turn.
unfoldable pub adds : Deliveries → List (ℕ × ℕ) → Deliveries
unfolding add
adds d [] = d
adds d ((id, release) ∷ m) = adds (add d id release) m

-- No two have one identity.
abbrev pub Distinct : List (ℕ × ℕ) → Type 0
Distinct [] = Unit
Distinct ((id, release) ∷ m) = (get ℕ_discrete id m ≡ none) × Distinct m

delete-absent :
    (id : ℕ) (m : List (ℕ × ℕ)) → get ℕ_discrete id m ≡ none → delete ℕ_discrete id m ≡ m
unfolding get delete
delete-absent id [] h = refl
delete-absent id ((j, r) ∷ m) h = ground (arith, h, delete-absent id m)

-- How many of some deliveries are released by a number, and how often that was done.
abbrev pub released_by : ℕ → List (ℕ × ℕ) → ℕ
released_by r [] = 0
released_by r ((id, release) ∷ m) = (if release == r then 1 else 0) + released_by r m

abbrev pub times : ℕ → List ℕ → ℕ
times r [] = 0
times r (n ∷ ns) = (if n == r then 1 else 0) + times r ns

put-absent :
    (id release : ℕ) (m : List (ℕ × ℕ))
    → get ℕ_discrete id m ≡ none
    → put ℕ_discrete id release m ≡ m ++ (id, release) ∷ []
unfolding get put
put-absent id release [] h = refl
put-absent id release ((j, r) ∷ m) h = ground (arith, h, put-absent id release m)

-- An identity that is absent from some is none of theirs.
absent-ne : (id j r : ℕ) (m n : List (ℕ × ℕ)) → get ℕ_discrete id (m ++ (j, r) ∷ n) ≡ none → j ≢ id
unfolding get
absent-ne id j r [] n h = ground (arith, h)
absent-ne id j r ((i, q) ∷ m) n h = absent-ne id j r m n (ground (arith, h))

Distinct-absent :
    (id r : ℕ) (m n : List (ℕ × ℕ)) → Distinct (m ++ (id, r) ∷ n) → get ℕ_discrete id m ≡ none
unfolding get
Distinct-absent id r [] n h = refl
Distinct-absent id r ((j, q) ∷ m) n h =
    ground (arith, absent-ne j id r m n h.0, Distinct-absent id r m n h.1)

adds-held :
    (m n : List (ℕ × ℕ)) (ns : List ℕ)
    → Distinct (m ++ n)
    → adds (record { held = m; released = ns }) n ≡ record { held = m ++ n; released = ns }
unfolding adds
adds-held m [] ns h = rw (append-nil m) refl
adds-held m ((id, r) ∷ n) ns h =
    let one : List (ℕ × ℕ) = (id, r) ∷ [] in
    rw (put-absent id r m (Distinct-absent id r m n h)) (
      rw (← append_assoc m one n)
        (adds-held (m ++ (id, r) ∷ []) n ns (rw (append_assoc m ((id, r) ∷ []) n) h)))

released_by-delete :
    (r id release : ℕ) (m : List (ℕ × ℕ))
    → Distinct m
    → get ℕ_discrete id m ≡ some release
    → released_by r m ≡ (if release == r then 1 else 0) + released_by r (delete ℕ_discrete id m)
unfolding get delete
released_by-delete r id release [] d h = absurd (ground (arith, h))
released_by-delete r id release ((j, q) ∷ m) d h = ground (
  arith,
  d.0,
  h,
  released_by-delete r id release m d.1,
  λ (e : j ≡ id). delete-absent id m (rw (← e) d.0),
)

Distinct-delete : (id : ℕ) (m : List (ℕ × ℕ)) → Distinct m → Distinct (delete ℕ_discrete id m)
unfolding delete
Distinct-delete id [] d = tt
Distinct-delete id ((j, q) ∷ m) d =
    ground (arith, d.0, Distinct-delete id m d.1, get-delete ℕ_discrete id j m)

drop-held : (d : Deliveries) (id : ℕ) → (drop d id).0.held ≡ delete ℕ_discrete id d.held
unfolding drop
drop-held d id = elim (Option-cases (get ℕ_discrete id d.held)) [
  | inl e ↦ ground (arith, e, delete-absent id d.held e)
  | inr (r, e) ↦ ground (arith, e)
]

-- What is held by a number, and what was released by it, come to the same after a drop.
drop-kept :
    (r id : ℕ) (d : Deliveries)
    → Distinct d.held
    → released_by r (drop d id).0.held + times r (drop d id).0.released
      ≡ released_by r d.held + times r d.released
unfolding drop
drop-kept r id d h = elim (Option-cases (get ℕ_discrete id d.held)) [
  | inl e ↦ ground (arith, e)
  | inr (q, e) ↦ ground (arith, e, released_by-delete r id q d.held h e)
]

Covers-delete :
    (id : ℕ) (order : List ℕ) (m : List (ℕ × ℕ))
    → Covers (id ∷ order) m
    → Covers order (delete ℕ_discrete id m)
unfolding delete
Covers-delete id order [] c = tt
Covers-delete id order ((j, q) ∷ m) c = ground (arith, c.0, Covers-delete id order m c.1)

Covers-nil : (m : List (ℕ × ℕ)) → Covers [] m → m ≡ []
Covers-nil [] c = refl
Covers-nil ((j, q) ∷ m) c = absurd (ground (arith, c.0))

drop_each-released :
    (order : List ℕ) (d : Deliveries)
    → Distinct d.held
    → Covers order d.held
    → ((drop_each d order).held ≡ [])
      × ((r : ℕ) → times r (drop_each d order).released ≡ released_by r d.held + times r d.released)
unfolding drop_each
drop_each-released [] d h c =
    (Covers-nil d.held c, λ r. ground (arith, ap (released_by r) (Covers-nil d.held c)))
drop_each-released (id ∷ order) d h c =
    let same = drop-held d id in
    let rest =
      drop_each-released order (drop d id).0 (rw same (Distinct-delete id d.held h))
        (rw same (Covers-delete id order d.held c)) in
    (rest.0, λ r. rest.1 r ∙ drop-kept r id d h)

-- An attachment that is left holds nothing, and each of its deliveries was released once, in whatever
-- order they are dropped and whoever drops some of them meanwhile: as long as no two of them have the same
-- identity, and the order goes through each that is held.
pub all-adds :
    (m : List (ℕ × ℕ)) (order : List ℕ)
    → Distinct m
    → Covers order m
    → ((all (adds nothing_held m) order).held ≡ [])
      × ((r : ℕ) → times r (all (adds nothing_held m) order).released ≡ released_by r m)
all-adds m order h c =
    let same = adds-held [] m [] h in
    rw same (
      let rest = drop_each-released order (record { held = m; released = [] }) h c in
      (rest.0, λ r. rest.1 r ∙ omega arith))
