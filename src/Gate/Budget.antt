-- ===== src/Gate/Budget.antt =====
-- internal/gate/body.go, `WorstCase`, and what a cycle of internal/core/logstore/cleaner.go leaves.
use yoke.LogStore.Cycles.{cycle-clean_all, cycle-Spent, Spent}
use yoke.LogStore.Settings.{override}
use yoke.LogStore.Spending.{mine, total}
use yoke.Gate.{Deployment, Body}
use yoke.Gate.Policies.{limits, clamp, retention_of, bytes_limits, worst_case, lower, summed}
use yoke.Prelude.{
  if◌then◌else◌, ◌=?◌, inr, ◌-◌, inl, ◌≢◌, ltb, none, ◌≤◌, ◌%◌, Bool-cases, true, some,
  string_discrete, ◌⊎◌, ◌^◌, ◌≡◌, get, ◌<◌, contains, ◌+◌, ℕ, String, List, [], ◌∷◌, All, arith,
}
use yoke.LogStore.{Store, Entry}
use yoke.LogStore.Cleaning.{
  groups, cycle, by_bytes, core_group, bytes_of, by_age, Limits, clean, in_group, clean_all,
  spend_age, spend_bytes, spend_entries,
}

module _ (P : Entry → Type 0) where
  spend_age-All : (g : String) (t : ℕ) (es : List Entry) → All P es → All P (spend_age g t es)
  unfolding spend_age
  spend_age-All g t [] h = tt
  spend_age-All g t (e ∷ es) h = ground (arith, h, spend_age-All g t es h.1)

  spend_bytes-All : (g : String) (n : ℕ) (es : List Entry) → All P es → All P (spend_bytes g n es)
  unfolding spend_bytes
  spend_bytes-All g n [] h = tt
  spend_bytes-All g n (e ∷ es) h = ground (arith, h, spend_bytes-All g n es h.1)

  spend_entries-All :
      (g : String) (n : ℕ) (es : List Entry) → All P es → All P (spend_entries g n es)
  unfolding spend_entries
  spend_entries-All g n [] h = tt
  spend_entries-All g n (e ∷ es) h = ground (arith, h, spend_entries-All g n es h.1)

  clean-All :
      (g : String) (l : Limits) (now : ℕ) (es : List Entry) → All P es → All P (clean g l now es).0
  unfolding clean
  clean-All g l now es h =
      let a : All P (by_age g l now es) = elim (Bool-cases (ltb 0 l.age)) [
        | inl k ↦ rw k (spend_age-All g (now - l.age) es h)
        | inr k ↦ rw k h
      ] in
      let b : All P (by_bytes g l (by_age g l now es)) = elim (Bool-cases (ltb 0 l.bytes)) [
        | inl k ↦ rw k (spend_bytes-All g l.bytes (by_age g l now es) a)
        | inr k ↦ rw k a
      ] in
      elim (Bool-cases (ltb 0 l.entries)) [
        | inl k ↦ rw k (spend_entries-All g l.entries (by_bytes g l (by_age g l now es)) b)
        | inr k ↦ rw k b
      ]

  clean_all-All :
      (policy : String → Limits) (now : ℕ) (gs : List String) (es : List Entry)
      → All P es
      → All P (clean_all policy now gs es).0
  unfolding clean_all
  clean_all-All policy now [] es h = h
  clean_all-All policy now (g ∷ gs) es h =
      clean_all-All policy now gs (clean g (policy g) now es).0 (clean-All g (policy g) now es h)

abbrev names : List (String × Body) → List String
names [] = []
names ((name, u) ∷ us) = name ∷ names us

-- An entry of no unit, or of one that is declared.
abbrev pub IsDeclared : List (String × Body) → Entry → Type 0
IsDeclared us e = (e.unit ≡ "") ⊎ (contains (names us) e.unit ≡ true)

-- The bytes of the entries of each of some units.
abbrev of_units : List (String × Body) → List Entry → ℕ
of_units [] es = 0
of_units ((name, u) ∷ us) es = total bytes_of (mine name es) + of_units us es

abbrev pub plain : List ℕ → ℕ
plain [] = 0
plain (l ∷ ls) = l + plain ls

total-mine :
    (g : String) (e : Entry) (es : List Entry)
    → total bytes_of (mine g (e ∷ es))
      ≡ (if in_group g e then bytes_of e else 0) + total bytes_of (mine g es)
total-mine g e es = ground arith

in_group_self :
    (g : String) (e : Entry) → g ≢ core_group → e.unit ≢ "" → g ≡ e.unit → in_group g e ≡ true
unfolding in_group ◌=?◌
in_group_self g e n m h = ground (arith, n, m, h)

in_core : (e : Entry) → e.unit ≡ "" → in_group core_group e ≡ true
unfolding in_group ◌=?◌
in_core e h = ground (arith, h)

of_units-cons :
    (us : List (String × Body)) (e : Entry) (es : List Entry)
    → get string_discrete core_group us ≡ none
    → (of_units us es ≤ of_units us (e ∷ es))
      × (contains (names us) e.unit ≡ true
          → e.unit ≢ ""
          → of_units us es + bytes_of e ≤ of_units us (e ∷ es))
unfolding contains get
of_units-cons [] e es c = ground arith
of_units-cons ((name, u) ∷ us) e es c =
    ground (arith, c, total-mine name e es, in_group_self name e, of_units-cons us e es)

-- The entries are those of no unit and those of the units.
total-of_units :
    (us : List (String × Body)) (es : List Entry)
    → get string_discrete core_group us ≡ none
    → All (IsDeclared us) es
    → total bytes_of es ≤ total bytes_of (mine core_group es) + of_units us es
total-of_units us [] c h = omega arith
total-of_units us (e ∷ es) c h =
    let rest = total-of_units us es c h.1 in
    let more = of_units-cons us e es c in
    elim (string_discrete e.unit "") [
      | yes k ↦ ground (arith, rest, more.0, total-mine core_group e es, in_core e k)
      | no k ↦ ground (arith, rest, h.0, k, more, total-mine core_group e es)
    ]

-- Where no sum passes 64 bits, the worst case is the plain sum, of limits that are positive.
summed_lem :
    (ls : List ℕ) (bytes b : ℕ)
    → bytes + plain ls < 2 ^ 64
    → summed bytes ls ≡ some b
    → (b ≡ bytes + plain ls) × All (λ l. 0 < l) ls
unfolding summed
summed_lem [] bytes b k h = (ground (arith, h), tt)
summed_lem (l ∷ ls) bytes b k h = ground (arith, k, h, summed_lem ls ((bytes + l) % 2 ^ 64) b)

within_lower : (c l t : ℕ) → 0 < l → (lower c l ≡ 0) ⊎ (t ≤ lower c l) → t ≤ l
within_lower c l t h k = ground (arith, h, k)

-- One entry to a name.
abbrev pub IsOne : List (String × Body) → String × Body → Type 0
IsOne us x = get string_discrete x.0 us ≡ some x.1

module _ (s : Store) (d : Deployment) (none_set : (name : String) → override s name ≡ none) where
  retention_of-unit :
      (g : String) (u : Body)
      → get string_discrete g d.units ≡ some u
      → retention_of s (some d) g ≡ limits u.policy
  unfolding retention_of
  retention_of-unit g u h = ground (arith, h, none_set g)

  retention_of-core :
      get string_discrete core_group d.units ≡ none
      → retention_of s (some d) core_group ≡ limits d.policy
  unfolding retention_of
  retention_of-core h = ground (arith, h, none_set core_group)

  -- What a group's entries come to where its limit is positive.
  fits :
      (c : Limits) (now : ℕ) (g : String) (l : Limits) (es : List Entry)
      → retention_of s (some d) g ≡ l
      → 0 < l.bytes
      → Spent (clamp c (retention_of s (some d)) g) now (mine g es)
      → total bytes_of (mine g es) ≤ l.bytes
  unfolding clamp
  fits c now g l es e h k =
      within_lower c.bytes l.bytes (total bytes_of (mine g es)) h (ground (arith, e, k.0))

  of_units-le :
      (c : Limits) (now : ℕ) (es : List Entry) (us : List (String × Body))
      → All (IsOne d.units) us
      → All (λ l. 0 < l) (bytes_limits us)
      → ((g : String) → Spent (clamp c (retention_of s (some d)) g) now (mine g es))
      → of_units us es ≤ plain (bytes_limits us)
  of_units-le c now es [] one above spent = omega arith
  of_units-le c now es ((name, u) ∷ us) one above spent = omega (
    arith,
    of_units-le c now es us one.1 above.1 spent,
    fits c now name (limits u.policy) es (retention_of-unit name u one.0) above.0 (spent name),
  )

-- The log store of a deployment whose worst case is bounded holds no more bytes of messages and details
-- than that, once a cycle has run, whatever ceiling the host sets: as long as no unit's retention is
-- overridden, each unit has one entry and none is named as the group of the Core, the entries are of
-- declared units or of none, and the sum of the limits is below 2^64.
pub cycle-worst_case :
    (s : Store) (d : Deployment) (c : Limits) (now since b : ℕ) (es : List Entry)
    → ((name : String) → override s name ≡ none)
    → All (IsOne d.units) d.units
    → get string_discrete core_group d.units ≡ none
    → All (IsDeclared d.units) es
    → plain (d.policy.retention_bytes ∷ bytes_limits d.units) < 2 ^ 64
    → worst_case d ≡ some b
    → total bytes_of (cycle (clamp c (retention_of s (some d))) now since es).entries ≤ b
unfolding worst_case
cycle-worst_case s d c now since b es none_set one no_core of_declared small h =
    let policy = clamp c (retention_of s (some d)) in
    let left = (cycle policy now since es).entries in
    let spent : (g : String) → Spent (policy g) now (mine g left) =
      cycle-Spent policy now since es in
    let sum =
      summed_lem (d.policy.retention_bytes ∷ bytes_limits d.units) 0 b (omega (arith, small)) h in
    let still : All (IsDeclared d.units) left =
      rw (cycle-clean_all policy now since es)
        (clean_all-All (IsDeclared d.units) policy now (groups es) es of_declared) in
    omega (
      arith,
      sum.0,
      total-of_units d.units left no_core still,
      fits s d none_set c now core_group (limits d.policy) left
          (retention_of-core s d none_set no_core) sum.1.0 (spent core_group),
      of_units-le s d none_set c now left d.units one sum.1.1 spent,
    )
