-- ===== src/LogStore/Cycles.antt =====
-- internal/core/logstore/cleaner.go, `Cycle`: every group is within its limits once it has run.
use yoke.Prelude.{
  suc, ℕ, ◌-◌, ◌≡◌, ◌≢◌, ◌<◌, ◌≤◌, String, true, false, List, [], ◌∷◌, =?→≡, ltb, leb, keep, arith,
  refl, All, contains, Bool-cases, inl, inr, ap, sym, ◌∙◌, string_discrete, ◌⊎◌, zero,
}
use yoke.LogStore.{Entry}
use yoke.LogStore.Cleaning.{
  in_group, bytes_of, clean, clean_all, Limits, group_of, groups, cycle, core_group, is_negative,
}
use yoke.LogStore.Spending.{
  total, newest, one, young, mine, others, within, not_old, clean_lem, fitting,
}

total-newest : (w v : Entry → ℕ) (n : ℕ) (es : List Entry) → total v (newest w n es) ≤ total v es
unfolding newest
total-newest w v n [] = omega arith
total-newest w v n (e ∷ es) = ground (arith, total-newest w v n es)

newest-le : (w : Entry → ℕ) (n : ℕ) (es : List Entry) → total w (newest w n es) ≤ n
unfolding newest
newest-le w n [] = omega arith
newest-le w n (e ∷ es) = ground (arith, newest-le w n es)

abbrev IsYoung : ℕ → Entry → Type 0
IsYoung t e = t ≤ e.at

newest-All :
    (w : Entry → ℕ) (n t : ℕ) (es : List Entry)
    → All (IsYoung t) es
    → All (IsYoung t) (newest w n es)
unfolding newest
newest-All w n t [] h = tt
newest-All w n t (e ∷ es) h = elim (Bool-cases (leb (total w (e ∷ es)) n)) [
  | inl k ↦ rw k h
  | inr k ↦ rw k (newest-All w n t es h.1)
]

keep-All : (t : ℕ) (es : List Entry) → All (IsYoung t) (keep (young t) es)
keep-All t [] = tt
keep-All t (e ∷ es) = elim (Bool-cases (ltb e.at t)) [
  | inl k ↦ rw k (keep-All t es)
  | inr k ↦ rw k (ground (arith, k), keep-All t es)
]

fitting-All :
    (w : Entry → ℕ) (n t : ℕ) (es : List Entry)
    → All (IsYoung t) es
    → All (IsYoung t) (fitting w n es)
fitting-All w n t es h = elim (Bool-cases (is_negative n)) [
  | inl k ↦ rw k tt
  | inr k ↦ rw k (newest-All w n t es h)
]

-- A group's entries are within its limits.
abbrev pub Spent : Limits → ℕ → List Entry → Type 0
Spent l now es =
    ((l.bytes ≡ 0) ⊎ (total bytes_of es ≤ l.bytes))
    × ((l.entries ≡ 0) ⊎ (total one es ≤ l.entries))
    × ((l.age ≡ 0) ⊎ All (IsYoung (now - l.age)) es)

within-All :
    (w : Entry → ℕ) (n t : ℕ) (es : List Entry)
    → All (IsYoung t) es
    → All (IsYoung t) (within w n es)
within-All w n t es h = elim (Bool-cases (ltb 0 n)) [
  | inl k ↦ rw k (fitting-All w n t es h)
  | inr k ↦ rw k h
]

not_old-All :
    (l : Limits) (now : ℕ) (es : List Entry)
    → 0 < l.age
    → All (IsYoung (now - l.age)) (not_old l now es)
not_old-All l now es h =
    let on : ltb 0 l.age ≡ true = ground (arith, h) in rw on (keep-All (now - l.age) es)

zero_or : (n : ℕ) → (n ≡ 0) ⊎ (0 < n)
zero_or zero = inl refl
zero_or (suc n) = inr (omega arith)

clean-Spent :
    (g : String) (l : Limits) (now : ℕ) (es : List Entry)
    → Spent l now (mine g (clean g l now es).0)
clean-Spent g l now es =
    let a = not_old l now (mine g es) in
    let b = within bytes_of l.bytes a in
    rw (clean_lem g l now es).1 (
      (ground (arith, newest-le bytes_of l.bytes a, total-newest one bytes_of l.entries b)),
      (ground (arith, newest-le one l.entries b)),
      elim (zero_or l.age) [
        | inl z ↦ inl z
        | inr h ↦ inr (
            within-All one l.entries (now - l.age) b
              (within-All bytes_of l.bytes (now - l.age) a (not_old-All l now (mine g es) h)))
      ],
    )

group_of-in_group : (g : String) (e : Entry) → in_group g e ≡ true → group_of e ≡ g
unfolding in_group
group_of-in_group g e h = ground (arith, h, =?→≡ g core_group, =?→≡ e.unit g)

mine-others : (g h : String) (es : List Entry) → h ≢ g → mine g (others h es) ≡ mine g es
mine-others g h [] n = refl
mine-others g h (e ∷ es) n =
    ground (arith, n, mine-others g h es n, group_of-in_group g e, group_of-in_group h e)

-- A clean of one group leaves every other as it was.
mine-clean :
    (g h : String) (l : Limits) (now : ℕ) (es : List Entry)
    → h ≢ g
    → mine g (clean h l now es).0 ≡ mine g es
mine-clean g h l now es n =
    sym (mine-others g h (clean h l now es).0 n)
    ∙ (ap (mine g) (clean_lem h l now es).0 ∙ mine-others g h es n)

clean_all-kept :
    (policy : String → Limits) (now : ℕ) (g : String) (gs : List String) (es : List Entry)
    → Spent (policy g) now (mine g es)
    → Spent (policy g) now (mine g (clean_all policy now gs es).0)
unfolding clean_all
clean_all-kept policy now g [] es h = h
clean_all-kept policy now g (x ∷ gs) es h =
    let es1 = (clean x (policy x) now es).0 in
    clean_all-kept policy now g gs es1 (elim (string_discrete x g) [
      | yes e ↦ rw e (clean-Spent g (policy g) now es)
      | no n ↦ rw (mine-clean g x (policy x) now es n) h
    ])

clean_all-Spent :
    (policy : String → Limits) (now : ℕ) (g : String) (gs : List String) (es : List Entry)
    → contains gs g ≡ true
    → Spent (policy g) now (mine g (clean_all policy now gs es).0)
unfolding clean_all contains
clean_all-Spent policy now g [] es h = absurd (ground (arith, h))
clean_all-Spent policy now g (x ∷ gs) es h =
    let es1 = (clean x (policy x) now es).0 in
    elim (string_discrete x g) [
      | yes e ↦ clean_all-kept policy now g gs es1 (rw e (clean-Spent g (policy g) now es))
      | no n ↦ clean_all-Spent policy now g gs es1 (ground (arith, h, n))
    ]

mine-groups : (g : String) (es : List Entry) → contains (groups es) g ≡ false → mine g es ≡ []
unfolding contains
mine-groups g [] h = refl
mine-groups g (e ∷ es) h = ground (arith, h, mine-groups g es, group_of-in_group g e)

pub cycle-clean_all :
    (policy : String → Limits) (now since : ℕ) (es : List Entry)
    → (cycle policy now since es).entries ≡ (clean_all policy now (groups es) es).0
unfolding cycle
cycle-clean_all policy now since es = ground arith

-- Once a cycle has run, the entries of any group are within its limits of that cycle: the bytes and the
-- number that it may hold, and the age, each where it is not zero.
pub cycle-Spent :
    (policy : String → Limits) (now since : ℕ) (es : List Entry) (g : String)
    → Spent (policy g) now (mine g (cycle policy now since es).entries)
cycle-Spent policy now since es g =
    rw (cycle-clean_all policy now since es) (elim (Bool-cases (contains (groups es) g)) [
      | inl h ↦ clean_all-Spent policy now g (groups es) es h
      | inr h ↦
          clean_all-kept policy now g (groups es) es
            (rw (mine-groups g es h) (inr (omega arith), inr (omega arith), inr tt))
    ])
