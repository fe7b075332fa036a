-- ===== src/Registry/Deciding.antt =====
-- internal/core/registry/registry.go: what an operator's change answers, and what it records.
use yoke.Prelude.{
  ap, ℕ, suc, ◌≡◌, refl, ◌≢◌, ◌⊎◌, inl, inr, String, Bool, true, is_some, ◌∷◌, get, string_discrete,
  Option-cases, Bool-cases,
}
use yoke.Registry.{
  withdrawing, granting, setting, action_of, same_flag, within, null_if_empty, Registry, Action,
  granted, withdrawn, Decision, Result, ok, set_enabled, turn, decided, grant, withdraw, is_granted,
  largest,
}

-- The three changes that an operator makes to a plugin's authority.
pub data Order : Type 0 where
  sets : Bool → Order
  grants withdraws : String → Order

unfoldable pub operate : Registry → String → ℕ → String → Order → Registry × Result Bool
operate r id now actor (sets on) = set_enabled r id now actor on
operate r id now actor (grants c) = grant r id c now actor
operate r id now actor (withdraws c) = withdraw r id c now actor

-- What an order did: one decision more, or nothing at all.
abbrev pub Accounted : Registry → String → ℕ → String → Registry × Result Bool → Type 0
Accounted r id now actor (s, res) =
    ((res ≡ ok true)
      × (d : Decision) × (s.decisions ≡ d ∷ r.decisions)
      × (d.plugin ≡ id)
      × (d.actor ≡ actor)
      × (d.at ≡ now)
      × (d.seq ≡ suc (largest r.decisions)))
    ⊎ ((s ≡ r) × (res ≢ ok true))

-- The row that a decision leaves.
abbrev row : Registry → String → ℕ → String → Action → String → Decision
row r id now actor a c = record {
  seq = suc (largest r.decisions);
  plugin = id;
  at = now;
  actor = actor;
  action = a;
  capability = null_if_empty c;
}

-- A transaction whose last statement records a decision, on tables whose decisions it has not touched.
decided-Accounted :
    (r t : Registry) (id : String) (now : ℕ) (actor : String) (a : Action) (c : String)
    → t.decisions ≡ r.decisions
    → Accounted r id now actor (within (λ _. decided t id now actor a c) r)
unfolding decided
decided-Accounted r t id now actor a c h =
    elim (Bool-cases (is_some (get string_discrete id t.plugins))) [
      | inl k ↦
          rw (k, decided)
            (inl (
              refl,
              row t id now actor a c,
              ap (λ ds. row t id now actor a c ∷ ds) h,
              refl,
              refl,
              refl,
              ap (λ ds. suc (largest ds)) h,
            ))
      | inr n ↦ rw (n, decided) (inr (refl, λ e. cc))
    ]

setting-Accounted :
    (r : Registry) (id : String) (now : ℕ) (actor : String) (on : Bool)
    → Accounted r id now actor (within (setting id now actor on) r)
unfolding setting turn
setting-Accounted r id now actor on = elim (Option-cases (get string_discrete id r.policies)) [
  | inl n ↦ rw (n, within, setting) (inr (refl, λ e. cc))
  | inr (b, e) ↦ elim (Bool-cases (same_flag b on)) [
    | inl s ↦ rw (e, within, setting, s) (inr (refl, λ p. cc))
    | inr d ↦ rw (e, within, setting, d) (decided-Accounted r _ id now actor (action_of on) "" refl)
  ]
]

granting-Accounted :
    (r : Registry) (id c : String) (now : ℕ) (actor : String)
    → Accounted r id now actor (within (granting id c now actor) r)
unfolding granting
granting-Accounted r id c now actor = elim (Bool-cases (is_granted id c r.grants)) [
  | inl g ↦ rw (g, within, granting) (inr (refl, λ p. cc))
  | inr n ↦ elim (Bool-cases (is_some (get string_discrete id r.policies))) [
    | inl k ↦ rw (n, within, granting, k) (decided-Accounted r _ id now actor granted c refl)
    | inr u ↦ rw (n, within, granting, u) (inr (refl, λ p. cc))
  ]
]

withdrawing-Accounted :
    (r : Registry) (id c : String) (now : ℕ) (actor : String)
    → Accounted r id now actor (within (withdrawing id c now actor) r)
unfolding withdrawing
withdrawing-Accounted r id c now actor = elim (Bool-cases (is_granted id c r.grants)) [
  | inl g ↦ rw (g, within, withdrawing) (decided-Accounted r _ id now actor withdrawn c refl)
  | inr n ↦ rw (n, within, withdrawing) (inr (refl, λ p. cc))
]

-- An order answers that it changed something exactly when it recorded one decision, of that plugin, by
-- that actor, at that time and under a new number; in every other case, errors included, the Registry
-- is left as it was.
pub operate-Accounted :
    (r : Registry) (id : String) (now : ℕ) (actor : String) (o : Order)
    → Accounted r id now actor (operate r id now actor o)
unfolding operate set_enabled grant withdraw
operate-Accounted r id now actor (sets on) = setting-Accounted r id now actor on
operate-Accounted r id now actor (grants c) = granting-Accounted r id c now actor
operate-Accounted r id now actor (withdraws c) = withdrawing-Accounted r id c now actor
