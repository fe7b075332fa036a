-- ===== src/Registry/Replay.antt =====
-- internal/core/registry/registry.go: the tables of authority against the history of who decided it.
use yoke.Prelude.{
  inr, inl, ℕ, ◌≡◌, refl, String, Bool, true, false, not, ◌&&◌, Option, none, some, List, [], ◌∷◌,
  if◌then◌else◌, ◌=?◌, get, get-put, string_discrete, arith, Option-cases,
}
use yoke.Registry.{
  Registry, enabled, disabled, granted, withdrawn, Decision, Declared, Registration, empty, declare,
  record_registration, set_enabled, turn, decided, grant, withdraw, is_granted, ungrant,
  null_if_empty,
}

-- Whether a plugin is enabled, as the decisions say, the newest first: as the last one to enable or
-- disable it left it, and enabled where there is none.
abbrev pub enabled_by : String → List Decision → Bool
enabled_by id [] = true
enabled_by id (d ∷ ds) =
    let rest = enabled_by id ds in
    if d.plugin =? id
    then elim d.action [ enabled ↦ true | disabled ↦ false | granted ↦ rest | withdrawn ↦ rest ]
    else rest

abbrev pub text_of : Option String → String
text_of none = ""
text_of (some s) = s

-- Whether a capability is granted, as the decisions say: as the last one to grant or withdraw it left
-- it, and not where there is none.
abbrev pub granted_by : String → String → List Decision → Bool
granted_by id c [] = false
granted_by id c (d ∷ ds) =
    let rest = granted_by id c ds in
    if d.plugin =? id && text_of d.capability =? c
    then elim d.action [ granted ↦ true | withdrawn ↦ false | enabled ↦ rest | disabled ↦ rest ]
    else rest

abbrev pub policy_of : Option Bool → Bool
policy_of none = true
policy_of (some b) = b

-- The tables say of every plugin what its history says.
pub record Replays (r : Registry) : Type 0 where
  pub policies :
      (id : String) → policy_of (get string_discrete id r.policies) ≡ enabled_by id r.decisions
  pub grants : (id c : String) → is_granted id c r.grants ≡ granted_by id c r.decisions

-- A change an operator makes, or what discovery and admission write.
pub data Change : Type 0 where
  declares : Declared → Change
  registers : String → Registration → Change
  sets : String → ℕ → String → Bool → Change
  grants withdraws : String → String → ℕ → String → Change

unfoldable pub change : Registry → Change → Registry
change r (declares d) = declare r d
change r (registers id reg) = (record_registration r id reg).0
change r (sets id now actor on) = (set_enabled r id now actor on).0
change r (grants id c now actor) = (grant r id c now actor).0
change r (withdraws id c now actor) = (withdraw r id c now actor).0

unfoldable pub changes : Registry → List Change → Registry
changes r [] = r
changes r (c ∷ cs) = changes (change r c) cs

is_granted-ungrant :
    (id c i d : String) (m : List (String × String))
    → is_granted i d (ungrant id c m) ≡ (not (id =? i && c =? d) && is_granted i d m)
unfolding is_granted ungrant ◌=?◌
is_granted-ungrant id c i d [] = ground arith
is_granted-ungrant id c i d ((j, e) ∷ m) = ground (arith, is_granted-ungrant id c i d m)

text_of-null_if_empty : (c : String) → text_of (null_if_empty c) ≡ c
unfolding ◌=?◌
text_of-null_if_empty c = ground arith

declare-Replays : (r : Registry) (d : Declared) → Replays r → Replays (declare r d)
unfolding declare
declare-Replays r d v = record {
  policies = λ id. ground (arith, v.policies id, get-put string_discrete d.id id true r.policies);
  grants = v.grants;
}

record_registration-Replays :
    (r : Registry) (id : String) (reg : Registration)
    → Replays r
    → Replays (record_registration r id reg).0
unfolding record_registration
record_registration-Replays r id reg v = elim (Option-cases (get string_discrete id r.plugins)) [
  | inl n ↦ rw (n, record_registration) v
  | inr (p, e) ↦ rw (e, record_registration) (record { policies = v.policies; grants = v.grants })
]

set_enabled-Replays :
    (r : Registry) (id : String) (now : ℕ) (actor : String) (on : Bool)
    → Replays r
    → Replays (set_enabled r id now actor on).0
unfolding set_enabled turn ◌=?◌
set_enabled-Replays r id now actor on v = record {
  policies = λ i. ground (arith, v.policies i, get-put string_discrete id i on r.policies);
  grants = λ i c. ground (arith, v.grants i c);
}

grant-Replays :
    (r : Registry) (id c : String) (now : ℕ) (actor : String)
    → Replays r
    → Replays (grant r id c now actor).0
unfolding grant decided ◌=?◌ is_granted
grant-Replays r id c now actor v = record {
  policies = λ i. ground (arith, v.policies i);
  grants = λ i d. ground (arith, v.grants i d, text_of-null_if_empty c);
}

withdraw-Replays :
    (r : Registry) (id c : String) (now : ℕ) (actor : String)
    → Replays r
    → Replays (withdraw r id c now actor).0
unfolding withdraw decided ◌=?◌
withdraw-Replays r id c now actor v = record {
  policies = λ i. ground (arith, v.policies i);
  grants = λ i d.
      ground (arith, v.grants i d, text_of-null_if_empty c, is_granted-ungrant id c i d r.grants);
}

change-Replays : (r : Registry) (c : Change) → Replays r → Replays (change r c)
unfolding change
change-Replays r (declares d) v = declare-Replays r d v
change-Replays r (registers id reg) v = record_registration-Replays r id reg v
change-Replays r (sets id now actor on) v = set_enabled-Replays r id now actor on v
change-Replays r (grants id c now actor) v = grant-Replays r id c now actor v
change-Replays r (withdraws id c now actor) v = withdraw-Replays r id c now actor v

changes-Replays : (r : Registry) (cs : List Change) → Replays r → Replays (changes r cs)
unfolding changes
changes-Replays r [] v = v
changes-Replays r (c ∷ cs) v = changes-Replays (change r c) cs (change-Replays r c v)

empty-Replays : Replays empty
unfolding get is_granted
empty-Replays = record { policies = λ id. refl; grants = λ id c. refl }

-- After any operations on an empty Registry, failed ones included, its tables say of every plugin and
-- capability exactly what replaying the recorded decisions says: a plugin is enabled unless the last
-- decision to change that disabled it, and a capability granted exactly when the last one granted it.
pub changes-empty-Replays : (cs : List Change) → Replays (changes empty cs)
changes-empty-Replays cs = changes-Replays empty cs empty-Replays
