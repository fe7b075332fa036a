-- ===== src/Registry/Declaring.antt =====
-- internal/core/registry/registry.go: nothing removes a plugin, and what was declared is found.
use yoke.Prelude.{
  ◌∙◌, get-put_self, inr, inl, ◌≡◌, refl, String, true, is_some, List, [], ◌∷◌, get, get-put,
  string_discrete, arith, Option-cases,
}
use yoke.Registry.{
  bootstrap, upserted, Registry, Declared, Registration, empty, declare, record_registration,
  set_enabled, turn, decided, grant, withdraw, plugin,
}
use yoke.Registry.Replay.{Change, declares, registers, sets, grants, withdraws, change, changes}

-- A plugin stands in one of the three tables exactly when it stands in the others.
abbrev pub Joined : Registry → String → Type 0
Joined r id =
    (is_some (get string_discrete id r.plugins) ≡ is_some (get string_discrete id r.policies))
    × (is_some (get string_discrete id r.plugins) ≡ is_some (get string_discrete id r.credentials))

-- The plugins that are there, and no fewer than there were.
abbrev pub Grows : Registry → Registry → String → Type 0
Grows r s id =
    is_some (get string_discrete id r.plugins) ≡ true
    → is_some (get string_discrete id s.plugins) ≡ true

registers-Joined :
    (r : Registry) (i : String) (reg : Registration) (id : String)
    → Joined r id
    → Joined (record_registration r i reg).0 id × Grows r (record_registration r i reg).0 id
unfolding record_registration
registers-Joined r i reg id h = elim (Option-cases (get string_discrete i r.plugins)) [
  | inl n ↦ rw (n, record_registration) (h, λ g. g)
  | inr (p, e) ↦
      rw (e, record_registration)
        (ground (
          arith,
          get-put string_discrete i id
              (record p { version = reg.version; language = reg.language; sdk = reg.sdk })
              r.plugins,
        ))
]

change-Joined :
    (r : Registry) (c : Change) (id : String)
    → Joined r id
    → Joined (change r c) id × Grows r (change r c) id
unfolding change declare record_registration set_enabled turn grant withdraw decided
change-Joined r (declares d) id h = ground (
  arith,
  get-put string_discrete d.id id (upserted (get string_discrete d.id r.plugins) d) r.plugins,
  get-put string_discrete d.id id true r.policies,
  get-put string_discrete d.id id bootstrap r.credentials,
)
change-Joined r (registers i reg) id h = registers-Joined r i reg id h
change-Joined r (sets i now actor on) id h =
    ground (arith, get-put string_discrete i id on r.policies)
change-Joined r (grants i c now actor) id h = ground arith
change-Joined r (withdraws i c now actor) id h = ground arith

changes-Joined :
    (r : Registry) (cs : List Change) (id : String)
    → Joined r id
    → Joined (changes r cs) id × Grows r (changes r cs) id
unfolding changes
changes-Joined r [] id h = (h, λ g. g)
changes-Joined r (c ∷ cs) id h =
    let (j, g) = change-Joined r c id h in
    let (k, f) = changes-Joined (change r c) cs id j in (k, λ p. f (g p))

plugin-Joined :
    (r : Registry) (id : String)
    → Joined r id
    → is_some (plugin r id) ≡ is_some (get string_discrete id r.plugins)
unfolding plugin
plugin-Joined r id h = ground arith

empty-Joined : (id : String) → Joined empty id
unfolding get
empty-Joined id = (refl, refl)

declares-Joined :
    (r : Registry) (d : Declared)
    → Joined r d.id
    → Joined (declare r d) d.id × (is_some (get string_discrete d.id (declare r d).plugins) ≡ true)
unfolding declare
declares-Joined r d h = ground (
  arith,
  get-put_self string_discrete d.id (upserted (get string_discrete d.id r.plugins) d) r.plugins,
  get-put_self string_discrete d.id true r.policies,
  get-put_self string_discrete d.id bootstrap r.credentials,
)

-- From an empty Registry, once a plugin is declared it is found by its identity after any operations
-- that follow, whatever came before.
plugin-declare :
    (before after : List Change) (d : Declared)
    → is_some (plugin (changes (declare (changes empty before) d) after) d.id) ≡ true
plugin-declare before after d =
    let held = (changes-Joined empty before d.id (empty-Joined d.id)).0 in
    let joined = declares-Joined (changes empty before) d held in
    let (still, grown) = changes-Joined (declare (changes empty before) d) after d.id joined.0 in
    plugin-Joined (changes (declare (changes empty before) d) after) d.id still ∙ grown joined.1
