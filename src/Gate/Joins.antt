-- ===== src/Gate/Joins.antt =====
-- internal/gate/body.go, `joins`, `resolve` and `weaker`: every reference inside one document, and the
-- arrangements that give something up. A unit of the order that is not declared is an empty one.
use yoke.Prelude.{
  ℕ, suc, String, Bool, true, false, not, ◌||◌, ◌&&◌, Option, none, some, List, [], ◌∷◌, ◌++◌,
  if◌then◌else◌, ◌=?◌, ◌==◌, get, string_discrete, sort, contains, is_some, cut_prefix,
}
use Prim.Native.Char.{code}
use yoke.Session.{digits}
use yoke.Gate.{
  Need, Body, Address, Channel, Rule, Deployment, Finding, refusing, noting, joined, key_of,
}
use yoke.Gate.Values.{keys, entries_of}
use yoke.Gate.Phases.{Checker, Phase}

-- The findings of each of some things.
abbrev pub each {ℓ} : {A : Type ℓ} → (A → List Finding) → List A → List Finding
each f [] = []
each f (x ∷ xs) = f x ++ each f xs

-- The same, with their numbers.
abbrev pub numbered {ℓ} : {A : Type ℓ} → ℕ → List A → List (ℕ × A)
numbered i [] = []
numbered i (x ∷ xs) = (i, x) ∷ numbered (suc i) xs

abbrev pub step : String → ℕ → String
step location i = joined location (digits i i)

-- The names that a text refers to: what stands between `${` and the next `}`. A text is gone through
-- from its start, and what stands inside of a reference is passed over.
unfoldable pub up_to_brace : String → Option String
up_to_brace String.[] = none
up_to_brace (String.◌∷◌ c s) = elim (code c == b'}') [
  | true ↦ some ""
  | false ↦ elim (up_to_brace s) [ none ↦ none | some t ↦ some (String.◌∷◌ c t) ]
]

abbrev pub after_brace : String → Option String
after_brace String.[] = none
after_brace (String.◌∷◌ c s) = if code c == b'{' then up_to_brace s else none

unfoldable pub scan : Bool → String → List String
unfolding up_to_brace
scan inside String.[] = []
scan inside (String.◌∷◌ c s) = elim inside [
  | true ↦ scan (not (code c == b'}')) s
  | false ↦ elim (code c == b'$') [
    | false ↦ scan false s
    | true ↦ elim (after_brace s) [ none ↦ scan false s | some name ↦ name ∷ scan true s ]
  ]
]

abbrev pub is_bound : {V : Type 0} → String → List (String × V) → Bool
is_bound k m = is_some (get string_discrete k m)

-- A parameter resolves in its own group, and then in `shared`; in a composition document none does.
unfoldable pub is_declared : Deployment → String → String → Bool
is_declared d group name =
    d.is_descriptor
    && (is_bound name (entries_of group d.parameters)
        || is_bound name (entries_of "shared" d.parameters))

abbrev pub is_materialised : Need → Bool
is_materialised n = n.class =? "secret" || n.class =? "storage"

abbrev pub secrets : List Need → List String
secrets [] = []
secrets (n ∷ ns) = if is_materialised n then key_of n ∷ secrets ns else secrets ns

-- Whether what a unit's text refers to resolves.
abbrev pub binds : Body → Option String → Bool
binds u none = false
binds u (some key) = is_bound key u.bind || (contains (secrets u.needs) key || u.kind =? "plugin")

unfoldable pub resolves : Deployment → String → Body → String → Bool
unfolding cut_prefix is_declared
resolves d name u ref = elim (cut_prefix ref "bind.") [
  | none ↦ is_declared d name ref
  | some key ↦ binds u (some key)
]

abbrev pub unresolved : String → Bool → List Finding
unresolved at resolved = if resolved then [] else refusing "substitution.unresolved" at ∷ []

abbrev pub check_text : Deployment → String → Body → String → String → List Finding
check_text d name u at text = each (λ ref. unresolved at (resolves d name u ref)) (scan false text)

abbrev pub check_args : Deployment → String → Body → List (ℕ × String) → List Finding
check_args d name u =
    each (λ x. check_text d name u (step (joined (joined "units" name) "args") x.0) x.1)

abbrev pub text_of : String → List (String × String) → String
text_of k m = elim (get string_discrete k m) [ none ↦ "" | some t ↦ t ]

abbrev pub check_map : Deployment → String → Body → String → List (String × String) → List Finding
check_map d name u block m =
    each (λ k. check_text d name u (joined (joined (joined "units" name) block) k) (text_of k m))
      (sort (keys m))

abbrev pub unbound : String → Body → Need → List Finding
unbound name u n =
    if n.class =? "device" && not (is_bound (key_of n) u.bind)
    then refusing "unit.needs.unbound" (joined (joined "units" name) "bind") ∷ []
    else []

unfoldable pub resolve_unit : Deployment → String → Body → List Finding
unfolding resolves scan
resolve_unit d name u =
    each (unbound name u) u.needs
    ++ (check_args d name u (numbered 0 u.args)
        ++ (check_map d name u "env" u.env ++ check_map d name u "bind" u.bind))

abbrev pub depends : Deployment → String → ℕ × String → List Finding
depends d name (i, dep) =
    let at = step (joined (joined "units" name) "depends_on") i in
    elim (get string_discrete dep d.units) [
      | none ↦ refusing "depends_on.unknown" at ∷ []
      | some t ↦ if t.kind =? "interface" then refusing "depends_on.interface" at ∷ [] else []
    ]

abbrev pub join_body : Deployment → String → Option Body → List Finding
join_body d name none = []
join_body d name (some u) = each (depends d name) (numbered 0 u.depends_on) ++ resolve_unit d name u

abbrev pub join_unit : Deployment → String → List Finding
join_unit d name = join_body d name (get string_discrete name d.units)

abbrev pub channel_unit : Deployment → String → String → List Finding
channel_unit d at unit = if unit =? "" then [] else elim (get string_discrete unit d.units) [
  | none ↦ refusing "channel.unit.unknown" (joined at "unit") ∷ []
  | some t ↦
      if t.kind =? "interface" then [] else refusing "channel.unit.kind" (joined at "unit") ∷ []
]

abbrev pub channel_transport : String → String → List Finding
channel_transport at transport =
    if transport =? "" || contains ("local" ∷ "http+ws" ∷ []) transport
    then []
    else refusing "channel.transport.unknown" (joined at "transport") ∷ []

abbrev pub address_security : String → Address → List Finding
address_security at a =
    if a.class =? "routable" && (a.transport =? "" || a.caller =? "")
    then refusing "channel.address.security" (joined at "address") ∷ []
    else []

abbrev pub channel_address : Deployment → String → String → Option Address → List Finding
channel_address d name at none = []
channel_address d name at (some a) =
    address_security at a
    ++ each (λ ref. unresolved (joined at "address.port") (is_declared d name ref))
        (scan false a.port)

abbrev pub join_declared : Deployment → String → Option Channel → List Finding
join_declared d name none = []
join_declared d name (some c) =
    let at = joined "channels" name in
    channel_unit d at c.unit
    ++ (channel_transport at c.transport ++ channel_address d name at c.address)

abbrev pub join_channel : Deployment → String → List Finding
join_channel d name = join_declared d name (get string_discrete name d.channels)

abbrev pub names_channel : Deployment → String → String → List Finding
names_channel d at name =
    if name =? "" || is_bound name d.channels
    then []
    else refusing "arbitration.channel.unknown" at ∷ []

abbrev pub join_rule : Deployment → ℕ × Rule → List Finding
join_rule d (i, r) =
    let at = step "arbitration" i in
    names_channel d (joined at "prevails") r.prevails
    ++ each (λ x. names_channel d (step (joined at "over") x.0) x.1) (numbered 0 r.over)

unfoldable pub joins : Deployment → List Finding
unfolding resolve_unit
joins d =
    each (join_unit d) d.order
    ++ (each (join_channel d) (sort (keys d.channels))
        ++ each (join_rule d) (numbered 0 d.arbitration))

-- A channel that is bound on the loopback address is noted.
abbrev pub loopback : String → Option Channel → List Finding
loopback name none = []
loopback name (some c) = elim (c.address) [
  | none ↦ []
  | some a ↦
      if a.class =? "loopback"
      then noting "channel.address.loopback" (joined (joined "channels" name) "address") ∷ []
      else []
]

-- The host that delegates no control group, at a start or a creation, and the engine that is not rootless.
unfoldable pub weaker_of : Deployment → Bool → Bool → List Finding
weaker_of d no_delegation rootful =
    each (λ name. loopback name (get string_discrete name d.channels)) (sort (keys d.channels))
    ++ ((if no_delegation then noting "confinement.no_cgroup_delegation" "" ∷ [] else [])
        ++ (if rootful then noting "engine.rootful" "" ∷ [] else []))

-- The two as phases, which are always given their inputs.
abbrev pub adds : (Deployment → List Finding) → Checker Deployment → Checker Deployment × Bool
adds f c =
    (record c { report = record c.report { findings = c.report.findings ++ f c.state } }, true)

abbrev pub joins_phase : Phase Deployment
joins_phase = record { name = "internal joins"; run = adds joins }

abbrev pub weaker_phase : Bool → Bool → Phase Deployment
weaker_phase no_delegation rootful = record {
  name = "weaker arrangements";
  run = adds (λ d. weaker_of d no_delegation rootful);
}
