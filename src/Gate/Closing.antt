-- ===== src/Gate/Closing.antt =====
-- internal/gate/body.go, `joins`: a document in which every reference has what it names.
use yoke.Prelude.{
  ◌≡◌, ◌≢◌, ◌⊎◌, String, true, false, none, some, get, string_discrete, All, contains, [], ◌∷◌,
}
use yoke.Gate.{Need, Body, Address, Channel, Deployment, key_of}
use yoke.Gate.Values.{keys}
use yoke.Gate.Joins.{scan, resolves, text_of, is_bound, is_declared}

-- A unit that is declared, and is no interface.
abbrev pub IsDependable : Deployment → String → Type 0
IsDependable d dep =
    (t : Body) × (get string_discrete dep d.units ≡ some t) × (t.kind ≢ "interface")

-- Every reference of a text resolves.
abbrev pub Resolves : Deployment → String → Body → String → Type 0
Resolves d name u text = All (λ ref. resolves d name u ref ≡ true) (scan false text)

abbrev pub IsBound : Body → Need → Type 0
IsBound u n = (n.class ≢ "device") ⊎ (is_bound (key_of n) u.bind ≡ true)

abbrev pub ClosedUnit : Deployment → String → Type 0
ClosedUnit d name =
    (get string_discrete name d.units ≡ none)
    ⊎ ((u : Body) × (get string_discrete name d.units ≡ some u)
        × All (IsDependable d) u.depends_on
        × All (IsBound u) u.needs
        × All (Resolves d name u) u.args
        × All (λ k. Resolves d name u (text_of k u.env)) (keys u.env)
        × All (λ k. Resolves d name u (text_of k u.bind)) (keys u.bind))

-- What a channel of a unit is of, what it is carried by, and what one on an address states, whose port
-- refers to the channel's parameters or the shared ones.
abbrev pub IsTransport : String → Type 0
IsTransport transport = (transport ≡ "") ⊎ (contains ("local" ∷ "http+ws" ∷ []) transport ≡ true)

abbrev pub ClosedAddress : Deployment → String → Address → Type 0
ClosedAddress d name a =
    ((a.class ≢ "routable") ⊎ ((a.transport ≢ "") × (a.caller ≢ "")))
    × All (λ ref. is_declared d name ref ≡ true) (scan false a.port)

abbrev pub ClosedChannel : Deployment → String → Channel → Type 0
ClosedChannel d name c =
    ((c.unit ≡ "")
      ⊎ ((t : Body) × (get string_discrete c.unit d.units ≡ some t) × (t.kind ≡ "interface")))
    × IsTransport c.transport
    × ((c.address ≡ none) ⊎ ((a : Address) × (c.address ≡ some a) × ClosedAddress d name a))

abbrev pub IsChannel : Deployment → String → Type 0
IsChannel d name = (name ≡ "") ⊎ (is_bound name d.channels ≡ true)

abbrev pub ClosedName : Deployment → String → Type 0
ClosedName d name =
    (get string_discrete name d.channels ≡ none)
    ⊎ ((c : Channel) × (get string_discrete name d.channels ≡ some c) × ClosedChannel d name c)

abbrev pub Closed : Deployment → Type 0
Closed d =
    All (ClosedUnit d) d.order
    × All (ClosedName d) (keys d.channels)
    × All (λ r. IsChannel d r.prevails × All (IsChannel d) r.over) d.arbitration
