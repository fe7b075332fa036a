-- ===== src/Supervisor/Expanding.antt =====
-- internal/core/supervisor/needs.go: what a launch's needs expand to holds what each of them asks for.
use mathlib.Core.List.{append_assoc, append-nil}
use yoke.Prelude.{
  inr, inl, string_discrete, =?→≡, false, some, List, ◌≡◌, String, Bool, true, ◌||◌, [], ◌∷◌,
  if◌then◌else◌, ◌=?◌, arith, ◌++◌, refl, Option-cases, All,
}
use mathlib.Core.List.{append-nil}
use yoke.Supervisor.{Need}
use yoke.Supervisor.Needs.{
  nothing, expand, expand_from, x_server, device, Host, Expansion, wayland, display, audio,
  expand_need,
}
use yoke.Supervisor.Meeting.{Within, meets, Within-trans, expand_need_lem, meets-Within}

-- What a list of needs asks for by name: its devices, and the network.
unfoldable pub devices_asked : List Need → List String
devices_asked [] = []
devices_asked (n ∷ ns) = (if n.class =? "device" then n.path ∷ [] else []) ++ devices_asked ns

unfoldable pub network_asked : List Need → Bool
network_asked [] = false
network_asked (n ∷ ns) = n.class =? "network" || network_asked ns

abbrev Opened : Expansion → Expansion → List Need → Type 0
Opened x y ns =
    (y.devices ≡ x.devices ++ devices_asked ns) × (y.network ≡ (x.network || network_asked ns))

abbrev Same : Expansion → Expansion → Type 0
Same x y = (y.devices ≡ x.devices) × (y.network ≡ x.network)

wayland-Same : (h : Host) (c : Bool) (x : Expansion) → Same x (wayland h c x)
unfolding wayland
wayland-Same h c x = ground arith

x_server-Same : (h : Host) (x : Expansion) → Same x (x_server h x)
unfolding x_server
x_server-Same h x = ground arith

display-Same : (h : Host) (c : Bool) (x y : Expansion) → display h c x ≡ some y → Same x y
unfolding display
display-Same h c x y e = ground (arith, e, wayland-Same h c x, x_server-Same h (wayland h c x))

audio-Same : (h : Host) (x y : Expansion) → audio h x ≡ some y → Same x y
unfolding audio
audio-Same h x y e = ground (arith, e)

-- A class that is the network is none of the others.
network_only :
    (c : String)
    → (c =? "network") ≡ true
    → ((c =? "device") ≡ false)
      × ((c =? "storage") ≡ false)
      × ((c =? "display") ≡ false)
      × ((c =? "audio") ≡ false)
unfolding ◌=?◌ string_discrete
network_only c e = rw (=?→≡ c "network" e) (refl, refl, refl, refl)

expand_need-Opened :
    (h : Host) (c : Bool) (x y : Expansion) (n : Need)
    → expand_need h c x n ≡ some y
    → Opened x y (n ∷ [])
unfolding expand_need device devices_asked network_asked
expand_need-Opened h c x y n e = ground (
  arith,
  e,
  append-nil x.devices,
  λ (k : (n.class =? "network") ≡ true). network_only n.class k,
  λ (d : display h c x ≡ some y). display-Same h c x y d,
  λ (d : audio h x ≡ some y). audio-Same h x y d,
)

expand_from-Opened :
    (h : Host) (c : Bool) (x y : Expansion) (ns : List Need)
    → expand_from h c x ns ≡ some y
    → Opened x y ns
unfolding expand_from devices_asked network_asked
expand_from-Opened h c x y [] e = ground (arith, e, append-nil x.devices)
expand_from-Opened h c x y (n ∷ ns) e = elim (Option-cases (expand_need h c x n)) [
  | inl e1 ↦ absurd (ground (arith, e, e1))
  | inr (z, e1) ↦
      let one = expand_need-Opened h c x z n e1 in
      let rest = expand_from-Opened h c z y ns (ground (arith, e, e1)) in
      ground (
        arith,
        one,
        rest,
        append_assoc x.devices (devices_asked (n ∷ [])) (devices_asked ns),
        append-nil (devices_asked (n ∷ [])),
      )
]

expand_need-Within :
    (h : Host) (c : Bool) (x y : Expansion) (n : Need) → expand_need h c x n ≡ some y → Within x y
expand_need-Within h c x y n e = (
  (λ p. (expand_need_lem h c x y n p e).0),
  (λ p. (expand_need_lem h c x y n p e).1),
  (expand_need_lem h c x y n "" e).2,
  λ p. (expand_need_lem h c x y n p e).3,
)

expand_from-Met :
    (h : Host) (c : Bool) (x y : Expansion) (ns : List Need)
    → expand_from h c x ns ≡ some y
    → Within x y × All (λ n. meets h c y n ≡ true) ns
unfolding expand_from
expand_from-Met h c x y [] e =
    let same : x ≡ y = ground (arith, e) in
    rw (← same) (((λ p k. k), (λ p k. k), (λ k. k), λ p k. k), tt)
expand_from-Met h c x y (n ∷ ns) e = elim (Option-cases (expand_need h c x n)) [
  | inl e1 ↦ absurd (ground (arith, e, e1))
  | inr (z, e1) ↦
      let rest = expand_from-Met h c z y ns (ground (arith, e, e1)) in
      (
        Within-trans x z y (expand_need-Within h c x z n e1) rest.0,
        (meets-Within h c z y n rest.0 (expand_need_lem h c x z n "" e1).4, rest.1),
      )
]

-- Where a launch's needs are all expanded, the expansion holds what each of them asks for: the path of a
-- device, of a directory of storage, of a secret that is there where the unit is contained, and the
-- network; of a display and of audio, the variable and the mount of every socket that is there, of which
-- there is one at least, and of X11's authority. And it opens no more: its devices are those asked for,
-- in their order, and it has the network only if asked.
pub expand-Met :
    (h : Host) (c : Bool) (x : Expansion) (ns : List Need)
    → expand h c ns ≡ some x
    → All (λ n. meets h c x n ≡ true) ns
      × (x.devices ≡ devices_asked ns)
      × (x.network ≡ network_asked ns)
expand-Met h c x ns e = (
  (expand_from-Met h c nothing x ns e).1,
  (expand_from-Opened h c nothing x ns e).0,
  (expand_from-Opened h c nothing x ns e).1,
)
