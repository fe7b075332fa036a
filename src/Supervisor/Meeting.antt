-- ===== src/Supervisor/Meeting.antt =====
-- internal/core/supervisor/needs.go: what an expansion that meets a need holds, and goes on holding.
use Prim.Native.String.{◌++◌ as str_append}
use yoke.Supervisor.Environment.{variable}
use yoke.Prelude.{
  some, List, ◌≡◌, String, Bool, true, not, ◌||◌, [], ◌∷◌, if◌then◌else◌, ◌=?◌, contains, arith,
  ◌&&◌,
}
use yoke.Supervisor.{Need}
use yoke.Supervisor.Freeing.{contains-append}
use yoke.Supervisor.Needs.{
  has_authority, heard, x11_socket, x_server, device, wayland_socket, Host, Expansion, wayland,
  display, audio, expand_need, pipewire, pulse, has_wayland, has_x11, socket_there, wayland_vars,
  x11_vars, x11_mounts,
}

-- Whether an expansion hands a variable, and mounts a path; and whether it does of what is there.
abbrev pub hands : Expansion → String → String → String → Bool
hands x name value path = contains x.env (variable name value) && contains x.mounts path

-- Every socket of a display that is there is handed, with X11's authority where there is one, and one of
-- them is.
abbrev pub meets_wayland : Host → Expansion → Bool
meets_wayland h x =
    not (has_wayland h) || hands x "WAYLAND_DISPLAY" (wayland_socket h) (wayland_socket h)

abbrev pub meets_x11 : Host → Expansion → Bool
meets_x11 h x =
    not (has_x11 h)
    || (hands x "DISPLAY" (h.getenv "DISPLAY") (x11_socket h)
        && (not (has_authority h)
            || hands x "XAUTHORITY" (h.getenv "XAUTHORITY") (h.getenv "XAUTHORITY")))

unfoldable pub meets_display : Host → Expansion → Bool
meets_display h x = (has_wayland h || has_x11 h) && (meets_wayland h x && meets_x11 h x)

-- Every socket of sound that is there is handed, and one of them is.
abbrev pub meets_pipewire : Host → Expansion → Bool
meets_pipewire h x =
    not (socket_there h (pipewire h)) || hands x "PIPEWIRE_REMOTE" (pipewire h) (pipewire h)

abbrev pub meets_pulse : Host → Expansion → Bool
meets_pulse h x =
    not (socket_there h (pulse h))
    || hands x "PULSE_SERVER" (str_append "unix:" (pulse h)) (pulse h)

unfoldable pub meets_audio : Host → Expansion → Bool
meets_audio h x =
    (socket_there h (pipewire h) || socket_there h (pulse h))
    && (meets_pipewire h x && meets_pulse h x)

-- Whether an expansion holds what a need asks for, on a host.
unfoldable pub meets : Host → Bool → Expansion → Need → Bool
meets h contained x n =
    if n.class =? "device"
    then contains x.devices n.path
    else if n.class =? "storage"
    then contains x.mounts n.path
    else if n.class =? "display"
    then meets_display h x
    else if n.class =? "audio"
    then meets_audio h x
    else if n.class =? "network"
    then x.network
    else if n.class =? "secret"
    then h.exists n.path && (not contained || contains x.mounts n.path)
    else true

-- What an expansion holds, another holds.
abbrev pub Within : Expansion → Expansion → Type 0
Within x y =
    ((p : String) → contains x.devices p ≡ true → contains y.devices p ≡ true)
    × ((p : String) → contains x.mounts p ≡ true → contains y.mounts p ≡ true)
    × (x.network ≡ true → y.network ≡ true)
    × ((p : String) → contains x.env p ≡ true → contains y.env p ≡ true)

wayland-Within : (h : Host) (c : Bool) (x : Expansion) → Within x (wayland h c x)
unfolding wayland
wayland-Within h c x = (
  (λ p e. ground arith),
  (λ p e. ground (arith, e, contains-append x.mounts (wayland_socket h ∷ []) p)),
  (λ e. ground arith),
  λ p e. ground (arith, e, contains-append x.env (wayland_vars h c) p),
)

x_server-Within : (h : Host) (x : Expansion) → Within x (x_server h x)
unfolding x_server
x_server-Within h x = (
  (λ p e. ground arith),
  (λ p e. ground (arith, e, contains-append x.mounts (x11_mounts h) p)),
  (λ e. ground arith),
  λ p e. ground (arith, e, contains-append x.env (x11_vars h) p),
)

heard-Within :
    (h : Host) (path : String) (vars : List String) (x : Expansion) → Within x (heard h path vars x)
heard-Within h path vars x = (
  (λ p e. ground arith),
  (λ p e. ground (arith, e, contains-append x.mounts (path ∷ []) p)),
  (λ e. ground arith),
  λ p e. ground (arith, e, contains-append x.env vars p),
)

pub Within-trans : (x y z : Expansion) → Within x y → Within y z → Within x z
Within-trans x y z h k =
    ((λ p e. k.0 p (h.0 p e)), (λ p e. k.1 p (h.1 p e)), (λ e. k.2 (h.2 e)), λ p e. k.3 p (h.3 p e))

-- What hands a socket goes on handing it.
hands-Within :
    (x y : Expansion) (name value path : String)
    → Within x y
    → hands x name value path ≡ true
    → hands y name value path ≡ true
hands-Within x y name value path h e = ground (arith, e, h.1 path, h.3 (variable name value))

wayland_lem : (h : Host) (c : Bool) (x : Expansion) → meets_wayland h (wayland h c x) ≡ true
unfolding wayland contains
wayland_lem h c x =
    let v = variable "WAYLAND_DISPLAY" (wayland_socket h) in
    ground (
      arith,
      contains-append x.env (wayland_vars h c) v,
      contains-append x.mounts (wayland_socket h ∷ []) (wayland_socket h),
    )

x_server_lem : (h : Host) (x : Expansion) → meets_x11 h (x_server h x) ≡ true
unfolding x_server contains
x_server_lem h x = ground (
  arith,
  contains-append x.env (x11_vars h) (variable "DISPLAY" (h.getenv "DISPLAY")),
  contains-append x.env (x11_vars h) (variable "XAUTHORITY" (h.getenv "XAUTHORITY")),
  contains-append x.mounts (x11_mounts h) (x11_socket h),
  contains-append x.mounts (x11_mounts h) (h.getenv "XAUTHORITY"),
)

meets_wayland-Within :
    (h : Host) (x y : Expansion) → Within x y → meets_wayland h x ≡ true → meets_wayland h y ≡ true
meets_wayland-Within h x y w e =
    ground (arith, e, hands-Within x y "WAYLAND_DISPLAY" (wayland_socket h) (wayland_socket h) w)

meets_x11-Within :
    (h : Host) (x y : Expansion) → Within x y → meets_x11 h x ≡ true → meets_x11 h y ≡ true
meets_x11-Within h x y w e = ground (
  arith,
  e,
  hands-Within x y "DISPLAY" (h.getenv "DISPLAY") (x11_socket h) w,
  hands-Within x y "XAUTHORITY" (h.getenv "XAUTHORITY") (h.getenv "XAUTHORITY") w,
)

meets_pipewire-Within :
    (h : Host) (x y : Expansion)
    → Within x y
    → meets_pipewire h x ≡ true
    → meets_pipewire h y ≡ true
meets_pipewire-Within h x y w e =
    ground (arith, e, hands-Within x y "PIPEWIRE_REMOTE" (pipewire h) (pipewire h) w)

meets_pulse-Within :
    (h : Host) (x y : Expansion) → Within x y → meets_pulse h x ≡ true → meets_pulse h y ≡ true
meets_pulse-Within h x y w e =
    ground (arith, e, hands-Within x y "PULSE_SERVER" (str_append "unix:" (pulse h)) (pulse h) w)

-- A display is all handed, and nothing is lost by it.
pub display-Within :
    (h : Host) (c : Bool) (x y : Expansion)
    → display h c x ≡ some y
    → Within x y × (meets_display h y ≡ true)
unfolding display meets_display
display-Within h c x y e =
    let w = wayland h c x in
    let more = x_server-Within h w in
    let both = Within-trans x w (x_server h w) (wayland-Within h c x) more in
    let same : x_server h w ≡ y = ground (arith, e) in
    let there : (has_wayland h || has_x11 h) ≡ true = ground (arith, e) in
    rw (← same) (
      both,
      ground (
        arith,
        there,
        meets_wayland-Within h w (x_server h w) more (wayland_lem h c x),
        x_server_lem h w,
      ),
    )

heard_lem :
    (h : Host) (path name value : String) (x : Expansion)
    → socket_there h path ≡ true
    → hands (heard h path (variable name value ∷ []) x) name value path ≡ true
unfolding contains
heard_lem h path name value x e = ground (
  arith,
  e,
  contains-append x.env (variable name value ∷ []) (variable name value),
  contains-append x.mounts (path ∷ []) path,
)

pub audio-Within :
    (h : Host) (x y : Expansion) → audio h x ≡ some y → Within x y × (meets_audio h y ≡ true)
unfolding audio meets_audio
audio-Within h x y e =
    let url = str_append "unix:" (pulse h) in
    let x1 = heard h (pipewire h) (variable "PIPEWIRE_REMOTE" (pipewire h) ∷ []) x in
    let x2 = heard h (pulse h) (variable "PULSE_SERVER" url ∷ []) x1 in
    let first = heard-Within h (pipewire h) (variable "PIPEWIRE_REMOTE" (pipewire h) ∷ []) x in
    let more = heard-Within h (pulse h) (variable "PULSE_SERVER" url ∷ []) x1 in
    let same : x2 ≡ y = ground (arith, e) in
    let there : (socket_there h (pipewire h) || socket_there h (pulse h)) ≡ true =
      ground (arith, e) in
    let one : meets_pipewire h x1 ≡ true =
      ground (arith, heard_lem h (pipewire h) "PIPEWIRE_REMOTE" (pipewire h) x) in
    let two : meets_pulse h x2 ≡ true =
      ground (arith, heard_lem h (pulse h) "PULSE_SERVER" url x1) in
    rw (← same) (
      Within-trans x x1 x2 first more,
      ground (arith, there, meets_pipewire-Within h x1 x2 more one, two),
    )

pub expand_need_lem :
    (h : Host) (c : Bool) (x y : Expansion) (n : Need) (p : String)
    → expand_need h c x n ≡ some y
    → (contains x.devices p ≡ true → contains y.devices p ≡ true)
      × (contains x.mounts p ≡ true → contains y.mounts p ≡ true)
      × (x.network ≡ true → y.network ≡ true)
      × (contains x.env p ≡ true → contains y.env p ≡ true)
      × (meets h c y n ≡ true)
unfolding expand_need device meets contains
expand_need_lem h c x y n p e = ground (
  arith,
  e,
  contains-append x.devices (n.path ∷ []) p,
  contains-append x.devices (n.path ∷ []) n.path,
  contains-append x.mounts (n.path ∷ []) p,
  contains-append x.mounts (n.path ∷ []) n.path,
  λ (d : display h c x ≡ some y). (display-Within h c x y d).0.0 p,
  λ (d : display h c x ≡ some y). (display-Within h c x y d).0.1 p,
  λ (d : display h c x ≡ some y). (display-Within h c x y d).0.2,
  λ (d : display h c x ≡ some y). (display-Within h c x y d).0.3 p,
  λ (d : display h c x ≡ some y). (display-Within h c x y d).1,
  λ (d : audio h x ≡ some y). (audio-Within h x y d).0.0 p,
  λ (d : audio h x ≡ some y). (audio-Within h x y d).0.1 p,
  λ (d : audio h x ≡ some y). (audio-Within h x y d).0.2,
  λ (d : audio h x ≡ some y). (audio-Within h x y d).0.3 p,
  λ (d : audio h x ≡ some y). (audio-Within h x y d).1,
)

meets_display-Within :
    (h : Host) (x y : Expansion) → Within x y → meets_display h x ≡ true → meets_display h y ≡ true
unfolding meets_display
meets_display-Within h x y w e =
    ground (arith, e, meets_wayland-Within h x y w, meets_x11-Within h x y w)

meets_audio-Within :
    (h : Host) (x y : Expansion) → Within x y → meets_audio h x ≡ true → meets_audio h y ≡ true
unfolding meets_audio
meets_audio-Within h x y w e =
    ground (arith, e, meets_pipewire-Within h x y w, meets_pulse-Within h x y w)

pub meets-Within :
    (h : Host) (c : Bool) (x y : Expansion) (n : Need)
    → Within x y
    → meets h c x n ≡ true
    → meets h c y n ≡ true
unfolding meets
meets-Within h c x y n w e = ground (
  arith,
  e,
  w.0 n.path,
  w.1 n.path,
  w.2,
  meets_display-Within h x y w,
  meets_audio-Within h x y w,
)
