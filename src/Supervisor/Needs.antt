-- ===== src/Supervisor/Needs.antt =====
-- internal/core/supervisor/needs.go: a unit's needs, expanded for one launch. What the host answers is a
-- record of functions: the Core's environment, which paths exist, which directories can be made, and a
-- device's mode and group.
use yoke.Prelude.{
  ℕ, String, Bool, true, false, not, ◌&&◌, ◌||◌, Option, none, some, List, [], ◌∷◌, ◌++◌,
  if◌then◌else◌, ◌=?◌, cut_prefix,
}
use Prim.Native.Nat.{bit_and}
use Prim.Native.String.{◌++◌ as str_append}
use yoke.Prelude.{◌==◌}
use yoke.Supervisor.{Need}
use yoke.Supervisor.Environment.{variable, join_path}

pub record Host : Type 0 where
  pub getenv : String → String
  pub exists : String → Bool
  pub can_make : String → Bool
  pub device_of : String → Option (ℕ × ℕ)
  pub is_member : ℕ → Bool
  pub x11 : String

pub record Expansion : Type 0 where
  pub env : List String
  pub devices : List String
  pub mounts : List String
  pub groups : List ℕ
  pub network : Bool

abbrev pub nothing : Expansion
nothing = record { env = []; devices = []; mounts = []; groups = []; network = false }

-- `filepath.IsAbs`, and what the texts of the environment are cut at.
abbrev pub is_abs : String → Bool
is_abs String.[] = false
is_abs (String.◌∷◌ c s) = Prim.Native.Char.code c == b'/'

abbrev pub after_colon : String → Option String
after_colon String.[] = none
after_colon (String.◌∷◌ c s) = if Prim.Native.Char.code c == b':' then some s else none

unfoldable pub before_dot : String → String
before_dot String.[] = ""
before_dot (String.◌∷◌ c s) =
    let rest = before_dot s in if Prim.Native.Char.code c == b'.' then "" else String.◌∷◌ c rest

-- A device that is there, and the group that owns it where it is the account's way in.
unfoldable pub device : Host → Expansion → String → Option Expansion
device h x path = elim (h.device_of path) [
  | none ↦ none
  | some st ↦ some (record x {
    devices = x.devices ++ path ∷ [];
    groups =
        if not (bit_and st.0 6 == 6) && h.is_member st.1 then x.groups ++ st.1 ∷ [] else x.groups;
  })
]

-- A directory of the environment joined with a name, where an empty one adds nothing. Directories and names
-- are clean, as the instance's root is.
abbrev pub join_to : String → String → String
join_to root name = if root =? "" then name else join_path root name

abbrev pub wayland_socket : Host → String
wayland_socket h =
    if is_abs (h.getenv "WAYLAND_DISPLAY")
    then h.getenv "WAYLAND_DISPLAY"
    else join_to (h.getenv "XDG_RUNTIME_DIR") (h.getenv "WAYLAND_DISPLAY")

abbrev pub has_wayland : Host → Bool
has_wayland h = not (h.getenv "WAYLAND_DISPLAY" =? "") && h.exists (wayland_socket h)

abbrev pub wayland_vars : Host → Bool → List String
wayland_vars h contained =
    variable "WAYLAND_DISPLAY" (wayland_socket h)
    ∷ (if not (h.getenv "XDG_RUNTIME_DIR" =? "") && not contained
        then variable "XDG_RUNTIME_DIR" (h.getenv "XDG_RUNTIME_DIR") ∷ []
        else [])

unfoldable pub wayland : Host → Bool → Expansion → Expansion
wayland h contained x =
    if has_wayland h
    then record x {
      env = x.env ++ wayland_vars h contained;
      mounts = x.mounts ++ wayland_socket h ∷ [];
    }
    else x

abbrev pub x11_number : Host → String
x11_number h = elim (after_colon (h.getenv "DISPLAY")) [ none ↦ "" | some s ↦ before_dot s ]

abbrev pub x11_socket : Host → String
x11_socket h = join_path h.x11 (str_append "X" (x11_number h))

abbrev pub has_x11 : Host → Bool
has_x11 h = not (x11_number h =? "") && h.exists (x11_socket h)

abbrev pub has_authority : Host → Bool
has_authority h = not (h.getenv "XAUTHORITY" =? "") && h.exists (h.getenv "XAUTHORITY")

abbrev pub x11_vars : Host → List String
x11_vars h =
    variable "DISPLAY" (h.getenv "DISPLAY")
    ∷ (if has_authority h then variable "XAUTHORITY" (h.getenv "XAUTHORITY") ∷ [] else [])

abbrev pub x11_mounts : Host → List String
x11_mounts h = x11_socket h ∷ (if has_authority h then h.getenv "XAUTHORITY" ∷ [] else [])

unfoldable pub x_server : Host → Expansion → Expansion
unfolding before_dot
x_server h x =
    if has_x11 h
    then record x { env = x.env ++ x11_vars h; mounts = x.mounts ++ x11_mounts h }
    else x

-- Either display is enough, and neither is a fault.
unfoldable pub display : Host → Bool → Expansion → Option Expansion
unfolding wayland x_server
display h contained x =
    if has_wayland h || has_x11 h then some (x_server h (wayland h contained x)) else none

abbrev pub pipewire : Host → String
pipewire h =
    if not (is_abs (h.getenv "PIPEWIRE_REMOTE")) && not (h.getenv "XDG_RUNTIME_DIR" =? "")
    then join_path (h.getenv "XDG_RUNTIME_DIR") "pipewire-0"
    else h.getenv "PIPEWIRE_REMOTE"

-- PulseAudio's socket; `CutPrefix` hands back the whole text where the prefix is not there.
abbrev pub pulse : Host → String
pulse h = elim (cut_prefix (h.getenv "PULSE_SERVER") "unix:") [
  | some path ↦ path
  | none ↦
      if h.getenv "XDG_RUNTIME_DIR" =? ""
      then h.getenv "PULSE_SERVER"
      else join_path (h.getenv "XDG_RUNTIME_DIR") "pulse/native"
]

abbrev pub socket_there : Host → String → Bool
socket_there h path = is_abs path && h.exists path

abbrev pub heard : Host → String → List String → Expansion → Expansion
heard h path vars x =
    if socket_there h path
    then record x { env = x.env ++ vars; mounts = x.mounts ++ path ∷ [] }
    else x

unfoldable pub audio : Host → Expansion → Option Expansion
unfolding cut_prefix
audio h x =
    if socket_there h (pipewire h) || socket_there h (pulse h)
    then some (
        heard h (pulse h) (variable "PULSE_SERVER" (str_append "unix:" (pulse h)) ∷ [])
          (heard h (pipewire h) (variable "PIPEWIRE_REMOTE" (pipewire h) ∷ []) x))
    else none

-- One need; a class that is none of these asks for nothing.
unfoldable pub expand_need : Host → Bool → Expansion → Need → Option Expansion
unfolding device display audio
expand_need h contained x n =
    if n.class =? "device"
    then device h x n.path
    else if n.class =? "storage"
    then (if h.can_make n.path then some (record x { mounts = x.mounts ++ n.path ∷ [] }) else none)
    else if n.class =? "display"
    then display h contained x
    else if n.class =? "audio"
    then audio h x
    else if n.class =? "network"
    then some (record x { network = true })
    else if n.class =? "secret"
    then (if h.exists n.path
        then some (if contained then record x { mounts = x.mounts ++ n.path ∷ [] } else x)
        else none)
    else some x

unfoldable pub expand_from : Host → Bool → Expansion → List Need → Option Expansion
unfolding expand_need
expand_from h contained x [] = some x
expand_from h contained x (n ∷ ns) = elim (expand_need h contained x n) [
  | none ↦ none
  | some x' ↦ expand_from h contained x' ns
]

-- The first need that cannot be expanded fails the launch.
abbrev pub expand : Host → Bool → List Need → Option Expansion
expand h contained ns = expand_from h contained nothing ns
