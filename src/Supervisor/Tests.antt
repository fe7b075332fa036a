-- ===== src/Supervisor/Tests.antt =====
-- A recorder that depends on a camera and on a oneshot that formats its disk, and the theorems about
-- the supervisor at it.
use yoke.Supervisor.Speaking.{turns-flush}
use yoke.Supervisor.Expanding.{expand-Met, network_asked, devices_asked}
use yoke.Supervisor.Meeting.{meets}
use yoke.Supervisor.Needs.{Host, expand, Expansion}
use yoke.Supervisor.Starting.{Distinct}
use yoke.Supervisor.Observing.{become_observable_lem, machine_of, is_marked}
use yoke.Supervisor.Lines.{
  opens, held_until_opened, writes, output, Turn, flush, all_lines, open_writer, turns,
}
use yoke.Prelude.{
  if◌then◌else◌, ◌||◌, ◌≢◌, some, All, contains, arith, ◌≡◌, refl, ◌^◌, ◌-◌, ◌*◌, String, true,
  false, none, List, [], ◌∷◌, pos, ◌≤◌, ◌=?◌,
}
use yoke.Lifecycle.{admission_accepted, Machine, Kind, session_opened}
use yoke.Supervisor.{container, Need, host, Policy, Declared, Supervisor}
use yoke.Supervisor.Attempt.{is_quiet, Answers, release}
use yoke.Supervisor.Backoff.{backoff_wait}
use yoke.Supervisor.Steps.{
  become_observable, go_quiet, container_started, start, no_units, ended, input,
}
use yoke.Supervisor.Fuel.{size, release_enough}
use yoke.Supervisor.Order.{unit, Dependable}
use yoke.Supervisor.Lives.{
  quiets, box_starts, Reachable, starts, exits, receives, reachable-Dependable,
}

abbrev policy : Policy
policy = record {
  startup_window = 30;
  stop_window = 10;
  backoff = 4;
  ceiling = 60;
  stability_window = 300;
}

fourth_wait : backoff_wait policy 4 ≡ 32
unfolding backoff_wait
fourth_wait = refl

sixth_wait : backoff_wait policy 6 ≡ 60
unfolding backoff_wait
sixth_wait = refl

abbrev a_unit : String → Kind → String → List String → Declared
a_unit id kind image depends_on = record {
  id = id;
  kind = kind;
  plugin = id;
  exec = id;
  image = image;
  digest = "";
  env = [];
  restart_on_failure = true;
  depends_on = depends_on;
  policy = none;
  channel = "";
  needs = [];
  skipped = none;
}

abbrev camera : Declared
camera = a_unit "camera" Kind.plugin "" []

abbrev disk : Declared
disk = a_unit "disk" Kind.oneshot "" []

abbrev recorder : Declared
recorder = a_unit "recorder" Kind.plugin "recorder:1" ("camera" ∷ "disk" ∷ [])

abbrev answers : String → Answers
answers id = record {
  is_disabled = false;
  directory = none;
  needs = none;
  has_engine = true;
  opened = none;
  unread = none;
  digest = "";
  unstarted = none;
  pid = 700;
  token = "t";
  number = 1;
  now = 5;
}

abbrev units : List Declared
units = camera ∷ disk ∷ recorder ∷ []

abbrev started : Supervisor
started = start 1 answers (no_units policy "/run/yoke") units

-- The recorder is held until the camera's Session is open and the disk's process exited zero.
one_held : started.held ≡ "recorder" ∷ []
unfolding start yoke.Prelude.get yoke.Prelude.put yoke.Prelude.string_discrete yoke.Prelude.◌=?◌
    yoke.Lifecycle.apply yoke.Lifecycle.new_machine yoke.Lifecycle.State-discrete
    yoke.Supervisor.ready
one_held = refl

abbrev formatted : Supervisor
formatted = ended 6 answers started "disk" 1 (pos 0)

abbrev accepted : Supervisor
accepted = input 6 answers formatted "camera" admission_accepted

abbrev seen : Supervisor
seen = input 7 answers accepted "camera" session_opened

still_held : formatted.held ≡ "recorder" ∷ []
unfolding ended yoke.Prelude.get start yoke.Prelude.put yoke.Prelude.string_discrete
    yoke.Prelude.◌=?◌ yoke.Lifecycle.apply yoke.Lifecycle.new_machine yoke.Lifecycle.State-discrete
    yoke.Supervisor.ready
still_held = refl

launched_order : seen.order ≡ "camera" ∷ "disk" ∷ "recorder" ∷ []
unfolding input yoke.Prelude.get ended start yoke.Prelude.put yoke.Prelude.string_discrete
    yoke.Prelude.◌=?◌ yoke.Lifecycle.apply yoke.Lifecycle.new_machine yoke.Lifecycle.State-discrete
    yoke.Supervisor.ready yoke.Lifecycle.restarts
launched_order = refl

units-Distinct : Distinct units
unfolding contains yoke.Prelude.string_discrete
units-Distinct = (refl, (refl, (refl, tt)))

formatted-Reachable : Reachable formatted
formatted-Reachable =
    exits 6 answers "disk" 1 (pos 0) (starts 1 answers policy "/run/yoke" units units-Distinct)

launched-Reachable : Reachable seen
launched-Reachable =
    receives 7 answers "camera" session_opened
      (receives 6 answers "camera" admission_accepted formatted-Reachable)

reachable-Dependable_example : Dependable seen.told
reachable-Dependable_example = reachable-Dependable launched-Reachable

few_held : size started ≤ 1
few_held = rw one_held (omega arith)

release_enough_example : release 2 answers started "disk" ≡ release 1 answers started "disk"
release_enough_example = release_enough 1 answers started "disk" few_held

-- The container of the recorder runs when the host's source of facts goes quiet, and the engine as well.
abbrev boxed : Supervisor
boxed = container_started 9 answers seen "recorder" 1 "box"

boxed-Reachable : Reachable boxed
boxed-Reachable = box_starts 9 answers "recorder" 1 "box" launched-Reachable

abbrev quiet : Supervisor
quiet = go_quiet (go_quiet boxed container 20) host 21

quiet-Reachable : Reachable quiet
quiet-Reachable = quiets host 21 (quiets container 20 boxed-Reachable)

recorder_quiet_order : contains quiet.order "recorder" ≡ true
unfolding contains go_quiet yoke.Prelude.get container_started input ended start yoke.Prelude.put
    yoke.Prelude.string_discrete yoke.Prelude.◌=?◌ yoke.Lifecycle.apply yoke.Lifecycle.new_machine
    yoke.Lifecycle.State-discrete yoke.Supervisor.ready yoke.Lifecycle.restarts
    yoke.Supervisor.Backend-discrete
recorder_quiet_order = refl

host_quiet : is_quiet quiet host ≡ true
unfolding yoke.Prelude.get go_quiet container_started input ended start yoke.Prelude.put
    yoke.Prelude.string_discrete yoke.Prelude.◌=?◌ yoke.Lifecycle.apply yoke.Lifecycle.new_machine
    yoke.Lifecycle.State-discrete yoke.Supervisor.ready yoke.Lifecycle.restarts
    yoke.Supervisor.Backend-discrete
host_quiet = refl

-- The recorder's container cannot be observed, and after the host is observable again it carries no
-- condition that says so.
recorder_marked : is_marked (unit quiet "recorder") ≡ true
unfolding yoke.Prelude.get go_quiet container_started input ended start yoke.Prelude.put
    yoke.Prelude.string_discrete yoke.Prelude.◌=?◌ yoke.Lifecycle.apply yoke.Lifecycle.new_machine
    yoke.Lifecycle.State-discrete yoke.Supervisor.ready yoke.Lifecycle.restarts
    yoke.Supervisor.Backend-discrete
recorder_marked = refl

recorder_unmarked : is_marked (unit (become_observable quiet host) "recorder") ≡ false
unfolding yoke.Prelude.get become_observable go_quiet container_started input ended start
    yoke.Prelude.put yoke.Prelude.string_discrete yoke.Prelude.◌=?◌ yoke.Lifecycle.apply
    yoke.Lifecycle.new_machine yoke.Lifecycle.State-discrete yoke.Supervisor.ready
    yoke.Lifecycle.restarts yoke.Supervisor.Backend-discrete
recorder_unmarked = refl

backends_differ : host ≢ container
backends_differ e = ground (arith, e)

become_observable_lem_example :
    (machine_of (unit (become_observable quiet host) "recorder")
      ≡ machine_of (unit quiet "recorder"))
    × (is_quiet (become_observable quiet host) container ≡ is_quiet quiet container)
    × (is_marked (unit (become_observable quiet host) "recorder") ≡ false)
become_observable_lem_example =
    become_observable_lem host container "recorder" quiet-Reachable host_quiet backends_differ
      recorder_quiet_order

-- Two lines in three pieces, with the incarnation opened between them, and a third without a newline.
abbrev pieces : List Turn
pieces = writes (b'o' ∷ b'n' ∷ []) ∷ writes (10 ∷ b't' ∷ []) ∷ opens ∷ writes (10 ∷ b'x' ∷ []) ∷ []

three_lines : all_lines (output pieces) ≡ (b'o' ∷ b'n' ∷ []) ∷ (b't' ∷ []) ∷ (b'x' ∷ []) ∷ []
unfolding yoke.Supervisor.Lines.split
three_lines = refl

turns-flush_example :
    (open_writer (flush (turns held_until_opened pieces))).emitted ≡ all_lines (output pieces)
turns-flush_example = turns-flush pieces

abbrev a_host : Host
a_host = record {
  getenv = λ name. if name =? "WAYLAND_DISPLAY" then "wayland-0" else "";
  exists = λ path. path =? "wayland-0";
  can_make = λ path. true;
  device_of = λ path. some (432, 44);
  is_member = λ gid. true;
  x11 = "/tmp/.X11-unix";
}

abbrev asked : List Need
asked =
    record { class = "device"; path = "/dev/video0" }
    ∷ record { class = "storage"; path = "/var/lib/clips" }
    ∷ record { class = "display"; path = "" }
    ∷ []

abbrev got : Expansion
got = record {
  env = "WAYLAND_DISPLAY=wayland-0" ∷ [];
  devices = "/dev/video0" ∷ [];
  mounts = "/var/lib/clips" ∷ "wayland-0" ∷ [];
  groups = 44 ∷ [];
  network = false;
}

asked_got : expand a_host true asked ≡ some got
unfolding yoke.Supervisor.Needs.expand_from yoke.Prelude.◌=?◌ yoke.Prelude.string_discrete
asked_got = refl

expand-Met_example :
    All (λ n. meets a_host true got n ≡ true) asked
    × (got.devices ≡ devices_asked asked)
    × (got.network ≡ network_asked asked)
expand-Met_example = expand-Met a_host true got asked asked_got
