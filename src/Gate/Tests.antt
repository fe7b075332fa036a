-- ===== src/Gate/Tests.antt =====
-- Documents and what a site supplies for them, and the theorems about the gate at them.
use yoke.Gate.Budget.{cycle-worst_case, IsDeclared}
use yoke.LogStore.Cleaning.{cycle, bytes_of, Limits}
use yoke.LogStore.Spending.{total}
use yoke.Gate.Phases.{Phase, check}
use yoke.LogStore.Settings.{override}
use yoke.LogStore.{stdout, Entry, Store}
use yoke.Gate.Stopping.{SameVerdict, IsAdding, check-unstopped}
use yoke.Gate.Joined.{adds-IsAdding}
use yoke.Gate.Joins.{joins, scan, joins_phase, weaker_phase, weaker_of}
use yoke.Prelude.{
  ◌≤◌, inr, String, ℕ, List, ◌+◌, ◌*◌, ◌^◌, ◌≡◌, true, false, none, some, [], ◌∷◌, ◌++◌, arith,
  refl, pos, negsuc, codes, get, string_discrete, ◌↔◌, All, contains,
}
use yoke.Gate.{Policy, Body, Parameter, Deployment, refusing}
use yoke.Gate.Policies.{retention_of, clamp, worst_case, Overrides, defaults, unit_policy}
use yoke.Gate.Written.{
  parse_duration, parse_size, parse_int, decimal, letter, hours, parse_duration-decimal,
}
use yoke.Gate.Values.{Host, values, entries_of}
use yoke.Gate.Settling.{values_lem}
use yoke.Gate.Expected.{Settled, expected}

-- A duration that is out of range wraps to one that is negative.
wraps_duration : parse_duration (codes "9223372037s") ≡ some (2 ^ 63 + 145224192)
unfolding parse_duration
wraps_duration = refl

wraps_size : parse_size (codes "10000000000GB") ≡ some 10000000000000000000
unfolding parse_size
wraps_size = refl

no_unit_left : parse_duration (codes "12w") ≡ none
unfolding parse_duration
no_unit_left = refl

reads_negative : parse_int (codes "-5") ≡ some (negsuc 4)
unfolding parse_int
reads_negative = refl

parse_duration-decimal_example :
    parse_duration (decimal 48 48 ++ letter hours ∷ []) ≡ some (48 * 3600000000000)
parse_duration-decimal_example = parse_duration-decimal 48 hours (omega arith)

abbrev nothing_written : Overrides
nothing_written = record {
  heartbeat_interval = none;
  tolerance = none;
  startup_window = none;
  stop_window = none;
  backoff = none;
  ceiling = none;
  stability = none;
  age = none;
  bytes = none;
  entries = none;
}

abbrev body : Policy → Body
body p = record {
  kind = "plugin";
  args = [];
  env = [];
  needs = [];
  bind = [];
  depends_on = [];
  policy = p;
}

abbrev port : Parameter
port = record {
  typ = "integer";
  range = some (pos 1, pos 9000);
  pattern = "";
  values = [];
  required = false;
  default = some "8080";
}

abbrev small : Policy
small = unit_policy (record nothing_written { bytes = some 3 }) nothing_written

abbrev deployed : Deployment
deployed = record {
  is_descriptor = true;
  parameters = ("cam", ("port", port) ∷ []) ∷ [];
  units = ("cam", body small) ∷ [];
  order = "cam" ∷ [];
  channels = [];
  arbitration = [];
  policy = defaults;
}

abbrev host : Host
host = record { matches = λ p v. true; exists = λ p. false }

default_taken : (values host deployed []).0 ≡ ("cam", ("port", "8080") ∷ []) ∷ []
unfolding values yoke.Prelude.sort get string_discrete yoke.Prelude.◌=?◌
default_taken = refl

out_of_range :
    (values host deployed (("cam", ("port", "9001") ∷ []) ∷ [])).1
    ≡ refusing "parameter.value" "parameters.cam.port" ∷ []
unfolding values yoke.Prelude.sort get string_discrete yoke.Prelude.◌=?◌ yoke.Gate.joined
out_of_range = refl

values_lem_example :
    ((g n : String)
      → get string_discrete n (entries_of g (values host deployed []).0)
        ≡ expected host deployed [] g n)
    × (((values host deployed []).1 ≡ []) ↔ ((g n : String) → Settled host deployed [] g n))
values_lem_example = values_lem host deployed []

-- A deployment with a channel of a unit that is an interface, and one with a channel of none.
abbrev served : Deployment
served = record deployed {
  units =
      ("cam", record (body small) { args = "--port=${port}" ∷ [] })
      ∷ ("web", record (body small) { kind = "interface"; depends_on = "cam" ∷ [] })
      ∷ [];
  order = "cam" ∷ "web" ∷ [];
  channels = ("front", record { unit = "web"; transport = ""; address = none }) ∷ [];
}

abbrev broken : Deployment
broken = record served {
  channels =
      (
        "front",
        record {
          unit = "cam";
          transport = "";
          address =
              some
                (record { class = "routable"; port = "${nope}"; transport = "tls"; caller = "" });
        },
      )
      ∷ [];
}

broken-joins :
    joins broken
    ≡ refusing "channel.unit.kind" "channels.front.unit"
      ∷ refusing "channel.address.security" "channels.front.address"
      ∷ refusing "substitution.unresolved" "channels.front.address.port"
      ∷ []
unfolding joins yoke.Gate.joined yoke.Prelude.◌=?◌ string_discrete get yoke.Prelude.sort
broken-joins = refl

inner_reference : scan false "${a${b}c}" ≡ "a${b" ∷ []
unfolding scan
inner_reference = refl

abbrev phases : List (Phase Deployment)
phases = joins_phase ∷ weaker_phase false true ∷ []

phases-IsAdding : All IsAdding phases
phases-IsAdding = (
  adds-IsAdding "internal joins" joins,
  (adds-IsAdding "weaker arrangements" (λ d. weaker_of d false true), tt),
)

check-unstopped_example : SameVerdict (λ d. d) phases broken
check-unstopped_example = check-unstopped (λ d. d) phases broken phases-IsAdding

not_reached : (check (λ d. d) phases broken).0.not_run ≡ "weaker arrangements" ∷ []
unfolding check joins yoke.Gate.joined yoke.Prelude.◌=?◌ string_discrete get yoke.Prelude.sort
    yoke.Gate.refused
not_reached = refl

abbrev logs : Store
logs = record {
  entries = [];
  incarnations = [];
  policies = [];
  queue = [];
  is_closed = false;
  lost = 0;
}

abbrev line : ℕ → String → Entry
line n unit = record {
  seq = n;
  at = 10 + n;
  unit = unit;
  incarnation = 1;
  source = stdout;
  severity = pos 10;
  typ = "";
  subject_kind = "";
  subject_id = "";
  actor = "";
  cause = 0;
  message = "ab";
  detail = [];
}

abbrev unlimited : Limits
unlimited = record { age = 0; bytes = 0; entries = 0 }

none_set : (name : String) → override logs name ≡ none
unfolding override get
none_set name = refl

of_cam : IsDeclared deployed.units (line 1 "cam")
unfolding contains string_discrete
of_cam = inr refl

cycle-worst_case_example :
    total bytes_of
      (cycle
        (clamp unlimited (retention_of logs (some deployed)))
        20
        0
        (line 1 "cam" ∷ line 2 "cam" ∷ [])).entries
    ≤ 50000003
unfolding worst_case get string_discrete yoke.Gate.Policies.over
cycle-worst_case_example =
    cycle-worst_case logs deployed unlimited 20 0 50000003 (line 1 "cam" ∷ line 2 "cam" ∷ [])
      none_set (refl, tt) refl (of_cam, (of_cam, tt)) (omega arith) refl
