-- ===== src/Session/Opening.antt =====
-- internal/core/session/session.go, `opening`, `Of`, `Revoke`, `Forget`: the Sessions of the service.
-- What admission issued for an identity, `Lookup`, is an argument.
use yoke.Prelude.{
  ℕ, ◌≡◌, refl, ◌≤◌, ◌+◌, ◌⊎◌, String, Bool, true, false, not, ◌&&◌, ◌||◌, Option, none, some,
  is_some, List, [], ◌∷◌, if◌then◌else◌, ◌=?◌, contains, arith, get, put, string_discrete,
}
use yoke.Lifecycle.{session_opened}
use yoke.Session.{Admitted, Envelope, Payload, open_message, Live, Effect, observes, window}
use yoke.Session.Sending.{Step, perform}

pub record Service : Type 0 where
  pub sessions : List (String × Live)
  pub opened : List String
  pub used : List String

abbrev pub no_sessions : Service
no_sessions = record { sessions = []; opened = []; used = [] }

abbrev pub is_open_message : Option Payload → Bool
is_open_message (some open_message) = true
is_open_message _ = false

abbrev pub opened_live : ℕ → Envelope → Admitted → Live
opened_live now e a = record {
  id = e.session;
  terms = a;
  out = [];
  is_done = false;
  seen = e.message ∷ [];
  sent = [];
  exchanges = [];
  next = 0;
  timer = some (now + window a);
  is_ended = false;
  is_lost = false;
  condition = none;
}

-- A first envelope: the service after it, the Session it opens, and what the machine is told.
unfoldable pub opening :
    ℕ → Service → Envelope → Option Admitted → Service × Option Live × List Effect
opening now s e issued =
    if not (is_open_message e.payload) || e.message =? "" then (s, none, []) else elim issued [
      | none ↦ (s, none, [])
      | some a ↦ if contains s.used e.session then (s, none, []) else (
        record {
          sessions = put string_discrete e.session (opened_live now e a) s.sessions;
          opened = e.session ∷ s.opened;
          used = e.session ∷ s.used;
        },
        some (opened_live now e a),
        observes a.unit session_opened ∷ [],
      )
    ]

unfoldable pub without : String → List String → List String
without id [] = []
without id (i ∷ is) = let rest = without id is in if i =? id then rest else i ∷ rest

-- A step of one Session: one that it ends is open no more.
unfoldable pub step_session : Service → String → Step → Service × List Effect
unfolding perform without
step_session s id step = elim (get string_discrete id s.sessions) [
  | none ↦ (s, [])
  | some l ↦
      let r = perform l step in
      (
        record s {
          sessions = put string_discrete id r.0 s.sessions;
          opened = if r.0.is_ended then without id s.opened else s.opened;
        },
        r.1,
      )
]

abbrev pub is_held_by : String → Option Live → Bool
is_held_by unit none = false
is_held_by unit (some l) = l.terms.unit =? unit && not l.is_ended

-- The open Session of a unit.
unfoldable pub session_of : Service → String → List String → Option String
session_of s unit [] = none
session_of s unit (id ∷ ids) =
    let rest = session_of s unit ids in
    if is_held_by unit (get string_discrete id s.sessions) then some id else rest

-- What is done to a service, in the order of its critical sections.
pub data Happening : Type 0 where
  arrives : ℕ → Envelope → Option Admitted → Happening
  steps : String → Step → Happening

unfoldable pub serve : Service → Happening → Service × List Effect
unfolding opening step_session
serve s (arrives now e issued) = let r = opening now s e issued in (r.0, r.2)
serve s (steps id step) = step_session s id step

-- How many Sessions a sequence of events opens under an identity.
abbrev opens : String → Service → Happening → ℕ
opens id s (arrives now e issued) =
    if e.session =? id && is_some (opening now s e issued).1 then 1 else 0
opens id s (steps i step) = 0

unfoldable pub openings : String → Service → List Happening → ℕ
unfolding serve
openings id s [] = 0
openings id s (x ∷ rest) = opens id s x + openings id (serve s x).0 rest

serve-used :
    (id : String) (s : Service) (x : Happening)
    → ((opens id s x ≡ 0) × (contains s.used id ≡ true → contains (serve s x).0.used id ≡ true))
      ⊎ ((opens id s x ≡ 1)
          × (contains s.used id ≡ false)
          × (contains (serve s x).0.used id ≡ true))
unfolding serve opening step_session contains ◌=?◌
serve-used id s (arrives now e issued) = ground arith
serve-used id s (steps i step) = ground arith

openings_used :
    (id : String) (s : Service) (todo : List Happening)
    → contains s.used id ≡ true
    → openings id s todo ≡ 0
unfolding openings
openings_used id s [] h = refl
openings_used id s (x ∷ rest) h =
    ground (arith, serve-used id s x, openings_used id (serve s x).0 rest)

-- Whatever arrives, and whatever the Sessions there are do meanwhile, a Session identity that
-- admission issued is opened once at most.
pub openings-le-one : (id : String) (s : Service) (todo : List Happening) → openings id s todo ≤ 1
unfolding openings
openings-le-one id s [] = omega arith
openings-le-one id s (x ∷ rest) = ground (
  arith,
  serve-used id s x,
  openings_used id (serve s x).0 rest,
  openings-le-one id (serve s x).0 rest,
)
