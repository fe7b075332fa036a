-- ===== src/Admission/Lives.antt =====
-- internal/core/admission/admission.go: the maps of what is live and of the Sessions hold together.
use yoke.Registry.{Registry}
use yoke.Prelude.{
  ◌≡◌, refl, ◌≢◌, String, Option, none, some, get, put, get-put, get-delete, string_discrete, arith,
  OfSome, ℕ,
}
use yoke.Admission.{
  Admission, Config, Outside, Request, Session, Verdict, refused, accepted, release, live_session,
  fresh_admission, issue,
}
use yoke.Admission.Decide.{decide, register}
use yoke.Admission.Stages.{decide-refusal}
use yoke.Admission.Accepting.{decide-Prepared}

abbrev unit_of : Option Session → Option String
unit_of none = none
unit_of (some se) = some se.unit

-- Each live unit's Session is there and is that unit's, each Session that is there is live for its
-- unit, and none has an empty identity.
unfoldable pub IsConsistent : Admission → Type 0
IsConsistent a =
    ((u id : String)
      → get string_discrete u a.live ≡ some id
      → unit_of (get string_discrete id a.sessions) ≡ some u)
    × ((id : String) (se : Session)
        → get string_discrete id a.sessions ≡ some se
        → get string_discrete se.unit a.live ≡ some id)
    × (get string_discrete "" a.sessions ≡ none)

pub release-IsConsistent :
    (a : Admission) (unit : String) → IsConsistent a → IsConsistent (release a unit)
unfolding IsConsistent release
release-IsConsistent a unit (f, b, e) =
    let gone = live_session (get string_discrete unit a.live) in
    (
      (λ u id h. ground (
        arith,
        f u id,
        f unit gone,
        get-delete string_discrete unit u a.live,
        get-delete string_discrete gone id a.sessions,
        e,
      )),
      (λ id se h. ground (
        arith,
        b id se,
        get-delete string_discrete unit se.unit a.live,
        get-delete string_discrete gone id a.sessions,
      )),
      ground (arith, e, get-delete string_discrete gone "" a.sessions),
    )

commits-IsConsistent :
    (a : Admission) (unit id : String) (se : Session)
    → IsConsistent a
    → get string_discrete unit a.live ≡ none
    → get string_discrete id a.sessions ≡ none
    → id ≢ ""
    → se.unit ≡ unit
    → IsConsistent (record a {
      live = put string_discrete unit id a.live;
      sessions = put string_discrete id se a.sessions;
    })
unfolding IsConsistent
commits-IsConsistent a unit id se (f, b, e) idle fresh named same = (
  (λ u i h. ground (
    arith,
    f u i,
    get-put string_discrete unit u id a.live,
    get-put string_discrete id i se a.sessions,
  )),
  (λ i s h. ground (
    arith,
    b i s,
    get-put string_discrete unit s.unit id a.live,
    get-put string_discrete id i se a.sessions,
  )),
  ground (arith, e, get-put string_discrete id "" se a.sessions),
)

alike-IsConsistent :
    (a b : Admission) → b.live ≡ a.live → b.sessions ≡ a.sessions → IsConsistent a → IsConsistent b
unfolding IsConsistent
alike-IsConsistent a b e e' h = rw e (rw e' h)

-- The random identity of a Session is no empty one, and none that is there.
abbrev pub Fresh : Admission → Option String → Type 0
Fresh a o = OfSome (λ id. (id ≢ "") × (get string_discrete id a.sessions ≡ none)) o

concluded-IsConsistent :
    (cfg : Config) (o : Outside) (a : Admission) (req : Request) (v : Verdict)
    → (decide cfg o a req).verdict ≡ v
    → Fresh a o.random
    → IsConsistent a
    → IsConsistent (decide cfg o a req).after
concluded-IsConsistent cfg o a req (refused s c) e fresh h =
    let d = decide cfg o a req in
    let left = decide-refusal cfg o a req (ground arith) in
    alike-IsConsistent a d.after (ground (arith, left)) (ground (arith, left)) h
concluded-IsConsistent cfg o a req (accepted se w) e fresh h =
    let d = decide cfg o a req in
    let all = decide-Prepared cfg o a req se w e in
    let now = record a {
      live = put string_discrete req.unit se.id a.live;
      sessions = put string_discrete se.id se a.sessions;
    } in
    alike-IsConsistent now d.after (ground (arith, all)) (ground (arith, all)) (
      commits-IsConsistent a req.unit se.id se h (ground (arith, all)) (ground (arith, all, fresh))
        (ground (arith, all, fresh)) (ground (arith, all)))

-- What happens to an admission over its life: a registration with whatever the outside answers, a
-- token issued for a launch, and a unit released.
pub data Reachable : Admission → Type 0 where
  started : (r : Registry) → Reachable (fresh_admission r)
  registered :
      {a : Admission} (cfg : Config) (o : Outside) (req : Request)
      → Fresh a o.random
      → Reachable a
      → Reachable (register cfg o a req).0
  issued :
      {a : Admission} (unit value : String) (now : ℕ)
      → Reachable a
      → Reachable (record a { tokens = issue a.tokens unit value now })
  released : {a : Admission} (unit : String) → Reachable a → Reachable (release a unit)

-- Over any life of an admission whose random identities are fresh, what is live and the Sessions
-- hold together: each live unit's Session is there and is that unit's, each Session that is there is
-- live for its unit, so a unit has one Session at most, and none has an empty identity.
pub reachable-IsConsistent : {a : Admission} → Reachable a → IsConsistent a
unfolding IsConsistent register get
reachable-IsConsistent (started r) = ((λ u id h. ground arith), (λ id se h. ground arith), refl)
reachable-IsConsistent (registered {a} cfg o req fresh r) =
    concluded-IsConsistent cfg o a req (decide cfg o a req).verdict refl fresh
      (reachable-IsConsistent r)
reachable-IsConsistent (issued {a} unit value now r) =
    alike-IsConsistent a (record a { tokens = issue a.tokens unit value now }) refl refl
      (reachable-IsConsistent r)
reachable-IsConsistent (released {a} unit r) =
    release-IsConsistent a unit (reachable-IsConsistent r)
