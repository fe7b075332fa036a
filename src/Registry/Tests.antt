-- ===== src/Registry/Tests.antt =====
-- A Registry with one plugin, and the theorems about it.
use yoke.Prelude.{◌≡◌, refl, pos, true, false, is_some, List, [], ◌∷◌, map}
use yoke.Registry.{
  foreign_key, Declared, disabled, granted, withdrawn, Decision, err, empty, declare, grant, plugin,
  history,
}
use yoke.Registry.Replay.{
  Change, declares, sets, grants, withdraws, changes, Replays, changes-empty-Replays,
}
use yoke.Registry.Deciding.{Order, operate, Accounted, operate-Accounted}

abbrev camera : Declared
camera = record { id = "camera"; protocol = pos 1; manifest_digest = "sha256:00" }

abbrev steps : List Change
steps =
    declares camera
    ∷ grants "camera" "video" 10 "ana"
    ∷ sets "camera" 11 "ana" false
    ∷ sets "camera" 12 "ana" false
    ∷ withdraws "camera" "video" 13 "eva"
    ∷ sets "nobody" 14 "eva" true
    ∷ []

actions_recorded :
    map (λ (d : Decision). d.action) (history (changes empty steps) "camera")
    ≡ granted ∷ disabled ∷ withdrawn ∷ []
unfolding history changes yoke.Registry.Replay.change yoke.Registry.set_enabled yoke.Prelude.get
    yoke.Registry.withdraw yoke.Registry.is_granted grant declare yoke.Prelude.put
    yoke.Prelude.string_discrete yoke.Registry.decided yoke.Registry.turn yoke.Prelude.◌=?◌
actions_recorded = refl

unknown_grant : (grant empty "nobody" "video" 1 "ana").1 ≡ err foreign_key
unfolding grant yoke.Registry.is_granted yoke.Prelude.get
unknown_grant = refl

changes-empty-Replays_example : Replays (changes empty steps)
changes-empty-Replays_example = changes-empty-Replays steps

operate-Accounted_example :
    Accounted
      (declare empty camera)
      "camera"
      5
      "ana"
      (operate (declare empty camera) "camera" 5 "ana" (Order.grants "video"))
operate-Accounted_example =
    operate-Accounted (declare empty camera) "camera" 5 "ana" (Order.grants "video")
