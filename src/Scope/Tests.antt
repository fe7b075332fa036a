-- ===== src/Scope/Tests.antt =====
-- Scopes built change by change, and the theorems about them at those.
use yoke.Prelude.{
  ◌≡◌, refl, String, true, some, List, [], ◌∷◌, contains, string_discrete, IsSorted, ◌↔◌, sort,
}
use yoke.Contract.{scope_withheld}
use yoke.Scope.{stream, command, Kind-discrete, empty, granted_ids, check}
use yoke.Scope.Checks.{Change, declares, grants, changes}

abbrev manifest : List Change
manifest =
    declares stream "video"
    ∷ declares command "reset"
    ∷ grants stream "video"
    ∷ grants stream "audio"
    ∷ []

reset_withheld : check (some (changes empty manifest)) command "reset" ≡ scope_withheld
unfolding check changes Kind-discrete string_discrete contains yoke.Scope.ids yoke.Prelude.get
    yoke.Scope.Checks.change yoke.Scope.grant yoke.Scope.add yoke.Prelude.put yoke.Scope.declare
reset_withheld = refl

streams_in_order : granted_ids (some (changes empty manifest)) stream ≡ "audio" ∷ "video" ∷ []
unfolding granted_ids changes Kind-discrete string_discrete sort yoke.Scope.ids yoke.Prelude.get
    yoke.Scope.Checks.change yoke.Scope.grant yoke.Scope.add yoke.Prelude.put yoke.Scope.declare
    contains
streams_in_order = refl
