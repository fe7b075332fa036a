-- ===== src/Supervisor/Environment.antt =====
-- internal/core/supervisor/supervisor.go, `Environment`: what a unit is handed. The declaration's own
-- variables stand in the order of its list, where Go takes them in any; the instance's root is clean, so
-- that joining a path to it puts a slash between the two.
use yoke.Prelude.{String, List, [], ◌∷◌, ◌++◌}
use Prim.Native.String.{◌++◌ as str_append}
use yoke.Lifecycle.{Kind}
use yoke.Supervisor.{Declared}

abbrev pub variable : String → String → String
variable name value = str_append name (str_append "=" value)

abbrev pub own : List (String × String) → List String
own [] = []
own ((name, value) ∷ env) = variable name value ∷ own env

abbrev pub join_path : String → String → String
join_path root name = str_append root (str_append "/" name)

abbrev pub reserved : String → Declared → String → Kind → List String
reserved root u token Kind.oneshot = variable "YOKE_UNIT" u.id ∷ []
reserved root u token Kind.interface =
    variable "YOKE_UNIT" u.id ∷ variable "YOKE_SOCKET" u.channel ∷ []
reserved root u token Kind.plugin =
    variable "YOKE_UNIT" u.id
    ∷ variable "YOKE_SOCKET" (join_path root "plugin.sock")
    ∷ variable "YOKE_BIND" (join_path root (str_append "plugins/" (str_append u.id ".sock")))
    ∷ variable "YOKE_TOKEN" token
    ∷ variable "YOKE_PLUGIN" u.plugin
    ∷ []

unfoldable pub environment : String → Declared → String → List String
environment root u token = reserved root u token u.kind ++ own u.env
