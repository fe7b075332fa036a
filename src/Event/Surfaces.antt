-- ===== src/Event/Surfaces.antt =====
-- internal/core/event/event.go: the events about documents, connections, channels and plugins.
use yoke.Prelude.{ℕ, String, Bool, Option, none, some, List, [], ◌∷◌, ◌++◌}
use yoke.Event.{
  no_detail, Actor, Value, text, flag, texts, fields, moment, object, Event, routine, notable,
  serious,
}
use yoke.Event.Build.{of_kind, concluded}

unfoldable pub document_resolved : ℕ → String → String → String → Event
unfolding concluded
document_resolved now path resolved digest =
    concluded now "document.resolved" (of_kind "document" path) routine
      (object (("resolved", text resolved) ∷ ("digest", text digest) ∷ []))

unfoldable pub document_rejected : ℕ → String → String → String → Event
unfolding concluded
document_rejected now path code place =
    concluded now "document.rejected" (of_kind "document" path) notable
      (object (("finding", fields (("code", code) ∷ ("place", place) ∷ [])) ∷ []))

unfoldable pub connection_opened : ℕ → String → String → Actor → Event
unfolding concluded
connection_opened now id projection actor =
    record (concluded now "connection.opened" (of_kind "connection" id) routine
      (object (("projection", text projection) ∷ []))) { actor = actor }

unfoldable pub connection_closed : ℕ → String → String → String → Actor → Event
unfolding concluded
connection_closed now id projection reason actor =
    record (concluded now "connection.closed" (of_kind "connection" id) routine
      (object (("projection", text projection) ∷ ("reason", text reason) ∷ []))) { actor = actor }

unfoldable pub channel_attached : ℕ → String → String → Event
unfolding concluded
channel_attached now name client =
    concluded now "channel.attached" (of_kind "channel" name) routine
      (object (("client", text client) ∷ []))

unfoldable pub channel_detached : ℕ → String → String → String → Event
unfolding concluded
channel_detached now name client reason =
    concluded now "channel.detached" (of_kind "channel" name) routine
      (object (("client", text client) ∷ ("reason", text reason) ∷ []))

unfoldable pub channel_suspended : ℕ → String → String → String → String → Event
unfolding concluded
channel_suspended now name reason by retains =
    concluded now "channel.suspended" (of_kind "channel" name) notable
      (object (("reason", text reason) ∷ ("by", text by) ∷ ("retains", text retains) ∷ []))

unfoldable pub channel_resumed : ℕ → String → Event
unfolding concluded
channel_resumed now name =
    concluded now "channel.resumed" (of_kind "channel" name) routine no_detail

unfoldable pub subscription_stale : ℕ → String → ℕ → Event
unfolding concluded
subscription_stale now name since =
    concluded now "channel.subscription.stale" (of_kind "channel" name) serious
      (object (("since", moment since) ∷ []))

abbrev pub flag_field : Option Bool → List (String × Value)
flag_field none = []
flag_field (some b) = ("enabled", flag b) ∷ []

abbrev pub texts_field : String → Option (List String) → List (String × Value)
texts_field k none = []
texts_field k (some l) = (k, texts l) ∷ []

-- A nil list of capabilities is `none`.
unfoldable pub policy_changed :
    ℕ → String → Actor → Option Bool → Option (List String) → Option (List String) → Event
unfolding concluded
policy_changed now plugin actor enabled granted withdrawn =
    record (concluded now "plugin.policy.changed" (of_kind "plugin" plugin) notable (
      object (
        flag_field enabled
        ++ texts_field "granted" granted
        ++ texts_field "withdrawn" withdrawn))) { actor = actor }
