-- ===== src/Client/Runs.antt =====
-- Runs of the methods of GID and of its Subscribe, and the theorems at inputs.
use text.Mathlib.Text.{◌==◌ as str_eq}
use arigo.Base.{◌==◌, if◌then◌else◌, get_elem?, ◌++◌}
use arigo.Json.{decodes_raw, GoError}
use arigo.Codec.{done}
use arigo.Events.{
  EventTarget, UnsubscribeFunc, EventType, DownloadEvent, new_target, stop_event,
  dispatch as event_dispatch,
}
use arigo.Client.{add_metalink_at_position, Gid, get_gid}
use arigo.Client.Gids
use arigo.Client.Metalink.{IsPadded}
use arigo.Client.Gids.{add_metalink_padding_panics}
use arigo.Client.Notifications.{gid_subscribe, dispatch-gid_subscribe}
use arigo.Base.{String, ◌≡◌, refl, Option, none, some, List, [], ◌∷◌, arith}
use arigo.Json.{Json, decodes_string}
use arigo.Codec.{panic}
use arigo.Client.{Rpc, replied, strings_json}
use arigo.Client.Tests.{answers, client, gids}

-- A world that is the list of the paths that os.Remove was called with.
abbrev pub answers_all : Json → Rpc (List String)
answers_all j method args w = (replied j, w)

abbrev pub os_remove : String → List String → Option GoError × List String
os_remove p w = (none, w ++ p ∷ [])

abbrev pub path : String → String
path p = p

add_metalink_padding_panics_example :
    IsPadded (answers (strings_json (some gids))) client (65 ∷ []) 0 none tt tt gids
    × ((g : Gid) × (get_elem?
            (add_metalink_at_position
              (answers (strings_json (some gids)))
              client
              (65 ∷ [])
              0
              none
              tt).0
            1
          ≡ some g)
        × (Gids.remove (answers (strings_json (some gids))) g tt ≡ panic)
        × (Gids.pause (answers (strings_json (some gids))) g tt ≡ panic)
        × (Gids.unpause (answers (strings_json (some gids))) g tt ≡ panic)
        × (Gids.tell_status (answers (strings_json (some gids))) {A = Json} g none tt ≡ panic))
add_metalink_padding_panics_example =
    add_metalink_padding_panics (answers (strings_json (some gids))) client (65 ∷ []) 0 none tt tt
      gids 1 (omega arith) refl

dispatch-gid_subscribe_example :
    (t' : EventTarget String) × (u : UnsubscribeFunc) × (gid_subscribe
        (get_gid client "2089b05ecca3d829")
        new_target
        stop_event
        (λ ev. "stopped" ∷ [])
      ≡ done (t', u))
    × ((ty' : EventType) (event : DownloadEvent)
        → event_dispatch t' ty' event
          ≡ event_dispatch new_target ty' event
            ++ (if stop_event == ty'
                then (if str_eq event.gid "2089b05ecca3d829" then "stopped" ∷ [] else [])
                else []))
unfolding get_gid
dispatch-gid_subscribe_example =
    dispatch-gid_subscribe (get_gid client "2089b05ecca3d829") client new_target stop_event
      (λ ev. "stopped" ∷ []) refl
