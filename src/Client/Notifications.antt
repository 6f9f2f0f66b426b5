-- ===== src/Client/Notifications.antt =====
-- The notifications of aria2: the handlers that NewClient registers, Subscribe of client.go, and
-- Subscribe of gid.go. The event target of the client is passed along.
use arigo.Proto
use text.Mathlib.Text.{◌==◌ as str_eq}
use arigo.Base.{
  ◌≡◌, refl, String, Option, none, some, true, List, [], ◌∷◌, ◌++◌, ◌==◌, if◌then◌else◌,
}
use arigo.Tags.{Member, Coding, exact_member}
use arigo.Tags.Codings
use arigo.Tags.Members.{member, distinct, struct}
use arigo.Codec.{Outcome, done, panic}
use arigo.Events.{
  EventType, DownloadEvent, EventListener, UnsubscribeFunc, EventTarget, start_event, pause_event,
  stop_event, complete_event, bt_complete_event, error_event, subscribe, dispatch,
}
use arigo.Events.Dispatching.{dispatch-subscribe}
use arigo.Client.{Client, Gid}

-- The fields of DownloadEvent have no tags: the key of GID is its name.
abbrev pub download_event_members : List (Member DownloadEvent)
download_event_members = member "GID" Codings.text (λ s. s.gid) (λ x s. record s { gid = x }) ∷ []

pub download_event_members-distinct : distinct download_event_members ≡ true
unfolding exact_member
download_event_members-distinct = refl

abbrev pub download_event : Coding DownloadEvent
download_event =
    struct download_event_members (record { gid = "" }) download_event_members-distinct
      (λ s t. refl)

-- The handlers, by the method of the notification.
unfoldable pub handler : String → Option EventType
handler method =
    if str_eq method Proto.on_download_start
    then some start_event
    else if str_eq method Proto.on_download_pause
    then some pause_event
    else if str_eq method Proto.on_download_stop
    then some stop_event
    else if str_eq method Proto.on_download_complete
    then some complete_event
    else if str_eq method Proto.on_download_error
    then some error_event
    else if str_eq method Proto.on_bt_download_complete
    then some bt_complete_event
    else none

module _ {E : Type 0} where
  -- A notification runs its handler, if it has one, on the event that was decoded.
  unfoldable pub on_notification : EventTarget E → String → DownloadEvent → List E
  unfolding handler
  on_notification t method event = elim (handler method) [
    | none ↦ []
    | some ty ↦ dispatch t ty event
  ]

  pub client_subscribe :
      Client → EventTarget E → EventType → EventListener E → EventTarget E × UnsubscribeFunc
  client_subscribe c t ty listener = subscribe t ty listener

  only_gid : String → EventListener E → EventListener E
  only_gid gid listener event = if str_eq event.gid gid then listener event else []

  -- Subscribe of a GID: a nil client is dereferenced.
  pub gid_subscribe :
      Gid → EventTarget E → EventType → EventListener E → Outcome (EventTarget E × UnsubscribeFunc)
  unfolding client_subscribe only_gid
  gid_subscribe g t ty listener = elim g.client [
    | none ↦ panic
    | some c ↦ done (client_subscribe c t ty (only_gid g.gid listener))
  ]

  -- What is subscribed through a GID with a client runs behind the listeners that were there, on the
  -- events of its type that carry its gid, and on no other event; nothing else changes for any event.
  pub dispatch-gid_subscribe :
      (g : Gid) (c : Client) (t : EventTarget E) (ty : EventType) (f : EventListener E)
      → g.client ≡ some c
      → (t' : EventTarget E) × (u : UnsubscribeFunc) × (gid_subscribe g t ty f ≡ done (t', u))
        × ((ty' : EventType) (event : DownloadEvent)
            → dispatch t' ty' event
              ≡ dispatch t ty' event
                ++ (if ty == ty' then (if str_eq event.gid g.gid then f event else []) else []))
  unfolding gid_subscribe client_subscribe only_gid
  dispatch-gid_subscribe g c t ty f has = (
    (subscribe t ty (only_gid g.gid f)).0,
    (subscribe t ty (only_gid g.gid f)).1,
    rw (has, gid_subscribe) refl,
    λ ty' event. dispatch-subscribe t ty ty' (only_gid g.gid f) event,
  )
