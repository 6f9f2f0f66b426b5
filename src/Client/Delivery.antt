-- ===== src/Client/Delivery.antt =====
-- A notification of aria2, from the message on the connection to the listeners of the event.
use arigo.Proto
use arigo.Base.{
  zero, suc, false, ◌≡◌, refl, subst, String, none, some, List, [], ◌∷◌, arith, get_elem?,
}
use text.Mathlib.Text.{◌==◌ as str_eq}
use text.Mathlib.TextEquality.{eq_iff}
use mathlib.Core.Option.{some-injective}
use arigo.Json.{Json, str, arr, obj, field, end, nil, cons, names_field}
use arigo.Tags.{store_struct}
use arigo.Tags.Members.{decodes}
use arigo.Codec.{
  Codec, Frame, value, Request, Response, done, read_header, single, read_request_body,
}
use arigo.Codec.Wire.{Message, new_message, unmarshal_message}
use arigo.Codec.Notices.{read_header-notice}
use arigo.Events.{EventTarget, EventType, dispatch}
use arigo.Client.Notifications.{download_event, handler, on_notification}

-- The methods that aria2 documents, in the order of the values of EventType.
abbrev pub notifications : List String
notifications =
    Proto.on_download_start ∷ Proto.on_download_pause ∷ Proto.on_download_stop
    ∷ Proto.on_download_complete ∷ Proto.on_bt_download_complete ∷ Proto.on_download_error ∷ []

-- The event object of aria2 is the only parameter.
abbrev pub notification_params : String → Json
notification_params gid = arr (cons (obj (field "gid" (str gid) end)) nil)

abbrev pub notification_json : String → String → Json
notification_json method gid = obj (
    field "jsonrpc" (str "2.0")
      (field "method" (str method) (field "params" (notification_params gid) end)))

-- The handler of the method, and that it is no response.
abbrev Handles : EventType → String → Type 0
Handles ty method = (handler method ≡ some ty) × (str_eq method "" ≡ false)

handles :
    (ty : EventType) (m method : String) → some m ≡ some method → Handles ty m → Handles ty method
handles ty m method e h = subst (Handles ty) (some-injective m method e) h

notifications-Handles :
    (ty : EventType) (method : String)
    → get_elem? notifications ty ≡ some method
    → Handles ty method
unfolding handler
notifications-Handles zero method e = handles zero Proto.on_download_start method e (refl, refl)
notifications-Handles (suc zero) method e = handles 1 Proto.on_download_pause method e (refl, refl)
notifications-Handles (suc (suc zero)) method e =
    handles 2 Proto.on_download_stop method e (refl, refl)
notifications-Handles (suc (suc (suc zero))) method e =
    handles 3 Proto.on_download_complete method e (refl, refl)
notifications-Handles (suc (suc (suc (suc zero)))) method e =
    handles 4 Proto.on_bt_download_complete method e (refl, refl)
notifications-Handles (suc (suc (suc (suc (suc zero))))) method e =
    handles 5 Proto.on_download_error method e (refl, refl)
notifications-Handles (suc (suc (suc (suc (suc (suc n)))))) method e = cc

unmarshal-notification_json :
    (method gid : String)
    → unmarshal_message (notification_json method gid)
      ≡ (record new_message { method = method; params = some (notification_params gid) }, none)
unfolding unmarshal_message names_field
unmarshal-notification_json method gid = refl

read_request_body-event :
    (c : Codec) (gid : String)
    → c.server_request.params ≡ some (notification_params gid)
    → read_request_body ⦃d = decodes download_event⦄ c (single (record { gid = "" }))
      ≡ (single (record { gid = gid }), none)
unfolding read_request_body store_struct names_field
read_request_body-event c gid e = rw (e, read_request_body) refl

module _ {E : Type 0} (sprint : Json → String) where
  -- A notification of aria2 for one of the six event types, as the next value on the connection:
  -- ReadHeader gives its method, leaves the sequence number as it was and files nothing as pending;
  -- ReadRequestBody gives the event with its GID; and the handler of the method runs exactly the
  -- listeners of that event type.
  pub notification_delivered :
      (c : Codec) (t : EventTarget E) (ty : EventType) (method gid : String) (later : List Frame)
      (req : Request) (resp : Response)
      → get_elem? notifications ty ≡ some method
      → c.dec ≡ value (notification_json method gid) ∷ later
      → (c' : Codec) × (read_header sprint c req resp
          ≡ done (c', record req { method = method }, resp, none))
        × (c'.dec ≡ later)
        × (c'.pending ≡ c.pending)
        × (read_request_body ⦃d = decodes download_event⦄ c' (single (record { gid = "" }))
            ≡ (single (record { gid = gid }), none))
        × (on_notification t method (record { gid = gid }) ≡ dispatch t ty (record { gid = gid }))
  unfolding on_notification
  notification_delivered c t ty method gid later req resp known next =
      let (handled, named) = notifications-Handles ty method known in
      let m : Message = record new_message {
        method = method;
        params = some (notification_params gid);
      } in
      let c' : Codec = record c {
        dec = later;
        msg = m;
        server_request = record {
          method = method;
          params = some (notification_params gid);
          id = none;
        };
      } in
      (
        c',
        read_header-notice sprint c _ later m req resp next (unmarshal-notification_json method gid)
            (ground (arith, eq_iff method "")) refl,
        refl,
        refl,
        read_request_body-event c' gid refl,
        rw (handled, on_notification) refl,
      )
