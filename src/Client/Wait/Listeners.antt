-- ===== src/Client/Wait/Listeners.antt =====
-- The three listeners of WaitForDownload on the event target of the client.
use text.Mathlib.Text.{◌==◌ as str_eq}
use arigo.Base.{zero, suc, ◌+◌, ◌^◌, ◌<◌, String, Option, none, some, [], ◌∷◌, if◌then◌else◌, arith}
use arigo.Json.{GoError, download_stopped, download_error}
use arigo.Events.{
  EventListener, UnsubscribeFunc, EventTarget, stop_event, complete_event, error_event, subscribe,
  call_unsubscribe,
}
use arigo.Events.Registry.{Registry, register, revoke}
use arigo.Events.Refinement.{Refines, subscribe-Refines}
use arigo.Events.Handles.{unsubscribe_handle-Refines}
use arigo.Client.Wait.{Phase, subscribing, unsubscribing}

-- The effect of a listener is a send on the channel.
abbrev pub Sends : Type 0
Sends = Option GoError

module _ (gid : String) where
  -- sendResponse(err)
  abbrev pub send_response : Option GoError → EventListener Sends
  send_response err event = if str_eq event.gid gid then err ∷ [] else []

  -- The three calls of Subscribe, each on the target that the one before it has left.
  abbrev stop_subscribed : EventTarget Sends → EventTarget Sends × UnsubscribeFunc
  stop_subscribed t = subscribe t stop_event (send_response (some download_stopped))

  abbrev complete_subscribed : EventTarget Sends → EventTarget Sends × UnsubscribeFunc
  complete_subscribed t = subscribe (stop_subscribed t).0 complete_event (send_response none)

  abbrev error_subscribed : EventTarget Sends → EventTarget Sends × UnsubscribeFunc
  error_subscribed t =
      subscribe (complete_subscribed t).0 error_event (send_response (some download_error))

  -- stopUnsub(), completeUnsub() and errUnsub(), likewise.
  abbrev stop_cancelled : EventTarget Sends → EventTarget Sends
  stop_cancelled t = (call_unsubscribe (error_subscribed t).0 (stop_subscribed t).1).0

  abbrev complete_cancelled : EventTarget Sends → EventTarget Sends
  complete_cancelled t = (call_unsubscribe (stop_cancelled t) (complete_subscribed t).1).0

  abbrev error_cancelled : EventTarget Sends → EventTarget Sends
  error_cancelled t = (call_unsubscribe (complete_cancelled t) (error_subscribed t).1).0

  -- The target in each phase of a WaitForDownload that nobody else subscribes beside.
  pub target_in : EventTarget Sends → Phase → EventTarget Sends
  target_in t (subscribing zero) = t
  target_in t (subscribing (suc zero)) = (stop_subscribed t).0
  target_in t (subscribing (suc (suc zero))) = (complete_subscribed t).0
  target_in t (subscribing (suc (suc (suc n)))) = (error_subscribed t).0
  target_in t (unsubscribing zero err) = error_cancelled t
  target_in t (unsubscribing (suc zero) err) = complete_cancelled t
  target_in t (unsubscribing (suc (suc zero)) err) = stop_cancelled t
  target_in t (unsubscribing (suc (suc (suc n))) err) = (error_subscribed t).0

  abbrev pub three_in : Registry Sends → Registry Sends
  three_in r =
      register
        (register (register r stop_event (send_response (some download_stopped))) complete_event
          (send_response none))
        error_event (send_response (some download_error))

  -- The same on the registry of what is subscribed.
  unfoldable pub registry_in : Registry Sends → Phase → Registry Sends
  registry_in r (subscribing zero) = r
  registry_in r (subscribing (suc zero)) =
      register r stop_event (send_response (some download_stopped))
  registry_in r (subscribing (suc (suc zero))) =
      register (register r stop_event (send_response (some download_stopped))) complete_event
        (send_response none)
  registry_in r (subscribing (suc (suc (suc n)))) = three_in r
  registry_in r (unsubscribing zero err) =
      revoke (revoke (revoke (three_in r) stop_event r.next) complete_event (r.next + 1))
        error_event (r.next + 1 + 1)
  registry_in r (unsubscribing (suc zero) err) =
      revoke (revoke (three_in r) stop_event r.next) complete_event (r.next + 1)
  registry_in r (unsubscribing (suc (suc zero)) err) = revoke (three_in r) stop_event r.next
  registry_in r (unsubscribing (suc (suc (suc n))) err) = three_in r

  module _ {t : EventTarget Sends} {r : Registry Sends} (room : r.next + 3 < 2 ^ 64)
      (agree : Refines t r) where
    stop_subscribed-Refines : Refines (stop_subscribed t).0 (registry_in r (subscribing 1))
    unfolding registry_in register
    stop_subscribed-Refines = subscribe-Refines stop_event _ (omega arith) agree

    complete_subscribed-Refines : Refines (complete_subscribed t).0 (registry_in r (subscribing 2))
    unfolding registry_in register
    complete_subscribed-Refines =
        subscribe-Refines complete_event _ (omega arith) stop_subscribed-Refines

    error_subscribed-Refines : Refines (error_subscribed t).0 (registry_in r (subscribing 3))
    unfolding registry_in register
    error_subscribed-Refines =
        subscribe-Refines error_event _ (omega arith) complete_subscribed-Refines

    stop_cancelled-Refines : Refines (stop_cancelled t) (registry_in r (unsubscribing 2 none))
    unfolding registry_in
    stop_cancelled-Refines = unsubscribe_handle-Refines stop_event _ agree error_subscribed-Refines

    complete_cancelled-Refines :
        Refines (complete_cancelled t) (registry_in r (unsubscribing 1 none))
    unfolding registry_in register
    complete_cancelled-Refines =
        unsubscribe_handle-Refines complete_event _ stop_subscribed-Refines stop_cancelled-Refines

    error_cancelled-Refines : Refines (error_cancelled t) (registry_in r (unsubscribing 0 none))
    unfolding registry_in register
    error_cancelled-Refines =
        unsubscribe_handle-Refines error_event _ complete_subscribed-Refines
          complete_cancelled-Refines

    pub target_in-Refines : (ph : Phase) → Refines (target_in t ph) (registry_in r ph)
    unfolding target_in registry_in
    target_in-Refines (subscribing zero) = agree
    target_in-Refines (subscribing (suc zero)) = stop_subscribed-Refines
    target_in-Refines (subscribing (suc (suc zero))) = complete_subscribed-Refines
    target_in-Refines (subscribing (suc (suc (suc n)))) = error_subscribed-Refines
    target_in-Refines (unsubscribing zero err) = error_cancelled-Refines
    target_in-Refines (unsubscribing (suc zero) err) = complete_cancelled-Refines
    target_in-Refines (unsubscribing (suc (suc zero)) err) = stop_cancelled-Refines
    target_in-Refines (unsubscribing (suc (suc (suc n))) err) = error_subscribed-Refines
