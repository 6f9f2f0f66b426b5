-- ===== src/Client/Wait/Heard.antt =====
-- What the listeners of WaitForDownload send, in each of its phases: the `hears` of the step relation,
-- against the event target.
use text.Mathlib.Text.{◌==◌ as str_eq}
use mathlib.Core.List.Perm
use arigo.Base.{
  subst, sym, ℕ, zero, suc, ◌+◌, ◌^◌, ◌<◌, ◌≡◌, ap, ◌∙◌, String, Bool, Option, none, some, List, [],
  ◌∷◌, ◌++◌, Perm, filter, ◌==◌, if◌then◌else◌, arith,
}
use arigo.Json.{GoError, download_stopped, download_error}
use arigo.Events.{
  EventType, DownloadEvent, ListenerData, EventTarget, stop_event, complete_event, error_event,
  dispatch, run_listeners,
}
use arigo.Events.Removal.{Below, other_id}
use arigo.Events.Registry.{Registry, register, revoke, of_type, notify}
use arigo.Events.Refinement.{Refines}
use arigo.Events.Handles.{filter-newest, of_type-revoke}
use arigo.Events.History.{dispatch-notify}
use arigo.Client.Wait.{
  Terminal, stop, complete, error, wait_error, Phase, subscribing, unsubscribing, hears,
}
use arigo.Client.Wait.Listeners.{
  Sends, send_response, target_in, registry_in, three_in, target_in-Refines,
}

-- The event that has this type, if WaitForDownload listens to it.
abbrev pub terminal_of : EventType → Option Terminal
terminal_of ty =
    if stop_event == ty
    then some stop
    else if complete_event == ty
    then some complete
    else if error_event == ty
    then some error
    else none

-- What is sent for it in a phase.
abbrev pub heard_sends : Phase → Option Terminal → List Sends
heard_sends ph none = []
heard_sends ph (some e) = if hears ph e then wait_error e ∷ [] else []

module _ (gid : String) where
  -- The listener of each, by the number that it got.
  abbrev listener_of : ℕ → Option GoError → ListenerData Sends
  listener_of id err = record { f = send_response gid err; id = id }

  abbrev heard_only : Bool → ListenerData Sends → List (ListenerData Sends)
  heard_only b l = if b then l ∷ [] else []

  abbrev own : Phase → ℕ → EventType → List (ListenerData Sends)
  own ph n ty =
      if stop_event == ty
      then heard_only (hears ph stop) (listener_of n (some download_stopped))
      else if complete_event == ty
      then heard_only (hears ph complete) (listener_of (n + 1) none)
      else if error_event == ty
      then heard_only (hears ph error) (listener_of (n + 1 + 1) (some download_error))
      else []

  module _ (r : Registry Sends) (ty : EventType) (below : Below r.next (of_type ty r.subs)) where
    three-own :
        of_type ty (three_in gid r).subs ≡ own (subscribing 3) r.next ty ++ of_type ty r.subs
    unfolding hears of_type register
    three-own = ground arith

    -- One of the three goes.
    revoke-own :
        (k id : ℕ) (r' : Registry Sends) (own' : List (ListenerData Sends))
        (next : List (ListenerData Sends))
        → of_type ty r'.subs ≡ own' ++ of_type ty r.subs
        → (if k == ty
            then filter (other_id id) (own' ++ of_type ty r.subs)
            else own' ++ of_type ty r.subs)
          ≡ next
        → of_type ty (revoke r' k id).subs ≡ next
    revoke-own k id r' own' next before after =
        of_type-revoke r' k id ty
        ∙ ap (λ l. if k == ty then filter (other_id id) l else l) before
        ∙ after

    two-own :
        of_type ty (revoke (three_in gid r) stop_event r.next).subs
        ≡ own (unsubscribing 2 none) r.next ty ++ of_type ty r.subs
    unfolding hears
    two-own = revoke-own stop_event r.next (three_in gid r) _ _ three-own (
        ground (
          arith,
          filter-newest r.next (listener_of r.next (some download_stopped)) _ below (omega arith),
        ))

    one-own :
        of_type ty
          (revoke (revoke (three_in gid r) stop_event r.next) complete_event (r.next + 1)).subs
        ≡ own (unsubscribing 1 none) r.next ty ++ of_type ty r.subs
    unfolding hears
    one-own =
        revoke-own complete_event (r.next + 1) _ _ _ two-own (
          ground
            (arith, filter-newest r.next (listener_of (r.next + 1) none) _ below (omega arith)))

    none-own :
        of_type ty
          (revoke
            (revoke (revoke (three_in gid r) stop_event r.next) complete_event (r.next + 1))
            error_event
            (r.next + 1 + 1)).subs
        ≡ own (unsubscribing 0 none) r.next ty ++ of_type ty r.subs
    unfolding hears
    none-own = revoke-own error_event (r.next + 1 + 1) _ _ _ one-own (
        ground (
          arith,
          filter-newest r.next (listener_of (r.next + 1 + 1) (some download_error)) _ below
              (omega arith),
        ))

    of_type-registry_in :
        (ph : Phase)
        → of_type ty (registry_in gid r ph).subs ≡ own ph r.next ty ++ of_type ty r.subs
    unfolding registry_in hears of_type register
    of_type-registry_in (subscribing zero) = ground arith
    of_type-registry_in (subscribing (suc zero)) = ground arith
    of_type-registry_in (subscribing (suc (suc zero))) = ground arith
    of_type-registry_in (subscribing (suc (suc (suc n)))) = three-own
    of_type-registry_in (unsubscribing (suc (suc (suc n))) err) = three-own
    of_type-registry_in (unsubscribing (suc (suc zero)) err) = two-own
    of_type-registry_in (unsubscribing (suc zero) err) = one-own
    of_type-registry_in (unsubscribing zero err) = none-own

  run-own :
      (ph : Phase) (n : ℕ) (ty : EventType) (event : DownloadEvent) (ls : List (ListenerData Sends))
      → run_listeners event (own ph n ty ++ ls)
        ≡ (if str_eq event.gid gid then heard_sends ph (terminal_of ty) else [])
          ++ run_listeners event ls
  unfolding run_listeners wait_error
  run-own ph n ty event ls = ground arith

  notify-registry_in :
      (r : Registry Sends) (ph : Phase) (ty : EventType) (event : DownloadEvent)
      → Below r.next (of_type ty r.subs)
      → notify (registry_in gid r ph) ty event
        ≡ (if str_eq event.gid gid then heard_sends ph (terminal_of ty) else [])
          ++ notify r ty event
  unfolding notify
  notify-registry_in r ph ty event below =
      ap (run_listeners event) (of_type-registry_in r ty below ph)
      ∙ run-own ph r.next ty event (of_type ty r.subs)

-- On a target that agrees with a registry and has given out fewer than 2^64 - 3 numbers, with nobody
-- else subscribing meanwhile: in each phase of WaitForDownload an event has the effects that it had
-- before, as often, in some order with one send of an error more if the event has the GID and a type
-- that the phase hears, and with nothing more otherwise. So with all three cancelled nothing is left.
pub listeners_hear :
    (gid : String) (t : EventTarget Sends) (r : Registry Sends) (ph : Phase) (ty : EventType)
    (event : DownloadEvent)
    → r.next + 3 < 2 ^ 64
    → Refines t r
    → Perm (dispatch (target_in gid t ph) ty event) (
        (if str_eq event.gid gid then heard_sends ph (terminal_of ty) else [])
        ++ dispatch t ty event)
listeners_hear gid t r ph ty event room agree =
    let sent : List Sends = if str_eq event.gid gid then heard_sends ph (terminal_of ty) else [] in
    Perm.trans (dispatch-notify ty event (target_in-Refines gid room agree ph)) (
      subst (λ l. Perm l (sent ++ dispatch t ty event))
        (sym (notify-registry_in gid r ph ty event (agree.below ty)))
        (Perm.append_left sent (Perm.symm (dispatch-notify ty event agree))))
