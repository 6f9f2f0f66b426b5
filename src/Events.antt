-- ===== src/Events.antt =====
-- events.go: event types, listeners and the event target. A listener is a Go function that is
-- run for its effects: here it returns the list of its effects, of a type `E` that the client
-- chooses. Each operation runs under the target's lock, so it is one step.
pub mod Removal
pub mod Registry
pub mod Refinement
pub mod History
pub mod Handles
pub mod Cleanup
pub mod Dispatching
pub mod Goroutines
pub mod Locking
pub mod Names
mod Tests
use arigo.Base.{
  ℕ, zero, suc, ◌+◌, ◌-◌, ◌%◌, ◌^◌, String, Bool, true, false, Option, none, some, List, [], ◌∷◌,
  ◌++◌, arith, ◌==◌, if◌then◌else◌, length, get_or, set, take,
}
use arigo.Base.Map
use arigo.Base.Map.{Map}
use mathlib.Core.Option

-- `type EventType uint`: any number is a value, and the constants are the six events of aria2.
abbrev pub EventType : Type 0
EventType = ℕ

abbrev pub start_event : EventType
start_event = 0

abbrev pub pause_event : EventType
pause_event = 1

abbrev pub stop_event : EventType
stop_event = 2

abbrev pub complete_event : EventType
complete_event = 3

abbrev pub bt_complete_event : EventType
bt_complete_event = 4

abbrev pub error_event : EventType
error_event = 5

pub record DownloadEvent : Type 0 where
  pub gid : String

-- String of an event.
pub event_string : DownloadEvent → String
event_string event = event.gid

abbrev pub EventListener {ℓ} : Type ℓ → Type ℓ
EventListener E = DownloadEvent → List E

pub record ListenerData {ℓ} (E : Type ℓ) : Type ℓ where
  pub f : EventListener E
  pub id : ℕ

-- What the closure returned by `Subscribe` captures.
pub record UnsubscribeFunc : Type 0 where
  pub evt_type : EventType
  pub id : ℕ

-- `none` is the nil map of a target that nothing was subscribed to yet.
pub record EventTarget {ℓ} (E : Type ℓ) : Type ℓ where
  pub listener_map : Option (Map (List (ListenerData E)))
  pub current_id : ℕ

-- listeners[i] = listeners[len(listeners)-1]; listeners = listeners[:len(listeners)-1]
pub swap_remove {ℓ} : {A : Type ℓ} → ℕ → List A → List A
swap_remove i [] = []
swap_remove i (x ∷ xs) = take (length xs) (set (x ∷ xs) i (get_or (x ∷ xs) (length xs) x))

module _ {ℓ} {E : Type ℓ} where
  -- `var t eventTarget`
  abbrev pub new_target : EventTarget E
  new_target = record { listener_map = none; current_id = 0 }

  -- A missing key reads as the nil slice.
  abbrev pub or_nil : Option (List (ListenerData E)) → List (ListenerData E)
  or_nil none = []
  or_nil (some ls) = ls

  -- t.listenerMap[evtType]; a nil map reads as an empty one.
  unfoldable pub listeners : EventTarget E → EventType → List (ListenerData E)
  listeners t ty = elim t.listener_map [ none ↦ [] | some m ↦ or_nil (Map.get ty m) ]

  -- The index at which the loop of `unsubscribe` breaks, if it does.
  pub find_listener : ℕ → List (ListenerData E) → Option ℕ
  find_listener id [] = none
  find_listener id (l ∷ ls) = if l.id == id then some 0 else Option.map suc (find_listener id ls)

  -- The end of `unsubscribe`: a type with no listener left loses its key.
  pub store_listeners :
      EventType → List (ListenerData E) → Map (List (ListenerData E)) → Map (List (ListenerData E))
  store_listeners ty [] m = Map.delete ty m
  store_listeners ty (l ∷ ls) m = Map.put ty (l ∷ ls) m

  -- The body of `unsubscribe` on a map that is there, and the listeners that it has for the type.
  remove_listener :
      EventTarget E
      → EventType
      → ℕ
      → Map (List (ListenerData E))
      → List (ListenerData E)
      → EventTarget E × Bool
  remove_listener t ty id m ls = elim (find_listener id ls) [
    | none ↦ (t, false)
    | some i ↦ (record t { listener_map = some (store_listeners ty (swap_remove i ls) m) }, true)
  ]

  pub unsubscribe : EventTarget E → EventType → ℕ → EventTarget E × Bool
  unfolding remove_listener store_listeners
  unsubscribe t ty id = elim t.listener_map [
    | none ↦ (t, false)
    | some m ↦
        if length (or_nil (Map.get ty m)) == 0
        then (t, false)
        else remove_listener t ty id m (or_nil (Map.get ty m))
  ]

  -- The map that `Subscribe` writes to: a nil one is made first.
  made : Option (Map (List (ListenerData E))) → Map (List (ListenerData E))
  made none = Map.empty
  made (some m) = m

  pub subscribe : EventTarget E → EventType → EventListener E → EventTarget E × UnsubscribeFunc
  unfolding made
  subscribe t ty f =
      let m = made t.listener_map in
      let l : ListenerData E = record { f = f; id = t.current_id } in
      (
        record {
          listener_map = some (Map.put ty (or_nil (Map.get ty m) ++ l ∷ []) m);
          current_id = (t.current_id + 1) % 2 ^ 64;
        },
        record { evt_type = ty; id = t.current_id },
      )

  -- A call of the closure that `Subscribe` returned.
  pub call_unsubscribe : EventTarget E → UnsubscribeFunc → EventTarget E × Bool
  unfolding unsubscribe
  call_unsubscribe t u = unsubscribe t u.evt_type u.id

  -- The effects of the listeners on one event, one listener after the other.
  unfoldable pub run_listeners : DownloadEvent → List (ListenerData E) → List E
  run_listeners event [] = []
  run_listeners event (l ∷ ls) = l.f event ++ run_listeners event ls

  -- Every listener runs in a goroutine of its own and `Dispatch` waits for all of them: their
  -- effects, one listener after the other. The order of the goroutines is not fixed.
  unfoldable pub dispatch : EventTarget E → EventType → DownloadEvent → List E
  unfolding listeners
  dispatch t ty event = run_listeners event (listeners t ty)
