-- ===== src/Events/Tests.antt =====
-- A run of the event target, and the theorems at inputs.
use arigo.Base.{String, ◌≡◌, ◌≢◌, refl, true, Option, none, some, List, [], ◌∷◌, arith, Perm}
use arigo.Base.Map
use arigo.Events.Locking.{
  Operation, cancels, State, has_operation, Reach, here, next, moves, turn, effect, listener_blocks,
}
use arigo.Events.Goroutines.{Runs, turn as takes_turn, all_ended, goroutines, dispatch_any_order}
use arigo.Events.{
  DownloadEvent, EventListener, EventTarget, listeners, run_listeners, dispatch, new_target,
  stop_event, complete_event,
}
use arigo.Events.Registry.{new_registry}
use arigo.Events.History.{
  Call, subscribes, unsubscribes, dispatches, SameAnswers, target_run, registry_run,
  target_run-SameAnswers,
}
use arigo.Events.Cleanup.{IsClean, target_after, target_after-IsClean}

abbrev says : String → EventListener String
says s event = s ∷ []

abbrev finished : DownloadEvent
finished = record { gid = "2089b05ecca3d829" }

-- Two listeners, the first of which is cancelled twice.
abbrev calls : List (Call String)
calls =
    subscribes complete_event (says "a")
    ∷ subscribes complete_event (says "b")
    ∷ dispatches complete_event finished
    ∷ unsubscribes (record { evt_type = complete_event; id = 0 })
    ∷ unsubscribes (record { evt_type = complete_event; id = 0 })
    ∷ dispatches complete_event finished
    ∷ []

target_run-SameAnswers_example :
    SameAnswers (target_run new_target calls) (registry_run new_registry calls)
target_run-SameAnswers_example = target_run-SameAnswers calls (omega arith)

target_after-IsClean_example : IsClean (target_after new_target calls)
target_after-IsClean_example = target_after-IsClean calls

-- Two listeners of two effects each, and a trace of their goroutines that mixes them.
abbrev two_listeners : EventTarget String
two_listeners = record {
  listener_map = some (
      Map.put stop_event
        (record { f = λ ev. "a1" ∷ "a2" ∷ []; id = 0 }
          ∷ record { f = λ ev. "b1" ∷ "b2" ∷ []; id = 1 }
          ∷ [])
        Map.empty);
  current_id = 2;
}

mixed : Runs (goroutines two_listeners stop_event finished) ("b1" ∷ "a1" ∷ "a2" ∷ "b2" ∷ [])
unfolding listeners Map.get Map.put Map.empty
mixed = takes_turn (("a1" ∷ "a2" ∷ []) ∷ []) [] "b1" ("b2" ∷ []) _ (
    takes_turn [] (("b2" ∷ []) ∷ []) "a1" ("a2" ∷ []) _ (
      takes_turn [] (("b2" ∷ []) ∷ []) "a2" [] _
        (takes_turn ([] ∷ []) [] "b2" [] _ (all_ended (refl, (refl, tt))))))

dispatch_any_order_example :
    Perm ("b1" ∷ "a1" ∷ "a2" ∷ "b2" ∷ []) (dispatch two_listeners stop_event finished)
    × Runs
        (goroutines two_listeners stop_event finished)
        (dispatch two_listeners stop_event finished)
dispatch_any_order_example =
    dispatch_any_order two_listeners stop_event finished ("b1" ∷ "a1" ∷ "a2" ∷ "b2" ∷ []) mixed

-- A listener that prints and then cancels its own subscription.
data Act : Type 0 where
  prints cancels_itself : Act

operation_of : Act → Option (Operation Act)
operation_of prints = none
operation_of cancels_itself = some (cancels (record { evt_type = stop_event; id = 0 }))

abbrev only_once : EventTarget Act
only_once = record {
  listener_map = some (
      Map.put stop_event (record { f = λ ev. prints ∷ cancels_itself ∷ []; id = 0 } ∷ [])
        Map.empty);
  current_id = 1;
}

abbrev once_dispatched : State Act
once_dispatched = record {
  target = only_once;
  running = goroutines only_once stop_event finished ∷ [];
}

abbrev printed : State Act
printed = record { target = only_once; running = ((cancels_itself ∷ []) ∷ []) ∷ [] }

cancels_in_dispatch : has_operation operation_of (dispatch only_once stop_event finished) ≡ true
unfolding dispatch run_listeners listeners Map.get Map.put Map.empty operation_of
cancels_in_dispatch = refl

has_printed : Reach operation_of once_dispatched printed
unfolding listeners Map.get Map.put Map.empty operation_of
has_printed = next here (moves (((cancels_itself ∷ []) ∷ []) ∷ []) (turn (effect refl)) refl)

listener_blocks_example : (printed.running ≢ []) × (printed.target ≡ only_once)
listener_blocks_example =
    listener_blocks operation_of {s = record { target = only_once; running = [] }} {u = printed}
      stop_event finished cancels_in_dispatch has_printed
