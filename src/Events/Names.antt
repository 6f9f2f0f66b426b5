-- ===== src/Events/Names.antt =====
-- eventtype_string.go.
use arigo.Base.{ℕ, String, Option, List, [], ◌∷◌}
use arigo.Stringer.{name_or_number}
use arigo.Events.{
  EventType, start_event, pause_event, stop_event, complete_event, bt_complete_event, error_event,
}

-- `_ = x[StartEvent-0]` and its like: each constant, and the number that its name was generated for.
abbrev pub event_type_checks : List (EventType × ℕ)
event_type_checks =
    (start_event, 0)
    ∷ (pause_event, 1)
    ∷ (stop_event, 2)
    ∷ (complete_event, 3)
    ∷ (bt_complete_event, 4)
    ∷ (error_event, 5)
    ∷ []

-- _EventType_name
abbrev pub event_type_name : String
event_type_name = "StartEventPauseEventStopEventCompleteEventBTCompleteEventErrorEvent"

-- _EventType_index
abbrev pub event_type_index : List ℕ
event_type_index = 0 ∷ 10 ∷ 20 ∷ 29 ∷ 42 ∷ 57 ∷ 67 ∷ []

unfoldable pub event_type_string : EventType → Option String
event_type_string i = name_or_number "EventType" event_type_name event_type_index i
