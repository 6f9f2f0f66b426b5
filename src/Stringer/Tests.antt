-- ===== src/Stringer/Tests.antt =====
-- The strings of some values, and the theorems at inputs.
use arigo.Base.{◌≡◌, ◌↔◌, String, true, refl, some, get_elem?}
use arigo.Events.{stop_event}
use arigo.Stringer.Checks.{is_checked, generated_code}
use arigo.Stringer.{compiles}
use arigo.Events.Names.{event_type_string, event_type_checks}
use arigo.ExitStatus.{exit_status_string, exit_status_checks, name_resolution_failed}
use arigo.Stringer.Names.{event_types, exit_statuses, constant_or_number}

named : exit_status_string name_resolution_failed ≡ some "NameResolutionFailed"
unfolding exit_status_string
named = refl

generated_code_example :
    (event_type_string stop_event
      ≡ some (constant_or_number "EventType" stop_event (get_elem? event_types stop_event)))
    × (exit_status_string 200
        ≡ some (constant_or_number "ExitStatus" 200 (get_elem? exit_statuses 200)))
    × (compiles event_type_checks ≡ true)
    × (compiles exit_status_checks ≡ true)
    × ((is_checked stop_event event_type_checks ≡ true) ↔ (
        (n : String) × (get_elem? event_types stop_event ≡ some n)
        × (event_type_string stop_event ≡ some n)))
    × ((is_checked 200 exit_status_checks ≡ true) ↔ (
        (n : String) × (get_elem? exit_statuses 200 ≡ some n) × (exit_status_string 200 ≡ some n)))
generated_code_example = generated_code stop_event 200
