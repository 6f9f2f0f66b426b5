-- ===== src/Client/WaitTests.antt =====
-- The listeners of WaitForDownload on a target that is new.
use text.Mathlib.Text.{◌==◌ as str_eq}
use arigo.Base.{none, [], ◌++◌, if◌then◌else◌, Perm, arith}
use arigo.Events.{new_target, error_event, dispatch}
use arigo.Events.Registry.{new_registry}
use arigo.Events.History.{new_target-Refines}
use arigo.Client.Wait.{unsubscribing}
use arigo.Client.Wait.Listeners.{target_in}
use arigo.Client.Wait.Heard.{terminal_of, heard_sends, listeners_hear}

-- A target with no listener, while WaitForDownload has cancelled the first of its three.
listeners_hear_example :
    Perm
      (dispatch
        (target_in "2089b05ecca3d829" new_target (unsubscribing 2 none))
        error_event
        (record { gid = "2089b05ecca3d829" }))
      ((if str_eq "2089b05ecca3d829" "2089b05ecca3d829"
          then heard_sends (unsubscribing 2 none) (terminal_of error_event)
          else [])
        ++ dispatch new_target error_event (record { gid = "2089b05ecca3d829" }))
listeners_hear_example =
    listeners_hear "2089b05ecca3d829" new_target new_registry (unsubscribing 2 none) error_event
      (record { gid = "2089b05ecca3d829" }) (omega arith) new_target-Refines
