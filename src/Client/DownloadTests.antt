-- ===== src/Client/DownloadTests.antt =====
-- Delete and DownloadWithContext with an aria2 that gives one answer to all.
use arigo.Base.{String, ◌≡◌, ◌⊎◌, refl, true, none, some, List, [], ◌∷◌}
use arigo.Json.{GoError, download_error, Json, str, other, decodes_string}
use arigo.Client.{Gid, replied, strings_json, get_gid, add_uri, add_uri_at_position, call}
use arigo.Client.Wait.{error, wait_error}
use arigo.Client.Downloads.{
  delete, delete_outcome, DeleteOutcome, wait_returned, context_done, after_add,
  download_with_context,
}
use arigo.Client.Downloads.Process.{
  Process, called, History, here, next, returned, uri_added, context_ends, takes_context,
}
use arigo.Client.Downloads.Process.Runs.{Run, IsOutcome, download_runs}
use arigo.Client.Downloads.Process.Ends.{ResultOf, Explains, download_ends}
use arigo.Client.Tests.{client, mirrors}
use arigo.Client.Runs.{answers_all, os_remove, path}

abbrev listing : Json
listing = strings_json (some ("a.iso" ∷ "a.iso.aria2" ∷ []))

delete_outcome_example :
    DeleteOutcome
      (answers_all listing)
      path
      os_remove
      (λ w. w)
      client
      "2089b05ecca3d829"
      []
      []
      []
      (replied listing)
      (replied listing)
delete_outcome_example =
    delete_outcome (answers_all listing) path os_remove (λ w. w) client "2089b05ecca3d829" [] [] []
      (replied listing) (replied listing) (λ p v. refl) refl refl

abbrev added : Gid
added = get_gid client "2089b05ecca3d829"

abbrev canceled : GoError
canceled = other "context canceled"

-- AddURI has given a GID, and the context is done before any event.
abbrev cancelled : Process (List String) String
cancelled = record (called []) {
  world =
      (delete {F = String} (answers_all (str "2089b05ecca3d829")) path os_remove client
        "2089b05ecca3d829" []).1;
  caller = returned added (context_done canceled) "" (some canceled);
  context = some canceled;
}

cancelled-History :
    History {F = String} {S = String}
      (answers_all (str "2089b05ecca3d829"))
      path
      os_remove
      client
      mirrors
      none
      (called [])
      cancelled
unfolding add_uri add_uri_at_position call get_gid
cancelled-History =
    next (next (next here (uri_added added [] refl refl refl)) (context_ends canceled refl refl))
      (takes_context added canceled refl refl refl)

download_ends_example :
    ResultOf {F = String} {S = String}
      (answers_all (str "2089b05ecca3d829"))
      path
      os_remove
      client
      mirrors
      none
      added
      (context_done canceled)
      ""
      (some canceled)
    × Explains {F = String} {S = String}
        (answers_all (str "2089b05ecca3d829"))
        path
        os_remove
        client
        mirrors
        none
        cancelled
        (context_done canceled)
    × ((cancelled.sent ≡ true) ⊎ (cancelled.download_done ≡ none))
download_ends_example =
    download_ends {F = String} {S = String} (answers_all (str "2089b05ecca3d829")) path os_remove
      client mirrors none [] cancelled added (context_done canceled) "" (some canceled)
      cancelled-History refl

-- A download that failed can return its status with no error, and a cancelled one is a call of the
-- function.
download_runs_example :
    ((t : Process (List String) String) × Run {F = String}
        (answers_all (str "2089b05ecca3d829"))
        path
        os_remove
        client
        mirrors
        none
        (called [])
        t
      × ((t.caller ≡ returned added (wait_returned (some download_error)) "2089b05ecca3d829" none)
          × (t.world ≡ [])))
    × IsOutcome {F = String} {S = String}
        (answers_all (str "2089b05ecca3d829"))
        path
        os_remove
        client
        mirrors
        none
        []
        cancelled
        (returned added (context_done canceled) "" (some canceled))
unfolding add_uri add_uri_at_position call get_gid download_with_context after_add wait_error
download_runs_example =
    download_runs {F = String} {S = String} (answers_all (str "2089b05ecca3d829")) path os_remove
      client mirrors none (wait_returned (some download_error)) (λ w. w) [] cancelled (error, refl)
      cancelled-History
