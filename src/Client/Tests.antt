-- ===== src/Client/Tests.antt =====
-- Calls of the client with an aria2 that answers, or that fails, and the theorems at inputs.
use arigo.Proto
use arigo.Json.{decodes_raw}
use arigo.Base.{
  ◌≤◌, ℕ, String, Bool, true, ◌==◌, get_elem?, ◌≡◌, ◌≢◌, ◌↔◌, ◌⊎◌, refl, Option, none, some, List,
  [], ◌∷◌, map, arith,
}
use text.Mathlib.TextEquality.{eq_iff}
use arigo.Json.{null, pos, Json, str, arr, obj, field, end, other, items, decodes_string}
use arigo.Codec.{panic}
use arigo.Client.{
  strings_json, get_args, Client, new_client, Slice, Rpc, failed, replied, Options,
  queue_end_position, add_uri_args, add_torrent_args, add_metalink_args,
}
use arigo.Client.Methods.{
  tell_status_args, tell_active_args, tell_range_args, change_uri, change_uri_at,
}
use arigo.Client.Multicall.{
  MethodCall, new_method_call, one, success, multi_call, multi_call-successes,
}
use arigo.Base64.{encode_to_string}
use arigo.Tags.{Coding, stored}
use arigo.Tags.Codings.{uint}
use arigo.Structs.Options.{Options as OptionsStruct}
use arigo.Structs.Options.Zero.{zero_options}
use arigo.Structs.Options.Sent.{merged}
use arigo.Client.SentOptions.{read_over, fields_of, options_delivered}
use arigo.Client.Uploads.{sent_file, upload_round_trip}
use arigo.Client.Arguments.{TooShort, anonymous, AddUriForm, documented_args, change_uri_panics}
use arigo.Client.Wait.{
  Terminal, send, receive, stop, complete, error, wait_error, State, start, subscribing,
  unsubscribing, hears, dispatch, Reach, here, next, subscribe, Returned,
}
use arigo.Client.Wait.Deadlock.{IsStuck, events_deadlock}
use arigo.Client.Wait.Results.{heard, IsErrorOf, returned_error}
use mathlib.Core.List.{Memᴰ}
use arigo.Client.Wait.Measure.{Moves, moves, one_event_ends}

abbrev pub answers : Json → Rpc Unit
answers j method args w = (replied j, w)

abbrev pub fails : Rpc Unit
fails method args w = (failed (other "connection refused"), w)

abbrev pub client : Client
client = new_client "s3cret"

abbrev pub methods : Slice MethodCall
methods = some (new_method_call Proto.pause_all none ∷ new_method_call Proto.get_version none ∷ [])

abbrev values : List Json
values = str "OK" ∷ obj (field "version" (str "1.35.0") end) ∷ []

abbrev two_answers : Rpc Unit
two_answers = answers (arr (items (map one values)))

abbrev pub gids : List String
gids = "2089b05ecca3d829" ∷ "d2703803b52216d1" ∷ []

abbrev pub mirrors : Slice String
mirrors = some ("http://example.org/file" ∷ [])

pub has_token : ◌≢◌ {A = String} "s3cret" ""
has_token = ground (arith, eq_iff "s3cret" "")

-- The completion comes when two subscriptions are there.
abbrev completed : State
completed = record start { phase = subscribing 2; sending = wait_error complete ∷ []; events = 1 }

completed-Reach : Reach start completed
unfolding hears
completed-Reach =
    next
      (next (next here (subscribe 0 refl (omega arith) refl refl))
        (subscribe 1 refl (omega arith) refl refl))
      (dispatch complete refl refl)

multi_call-successes_example :
    multi_call two_answers client methods tt ≡ (map success values, none, tt)
multi_call-successes_example = multi_call-successes two_answers client methods values tt tt refl

one_event_ends_example :
    (moves completed-Reach ≤ 9)
    × (Returned completed ⊎ Moves completed)
    × ((t : State) × Reach completed t × Returned t)
one_event_ends_example = one_event_ends completed completed-Reach refl

-- A completion after all three subscriptions, and WaitForDownload receives it.
received_run : Reach start (record start { phase = unsubscribing 3 none; events = 1 })
unfolding hears wait_error
received_run =
    next
      (next
        (next
          (next
            (next (next here (subscribe 0 refl (omega arith) refl refl))
              (subscribe 1 refl (omega arith) refl refl))
            (subscribe 2 refl (omega arith) refl refl))
          (dispatch complete refl refl))
        (send [] [] none refl refl refl))
      (receive none refl refl refl)

returned_error_example : (e : Terminal) × Memᴰ e (heard received_run) × IsErrorOf e none
returned_error_example = returned_error received_run 3 none refl

events_deadlock_example :
    ((s : State) × (run : Reach start s) × (heard run ≡ complete ∷ stop ∷ [])
      × (s.phase ≡ subscribing 2)
      × IsStuck s)
    × ((s : State) × (run : Reach start s) × (heard run ≡ error ∷ complete ∷ stop ∷ [])
        × (s.phase ≡ unsubscribing 3 (wait_error stop))
        × IsStuck s)
events_deadlock_example = events_deadlock stop complete error (λ q. cc) (λ q. cc)

documented_args_example :
    (AddUriForm (add_uri_args (anonymous client) mirrors 0 none)
      ↔ ((◌≢◌ {A = Option Options} none none) ⊎ (0 ≡ queue_end_position)))
    × (ks : List String) × (tell_status_args client "2089b05ecca3d829" none
        ≡ get_args client (some (str "2089b05ecca3d829" ∷ strings_json (some ks) ∷ [])))
    × (tell_active_args client none ≡ get_args client (some (null ∷ [])))
    × ((x : Json) × (y : Json) × (tell_range_args client (pos 0) 10 none
          ≡ get_args client (some (x ∷ y ∷ null ∷ []))))
documented_args_example = documented_args client mirrors 0 none "2089b05ecca3d829" none (pos 0) 10

change_uri_panics_example :
    ((change_uri fails client "2089b05ecca3d829" 1 none mirrors tt ≡ panic)
      ↔ TooShort (failed (other "connection refused")))
    × ((change_uri_at fails client "2089b05ecca3d829" 1 none mirrors 0 tt ≡ panic)
        ↔ TooShort (failed (other "connection refused")))
change_uri_panics_example =
    change_uri_panics fails client "2089b05ecca3d829" 1 0 none mirrors tt tt
      (failed (other "connection refused")) (λ args. refl)

-- "Man", "Ma" and "M", the examples of RFC 4648's format.
encoded :
    (encode_to_string (77 ∷ 97 ∷ 110 ∷ []) ≡ "TWFu")
    × (encode_to_string (77 ∷ 97 ∷ []) ≡ "TWE=")
    × (encode_to_string (77 ∷ []) ≡ "TQ==")
unfolding encode_to_string
encoded = (refl, refl, refl)

abbrev file_bytes : List ℕ
file_bytes = 100 ∷ 56 ∷ 255 ∷ 0 ∷ []

upload_round_trip_example :
    (sent_file client (add_torrent_args client file_bytes mirrors 3 none) ≡ some file_bytes)
    × (sent_file client (add_metalink_args client file_bytes 3 none) ≡ some file_bytes)
upload_round_trip_example =
    upload_round_trip client file_bytes mirrors 3 none
      (omega arith, (omega arith, (omega arith, (omega arith, tt))))

-- A stand-in for float32.
abbrev halves : Coding ℕ
halves = uint 32

abbrev is_zero : ℕ → Bool
is_zero n = n == 0

abbrev to_downloads : OptionsStruct ℕ
to_downloads = record (zero_options 0) { dir = "/downloads"; split = 5; check_integrity = true }

abbrev paused : OptionsStruct ℕ
paused = record (zero_options 0) { dir = "/tmp"; pause = true }

options_delivered_example :
    (read_over halves is_zero
        (get_elem? (add_uri_args client mirrors 3 (some (fields_of halves is_zero to_downloads))) 2)
        paused
      ≡ some (stored (merged halves is_zero to_downloads paused)))
    × (read_over halves is_zero
          (get_elem?
            (add_torrent_args client file_bytes mirrors 3
              (some (fields_of halves is_zero to_downloads)))
            3)
          paused
        ≡ some (stored (merged halves is_zero to_downloads paused)))
    × (read_over halves is_zero
          (get_elem?
            (add_metalink_args client file_bytes 3 (some (fields_of halves is_zero to_downloads)))
            2)
          paused
        ≡ some (stored (merged halves is_zero to_downloads paused)))
options_delivered_example =
    options_delivered halves is_zero client mirrors file_bytes 3 to_downloads paused refl
