-- ===== src/Codec/Tests.antt =====
-- Runs of the codec, and the theorems at inputs.
use arigo.Base.{◌≡◌, ◌≢◌, ◌↔◌, refl, ap, String, Option, none, some, List, [], ◌∷◌, arith}
use arigo.Base.Map
use text.Mathlib.TextEquality.{eq_iff}
use arigo.Json.{Json, null, number, str, obj, field, end, invalid_sequence, names_field}
use arigo.Codec.Wire.{Message, new_message, unmarshal_message}
use arigo.Codec.{
  Codec, Frame, done, value, Request, Response, new_json_codec, args, panic, read_header,
  request_json, write_response,
}
use arigo.Codec.RoundTrip.{IsAnswered, call_round_trip, read_header-request}
use arigo.Codec.Answers.{reads, codec_run, codec_step, codec_of, answered_once}
use arigo.Codec.Invariant.{IsWellFormed, codec_run-IsWellFormed}
use arigo.Codec.Responses.{told, response_read}
use arigo.Codec.Crash.{read_header_panics}

abbrev sprint : Json → String
sprint j = "?"

abbrev ping : Request
ping = record { method = "ping"; seq = 7 }

abbrev no_request : Request
no_request = record { method = ""; seq = 0 }

abbrev no_response : Response
no_response = record { seq = 0; error = "" }

abbrev one_answered : Codec
one_answered = record (new_json_codec []) {
  seq = 1;
  pending = Map.put 1 (some (number 7)) Map.empty;
}

abbrev reply_one : Response
reply_one = record { seq = 1; error = "" }

not_empty : ◌≢◌ {A = String} "ping" ""
not_empty = ground (arith, eq_iff "ping" "")

-- The error object of JSON-RPC 2.0 for a text that the server could not parse.
abbrev parse_error : Json
parse_error = obj (
    field "jsonrpc" (str "2.0") (
      field "id" null (
        field "error" (obj (field "code" (number 32700) (field "message" (str "Parse error") end)))
          end)))

call_round_trip_example :
    IsAnswered sprint
      (new_json_codec [])
      (new_json_codec (value (request_json ping (args [])) ∷ []))
      ping
      (args [])
      ""
      (str "pong")
      []
      no_request
      no_response
call_round_trip_example =
    call_round_trip sprint (new_json_codec [])
      (new_json_codec (value (request_json ping (args [])) ∷ [])) ping (args []) "" (str "pong") []
      [] no_request no_response not_empty (omega arith) (omega arith) refl

answered_once_example :
    write_response (write_response one_answered reply_one null none).0 reply_one null none
    ≡ ((write_response one_answered reply_one null none).0, some invalid_sequence)
unfolding codec_run
answered_once_example =
    answered_once sprint one_answered (write_response one_answered reply_one null none).0 reply_one
      reply_one null null none none [] (omega arith) (omega arith) refl refl

-- The members of parse_error, as decoded.
abbrev parse_error_message : Message
parse_error_message = record new_message {
  error = some (obj (field "code" (number 32700) (field "message" (str "Parse error") end)));
}

parse_error-decoded : unmarshal_message parse_error ≡ (parse_error_message, none)
unfolding unmarshal_message names_field
parse_error-decoded = refl

read_header_panics_example :
    (read_header sprint (new_json_codec (value parse_error ∷ [])) no_request no_response ≡ panic)
    ↔ ((◌≡◌ {A = String} "" "") × (◌≡◌ {A = Option Json} none none))
read_header_panics_example =
    read_header_panics sprint (new_json_codec (value parse_error ∷ [])) parse_error []
      parse_error_message no_request no_response refl parse_error-decoded

abbrev one_ping : List Frame
one_ping = value (request_json ping (args [])) ∷ []

-- The codec that has read the request.
abbrev pinged : Codec
pinged =
    (read_header-request sprint (new_json_codec one_ping) ping (args []) [] no_request no_response
      not_empty (omega arith) refl).0

pinged_run :
    codec_run sprint (new_json_codec one_ping) (reads no_request no_response ∷ []) ≡ done pinged
unfolding codec_run codec_step
pinged_run =
    ap (λ o. elim (codec_of sprint o) [ done d ↦ codec_run sprint d [] | panic ↦ panic ])
      ((read_header-request sprint (new_json_codec one_ping) ping (args []) [] no_request
        no_response not_empty (omega arith) refl).1)

codec_run-IsWellFormed_example : IsWellFormed pinged
codec_run-IsWellFormed_example =
    codec_run-IsWellFormed sprint one_ping (reads no_request no_response ∷ []) pinged (omega arith)
      pinged_run

-- What aria2 answers for a GID that it does not know.
abbrev not_found : Json
not_found = obj (
    field "id" (number 7) (
      field "jsonrpc" (str "2.0") (
        field "error"
          (obj (field "code" (number 1) (field "message" (str "GID#1 is not found") end))) end)))

abbrev not_found_message : Message
not_found_message = record new_message {
  id = some (number 7);
  error = some (obj (field "code" (number 1) (field "message" (str "GID#1 is not found") end)));
}

not_found-decoded : unmarshal_message not_found ≡ (not_found_message, none)
unfolding unmarshal_message names_field
not_found-decoded = refl

response_read_example :
    (c' : Codec) × (error : String) × (read_header sprint
        (new_json_codec (value not_found ∷ []))
        no_request
        no_response
      ≡ done (c', no_request, record { seq = 7; error = error }, none))
    × (c'.client_response.result ≡ none)
    × (c'.pending ≡ (new_json_codec (value not_found ∷ [])).pending)
    × (c'.enc ≡ [])
    × ((error ≡ "") ↔ ((not_found_message.error ≡ none) × (not_found_message.result ≢ none)))
    × (error ≡ told not_found_message.error error)
response_read_example =
    response_read sprint (new_json_codec (value not_found ∷ [])) not_found [] not_found_message 7
      no_request no_response refl not_found-decoded refl refl (omega arith)
