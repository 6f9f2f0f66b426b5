-- ===== src/Client/WireTests.antt =====
-- A call that aria2 refuses, on a connection where its response is the next value.
use arigo.Proto
use arigo.Base.{false, ℕ, ◌+◌, ◌≡◌, refl, ap, ◌∙◌, String, Option, none, some, List, [], ◌∷◌, arith}
use arigo.Json.{
  Json, arr, items, str, obj, field, end, number, GoError, other, names_field, decodes_string,
}
use arigo.Codec.{
  Codec, new_json_codec, value, Request, Response, Outcome, done, panic, args, write_request,
  read_header,
}
use arigo.Codec.Wire.{new_message, unmarshal_message}
use arigo.Client.{get_args, Rpc, Reply, failed}
use arigo.Client.Wire.{blank_request, blank_response, reply_of, IsCall, Returns, call_over_wire}

abbrev sprint : Json → String
sprint j = "map"

-- The codec, and the number of the next call.
abbrev Connection : Type 0
Connection = Codec × ℕ

abbrev after : Connection → Codec → Connection
after w c = (c, w.1 + 1)

abbrev of_header :
    Connection → Outcome (Codec × Request × Response × Option GoError) → Reply × Connection
of_header w (done (c, req, resp, err)) = (reply_of resp.error c.client_response.result, after w c)
of_header w panic = (failed (other "panic"), w)

abbrev sent : String → List Json → Connection → Codec × Option GoError
sent method js w = write_request w.0 (record { method = method; seq = w.1 }) (args js) none

-- A client that makes one call at a time.
abbrev one_by_one : Rpc Connection
one_by_one method js w =
    of_header w (read_header sprint (sent method js w).0 blank_request blank_response)

one_by_one-IsCall : IsCall sprint one_by_one (λ w. w.0) (λ w. w.1) after
one_by_one-IsCall method js w c₁ c₂ req e written read =
    ap
      (λ (p : Codec × Option GoError).
        of_header w (read_header sprint p.0 blank_request blank_response))
      written
    ∙ ap (of_header w) read

-- What aria2 answers for a GID that it does not know.
abbrev refusal : Json
refusal = obj (field "code" (number 1) (field "message" (str "GID#1 is not found") end))

abbrev answer : Json
answer = obj (field "id" (number 7) (field "jsonrpc" (str "2.0") (field "error" refusal end)))

abbrev connection : Connection
connection = (new_json_codec (value answer ∷ []), 7)

answer-decoded :
    unmarshal_message answer
    ≡ (record new_message { id = some (number 7); error = some refusal }, none)
unfolding unmarshal_message names_field
answer-decoded = refl

call_over_wire_example :
    (c : Codec) × (c.enc
      ≡ obj (
          field "method" (str "aria2.tellStatus") (
            field "params"
              (arr (items (str "token:s3cret" ∷ str "1" ∷ [])))
              (field "id" (number 7) end)))
        ∷ [])
    × Returns sprint one_by_one
        (λ w. w.0)
        (λ w. w.1)
        after
        String
        Proto.tell_status
        (str "token:s3cret" ∷ str "1" ∷ [])
        connection
        (after connection c)
        (some refusal)
        none
unfolding get_args
call_over_wire_example =
    call_over_wire sprint one_by_one (λ w. w.0) (λ w. w.1) after String
      (record { closed = false; auth_token = "s3cret" }) Proto.tell_status (str "1" ∷ []) connection
      answer [] _ one_by_one-IsCall refl answer-decoded refl refl (omega arith) (omega arith)
