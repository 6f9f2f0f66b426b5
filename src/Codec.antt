-- ===== src/Codec.antt =====
-- internal/pkg/jsonrpc/jsonrpc.go: the JSON-RPC codec that rpc2 drives.
pub mod Wire
pub mod Pending
pub mod RoundTrip
pub mod Notices
pub mod Answers
pub mod Invariant
pub mod Responses
pub mod Crash
mod Tests
use arigo.Base.{
  ℕ, ◌+◌, ◌%◌, ◌^◌, ◌≡◌, String, Bool, true, false, Option, none, some, List, [], ◌∷◌, ◌++◌, ◌==◌,
  if◌then◌else◌,
}
use Prim.Native.String.{◌++◌ as concat}
use text.Mathlib.Text.{◌==◌ as str_eq}
use arigo.Base.Map
use arigo.Base.Map.{Map}
use arigo.Json.{
  Json, null, bool, number, numeral, str, arr, obj, Items, Fields, end, field, GoError, eof,
  missing_params, invalid_sequence, other, items, list_of, nil, cons, unmarshal_error, Decodes,
  decodes_uint,
}
use Wire.{Message, raw, new_message, unmarshal_message}

-- What `json.Decoder.Decode` meets next on the connection: a value, or an error of the connection
-- or of the syntax, which the decoder returns from then on.
pub data Frame : Type 0 where
  value : Json → Frame
  broken : GoError → Frame

-- rpc2.Request and rpc2.Response, the fields that the codec uses.
pub record Request : Type 0 where
  pub method : String
  pub seq : ℕ

pub record Response : Type 0 where
  pub seq : ℕ
  pub error : String

pub record ServerRequest : Type 0 where
  pub method : String
  pub params : Option Json
  pub id : Option Json

pub record ClientResponse : Type 0 where
  pub id : ℕ
  pub result : Option Json
  pub error : Option Json

pub record Codec : Type 0 where
  pub dec : List Frame
  pub enc : List Json
  pub msg : Message
  pub server_request : ServerRequest
  pub client_response : ClientResponse
  pub pending : Map (Option Json)
  pub seq : ℕ

-- A call that panics takes the program down.
pub data Outcome (A : Type 0) : Type 0 where
  done : A → Outcome A
  panic : Outcome A

abbrev pub new_json_codec : List Frame → Codec
new_json_codec incoming = record {
  dec = incoming;
  enc = [];
  msg = new_message;
  server_request = record { method = ""; params = none; id = none };
  client_response = record { id = 0; result = none; error = none };
  pending = Map.empty;
  seq = 0;
}

-- c.dec.Decode(&c.msg), after c.msg = message{}
pub decode : Codec → Codec × Option GoError
unfolding unmarshal_message
decode c = elim c.dec [
  | [] ↦ (record c { msg = new_message }, some eof)
  | f ∷ fs ↦ elim f [
    | value j ↦ let (m, e) = unmarshal_message j in (record c { dec = fs; msg = m }, e)
    | broken e ↦ (record c { msg = new_message }, some e)
  ]
]

-- e["message"].(string) on the map that an object decodes to: the last binding of a key counts.
abbrev pub last_message : Fields → Option String → Option String
last_message end found = found
last_message (field k (str s) fs) found =
    last_message fs (if str_eq k "message" then some s else found)
last_message (field k _ fs) found = last_message fs (if str_eq k "message" then none else found)

-- An empty error text of a failed response is filled in.
pub specified : String → String
specified e = if str_eq e "" then "unspecified error" else e

-- The texts that fmt.Sprintf makes with the verb %v are a parameter.
module _ (sprint : Json → String) where
  pub format_error : Option Json → String
  format_error none = ""
  format_error (some (str e)) = e
  format_error (some (obj fs)) = elim (last_message fs none) [
    | some msg ↦ msg
    | none ↦ concat "rpc error: " (sprint (obj fs))
  ]
  format_error (some e) = concat "invalid error " (sprint e)

  -- The branch of ReadHeader for a request, which a notification is too.
  pub read_request_header : Codec → Request → Codec × Request
  read_request_header c req = elim c.msg.id [
    | none ↦ (
      record c {
        server_request = record { method = c.msg.method; params = c.msg.params; id = none };
      },
      record req { method = c.msg.method },
    )
    | some id ↦
        let seq = (c.seq + 1) % 2 ^ 64 in
        (
          record c {
            server_request = record { method = c.msg.method; params = c.msg.params; id = none };
            seq = seq;
            pending = Map.put seq (some id) c.pending;
          },
          record { method = c.msg.method; seq = seq },
        )
  ]

  pub response_error : Option Json → Option Json → String
  unfolding specified format_error
  response_error (some e) result = specified (format_error (some e))
  response_error none none = specified (format_error none)
  response_error none (some result) = ""

  -- The branch of ReadHeader for a response: c.msg.Id is dereferenced.
  pub read_response_header :
      Codec → Request → Response → Outcome (Codec × Request × Response × Option GoError)
  unfolding response_error
  read_response_header c req resp = elim c.msg.id [
    | none ↦ panic
    | some id ↦
        let (n, e) = decodes_uint.unmarshal id c.client_response.id in
        let r : ClientResponse = record { id = n; result = c.msg.result; error = c.msg.error } in
        elim e [
          | some e ↦ done (
            record c { client_response = record c.client_response { id = n } },
            req,
            resp,
            some e,
          )
          | none ↦ done (
            record c { client_response = r },
            req,
            record { seq = n; error = response_error r.error r.result },
            none,
          )
        ]
  ]

  -- ReadHeader once a message is decoded, or is not.
  pub header_of_message :
      Request
      → Response
      → Codec × Option GoError
      → Outcome (Codec × Request × Response × Option GoError)
  unfolding read_request_header read_response_header
  header_of_message req resp (c, some e) = done (c, req, resp, some e)
  header_of_message req resp (c, none) =
      if str_eq c.msg.method ""
      then read_response_header c req resp
      else (let (c', req') = read_request_header c req in done (c', req', resp, none))

  pub read_header :
      Codec → Request → Response → Outcome (Codec × Request × Response × Option GoError)
  unfolding decode header_of_message
  read_header c req resp = header_of_message req resp (decode c)

-- What ReadRequestBody is given: nothing, a slice to fill, or one value, which is filled from the
-- first of the parameters. JSON that is no array is an error.
pub data Body (A : Type 0) : Type 0 where
  no_body : Body A
  slice : List Json → Body A
  single : A → Body A

module _ {A : Type 0} ⦃d : Decodes A⦄ where
  unmarshal_params : Json → Body A → Body A × Option GoError
  unmarshal_params (arr js) (slice old) = (slice (list_of js), none)
  unmarshal_params (arr nil) (single x) = (single x, none)
  unmarshal_params (arr (cons j js)) (single x) = let (x', e) = d.unmarshal j x in (single x', e)
  unmarshal_params j x = (x, some unmarshal_error)

  unfoldable pub read_request_body : Codec → Body A → Body A × Option GoError
  unfolding unmarshal_params
  read_request_body c no_body = (no_body, none)
  read_request_body c x = elim c.server_request.params [
    | none ↦ (x, some missing_params)
    | some j ↦ unmarshal_params j x
  ]

  -- `none` for the body is the nil that rpc2 passes to skip one.
  pub read_response_body : Codec → Option A → Outcome (Option A × Option GoError)
  read_response_body c none = done (none, none)
  read_response_body c (some x) = elim c.client_response.result [
    | none ↦ panic
    | some j ↦ let (x', e) = d.unmarshal j x in done (some x', e)
  ]

-- The argument of a call: a slice of arguments, nil or not, or one value. They are what their
-- values encode to.
pub data Param : Type 0 where
  nil_args : Param
  args : List Json → Param
  one_arg : Json → Param

-- c.enc.Encode(j): the connection takes the text, or gives an error.
pub encode : Codec → Json → Option GoError → Codec × Option GoError
encode c j none = (record c { enc = c.enc ++ j ∷ [] }, none)
encode c j (some e) = (c, some e)

pub params_json : Param → Json
params_json nil_args = null
params_json (args js) = arr (items js)
params_json (one_arg j) = arr (cons j nil)

pub request_json : Request → Param → Json
unfolding params_json
request_json r param = obj (
    field "method" (str r.method) (
      field "params" (params_json param)
        (field "id" (if r.seq == 0 then null else number r.seq) end)))

pub write_request : Codec → Request → Param → Option GoError → Codec × Option GoError
unfolding encode request_json
write_request c r param io = encode c (request_json r param) io

pub response_json : Json → String → Json → Json
response_json id error x =
    if str_eq error ""
    then obj (field "id" id (field "result" x (field "error" null end)))
    else obj (field "id" id (field "result" null (field "error" (str error) end)))

-- An id that is nil is written as null.
abbrev or_null : Option Json → Json
or_null none = null
or_null (some j) = j

pub write_response : Codec → Response → Json → Option GoError → Codec × Option GoError
unfolding encode response_json
write_response c r x io = elim (Map.get r.seq c.pending) [
  | none ↦ (c, some invalid_sequence)
  | some b ↦
      encode (record c { pending = Map.delete r.seq c.pending })
        (response_json (or_null b) r.error x) io
]

-- Close passes on to the connection.
unfoldable pub close : {W : Type 0} → (W → Option GoError × W) → W → Option GoError × W
close close_conn w = close_conn w
