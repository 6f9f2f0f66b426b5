-- ===== src/Codec/Responses.antt =====
-- What ReadHeader of jsonrpc.go makes of the responses of a server that follows JSON-RPC 2.0.
use text.Mathlib.Text.{◌==◌ as str_eq}
use text.Mathlib.TextEquality.{eq_iff}
use arigo.Base.{
  ℕ, ◌^◌, ◌<◌, ◌≡◌, ◌≢◌, ◌↔◌, refl, ap, ◌∙◌, String, Option, none, some, List, [], ◌++◌, ◌∷◌, arith,
  inl, inr, Bool-cases, Option-cases, if◌then◌else◌,
}
use arigo.Json.{arr, items, Json, Fields, end, field, number, str, obj}
use arigo.Codec.Wire.{Message, unmarshal_message}
use arigo.Codec.RoundTrip.{decode-value, read_response_header-number}
use arigo.Codec.{
  Codec, Frame, value, Request, Response, done, read_header, header_of_message, response_error,
  format_error, specified, last_message, Param, request_json, params_json, args, write_request,
  encode,
}

-- The message of an error object, if it has one that is not empty, and else this text.
abbrev pub or_text : Option String → String → String
or_text none t = t
or_text (some msg) t = if str_eq msg "" then t else msg

-- What an object has last under a key, read from its end.
pub latest : String → Fields → Option Json
latest key end = none
latest key (field k v fs) = elim (latest key fs) [
  | some j ↦ some j
  | none ↦ if str_eq k key then some v else none
]

abbrev pub text_of : Option Json → Option String
text_of (some (str s)) = some s
text_of _ = none

abbrev pub told : Option Json → String → String
told (some (obj fs)) t = or_text (text_of (latest "message" fs)) t
told _ t = t

abbrev over : Option Json → Option String → Option String
over none found = found
over (some j) found = text_of (some j)

last_message-entry :
    (k : String) (v : Json) (fs : Fields) (found : Option String)
    → last_message (field k v fs) found
      ≡ last_message fs (if str_eq k "message" then text_of (some v) else found)
last_message-entry k (str s) fs found = refl
last_message-entry k v fs found = refl

last_message-latest :
    (fs : Fields) (found : Option String) → last_message fs found ≡ over (latest "message" fs) found
unfolding latest
last_message-latest end found = refl
last_message-latest (field k v fs) found =
    let rest = last_message-latest fs (if str_eq k "message" then text_of (some v) else found) in
    last_message-entry k v fs found ∙ rest ∙ elim (Option-cases (latest "message" fs)) [
      | inr (j, e) ↦ rw e refl
      | inl e ↦ elim (Bool-cases (str_eq k "message")) [
        | inl q ↦ rw (e, q) refl
        | inr q ↦ rw (e, q) refl
      ]
    ]

over-nothing : (o : Option Json) → over o none ≡ text_of o
over-nothing none = refl
over-nothing (some j) = refl

last_message-text_of : (fs : Fields) → last_message fs none ≡ text_of (latest "message" fs)
last_message-text_of fs = last_message-latest fs none ∙ over-nothing (latest "message" fs)

specified-ne : (e : String) → specified e ≢ ""
unfolding specified
specified-ne e = elim (Bool-cases (str_eq e "")) [
  | inl q ↦ rw q (ground (arith, eq_iff "unspecified error" ""))
  | inr q ↦ rw q (ground (arith, eq_iff e "", q))
]

specified-told : (msg : String) → specified msg ≡ or_text (some msg) (specified msg)
unfolding specified
specified-told msg = ground arith

-- A request that the connection takes.
pub write_request-sent :
    (c : Codec) (r : Request) (p : Param)
    → write_request c r p none ≡ (record c { enc = c.enc ++ request_json r p ∷ [] }, none)
unfolding write_request encode
write_request-sent c r p = refl

-- What is written for a request with a list of arguments.
pub request_json-args :
    (method : String) (js : List Json) (n : ℕ)
    → 0 < n
    → request_json (record { method = method; seq = n }) (args js)
      ≡ obj (
          field "method" (str method) (field "params" (arr (items js)) (field "id" (number n) end)))
unfolding request_json params_json
request_json-args method js n h = ground (arith, h)

module _ (sprint : Json → String) where
  response_error-empty :
      (e r : Option Json) → (response_error sprint e r ≡ "") ↔ ((e ≡ none) × (r ≢ none))
  unfolding response_error
  response_error-empty (some e) r =
      (λ h. absurd (specified-ne (format_error sprint (some e)) h), λ h. cc)
  response_error-empty none none = (λ h. absurd (specified-ne "" h), λ h. absurd (h.1 refl))
  response_error-empty none (some r) = (λ h. (refl, λ q. cc), λ h. refl)

  object-told :
      (fs : Fields) (o : Option String)
      → last_message fs none ≡ o
      → specified (format_error sprint (some (obj fs)))
        ≡ or_text o (specified (format_error sprint (some (obj fs))))
  unfolding format_error
  object-told fs none e = refl
  object-told fs (some msg) e = rw (e, format_error) (specified-told msg)

  response_error-told :
      (e r : Option Json) → response_error sprint e r ≡ told e (response_error sprint e r)
  unfolding response_error
  response_error-told (some (obj fs)) r =
      object-told fs (text_of (latest "message" fs)) (last_message-text_of fs)
  response_error-told none none = refl
  response_error-told none (some r) = refl
  response_error-told (some e) r = refl

  header-response :
      (d : Codec) (n : ℕ) (req : Request) (resp : Response)
      → d.msg.method ≡ ""
      → d.msg.id ≡ some (number n)
      → n < 2 ^ 64
      → header_of_message sprint req resp (d, none)
        ≡ done (
          record d {
            client_response = record { id = n; result = d.msg.result; error = d.msg.error };
          },
          req,
          record { seq = n; error = response_error sprint d.msg.error d.msg.result },
          none,
        )
  unfolding header_of_message
  header-response d n req resp unnamed id small =
      rw ((eq_iff d.msg.method "").1 unnamed)
        (read_response_header-number sprint d n req resp small id)

  -- On a decoded response for a number of 64 bits, whatever else it has, ReadHeader gives that
  -- number and no error of its own, writes nothing, and keeps the result for ReadResponseBody. The call fails
  -- exactly if the response has an error or no result; it then fails with a text that is not empty,
  -- and where the error is an object whose last entry under "message" is a string that is not empty,
  -- the text is this string.
  pub response_read :
      (c : Codec) (j : Json) (later : List Frame) (m : Message) (n : ℕ) (req : Request)
      (resp : Response)
      → c.dec ≡ value j ∷ later
      → unmarshal_message j ≡ (m, none)
      → m.method ≡ ""
      → m.id ≡ some (number n)
      → n < 2 ^ 64
      → (c' : Codec) × (error : String) × (read_header sprint c req resp
          ≡ done (c', req, record { seq = n; error = error }, none))
        × (c'.client_response.result ≡ m.result)
        × (c'.pending ≡ c.pending)
        × (c'.enc ≡ c.enc)
        × ((error ≡ "") ↔ ((m.error ≡ none) × (m.result ≢ none)))
        × (error ≡ told m.error error)
  unfolding read_header
  response_read c j later m n req resp next e unnamed id small =
      let d : Codec = record c { dec = later; msg = m } in
      (
        record d { client_response = record { id = n; result = m.result; error = m.error } },
        response_error sprint m.error m.result,
        ap (header_of_message sprint req resp) (decode-value c j later m next e)
            ∙ header-response d n req resp unnamed id small,
        refl,
        refl,
        refl,
        response_error-empty m.error m.result,
        response_error-told m.error m.result,
      )
