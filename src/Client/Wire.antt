-- ===== src/Client/Wire.antt =====
-- A call of client.go over the codec of jsonrpc.go, with aria2 at the other end. rpc2.Client is a
-- parameter; what it does for one call is `IsCall`.
use text.Mathlib.Text.{◌==◌ as str_eq}
use text.Mathlib.TextEquality.{eq_iff}
use arigo.Base.{
  ℕ, ◌^◌, ◌<◌, ◌≡◌, ◌≢◌, ◌↔◌, refl, ap, ◌∙◌, String, Option, none, some, List, [], ◌∷◌, ◌++◌,
  if◌then◌else◌, arith,
}
use Prim.Native.String.{◌++◌ as concat}
use arigo.Json.{Json, str, arr, obj, field, end, items, number, other, Decodes}
use arigo.Codec.{
  Codec, Frame, value, Request, Response, done, args, write_request, request_json, read_header,
}
use arigo.Codec.Wire.{Message, unmarshal_message}
use arigo.Codec.Responses.{told, request_json-args, response_read, write_request-sent}
use arigo.Client.{Client, get_args, Rpc, Reply, failed, replied, call, call-failed, decode_reply}

abbrev pub blank_request : Request
blank_request = record { method = ""; seq = 0 }

abbrev pub blank_response : Response
blank_response = record { seq = 0; error = "" }

-- What rpc2.Client makes of a response: its error, if it has one, or the result that is then read.
abbrev pub reply_of : String → Option Json → Reply
reply_of e none = failed (other e)
reply_of e (some j) = if str_eq e "" then replied j else failed (other e)

module _ {W : Type 0} (sprint : Json → String) (rpc : Rpc W) (codec : W → Codec) (seq : W → ℕ)
    (after : W → Codec → W) where
  -- rpc2.Client writes a request with its next number, and returns once ReadHeader gives the
  -- response of this number, here as the next one that is read.
  abbrev pub IsCall : Type 0
  IsCall =
      (method : String) (js : List Json) (w : W) (c₁ c₂ : Codec) (req : Request) (e : String)
      → write_request (codec w) (record { method = method; seq = seq w }) (args js) none
        ≡ (c₁, none)
      → read_header sprint c₁ blank_request blank_response
        ≡ done (c₂, req, record { seq = seq w; error = e }, none)
      → rpc method js w ≡ (reply_of e c₂.client_response.result, after w c₂)

  module _ (A : Type 0) ⦃d : Decodes A⦄ (method : String) (js : List Json) (w w' : W) where
    -- What the call returns, by the error and the result of the response.
    abbrev pub Returns : Option Json → Option Json → Type 0
    Returns none (some r) =
        call rpc {A = A} method js w
        ≡ ((d.unmarshal r d.zero_value).0, (d.unmarshal r d.zero_value).1, w')
    Returns err r =
        (t : String) × (call rpc {A = A} method js w ≡ (d.zero_value, some (other t), w'))
        × (t ≢ "")
        × (t ≡ told err t)

    reply_of-failed : (r : Option Json) (e : String) → e ≢ "" → reply_of e r ≡ failed (other e)
    reply_of-failed none e h = refl
    reply_of-failed (some j) e h = ground (arith, eq_iff e "")

    reply_of-Returns :
        (err r : Option Json) (e : String)
        → rpc method js w ≡ (reply_of e r, w')
        → (e ≡ "") ↔ ((err ≡ none) × (r ≢ none))
        → e ≡ told err e
        → Returns err r
    unfolding call
    reply_of-Returns none (some r) e h empty text =
        let ok : e ≡ "" = empty.1 (refl, λ q. cc) in
        ap (decode_reply {A = A}) (h ∙ ap (λ t. (reply_of t (some r), w')) ok)
    reply_of-Returns none none e h empty text =
        (e, call-failed rpc method js w w' (other e) h, (λ q. absurd ((empty.0 q).1 refl)), text)
    reply_of-Returns (some x) r e h empty text =
        let bad : e ≢ "" = λ q. absurd (let none_of = (empty.0 q).0 in cc) in
        (
          e,
          call-failed rpc method js w w' (other e)
              (h ∙ ap (λ t. (t, w')) (reply_of-failed r e bad)),
          bad,
          text,
        )

-- The request as aria2 documents it: the token comes before all arguments.
abbrev pub documented_request : Client → String → List Json → ℕ → Json
documented_request c method js n =
    let params = if str_eq c.auth_token "" then js else str (concat "token:" c.auth_token) ∷ js in
    obj (
      field "method" (str method) (field "params" (arr (items params)) (field "id" (number n) end)))

request_json-documented :
    (c : Client) (method : String) (js : List Json) (n : ℕ)
    → 0 < n
    → request_json (record { method = method; seq = n }) (args (get_args c (some js)))
      ≡ documented_request c method js n
unfolding get_args
request_json-documented c method js n h = request_json-args method (get_args c (some js)) n h

module _ {W : Type 0} (sprint : Json → String) (rpc : Rpc W) (codec : W → Codec) (seq : W → ℕ)
    (after : W → Codec → W) where
  -- A call of a client whose request the connection takes and whose response is the next value on
  -- it, with a number of 64 bits that is not zero. The request is the one value that is written, an
  -- object with the method, the number of the call, and as params the token, if the client has
  -- one, and then all arguments in order. Where the response has a result and no error, the call
  -- returns what the result decodes to; otherwise it returns the zero value and an error whose text
  -- is not empty, and where the error is an object whose last entry under "message" is a string that
  -- is not empty, the text is this string.
  pub call_over_wire :
      (A : Type 0) ⦃d : Decodes A⦄ (c : Client) (method : String) (js : List Json) (w : W)
      (j : Json) (later : List Frame) (m : Message)
      → IsCall sprint rpc codec seq after
      → (codec w).dec ≡ value j ∷ later
      → unmarshal_message j ≡ (m, none)
      → m.method ≡ ""
      → m.id ≡ some (number (seq w))
      → 0 < seq w
      → seq w < 2 ^ 64
      → (c' : Codec) × (c'.enc ≡ (codec w).enc ++ documented_request c method js (seq w) ∷ [])
        × Returns sprint rpc codec seq after A method
            (get_args c (some js))
            w
            (after w c')
            m.error
            m.result
  call_over_wire A c method js w j later m calls next decoded unnamed id numbered small =
      let r : Request = record { method = method; seq = seq w } in
      let ps = get_args c (some js) in
      let c₁ : Codec = record (codec w) { enc = (codec w).enc ++ request_json r (args ps) ∷ [] } in
      let (c₂, e, read, result, _, enc, empty, text) =
        response_read sprint c₁ j later m (seq w) blank_request blank_response next decoded unnamed
          id small in
      (
        c₂,
        enc
            ∙ ap (λ x. (codec w).enc ++ x ∷ [])
                (request_json-documented c method js (seq w) numbered),
        reply_of-Returns sprint rpc codec seq after A method ps w (after w c₂) m.error m.result e
            (calls method ps w c₁ c₂ blank_request e (write_request-sent (codec w) r (args ps)) read
              ∙ ap (λ o. (reply_of e o, after w c₂)) result)
            empty text,
      )
