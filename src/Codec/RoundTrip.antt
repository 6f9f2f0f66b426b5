-- ===== src/Codec/RoundTrip.antt =====
-- A request from one codec to another and the response back.
use text.Mathlib.Text.{◌==◌ as str_eq}
use text.Mathlib.TextEquality.{eq_iff}
use arigo.Base.{
  ℕ, ◌+◌, ◌%◌, ◌^◌, ◌<◌, ◌≡◌, ◌≢◌, refl, String, none, some, List, [], ◌∷◌, ◌++◌, ◌==◌,
  if◌then◌else◌, arith, inl, inr, Bool-cases, ◌∙◌, ap, sym,
}
use arigo.Base.Map
use arigo.Base.Map.{Map, map_laws}
use arigo.Json.{Json, null, number, str, names_field}
use arigo.Codec.Wire.{Message, raw, new_message, unmarshal_message}
use arigo.Codec.{
  Codec, Frame, value, Request, Response, done, Param, decode, read_header, header_of_message,
  read_response_header, request_json, response_json, write_response, params_json, response_error,
}

-- What the codec of the other side makes of a request, and of a response.
pub unmarshal-request_json :
    (r : Request) (p : Param)
    → unmarshal_message (request_json r p) ≡ (
      record new_message {
        method = r.method;
        params = raw (params_json p);
        id = if r.seq == 0 then none else some (number r.seq);
      },
      none,
    )
unfolding unmarshal_message request_json names_field
unmarshal-request_json r p = ground arith

pub unmarshal-response_json :
    (id : Json) (error : String) (x : Json)
    → unmarshal_message (response_json id error x) ≡ (
      record new_message {
        id = raw id;
        result = if str_eq error "" then raw x else none;
        error = if str_eq error "" then none else some (str error);
      },
      none,
    )
unfolding unmarshal_message response_json names_field
unmarshal-response_json id error x = ground arith

-- The error that the caller gets for a response with this error and this result: a nil result
-- reads as an error too.
abbrev pub reported : String → Json → String
reported error null = if str_eq error "" then "unspecified error" else error
reported error _ = error

pub decode-value :
    (c : Codec) (j : Json) (later : List Frame) (m : Message)
    → c.dec ≡ value j ∷ later
    → unmarshal_message j ≡ (m, none)
    → decode c ≡ (record c { dec = later; msg = m }, none)
unfolding decode
decode-value c j later m next e = rw next (ground (arith, e))

module _ (sprint : Json → String) where
  -- The codec on the other side reads the method and the parameters of a request, and keeps its
  -- id under the number that it hands on.
  pub read_header-request :
      (c : Codec) (r : Request) (p : Param) (later : List Frame) (req : Request) (resp : Response)
      → r.method ≢ ""
      → r.seq ≢ 0
      → c.dec ≡ value (request_json r p) ∷ later
      → (c' : Codec) × (read_header sprint c req resp
          ≡ done (c', record { method = r.method; seq = (c.seq + 1) % 2 ^ 64 }, resp, none))
        × (c'.dec ≡ later)
        × (c'.server_request.params ≡ raw (params_json p))
        × (c'.pending ≡ Map.put ((c.seq + 1) % 2 ^ 64) (some (number r.seq)) c.pending)
  unfolding read_header
  read_header-request c r p later req resp named numbered next =
      let m : Message = record new_message {
        method = r.method;
        params = raw (params_json p);
        id = some (number r.seq);
      } in
      let k : ℕ = (c.seq + 1) % 2 ^ 64 in
      let d : decode c ≡ (record c { dec = later; msg = m }, none) =
        decode-value c _ later m next (ground (arith, unmarshal-request_json r p)) in
      (
        record c {
          dec = later;
          msg = m;
          server_request = record { method = r.method; params = raw (params_json p); id = none };
          seq = k;
          pending = Map.put k (some (number r.seq)) c.pending;
        },
        ap (header_of_message sprint req resp) d ∙ ground (arith, eq_iff r.method ""),
        refl,
        refl,
        refl,
      )

  response_error-reported :
      (error : String) (x : Json)
      → response_error sprint
          (if str_eq error "" then none else some (str error))
          (if str_eq error "" then raw x else none)
        ≡ reported error x
  unfolding response_error
  response_error-reported error null = ground arith
  response_error-reported error x = elim (Bool-cases (str_eq error "")) [
    | inl e ↦ rw e (sym ((eq_iff error "").0 e))
    | inr e ↦ rw e (ground arith)
  ]

  pub read_response_header-number :
      (c : Codec) (n : ℕ) (req : Request) (resp : Response)
      → n < 2 ^ 64
      → c.msg.id ≡ some (number n)
      → read_response_header sprint c req resp
        ≡ done (
          record c {
            client_response = record { id = n; result = c.msg.result; error = c.msg.error };
          },
          req,
          record { seq = n; error = response_error sprint c.msg.error c.msg.result },
          none,
        )
  unfolding read_response_header
  read_response_header-number c n req resp small e = rw (e, read_response_header) (ground arith)

  pub read_header-response :
      (c : Codec) (n : ℕ) (error : String) (x : Json) (later : List Frame) (req : Request)
      (resp : Response)
      → n < 2 ^ 64
      → c.dec ≡ value (response_json (number n) error x) ∷ later
      → (c' : Codec) × (read_header sprint c req resp
          ≡ done (c', req, record { seq = n; error = reported error x }, none))
        × (c'.dec ≡ later)
        × (c'.client_response.result ≡ (if str_eq error "" then raw x else none))
  unfolding read_header
  read_header-response c n error x later req resp small next =
      let m : Message = record new_message {
        id = some (number n);
        result = if str_eq error "" then raw x else none;
        error = if str_eq error "" then none else some (str error);
      } in
      let d : decode c ≡ (record c { dec = later; msg = m }, none) =
        decode-value c _ later m next (unmarshal-response_json (number n) error x) in
      let c' : Codec = record c {
        dec = later;
        msg = m;
        client_response = record { id = n; result = m.result; error = m.error };
      } in
      (
        c',
        ap (header_of_message sprint req resp) d
            ∙ read_response_header-number (record c { dec = later; msg = m }) n req resp small refl
            ∙ ap (λ t. done (c', req, record { seq = n; error = t }, none))
                (response_error-reported error x),
        refl,
        refl,
      )

  -- A kept id is answered with, once: the entry is gone afterwards.
  write_response-pending :
      (c : Codec) (k : ℕ) (id : Json) (error : String) (x : Json)
      → Map.get k c.pending ≡ some (some id)
      → write_response c (record { seq = k; error = error }) x none ≡ (
        record c { pending = Map.delete k c.pending; enc = c.enc ++ response_json id error x ∷ [] },
        none,
      )
  unfolding write_response
  write_response-pending c k id error x e = rw (e, write_response) refl

  -- `b` reads the request and answers it, and `a` reads the answer.
  abbrev pub IsAnswered :
      Codec → Codec → Request → Param → String → Json → List Frame → Request → Response → Type 0
  IsAnswered a b r p error x gs req resp =
      (b' : Codec) × (k : ℕ) × (read_header sprint b req resp
        ≡ done (b', record { method = r.method; seq = k }, resp, none))
      × (b'.server_request.params ≡ raw (params_json p))
      × (b'' : Codec) × (j : Json) × (write_response b' (record { seq = k; error = error }) x none
          ≡ (b'', none))
      × (b''.enc ≡ b'.enc ++ j ∷ [])
      × (Map.get k b''.pending ≡ none)
      × (a' : Codec) × (read_header sprint (record a { dec = value j ∷ gs }) req resp
          ≡ done (a', req, record { seq = r.seq; error = reported error x }, none))
      × (a'.client_response.result ≡ (if str_eq error "" then raw x else none))

  -- A call from `a` to `b` and back. Where `a` asks with a method and a sequence number other than
  -- 0 and below 2^64, and its request is the next value that `b` reads, `b` hands on the method and
  -- the parameters under a number k; the answer that `b` writes for k, with any error and result,
  -- reads back in `a` under the sequence number of the request, with the error that `reported`
  -- gives and, where there was no error, with the result; and k is no longer pending in `b`.
  pub call_round_trip :
      (a b : Codec) (r : Request) (p : Param) (error : String) (x : Json) (fs gs : List Frame)
      (req : Request) (resp : Response)
      → r.method ≢ ""
      → r.seq ≢ 0
      → r.seq < 2 ^ 64
      → b.dec ≡ value (request_json r p) ∷ fs
      → IsAnswered a b r p error x gs req resp
  call_round_trip a b r p error x fs gs req resp named numbered small next =
      let (b', read, _, params, kept) = read_header-request b r p fs req resp named numbered next in
      let k : ℕ = (b.seq + 1) % 2 ^ 64 in
      let j : Json = response_json (number r.seq) error x in
      let (a', back, _, result) =
        read_header-response (record a { dec = value j ∷ gs }) r.seq error x gs req resp small
          refl in
      (
        b',
        k,
        read,
        params,
        record b' { pending = Map.delete k b'.pending; enc = b'.enc ++ j ∷ [] },
        j,
        write_response-pending b' k (number r.seq) error x
            (rw kept (Map.get-put_self k _ b.pending)),
        refl,
        Map.get-delete_self k b'.pending,
        a',
        back,
        result,
      )
