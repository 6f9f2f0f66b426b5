-- ===== src/Codec/Pending.antt =====
-- The ids of the requests that wait for a response, through any history of the codec.
use text.Mathlib.Text.{◌==◌ as str_eq}
use arigo.Base.{
  ◌+◌, ◌%◌, ◌^◌, ◌≡◌, ◌∙◌, String, Option, none, some, arith, inl, inr, Bool-cases, Option-cases,
}
use arigo.Base.Map
use arigo.Base.Map.{Map, map_laws}
use arigo.Json.{Json, GoError}
use arigo.Codec.{
  Codec, Request, Response, done, decode, read_header, read_request_header, read_response_header,
  header_of_message,
}

-- What one ReadHeader does to the table: nothing, or it files one id under the next number, which
-- it hands on.
pub data Files (c c' : Codec) (req' : Request) : Type 0 where
  nothing : c'.pending ≡ c.pending → c'.seq ≡ c.seq → Files c c' req'
  filed :
      (id : Json)
      → c'.seq ≡ (c.seq + 1) % 2 ^ 64
      → c'.pending ≡ Map.put c'.seq (some id) c.pending
      → req'.seq ≡ c'.seq
      → Files c c' req'

module _ (sprint : Json → String) where
  decode-table : (c : Codec) → ((decode c).0.pending ≡ c.pending) × ((decode c).0.seq ≡ c.seq)
  unfolding decode
  decode-table c = ground arith

  request-Files :
      (c : Codec) (req : Request)
      → Files c (read_request_header sprint c req).0 (read_request_header sprint c req).1
  unfolding read_request_header
  request-Files c req = elim (Option-cases c.msg.id) [
    | inl e ↦ nothing (ground arith) (ground arith)
    | inr (id, e) ↦ filed id (ground arith) (ground arith) (ground arith)
  ]

  response-table :
      (c : Codec) (req : Request) (resp : Response) (c' : Codec) (req' : Request) (resp' : Response)
      (e : Option GoError)
      → read_response_header sprint c req resp ≡ done (c', req', resp', e)
      → (c'.pending ≡ c.pending) × (c'.seq ≡ c.seq)
  unfolding read_response_header
  response-table c req resp c' req' resp' e h = ground arith

  -- ReadHeader that does not panic files at most the id of the request that it read.
  pub read_header-Files :
      (c : Codec) (req : Request) (resp : Response) (c' : Codec) (req' : Request) (resp' : Response)
      (e : Option GoError)
      → read_header sprint c req resp ≡ done (c', req', resp', e)
      → Files c c' req'
  unfolding read_header
  read_header-Files c req resp c' req' resp' e h = go (decode c).0 (decode c).1 (decode-table c) h
    where
      go :
          (d : Codec) (o : Option GoError)
          → (d.pending ≡ c.pending) × (d.seq ≡ c.seq)
          → header_of_message sprint req resp (d, o) ≡ done (c', req', resp', e)
          → Files c c' req'
      go d (some _) t q = nothing (ground arith) (ground arith)
      go d none t q = elim (Bool-cases (str_eq d.msg.method "")) [
        | inl m ↦
            let r = response-table d req resp c' req' resp' e (ground arith) in
            nothing (r.0 ∙ t.0) (r.1 ∙ t.1)
        | inr m ↦ elim (request-Files d req) [
          | nothing p s ↦ nothing (ground arith) (ground arith)
          | filed id s p k ↦ filed id (ground arith) (ground arith) (ground arith)
        ]
      ]
