-- ===== src/Codec/Notices.antt =====
-- Reading a notification: a message with a method and no id.
use text.Mathlib.TextEquality.{eq_iff}
use arigo.Base.{◌≡◌, ◌≢◌, ap, ◌∙◌, String, none, List, ◌∷◌, arith}
use arigo.Json.{Json}
use arigo.Codec.Wire.{Message, unmarshal_message}
use arigo.Codec.RoundTrip.{decode-value}
use arigo.Codec.{
  Codec, Frame, value, Request, Response, done, read_header, read_request_header, header_of_message,
}

module _ (sprint : Json → String) where
  pub read_header-notice :
      (c : Codec) (j : Json) (later : List Frame) (m : Message) (req : Request) (resp : Response)
      → c.dec ≡ value j ∷ later
      → unmarshal_message j ≡ (m, none)
      → m.method ≢ ""
      → m.id ≡ none
      → read_header sprint c req resp
        ≡ done (
          record c {
            dec = later;
            msg = m;
            server_request = record { method = m.method; params = m.params; id = none };
          },
          record req { method = m.method },
          resp,
          none,
        )
  unfolding read_header header_of_message read_request_header
  read_header-notice c j later m req resp next e named no_id =
      ap (header_of_message sprint req resp) (decode-value c j later m next e)
      ∙ ground (arith, eq_iff m.method "", no_id)
