-- ===== src/Codec/Crash.antt =====
-- When ReadHeader takes the program down: it dereferences the id of a response without a test.
use text.Mathlib.TextEquality.{eq_iff}
use arigo.Base.{◌≡◌, ◌↔◌, subst, sym, String, none, List, ◌∷◌, arith}
use arigo.Json.{Json}
use arigo.Codec.Wire.{Message, unmarshal_message}
use arigo.Codec.RoundTrip.{decode-value}
use arigo.Codec.{Codec, Frame, value, Request, Response, panic, read_header, header_of_message}

module _ (sprint : Json → String) where
  header_of_message-panic :
      (c : Codec) (req : Request) (resp : Response)
      → (header_of_message sprint req resp (c, none) ≡ panic)
        ↔ ((c.msg.method ≡ "") × (c.msg.id ≡ none))
  unfolding header_of_message
  header_of_message-panic c req resp =
      (λ e. ground (arith, eq_iff c.msg.method ""), λ h. ground (arith, eq_iff c.msg.method ""))

  -- ReadHeader panics on a decoded message exactly if the message has no method and no id, where an
  -- id of null counts as none.
  pub read_header_panics :
      (c : Codec) (j : Json) (later : List Frame) (m : Message) (req : Request) (resp : Response)
      → c.dec ≡ value j ∷ later
      → unmarshal_message j ≡ (m, none)
      → (read_header sprint c req resp ≡ panic) ↔ ((m.method ≡ "") × (m.id ≡ none))
  unfolding read_header
  read_header_panics c j later m req resp next e =
      subst (λ d. (header_of_message sprint req resp d ≡ panic) ↔ ((m.method ≡ "") × (m.id ≡ none)))
        (sym (decode-value c j later m next e))
        (header_of_message-panic (record c { dec = later; msg = m }) req resp)
