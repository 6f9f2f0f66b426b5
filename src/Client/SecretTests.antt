-- ===== src/Client/SecretTests.antt =====
-- The calls of a client with a token on a connection that keeps what is sent.
use arigo.Base.{String, List, [], ◌∷◌, none}
use arigo.Json.{Json, str, end, pos, decodes_string}
use arigo.Client.{Rpc, replied}
use arigo.Client.Arguments.{anonymous}
use arigo.Client.Secret.{with_secret, SameAdds, SameOrders, SameReplies}
use arigo.Client.Secret.AllCalls.{token_as_secret}
use arigo.Client.Tests.{client, has_token, methods, mirrors}

abbrev recorded : Rpc (List (String × List Json))
recorded method args w = (replied (str "OK"), (method, args) ∷ w)

token_as_secret_example :
    SameAdds recorded
      (with_secret client recorded)
      client
      (anonymous client)
      (65 ∷ [])
      mirrors
      none
      3
      []
    × SameOrders recorded
        (with_secret client recorded)
        client
        (anonymous client)
        "2089b05ecca3d829"
        "dir"
        "/tmp"
        end
        []
    × SameReplies String recorded
        (with_secret client recorded)
        client
        (anonymous client)
        "2089b05ecca3d829"
        "POS_SET"
        (pos 0)
        1
        3
        none
        mirrors
        none
        methods
        []
token_as_secret_example =
    token_as_secret recorded client has_token {A = String} (65 ∷ []) "2089b05ecca3d829" "dir" "/tmp"
      "POS_SET" end none (pos 0) 1 3 none mirrors none methods []
