-- ===== src/Client/DialTests.antt =====
-- A client that is dialled and closed.
use arigo.Base.{
  Bool, Option, ℕ, ◌+◌, ◌≡◌, refl, String, true, false, none, some, List, [], ◌∷◌, length,
}
use arigo.Json.{GoError, other, eof, closed_pipe}
use arigo.Codec.{Frame, new_json_codec}
use arigo.Wsrpc
use arigo.Wsrpc.{WebSocket, Opened, closed}
use arigo.Client.{Client, close_client}
use arigo.Client.Dialling.{IsRpcClose, Open, close_codec, dial_context, shut, dial_then_close}

-- A WebSocket that counts how often it is closed.
abbrev socket : WebSocket ℕ Unit Unit
socket = record {
  next_reader = λ w. (Wsrpc.failed eof, w);
  read = λ r k w. ([], some eof, w);
  next_writer = λ w. (Wsrpc.opened tt, w);
  write = λ v p w. (length p, none, w);
  close_writer = λ v w. (none, w);
  close_conn = λ w. (none, w + 1);
}

abbrev dialler : Unit {0} → String → ℕ → Opened (List Frame) × ℕ
dialler ctx url w = (Wsrpc.opened [], w)

abbrev open_stream : Open ℕ Unit Unit
open_stream = record { stream = record { ws = true; r = some tt; w = none }; world = 0 }

-- rpc2.Client, once it can be closed.
abbrev Rpc2 : Type 0
Rpc2 = Open ℕ Unit Unit × Bool

abbrev err_shutdown : GoError
err_shutdown = other "connection is shut down"

abbrev rpc_close : Rpc2 → Option GoError × Rpc2
rpc_close (x, true) = (some err_shutdown, (x, true))
rpc_close (x, false) = let (err, y) = close_codec socket x in (err, (y, true))

rpc_close-at_first :
    (x : Rpc2)
    → x.1 ≡ false
    → ((rpc_close x).0 ≡ (close_codec socket x.0).0)
      × ((rpc_close x).1.0 ≡ (close_codec socket x.0).1)
      × ((rpc_close x).1.1 ≡ true)
rpc_close-at_first (x, false) h = (refl, refl, refl)
rpc_close-at_first (x, true) h = cc

rpc_close-again : (x : Rpc2) → x.1 ≡ true → rpc_close x ≡ (some err_shutdown, x)
rpc_close-again (x, true) h = refl
rpc_close-again (x, false) h = cc

rpc_close-IsRpcClose : IsRpcClose socket (λ (x : Rpc2). x.0) (λ x. x.1) err_shutdown rpc_close
rpc_close-IsRpcClose = record { at_first = rpc_close-at_first; again = rpc_close-again }

dial_then_close_example :
    (c : Client) × (c ≡ record { closed = false; auth_token = "s3cret" })
    × (dial_context {W = ℕ} {R = Unit} {V = Unit} dialler
          (λ w. w)
          tt
          "ws://127.0.0.1:6800/jsonrpc"
          "s3cret"
          0
        ≡ (
          some (record {
            rwc = record { ws = true; r = none; w = none };
            codec = new_json_codec [];
            client = c;
          }),
          none,
          0,
          (λ w. w) ∷ [],
        ))
    × (c' : Client) × (x' : Rpc2) × (c' ≡ record c { closed = true })
    × (close_client rpc_close c (open_stream, false) ≡ (c', none, x'))
    × (x'.0 ≡ shut 1)
    × (close_client rpc_close c' x' ≡ (c', some err_shutdown, x'))
    × (Wsrpc.read socket 4 x'.0.stream false 3 9 ≡ some (closed, [], some closed_pipe, 9))
    × (Wsrpc.write socket 4 x'.0.stream false (1 ∷ []) 9 ≡ some (closed, 0, some closed_pipe, 9))
dial_then_close_example =
    dial_then_close socket dialler (λ w. w) (λ (x : Rpc2). x.0) (λ x. x.1) err_shutdown rpc_close tt
      "ws://127.0.0.1:6800/jsonrpc" "s3cret" 0 0 [] (open_stream, false) 9 4 3 (1 ∷ [])
      rpc_close-IsRpcClose refl refl refl refl
