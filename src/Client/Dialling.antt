-- ===== src/Client/Dialling.antt =====
-- DialContext of client.go: the connection, the stream, the codec and the client, one on the other.
-- The dialer of gorilla/websocket and rpc2.Client are parameters. A context only goes to the dialer.
use arigo.Base.{
  ◌∷◌, Bool, ◌≡◌, refl, ap, ◌∙◌, String, true, false, Option, none, some, List, [], ℕ, arith,
}
use arigo.Json.{GoError, closed_pipe}
use arigo.Codec
use arigo.Codec.{Codec, Frame, new_json_codec}
use arigo.Wsrpc
use arigo.Wsrpc.{
  WebSocket, ReadWriteCloser, Opened, opened, failed, new_read_write_closer, closed, read, write,
}
use arigo.Wsrpc.Writes.{close-idle, read-closed, write-closed}
use arigo.Client.{Client, new_client, close_client}

pub record Dialled (R V : Type 0) : Type 0 where
  pub rwc : ReadWriteCloser R V
  pub codec : Codec
  pub client : Client

-- What a Close sees: the stream, and the world of its connection.
pub record Open (W R V : Type 0) : Type 0 where
  pub stream : ReadWriteCloser R V
  pub world : W

-- A stream that Close has left, over this world.
abbrev pub shut : {W R V : Type 0} → W → Open W R V
shut w = record { stream = closed; world = w }

-- Close of the codec, on the stream that it was made with.
unfoldable pub close_codec :
    {W R V : Type 0} → WebSocket W R V → Open W R V → Option GoError × Open W R V
unfolding Codec.close
close_codec s = Codec.close (λ x.
    let (rwc, err, w) = Wsrpc.close s x.stream x.world in (err, record { stream = rwc; world = w }))

-- Run of the client is Run of rpc2.Client.
unfoldable pub run_client : {W : Type 0} → (W → W) → Client → W → W
run_client rpc_run c w = rpc_run w

module _ {W R V Context : Type 0} (dialer : Context → String → W → Opened (List Frame) × W)
    (rpc_run : W → W) where
  -- A connection that is opened has these values to come. What is returned last are the goroutines
  -- that it leaves: `go client.Run()`.
  unfoldable pub dial_context :
      Context → String → String → W → Option (Dialled R V) × Option GoError × W × List (W → W)
  unfolding run_client
  dial_context ctx url auth_token w =
      let (ws, w') = dialer ctx url w in
      elim ws [
        | failed e ↦ (none, some e, w', [])
        | opened incoming ↦ (
          some (record {
            rwc = new_read_write_closer;
            codec = new_json_codec incoming;
            client = new_client auth_token;
          }),
          none,
          w',
          run_client rpc_run (new_client auth_token) ∷ [],
        )
      ]

  pub dial :
      Context → String → String → W → Option (Dialled R V) × Option GoError × W × List (W → W)
  dial background url auth_token w = dial_context background url auth_token w

module _ {W R V : Type 0} (s : WebSocket W R V) where
  close_codec-idle :
      (x : Open W R V)
      → x.stream.ws ≡ true
      → x.stream.w ≡ none
      → close_codec s x ≡ ((s.close_conn x.world).0, shut (s.close_conn x.world).1)
  unfolding close_codec
  close_codec-idle x there idle =
      ap
        (λ (r : ReadWriteCloser R V × Option GoError × W).
          (r.1, record { stream = r.0; world = r.2 }))
        (close-idle s x.stream x.world there idle)

  -- Close of rpc2.Client, on a state `X` that has the stream of its codec and tells whether Close was
  -- called: the first call closes the codec and gives its error, and any later one does nothing and
  -- gives ErrShutdown.
  pub record IsRpcClose {X : Type 0} (open_of : X → Open W R V) (closing : X → Bool)
      (err_shutdown : GoError) (rpc_close : X → Option GoError × X) : Type 0 where
    pub at_first :
        (x : X)
        → closing x ≡ false
        → ((rpc_close x).0 ≡ (close_codec s (open_of x)).0)
          × (open_of (rpc_close x).1 ≡ (close_codec s (open_of x)).1)
          × (closing (rpc_close x).1 ≡ true)
    pub again : (x : X) → closing x ≡ true → rpc_close x ≡ (some err_shutdown, x)

  module _ {X Context : Type 0} (dialer : Context → String → W → Opened (List Frame) × W)
      (rpc_run : W → W) (open_of : X → Open W R V) (closing : X → Bool) (err_shutdown : GoError)
      (rpc_close : X → Option GoError × X) where
    -- Where the dialer opens a connection, DialContext gives a client that is not closed with the
    -- token, over a stream and a codec that nothing went through, and Run is the one goroutine that
    -- it leaves. The first Close of this client, once the stream has no open message, closes the
    -- connection and gives its error; from then on Read and Write of the stream give
    -- io.ErrClosedPipe, and a second Close gives the ErrShutdown of rpc2 and changes nothing.
    pub dial_then_close :
        (ctx : Context) (url auth_token : String) (w w' : W) (incoming : List Frame) (x : X) (y : W)
        (fuel len : ℕ) (p : List ℕ)
        → IsRpcClose open_of closing err_shutdown rpc_close
        → dialer ctx url w ≡ (opened incoming, w')
        → closing x ≡ false
        → (open_of x).stream.ws ≡ true
        → (open_of x).stream.w ≡ none
        → (c : Client) × (c ≡ record { closed = false; auth_token = auth_token })
          × (dial_context {R = R} {V = V} dialer rpc_run ctx url auth_token w ≡ (
            some (record {
              rwc = record { ws = true; r = none; w = none };
              codec = new_json_codec incoming;
              client = c;
            }),
            none,
            w',
            rpc_run ∷ [],
          ))
          × (c' : Client) × (x' : X) × (c' ≡ record c { closed = true })
          × (close_client rpc_close c x ≡ (c', (s.close_conn (open_of x).world).0, x'))
          × (open_of x' ≡ shut (s.close_conn (open_of x).world).1)
          × (close_client rpc_close c' x' ≡ (c', some err_shutdown, x'))
          × (read s fuel (open_of x').stream false len y ≡ some (closed, [], some closed_pipe, y))
          × (write s fuel (open_of x').stream false p y ≡ some (closed, 0, some closed_pipe, y))
    unfolding dial_context run_client close_client
    dial_then_close ctx url auth_token w w' incoming x y fuel len p h dials fresh there idle =
        let c : Client = new_client auth_token in
        let (err, left, over) = h.at_first x fresh in
        let codec = close_codec-idle (open_of x) there idle in
        let shut_now = left ∙ ap (λ (r : Option GoError × Open W R V). r.1) codec in
        (
          c,
          refl,
          ground (arith, dials),
          record c { closed = true },
          (rpc_close x).1,
          refl,
          ap (λ e. (record c { closed = true }, e, (rpc_close x).1))
              (err ∙ ap (λ (r : Option GoError × Open W R V). r.0) codec),
          shut_now,
          ap (λ (r : Option GoError × X). (record c { closed = true }, r.0, r.1))
              (h.again (rpc_close x).1 over),
          ap (λ (o : Open W R V). read s fuel o.stream false len y) shut_now
              ∙ read-closed s fuel len false y,
          ap (λ (o : Open W R V). write s fuel o.stream false p y) shut_now
              ∙ write-closed s fuel false p y,
        )
