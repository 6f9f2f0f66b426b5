-- ===== src/Client.antt =====
-- client.go: the methods of Client. A method builds the list of its arguments, makes one call of
-- rpc2 and decodes the reply. rpc2.Client is a parameter: a call of a method by its name with its
-- arguments, as encoding/json writes them, acts on a world `W`.
pub mod Methods
pub mod Multicall
pub mod Arguments
pub mod Secret
pub mod Uploads
pub mod SentOptions
pub mod Metalink
pub mod Wait
pub mod Gids
pub mod Replies
pub mod Downloads
pub mod Dialling
pub mod Notifications
pub mod Delivery
pub mod Wire
mod Tests
mod Runs
mod ReplyTests
mod DialTests
mod SecretTests
mod WaitTests
mod DownloadTests
mod WireTests
use arigo.Proto
use arigo.Base64.{encode_to_string}
use text.Mathlib.Text.{◌==◌ as str_eq}
use Prim.Native.String.{◌++◌ as concat}
use arigo.Base.{
  ℕ, ◌-◌, ◌^◌, String, Bool, true, false, Option, none, some, List, [], ◌∷◌, ◌++◌, map, ◌==◌,
  if◌then◌else◌, replicate, length, ◌≡◌, refl, arith,
}
use arigo.Json.{
  Json, null, number, str, arr, obj, Fields, GoError, items, Decodes, decodes_string, decodes_slice,
}

-- QueueEndPosition is ^uint(0), with a uint of 64 bits.
abbrev pub queue_end_position : ℕ
queue_end_position = 2 ^ 64 - 1

-- A slice; `none` is nil, which encodes to null.
abbrev pub Slice : Type 0 → Type 0
Slice A = Option (List A)

abbrev pub strings_json : Slice String → Json
strings_json none = null
strings_json (some ss) = arr (items (map str ss))

-- `func URIs(uris ...string) []string`: no argument makes the nil slice.
pub uris : Slice String → Slice String
uris us = us

-- The reply of a call: an error of the connection or of aria2, or the result.
pub data Reply : Type 0 where
  failed : GoError → Reply
  replied : Json → Reply

abbrev pub Rpc : Type 0 → Type 0
Rpc W = String → List Json → W → Reply × W

pub record Client : Type 0 where
  pub closed : Bool
  pub auth_token : String

abbrev pub new_client : String → Client
new_client token = record { closed = false; auth_token = token }

-- Close of the client, with the Close of rpc2.Client for a parameter.
pub close_client :
    {W : Type 0} → (W → Option GoError × W) → Client → W → Client × Option GoError × W
close_client rpc_close c w = let (err, w') = rpc_close w in (record c { closed = true }, err, w')

-- GID: `none` is the nil client of GID{}.
pub record Gid : Type 0 where
  pub client : Option Client
  pub gid : String

abbrev pub zero_gid : Gid
zero_gid = record { client = none; gid = "" }

pub get_gid : Client → String → Gid
get_gid c gid = record { client = some c; gid = gid }

abbrev pub or_empty : Slice Json → List Json
or_empty none = []
or_empty (some js) = js

-- getArgs(args...): nil is a call with no argument.
pub get_args : Client → Slice Json → List Json
get_args c args =
    if str_eq c.auth_token ""
    then or_empty args
    else str (concat "token:" c.auth_token) ∷ or_empty args

-- An *Options that is not nil, as the object that it encodes to.
abbrev pub Options : Type 0
Options = Fields

pub with_options : List Json → Option Options → List Json
with_options args none = args
with_options args (some options) = args ++ obj options ∷ []

pub with_position : List Json → ℕ → List Json
with_position args position =
    if position == queue_end_position then args else args ++ number position ∷ []

pub add_uri_args : Client → Slice String → ℕ → Option Options → List Json
unfolding get_args with_options with_position
add_uri_args c us position options =
    with_position (with_options (get_args c (some (strings_json us ∷ []))) options) position

pub add_torrent_args : Client → List ℕ → Slice String → ℕ → Option Options → List Json
unfolding get_args with_options with_position
add_torrent_args c torrent us position options =
    with_position
      (with_options (get_args c (some (str (encode_to_string torrent) ∷ strings_json us ∷ [])))
        options)
      position

pub add_metalink_args : Client → List ℕ → ℕ → Option Options → List Json
unfolding get_args with_options with_position
add_metalink_args c metalink position options =
    with_position (with_options (get_args c (some (str (encode_to_string metalink) ∷ []))) options)
      position

-- What a call with the address of a new variable makes of the reply.
abbrev pub decode_reply : {A W : Type 0} ⦃d : Decodes A⦄ → Reply × W → A × Option GoError × W
decode_reply ⦃d⦄ (failed e, w') = (d.zero_value, some e, w')
decode_reply ⦃d⦄ (replied j, w') = let (x, e) = d.unmarshal j d.zero_value in (x, e, w')

module _ {W : Type 0} (rpc : Rpc W) where
  -- rpcClient.Call with nil for the reply.
  pub call_nil : String → List Json → W → Option GoError × W
  call_nil method args w =
      let (r, w') = rpc method args w in elim r [ failed e ↦ (some e, w') | replied j ↦ (none, w') ]

  -- rpcClient.Call with the address of a new variable for the reply.
  pub call : {A : Type 0} ⦃d : Decodes A⦄ → String → List Json → W → A × Option GoError × W
  call method args w = decode_reply (rpc method args w)

  pub add_uri_at_position :
      Client → Slice String → ℕ → Option Options → W → Gid × Option GoError × W
  unfolding call get_gid
  add_uri_at_position c us position options w =
      let (reply, err, w') = call Proto.add_uri (add_uri_args c us position options) w in
      (get_gid c reply, err, w')

  pub add_uri : Client → Slice String → Option Options → W → Gid × Option GoError × W
  add_uri c us options w = add_uri_at_position c us queue_end_position options w

  pub add_torrent_at_position :
      Client → List ℕ → Slice String → ℕ → Option Options → W → Gid × Option GoError × W
  unfolding call get_gid
  add_torrent_at_position c torrent us position options w =
      let (reply, err, w') =
        call Proto.add_torrent (add_torrent_args c torrent us position options) w in
      (get_gid c reply, err, w')

  pub add_torrent : Client → List ℕ → Slice String → Option Options → W → Gid × Option GoError × W
  add_torrent c torrent us options w =
      add_torrent_at_position c torrent us queue_end_position options w

  -- gids := make([]GID, len(reply)), and then an append for each entry of the reply.
  pub add_metalink_at_position :
      Client → List ℕ → ℕ → Option Options → W → List Gid × Option GoError × W
  unfolding call get_gid
  add_metalink_at_position c metalink position options w =
      let (reply, err, w') =
        call {A = List String} Proto.add_metalink (add_metalink_args c metalink position options)
          w in
      (replicate (length reply) zero_gid ++ map (get_gid c) reply, err, w')

  pub add_metalink : Client → List ℕ → Option Options → W → List Gid × Option GoError × W
  add_metalink c metalink options w =
      add_metalink_at_position c metalink queue_end_position options w

  pub remove : Client → String → W → Option GoError × W
  unfolding call_nil get_args
  remove c gid w = call_nil Proto.remove (get_args c (some (str gid ∷ []))) w

  -- What a call makes of a reply.
  pub call-replied :
      {A : Type 0} ⦃d : Decodes A⦄ (method : String) (args : List Json) (w w' : W) (j : Json)
      (x : A)
      → rpc method args w ≡ (replied j, w')
      → d.unmarshal j d.zero_value ≡ (x, none)
      → call method args w ≡ (x, none, w')
  unfolding call
  call-replied method args w w' j x e q = rw (e, call) (ground (arith, q))

  pub call-failed :
      {A : Type 0} ⦃d : Decodes A⦄ (method : String) (args : List Json) (w w' : W) (err : GoError)
      → rpc method args w ≡ (failed err, w')
      → call method args w ≡ (d.zero_value, some err, w')
  unfolding call
  call-failed method args w w' err e = ground arith

  -- What a call without a reply makes of it.
  pub call_nil-replied :
      (method : String) (args : List Json) (w w' : W) (j : Json)
      → rpc method args w ≡ (replied j, w')
      → call_nil method args w ≡ (none, w')
  unfolding call_nil
  call_nil-replied method args w w' j e = ground arith

  pub call_nil-failed :
      (method : String) (args : List Json) (w w' : W) (err : GoError)
      → rpc method args w ≡ (failed err, w')
      → call_nil method args w ≡ (some err, w')
  unfolding call_nil
  call_nil-failed method args w w' err e = ground arith
