-- ===== src/Client/Arguments.antt =====
-- The arguments that the methods send, against what aria2 documents.
use arigo.Proto
use arigo.Base64.{encode_to_string}
use text.Mathlib.TextEquality.{eq_iff}
use Prim.Native.String.{◌++◌ as concat}
use arigo.Base.{
  ℕ, ◌≡◌, ◌≢◌, ◌↔◌, ◌⊎◌, inl, inr, refl, ap, ◌∙◌, String, false, Option, none, some, List, [], ◌∷◌,
  ◌==◌, arith, Bool-cases, ==_iff,
}
use arigo.Json.{
  negative, numeral, arr, cons, nil, Json, null, number, str, obj, ℤ, decodes_slice, decodes_uint,
}
use arigo.Codec.{panic}
use arigo.Client.{
  Reply, replied, decode_reply, call, Client, Slice, Options, Rpc, failed, queue_end_position,
  strings_json, get_args, add_uri_args, add_torrent_args, add_metalink_args, with_options,
  with_position,
}
use arigo.Client.Methods.{
  tell_status_args, tell_active_args, tell_range_args, two_counts, change_uri, change_uri_at,
}

-- The same client with no token.
abbrev pub anonymous : Client → Client
anonymous c = record c { auth_token = "" }

abbrev pub secret : Client → Json
secret c = str (concat "token:" c.auth_token)

pub get_args-secret :
    (c : Client) (args : Slice Json)
    → c.auth_token ≢ ""
    → get_args c args ≡ secret c ∷ get_args (anonymous c) args
unfolding get_args
get_args-secret c args h = ground (arith, eq_iff c.auth_token "")

-- What is appended goes behind a first argument.
append-secret :
    (a : Json) (args : List Json) (options : Option Options) (position : ℕ)
    → with_position (with_options (a ∷ args) options) position
      ≡ a ∷ with_position (with_options args options) position
unfolding with_options with_position
append-secret a args none position = ground arith
append-secret a args (some o) position = ground arith

pub add-secret :
    (c : Client) (js : List Json) (options : Option Options) (position : ℕ)
    → c.auth_token ≢ ""
    → with_position (with_options (get_args c (some js)) options) position
      ≡ secret c ∷ with_position (with_options (get_args (anonymous c) (some js)) options) position
add-secret c js options position h =
    ap (λ l. with_position (with_options l options) position) (get_args-secret c (some js) h)
    ∙ append-secret (secret c) (get_args (anonymous c) (some js)) options position

-- With a token, the three methods that add a download send `token:` and the token, and behind it
-- exactly what they send with none.
pub add_args_secret :
    (c : Client) (bytes : List ℕ) (us : Slice String) (position : ℕ) (options : Option Options)
    → c.auth_token ≢ ""
    → (add_uri_args c us position options
        ≡ secret c ∷ add_uri_args (anonymous c) us position options)
      × (add_torrent_args c bytes us position options
          ≡ secret c ∷ add_torrent_args (anonymous c) bytes us position options)
      × (add_metalink_args c bytes position options
          ≡ secret c ∷ add_metalink_args (anonymous c) bytes position options)
unfolding add_uri_args add_torrent_args add_metalink_args
add_args_secret c bytes us position options h = (
  add-secret c (strings_json us ∷ []) options position h,
  add-secret c (str (encode_to_string bytes) ∷ strings_json us ∷ []) options position h,
  add-secret c (str (encode_to_string bytes) ∷ []) options position h,
)

-- aria2.addUri([secret, ]uris[, options[, position]]), with no secret: options are an object, and a
-- position is a number behind them.
abbrev pub AddUriForm : List Json → Type 0
AddUriForm (u ∷ []) = Unit
AddUriForm (u ∷ obj o ∷ []) = Unit
AddUriForm (u ∷ obj o ∷ number n ∷ []) = Unit
AddUriForm _ = ⊥

not_end :
    (position : ℕ)
    → (position == queue_end_position) ≡ false
    → (◌≢◌ {A = Option Options} none none) ⊎ (position ≡ queue_end_position)
    → ⊥
not_end position e (inl q) = q refl
not_end position e (inr q) = ground arith

-- With no token, the arguments of AddURIAtPosition have the documented form exactly if options are
-- given or the position is QueueEndPosition. With another position and nil options they do not: the
-- position stands in the place of the options.
pub add_uri_args-form :
    (c : Client) (us : Slice String) (position : ℕ) (options : Option Options)
    → AddUriForm (add_uri_args (anonymous c) us position options)
      ↔ ((options ≢ none) ⊎ (position ≡ queue_end_position))
unfolding add_uri_args
add_uri_args-form c us position none = elim (Bool-cases (position == queue_end_position)) [
  | inl e ↦ rw e ((λ _. inr ((==_iff position _).0 e)), (λ _. tt))
  | inr e ↦ rw e ((λ h. absurd h), not_end position e)
]
add_uri_args-form c us position (some o) = elim (Bool-cases (position == queue_end_position)) [
  | inl e ↦ rw e ((λ _. inl (λ q. cc)), (λ _. tt))
  | inr e ↦ rw e ((λ _. inl (λ q. cc)), (λ _. tt))
]

-- TellStatus never sends null for its keys; TellActive, TellWaiting and TellStopped send null when
-- they are called with no keys.
pub keys_sent :
    (c : Client) (gid : String) (keys : Slice String) (offset : ℤ) (num : ℕ)
    → (ks : List String) × (tell_status_args c gid keys
        ≡ get_args c (some (str gid ∷ strings_json (some ks) ∷ [])))
      × (tell_active_args c none ≡ get_args c (some (null ∷ [])))
      × ((x : Json) × (y : Json) × (tell_range_args c offset num none
            ≡ get_args c (some (x ∷ y ∷ null ∷ []))))
unfolding tell_status_args tell_active_args tell_range_args
keys_sent c gid none offset num = ([], refl, refl, (_, _, refl))
keys_sent c gid (some []) offset num = ([], refl, refl, (_, _, refl))
keys_sent c gid (some (k ∷ ks)) offset num = (k ∷ ks, refl, refl, (_, _, refl))

-- With no token, the arguments of AddURIAtPosition have the form that aria2 documents exactly if
-- options are given or the position is QueueEndPosition. With or without a token, TellStatus never
-- sends null for its keys, and TellActive, TellWaiting and TellStopped send null when they are called
-- with no keys.
pub documented_args :
    (c : Client) (us : Slice String) (position : ℕ) (options : Option Options) (gid : String)
    (keys : Slice String) (offset : ℤ) (num : ℕ)
    → (AddUriForm (add_uri_args (anonymous c) us position options)
        ↔ ((options ≢ none) ⊎ (position ≡ queue_end_position)))
      × (ks : List String) × (tell_status_args c gid keys
          ≡ get_args c (some (str gid ∷ strings_json (some ks) ∷ [])))
      × (tell_active_args c none ≡ get_args c (some (null ∷ [])))
      × ((x : Json) × (y : Json) × (tell_range_args c offset num none
            ≡ get_args c (some (x ∷ y ∷ null ∷ []))))
documented_args c us position options gid keys offset num =
    let (ks, status, active, range) = keys_sent c gid keys offset num in
    (add_uri_args-form c us position options, ks, status, active, range)

-- A reply in which there are no two counts.
abbrev pub TooShort : Reply → Type 0
TooShort (replied (arr (cons added (cons deleted js)))) = ⊥
TooShort _ = Unit

two_counts-panics :
    {W : Type 0} (reply : Reply) (w : W)
    → (two_counts (decode_reply {A = List ℕ} (reply, w)) ≡ panic) ↔ TooShort reply
unfolding two_counts
two_counts-panics (failed e) w = ((λ _. tt), (λ _. refl))
two_counts-panics (replied null) w = ((λ _. tt), (λ _. refl))
two_counts-panics (replied (Json.bool b)) w = ((λ _. tt), (λ _. refl))
two_counts-panics (replied (number n)) w = ((λ _. tt), (λ _. refl))
two_counts-panics (replied (negative n)) w = ((λ _. tt), (λ _. refl))
two_counts-panics (replied (numeral t)) w = ((λ _. tt), (λ _. refl))
two_counts-panics (replied (str t)) w = ((λ _. tt), (λ _. refl))
two_counts-panics (replied (obj o)) w = ((λ _. tt), (λ _. refl))
two_counts-panics (replied (arr nil)) w = ((λ _. tt), (λ _. refl))
two_counts-panics (replied (arr (cons a nil))) w = ((λ _. tt), (λ _. refl))
two_counts-panics (replied (arr (cons a (cons b js)))) w = ((λ e. cc), (λ h. absurd h))

module _ {W : Type 0} (rpc : Rpc W) where
  -- ChangeURI and ChangeURIAt panic on every call that fails, where the reply stays nil, and on every
  -- reply that is no array of two entries or more; on such an array they return.
  pub change_uri_panics :
      (c : Client) (gid : String) (index position : ℕ) (del add : Slice String) (w w' : W)
      (reply : Reply)
      → ((args : List Json) → rpc Proto.change_uri args w ≡ (reply, w'))
      → ((change_uri rpc c gid index del add w ≡ panic) ↔ TooShort reply)
        × ((change_uri_at rpc c gid index del add position w ≡ panic) ↔ TooShort reply)
  unfolding change_uri change_uri_at call
  change_uri_panics c gid index position del add w w' reply h = (
    rw (h (get_args c (some (str gid ∷ number index ∷ strings_json del ∷ strings_json add ∷ []))))
        (two_counts-panics reply w'),
    rw (h _) (two_counts-panics reply w'),
  )
