-- ===== src/Client/Uploads.antt =====
-- The files that AddTorrent and AddMetalink of client.go send.
use Prim.Native.String.{◌++◌ as concat}
use text.Mathlib.Text.{◌==◌ as str_eq}
use arigo.Base.{
  ℕ, zero, suc, ◌<◌, ◌≡◌, refl, ap, ◌∙◌, String, Option, none, some, List, [], ◌∷◌, ◌++◌, All,
  arith, inl, inr, Bool-cases, ◌==◌, if◌then◌else◌, get_elem?, length, length-append, ◌≤◌,
}
use arigo.Json.{Json, str, obj}
use arigo.Base64.{encode_to_string, decode_string, decode-encode}
use arigo.Client.{
  Client, Slice, Options, get_args, with_options, with_position, add_torrent_args,
  add_metalink_args, queue_end_position, strings_json,
}

-- Where the parameters of a method start behind the secret.
abbrev pub behind_secret : Client → ℕ
behind_secret c = if str_eq c.auth_token "" then 0 else 1

abbrev file_of : Option Json → Option (List ℕ)
file_of (some (str t)) = decode_string t
file_of _ = none

-- The file in the parameters of a call: aria2 takes the first one for its text in base64.
pub sent_file : Client → List Json → Option (List ℕ)
sent_file c args = file_of (get_elem? args (behind_secret c))

get_elem?-append :
    (xs ys : List Json) (i : ℕ) → i < length xs → get_elem? (xs ++ ys) i ≡ get_elem? xs i
get_elem?-append [] ys i h = absurd (omega arith)
get_elem?-append (x ∷ xs) ys zero h = refl
get_elem?-append (x ∷ xs) ys (suc i) h = get_elem?-append xs ys i (omega arith)

get_elem?-with_options :
    (args : List Json) (options : Option Options) (i : ℕ)
    → i < length args
    → get_elem? (with_options args options) i ≡ get_elem? args i
unfolding with_options
get_elem?-with_options args none i h = refl
get_elem?-with_options args (some o) i h = get_elem?-append args _ i h

length-with_options :
    (args : List Json) (options : Option Options) → length args ≤ length (with_options args options)
unfolding with_options
length-with_options args none = omega arith
length-with_options args (some o) = omega (arith, length-append args (obj o ∷ []))

pub get_elem?-with_position :
    (args : List Json) (position i : ℕ)
    → i < length args
    → get_elem? (with_position args position) i ≡ get_elem? args i
unfolding with_position
get_elem?-with_position args position i h = elim (Bool-cases (position == queue_end_position)) [
  | inl q ↦ rw q refl
  | inr q ↦ rw q (get_elem?-append args _ i h)
]

-- Options and a position come behind the parameters.
get_elem?-added :
    (args : List Json) (options : Option Options) (position i : ℕ)
    → i < length args
    → get_elem? (with_position (with_options args options) position) i ≡ get_elem? args i
get_elem?-added args options position i h =
    get_elem?-with_position (with_options args options) position i
      (omega (arith, length-with_options args options))
    ∙ get_elem?-with_options args options i h

get_args-first :
    (c : Client) (a : Json) (args : List Json) (options : Option Options) (position : ℕ)
    → get_elem?
        (with_position (with_options (get_args c (some (a ∷ args))) options) position)
        (behind_secret c)
      ≡ some a
unfolding get_args
get_args-first c a args options position = elim (Bool-cases (str_eq c.auth_token "")) [
  | inl q ↦ rw q (get_elem?-added (a ∷ args) options position 0 (omega arith))
  | inr q ↦ rw q (
      get_elem?-added (str (concat "token:" c.auth_token) ∷ a ∷ args) options position 1
        (omega arith))
]

-- Whatever the token, the URIs, the position and the options, AddTorrent and AddMetalink send a
-- text that stands for exactly the bytes of the file, as the first parameter behind the secret.
pub upload_round_trip :
    (c : Client) (bytes : List ℕ) (us : Slice String) (position : ℕ) (options : Option Options)
    → All (λ b. b < 256) bytes
    → (sent_file c (add_torrent_args c bytes us position options) ≡ some bytes)
      × (sent_file c (add_metalink_args c bytes position options) ≡ some bytes)
unfolding add_torrent_args add_metalink_args sent_file
upload_round_trip c bytes us position options h =
    let text : Json = str (encode_to_string bytes) in
    (
      ap file_of (get_args-first c text (strings_json us ∷ []) options position)
          ∙ decode-encode bytes h,
      ap file_of (get_args-first c text [] options position) ∙ decode-encode bytes h,
    )
