-- ===== src/Client/SentOptions.antt =====
-- The options that the methods of client.go which add a download send, and what they mean to aria2.
use text.Mathlib.Text.{◌==◌ as str_eq}
use arigo.Base.{
  ℕ, ◌+◌, ◌≡◌, refl, sym, ap, ◌∙◌, String, Bool, true, Option, none, some, List, [], ◌∷◌, ◌++◌,
  arith, inl, inr, Bool-cases, get_elem?, length, length-append,
}
use arigo.Json.{Json, str, obj, Fields, GoError}
use arigo.Base64.{encode_to_string}
use arigo.Tags.{Coding, stored, store_struct, struct_json, members_json}
use arigo.Tags.Members.{valid_members}
use arigo.Structs.Options.{Options}
use arigo.Structs.Options.Fields.{option_members}
use arigo.Structs.Options.Sent.{merged, options_read_over}
use arigo.Client.{
  Client, Slice, get_args, with_options, with_position, add_uri_args, add_torrent_args,
  add_metalink_args, strings_json,
}
use arigo.Client.Uploads.{behind_secret, get_elem?-with_position}

get_elem?-last : (xs : List Json) (x : Json) → get_elem? (xs ++ x ∷ []) (length xs) ≡ some x
get_elem?-last [] x = refl
get_elem?-last (y ∷ xs) x = get_elem?-last xs x

length-get_args :
    (c : Client) (js : List Json) → length (get_args c (some js)) ≡ behind_secret c + length js
unfolding get_args
length-get_args c js = elim (Bool-cases (str_eq c.auth_token "")) [
  | inl q ↦ rw q (omega arith)
  | inr q ↦ rw q (omega arith)
]

module _ {F : Type 0} (float : Coding F) (is_zero : F → Bool) where
  -- What the receiver of a parameter makes of its own options.
  abbrev pub read_over : Option Json → Options F → Option (Options F × Option GoError × Bool)
  read_over none t = none
  read_over (some j) t = some (store_struct (option_members float is_zero) j t)

  abbrev pub fields_of : Options F → Fields
  fields_of o = members_json (option_members float is_zero) o

  -- Behind the other parameters `js` stands the object of the options.
  options_at :
      (c : Client) (js : List Json) (position : ℕ) (o : Options F)
      → get_elem?
          (with_position (with_options (get_args c (some js)) (some (fields_of o))) position)
          (behind_secret c + length js)
        ≡ some (struct_json (option_members float is_zero) o)
  unfolding with_options struct_json
  options_at c js position o =
      let args : List Json = get_args c (some js) in
      let n = length-get_args c js in
      get_elem?-with_position (args ++ obj (fields_of o) ∷ []) position
        (behind_secret c + length js)
        (omega (arith, n, length-append args (obj (fields_of o) ∷ [])))
      ∙ ap (get_elem? (args ++ obj (fields_of o) ∷ [])) (sym n)
      ∙ get_elem?-last args (obj (fields_of o))

  -- Whatever the token, the position and the other parameters, AddURI, AddTorrent and AddMetalink
  -- send valid options as the parameter behind the URIs, the URIs and the metalink: read over
  -- any options, it gives the ones that are not empty and leaves the rest, with no error.
  pub options_delivered :
      (c : Client) (us : Slice String) (bytes : List ℕ) (position : ℕ) (o t : Options F)
      → valid_members (option_members float is_zero) o ≡ true
      → (read_over
            (get_elem? (add_uri_args c us position (some (fields_of o))) (behind_secret c + 1))
            t
          ≡ some (stored (merged float is_zero o t)))
        × (read_over
              (get_elem?
                (add_torrent_args c bytes us position (some (fields_of o)))
                (behind_secret c + 2))
              t
            ≡ some (stored (merged float is_zero o t)))
        × (read_over
              (get_elem?
                (add_metalink_args c bytes position (some (fields_of o)))
                (behind_secret c + 1))
              t
            ≡ some (stored (merged float is_zero o t)))
  unfolding add_uri_args add_torrent_args add_metalink_args
  options_delivered c us bytes position o t v =
      let text : Json = str (encode_to_string bytes) in
      let over = ap (λ r. some r) (options_read_over float is_zero o t v) in
      (
        ap (λ p. read_over p t) (options_at c (strings_json us ∷ []) position o) ∙ over,
        ap (λ p. read_over p t) (options_at c (text ∷ strings_json us ∷ []) position o) ∙ over,
        ap (λ p. read_over p t) (options_at c (text ∷ []) position o) ∙ over,
      )
