-- ===== src/Client/Metalink.antt =====
-- The result of AddMetalink.
use arigo.Proto
use arigo.Base.{
  ℕ, ◌*◌, ◌≡◌, refl, ap, String, Option, none, some, List, ◌++◌, map, arith, length, length-append,
  length-replicate, length-map, replicate, get_elem?, suc, zero, ◌<◌, drop,
}
use arigo.Json.{GoError, unmarshal-strs, decodes_slice, decodes_string}
use arigo.Client.{
  Client, Options, Rpc, replied, strings_json, Gid, zero_gid, get_gid, add_metalink_args,
  add_metalink_at_position, call-replied,
}

padded {ℓ} : {A : Type ℓ} (n : ℕ) (a : A) (xs : List A) → drop n (replicate n a ++ xs) ≡ xs
padded zero a xs = refl
padded (suc n) a xs = padded n a xs

padding {ℓ} :
    {A : Type ℓ} (n i : ℕ) (a : A) (xs : List A)
    → i < n
    → get_elem? (replicate n a ++ xs) i ≡ some a
padding zero i a xs h = elim h [ ]
padding (suc n) zero a xs h = refl
padding (suc n) (suc i) a xs h = padding n i a xs (omega arith)

module _ {W : Type 0} (rpc : Rpc W) where
  -- The result has an empty GID for each of `gids`, and then these.
  abbrev pub IsPadded : Client → List ℕ → ℕ → Option Options → W → W → List String → Type 0
  IsPadded c metalink position options w w' gids =
      (result : List Gid) × (add_metalink_at_position rpc c metalink position options w
        ≡ (result, none, w'))
      × (length result ≡ 2 * length gids)
      × ((i : ℕ) → i < length gids → get_elem? result i ≡ some zero_gid)
      × (drop (length gids) result ≡ map (get_gid c) gids)

  -- For a reply with n GIDs, AddMetalinkAtPosition gives twice as many and no error: the first n
  -- are the empty GID with no client, and only behind them come the n of the reply, in order.
  pub add_metalink-IsPadded :
      (c : Client) (metalink : List ℕ) (position : ℕ) (options : Option Options) (w w' : W)
      (gids : List String)
      → rpc Proto.add_metalink (add_metalink_args c metalink position options) w
        ≡ (replied (strings_json (some gids)), w')
      → IsPadded c metalink position options w w' gids
  unfolding add_metalink_at_position
  add_metalink-IsPadded c metalink position options w w' gids h =
      let result : List Gid = replicate (length gids) zero_gid ++ map (get_gid c) gids in
      (
        result,
        ap
            (λ (r : List String × Option GoError × W).
              (replicate (length r.0) zero_gid ++ map (get_gid c) r.0, r.1, r.2))
            (call-replied rpc {A = List String} Proto.add_metalink _ w w' _ gids h
              (unmarshal-strs gids)),
        omega (
          arith,
          length-append (replicate (length gids) zero_gid) (map (get_gid c) gids),
          length-replicate (length gids) zero_gid,
          length-map (get_gid c) gids,
        ),
        λ i lt. padding (length gids) i zero_gid _ lt,
        padded (length gids) zero_gid _,
      )
