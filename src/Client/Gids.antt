-- ===== src/Client/Gids.antt =====
-- gid.go: the methods of GID, each the method of its client for its gid. A GID with no client, such
-- as GID{}, takes the program down.
use arigo.Proto
use arigo.Base.{ℕ, ◌<◌, ◌≡◌, refl, String, Option, none, some, List, length, get_elem?}
use arigo.Json.{Json, GoError, Decodes, decodes_raw, ℤ}
use arigo.Codec.{Outcome, done, panic}
use arigo.Client
use arigo.Client.Methods
use arigo.Client.Downloads
use arigo.Client.{
  Client, Slice, Options, Rpc, replied, strings_json, Gid, zero_gid, add_metalink_args,
  add_metalink_at_position,
}
use arigo.Client.Wait.{State, start}
use arigo.Client.Metalink.{IsPadded, add_metalink-IsPadded}

abbrev on_client : {X : Type 0} → Gid → (Client → Outcome X) → Outcome X
on_client g call_of = elim g.client [ none ↦ panic | some c ↦ call_of c ]

-- String reads the field, so it does not need the client.
pub gid_string : Gid → String
gid_string g = g.gid

-- Where the waiter for the gid starts.
pub wait_for_download : Gid → Outcome State
wait_for_download g = on_client g (λ c. done start)

module _ {W : Type 0} (rpc : Rpc W) where
  pub remove : Gid → W → Outcome (Option GoError × W)
  remove g w = on_client g (λ c. done (Client.remove rpc c g.gid w))

  pub force_remove : Gid → W → Outcome (Option GoError × W)
  force_remove g w = on_client g (λ c. done (Methods.force_remove rpc c g.gid w))

  pub pause : Gid → W → Outcome (Option GoError × W)
  pause g w = on_client g (λ c. done (Methods.pause rpc c g.gid w))

  pub force_pause : Gid → W → Outcome (Option GoError × W)
  force_pause g w = on_client g (λ c. done (Methods.force_pause rpc c g.gid w))

  pub unpause : Gid → W → Outcome (Option GoError × W)
  unpause g w = on_client g (λ c. done (Methods.unpause rpc c g.gid w))

  pub change_position : Gid → ℤ → String → W → Outcome (ℤ × Option GoError × W)
  change_position g offset how w =
      on_client g (λ c. done (Methods.change_position rpc c g.gid offset how w))

  pub change_uri_at :
      Gid → ℕ → Slice String → Slice String → ℕ → W → Outcome (ℕ × ℕ × Option GoError × W)
  change_uri_at g file_index del_uris add_uris position w =
      on_client g (λ c. Methods.change_uri_at rpc c g.gid file_index del_uris add_uris position w)

  pub change_uri : Gid → ℕ → Slice String → Slice String → W → Outcome (ℕ × ℕ × Option GoError × W)
  change_uri g file_index del_uris add_uris w =
      on_client g (λ c. Methods.change_uri rpc c g.gid file_index del_uris add_uris w)

  pub change_options : Gid → Options → W → Outcome (Option GoError × W)
  change_options g changes w =
      on_client g (λ c. done (Methods.change_options rpc c g.gid changes w))

  pub remove_download_result : Gid → W → Outcome (Option GoError × W)
  remove_download_result g w =
      on_client g (λ c. done (Methods.remove_download_result rpc c g.gid w))

  module _ {A : Type 0} ⦃d : Decodes A⦄ where
    pub tell_status : Gid → Slice String → W → Outcome (A × Option GoError × W)
    tell_status g keys w = on_client g (λ c. done (Methods.tell_status rpc c g.gid keys w))

    pub get_uris : Gid → W → Outcome (List A × Option GoError × W)
    get_uris g w = on_client g (λ c. done (Methods.get_uris rpc c g.gid w))

    pub get_files : Gid → W → Outcome (List A × Option GoError × W)
    get_files g w = on_client g (λ c. done (Methods.get_files rpc c g.gid w))

    pub get_peers : Gid → W → Outcome (List A × Option GoError × W)
    get_peers g w = on_client g (λ c. done (Methods.get_peers rpc c g.gid w))

    pub get_servers : Gid → W → Outcome (List A × Option GoError × W)
    get_servers g w = on_client g (λ c. done (Methods.get_servers rpc c g.gid w))

    pub get_options : Gid → W → Outcome (A × Option GoError × W)
    get_options g w = on_client g (λ c. done (Methods.get_options rpc c g.gid w))

  pub delete :
      {F : Type 0} ⦃d : Decodes F⦄
      → (F → String)
      → (String → W → Option GoError × W)
      → Gid
      → W
      → Outcome (Option GoError × W)
  delete path os_remove g w =
      on_client g (λ c. done (Downloads.delete rpc path os_remove c g.gid w))

  -- Where AddMetalinkAtPosition gets a reply with at least one GID, its result starts with a GID on
  -- which Remove, Pause, Unpause and TellStatus panic.
  pub add_metalink_first_panics :
      (c : Client) (metalink : List ℕ) (position : ℕ) (options : Option Options) (w w' : W)
      (gids : List String)
      → 0 < length gids
      → rpc Proto.add_metalink (add_metalink_args c metalink position options) w
        ≡ (replied (strings_json (some gids)), w')
      → (g : Gid) × (get_elem? (add_metalink_at_position rpc c metalink position options w).0 0
          ≡ some g)
        × (remove g w' ≡ panic)
        × (pause g w' ≡ panic)
        × (unpause g w' ≡ panic)
        × (tell_status {A = Json} g none w' ≡ panic)
  unfolding remove pause unpause tell_status
  add_metalink_first_panics c metalink position options w w' gids some_ h =
      let (result, e, _, padding, _) =
        add_metalink-IsPadded rpc c metalink position options w w' gids h in
      (zero_gid, rw e (padding 0 some_), refl, refl, refl, refl)

  -- For a reply with n GIDs, AddMetalinkAtPosition gives twice as many and no error: the first n are
  -- the empty GID with no client, on each of which Remove, Pause, Unpause and TellStatus panic, and
  -- only behind them come the n of the reply, in order.
  pub add_metalink_padding_panics :
      (c : Client) (metalink : List ℕ) (position : ℕ) (options : Option Options) (w w' : W)
      (gids : List String) (i : ℕ)
      → i < length gids
      → rpc Proto.add_metalink (add_metalink_args c metalink position options) w
        ≡ (replied (strings_json (some gids)), w')
      → IsPadded rpc c metalink position options w w' gids
        × ((g : Gid) × (get_elem? (add_metalink_at_position rpc c metalink position options w).0 i
              ≡ some g)
            × (remove g w' ≡ panic)
            × (pause g w' ≡ panic)
            × (unpause g w' ≡ panic)
            × (tell_status {A = Json} g none w' ≡ panic))
  unfolding remove pause unpause tell_status
  add_metalink_padding_panics c metalink position options w w' gids i lt h =
      let padded = add_metalink-IsPadded rpc c metalink position options w w' gids h in
      let (result, e, _, padding, _) = padded in
      (padded, (zero_gid, rw e (padding i lt), refl, refl, refl, refl))
