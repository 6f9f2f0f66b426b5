-- ===== src/Client/Replies.antt =====
-- The methods whose replies are structs, with the structs of the repository.
use arigo.Proto
use arigo.Base.{
  Bool, ◌≡◌, refl, ap, String, Bool, true, Option, none, some, List, [], ◌∷◌, All, map,
}
use arigo.Json.{Json, str, arr, GoError, decodes_slice, items}
use arigo.Tags.{Coding, struct_json}
use arigo.Structs.Documented.{
  documented_uri, documented_file, documented_peer, documented_file_servers, documented_stats,
  documented_session_info, documented_version_info,
}
use arigo.Structs.StatusReply.{status_entries, shown_status, unmarshal-shown_status}
use arigo.Tags.Members.{decodes, valid_members}
use arigo.Structs.Files.{File, file, Uri, uri}
use arigo.Structs.Peers.{Peer, peer, FileServers, file_servers}
use arigo.Structs.Stats.{Stats, stats, SessionInfo, session_info, VersionInfo, version_info}
use arigo.Structs.Status.{Status, status}
use arigo.Client.{Slice, Client, Rpc, replied, call, get_args, call-replied}
use arigo.Client.Methods.{
  tell_status, get_uris, get_files, get_peers, get_servers, get_global_stats, get_version,
  get_session_info, tell_status_args,
}

module _ {A : Type 0} (c : Coding A) where
  -- A reply that is what a valid value is written as.
  unmarshal-encode :
      (a : A) → c.valid a ≡ true → (decodes c).unmarshal (c.encode a) c.zero_value ≡ (a, none)
  unmarshal-encode a h =
      ap (λ (r : A × Option GoError × Bool). (r.0, r.1)) (c.store-encode a c.zero_value h)

  unmarshal_slice-encode :
      (xs : List A)
      → All (λ a. c.valid a ≡ true) xs
      → (decodes_slice ⦃d = decodes c⦄).unmarshal (arr (items (map c.encode xs))) [] ≡ (xs, none)
  unmarshal_slice-encode [] h = refl
  unmarshal_slice-encode (x ∷ xs) h =
      rw (c.store-encode x c.zero_value h.0)
        (ap (λ (r : List A × Option GoError). (x ∷ r.0, r.1)) (unmarshal_slice-encode xs h.1))

-- What an aria2 shows of itself.
pub record Aria2 (W : Type 0) : Type 0 where
  pub status_of : String → W → Status
  pub files_of : String → W → List File
  pub uris_of : String → W → List Uri
  pub peers_of : String → W → List Peer
  pub servers_of : String → W → List FileServers
  pub stats_of : W → Stats
  pub version_of : W → VersionInfo
  pub session_of : W → SessionInfo

-- Its values fit the Go types, and its replies have the form of the manual, that of TellStatus with the
-- keys that `shown` tells: not all of them are there for every download, and `keys` can ask for some.
pub record Serves {W : Type 0} (a : Aria2 W) (rpc : Rpc W) (c : Client) (shown : String → Bool)
    (gid : String) (keys : Slice String) (w : W) : Type 0 where
  pub status_valid : valid_members (status_entries shown) (a.status_of gid w) ≡ true
  pub files_valid : All (λ f. documented_file.valid f ≡ true) (a.files_of gid w)
  pub uris_valid : All (λ u. documented_uri.valid u ≡ true) (a.uris_of gid w)
  pub peers_valid : All (λ p. documented_peer.valid p ≡ true) (a.peers_of gid w)
  pub servers_valid : All (λ s. documented_file_servers.valid s ≡ true) (a.servers_of gid w)
  pub stats_valid : documented_stats.valid (a.stats_of w) ≡ true
  pub version_valid : documented_version_info.valid (a.version_of w) ≡ true
  pub session_valid : documented_session_info.valid (a.session_of w) ≡ true
  pub tells_status :
      rpc Proto.tell_status (tell_status_args c gid keys) w
      ≡ (replied (struct_json (status_entries shown) (a.status_of gid w)), w)
  pub gives_files :
      rpc Proto.get_files (get_args c (some (str gid ∷ []))) w
      ≡ (replied (arr (items (map documented_file.encode (a.files_of gid w)))), w)
  pub gives_uris :
      rpc Proto.get_uris (get_args c (some (str gid ∷ []))) w
      ≡ (replied (arr (items (map documented_uri.encode (a.uris_of gid w)))), w)
  pub gives_peers :
      rpc Proto.get_peers (get_args c (some (str gid ∷ []))) w
      ≡ (replied (arr (items (map documented_peer.encode (a.peers_of gid w)))), w)
  pub gives_servers :
      rpc Proto.get_servers (get_args c (some (str gid ∷ []))) w
      ≡ (replied (arr (items (map documented_file_servers.encode (a.servers_of gid w)))), w)
  pub gives_stats :
      rpc Proto.get_global_stats (get_args c none) w
      ≡ (replied (documented_stats.encode (a.stats_of w)), w)
  pub gives_version :
      rpc Proto.get_version (get_args c none) w
      ≡ (replied (documented_version_info.encode (a.version_of w)), w)
  pub gives_session :
      rpc Proto.get_session_info (get_args c none) w
      ≡ (replied (documented_session_info.encode (a.session_of w)), w)

module _ {W A : Type 0} (rpc : Rpc W) (d : Coding A) (method : String) (args : List Json)
    (w : W) where
  call-encode :
      (a : A)
      → d.valid a ≡ true
      → rpc method args w ≡ (replied (d.encode a), w)
      → call rpc ⦃d = decodes d⦄ method args w ≡ (a, none, w)
  call-encode a v h =
      call-replied rpc ⦃d = decodes d⦄ method args w w _ a h (unmarshal-encode d a v)

  call_slice-encode :
      (xs : List A)
      → All (λ a. d.valid a ≡ true) xs
      → rpc method args w ≡ (replied (arr (items (map d.encode xs))), w)
      → call rpc ⦃d = decodes_slice ⦃d = decodes d⦄⦄ method args w ≡ (xs, none, w)
  call_slice-encode xs v h =
      call-replied rpc ⦃d = decodes_slice ⦃d = decodes d⦄⦄ method args w w _ xs h
        (unmarshal_slice-encode d xs v)

module _ {W : Type 0} (a : Aria2 W) (rpc : Rpc W) (c : Client) where
  -- Where its values fit the Go types and its replies have the form of aria2's manual, GetFiles,
  -- GetURIs, GetPeers, GetServers, GetGlobalStats, GetVersion and GetSessionInfo read back, with no
  -- error, exactly what aria2 shows, every field of every struct; and TellStatus, with any keys, those
  -- fields whose keys are in the reply, of its bittorrent object too, and zero values in the others.
  pub replies_read_back :
      (shown : String → Bool) (gid : String) (keys : Slice String) (w : W)
      → Serves a rpc c shown gid keys w
      → (tell_status rpc ⦃d = decodes status⦄ c gid keys w
          ≡ (shown_status shown (a.status_of gid w), none, w))
        × (get_files rpc ⦃d = decodes file⦄ c gid w ≡ (a.files_of gid w, none, w))
        × (get_uris rpc ⦃d = decodes uri⦄ c gid w ≡ (a.uris_of gid w, none, w))
        × (get_peers rpc ⦃d = decodes peer⦄ c gid w ≡ (a.peers_of gid w, none, w))
        × (get_servers rpc ⦃d = decodes file_servers⦄ c gid w ≡ (a.servers_of gid w, none, w))
        × (get_global_stats rpc ⦃d = decodes stats⦄ c w ≡ (a.stats_of w, none, w))
        × (get_version rpc ⦃d = decodes version_info⦄ c w ≡ (a.version_of w, none, w))
        × (get_session_info rpc ⦃d = decodes session_info⦄ c w ≡ (a.session_of w, none, w))
  unfolding tell_status get_files get_uris get_peers get_servers get_global_stats get_version
      get_session_info
  replies_read_back shown gid keys w h = (
    call-replied rpc ⦃d = decodes status⦄ Proto.tell_status _ w w _ _ h.tells_status
        (unmarshal-shown_status shown (a.status_of gid w) h.status_valid),
    call_slice-encode rpc documented_file _ _ w _ h.files_valid h.gives_files,
    call_slice-encode rpc documented_uri _ _ w _ h.uris_valid h.gives_uris,
    call_slice-encode rpc documented_peer _ _ w _ h.peers_valid h.gives_peers,
    call_slice-encode rpc documented_file_servers _ _ w _ h.servers_valid h.gives_servers,
    call-encode rpc documented_stats _ _ w _ h.stats_valid h.gives_stats,
    call-encode rpc documented_version_info _ _ w _ h.version_valid h.gives_version,
    call-encode rpc documented_session_info _ _ w _ h.session_valid h.gives_session,
  )
