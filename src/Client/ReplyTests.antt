-- ===== src/Client/ReplyTests.antt =====
-- An aria2 with one download, a notification of it, and the theorems at inputs.
use package.text.Mathlib.Text.{◌==◌ as str_eq}
use arigo.Proto
use arigo.Base.{Bool, not, String, ◌≡◌, refl, true, none, [], ◌∷◌, if◌then◌else◌, map}
use arigo.Json.{Json, pos, arr, items, decodes_slice}
use arigo.Tags.{struct_json}
use arigo.Structs.Documented.{
  documented_uri, documented_file, documented_peer, documented_file_servers, documented_stats,
  documented_session_info, documented_version_info,
}
use arigo.Structs.StatusReply.{status_entries}
use arigo.Tags.Members.{decodes}
use arigo.Tags.Quoted.{in_int64}
use arigo.Structs.Files.{File, file, Uri, uri}
use arigo.Structs.Peers.{Peer, peer, FileServers, file_servers, zero_peer}
use arigo.Structs.Stats.{stats, zero_stats, session_info, version_info}
use arigo.Structs.Status.{
  Status, status, zero_status, status_active, zero_bit_torrent_status, unix, is_whole,
}
use arigo.Codec.{
  Codec, new_json_codec, value, Request, Response, done, read_header, single, read_request_body,
}
use arigo.Events.{EventTarget, new_target, dispatch, complete_event}
use arigo.Client.{Rpc, Reply, replied}
use arigo.Client.Methods.{
  tell_status, get_uris, get_files, get_peers, get_servers, get_global_stats, get_version,
  get_session_info,
}
use arigo.Client.Notifications.{download_event, on_notification}
use arigo.Client.Delivery.{notification_json, notification_delivered}
use arigo.Client.Replies.{Aria2, Serves, replies_read_back}
use arigo.Client.Tests.{client}

abbrev mirror : Uri
mirror = record { uri = "http://example.org/file"; status = "used" }

abbrev shown_file : File
shown_file = record {
  index = pos 1;
  path = "/downloads/file";
  length = 34896138;
  completed_length = 8912896;
  selected = true;
  uris = mirror ∷ [];
}

abbrev told_status : Status
told_status = record zero_status {
  gid = "2089b05ecca3d829";
  status = status_active;
  total_length = 34896138;
  completed_length = 8912896;
  files = shown_file ∷ [];
  bit_torrent = record zero_bit_torrent_status { creation_date = unix (pos 1574208000) };
}

abbrev shown_peer : Peer
shown_peer = record zero_peer { ip = "192.0.2.7"; port = 6881; seeder = true }

abbrev shown_servers : FileServers
shown_servers = record {
  index = 1;
  servers =
      record {
        uri = "http://example.org/file";
        current_uri = "http://example.org/file";
        download_speed = 10467;
      }
      ∷ [];
}

abbrev shown : Aria2 Unit
shown = record {
  status_of = λ gid w. told_status;
  files_of = λ gid w. shown_file ∷ [];
  uris_of = λ gid w. mirror ∷ [];
  peers_of = λ gid w. shown_peer ∷ [];
  servers_of = λ gid w. shown_servers ∷ [];
  stats_of = λ w. record zero_stats { num_active = 1; download_speed = 21846 };
  version_of = λ w. record { version = "1.35.0"; enabled_features = "BitTorrent" ∷ [] };
  session_of = λ w. record { id = "cd6a3bc6a1de28eb5bfa181e5f6b916d44af31a9" };
}

-- A download that is not checked has no verifiedLength.
abbrev shown_keys : String → Bool
shown_keys key = not (str_eq key "verifiedLength")

abbrev reply_of : String → Reply
reply_of method =
    if str_eq method Proto.tell_status
    then replied (struct_json (status_entries shown_keys) told_status)
    else if str_eq method Proto.get_files
    then replied (arr (items (map documented_file.encode (shown_file ∷ []))))
    else if str_eq method Proto.get_uris
    then replied (arr (items (map documented_uri.encode (mirror ∷ []))))
    else if str_eq method Proto.get_peers
    then replied (arr (items (map documented_peer.encode (shown_peer ∷ []))))
    else if str_eq method Proto.get_servers
    then replied (arr (items (map documented_file_servers.encode (shown_servers ∷ []))))
    else if str_eq method Proto.get_global_stats
    then replied (documented_stats.encode (shown.stats_of tt))
    else if str_eq method Proto.get_version
    then replied (documented_version_info.encode (shown.version_of tt))
    else replied (documented_session_info.encode (shown.session_of tt))

abbrev shows : Rpc Unit
shows method args w = (reply_of method, w)

shown-Serves : Serves shown shows client shown_keys "2089b05ecca3d829" none tt
unfolding in_int64 is_whole
shown-Serves = record {
  status_valid = refl;
  files_valid = (refl, tt);
  uris_valid = (refl, tt);
  peers_valid = (refl, tt);
  servers_valid = (refl, tt);
  stats_valid = refl;
  version_valid = refl;
  session_valid = refl;
  tells_status = refl;
  gives_files = refl;
  gives_uris = refl;
  gives_peers = refl;
  gives_servers = refl;
  gives_stats = refl;
  gives_version = refl;
  gives_session = refl;
}

replies_read_back_example :
    (tell_status shows ⦃d = decodes status⦄ client "2089b05ecca3d829" none tt
      ≡ (told_status, none, tt))
    × (get_files shows ⦃d = decodes file⦄ client "2089b05ecca3d829" tt
        ≡ (shown_file ∷ [], none, tt))
    × (get_uris shows ⦃d = decodes uri⦄ client "2089b05ecca3d829" tt ≡ (mirror ∷ [], none, tt))
    × (get_peers shows ⦃d = decodes peer⦄ client "2089b05ecca3d829" tt
        ≡ (shown_peer ∷ [], none, tt))
    × (get_servers shows ⦃d = decodes file_servers⦄ client "2089b05ecca3d829" tt
        ≡ (shown_servers ∷ [], none, tt))
    × (get_global_stats shows ⦃d = decodes stats⦄ client tt ≡ (shown.stats_of tt, none, tt))
    × (get_version shows ⦃d = decodes version_info⦄ client tt ≡ (shown.version_of tt, none, tt))
    × (get_session_info shows ⦃d = decodes session_info⦄ client tt
        ≡ (shown.session_of tt, none, tt))
replies_read_back_example =
    replies_read_back shown shows client shown_keys "2089b05ecca3d829" none tt shown-Serves

abbrev sprint : Json → String
sprint j = "?"

abbrev target : EventTarget String
target = new_target

abbrev no_request : Request
no_request = record { method = ""; seq = 0 }

abbrev no_response : Response
no_response = record { seq = 0; error = "" }

abbrev told : Codec
told = new_json_codec (value (notification_json Proto.on_download_complete "2089b05ecca3d829") ∷ [])

notification_delivered_example :
    (c' : Codec) × (read_header sprint told no_request no_response
      ≡ done (c', record no_request { method = Proto.on_download_complete }, no_response, none))
    × (c'.dec ≡ [])
    × (c'.pending ≡ told.pending)
    × (read_request_body ⦃d = decodes download_event⦄ c' (single (record { gid = "" }))
        ≡ (single (record { gid = "2089b05ecca3d829" }), none))
    × (on_notification target Proto.on_download_complete (record { gid = "2089b05ecca3d829" })
        ≡ dispatch target complete_event (record { gid = "2089b05ecca3d829" }))
notification_delivered_example =
    notification_delivered sprint told target complete_event Proto.on_download_complete
      "2089b05ecca3d829" [] no_request no_response refl refl
