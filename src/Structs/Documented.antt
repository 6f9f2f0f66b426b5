-- ===== src/Structs/Documented.antt =====
-- The replies of aria2 in the form of its manual: the keys of each struct, in the order of the keys, with
-- numbers and truth values as strings. `StatusReply` has the one of TellStatus.
use arigo.Base.{refl, List, [], ◌∷◌}
use arigo.Tags.{Coding, Member, find_member, exact_member}
use arigo.Tags.Codings.{text, uint, int, bool, slice}
use arigo.Tags.Members.{member}
use arigo.Tags.Documented.{IsRead, documented, documented_slice}
use arigo.Structs.Files.{uri, Uri, zero_uri, uri_members, File, zero_file, file_members}
use arigo.Structs.Peers.{
  server, Peer, zero_peer, peer_members, Server, zero_server, server_members, FileServers,
  zero_file_servers, file_servers_members,
}
use arigo.Structs.Stats.{
  Stats, zero_stats, stats_members, SessionInfo, zero_session_info, session_info_members,
  VersionInfo, zero_version_info, version_info_members,
}

abbrev pub uri_entries : List (Member Uri)
uri_entries =
    member "status" text (λ s. s.status) (λ x s. record s { status = x })
    ∷ member "uri" text (λ s. s.uri) (λ x s. record s { uri = x })
    ∷ []

pub uri-IsRead : IsRead uri_members uri_entries
unfolding find_member exact_member
uri-IsRead = (refl, refl)

abbrev pub documented_uri : Coding Uri
documented_uri = documented uri_members uri_entries zero_uri uri-IsRead (λ s t. refl)

abbrev pub file_entries : List (Member File)
file_entries =
    member "completedLength" (uint 64) (λ s. s.completed_length)
      (λ x s. record s { completed_length = x })
    ∷ member "index" int (λ s. s.index) (λ x s. record s { index = x })
    ∷ member "length" (uint 64) (λ s. s.length) (λ x s. record s { length = x })
    ∷ member "path" text (λ s. s.path) (λ x s. record s { path = x })
    ∷ member "selected" bool (λ s. s.selected) (λ x s. record s { selected = x })
    ∷ member "uris" (documented_slice uri documented_uri refl) (λ s. s.uris)
        (λ x s. record s { uris = x })
    ∷ []

pub file-IsRead : IsRead file_members file_entries
unfolding find_member exact_member
file-IsRead = (refl, refl)

abbrev pub documented_file : Coding File
documented_file = documented file_members file_entries zero_file file-IsRead (λ s t. refl)

abbrev pub peer_entries : List (Member Peer)
peer_entries =
    member "amChoking" bool (λ s. s.am_choking) (λ x s. record s { am_choking = x })
    ∷ member "bitfield" text (λ s. s.bit_field) (λ x s. record s { bit_field = x })
    ∷ member "downloadSpeed" (uint 64) (λ s. s.download_speed)
        (λ x s. record s { download_speed = x })
    ∷ member "ip" text (λ s. s.ip) (λ x s. record s { ip = x })
    ∷ member "peerChoking" bool (λ s. s.peer_choking) (λ x s. record s { peer_choking = x })
    ∷ member "peerId" text (λ s. s.id) (λ x s. record s { id = x })
    ∷ member "port" (uint 16) (λ s. s.port) (λ x s. record s { port = x })
    ∷ member "seeder" bool (λ s. s.seeder) (λ x s. record s { seeder = x })
    ∷ member "uploadSpeed" (uint 64) (λ s. s.upload_speed) (λ x s. record s { upload_speed = x })
    ∷ []

pub peer-IsRead : IsRead peer_members peer_entries
unfolding find_member exact_member
peer-IsRead = (refl, refl)

abbrev pub documented_peer : Coding Peer
documented_peer = documented peer_members peer_entries zero_peer peer-IsRead (λ s t. refl)

abbrev pub server_entries : List (Member Server)
server_entries =
    member "currentUri" text (λ s. s.current_uri) (λ x s. record s { current_uri = x })
    ∷ member "downloadSpeed" (uint 64) (λ s. s.download_speed)
        (λ x s. record s { download_speed = x })
    ∷ member "uri" text (λ s. s.uri) (λ x s. record s { uri = x })
    ∷ []

pub server-IsRead : IsRead server_members server_entries
unfolding find_member exact_member
server-IsRead = (refl, refl)

abbrev pub documented_server : Coding Server
documented_server = documented server_members server_entries zero_server server-IsRead (λ s t. refl)

abbrev pub file_servers_entries : List (Member FileServers)
file_servers_entries =
    member "index" (uint 64) (λ s. s.index) (λ x s. record s { index = x })
    ∷ member "servers" (documented_slice server documented_server refl) (λ s. s.servers)
        (λ x s. record s { servers = x })
    ∷ []

pub file_servers-IsRead : IsRead file_servers_members file_servers_entries
unfolding find_member exact_member
file_servers-IsRead = (refl, refl)

abbrev pub documented_file_servers : Coding FileServers
documented_file_servers =
    documented file_servers_members file_servers_entries zero_file_servers file_servers-IsRead
      (λ s t. refl)

abbrev pub stats_entries : List (Member Stats)
stats_entries =
    member "downloadSpeed" (uint 64) (λ s. s.download_speed)
      (λ x s. record s { download_speed = x })
    ∷ member "numActive" (uint 64) (λ s. s.num_active) (λ x s. record s { num_active = x })
    ∷ member "numStopped" (uint 64) (λ s. s.num_stopped) (λ x s. record s { num_stopped = x })
    ∷ member "numStoppedTotal" (uint 64) (λ s. s.num_stopped_total)
        (λ x s. record s { num_stopped_total = x })
    ∷ member "numWaiting" (uint 64) (λ s. s.num_waiting) (λ x s. record s { num_waiting = x })
    ∷ member "uploadSpeed" (uint 64) (λ s. s.upload_speed) (λ x s. record s { upload_speed = x })
    ∷ []

pub stats-IsRead : IsRead stats_members stats_entries
unfolding find_member exact_member
stats-IsRead = (refl, refl)

abbrev pub documented_stats : Coding Stats
documented_stats = documented stats_members stats_entries zero_stats stats-IsRead (λ s t. refl)

abbrev pub session_info_entries : List (Member SessionInfo)
session_info_entries = member "sessionId" text (λ s. s.id) (λ x s. record s { id = x }) ∷ []

pub session_info-IsRead : IsRead session_info_members session_info_entries
unfolding find_member exact_member
session_info-IsRead = (refl, refl)

abbrev pub documented_session_info : Coding SessionInfo
documented_session_info =
    documented session_info_members session_info_entries zero_session_info session_info-IsRead
      (λ s t. refl)

abbrev pub version_info_entries : List (Member VersionInfo)
version_info_entries =
    member "enabledFeatures" (slice text) (λ s. s.enabled_features)
      (λ x s. record s { enabled_features = x })
    ∷ member "version" text (λ s. s.version) (λ x s. record s { version = x })
    ∷ []

pub version_info-IsRead : IsRead version_info_members version_info_entries
unfolding find_member exact_member
version_info-IsRead = (refl, refl)

abbrev pub documented_version_info : Coding VersionInfo
documented_version_info =
    documented version_info_members version_info_entries zero_version_info version_info-IsRead
      (λ s t. refl)
