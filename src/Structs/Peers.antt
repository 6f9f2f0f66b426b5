-- ===== src/Structs/Peers.antt =====
-- peer.go and server.go.
use arigo.Base.{ℕ, ◌≡◌, refl, String, Bool, true, false, List, [], ◌∷◌}
use arigo.Tags.{Member, Coding, exact_member}
use arigo.Tags.Codings.{text, uint, bool, slice}
use arigo.Tags.Members.{member, distinct, struct}

pub record Peer : Type 0 where
  pub id : String
  pub ip : String
  pub port : ℕ
  pub bit_field : String
  pub am_choking : Bool
  pub peer_choking : Bool
  pub download_speed : ℕ
  pub upload_speed : ℕ
  pub seeder : Bool

abbrev pub zero_peer : Peer
zero_peer = record {
  id = "";
  ip = "";
  port = 0;
  bit_field = "";
  am_choking = false;
  peer_choking = false;
  download_speed = 0;
  upload_speed = 0;
  seeder = false;
}

abbrev pub peer_members : List (Member Peer)
peer_members =
    member "peerId" text (λ s. s.id) (λ x s. record s { id = x })
    ∷ member "ip" text (λ s. s.ip) (λ x s. record s { ip = x })
    ∷ member "port" (uint 16) (λ s. s.port) (λ x s. record s { port = x })
    ∷ member "bitfield" text (λ s. s.bit_field) (λ x s. record s { bit_field = x })
    ∷ member "amChoking" bool (λ s. s.am_choking) (λ x s. record s { am_choking = x })
    ∷ member "peerChoking" bool (λ s. s.peer_choking) (λ x s. record s { peer_choking = x })
    ∷ member "downloadSpeed" (uint 64) (λ s. s.download_speed)
        (λ x s. record s { download_speed = x })
    ∷ member "uploadSpeed" (uint 64) (λ s. s.upload_speed) (λ x s. record s { upload_speed = x })
    ∷ member "seeder" bool (λ s. s.seeder) (λ x s. record s { seeder = x })
    ∷ []

pub peer_members-distinct : distinct peer_members ≡ true
unfolding exact_member
peer_members-distinct = refl

abbrev pub peer : Coding Peer
peer = struct peer_members zero_peer peer_members-distinct (λ s t. refl)

pub record Server : Type 0 where
  pub uri : String
  pub current_uri : String
  pub download_speed : ℕ

abbrev pub zero_server : Server
zero_server = record { uri = ""; current_uri = ""; download_speed = 0 }

abbrev pub server_members : List (Member Server)
server_members =
    member "uri" text (λ s. s.uri) (λ x s. record s { uri = x })
    ∷ member "currentUri" text (λ s. s.current_uri) (λ x s. record s { current_uri = x })
    ∷ member "downloadSpeed" (uint 64) (λ s. s.download_speed)
        (λ x s. record s { download_speed = x })
    ∷ []

pub server_members-distinct : distinct server_members ≡ true
unfolding exact_member
server_members-distinct = refl

abbrev pub server : Coding Server
server = struct server_members zero_server server_members-distinct (λ s t. refl)

pub record FileServers : Type 0 where
  pub index : ℕ
  pub servers : List Server

abbrev pub zero_file_servers : FileServers
zero_file_servers = record { index = 0; servers = [] }

abbrev pub file_servers_members : List (Member FileServers)
file_servers_members =
    member "index" (uint 64) (λ s. s.index) (λ x s. record s { index = x })
    ∷ member "servers" (slice server) (λ s. s.servers) (λ x s. record s { servers = x })
    ∷ []

pub file_servers_members-distinct : distinct file_servers_members ≡ true
unfolding exact_member
file_servers_members-distinct = refl

abbrev pub file_servers : Coding FileServers
file_servers =
    struct file_servers_members zero_file_servers file_servers_members-distinct (λ s t. refl)
