-- ===== src/Structs/Status.antt =====
-- status.go.
use arigo.Base.{
  ℕ, ◌≡◌, refl, String, Bool, true, false, ◌&&◌, ◌==◌, arith, Option, none, some, List, [], ◌∷◌,
}
use arigo.Json.{Json, int_json, null, GoError, ℤ, pos, negsuc, decodes_int}
use arigo.Tags.{Member, Coding, exact_member, stored}
use arigo.Tags.Codings.{text, uint, bool, slice}
use arigo.Tags.Members.{member, distinct, struct}
use arigo.Tags.Quoted.{in_int64}
use arigo.ExitStatus.{ExitStatus}
use arigo.Structs.Files.{File, file}

-- `type DownloadStatus string`: any text is a value.
abbrev pub DownloadStatus : Type 0
DownloadStatus = String

abbrev pub status_active : DownloadStatus
status_active = "active"

abbrev pub status_waiting : DownloadStatus
status_waiting = "waiting"

abbrev pub status_paused : DownloadStatus
status_paused = "paused"

abbrev pub status_error : DownloadStatus
status_error = "error"

abbrev pub status_completed : DownloadStatus
status_completed = "completed"

abbrev pub status_removed : DownloadStatus
status_removed = "removed"

-- time.Time, as the seconds since the epoch and the nanoseconds behind them.
pub record UnixTime : Type 0 where
  pub seconds : ℤ
  pub nanoseconds : ℕ

-- time.Unix(ts, 0)
abbrev pub unix : ℤ → UnixTime
unix ts = record { seconds = ts; nanoseconds = 0 }

-- The time of `var t UNIXTime`: the first of January of the year one.
abbrev pub zero_time : UnixTime
zero_time = unix (negsuc 62135596799)

-- MarshalJSON: t.Unix() drops the nanoseconds.
pub time_json : UnixTime → Json
time_json t = int_json t.seconds

-- UnmarshalJSON, which is called for null as well, and then reads it as 0. An error of it ends
-- the decoding of all that is around.
pub store_time : Json → UnixTime → UnixTime × Option GoError × Bool
store_time j t =
    let (ts, err) = decodes_int.unmarshal j (pos 0) in
    elim err [ none ↦ (unix ts, none, false) | some e ↦ (t, some e, true) ]

unfoldable pub is_whole : UnixTime → Bool
is_whole t = in_int64 t.seconds && t.nanoseconds == 0

store_time-parts :
    (z : ℤ) (n : ℕ) (old : UnixTime)
    → in_int64 z ≡ true
    → n ≡ 0
    → store_time (int_json z) old ≡ stored (record { seconds = z; nanoseconds = n })
unfolding store_time in_int64
store_time-parts (pos m) n old h e = rw e (ground (arith, h))
store_time-parts (negsuc m) n old h e = rw e (ground (arith, h))

pub store_time-time_json :
    (t old : UnixTime) → is_whole t ≡ true → store_time (time_json t) old ≡ stored t
unfolding time_json is_whole
store_time-time_json t old h =
    store_time-parts t.seconds t.nanoseconds old (ground (arith, h)) (ground (arith, h))

-- A time whose seconds are an int64 is written and read back, with no error, as the same time to
-- the second, its nanoseconds dropped; null is no error either, and reads as the epoch.
pub store_time-unix :
    (t old : UnixTime)
    → in_int64 t.seconds ≡ true
    → (store_time (time_json t) old ≡ stored (unix t.seconds))
      × (store_time null old ≡ stored (unix (pos 0)))
unfolding store_time time_json
store_time-unix t old h = (store_time-parts t.seconds 0 old h refl, refl)

abbrev pub unix_time : Coding UnixTime
unix_time = record {
  zero_value = zero_time;
  valid = is_whole;
  encode = time_json;
  store = store_time;
  store-encode = store_time-time_json;
}

abbrev pub TorrentMode : Type 0
TorrentMode = String

abbrev pub torrent_mode_single : TorrentMode
torrent_mode_single = "single"

abbrev pub torrent_mode_multi : TorrentMode
torrent_mode_multi = "multi"

pub record BitTorrentStatusInfo : Type 0 where
  pub name : String

abbrev pub zero_bit_torrent_status_info : BitTorrentStatusInfo
zero_bit_torrent_status_info = record { name = "" }

abbrev pub bit_torrent_status_info_members : List (Member BitTorrentStatusInfo)
bit_torrent_status_info_members =
    member "name" text (λ s. s.name) (λ x s. record s { name = x }) ∷ []

pub bit_torrent_status_info_members-distinct : distinct bit_torrent_status_info_members ≡ true
unfolding exact_member
bit_torrent_status_info_members-distinct = refl

abbrev pub bit_torrent_status_info : Coding BitTorrentStatusInfo
bit_torrent_status_info =
    struct bit_torrent_status_info_members zero_bit_torrent_status_info
      bit_torrent_status_info_members-distinct (λ s t. refl)

pub record BitTorrentStatus : Type 0 where
  pub announce_list : List (List String)
  pub comment : String
  pub creation_date : UnixTime
  pub mode : TorrentMode
  pub info : BitTorrentStatusInfo

abbrev pub zero_bit_torrent_status : BitTorrentStatus
zero_bit_torrent_status = record {
  announce_list = [];
  comment = "";
  creation_date = zero_time;
  mode = "";
  info = zero_bit_torrent_status_info;
}

abbrev pub bit_torrent_status_members : List (Member BitTorrentStatus)
bit_torrent_status_members =
    member "announceList" (slice (slice text)) (λ s. s.announce_list)
      (λ x s. record s { announce_list = x })
    ∷ member "comment" text (λ s. s.comment) (λ x s. record s { comment = x })
    ∷ member "creationDate" unix_time (λ s. s.creation_date) (λ x s. record s { creation_date = x })
    ∷ member "mode" text (λ s. s.mode) (λ x s. record s { mode = x })
    ∷ member "info" bit_torrent_status_info (λ s. s.info) (λ x s. record s { info = x })
    ∷ []

pub bit_torrent_status_members-distinct : distinct bit_torrent_status_members ≡ true
unfolding exact_member
bit_torrent_status_members-distinct = refl

abbrev pub bit_torrent_status : Coding BitTorrentStatus
bit_torrent_status =
    struct bit_torrent_status_members zero_bit_torrent_status bit_torrent_status_members-distinct
      (λ s t. refl)

pub record Status : Type 0 where
  pub gid : String
  pub status : DownloadStatus
  pub total_length : ℕ
  pub completed_length : ℕ
  pub upload_length : ℕ
  pub bit_field : String
  pub download_speed : ℕ
  pub upload_speed : ℕ
  pub info_hash : String
  pub num_seeders : ℕ
  pub seeder : Bool
  pub piece_length : ℕ
  pub num_pieces : ℕ
  pub connections : ℕ
  pub error_code : ExitStatus
  pub error_message : String
  pub followed_by : List String
  pub following : String
  pub belongs_to : String
  pub dir : String
  pub files : List File
  pub bit_torrent : BitTorrentStatus
  pub verified_length : ℕ
  pub verify_integrity_pending : Bool

abbrev pub zero_status : Status
zero_status = record {
  gid = "";
  status = "";
  total_length = 0;
  completed_length = 0;
  upload_length = 0;
  bit_field = "";
  download_speed = 0;
  upload_speed = 0;
  info_hash = "";
  num_seeders = 0;
  seeder = false;
  piece_length = 0;
  num_pieces = 0;
  connections = 0;
  error_code = 0;
  error_message = "";
  followed_by = [];
  following = "";
  belongs_to = "";
  dir = "";
  files = [];
  bit_torrent = zero_bit_torrent_status;
  verified_length = 0;
  verify_integrity_pending = false;
}

abbrev pub status_members : List (Member Status)
status_members =
    member "gid" text (λ s. s.gid) (λ x s. record s { gid = x })
    ∷ member "status" text (λ s. s.status) (λ x s. record s { status = x })
    ∷ member "totalLength" (uint 64) (λ s. s.total_length) (λ x s. record s { total_length = x })
    ∷ member "completedLength" (uint 64) (λ s. s.completed_length)
        (λ x s. record s { completed_length = x })
    ∷ member "uploadLength" (uint 64) (λ s. s.upload_length) (λ x s. record s { upload_length = x })
    ∷ member "bitfield" text (λ s. s.bit_field) (λ x s. record s { bit_field = x })
    ∷ member "downloadSpeed" (uint 64) (λ s. s.download_speed)
        (λ x s. record s { download_speed = x })
    ∷ member "uploadSpeed" (uint 64) (λ s. s.upload_speed) (λ x s. record s { upload_speed = x })
    ∷ member "infoHash" text (λ s. s.info_hash) (λ x s. record s { info_hash = x })
    ∷ member "numSeeders" (uint 64) (λ s. s.num_seeders) (λ x s. record s { num_seeders = x })
    ∷ member "seeder" bool (λ s. s.seeder) (λ x s. record s { seeder = x })
    ∷ member "pieceLength" (uint 64) (λ s. s.piece_length) (λ x s. record s { piece_length = x })
    ∷ member "numPieces" (uint 64) (λ s. s.num_pieces) (λ x s. record s { num_pieces = x })
    ∷ member "connections" (uint 64) (λ s. s.connections) (λ x s. record s { connections = x })
    ∷ member "errorCode" (uint 8) (λ s. s.error_code) (λ x s. record s { error_code = x })
    ∷ member "errorMessage" text (λ s. s.error_message) (λ x s. record s { error_message = x })
    ∷ member "followedBy" (slice text) (λ s. s.followed_by) (λ x s. record s { followed_by = x })
    ∷ member "following" text (λ s. s.following) (λ x s. record s { following = x })
    ∷ member "belongsTo" text (λ s. s.belongs_to) (λ x s. record s { belongs_to = x })
    ∷ member "dir" text (λ s. s.dir) (λ x s. record s { dir = x })
    ∷ member "files" (slice file) (λ s. s.files) (λ x s. record s { files = x })
    ∷ member "bittorrent" bit_torrent_status (λ s. s.bit_torrent)
        (λ x s. record s { bit_torrent = x })
    ∷ member "verifiedLength" (uint 64) (λ s. s.verified_length)
        (λ x s. record s { verified_length = x })
    ∷ member "verifyIntegrityPending" bool (λ s. s.verify_integrity_pending)
        (λ x s. record s { verify_integrity_pending = x })
    ∷ []

pub status_members-distinct : distinct status_members ≡ true
unfolding exact_member
status_members-distinct = refl

abbrev pub status : Coding Status
status = struct status_members zero_status status_members-distinct (λ s t. refl)
