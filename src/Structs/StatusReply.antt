-- ===== src/Structs/StatusReply.antt =====
-- A status in the form of aria2's manual, in the order of the keys and with only some of them: aria2
-- leaves out what a download does not have. The creationDate is a number.
use arigo.Base.{
  ◌∙◌, false, ◌≡◌, refl, ap, String, Bool, true, not, Option, none, List, [], ◌∷◌, if◌then◌else◌,
}
use arigo.Json.{GoError}
use arigo.Tags.{Coding, Member, find_member, exact_member, struct_json}
use arigo.Tags.Codings.{text, uint, bool, slice}
use arigo.Tags.Members.{copies, member, omitted, valid_members, decodes}
use arigo.Tags.Documented.{IsRead, documented, documented_slice, part, store_struct-documented}
use arigo.Structs.Files.{file}
use arigo.Structs.Status.{
  Status, status, zero_status, status_members, BitTorrentStatus, zero_bit_torrent_status,
  bit_torrent_status_members, BitTorrentStatusInfo, zero_bit_torrent_status_info,
  bit_torrent_status_info_members, unix_time, zero_time,
}
use arigo.Structs.Documented.{documented_file}

abbrev pub info_entries : List (Member BitTorrentStatusInfo)
info_entries = member "name" text (λ s. s.name) (λ x s. record s { name = x }) ∷ []

pub info-IsRead : IsRead bit_torrent_status_info_members info_entries
unfolding find_member exact_member
info-IsRead = (refl, refl)

abbrev pub documented_info : Coding BitTorrentStatusInfo
documented_info =
    documented bit_torrent_status_info_members info_entries zero_bit_torrent_status_info info-IsRead
      (λ s t. refl)

-- A value that is there, or else the other one.
abbrev pub shown_or : {A : Type 0} → Bool → A → A → A
shown_or here x zero = if not here then zero else x

-- `shown` tells which keys are there.
module _ (shown : String → Bool) where
  abbrev pub torrent_entries : List (Member BitTorrentStatus)
  torrent_entries =
      omitted (λ _. not (shown "announceList")) "announceList" (slice (slice text))
        (λ s. s.announce_list) (λ x s. record s { announce_list = x }) (λ t. refl)
      ∷ omitted (λ _. not (shown "comment")) "comment" text (λ s. s.comment)
          (λ x s. record s { comment = x }) (λ t. refl)
      ∷ omitted (λ _. not (shown "creationDate")) "creationDate" unix_time (λ s. s.creation_date)
          (λ x s. record s { creation_date = x }) (λ t. refl)
      ∷ omitted (λ _. not (shown "info")) "info" documented_info (λ s. s.info)
          (λ x s. record s { info = x }) (λ t. refl)
      ∷ omitted (λ _. not (shown "mode")) "mode" text (λ s. s.mode) (λ x s. record s { mode = x })
          (λ t. refl)
      ∷ []

  pub torrent-IsRead : IsRead bit_torrent_status_members torrent_entries
  unfolding find_member exact_member
  torrent-IsRead = (refl, refl)

  abbrev pub status_entries : List (Member Status)
  status_entries =
      omitted (λ _. not (shown "belongsTo")) "belongsTo" text (λ s. s.belongs_to)
        (λ x s. record s { belongs_to = x }) (λ t. refl)
      ∷ omitted (λ _. not (shown "bitfield")) "bitfield" text (λ s. s.bit_field)
          (λ x s. record s { bit_field = x }) (λ t. refl)
      ∷ part (shown "bittorrent") "bittorrent" bit_torrent_status_members torrent_entries
          torrent-IsRead (λ s. s.bit_torrent) (λ x s. record s { bit_torrent = x }) (λ t. refl)
      ∷ omitted (λ _. not (shown "completedLength")) "completedLength" (uint 64)
          (λ s. s.completed_length) (λ x s. record s { completed_length = x }) (λ t. refl)
      ∷ omitted (λ _. not (shown "connections")) "connections" (uint 64) (λ s. s.connections)
          (λ x s. record s { connections = x }) (λ t. refl)
      ∷ omitted (λ _. not (shown "dir")) "dir" text (λ s. s.dir) (λ x s. record s { dir = x })
          (λ t. refl)
      ∷ omitted (λ _. not (shown "downloadSpeed")) "downloadSpeed" (uint 64) (λ s. s.download_speed)
          (λ x s. record s { download_speed = x }) (λ t. refl)
      ∷ omitted (λ _. not (shown "errorCode")) "errorCode" (uint 8) (λ s. s.error_code)
          (λ x s. record s { error_code = x }) (λ t. refl)
      ∷ omitted (λ _. not (shown "errorMessage")) "errorMessage" text (λ s. s.error_message)
          (λ x s. record s { error_message = x }) (λ t. refl)
      ∷ omitted (λ _. not (shown "files")) "files" (documented_slice file documented_file refl)
          (λ s. s.files) (λ x s. record s { files = x }) (λ t. refl)
      ∷ omitted (λ _. not (shown "followedBy")) "followedBy" (slice text) (λ s. s.followed_by)
          (λ x s. record s { followed_by = x }) (λ t. refl)
      ∷ omitted (λ _. not (shown "following")) "following" text (λ s. s.following)
          (λ x s. record s { following = x }) (λ t. refl)
      ∷ omitted (λ _. not (shown "gid")) "gid" text (λ s. s.gid) (λ x s. record s { gid = x })
          (λ t. refl)
      ∷ omitted (λ _. not (shown "infoHash")) "infoHash" text (λ s. s.info_hash)
          (λ x s. record s { info_hash = x }) (λ t. refl)
      ∷ omitted (λ _. not (shown "numPieces")) "numPieces" (uint 64) (λ s. s.num_pieces)
          (λ x s. record s { num_pieces = x }) (λ t. refl)
      ∷ omitted (λ _. not (shown "numSeeders")) "numSeeders" (uint 64) (λ s. s.num_seeders)
          (λ x s. record s { num_seeders = x }) (λ t. refl)
      ∷ omitted (λ _. not (shown "pieceLength")) "pieceLength" (uint 64) (λ s. s.piece_length)
          (λ x s. record s { piece_length = x }) (λ t. refl)
      ∷ omitted (λ _. not (shown "seeder")) "seeder" bool (λ s. s.seeder)
          (λ x s. record s { seeder = x }) (λ t. refl)
      ∷ omitted (λ _. not (shown "status")) "status" text (λ s. s.status)
          (λ x s. record s { status = x }) (λ t. refl)
      ∷ omitted (λ _. not (shown "totalLength")) "totalLength" (uint 64) (λ s. s.total_length)
          (λ x s. record s { total_length = x }) (λ t. refl)
      ∷ omitted (λ _. not (shown "uploadLength")) "uploadLength" (uint 64) (λ s. s.upload_length)
          (λ x s. record s { upload_length = x }) (λ t. refl)
      ∷ omitted (λ _. not (shown "uploadSpeed")) "uploadSpeed" (uint 64) (λ s. s.upload_speed)
          (λ x s. record s { upload_speed = x }) (λ t. refl)
      ∷ omitted (λ _. not (shown "verifiedLength")) "verifiedLength" (uint 64)
          (λ s. s.verified_length) (λ x s. record s { verified_length = x }) (λ t. refl)
      ∷ omitted (λ _. not (shown "verifyIntegrityPending")) "verifyIntegrityPending" bool
          (λ s. s.verify_integrity_pending) (λ x s. record s { verify_integrity_pending = x })
          (λ t. refl)
      ∷ []

  status-IsRead : IsRead status_members status_entries
  unfolding find_member exact_member
  status-IsRead = (refl, refl)

  abbrev pub shown_torrent : BitTorrentStatus → BitTorrentStatus
  shown_torrent s = record {
    announce_list = shown_or (shown "announceList") s.announce_list [];
    comment = shown_or (shown "comment") s.comment "";
    creation_date = shown_or (shown "creationDate") s.creation_date zero_time;
    mode = shown_or (shown "mode") s.mode "";
    info = shown_or (shown "info") s.info zero_bit_torrent_status_info;
  }

  -- What is there of a status, each under the key of the manual.
  abbrev pub shown_status : Status → Status
  shown_status s = record {
    gid = shown_or (shown "gid") s.gid "";
    status = shown_or (shown "status") s.status "";
    total_length = shown_or (shown "totalLength") s.total_length 0;
    completed_length = shown_or (shown "completedLength") s.completed_length 0;
    upload_length = shown_or (shown "uploadLength") s.upload_length 0;
    bit_field = shown_or (shown "bitfield") s.bit_field "";
    download_speed = shown_or (shown "downloadSpeed") s.download_speed 0;
    upload_speed = shown_or (shown "uploadSpeed") s.upload_speed 0;
    info_hash = shown_or (shown "infoHash") s.info_hash "";
    num_seeders = shown_or (shown "numSeeders") s.num_seeders 0;
    seeder = shown_or (shown "seeder") s.seeder false;
    piece_length = shown_or (shown "pieceLength") s.piece_length 0;
    num_pieces = shown_or (shown "numPieces") s.num_pieces 0;
    connections = shown_or (shown "connections") s.connections 0;
    error_code = shown_or (shown "errorCode") s.error_code 0;
    error_message = shown_or (shown "errorMessage") s.error_message "";
    followed_by = shown_or (shown "followedBy") s.followed_by [];
    following = shown_or (shown "following") s.following "";
    belongs_to = shown_or (shown "belongsTo") s.belongs_to "";
    dir = shown_or (shown "dir") s.dir "";
    files = shown_or (shown "files") s.files [];
    bit_torrent =
        if shown "bittorrent" then shown_torrent s.bit_torrent else zero_bit_torrent_status;
    verified_length = shown_or (shown "verifiedLength") s.verified_length 0;
    verify_integrity_pending =
        shown_or (shown "verifyIntegrityPending") s.verify_integrity_pending false;
  }

  copies-shown : (s : Status) → copies status_entries s zero_status ≡ shown_status s
  copies-shown s = refl

  pub unmarshal-shown_status :
      (s : Status)
      → valid_members status_entries s ≡ true
      → (decodes status).unmarshal (struct_json status_entries s) zero_status
        ≡ (shown_status s, none)
  unmarshal-shown_status s v =
      ap (λ (r : Status × Option GoError × Bool). (r.0, r.1))
        (store_struct-documented status_members status_entries s zero_status status-IsRead v)
      ∙ ap (λ (x : Status). (x, none)) (copies-shown s)
