-- ===== src/ExitStatus.antt =====
-- exitstatus.go and exitstatus_string.go.
use arigo.Base.{ℕ, String, Option, List, [], ◌∷◌}
use arigo.Stringer.{name_or_number}

-- `type ExitStatus uint8`: any number below 256 is a value.
abbrev pub ExitStatus : Type 0
ExitStatus = ℕ

abbrev pub success : ExitStatus
success = 0

abbrev pub unknown_error : ExitStatus
unknown_error = 1

abbrev pub timeout : ExitStatus
timeout = 2

abbrev pub resource_not_found : ExitStatus
resource_not_found = 3

abbrev pub resource_not_found_reached : ExitStatus
resource_not_found_reached = 4

abbrev pub download_speed_too_slow : ExitStatus
download_speed_too_slow = 5

abbrev pub network_error : ExitStatus
network_error = 6

abbrev pub unfinished_downloads : ExitStatus
unfinished_downloads = 7

abbrev pub remote_no_resume : ExitStatus
remote_no_resume = 8

abbrev pub not_enough_disk_space : ExitStatus
not_enough_disk_space = 9

abbrev pub piece_length_mismatch : ExitStatus
piece_length_mismatch = 10

abbrev pub same_file_being_downloaded : ExitStatus
same_file_being_downloaded = 11

abbrev pub same_info_hash_being_downloaded : ExitStatus
same_info_hash_being_downloaded = 12

abbrev pub file_already_exists : ExitStatus
file_already_exists = 13

abbrev pub renaming_failed : ExitStatus
renaming_failed = 14

abbrev pub could_not_open_existing_file : ExitStatus
could_not_open_existing_file = 15

abbrev pub could_not_create_new_file : ExitStatus
could_not_create_new_file = 16

abbrev pub file_io_error : ExitStatus
file_io_error = 17

abbrev pub could_not_create_directory : ExitStatus
could_not_create_directory = 18

abbrev pub name_resolution_failed : ExitStatus
name_resolution_failed = 19

abbrev pub metalink_parsing_failed : ExitStatus
metalink_parsing_failed = 20

abbrev pub ftp_command_failed : ExitStatus
ftp_command_failed = 21

abbrev pub http_response_header_bad : ExitStatus
http_response_header_bad = 22

abbrev pub too_many_redirects : ExitStatus
too_many_redirects = 23

abbrev pub http_authorization_failed : ExitStatus
http_authorization_failed = 24

abbrev pub bencoded_file_parse_error : ExitStatus
bencoded_file_parse_error = 25

abbrev pub torrent_file_corrupt : ExitStatus
torrent_file_corrupt = 26

abbrev pub magnet_uri_bad : ExitStatus
magnet_uri_bad = 27

abbrev pub remote_server_handle_request_error : ExitStatus
remote_server_handle_request_error = 28

abbrev pub jsonrpc_parse_error : ExitStatus
jsonrpc_parse_error = 29

abbrev pub reserved : ExitStatus
reserved = 30

abbrev pub checksum_validation_failed : ExitStatus
checksum_validation_failed = 31

-- `_ = x[Success-0]` and its like: each constant, and the number that its name was generated for.
abbrev pub exit_status_checks : List (ExitStatus × ℕ)
exit_status_checks =
    (success, 0)
    ∷ (unknown_error, 1)
    ∷ (timeout, 2)
    ∷ (resource_not_found, 3)
    ∷ (resource_not_found_reached, 4)
    ∷ (download_speed_too_slow, 5)
    ∷ (network_error, 6)
    ∷ (unfinished_downloads, 7)
    ∷ (remote_no_resume, 8)
    ∷ (not_enough_disk_space, 9)
    ∷ (piece_length_mismatch, 10)
    ∷ (same_file_being_downloaded, 11)
    ∷ (same_info_hash_being_downloaded, 12)
    ∷ (file_already_exists, 13)
    ∷ (renaming_failed, 14)
    ∷ (could_not_open_existing_file, 15)
    ∷ (could_not_create_new_file, 16)
    ∷ (file_io_error, 17)
    ∷ (could_not_create_directory, 18)
    ∷ (name_resolution_failed, 19)
    ∷ (metalink_parsing_failed, 20)
    ∷ (ftp_command_failed, 21)
    ∷ (http_response_header_bad, 22)
    ∷ (too_many_redirects, 23)
    ∷ (http_authorization_failed, 24)
    ∷ (bencoded_file_parse_error, 25)
    ∷ (torrent_file_corrupt, 26)
    ∷ (magnet_uri_bad, 27)
    ∷ (remote_server_handle_request_error, 28)
    ∷ (jsonrpc_parse_error, 29)
    ∷ (reserved, 30)
    ∷ (checksum_validation_failed, 31)
    ∷ []

-- _ExitStatus_name
abbrev pub exit_status_name : String
exit_status_name =
    "SuccessUnknownErrorTimeoutResourceNotFoundResourceNotFoundReachedDownloadSpeedTooSlowNetworkErrorUnfinishedDownloadsRemoteNoResumeNotEnoughDiskSpacePieceLengthMismatchSameFileBeingDownloadedSameInfoHashBeingDownloadedFileAlreadyExistsRenamingFailedCouldNotOpenExistingFileCouldNotCreateNewFileFileIOErrorCouldNotCreateDirectoryNameResolutionFailedMetalinkParsingFailedFTPCommandFailedHTTPResponseHeaderBadTooManyRedirectsHTTPAuthorizationFailedBencodedFileParseErrorTorrentFileCorruptMagnetURIBadRemoteServerHandleRequestErrorJSONRPCParseErrorReservedChecksumValidationFailed"

-- _ExitStatus_index
abbrev pub exit_status_index : List ℕ
exit_status_index =
    0 ∷ 7 ∷ 19 ∷ 26 ∷ 42 ∷ 65 ∷ 85 ∷ 97 ∷ 116 ∷ 130 ∷ 148 ∷ 167 ∷ 190 ∷ 217 ∷ 234 ∷ 248 ∷ 272 ∷ 293
    ∷ 304 ∷ 327 ∷ 347 ∷ 368 ∷ 384 ∷ 405 ∷ 421 ∷ 444 ∷ 466 ∷ 484 ∷ 496 ∷ 526 ∷ 543 ∷ 551 ∷ 575 ∷ []

unfoldable pub exit_status_string : ExitStatus → Option String
exit_status_string i = name_or_number "ExitStatus" exit_status_name exit_status_index i
