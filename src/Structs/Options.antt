-- ===== src/Structs/Options.antt =====
-- options.go. A float32 is a type `F` with its coding and its test for zero.
pub mod Zero
pub mod Fields
pub mod Sent
use arigo.Base.{ℕ, String, Bool}

pub record Options (F : Type 0) : Type 0 where
  pub all_proxy : String
  pub all_proxy_password : String
  pub all_proxy_user : String
  pub allow_overwrite : Bool
  pub allow_piece_length_change : Bool
  pub always_resume : Bool
  pub async_dns : Bool
  pub auto_file_renaming : Bool
  pub bt_enable_hook_after_hash_check : Bool
  pub bt_enable_lpd : Bool
  pub bt_exclude_tracker : String
  pub bt_external_ip : String
  pub bt_force_encryption : Bool
  pub bt_hash_check_seed : Bool
  pub bt_load_saved_metadata : Bool
  pub bt_max_peers : ℕ
  pub bt_metadata_only : Bool
  pub bt_min_crypto_level : String
  pub bt_prioritize_piece : String
  pub bt_remove_unselected_file : Bool
  pub bt_request_peer_speed_limit : String
  pub bt_require_crypto : Bool
  pub bt_save_metadata : Bool
  pub bt_seed_unverified : Bool
  pub bt_stop_timeout : ℕ
  pub bt_tracker : String
  pub bt_tracker_connect_timeout : ℕ
  pub bt_tracker_interval : ℕ
  pub bt_tracker_timeout : ℕ
  pub check_integrity : Bool
  pub checksum : String
  pub conditional_get : Bool
  pub connect_timeout : ℕ
  pub content_disposition_default_utf8 : Bool
  pub continue : Bool
  pub dir : String
  pub dry_run : Bool
  pub enable_http_keep_alive : Bool
  pub enable_http_pipelining : Bool
  pub enable_mmap : Bool
  pub enable_peer_exchange : Bool
  pub file_allocation : String
  pub follow_metalink : Bool
  pub follow_torrent : Bool
  pub force_save : Bool
  pub ftp_passwd : String
  pub ftp_pasv : Bool
  pub ftp_proxy : String
  pub ftp_proxy_passwd : String
  pub ftp_proxy_user : String
  pub ftp_reuse_connection : Bool
  pub ftp_type : String
  pub ftp_user : String
  pub gid : String
  pub hash_check_only : Bool
  pub header : String
  pub http_accept_gzip : Bool
  pub http_auth_challenge : Bool
  pub http_no_cache : Bool
  pub http_passwd : String
  pub http_proxy : String
  pub http_proxy_passwd : String
  pub http_proxy_user : String
  pub http_user : String
  pub https_proxy : String
  pub https_proxy_passwd : String
  pub https_proxy_user : String
  pub index_out : ℕ
  pub lowest_speed_limit : String
  pub max_connection_per_server : ℕ
  pub max_download_limit : String
  pub max_overall_download_limit : String
  pub max_file_not_found : ℕ
  pub max_mmap_limit : String
  pub max_resume_failure_tries : ℕ
  pub max_tries : ℕ
  pub max_upload_limit : String
  pub metalink_base_uri : String
  pub metalink_enable_unique_protocol : Bool
  pub metalink_language : String
  pub metalink_location : String
  pub metalink_os : String
  pub metalink_preferred_protocol : String
  pub metalink_version : String
  pub min_split_size : String
  pub no_file_allocation_limit : String
  pub no_netrc : Bool
  pub no_proxy : Bool
  pub out : String
  pub parameterized_uri : String
  pub pause : Bool
  pub pause_metadata : Bool
  pub piece_length : String
  pub proxy_method : String
  pub realtime_chunk_checksum : String
  pub referer : String
  pub remote_time : Bool
  pub remove_control_file : String
  pub retry_wait : ℕ
  pub reuse_uri : Bool
  pub rpc_save_upload_metadata : String
  pub seed_ratio : F
  pub seed_time : ℕ
  pub select_file : String
  pub split : ℕ
  pub ssh_host_key_md : String
  pub stream_piece_selector : String
  pub timeout : ℕ
  pub uri_selector : String
  pub use_head : Bool
  pub user_agent : String
