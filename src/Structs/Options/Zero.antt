-- ===== src/Structs/Options/Zero.antt =====
-- The zero value of Options.
use arigo.Base.{false}
use arigo.Structs.Options.{Options}

-- Options{}, of the zero of float32.
abbrev pub zero_options : {F : Type 0} → F → Options F
zero_options zero = record {
  all_proxy = "";
  all_proxy_password = "";
  all_proxy_user = "";
  allow_overwrite = false;
  allow_piece_length_change = false;
  always_resume = false;
  async_dns = false;
  auto_file_renaming = false;
  bt_enable_hook_after_hash_check = false;
  bt_enable_lpd = false;
  bt_exclude_tracker = "";
  bt_external_ip = "";
  bt_force_encryption = false;
  bt_hash_check_seed = false;
  bt_load_saved_metadata = false;
  bt_max_peers = 0;
  bt_metadata_only = false;
  bt_min_crypto_level = "";
  bt_prioritize_piece = "";
  bt_remove_unselected_file = false;
  bt_request_peer_speed_limit = "";
  bt_require_crypto = false;
  bt_save_metadata = false;
  bt_seed_unverified = false;
  bt_stop_timeout = 0;
  bt_tracker = "";
  bt_tracker_connect_timeout = 0;
  bt_tracker_interval = 0;
  bt_tracker_timeout = 0;
  check_integrity = false;
  checksum = "";
  conditional_get = false;
  connect_timeout = 0;
  content_disposition_default_utf8 = false;
  continue = false;
  dir = "";
  dry_run = false;
  enable_http_keep_alive = false;
  enable_http_pipelining = false;
  enable_mmap = false;
  enable_peer_exchange = false;
  file_allocation = "";
  follow_metalink = false;
  follow_torrent = false;
  force_save = false;
  ftp_passwd = "";
  ftp_pasv = false;
  ftp_proxy = "";
  ftp_proxy_passwd = "";
  ftp_proxy_user = "";
  ftp_reuse_connection = false;
  ftp_type = "";
  ftp_user = "";
  gid = "";
  hash_check_only = false;
  header = "";
  http_accept_gzip = false;
  http_auth_challenge = false;
  http_no_cache = false;
  http_passwd = "";
  http_proxy = "";
  http_proxy_passwd = "";
  http_proxy_user = "";
  http_user = "";
  https_proxy = "";
  https_proxy_passwd = "";
  https_proxy_user = "";
  index_out = 0;
  lowest_speed_limit = "";
  max_connection_per_server = 0;
  max_download_limit = "";
  max_overall_download_limit = "";
  max_file_not_found = 0;
  max_mmap_limit = "";
  max_resume_failure_tries = 0;
  max_tries = 0;
  max_upload_limit = "";
  metalink_base_uri = "";
  metalink_enable_unique_protocol = false;
  metalink_language = "";
  metalink_location = "";
  metalink_os = "";
  metalink_preferred_protocol = "";
  metalink_version = "";
  min_split_size = "";
  no_file_allocation_limit = "";
  no_netrc = false;
  no_proxy = false;
  out = "";
  parameterized_uri = "";
  pause = false;
  pause_metadata = false;
  piece_length = "";
  proxy_method = "";
  realtime_chunk_checksum = "";
  referer = "";
  remote_time = false;
  remove_control_file = "";
  retry_wait = 0;
  reuse_uri = false;
  rpc_save_upload_metadata = "";
  seed_ratio = zero;
  seed_time = 0;
  select_file = "";
  split = 0;
  ssh_host_key_md = "";
  stream_piece_selector = "";
  timeout = 0;
  uri_selector = "";
  use_head = false;
  user_agent = "";
}
