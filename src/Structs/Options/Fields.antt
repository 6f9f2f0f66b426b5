-- ===== src/Structs/Options/Fields.antt =====
-- The fields of Options with their tags: all have omitempty.
use text.Mathlib.Text.{◌==◌ as str_eq}
use arigo.Base.{ℕ, ◌≡◌, refl, String, Bool, true, not, List, [], ◌∷◌, ◌==◌}
use arigo.Tags.{Member, Coding, exact_member}
use arigo.Tags.Codings
use arigo.Tags.Codings.{uint, bool}
use arigo.Tags.Members.{omitted, distinct}
use arigo.Structs.Options.{Options}

module _ {F : Type 0} (float : Coding F) (is_zero : F → Bool) where
  -- Fields with omitempty.
  abbrev text_option :
      (key : String) (get : Options F → String) (put : String → Options F → Options F)
      → ((t : Options F) → put (get t) t ≡ t)
      → Member (Options F)
  text_option key get put law = omitted (λ s. str_eq s "") key Codings.text get put law

  abbrev uint_option :
      (key : String) (get : Options F → ℕ) (put : ℕ → Options F → Options F)
      → ((t : Options F) → put (get t) t ≡ t)
      → Member (Options F)
  uint_option key get put law = omitted (λ n. n == 0) key (uint 64) get put law

  abbrev bool_option :
      (key : String) (get : Options F → Bool) (put : Bool → Options F → Options F)
      → ((t : Options F) → put (get t) t ≡ t)
      → Member (Options F)
  bool_option key get put law = omitted not key bool get put law

  abbrev float_option :
      (key : String) (get : Options F → F) (put : F → Options F → Options F)
      → ((t : Options F) → put (get t) t ≡ t)
      → Member (Options F)
  float_option key get put law = omitted is_zero key float get put law

  abbrev pub option_members : List (Member (Options F))
  option_members =
      text_option "all-proxy" (λ s. s.all_proxy) (λ x s. record s { all_proxy = x }) (λ t. refl)
      ∷ text_option "all-proxy-passwd" (λ s. s.all_proxy_password)
          (λ x s. record s { all_proxy_password = x }) (λ t. refl)
      ∷ text_option "all-proxy-user" (λ s. s.all_proxy_user)
          (λ x s. record s { all_proxy_user = x }) (λ t. refl)
      ∷ bool_option "allow-overwrite" (λ s. s.allow_overwrite)
          (λ x s. record s { allow_overwrite = x }) (λ t. refl)
      ∷ bool_option "allow-piece-length-change" (λ s. s.allow_piece_length_change)
          (λ x s. record s { allow_piece_length_change = x }) (λ t. refl)
      ∷ bool_option "always-resume" (λ s. s.always_resume) (λ x s. record s { always_resume = x })
          (λ t. refl)
      ∷ bool_option "async-dns" (λ s. s.async_dns) (λ x s. record s { async_dns = x }) (λ t. refl)
      ∷ bool_option "auto-file-renaming" (λ s. s.auto_file_renaming)
          (λ x s. record s { auto_file_renaming = x }) (λ t. refl)
      ∷ bool_option "bt-enable-hook-after-hash-check" (λ s. s.bt_enable_hook_after_hash_check)
          (λ x s. record s { bt_enable_hook_after_hash_check = x }) (λ t. refl)
      ∷ bool_option "bt-enable-lpd" (λ s. s.bt_enable_lpd) (λ x s. record s { bt_enable_lpd = x })
          (λ t. refl)
      ∷ text_option "bt-exclude-tracker" (λ s. s.bt_exclude_tracker)
          (λ x s. record s { bt_exclude_tracker = x }) (λ t. refl)
      ∷ text_option "bt-external-ip" (λ s. s.bt_external_ip)
          (λ x s. record s { bt_external_ip = x }) (λ t. refl)
      ∷ bool_option "bt-force-encryption" (λ s. s.bt_force_encryption)
          (λ x s. record s { bt_force_encryption = x }) (λ t. refl)
      ∷ bool_option "bt-hash-check-seed" (λ s. s.bt_hash_check_seed)
          (λ x s. record s { bt_hash_check_seed = x }) (λ t. refl)
      ∷ bool_option "bt-load-saved-metadata" (λ s. s.bt_load_saved_metadata)
          (λ x s. record s { bt_load_saved_metadata = x }) (λ t. refl)
      ∷ uint_option "bt-max-peers" (λ s. s.bt_max_peers) (λ x s. record s { bt_max_peers = x })
          (λ t. refl)
      ∷ bool_option "bt-metadata-only" (λ s. s.bt_metadata_only)
          (λ x s. record s { bt_metadata_only = x }) (λ t. refl)
      ∷ text_option "bt-min-crypto-level" (λ s. s.bt_min_crypto_level)
          (λ x s. record s { bt_min_crypto_level = x }) (λ t. refl)
      ∷ text_option "bt-prioritize-piece" (λ s. s.bt_prioritize_piece)
          (λ x s. record s { bt_prioritize_piece = x }) (λ t. refl)
      ∷ bool_option "bt-remove-unselected-file" (λ s. s.bt_remove_unselected_file)
          (λ x s. record s { bt_remove_unselected_file = x }) (λ t. refl)
      ∷ text_option "bt-request-peer-speed-limit" (λ s. s.bt_request_peer_speed_limit)
          (λ x s. record s { bt_request_peer_speed_limit = x }) (λ t. refl)
      ∷ bool_option "bt-require-crypto" (λ s. s.bt_require_crypto)
          (λ x s. record s { bt_require_crypto = x }) (λ t. refl)
      ∷ bool_option "bt-save-metadata" (λ s. s.bt_save_metadata)
          (λ x s. record s { bt_save_metadata = x }) (λ t. refl)
      ∷ bool_option "bt-seed-unverified" (λ s. s.bt_seed_unverified)
          (λ x s. record s { bt_seed_unverified = x }) (λ t. refl)
      ∷ uint_option "bt-stop-timeout" (λ s. s.bt_stop_timeout)
          (λ x s. record s { bt_stop_timeout = x }) (λ t. refl)
      ∷ text_option "bt-tracker" (λ s. s.bt_tracker) (λ x s. record s { bt_tracker = x })
          (λ t. refl)
      ∷ uint_option "bt-tracker-connect-timeout" (λ s. s.bt_tracker_connect_timeout)
          (λ x s. record s { bt_tracker_connect_timeout = x }) (λ t. refl)
      ∷ uint_option "bt-tracker-interval" (λ s. s.bt_tracker_interval)
          (λ x s. record s { bt_tracker_interval = x }) (λ t. refl)
      ∷ uint_option "bt-tracker-timeout" (λ s. s.bt_tracker_timeout)
          (λ x s. record s { bt_tracker_timeout = x }) (λ t. refl)
      ∷ bool_option "check-integrity" (λ s. s.check_integrity)
          (λ x s. record s { check_integrity = x }) (λ t. refl)
      ∷ text_option "checksum" (λ s. s.checksum) (λ x s. record s { checksum = x }) (λ t. refl)
      ∷ bool_option "conditional-get" (λ s. s.conditional_get)
          (λ x s. record s { conditional_get = x }) (λ t. refl)
      ∷ uint_option "connect-timeout" (λ s. s.connect_timeout)
          (λ x s. record s { connect_timeout = x }) (λ t. refl)
      ∷ bool_option "content-disposition-default-utf8" (λ s. s.content_disposition_default_utf8)
          (λ x s. record s { content_disposition_default_utf8 = x }) (λ t. refl)
      ∷ bool_option "continue" (λ s. s.continue) (λ x s. record s { continue = x }) (λ t. refl)
      ∷ text_option "dir" (λ s. s.dir) (λ x s. record s { dir = x }) (λ t. refl)
      ∷ bool_option "dry-run" (λ s. s.dry_run) (λ x s. record s { dry_run = x }) (λ t. refl)
      ∷ bool_option "enable-http-keep-alive" (λ s. s.enable_http_keep_alive)
          (λ x s. record s { enable_http_keep_alive = x }) (λ t. refl)
      ∷ bool_option "enable-http-pipelining" (λ s. s.enable_http_pipelining)
          (λ x s. record s { enable_http_pipelining = x }) (λ t. refl)
      ∷ bool_option "enable-mmap" (λ s. s.enable_mmap) (λ x s. record s { enable_mmap = x })
          (λ t. refl)
      ∷ bool_option "enable-peer-exchange" (λ s. s.enable_peer_exchange)
          (λ x s. record s { enable_peer_exchange = x }) (λ t. refl)
      ∷ text_option "file-allocation" (λ s. s.file_allocation)
          (λ x s. record s { file_allocation = x }) (λ t. refl)
      ∷ bool_option "follow-metalink" (λ s. s.follow_metalink)
          (λ x s. record s { follow_metalink = x }) (λ t. refl)
      ∷ bool_option "follow-torrent" (λ s. s.follow_torrent)
          (λ x s. record s { follow_torrent = x }) (λ t. refl)
      ∷ bool_option "force-save" (λ s. s.force_save) (λ x s. record s { force_save = x })
          (λ t. refl)
      ∷ text_option "ftp-passwd" (λ s. s.ftp_passwd) (λ x s. record s { ftp_passwd = x })
          (λ t. refl)
      ∷ bool_option "ftp-pasv" (λ s. s.ftp_pasv) (λ x s. record s { ftp_pasv = x }) (λ t. refl)
      ∷ text_option "ftp-proxy" (λ s. s.ftp_proxy) (λ x s. record s { ftp_proxy = x }) (λ t. refl)
      ∷ text_option "ftp-proxy-passwd" (λ s. s.ftp_proxy_passwd)
          (λ x s. record s { ftp_proxy_passwd = x }) (λ t. refl)
      ∷ text_option "ftp-proxy-user" (λ s. s.ftp_proxy_user)
          (λ x s. record s { ftp_proxy_user = x }) (λ t. refl)
      ∷ bool_option "ftp-reuse-connection" (λ s. s.ftp_reuse_connection)
          (λ x s. record s { ftp_reuse_connection = x }) (λ t. refl)
      ∷ text_option "ftp-type" (λ s. s.ftp_type) (λ x s. record s { ftp_type = x }) (λ t. refl)
      ∷ text_option "ftp-user" (λ s. s.ftp_user) (λ x s. record s { ftp_user = x }) (λ t. refl)
      ∷ text_option "gid" (λ s. s.gid) (λ x s. record s { gid = x }) (λ t. refl)
      ∷ bool_option "hash-check-only" (λ s. s.hash_check_only)
          (λ x s. record s { hash_check_only = x }) (λ t. refl)
      ∷ text_option "header" (λ s. s.header) (λ x s. record s { header = x }) (λ t. refl)
      ∷ bool_option "http-accept-gzip" (λ s. s.http_accept_gzip)
          (λ x s. record s { http_accept_gzip = x }) (λ t. refl)
      ∷ bool_option "http-auth-challenge" (λ s. s.http_auth_challenge)
          (λ x s. record s { http_auth_challenge = x }) (λ t. refl)
      ∷ bool_option "http-no-cache" (λ s. s.http_no_cache) (λ x s. record s { http_no_cache = x })
          (λ t. refl)
      ∷ text_option "http-passwd" (λ s. s.http_passwd) (λ x s. record s { http_passwd = x })
          (λ t. refl)
      ∷ text_option "http-proxy" (λ s. s.http_proxy) (λ x s. record s { http_proxy = x })
          (λ t. refl)
      ∷ text_option "http-proxy-passwd" (λ s. s.http_proxy_passwd)
          (λ x s. record s { http_proxy_passwd = x }) (λ t. refl)
      ∷ text_option "http-proxy-user" (λ s. s.http_proxy_user)
          (λ x s. record s { http_proxy_user = x }) (λ t. refl)
      ∷ text_option "http-user" (λ s. s.http_user) (λ x s. record s { http_user = x }) (λ t. refl)
      ∷ text_option "https-proxy" (λ s. s.https_proxy) (λ x s. record s { https_proxy = x })
          (λ t. refl)
      ∷ text_option "https-proxy-passwd" (λ s. s.https_proxy_passwd)
          (λ x s. record s { https_proxy_passwd = x }) (λ t. refl)
      ∷ text_option "https-proxy-user" (λ s. s.https_proxy_user)
          (λ x s. record s { https_proxy_user = x }) (λ t. refl)
      ∷ uint_option "index-out" (λ s. s.index_out) (λ x s. record s { index_out = x }) (λ t. refl)
      ∷ text_option "lowest-speed-limit" (λ s. s.lowest_speed_limit)
          (λ x s. record s { lowest_speed_limit = x }) (λ t. refl)
      ∷ uint_option "max-connection-per-server" (λ s. s.max_connection_per_server)
          (λ x s. record s { max_connection_per_server = x }) (λ t. refl)
      ∷ text_option "max-download-limit" (λ s. s.max_download_limit)
          (λ x s. record s { max_download_limit = x }) (λ t. refl)
      ∷ text_option "max-overall-download-limit" (λ s. s.max_overall_download_limit)
          (λ x s. record s { max_overall_download_limit = x }) (λ t. refl)
      ∷ uint_option "max-file-not-found" (λ s. s.max_file_not_found)
          (λ x s. record s { max_file_not_found = x }) (λ t. refl)
      ∷ text_option "max-mmap-limit" (λ s. s.max_mmap_limit)
          (λ x s. record s { max_mmap_limit = x }) (λ t. refl)
      ∷ uint_option "max-resume-failure-tries" (λ s. s.max_resume_failure_tries)
          (λ x s. record s { max_resume_failure_tries = x }) (λ t. refl)
      ∷ uint_option "max-tries" (λ s. s.max_tries) (λ x s. record s { max_tries = x }) (λ t. refl)
      ∷ text_option "max-upload-limit" (λ s. s.max_upload_limit)
          (λ x s. record s { max_upload_limit = x }) (λ t. refl)
      ∷ text_option "metalink-base-uri" (λ s. s.metalink_base_uri)
          (λ x s. record s { metalink_base_uri = x }) (λ t. refl)
      ∷ bool_option "metalink-enable-unique-protocol" (λ s. s.metalink_enable_unique_protocol)
          (λ x s. record s { metalink_enable_unique_protocol = x }) (λ t. refl)
      ∷ text_option "metalink-language" (λ s. s.metalink_language)
          (λ x s. record s { metalink_language = x }) (λ t. refl)
      ∷ text_option "metalink-location" (λ s. s.metalink_location)
          (λ x s. record s { metalink_location = x }) (λ t. refl)
      ∷ text_option "metalink-os" (λ s. s.metalink_os) (λ x s. record s { metalink_os = x })
          (λ t. refl)
      ∷ text_option "metalink-preferred-protocol" (λ s. s.metalink_preferred_protocol)
          (λ x s. record s { metalink_preferred_protocol = x }) (λ t. refl)
      ∷ text_option "metalink-version" (λ s. s.metalink_version)
          (λ x s. record s { metalink_version = x }) (λ t. refl)
      ∷ text_option "min-split-size" (λ s. s.min_split_size)
          (λ x s. record s { min_split_size = x }) (λ t. refl)
      ∷ text_option "no-file-allocation-limit" (λ s. s.no_file_allocation_limit)
          (λ x s. record s { no_file_allocation_limit = x }) (λ t. refl)
      ∷ bool_option "no-netrc" (λ s. s.no_netrc) (λ x s. record s { no_netrc = x }) (λ t. refl)
      ∷ bool_option "no-proxy" (λ s. s.no_proxy) (λ x s. record s { no_proxy = x }) (λ t. refl)
      ∷ text_option "out" (λ s. s.out) (λ x s. record s { out = x }) (λ t. refl)
      ∷ text_option "parameterized-uri" (λ s. s.parameterized_uri)
          (λ x s. record s { parameterized_uri = x }) (λ t. refl)
      ∷ bool_option "pause" (λ s. s.pause) (λ x s. record s { pause = x }) (λ t. refl)
      ∷ bool_option "pause-metadata" (λ s. s.pause_metadata)
          (λ x s. record s { pause_metadata = x }) (λ t. refl)
      ∷ text_option "piece-length" (λ s. s.piece_length) (λ x s. record s { piece_length = x })
          (λ t. refl)
      ∷ text_option "proxy-method" (λ s. s.proxy_method) (λ x s. record s { proxy_method = x })
          (λ t. refl)
      ∷ text_option "realtime-chunk-checksum" (λ s. s.realtime_chunk_checksum)
          (λ x s. record s { realtime_chunk_checksum = x }) (λ t. refl)
      ∷ text_option "referer" (λ s. s.referer) (λ x s. record s { referer = x }) (λ t. refl)
      ∷ bool_option "remote-time" (λ s. s.remote_time) (λ x s. record s { remote_time = x })
          (λ t. refl)
      ∷ text_option "remove-control-file" (λ s. s.remove_control_file)
          (λ x s. record s { remove_control_file = x }) (λ t. refl)
      ∷ uint_option "retry-wait" (λ s. s.retry_wait) (λ x s. record s { retry_wait = x })
          (λ t. refl)
      ∷ bool_option "reuse-uri" (λ s. s.reuse_uri) (λ x s. record s { reuse_uri = x }) (λ t. refl)
      ∷ text_option "rpc-save-upload-metadata" (λ s. s.rpc_save_upload_metadata)
          (λ x s. record s { rpc_save_upload_metadata = x }) (λ t. refl)
      ∷ float_option "seed-ratio" (λ s. s.seed_ratio) (λ x s. record s { seed_ratio = x })
          (λ t. refl)
      ∷ uint_option "seed-time" (λ s. s.seed_time) (λ x s. record s { seed_time = x }) (λ t. refl)
      ∷ text_option "select-file" (λ s. s.select_file) (λ x s. record s { select_file = x })
          (λ t. refl)
      ∷ uint_option "split" (λ s. s.split) (λ x s. record s { split = x }) (λ t. refl)
      ∷ text_option "ssh-host-key-md" (λ s. s.ssh_host_key_md)
          (λ x s. record s { ssh_host_key_md = x }) (λ t. refl)
      ∷ text_option "stream-piece-selector" (λ s. s.stream_piece_selector)
          (λ x s. record s { stream_piece_selector = x }) (λ t. refl)
      ∷ uint_option "timeout" (λ s. s.timeout) (λ x s. record s { timeout = x }) (λ t. refl)
      ∷ text_option "uri-selector" (λ s. s.uri_selector) (λ x s. record s { uri_selector = x })
          (λ t. refl)
      ∷ bool_option "use-head" (λ s. s.use_head) (λ x s. record s { use_head = x }) (λ t. refl)
      ∷ text_option "user-agent" (λ s. s.user_agent) (λ x s. record s { user_agent = x })
          (λ t. refl)
      ∷ []

  pub option_members-distinct : distinct option_members ≡ true
  unfolding exact_member
  option_members-distinct = refl
