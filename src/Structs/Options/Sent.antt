-- ===== src/Structs/Options/Sent.antt =====
-- What the options that are sent mean to the receiver.
use text.Mathlib.Text.{◌==◌ as str_eq}
use arigo.Base.{◌≡◌, Bool, true, false, not, Option, none, some, All, ◌==◌, if◌then◌else◌}
use arigo.Json.{Json, str}
use arigo.Tags.{Coding, stored, store_struct, struct_json, members_json}
use arigo.Tags.Codings.{bool_text}
use arigo.Tags.Entries.{entry, members_json-entry}
use arigo.Tags.Members.{valid_members, store_struct-struct_json}
use arigo.Structs.Options.{Options}
use arigo.Structs.Options.Fields.{option_members, option_members-distinct}

true_or_nothing :
    (b : Bool) (e : Option Json)
    → e ≡ (if not b then none else some (str (bool_text b)))
    → e ≡ (if b then some (str "true") else none)
true_or_nothing true e h = h
true_or_nothing false e h = h

module _ {F : Type 0} (float : Coding F) (is_zero : F → Bool) where
  -- The options of `o` that are not empty, over those of `t`.
  pub merged : Options F → Options F → Options F
  merged o t = record {
    all_proxy = if str_eq o.all_proxy "" then t.all_proxy else o.all_proxy;
    all_proxy_password =
        if str_eq o.all_proxy_password "" then t.all_proxy_password else o.all_proxy_password;
    all_proxy_user = if str_eq o.all_proxy_user "" then t.all_proxy_user else o.all_proxy_user;
    allow_overwrite = if not o.allow_overwrite then t.allow_overwrite else o.allow_overwrite;
    allow_piece_length_change =
        if not o.allow_piece_length_change
        then t.allow_piece_length_change
        else o.allow_piece_length_change;
    always_resume = if not o.always_resume then t.always_resume else o.always_resume;
    async_dns = if not o.async_dns then t.async_dns else o.async_dns;
    auto_file_renaming =
        if not o.auto_file_renaming then t.auto_file_renaming else o.auto_file_renaming;
    bt_enable_hook_after_hash_check =
        if not o.bt_enable_hook_after_hash_check
        then t.bt_enable_hook_after_hash_check
        else o.bt_enable_hook_after_hash_check;
    bt_enable_lpd = if not o.bt_enable_lpd then t.bt_enable_lpd else o.bt_enable_lpd;
    bt_exclude_tracker =
        if str_eq o.bt_exclude_tracker "" then t.bt_exclude_tracker else o.bt_exclude_tracker;
    bt_external_ip = if str_eq o.bt_external_ip "" then t.bt_external_ip else o.bt_external_ip;
    bt_force_encryption =
        if not o.bt_force_encryption then t.bt_force_encryption else o.bt_force_encryption;
    bt_hash_check_seed =
        if not o.bt_hash_check_seed then t.bt_hash_check_seed else o.bt_hash_check_seed;
    bt_load_saved_metadata =
        if not o.bt_load_saved_metadata then t.bt_load_saved_metadata else o.bt_load_saved_metadata;
    bt_max_peers = if o.bt_max_peers == 0 then t.bt_max_peers else o.bt_max_peers;
    bt_metadata_only = if not o.bt_metadata_only then t.bt_metadata_only else o.bt_metadata_only;
    bt_min_crypto_level =
        if str_eq o.bt_min_crypto_level "" then t.bt_min_crypto_level else o.bt_min_crypto_level;
    bt_prioritize_piece =
        if str_eq o.bt_prioritize_piece "" then t.bt_prioritize_piece else o.bt_prioritize_piece;
    bt_remove_unselected_file =
        if not o.bt_remove_unselected_file
        then t.bt_remove_unselected_file
        else o.bt_remove_unselected_file;
    bt_request_peer_speed_limit =
        if str_eq o.bt_request_peer_speed_limit ""
        then t.bt_request_peer_speed_limit
        else o.bt_request_peer_speed_limit;
    bt_require_crypto =
        if not o.bt_require_crypto then t.bt_require_crypto else o.bt_require_crypto;
    bt_save_metadata = if not o.bt_save_metadata then t.bt_save_metadata else o.bt_save_metadata;
    bt_seed_unverified =
        if not o.bt_seed_unverified then t.bt_seed_unverified else o.bt_seed_unverified;
    bt_stop_timeout = if o.bt_stop_timeout == 0 then t.bt_stop_timeout else o.bt_stop_timeout;
    bt_tracker = if str_eq o.bt_tracker "" then t.bt_tracker else o.bt_tracker;
    bt_tracker_connect_timeout =
        if o.bt_tracker_connect_timeout == 0
        then t.bt_tracker_connect_timeout
        else o.bt_tracker_connect_timeout;
    bt_tracker_interval =
        if o.bt_tracker_interval == 0 then t.bt_tracker_interval else o.bt_tracker_interval;
    bt_tracker_timeout =
        if o.bt_tracker_timeout == 0 then t.bt_tracker_timeout else o.bt_tracker_timeout;
    check_integrity = if not o.check_integrity then t.check_integrity else o.check_integrity;
    checksum = if str_eq o.checksum "" then t.checksum else o.checksum;
    conditional_get = if not o.conditional_get then t.conditional_get else o.conditional_get;
    connect_timeout = if o.connect_timeout == 0 then t.connect_timeout else o.connect_timeout;
    content_disposition_default_utf8 =
        if not o.content_disposition_default_utf8
        then t.content_disposition_default_utf8
        else o.content_disposition_default_utf8;
    continue = if not o.continue then t.continue else o.continue;
    dir = if str_eq o.dir "" then t.dir else o.dir;
    dry_run = if not o.dry_run then t.dry_run else o.dry_run;
    enable_http_keep_alive =
        if not o.enable_http_keep_alive then t.enable_http_keep_alive else o.enable_http_keep_alive;
    enable_http_pipelining =
        if not o.enable_http_pipelining then t.enable_http_pipelining else o.enable_http_pipelining;
    enable_mmap = if not o.enable_mmap then t.enable_mmap else o.enable_mmap;
    enable_peer_exchange =
        if not o.enable_peer_exchange then t.enable_peer_exchange else o.enable_peer_exchange;
    file_allocation = if str_eq o.file_allocation "" then t.file_allocation else o.file_allocation;
    follow_metalink = if not o.follow_metalink then t.follow_metalink else o.follow_metalink;
    follow_torrent = if not o.follow_torrent then t.follow_torrent else o.follow_torrent;
    force_save = if not o.force_save then t.force_save else o.force_save;
    ftp_passwd = if str_eq o.ftp_passwd "" then t.ftp_passwd else o.ftp_passwd;
    ftp_pasv = if not o.ftp_pasv then t.ftp_pasv else o.ftp_pasv;
    ftp_proxy = if str_eq o.ftp_proxy "" then t.ftp_proxy else o.ftp_proxy;
    ftp_proxy_passwd =
        if str_eq o.ftp_proxy_passwd "" then t.ftp_proxy_passwd else o.ftp_proxy_passwd;
    ftp_proxy_user = if str_eq o.ftp_proxy_user "" then t.ftp_proxy_user else o.ftp_proxy_user;
    ftp_reuse_connection =
        if not o.ftp_reuse_connection then t.ftp_reuse_connection else o.ftp_reuse_connection;
    ftp_type = if str_eq o.ftp_type "" then t.ftp_type else o.ftp_type;
    ftp_user = if str_eq o.ftp_user "" then t.ftp_user else o.ftp_user;
    gid = if str_eq o.gid "" then t.gid else o.gid;
    hash_check_only = if not o.hash_check_only then t.hash_check_only else o.hash_check_only;
    header = if str_eq o.header "" then t.header else o.header;
    http_accept_gzip = if not o.http_accept_gzip then t.http_accept_gzip else o.http_accept_gzip;
    http_auth_challenge =
        if not o.http_auth_challenge then t.http_auth_challenge else o.http_auth_challenge;
    http_no_cache = if not o.http_no_cache then t.http_no_cache else o.http_no_cache;
    http_passwd = if str_eq o.http_passwd "" then t.http_passwd else o.http_passwd;
    http_proxy = if str_eq o.http_proxy "" then t.http_proxy else o.http_proxy;
    http_proxy_passwd =
        if str_eq o.http_proxy_passwd "" then t.http_proxy_passwd else o.http_proxy_passwd;
    http_proxy_user = if str_eq o.http_proxy_user "" then t.http_proxy_user else o.http_proxy_user;
    http_user = if str_eq o.http_user "" then t.http_user else o.http_user;
    https_proxy = if str_eq o.https_proxy "" then t.https_proxy else o.https_proxy;
    https_proxy_passwd =
        if str_eq o.https_proxy_passwd "" then t.https_proxy_passwd else o.https_proxy_passwd;
    https_proxy_user =
        if str_eq o.https_proxy_user "" then t.https_proxy_user else o.https_proxy_user;
    index_out = if o.index_out == 0 then t.index_out else o.index_out;
    lowest_speed_limit =
        if str_eq o.lowest_speed_limit "" then t.lowest_speed_limit else o.lowest_speed_limit;
    max_connection_per_server =
        if o.max_connection_per_server == 0
        then t.max_connection_per_server
        else o.max_connection_per_server;
    max_download_limit =
        if str_eq o.max_download_limit "" then t.max_download_limit else o.max_download_limit;
    max_overall_download_limit =
        if str_eq o.max_overall_download_limit ""
        then t.max_overall_download_limit
        else o.max_overall_download_limit;
    max_file_not_found =
        if o.max_file_not_found == 0 then t.max_file_not_found else o.max_file_not_found;
    max_mmap_limit = if str_eq o.max_mmap_limit "" then t.max_mmap_limit else o.max_mmap_limit;
    max_resume_failure_tries =
        if o.max_resume_failure_tries == 0
        then t.max_resume_failure_tries
        else o.max_resume_failure_tries;
    max_tries = if o.max_tries == 0 then t.max_tries else o.max_tries;
    max_upload_limit =
        if str_eq o.max_upload_limit "" then t.max_upload_limit else o.max_upload_limit;
    metalink_base_uri =
        if str_eq o.metalink_base_uri "" then t.metalink_base_uri else o.metalink_base_uri;
    metalink_enable_unique_protocol =
        if not o.metalink_enable_unique_protocol
        then t.metalink_enable_unique_protocol
        else o.metalink_enable_unique_protocol;
    metalink_language =
        if str_eq o.metalink_language "" then t.metalink_language else o.metalink_language;
    metalink_location =
        if str_eq o.metalink_location "" then t.metalink_location else o.metalink_location;
    metalink_os = if str_eq o.metalink_os "" then t.metalink_os else o.metalink_os;
    metalink_preferred_protocol =
        if str_eq o.metalink_preferred_protocol ""
        then t.metalink_preferred_protocol
        else o.metalink_preferred_protocol;
    metalink_version =
        if str_eq o.metalink_version "" then t.metalink_version else o.metalink_version;
    min_split_size = if str_eq o.min_split_size "" then t.min_split_size else o.min_split_size;
    no_file_allocation_limit =
        if str_eq o.no_file_allocation_limit ""
        then t.no_file_allocation_limit
        else o.no_file_allocation_limit;
    no_netrc = if not o.no_netrc then t.no_netrc else o.no_netrc;
    no_proxy = if not o.no_proxy then t.no_proxy else o.no_proxy;
    out = if str_eq o.out "" then t.out else o.out;
    parameterized_uri =
        if str_eq o.parameterized_uri "" then t.parameterized_uri else o.parameterized_uri;
    pause = if not o.pause then t.pause else o.pause;
    pause_metadata = if not o.pause_metadata then t.pause_metadata else o.pause_metadata;
    piece_length = if str_eq o.piece_length "" then t.piece_length else o.piece_length;
    proxy_method = if str_eq o.proxy_method "" then t.proxy_method else o.proxy_method;
    realtime_chunk_checksum =
        if str_eq o.realtime_chunk_checksum ""
        then t.realtime_chunk_checksum
        else o.realtime_chunk_checksum;
    referer = if str_eq o.referer "" then t.referer else o.referer;
    remote_time = if not o.remote_time then t.remote_time else o.remote_time;
    remove_control_file =
        if str_eq o.remove_control_file "" then t.remove_control_file else o.remove_control_file;
    retry_wait = if o.retry_wait == 0 then t.retry_wait else o.retry_wait;
    reuse_uri = if not o.reuse_uri then t.reuse_uri else o.reuse_uri;
    rpc_save_upload_metadata =
        if str_eq o.rpc_save_upload_metadata ""
        then t.rpc_save_upload_metadata
        else o.rpc_save_upload_metadata;
    seed_ratio = if is_zero o.seed_ratio then t.seed_ratio else o.seed_ratio;
    seed_time = if o.seed_time == 0 then t.seed_time else o.seed_time;
    select_file = if str_eq o.select_file "" then t.select_file else o.select_file;
    split = if o.split == 0 then t.split else o.split;
    ssh_host_key_md = if str_eq o.ssh_host_key_md "" then t.ssh_host_key_md else o.ssh_host_key_md;
    stream_piece_selector =
        if str_eq o.stream_piece_selector ""
        then t.stream_piece_selector
        else o.stream_piece_selector;
    timeout = if o.timeout == 0 then t.timeout else o.timeout;
    uri_selector = if str_eq o.uri_selector "" then t.uri_selector else o.uri_selector;
    use_head = if not o.use_head then t.use_head else o.use_head;
    user_agent = if str_eq o.user_agent "" then t.user_agent else o.user_agent;
  }

  -- Valid options that are written and then read over others give the ones that are not empty, and
  -- leave the rest as they were, with no error.
  pub options_read_over :
      (o t : Options F)
      → valid_members (option_members float is_zero) o ≡ true
      → store_struct (option_members float is_zero) (struct_json (option_members float is_zero) o) t
        ≡ stored (merged o t)
  unfolding merged
  options_read_over o t v =
      store_struct-struct_json (option_members float is_zero) o t
        (option_members-distinct float is_zero) v

  -- Under the key of each option its text is written, exactly if it is not empty.
  pub options_sent :
      (o : Options F)
      → All
          (λ m.
            entry m.key (members_json (option_members float is_zero) o)
            ≡ (if m.omits o then none else some (m.member_json o)))
          (option_members float is_zero)
  options_sent o =
      members_json-entry (option_members float is_zero) o (option_members-distinct float is_zero)

  -- The options always-resume, async-dns and auto-file-renaming, which aria2 takes to be true when
  -- it gets nothing, are sent as "true" where they are true, and not at all where they are false.
  pub false_not_sent :
      (o : Options F)
      → (entry "always-resume" (members_json (option_members float is_zero) o)
          ≡ (if o.always_resume then some (str "true") else none))
        × (entry "async-dns" (members_json (option_members float is_zero) o)
            ≡ (if o.async_dns then some (str "true") else none))
        × (entry "auto-file-renaming" (members_json (option_members float is_zero) o)
            ≡ (if o.auto_file_renaming then some (str "true") else none))
  false_not_sent o =
      let sent = (options_sent o).1.1.1.1.1 in
      (
        true_or_nothing o.always_resume _ sent.0,
        true_or_nothing o.async_dns _ sent.1.0,
        true_or_nothing o.auto_file_renaming _ sent.1.1.0,
      )
