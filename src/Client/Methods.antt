-- ===== src/Client/Methods.antt =====
-- The methods of Client that make one call and pass on its error or its decoded reply.
use arigo.Proto
use arigo.Base.{ℕ, String, Option, none, some, List, [], ◌∷◌, ◌++◌}
use text.Mathlib.Text.{◌==◌ as str_eq}
use arigo.Base.{if◌then◌else◌}
use arigo.Json.{
  Json, number, str, obj, end, field, GoError, Decodes, ℤ, int_json, decodes_int, decodes_slice,
  decodes_uint,
}
use arigo.Codec.{Outcome, done, panic}
use arigo.Client.{Client, Slice, Rpc, Options, strings_json, get_args, call_nil, call}

-- keys ...string of TellStatus: an empty or nil slice becomes the empty slice.
unfoldable pub status_keys : Slice String → Slice String
status_keys none = some []
status_keys (some []) = some []
status_keys (some (k ∷ ks)) = some (k ∷ ks)

unfoldable pub tell_status_args : Client → String → Slice String → List Json
unfolding get_args status_keys
tell_status_args c gid keys = get_args c (some (str gid ∷ strings_json (status_keys keys) ∷ []))

unfoldable pub tell_active_args : Client → Slice String → List Json
unfolding get_args
tell_active_args c keys = get_args c (some (strings_json keys ∷ []))

-- The arguments of TellWaiting and of TellStopped.
unfoldable pub tell_range_args : Client → ℤ → ℕ → Slice String → List Json
unfolding get_args
tell_range_args c offset num keys =
    get_args c (some (int_json offset ∷ number num ∷ strings_json keys ∷ []))

-- PositionSetBehaviour is a string; the constants are three of its values.
abbrev pub set_position_start : String
set_position_start = "POS_SET"

abbrev pub set_position_end : String
set_position_end = "POS_END"

abbrev pub set_position_relative : String
set_position_relative = "POS_CUR"

unfoldable pub change_position_args : Client → String → ℤ → String → List Json
unfolding get_args
change_position_args c gid offset how =
    let args = get_args c (some (str gid ∷ int_json offset ∷ [])) in
    if str_eq how "" then args else args ++ str how ∷ []

-- reply[0], reply[1]: a panic on a shorter slice.
unfoldable pub two_counts :
    {W : Type 0} → List ℕ × Option GoError × W → Outcome (ℕ × ℕ × Option GoError × W)
two_counts (deleted ∷ added ∷ rest, err, w) = done (deleted, added, err, w)
two_counts (deleted ∷ [], err, w) = panic
two_counts ([], err, w) = panic

module _ {W : Type 0} (rpc : Rpc W) where
  unfoldable pub force_remove : Client → String → W → Option GoError × W
  unfolding call_nil get_args
  force_remove c gid w = call_nil rpc Proto.force_remove (get_args c (some (str gid ∷ []))) w

  unfoldable pub pause : Client → String → W → Option GoError × W
  unfolding call_nil get_args
  pause c gid w = call_nil rpc Proto.pause (get_args c (some (str gid ∷ []))) w

  unfoldable pub pause_all : Client → W → Option GoError × W
  unfolding call_nil get_args
  pause_all c w = call_nil rpc Proto.pause_all (get_args c none) w

  unfoldable pub force_pause : Client → String → W → Option GoError × W
  unfolding call_nil get_args
  force_pause c gid w = call_nil rpc Proto.force_pause (get_args c (some (str gid ∷ []))) w

  unfoldable pub force_pause_all : Client → W → Option GoError × W
  unfolding call_nil get_args
  force_pause_all c w = call_nil rpc Proto.force_pause_all (get_args c none) w

  unfoldable pub unpause : Client → String → W → Option GoError × W
  unfolding call_nil get_args
  unpause c gid w = call_nil rpc Proto.unpause (get_args c (some (str gid ∷ []))) w

  unfoldable pub unpause_all : Client → W → Option GoError × W
  unfolding call_nil get_args
  unpause_all c w = call_nil rpc Proto.unpause_all (get_args c none) w

  unfoldable pub purge_download_results : Client → W → Option GoError × W
  unfolding call_nil get_args
  purge_download_results c w = call_nil rpc Proto.purge_download_results (get_args c none) w

  unfoldable pub remove_download_result : Client → String → W → Option GoError × W
  unfolding call_nil get_args
  remove_download_result c gid w =
      call_nil rpc Proto.remove_download_result (get_args c (some (str gid ∷ []))) w

  unfoldable pub shutdown : Client → W → Option GoError × W
  unfolding call_nil get_args
  shutdown c w = call_nil rpc Proto.shutdown (get_args c none) w

  unfoldable pub force_shutdown : Client → W → Option GoError × W
  unfolding call_nil get_args
  force_shutdown c w = call_nil rpc Proto.force_shutdown (get_args c none) w

  unfoldable pub save_session : Client → W → Option GoError × W
  unfolding call_nil get_args
  save_session c w = call_nil rpc Proto.save_session (get_args c none) w

  unfoldable pub change_options : Client → String → Options → W → Option GoError × W
  unfolding call_nil get_args
  change_options c gid options w =
      call_nil rpc Proto.change_options (get_args c (some (str gid ∷ obj options ∷ []))) w

  -- map[string]string{key: value}
  unfoldable pub change_option : Client → String → String → String → W → Option GoError × W
  unfolding call_nil get_args
  change_option c gid key v w =
      call_nil rpc Proto.change_options
        (get_args c (some (str gid ∷ obj (field key (str v) end) ∷ []))) w

  unfoldable pub change_global_options : Client → Options → W → Option GoError × W
  unfolding call_nil get_args
  change_global_options c options w =
      call_nil rpc Proto.change_global_options (get_args c (some (obj options ∷ []))) w

  unfoldable pub change_position : Client → String → ℤ → String → W → ℤ × Option GoError × W
  unfolding call change_position_args
  change_position c gid offset how w =
      call rpc Proto.change_position (change_position_args c gid offset how) w

  unfoldable pub change_uri_at :
      Client
      → String
      → ℕ
      → Slice String
      → Slice String
      → ℕ
      → W
      → Outcome (ℕ × ℕ × Option GoError × W)
  unfolding two_counts get_args
  change_uri_at c gid file_index del_uris add_uris position w = two_counts (
      call rpc Proto.change_uri
        (get_args c (
          some (
            str gid
            ∷ number file_index
            ∷ strings_json del_uris
            ∷ strings_json add_uris
            ∷ number position
            ∷ [])))
        w)

  unfoldable pub change_uri :
      Client → String → ℕ → Slice String → Slice String → W → Outcome (ℕ × ℕ × Option GoError × W)
  unfolding two_counts get_args
  change_uri c gid file_index del_uris add_uris w = two_counts (
      call rpc Proto.change_uri
        (get_args c
          (some (str gid ∷ number file_index ∷ strings_json del_uris ∷ strings_json add_uris ∷ [])))
        w)

  -- The methods whose reply is a struct or a slice of structs, over the type that it is decoded to.
  module _ {A : Type 0} ⦃d : Decodes A⦄ where
    unfoldable pub tell_status : Client → String → Slice String → W → A × Option GoError × W
    unfolding call tell_status_args
    tell_status c gid keys w = call rpc Proto.tell_status (tell_status_args c gid keys) w

    unfoldable pub tell_active : Client → Slice String → W → List A × Option GoError × W
    unfolding call tell_active_args
    tell_active c keys w = call rpc Proto.tell_active (tell_active_args c keys) w

    unfoldable pub tell_waiting : Client → ℤ → ℕ → Slice String → W → List A × Option GoError × W
    unfolding call tell_range_args
    tell_waiting c offset num keys w =
        call rpc Proto.tell_waiting (tell_range_args c offset num keys) w

    unfoldable pub tell_stopped : Client → ℤ → ℕ → Slice String → W → List A × Option GoError × W
    unfolding call tell_range_args
    tell_stopped c offset num keys w =
        call rpc Proto.tell_stopped (tell_range_args c offset num keys) w

    unfoldable pub get_uris : Client → String → W → List A × Option GoError × W
    unfolding call get_args
    get_uris c gid w = call rpc Proto.get_uris (get_args c (some (str gid ∷ []))) w

    unfoldable pub get_files : Client → String → W → List A × Option GoError × W
    unfolding call get_args
    get_files c gid w = call rpc Proto.get_files (get_args c (some (str gid ∷ []))) w

    unfoldable pub get_peers : Client → String → W → List A × Option GoError × W
    unfolding call get_args
    get_peers c gid w = call rpc Proto.get_peers (get_args c (some (str gid ∷ []))) w

    unfoldable pub get_servers : Client → String → W → List A × Option GoError × W
    unfolding call get_args
    get_servers c gid w = call rpc Proto.get_servers (get_args c (some (str gid ∷ []))) w

    unfoldable pub get_options : Client → String → W → A × Option GoError × W
    unfolding call get_args
    get_options c gid w = call rpc Proto.get_options (get_args c (some (str gid ∷ []))) w

    unfoldable pub get_global_options : Client → W → A × Option GoError × W
    unfolding call get_args
    get_global_options c w = call rpc Proto.get_global_options (get_args c none) w

    unfoldable pub get_global_stats : Client → W → A × Option GoError × W
    unfolding call get_args
    get_global_stats c w = call rpc Proto.get_global_stats (get_args c none) w

    unfoldable pub get_version : Client → W → A × Option GoError × W
    unfolding call get_args
    get_version c w = call rpc Proto.get_version (get_args c none) w

    unfoldable pub get_session_info : Client → W → A × Option GoError × W
    unfolding call get_args
    get_session_info c w = call rpc Proto.get_session_info (get_args c none) w
