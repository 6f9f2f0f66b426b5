-- ===== src/Client/Secret.antt =====
-- What a token changes in the methods of client.go, multicall.go included: the statement, method by
-- method.
pub mod AllCalls
use arigo.Proto
use text.Mathlib.Text.{◌==◌ as str_eq}
use arigo.Base.{
  suc, zero, zero, suc, ℕ, ◌≡◌, ◌≢◌, refl, ap, ◌∙◌, String, Option, none, some, List, [], ◌∷◌, map,
  arith, if◌then◌else◌, length, replicate, ◌++◌,
}
use arigo.Json.{
  Json, str, obj, field, end, number, GoError, Decodes, ℤ, int_json, decodes_int, decodes_uint,
  decodes_slice, decodes_string, decodes_raw,
}
use arigo.Client.{
  Client, Slice, Options, Rpc, Gid, strings_json, get_args, call, call_nil, decode_reply, remove,
  add_uri_at_position, add_torrent_at_position, add_metalink_at_position, get_gid, zero_gid,
  add_metalink_args,
}
use arigo.Client.Arguments.{anonymous, secret, get_args-secret, add_args_secret}
use arigo.Client.Multicall.{MethodCall, multi_call, multi_call_args, methods_json, method_result}
use arigo.Client.Methods.{
  force_remove, pause, pause_all, force_pause, force_pause_all, unpause, unpause_all,
  purge_download_results, remove_download_result, shutdown, force_shutdown, save_session,
  change_options, change_option, change_global_options, change_position, change_uri_at, change_uri,
  tell_status, tell_active, tell_waiting, tell_stopped, get_uris, get_files, get_peers, get_servers,
  get_options, get_global_options, get_global_stats, get_version, get_session_info,
  change_position_args, tell_status_args, tell_active_args, tell_range_args, two_counts,
  status_keys,
}

-- The same connection, with the secret in front of the arguments.
abbrev pub with_secret : {W : Type 0} → Client → Rpc W → Rpc W
with_secret c rpc method args w = rpc method (secret c ∷ args) w

-- The methods that give no more than an error.
abbrev pub SameOrders :
    {W : Type 0} (rpc rpc' : Rpc W) (c c' : Client) (gid key v : String) (options : Options) (w : W)
    → Type 0
SameOrders rpc rpc' c c' gid key v options w =
    (remove rpc c gid w ≡ remove rpc' c' gid w)
    × (force_remove rpc c gid w ≡ force_remove rpc' c' gid w)
    × (pause rpc c gid w ≡ pause rpc' c' gid w)
    × (pause_all rpc c w ≡ pause_all rpc' c' w)
    × (force_pause rpc c gid w ≡ force_pause rpc' c' gid w)
    × (force_pause_all rpc c w ≡ force_pause_all rpc' c' w)
    × (unpause rpc c gid w ≡ unpause rpc' c' gid w)
    × (unpause_all rpc c w ≡ unpause_all rpc' c' w)
    × (purge_download_results rpc c w ≡ purge_download_results rpc' c' w)
    × (remove_download_result rpc c gid w ≡ remove_download_result rpc' c' gid w)
    × (shutdown rpc c w ≡ shutdown rpc' c' w)
    × (force_shutdown rpc c w ≡ force_shutdown rpc' c' w)
    × (save_session rpc c w ≡ save_session rpc' c' w)
    × (change_options rpc c gid options w ≡ change_options rpc' c' gid options w)
    × (change_option rpc c gid key v w ≡ change_option rpc' c' gid key v w)
    × (change_global_options rpc c options w ≡ change_global_options rpc' c' options w)

-- The methods that give a reply, of structs of any type.
abbrev pub SameReplies :
    {W : Type 0} (A : Type 0) ⦃d : Decodes A⦄ (rpc rpc' : Rpc W) (c c' : Client) (gid how : String)
    (offset : ℤ) (n position : ℕ) (keys us vs : Slice String) (methods : Slice MethodCall) (w : W)
    → Type 0
SameReplies A rpc rpc' c c' gid how offset n position keys us vs methods w =
    (change_position rpc c gid offset how w ≡ change_position rpc' c' gid offset how w)
    × (change_uri_at rpc c gid n us vs position w ≡ change_uri_at rpc' c' gid n us vs position w)
    × (change_uri rpc c gid n us vs w ≡ change_uri rpc' c' gid n us vs w)
    × (tell_status rpc {A = A} c gid keys w ≡ tell_status rpc' {A = A} c' gid keys w)
    × (tell_active rpc {A = A} c keys w ≡ tell_active rpc' {A = A} c' keys w)
    × (tell_waiting rpc {A = A} c offset n keys w ≡ tell_waiting rpc' {A = A} c' offset n keys w)
    × (tell_stopped rpc {A = A} c offset n keys w ≡ tell_stopped rpc' {A = A} c' offset n keys w)
    × (get_uris rpc {A = A} c gid w ≡ get_uris rpc' {A = A} c' gid w)
    × (get_files rpc {A = A} c gid w ≡ get_files rpc' {A = A} c' gid w)
    × (get_peers rpc {A = A} c gid w ≡ get_peers rpc' {A = A} c' gid w)
    × (get_servers rpc {A = A} c gid w ≡ get_servers rpc' {A = A} c' gid w)
    × (get_options rpc {A = A} c gid w ≡ get_options rpc' {A = A} c' gid w)
    × (get_global_options rpc {A = A} c w ≡ get_global_options rpc' {A = A} c' w)
    × (get_global_stats rpc {A = A} c w ≡ get_global_stats rpc' {A = A} c' w)
    × (get_version rpc {A = A} c w ≡ get_version rpc' {A = A} c' w)
    × (get_session_info rpc {A = A} c w ≡ get_session_info rpc' {A = A} c' w)
    × (multi_call rpc c methods w ≡ multi_call rpc' c' methods w)

-- What a method that adds a download gives, with the GID for its handle.
abbrev pub handed : {W : Type 0} → Gid × Option GoError × W → String × Option GoError × W
handed (g, err, w) = (g.gid, err, w)

abbrev pub handed_all :
    {W : Type 0} → List Gid × Option GoError × W → List String × Option GoError × W
handed_all (gs, err, w) = (map (λ g. g.gid) gs, err, w)

-- The methods that add downloads.
abbrev pub SameAdds :
    {W : Type 0} (rpc rpc' : Rpc W) (c c' : Client) (bytes : List ℕ) (us : Slice String)
    (options : Option Options) (position : ℕ) (w : W)
    → Type 0
SameAdds rpc rpc' c c' bytes us options position w =
    (handed (add_uri_at_position rpc c us position options w)
      ≡ handed (add_uri_at_position rpc' c' us position options w))
    × (handed (add_torrent_at_position rpc c bytes us position options w)
        ≡ handed (add_torrent_at_position rpc' c' bytes us position options w))
    × (handed_all (add_metalink_at_position rpc c bytes position options w)
        ≡ handed_all (add_metalink_at_position rpc' c' bytes position options w))
