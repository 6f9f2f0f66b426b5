-- ===== src/Client/Secret/AllCalls.antt =====
-- The methods of client.go with a token and with none: each is its call, with the arguments that
-- getArgs gives it.
use arigo.Proto
use text.Mathlib.Text.{◌==◌ as str_eq}
use arigo.Base.{
  suc, zero, zero, suc, ℕ, ◌≡◌, ◌≢◌, refl, ap, ◌∙◌, String, Option, none, some, List, [], ◌∷◌, map,
  arith, if◌then◌else◌, length, replicate, ◌++◌,
}
use arigo.Json.{
  Json, str, obj, field, end, number, GoError, Decodes, ℤ, int_json, decodes_int, decodes_uint,
  decodes_slice, decodes_string, decodes_raw,
}
use arigo.Client.{
  Client, Slice, Options, Rpc, strings_json, get_args, call, call_nil, decode_reply, remove,
  add_uri_at_position, add_torrent_at_position, add_metalink_at_position, get_gid, zero_gid,
  add_metalink_args,
}
use arigo.Client.Arguments.{anonymous, secret, get_args-secret, add_args_secret}
use arigo.Client.Multicall.{MethodCall, multi_call, multi_call_args, methods_json, method_result}
use arigo.Client.Methods.{
  force_remove, pause, pause_all, force_pause, force_pause_all, unpause, unpause_all,
  purge_download_results, remove_download_result, shutdown, force_shutdown, save_session,
  change_options, change_option, change_global_options, change_position, change_uri_at, change_uri,
  tell_status, tell_active, tell_waiting, tell_stopped, get_uris, get_files, get_peers, get_servers,
  get_options, get_global_options, get_global_stats, get_version, get_session_info,
  change_position_args, tell_status_args, tell_active_args, tell_range_args, two_counts,
  status_keys,
}
use arigo.Client.Secret.{with_secret, SameOrders, SameReplies, SameAdds, handed_all}

gids_secret :
    (c c' : Client) (n : ℕ) (texts : List String)
    → map (λ g. g.gid) (replicate n zero_gid ++ map (get_gid c) texts)
      ≡ map (λ g. g.gid) (replicate n zero_gid ++ map (get_gid c') texts)
unfolding get_gid
gids_secret c c' zero [] = refl
gids_secret c c' zero (t ∷ ts) = ap (λ l. t ∷ l) (gids_secret c c' zero ts)
gids_secret c c' (suc n) ts = ap (λ l. "" ∷ l) (gids_secret c c' n ts)

metalink_secret :
    {W : Type 0} (c c' : Client) (r : List String × Option GoError × W)
    → handed_all (replicate (length r.0) zero_gid ++ map (get_gid c) r.0, r.1, r.2)
      ≡ handed_all (replicate (length r.0) zero_gid ++ map (get_gid c') r.0, r.1, r.2)
metalink_secret c c' r = ap (λ l. (l, r.1, r.2)) (gids_secret c c' (length r.0) r.0)

module _ {W : Type 0} (rpc : Rpc W) (c : Client) (token : c.auth_token ≢ "") where
  nil_secret :
      (method : String) (js : Slice Json) (w : W)
      → call_nil rpc method (get_args c js) w
        ≡ call_nil (with_secret c rpc) method (get_args (anonymous c) js) w
  unfolding call_nil
  nil_secret method js w = ap (λ args. call_nil rpc method args w) (get_args-secret c js token)

  orders_secret :
      (gid key v : String) (options : Options) (w : W)
      → SameOrders rpc (with_secret c rpc) c (anonymous c) gid key v options w
  unfolding remove force_remove pause pause_all force_pause force_pause_all unpause unpause_all
      purge_download_results remove_download_result shutdown force_shutdown save_session
      change_options change_option change_global_options
  orders_secret gid key v options w = (
    nil_secret Proto.remove (some (str gid ∷ [])) w,
    nil_secret Proto.force_remove (some (str gid ∷ [])) w,
    nil_secret Proto.pause (some (str gid ∷ [])) w,
    nil_secret Proto.pause_all none w,
    nil_secret Proto.force_pause (some (str gid ∷ [])) w,
    nil_secret Proto.force_pause_all none w,
    nil_secret Proto.unpause (some (str gid ∷ [])) w,
    nil_secret Proto.unpause_all none w,
    nil_secret Proto.purge_download_results none w,
    nil_secret Proto.remove_download_result (some (str gid ∷ [])) w,
    nil_secret Proto.shutdown none w,
    nil_secret Proto.force_shutdown none w,
    nil_secret Proto.save_session none w,
    nil_secret Proto.change_options (some (str gid ∷ obj options ∷ [])) w,
    nil_secret Proto.change_options (some (str gid ∷ obj (field key (str v) end) ∷ [])) w,
    nil_secret Proto.change_global_options (some (obj options ∷ [])) w,
  )

  module _ {A : Type 0} ⦃d : Decodes A⦄ where
    call_secret :
        (method : String) (js : Slice Json) (w : W)
        → call rpc {A = A} method (get_args c js) w
          ≡ call (with_secret c rpc) {A = A} method (get_args (anonymous c) js) w
    unfolding call
    call_secret method js w =
        ap (λ args. decode_reply ⦃d = d⦄ (rpc method args w)) (get_args-secret c js token)

  position_secret :
      (gid : String) (offset : ℤ) (how : String)
      → change_position_args c gid offset how
        ≡ secret c ∷ change_position_args (anonymous c) gid offset how
  unfolding change_position_args
  position_secret gid offset how =
      ap (λ l. if str_eq how "" then l else l ++ str how ∷ [])
        (get_args-secret c (some (str gid ∷ int_json offset ∷ [])) token)
      ∙ ground arith

  replies_secret :
      (A : Type 0) ⦃d : Decodes A⦄ (gid how : String) (offset : ℤ) (n position : ℕ)
      (keys us vs : Slice String) (methods : Slice MethodCall) (w : W)
      → SameReplies A rpc
          (with_secret c rpc)
          c
          (anonymous c)
          gid
          how
          offset
          n
          position
          keys
          us
          vs
          methods
          w
  unfolding change_position change_uri_at change_uri tell_status tell_active tell_waiting
      tell_stopped get_uris get_files get_peers get_servers get_options get_global_options
      get_global_stats get_version get_session_info tell_status_args tell_active_args
      tell_range_args multi_call multi_call_args call
  replies_secret A gid how offset n position keys us vs methods w = (
    ap (λ args. call rpc {A = ℤ} Proto.change_position args w) (position_secret gid offset how),
    ap two_counts (
        call_secret {A = List ℕ} Proto.change_uri
          (some (str gid ∷ number n ∷ strings_json us ∷ strings_json vs ∷ number position ∷ [])) w),
    ap two_counts (
        call_secret {A = List ℕ} Proto.change_uri
          (some (str gid ∷ number n ∷ strings_json us ∷ strings_json vs ∷ [])) w),
    call_secret {A = A} Proto.tell_status (some (str gid ∷ strings_json (status_keys keys) ∷ [])) w,
    call_secret {A = List A} Proto.tell_active (some (strings_json keys ∷ [])) w,
    call_secret {A = List A} Proto.tell_waiting
        (some (int_json offset ∷ number n ∷ strings_json keys ∷ [])) w,
    call_secret {A = List A} Proto.tell_stopped
        (some (int_json offset ∷ number n ∷ strings_json keys ∷ [])) w,
    call_secret {A = List A} Proto.get_uris (some (str gid ∷ [])) w,
    call_secret {A = List A} Proto.get_files (some (str gid ∷ [])) w,
    call_secret {A = List A} Proto.get_peers (some (str gid ∷ [])) w,
    call_secret {A = List A} Proto.get_servers (some (str gid ∷ [])) w,
    call_secret {A = A} Proto.get_options (some (str gid ∷ [])) w,
    call_secret {A = A} Proto.get_global_options none w,
    call_secret {A = A} Proto.get_global_stats none w,
    call_secret {A = A} Proto.get_version none w,
    call_secret {A = A} Proto.get_session_info none w,
    ap (λ (r : List Json × Option GoError × W). (map method_result r.0, r.1, r.2))
        (call_secret {A = List Json} Proto.multicall (some (methods_json methods ∷ [])) w),
  )

  adds_secret :
      (bytes : List ℕ) (us : Slice String) (options : Option Options) (position : ℕ) (w : W)
      → SameAdds rpc (with_secret c rpc) c (anonymous c) bytes us options position w
  unfolding add_uri_at_position add_torrent_at_position add_metalink_at_position call get_gid
  adds_secret bytes us options position w =
      let (u, t, m) = add_args_secret c bytes us position options token in
      (
        ap (λ args. (decode_reply {A = String} (rpc Proto.add_uri args w))) u,
        ap (λ args. decode_reply {A = String} (rpc Proto.add_torrent args w)) t,
        ap (λ args. handed_gids (decode_reply {A = List String} (rpc Proto.add_metalink args w))) m
            ∙ metalink_secret c (anonymous c) (
                decode_reply (
                  rpc Proto.add_metalink
                    (secret c ∷ add_metalink_args (anonymous c) bytes position options) w)),
      )
    where
      handed_gids : List String × Option GoError × W → List String × Option GoError × W
      handed_gids r = handed_all (replicate (length r.0) zero_gid ++ map (get_gid c) r.0, r.1, r.2)

  -- A client with a token that is not empty acts as one without a token on a connection that puts
  -- the secret in front of the arguments of every call. The methods that add downloads at a position,
  -- and every other method that makes one call, MultiCall included, give the same GIDs, results and
  -- errors and leave the same world, whatever their arguments, the world and the reply.
  pub token_as_secret :
      {A : Type 0} ⦃d : Decodes A⦄ (bytes : List ℕ) (gid key v how : String) (options : Options)
      (position_options : Option Options) (offset : ℤ) (n position : ℕ) (keys us vs : Slice String)
      (methods : Slice MethodCall) (w : W)
      → SameAdds rpc (with_secret c rpc) c (anonymous c) bytes us position_options position w
        × SameOrders rpc (with_secret c rpc) c (anonymous c) gid key v options w
        × SameReplies A rpc
            (with_secret c rpc)
            c
            (anonymous c)
            gid
            how
            offset
            n
            position
            keys
            us
            vs
            methods
            w
  token_as_secret {A} bytes gid key v how options position_options offset n position keys us vs
        methods w =
      (
        adds_secret bytes us position_options position w,
        orders_secret gid key v options w,
        replies_secret A gid how offset n position keys us vs methods w,
      )
