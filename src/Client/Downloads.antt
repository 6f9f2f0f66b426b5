-- ===== src/Client/Downloads.antt =====
-- Delete and DownloadWithContext of client.go. A file is a value of the type that the reply of
-- GetFiles is decoded to, with its path; `os_remove` stands for os.Remove, on the same world.
pub mod Process
use arigo.Proto
use arigo.Base.{
  ◌≡◌, refl, ap, ◌∙◌, sym, ◌⊎◌, inl, inr, String, Option, none, some, List, [], ◌∷◌, ◌++◌, map,
}
use mathlib.Core.List.{append_assoc, append-nil}
use arigo.Json.{Json, str, GoError, Decodes, decodes_slice, decodes_string}
use arigo.Client.{
  Client, Slice, Options, Rpc, Reply, failed, replied, get_args, remove, add_uri,
  add_uri_at_position, add_uri_args, queue_end_position, call-replied, call-failed,
  call_nil-replied, call_nil-failed, Gid, get_gid, call, decode_reply,
}
use arigo.Client.Methods.{get_files, tell_status, tell_status_args}

module _ {W F : Type 0} ⦃d : Decodes F⦄ (rpc : Rpc W) (path : F → String)
    (os_remove : String → W → Option GoError × W) where
  remove_files : List F → W → W
  remove_files [] w = w
  remove_files (f ∷ fs) w = remove_files fs (os_remove (path f) w).1

  delete_files : List F × Option GoError × W → Option GoError × W
  unfolding remove_files
  delete_files (files, none, w) = (none, remove_files files w)
  delete_files (files, some e, w) = (some e, w)

  after_remove : Client → String → Option GoError × W → Option GoError × W
  unfolding delete_files
  after_remove c gid (some e, w) = (some e, w)
  after_remove c gid (none, w) = delete_files (get_files rpc c gid w)

  pub delete : Client → String → W → Option GoError × W
  unfolding after_remove
  delete c gid w = after_remove c gid (remove rpc c gid w)

  -- `attempts` are the paths that os.Remove was called with.
  remove_files-attempts :
      (attempts : W → List String)
      → ((p : String) (w : W) → attempts (os_remove p w).1 ≡ attempts w ++ p ∷ [])
      → (files : List F) (w : W) → attempts (remove_files files w) ≡ attempts w ++ map path files
  unfolding remove_files
  remove_files-attempts attempts h [] w = sym (append-nil (attempts w))
  remove_files-attempts attempts h (f ∷ fs) w =
      remove_files-attempts attempts h fs (os_remove (path f) w).1
      ∙ ap (λ l. l ++ map path fs) (h (path f) w)
      ∙ append_assoc (attempts w) (path f ∷ []) (map path fs)

  -- Where aria2 removes the download and lists its files, Delete calls os.Remove once with the path
  -- of each of them, in order, whatever os.Remove returns, and gives no error.
  pub delete-attempts :
      (attempts : W → List String) (c : Client) (gid : String) (w w₁ w₂ : W) (ok files_json : Json)
      (files : List F)
      → ((p : String) (v : W) → attempts (os_remove p v).1 ≡ attempts v ++ p ∷ [])
      → rpc Proto.remove (get_args c (some (str gid ∷ []))) w ≡ (replied ok, w₁)
      → rpc Proto.get_files (get_args c (some (str gid ∷ []))) w₁ ≡ (replied files_json, w₂)
      → (decodes_slice {A = F}).unmarshal files_json [] ≡ (files, none)
      → (w₃ : W) × (delete c gid w ≡ (none, w₃)) × (attempts w₃ ≡ attempts w₂ ++ map path files)
  unfolding delete remove after_remove get_files
  delete-attempts attempts c gid w w₁ w₂ ok files_json files h gone listed decoded = (
    remove_files files w₂,
    ap (after_remove c gid) (call_nil-replied rpc Proto.remove _ w w₁ ok gone)
        ∙ ap delete_files
            (call-replied rpc {A = List F} Proto.get_files _ w₁ w₂ files_json files listed decoded),
    remove_files-attempts attempts h files w₂,
  )

  -- Where aria2 refuses to remove the download, or removes it and then refuses to list its files,
  -- Delete gives that error, and the world is as the refusal left it: os.Remove is not called.
  pub delete-errors :
      (c : Client) (gid : String) (w w₂ : W) (e : GoError)
      → (rpc Proto.remove (get_args c (some (str gid ∷ []))) w ≡ (failed e, w₂))
        ⊎ ((ok : Json) × (w₁ : W) × (rpc Proto.remove (get_args c (some (str gid ∷ []))) w
              ≡ (replied ok, w₁))
            × (rpc Proto.get_files (get_args c (some (str gid ∷ []))) w₁ ≡ (failed e, w₂)))
      → delete c gid w ≡ (some e, w₂)
  unfolding delete remove after_remove get_files
  delete-errors c gid w w₂ e (inl refused) =
      ap (after_remove c gid) (call_nil-failed rpc Proto.remove _ w w₂ e refused)
  delete-errors c gid w w₂ e (inr (ok, w₁, gone, refused)) =
      ap (after_remove c gid) (call_nil-replied rpc Proto.remove _ w w₁ ok gone)
      ∙ ap delete_files (call-failed rpc {A = List F} Proto.get_files _ w₁ w₂ e refused)

  -- What Delete comes to, by the replies to Remove and to GetFiles.
  module _ (attempts : W → List String) (c : Client) (gid : String) (w w₁ w₂ : W) where
    abbrev pub Listed : List F × Option GoError → Type 0
    Listed (files, some e) = delete c gid w ≡ (some e, w₂)
    Listed (files, none) =
        (w₃ : W) × (delete c gid w ≡ (none, w₃)) × (attempts w₃ ≡ attempts w₂ ++ map path files)

    abbrev pub DeleteOutcome : Reply → Reply → Type 0
    DeleteOutcome (failed e) listed = delete c gid w ≡ (some e, w₁)
    DeleteOutcome (replied ok) (failed e) = delete c gid w ≡ (some e, w₂)
    DeleteOutcome (replied ok) (replied j) = Listed ((decodes_slice {A = F}).unmarshal j [])

    reply-Listed :
        (ok j : Json) (r : List F × Option GoError)
        → ((p : String) (v : W) → attempts (os_remove p v).1 ≡ attempts v ++ p ∷ [])
        → rpc Proto.remove (get_args c (some (str gid ∷ []))) w ≡ (replied ok, w₁)
        → rpc Proto.get_files (get_args c (some (str gid ∷ []))) w₁ ≡ (replied j, w₂)
        → (decodes_slice {A = F}).unmarshal j [] ≡ r
        → Listed r
    unfolding delete remove after_remove get_files call
    reply-Listed ok j (files, none) h gone listed decoded =
        delete-attempts attempts c gid w w₁ w₂ ok j files h gone listed decoded
    reply-Listed ok j (files, some e) h gone listed decoded =
        ap (after_remove c gid) (call_nil-replied rpc Proto.remove _ w w₁ ok gone)
        ∙ ap (λ r. delete_files (decode_reply {A = List F} r)) listed
        ∙ ap (λ (r : List F × Option GoError). delete_files (r.0, r.1, w₂)) decoded

    -- Delete on every reply. It gives the error of Remove, with nothing else done; that of GetFiles,
    -- or of decoding its reply, with no file removed; and where aria2 removes the download and lists
    -- its files, no error, and os.Remove was called once with the path of each of them, in order,
    -- whatever os.Remove returned.
    pub delete_outcome :
        (removed listed : Reply)
        → ((p : String) (v : W) → attempts (os_remove p v).1 ≡ attempts v ++ p ∷ [])
        → rpc Proto.remove (get_args c (some (str gid ∷ []))) w ≡ (removed, w₁)
        → rpc Proto.get_files (get_args c (some (str gid ∷ []))) w₁ ≡ (listed, w₂)
        → DeleteOutcome removed listed
    delete_outcome (failed e) listed h gone files = delete-errors c gid w w₁ e (inl gone)
    delete_outcome (replied ok) (failed e) h gone files =
        delete-errors c gid w w₂ e (inr (ok, w₁, gone, files))
    delete_outcome (replied ok) (replied j) h gone files = reply-Listed ok j _ h gone files refl

-- How the select of DownloadWithContext ends: WaitForDownload has sent what it returned, or the
-- context is done with its error.
pub data Ending : Type 0 where
  wait_returned : Option GoError → Ending
  context_done : GoError → Ending

module _ {W : Type 0} (rpc : Rpc W) where
  add_uri-replied :
      (c : Client) (us : Slice String) (options : Option Options) (w w' : W) (gid : String)
      → rpc Proto.add_uri (add_uri_args c us queue_end_position options) w ≡ (replied (str gid), w')
      → add_uri rpc c us options w ≡ (get_gid c gid, none, w')
  unfolding add_uri add_uri_at_position
  add_uri-replied c us options w w' gid h =
      ap (λ (r : String × Option GoError × W). (get_gid c r.0, r.1, r.2))
        (call-replied rpc {A = String} Proto.add_uri _ w w' (str gid) gid h refl)

module _ {W F S : Type 0} ⦃d : Decodes F⦄ ⦃ds : Decodes S⦄ (rpc : Rpc W) (path : F → String)
    (os_remove : String → W → Option GoError × W) where
  -- The two cases of the select. The GID that AddURI gave has the client for which it was called.
  unfoldable pub select_ending : Client → Gid → Ending → W → S × Option GoError × W
  unfolding tell_status delete
  select_ending c g (wait_returned err) w = tell_status rpc c g.gid none w
  select_ending c g (context_done err) w =
      let (_, w') = delete rpc path os_remove c g.gid w in (ds.zero_value, some err, w')

  unfoldable pub after_add :
      Client → Ending → (W → W) → Gid × Option GoError × W → S × Option GoError × W
  unfolding select_ending
  after_add c ending waited (g, some err, w) = (ds.zero_value, some err, w)
  after_add c ending waited (g, none, w) = select_ending c g ending (waited w)

  -- `waited` is what happens to the world until the select ends.
  unfoldable pub download_with_context :
      Client → Slice String → Option Options → Ending → (W → W) → W → S × Option GoError × W
  unfolding after_add
  download_with_context c us options ending waited w =
      after_add c ending waited (add_uri rpc c us options w)

  -- The background context is never done, so the wait is what ends.
  pub download :
      Client → Slice String → Option Options → Option GoError → (W → W) → W → S × Option GoError × W
  unfolding download_with_context
  download c us options err waited w =
      download_with_context c us options (wait_returned err) waited w

  -- Where aria2 adds the download and, once the wait is over, reports a status that decodes,
  -- Download returns this status and no error, whatever WaitForDownload returned: also where the
  -- download failed or was stopped.
  download_drops_error :
      (c : Client) (us : Slice String) (options : Option Options) (err : Option GoError)
      (waited : W → W) (w w₁ w₂ : W) (gid : String) (reply : Json) (status : S)
      → rpc Proto.add_uri (add_uri_args c us queue_end_position options) w ≡ (replied (str gid), w₁)
      → rpc Proto.tell_status (tell_status_args c gid none) (waited w₁) ≡ (replied reply, w₂)
      → ds.unmarshal reply ds.zero_value ≡ (status, none)
      → download c us options err waited w ≡ (status, none, w₂)
  unfolding download select_ending get_gid
  download_drops_error c us options err waited w w₁ w₂ gid reply status added told decoded =
      ap (after_add c (wait_returned err) waited) (add_uri-replied rpc c us options w w₁ gid added)
      ∙ call-replied rpc {A = S} Proto.tell_status _ (waited w₁) w₂ reply status told decoded

  -- Where aria2 answers AddURI with a GID and the context is done before the wait is over,
  -- DownloadWithContext deletes the download and returns the error of the context with the zero
  -- status; where AddURI is refused, it returns that error and does nothing else.
  pub download-cancelled :
      (c : Client) (us : Slice String) (options : Option Options) (done_err err : GoError)
      (waited : W → W) (w w₁ : W) (gid : String) (reply : Reply)
      → rpc Proto.add_uri (add_uri_args c us queue_end_position options) w ≡ (reply, w₁)
      → (reply ≡ replied (str gid)) ⊎ (reply ≡ failed err)
      → download_with_context c us options (context_done done_err) waited w ≡ (elim reply [
        | replied j ↦
            (ds.zero_value, some done_err, (delete rpc path os_remove c gid (waited w₁)).1)
        | failed e ↦ (ds.zero_value, some e, w₁)
      ])
  unfolding download_with_context select_ending get_gid add_uri add_uri_at_position
  download-cancelled c us options done_err err waited w w₁ gid reply h (inl e) =
      ap (after_add c (context_done done_err) waited)
        (add_uri-replied rpc c us options w w₁ gid (rw e at h))
      ∙ rw e refl
  download-cancelled c us options done_err err waited w w₁ gid reply h (inr e) =
      ap
        (λ (r : String × Option GoError × W).
          after_add c (context_done done_err) waited (get_gid c r.0, r.1, r.2))
        (call-failed rpc {A = String} Proto.add_uri _ w w₁ err (rw e at h))
      ∙ rw e refl
