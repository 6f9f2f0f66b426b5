-- ===== src/Client/Downloads/Process.antt =====
-- DownloadWithContext of client.go as a process: the goroutine that runs WaitForDownload, the channel
-- downloadDone of capacity 1, and the select that waits for it or for the context, beside all that
-- aria2 and others do.
pub mod Ends
pub mod Runs
use mathlib.Core.List.{Memᴰ}
use arigo.Base.{
  ℕ, ◌+◌, ◌≤◌, ◌<◌, ◌≡◌, ◌≢◌, ◌⊎◌, inl, inr, refl, ap, ◌∙◌, sym, subst, String, Bool, true, false,
  Option, none, some, List, [], ◌∷◌, arith, length, Bool-cases,
}
use arigo.Json.{GoError, Decodes}
use arigo.Client.{Client, Slice, Options, Rpc, Gid, add_uri}
use arigo.Client.Wait
use arigo.Client.Wait.{Terminal, wait_error, subscribing, unsubscribing, Returned}
use arigo.Client.Wait.Results.{heard, received_error}
use arigo.Client.Wait.Progress.{Reach-IsCounted, received, in_channel}
use arigo.Client.Downloads.{Ending, wait_returned, context_done, delete}
use arigo.Client.Methods.{tell_status}

-- DownloadWithContext calls AddURI, which fails or gives the GID on which it selects; and it returns a
-- status and an error, after the ending of its select.
pub data Caller (S : Type 0) : Type 0 where
  adding : Caller S
  refused : GoError → Caller S
  selecting : Gid → Caller S
  returned : Gid → Ending → S → Option GoError → Caller S

abbrev pub HasStarted : {S : Type 0} → Caller S → Type 0
HasStarted adding = ⊥
HasStarted (refused e) = ⊥
HasStarted _ = Unit

-- `wait` is the goroutine's WaitForDownload with its listeners, and `sent` tells whether the goroutine
-- has sent its result to downloadDone, which was its last act. `context` is what ctx.Err() gives.
pub record Process (W S : Type 0) : Type 0 where
  pub world : W
  pub caller : Caller S
  pub wait : Wait.State
  pub sent : Bool
  pub download_done : Option (Option GoError)
  pub context : Option GoError

abbrev pub called : {W S : Type 0} → W → Process W S
called w = record {
  world = w;
  caller = adding;
  wait = Wait.start;
  sent = false;
  download_done = none;
  context = none;
}

module _ {W F S : Type 0} ⦃d : Decodes F⦄ ⦃ds : Decodes S⦄ (rpc : Rpc W) (path : F → String)
    (os_remove : String → W → Option GoError × W) (c : Client) (us : Slice String)
    (options : Option Options) where
  pub data Event (s t : Process W S) : Type 0 where
    uri_refused :
        (g : Gid) (e : GoError) (w : W)
        → s.caller ≡ adding
        → add_uri rpc c us options s.world ≡ (g, some e, w)
        → t ≡ record s { world = w; caller = refused e }
        → Event s t
    uri_added :
        (g : Gid) (w : W)
        → s.caller ≡ adding
        → add_uri rpc c us options s.world ≡ (g, none, w)
        → t ≡ record s { world = w; caller = selecting g }
        → Event s t
    waits :
        (u : Wait.State)
        → HasStarted s.caller
        → s.sent ≡ false
        → Wait.Step s.wait u
        → t ≡ record s { wait = u }
        → Event s t
    sends :
        (r : Option GoError)
        → s.sent ≡ false
        → s.wait.phase ≡ unsubscribing 0 r
        → s.download_done ≡ none
        → t ≡ record s { sent = true; download_done = some r }
        → Event s t
    context_ends : (e : GoError) → s.context ≡ none → t ≡ record s { context = some e } → Event s t
    others_act : (w : W) → t ≡ record s { world = w } → Event s t
    takes_result :
        (g : Gid) (r : Option GoError)
        → s.caller ≡ selecting g
        → s.download_done ≡ some r
        → (let (status, err, w) = tell_status rpc {A = S} c g.gid none s.world in
            t ≡ record s {
              world = w;
              caller = returned g (wait_returned r) status err;
              download_done = none;
            })
        → Event s t
    takes_context :
        (g : Gid) (e : GoError)
        → s.caller ≡ selecting g
        → s.context ≡ some e
        → (let (_, w) = delete rpc path os_remove c g.gid s.world in
            t ≡ record s { world = w; caller = returned g (context_done e) ds.zero_value (some e) })
        → Event s t

  pub data History (s : Process W S) : Process W S → Type 0 where
    here : History s s
    next : {t u : Process W S} → History s t → Event t u → History s u
