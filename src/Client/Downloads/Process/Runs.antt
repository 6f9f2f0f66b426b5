-- ===== src/Client/Downloads/Process/Runs.antt =====
-- DownloadWithContext of client.go, called as a function: the process has a run to what it returns.
use arigo.Base.{◌∙◌, ap, sym, subst, ◌≡◌, refl, String, false, Option, none, some, [], arith}
use arigo.Json.{GoError, Decodes}
use arigo.Client.{Client, Slice, Options, Rpc, Gid, add_uri}
use arigo.Client.Methods.{tell_status}
use arigo.Client.Wait
use arigo.Client.Wait.{
  Terminal, wait_error, hears, subscribing, unsubscribing, Reach, subscribe, dispatch, send,
  receive, unsubscribe,
}
use arigo.Client.Downloads.{
  Ending, wait_returned, context_done, select_ending, after_add, download_with_context,
}
use arigo.Client.Downloads.Process.{
  Caller, Process, called, HasStarted, History, uri_refused, uri_added, waits, sends, context_ends,
  others_act, takes_result, takes_context, adding, Event, selecting, refused, returned,
}

-- WaitForDownload returned after one event.
abbrev heard_one : Terminal → Wait.State
heard_one e = record Wait.start { phase = unsubscribing 0 (wait_error e); events = 1 }

-- All three subscriptions, the event with its send, the receive, and the three cancellations.
heard_one-Reach : (e : Terminal) → Reach Wait.start (heard_one e)
unfolding hears
heard_one-Reach e =
    let subscribed =
      Wait.next
        (Wait.next (Wait.next Wait.here (subscribe 0 refl (omega arith) refl refl))
          (subscribe 1 refl (omega arith) refl refl))
        (subscribe 2 refl (omega arith) refl refl) in
    let has_received =
      Wait.next
        (Wait.next (Wait.next subscribed (dispatch e refl refl)) (send [] [] _ refl refl refl))
        (receive _ refl refl refl) in
    Wait.next
      (Wait.next (Wait.next has_received (unsubscribe 2 _ refl refl refl))
        (unsubscribe 1 _ refl refl refl))
      (unsubscribe 0 _ refl refl refl)

-- WaitForDownload can return it.
abbrev pub CanEnd : Ending → Type 0
CanEnd (wait_returned r) = (e : Terminal) × (r ≡ wait_error e)
CanEnd (context_done e) = Unit

module _ {W F S : Type 0} ⦃d : Decodes F⦄ ⦃ds : Decodes S⦄ (rpc : Rpc W) (path : F → String)
    (os_remove : String → W → Option GoError × W) (c : Client) (us : Slice String)
    (options : Option Options) where
  abbrev pub Run : Process W S → Process W S → Type 0
  Run = History {F = F} rpc path os_remove c us options

  append-Run : {s t u : Process W S} → Run s t → Run t u → Run s u
  append-Run h History.here = h
  append-Run h (History.next k e) = History.next (append-Run h k) e

  waits-Run :
      (s : Process W S) (u : Wait.State)
      → HasStarted s.caller
      → s.sent ≡ false
      → Reach s.wait u
      → Run s (record s { wait = u })
  waits-Run s u started unsent Wait.here = History.here
  waits-Run s u started unsent (Wait.next run step) =
      History.next (waits-Run s _ started unsent run) (waits u started unsent step refl)

  abbrev selecting_at : Gid → W → Process W S
  selecting_at g w = record (called w) { caller = selecting g }

  abbrev EndsAs : Process W S → Gid → Ending → S × Option GoError × W → Type 0
  EndsAs s g ending (status, err, w) =
      (t : Process W S) × Run s t × (t.world ≡ w) × (t.caller ≡ returned g ending status err)

  -- From the select to the end.
  ending-Run :
      (g : Gid) (ending : Ending) (w : W)
      → CanEnd ending
      → EndsAs (selecting_at g w) g ending (select_ending {F = F} rpc path os_remove c g ending w)
  unfolding select_ending
  ending-Run g (wait_returned r) w (e, same) = rw same (
    _,
    History.next
        (History.next (waits-Run (selecting_at g w) (heard_one e) tt refl (heard_one-Reach e))
          (sends (wait_error e) refl refl refl refl))
        (takes_result g (wait_error e) refl refl refl),
    refl,
    refl,
  )
  ending-Run g (context_done e) w can = (
    _,
    History.next (History.next History.here (context_ends e refl refl))
        (takes_context g e refl refl refl),
    refl,
    refl,
  )

  -- What comes of the call, by the answer to AddURI.
  abbrev pub Outcome :
      Ending → Gid × Option GoError × W → S × Option GoError × W → Process W S → Type 0
  Outcome ending (g, none, w) (status, err, w') t =
      (t.caller ≡ returned g ending status err) × (t.world ≡ w')
  Outcome ending (g, some e, w) (status, err, w') t =
      (t.caller ≡ refused e) × (t.world ≡ w') × (err ≡ some e) × (status ≡ ds.zero_value)

  added-Run :
      (ending : Ending) (waited : W → W) (w : W) (answer : Gid × Option GoError × W)
      → add_uri rpc c us options w ≡ answer
      → CanEnd ending
      → (t : Process W S) × Run (called w) t
        × Outcome ending answer (after_add {F = F} rpc path os_remove c ending waited answer) t
  unfolding after_add
  added-Run ending waited w (g, some e, w') added can =
      (_, History.next History.here (uri_refused g e w' refl added refl), (refl, refl, refl, refl))
  added-Run ending waited w (g, none, w') added can =
      let (t, run, same, end) = ending-Run g ending (waited w') can in
      (
        t,
        append-Run
            (History.next (History.next History.here (uri_added g w' refl added refl))
              (others_act (waited w') refl))
            run,
        (end, same),
      )

  abbrev pub download_from : Ending → (W → W) → W → S × Option GoError × W
  download_from = download_with_context {F = F} rpc path os_remove c us options

  -- What a run from `w` to `u` has come to, the function gives, called on the world in which the run
  -- calls AddURI, with the world that the run has when the select ends.
  abbrev pub IsOutcome : W → Process W S → Caller S → Type 0
  IsOutcome w u adding = Run (called w) u
  IsOutcome w u (refused e) =
      (s : Process W S) × (t : Process W S) × Run (called w) s
      × (s.caller ≡ adding)
      × Run s t
      × Run t u
      × ((ending : Ending) (waited : W → W)
          → download_from ending waited s.world ≡ (ds.zero_value, some e, t.world))
  IsOutcome w u (selecting g) =
      (s : Process W S) × (w' : W) × Run (called w) s
      × (s.caller ≡ adding)
      × Run s u
      × (add_uri rpc c us options s.world ≡ (g, none, w'))
  IsOutcome w u (returned g ending status err) =
      (s : Process W S) × (at_select : Process W S) × (t : Process W S) × Run (called w) s
      × (s.caller ≡ adding)
      × Run s at_select
      × (at_select.caller ≡ selecting g)
      × Run at_select t
      × Run t u
      × (download_from ending (λ v. at_select.world) s.world ≡ (status, err, t.world))

  IsOutcome-next :
      (w : W) (u v : Process W S) (k : Caller S)
      → Event {F = F} rpc path os_remove c us options u v
      → IsOutcome w u k
      → IsOutcome w v k
  IsOutcome-next w u v adding event run = History.next run event
  IsOutcome-next w u v (refused e) event (s, t, to, at, on, last, same) =
      (s, t, to, at, on, History.next last event, same)
  IsOutcome-next w u v (selecting g) event (s, w', to, at, last, added) =
      (s, w', to, at, History.next last event, added)
  IsOutcome-next w u v (returned g ending status err) event
        (s, x, t, to, at, on, selects, ends, last, same) =
      (s, x, t, to, at, on, selects, ends, History.next last event, same)

  -- A step of somebody else.
  IsOutcome-kept :
      (w : W) (u v : Process W S)
      → Event {F = F} rpc path os_remove c us options u v
      → v.caller ≡ u.caller
      → IsOutcome w u u.caller
      → IsOutcome w v v.caller
  IsOutcome-kept w u v event same h =
      subst (IsOutcome w v) (sym same) (IsOutcome-next w u v u.caller event h)

  select-IsOutcome :
      (w : W) (u v : Process W S) (g : Gid) (ending : Ending) (status : S) (err : Option GoError)
      → Event {F = F} rpc path os_remove c us options u v
      → u.caller ≡ selecting g
      → select_ending {F = F} {S = S} rpc path os_remove c g ending u.world ≡ (status, err, v.world)
      → IsOutcome w u u.caller
      → IsOutcome w v (returned g ending status err)
  unfolding download_with_context after_add
  select-IsOutcome w u v g ending status err event at ends h =
      let (s, w', to, adds, on, added) = subst (IsOutcome w u) at h in
      (
        s,
        u,
        v,
        to,
        adds,
        on,
        at,
        History.next History.here event,
        History.here,
        ap (after_add {F = F} rpc path os_remove c ending (λ x. u.world)) added ∙ ends,
      )

  Event-IsOutcome :
      (w : W) {u v : Process W S}
      → Event {F = F} rpc path os_remove c us options u v
      → IsOutcome w u u.caller
      → IsOutcome w v v.caller
  unfolding download_with_context after_add select_ending
  Event-IsOutcome w {u} {v} (uri_refused g e w' at answer moved) h =
      subst (IsOutcome w v) (sym (ap (λ x. x.caller) moved)) (
        u,
        v,
        subst (IsOutcome w u) at h,
        at,
        History.next History.here (uri_refused g e w' at answer moved),
        History.here,
        λ ending waited.
            ap (after_add {F = F} rpc path os_remove c ending waited) answer
            ∙ ap (λ (x : Process W S). (ds.zero_value, some e, x.world)) (sym moved),
      )
  Event-IsOutcome w {u} {v} (uri_added g w' at answer moved) h =
      subst (IsOutcome w v) (sym (ap (λ x. x.caller) moved)) (
        u,
        w',
        subst (IsOutcome w u) at h,
        at,
        History.next History.here (uri_added g w' at answer moved),
        answer,
      )
  Event-IsOutcome w (waits x started unsent step moved) h =
      IsOutcome-kept w _ _ (waits x started unsent step moved) (ap (λ y. y.caller) moved) h
  Event-IsOutcome w (sends r unsent over empty moved) h =
      IsOutcome-kept w _ _ (sends r unsent over empty moved) (ap (λ y. y.caller) moved) h
  Event-IsOutcome w (context_ends e going moved) h =
      IsOutcome-kept w _ _ (context_ends e going moved) (ap (λ y. y.caller) moved) h
  Event-IsOutcome w (others_act w' moved) h =
      IsOutcome-kept w _ _ (others_act w' moved) (ap (λ y. y.caller) moved) h
  Event-IsOutcome w {u} {v} (takes_result g r at done moved) h =
      let (status, err, _) = tell_status rpc {A = S} c g.gid none u.world in
      subst (IsOutcome w v) (sym (ap (λ x. x.caller) moved)) (
        select-IsOutcome w u v g (wait_returned r) status err (takes_result g r at done moved) at
          (ap (λ (x : Process W S). (status, err, x.world)) (sym moved)) h)
  Event-IsOutcome w {u} {v} (takes_context g e at done moved) h =
      subst (IsOutcome w v) (sym (ap (λ x. x.caller) moved)) (
        select-IsOutcome w u v g (context_done e) ds.zero_value (some e)
          (takes_context g e at done moved) at
          (ap (λ (x : Process W S). (ds.zero_value, some e, x.world)) (sym moved)) h)

  Run-IsOutcome : {w : W} {u : Process W S} → Run (called w) u → IsOutcome w u u.caller
  Run-IsOutcome History.here = History.here
  Run-IsOutcome {w} (History.next run event) = Event-IsOutcome w event (Run-IsOutcome run)

  -- The function and the process, each with its own account of what follows the select, have the
  -- same outcomes. Whatever happens to the world meanwhile, and whichever of its results
  -- WaitForDownload returns or whichever error the context has: the process has a run from the call
  -- to the status, the error and the world that the function gives, returned for the GID of AddURI
  -- and this ending of the select; and where AddURI is refused, a run to its error, which the
  -- function gives with the zero status. And what any run has come to, an error of AddURI or a
  -- status and an error with an ending and the world behind it, the function gives, called on the
  -- world in which the run calls AddURI, and with the world of the run when the select ends.
  pub download_runs :
      (ending : Ending) (waited : W → W) (w : W) (u : Process W S)
      → CanEnd ending
      → Run (called w) u
      → ((t : Process W S) × Run (called w) t
          × Outcome ending (add_uri rpc c us options w) (download_from ending waited w) t)
        × IsOutcome w u u.caller
  unfolding download_with_context
  download_runs ending waited w u can run =
      (added-Run ending waited w _ refl can, Run-IsOutcome run)
