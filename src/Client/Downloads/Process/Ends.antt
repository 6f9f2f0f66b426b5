-- ===== src/Client/Downloads/Process/Ends.antt =====
-- How DownloadWithContext ends, and what is left of its goroutine.
use mathlib.Core.List.{Memᴰ}
use mathlib.Core.Option.{some-injective}
use arigo.Base.{
  ℕ, ◌≤◌, ◌≡◌, ◌⊎◌, inl, inr, refl, ap, ◌∙◌, sym, subst, String, Bool, true, false, Option, none,
  some, arith, Bool-cases,
}
use arigo.Json.{GoError, Decodes}
use arigo.Client.{Client, Slice, Options, Rpc, Gid}
use arigo.Client.Methods.{tell_status}
use arigo.Client.Wait
use arigo.Client.Wait.{Terminal, wait_error, subscribing, unsubscribing, Returned}
use arigo.Client.Wait.Results.{heard, received_error}
use arigo.Client.Wait.Progress.{Reach-IsCounted, received}
use arigo.Client.Downloads.{Ending, wait_returned, context_done}
use arigo.Client.Downloads.Process.{
  Caller, adding, refused, selecting, returned, Process, called, Event, History, here, next,
  uri_refused, uri_added, waits, sends, context_ends, others_act, takes_result, takes_context,
}

-- What the ending of a select comes from: what was sent by a WaitForDownload, or the context.
abbrev Caused : Bool → Wait.State → Option GoError → Ending → Type 0
Caused sent wait context (wait_returned r) = (sent ≡ true) × (wait.phase ≡ unsubscribing 0 r)
Caused sent wait context (context_done e) = context ≡ some e

module _ {W F S : Type 0} ⦃d : Decodes F⦄ ⦃ds : Decodes S⦄ (rpc : Rpc W) (path : F → String)
    (os_remove : String → W → Option GoError × W) (c : Client) (us : Slice String)
    (options : Option Options) where
  -- The result of each ending: of the status that aria2 tells, whatever WaitForDownload returned, and
  -- of the error of the context behind a Delete.
  abbrev pub ResultOf : Gid → Ending → S → Option GoError → Type 0
  ResultOf g (wait_returned r) status err =
      (w : W) × (w' : W) × (tell_status rpc {A = S} c g.gid none w ≡ (status, err, w'))
  ResultOf g (context_done e) status err = (status ≡ ds.zero_value) × (err ≡ some e)

  abbrev CallerHolds : Bool → Wait.State → Option GoError → Caller S → Type 0
  CallerHolds sent wait context (returned g ending status err) =
      Caused sent wait context ending × ResultOf g ending status err
  CallerHolds sent wait context _ = Unit

  record IsSound (s : Process W S) : Type 0 where
    run : Wait.Reach Wait.start s.wait
    unsent : s.sent ≡ false → s.download_done ≡ none
    ended : s.sent ≡ true → Returned s.wait
    result : (r : Option GoError) → s.download_done ≡ some r → s.wait.phase ≡ unsubscribing 0 r
    caller : CallerHolds s.sent s.wait s.context s.caller

  -- While the goroutine has not sent, no select has ended with its result.
  CallerHolds-unsent :
      (sent sent' : Bool) (wait wait' : Wait.State) (context : Option GoError) (caller : Caller S)
      → sent ≡ false
      → CallerHolds sent wait context caller
      → CallerHolds sent' wait' context caller
  CallerHolds-unsent sent sent' wait wait' context (returned g (wait_returned r) status err) u h =
      let sent_it = h.0.0 in absurd cc
  CallerHolds-unsent sent sent' wait wait' context (returned g (context_done e) status err) u h = h
  CallerHolds-unsent sent sent' wait wait' context adding u h = tt
  CallerHolds-unsent sent sent' wait wait' context (refused e) u h = tt
  CallerHolds-unsent sent sent' wait wait' context (selecting g) u h = tt

  -- While the context is not done, no select has ended with its error.
  CallerHolds-context :
      (sent : Bool) (wait : Wait.State) (context context' : Option GoError) (caller : Caller S)
      → context ≡ none
      → CallerHolds sent wait context caller
      → CallerHolds sent wait context' caller
  CallerHolds-context sent wait context context' (returned g (context_done e) status err) u h =
      let over = h.0 in absurd cc
  CallerHolds-context sent wait context context' (returned g (wait_returned r) status err) u h = h
  CallerHolds-context sent wait context context' adding u h = tt
  CallerHolds-context sent wait context context' (refused e) u h = tt
  CallerHolds-context sent wait context context' (selecting g) u h = tt

  sent-result :
      {s : Process W S} (r : Option GoError)
      → IsSound s
      → s.download_done ≡ some r
      → (s.sent ≡ true) × (s.wait.phase ≡ unsubscribing 0 r)
  sent-result {s} r h full = elim (Bool-cases s.sent) [
    | inl sent ↦ (sent, h.result r full)
    | inr unsent ↦ absurd (let empty = h.unsent unsent in cc)
  ]

  Event-IsSound :
      {s t : Process W S} → Event rpc path os_remove c us options s t → IsSound s → IsSound t
  Event-IsSound (uri_refused g e w p added q) h =
      rw q
        (record { run = h.run; unsent = h.unsent; ended = h.ended; result = h.result; caller = tt })
  Event-IsSound (uri_added g w p added q) h =
      rw q
        (record { run = h.run; unsent = h.unsent; ended = h.ended; result = h.result; caller = tt })
  Event-IsSound {s} (waits u started unsent step q) h = rw q (record {
    run = Wait.next h.run step;
    unsent = h.unsent;
    ended = λ e. absurd cc;
    result = λ r full. absurd (let empty = h.unsent unsent in cc);
    caller = CallerHolds-unsent s.sent s.sent s.wait u s.context s.caller unsent h.caller;
  })
  Event-IsSound {s} (sends r unsent phase empty q) h = rw q (record {
    run = h.run;
    unsent = λ e. absurd cc;
    ended = λ e. (r, phase);
    result = λ r' full. phase ∙ ap (unsubscribing 0) (some-injective r r' full);
    caller = CallerHolds-unsent s.sent true s.wait s.wait s.context s.caller unsent h.caller;
  })
  Event-IsSound {s} (context_ends e none_yet q) h = rw q (record {
    run = h.run;
    unsent = h.unsent;
    ended = h.ended;
    result = h.result;
    caller = CallerHolds-context s.sent s.wait s.context (some e) s.caller none_yet h.caller;
  })
  Event-IsSound (others_act w q) h = rw q (record {
    run = h.run;
    unsent = h.unsent;
    ended = h.ended;
    result = h.result;
    caller = h.caller;
  })
  Event-IsSound {s} (takes_result g r p full q) h = rw q (record {
    run = h.run;
    unsent = λ e. refl;
    ended = h.ended;
    result = λ r' e. absurd cc;
    caller = (sent-result r h full, (s.world, _, refl));
  })
  Event-IsSound {s} (takes_context g e p over q) h = rw q (record {
    run = h.run;
    unsent = h.unsent;
    ended = h.ended;
    result = h.result;
    caller = (over, (refl, refl));
  })

  History-IsSound :
      (w : W) {s : Process W S} → History rpc path os_remove c us options (called w) s → IsSound s
  History-IsSound w here = record {
    run = Wait.here;
    unsent = λ e. refl;
    ended = λ e. absurd cc;
    result = λ r e. absurd cc;
    caller = tt;
  }
  History-IsSound w (next run event) = Event-IsSound event (History-IsSound w run)

  -- An event for the GID reached a listener of the goroutine, or it waits and still has them all.
  abbrev pub HeardOrWaits : Process W S → Type 0
  HeardOrWaits s =
      (1 ≤ s.wait.events) ⊎ ((s.sent ≡ false) × ((n : ℕ) × (s.wait.phase ≡ subscribing n)))

  abbrev pub Explains : Process W S → Ending → Type 0
  Explains s (wait_returned r) =
      (run : Wait.Reach Wait.start s.wait) × (e : Terminal) × Memᴰ e (heard run)
      × (r ≡ wait_error e)
  Explains s (context_done e) = (s.context ≡ some e) × HeardOrWaits s

  heard_or_waits :
      (s : Process W S) (phase : Wait.Phase) → IsSound s → s.wait.phase ≡ phase → HeardOrWaits s
  heard_or_waits s (unsubscribing n r) h p =
      inl (omega (arith, ap received p, (Reach-IsCounted h.run).accounted))
  heard_or_waits s (subscribing n) h p = elim (Bool-cases s.sent) [
    | inl sent ↦ absurd (let (r, q) = h.ended sent in let both = sym p ∙ q in cc)
    | inr unsent ↦ inr (unsent, (n, p))
  ]

  explained :
      (s : Process W S) (g : Gid) (ending : Ending) (status : S) (err : Option GoError)
      → IsSound s
      → CallerHolds s.sent s.wait s.context (returned g ending status err)
      → ResultOf g ending status err × Explains s ending
  explained s g (wait_returned r) status err h (caused, result) =
      let (e, reached, is) = received_error h.run 0 r caused.1 in (result, (h.run, e, reached, is))
  explained s g (context_done e) status err h (caused, result) =
      (result, (caused, heard_or_waits s s.wait.phase h refl))

  -- Whatever the order of the events: where DownloadWithContext has returned for the goroutine, the
  -- status and the error are those of a TellStatus, and an event for the GID reached a listener of
  -- WaitForDownload, whose error is dropped. Where it has returned for the context, the status is
  -- zero and the error that of the context; from then on, as long as no event reaches a listener,
  -- the goroutine is there with the listeners that it has subscribed. Its one send to downloadDone
  -- never has to wait.
  pub download_ends :
      (w : W) (s : Process W S) (g : Gid) (ending : Ending) (status : S) (err : Option GoError)
      → History rpc path os_remove c us options (called w) s
      → s.caller ≡ returned g ending status err
      → ResultOf g ending status err
        × Explains s ending
        × ((s.sent ≡ true) ⊎ (s.download_done ≡ none))
  download_ends w s g ending status err history p =
      let h = History-IsSound w history in
      let (result, cause) =
        explained s g ending status err h
          (subst (CallerHolds s.sent s.wait s.context) p h.caller) in
      (
        result,
        cause,
        elim (Bool-cases s.sent) [ inl sent ↦ inl sent | inr unsent ↦ inr (h.unsent unsent) ],
      )
