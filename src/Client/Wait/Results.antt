-- ===== src/Client/Wait/Results.antt =====
-- What WaitForDownload returns: an error that one of its listeners sent.
use mathlib.Core.List.{Memᴰ}
use mathlib.Core.Option.{some-injective}
use arigo.Base.{ℕ, suc, ◌≡◌, refl, ap, subst, Option, none, some, List, [], ◌∷◌, ◌++◌, All, All-map}
use arigo.Json.{GoError, download_stopped, download_error}
use arigo.Client.Wait.{
  Terminal, stop, complete, error, wait_error, Phase, subscribing, unsubscribing, State, start,
  Step, subscribe, dispatch, send, receive, unsubscribe, Reach, here, next,
}

-- The events for the GID that reached one of the listeners, the last one first.
abbrev pub heard_by : {s t : State} → Step s t → List Terminal
heard_by (dispatch e h q) = e ∷ []
heard_by _ = []

unfoldable pub heard : {s t : State} → Reach s t → List Terminal
heard here = []
heard (next run st) = heard_by st ++ heard run

-- The error is the one of an event in the list.
abbrev pub IsFrom : List Terminal → Option GoError → Type 0
IsFrom es r = (e : Terminal) × Memᴰ e es × (r ≡ wait_error e)

IsFrom-cons :
    (e : Terminal) (es : List Terminal) (r : Option GoError) → IsFrom es r → IsFrom (e ∷ es) r
IsFrom-cons e es r (f, m, q) = (f, Memᴰ.tail m, q)

-- Every error that is on its way to the waiter is one of an event.
record IsHeard (es : List Terminal) (s : State) : Type 0 where
  sent : (r : Option GoError) → s.channel ≡ some r → IsFrom es r
  waiting : All (IsFrom es) s.sending
  got : (n : ℕ) (r : Option GoError) → s.phase ≡ unsubscribing n r → IsFrom es r

-- An item and the rest of a list.
All-split {ℓ κ} :
    {A : Type ℓ} (P : A → Type κ) (xs ys : List A) (a : A)
    → All P (xs ++ a ∷ ys)
    → P a × All P (xs ++ ys)
All-split P [] ys a h = h
All-split P (x ∷ xs) ys a h = let (ha, hs) = All-split P xs ys a h.1 in (ha, (h.0, hs))

abbrev result_of : Phase → Option GoError → Option GoError
result_of (subscribing n) r = r
result_of (unsubscribing n r) r' = r

Step-IsHeard :
    {s t : State} (es : List Terminal) (st : Step s t)
    → IsHeard es s
    → IsHeard (heard_by st ++ es) t
Step-IsHeard {s} es (subscribe n p lt free e) h =
    rw e (record { sent = h.sent; waiting = h.waiting; got = λ m r q. cc })
Step-IsHeard es (dispatch ev hears e) h = rw e (record {
  sent = λ r q. IsFrom-cons ev es r (h.sent r q);
  waiting = (
    (ev, Memᴰ.head refl, refl),
    All-map (IsFrom es) (IsFrom (ev ∷ es)) (IsFrom-cons ev es) _ h.waiting,
  );
  got = λ n r q. IsFrom-cons ev es r (h.got n r q);
})
Step-IsHeard es (send xs ys r free q e) h =
    let (mine, rest) = All-split (IsFrom es) xs ys r (subst (All (IsFrom es)) q h.waiting) in
    rw e (record {
      sent = λ r' q'. subst (IsFrom es) (some-injective r r' q') mine;
      waiting = rest;
      got = h.got;
    })
Step-IsHeard es (receive r p q e) h = rw e (record {
  sent = λ r' q'. cc;
  waiting = h.waiting;
  got = λ n r' q'. subst (IsFrom es) (ap (λ ph. result_of ph r) q') (h.sent r q);
})
Step-IsHeard es (unsubscribe n r p free e) h = rw e (record {
  sent = h.sent;
  waiting = h.waiting;
  got = λ m r' q'. subst (IsFrom es) (ap (λ ph. result_of ph r) q') (h.got (suc n) r p);
})

Reach-IsHeard : {s : State} (run : Reach start s) → IsHeard (heard run) s
unfolding heard
Reach-IsHeard here = record { sent = λ r q. cc; waiting = tt; got = λ n r q. cc }
Reach-IsHeard (next run st) = Step-IsHeard (heard run) st (Reach-IsHeard run)

-- What WaitForDownload holds is the error of an event that reached a listener.
pub received_error :
    {s : State} (run : Reach start s) (n : ℕ) (r : Option GoError)
    → s.phase ≡ unsubscribing n r
    → (e : Terminal) × Memᴰ e (heard run) × (r ≡ wait_error e)
received_error run n r p = (Reach-IsHeard run).got n r p

-- nil of a completion, ErrDownloadStopped of a stop, ErrDownloadError of an error.
abbrev pub IsErrorOf : Terminal → Option GoError → Type 0
IsErrorOf stop r = r ≡ some download_stopped
IsErrorOf complete r = r ≡ none
IsErrorOf error r = r ≡ some download_error

wait_error-IsErrorOf : (e : Terminal) (r : Option GoError) → r ≡ wait_error e → IsErrorOf e r
unfolding wait_error
wait_error-IsErrorOf stop r h = h
wait_error-IsErrorOf complete r h = h
wait_error-IsErrorOf error r h = h

-- What WaitForDownload returns, after any run of its listeners, is the error of an event for its GID
-- that reached one of them: nil of a completion, ErrDownloadStopped of a stop and ErrDownloadError
-- of an error. So it does not return where no event reaches a listener, also where the download
-- ended before.
pub returned_error :
    {s : State} (run : Reach start s) (n : ℕ) (r : Option GoError)
    → s.phase ≡ unsubscribing n r
    → (e : Terminal) × Memᴰ e (heard run) × IsErrorOf e r
returned_error run n r p =
    let (e, reached, is) = received_error run n r p in (e, reached, wait_error-IsErrorOf e r is)
