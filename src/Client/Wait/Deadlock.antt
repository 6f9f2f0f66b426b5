-- ===== src/Client/Wait/Deadlock.antt =====
-- How WaitForDownload can come to wait for ever, with more than one event for its GID.
use arigo.Base.{◌≡◌, ◌≢◌, refl, true, some, [], ◌∷◌, arith}
use arigo.Client.Wait.Results.{heard}
use arigo.Client.Wait.{
  Terminal, stop, complete, error, wait_error, subscribing, unsubscribing, hears, State, start,
  subscribe, dispatch, send, receive, Reach, here, next, Returned, Reach-IsDeadlocked,
  IsDeadlocked-not-Returned,
}

abbrev two_subscribed : Reach start (record start { phase = subscribing 2 })
two_subscribed =
    next (next here (subscribe 0 refl (omega arith) refl refl))
      (subscribe 1 refl (omega arith) refl refl)

abbrev all_subscribed : Reach start (record start { phase = subscribing 3 })
all_subscribed = next two_subscribed (subscribe 2 refl (omega arith) refl refl)

hears-two : (a : Terminal) → a ≢ error → hears (subscribing 2) a ≡ true
unfolding hears
hears-two stop h = refl
hears-two complete h = refl
hears-two error h = absurd (h refl)

-- From here WaitForDownload never returns, whatever happens.
abbrev pub IsStuck : State → Type 0
IsStuck s = (t : State) → Reach s t → ¬ Returned t

-- Two events while WaitForDownload still subscribes.
two_events_deadlock :
    (a b : Terminal)
    → a ≢ error
    → b ≢ error
    → (s : State) × (run : Reach start s) × (heard run ≡ b ∷ a ∷ [])
      × (s.phase ≡ subscribing 2)
      × IsStuck s
unfolding heard
two_events_deadlock a b ha hb = (
  record {
    phase = subscribing 2;
    channel = some (wait_error a);
    sending = wait_error b ∷ [];
    events = 2;
  },
  next
      (next (next two_subscribed (dispatch a (hears-two a ha) refl))
        (send [] [] (wait_error a) refl refl refl))
      (dispatch b (hears-two b hb) refl),
  refl,
  refl,
  λ t r.
      IsDeadlocked-not-Returned
        (Reach-IsDeadlocked (record { wants = omega arith; full = λ q. cc; held = λ q. cc }) r),
)

-- Three events before the first of the listeners is cancelled.
three_events_deadlock :
    (a b c : Terminal)
    → (s : State) × (run : Reach start s) × (heard run ≡ c ∷ b ∷ a ∷ [])
      × (s.phase ≡ unsubscribing 3 (wait_error a))
      × IsStuck s
unfolding hears heard
three_events_deadlock a b c = (
  record {
    phase = unsubscribing 3 (wait_error a);
    channel = some (wait_error b);
    sending = wait_error c ∷ [];
    events = 3;
  },
  next
      (next
        (next
          (next
            (next (next all_subscribed (dispatch a refl refl))
              (send [] [] (wait_error a) refl refl refl))
            (receive (wait_error a) refl refl refl))
          (dispatch b refl refl))
        (send [] [] (wait_error b) refl refl refl))
      (dispatch c refl refl),
  refl,
  refl,
  λ t r.
      IsDeadlocked-not-Returned
        (Reach-IsDeadlocked (record { wants = omega arith; full = λ q. cc; held = λ q. cc }) r),
)

-- For any two events for the GID that are stops or completions: there is a run in which exactly
-- these two reach the listeners, in this order, while WaitForDownload still has its third
-- subscription to make, and after which it never returns, whatever happens then. And for any three
-- events for the GID: there is a run in which exactly these reach the listeners, in this order,
-- WaitForDownload has received the first and cancelled no subscription, and after which it never
-- returns.
pub events_deadlock :
    (a b c : Terminal)
    → a ≢ error
    → b ≢ error
    → ((s : State) × (run : Reach start s) × (heard run ≡ b ∷ a ∷ [])
        × (s.phase ≡ subscribing 2)
        × IsStuck s)
      × ((s : State) × (run : Reach start s) × (heard run ≡ c ∷ b ∷ a ∷ [])
          × (s.phase ≡ unsubscribing 3 (wait_error a))
          × IsStuck s)
events_deadlock a b c ha hb = (two_events_deadlock a b ha hb, three_events_deadlock a b c)
