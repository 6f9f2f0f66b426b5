-- ===== src/Client/Wait/Measure.antt =====
-- The moves of WaitForDownload and its listeners, counted.
use arigo.Base.{
  ℕ, zero, suc, ◌+◌, ◌*◌, ◌-◌, ◌≡◌, ◌≤◌, ◌⊎◌, inl, inr, refl, ap, ◌∙◌, subst, Option, none, some,
  List, [], ◌∷◌, arith, length, length-append, Bool-cases, ltb,
}
use arigo.Json.{GoError}
use arigo.Client.Wait.{
  Phase, subscribing, unsubscribing, State, start, Step, subscribe, dispatch, send, receive,
  unsubscribe, Reach, here, next, Returned,
}
use arigo.Client.Wait.Progress.{
  one_event_returns, IsCounted, Reach-IsCounted, WithinThree, in_channel, received, nothing_left,
}

-- The moves of the waiter that are left: subscriptions, the receive and cancellations.
abbrev left : Phase → ℕ
left (subscribing n) = 7 - n
left (unsubscribing n r) = n

abbrev measure : State → ℕ
measure s = left s.phase + length s.sending

abbrev pub moves : {s t : State} → Reach s t → ℕ
moves here = 0
moves (next run st) = suc (moves run)

-- A move takes one off the measure, and the dispatch of an event puts two moves there and is one.
Step-measure : {s t : State} → Step s t → suc (measure t) + 2 * s.events ≡ measure s + 2 * t.events
Step-measure {s} (subscribe n p lt free e) = rw e (omega (arith, lt, ap left p))
Step-measure {s} (dispatch ev h e) = rw e (omega arith)
Step-measure {s} (send xs ys r free q e) =
    rw e (omega (arith, ap length q, length-append xs (r ∷ ys), length-append xs ys))
Step-measure {s} (receive r p q e) = rw e (omega (arith, ap left p))
Step-measure {s} (unsubscribe n r p free e) = rw e (omega (arith, ap left p))

Reach-measure : {s : State} (run : Reach start s) → moves run + measure s ≡ 7 + 2 * s.events
Reach-measure here = refl
Reach-measure (next run st) = omega (arith, Reach-measure run, Step-measure st)

-- A move that is no new event.
abbrev pub Moves : State → Type 0
Moves s = (t : State) × Step s t × (t.events ≡ s.events)

-- A listener that waits for the channel sends once it is empty.
send_first :
    (s : State) (r : Option GoError) (rs : List (Option GoError))
    → s.channel ≡ none
    → s.sending ≡ r ∷ rs
    → Moves s
send_first s r rs empty q =
    (record s { channel = some r; sending = rs }, send [] rs r empty q refl, refl)

-- While the waiter subscribes, one event is in the channel, or one listener has still to send it.
subscribing-Moves :
    (s : State) (n : ℕ) (ch : Option (Option GoError)) (ls : List (Option GoError))
    → n ≤ 3
    → s.phase ≡ subscribing n
    → s.channel ≡ ch
    → s.sending ≡ ls
    → in_channel ch + length ls ≡ 1
    → Moves s
subscribing-Moves s n none [] w p c q one = absurd (omega arith)
subscribing-Moves s n none (r ∷ rs) w p c q one = send_first s r rs c q
subscribing-Moves s n (some r) (x ∷ ls) w p c q one = absurd (omega arith)
subscribing-Moves s n (some r) [] w p c q one = elim (Bool-cases (ltb n 3)) [
  | inl h ↦
      (record s { phase = subscribing (suc n) }, subscribe n p (ground (arith, h)) q refl, refl)
  | inr h ↦ (
    record s { phase = unsubscribing 3 r; channel = none },
    receive r (p ∙ ap subscribing (ground (arith, h, w))) c refl,
    refl,
  )
]

unsubscribing-Moves :
    (s : State) (n : ℕ) (r : Option GoError)
    → s.phase ≡ unsubscribing n r
    → s.sending ≡ []
    → Returned s ⊎ Moves s
unsubscribing-Moves s zero r p free = inl (r, p)
unsubscribing-Moves s (suc n) r p free =
    inr (record s { phase = unsubscribing n r }, unsubscribe n r p free refl, refl)

one_event-Moves :
    (s : State) (ph : Phase) → IsCounted s → s.events ≡ 1 → s.phase ≡ ph → Returned s ⊎ Moves s
one_event-Moves s (subscribing n) counted one p = inr (
    subscribing-Moves s n s.channel s.sending (subst WithinThree p counted.within) p refl refl
      (omega (arith, ap received p, counted.accounted)))
one_event-Moves s (unsubscribing n r) counted one p =
    unsubscribing-Moves s n r p
      (nothing_left s.sending (omega (arith, ap received p, counted.accounted)))

-- After every run in which exactly one event for its GID has reached a listener, in whatever order
-- WaitForDownload and its listeners moved: there were at most nine moves, the event among them, and
-- it has returned or a move is left that is no new event. It can go on until it returns.
pub one_event_ends :
    (s : State) (run : Reach start s)
    → s.events ≡ 1
    → (moves run ≤ 9) × (Returned s ⊎ Moves s) × ((t : State) × Reach s t × Returned t)
one_event_ends s run one = (
  omega (arith, one, Reach-measure run),
  one_event-Moves s s.phase (Reach-IsCounted run) one refl,
  one_event_returns s run one,
)
