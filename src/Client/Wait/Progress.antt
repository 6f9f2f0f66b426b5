-- ===== src/Client/Wait/Progress.antt =====
-- With one event for its GID, WaitForDownload cannot get stuck.
use arigo.Base.{
  ℕ, zero, suc, ◌+◌, ◌-◌, ◌≡◌, ◌≤◌, refl, ap, ◌∙◌, sym, subst, Option, none, some, List, [], ◌∷◌,
  arith, length, length-append,
}
use arigo.Json.{GoError}
use arigo.Client.Wait.{
  Phase, subscribing, unsubscribing, State, start, Step, subscribe, dispatch, send, receive,
  unsubscribe, Reach, here, next, Returned,
}

Reach-prepend : {s t u : State} → Step s t → Reach t u → Reach s u
Reach-prepend st here = next here st
Reach-prepend st (next r st') = next (Reach-prepend st r) st'

abbrev pub in_channel : Option (Option GoError) → ℕ
in_channel none = 0
in_channel (some r) = 1

abbrev pub received : Phase → ℕ
received (subscribing n) = 0
received (unsubscribing n r) = 1

abbrev pub WithinThree : Phase → Type 0
WithinThree (subscribing n) = n ≤ 3
WithinThree (unsubscribing n r) = n ≤ 3

-- Every event is received, in the channel or still to be sent.
pub record IsCounted (s : State) : Type 0 where
  pub accounted : received s.phase + in_channel s.channel + length s.sending ≡ s.events
  pub within : WithinThree s.phase

Step-IsCounted : {s t : State} → Step s t → IsCounted s → IsCounted t
Step-IsCounted {s} (subscribe n p lt free e) c = rw e (record {
  accounted = ap (λ q. received q + in_channel s.channel + length s.sending) (sym p) ∙ c.accounted;
  within = omega arith;
})
Step-IsCounted (dispatch ev h e) c =
    rw e (record { accounted = omega (arith, c.accounted); within = c.within })
Step-IsCounted {s} (send xs ys r free q e) c = rw e (record {
  accounted = omega (
    arith,
    c.accounted,
    ap in_channel free,
    ap length q,
    length-append xs (r ∷ ys),
    length-append xs ys,
  );
  within = c.within;
})
Step-IsCounted {s} (receive r p q e) c = rw e (record {
  accounted = omega (arith, c.accounted, ap received p, ap in_channel q);
  within = omega arith;
})
Step-IsCounted {s} (unsubscribe n r p free e) c = rw e (record {
  accounted = omega (arith, c.accounted, ap received p);
  within = one_less (subst WithinThree p c.within);
})
  where
    one_less : suc n ≤ 3 → n ≤ 3
    one_less h = omega arith

pub Reach-IsCounted : {s : State} → Reach start s → IsCounted s
Reach-IsCounted here = record { accounted = refl; within = omega arith }
Reach-IsCounted (next r st) = Step-IsCounted st (Reach-IsCounted r)

-- With nothing in the way, the rest of the subscriptions is cancelled.
cancel_all :
    (n : ℕ) (s : State) (r : Option GoError)
    → s.phase ≡ unsubscribing n r
    → s.sending ≡ []
    → (t : State) × Reach s t × (t.phase ≡ unsubscribing 0 r)
cancel_all zero s r p free = (s, here, p)
cancel_all (suc n) s r p free =
    let (t, reach, done) = cancel_all n (record s { phase = unsubscribing n r }) r refl free in
    (t, Reach-prepend (unsubscribe n r p free refl) reach, done)

-- The rest of the subscriptions is made, the error is received, and all are cancelled.
finish :
    (k n : ℕ) (s : State) (r : Option GoError)
    → n + k ≡ 3
    → s.phase ≡ subscribing n
    → s.sending ≡ []
    → s.channel ≡ some r
    → (t : State) × Reach s t × (t.phase ≡ unsubscribing 0 r)
finish zero n s r e p free full =
    let (t, reach, done) =
      cancel_all 3 (record s { phase = unsubscribing 3 r; channel = none }) r refl free in
    (t, Reach-prepend (receive r (p ∙ ap subscribing (omega arith)) full refl) reach, done)
finish (suc k) n s r e p free full =
    let (t, reach, done) =
      finish k (suc n) (record s { phase = subscribing (suc n) }) r (omega arith) refl free full in
    (t, Reach-prepend (subscribe n p (omega arith) free refl) reach, done)

pub nothing_left : (ls : List (Option GoError)) → length ls ≡ 0 → ls ≡ []
nothing_left [] e = refl
nothing_left (x ∷ ls) e = absurd (omega arith)

-- One event is left to receive: it is in the channel, or one listener has still to send it.
receive_and_finish :
    (n : ℕ) (s : State)
    → n ≤ 3
    → s.phase ≡ subscribing n
    → in_channel s.channel + length s.sending ≡ 1
    → (t : State) × Reach s t × Returned t
receive_and_finish n s w p one = go s.channel s.sending refl refl one
  where
    go :
        (ch : Option (Option GoError)) (ls : List (Option GoError))
        → s.channel ≡ ch
        → s.sending ≡ ls
        → in_channel ch + length ls ≡ 1
        → (t : State) × Reach s t × Returned t
    go (some r) [] full free e =
        let (t, reach, done) = finish (3 - n) n s r (omega arith) p free full in
        (t, reach, (r, done))
    go (some r) (x ∷ ls) full free e = absurd (omega arith)
    go none [] empty free e = absurd (omega arith)
    go none (x ∷ []) empty one_left e =
        let (t, reach, done) =
          finish (3 - n) n (record s { channel = some x; sending = [] }) x (omega arith) p refl
            refl in
        (t, Reach-prepend (send [] [] x empty one_left refl) reach, (x, done))
    go none (x ∷ y ∷ ls) empty more e = absurd (omega arith)

-- From every state that WaitForDownload and its listeners can come to with exactly one event for
-- its GID having reached a listener, it can go on until it returns: one event never deadlocks it.
pub one_event_returns :
    (s : State) → Reach start s → s.events ≡ 1 → (t : State) × Reach s t × Returned t
one_event_returns s r one = go s.phase refl
  where
    counted : IsCounted s
    counted = Reach-IsCounted r

    go : (ph : Phase) → s.phase ≡ ph → (t : State) × Reach s t × Returned t
    go (subscribing n) p =
        receive_and_finish n s (subst WithinThree p counted.within) p
          (omega (arith, ap received p, counted.accounted))
    go (unsubscribing n r') p =
        let (t, reach, done) =
          cancel_all n s r' p
            (nothing_left s.sending (omega (arith, ap received p, counted.accounted))) in
        (t, reach, (r', done))
