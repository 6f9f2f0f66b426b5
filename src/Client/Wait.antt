-- ===== src/Client/Wait.antt =====
-- WaitForDownload as a process beside the dispatches of its three listeners. Subscribe and the
-- unsubscribe functions take the write lock of the event target; a Dispatch holds its read lock
-- until every listener has returned, and the listeners send on a channel of capacity 1.
pub mod Deadlock
pub mod Progress
pub mod Measure
pub mod Listeners
pub mod Heard
pub mod Results
use arigo.Base.{
  ℕ, zero, suc, ◌+◌, ◌≤◌, ◌<◌, ◌≡◌, ◌≢◌, refl, subst, Bool, true, false, Option, none, some, List,
  [], ◌∷◌, ◌++◌, arith, length, length-append,
}
use arigo.Json.{GoError, download_stopped, download_error}

-- The events that WaitForDownload listens to, for the GID that it waits for.
pub data Terminal : Type 0 where
  stop complete error : Terminal

-- What the listener of each sends; `none` is the nil error.
unfoldable pub wait_error : Terminal → Option GoError
wait_error stop = some download_stopped
wait_error complete = none
wait_error error = some download_error

-- The waiter has made so many subscriptions; or it has its error and so many subscriptions left to
-- cancel. It receives once it has all three, and returns once none is left.
pub data Phase : Type 0 where
  subscribing : ℕ → Phase
  unsubscribing : ℕ → Option GoError → Phase

-- stop, complete and error are subscribed in this order, and cancelled in this order.
unfoldable pub hears : Phase → Terminal → Bool
hears (subscribing zero) e = false
hears (subscribing (suc zero)) stop = true
hears (subscribing (suc zero)) e = false
hears (subscribing (suc (suc zero))) error = false
hears (subscribing (suc (suc zero))) e = true
hears (subscribing (suc (suc (suc n)))) e = true
hears (unsubscribing zero r) e = false
hears (unsubscribing (suc zero) r) error = true
hears (unsubscribing (suc zero) r) e = false
hears (unsubscribing (suc (suc zero)) r) stop = false
hears (unsubscribing (suc (suc zero)) r) e = true
hears (unsubscribing (suc (suc (suc n))) r) e = true

-- `sending` holds what the listeners of running dispatches still have to send; `events` counts the
-- dispatches that reached a listener.
pub record State : Type 0 where
  pub phase : Phase
  pub channel : Option (Option GoError)
  pub sending : List (Option GoError)
  pub events : ℕ

abbrev pub start : State
start = record { phase = subscribing 0; channel = none; sending = []; events = 0 }

pub data Step (s : State) (t : State) : Type 0 where
  subscribe :
      (n : ℕ)
      → s.phase ≡ subscribing n
      → n < 3
      → s.sending ≡ []
      → t ≡ record s { phase = subscribing (suc n) }
      → Step s t
  dispatch :
      (e : Terminal)
      → hears s.phase e ≡ true
      → t ≡ record s { sending = wait_error e ∷ s.sending; events = suc s.events }
      → Step s t
  send :
      (xs ys : List (Option GoError)) (r : Option GoError)
      → s.channel ≡ none
      → s.sending ≡ xs ++ r ∷ ys
      → t ≡ record s { channel = some r; sending = xs ++ ys }
      → Step s t
  receive :
      (r : Option GoError)
      → s.phase ≡ subscribing 3
      → s.channel ≡ some r
      → t ≡ record s { phase = unsubscribing 3 r; channel = none }
      → Step s t
  unsubscribe :
      (n : ℕ) (r : Option GoError)
      → s.phase ≡ unsubscribing (suc n) r
      → s.sending ≡ []
      → t ≡ record s { phase = unsubscribing n r }
      → Step s t

pub data Reach (s : State) : State → Type 0 where
  here : Reach s s
  next : {t u : State} → Reach s t → Step t u → Reach s u

abbrev pub Returned : State → Type 0
Returned s = (r : Option GoError) × (s.phase ≡ unsubscribing 0 r)

-- The waiter's next move takes the write lock.
abbrev pub NeedsLock : Phase → Type 0
NeedsLock (subscribing n) = n < 3
NeedsLock (unsubscribing n r) = 0 < n

-- The waiter wants the lock, a dispatch holds it, and its listener waits for a channel that nobody
-- reads before the waiter has the lock.
pub record IsDeadlocked (s : State) : Type 0 where
  pub wants : NeedsLock s.phase
  pub full : s.channel ≢ none
  pub held : s.sending ≢ []

pub Step-IsDeadlocked : {s t : State} → Step s t → IsDeadlocked s → IsDeadlocked t
Step-IsDeadlocked (subscribe n p lt free e) d = absurd (d.held free)
Step-IsDeadlocked (dispatch ev h e) d =
    rw e (record { wants = d.wants; full = d.full; held = λ q. cc })
Step-IsDeadlocked (send xs ys r free q e) d = absurd (d.full free)
Step-IsDeadlocked {s} (receive r p q e) d = absurd (not_at_three (subst NeedsLock p d.wants))
  where
    not_at_three : ¬ (3 < 3)
    not_at_three h = omega arith
Step-IsDeadlocked (unsubscribe n r p free e) d = absurd (d.held free)

pub Reach-IsDeadlocked : {s t : State} → IsDeadlocked s → Reach s t → IsDeadlocked t
Reach-IsDeadlocked d here = d
Reach-IsDeadlocked d (next r st) = Step-IsDeadlocked st (Reach-IsDeadlocked d r)

pub IsDeadlocked-not-Returned : {s : State} → IsDeadlocked s → ¬ Returned s
IsDeadlocked-not-Returned d (r, e) = absurd (none_left (subst NeedsLock e d.wants))
  where
    none_left : ¬ (0 < 0)
    none_left h = omega arith
