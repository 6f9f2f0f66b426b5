-- ===== src/Events/Locking.antt =====
-- The lock of the event target in events.go while listeners run: Dispatch holds its read lock until
-- every listener has returned, and Subscribe and the unsubscribe functions take its write lock.
use arigo.Base.{
  ◌≡◌, ◌≢◌, refl, ap, ◌∙◌, sym, Bool, true, false, ◌||◌, Option, none, some, List, [], ◌∷◌, ◌++◌,
  arith,
}
use arigo.Events.{
  EventTarget, EventType, EventListener, UnsubscribeFunc, DownloadEvent, subscribe,
  call_unsubscribe, dispatch,
}
use arigo.Events.Goroutines.{goroutines, joined, joined-goroutines}

-- The operations that take the write lock.
pub data Operation (E : Type 0) : Type 0 where
  subscribes : EventType → EventListener E → Operation E
  cancels : UnsubscribeFunc → Operation E

pub perform : {E : Type 0} → Operation E → EventTarget E → EventTarget E
perform (subscribes ty f) t = (subscribe t ty f).0
perform (cancels u) t = (call_unsubscribe t u).0

-- Each running Dispatch holds the read lock, and has the effects that its listeners have still to do.
pub record State (E : Type 0) : Type 0 where
  pub target : EventTarget E
  pub running : List (List (List E))

-- `operation_of` tells which effects of a listener are operations of the target.
module _ {E : Type 0} (operation_of : E → Option (Operation E)) where
  -- A listener does its next effect. An operation has to wait for the write lock, which is not free
  -- while the Dispatch of the listener runs: there is no turn for it.
  pub data Turn : List (List E) → List (List E) → Type 0 where
    effect :
        {e : E} {es : List E} {gs : List (List E)}
        → operation_of e ≡ none
        → Turn ((e ∷ es) ∷ gs) (es ∷ gs)
    next : {g : List E} {gs hs : List (List E)} → Turn gs hs → Turn (g ∷ gs) (g ∷ hs)

  abbrev pub ended : List (List E) → Bool
  ended [] = true
  ended ([] ∷ gs) = ended gs
  ended ((e ∷ es) ∷ gs) = false

  pub data Move : List (List (List E)) → List (List (List E)) → Type 0 where
    turn :
        {gs hs : List (List E)} {ds : List (List (List E))} → Turn gs hs → Move (gs ∷ ds) (hs ∷ ds)
    returns : {gs : List (List E)} {ds : List (List (List E))} → ended gs ≡ true → Move (gs ∷ ds) ds
    other :
        {gs : List (List E)} {ds es : List (List (List E))} → Move ds es → Move (gs ∷ ds) (gs ∷ es)

  -- Any goroutine may call Dispatch; the write lock is free while none runs.
  pub data Step (s t : State E) : Type 0 where
    dispatches :
        (ty : EventType) (event : DownloadEvent)
        → t ≡ record s { running = goroutines s.target ty event ∷ s.running }
        → Step s t
    moves :
        (ds : List (List (List E))) → Move s.running ds → t ≡ record s { running = ds } → Step s t
    operates :
        (o : Operation E) → s.running ≡ [] → t ≡ record s { target = perform o s.target } → Step s t

  pub data Reach (s : State E) : State E → Type 0 where
    here : Reach s s
    next : {t u : State E} → Reach s t → Step t u → Reach s u

  abbrev is_operation : Option (Operation E) → Bool
  is_operation none = false
  is_operation (some o) = true

  abbrev pub has_operation : List E → Bool
  has_operation [] = false
  has_operation (e ∷ es) = is_operation (operation_of e) || has_operation es

  abbrev any_listener : List (List E) → Bool
  any_listener [] = false
  any_listener (g ∷ gs) = has_operation g || any_listener gs

  abbrev any_dispatch : List (List (List E)) → Bool
  any_dispatch [] = false
  any_dispatch (gs ∷ ds) = any_listener gs || any_dispatch ds

  Turn-any : {gs hs : List (List E)} → Turn gs hs → any_listener gs ≡ any_listener hs
  Turn-any (effect h) = rw h refl
  Turn-any (next {g} t) = ap (λ b. has_operation g || b) (Turn-any t)

  ended-any : (gs : List (List E)) → ended gs ≡ true → any_listener gs ≡ false
  ended-any [] h = refl
  ended-any ([] ∷ gs) h = ended-any gs h
  ended-any ((e ∷ es) ∷ gs) h = cc

  Move-any : {ds es : List (List (List E))} → Move ds es → any_dispatch ds ≡ any_dispatch es
  Move-any (turn {ds = ds} t) = ap (λ b. b || any_dispatch ds) (Turn-any t)
  Move-any (returns {gs} h) = rw (ended-any gs h) refl
  Move-any (other {gs} m) = ap (λ b. any_listener gs || b) (Move-any m)

  any_dispatch-ne : (ds : List (List (List E))) → any_dispatch ds ≡ true → ds ≢ []
  any_dispatch-ne [] h = λ q. cc
  any_dispatch-ne (gs ∷ ds) h = λ q. cc

  -- A Dispatch waits for a listener with an operation; the target is this one.
  record IsBlocked (t : EventTarget E) (s : State E) : Type 0 where
    waits : any_dispatch s.running ≡ true
    kept : s.target ≡ t

  Step-IsBlocked : {t : EventTarget E} {s u : State E} → Step s u → IsBlocked t s → IsBlocked t u
  Step-IsBlocked (dispatches ty event e) b =
      rw e (record { waits = ground (arith, b.waits); kept = b.kept })
  Step-IsBlocked (moves ds m e) b =
      rw e (record { waits = sym (Move-any m) ∙ b.waits; kept = b.kept })
  Step-IsBlocked {s} (operates o free e) b = absurd (any_dispatch-ne s.running b.waits free)

  Reach-IsBlocked : {t : EventTarget E} {s u : State E} → IsBlocked t s → Reach s u → IsBlocked t u
  Reach-IsBlocked b here = b
  Reach-IsBlocked b (next r st) = Step-IsBlocked st (Reach-IsBlocked b r)

  has_operation-append :
      (es fs : List E) → has_operation (es ++ fs) ≡ (has_operation es || has_operation fs)
  has_operation-append [] fs = refl
  has_operation-append (e ∷ es) fs = ground (arith, has_operation-append es fs)

  any_listener-joined : (gs : List (List E)) → any_listener gs ≡ has_operation (joined gs)
  any_listener-joined [] = refl
  any_listener-joined (g ∷ gs) =
      ap (λ b. has_operation g || b) (any_listener-joined gs)
      ∙ sym (has_operation-append g (joined gs))

  -- Where a listener that an event runs calls Subscribe or an unsubscribe function, the Dispatch
  -- of the event blocks the target for ever: whatever happens then, there is a Dispatch that has
  -- not returned, and the listeners of the target stay what they were.
  pub listener_blocks :
      {s u : State E} (ty : EventType) (event : DownloadEvent)
      → has_operation (dispatch s.target ty event) ≡ true
      → Reach (record s { running = goroutines s.target ty event ∷ s.running }) u
      → (u.running ≢ []) × (u.target ≡ s.target)
  listener_blocks {s} {u} ty event h r =
      let joined_has = ap has_operation (joined-goroutines s.target ty event) in
      let b =
        Reach-IsBlocked
          (record {
            waits =
                ground (arith, h, any_listener-joined (goroutines s.target ty event), joined_has);
            kept = refl;
          })
          r in
      (any_dispatch-ne u.running b.waits, b.kept)
