-- ===== src/Events/Goroutines.antt =====
-- Dispatch of events.go as it runs: a goroutine for each listener, in any order.
use mathlib.Core.List.{perm_middle, append_assoc, append-nil}
use mathlib.Core.List.Perm
use arigo.Base.{◌≡◌, refl, ap, ◌∙◌, subst, sym, List, [], ◌∷◌, ◌++◌, map, Perm, All, All-append}
use arigo.Events.{
  DownloadEvent, ListenerData, EventTarget, EventType, listeners, run_listeners, dispatch,
}

module _ {E : Type 0} where
  abbrev pub joined : List (List E) → List E
  joined [] = []
  joined (es ∷ ess) = es ++ joined ess

  -- What goroutines with these effects still to come can do, one effect at a time, until all have
  -- ended: the trace is the list of the effects in the order of time.
  pub data Runs : List (List E) → List E → Type 0 where
    all_ended : {ess : List (List E)} → All (λ es. es ≡ []) ess → Runs ess []
    turn :
        (before behind : List (List E)) (e : E) (es trace : List E)
        → Runs (before ++ es ∷ behind) trace
        → Runs (before ++ (e ∷ es) ∷ behind) (e ∷ trace)

  joined-append : (ess fss : List (List E)) → joined (ess ++ fss) ≡ joined ess ++ joined fss
  joined-append [] fss = refl
  joined-append (es ∷ ess) fss =
      ap (◌++◌ es) (joined-append ess fss) ∙ sym (append_assoc es (joined ess) (joined fss))

  joined-ended : (ess : List (List E)) → All (λ es. es ≡ []) ess → joined ess ≡ []
  joined-ended [] h = refl
  joined-ended (es ∷ ess) h = rw h.0 (joined-ended ess h.1)

  Runs-perm : {ess : List (List E)} {trace : List E} → Runs ess trace → Perm trace (joined ess)
  Runs-perm (all_ended {ess} h) = subst (Perm []) (sym (joined-ended ess h)) Perm.nil
  Runs-perm (turn before behind e es trace r) =
      subst (Perm (e ∷ trace)) (sym (joined-append before ((e ∷ es) ∷ behind))) (
        Perm.trans
          (Perm.cons e (subst (Perm trace) (joined-append before (es ∷ behind)) (Runs-perm r)))
          (Perm.symm (perm_middle (joined before) (es ++ joined behind))))

  -- One goroutine after the other.
  in_turn :
      (before : List (List E)) (es : List E) (behind : List (List E)) (trace : List E)
      → Runs (before ++ [] ∷ behind) trace
      → Runs (before ++ es ∷ behind) (es ++ trace)
  in_turn before [] behind trace r = r
  in_turn before (e ∷ es) behind trace r =
      turn before behind e es (es ++ trace) (in_turn before es behind trace r)

  Runs-joined :
      (ended ess : List (List E)) → All (λ es. es ≡ []) ended → Runs (ended ++ ess) (joined ess)
  Runs-joined ended [] h = all_ended (rw append-nil h)
  Runs-joined ended (es ∷ ess) h = in_turn ended es ess (joined ess) (
      subst (λ l. Runs l (joined ess)) (append_assoc ended ([] ∷ []) ess)
        (Runs-joined (ended ++ [] ∷ []) ess (All-append _ ended ([] ∷ []) h (refl, tt))))

  -- The goroutines of a Dispatch.
  abbrev pub goroutines : EventTarget E → EventType → DownloadEvent → List (List E)
  goroutines t ty event = map (λ l. l.f event) (listeners t ty)

  joined-run_listeners :
      (event : DownloadEvent) (ls : List (ListenerData E))
      → joined (map (λ l. l.f event) ls) ≡ run_listeners event ls
  unfolding run_listeners
  joined-run_listeners event [] = refl
  joined-run_listeners event (l ∷ ls) = ap (◌++◌ (l.f event)) (joined-run_listeners event ls)

  pub joined-goroutines :
      (t : EventTarget E) (ty : EventType) (event : DownloadEvent)
      → joined (goroutines t ty event) ≡ dispatch t ty event
  unfolding dispatch
  joined-goroutines t ty event = joined-run_listeners event (listeners t ty)

  -- Whatever the order in which the goroutines of a Dispatch take their turns, until it returns they
  -- have the effects that `dispatch` lists, each as often, up to their order; and the order of
  -- `dispatch` is one that they can have.
  pub dispatch_any_order :
      (t : EventTarget E) (ty : EventType) (event : DownloadEvent) (trace : List E)
      → Runs (goroutines t ty event) trace
      → Perm trace (dispatch t ty event) × Runs (goroutines t ty event) (dispatch t ty event)
  dispatch_any_order t ty event trace r = (
    subst (Perm trace) (joined-goroutines t ty event) (Runs-perm r),
    subst (Runs (goroutines t ty event)) (joined-goroutines t ty event)
        (Runs-joined [] (goroutines t ty event) tt),
  )
