-- ===== src/Events/Dispatching.antt =====
-- What a Subscribe adds to every later Dispatch.
use mathlib.Core.List.{append_assoc, append-nil}
use arigo.Base.{
  ◌≡◌, refl, ap, ◌∙◌, sym, Bool, true, false, List, [], ◌∷◌, ◌++◌, ◌==◌, if◌then◌else◌, Bool-cases,
  inl, inr, ==_iff,
}
use arigo.Events.{
  EventType, DownloadEvent, EventListener, ListenerData, EventTarget, subscribe, dispatch,
  run_listeners, listeners,
}
use arigo.Events.Refinement.{listeners-subscribe}

module _ {E : Type 0} where
  run_listeners-append :
      (event : DownloadEvent) (ls ks : List (ListenerData E))
      → run_listeners event (ls ++ ks) ≡ run_listeners event ls ++ run_listeners event ks
  unfolding run_listeners
  run_listeners-append event [] ks = refl
  run_listeners-append event (l ∷ ls) ks =
      ap (◌++◌ (l.f event)) (run_listeners-append event ls ks)
      ∙ sym (append_assoc (l.f event) (run_listeners event ls) (run_listeners event ks))

  run_listeners-if :
      (b : Bool) (event : DownloadEvent) (ls ks : List (ListenerData E)) (l : ListenerData E)
      → run_listeners event (if b then ls ++ l ∷ [] else ks)
        ≡ (if b then run_listeners event ls else run_listeners event ks)
          ++ (if b then l.f event else [])
  unfolding run_listeners
  run_listeners-if true event ls ks l =
      run_listeners-append event ls (l ∷ [])
      ∙ ap (◌++◌ (run_listeners event ls)) (append-nil (l.f event))
  run_listeners-if false event ls ks l = sym (append-nil (run_listeners event ks))

  same_type :
      (t : EventTarget E) (ty ty' : EventType) (event : DownloadEvent)
      → (if ty == ty'
          then run_listeners event (listeners t ty)
          else run_listeners event (listeners t ty'))
        ≡ run_listeners event (listeners t ty')
  same_type t ty ty' event = elim (Bool-cases (ty == ty')) [
    | inl e ↦ rw e (ap (λ k. run_listeners event (listeners t k)) ((==_iff ty ty').0 e))
    | inr e ↦ rw e refl
  ]

  pub dispatch-subscribe :
      (t : EventTarget E) (ty ty' : EventType) (f : EventListener E) (event : DownloadEvent)
      → dispatch (subscribe t ty f).0 ty' event
        ≡ dispatch t ty' event ++ (if ty == ty' then f event else [])
  unfolding dispatch
  dispatch-subscribe t ty ty' f event =
      ap (run_listeners event) (listeners-subscribe t ty ty' f)
      ∙ run_listeners-if (ty == ty') event (listeners t ty) (listeners t ty')
          (record { f = f; id = t.current_id })
      ∙ ap (λ (es : List E). es ++ (if ty == ty' then f event else [])) (same_type t ty ty' event)
