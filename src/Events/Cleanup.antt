-- ===== src/Events/Cleanup.antt =====
-- What `unsubscribe` leaves behind: no empty slice in the map, and nothing to remove again.
use arigo.Base.{
  ℕ, ◌≡◌, ◌≢◌, refl, ap, Bool, false, Option, none, some, Option-cases, List, [], ◌∷◌, ◌++◌, arith,
  ◌==◌, inl, inr, Bool-cases, ◌∙◌, subst,
}
use mathlib.Core.Option.{some-injective}
use arigo.Base.Map
use arigo.Base.Map.{Map, map_laws}
use arigo.Events.{
  EventListener, ListenerData, EventTarget, new_target, listeners, find_listener, unsubscribe,
  subscribe, store_listeners, made, call_unsubscribe,
}
use arigo.Events.Registry.{Registry, revoke, is_active-drop_sub}
use arigo.Events.Refinement.{Refines, unsubscribe-Refines, unsubscribe-none, unsubscribe-some}
use arigo.Events.History.{Call, subscribes, unsubscribes, dispatches, target_step}

module _ {E : Type 0} where
  abbrev pub NoEmpty : Map (List (ListenerData E)) → Type 0
  NoEmpty m = (ty : ℕ) → Map.get ty m ≢ some []

  -- No key of the map is bound to an empty slice.
  abbrev pub IsClean : EventTarget E → Type 0
  IsClean t = (m : Map (List (ListenerData E))) → t.listener_map ≡ some m → NoEmpty m

  put-NoEmpty :
      (ty : ℕ) (ls : List (ListenerData E)) (m : Map (List (ListenerData E)))
      → ls ≢ []
      → NoEmpty m
      → NoEmpty (Map.put ty ls m)
  put-NoEmpty ty ls m ne h j = simp map_laws (elim (Bool-cases (ty == j)) [
    | inl e ↦ rw e (λ q. ne (some-injective _ _ q))
    | inr e ↦ rw e (h j)
  ])

  store_listeners-NoEmpty :
      (ty : ℕ) (ls : List (ListenerData E)) (m : Map (List (ListenerData E)))
      → NoEmpty m
      → NoEmpty (store_listeners ty ls m)
  unfolding store_listeners
  store_listeners-NoEmpty ty [] m h = λ j.
      simp map_laws (elim (Bool-cases (ty == j)) [ inl e ↦ rw e (λ q. cc) | inr e ↦ rw e (h j) ])
  store_listeners-NoEmpty ty (l ∷ ls) m h = put-NoEmpty ty (l ∷ ls) m (λ q. cc) h

  made-NoEmpty :
      (o : Option (Map (List (ListenerData E))))
      → ((m : Map (List (ListenerData E))) → o ≡ some m → NoEmpty m)
      → NoEmpty (made o)
  unfolding made
  made-NoEmpty none h = λ j. rw Map.get-empty (λ q. cc)
  made-NoEmpty (some m) h = h m refl

  append-ne-nil : (ls : List (ListenerData E)) (l : ListenerData E) → ls ++ l ∷ [] ≢ []
  append-ne-nil [] l = λ q. cc
  append-ne-nil (k ∷ ls) l = λ q. cc

  subscribe-IsClean :
      (t : EventTarget E) (ty : ℕ) (f : EventListener E) → IsClean t → IsClean (subscribe t ty f).0
  unfolding subscribe
  subscribe-IsClean t ty f h m e =
      subst NoEmpty (some-injective _ _ e)
        (put-NoEmpty ty _ _ (append-ne-nil _ _) (made-NoEmpty t.listener_map h))

  unsubscribe-IsClean :
      (t : EventTarget E) (ty id : ℕ) → IsClean t → IsClean (unsubscribe t ty id).0
  unsubscribe-IsClean t ty id h = elim (Option-cases (find_listener id (listeners t ty))) [
    | inl q ↦ rw (unsubscribe-none t ty id q) h
    | inr (i, q) ↦
        let (m, e, u) = unsubscribe-some t ty id i q in
        rw u
          (λ m' e'. subst NoEmpty (some-injective _ _ e') (store_listeners-NoEmpty ty _ m (h m e)))
  ]

  unsubscribe-false :
      (t : EventTarget E) (ty id : ℕ)
      → (unsubscribe t ty id).1 ≡ false
      → (unsubscribe t ty id).0 ≡ t
  unsubscribe-false t ty id h = elim (Option-cases (find_listener id (listeners t ty))) [
    | inl q ↦ rw (unsubscribe-none t ty id q)
    | inr (i, q) ↦
        let (m, e, u) = unsubscribe-some t ty id i q in
        absurd (ground (arith, ap (λ (p : EventTarget E × Bool). p.1) u))
  ]

  -- On a target that agrees with a registry, the second call of one unsubscribe closure returns
  -- false and changes nothing.
  pub unsubscribe_twice :
      (t : EventTarget E) (r : Registry E) (ty id : ℕ)
      → Refines t r
      → (unsubscribe (unsubscribe t ty id).0 ty id) ≡ ((unsubscribe t ty id).0, false)
  unsubscribe_twice t r ty id h =
      let (h', _) = unsubscribe-Refines ty id h in
      let again : (unsubscribe (unsubscribe t ty id).0 ty id).1 ≡ false =
        (unsubscribe-Refines ty id h').1 ∙ unfold revoke in is_active-drop_sub ty id r.subs in
      λ i. (unsubscribe-false (unsubscribe t ty id).0 ty id again i, again i)

  pub target_after : EventTarget E → List (Call E) → EventTarget E
  target_after t [] = t
  target_after t (c ∷ cs) = target_after (target_step t c).0 cs

  step-IsClean : (t : EventTarget E) (c : Call E) → IsClean t → IsClean (target_step t c).0
  unfolding target_step call_unsubscribe
  step-IsClean t (subscribes ty f) h = subscribe-IsClean t ty f h
  step-IsClean t (unsubscribes u) h = unsubscribe-IsClean t u.evt_type u.id h
  step-IsClean t (dispatches ty ev) h = h

  after-IsClean : (t : EventTarget E) (cs : List (Call E)) → IsClean t → IsClean (target_after t cs)
  unfolding target_after
  after-IsClean t [] h = h
  after-IsClean t (c ∷ cs) h = after-IsClean (target_step t c).0 cs (step-IsClean t c h)

  -- After any calls on a fresh target, no key of its map is bound to an empty slice: the last
  -- listener of a type takes the key with it.
  pub target_after-IsClean : (cs : List (Call E)) → IsClean (target_after new_target cs)
  target_after-IsClean cs = after-IsClean new_target cs (λ m e. cc)
