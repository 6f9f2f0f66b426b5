-- ===== src/Events/History.antt =====
-- Whole histories of calls on an event target, against the registry.
use mathlib.Core.List.{Permᴰ, Perm-prop, append_assoc, perm_append_comm}
use mathlib.Core.List.Perm
use mathlib.Core.Path.{subst₂}
use mathlib.Core.Logic.{∥∥₁_elim}
use arigo.Base.{
  ℕ, ◌+◌, ◌^◌, ◌<◌, ◌≡◌, refl, ap, subst, ◌≤◌, Bool, List, [], ◌∷◌, ◌++◌, Perm, arith, length,
}
use arigo.Events.{
  EventType, DownloadEvent, EventListener, ListenerData, UnsubscribeFunc, EventTarget, new_target,
  listeners, subscribe, call_unsubscribe, dispatch, run_listeners,
}
use arigo.Events.Registry.{Registry, new_registry, of_type, is_active, register, revoke, notify}
use arigo.Events.Refinement.{Refines, subscribe-Refines, unsubscribe-Refines}

-- The calls that a client makes, and what they give.
pub data Call (E : Type 0) : Type 0 where
  subscribes : EventType → EventListener E → Call E
  unsubscribes : UnsubscribeFunc → Call E
  dispatches : EventType → DownloadEvent → Call E

pub data Answer (E : Type 0) : Type 0 where
  handle : UnsubscribeFunc → Answer E
  removed : Bool → Answer E
  ran : List E → Answer E

-- The effects of one dispatch agree up to their order; all else agrees exactly.
abbrev pub SameAnswer : {E : Type 0} → Answer E → Answer E → Type 0
SameAnswer (handle u) (handle v) = u ≡ v
SameAnswer (removed b) (removed c) = b ≡ c
SameAnswer (ran es) (ran fs) = Perm es fs
SameAnswer _ _ = ⊥

abbrev pub SameAnswers : {E : Type 0} → List (Answer E) → List (Answer E) → Type 0
SameAnswers [] [] = Unit
SameAnswers (a ∷ as') (b ∷ bs) = SameAnswer a b × SameAnswers as' bs
SameAnswers _ _ = ⊥

module _ {E : Type 0} where
  unfoldable pub target_step : EventTarget E → Call E → EventTarget E × Answer E
  target_step t (subscribes ty f) = let (t', u) = subscribe t ty f in (t', handle u)
  target_step t (unsubscribes u) = let (t', b) = call_unsubscribe t u in (t', removed b)
  target_step t (dispatches ty ev) = (t, ran (dispatch t ty ev))

  pub target_run : EventTarget E → List (Call E) → List (Answer E)
  target_run t [] = []
  target_run t (c ∷ cs) = let (t', a) = target_step t c in a ∷ target_run t' cs

  pub registry_step : Registry E → Call E → Registry E × Answer E
  registry_step r (subscribes ty f) =
      (register r ty f, handle (record { evt_type = ty; id = r.next }))
  registry_step r (unsubscribes u) =
      (revoke r u.evt_type u.id, removed (is_active u.evt_type u.id r.subs))
  registry_step r (dispatches ty ev) = (r, ran (notify r ty ev))

  pub registry_run : Registry E → List (Call E) → List (Answer E)
  registry_run r [] = []
  registry_run r (c ∷ cs) = let (r', a) = registry_step r c in a ∷ registry_run r' cs

  swap_front : (as' bs cs : List E) → Perm (as' ++ (bs ++ cs)) (bs ++ (as' ++ cs))
  swap_front as' bs cs =
      subst (λ l. Perm l (bs ++ (as' ++ cs))) (append_assoc as' bs cs)
        (subst (λ r. Perm ((as' ++ bs) ++ cs) r) (append_assoc bs as' cs)
          (Perm.append_right cs (perm_append_comm as' bs)))

  run_listeners-permᴰ :
      (ev : DownloadEvent) (ls ks : List (ListenerData E))
      → Permᴰ ls ks
      → Perm (run_listeners ev ls) (run_listeners ev ks)
  unfolding run_listeners
  run_listeners-permᴰ ev ls ks Permᴰ.nil = Perm.nil
  run_listeners-permᴰ ev ls ks (Permᴰ.cons {a} {b} {l₁ = xs} {l₂ = ys} e d) =
      subst (λ k. Perm (a.f ev ++ run_listeners ev xs) (k.f ev ++ run_listeners ev ys)) e
        (Perm.append_left (a.f ev) (run_listeners-permᴰ ev xs ys d))
  run_listeners-permᴰ ev ls ks (Permᴰ.swap {a} {b} {l = l} p q) =
      subst₂
        (λ x y.
          Perm (a.f ev ++ (b.f ev ++ run_listeners ev l))
            (y.f ev ++ (x.f ev ++ run_listeners ev l)))
        p q (swap_front (a.f ev) (b.f ev) (run_listeners ev l))
  run_listeners-permᴰ ev ls ks (Permᴰ.trans {l₂ = ms} d e) =
      Perm.trans (run_listeners-permᴰ ev ls ms d) (run_listeners-permᴰ ev ms ks e)

  -- Order does not matter to what a dispatch does, as often as each listener does it.
  run_listeners-perm :
      (ev : DownloadEvent) (ls ks : List (ListenerData E))
      → Perm ls ks
      → Perm (run_listeners ev ls) (run_listeners ev ks)
  run_listeners-perm ev ls ks p = ∥∥₁_elim p Perm-prop (run_listeners-permᴰ ev ls ks)

  -- A target and a registry that agree run the same listeners.
  pub dispatch-notify :
      {t : EventTarget E} {r : Registry E} (ty : EventType) (ev : DownloadEvent)
      → Refines t r
      → Perm (dispatch t ty ev) (notify r ty ev)
  unfolding dispatch notify
  dispatch-notify ty ev h = run_listeners-perm ev _ _ (h.perm ty)

  -- One call, from states that agree.
  step-SameAnswer :
      (t : EventTarget E) (r : Registry E) (c : Call E)
      → r.next + 1 < 2 ^ 64
      → Refines t r
      → Refines (target_step t c).0 (registry_step r c).0
        × SameAnswer (target_step t c).1 (registry_step r c).1
  unfolding target_step registry_step
  step-SameAnswer t r (subscribes ty f) room h = (
    subscribe-Refines ty f room h,
    unfold subscribe in ap (λ (n : ℕ). record { evt_type = ty; id = n }) h.next,
  )
  step-SameAnswer t r (unsubscribes u) room h =
      unfold call_unsubscribe in unsubscribe-Refines u.evt_type u.id h
  step-SameAnswer t r (dispatches ty ev) room h = (h, dispatch-notify ty ev h)

  next-registry_step : (r : Registry E) (c : Call E) → (registry_step r c).0.next ≤ r.next + 1
  unfolding registry_step register revoke
  next-registry_step r (subscribes ty f) = omega arith
  next-registry_step r (unsubscribes u) = omega arith
  next-registry_step r (dispatches ty ev) = omega arith

  run-SameAnswers :
      (t : EventTarget E) (r : Registry E) (cs : List (Call E))
      → r.next + length cs < 2 ^ 64
      → Refines t r
      → SameAnswers (target_run t cs) (registry_run r cs)
  unfolding target_run registry_run
  run-SameAnswers t r [] room h = tt
  run-SameAnswers t r (c ∷ cs) room h =
      let (h', same) = step-SameAnswer t r c (omega arith) h in
      (
        same,
        run-SameAnswers (target_step t c).0 (registry_step r c).0 cs
            (omega (arith, next-registry_step r c)) h',
      )

  pub new_target-Refines : Refines (new_target {E = E}) new_registry
  unfolding listeners of_type
  new_target-Refines = record { next = refl; perm = λ ty. Perm.nil; below = λ ty. tt }

  -- From a fresh target, fewer than 2^64 calls of Subscribe, of the closures that it returned (or
  -- of any other handle) and of Dispatch, in any order, have the answers of the registry: the same
  -- handles, the same Booleans, and in each Dispatch the effects of exactly the listeners that are
  -- subscribed to its type at that time, each once, in some order.
  pub target_run-SameAnswers :
      (cs : List (Call E))
      → length cs < 2 ^ 64
      → SameAnswers (target_run new_target cs) (registry_run new_registry cs)
  target_run-SameAnswers cs room =
      run-SameAnswers new_target new_registry cs (omega arith) new_target-Refines
