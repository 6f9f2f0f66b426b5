-- ===== src/Events/Refinement.antt =====
-- The event target against the registry: every history of calls has the same results.
use mathlib.Core.List.{mem-cons_self, perm_append_singleton}
use mathlib.Core.List.Perm
use arigo.Base.{
  ℕ, ◌+◌, ◌^◌, ◌<◌, ◌≡◌, sym, ap, subst, true, false, none, some, Option-cases, List, [], ◌∷◌, ◌++◌,
  Perm, arith, ◌==◌, if◌then◌else◌, length, inl, inr, Bool-cases, ==_iff,
}
use arigo.Base.Map
use arigo.Base.Map.{Map, map_laws}
use arigo.Events.{
  EventListener, ListenerData, EventTarget, or_nil, listeners, find_listener, swap_remove,
  unsubscribe, subscribe, store_listeners, made,
}
use arigo.Events.Removal.{
  Below, Below-mono, filter-Below, swap_remove-filter, swap_remove-perm, find_listener-none-filter,
  find_listener-none, find_listener-get_elem?,
}
use arigo.Events.Registry.{
  Registry, of_type, drop_sub, is_active, register, revoke, of_type-drop_sub_self,
  of_type-drop_sub_ne, of_type-register, is_active-true, is_active-false,
}

module _ {E : Type 0} where
  -- The target holds what the registry holds, each type in some order.
  pub record Refines (t : EventTarget E) (r : Registry E) : Type 0 where
    pub next : t.current_id ≡ r.next
    pub perm : (ty : ℕ) → Perm (listeners t ty) (of_type ty r.subs)
    pub below : (ty : ℕ) → Below r.next (of_type ty r.subs)

  -- Reads of the target after each write.
  listeners-store :
      (t : EventTarget E) (ty j : ℕ) (m : Map (List (ListenerData E))) (ls : List (ListenerData E))
      → t.listener_map ≡ some m
      → listeners (record t { listener_map = some (store_listeners ty ls m) }) j
        ≡ (if ty == j then ls else listeners t j)
  unfolding listeners store_listeners
  listeners-store t ty j m [] e = simp map_laws (ground arith)
  listeners-store t ty j m (l ∷ ls) e = simp map_laws (ground arith)

  made-get : (t : EventTarget E) (j : ℕ) → or_nil (Map.get j (made t.listener_map)) ≡ listeners t j
  unfolding made listeners
  made-get t j = elim (Option-cases t.listener_map) [
    | inl e ↦ rw (e, made) (simp map_laws (ground arith))
    | inr (m, e) ↦ rw (e, made) (ground arith)
  ]

  pub listeners-subscribe :
      (t : EventTarget E) (ty j : ℕ) (f : EventListener E)
      → listeners (subscribe t ty f).0 j ≡ (
          if ty == j
          then listeners t ty ++ record { f = f; id = t.current_id } ∷ []
          else listeners t j)
  unfolding listeners subscribe
  listeners-subscribe t ty j f = simp map_laws (ground (arith, made-get t ty, made-get t j))

  -- What `unsubscribe` does to the listeners of every type, and what it returns.
  pub unsubscribe-none :
      (t : EventTarget E) (ty id : ℕ)
      → find_listener id (listeners t ty) ≡ none
      → unsubscribe t ty id ≡ (t, false)
  unfolding listeners unsubscribe find_listener
  unsubscribe-none t ty id e = elim (Option-cases t.listener_map) [
    | inl q ↦ ground arith
    | inr (m, q) ↦ ground arith
  ]

  length-found :
      (id i : ℕ) (ls : List (ListenerData E)) → find_listener id ls ≡ some i → 0 < length ls
  unfolding find_listener
  length-found id i [] e = cc
  length-found id i (l ∷ ls) e = omega arith

  pub unsubscribe-some :
      (t : EventTarget E) (ty id i : ℕ)
      → find_listener id (listeners t ty) ≡ some i
      → (m : Map (List (ListenerData E))) × (t.listener_map ≡ some m)
        × (unsubscribe t ty id ≡ (
          record t { listener_map = some (store_listeners ty (swap_remove i (listeners t ty)) m) },
          true,
        ))
  unfolding listeners unsubscribe find_listener
  unsubscribe-some t ty id i e = elim (Option-cases t.listener_map) [
    | inl q ↦ absurd (ground arith)
    | inr (m, q) ↦ (m, q, ground (arith, length-found id i (or_nil (Map.get ty m))))
  ]

  -- The new listener goes to the end of its slice, and the newest id stays the greatest.
  subscribe-perm :
      (t : EventTarget E) (r : Registry E) (ty j : ℕ) (f : EventListener E)
      → Refines t r
      → Perm (listeners (subscribe t ty f).0 j) (of_type j (register r ty f).subs)
  subscribe-perm t r ty j f h =
      rw (listeners-subscribe, of_type-register)
        (elim (Bool-cases (ty == j)) [
          | inl e ↦ rw e (
              subst
                (λ k.
                  Perm (listeners t k ++ record { f = f; id = t.current_id } ∷ [])
                    (record { f = f; id = r.next } ∷ of_type j r.subs))
                (sym ((==_iff ty j).0 e))
                (Perm.trans (perm_append_singleton _ _)
                  (Perm.cons' (ap (λ n. record { f = f; id = n }) h.next) (h.perm j))))
          | inr e ↦ rw e (h.perm j)
        ])

  subscribe-Below :
      (t : EventTarget E) (r : Registry E) (ty j : ℕ) (f : EventListener E)
      → Refines t r
      → Below (r.next + 1) (of_type j (register r ty f).subs)
  subscribe-Below t r ty j f h = rw of_type-register (elim (Bool-cases (ty == j)) [
    | inl e ↦ rw e (omega arith, h.below j)
    | inr e ↦ rw e (Below-mono (of_type j r.subs) (omega arith) (h.below j))
  ])

  current_id-subscribe :
      (t : EventTarget E) (r : Registry E) (ty : ℕ) (f : EventListener E)
      → r.next + 1 < 2 ^ 64
      → Refines t r
      → (subscribe t ty f).0.current_id ≡ r.next + 1
  unfolding subscribe
  current_id-subscribe t r ty f room h = omega (arith, h.next)

  pub subscribe-Refines :
      {t : EventTarget E} {r : Registry E} (ty : ℕ) (f : EventListener E)
      → r.next + 1 < 2 ^ 64
      → Refines t r
      → Refines (subscribe t ty f).0 (register r ty f)
  unfolding register
  subscribe-Refines {t} {r} ty f room h = record {
    next = current_id-subscribe t r ty f room h;
    perm = λ j. subscribe-perm t r ty j f h;
    below = λ j. subscribe-Below t r ty j f h;
  }

  -- The registry after a revocation that finds something, and after one that does not.
  revoke-Below :
      (r : Registry E) (ty id j : ℕ)
      → Below r.next (of_type j r.subs)
      → Below r.next (of_type j (drop_sub ty id r.subs))
  revoke-Below r ty id j b = elim (Bool-cases (ty == j)) [
    | inl e ↦
        subst (λ k. Below r.next (of_type k (drop_sub ty id r.subs))) ((==_iff ty j).0 e)
          (rw of_type-drop_sub_self (
            filter-Below r.next id (of_type ty r.subs)
              (subst (λ k. Below r.next (of_type k r.subs)) (sym ((==_iff ty j).0 e)) b)))
    | inr e ↦ rw (of_type-drop_sub_ne ty id j r.subs (λ q. ground arith)) b
  ]

  missed-Refines :
      (t : EventTarget E) (r : Registry E) (ty id : ℕ)
      → find_listener id (listeners t ty) ≡ none
      → Refines t r
      → Refines t (revoke r ty id)
  unfolding revoke
  missed-Refines t r ty id q h = record {
    next = h.next;
    perm = λ j. elim (Bool-cases (ty == j)) [
      | inl e ↦
          subst (λ k. Perm (listeners t k) (of_type k (drop_sub ty id r.subs))) ((==_iff ty j).0 e)
            (rw (of_type-drop_sub_self, find_listener-none-filter id _ _ (h.perm ty) q) (h.perm ty))
      | inr e ↦ rw (of_type-drop_sub_ne ty id j r.subs (λ q'. ground arith)) (h.perm j)
    ];
    below = λ j. revoke-Below r ty id j (h.below j);
  }

  removed-Refines :
      (t : EventTarget E) (r : Registry E) (ty id i : ℕ) (m : Map (List (ListenerData E)))
      → t.listener_map ≡ some m
      → find_listener id (listeners t ty) ≡ some i
      → Refines t r
      → Refines
          (record t { listener_map = some (store_listeners ty (swap_remove i (listeners t ty)) m) })
          (revoke r ty id)
  unfolding revoke
  removed-Refines t r ty id i m e q h = record {
    next = h.next;
    perm = λ j. rw (listeners-store t ty j m _ e) (elim (Bool-cases (ty == j)) [
      | inl c ↦ rw c (
          subst (λ k. Perm (swap_remove i (listeners t ty)) (of_type k (drop_sub ty id r.subs)))
            ((==_iff ty j).0 c)
            (rw of_type-drop_sub_self
              (swap_remove-filter r.next id i _ _ (h.below ty) (h.perm ty) q)))
      | inr c ↦ rw (c, of_type-drop_sub_ne ty id j r.subs (λ q'. ground arith)) (h.perm j)
    ]);
    below = λ j. revoke-Below r ty id j (h.below j);
  }

  pub unsubscribe-Refines :
      {t : EventTarget E} {r : Registry E} (ty id : ℕ)
      → Refines t r
      → Refines (unsubscribe t ty id).0 (revoke r ty id)
        × ((unsubscribe t ty id).1 ≡ is_active ty id r.subs)
  unsubscribe-Refines {t} {r} ty id h = elim (Option-cases (find_listener id (listeners t ty))) [
    | inl q ↦ rw (unsubscribe-none t ty id q) (
      missed-Refines t r ty id q h,
      sym (
          is_active-false ty id r.subs
            λ l m. find_listener-none id (listeners t ty) l q ((Perm.mem_iff (h.perm ty)).1 m)),
    )
    | inr (i, q) ↦
        let (m, e, u) = unsubscribe-some t ty id i q in
        let (l, g, k) = find_listener-get_elem? id (listeners t ty) i q in
        rw u (
          removed-Refines t r ty id i m e q h,
          sym (
              is_active-true ty id r.subs l
                ((Perm.mem_iff (h.perm ty)).0
                  ((Perm.mem_iff (swap_remove-perm _ i l g)).1 mem-cons_self))
                k),
        )
  ]
