-- ===== src/Events/Handles.antt =====
-- The closure that one Subscribe returned, called later, and what the registry runs for a type.
use arigo.Base.{
  ℕ, ◌≡◌, ◌≢◌, ◌≤◌, refl, ap, subst, ◌∙◌, List, [], ◌∷◌, filter, ◌==◌, if◌then◌else◌, Bool-cases,
  inl, inr, ==_iff, arith,
}
use mathlib.Core.Logic.{if_pos, if_neg}
use arigo.Events.{EventType, EventListener, ListenerData, EventTarget, subscribe, call_unsubscribe}
use arigo.Events.Removal.{Below, other_id}
use arigo.Events.Registry.{
  Registry, revoke, of_type, drop_sub, of_type-drop_sub_self, of_type-drop_sub_ne,
}
use arigo.Events.Refinement.{Refines, unsubscribe-Refines}

module _ {E : Type 0} where
  pub unsubscribe_handle-Refines :
      {t₀ t : EventTarget E} {r₀ r : Registry E} (ty : EventType) (f : EventListener E)
      → Refines t₀ r₀
      → Refines t r
      → Refines (call_unsubscribe t (subscribe t₀ ty f).1).0 (revoke r ty r₀.next)
  unfolding subscribe call_unsubscribe
  unsubscribe_handle-Refines {t₀} {t} {r = r} ty f h₀ h =
      subst (λ id. Refines (call_unsubscribe t (subscribe t₀ ty f).1).0 (revoke r ty id)) h₀.next
        (unsubscribe-Refines ty t₀.current_id h).0

  -- A number that was not given out yet is no one's.
  filter-fresh :
      (n id : ℕ) (ls : List (ListenerData E)) → Below n ls → n ≤ id → filter (other_id id) ls ≡ ls
  filter-fresh n id [] h le = refl
  filter-fresh n id (l ∷ ls) h le =
      let other : l.id ≢ id = λ q. omega arith in
      rw (if_pos _ other) (ap (λ ks. l ∷ ks) (filter-fresh l.id id ls h.1 (omega arith)))

  -- What is left without the listener that got a new number.
  pub filter-newest :
      (n : ℕ) (l : ListenerData E) (ls : List (ListenerData E))
      → Below n ls
      → n ≤ l.id
      → filter (other_id l.id) (l ∷ ls) ≡ ls
  filter-newest n l ls h le =
      rw (if_neg _ (λ (ne : l.id ≢ l.id). ne refl)) (filter-fresh n l.id ls h le)

  pub of_type-revoke :
      (r : Registry E) (ty id ty' : ℕ)
      → of_type ty' (revoke r ty id).subs
        ≡ (if ty == ty' then filter (other_id id) (of_type ty' r.subs) else of_type ty' r.subs)
  unfolding revoke
  of_type-revoke r ty id ty' = elim (Bool-cases (ty == ty')) [
    | inl e ↦
        subst (λ k. of_type k (drop_sub ty id r.subs) ≡ filter (other_id id) (of_type k r.subs))
          ((==_iff ty ty').0 e) (of_type-drop_sub_self ty id r.subs)
        ∙ rw e refl
    | inr e ↦ rw e (of_type-drop_sub_ne ty id ty' r.subs (λ q. ground arith))
  ]
