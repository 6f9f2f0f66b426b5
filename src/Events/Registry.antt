-- ===== src/Events/Registry.antt =====
-- What an event target promises: a set of subscriptions, newest first, without the map and the
-- slices of events.go.
use mathlib.Core.Bool.{Bool-set}
use mathlib.Core.List.{Mem, mem-cons, mem-cons_self, mem-cons_of_mem, not-mem-nil}
use mathlib.Core.Logic.Or
use arigo.Base.{
  ℕ, ◌+◌, ◌≡◌, ◌≢◌, refl, ap, Bool, true, false, ◌&&◌, ◌||◌, List, [], ◌∷◌, filter, arith, ◌==◌,
  if◌then◌else◌, Bool-cases, inl, inr,
}
use arigo.Events.{EventType, DownloadEvent, EventListener, ListenerData, run_listeners}
use arigo.Events.Removal.{other_id}

pub record Subscription {ℓ} (E : Type ℓ) : Type ℓ where
  pub evt_type : EventType
  pub listener : ListenerData E

pub record Registry {ℓ} (E : Type ℓ) : Type ℓ where
  pub subs : List (Subscription E)
  pub next : ℕ

module _ {ℓ} {E : Type ℓ} where
  abbrev pub new_registry : Registry E
  new_registry = record { subs = []; next = 0 }

  -- The listeners of one type.
  unfoldable pub of_type : EventType → List (Subscription E) → List (ListenerData E)
  of_type ty [] = []
  of_type ty (s ∷ ss) =
      let rest = of_type ty ss in if s.evt_type == ty then s.listener ∷ rest else rest

  abbrev is_sub : EventType → ℕ → Subscription E → Bool
  is_sub ty id s = s.evt_type == ty && s.listener.id == id

  pub drop_sub : EventType → ℕ → List (Subscription E) → List (Subscription E)
  drop_sub ty id [] = []
  drop_sub ty id (s ∷ ss) =
      let rest = drop_sub ty id ss in if is_sub ty id s then rest else s ∷ rest

  pub is_active : EventType → ℕ → List (Subscription E) → Bool
  is_active ty id [] = false
  is_active ty id (s ∷ ss) = is_sub ty id s || is_active ty id ss

  unfoldable pub register : Registry E → EventType → EventListener E → Registry E
  register r ty f = record {
    subs = record { evt_type = ty; listener = record { f = f; id = r.next } } ∷ r.subs;
    next = r.next + 1;
  }

  unfoldable pub revoke : Registry E → EventType → ℕ → Registry E
  revoke r ty id = record r { subs = drop_sub ty id r.subs }

  unfoldable pub notify : Registry E → EventType → DownloadEvent → List E
  notify r ty ev = run_listeners ev (of_type ty r.subs)

module _ {E : Type 0} where
  pub of_type-drop_sub_self :
      (ty id : ℕ) (ss : List (Subscription E))
      → of_type ty (drop_sub ty id ss) ≡ filter (other_id id) (of_type ty ss)
  unfolding of_type drop_sub
  of_type-drop_sub_self ty id [] = refl
  of_type-drop_sub_self ty id (s ∷ ss) = ground (arith, of_type-drop_sub_self ty id ss)

  pub of_type-drop_sub_ne :
      (ty id : ℕ) (ty' : ℕ) (ss : List (Subscription E))
      → ty ≢ ty'
      → of_type ty' (drop_sub ty id ss) ≡ of_type ty' ss
  unfolding of_type drop_sub
  of_type-drop_sub_ne ty id ty' [] ne = refl
  of_type-drop_sub_ne ty id ty' (s ∷ ss) ne = ground (arith, of_type-drop_sub_ne ty id ty' ss)

  pub is_active-true :
      (ty id : ℕ) (ss : List (Subscription E)) (l : ListenerData E)
      → Mem l (of_type ty ss)
      → l.id ≡ id
      → is_active ty id ss ≡ true
  unfolding of_type is_active
  is_active-true ty id [] l m e = absurd (not-mem-nil m)
  is_active-true ty id (s ∷ ss) l m e = elim (Bool-cases (s.evt_type == ty)) [
    | inl q ↦
        Or.elim (Bool-set _ _) (mem-cons.0 (rw q at m))
          (λ h. ground (arith, ap (λ (k : ListenerData E). k.id) h))
          (λ h. ground (arith, is_active-true ty id ss l h e))
    | inr q ↦ rw q (is_active-true ty id ss l (rw q at m) e)
  ]

  pub is_active-false :
      (ty id : ℕ) (ss : List (Subscription E))
      → ((l : ListenerData E) → Mem l (of_type ty ss) → l.id ≢ id)
      → is_active ty id ss ≡ false
  unfolding of_type is_active
  is_active-false ty id [] h = refl
  is_active-false ty id (s ∷ ss) h = elim (Bool-cases (s.evt_type == ty)) [
    | inl q ↦
        let first : s.listener.id ≢ id = h s.listener (rw q mem-cons_self) in
        let later : is_active ty id ss ≡ false =
          is_active-false ty id ss (λ l m. h l (rw q (mem-cons_of_mem _ m))) in
        ground (arith, later)
    | inr q ↦ rw q (is_active-false ty id ss (rw q at h))
  ]

  pub of_type-register :
      (r : Registry E) (ty j : ℕ) (f : EventListener E)
      → of_type j (register r ty f).subs
        ≡ (if ty == j then record { f = f; id = r.next } ∷ of_type j r.subs else of_type j r.subs)
  unfolding of_type register
  of_type-register r ty j f = refl

  pub is_active-drop_sub :
      (ty id : ℕ) (ss : List (Subscription E)) → is_active ty id (drop_sub ty id ss) ≡ false
  unfolding is_active drop_sub
  is_active-drop_sub ty id [] = refl
  is_active-drop_sub ty id (s ∷ ss) = ground (arith, is_active-drop_sub ty id ss)
