-- ===== src/Events/Removal.antt =====
-- The slice operations of `unsubscribe`: what the swap with the last listener leaves.
use mathlib.Core.List.{Mem, Nodup, Nodup-cons, Nodup-nil, mem-map_of_mem, filter-eq_self, mem-cons}
use mathlib.Core.List.Perm
use arigo.Base.{
  ℕ, zero, suc, ◌≤◌, ◌<◌, ◌≡◌, ◌≢◌, refl, sym, subst, ◌∙◌, none, some, List, [], ◌∷◌, map, filter,
  Perm, arith, length, get_elem?, get_or, set, take, ℕ_discrete, ap,
}
use mathlib.Core.Logic.{if_pos, if_neg}
use mathlib.Core.Logic.Dec
use mathlib.Core.Logic.Or
use mathlib.Core.HLevel.{Π_prop, ⊥_prop}
use mathlib.Core.List.{not-mem-nil}
use arigo.Events.{ListenerData, find_listener, swap_remove}

abbrev pub other_id {ℓ} : {E : Type ℓ} (id : ℕ) (l : ListenerData E) → Dec (l.id ≢ id)
other_id id l = Dec.not (ℕ_discrete l.id id)

module _ {ℓ} {A : Type ℓ} where
  -- The last entry in front, and the rest behind it.
  last-init-perm :
      (x : A) (xs : List A) (d : A)
      → Perm (x ∷ xs) (get_or (x ∷ xs) (length xs) d ∷ take (length xs) (x ∷ xs))
  last-init-perm x [] d = Perm.rfl
  last-init-perm x (y ∷ ys) d = Perm.trans (Perm.cons x (last-init-perm y ys d)) (Perm.swap _ x _)

  get_or_default :
      (x : A) (xs : List A) (d e : A)
      → get_or (x ∷ xs) (length xs) d ≡ get_or (x ∷ xs) (length xs) e
  get_or_default x [] d e = refl
  get_or_default x (y ∷ ys) d e = get_or_default y ys d e

  -- The swap takes out the entry at the index and no other.
  pub swap_remove-perm :
      (xs : List A) (i : ℕ) (a : A) → get_elem? xs i ≡ some a → Perm xs (a ∷ swap_remove i xs)
  unfolding swap_remove
  swap_remove-perm [] i a e = cc
  swap_remove-perm (x ∷ []) zero a e = Perm.cons' (ground arith) Perm.rfl
  swap_remove-perm (x ∷ []) (suc i) a e = cc
  swap_remove-perm (x ∷ y ∷ ys) zero a e = Perm.cons' (ground arith) (last-init-perm y ys x)
  swap_remove-perm (x ∷ y ∷ ys) (suc i) a e =
      Perm.trans
        (Perm.cons x (
          subst (λ v. Perm (y ∷ ys) (a ∷ take (length ys) (set (y ∷ ys) i v)))
            (get_or_default y ys y x) (swap_remove-perm (y ∷ ys) i a e)))
        (Perm.swap a x _)

module _ {ℓ} {E : Type ℓ} where
  -- A found index holds a listener of the id.
  pub find_listener-get_elem? :
      (id : ℕ) (ls : List (ListenerData E)) (i : ℕ)
      → find_listener id ls ≡ some i
      → (l : ListenerData E) × (get_elem? ls i ≡ some l) × (l.id ≡ id)
  unfolding find_listener
  find_listener-get_elem? id [] i e = cc
  find_listener-get_elem? id (l ∷ ls) zero e = (l, refl, ground arith)
  find_listener-get_elem? id (l ∷ ls) (suc i) e = find_listener-get_elem? id ls i (ground arith)

  -- With no index found, no listener has the id.
  pub find_listener-none :
      (id : ℕ) (ls : List (ListenerData E)) (l : ListenerData E)
      → find_listener id ls ≡ none
      → Mem l ls
      → l.id ≢ id
  unfolding find_listener
  find_listener-none id [] l e m = absurd (not-mem-nil m)
  find_listener-none id (x ∷ ls) l e m =
      Or.elim (Π_prop λ _. ⊥_prop) (mem-cons.0 m)
        (λ q h. ground (arith, ap (λ (k : ListenerData E). k.id) q))
        (find_listener-none id ls l (ground arith))

  -- Newest first: ids fall along the list and stay under the bound.
  abbrev pub Below : ℕ → List (ListenerData E) → Type 0
  Below n [] = Unit
  Below n (l ∷ ls) = (l.id < n) × Below l.id ls

  pub Below-mono : {m n : ℕ} (ls : List (ListenerData E)) → m ≤ n → Below m ls → Below n ls
  Below-mono [] h b = tt
  Below-mono (l ∷ ls) h b = (omega arith, b.1)

  abbrev pub ids : List (ListenerData E) → List ℕ
  ids = map λ l. l.id

  not-mem-ids :
      (n : ℕ) (ls : List (ListenerData E)) → Below n ls → (k : ℕ) → n ≤ k → ¬ Mem k (ids ls)
  not-mem-ids n [] b k h m = not-mem-nil m
  not-mem-ids n (l ∷ ls) b k h m =
      Or.elim ⊥_prop (mem-cons.0 m) (λ q. omega arith) (not-mem-ids l.id ls b.1 k (omega arith))

  Below-Nodup : (n : ℕ) (ls : List (ListenerData E)) → Below n ls → Nodup (ids ls)
  Below-Nodup n [] b = Nodup-nil
  Below-Nodup n (l ∷ ls) b =
      Nodup-cons.1 (not-mem-ids l.id ls b.1 l.id (omega arith), Below-Nodup l.id ls b.1)

  -- A removal of the found listener is the removal of the id, up to order.
  -- In a list of distinct ids a listener is the only one of its id.
  filter-cons_self :
      (n id : ℕ) (l : ListenerData E) (rest ks : List (ListenerData E))
      → Below n ks
      → Perm (l ∷ rest) ks
      → l.id ≡ id
      → filter (other_id id) (l ∷ rest) ≡ rest
  filter-cons_self n id l rest ks b p q = rw (if_neg _ (λ (ne : l.id ≢ id). ne q)) kept
    where
      alone : ¬ Mem l.id (ids rest)
      alone = (Nodup-cons.0 (Perm.nodup (Perm.map _ (Perm.symm p)) (Below-Nodup n ks b))).0

      kept : filter (other_id id) rest ≡ rest
      kept =
          (filter-eq_self (other_id id)).1
            (λ k m h. alone (subst (λ x. Mem x (ids rest)) (h ∙ sym q) (mem-map_of_mem _ m)))

  -- A removal of the found listener is the removal of the id, up to order.
  pub swap_remove-filter :
      (n id i : ℕ) (ls ks : List (ListenerData E))
      → Below n ks
      → Perm ls ks
      → find_listener id ls ≡ some i
      → Perm (swap_remove i ls) (filter (other_id id) ks)
  swap_remove-filter n id i ls ks b p e =
      let (l, g, q) = find_listener-get_elem? id ls i e in
      let r = Perm.trans (Perm.symm (swap_remove-perm ls i l g)) p in
      subst (λ x. Perm x (filter (other_id id) ks)) (filter-cons_self n id l _ ks b r q)
        (Perm.filter (other_id id) r)

  pub find_listener-none-filter :
      (id : ℕ) (ls ks : List (ListenerData E))
      → Perm ls ks
      → find_listener id ls ≡ none
      → filter (other_id id) ks ≡ ks
  find_listener-none-filter id ls ks p e =
      (filter-eq_self (other_id id)).1 (λ l m. find_listener-none id ls l e ((Perm.mem_iff p).1 m))

  pub filter-Below :
      (n id : ℕ) (ls : List (ListenerData E)) → Below n ls → Below n (filter (other_id id) ls)
  filter-Below n id [] b = tt
  filter-Below n id (l ∷ ls) b = elim (other_id id l) [
    | yes p ↦ rw (if_pos _ p) (b.0, filter-Below l.id id ls b.1)
    | no p ↦
        rw (if_neg _ p)
          (Below-mono (filter (other_id id) ls) (omega arith) (filter-Below l.id id ls b.1))
  ]
