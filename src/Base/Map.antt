-- ===== src/Base/Map.antt =====
-- Go's `map[K]V` at a number for a key, as an association list. `delete` of a missing key does
-- nothing, and a put replaces the old binding.
use mathlib.Core.Path.{◌≡◌, refl, ap, ◌∙◌}
use mathlib.Core.Option.{Option, none, some}
use mathlib.Core.List.{List, [], ◌∷◌}
use Prim.Native.Nat.{ℕ}
use native.Mathlib.Omega.{arith}
use arigo.Base.Tests.{◌==◌, if◌then◌else◌, ==_iff}

pub record Map {ℓ} (V : Type ℓ) : Type ℓ where
  entries : List (ℕ × V)

module _ {ℓ} {V : Type ℓ} where
  lookup : ℕ → List (ℕ × V) → Option V
  lookup k [] = none
  lookup k ((j, v) ∷ m) = if j == k then some v else lookup k m

  without : ℕ → List (ℕ × V) → List (ℕ × V)
  without k [] = []
  without k ((j, v) ∷ m) = let rest = without k m in if j == k then rest else (j, v) ∷ rest

  lookup-without :
      (k j : ℕ) (m : List (ℕ × V)) → lookup j (without k m) ≡ (if k == j then none else lookup j m)
  unfolding lookup without
  lookup-without k j [] = ground arith
  lookup-without k j ((i, v) ∷ m) = ground (arith, lookup-without k j m)

  -- make(map[K]V)
  unfoldable pub empty : Map V
  empty = record { entries = [] }

  -- v, ok := m[k]
  unfoldable pub get : ℕ → Map V → Option V
  unfolding lookup
  get k m = lookup k m.entries

  -- delete(m, k)
  unfoldable pub delete : ℕ → Map V → Map V
  unfolding without
  delete k m = record { entries = without k m.entries }

  -- m[k] = v
  unfoldable pub put : ℕ → V → Map V → Map V
  unfolding without
  put k v m = record { entries = (k, v) ∷ without k m.entries }

  pub get-delete : (k j : ℕ) (m : Map V) → get j (delete k m) ≡ (if k == j then none else get j m)
  unfolding get delete
  get-delete k j m = lookup-without k j m.entries

  pub get-put :
      (k j : ℕ) (v : V) (m : Map V) → get j (put k v m) ≡ (if k == j then some v else get j m)
  unfolding get put
  get-put k j v m = simp lookup-without (ground arith)

module _ {ℓ} {V : Type ℓ} where
  pub get-put_self : (k : ℕ) (v : V) (m : Map V) → get k (put k v m) ≡ some v
  get-put_self k v m =
      get-put k k v m ∙ ap (λ b. if b then some v else get k m) ((==_iff k k).1 refl)

  pub get-delete_self : (k : ℕ) (m : Map V) → get k (delete k m) ≡ none
  get-delete_self k m =
      get-delete k k m ∙ ap (λ b. if b then none else get k m) ((==_iff k k).1 refl)

pub get-empty {ℓ} : {V : Type ℓ} (k : ℕ) → get k (empty {V = V}) ≡ none
unfolding get empty
get-empty k = refl

pub ruleset map_laws = (get-empty, get-delete, get-put)
