-- ===== src/Tags/Entries.antt =====
-- What is written under each key of a struct.
use text.Mathlib.Text.{◌==◌ as str_eq}
use text.Mathlib.TextEquality.{eq_iff}
use text.Mathlib.TextPositions.{eq_refl}
use arigo.Base.{
  ◌≡◌, refl, String, true, false, Option, none, some, List, [], ◌∷◌, All, All-map_both,
  if◌then◌else◌, arith, Bool-cases, Option-cases, inl, inr,
}
use arigo.Json.{Json, Fields, end, field}
use arigo.Tags.{Member, exact_member, members_json}
use arigo.Tags.Members.{distinct}

-- The first value of an object under a key.
pub entry : String → Fields → Option Json
entry key end = none
entry key (field k v fs) = let rest = entry key fs in if str_eq key k then some v else rest

str_eq_comm : (s t : String) → str_eq s t ≡ false → str_eq t s ≡ false
str_eq_comm s t h = ground (arith, h, eq_iff s t, eq_iff t s)

module _ {S : Type 0} where
  abbrev Written : List (Member S) → S → Member S → Type 0
  Written ms s m =
      entry m.key (members_json ms s) ≡ (if m.omits s then none else some (m.member_json s))

  exact_member-none :
      (key : String) (ms : List (Member S))
      → exact_member key ms ≡ none
      → All (λ k. str_eq k.key key ≡ false) ms
  unfolding exact_member
  exact_member-none key [] h = tt
  exact_member-none key (m ∷ ms) h = elim (Bool-cases (str_eq m.key key)) [
    | inl q ↦ absurd (ground (arith, q, h))
    | inr q ↦ (q, exact_member-none key ms (ground (arith, q, h)))
  ]

  entry-none :
      (key : String) (s : S) (ms : List (Member S))
      → exact_member key ms ≡ none
      → entry key (members_json ms s) ≡ none
  unfolding exact_member members_json entry
  entry-none key s [] h = refl
  entry-none key s (m ∷ ms) h =
      let all = exact_member-none key (m ∷ ms) h in
      let later = entry-none key s ms (rw all.0 at h) in
      elim (Bool-cases (m.omits s)) [
        | inl o ↦ rw (o, members_json) later
        | inr o ↦ rw (o, members_json) (rw (str_eq_comm m.key key all.0) later)
      ]

  distinct-head :
      (m : Member S) (ms : List (Member S))
      → distinct (m ∷ ms) ≡ true
      → (exact_member m.key ms ≡ none) × (distinct ms ≡ true)
  distinct-head m ms h = elim (Option-cases (exact_member m.key ms)) [
    | inl e ↦ (e, ground (arith, h))
    | inr (k, e) ↦ absurd (ground (arith, h, e))
  ]

  -- Behind a field of another key, or one that is left out.
  Written-cons :
      (m : Member S) (ms : List (Member S)) (s : S) (k : Member S)
      → str_eq k.key m.key ≡ false
      → Written ms s k
      → Written (m ∷ ms) s k
  unfolding members_json entry
  Written-cons m ms s k apart h = elim (Bool-cases (m.omits s)) [
    | inl o ↦ rw (o, members_json) h
    | inr o ↦ rw (o, members_json) (rw apart h)
  ]

  -- Each field is written under its key, unless it is left out.
  pub members_json-entry :
      (ms : List (Member S)) (s : S)
      → distinct ms ≡ true
      → All
          (λ m.
            entry m.key (members_json ms s) ≡ (if m.omits s then none else some (m.member_json s)))
          ms
  unfolding members_json entry
  members_json-entry [] s h = tt
  members_json-entry (m ∷ ms) s h =
      let (absent, d) = distinct-head m ms h in
      (
        elim (Bool-cases (m.omits s)) [
          | inl o ↦ rw (o, members_json) (entry-none m.key s ms absent)
          | inr o ↦ rw (o, members_json) (rw (eq_refl m.key) refl)
        ],
        All-map_both (λ k. str_eq k.key m.key ≡ false) (Written ms s) (Written (m ∷ ms) s)
            (Written-cons m ms s) ms (exact_member-none m.key ms absent)
            (members_json-entry ms s d),
      )
