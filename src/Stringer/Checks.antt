-- ===== src/Stringer/Checks.antt =====
-- The checks that stringer wrote for its constants: the values behind the generated names.
use arigo.Base.{
  ℕ, suc, ◌+◌, ◌≡◌, ◌↔◌, refl, ap, ◌∙◌, Bool, true, false, ◌&&◌, ◌||◌, not, ltb, ◌==◌, List, [],
  ◌∷◌, length, arith, Option, some, String, get_elem?, Bool-cases, inl, inr,
}
use arigo.Events.{EventType}
use arigo.Events.Names.{event_type_string, event_type_checks}
use arigo.ExitStatus.{ExitStatus, exit_status_string, exit_status_checks}
use arigo.Stringer.{compiles}
use arigo.Stringer.Names.{
  event_types, exit_statuses, constant_or_number, generated_strings, get_elem?-some, get_elem?-none,
}

-- A constant of this value is checked.
abbrev pub is_checked : ℕ → List (ℕ × ℕ) → Bool
is_checked v [] = false
is_checked v ((c, n) ∷ checks) = c == v || is_checked v checks

abbrev in_order : ℕ → List (ℕ × ℕ) → Bool
in_order k [] = true
in_order k ((c, n) ∷ checks) = c == k && in_order (suc k) checks

in_order-checked :
    (v k : ℕ) (checks : List (ℕ × ℕ))
    → in_order k checks ≡ true
    → is_checked v checks ≡ (not (ltb v k) && ltb v (k + length checks))
in_order-checked v k [] h = ground arith
in_order-checked v k ((c, n) ∷ checks) h =
    rw (in_order-checked v (suc k) checks (ground (arith, h))) (ground (arith, h))

-- Where the constants are in the order of the names, and String has a name or else the number.
checked-named :
    (typ : String) (names : List String) (checks : List (ℕ × ℕ)) (v : ℕ) (text : Option String)
    → in_order 0 checks ≡ true
    → length checks ≡ length names
    → text ≡ some (constant_or_number typ v (get_elem? names v))
    → (is_checked v checks ≡ true) ↔ ((n : String) × (get_elem? names v ≡ some n) × (text ≡ some n))
checked-named typ names checks v text h l e =
    let below = in_order-checked v 0 checks h in
    (
      λ q.
          let (n, found) = get_elem?-some names v (ground (arith, below, q, l)) in
          (n, found, e ∙ ap (λ o. some (constant_or_number typ v o)) found),
      λ (n, found, _). elim (Bool-cases (ltb v (length names))) [
        | inl q ↦ ground (arith, below, q, l)
        | inr q ↦ let missing = get_elem?-none names v (ground (arith, q)) in cc
      ],
    )

-- String of an EventType and of an ExitStatus never panics: it gives the name of the constant for
-- each of the six events and each of the 32 exit statuses, and for every other value the type with
-- the number in parentheses. The checks that stringer wrote with them compile, and a value is that of
-- a constant which they name exactly if String gives the name of a constant for it.
pub generated_code :
    (i : EventType) (s : ExitStatus)
    → (event_type_string i ≡ some (constant_or_number "EventType" i (get_elem? event_types i)))
      × (exit_status_string s
          ≡ some (constant_or_number "ExitStatus" s (get_elem? exit_statuses s)))
      × (compiles event_type_checks ≡ true)
      × (compiles exit_status_checks ≡ true)
      × ((is_checked i event_type_checks ≡ true)
          ↔ ((n : String) × (get_elem? event_types i ≡ some n) × (event_type_string i ≡ some n)))
      × ((is_checked s exit_status_checks ≡ true)
          ↔ ((n : String) × (get_elem? exit_statuses s ≡ some n) × (exit_status_string s ≡ some n)))
unfolding compiles
generated_code i s =
    let (named, status_named) = generated_strings i s in
    (
      named,
      status_named,
      refl,
      refl,
      checked-named "EventType" event_types event_type_checks i _ refl refl named,
      checked-named "ExitStatus" exit_statuses exit_status_checks s _ refl refl status_named,
    )
