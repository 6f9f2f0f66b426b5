-- ===== src/Tags/Decimal.antt =====
-- Numbers in texts: strconv.FormatUint, ParseUint and ParseInt to the base 10.
use Prim.Native.Char.{Char, char, code}
use arigo.Base.{
  ℕ, zero, suc, ◌+◌, ◌-◌, ◌*◌, ◌/◌, ◌%◌, ◌<◌, ◌≡◌, refl, ap, ◌∙◌, String, Bool, true, ◌&&◌, Option,
  none, some, ltb, ◌==◌, if◌then◌else◌, arith, Bool-cases, inl, inr,
}
use arigo.Json.{ℤ, pos, negsuc}

unfoldable pub is_digit : ℕ → Bool
is_digit c = ltb 47 c && ltb c 58

-- The digit of a number below ten.
digit : ℕ → Char
digit zero = char 48 tt
digit (suc zero) = char 49 tt
digit (suc (suc zero)) = char 50 tt
digit (suc (suc (suc zero))) = char 51 tt
digit (suc (suc (suc (suc zero)))) = char 52 tt
digit (suc (suc (suc (suc (suc zero))))) = char 53 tt
digit (suc (suc (suc (suc (suc (suc zero)))))) = char 54 tt
digit (suc (suc (suc (suc (suc (suc (suc zero))))))) = char 55 tt
digit (suc (suc (suc (suc (suc (suc (suc (suc zero)))))))) = char 56 tt
digit _ = char 57 tt

code-digit : (d : ℕ) → d < 10 → code (digit d) ≡ 48 + d
unfolding digit
code-digit zero h = refl
code-digit (suc zero) h = refl
code-digit (suc (suc zero)) h = refl
code-digit (suc (suc (suc zero))) h = refl
code-digit (suc (suc (suc (suc zero)))) h = refl
code-digit (suc (suc (suc (suc (suc zero))))) h = refl
code-digit (suc (suc (suc (suc (suc (suc zero)))))) h = refl
code-digit (suc (suc (suc (suc (suc (suc (suc zero))))))) h = refl
code-digit (suc (suc (suc (suc (suc (suc (suc (suc zero)))))))) h = refl
code-digit (suc (suc (suc (suc (suc (suc (suc (suc (suc zero))))))))) h = refl
code-digit (suc (suc (suc (suc (suc (suc (suc (suc (suc (suc n)))))))))) h = absurd (omega arith)

-- The digits of a number before a text, on fuel above the number.
digits_before : ℕ → ℕ → String → String
unfolding digit
digits_before zero n s = s
digits_before (suc fuel) n s =
    let rest = digits_before fuel (n / 10) (String.◌∷◌ (digit (n % 10)) s) in
    if ltb n 10 then String.◌∷◌ (digit n) s else rest

unfoldable pub decimal : ℕ → String
unfolding digits_before
decimal n = digits_before (suc n) n ""

-- A text of digits, behind the digits of `n`.
unfoldable pub parse_digits : ℕ → String → Option ℕ
unfolding is_digit
parse_digits n String.[] = some n
parse_digits n (String.◌∷◌ c s) =
    let rest = parse_digits (n * 10 + (code c - 48)) s in if is_digit (code c) then rest else none

unfoldable pub parse_uint : String → Option ℕ
unfolding parse_digits
parse_uint String.[] = none
parse_uint (String.◌∷◌ c s) = parse_digits 0 (String.◌∷◌ c s)

abbrev pub negated : ℕ → ℤ
negated zero = pos 0
negated (suc n) = negsuc n

abbrev pub map_option {ℓ κ} : {A : Type ℓ} {B : Type κ} → (A → B) → Option A → Option B
map_option f none = none
map_option f (some a) = some (f a)

unfoldable pub parse_int : String → Option ℤ
unfolding parse_uint
parse_int String.[] = none
parse_int (String.◌∷◌ c s) =
    if code c == b'-'
    then map_option negated (parse_uint s)
    else map_option pos (parse_uint (if code c == b'+' then s else String.◌∷◌ c s))

digits_before-form :
    (fuel n : ℕ) (s : String)
    → n < fuel
    → (c : Char) × (t : String) × (digits_before fuel n s ≡ String.◌∷◌ c t)
      × (is_digit (code c) ≡ true)
unfolding digits_before is_digit
digits_before-form zero n s h = elim h [ ]
digits_before-form (suc fuel) n s h = elim (Bool-cases (ltb n 10)) [
  | inl e ↦ (digit n, s, rw e refl, ground (arith, code-digit n))
  | inr e ↦ rw e (digits_before-form fuel (n / 10) _ (ground arith))
]

pub decimal-form :
    (n : ℕ) → (c : Char) × (t : String) × (decimal n ≡ String.◌∷◌ c t) × (is_digit (code c) ≡ true)
unfolding decimal
decimal-form n = digits_before-form (suc n) n "" (omega arith)

is_digit-digit : (d : ℕ) → d < 10 → is_digit (code (digit d)) ≡ true
unfolding is_digit
is_digit-digit d h = rw (code-digit d h) (ground arith)

parse-digit :
    (m d : ℕ) (s : String)
    → d < 10
    → parse_digits m (String.◌∷◌ (digit d) s) ≡ parse_digits (m * 10 + d) s
unfolding parse_digits
parse-digit m d s h =
    rw (is_digit-digit d h) (ap (λ (k : ℕ). parse_digits k s) (omega (arith, code-digit d h)))

parse-digits_before :
    (fuel n : ℕ) (s : String)
    → n < fuel
    → parse_digits 0 (digits_before fuel n s) ≡ parse_digits n s
unfolding digits_before
parse-digits_before zero n s h = elim h [ ]
parse-digits_before (suc fuel) n s h = elim (Bool-cases (ltb n 10)) [
  | inl e ↦ rw e (parse-digit 0 n s (ground arith) ∙ ap (λ (k : ℕ). parse_digits k s) (omega arith))
  | inr e ↦
      rw e (parse-digits_before fuel (n / 10) _ (ground arith))
      ∙ parse-digit (n / 10) (n % 10) s (omega arith)
      ∙ ap (λ (k : ℕ). parse_digits k s) (omega arith)
]

pub parse-decimal : (n : ℕ) → parse_digits 0 (decimal n) ≡ some n
unfolding decimal parse_digits
parse-decimal n = parse-digits_before (suc n) n "" (omega arith)
