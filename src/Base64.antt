-- ===== src/Base64.antt =====
-- base64.StdEncoding of Go's encoding/base64, with which client.go writes the contents of a file, and
-- a decoder of the format for what its text means.
use Prim.Native.Char.{Char, char, code}
use arigo.Base.{
  ℕ, zero, suc, ◌+◌, ◌-◌, ◌*◌, ◌/◌, ◌%◌, ◌<◌, ◌≡◌, not, refl, ap, String, Bool, true, false, ◌&&◌,
  Option, none, some, List, [], ◌∷◌, All, ltb, ◌==◌, if◌then◌else◌, arith, subst, Bool-cases, inl,
  inr,
}

abbrev char_at : String → ℕ → Char
char_at String.[] i = char b'=' tt
char_at (String.◌∷◌ c s) zero = c
char_at (String.◌∷◌ c s) (suc i) = char_at s i

-- The character of a number below 64.
letter : ℕ → Char
letter i = char_at "ABCDEFGHIJKLMNOPQRSTUVWXYZabcdefghijklmnopqrstuvwxyz0123456789+/" i

abbrev letters : ℕ → ℕ → String → String
letters i j s = String.◌∷◌ (letter i) (String.◌∷◌ (letter j) s)

-- Three bytes are four characters; what is left at the end is padded.
unfoldable pub encode_to_string : List ℕ → String
unfolding letter
encode_to_string [] = ""
encode_to_string (a ∷ []) = letters (a / 4) (a % 4 * 16) "=="
encode_to_string (a ∷ b ∷ []) =
    letters (a / 4) (a % 4 * 16 + b / 16) (String.◌∷◌ (letter (b % 16 * 4)) "=")
encode_to_string (a ∷ b ∷ c ∷ bytes) =
    letters (a / 4) (a % 4 * 16 + b / 16)
      (letters (b % 16 * 4 + c / 64) (c % 64) (encode_to_string bytes))

-- The number of a character.
value : Char → Option ℕ
value c =
    if ltb 64 (code c) && ltb (code c) 91
    then some (code c - 65)
    else if ltb 96 (code c) && ltb (code c) 123
    then some (code c - 71)
    else if ltb 47 (code c) && ltb (code c) 58
    then some (code c + 4)
    else if code c == b'+'
    then some 62
    else if code c == b'/'
    then some 63
    else none

abbrev one : Option ℕ → Option ℕ → Option (List ℕ)
one (some i) (some j) = some ((i * 4 + j / 16) ∷ [])
one _ _ = none

abbrev two : Option ℕ → Option ℕ → Option ℕ → Option (List ℕ)
two (some i) (some j) (some k) = some ((i * 4 + j / 16) ∷ (j % 16 * 16 + k / 4) ∷ [])
two _ _ _ = none

abbrev three : Option ℕ → Option ℕ → Option ℕ → Option ℕ → Option (List ℕ) → Option (List ℕ)
three (some i) (some j) (some k) (some l) (some bytes) =
    some ((i * 4 + j / 16) ∷ (j % 16 * 16 + k / 4) ∷ (k % 4 * 64 + l) ∷ bytes)
three _ _ _ _ _ = none

abbrev only : String → Option (List ℕ) → Option (List ℕ)
only String.[] o = o
only (String.◌∷◌ c s) o = none

-- The bytes that a text stands for, if it is of the format.
unfoldable pub decode_string : String → Option (List ℕ)
unfolding value
decode_string String.[] = some []
decode_string (String.◌∷◌ c (String.◌∷◌ d (String.◌∷◌ e (String.◌∷◌ f s)))) =
    let rest = decode_string s in
    let last = one (value c) (value d) in
    if code f == b'='
    then only s (if code e == b'=' then last else two (value c) (value d) (value e))
    else three (value c) (value d) (value e) (value f) rest
decode_string _ = none

is_value : ℕ → Option ℕ → Bool
is_value i none = false
is_value i (some j) = i == j

-- Every number below this is the value of its letter, and its letter is no padding.
letters_read : ℕ → Bool
unfolding is_value letter value
letters_read zero = true
letters_read (suc i) =
    let rest = letters_read i in
    is_value i (value (letter i)) && not (code (letter i) == b'=') && rest

all_letters_read : letters_read 64 ≡ true
unfolding letters_read
all_letters_read = refl

is_value-eq : (i : ℕ) (o : Option ℕ) → is_value i o ≡ true → o ≡ some i
unfolding is_value
is_value-eq i none h = cc
is_value-eq i (some j) h = ground (arith, h)

letters_read-at :
    (n i : ℕ)
    → letters_read n ≡ true
    → i < n
    → (is_value i (value (letter i)) ≡ true) × ((code (letter i) == b'=') ≡ false)
unfolding letters_read
letters_read-at zero i h lt = elim lt [ ]
letters_read-at (suc n) i h lt = elim (Bool-cases (i == n)) [
  | inl e ↦
      let same : n ≡ i = ground arith in
      subst (λ k. (is_value k (value (letter k)) ≡ true) × ((code (letter k) == b'=') ≡ false)) same
        (ground (arith, h))
  | inr e ↦ letters_read-at n i (ground (arith, h)) (ground arith)
]

value-letter : (i : ℕ) → i < 64 → value (letter i) ≡ some i
value-letter i lt = is_value-eq i _ (letters_read-at 64 i all_letters_read lt).0

letter-unpadded : (i : ℕ) → i < 64 → (code (letter i) == b'=') ≡ false
letter-unpadded i lt = (letters_read-at 64 i all_letters_read lt).1

first : (a b : ℕ) → b < 256 → a / 4 * 4 + (a % 4 * 16 + b / 16) / 16 ≡ a
first a b h = omega arith

alone : (a : ℕ) → a / 4 * 4 + a % 4 * 16 / 16 ≡ a
alone a = omega arith

behind : (a b : ℕ) → b < 256 → (a % 4 * 16 + b / 16) % 16 * 16 + b % 16 * 4 / 4 ≡ b
behind a b h = omega arith

second :
    (a b c : ℕ)
    → b < 256
    → c < 256
    → (a % 4 * 16 + b / 16) % 16 * 16 + (b % 16 * 4 + c / 64) / 4 ≡ b
second a b c h k = omega arith

third : (b c : ℕ) → c < 256 → (b % 16 * 4 + c / 64) % 4 * 64 + c % 64 ≡ c
third b c h = omega arith

-- The text of any bytes stands for these bytes.
pub decode-encode :
    (bytes : List ℕ)
    → All (λ b. b < 256) bytes
    → decode_string (encode_to_string bytes) ≡ some bytes
unfolding encode_to_string decode_string
decode-encode [] h = refl
decode-encode (a ∷ []) h =
    let ha = h.0 in
    rw (value-letter (a / 4) (omega arith), value-letter (a % 4 * 16) (omega arith))
      (ap (λ x. some (x ∷ [])) (alone a))
decode-encode (a ∷ b ∷ []) h =
    let i : ℕ = a / 4 in
    let j : ℕ = a % 4 * 16 + b / 16 in
    let k : ℕ = b % 16 * 4 in
    let ha = h.0 in
    let hb = h.1.0 in
    rw (letter-unpadded k (omega arith)) (
      rw (value-letter i (omega arith), value-letter j (omega arith), value-letter k (omega arith))
        (rw (first a b hb, behind a b hb) refl))
decode-encode (a ∷ b ∷ c ∷ bytes) h =
    let i : ℕ = a / 4 in
    let j : ℕ = a % 4 * 16 + b / 16 in
    let k : ℕ = b % 16 * 4 + c / 64 in
    let l : ℕ = c % 64 in
    let ha = h.0 in
    let hb = h.1.0 in
    let hc = h.1.1.0 in
    rw (letter-unpadded l (omega arith)) (
      rw
        (
          value-letter i (omega arith),
          value-letter j (omega arith),
          value-letter k (omega arith),
          value-letter l (omega arith),
          decode-encode bytes h.1.1.1,
        )
        (rw (first a b hb, second a b c hb hc, third b c hc) refl))
