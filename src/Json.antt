-- ===== src/Json.antt =====
-- JSON values, and what encoding/json does with them: `json.Unmarshal` into the Go types that the
-- program decodes. A `json.RawMessage` is the value whose text it holds. A number literal with no
-- sign, fraction or exponent is `number`, one with a minus sign is `negative`, and any other one is
-- `numeral`, with its text.
use Prim.Native.Char.{code}
use arigo.Base.{
  ℕ, ◌+◌, ◌-◌, ◌^◌, String, Bool, true, false, ◌&&◌, ◌||◌, Option, none, some, List, [], ◌∷◌, map,
  arith, ltb, ◌==◌, if◌then◌else◌, ◌≡◌, refl, ap,
}

mutual
  pub data Json : Type 0 where
    null : Json
    bool : Bool → Json
    number : ℕ → Json
    negative : ℕ → Json
    numeral : String → Json
    str : String → Json
    arr : Items → Json
    obj : Fields → Json

  pub data Items : Type 0 where
    nil : Items
    cons : Json → Items → Items

  pub data Fields : Type 0 where
    end : Fields
    field : String → Json → Fields → Fields

-- The errors that the program meets or makes.
pub data GoError : Type 0 where
  eof closed_pipe missing_params invalid_sequence download_error download_stopped : GoError
  unmarshal_error : GoError
  -- an error of the connection, of aria2 or of a library, by its text
  other : String → GoError

abbrev pub items : List Json → Items
items [] = nil
items (j ∷ js) = cons j (items js)

abbrev pub list_of : Items → List Json
list_of nil = []
list_of (cons j js) = j ∷ list_of js

pub list_of-items : (js : List Json) → list_of (items js) ≡ js
list_of-items [] = refl
list_of-items (j ∷ js) = ap (λ k. j ∷ k) (list_of-items js)

-- A key of an object names a field of a struct if the two agree up to the case of ASCII letters;
-- encoding/json also takes U+017F for `s` and U+212A for `k`.
fold_code : ℕ → ℕ
fold_code c =
    if ltb 64 c && ltb c 91
    then c + 32
    else if c == 0x17f
    then b's'
    else if c == 0x212a
    then b'k'
    else c

fold_codes : String → List ℕ
unfolding fold_code
fold_codes String.[] = []
fold_codes (String.◌∷◌ c s) = fold_code (code c) ∷ fold_codes s

same_codes : List ℕ → List ℕ → Bool
same_codes [] [] = true
same_codes (a ∷ xs) (b ∷ ys) = a == b && same_codes xs ys
same_codes _ _ = false

unfoldable pub names_field : String → String → Bool
unfolding fold_codes same_codes
names_field key name = same_codes (fold_codes key) (fold_codes name)

-- The first error of a decoding is reported, and decoding goes on behind it.
abbrev pub first_error : Option GoError → Option GoError → Option GoError
first_error none e = e
first_error (some e) _ = some e

-- json.Unmarshal(raw, &x): the new value of x, and the error. It may set part of x and fail.
pub record Decodes (A : Type 0) : Type 0 where
  -- the value of `var x A`
  pub zero_value : A
  pub unmarshal : Json → A → A × Option GoError
  -- whether the error ends the decoding of all that is around
  pub stops : Json → A → Bool

abbrev unmarshal_string : Json → String → String × Option GoError
unmarshal_string null s = (s, none)
unmarshal_string (str t) s = (t, none)
unmarshal_string _ s = (s, some unmarshal_error)

instance abbrev pub decodes_string : Decodes String
decodes_string = record { zero_value = ""; unmarshal = unmarshal_string; stops = λ j s. false }

abbrev pub unmarshal_uint : ℕ → Json → ℕ → ℕ × Option GoError
unmarshal_uint width null n = (n, none)
unmarshal_uint width (number m) n =
    if ltb m (2 ^ width) then (m, none) else (n, some unmarshal_error)
unmarshal_uint width _ n = (n, some unmarshal_error)

-- uint and uint64, on the 64-bit platforms.
instance abbrev pub decodes_uint : Decodes ℕ
decodes_uint = record { zero_value = 0; unmarshal = unmarshal_uint 64; stops = λ j n. false }

-- A Go int: `negsuc n` is -(n + 1).
pub data ℤ : Type 0 where
  pos : ℕ → ℤ
  negsuc : ℕ → ℤ

abbrev pub int_json : ℤ → Json
int_json (pos n) = number n
int_json (negsuc n) = negative (n + 1)

abbrev unmarshal_int : Json → ℤ → ℤ × Option GoError
unmarshal_int null z = (z, none)
unmarshal_int (number m) z = if ltb m (2 ^ 63) then (pos m, none) else (z, some unmarshal_error)
unmarshal_int (negative m) z =
    if m == 0
    then (pos 0, none)
    else if ltb (2 ^ 63) m
    then (z, some unmarshal_error)
    else (negsuc (m - 1), none)
unmarshal_int _ z = (z, some unmarshal_error)

instance abbrev pub decodes_int : Decodes ℤ
decodes_int = record { zero_value = pos 0; unmarshal = unmarshal_int; stops = λ j z. false }

-- A json.RawMessage takes any value.
instance abbrev pub decodes_raw : Decodes Json
decodes_raw = record { zero_value = null; unmarshal = λ j old. (j, none); stops = λ j old. false }

abbrev any_of : (Json → Bool) → List Json → Bool
any_of p [] = false
any_of p (j ∷ js) = p j || any_of p js

module _ {A : Type 0} ⦃d : Decodes A⦄ where
  abbrev unmarshal_items : List Json → List A × Option GoError
  unmarshal_items [] = ([], none)
  unmarshal_items (j ∷ js) =
      let (x, e) = d.unmarshal j d.zero_value in
      let (xs, e') = unmarshal_items js in
      if d.stops j d.zero_value then (x ∷ [], e) else (x ∷ xs, first_error e e')

  abbrev unmarshal_slice : Json → List A → List A × Option GoError
  unmarshal_slice null xs = ([], none)
  unmarshal_slice (arr js) xs = unmarshal_items (list_of js)
  unmarshal_slice _ xs = (xs, some unmarshal_error)

  abbrev slice_stops : Json → List A → Bool
  slice_stops (arr js) xs = any_of (λ j. d.stops j d.zero_value) (list_of js)
  slice_stops _ xs = false

  -- A slice; the nil slice and an empty one are not told apart where they are decoded.
  instance abbrev pub decodes_slice : Decodes (List A)
  decodes_slice = record { zero_value = []; unmarshal = unmarshal_slice; stops = slice_stops }

-- Arrays of raw values and of texts decode to the lists that they hold.
pub unmarshal-raws :
    (js : List Json) → (decodes_slice {A = Json}).unmarshal (arr (items js)) [] ≡ (js, none)
unmarshal-raws [] = refl
unmarshal-raws (j ∷ js) = ground (arith, unmarshal-raws js)

pub unmarshal-strs :
    (ss : List String)
    → (decodes_slice {A = String}).unmarshal (arr (items (map str ss))) [] ≡ (ss, none)
unmarshal-strs [] = refl
unmarshal-strs (s ∷ ss) = ground (arith, unmarshal-strs ss)
