-- ===== src/Tags/Quoted.antt =====
-- The option `,string`: a number or a Boolean inside a text, as encoding/json stores it.
use Prim.Native.Char.{Char, char, code}
use text.Mathlib.Text.{◌==◌ as str_eq}
use arigo.Base.{
  ℕ, suc, ◌-◌, ◌^◌, ◌<◌, ◌≡◌, refl, sym, ap, ◌∙◌, String, Bool, true, false, ◌&&◌, ◌||◌, Option,
  none, some, ltb, ◌==◌, if◌then◌else◌, arith,
}
use arigo.Json.{Json, null, str, GoError, ℤ, pos, negsuc}
use arigo.Tags.{stored, saved_error, stopped}
use arigo.Tags.Decimal.{
  is_digit, decimal, parse_uint, parse_int, parse_digits, decimal-form, parse-decimal, map_option,
  negated,
}

is_hex : ℕ → Bool
unfolding is_digit
is_hex c = is_digit c || ltb 96 c && ltb c 103 || ltb 64 c && ltb c 71

is_escape : ℕ → Bool
is_escape c =
    c == 34
    || c == b'\\'
    || c == b'/'
    || c == 39
    || c == b'b'
    || c == b'f'
    || c == b'n'
    || c == b'r'
    || c == b't'

-- Behind an opening quote: the rest of a text literal, up to its closing quote at the very end. The
-- number counts the hexadecimal digits that an escape still wants.
mutual
  unfolding is_hex is_escape

  closes : ℕ → String → Bool
  closes n String.[] = false
  closes n (String.◌∷◌ c s) =
      let next = closes 0 s in
      let hex = closes (n - 1) s in
      let escaped = after_escape s in
      if ltb 0 n
      then is_hex (code c) && hex
      else if code c == 34
      then str_eq s ""
      else if code c == b'\\'
      then escaped
      else ltb 31 (code c) && next

  after_escape : String → Bool
  after_escape String.[] = false
  after_escape (String.◌∷◌ c s) =
      let hex = closes 4 s in
      let next = closes 0 s in if code c == b'u' then hex else is_escape (code c) && next

module _ {A : Type 0} where
  -- The text, by its first character: `boolean` takes true and false, `number` what starts with a
  -- digit or a minus sign.
  store_text :
      (Bool → A → A × Option GoError × Bool)
      → (String → A → A × Option GoError × Bool)
      → String
      → A
      → A × Option GoError × Bool
  unfolding closes is_digit
  store_text boolean number String.[] a = saved_error a
  store_text boolean number (String.◌∷◌ c s) a =
      if is_digit (code c) || code c == b'-'
      then number (String.◌∷◌ c s) a
      else if code c == b'n'
      then (if str_eq (String.◌∷◌ c s) "null" then stored a else saved_error a)
      else if code c == b't' || code c == b'f'
      then (if str_eq (String.◌∷◌ c s) "true"
          then boolean true a
          else if str_eq (String.◌∷◌ c s) "false"
          then boolean false a
          else saved_error a)
      else if code c == 34 && closes 0 s
      then saved_error a
      else stopped a

  store_quoted :
      (Bool → A → A × Option GoError × Bool)
      → (String → A → A × Option GoError × Bool)
      → Json
      → A
      → A × Option GoError × Bool
  unfolding store_text
  store_quoted boolean number null a = stored a
  store_quoted boolean number (str s) a = store_text boolean number s a
  store_quoted boolean number j a = saved_error a

  store_quoted-number :
      (boolean : Bool → A → A × Option GoError × Bool)
      (number : String → A → A × Option GoError × Bool) (c : Char) (t : String) (a : A)
      → is_digit (code c) ≡ true
      → store_quoted boolean number (str (String.◌∷◌ c t)) a ≡ number (String.◌∷◌ c t) a
  unfolding store_quoted store_text
  store_quoted-number boolean number c t a h = rw h refl

store_uint : ℕ → Option ℕ → ℕ → ℕ × Option GoError × Bool
store_uint width none n = saved_error n
store_uint width (some m) n = if ltb m (2 ^ width) then stored m else saved_error n

unfoldable pub quoted_uint : ℕ → Json → ℕ → ℕ × Option GoError × Bool
unfolding store_quoted store_uint parse_uint
quoted_uint width = store_quoted (λ b n. saved_error n) (λ s n. store_uint width (parse_uint s) n)

store_int : Option ℤ → ℤ → ℤ × Option GoError × Bool
store_int none z = saved_error z
store_int (some (pos n)) z = if ltb n (2 ^ 63) then stored (pos n) else saved_error z
store_int (some (negsuc n)) z = if ltb n (2 ^ 63) then stored (negsuc n) else saved_error z

unfoldable pub quoted_int : Json → ℤ → ℤ × Option GoError × Bool
unfolding store_quoted store_int parse_int
quoted_int = store_quoted (λ b z. saved_error z) (λ s z. store_int (parse_int s) z)

unfoldable pub quoted_bool : Json → Bool → Bool × Option GoError × Bool
unfolding store_quoted
quoted_bool = store_quoted (λ b old. stored b) (λ s old. stopped old)

parse_uint-decimal : (n : ℕ) → parse_uint (decimal n) ≡ some n
unfolding parse_uint
parse_uint-decimal n =
    let (c, t, e, d) = decimal-form n in
    rw e (ap (λ (s : String). parse_digits 0 s) (sym e) ∙ parse-decimal n)

pub quoted_uint-decimal :
    (width n old : ℕ)
    → ltb n (2 ^ width) ≡ true
    → quoted_uint width (str (decimal n)) old ≡ stored n
unfolding quoted_uint
quoted_uint-decimal width n old h =
    let (c, t, e, d) = decimal-form n in
    ap (λ (s : String). quoted_uint width (str s) old) e
    ∙ store_quoted-number (λ b k. saved_error k) (λ s k. store_uint width (parse_uint s) k) c t old
        d
    ∙ ap (λ (s : String). store_uint width (parse_uint s) old) (sym e)
    ∙ ap (λ (o : Option ℕ). store_uint width o old) (parse_uint-decimal n)
    ∙ rw h refl

store_uint-lt :
    (width : ℕ) (o : Option ℕ) (old : ℕ) → old < 2 ^ width → (store_uint width o old).0 < 2 ^ width
unfolding store_uint
store_uint-lt width none old h = h
store_uint-lt width (some m) old h = ground arith

parse_int-digits :
    (c : Char) (t : String)
    → is_digit (code c) ≡ true
    → parse_int (String.◌∷◌ c t) ≡ map_option pos (parse_uint (String.◌∷◌ c t))
unfolding parse_int is_digit
parse_int-digits c t h = ground arith

-- A number of the type, or what the variable held, is all that it can come to hold.
pub quoted_uint-lt :
    (width : ℕ) (j : Json) (old : ℕ) → old < 2 ^ width → (quoted_uint width j old).0 < 2 ^ width
unfolding quoted_uint
quoted_uint-lt width null old h = h
quoted_uint-lt width (str String.[]) old h = h
quoted_uint-lt width (str (String.◌∷◌ c s)) old h =
    ground (arith, store_uint-lt width (parse_uint (String.◌∷◌ c s)) old)
quoted_uint-lt width j old h = h

pub int_text : ℤ → String
int_text (pos n) = decimal n
int_text (negsuc n) = String.◌∷◌ (char b'-' tt) (decimal (suc n))

unfoldable pub in_int64 : ℤ → Bool
in_int64 (pos n) = ltb n (2 ^ 63)
in_int64 (negsuc n) = ltb n (2 ^ 63)

store_int-in_int64 :
    (o : Option ℤ) (old : ℤ) → in_int64 old ≡ true → in_int64 (store_int o old).0 ≡ true
unfolding store_int in_int64
store_int-in_int64 none old h = h
store_int-in_int64 (some (pos n)) old h = ground (arith, h)
store_int-in_int64 (some (negsuc n)) old h = ground (arith, h)

pub quoted_int-in_int64 :
    (j : Json) (old : ℤ) → in_int64 old ≡ true → in_int64 (quoted_int j old).0 ≡ true
unfolding quoted_int
quoted_int-in_int64 null old h = h
quoted_int-in_int64 (str String.[]) old h = h
quoted_int-in_int64 (str (String.◌∷◌ c s)) old h =
    ground (arith, store_int-in_int64 (parse_int (String.◌∷◌ c s)) old h, h)
quoted_int-in_int64 j old h = h

pub quoted_int-int_text :
    (z old : ℤ) → in_int64 z ≡ true → quoted_int (str (int_text z)) old ≡ stored z
unfolding quoted_int int_text in_int64
quoted_int-int_text (pos n) old h =
    let (c, t, e, d) = decimal-form n in
    ap (λ (s : String). quoted_int (str s) old) e
    ∙ store_quoted-number (λ b k. saved_error k) (λ s k. store_int (parse_int s) k) c t old d
    ∙ ap (λ (o : Option ℤ). store_int o old) (parse_int-digits c t d)
    ∙ ap (λ (s : String). store_int (map_option pos (parse_uint s)) old) (sym e)
    ∙ ap (λ (o : Option ℕ). store_int (map_option pos o) old) (parse_uint-decimal n)
    ∙ rw h refl
quoted_int-int_text (negsuc n) old h =
    ap (λ (o : Option ℕ). store_int (map_option negated o) old) (parse_uint-decimal (suc n))
    ∙ rw h refl
