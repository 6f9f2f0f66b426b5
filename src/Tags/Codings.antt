-- ===== src/Tags/Codings.antt =====
-- The codings of the types that the fields of the structs have.
use arigo.Base.{
  ℕ, ◌^◌, ◌≡◌, refl, ap, ◌∙◌, String, Bool, true, false, ◌&&◌, Option, List, [], ◌∷◌, map, ltb,
}
use arigo.Json.{
  Json, null, str, arr, GoError, ℤ, pos, items, list_of, list_of-items, first_error, decodes_string,
}
use arigo.Tags.{stored, saved_error, Coding}
use arigo.Tags.Decimal.{decimal}
use arigo.Tags.Quoted.{
  quoted_uint, quoted_uint-decimal, quoted_int, int_text, in_int64, quoted_int-int_text,
  quoted_bool,
}

-- A string, or a type of strings.
abbrev store_string : Json → String → String × Option GoError × Bool
store_string j s = let (t, e) = decodes_string.unmarshal j s in (t, e, false)

abbrev pub text : Coding String
text = record {
  zero_value = "";
  valid = λ s. true;
  encode = str;
  store = store_string;
  store-encode = λ a old h. refl;
}

-- The numbers of so many bits, with `,string`.
abbrev pub uint : ℕ → Coding ℕ
uint width = record {
  zero_value = 0;
  valid = λ n. ltb n (2 ^ width);
  encode = λ n. str (decimal n);
  store = quoted_uint width;
  store-encode = quoted_uint-decimal width;
}

abbrev pub int : Coding ℤ
int = record {
  zero_value = pos 0;
  valid = in_int64;
  encode = λ z. str (int_text z);
  store = quoted_int;
  store-encode = quoted_int-int_text;
}

abbrev pub bool_text : Bool → String
bool_text true = "true"
bool_text false = "false"

pub quoted_bool-bool_text :
    (b old : Bool) → true ≡ true → quoted_bool (str (bool_text b)) old ≡ stored b
unfolding quoted_bool
quoted_bool-bool_text true old h = refl
quoted_bool-bool_text false old h = refl

abbrev pub bool : Coding Bool
bool = record {
  zero_value = false;
  valid = λ b. true;
  encode = λ b. str (bool_text b);
  store = quoted_bool;
  store-encode = quoted_bool-bool_text;
}

module _ {A : Type 0} (c : Coding A) where
  abbrev pub first_or_zero : List A → A
  first_or_zero [] = c.zero_value
  first_or_zero (x ∷ xs) = x

  abbrev pub rest_of : List A → List A
  rest_of [] = []
  rest_of (x ∷ xs) = xs

  abbrev pub after_item :
      List A
      → (Unit {0} → List A × Option GoError × Bool)
      → A × Option GoError × Bool
      → List A × Option GoError × Bool
  after_item olds next (x, e, true) = (x ∷ olds, e, true)
  after_item olds next (x, e, false) =
      let (xs, e', stop) = next tt in (x ∷ xs, first_error e e', stop)

  -- An entry is stored over the one that the slice had at its place.
  unfoldable pub store_items : List Json → List A → List A × Option GoError × Bool
  store_items [] olds = stored []
  store_items (j ∷ js) olds =
      after_item (rest_of olds) (λ _. store_items js (rest_of olds))
        (c.store j (first_or_zero olds))

  unfoldable pub store_slice : Json → List A → List A × Option GoError × Bool
  unfolding store_items
  store_slice null xs = stored []
  store_slice (arr js) xs = store_items (list_of js) xs
  store_slice _ xs = saved_error xs

  abbrev all_valid : List A → Bool
  all_valid [] = true
  all_valid (x ∷ xs) = c.valid x && all_valid xs

  abbrev slice_json : List A → Json
  slice_json xs = arr (items (map c.encode xs))

  and_both : (a b : Bool) → (a && b) ≡ true → (a ≡ true) × (b ≡ true)
  and_both true b h = (refl, h)
  and_both false b h = cc

  store_items-encode :
      (xs olds : List A) → all_valid xs ≡ true → store_items (map c.encode xs) olds ≡ stored xs
  unfolding store_items
  store_items-encode [] olds h = refl
  store_items-encode (x ∷ xs) olds h =
      let (hx, hxs) = and_both (c.valid x) (all_valid xs) h in
      rw (c.store-encode x (first_or_zero olds) hx) (
        ap (λ (r : List A × Option GoError × Bool). (x ∷ r.0, r.1, r.2))
          (store_items-encode xs (rest_of olds) hxs))

  pub store_slice-encode :
      (xs olds : List A) → all_valid xs ≡ true → store_slice (slice_json xs) olds ≡ stored xs
  unfolding store_slice
  store_slice-encode xs olds h =
      ap (λ (js : List Json). store_items js olds) (list_of-items (map c.encode xs))
      ∙ store_items-encode xs olds h

  abbrev pub slice : Coding (List A)
  slice = record {
    zero_value = [];
    valid = all_valid;
    encode = slice_json;
    store = store_slice;
    store-encode = store_slice-encode;
  }
