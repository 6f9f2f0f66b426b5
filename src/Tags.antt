-- ===== src/Tags.antt =====
-- What encoding/json does with a struct whose fields have tags: each field has a key, is written and
-- read by the coding of its type, and is left out where the tag says omitempty and it is empty. Used
-- by the structs of this repository; the library is Go's.
pub mod Decimal
pub mod Quoted
pub mod Codings
pub mod Members
pub mod Entries
pub mod Documented
use text.Mathlib.Text.{◌==◌ as str_eq}
use arigo.Base.{String, Bool, true, false, Option, none, some, List, [], ◌∷◌, if◌then◌else◌, ◌≡◌}
use arigo.Json.{
  Json, null, obj, Fields, end, field, GoError, unmarshal_error, names_field, first_error, Decodes,
}

-- The new value, the error that is kept, and whether it ends the decoding of all that is around.
abbrev pub Stored : Type 0 → Type 0
Stored A = A × Option GoError × Bool

abbrev pub stored {ℓ} : {A : Type ℓ} → A → A × Option GoError × Bool
stored a = (a, none, false)

abbrev pub saved_error {ℓ} : {A : Type ℓ} → A → A × Option GoError × Bool
saved_error a = (a, some unmarshal_error, false)

abbrev pub stopped {ℓ} : {A : Type ℓ} → A → A × Option GoError × Bool
stopped a = (a, some unmarshal_error, true)

-- How the values of a type are written and read. What is valid is read back as it was written,
-- whatever the variable held.
pub record Coding (A : Type 0) : Type 0 where
  pub zero_value : A
  pub valid : A → Bool
  pub encode : A → Json
  pub store : Json → A → A × Option GoError × Bool
  pub store-encode : (a old : A) → valid a ≡ true → store (encode a) old ≡ stored a

-- A field of the struct `S`. `copy s t` is `t` with this field of `s`, if it is not left out.
pub record Member (S : Type 0) : Type 0 where
  pub key : String
  pub omits : S → Bool
  pub valid : S → Bool
  pub member_json : S → Json
  pub store : Json → S → S × Option GoError × Bool
  pub copy : S → S → S
  pub store-json :
      (s t : S) → valid s ≡ true → omits s ≡ false → store (member_json s) t ≡ stored (copy s t)
  pub copy-omits : (s t : S) → omits s ≡ true → copy s t ≡ t

module _ {S A : Type 0} where
  abbrev pub put_stored : (A → S) → A × Option GoError × Bool → S × Option GoError × Bool
  put_stored put (a, e, stop) = (put a, e, stop)

module _ {S : Type 0} where
  unfoldable pub exact_member : String → List (Member S) → Option (Member S)
  exact_member key [] = none
  exact_member key (m ∷ ms) = if str_eq m.key key then some m else exact_member key ms

  unfoldable pub folded_member : String → List (Member S) → Option (Member S)
  folded_member key [] = none
  folded_member key (m ∷ ms) = if names_field key m.key then some m else folded_member key ms

  abbrev or_else : Option (Member S) → Option (Member S) → Option (Member S)
  or_else none o = o
  or_else (some m) o = some m

  -- The field of the key itself, or else the first one whose key agrees up to case.
  unfoldable pub find_member : String → List (Member S) → Option (Member S)
  unfolding exact_member folded_member
  find_member key ms = or_else (exact_member key ms) (folded_member key ms)

  abbrev after_member :
      (S → S × Option GoError × Bool) → S × Option GoError × Bool → S × Option GoError × Bool
  after_member next (s, e, true) = (s, e, true)
  after_member next (s, e, false) = let (s', e', stop) = next s in (s', first_error e e', stop)

  abbrev pub take_entry :
      (S → S × Option GoError × Bool) → Json → S → Option (Member S) → S × Option GoError × Bool
  take_entry next v s none = next s
  take_entry next v s (some m) = after_member next (m.store v s)

  -- The entries of an object, in their order; one that no field takes is skipped.
  pub decode_fields : List (Member S) → Fields → S → S × Option GoError × Bool
  unfolding find_member
  decode_fields ms end s = stored s
  decode_fields ms (field key v fs) s = take_entry (decode_fields ms fs) v s (find_member key ms)

  unfoldable pub store_struct : List (Member S) → Json → S → S × Option GoError × Bool
  unfolding decode_fields
  store_struct ms null s = stored s
  store_struct ms (obj fs) s = decode_fields ms fs s
  store_struct ms _ s = saved_error s

  pub members_json : List (Member S) → S → Fields
  members_json [] s = end
  members_json (m ∷ ms) s =
      let rest = members_json ms s in if m.omits s then rest else field m.key (m.member_json s) rest

  unfoldable pub struct_json : List (Member S) → S → Json
  unfolding members_json
  struct_json ms s = obj (members_json ms s)
