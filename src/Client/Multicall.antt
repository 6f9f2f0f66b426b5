-- ===== src/Client/Multicall.antt =====
-- multicall.go, and MultiCall of client.go.
use arigo.Proto
use arigo.Tags.{Member, Coding, exact_member, store_struct}
use arigo.Tags.Codings
use arigo.Tags.Members.{member, distinct, struct}
use arigo.Base.{true}
use text.Mathlib.Text.{◌==◌ as str_eq}
use arigo.Base.{
  ℕ, ◌≡◌, refl, ap, ◌∙◌, String, Bool, ◌&&◌, Option, none, some, List, [], ◌∷◌, map, ◌==◌,
  if◌then◌else◌,
}
use arigo.Json.{
  Json, null, str, arr, obj, nil, cons, end, field, GoError, items, unmarshal-raws, Decodes,
  decodes_raw, decodes_slice, decodes_string,
}
use arigo.Client.{Client, Slice, Rpc, replied, call-replied, get_args, call}

pub record MethodCall : Type 0 where
  pub method_name : String
  pub params : Slice Json

pub new_method_call : String → Slice Json → MethodCall
new_method_call name params = record { method_name = name; params = params }

pub method_call_json : MethodCall → Json
method_call_json m =
    obj (field "methodName" (str m.method_name) (field "params" (call_params m.params) end))
  where
    call_params : Slice Json → Json
    call_params none = null
    call_params (some js) = arr (items js)

pub record MethodCallError : Type 0 where
  pub code : ℕ
  pub message : String

-- Error of a MethodCallError.
pub error_text : MethodCallError → String
error_text e = e.message

abbrev pub no_error : MethodCallError
no_error = record { code = 0; message = "" }

abbrev pub method_call_error_members : List (Member MethodCallError)
method_call_error_members =
    member "code" (Codings.uint 64) (λ s. s.code) (λ x s. record s { code = x })
    ∷ member "message" Codings.text (λ s. s.message) (λ x s. record s { message = x })
    ∷ []

pub method_call_error_members-distinct : distinct method_call_error_members ≡ true
unfolding exact_member
method_call_error_members-distinct = refl

abbrev pub method_call_error : Coding MethodCallError
method_call_error =
    struct method_call_error_members no_error method_call_error_members-distinct (λ s t. refl)

-- _ = json.Unmarshal(rawResult, &methodErr): what is set, whatever the error.
pub unmarshal_method_error : Json → MethodCallError
unfolding store_struct
unmarshal_method_error j = (method_call_error.store j no_error).0

-- The first entry of an array of length one that raw is decoded to; `none` is a nil RawMessage.
pub first_result : Json → Option Json
first_result (arr (cons j js)) = some j
first_result j = none

-- Error holds a pointer: `none` is the nil error.
pub record MethodResult : Type 0 where
  pub result : Option Json
  pub error : Option MethodCallError

is_no_error : MethodCallError → Bool
is_no_error e = e.code == 0 && str_eq e.message ""

pub method_result : Json → MethodResult
unfolding unmarshal_method_error first_result is_no_error
method_result raw =
    let e = unmarshal_method_error raw in
    record { result = if is_no_error e then first_result raw else none; error = some e }

-- What MethodResult.Unmarshal returns: nil, the error of the method, or one of encoding/json.
pub data Unmarshalled : Type 0 where
  unmarshalled : Unmarshalled
  method_failed : MethodCallError → Unmarshalled
  json_failed : GoError → Unmarshalled

or_json_failed : Option GoError → Unmarshalled
or_json_failed none = unmarshalled
or_json_failed (some e) = json_failed e

module _ {A : Type 0} ⦃d : Decodes A⦄ where
  -- The empty text of a nil RawMessage is a syntax error.
  unmarshal_result : Option Json → A → A × Unmarshalled
  unfolding or_json_failed
  unmarshal_result none v = (v, json_failed GoError.unmarshal_error)
  unmarshal_result (some j) v = let (v', e) = d.unmarshal j v in (v', or_json_failed e)

  pub unmarshal : MethodResult → A → A × Unmarshalled
  unfolding unmarshal_result
  unmarshal res v = elim res.error [
    | some e ↦ (v, method_failed e)
    | none ↦ unmarshal_result res.result v
  ]

-- The reply of aria2 to a method that succeeded, and what MultiCall makes of it.
abbrev pub one : Json → Json
one j = arr (cons j nil)

abbrev pub success : Json → MethodResult
success j = record { result = some j; error = some no_error }

pub methods_json : Slice MethodCall → Json
unfolding method_call_json
methods_json none = null
methods_json (some ms) = arr (items (map method_call_json ms))

unfoldable pub multi_call_args : Client → Slice MethodCall → List Json
unfolding get_args methods_json
multi_call_args c methods = get_args c (some (methods_json methods ∷ []))

results-ones : (values : List Json) → map method_result (map one values) ≡ map success values
unfolding method_result
results-ones [] = refl
results-ones (j ∷ js) = ap (λ rs. success j ∷ rs) (results-ones js)

module _ {W : Type 0} (rpc : Rpc W) where
  unfoldable pub multi_call : Client → Slice MethodCall → W → List MethodResult × Option GoError × W
  unfolding call method_result multi_call_args
  multi_call c methods w =
      let (raws, err, w') =
        call rpc {A = List Json} Proto.multicall (multi_call_args c methods) w in
      (map method_result raws, err, w')

  -- A reply that is an array of one-entry arrays, the way aria2 reports successes, gives as many
  -- results, each with the entry of its method in order and an error of code 0 with no message.
  pub multi_call-successes :
      (c : Client) (methods : Slice MethodCall) (values : List Json) (w w' : W)
      → rpc Proto.multicall (multi_call_args c methods) w
        ≡ (replied (arr (items (map one values))), w')
      → multi_call c methods w ≡ (map success values, none, w')
  unfolding multi_call
  multi_call-successes c methods values w w' h =
      ap (λ (r : List Json × Option GoError × W). (map method_result r.0, r.1, r.2))
        (call-replied rpc Proto.multicall (multi_call_args c methods) w w' _ (map one values) h
          (unmarshal-raws (map one values)))
      ∙ ap (λ rs. (rs, none, w')) (results-ones values)
