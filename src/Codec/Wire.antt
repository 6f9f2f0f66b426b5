-- ===== src/Codec/Wire.antt =====
-- `message` of jsonrpc.go, and how encoding/json fills it.
use arigo.Base.{String, Option, none, some, if◌then◌else◌}
use arigo.Json.{
  Json, null, obj, Fields, end, field, GoError, unmarshal_error, names_field, first_error,
  decodes_string,
}

pub record Message : Type 0 where
  pub method : String
  pub params : Option Json
  pub id : Option Json
  pub result : Option Json
  pub error : Option Json

-- message{}
abbrev pub new_message : Message
new_message = record { method = ""; params = none; id = none; result = none; error = none }

-- A *json.RawMessage or an interface{}: the JSON null sets nil.
abbrev pub raw : Json → Option Json
raw null = none
raw j = some j

set_field : String → Json → Message → Message × Option GoError
unfolding names_field
set_field key v m =
    if names_field key "method"
    then (let (s, e) = decodes_string.unmarshal v m.method in (record m { method = s }, e))
    else if names_field key "params"
    then (record m { params = raw v }, none)
    else if names_field key "id"
    then (record m { id = raw v }, none)
    else if names_field key "result"
    then (record m { result = raw v }, none)
    else if names_field key "error"
    then (record m { error = raw v }, none)
    else (m, none)

set_fields : Fields → Message → Message × Option GoError
unfolding set_field
set_fields end m = (m, none)
set_fields (field key v fs) m =
    let (m', e) = set_field key v m in let (m'', e') = set_fields fs m' in (m'', first_error e e')

unfoldable pub unmarshal_message : Json → Message × Option GoError
unfolding set_fields
unmarshal_message null = (new_message, none)
unmarshal_message (obj fs) = set_fields fs new_message
unmarshal_message _ = (new_message, some unmarshal_error)
